-- ===== src/Frames/Tests.antt =====
-- A table of 64 frames at work, and the theorems at it.
use matanos.Base.{
  ℕ, zero, suc, ◌*◌, ◌/◌, ◌<◌, ◌≤◌, ◌≡◌, refl, ◌≢◌, [], ◌∷◌, arith, if◌then◌else◌, ◌==◌, ok, read,
  write, bit, bit-ones, get_or, ◌^◌, ◌%◌,
}
use matanos.Frames.{
  Page, FrameTable, set_frame, clear_frame, first_frame, find_word, find_bit, alloc_frame,
  free_frame,
}
use matanos.Frames.Used.{used, IsTable}
use matanos.Frames.Alloc.{Given, alloc_frame-least, free_frame_leak}

-- The first 32 frames and frames 32, 33 and 35 are used.
abbrev table : FrameTable
table = record { frames = 0xFFFFFFFF ∷ 0xB ∷ []; nframes = 64 }

abbrev full : FrameTable
full = record { frames = 0xFFFFFFFF ∷ []; nframes = 32 }

abbrev blank : Page
blank = record {
  present = 0;
  rw_flag = 0;
  user = 0;
  accessed = 0;
  dirty = 0;
  unused = 0;
  frame = 0;
}

first_frame_runs : first_frame table ≡ ok 34
unfolding first_frame find_word find_bit read
first_frame_runs = refl

set_frame_runs :
    set_frame (34 * 0x1000) table ≡ ok (record table { frames = 0xFFFFFFFF ∷ 0xF ∷ [] })
unfolding set_frame read write
set_frame_runs = refl

free_frame_runs :
    free_frame (record blank { frame = 35 }) table
    ≡ ok (blank, record table { frames = 0xFFFFFFFE ∷ 0xB ∷ [] })
unfolding free_frame clear_frame read write
free_frame_runs = refl

table-wide : (i : ℕ) → get_or table.frames i 0 < 2 ^ 32
table-wide zero = omega arith
table-wide (suc zero) = omega arith
table-wide (suc (suc i)) = omega arith

table-IsTable : IsTable table
table-IsTable = record { words = refl; few = omega arith; wide = table-wide }

full-wide : (i : ℕ) → get_or full.frames i 0 < 2 ^ 32
full-wide zero = omega arith
full-wide (suc i) = omega arith

full-IsTable : IsTable full
full-IsTable = record { words = refl; few = omega arith; wide = full-wide }

full-used : (f : ℕ) → f < full.nframes → used full f ≡ 1
full-used f h = let word : f / 32 ≡ 0 = omega arith in rw word (bit-ones 32 (f % 32) (omega arith))

alloc_frame-least_example :
    (page' : Page) × (t' : FrameTable) × (r : ℕ) × (alloc_frame blank 0 1 table ≡ ok (page', t'))
    × (r ≤ 40)
    × (used table r ≡ 0)
    × ((g : ℕ) → g < r → used table g ≡ 1)
    × Given blank page' 0 1 r
    × IsTable t'
    × (t'.nframes ≡ 64)
    × ((g : ℕ) → used t' g ≡ (if g == r then 1 else used table g))
alloc_frame-least_example =
    alloc_frame-least blank 0 1 table 40 table-IsTable refl (omega arith) (unfold bit in refl)

free_frame_leak_example :
    (t' : FrameTable) × (free_frame (record blank { frame = 35 }) table ≡ ok (blank, t'))
    × IsTable t'
    × (used t' 0 ≡ 0)
    × (used t' 35 ≡ used table 35)
    × ((g : ℕ) → g ≢ 0 → used t' g ≡ used table g)
free_frame_leak_example =
    free_frame_leak (record blank { frame = 35 }) table table-IsTable (omega arith) (omega arith)
      (omega arith)
