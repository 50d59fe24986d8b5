-- ===== src/Frames/Alloc.antt =====
-- `alloc_frame` and `free_frame`: which frame a page gets, and which bit is cleared.
use matanos.Base.{
  ℕ, ◌*◌, ◌/◌, ◌%◌, ◌^◌, ◌≤◌, ◌<◌, ◌≡◌, refl, ap, ◌∙◌, ◌≢◌, arith, ◌==◌, eq→==, ne→==,
  if◌then◌else◌, u32, ok, fault,
}
use matanos.Frames.{Page, FrameTable, alloc_frame, free_frame}
use matanos.Frames.Used.{used, IsTable, set_frame-used, clear_frame-used}
use matanos.Frames.Search.{first_frame-least, first_frame_full}

-- A page that has a frame keeps it, and nothing changes.
pub alloc_frame_again :
    (page : Page) (k w : ℕ) (t : FrameTable)
    → page.frame ≢ 0
    → alloc_frame page k w t ≡ ok (page, t)
unfolding alloc_frame
alloc_frame_again page k w t h = rw (ne→== page.frame 0 h)

-- What a page holds after it has been given frame `r`.
pub record Given (page page' : Page) (is_kernel is_writeable r : ℕ) : Type 0 where
  pub frame : page'.frame ≡ r
  pub present : page'.present ≡ 1
  pub rw_flag : page'.rw_flag ≡ (if is_writeable == 0 then 0 else 1)
  pub user : page'.user ≡ (if is_kernel == 0 then 1 else 0)
  pub accessed : page'.accessed ≡ page.accessed
  pub dirty : page'.dirty ≡ page.dirty
  pub unused : page'.unused ≡ page.unused

-- While some frame is free, a page without a frame is given the least free one with the flags of
-- the call; that frame is then used, and no other frame's mark has changed.
pub alloc_frame-least :
    (page : Page) (is_kernel is_writeable : ℕ) (t : FrameTable) (f : ℕ)
    → IsTable t
    → page.frame ≡ 0
    → f < t.nframes
    → used t f ≡ 0
    → (page' : Page) × (t' : FrameTable) × (r : ℕ) × (alloc_frame page is_kernel is_writeable t
        ≡ ok (page', t'))
      × (r ≤ f)
      × (used t r ≡ 0)
      × ((g : ℕ) → g < r → used t g ≡ 1)
      × Given page page' is_kernel is_writeable r
      × IsTable t'
      × (t'.nframes ≡ t.nframes)
      × ((g : ℕ) → used t' g ≡ (if g == r then 1 else used t g))
unfolding alloc_frame
alloc_frame-least page is_kernel is_writeable t f valid none_yet h free =
    let (r, found, le, was_free, least) = first_frame-least t f valid h free in
    let address : u32 (r * 0x1000) / 0x1000 ≡ r = omega (arith, valid.few) in
    let (t', stored, valid', same, marks) =
      set_frame-used (u32 (r * 0x1000)) t valid (omega arith) in
    (
      record page {
        present = 1;
        rw_flag = if is_writeable == 0 then 0 else 1;
        user = if is_kernel == 0 then 1 else 0;
        frame = r % 2 ^ 20;
      },
      t',
      r,
      rw (
        eq→== page.frame 0 none_yet,
        found,
        ne→== r 0xFFFFFFFF (omega (arith, valid.few)),
        stored,
      ),
      le,
      was_free,
      least,
      record {
        frame = omega (arith, valid.few);
        present = refl;
        rw_flag = refl;
        user = refl;
        accessed = refl;
        dirty = refl;
        unused = refl;
      },
      valid',
      same,
      λ g. marks g ∙ ap (λ (k : ℕ). if g == k then 1 else used t g) address,
    )

-- When all frames are used, `alloc_frame` of a page without a frame is undefined: the check for
-- -1 in front of PANIC is never reached with that value.
alloc_frame_full :
    (page : Page) (k w : ℕ) (t : FrameTable)
    → IsTable t
    → page.frame ≡ 0
    → ((f : ℕ) → f < t.nframes → used t f ≡ 1)
    → alloc_frame page k w t ≡ fault
unfolding alloc_frame
alloc_frame_full page k w t valid none_yet all =
    rw (eq→== page.frame 0 none_yet, first_frame_full t valid all)

-- `free_frame` clears the bit of frame `page.frame / 4096`, since it hands over the frame's index
-- where an address is wanted; the page loses its frame, and all other marks stay. So the bit of
-- the page's own frame stays set (frame numbers being below 4096), and that of frame 0 is cleared.
pub free_frame_leak :
    (page : Page) (t : FrameTable)
    → IsTable t
    → page.frame ≢ 0
    → page.frame < 0x1000
    → 0 < t.nframes
    → (t' : FrameTable) × (free_frame page t ≡ ok (record page { frame = 0 }, t'))
      × IsTable t'
      × (used t' 0 ≡ 0)
      × (used t' page.frame ≡ used t page.frame)
      × ((g : ℕ) → g ≢ 0 → used t' g ≡ used t g)
unfolding free_frame
free_frame_leak page t valid some_frame low pos =
    let zeroth : page.frame / 0x1000 ≡ 0 = omega arith in
    let (t', cleared, valid', same, marks) = clear_frame-used page.frame t valid (omega arith) in
    let at_zero : (g : ℕ) → used t' g ≡ (if g == 0 then 0 else used t g) =
      λ g. marks g ∙ ap (λ (k : ℕ). if g == k then 0 else used t g) zeroth in
    (
      t',
      rw (ne→== page.frame 0 some_frame, cleared),
      valid',
      at_zero 0 ∙ refl,
      at_zero page.frame ∙ rw (ne→== page.frame 0 some_frame),
      λ g other. at_zero g ∙ rw (ne→== g 0 other),
    )
