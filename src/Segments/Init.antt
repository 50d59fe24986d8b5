-- ===== src/Segments/Init.antt =====
-- What `init_gdt` of cpu/isr.c leaves for the processor.
use matanos.Base.{
  ℕ, ◌+◌, ◌%◌, ◌^◌, ◌<◌, arith, List, [], ◌∷◌, u32, ok, write, ◌≡◌, refl, get_or, length,
}
use matanos.Segments.{GdtEntry, Tables, gate_entry, gdt_set_gate, write_tss, init_gdt}
use matanos.Segments.Decode.{
  segment_base, segment_limit, segment_flags, last_offset, gate_entry-fields,
}

-- A segment of the whole address space.
unfoldable pub IsFlat : ℕ → GdtEntry → Type 0
IsFlat access e = (segment_base e ≡ 0) × (last_offset e ≡ 0xFFFFFFFF) × (e.access ≡ access)

-- What `init_gdt` writes on a table of six entries.
unfoldable pub IsInitial : Tables → Type 0
IsInitial t =
    (length t.gdt_entries ≡ 6)
    × ((e : GdtEntry) → IsFlat 0x9A (get_or t.gdt_entries 1 e))
    × ((e : GdtEntry) → IsFlat 0x92 (get_or t.gdt_entries 2 e))
    × ((e : GdtEntry) → IsFlat 0xFA (get_or t.gdt_entries 3 e))
    × ((e : GdtEntry) → IsFlat 0xF2 (get_or t.gdt_entries 4 e))
    × ((e : GdtEntry) → segment_base (get_or t.gdt_entries 5 e) ≡ t.tss_address)
    × ((e : GdtEntry) → segment_limit (get_or t.gdt_entries 5 e) ≡ (t.tss_address + 104) % 2 ^ 20)
    × (t.gdt_ptr.limit ≡ 47)
    × (t.gdt_ptr.base ≡ t.gdt_address)
    × (t.tss_entry.ss0 ≡ 0x10)

init_gdt-on :
    (t : Tables) (es : List GdtEntry)
    → length es ≡ 6
    → t.tss_address + 104 < 2 ^ 32
    → (t' : Tables) × (init_gdt (record t { gdt_entries = es }) ≡ ok t') × IsInitial t'
unfolding init_gdt gdt_set_gate write write_tss IsInitial IsFlat segment_base last_offset
    segment_limit segment_flags gate_entry
init_gdt-on t (e0 ∷ e1 ∷ e2 ∷ e3 ∷ e4 ∷ e5 ∷ []) h room =
    let (fb, fl, ff) =
      gate_entry-fields t.tss_address (u32 (t.tss_address + 104)) 0xE9 0x00 (omega arith)
        (omega arith) in
    (
      _,
      refl,
      (
        refl,
        (λ x. (refl, refl, refl)),
        (λ x. (refl, refl, refl)),
        (λ x. (refl, refl, refl)),
        (λ x. (refl, refl, refl)),
        (λ x. fb),
        (λ x. omega (arith, fl)),
        refl,
        refl,
        refl,
      ),
    )
init_gdt-on t [] h room = absurd (omega arith)
init_gdt-on t (e0 ∷ []) h room = absurd (omega arith)
init_gdt-on t (e0 ∷ e1 ∷ []) h room = absurd (omega arith)
init_gdt-on t (e0 ∷ e1 ∷ e2 ∷ []) h room = absurd (omega arith)
init_gdt-on t (e0 ∷ e1 ∷ e2 ∷ e3 ∷ []) h room = absurd (omega arith)
init_gdt-on t (e0 ∷ e1 ∷ e2 ∷ e3 ∷ e4 ∷ []) h room = absurd (omega arith)
init_gdt-on t (e0 ∷ e1 ∷ e2 ∷ e3 ∷ e4 ∷ e5 ∷ e6 ∷ es) h room = absurd (omega arith)

-- On a table of six entries, and with the task state segment ending below 2 ^ 32, `init_gdt`
-- returns. It leaves four segments of the whole address space, code and data, kernel and user, and
-- the descriptor of the task state segment, which begins where that segment lies. The limit of that
-- descriptor is the low 20 bits of the segment's end, not of its size.
pub init_gdt_lem :
    (t : Tables)
    → length t.gdt_entries ≡ 6
    → t.tss_address + 104 < 2 ^ 32
    → (t' : Tables) × (init_gdt t ≡ ok t') × IsInitial t'
init_gdt_lem t h room = init_gdt-on t t.gdt_entries h room
