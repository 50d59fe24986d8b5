-- ===== src/Screen/Scroll.antt =====
-- How the screen of drivers/screen.c scrolls.
use matanos.Base.{
  ℕ, zero, suc, ◌+◌, ◌-◌, ◌*◌, ◌<◌, ◌≤◌, ◌⊎◌, inl, inr, List, length, length-set, get_or,
  get_or-set_self, get_or-set_ne, set, ok, write-set, ◌≡◌, refl, sym, ◌∙◌, arith,
}
use matanos.Text.{memset}
use matanos.Text.Memory.{IsCopy, memcpy_lem}
use matanos.Screen.{move_rows, scroll}

-- `memset` writes a range and nothing else.
pub memset_lem :
    (dest val len : ℕ) (mem : List ℕ)
    → dest + len ≤ length mem
    → (mem' : List ℕ) × (memset dest val len mem ≡ ok mem')
      × (length mem' ≡ length mem)
      × ((k : ℕ) → dest ≤ k → k < dest + len → get_or mem' k 0 ≡ val)
      × ((k : ℕ) → (k < dest) ⊎ (dest + len ≤ k) → get_or mem' k 0 ≡ get_or mem k 0)
unfolding memset
memset_lem dest val zero mem h = (mem, refl, refl, (λ k lo hi. absurd (omega arith)), λ k out. refl)
memset_lem dest val (suc len) mem h =
    let same = length-set mem dest val in
    let (mem', run, len', inside, outside) =
      memset_lem (dest + 1) val len (set mem dest val) (omega (arith, same)) in
    (
      mem',
      rw (write-set mem dest val (omega arith)) run,
      len' ∙ same,
      (λ k lo hi. written dest val len mem mem' k lo hi (omega arith) inside outside),
      (λ k out.
          outside k (wider dest len k out)
          ∙ get_or-set_ne mem dest k val 0 (λ e. elsewhere dest len k out e)),
    )
  where
    wider :
        (dest len k : ℕ) → (k < dest) ⊎ (dest + suc len ≤ k) → (k < dest + 1) ⊎ (dest + 1 + len ≤ k)
    wider dest len k (inl h) = inl (omega arith)
    wider dest len k (inr h) = inr (omega arith)

    elsewhere : (dest len k : ℕ) → (k < dest) ⊎ (dest + suc len ≤ k) → ¬ (dest ≡ k)
    elsewhere dest len k (inl h) e = omega arith
    elsewhere dest len k (inr h) e = omega arith

    here_or_later : (dest k : ℕ) → dest ≤ k → (dest ≡ k) ⊎ (dest + 1 ≤ k)
    here_or_later dest k h = ground arith

    written :
        (dest val len : ℕ) (mem mem' : List ℕ) (k : ℕ)
        → dest ≤ k
        → k < dest + suc len
        → dest < length mem
        → ((j : ℕ) → dest + 1 ≤ j → j < dest + 1 + len → get_or mem' j 0 ≡ val)
        → ((j : ℕ)
            → (j < dest + 1) ⊎ (dest + 1 + len ≤ j)
            → get_or mem' j 0 ≡ get_or (set mem dest val) j 0)
        → get_or mem' k 0 ≡ val
    written dest val len mem mem' k lo hi room inside outside = elim (here_or_later dest k lo) [
      | inl e ↦ rw (sym e) (outside dest (inl (omega arith)) ∙ get_or-set_self mem dest val 0 room)
      | inr l ↦ inside k l (omega arith)
    ]

-- Rows `i` to `i + left - 1` have moved up by one, and the rows above are as they were.
pub move_rows_lem :
    (left i : ℕ) (mem : List ℕ)
    → 1 ≤ i
    → 160 * (i + left) ≤ length mem
    → (mem' : List ℕ) × (move_rows left i mem ≡ ok mem')
      × (length mem' ≡ length mem)
      × ((k : ℕ)
          → 160 * (i - 1) ≤ k
          → k < 160 * (i - 1 + left)
          → get_or mem' k 0 ≡ get_or mem (k + 160) 0)
      × ((k : ℕ) → k < 160 * (i - 1) → get_or mem' k 0 ≡ get_or mem k 0)
unfolding move_rows IsCopy
move_rows_lem zero i mem h room = (mem, refl, refl, (λ k lo hi. absurd (omega arith)), λ k lt. refl)
move_rows_lem (suc left) i mem h room =
    let (one, run1, (len1, inside1, outside1)) =
      memcpy_lem (2 * (i * 80)) (2 * ((i - 1) * 80)) (80 * 2) mem (omega arith) (omega arith)
        (inl (omega arith)) in
    let (mem', run, len, inside, above) =
      move_rows_lem left (i + 1) one (omega arith) (omega arith) in
    (
      mem',
      rw run1 run,
      len ∙ len1,
      (λ k lo hi. moved left i mem one mem' k h lo hi inside1 outside1 inside above),
      (λ k lt. above k (omega arith) ∙ outside1 k (inl (omega arith))),
    )
  where
    row_or_later : (i k : ℕ) → 1 ≤ i → (k < 160 * i) ⊎ (160 * i ≤ k)
    row_or_later i k h = ground arith

    moved :
        (left i : ℕ) (mem one mem' : List ℕ) (k : ℕ)
        → 1 ≤ i
        → 160 * (i - 1) ≤ k
        → k < 160 * (i - 1 + suc left)
        → ((j : ℕ)
            → j < 80 * 2
            → get_or one (2 * ((i - 1) * 80) + j) 0 ≡ get_or mem (2 * (i * 80) + j) 0)
        → ((j : ℕ)
            → (j < 2 * ((i - 1) * 80)) ⊎ (2 * ((i - 1) * 80) + 80 * 2 ≤ j)
            → get_or one j 0 ≡ get_or mem j 0)
        → ((j : ℕ)
            → 160 * (i + 1 - 1) ≤ j
            → j < 160 * (i + 1 - 1 + left)
            → get_or mem' j 0 ≡ get_or one (j + 160) 0)
        → ((j : ℕ) → j < 160 * (i + 1 - 1) → get_or mem' j 0 ≡ get_or one j 0)
        → get_or mem' k 0 ≡ get_or mem (k + 160) 0
    moved left i mem one mem' k h lo hi inside1 outside1 inside above = elim (row_or_later i k h) [
      | inl lt ↦
          let j = k - 2 * ((i - 1) * 80) in
          let to : 2 * ((i - 1) * 80) + j ≡ k = omega arith in
          let from : 2 * (i * 80) + j ≡ k + 160 = omega arith in
          above k (omega arith) ∙ rw (to, from) at (inside1 j (omega arith))
      | inr le ↦ inside k (omega arith) (omega arith) ∙ outside1 (k + 160) (inr (omega arith))
    ]

-- On a screen of 4000 bytes scrolling returns a screen of 4000 bytes, on which every row but the
-- last is the row that was below it, and the last row is zero.
pub scroll_lem :
    (mem : List ℕ)
    → length mem ≡ 4000
    → (mem' : List ℕ) × (scroll mem ≡ ok mem')
      × (length mem' ≡ 4000)
      × ((k : ℕ) → k < 3840 → get_or mem' k 0 ≡ get_or mem (k + 160) 0)
      × ((k : ℕ) → 3840 ≤ k → k < 4000 → get_or mem' k 0 ≡ 0)
unfolding scroll
scroll_lem mem h =
    let (one, run1, len1, moved, above) = move_rows_lem 24 1 mem (omega arith) (omega arith) in
    let (two, run2, len2, inside, outside) =
      memset_lem (2 * (24 * 80)) 0 (80 * 2) one (omega arith) in
    (
      two,
      rw run1 run2,
      omega arith,
      (λ k lt. outside k (inl (omega arith)) ∙ moved k (omega arith) (omega arith)),
      (λ k lo hi. inside k (omega arith) (omega arith)),
    )
