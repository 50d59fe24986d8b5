-- ===== src/Text/Memory.antt =====
-- What `memcpy` and `memset` of kernel/util.c leave in memory.
use matanos.Base.{
  ℕ, zero, suc, ◌+◌, ◌<◌, ◌≤◌, ◌⊎◌, inl, inr, List, length, length-set, get_or, get_or-set_self,
  get_or-set_ne, set, ok, read-get_or, write-set, ◌≡◌, refl, sym, ◌∙◌, arith,
}
use matanos.Text.{copy_bytes, memcpy}

-- The memory `after` has `n` bytes from `source` on of `before` at `dest`, and is otherwise the same.
unfoldable pub IsCopy : (source dest n : ℕ) → (before after : List ℕ) → Type 0
IsCopy source dest n before after =
    (length after ≡ length before)
    × ((k : ℕ) → k < n → get_or after (dest + k) 0 ≡ get_or before (source + k) 0)
    × ((k : ℕ) → (k < dest) ⊎ (dest + n ≤ k) → get_or after k 0 ≡ get_or before k 0)

-- What the loop of `memcpy` leaves when it starts at byte `i`.
unfoldable pub IsTail : (i source dest n : ℕ) → (before after : List ℕ) → Type 0
IsTail i source dest n before after =
    (length after ≡ length before)
    × ((k : ℕ) → i ≤ k → k < i + n → get_or after (dest + k) 0 ≡ get_or before (source + k) 0)
    × ((k : ℕ) → (k < dest + i) ⊎ (dest + i + n ≤ k) → get_or after k 0 ≡ get_or before k 0)

pub copy_bytes_lem :
    (left i source dest : ℕ) (mem : List ℕ)
    → source + i + left ≤ length mem
    → dest + i + left ≤ length mem
    → (dest ≤ source) ⊎ (source + i + left ≤ dest + i)
    → (mem' : List ℕ) × (copy_bytes left i source dest mem ≡ ok mem')
      × IsTail i source dest left mem mem'
unfolding copy_bytes IsTail
copy_bytes_lem zero i source dest mem hs hd apart =
    (mem, refl, (refl, (λ k lo hi. absurd (omega arith)), λ k out. refl))
copy_bytes_lem (suc left) i source dest mem hs hd apart =
    let b = get_or mem (source + i) 0 in
    let one = set mem (dest + i) b in
    let len = length-set mem (dest + i) b in
    let (mem', run, (len', inside, outside)) =
      copy_bytes_lem left (i + 1) source dest one (omega (arith, len)) (omega (arith, len))
        (still source dest left i apart) in
    (
      mem',
      rw (read-get_or mem (source + i) 0 (omega arith), write-set mem (dest + i) b (omega arith))
          run,
      (
        len' ∙ len,
        (λ k lo hi. copied left i source dest mem mem' k lo hi (omega arith) apart inside outside),
        (λ k out.
            outside k (wider left i dest k out)
            ∙ get_or-set_ne mem (dest + i) k b 0 (λ e. elsewhere left i dest k out e)),
      ),
    )
  where
    still :
        (source dest left i : ℕ)
        → (dest ≤ source) ⊎ (source + i + suc left ≤ dest + i)
        → (dest ≤ source) ⊎ (source + (i + 1) + left ≤ dest + (i + 1))
    still source dest left i (inl h) = inl h
    still source dest left i (inr h) = inr (omega arith)

    wider :
        (left i dest k : ℕ)
        → (k < dest + i) ⊎ (dest + i + suc left ≤ k)
        → (k < dest + (i + 1)) ⊎ (dest + (i + 1) + left ≤ k)
    wider left i dest k (inl h) = inl (omega arith)
    wider left i dest k (inr h) = inr (omega arith)

    elsewhere : (left i dest k : ℕ) → (k < dest + i) ⊎ (dest + i + suc left ≤ k) → ¬ (dest + i ≡ k)
    elsewhere left i dest k (inl h) e = omega arith
    elsewhere left i dest k (inr h) e = omega arith

    split : (i k : ℕ) → i ≤ k → (i ≡ k) ⊎ (i + 1 ≤ k)
    split i k h = ground arith

    source_kept :
        (i source dest left k : ℕ)
        → i + 1 ≤ k
        → k < i + suc left
        → (dest ≤ source) ⊎ (source + i + suc left ≤ dest + i)
        → ¬ (dest + i ≡ source + k)
    source_kept i source dest left k lo hi (inl h) e = omega arith
    source_kept i source dest left k lo hi (inr h) e = omega arith

    copied :
        (left i source dest : ℕ) (mem mem' : List ℕ) (k : ℕ)
        → i ≤ k
        → k < i + suc left
        → dest + i < length mem
        → (dest ≤ source) ⊎ (source + i + suc left ≤ dest + i)
        → ((j : ℕ)
            → i + 1 ≤ j
            → j < i + 1 + left
            → get_or mem' (dest + j) 0
              ≡ get_or (set mem (dest + i) (get_or mem (source + i) 0)) (source + j) 0)
        → ((j : ℕ)
            → (j < dest + (i + 1)) ⊎ (dest + (i + 1) + left ≤ j)
            → get_or mem' j 0 ≡ get_or (set mem (dest + i) (get_or mem (source + i) 0)) j 0)
        → get_or mem' (dest + k) 0 ≡ get_or mem (source + k) 0
    copied left i source dest mem mem' k lo hi room apart inside outside = elim (split i k lo) [
      | inl e ↦ rw (sym e) (
          outside (dest + i) (inl (omega arith))
          ∙ get_or-set_self mem (dest + i) (get_or mem (source + i) 0) 0 room)
      | inr l ↦
          inside k l (omega arith)
          ∙ get_or-set_ne mem (dest + i) (source + k) (get_or mem (source + i) 0) 0
              (source_kept i source dest left k l hi apart)
    ]

-- With both ranges inside the memory, and the destination at or below the source, or behind its
-- range, `memcpy` copies the bytes as they were before the call, also where the ranges overlap,
-- and changes nothing else.
pub memcpy_lem :
    (source dest n : ℕ) (mem : List ℕ)
    → source + n ≤ length mem
    → dest + n ≤ length mem
    → (dest ≤ source) ⊎ (source + n ≤ dest)
    → (mem' : List ℕ) × (memcpy source dest n mem ≡ ok mem') × IsCopy source dest n mem mem'
unfolding memcpy IsCopy IsTail
memcpy_lem source dest n mem hs hd apart =
    let (mem', run, (len, inside, outside)) =
      copy_bytes_lem n 0 source dest mem (omega arith) (omega arith)
        (from_zero source dest n apart) in
    (
      mem',
      run,
      (
        len,
        (λ k h. inside k (omega arith) (omega arith)),
        λ k out. outside k (around dest n k out),
      ),
    )
  where
    from_zero :
        (source dest n : ℕ)
        → (dest ≤ source) ⊎ (source + n ≤ dest)
        → (dest ≤ source) ⊎ (source + 0 + n ≤ dest + 0)
    from_zero source dest n (inl h) = inl h
    from_zero source dest n (inr h) = inr (omega arith)

    around : (dest n k : ℕ) → (k < dest) ⊎ (dest + n ≤ k) → (k < dest + 0) ⊎ (dest + 0 + n ≤ k)
    around dest n k (inl h) = inl (omega arith)
    around dest n k (inr h) = inr (omega arith)
