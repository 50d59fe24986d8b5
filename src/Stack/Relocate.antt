-- ===== src/Stack/Relocate.antt =====
-- The words of a stack that cpu/task.c has moved.
use matanos.Base.{
  ℕ, zero, suc, ◌+◌, ◌-◌, ◌*◌, ◌/◌, ◌^◌, ◌<◌, ◌≤◌, inl, inr, ltb, lt→ltb, le→ltb, Bool, true, false,
  ◌&&◌, if◌then◌else◌, u32, sub32, ok, ◌≡◌, refl, ap, ◌∙◌, arith,
}
use matanos.Memory.{Memory, load32, store32, copy}
use matanos.Memory.Frame.{
  AgreeOff, AgreeOff-Agree, AgreeOff-widen, AgreeOff-trans, load32-Agree, load32-store32,
  store32-AgreeOff, copy-AgreeOff, load32-copy,
}
use matanos.Stack.{remapped, remap, relocate}

-- What a round of the loop makes of the word at `i`.
record Round (old init offset i : ℕ) (m m' : Memory) : Type 0 where
  word : load32 m' i ≡ remapped old init offset (load32 m i)
  outside : AgreeOff i 4 m m'

round_memory : (old init offset i : ℕ) → Memory → Memory
round_memory old init offset i m =
    if ltb old (load32 m i) && ltb (load32 m i) init
    then store32 m i (u32 (load32 m i + offset))
    else m

chosen_word :
    (b : Bool) (i v : ℕ) (m : Memory)
    → load32 (if b then store32 m i (u32 v) else m) i ≡ (if b then u32 v else load32 m i)
chosen_word true i v m = load32-store32 m i (u32 v) (omega arith)
chosen_word false i v m = refl

chosen_outside : (b : Bool) (i v : ℕ) (m : Memory) → AgreeOff i 4 m (if b then store32 m i v else m)
chosen_outside true i v m = store32-AgreeOff m i v
chosen_outside false i v m = λ k out. refl

round_lem :
    (old init offset i : ℕ) (m : Memory)
    → Round old init offset i m (round_memory old init offset i m)
unfolding round_memory remapped
round_lem old init offset i m = record {
  word = chosen_word (ltb old (load32 m i) && ltb (load32 m i) init) i (load32 m i + offset) m;
  outside =
      chosen_outside (ltb old (load32 m i) && ltb (load32 m i) init) i (u32 (load32 m i + offset))
        m;
}

remap-step :
    (fuel i low old init offset : ℕ) (m m' : Memory)
    → low < i
    → i < 2 ^ 32
    → 4 ≤ i
    → remap fuel (i - 4) low old init offset (round_memory old init offset i m) ≡ ok m'
    → remap (suc fuel) i low old init offset m ≡ ok m'
unfolding remap round_memory
remap-step fuel i low old init offset m m' above small room run =
    let down : sub32 i 4 ≡ i - 4 = omega arith in rw (lt→ltb low i above, down) run

remap-Round :
    (n more i low old init offset : ℕ) (m : Memory)
    → low + 4 * n ≡ i
    → i < 2 ^ 32
    → (m' : Memory) × (remap (n + suc more) i low old init offset m ≡ ok m')
      × ((j : ℕ) → j < n → load32 m' (i - 4 * j) ≡ remapped old init offset (load32 m (i - 4 * j)))
      × AgreeOff (low + 4) (4 * n) m m'
unfolding remap
remap-Round zero more i low old init offset m e small =
    let rounds : 0 + suc more ≡ suc more = omega arith in
    (
      m,
      rw (rounds, le→ltb low i (omega arith)) refl,
      (λ j h. absurd (omega arith)),
      (λ k out. refl),
    )
remap-Round (suc n) more i low old init offset m e small =
    let m1 = round_memory old init offset i m in
    let r = round_lem old init offset i m in
    let rounds : suc n + suc more ≡ suc (n + suc more) = omega arith in
    let (m', run, words, outside) =
      remap-Round n more (i - 4) low old init offset m1 (omega arith) (omega arith) in
    (
      m',
      rw rounds (
          remap-step (n + suc more) i low old init offset m m' (omega arith) small (omega arith)
            run),
      (λ j h. word_at n i low j m m1 m' r (omega arith) h words outside),
      AgreeOff-trans (low + 4) (4 * suc n) m m1 m'
          (AgreeOff-widen (low + 4) (4 * suc n) i 4 m m1 (r.outside) (omega arith) (omega arith))
          (AgreeOff-widen (low + 4) (4 * suc n) (low + 4) (4 * n) m1 m' outside (omega arith)
            (omega arith)),
    )
  where
    word_at :
        (n i low j : ℕ) (m m1 m' : Memory)
        → Round old init offset i m m1
        → low + 4 * suc n ≡ i
        → j < suc n
        → ((j : ℕ)
            → j < n
            → load32 m' (i - 4 - 4 * j) ≡ remapped old init offset (load32 m1 (i - 4 - 4 * j)))
        → AgreeOff (low + 4) (4 * n) m1 m'
        → load32 m' (i - 4 * j) ≡ remapped old init offset (load32 m (i - 4 * j))
    word_at n i low zero m m1 m' r e h words outside =
        let here : i - 4 * 0 ≡ i = omega arith in
        rw here (
          load32-Agree i m1 m'
            (AgreeOff-Agree (low + 4) (4 * n) i 4 m1 m' outside (inr (omega arith)))
          ∙ r.word)
    word_at n i low (suc j) m m1 m' r e h words outside =
        let there : i - 4 * suc j ≡ i - 4 - 4 * j = omega arith in
        rw there (
          words j (omega arith)
          ∙ ap (λ w. remapped old init offset w)
              (load32-Agree (i - 4 - 4 * j) m m1
                (AgreeOff-Agree i 4 (i - 4 - 4 * j) 4 m m1 (r.outside) (inl (omega arith)))))

-- A stack from `old` up to `init`, copied below `start` where it does not reach, within `size` bytes
-- that are whole words. `relocate` returns. The word `j` words below the new top is the word at the
-- same place below the old top, remapped, unless it is the last of the `size` bytes; and bytes
-- outside the new stack and the word at `start` are as before.
pub relocate_lem :
    (start size n init old : ℕ) (m : Memory)
    → size ≡ 4 * n
    → start < 2 ^ 32
    → init + size ≤ start
    → old ≤ init
    → init ≤ old + size
    → (m' : Memory) × (relocate start size init old m ≡ ok m')
      × ((j : ℕ)
          → 0 < j
          → j < n
          → old + 4 * j ≤ init
          → load32 m' (start - 4 * j) ≡ remapped old init (start - init) (load32 m (init - 4 * j)))
      × AgreeOff (start - size) (size + 4) m m'
unfolding relocate
relocate_lem start size n init old m whole small apart below deep =
    let depth = init - old in
    let m1 = copy old (start - depth) depth m in
    let (m', run, words, outside) =
      remap-Round n 1 start (start - size) old init (start - init) m1 (omega arith) small in
    let offset : sub32 start init ≡ start - init = omega arith in
    let top : u32 (old + (start - init)) ≡ start - depth = omega arith in
    let bytes : sub32 init old ≡ depth = omega arith in
    let low : sub32 start size ≡ start - size = omega arith in
    let rounds : size / 4 + 2 ≡ n + 2 = omega arith in
    (
      m',
      rw (offset, top, bytes, low, rounds) run,
      (λ j pos lt inside.
          words j lt
          ∙ ap (λ w. remapped old init (start - init) w)
              (word_copied start init old j m pos inside (omega arith) (omega arith))),
      AgreeOff-trans (start - size) (size + 4) m m1 m'
          (AgreeOff-widen (start - size) (size + 4) (start - depth) depth m m1
            (copy-AgreeOff old (start - depth) depth m) (omega arith) (omega arith))
          (AgreeOff-widen (start - size) (size + 4) (start - size + 4) (4 * n) m1 m' outside
            (omega arith) (omega arith)),
    )
  where
    word_copied :
        (start init old j : ℕ) (m : Memory)
        → 0 < j
        → old + 4 * j ≤ init
        → init + (init - old) ≤ start
        → old ≤ init
        → load32 (copy old (start - (init - old)) (init - old) m) (start - 4 * j)
          ≡ load32 m (init - 4 * j)
    word_copied start init old j m pos inside apart below =
        let k = init - old - 4 * j in
        let to : start - 4 * j ≡ start - (init - old) + k = omega arith in
        let from : init - 4 * j ≡ old + k = omega arith in
        rw (to, from)
          (load32-copy old (start - (init - old)) (init - old) k m (inl (omega arith))
            (omega arith))
