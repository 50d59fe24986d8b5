-- ===== src/Interrupts/Install.antt =====
-- The table that `isr_install` of cpu/isr.c loads.
use matanos.Base.{
  ℕ, zero, suc, ◌+◌, ◌*◌, ◌/◌, ◌^◌, ◌<◌, ◌≤◌, arith, List, [], ◌∷◌, ok, true, ◌⊎◌, inl, inr, ◌≡◌,
  refl, bit_and-low_ones, write-set, get_or, set, length, get_or-set_self, get_or-set_ne,
  length-set, length-replicate, replicate, ◌∙◌,
}
use matanos.Ports.{Ports}
use matanos.Pic.{pic_remap}
use matanos.Interrupts.{
  IdtGate, Idt, Stubs, low_16, high_16, kernel_gate, user_gate, set_idt_gate, set_idt_gate_user,
  set_idt_gates, set_idt, isr_install, exception_stubs, request_stubs, zero_gate,
}

-- The offset that the processor reads from a gate.
unfoldable pub gate_offset : IdtGate → ℕ
gate_offset g = g.low_offset + g.high_offset * 2 ^ 16

pub halves : (h : ℕ) → h < 2 ^ 32 → low_16 h + high_16 h * 2 ^ 16 ≡ h
unfolding low_16 high_16
halves h lt = omega (arith, bit_and-low_ones 16 h, bit_and-low_ones 16 (h / 2 ^ 16))

-- Installing handlers for successive vectors gives each its gate and changes no other.
unfoldable pub Installed : ℕ → List ℕ → (before after : List IdtGate) → Type 0
Installed n hs before after =
    (length after ≡ length before)
    × ((i : ℕ)
        → i < length hs
        → (d : IdtGate) → get_or after (n + i) d ≡ kernel_gate (get_or hs i 0))
    × ((k : ℕ)
        → (k < n) ⊎ (n + length hs ≤ k)
        → (d : IdtGate) → get_or after k d ≡ get_or before k d)

pub set_idt_gates_lem :
    (n : ℕ) (hs : List ℕ) (idt : List IdtGate)
    → n + length hs ≤ length idt
    → (idt' : List IdtGate) × (set_idt_gates n hs idt ≡ ok idt') × Installed n hs idt idt'
unfolding set_idt_gates set_idt_gate Installed
set_idt_gates_lem n [] idt room =
    (idt, refl, (refl, λ i h d. absurd (omega arith), λ k out d. refl))
set_idt_gates_lem n (h ∷ hs) idt room =
    let g = kernel_gate h in
    let first = length-set idt n g in
    let (idt', run, (len, own, others)) =
      set_idt_gates_lem (suc n) hs (set idt n g) (omega arith) in
    (
      idt',
      rw (write-set idt n g (omega arith)) run,
      (
        len ∙ first,
        own_gate n h hs idt idt' (omega arith) own (λ d. others n (inl (omega arith)) d),
        λ k out d.
            others k (later n k (length hs) out) d
            ∙ get_or-set_ne idt n k g d (λ e. apart_from n k (length hs) out e),
      ),
    )
  where
    own_gate :
        (n h : ℕ) (hs : List ℕ) (idt idt' : List IdtGate)
        → n < length idt
        → ((i : ℕ)
            → i < length hs
            → (d : IdtGate) → get_or idt' (suc n + i) d ≡ kernel_gate (get_or hs i 0))
        → ((d : IdtGate) → get_or idt' n d ≡ get_or (set idt n (kernel_gate h)) n d)
        → (i : ℕ) → i < length (h ∷ hs)
        → (d : IdtGate) → get_or idt' (n + i) d ≡ kernel_gate (get_or (h ∷ hs) i 0)
    own_gate n h hs idt idt' room own here zero lt d =
        let e : n + 0 ≡ n = omega arith in
        rw e (here d ∙ get_or-set_self idt n (kernel_gate h) d room)
    own_gate n h hs idt idt' room own here (suc i) lt d =
        let e : n + suc i ≡ suc n + i = omega arith in rw e (own i (omega arith) d)

    later : (n k l : ℕ) → (k < n) ⊎ (n + suc l ≤ k) → (k < suc n) ⊎ (suc n + l ≤ k)
    later n k l (inl h) = inl (omega arith)
    later n k l (inr h) = inr (omega arith)

    apart_from : (n k l : ℕ) → (k < n) ⊎ (n + suc l ≤ k) → ¬ (n ≡ k)
    apart_from n k l (inl h) e = omega arith
    apart_from n k l (inr h) e = omega arith

-- The table of 256 gates after `isr_install`: exceptions, requests, the system call, and nothing else.
unfoldable pub IsTable : Stubs → List IdtGate → Type 0
IsTable st gs =
    (length gs ≡ 256)
    × ((k : ℕ)
        → k < 32
        → (d : IdtGate) → get_or gs k d ≡ kernel_gate (get_or (exception_stubs st) k 0))
    × ((i : ℕ)
        → i < 16
        → (d : IdtGate) → get_or gs (32 + i) d ≡ kernel_gate (get_or (request_stubs st) i 0))
    × ((d : IdtGate) → get_or gs 128 d ≡ user_gate st.isr128)
    × ((k : ℕ) → 48 ≤ k → k < 256 → ¬ (128 ≡ k) → (d : IdtGate) → get_or gs k d ≡ zero_gate)

get_or-replicate : {A : Type 0} (n k : ℕ) (a d : A) → k < n → get_or (replicate n a) k d ≡ a
get_or-replicate zero k a d h = absurd (omega arith)
get_or-replicate (suc n) zero a d h = refl
get_or-replicate (suc n) (suc k) a d h = get_or-replicate n k a d (omega arith)

-- `isr_install` returns. It leaves the vectors 0 to 31 with the gates of the exception stubs,
-- 32 to 47 with those of the request stubs, 128 with a gate that user code may call, and every
-- other gate zero, and it enables interrupts.
pub isr_install_lem :
    {S : Type 0} (p : Ports S) (st : Stubs) (t : Idt) (s : S)
    → (t' : Idt) × (isr_install p st t s ≡ ok (t', pic_remap p 0x20 0x28 s))
      × IsTable st t'.idt
      × (t'.interrupts ≡ true)
unfolding isr_install set_idt_gate_user set_idt Installed IsTable
isr_install_lem p st t s =
    let blank = replicate 256 zero_gate in
    let (one, run1, (len1, own1, others1)) =
      set_idt_gates_lem 0 (exception_stubs st) blank
        (omega (arith, length-replicate 256 zero_gate)) in
    let (two, run2, (len2, own2, others2)) =
      set_idt_gates_lem 32 (request_stubs st) one (omega (arith, length-replicate 256 zero_gate)) in
    let g = user_gate st.isr128 in
    let len : length two ≡ 256 = len2 ∙ len1 ∙ length-replicate 256 zero_gate in
    (
      record (set_idt (record t { idt = set two 128 g })) { interrupts = true },
      rw (run1, run2, write-set two 128 g (omega arith)) refl,
      (
        length-set two 128 g ∙ len,
        (λ k h d.
            get_or-set_ne two 128 k g d (λ e. omega arith)
            ∙ others2 k (inl h) d
            ∙ (let e : 0 + k ≡ k = omega arith in rw e at (own1 k h d))),
        (λ i h d. get_or-set_ne two 128 (32 + i) g d (λ e. omega arith) ∙ own2 i h d),
        (λ d. get_or-set_self two 128 g d (omega arith)),
        (λ k lo hi ne d.
            get_or-set_ne two 128 k g d ne
            ∙ others2 k (inr lo) d
            ∙ others1 k (inr (omega arith)) d
            ∙ get_or-replicate 256 k zero_gate d hi),
      ),
      refl,
    )
