-- ===== src/Heap/Blocks.antt =====
-- The heap as a row of blocks and holes, each with its header and its footer.
use matanos.Base.{ℕ, ◌+◌, ◌-◌, ◌^◌, ◌<◌, ◌≤◌, inl, inr, List, [], ◌∷◌, ◌++◌, ◌≡◌, ◌∙◌, arith}
use matanos.Memory.{Memory, load8, store8, store32}
use matanos.Memory.Frame.{
  Agree, AgreeOff, AgreeOff-Agree, AgreeOff-widen, AgreeOff-trans, load32-Agree, load8-Agree,
  load32-store32, store8_self, store8-AgreeOff, store32-AgreeOff,
}
use matanos.Heap.{
  magic_number, header_magic, header_is_hole, header_size, footer_magic, footer_header,
  write_header, write_footer,
}

-- A block of `size` bytes at `a`, a hole if `hole` is 1, whose header and footer are in order.
pub record IsBlock (m : Memory) (a size hole : ℕ) : Type 0 where
  pub large : 20 ≤ size
  pub inside : a + size < 2 ^ 32
  pub magic : header_magic m a ≡ magic_number
  pub kind : header_is_hole m a ≡ hole
  pub extent : header_size m a ≡ size
  pub end_magic : footer_magic m (a + (size - 8)) ≡ magic_number
  pub back : footer_header m (a + (size - 8)) ≡ a

-- Blocks side by side from `a` to `e`, each with its size and its kind.
unfoldable pub Blocks : Memory → ℕ → List (ℕ × ℕ) → ℕ → Type 0
Blocks m a [] e = a ≡ e
Blocks m a ((size, hole) ∷ bs) e = IsBlock m a size hole × Blocks m (a + size) bs e

pub IsBlock-Agree :
    (m m' : Memory) (a size hole : ℕ)
    → Agree a size m m'
    → IsBlock m a size hole
    → IsBlock m' a size hole
unfolding header_magic header_is_hole header_size footer_magic footer_header
IsBlock-Agree m m' a size hole same b =
    let large = b.large in
    record {
      large = b.large;
      inside = b.inside;
      magic = load32-Agree a m m' (λ k lo hi. same k (omega arith) (omega arith)) ∙ b.magic;
      kind = load8-Agree (a + 4) m m' (λ k lo hi. same k (omega arith) (omega arith)) ∙ b.kind;
      extent = load32-Agree (a + 8) m m' (λ k lo hi. same k (omega arith) (omega arith)) ∙ b.extent;
      end_magic =
          load32-Agree (a + (size - 8)) m m' (λ k lo hi. same k (omega arith) (omega arith))
          ∙ b.end_magic;
      back =
          load32-Agree (a + (size - 8) + 4) m m' (λ k lo hi. same k (omega arith) (omega arith))
          ∙ b.back;
    }

pub Blocks-le : (m : Memory) (a : ℕ) (bs : List (ℕ × ℕ)) (e : ℕ) → Blocks m a bs e → a ≤ e
unfolding Blocks
Blocks-le m a [] e h = omega arith
Blocks-le m a ((size, hole) ∷ bs) e (b, h) = omega (arith, Blocks-le m (a + size) bs e h)

-- What lies in a row of blocks is all that matters to it.
pub Blocks-Agree :
    (m m' : Memory) (a : ℕ) (bs : List (ℕ × ℕ)) (e : ℕ)
    → ((k : ℕ) → a ≤ k → k < e → m' k ≡ m k)
    → Blocks m a bs e
    → Blocks m' a bs e
unfolding Blocks
Blocks-Agree m m' a [] e same h = h
Blocks-Agree m m' a ((size, hole) ∷ bs) e same (b, h) =
    let bound = Blocks-le m (a + size) bs e h in
    (
      IsBlock-Agree m m' a size hole (λ k lo hi. same k lo (omega arith)) b,
      Blocks-Agree m m' (a + size) bs e (λ k lo hi. same k (omega arith) hi) h,
    )

pub Blocks-append :
    (m : Memory) (a : ℕ) (xs ys : List (ℕ × ℕ)) (b e : ℕ)
    → Blocks m a xs b
    → Blocks m b ys e
    → Blocks m a (xs ++ ys) e
unfolding Blocks
Blocks-append m a [] ys b e p q = rw p q
Blocks-append m a ((size, hole) ∷ xs) ys b e (x, p) q =
    (x, Blocks-append m (a + size) xs ys b e p q)

-- A change inside a gap of a row keeps what is before and behind the gap.
pub Blocks-around :
    (m m' : Memory) (a : ℕ) (pre : List (ℕ × ℕ)) (h n : ℕ) (mid post : List (ℕ × ℕ)) (e : ℕ)
    → AgreeOff h n m m'
    → Blocks m a pre h
    → Blocks m' h mid (h + n)
    → Blocks m (h + n) post e
    → Blocks m' a (pre ++ (mid ++ post)) e
Blocks-around m m' a pre h n mid post e off before middle behind =
    Blocks-append m' a pre (mid ++ post) h e
      (Blocks-Agree m m' a pre h (λ k lo hi. off k (inl hi)) before)
      (Blocks-append m' h mid post (h + n) e middle
        (Blocks-Agree m m' (h + n) post e (λ k lo hi. off k (inr lo)) behind))

pub write_header-AgreeOff :
    (h hole size : ℕ) (m : Memory) → AgreeOff h 12 m (write_header h hole size m)
unfolding write_header
write_header-AgreeOff h hole size m =
    let m1 = store32 m h magic_number in
    let m2 = store8 m1 (h + 4) hole in
    AgreeOff-trans h 12 m m2 (store32 m2 (h + 8) size)
      (AgreeOff-trans h 12 m m1 m2
        (AgreeOff-widen h 12 h 4 m m1 (store32-AgreeOff m h magic_number) (omega arith)
          (omega arith))
        (AgreeOff-widen h 12 (h + 4) 1 m1 m2 (store8-AgreeOff m1 (h + 4) hole) (omega arith)
          (omega arith)))
      (AgreeOff-widen h 12 (h + 8) 4 m2 (store32 m2 (h + 8) size) (store32-AgreeOff m2 (h + 8) size)
        (omega arith) (omega arith))

pub write_footer-AgreeOff : (f header : ℕ) (m : Memory) → AgreeOff f 8 m (write_footer f header m)
unfolding write_footer
write_footer-AgreeOff f header m =
    let m1 = store32 m f magic_number in
    AgreeOff-trans f 8 m m1 (store32 m1 (f + 4) header)
      (AgreeOff-widen f 8 f 4 m m1 (store32-AgreeOff m f magic_number) (omega arith) (omega arith))
      (AgreeOff-widen f 8 (f + 4) 4 m1 (store32 m1 (f + 4) header)
        (store32-AgreeOff m1 (f + 4) header) (omega arith) (omega arith))

-- A header that is written is read back.
pub write_header-fields :
    (h hole size : ℕ) (m : Memory)
    → size < 2 ^ 32
    → (header_magic (write_header h hole size m) h ≡ magic_number)
      × (header_is_hole (write_header h hole size m) h ≡ hole)
      × (header_size (write_header h hole size m) h ≡ size)
unfolding write_header header_magic header_is_hole header_size load8
write_header-fields h hole size m small =
    let m1 = store32 m h magic_number in
    let m2 = store8 m1 (h + 4) hole in
    let m3 = store32 m2 (h + 8) size in
    (
      load32-Agree h m2 m3 (
            AgreeOff-Agree (h + 8) 4 h 4 m2 m3 (store32-AgreeOff m2 (h + 8) size)
              (inl (omega arith)))
          ∙ load32-Agree h m1 m2 (
              AgreeOff-Agree (h + 4) 1 h 4 m1 m2 (store8-AgreeOff m1 (h + 4) hole)
                (inl (omega arith)))
          ∙ load32-store32 m h magic_number (omega arith),
      store32-AgreeOff m2 (h + 8) size (h + 4) (inl (omega arith)) ∙ store8_self m1 (h + 4) hole,
      load32-store32 m2 (h + 8) size small,
    )

pub write_footer-fields :
    (f header : ℕ) (m : Memory)
    → header < 2 ^ 32
    → (footer_magic (write_footer f header m) f ≡ magic_number)
      × (footer_header (write_footer f header m) f ≡ header)
unfolding write_footer footer_magic footer_header
write_footer-fields f header m small =
    let m1 = store32 m f magic_number in
    let m2 = store32 m1 (f + 4) header in
    (
      load32-Agree f m1 m2 (
            AgreeOff-Agree (f + 4) 4 f 4 m1 m2 (store32-AgreeOff m1 (f + 4) header)
              (inl (omega arith)))
          ∙ load32-store32 m f magic_number (omega arith),
      load32-store32 m1 (f + 4) header small,
    )

-- Writing a header and a footer makes a block, and changes nothing outside it.
pub written-IsBlock :
    (a size hole : ℕ) (m : Memory)
    → 20 ≤ size
    → a + size < 2 ^ 32
    → IsBlock (write_footer (a + (size - 8)) a (write_header a hole size m)) a size hole
      × AgreeOff a size m (write_footer (a + (size - 8)) a (write_header a hole size m))
unfolding header_magic header_is_hole header_size
written-IsBlock a size hole m large inside =
    let m1 = write_header a hole size m in
    let f = a + (size - 8) in
    let m2 = write_footer f a m1 in
    let (magic, kind, extent) = write_header-fields a hole size m (omega arith) in
    let (end_magic, back) = write_footer-fields f a m1 (omega arith) in
    let off = write_footer-AgreeOff f a m1 in
    (
      record {
        large = large;
        inside = inside;
        magic = load32-Agree a m1 m2 (AgreeOff-Agree f 8 a 4 m1 m2 off (inl (omega arith))) ∙ magic;
        kind =
            load8-Agree (a + 4) m1 m2 (AgreeOff-Agree f 8 (a + 4) 1 m1 m2 off (inl (omega arith)))
            ∙ kind;
        extent =
            load32-Agree (a + 8) m1 m2 (AgreeOff-Agree f 8 (a + 8) 4 m1 m2 off (inl (omega arith)))
            ∙ extent;
        end_magic = end_magic;
        back = back;
      },
      AgreeOff-trans a size m m1 m2
          (AgreeOff-widen a size a 12 m m1 (write_header-AgreeOff a hole size m) (omega arith)
            (omega arith))
          (AgreeOff-widen a size f 8 m1 m2 off (omega arith) (omega arith)),
    )
