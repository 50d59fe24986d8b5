-- ===== src/Directories/Links.antt =====
-- The entries of two directories of cpu/paging.c, and the stores of a round of `clone_directory`.
use matanos.Base.{ℕ, ◌+◌, ◌*◌, ◌^◌, ◌<◌, ◌≤◌, ◌⊎◌, inl, inr, u32, ◌≡◌, ◌∙◌, arith}
use matanos.Memory.{Memory, load32, store32, fill}
use matanos.Memory.Frame.{
  AgreeOff, AgreeOff-Agree, AgreeOff-widen, AgreeOff-trans, load32-Agree, load32-store32,
  store32-AgreeOff, fill-AgreeOff, load32-fill,
}
use matanos.Paging.{tables_at, tables_physical_at, physical_addr_at}
use matanos.Directories.{directory_size}

-- Two directories that do not overlap.
abbrev pub Apart : ℕ → ℕ → Type 0
Apart src dir = (dir + directory_size ≤ src) ⊎ (src + directory_size ≤ dir)

-- The words of the directory `src` are the same in both memories.
pub record SameEntries (src : ℕ) (m m' : Memory) : Type 0 where
  pub tables : (j : ℕ) → j < 1024 → load32 m' (tables_at src j) ≡ load32 m (tables_at src j)
  pub physicals :
      (j : ℕ)
      → j < 1024
      → load32 m' (tables_physical_at src j) ≡ load32 m (tables_physical_at src j)

pub same_entries :
    (src dir n : ℕ) (m m' : Memory)
    → n ≤ directory_size
    → AgreeOff dir n m m'
    → Apart src dir
    → SameEntries src m m'
unfolding tables_at tables_physical_at
same_entries src dir n m m' small off apart = record {
  tables = λ j h. load32-Agree (src + 4 * j) m m' (
      AgreeOff-Agree dir n (src + 4 * j) 4 m m' off
        (side src dir n (4 * j) small (omega arith) apart));
  physicals = λ j h. load32-Agree (src + 0x1000 + 4 * j) m m' (
      AgreeOff-Agree dir n (src + 0x1000 + 4 * j) 4 m m' off
        (far src dir n j small (omega arith) apart));
}
  where
    side :
        (src dir n d : ℕ)
        → n ≤ 8196
        → d + 4 ≤ 0x2000
        → (dir + 8196 ≤ src) ⊎ (src + 8196 ≤ dir)
        → (src + d + 4 ≤ dir) ⊎ (dir + n ≤ src + d)
    side src dir n d small h (inl a) = inr (omega arith)
    side src dir n d small h (inr a) = inl (omega arith)

    far :
        (src dir n j : ℕ)
        → n ≤ 8196
        → j < 1024
        → (dir + 8196 ≤ src) ⊎ (src + 8196 ≤ dir)
        → (src + 0x1000 + 4 * j + 4 ≤ dir) ⊎ (dir + n ≤ src + 0x1000 + 4 * j)
    far src dir n j small h (inl a) = inr (omega arith)
    far src dir n j small h (inr a) = inl (omega arith)

-- The two stores of a round of `clone_directory`.
pub record Linked (dir i table physical : ℕ) (m m2 : Memory) : Type 0 where
  pub own : load32 m2 (tables_at dir i) ≡ table
  pub own_physical : load32 m2 (tables_physical_at dir i) ≡ physical
  pub others :
      (j : ℕ) → j < 1024 → ¬ (j ≡ i) → load32 m2 (tables_at dir j) ≡ load32 m (tables_at dir j)
  pub others_physical :
      (j : ℕ)
      → j < 1024
      → ¬ (j ≡ i)
      → load32 m2 (tables_physical_at dir j) ≡ load32 m (tables_physical_at dir j)
  pub outside : AgreeOff dir 0x2000 m m2

apart_words : (a b : ℕ) → ¬ (a ≡ b) → (4 * a + 4 ≤ 4 * b) ⊎ (4 * b + 4 ≤ 4 * a)
apart_words a b ne = ground arith

beside :
    (base a b : ℕ)
    → ¬ (a ≡ b)
    → (base + 4 * a + 4 ≤ base + 4 * b) ⊎ (base + 4 * b + 4 ≤ base + 4 * a)
beside base a b ne = elim (apart_words a b ne) [
  | inl h ↦ inl (omega arith)
  | inr h ↦ inr (omega arith)
]

pub linked_lem :
    (dir i table physical : ℕ) (m : Memory)
    → i < 1024
    → table < 2 ^ 32
    → physical < 2 ^ 32
    → Linked dir i table physical m
        (store32 (store32 m (tables_at dir i) table) (tables_physical_at dir i) physical)
unfolding tables_at tables_physical_at
linked_lem dir i table physical m h ht hp =
    let m1 = store32 m (dir + 4 * i) table in
    let m2 = store32 m1 (dir + 0x1000 + 4 * i) physical in
    let off1 = store32-AgreeOff m (dir + 4 * i) table in
    let off2 = store32-AgreeOff m1 (dir + 0x1000 + 4 * i) physical in
    record {
      own =
          load32-Agree (dir + 4 * i) m1 m2
            (AgreeOff-Agree (dir + 0x1000 + 4 * i) 4 (dir + 4 * i) 4 m1 m2 off2 (inl (omega arith)))
          ∙ load32-store32 m (dir + 4 * i) table ht;
      own_physical = load32-store32 m1 (dir + 0x1000 + 4 * i) physical hp;
      others = λ j hj ne.
          load32-Agree (dir + 4 * j) m1 m2
            (AgreeOff-Agree (dir + 0x1000 + 4 * i) 4 (dir + 4 * j) 4 m1 m2 off2 (inl (omega arith)))
          ∙ load32-Agree (dir + 4 * j) m m1
              (AgreeOff-Agree (dir + 4 * i) 4 (dir + 4 * j) 4 m m1 off1 (beside dir j i ne));
      others_physical = λ j hj ne.
          load32-Agree (dir + 0x1000 + 4 * j) m1 m2 (
            AgreeOff-Agree (dir + 0x1000 + 4 * i) 4 (dir + 0x1000 + 4 * j) 4 m1 m2 off2
              (beside (dir + 0x1000) j i ne))
          ∙ load32-Agree (dir + 0x1000 + 4 * j) m m1 (
              AgreeOff-Agree (dir + 4 * i) 4 (dir + 0x1000 + 4 * j) 4 m m1 off1
                (inr (omega arith)));
      outside =
          AgreeOff-trans dir 0x2000 m m1 m2
            (AgreeOff-widen dir 0x2000 (dir + 4 * i) 4 m m1 off1 (omega arith) (omega arith))
            (AgreeOff-widen dir 0x2000 (dir + 0x1000 + 4 * i) 4 m1 m2 off2 (omega arith)
              (omega arith));
    }

-- The physical entry that a round reads after its first store.
pub reread :
    (src dir i table : ℕ) (m : Memory)
    → i < 1024
    → Apart src dir
    → load32 (store32 m (tables_at dir i) table) (tables_physical_at src i)
      ≡ load32 m (tables_physical_at src i)
unfolding tables_at
reread src dir i table m h apart =
    (same_entries src dir 0x2000 m (store32 m (dir + 4 * i) table) (omega arith)
        (AgreeOff-widen dir 0x2000 (dir + 4 * i) 4 m (store32 m (dir + 4 * i) table)
          (store32-AgreeOff m (dir + 4 * i) table) (omega arith) (omega arith))
        apart).physicals
      i h

-- The memory of `clone_directory` when its loop starts.
pub record Prepared (src dir phys : ℕ) (m m' : Memory) : Type 0 where
  pub zeros : (j : ℕ) → j < 1024 → load32 m' (tables_at dir j) ≡ 0
  pub same : SameEntries src m m'
  pub address : load32 m' (physical_addr_at dir) ≡ u32 (phys + 0x1000)
  pub outside : AgreeOff dir directory_size m m'

pub prepared_lem :
    (src dir phys : ℕ) (m : Memory)
    → Apart src dir
    → Prepared src dir phys m
        (store32 (fill m dir 0 directory_size) (physical_addr_at dir) (u32 (phys + 0x1000)))
unfolding tables_at physical_addr_at
prepared_lem src dir phys m apart =
    let m1 = fill m dir 0 directory_size in
    let m2 = store32 m1 (dir + 0x2000) (u32 (phys + 0x1000)) in
    let stored = store32-AgreeOff m1 (dir + 0x2000) (u32 (phys + 0x1000)) in
    let off = AgreeOff-trans dir directory_size m m1 m2 (fill-AgreeOff m dir 0 directory_size) (
      AgreeOff-widen dir directory_size (dir + 0x2000) 4 m1 m2 stored (omega arith)
        (omega arith)) in
    record {
      zeros = λ j h.
          load32-Agree (dir + 4 * j) m1 m2
            (AgreeOff-Agree (dir + 0x2000) 4 (dir + 4 * j) 4 m1 m2 stored (inl (omega arith)))
          ∙ load32-fill m dir directory_size (dir + 4 * j) (omega arith) (omega arith);
      same = same_entries src dir directory_size m m2 (omega arith) off apart;
      address = load32-store32 m1 (dir + 0x2000) (u32 (phys + 0x1000)) (omega arith);
      outside = off;
    }
