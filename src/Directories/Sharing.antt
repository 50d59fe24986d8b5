-- ===== src/Directories/Sharing.antt =====
-- A copy of the kernel's directory by `clone_directory` of cpu/paging.c shares the kernel's tables.
use matanos.Base.{
  ℕ, zero, suc, ◌+◌, ◌^◌, ◌<◌, ◌≤◌, ◌==◌, ◌⊎◌, inl, inr, eq→==, ==→eq, ==→ne, Bool-cases, false,
  u32, ok, ◌>>=◌, ◌≡◌, refl, sym, ap, ◌∙◌, arith,
}
use matanos.Memory.{Memory, load32, store32, fill}
use matanos.Memory.Frame.{
  AgreeOff, AgreeOff-Agree, AgreeOff-widen, AgreeOff-trans, load32-Agree, load32-bound,
}
use matanos.Paging.{tables_at, tables_physical_at, physical_addr_at}
use matanos.Kmalloc.{Kernel, kmalloc_ap}
use matanos.Directories.{directory_size, with_memory, clone_tables, clone_directory}
use matanos.Directories.Links.{
  Apart, SameEntries, same_entries, Linked, linked_lem, reread, prepared_lem,
}

-- Entry `j` of the copy `dir` of the directory `src`, against the memory before.
record Copied (src dir : ℕ) (m m' : Memory) (j : ℕ) : Type 0 where
  empty : load32 m (tables_at src j) ≡ 0 → load32 m' (tables_at dir j) ≡ load32 m (tables_at dir j)
  shared :
      ¬ (load32 m (tables_at src j) ≡ 0) → load32 m' (tables_at dir j) ≡ load32 m (tables_at src j)
  physical :
      ¬ (load32 m (tables_at src j) ≡ 0)
      → load32 m' (tables_physical_at dir j) ≡ load32 m (tables_physical_at src j)

-- What the loop of `clone_directory` leaves when it starts at entry `i`.
record Loop (src dir i : ℕ) (m m' : Memory) : Type 0 where
  copied : (j : ℕ) → i ≤ j → j < 1024 → Copied src dir m m' j
  done :
      (j : ℕ)
      → j < i
      → j < 1024
      → (load32 m' (tables_at dir j) ≡ load32 m (tables_at dir j))
        × (load32 m' (tables_physical_at dir j) ≡ load32 m (tables_physical_at dir j))
  outside : AgreeOff dir 0x2000 m m'

here_or_later : (i j : ℕ) → i ≤ j → (j ≡ i) ⊎ (i + 1 ≤ j)
here_or_later i j h = ground arith

Loop-zero :
    (src dir i : ℕ) (m m' : Memory)
    → i < 1024
    → load32 m (tables_at src i) ≡ 0
    → Loop src dir (i + 1) m m'
    → Loop src dir i m m'
Loop-zero src dir i m m' h none_there l = record {
  copied = λ j lo hi. elim (here_or_later i j lo) [
    | inl e ↦ rw e (record {
      empty = λ z. (l.done i (omega arith) h).0;
      shared = λ z. absurd (z none_there);
      physical = λ z. absurd (z none_there);
    })
    | inr later ↦ l.copied j later hi
  ];
  done = λ j lt hi. l.done j (omega arith) hi;
  outside = l.outside;
}

Loop-Linked :
    (src dir i table physical : ℕ) (m m2 m' : Memory)
    → i < 1024
    → load32 m (tables_at src i) ≡ table
    → load32 m (tables_physical_at src i) ≡ physical
    → ¬ (table ≡ 0)
    → Linked dir i table physical m m2
    → SameEntries src m m2
    → Loop src dir (i + 1) m2 m'
    → Loop src dir i m m'
Loop-Linked src dir i table physical m m2 m' h et ep ne link same l = record {
  copied = λ j lo hi. elim (here_or_later i j lo) [
    | inl e ↦ rw e (record {
      empty = λ z. absurd (ne (sym et ∙ z));
      shared = λ z. (l.done i (omega arith) h).0 ∙ link.own ∙ sym et;
      physical = λ z. (l.done i (omega arith) h).1 ∙ link.own_physical ∙ sym ep;
    })
    | inr later ↦
        let c = l.copied j later hi in
        record {
          empty = λ z. c.empty (same.tables j hi ∙ z) ∙ link.others j hi (λ e. omega arith);
          shared = λ z. c.shared (λ w. z (sym (same.tables j hi) ∙ w)) ∙ same.tables j hi;
          physical = λ z. c.physical (λ w. z (sym (same.tables j hi) ∙ w)) ∙ same.physicals j hi;
        }
  ];
  done = λ j lt hi. (
    (l.done j (omega arith) hi).0 ∙ link.others j hi (λ e. omega arith),
    (l.done j (omega arith) hi).1 ∙ link.others_physical j hi (λ e. omega arith),
  );
  outside = AgreeOff-trans dir 0x2000 m m2 m' link.outside l.outside;
}

-- The entries of a directory are words.
Words : ℕ → Memory → Type 0
Words src m =
    (j : ℕ)
    → j < 1024
    → (load32 m (tables_at src j) < 2 ^ 32) × (load32 m (tables_physical_at src j) < 2 ^ 32)

Words-same : (src : ℕ) (m m' : Memory) → SameEntries src m m' → Words src m → Words src m'
unfolding Words
Words-same src m m' same words j h =
    (rw (same.tables j h) (words j h).0, rw (same.physicals j h) (words j h).1)

load32-Words : (src : ℕ) (m : Memory) → ((b : ℕ) → m b < 2 ^ 8) → Words src m
unfolding Words
load32-Words src m bytes j h =
    (load32-bound m (tables_at src j) bytes, load32-bound m (tables_physical_at src j) bytes)

address_kept :
    (dir : ℕ) (m m' : Memory)
    → AgreeOff dir 0x2000 m m'
    → load32 m' (physical_addr_at dir) ≡ load32 m (physical_addr_at dir)
unfolding physical_addr_at
address_kept dir m m' off =
    load32-Agree (dir + 0x2000) m m'
      (AgreeOff-Agree dir 0x2000 (dir + 0x2000) 4 m m' off (inr (omega arith)))

load32-Copied :
    (src dir j : ℕ) (m m0 m' : Memory)
    → load32 m0 (tables_at dir j) ≡ 0
    → load32 m0 (tables_at src j) ≡ load32 m (tables_at src j)
    → Copied src dir m0 m' j
    → load32 m' (tables_at dir j) ≡ load32 m (tables_at src j)
load32-Copied src dir j m m0 m' zeroed same c =
    elim (Bool-cases (load32 m0 (tables_at src j) == 0)) [
      | inl e ↦ let z = ==→eq (load32 m0 (tables_at src j)) 0 e in c.empty z ∙ zeroed ∙ sym z ∙ same
      | inr n ↦ c.shared (==→ne (load32 m0 (tables_at src j)) 0 n) ∙ same
    ]

module _ (rounds : ℕ) (copy_page_physical : (source dest : ℕ) → Memory → Memory) where
  -- A round that links the kernel's own table.
  clone_tables-link :
      (left i src dir table physical : ℕ) (k : Kernel)
      → load32 k.machine.memory (tables_at src i) ≡ table
      → (table == 0) ≡ false
      → load32 k.machine.memory (tables_at k.machine.kernel_directory i) ≡ table
      → load32 (store32 k.machine.memory (tables_at dir i) table) (tables_physical_at src i)
        ≡ physical
      → clone_tables rounds copy_page_physical (suc left) i src dir k
        ≡ clone_tables rounds copy_page_physical left (i + 1) src dir (
            with_memory
              (store32
                (store32 k.machine.memory (tables_at dir i) table)
                (tables_physical_at dir i)
                physical)
              k)
  unfolding clone_tables
  clone_tables-link left i src dir table physical k et nonzero own ep =
      rw (et, nonzero, own, eq→== table table refl, ep) refl

  clone_tables-Loop :
      (left i src dir : ℕ) (k : Kernel)
      → k.machine.kernel_directory ≡ src
      → i + left ≡ 1024
      → Apart src dir
      → Words src k.machine.memory
      → (m' : Memory) × (clone_tables rounds copy_page_physical left i src dir k
          ≡ ok (with_memory m' k))
        × Loop src dir i k.machine.memory m'
  unfolding clone_tables Words
  clone_tables-Loop zero i src dir k e bound apart words = (
    k.machine.memory,
    refl,
    record {
      copied = λ j lo hi. absurd (omega arith);
      done = λ j lt hi. (refl, refl);
      outside = λ b out. refl;
    },
  )
  clone_tables-Loop (suc left) i src dir k e bound apart words =
      elim (Bool-cases (load32 k.machine.memory (tables_at src i) == 0)) [
        | inl none_there ↦
            let (m', run, l) =
              clone_tables-Loop left (i + 1) src dir k e (omega arith) apart words in
            (
              m',
              rw none_there run,
              Loop-zero src dir i k.machine.memory m' (omega arith)
                  (==→eq (load32 k.machine.memory (tables_at src i)) 0 none_there) l,
            )
        | inr there ↦
            let m = k.machine.memory in
            let table = load32 m (tables_at src i) in
            let physical = load32 m (tables_physical_at src i) in
            let m1 = store32 m (tables_at dir i) table in
            let m2 = store32 m1 (tables_physical_at dir i) physical in
            let link =
              linked_lem dir i table physical m (omega arith) (words i (omega arith)).0
                (words i (omega arith)).1 in
            let same = same_entries src dir 0x2000 m m2 (omega arith) link.outside apart in
            let (m', run, l) =
              clone_tables-Loop left (i + 1) src dir (with_memory m2 k) e (omega arith) apart
                (Words-same src m m2 same words) in
            (
              m',
              clone_tables-link left i src dir table physical k refl there
                    (ap (λ d. load32 m (tables_at d i)) e)
                    (reread src dir i table m (omega arith) apart)
                  ∙ run,
              Loop-Linked src dir i table physical m m2 m' (omega arith) refl refl
                  (==→ne table 0 there) link same l,
            )
      ]

  -- A copy of the kernel's own directory, made by a successful allocation apart from it, while every
  -- byte of the memory is below 256. The copy returns. Its entries are those of the directory, its
  -- physical entries are too where there is a table, `physicalAddr` is the physical address of
  -- the physical entries, and no byte outside the copy is written.
  pub clone_directory-kernel :
      (src dir phys : ℕ) (k k1 : Kernel)
      → kmalloc_ap rounds directory_size k ≡ ok (dir, phys, k1)
      → k1.machine.kernel_directory ≡ src
      → (dir + directory_size ≤ src) ⊎ (src + directory_size ≤ dir)
      → ((b : ℕ) → k1.machine.memory b < 2 ^ 8)
      → (m' : Memory) × (clone_directory rounds copy_page_physical src k
          ≡ ok (dir, with_memory m' k1))
        × ((j : ℕ)
            → j < 1024
            → load32 m' (tables_at dir j) ≡ load32 k1.machine.memory (tables_at src j))
        × ((j : ℕ)
            → j < 1024
            → ¬ (load32 k1.machine.memory (tables_at src j) ≡ 0)
            → load32 m' (tables_physical_at dir j)
              ≡ load32 k1.machine.memory (tables_physical_at src j))
        × (load32 m' (physical_addr_at dir) ≡ u32 (phys + 0x1000))
        × AgreeOff dir directory_size k1.machine.memory m'
  unfolding clone_directory
  clone_directory-kernel src dir phys k k1 made own apart bytes =
      let m = k1.machine.memory in
      let p = prepared_lem src dir phys m apart in
      let m0 = store32 (fill m dir 0 directory_size) (physical_addr_at dir) (u32 (phys + 0x1000)) in
      let (m', run, l) =
        clone_tables-Loop 1024 0 src dir (with_memory m0 k1) own refl apart
          (Words-same src m m0 p.same (load32-Words src m bytes)) in
      (
        m',
        rw made (ap (λ r. r >>= λ k2. ok (dir, k2)) run),
        (λ j h.
            load32-Copied src dir j m m0 m' (p.zeros j h) (p.same.tables j h)
              (l.copied j (omega arith) h)),
        (λ j h n.
            (l.copied j (omega arith) h).physical (λ z. n (sym (p.same.tables j h) ∙ z))
            ∙ p.same.physicals j h),
        address_kept dir m0 m' l.outside ∙ p.address,
        AgreeOff-trans dir directory_size m m0 m' p.outside (
            AgreeOff-widen dir directory_size dir 0x2000 m0 m' l.outside (omega arith)
              (omega arith)),
      )
