-- ===== src/Shell/Symbols.antt =====
-- The search for a symbol by kernel/symbols.c.
use matanos.Base.{
  ℕ, suc, ◌+◌, eq→==, ne→==, true, false, List, [], ◌∷◌, ◌++◌, append_snoc, append-nil, length,
  length-snoc, ok, read-append, ◌≡◌, refl, sym, arith,
}
use matanos.Text.{strcmp}
use matanos.Text.Strings.{NonZero}
use matanos.Text.Compare.{AllBytes, Decides, strcmp_lem}
use matanos.Shell.{Symbol, string_at, find_from, find_symbol_and_run}

-- A string of bytes, with what lies behind it.
unfoldable pub IsString : List ℕ → List ℕ → Type 0
IsString name buffer =
    NonZero name × AllBytes name × (rest : List ℕ) × (buffer ≡ name ++ (0 ∷ rest))

-- Every symbol of the list has a name, and it is not `name`.
unfoldable pub NoneNamed : List ℕ → List ℕ → List Symbol → Type 0
NoneNamed name str_table [] = Unit
NoneNamed name str_table (symbol ∷ symbols) =
    ((other : List ℕ) × IsString other (string_at symbol.st_name str_table) × (¬ (other ≡ name)))
    × NoneNamed name str_table symbols

compared : (xs ys b1 b2 : List ℕ) → IsString xs b1 → IsString ys b2 → Decides (strcmp b1 b2) xs ys
unfolding IsString
compared xs ys b1 b2 (nx, bx, r1, e1) (ny, by_, r2, e2) =
    rw (e1, e2) (strcmp_lem xs ys r1 r2 nx ny bx by_)

module _ (name str_table symname : List ℕ) (is_name : IsString name symname) where
  -- The search passes symbols that have other names.
  passes :
      (done skipped after : List Symbol) (left i : ℕ)
      → length done ≡ i
      → NoneNamed name str_table skipped
      → find_from (length skipped + left) i (done ++ (skipped ++ after)) str_table symname
        ≡ find_from left (i + length skipped) ((done ++ skipped) ++ after) str_table symname
  unfolding find_from NoneNamed Decides
  passes done [] after left i e none_named =
      let no_rounds : 0 + left ≡ left = omega arith in
      let no_step : i + 0 ≡ i = omega arith in rw (no_rounds, no_step, append-nil done) refl
  passes done (symbol ∷ skipped) after left i e ((other, is_other, differs), others) =
      let (v, run, (to, from)) =
        compared other name (string_at symbol.st_name str_table) symname is_other is_name in
      let rounds : suc (length skipped) + left ≡ suc (length skipped + left) = omega arith in
      let steps : i + suc (length skipped) ≡ i + 1 + length skipped = omega arith in
      rw
        (
          rounds,
          steps,
          read-append done symbol (skipped ++ after) i e,
          run,
          ne→== v 0 (λ z. differs (to z)),
          sym (append_snoc done symbol (skipped ++ after)),
          sym (append_snoc done symbol skipped),
        )
        (passes (done ++ (symbol ∷ [])) skipped after left (i + 1)
          (omega (arith, length-snoc done symbol)) others)

  -- In a table of well-formed names, `find_symbol_and_run` calls the address of the first symbol
  -- with the name, if that address is not 0, and calls nothing if no symbol has the name.
  pub find_symbol_and_run_lem :
      {S : Type 0} (run : ℕ → ℕ → ℕ → ℕ → S → S) (before : List Symbol) (a b c : ℕ) (s : S)
      → NoneNamed name str_table before
      → ((symbol : Symbol) (after : List Symbol)
          → IsString name (string_at symbol.st_name str_table)
          → ¬ (symbol.st_value ≡ 0)
          → find_symbol_and_run run
              (before ++ (symbol ∷ after))
              str_table
              (length before + suc (length after))
              symname
              a
              b
              c
              s
            ≡ ok (true, run symbol.st_value a b c s))
        × (find_symbol_and_run run (before ++ []) str_table (length before + 0) symname a b c s
            ≡ ok (false, s))
  unfolding find_symbol_and_run find_from Decides
  find_symbol_and_run_lem run before a b c s none_named = (
    (λ symbol after is_symbol nonzero.
        let (v, same, (to, from)) =
          compared name name (string_at symbol.st_name str_table) symname is_symbol is_name in
        let start : 0 + length before ≡ length before = omega arith in
        rw
          (
            passes [] before (symbol ∷ after) (suc (length after)) 0 refl none_named,
            start,
            read-append before symbol after (length before) refl,
            same,
            eq→== v 0 (from refl),
            ne→== symbol.st_value 0 nonzero,
          )
          refl),
    rw (passes [] before [] 0 0 refl none_named) refl,
  )
