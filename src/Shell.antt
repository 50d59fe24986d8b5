-- ===== src/Shell.antt =====
-- The command line of kernel/shell.c and the symbol table of kernel/symbols.c.
pub mod Numbers
pub mod Symbols
pub mod Commands
mod Tests
use matanos.Base.{
  ℕ, zero, suc, ◌+◌, ◌-◌, ◌*◌, ◌/◌, ◌%◌, ◌^◌, ◌==◌, ltb, leb, Bool, true, false, not, ◌&&◌, ◌||◌,
  List, [], ◌∷◌, replicate, length, if◌then◌else◌, u32, Run, ok, fault, out_of_fuel, ◌>>=◌, ◌>>◌,
  read, write,
}
use matanos.Text.{strcmp}
use matanos.Interrupts.{Registers}

-- `isdigit`.
unfoldable pub isdigit : ℕ → Bool
isdigit c = leb 48 c && leb c 57

-- The loop of `skip_atoi` with the value `i` so far. Overflow of an `int` is undefined.
unfoldable pub atoi_from : ℕ → List ℕ → Run ℕ
atoi_from i [] = fault
atoi_from i (c ∷ cs) =
    let next = i * 10 + (c - 48) in
    let rest = atoi_from next cs in
    if isdigit c then (if ltb next (2 ^ 31) then rest else fault) else ok i

unfoldable pub skip_atoi : List ℕ → Run ℕ
skip_atoi s = atoi_from 0 s

-- The index of the first byte from `i` on that is not a blank, and of the first quotation mark.
unfoldable pub skip_blanks : (left i : ℕ) → List ℕ → Run ℕ
skip_blanks zero i s = fault
skip_blanks (suc left) i s =
    let rest = skip_blanks left (i + 1) s in read s i >>= λ c. if c == 32 then rest else ok i

unfoldable pub find_quote : (left i : ℕ) → List ℕ → Run ℕ
find_quote zero i s = fault
find_quote (suc left) i s =
    let rest = find_quote left (i + 1) s in read s (i + 1) >>= λ c. if c == 34 then ok i else rest

-- `check_param` of a buffer at an address: the value, and the buffer, in which the closing
-- quotation mark is replaced. A number is read from the beginning of the buffer.
unfoldable pub check_param : (address : ℕ) → List ℕ → Run (ℕ × List ℕ)
check_param address param = do
  i ← skip_blanks (length param) 0 param
  c ← read param i
  if c == 34
      then (do
        j ← find_quote (length param) (i + 1) param
        param' ← write param (j + 1) 0
        ok (u32 (address + 1), param'))
      else (skip_atoi param >>= λ v. ok (v, param))

-- `enum stage`.
pub data Stage : Type 0 where
  command : Stage
  param1 : Stage
  param2 : Stage
  param3 : Stage
  end : Stage

-- The characters that end a part: an opening bracket for the command, a closing one for the last
-- parameter, and a comma or a closing one for the others.
unfoldable pub ends_part : Stage → ℕ → Bool
ends_part command c = c == 40
ends_part param3 c = c == 41
ends_part _ c = (c == 44) || (c == 41)

-- Copy a part from index `i` on; `j` counts its characters, and 256 of them are the most.
unfoldable pub copy_part : (left : ℕ) → Stage → (i j : ℕ) → (input part : List ℕ) → Run (ℕ × List ℕ)
copy_part zero st i j input part = read input i >>= λ c. ok (i, part)
copy_part (suc left) st i j input part = do
  c ← read input i
  if ends_part st c
      then ok (i, part)
      else (write part j c >>= λ part'. copy_part left st (i + 1) (j + 1) input part')

-- The stage behind a part, chosen by the character behind its end.
unfoldable pub next_stage : Stage → ℕ → Stage
next_stage command c = param1
next_stage param1 c = if c == 41 then end else param2
next_stage param2 c = if c == 41 then end else param3
next_stage param3 c = end
next_stage end c = end

-- The four buffers.
pub record Parts : Type 0 where
  pub command_part : List ℕ
  pub first : List ℕ
  pub second : List ℕ
  pub third : List ℕ

unfoldable pub part_of : Stage → Parts → List ℕ
part_of command ps = ps.command_part
part_of param1 ps = ps.first
part_of param2 ps = ps.second
part_of _ ps = ps.third

unfoldable pub with_part : Stage → List ℕ → Parts → Parts
with_part command b ps = record ps { command_part = b }
with_part param1 b ps = record ps { first = b }
with_part param2 b ps = record ps { second = b }
with_part _ b ps = record ps { third = b }

-- The character that two stages look at, behind the end of their part.
unfoldable pub peek : Stage → ℕ → List ℕ → Run ℕ
peek param1 n input = read input n
peek param2 n input = read input n
peek _ n input = ok 0

-- The loop of `parse_command_and_run`.
unfoldable pub parse_from : (rounds : ℕ) → Stage → (i : ℕ) → List ℕ → Parts → Run Parts
parse_from rounds end i input ps = read input i >>= λ c. ok ps
parse_from zero st i input ps = read input i >>= λ c. if c == 0 then ok ps else out_of_fuel
parse_from (suc rounds) st i input ps = do
  c ← read input i
  if c == 0 then ok ps else (do
    k ← skip_blanks (length input) i input
    (n, part) ← copy_part 256 st k 0 input (part_of st ps)
    behind ← peek st (n + 1) input
    parse_from rounds (next_stage st behind) (n + 1) input (with_part st part ps))

abbrev pub no_parts : Parts
no_parts = record {
  command_part = replicate 256 0;
  first = replicate 256 0;
  second = replicate 256 0;
  third = replicate 256 0;
}

unfoldable pub parse : List ℕ → Run Parts
parse input = parse_from 4 command 0 input no_parts

-- The name and the value of an `Elf32_Sym`.
pub record Symbol : Type 0 where
  pub st_name : ℕ
  pub st_value : ℕ

-- The string at an offset of the string table.
unfoldable pub string_at : ℕ → List ℕ → List ℕ
string_at zero s = s
string_at (suc n) [] = []
string_at (suc n) (c ∷ cs) = string_at n cs

-- The loop of `find_symbol_and_run`: the address that it calls, if it calls one.
unfoldable pub find_from :
    (left i : ℕ) → List Symbol → (str_table symname : List ℕ) → Run (Bool × ℕ)
find_from zero i symbols str_table symname = ok (false, 0)
find_from (suc left) i symbols str_table symname =
    let rest = find_from left (i + 1) symbols str_table symname in
    read symbols i >>= λ symbol. strcmp (string_at symbol.st_name str_table) symname >>= λ order.
    if order == 0
    then (if symbol.st_value == 0 then ok (false, 0) else ok (true, symbol.st_value))
    else rest

-- `find_symbol_and_run`, with the call of an address as a parameter.
unfoldable pub find_symbol_and_run :
    {S : Type 0}
    → (ℕ → ℕ → ℕ → ℕ → S → S)
    → List Symbol
    → (str_table : List ℕ) → (sym_num : ℕ) → (symname : List ℕ) → (a b c : ℕ) → S
    → Run (Bool × S)
find_symbol_and_run run symbols str_table sym_num symname a b c s = do
  (found, address) ← find_from sym_num 0 symbols str_table symname
  ok (found, if found then run address a b c s else s)

-- `parse_command_and_run`, with the addresses of its three parameter buffers.
unfoldable pub parse_command_and_run :
    {S : Type 0}
    → (ℕ → ℕ → ℕ → ℕ → S → S)
    → List Symbol
    → (str_table : List ℕ) → (sym_num : ℕ) → ℕ × ℕ × ℕ
    → (input : List ℕ) → S
    → Run (Bool × S)
parse_command_and_run run symbols str_table sym_num (at1, at2, at3) input s = do
  ps ← parse input
  (a, first) ← check_param at1 ps.first
  (b, second) ← check_param at2 ps.second
  (c, third) ← check_param at3 ps.third
  find_symbol_and_run run symbols str_table sym_num ps.command_part a b c s
