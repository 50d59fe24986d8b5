-- ===== src/Text/Tests.antt =====
-- Concrete strings.
use matanos.Base.{ℕ, List, [], ◌∷◌, ◌++◌, ok, read, write, ◌≡◌, refl, arith}
use matanos.Text.{
  strlen, append_char, reverse, int_to_ascii, hex_to_ascii, put_digits, put_hex, hex_char,
  last_hex_char, scan, swap_ends,
}
use matanos.Text.Strings.{NonZero}
use matanos.Text.Compare.{AllBytes}
use matanos.Text.Reverse.{backwards, reverse_lem}

-- "ls" and a buffer of eight bytes.
abbrev ls : List ℕ
ls = 108 ∷ 115 ∷ []

abbrev behind : List ℕ
behind = 7 ∷ 7 ∷ 7 ∷ 7 ∷ 7 ∷ []

ls-NonZero : NonZero ls
unfolding NonZero
ls-NonZero = ((λ e. omega arith), ((λ e. omega arith), tt))

ls-AllBytes : AllBytes ls
unfolding AllBytes
ls-AllBytes = (omega arith, (omega arith, tt))

reverse_lem_example : reverse (ls ++ (0 ∷ behind)) ≡ ok (backwards ls ++ (0 ∷ behind))
reverse_lem_example = reverse_lem ls behind ls-NonZero

-- -120 in decimal, and 0xAB with its first digit wrong.
minus_120 :
    int_to_ascii 0xFFFFFF88 (9 ∷ 9 ∷ 9 ∷ 9 ∷ 9 ∷ 9 ∷ []) ≡ ok (45 ∷ 49 ∷ 50 ∷ 48 ∷ 0 ∷ 9 ∷ [])
unfolding int_to_ascii put_digits reverse strlen scan swap_ends read write
minus_120 = refl

colon_for_ten : hex_to_ascii 0xAB (0 ∷ 0 ∷ 0 ∷ 0 ∷ 0 ∷ []) ≡ ok (48 ∷ 120 ∷ 58 ∷ 98 ∷ 0 ∷ [])
unfolding hex_to_ascii put_hex append_char strlen scan hex_char last_hex_char read write
colon_for_ten = refl
