-- ===== src/Text.antt =====
-- The byte and string routines of kernel/util.c. Characters are bytes, a string is a buffer that
-- holds a zero, and an `int` is a word of 32 bits in two's complement.
pub mod Strings
pub mod Memory
pub mod Compare
pub mod Reverse
mod Tests
use matanos.Base.{
  ℕ, zero, suc, ◌+◌, ◌-◌, ◌*◌, ◌/◌, ◌%◌, ◌^◌, ◌==◌, ltb, Bool, true, false, not, ◌&&◌, List, [],
  ◌∷◌, length, if◌then◌else◌, u8, u32, sub32, bit_and, Run, ok, fault, out_of_fuel, ◌>>=◌, ◌>>◌,
  read, write,
}

-- `memcpy` between two addresses of one memory, byte by byte upwards. A negative count copies
-- nothing; `i` counts the bytes that are copied.
unfoldable pub copy_bytes : (left i source dest : ℕ) → List ℕ → Run (List ℕ)
copy_bytes zero i source dest mem = ok mem
copy_bytes (suc left) i source dest mem = do
  b ← read mem (source + i)
  mem' ← write mem (dest + i) b
  copy_bytes left (i + 1) source dest mem'

unfoldable pub memcpy : (source dest nbytes : ℕ) → List ℕ → Run (List ℕ)
memcpy source dest nbytes mem = copy_bytes nbytes 0 source dest mem

-- `memset`.
unfoldable pub memset : (dest val len : ℕ) → List ℕ → Run (List ℕ)
memset dest val zero mem = ok mem
memset dest val (suc len) mem = write mem dest val >>= λ mem'. memset (dest + 1) val len mem'

-- The loop of `strlen` at index `i`, with `left` bytes of the buffer to go. Behind them it would
-- read outside the buffer.
unfoldable pub scan : (left i : ℕ) → List ℕ → Run ℕ
scan zero i s = fault
scan (suc left) i s =
    let rest = scan left (i + 1) s in read s i >>= λ c. if c == 0 then ok i else rest

unfoldable pub strlen : List ℕ → Run ℕ
strlen s = scan (length s) 0 s

-- `strnlen` does not use its bound.
unfoldable pub strnlen : List ℕ → ℕ → Run ℕ
strnlen s n = scan (length s) 0 s

-- `append`, called `append_char` here.
unfoldable pub append_char : List ℕ → ℕ → Run (List ℕ)
append_char s n = do len ← strlen s; s' ← write s len n; write s' (len + 1) 0

-- `backspace`. On the empty string it writes in front of the buffer.
unfoldable pub backspace : List ℕ → Run (List ℕ)
backspace s = strlen s >>= λ len. if len == 0 then fault else write s (len - 1) 0

-- A `char` as an `int`.
unfoldable pub sign_extend : ℕ → ℕ
sign_extend c = if ltb c 128 then c else c + (2 ^ 32 - 2 ^ 8)

-- The loop of `strcmp` at index `i`.
unfoldable pub compare_from : (left i : ℕ) → (s1 s2 : List ℕ) → Run ℕ
unfolding sign_extend
compare_from zero i s1 s2 = fault
compare_from (suc left) i s1 s2 =
    let rest = compare_from left (i + 1) s1 s2 in
    read s1 i >>= λ a. read s2 i >>= λ b.
    if a == b then (if a == 0 then ok 0 else rest) else ok (sub32 (sign_extend a) (sign_extend b))

unfoldable pub strcmp : (s1 s2 : List ℕ) → Run ℕ
strcmp s1 s2 = compare_from (length s1) 0 s1 s2

-- The loop of `reverse` with indices `i` and `j`.
unfoldable pub swap_ends : (left i j : ℕ) → List ℕ → Run (List ℕ)
swap_ends zero i j s = if ltb i j then out_of_fuel else ok s
swap_ends (suc left) i j s =
    if ltb i j
    then (do
      c ← read s i
      d ← read s j
      s' ← write s i d
      s'' ← write s' j c
      swap_ends left (i + 1) (j - 1) s'')
    else ok s

-- `reverse`. On the empty string `j` is -1, and the loop ends at once, as it does for 0.
unfoldable pub reverse : List ℕ → Run (List ℕ)
reverse s = strlen s >>= λ n. swap_ends n 0 (n - 1) s

-- The loop of `int_to_ascii` on the absolute value: at least one digit, the lowest first. It
-- returns the number of characters too.
unfoldable pub put_digits : (fuel i n : ℕ) → List ℕ → Run (ℕ × List ℕ)
put_digits zero i n str = out_of_fuel
put_digits (suc fuel) i n str = do
  str' ← write str i (n % 10 + 48)
  if ltb 0 (n / 10) then put_digits fuel (i + 1) (n / 10) str' else ok (i + 1, str')

-- `int_to_ascii`. Negating the least `int` overflows.
unfoldable pub int_to_ascii : ℕ → List ℕ → Run (List ℕ)
int_to_ascii n str =
    let negative = ltb (2 ^ 31 - 1) n in
    if n == 2 ^ 31 then fault else (do
      (i, digits) ← put_digits 11 0 (if negative then 2 ^ 32 - n else n) str
      (j, signed) ← if negative then (write digits i 45 >>= λ t. ok (i + 1, t)) else ok (i, digits)
      ended ← write signed j 0
      reverse ended)

-- The characters that `hex_to_ascii` writes for a digit, the last digit excepted, and for the last.
unfoldable pub hex_char : ℕ → ℕ
hex_char tmp = if ltb 0xA tmp then tmp - 0xA + 97 else tmp + 48

unfoldable pub last_hex_char : ℕ → ℕ
last_hex_char tmp = if ltb tmp 0xA then tmp + 48 else tmp - 0xA + 97

-- The loop of `hex_to_ascii` over the digits `left`, ..., 1.
unfoldable pub put_hex : (left n seen : ℕ) → List ℕ → Run (List ℕ)
unfolding hex_char
put_hex zero n seen str = ok str
put_hex (suc left) n seen str =
    let tmp = n / 2 ^ (4 * suc left) % 16 in
    let skipped = put_hex left n seen str in
    if (tmp == 0) && (seen == 0)
    then skipped
    else (append_char str (hex_char tmp) >>= λ str'. put_hex left n 1 str')

unfoldable pub hex_to_ascii : ℕ → List ℕ → Run (List ℕ)
unfolding last_hex_char
hex_to_ascii n str = do
  zero_put ← append_char str 48
  x_put ← append_char zero_put 120
  digits_put ← put_hex 7 n 0 x_put
  append_char digits_put (last_hex_char (n % 16))
