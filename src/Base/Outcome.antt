-- ===== src/Base/Outcome.antt =====
-- Outcomes of C code: a normal return, a failed ASSERT or PANIC (both stop the machine), or
-- undefined behaviour, such as an access outside an object.
use mathlib.Core.Option.{Option, none, some}
use mathlib.Core.Bool.{Bool, true, false}

pub data Run {ℓ} (A : Type ℓ) : Type ℓ where
  ok : A → Run A
  panic : Run A
  fault : Run A
  out_of_fuel : Run A

infixl 5 ◌>>=◌ ◌>>◌
abbrev pub ◌>>=◌ {ℓ κ} : {A : Type ℓ} {B : Type κ} → Run A → (A → Run B) → Run B
ok a >>= f = f a
panic >>= f = panic
fault >>= f = fault
out_of_fuel >>= f = out_of_fuel

abbrev pub ◌>>◌ {ℓ} : {B : Type ℓ} → Run (Unit {0}) → Run B → Run B
m >> k = m >>= λ _. k

-- `ASSERT(b)` of kernel/util.h.
abbrev pub assert : Bool → Run (Unit {0})
assert true = ok tt
assert false = panic

-- A read that must find something.
abbrev pub expect {ℓ} : {A : Type ℓ} → Option A → Run A
expect none = fault
expect (some a) = ok a
