-- ===== src/Base/Outcome.antt =====
-- A Python call that may raise: the exception is a value, and a `do` block stops at the first.
use mathlib.Core.Bool.{Bool, true, false}

-- The classes of the exceptions that the modelled code raises itself.
pub data Exc : Type 0 where
  type_error value_error assertion_error not_implemented invalid_fork : Exc
  zero_division index_error overflow_error : Exc
  -- No exception of the source: the fuel of a modelled loop has run out.
  out_of_fuel : Exc

pub data Result {ℓ} (X : Type ℓ) : Type ℓ where
  err : Exc → Result X
  ok : X → Result X

-- `assert condition`, and any other test that raises where it fails.
abbrev pub guard : Bool → Exc → Result (Unit {0})
guard false exc = err exc
guard true _ = ok tt

infixl 5 ◌>>=◌ ◌>>◌
abbrev pub ◌>>=◌ {ℓ κ} : {X : Type ℓ} {Y : Type κ} → Result X → (X → Result Y) → Result Y
err exc >>= rest = err exc
ok x >>= rest = rest x

abbrev pub ◌>>◌ {ℓ} : {Y : Type ℓ} → Result (Unit {0}) → Result Y → Result Y
test >> rest = test >>= λ _. rest
