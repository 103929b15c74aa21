-- ===== src/Forks/BaseFee.antt =====
-- src/ethereum_test_forks/forks/forks.py: the base fee calculators of London, which later classes
-- inherit, and the constants that they use.
pub mod Bounds
pub mod Change
mod Examples
use execution_spec_tests.Base.{
  ℕ, zero, suc, ◌+◌, ◌-◌, ◌*◌, ◌/◌, max, Bool, true, false, Result, ok, err, assertion_error,
  not_implemented, zero_division, ◌>>=◌, ◌>>◌, guard, ltb, ◌==◌, if◌then◌else◌,
}
use execution_spec_tests.Base.Int.{ℤ, pos, pos_part, ◌+ℤ◌, ◌-ℤ◌, ◌==ℤ◌, ltb_ℤ}
use execution_spec_tests.Forks.Fork.{Fork, london, ge}

-- `base_fee_max_change_denominator` and `base_fee_elasticity_multiplier`.
unfoldable pub base_fee_max_change_denominator : Fork → Result ℕ
base_fee_max_change_denominator f = if ge f london then ok 8 else err not_implemented

unfoldable pub base_fee_elasticity_multiplier : Fork → Result ℕ
base_fee_elasticity_multiplier f = if ge f london then ok 2 else err not_implemented

-- `n // d` on numbers that are not negative.
abbrev pub divide : ℕ → ℕ → Result ℕ
divide n d = if d == 0 then err zero_division else ok (n / d)

-- The function that `base_fee_per_gas_calculator` returns. The gas used may be negative, as the
-- calculator below makes it so.
unfoldable pub base_fee_with :
    (max_change_denominator elasticity_multiplier : ℕ)
    → (parent_base_fee_per_gas : ℕ) (parent_gas_used : ℤ) (parent_gas_limit : ℕ) → Result ℤ
base_fee_with d e fee used limit = do
  target ← divide limit e
  if used ==ℤ pos target
      then ok (pos fee)
      else if ltb_ℤ (pos target) used
      then (do
        let gas_used_delta = pos_part (used -ℤ pos target)
        at_target ← divide (fee * gas_used_delta) target
        delta ← divide at_target d
        ok (pos (fee + max delta 1)))
      else (do
        let gas_used_delta = pos_part (pos target -ℤ used)
        at_target ← divide (fee * gas_used_delta) target
        delta ← divide at_target d
        ok (pos fee -ℤ pos delta))

unfoldable pub base_fee_per_gas : Fork → ℕ → ℤ → ℕ → Result ℤ
base_fee_per_gas f fee used limit = do
  d ← base_fee_max_change_denominator f
  e ← base_fee_elasticity_multiplier f
  base_fee_with d e fee used limit

-- The gas that `base_fee_change_calculator` proposes for a required base fee.
unfoldable pub proposed_gas : (d target fee required : ℕ) → Result ℤ
proposed_gas d target fee required =
    if fee == required
    then ok (pos target)
    else if ltb fee required
    then (do up ← divide ((required - fee) * d * target) fee; ok (pos (up + target)))
    else (do
      down ← divide ((fee - required) * d * target) fee
      ok (pos target -ℤ pos down -ℤ pos 1))

-- The function that it returns: the proposal has to pass the assertion.
unfoldable pub base_fee_change_with : (d e fee limit required : ℕ) → Result ℤ
base_fee_change_with d e fee limit required = do
  target ← divide limit e
  gas ← proposed_gas d target fee required
  reached ← base_fee_with d e fee gas limit
  guard (reached ==ℤ pos required) assertion_error
  ok gas

unfoldable pub base_fee_change : Fork → (fee limit required : ℕ) → Result ℤ
base_fee_change f fee limit required = do
  d ← base_fee_max_change_denominator f
  e ← base_fee_elasticity_multiplier f
  base_fee_change_with d e fee limit required
