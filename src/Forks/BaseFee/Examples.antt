-- ===== src/Forks/BaseFee/Examples.antt =====
-- The theorems on the base fee at concrete blocks, and runs of the calculators.
use execution_spec_tests.Base.{
  ℕ, ◌+◌, ◌*◌, ◌/◌, ◌≤◌, ◌≡◌, refl, inl, arith, ok, err, assertion_error, not_implemented,
}
use execution_spec_tests.Base.Int.{pos, ◌-ℤ◌}
use execution_spec_tests.Forks.Fork.{
  berlin, london, osaka, ge, same, is_subclass, walk, parent, options,
}
use execution_spec_tests.Forks.BaseFee.{
  base_fee_max_change_denominator, base_fee_elasticity_multiplier, base_fee_with, base_fee_per_gas,
  proposed_gas, base_fee_change_with, base_fee_change,
}
use execution_spec_tests.Forks.BaseFee.Bounds.{Moves, base_fee_bounds}
use execution_spec_tests.Forks.BaseFee.Change.{gas_share, IsExact, change_exact, change_inexact}

full_block : base_fee_per_gas osaka 1000 (pos 30_000_000) 30_000_000 ≡ ok (pos 1125)
unfolding base_fee_per_gas base_fee_with base_fee_max_change_denominator
    base_fee_elasticity_multiplier ge same is_subclass walk parent options ◌-ℤ◌
full_block = refl

before_london : base_fee_per_gas berlin 1000 (pos 1) 30_000_000 ≡ err not_implemented
unfolding base_fee_per_gas base_fee_max_change_denominator ge same is_subclass walk parent options
before_london = refl

-- A step of 7 from 1000 is not rounded; a step of 2 from 1001 is, and the assertion fails.
step_from_1000 : base_fee_change london 1000 30_000_000 1007 ≡ ok (pos 15_840_000)
unfolding base_fee_change base_fee_change_with proposed_gas base_fee_with
    base_fee_max_change_denominator base_fee_elasticity_multiplier ge same is_subclass walk parent
    options ◌-ℤ◌
step_from_1000 = refl

step_from_1001 : base_fee_change london 1001 30_000_000 1003 ≡ err assertion_error
unfolding base_fee_change base_fee_change_with proposed_gas base_fee_with
    base_fee_max_change_denominator base_fee_elasticity_multiplier ge same is_subclass walk parent
    options ◌-ℤ◌
step_from_1001 = refl

base_fee_bounds_example :
    (r : ℕ) × (base_fee_with 8 2 1000 (pos 20_000_000) 30_000_000 ≡ ok (pos r))
    × Moves 8 1000 20_000_000 (30_000_000 / 2) r
base_fee_bounds_example =
    base_fee_bounds 8 2 1000 20_000_000 30_000_000 (omega arith) (omega arith) (omega arith)
      (omega arith)

change_exact_example :
    (base_fee_change_with 8 2 1000 30_000_000 1007
      ≡ ok (pos (gas_share 8 (30_000_000 / 2) 1000 7 + 30_000_000 / 2)))
    × (base_fee_with 8 2 1000
          (pos (gas_share 8 (30_000_000 / 2) 1000 7 + 30_000_000 / 2))
          30_000_000
        ≡ ok (pos 1007))
change_exact_example =
    change_exact 8 2 1000 30_000_000 1007 (omega arith) (omega arith) (omega arith) (omega arith)
      (omega arith) (inl refl)

not-IsExact : ¬ IsExact 8 (30_000_000 / 2) 1001 2
not-IsExact h = omega arith

change_inexact_example :
    (base_fee_change_with 8 2 1001 30_000_000 1003 ≡ err assertion_error)
    × (1001 ≤ 8 * (30_000_000 / 2)
        → base_fee_with 8 2 1001
            (pos (gas_share 8 (30_000_000 / 2) 1001 2 + 1 + 30_000_000 / 2))
            30_000_000
          ≡ ok (pos 1003))
change_inexact_example =
    change_inexact 8 2 1001 30_000_000 1003 (omega arith) (omega arith) (omega arith) (omega arith)
      (omega arith) not-IsExact
