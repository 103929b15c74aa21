-- ===== src/Forks/Gas/Examples.antt =====
-- The theorems on the gas calculators at concrete arguments, and runs of the calculators.
use execution_spec_tests.Base.{
  ◌≡◌, refl, max, false, some, [], ◌∷◌, ok, err, assertion_error, if◌then◌else◌,
}
use execution_spec_tests.Forks.Fork.{london, prague}
use execution_spec_tests.Forks.Costs.{gas_costs}
use execution_spec_tests.Forks.Arith.{ceiling_division, floor_div}
use execution_spec_tests.Forks.Gas.{
  words, memory_cost, memory_expansion, tokens_from, prague_calldata_gas, has_prague_gas,
  calldata_gas, data_floor_cost, counted, TxArgs, frontier_intrinsic, homestead_intrinsic,
  access_cost_from, berlin_intrinsic, authorization_count, prague_intrinsic, intrinsic_cost,
}
use execution_spec_tests.Forks.Gas.Formula.{supported, standard_cost, floor_cost}
use execution_spec_tests.Forks.Gas.Intrinsic.{intrinsic_cost_lem}

-- Set-code transaction with two access list entries.
abbrev set_code : TxArgs
set_code = record {
  calldata = 0 ∷ 1 ∷ 2 ∷ [];
  contract_creation = false;
  access_list = some (1 ∷ 2 ∷ []);
  authorizations = counted 1;
  return_cost_deducted_prior_execution = false;
}

-- 21000 + (4 + 16 + 16) + (2 * 2400 + 3 * 1900) + 25000
set_code_cost : intrinsic_cost prague set_code ≡ ok 56536
unfolding intrinsic_cost prague_intrinsic berlin_intrinsic homestead_intrinsic frontier_intrinsic
    access_cost_from authorization_count calldata_gas data_floor_cost has_prague_gas
    prague_calldata_gas tokens_from gas_costs
set_code_cost = refl

set_code_before_prague : intrinsic_cost london set_code ≡ err assertion_error
unfolding intrinsic_cost berlin_intrinsic homestead_intrinsic frontier_intrinsic
set_code_before_prague = refl

-- One word costs 3, and 32 words cost 96 + 2.
first_words : (memory_expansion london 1 0 ≡ 3) × (memory_expansion london 1024 0 ≡ 98)
unfolding memory_expansion memory_cost words ceiling_division floor_div gas_costs
first_words = (refl, refl)

intrinsic_cost_lem_example : intrinsic_cost prague set_code ≡ (
    if supported prague set_code
    then ok (max (standard_cost prague set_code) (floor_cost prague set_code))
    else err assertion_error)
intrinsic_cost_lem_example = intrinsic_cost_lem prague set_code
