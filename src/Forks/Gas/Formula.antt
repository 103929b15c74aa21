-- ===== src/Forks/Gas/Formula.antt =====
-- The parts of one formula for the intrinsic cost of all forks, against the calculators in
-- src/ethereum_test_forks/forks/forks.py.
use execution_spec_tests.Base.{
  ℕ, ◌+◌, ◌*◌, ◌≡◌, refl, Bool, true, false, not, ◌&&◌, ◌||◌, Option, none, some, List, [], ◌∷◌,
  length, Bool-cases, inl, inr, arith, if◌then◌else◌,
}
use execution_spec_tests.Forks.Fork.{
  Fork, frontier, homestead, berlin, prague, ge, same, is_subclass, walk, parent,
}
use execution_spec_tests.Forks.Costs.{GasCosts, gas_costs}
use execution_spec_tests.Forks.Gas.{
  words, has_prague_gas, calldata_gas, prague_calldata_gas, frontier_calldata_gas, data_floor_cost,
  TxArgs, is_none, is_absent, access_cost_from, authorization_count,
}
use execution_spec_tests.Forks.Gas.Calldata.{
  zeros, nonzeros, frontier_cost_from_lem, tokens_from_lem, calldata_tokens,
}

-- The formula: what each byte, each entry of the access list and each authorization costs.
pub access_cost : GasCosts → List ℕ → ℕ
access_cost g [] = 0
access_cost g (keys ∷ rest) =
    g.g_access_list_address + keys * g.g_access_list_storage + access_cost g rest

abbrev pub access_part : GasCosts → Option (List ℕ) → ℕ
access_part g none = 0
access_part g (some l) = access_cost g l

abbrev pub creation_cost : Fork → TxArgs → ℕ
creation_cost f t =
    if t.contract_creation
    then (gas_costs f).g_initcode_word * words (length t.calldata)
      + (if ge f homestead then (gas_costs f).g_transaction_create else 0)
    else 0

abbrev pub bytes_cost : Fork → List ℕ → ℕ
bytes_cost f bytes =
    zeros bytes * (gas_costs f).g_tx_data_zero + nonzeros bytes * (gas_costs f).g_tx_data_non_zero

abbrev pub standard_cost : Fork → TxArgs → ℕ
standard_cost f t =
    (gas_costs f).g_transaction
    + creation_cost f t
    + bytes_cost f t.calldata
    + access_part (gas_costs f) t.access_list
    + authorization_count t.authorizations * (gas_costs f).g_authorization

abbrev pub floor_cost : Fork → TxArgs → ℕ
floor_cost f t =
    if ge f prague && not t.return_cost_deducted_prior_execution
    then (gas_costs f).g_transaction
      + (zeros t.calldata + 4 * nonzeros t.calldata) * (gas_costs f).g_tx_data_floor_token_cost
    else 0

-- Access lists came with Berlin, and authorizations with Prague.
abbrev pub supported : Fork → TxArgs → Bool
supported f t =
    (is_none t.access_list || ge f berlin) && (is_absent t.authorizations || ge f prague)

pub ge-prague : (f : Fork) → ge f prague ≡ has_prague_gas f
unfolding ge same is_subclass walk parent has_prague_gas
ge-prague frontier = refl
ge-prague _ = refl

pub prague_token_costs :
    (f : Fork)
    → has_prague_gas f ≡ true
    → ((gas_costs f).g_tx_data_non_zero ≡ 4 * (gas_costs f).g_tx_data_zero)
      × ((gas_costs f).g_tx_data_standard_token_cost ≡ (gas_costs f).g_tx_data_zero)
unfolding has_prague_gas gas_costs
prague_token_costs frontier e = ground arith
prague_token_costs _ e = ground arith

pub loop_cost :
    (g : GasCosts) (bytes : List ℕ) (floor : Bool)
    → frontier_calldata_gas g bytes floor
      ≡ zeros bytes * g.g_tx_data_zero + nonzeros bytes * g.g_tx_data_non_zero
unfolding frontier_calldata_gas
loop_cost g bytes floor = omega (arith, frontier_cost_from_lem g 0 bytes)

pub calldata_gas_lem : (f : Fork) (bytes : List ℕ) → calldata_gas f bytes false ≡ bytes_cost f bytes
unfolding calldata_gas
calldata_gas_lem f bytes = elim (Bool-cases (has_prague_gas f)) [
  | inl e ↦
      let (four, one) = prague_token_costs f e in
      rw (e, calldata_tokens (gas_costs f) (gas_costs f) bytes false four one)
        (loop_cost (gas_costs f) bytes false)
  | inr e ↦ rw e (loop_cost (gas_costs f) bytes false)
]

pub data_floor_cost_lem :
    (f : Fork) (bytes : List ℕ)
    → data_floor_cost f bytes ≡ (
        if has_prague_gas f
        then (gas_costs f).g_transaction
          + (zeros bytes + 4 * nonzeros bytes) * (gas_costs f).g_tx_data_floor_token_cost
        else 0)
unfolding data_floor_cost calldata_gas prague_calldata_gas
data_floor_cost_lem f bytes = elim (Bool-cases (has_prague_gas f)) [
  | inl e ↦ rw (e, tokens_from_lem 0 bytes) (omega arith)
  | inr e ↦ rw e refl
]

pub access_cost_from_lem :
    (g : GasCosts) (cost : ℕ) (l : List ℕ) → access_cost_from g cost l ≡ cost + access_cost g l
unfolding access_cost_from access_cost
access_cost_from_lem g cost [] = omega arith
access_cost_from_lem g cost (keys ∷ rest) = omega (
  arith,
  access_cost_from_lem g (cost + g.g_access_list_address + keys * g.g_access_list_storage) rest,
)
