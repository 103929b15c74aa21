-- ===== src/Forks/Gas.antt =====
-- src/ethereum_test_forks/forks/forks.py: the gas calculators of the fork classes. Byte counts and
-- prices are natural numbers; calldata is a list of bytes.
pub mod Memory
pub mod Calldata
pub mod Formula
pub mod Intrinsic
mod Examples
use execution_spec_tests.Base.{
  ℕ, zero, suc, ◌+◌, ◌-◌, ◌*◌, ◌/◌, max, Bool, true, false, Option, none, some, List, [], ◌∷◌,
  length, Result, ok, err, assertion_error, ◌>>=◌, ◌>>◌, guard, leb, ◌==◌, if◌then◌else◌,
}
use execution_spec_tests.Base.Int.{pos, pos_part}
use execution_spec_tests.Forks.Fork.{
  Fork, frontier, homestead, dao_fork, tangerine, spurious_dragon, byzantium, constantinople,
  constantinople_fix, istanbul, muir_glacier, berlin, london, arrow_glacier, gray_glacier, paris,
  shanghai, cancun, prague, osaka, bpo1, bpo2, bpo3, bpo4, bpo5, amsterdam, eofv1,
}
use execution_spec_tests.Forks.Costs.{GasCosts, gas_costs}
use execution_spec_tests.Forks.Arith.{ceiling_division}

-- Calls of `ceiling_division(n, 32)`.
unfoldable pub words : ℕ → ℕ
words n = pos_part (ceiling_division (pos n) (pos 32))

-- `memory_expansion_gas_calculator`, which no class overrides: `c`, and the function returned.
unfoldable pub memory_cost : GasCosts → ℕ → ℕ
memory_cost g w = g.g_memory * w + w * w / 512

unfoldable pub memory_expansion : Fork → (new_bytes previous_bytes : ℕ) → ℕ
memory_expansion f new_bytes previous_bytes =
    if leb new_bytes previous_bytes
    then 0
    else memory_cost (gas_costs f) (words new_bytes)
      - memory_cost (gas_costs f) (words previous_bytes)

-- `Frontier.calldata_gas_calculator`: the loop over the bytes, which ignores `floor`.
unfoldable pub frontier_cost_from : GasCosts → ℕ → List ℕ → ℕ
frontier_cost_from g cost [] = cost
frontier_cost_from g cost (b ∷ bs) =
    frontier_cost_from g (cost + (if b == 0 then g.g_tx_data_zero else g.g_tx_data_non_zero)) bs

unfoldable pub frontier_calldata_gas : GasCosts → List ℕ → Bool → ℕ
frontier_calldata_gas g bytes floor = frontier_cost_from g 0 bytes

-- `Prague.calldata_gas_calculator`: the loop counts tokens.
unfoldable pub tokens_from : ℕ → List ℕ → ℕ
tokens_from tokens [] = tokens
tokens_from tokens (b ∷ bs) = tokens_from (tokens + (if b == 0 then 1 else 4)) bs

unfoldable pub prague_calldata_gas : GasCosts → List ℕ → Bool → ℕ
prague_calldata_gas g bytes floor =
    if floor
    then tokens_from 0 bytes * g.g_tx_data_floor_token_cost
    else tokens_from 0 bytes * g.g_tx_data_standard_token_cost

-- Which of the two calculators, and of the floor costs below, a class has or inherits.
unfoldable pub has_prague_gas : Fork → Bool
has_prague_gas prague = true
has_prague_gas osaka = true
has_prague_gas bpo1 = true
has_prague_gas bpo2 = true
has_prague_gas bpo3 = true
has_prague_gas bpo4 = true
has_prague_gas bpo5 = true
has_prague_gas amsterdam = true
has_prague_gas eofv1 = true
has_prague_gas _ = false

unfoldable pub calldata_gas : Fork → List ℕ → Bool → ℕ
calldata_gas f =
    if has_prague_gas f
    then prague_calldata_gas (gas_costs f)
    else frontier_calldata_gas (gas_costs f)

-- `transaction_data_floor_cost_calculator` of Frontier and of Prague.
unfoldable pub data_floor_cost : Fork → List ℕ → ℕ
data_floor_cost f bytes =
    if has_prague_gas f then calldata_gas f bytes true + (gas_costs f).g_transaction else 0

-- The keyword arguments of the intrinsic cost calculators. An access list is the number of storage
-- keys of each entry; the authorizations are counted already, or are a list to count.
pub data Authorizations : Type 0 where
  absent : Authorizations
  counted : ℕ → Authorizations
  listed : List ℕ → Authorizations

pub record TxArgs : Type 0 where
  pub calldata : List ℕ
  pub contract_creation : Bool
  pub access_list : Option (List ℕ)
  pub authorizations : Authorizations
  pub return_cost_deducted_prior_execution : Bool

abbrev pub is_none {ℓ} : {A : Type ℓ} → Option A → Bool
is_none none = true
is_none (some a) = false

abbrev pub is_absent : Authorizations → Bool
is_absent absent = true
is_absent _ = false

-- `transaction_intrinsic_cost_calculator` of Frontier.
unfoldable pub frontier_intrinsic : Fork → TxArgs → Result ℕ
frontier_intrinsic f t = do
  guard (is_none t.access_list) assertion_error
  guard (is_absent t.authorizations) assertion_error
  let g = gas_costs f
  let cost =
      g.g_transaction
      + (if t.contract_creation then g.g_initcode_word * words (length t.calldata) else 0)
  ok (cost + calldata_gas f t.calldata false)

-- Of Homestead.
unfoldable pub homestead_intrinsic : Fork → TxArgs → Result ℕ
homestead_intrinsic f t = do
  cost ← frontier_intrinsic f t
  ok (if t.contract_creation then cost + (gas_costs f).g_transaction_create else cost)

-- The loop of Berlin over the access list.
unfoldable pub access_cost_from : GasCosts → ℕ → List ℕ → ℕ
access_cost_from g cost [] = cost
access_cost_from g cost (keys ∷ rest) =
    access_cost_from g (cost + g.g_access_list_address + keys * g.g_access_list_storage) rest

-- Of Berlin: it passes no access list on.
unfoldable pub berlin_intrinsic : Fork → TxArgs → Result ℕ
berlin_intrinsic f t = do
  cost ← homestead_intrinsic f (record t { access_list = none })
  ok (elim t.access_list [ none ↦ cost | some l ↦ access_cost_from (gas_costs f) cost l ])

unfoldable pub authorization_count : Authorizations → ℕ
authorization_count absent = 0
authorization_count (counted n) = n
authorization_count (listed l) = length l

-- Of Prague: it passes no authorizations on, and takes the floor cost into account.
unfoldable pub prague_intrinsic : Fork → TxArgs → Result ℕ
prague_intrinsic f t = do
  before ←
      berlin_intrinsic f
        (record t { authorizations = absent; return_cost_deducted_prior_execution = false })
  let cost = before + authorization_count t.authorizations * (gas_costs f).g_authorization
  ok (
      if t.return_cost_deducted_prior_execution
      then cost
      else max cost (data_floor_cost f t.calldata))

-- The calculator that a class has or inherits.
unfoldable pub intrinsic_cost : Fork → TxArgs → Result ℕ
intrinsic_cost frontier = frontier_intrinsic frontier
intrinsic_cost homestead = homestead_intrinsic homestead
intrinsic_cost dao_fork = homestead_intrinsic dao_fork
intrinsic_cost tangerine = homestead_intrinsic tangerine
intrinsic_cost spurious_dragon = homestead_intrinsic spurious_dragon
intrinsic_cost byzantium = homestead_intrinsic byzantium
intrinsic_cost constantinople = homestead_intrinsic constantinople
intrinsic_cost constantinople_fix = homestead_intrinsic constantinople_fix
intrinsic_cost istanbul = homestead_intrinsic istanbul
intrinsic_cost muir_glacier = homestead_intrinsic muir_glacier
intrinsic_cost berlin = berlin_intrinsic berlin
intrinsic_cost london = berlin_intrinsic london
intrinsic_cost arrow_glacier = berlin_intrinsic arrow_glacier
intrinsic_cost gray_glacier = berlin_intrinsic gray_glacier
intrinsic_cost paris = berlin_intrinsic paris
intrinsic_cost shanghai = berlin_intrinsic shanghai
intrinsic_cost cancun = berlin_intrinsic cancun
intrinsic_cost prague = prague_intrinsic prague
intrinsic_cost osaka = prague_intrinsic osaka
intrinsic_cost bpo1 = prague_intrinsic bpo1
intrinsic_cost bpo2 = prague_intrinsic bpo2
intrinsic_cost bpo3 = prague_intrinsic bpo3
intrinsic_cost bpo4 = prague_intrinsic bpo4
intrinsic_cost bpo5 = prague_intrinsic bpo5
intrinsic_cost amsterdam = prague_intrinsic amsterdam
intrinsic_cost eofv1 = prague_intrinsic eofv1
