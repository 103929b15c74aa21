-- ===== src/Forks/Blobs.antt =====
-- src/ethereum_test_forks/forks/forks.py: the blob parameters of the classes from Cancun on, the blob
-- gas price and the two excess blob gas calculators.
pub mod Price
pub mod Excess
mod Examples
use execution_spec_tests.Base.{
  ℕ, zero, suc, ◌+◌, ◌-◌, ◌*◌, ◌/◌, ◌^◌, Bool, true, false, Option, none, some, Result, ok, err,
  assertion_error, not_implemented, out_of_fuel, ◌>>=◌, ltb, if◌then◌else◌,
}
use execution_spec_tests.Forks.Fork.{
  Fork, cancun, prague, osaka, bpo1, bpo2, bpo3, bpo4, bpo5, amsterdam, eofv1,
}
use execution_spec_tests.Forks.Arith.{fake_exponential}

-- The methods that return a number; `own_max_per_tx` is none where a class takes the maximum of a
-- block.
pub record BlobParams : Type 0 where
  pub min_base_fee_per_blob_gas : ℕ
  pub blob_base_fee_update_fraction : ℕ
  pub blob_gas_per_blob : ℕ
  pub target_blobs_per_block : ℕ
  pub max_blobs_per_block : ℕ
  pub blob_reserve_price_active : Bool
  pub own_max_per_tx : Option ℕ

abbrev pub cancun_blobs : BlobParams
cancun_blobs = record {
  min_base_fee_per_blob_gas = 1;
  blob_base_fee_update_fraction = 3338477;
  blob_gas_per_blob = 2 ^ 17;
  target_blobs_per_block = 3;
  max_blobs_per_block = 6;
  blob_reserve_price_active = false;
  own_max_per_tx = none;
}

abbrev pub prague_blobs : BlobParams
prague_blobs = record cancun_blobs {
  blob_base_fee_update_fraction = 5007716;
  target_blobs_per_block = 6;
  max_blobs_per_block = 9;
}

abbrev pub osaka_blobs : BlobParams
osaka_blobs = record prague_blobs { own_max_per_tx = some 6; blob_reserve_price_active = true }

abbrev pub bpo1_blobs : BlobParams
bpo1_blobs = record osaka_blobs {
  blob_base_fee_update_fraction = 8346193;
  target_blobs_per_block = 10;
  max_blobs_per_block = 15;
}

abbrev pub bpo2_blobs : BlobParams
bpo2_blobs = record bpo1_blobs {
  blob_base_fee_update_fraction = 11684671;
  target_blobs_per_block = 14;
  max_blobs_per_block = 21;
}

abbrev pub bpo3_blobs : BlobParams
bpo3_blobs = record bpo2_blobs {
  blob_base_fee_update_fraction = 20609697;
  target_blobs_per_block = 21;
  max_blobs_per_block = 32;
}

abbrev pub bpo4_blobs : BlobParams
bpo4_blobs = record bpo3_blobs {
  blob_base_fee_update_fraction = 13739630;
  target_blobs_per_block = 14;
  max_blobs_per_block = 21;
}

-- What a class has or inherits; before Cancun the methods raise.
unfoldable pub blob_params : Fork → Result BlobParams
blob_params cancun = ok cancun_blobs
blob_params prague = ok prague_blobs
blob_params osaka = ok osaka_blobs
blob_params bpo1 = ok bpo1_blobs
blob_params bpo2 = ok bpo2_blobs
blob_params bpo3 = ok bpo3_blobs
blob_params bpo4 = ok bpo4_blobs
blob_params bpo5 = ok bpo4_blobs
blob_params amsterdam = ok osaka_blobs
blob_params eofv1 = ok prague_blobs
blob_params _ = err not_implemented

-- `max_blobs_per_tx`
unfoldable pub max_blobs_per_tx : BlobParams → ℕ
max_blobs_per_tx p = elim p.own_max_per_tx [ none ↦ p.max_blobs_per_block | some n ↦ n ]

-- The function that `blob_gas_price_calculator` returns.
unfoldable pub blob_gas_price : ℕ → BlobParams → ℕ → Option ℕ
blob_gas_price fuel p excess_blob_gas =
    fake_exponential fuel p.min_base_fee_per_blob_gas excess_blob_gas
      p.blob_base_fee_update_fraction

-- The keyword arguments of the excess blob gas calculators.
pub record ExcessArgs : Type 0 where
  pub parent_excess_blob_gas : Option ℕ
  pub parent_excess_blobs : Option ℕ
  pub parent_blob_gas_used : Option ℕ
  pub parent_blob_count : Option ℕ
  pub parent_base_fee_per_gas : ℕ

-- An amount of gas, or else a number of blobs, which the assertion asks for.
abbrev pub gas_or_blobs : ℕ → Option ℕ → Option ℕ → Result ℕ
gas_or_blobs per_blob (some gas) blobs = ok gas
gas_or_blobs per_blob none (some blobs) = ok (blobs * per_blob)
gas_or_blobs per_blob none none = err assertion_error

-- `Cancun.excess_blob_gas_calculator`
unfoldable pub cancun_excess : BlobParams → ExcessArgs → Result ℕ
cancun_excess p t = do
  let target = p.target_blobs_per_block * p.blob_gas_per_blob
  excess ← gas_or_blobs p.blob_gas_per_blob t.parent_excess_blob_gas t.parent_excess_blobs
  used ← gas_or_blobs p.blob_gas_per_blob t.parent_blob_gas_used t.parent_blob_count
  if ltb (excess + used) target then ok 0 else ok (excess + used - target)

-- The rest of Osaka's calculator, from the price of the parent's excess on.
unfoldable pub osaka_rest : BlobParams → (base_fee excess used price : ℕ) → ℕ
osaka_rest p base_fee excess used price =
    if ltb (p.blob_gas_per_blob * price) (2 ^ 13 * base_fee)
    then excess + used * (p.max_blobs_per_block - p.target_blobs_per_block) / p.max_blobs_per_block
    else excess + used - p.target_blobs_per_block * p.blob_gas_per_blob

-- `Osaka.excess_blob_gas_calculator`
unfoldable pub osaka_excess : ℕ → BlobParams → ExcessArgs → Result ℕ
osaka_excess fuel p t = do
  let target = p.target_blobs_per_block * p.blob_gas_per_blob
  excess ← gas_or_blobs p.blob_gas_per_blob t.parent_excess_blob_gas t.parent_excess_blobs
  used ← gas_or_blobs p.blob_gas_per_blob t.parent_blob_gas_used t.parent_blob_count
  if ltb (excess + used) target then ok 0 else elim (blob_gas_price fuel p excess) [
    | none ↦ err out_of_fuel
    | some price ↦ ok (osaka_rest p t.parent_base_fee_per_gas excess used price)
  ]

-- The calculator that a class has or inherits.
unfoldable pub excess_blob_gas : ℕ → Fork → ExcessArgs → Result ℕ
excess_blob_gas fuel cancun t = cancun_excess cancun_blobs t
excess_blob_gas fuel prague t = cancun_excess prague_blobs t
excess_blob_gas fuel eofv1 t = cancun_excess prague_blobs t
excess_blob_gas fuel osaka t = osaka_excess fuel osaka_blobs t
excess_blob_gas fuel bpo1 t = osaka_excess fuel bpo1_blobs t
excess_blob_gas fuel bpo2 t = osaka_excess fuel bpo2_blobs t
excess_blob_gas fuel bpo3 t = osaka_excess fuel bpo3_blobs t
excess_blob_gas fuel bpo4 t = osaka_excess fuel bpo4_blobs t
excess_blob_gas fuel bpo5 t = osaka_excess fuel bpo4_blobs t
excess_blob_gas fuel amsterdam t = osaka_excess fuel osaka_blobs t
excess_blob_gas fuel _ t = err not_implemented
