-- ===== src/Forks/Blobs/Examples.antt =====
-- The theorems on blobs at concrete parents, and runs of the calculators.
use execution_spec_tests.Base.{
  ℕ, ◌+◌, ◌*◌, ◌≤◌, ◌≡◌, refl, some, none, arith, ok, err, assertion_error,
}
use execution_spec_tests.Forks.Fork.{cancun, prague, osaka}
use execution_spec_tests.Forks.Arith.{exponential_loop, fake_exponential}
use execution_spec_tests.Forks.Arith.Exponential.{fake_exponential_returns}
use execution_spec_tests.Forks.Blobs.{
  prague_blobs, osaka_blobs, blob_params, blob_gas_price, ExcessArgs, cancun_excess, osaka_rest,
  osaka_excess, excess_blob_gas,
}
use execution_spec_tests.Forks.Blobs.Price.{blob_gas_price_returns}
use execution_spec_tests.Forks.Blobs.Excess.{osaka_excess_bounds}

price_at_ten_million : blob_gas_price 100 osaka_blobs 10_000_000 ≡ some 7
unfolding blob_gas_price fake_exponential exponential_loop
price_at_ten_million = refl

-- A full block at a high base fee: the reserve price keeps a third of the gas.
abbrev full_parent : ExcessArgs
full_parent = record {
  parent_excess_blob_gas = none;
  parent_excess_blobs = some 10;
  parent_blob_gas_used = none;
  parent_blob_count = some 9;
  parent_base_fee_per_gas = 1000;
}

reserve_price :
    (excess_blob_gas 100 osaka full_parent ≡ ok (13 * 131072))
    × (excess_blob_gas 100 cancun full_parent ≡ ok (16 * 131072))
unfolding excess_blob_gas osaka_excess osaka_rest cancun_excess blob_gas_price fake_exponential
    exponential_loop
reserve_price = (refl, refl)

no_count :
    cancun_excess prague_blobs (record full_parent { parent_blob_count = none })
    ≡ err assertion_error
unfolding cancun_excess
no_count = refl

fake_exponential_returns_example :
    (fuel r : ℕ) × ((k : ℕ) → fake_exponential (fuel + k) 2 5 3 ≡ some r) × (2 ≤ r)
fake_exponential_returns_example = fake_exponential_returns 2 5 3 (omega arith)

blob_gas_price_returns_example :
    (fuel price : ℕ) × ((k : ℕ) → blob_gas_price (fuel + k) prague_blobs 1000 ≡ some price)
    × (1 ≤ price)
    × ((n larger q : ℕ) → 1000 ≤ larger → blob_gas_price n prague_blobs larger ≡ some q → price ≤ q)
unfolding blob_params
blob_gas_price_returns_example = blob_gas_price_returns prague prague_blobs 1000 refl

osaka_excess_bounds_example :
    (fuel r c : ℕ) × ((k : ℕ) → osaka_excess (fuel + k) osaka_blobs full_parent ≡ ok r)
    × (cancun_excess osaka_blobs full_parent ≡ ok c)
    × (c ≤ r)
    × (r ≤ 10 * 131072 + 9 * 131072)
unfolding blob_params
osaka_excess_bounds_example =
    osaka_excess_bounds osaka osaka_blobs full_parent (10 * 131072) (9 * 131072) refl refl refl
      (omega arith)
