-- ===== src/Forks/Blobs/Price.antt =====
-- Proofs on the blob gas price of the forks in src/ethereum_test_forks/forks/forks.py.
use execution_spec_tests.Base.{ℕ, ◌+◌, ◌≤◌, ◌<◌, ◌≡◌, some, ok, arith}
use execution_spec_tests.Forks.Fork.{Fork, cancun}
use execution_spec_tests.Forks.Arith.Exponential.{fake_exponential_returns, fake_exponential_mono}
use execution_spec_tests.Forks.Blobs.{BlobParams, blob_params, max_blobs_per_tx, blob_gas_price}

-- What the blob parameters of a fork have to be.
pub record IsConsistent (p : BlobParams) : Type 0 where
  pub some_target : 0 < p.target_blobs_per_block
  pub target_lt_max : p.target_blobs_per_block < p.max_blobs_per_block
  pub tx_le_block : max_blobs_per_tx p ≤ p.max_blobs_per_block
  pub tx_nonzero : 0 < max_blobs_per_tx p
  pub some_price : 0 < p.min_base_fee_per_blob_gas
  pub some_fraction : 0 < p.blob_base_fee_update_fraction

-- In every fork with blobs the target is above zero and below the maximum of a block, a transaction
-- can carry a blob and no more than a block, and the price's factor and denominator are not zero.
pub blob_params-IsConsistent : (f : Fork) (p : BlobParams) → blob_params f ≡ ok p → IsConsistent p
unfolding blob_params max_blobs_per_tx
blob_params-IsConsistent cancun p e = ground arith
blob_params-IsConsistent _ p e = ground arith

-- In every fork with blobs the price of any excess is computed (some fuel suffices, and more changes
-- nothing), is at least the minimum, and is no more than the price of a larger excess.
pub blob_gas_price_returns :
    (f : Fork) (p : BlobParams) (excess : ℕ)
    → blob_params f ≡ ok p
    → (fuel price : ℕ) × ((k : ℕ) → blob_gas_price (fuel + k) p excess ≡ some price)
      × (p.min_base_fee_per_blob_gas ≤ price)
      × ((n larger q : ℕ) → excess ≤ larger → blob_gas_price n p larger ≡ some q → price ≤ q)
unfolding blob_gas_price
blob_gas_price_returns f p excess e =
    let c = blob_params-IsConsistent f p e in
    let (fuel, price, same, lower) =
      fake_exponential_returns p.min_base_fee_per_blob_gas excess p.blob_base_fee_update_fraction
        c.some_fraction in
    (
      fuel,
      price,
      same,
      lower,
      (λ n larger q le r.
          fake_exponential_mono (fuel + 0) n p.min_base_fee_per_blob_gas excess larger
            p.blob_base_fee_update_fraction price q le (same 0) r),
    )
