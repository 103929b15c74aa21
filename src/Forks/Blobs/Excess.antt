-- ===== src/Forks/Blobs/Excess.antt =====
-- Proofs on Osaka's excess blob gas against Cancun's, in src/ethereum_test_forks/forks/forks.py.
use native.Mathlib.Nat.{le-div_iff_mul-le, mul-le-mul_left, div-le_of_le-mul}
use execution_spec_tests.Base.{
  ℕ, ◌+◌, ◌-◌, ◌*◌, ◌/◌, ◌^◌, ◌≤◌, ◌<◌, ◌≡◌, ok, Bool-cases, inl, inr, arith, ltb,
}
use execution_spec_tests.Forks.Fork.{Fork}
use execution_spec_tests.Forks.Blobs.{
  BlobParams, blob_params, ExcessArgs, gas_or_blobs, cancun_excess, osaka_rest, osaka_excess,
}
use execution_spec_tests.Forks.Blobs.Price.{
  IsConsistent, blob_params-IsConsistent, blob_gas_price_returns,
}

-- The share of the gas that the reserve price keeps is no less than the gas above the target.
share_covers :
    (m target g y : ℕ) → y ≤ g * m → 0 < m + target → y ≤ (y + target * g) * m / (m + target)
share_covers m target g y h pos =
    let scaled = mul-le-mul_left target h in (le-div_iff_mul-le pos).1 (grind (arith, scaled))

adjustment_of :
    (limit target g used m y : ℕ)
    → limit ≡ m + target
    → used ≡ y + target * g
    → 0 < limit
    → used ≤ limit * g
    → used ≤ used * m / limit + target * g
adjustment_of limit target g used m y e f pos fits =
    let pos' : 0 < m + target = omega (arith, e) in
    let fits' : y + target * g ≤ (m + target) * g = rw (e, f) at fits in
    rw (e, f) (omega (arith, share_covers m target g y (grind arith) pos'))

adjustment_covers :
    (limit target g used : ℕ)
    → target < limit
    → used ≤ limit * g
    → used ≤ used * (limit - target) / limit + target * g
adjustment_covers limit target g used h fits = elim (Bool-cases (ltb used (target * g))) [
  | inl below ↦ let less : used < target * g = ground arith in omega arith
  | inr above ↦
      let more : target * g ≤ used = ground arith in
      adjustment_of limit target g used (limit - target) (used - target * g) (omega arith)
        (omega arith) (omega arith) fits
]

-- The reserve price keeps a part of the gas that is used, never more than all of it.
adjustment_le : (limit target used : ℕ) → used * (limit - target) / limit ≤ used
adjustment_le limit target used =
    div-le_of_le-mul limit
      (omega (arith, mul-le-mul_left used (let h : limit - target ≤ limit = omega arith in h)))

module _ (p : BlobParams) (c : IsConsistent p) where
  osaka_rest_bounds :
      (base_fee excess used price : ℕ)
      → used ≤ p.max_blobs_per_block * p.blob_gas_per_blob
      → (excess + used - p.target_blobs_per_block * p.blob_gas_per_blob
          ≤ osaka_rest p base_fee excess used price)
        × (osaka_rest p base_fee excess used price ≤ excess + used)
  unfolding osaka_rest
  osaka_rest_bounds base_fee excess used price fits =
      let covers =
        adjustment_covers p.max_blobs_per_block p.target_blobs_per_block p.blob_gas_per_blob used
          c.target_lt_max fits in
      let part = adjustment_le p.max_blobs_per_block p.target_blobs_per_block used in
      elim (Bool-cases (ltb (p.blob_gas_per_blob * price) (2 ^ 13 * base_fee))) [
        | inl reserve ↦ rw reserve (omega (arith, covers, part))
        | inr plain ↦ rw plain (omega arith)
      ]

-- For the parameters of any fork with blobs, and a parent that uses no more blob gas than a block
-- allows, Osaka's calculator returns (some fuel suffices, and more changes nothing). Its result is no
-- smaller than Cancun's, and no larger than the parent's excess and use together.
pub osaka_excess_bounds :
    (f : Fork) (p : BlobParams) (t : ExcessArgs) (excess used : ℕ)
    → blob_params f ≡ ok p
    → gas_or_blobs p.blob_gas_per_blob t.parent_excess_blob_gas t.parent_excess_blobs ≡ ok excess
    → gas_or_blobs p.blob_gas_per_blob t.parent_blob_gas_used t.parent_blob_count ≡ ok used
    → used ≤ p.max_blobs_per_block * p.blob_gas_per_blob
    → (fuel r c : ℕ) × ((k : ℕ) → osaka_excess (fuel + k) p t ≡ ok r)
      × (cancun_excess p t ≡ ok c)
      × (c ≤ r)
      × (r ≤ excess + used)
unfolding osaka_excess cancun_excess
osaka_excess_bounds f p t excess used known e u fits =
    let c = blob_params-IsConsistent f p known in
    let (fuel, price, same, lower, mono) = blob_gas_price_returns f p excess known in
    let rest = osaka_rest_bounds p c t.parent_base_fee_per_gas excess used price fits in
    elim (Bool-cases (ltb (excess + used) (p.target_blobs_per_block * p.blob_gas_per_blob))) [
      | inl below ↦
          (fuel, 0, 0, (λ k. rw (e, u, below)), rw (e, u, below), omega arith, omega arith)
      | inr above ↦ (
        fuel,
        osaka_rest p t.parent_base_fee_per_gas excess used price,
        excess + used - p.target_blobs_per_block * p.blob_gas_per_blob,
        (λ k. rw (e, u, above, same k)),
        rw (e, u, above),
        rest.0,
        rest.1,
      )
    ]
