-- ===== src/Forks/Gas/Calldata.antt =====
-- Proofs on the loops over calldata in src/ethereum_test_forks/forks/forks.py, against a count of
-- zero and other bytes.
use execution_spec_tests.Base.{
  ℕ, ◌+◌, ◌*◌, ◌≡◌, Bool, false, List, [], ◌∷◌, Bool-cases, inl, inr, arith, ◌==◌, if◌then◌else◌,
}
use execution_spec_tests.Forks.Costs.{GasCosts}
use execution_spec_tests.Forks.Gas.{
  frontier_cost_from, frontier_calldata_gas, tokens_from, prague_calldata_gas,
}

-- How many bytes are zero, and how many are not.
pub zeros : List ℕ → ℕ
zeros [] = 0
zeros (b ∷ bs) = (if b == 0 then 1 else 0) + zeros bs

pub nonzeros : List ℕ → ℕ
nonzeros [] = 0
nonzeros (b ∷ bs) = (if b == 0 then 0 else 1) + nonzeros bs

pub frontier_cost_from_lem :
    (g : GasCosts) (cost : ℕ) (bytes : List ℕ)
    → frontier_cost_from g cost bytes
      ≡ cost + zeros bytes * g.g_tx_data_zero + nonzeros bytes * g.g_tx_data_non_zero
unfolding frontier_cost_from zeros nonzeros
frontier_cost_from_lem g cost [] = omega arith
frontier_cost_from_lem g cost (b ∷ bs) = elim (Bool-cases (b == 0)) [
  | inl z ↦ rw z (omega (arith, frontier_cost_from_lem g (cost + g.g_tx_data_zero) bs))
  | inr n ↦ rw n (omega (arith, frontier_cost_from_lem g (cost + g.g_tx_data_non_zero) bs))
]

pub tokens_from_lem :
    (tokens : ℕ) (bytes : List ℕ)
    → tokens_from tokens bytes ≡ tokens + zeros bytes + 4 * nonzeros bytes
unfolding tokens_from zeros nonzeros
tokens_from_lem tokens [] = omega arith
tokens_from_lem tokens (b ∷ bs) = elim (Bool-cases (b == 0)) [
  | inl z ↦ rw z (omega (arith, tokens_from_lem (tokens + 1) bs))
  | inr n ↦ rw n (omega (arith, tokens_from_lem (tokens + 4) bs))
]

-- Where a byte that is not zero costs four times a zero byte, and a token costs as much as a zero
-- byte, counting tokens as Prague does gives the cost that Frontier's loop over the bytes gives.
pub calldata_tokens :
    (g h : GasCosts) (bytes : List ℕ) (floor : Bool)
    → g.g_tx_data_non_zero ≡ 4 * g.g_tx_data_zero
    → h.g_tx_data_standard_token_cost ≡ g.g_tx_data_zero
    → prague_calldata_gas h bytes false ≡ frontier_calldata_gas g bytes floor
unfolding prague_calldata_gas frontier_calldata_gas
calldata_tokens g h bytes floor e k =
    rw (tokens_from_lem 0 bytes, frontier_cost_from_lem g 0 bytes, e, k) (omega arith)
