-- ===== src/Forks/Gas/Intrinsic.antt =====
-- Proofs on the intrinsic cost calculators in src/ethereum_test_forks/forks/forks.py, against one
-- formula for all forks.
use execution_spec_tests.Base.{
  ℕ, ◌+◌, ◌*◌, max, ◌≡◌, refl, true, false, ◌&&◌, none, length, sym, ◌∙◌, Result, ok, err,
  assertion_error, Option-cases, inl, inr, arith, if◌then◌else◌,
}
use execution_spec_tests.Forks.Fork.{
  Fork, frontier, homestead, dao_fork, tangerine, spurious_dragon, byzantium, constantinople,
  constantinople_fix, istanbul, muir_glacier, berlin, london, arrow_glacier, gray_glacier, paris,
  shanghai, cancun, prague, osaka, bpo1, bpo2, bpo3, bpo4, bpo5, amsterdam, eofv1, ge, same,
  is_subclass, walk, parent,
}
use execution_spec_tests.Forks.Costs.{gas_costs}
use execution_spec_tests.Forks.Gas.{
  words, has_prague_gas, data_floor_cost, absent, TxArgs, is_none, is_absent, frontier_intrinsic,
  homestead_intrinsic, berlin_intrinsic, authorization_count, prague_intrinsic, intrinsic_cost,
}
use execution_spec_tests.Forks.Gas.Formula.{
  access_part, bytes_cost, standard_cost, floor_cost, supported, ge-prague, calldata_gas_lem,
  data_floor_cost_lem, access_cost_from_lem,
}

-- What the calculators of the four classes return, for a class that inherits them.
abbrev creation_words : Fork → TxArgs → ℕ
creation_words f t =
    if t.contract_creation then (gas_costs f).g_initcode_word * words (length t.calldata) else 0

abbrev plain_cost : Fork → TxArgs → ℕ
plain_cost f t = (gas_costs f).g_transaction + creation_words f t + bytes_cost f t.calldata

abbrev create_cost : Fork → TxArgs → ℕ
create_cost f t = if t.contract_creation then (gas_costs f).g_transaction_create else 0

frontier_intrinsic_lem :
    (f : Fork) (t : TxArgs)
    → frontier_intrinsic f t ≡ (
        if is_none t.access_list && is_absent t.authorizations
        then ok (plain_cost f t)
        else err assertion_error)
unfolding frontier_intrinsic
frontier_intrinsic_lem f t = ground (arith, calldata_gas_lem f t.calldata)

homestead_intrinsic_lem :
    (f : Fork) (t : TxArgs)
    → homestead_intrinsic f t ≡ (
        if is_none t.access_list && is_absent t.authorizations
        then ok (plain_cost f t + create_cost f t)
        else err assertion_error)
unfolding homestead_intrinsic
homestead_intrinsic_lem f t = ground (arith, frontier_intrinsic_lem f t)

berlin_intrinsic_lem :
    (f : Fork) (t : TxArgs)
    → berlin_intrinsic f t ≡ (
        if is_absent t.authorizations
        then ok (plain_cost f t + create_cost f t + access_part (gas_costs f) t.access_list)
        else err assertion_error)
unfolding berlin_intrinsic
berlin_intrinsic_lem f t = elim (Option-cases t.access_list) [
  | inl e ↦ rw e (ground (arith, homestead_intrinsic_lem f (record t { access_list = none })))
  | inr (l, e) ↦ rw e (
      ground (
        arith,
        homestead_intrinsic_lem f (record t { access_list = none }),
        access_cost_from_lem (gas_costs f) (plain_cost f t + create_cost f t) l,
      ))
]

prague_intrinsic_lem :
    (f : Fork) (t : TxArgs)
    → has_prague_gas f ≡ true
    → prague_intrinsic f t
      ≡ ok (
          max
            (plain_cost f t
              + create_cost f t
              + access_part (gas_costs f) t.access_list
              + authorization_count t.authorizations * (gas_costs f).g_authorization)
            (if t.return_cost_deducted_prior_execution then 0 else data_floor_cost f t.calldata))
unfolding prague_intrinsic
prague_intrinsic_lem f t e = ground (
  arith,
  berlin_intrinsic_lem f
      (record t { authorizations = absent; return_cost_deducted_prior_execution = false }),
)

abbrev Expected : Fork → TxArgs → Result ℕ
Expected f t =
    if supported f t then ok (max (standard_cost f t) (floor_cost f t)) else err assertion_error

module _ (f : Fork) (t : TxArgs) where
  frontier_era :
      ge f homestead ≡ false
      → ge f berlin ≡ false
      → ge f prague ≡ false
      → frontier_intrinsic f t ≡ Expected f t
  unfolding authorization_count
  frontier_era h b p =
      rw (frontier_intrinsic_lem f t, h, b, p)
        (elim (Option-cases t.access_list) [
          | inl e ↦ rw e (ground arith)
          | inr (l, e) ↦ rw e (ground arith)
        ])

  homestead_era :
      ge f homestead ≡ true
      → ge f berlin ≡ false
      → ge f prague ≡ false
      → homestead_intrinsic f t ≡ Expected f t
  unfolding authorization_count
  homestead_era h b p =
      rw (homestead_intrinsic_lem f t, h, b, p)
        (elim (Option-cases t.access_list) [
          | inl e ↦ rw e (ground arith)
          | inr (l, e) ↦ rw e (ground arith)
        ])

  berlin_era :
      ge f homestead ≡ true
      → ge f berlin ≡ true
      → ge f prague ≡ false
      → berlin_intrinsic f t ≡ Expected f t
  unfolding authorization_count
  berlin_era h b p = rw (berlin_intrinsic_lem f t, h, b, p) (ground arith)

  prague_era :
      ge f homestead ≡ true
      → ge f berlin ≡ true
      → ge f prague ≡ true
      → prague_intrinsic f t ≡ Expected f t
  prague_era h b p =
      let e : has_prague_gas f ≡ true = sym (ge-prague f) ∙ p in
      rw (prague_intrinsic_lem f t e, h, b, p, data_floor_cost_lem f t.calldata, e) (ground arith)

-- In every fork the calculators return the sum of the parts, or from Prague on at least the floor
-- cost unless it is asked for the cost before execution; an access list before Berlin and
-- authorizations before Prague fail the assertion.
pub intrinsic_cost_lem :
    (f : Fork) (t : TxArgs)
    → intrinsic_cost f t ≡ (
        if supported f t
        then ok (max (standard_cost f t) (floor_cost f t))
        else err assertion_error)
unfolding intrinsic_cost ge same is_subclass walk parent
intrinsic_cost_lem frontier t = frontier_era frontier t refl refl refl
intrinsic_cost_lem homestead t = homestead_era homestead t refl refl refl
intrinsic_cost_lem dao_fork t = homestead_era dao_fork t refl refl refl
intrinsic_cost_lem tangerine t = homestead_era tangerine t refl refl refl
intrinsic_cost_lem spurious_dragon t = homestead_era spurious_dragon t refl refl refl
intrinsic_cost_lem byzantium t = homestead_era byzantium t refl refl refl
intrinsic_cost_lem constantinople t = homestead_era constantinople t refl refl refl
intrinsic_cost_lem constantinople_fix t = homestead_era constantinople_fix t refl refl refl
intrinsic_cost_lem istanbul t = homestead_era istanbul t refl refl refl
intrinsic_cost_lem muir_glacier t = homestead_era muir_glacier t refl refl refl
intrinsic_cost_lem berlin t = berlin_era berlin t refl refl refl
intrinsic_cost_lem london t = berlin_era london t refl refl refl
intrinsic_cost_lem arrow_glacier t = berlin_era arrow_glacier t refl refl refl
intrinsic_cost_lem gray_glacier t = berlin_era gray_glacier t refl refl refl
intrinsic_cost_lem paris t = berlin_era paris t refl refl refl
intrinsic_cost_lem shanghai t = berlin_era shanghai t refl refl refl
intrinsic_cost_lem cancun t = berlin_era cancun t refl refl refl
intrinsic_cost_lem prague t = prague_era prague t refl refl refl
intrinsic_cost_lem osaka t = prague_era osaka t refl refl refl
intrinsic_cost_lem bpo1 t = prague_era bpo1 t refl refl refl
intrinsic_cost_lem bpo2 t = prague_era bpo2 t refl refl refl
intrinsic_cost_lem bpo3 t = prague_era bpo3 t refl refl refl
intrinsic_cost_lem bpo4 t = prague_era bpo4 t refl refl refl
intrinsic_cost_lem bpo5 t = prague_era bpo5 t refl refl refl
intrinsic_cost_lem amsterdam t = prague_era amsterdam t refl refl refl
intrinsic_cost_lem eofv1 t = prague_era eofv1 t refl refl refl
