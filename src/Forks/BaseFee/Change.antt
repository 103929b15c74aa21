-- ===== src/Forks/BaseFee/Change.antt =====
-- Proofs on `base_fee_change_calculator` of London in src/ethereum_test_forks/forks/forks.py.
use native.Mathlib.Nat.{
  mul-div-le, lt-mul-div-succ, div-div-eq-div-mul, div-eq_of_lt-le, div-lt_iff_lt-mul,
}
use execution_spec_tests.Base.{
  ℕ, zero, suc, ◌+◌, ◌-◌, ◌*◌, ◌/◌, max, ◌≤◌, ◌<◌, ◌≡◌, true, false, ok, err, assertion_error,
  Bool-cases, inl, inr, ◌⊎◌, ◌≢◌, ◌∙◌, ap, arith, ltb, ◌==◌, if◌then◌else◌,
}
use execution_spec_tests.Base.Int.{ℤ, pos, pos_part, ◌-ℤ◌, ◌==ℤ◌, ltb_ℤ, int_laws}
use execution_spec_tests.Forks.BaseFee.{base_fee_with, proposed_gas, base_fee_change_with}
use execution_spec_tests.Forks.BaseFee.Bounds.{divide_pos, sub_pos, base_fee_at, base_fee_above}

-- A change by `delta` takes this much more, or less, gas than the target.
abbrev pub gas_share : (d target fee delta : ℕ) → ℕ
gas_share d target fee delta = delta * d * target / fee

-- The share of a proposal, as a floor: it never takes the fee past the change that is asked for, and
-- one more unit of gas always does.
share_floor :
    (d target fee delta : ℕ)
    → 0 < fee
    → (fee * gas_share d target fee delta ≤ delta * d * target)
      × (delta * d * target < fee * (gas_share d target fee delta + 1))
share_floor d target fee delta pf =
    (mul-div-le (delta * d * target) fee, lt-mul-div-succ (delta * d * target) pf)

-- The change that `x / target / d` stands for.
change_eq :
    (d target x delta : ℕ)
    → 0 < d
    → 0 < target
    → delta * d * target ≤ x
    → x < delta * d * target + d * target
    → x / target / d ≡ delta
change_eq d target x delta pd pt lo hi =
    div-div-eq-div-mul x target d
    ∙ div-eq_of_lt-le {k = delta} (target * d) (grind arith) (grind arith)

change_lt :
    (d target x delta : ℕ) → 0 < d → 0 < target → x < delta * d * target → x / target / d < delta
change_lt d target x delta pd pt h = (div-lt_iff_lt-mul pd).1 ((div-lt_iff_lt-mul pt).1 h)

module _ (d e fee limit required : ℕ) (pd : 0 < d) (pe : 0 < e) (pt : 0 < limit / e) where
  change_of_proposed :
      (g r : ℤ)
      → proposed_gas d (limit / e) fee required ≡ ok g
      → base_fee_with d e fee g limit ≡ ok r
      → base_fee_change_with d e fee limit required
        ≡ (if r ==ℤ pos required then ok g else err assertion_error)
  unfolding base_fee_change_with
  change_of_proposed g r p q =
      rw (divide_pos limit e pe, p, q)
        (elim (Bool-cases (r ==ℤ pos required)) [ inl t ↦ rw t | inr t ↦ rw t ])

  proposed_up :
      0 < fee
      → fee < required
      → proposed_gas d (limit / e) fee required
        ≡ ok (pos (gas_share d (limit / e) fee (required - fee) + limit / e))
  unfolding proposed_gas
  proposed_up pf h =
      let apart : (fee == required) ≡ false = ground arith in
      let up : ltb fee required ≡ true = ground arith in
      rw (apart, up, divide_pos ((required - fee) * d * (limit / e)) fee pf)

  proposed_down :
      required < fee
      → proposed_gas d (limit / e) fee required
        ≡ ok (pos (limit / e) -ℤ pos (gas_share d (limit / e) fee (fee - required)) -ℤ pos 1)
  unfolding proposed_gas
  proposed_down h =
      let apart : (fee == required) ≡ false = ground arith in
      let down : ltb fee required ≡ false = ground arith in
      let pf : 0 < fee = omega arith in
      rw (apart, down, divide_pos ((fee - required) * d * (limit / e)) fee pf)

  -- The fee at the proposal for an increase that takes any gas at all.
  fee_at_proposal :
      0 < gas_share d (limit / e) fee (required - fee)
      → base_fee_with d e fee (pos (gas_share d (limit / e) fee (required - fee) + limit / e)) limit
        ≡ ok (
            pos
              (fee + max (fee * gas_share d (limit / e) fee (required - fee) / (limit / e) / d) 1))
  fee_at_proposal h =
      let q = gas_share d (limit / e) fee (required - fee) in
      let cancel : q + limit / e - limit / e ≡ q = omega arith in
      rw cancel at (base_fee_above d e fee (q + limit / e) limit pd pe pt (omega arith))

one_step :
    (d target x delta : ℕ)
    → 0 < d
    → 0 < target
    → delta ≡ 1
    → x ≤ delta * d * target
    → x / target / d ≤ 1
one_step d target x delta pd pt e h =
    let h' : x ≤ 1 * d * target = rw e at h in
    let room : 0 < d * target = grind arith in
    let below = change_lt d target x 2 pd pt (omega arith) in omega (arith, below)

-- Rounding the share down keeps the change: the share is not rounded, or the change is 1 and the
-- share is not zero. This is about the share alone: an increase that is not exact may well be the
-- increase at some other gas.
abbrev pub IsExact : (d target fee delta : ℕ) → Type 0
IsExact d target fee delta =
    (fee * gas_share d target fee delta ≡ delta * d * target)
    ⊎ ((delta ≡ 1) × (0 < gas_share d target fee delta))

module _ (d e fee limit required : ℕ) (pd : 0 < d) (pe : 0 < e) (pt : 0 < limit / e) where
  -- The fee that the calculator reads back moves by the change asked for, if that is exact.
  step_kept :
      0 < fee
      → fee < required
      → IsExact d (limit / e) fee (required - fee)
      → (0 < gas_share d (limit / e) fee (required - fee))
        × (max (fee * gas_share d (limit / e) fee (required - fee) / (limit / e) / d) 1
            ≡ required - fee)
  step_kept pf h (inl exact) =
      let some_change : 0 < (required - fee) * d * (limit / e) = grind arith in
      let some_gas : 0 < gas_share d (limit / e) fee (required - fee) =
        pos_right fee _ (omega (arith, exact, some_change)) in
      let move =
        change_eq d (limit / e) (fee * gas_share d (limit / e) fee (required - fee))
          (required - fee) pd pt (omega (arith, exact)) (grind (arith, exact)) in
      (some_gas, omega (arith, move))
    where
      pos_right : (a b : ℕ) → 0 < a * b → 0 < b
      pos_right a zero h = omega arith
      pos_right a (suc b) h = omega arith
  step_kept pf h (inr (one, some_gas)) =
      let floor = (share_floor d (limit / e) fee (required - fee) pf).0 in
      let small =
        one_step d (limit / e) (fee * gas_share d (limit / e) fee (required - fee)) (required - fee)
          pd pt one floor in
      (some_gas, omega (arith, small, one))

  -- For a denominator, an elasticity, a gas target and a fee that are not zero. The share of an
  -- increase is the increase times the denominator times the target, divided by the fee and rounded
  -- down. An increase whose share is not rounded, or that is 1 with a share that is not zero, returns
  -- the target and the share together, and the base fee at that gas is the required one.
  pub change_exact :
      0 < fee
      → fee < required
      → IsExact d (limit / e) fee (required - fee)
      → (base_fee_change_with d e fee limit required
          ≡ ok (pos (gas_share d (limit / e) fee (required - fee) + limit / e)))
        × (base_fee_with d e fee
              (pos (gas_share d (limit / e) fee (required - fee) + limit / e))
              limit
            ≡ ok (pos required))
  change_exact pf h exact =
      let (some_gas, step) = step_kept pf h exact in
      let proposed = proposed_up d e fee limit required pd pe pt pf h in
      let fee_there = fee_at_proposal d e fee limit required pd pe pt some_gas in
      let meets : fee + (required - fee) ≡ required = omega arith in
      let fee_there' = rw (step, meets) at fee_there in
      let yes_it_is : (pos required ==ℤ pos required) ≡ true = ground arith in
      (
        change_of_proposed d e fee limit required pd pe pt _ _ proposed fee_there' ∙ rw yes_it_is,
        fee_there',
      )

  -- One unit of gas above a share that is rounded down reaches the required fee.
  next_gas_reaches :
      0 < fee
      → fee < required
      → fee * gas_share d (limit / e) fee (required - fee) < (required - fee) * d * (limit / e)
      → fee ≤ d * (limit / e)
      → base_fee_with d e fee
          (pos (gas_share d (limit / e) fee (required - fee) + 1 + limit / e))
          limit
        ≡ ok (pos required)
  next_gas_reaches pf h rounded small =
      let q = gas_share d (limit / e) fee (required - fee) in
      let next = (share_floor d (limit / e) fee (required - fee) pf).1 in
      let cancel : q + 1 + limit / e - limit / e ≡ q + 1 = omega arith in
      let fee_there =
        rw cancel at (base_fee_above d e fee (q + 1 + limit / e) limit pd pe pt (omega arith)) in
      let step =
        change_eq d (limit / e) (fee * (q + 1)) (required - fee) pd pt (omega (arith, next))
          (omega (arith, rounded)) in
      let meets : fee + max (required - fee) 1 ≡ required = omega arith in
      rw (step, meets) at fee_there

  -- For a denominator, an elasticity, a gas target and a fee that are not zero: every other increase,
  -- one whose share is rounded and that is more than 1 or has a share of zero, fails the assertion.
  -- If the fee is at most the target times the denominator, it does so although the gas one unit
  -- above the target and the share reaches the required fee.
  pub change_inexact :
      0 < fee
      → fee < required
      → ¬ IsExact d (limit / e) fee (required - fee)
      → (base_fee_change_with d e fee limit required ≡ err assertion_error)
        × (fee ≤ d * (limit / e)
            → base_fee_with d e fee
                (pos (gas_share d (limit / e) fee (required - fee) + 1 + limit / e))
                limit
              ≡ ok (pos required))
  change_inexact pf h no_way = (
    (let proposed = proposed_up d e fee limit required pd pe pt pf h in
        elim (Bool-cases (ltb 0 share)) [
          | inl some_gas ↦
              let gas : 0 < share = ground arith in
              let fee_there = fee_at_proposal d e fee limit required pd pe pt gas in
              let short = change_lt d (limit / e) (fee * share) (required - fee) pd pt rounded in
              let many : 2 ≤ required - fee = several gas in
              change_of_proposed d e fee limit required pd pe pt _ _ proposed fee_there
              ∙ (let no_it_is_not : (pos (fee + max (fee * share / (limit / e) / d) 1)
                        ==ℤ pos required)
                      ≡ false =
                    missed (fee * share / (limit / e) / d) short many in
                  rw no_it_is_not)
          | inr no_gas ↦
              let none_left : share ≡ 0 = ground arith in
              let at_target : share + limit / e ≡ limit / e = omega (arith, none_left) in
              let fee_there = base_fee_at d e fee (share + limit / e) limit pd pe pt at_target in
              change_of_proposed d e fee limit required pd pe pt _ _ proposed fee_there
              ∙ (let no_it_is_not : (pos fee ==ℤ pos required) ≡ false = ground arith in
                  rw no_it_is_not)
        ]),
    next_gas_reaches pf h rounded,
  )
    where
      share : ℕ
      share = gas_share d (limit / e) fee (required - fee)

      rounded : fee * share < (required - fee) * d * (limit / e)
      rounded =
          let floor = (share_floor d (limit / e) fee (required - fee) pf).0 in
          let apart : fee * share ≢ (required - fee) * d * (limit / e) = (λ e. no_way (inl e)) in
          omega (arith, floor, apart)

      several : 0 < share → 2 ≤ required - fee
      several gas =
          let apart : required - fee ≢ 1 = (λ e. no_way (inr (e, gas))) in omega (arith, apart)

      missed :
          (x : ℕ)
          → x < required - fee
          → 2 ≤ required - fee
          → (pos (fee + max x 1) ==ℤ pos required) ≡ false
      missed x short many = let apart : fee + max x 1 ≢ required = omega arith in ground arith

  fee_at_low :
      (q : ℕ)
      → base_fee_with d e fee (pos (limit / e) -ℤ pos q -ℤ pos 1) limit
        ≡ ok (pos fee -ℤ pos (fee * (q + 1) / (limit / e) / d))
  unfolding base_fee_with
  fee_at_low q =
      let apart : (pos (limit / e) -ℤ pos q -ℤ pos 1 ==ℤ pos (limit / e)) ≡ false =
        grind int_laws in
      let below : ltb_ℤ (pos (limit / e)) (pos (limit / e) -ℤ pos q -ℤ pos 1) ≡ false =
        grind int_laws in
      let gap : pos_part (pos (limit / e) -ℤ (pos (limit / e) -ℤ pos q -ℤ pos 1)) ≡ q + 1 =
        grind int_laws in
      rw (
        divide_pos limit e pe,
        apart,
        below,
        gap,
        divide_pos (fee * (q + 1)) (limit / e) pt,
        divide_pos (fee * (q + 1) / (limit / e)) d pd,
      )

  -- A decrease is returned where the fee is below the target times the denominator: the proposal is
  -- one unit of gas below the share, and may be negative.
  pub change_down :
      fee < d * (limit / e)
      → required < fee
      → base_fee_change_with d e fee limit required
        ≡ ok (pos (limit / e) -ℤ pos (gas_share d (limit / e) fee (fee - required)) -ℤ pos 1)
  change_down small h =
      let share = gas_share d (limit / e) fee (fee - required) in
      let proposed = proposed_down d e fee limit required pd pe pt h in
      let fee_there = fee_at_low share in
      let pf : 0 < fee = omega arith in
      let (floor, next) = share_floor d (limit / e) fee (fee - required) pf in
      let step =
        change_eq d (limit / e) (fee * (share + 1)) (fee - required) pd pt (omega (arith, next))
          (omega (arith, floor)) in
      let fee_there' = rw step at fee_there in
      let meets : pos fee -ℤ pos (fee - required) ≡ pos required =
        sub_pos fee (fee - required) (omega arith) ∙ ap pos (omega arith) in
      let fee_there'' = rw meets at fee_there' in
      change_of_proposed d e fee limit required pd pe pt _ _ proposed fee_there''
      ∙ (let yes_it_is : (pos required ==ℤ pos required) ≡ true = ground arith in rw yes_it_is)
