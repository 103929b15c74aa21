-- ===== src/Forks/Arith/Exponential.antt =====
-- Proofs on `fake_exponential` in src/ethereum_test_forks/forks/helpers.py.
use native.Mathlib.Nat.{
  mul-le-mul, suc-add, div-mul-le_self, div-lt_iff_lt-mul, le-div_iff_mul-le, mul-le-mul_left,
}
use execution_spec_tests.Base.{
  ℕ, zero, suc, ◌+◌, ◌*◌, ◌/◌, ◌≤◌, ◌<◌, ◌≡◌, refl, true, some, Bool-cases, Option-cases, inl, inr,
  ltb, ltb→lt, arith,
}
use execution_spec_tests.Forks.Arith.{exponential_loop, fake_exponential}

-- Division by the same number keeps the order.
pub div_mono : (a b c : ℕ) → a ≤ b → a / c ≤ b / c
div_mono a b zero h = omega arith
div_mono a b (suc c) h =
    let k : 0 < suc c = omega arith in
    (le-div_iff_mul-le {x = a / suc c} k).1 (omega (arith, div-mul-le_self a (suc c)))

module _ (numerator denominator : ℕ) (positive : 0 < denominator) where
  -- From the round past the numerator on, the accumulator falls.
  accumulator_falls : (i a : ℕ) → 0 < a → numerator < i → a * numerator / (denominator * i) < a
  accumulator_falls i a pa h =
      let le : i ≤ denominator * i = grind arith in
      let gap : suc numerator ≤ denominator * i = omega arith in
      (div-lt_iff_lt-mul (omega arith)).1 (omega (arith, mul-le-mul_left a gap))

  loop_falling :
      (n i a output : ℕ)
      → a < n
      → numerator < i
      → (r : ℕ) × (exponential_loop n numerator denominator i a output ≡ some r)
  unfolding exponential_loop
  loop_falling zero i a output lt h = elim lt [ ]
  loop_falling (suc n) i a output lt h = elim (Bool-cases (ltb 0 a)) [
    | inl more ↦ rw more (
        loop_falling n (i + 1) (a * numerator / (denominator * i)) (output + a)
          (omega (arith, accumulator_falls i a (ltb→lt 0 a more) h)) (omega arith))
    | inr done ↦ (output, rw done)
  ]

  loop_returns :
      (m i a output : ℕ)
      → numerator < i + m
      → (n r : ℕ) × (exponential_loop n numerator denominator i a output ≡ some r)
  loop_returns zero i a output h =
      let (r, e) = loop_falling (suc a) i a output (omega arith) (omega arith) in (suc a, r, e)
  loop_returns (suc m) i a output h =
      let (n, r, e) =
        loop_returns m (i + 1) (a * numerator / (denominator * i)) (output + a) (omega arith) in
      step n r e
    where
      step :
          (n r : ℕ)
          → exponential_loop n numerator denominator
              (i + 1)
              (a * numerator / (denominator * i))
              (output + a)
            ≡ some r
          → (n r : ℕ) × (exponential_loop n numerator denominator i a output ≡ some r)
      step n r e = elim (Bool-cases (ltb 0 a)) [
        | inl more ↦ (suc n, r, unfold exponential_loop in (rw more e))
        | inr done ↦ (suc n, output, unfold exponential_loop in (rw done))
      ]

-- More fuel does not change what the loop returns.
loop_more_fuel :
    (n k numerator denominator i a output r : ℕ)
    → exponential_loop n numerator denominator i a output ≡ some r
    → exponential_loop (n + k) numerator denominator i a output ≡ some r
unfolding exponential_loop
loop_more_fuel zero k numerator denominator i a output r e = cc
loop_more_fuel (suc n) k numerator denominator i a output r e =
    rw suc-add (elim (Bool-cases (ltb 0 a)) [
      | inl more ↦ rw more (
          loop_more_fuel n k numerator denominator (i + 1) (a * numerator / (denominator * i))
            (output + a) r (rw more at e))
      | inr done ↦ rw done (rw done at e)
    ])

-- The first term stands in the output.
loop_lower :
    (n numerator denominator i a output r : ℕ)
    → exponential_loop n numerator denominator i a output ≡ some r
    → output + a ≤ r
unfolding exponential_loop
loop_lower zero numerator denominator i a output r e = cc
loop_lower (suc n) numerator denominator i a output r e = ground (
  arith,
  loop_lower n numerator denominator (i + 1) (a * numerator / (denominator * i)) (output + a) r,
)

-- A larger numerator and larger partial results give no smaller output.
loop_mono :
    (n m p q denominator i a b x y r s : ℕ)
    → p ≤ q
    → a ≤ b
    → x ≤ y
    → exponential_loop n p denominator i a x ≡ some r
    → exponential_loop m q denominator i b y ≡ some s
    → r ≤ s
unfolding exponential_loop
loop_mono zero m p q denominator i a b x y r s hp ha hx e f = cc
loop_mono (suc n) zero p q denominator i a b x y r s hp ha hx e f = cc
loop_mono (suc n) (suc m) p q denominator i a b x y r s hp ha hx e f = elim (Bool-cases (ltb 0 a)) [
  | inl more ↦
      let more_b : ltb 0 b ≡ true = ground arith in
      loop_mono n m p q denominator (i + 1) (a * p / (denominator * i)) (b * q / (denominator * i))
        (x + a) (y + b) r s hp (div_mono (a * p) (b * q) (denominator * i) (mul-le-mul ha hp))
        (omega arith) (rw more at e) (rw more_b at f)
  | inr done ↦
      let same_output : x ≡ r = ground arith in
      omega (
        arith,
        loop_lower (suc m) q denominator i b y s (unfold exponential_loop in f),
        same_output,
      )
]

-- For a denominator that is not zero, some fuel suffices, and more fuel changes nothing; the result
-- is no less than the factor.
pub fake_exponential_returns :
    (factor numerator denominator : ℕ)
    → 0 < denominator
    → (fuel r : ℕ) × ((k : ℕ) → fake_exponential (fuel + k) factor numerator denominator ≡ some r)
      × (factor ≤ r)
unfolding fake_exponential
fake_exponential_returns factor numerator denominator h =
    let (fuel, r, e) =
      loop_returns numerator denominator h numerator 1 (factor * denominator) 0 (omega arith) in
    (
      fuel,
      r / denominator,
      (λ k.
          rw
            (
              loop_more_fuel fuel k numerator denominator 1 (factor * denominator) 0 r e,
              fake_exponential,
            )
            refl),
      (le-div_iff_mul-le h).1
          (omega (arith, loop_lower fuel numerator denominator 1 (factor * denominator) 0 r e)),
    )

-- A larger numerator gives no smaller result, whatever fuel the two calls return with.
pub fake_exponential_mono :
    (n m factor p q denominator r s : ℕ)
    → p ≤ q
    → fake_exponential n factor p denominator ≡ some r
    → fake_exponential m factor q denominator ≡ some s
    → r ≤ s
unfolding fake_exponential
fake_exponential_mono n m factor p q denominator r s h e f =
    elim (Option-cases (exponential_loop n p denominator 1 (factor * denominator) 0)) [
      | inl out ↦ ground arith
      | inr (x, ex) ↦
          elim (Option-cases (exponential_loop m q denominator 1 (factor * denominator) 0)) [
            | inl out ↦ ground arith
            | inr (y, ey) ↦
                let le : x ≤ y =
                  loop_mono n m p q denominator 1 (factor * denominator) (factor * denominator) 0 0
                    x y h (omega arith) (omega arith) ex ey in
                ground (arith, div_mono x y denominator le)
          ]
    ]
