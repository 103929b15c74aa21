-- ===== src/Forks/Arith/Ceiling.antt =====
-- Proofs on `ceiling_division` in src/ethereum_test_forks/forks/helpers.py.
use native.Mathlib.Nat.{lt-div-mul-add, div-lt_iff_lt-mul}
use execution_spec_tests.Base.{ℕ, zero, suc, ◌+◌, ◌*◌, ◌/◌, ◌≤◌, ◌<◌, ◌≡◌, refl, arith}
use execution_spec_tests.Base.Int.{pos}
use execution_spec_tests.Forks.Arith.{negate, neg, floor_div, ceiling_division}

neg-negate : (n : ℕ) → neg (negate n) ≡ pos n
neg-negate zero = refl
neg-negate (suc n) = refl

-- On numbers with a divisor that is not zero, the ceiling is the least quotient that covers the
-- dividend.
pub ceiling_division_lem :
    (a b : ℕ)
    → 0 < b
    → (q : ℕ) × (ceiling_division (pos a) (pos b) ≡ pos q)
      × (a ≤ q * b)
      × ((r : ℕ) → a ≤ r * b → q ≤ r)
unfolding ceiling_division floor_div
ceiling_division_lem a zero h = elim h [ ]
ceiling_division_lem a (suc d) h = (
  (a + d) / suc d,
  neg-negate ((a + d) / suc d),
  omega (arith, lt-div-mul-add {a = a + d} {b = suc d} h),
  least,
)
  where
    least : (r : ℕ) → a ≤ r * suc d → (a + d) / suc d ≤ r
    least r k =
        let below = (div-lt_iff_lt-mul {k = suc d} {x = a + d} {y = suc r} h).1 (grind arith) in
        omega (arith, below)

-- The form in which the gas calculators use it.
pub ceiling_division_pos :
    (a d : ℕ) → ceiling_division (pos a) (pos (suc d)) ≡ pos ((a + d) / suc d)
unfolding ceiling_division floor_div
ceiling_division_pos a d = neg-negate ((a + d) / suc d)
