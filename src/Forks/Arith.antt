-- ===== src/Forks/Arith.antt =====
-- src/ethereum_test_forks/forks/helpers.py: `ceiling_division` and `fake_exponential`, over Python's
-- floor division.
pub mod Ceiling
pub mod Exponential
use execution_spec_tests.Base.{
  ℕ, zero, suc, ◌+◌, ◌-◌, ◌*◌, ◌/◌, Option, none, some, ltb, ◌==◌, if◌then◌else◌,
}
use execution_spec_tests.Base.Int.{ℤ, pos, negsuc}

-- -n
abbrev pub negate : ℕ → ℤ
negate zero = pos 0
negate (suc n) = negsuc n

abbrev pub neg : ℤ → ℤ
neg (pos n) = negate n
neg (negsuc n) = pos (suc n)

-- The quotient of naturals rounded up, the divisor being `suc d`.
abbrev pub up_div : ℕ → ℕ → ℕ
up_div n d = (n + d) / suc d

-- Python's `//`, which rounds down; a zero divisor, which raises there, gives 0.
unfoldable pub floor_div : ℤ → ℤ → ℤ
floor_div a (pos zero) = pos 0
floor_div (pos n) (pos (suc d)) = pos (n / suc d)
floor_div (negsuc n) (pos (suc d)) = negate (up_div (suc n) d)
floor_div (pos n) (negsuc d) = negate (up_div n d)
floor_div (negsuc n) (negsuc d) = pos (suc n / suc d)

unfoldable pub ceiling_division : ℤ → ℤ → ℤ
ceiling_division a b = neg (floor_div a (neg b))

-- The loop of `fake_exponential`, on fuel; none is for fuel that runs out.
unfoldable pub exponential_loop : ℕ → (numerator denominator i accumulator output : ℕ) → Option ℕ
exponential_loop zero numerator denominator i accumulator output = none
exponential_loop (suc n) numerator denominator i accumulator output =
    let rest =
      exponential_loop n numerator denominator (i + 1) (accumulator * numerator / (denominator * i))
        (output + accumulator) in
    if ltb 0 accumulator then rest else some output

unfoldable pub fake_exponential : ℕ → (factor numerator denominator : ℕ) → Option ℕ
fake_exponential fuel factor numerator denominator =
    elim (exponential_loop fuel numerator denominator 1 (factor * denominator) 0) [
      | none ↦ none
      | some output ↦ some (output / denominator)
    ]
