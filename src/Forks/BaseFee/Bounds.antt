-- ===== src/Forks/BaseFee/Bounds.antt =====
-- Proofs on how far one block moves the base fee, for London in
-- src/ethereum_test_forks/forks/forks.py.
use native.Mathlib.Nat.{mul-le-mul_left, div-le_of_le-mul, div-le_self}
use execution_spec_tests.Base.{
  ℕ, ◌+◌, ◌-◌, ◌*◌, ◌/◌, max, ◌≤◌, ◌<◌, ◌≡◌, true, false, ok, Bool-cases, inl, inr, ◌∙◌, ap, arith,
  ltb, ◌==◌,
}
use execution_spec_tests.Base.Int.{pos, ◌-ℤ◌, ◌==ℤ◌, ltb_ℤ}
use execution_spec_tests.Forks.Arith.Exponential.{div_mono}
use execution_spec_tests.Forks.BaseFee.{divide, base_fee_with}

pub divide_pos : (n d : ℕ) → 0 < d → divide n d ≡ ok (n / d)
divide_pos n d h = ground arith

pub sub_pos : (a b : ℕ) → b ≤ a → pos a -ℤ pos b ≡ pos (a - b)
unfolding ◌-ℤ◌
sub_pos a b h = ground arith

-- A part of the fee: the fee, times no more than the target, over the target, over the denominator.
pub share_le : (fee used target d : ℕ) → used ≤ target → fee * used / target / d ≤ fee / d
share_le fee used target d h =
    div_mono (fee * used / target) fee d
      (div-le_of_le-mul target (omega (arith, mul-le-mul_left fee h)))

-- The three branches, for a target and a denominator that are not zero.
module _ (d e fee used limit : ℕ) (pd : 0 < d) (pe : 0 < e) (pt : 0 < limit / e) where
  pub base_fee_at : used ≡ limit / e → base_fee_with d e fee (pos used) limit ≡ ok (pos fee)
  unfolding base_fee_with
  base_fee_at h = rw (divide_pos limit e pe) (ground arith)

  pub base_fee_above :
      limit / e < used
      → base_fee_with d e fee (pos used) limit
        ≡ ok (pos (fee + max (fee * (used - limit / e) / (limit / e) / d) 1))
  unfolding base_fee_with
  base_fee_above h =
      let apart : (pos used ==ℤ pos (limit / e)) ≡ false = ground arith in
      let above : ltb_ℤ (pos (limit / e)) (pos used) ≡ true = ground arith in
      rw (
        divide_pos limit e pe,
        apart,
        above,
        sub_pos used (limit / e) (omega arith),
        divide_pos (fee * (used - limit / e)) (limit / e) pt,
        divide_pos (fee * (used - limit / e) / (limit / e)) d pd,
      )

  pub base_fee_below :
      used < limit / e
      → base_fee_with d e fee (pos used) limit
        ≡ ok (pos fee -ℤ pos (fee * (limit / e - used) / (limit / e) / d))
  unfolding base_fee_with
  base_fee_below h =
      let apart : (pos used ==ℤ pos (limit / e)) ≡ false = ground arith in
      let below : ltb_ℤ (pos (limit / e)) (pos used) ≡ false = ground arith in
      rw (
        divide_pos limit e pe,
        apart,
        below,
        sub_pos (limit / e) used (omega arith),
        divide_pos (fee * (limit / e - used)) (limit / e) pt,
        divide_pos (fee * (limit / e - used) / (limit / e)) d pd,
      )

-- What a block does to the fee: it keeps it at the target, raises it above the target by at most the
-- larger of 1 and its share, and lowers it below the target by at most its share.
abbrev pub Moves : (d fee used target new_fee : ℕ) → Type 0
Moves d fee used target r =
    (used ≡ target → r ≡ fee)
    × (target < used → fee < r)
    × (used < target → r ≤ fee)
    × (r ≤ fee + max (fee / d) 1)
    × (fee ≤ r + fee / d)

-- For a block that uses no more than twice the target, with denominators and a target that are not
-- zero, the calculator returns a fee that is not negative: equal at the target, larger above it, no
-- larger below it, and no further off than the fee divided by the change denominator, or 1 upwards.
pub base_fee_bounds :
    (d e fee used limit : ℕ)
    → 0 < d
    → 0 < e
    → 0 < limit / e
    → used ≤ 2 * (limit / e)
    → (r : ℕ) × (base_fee_with d e fee (pos used) limit ≡ ok (pos r))
      × Moves d fee used (limit / e) r
base_fee_bounds d e fee used limit pd pe pt h = elim (Bool-cases (used == (limit / e))) [
  | inl at_target ↦
      let same : used ≡ limit / e = ground arith in
      (fee, base_fee_at d e fee used limit pd pe pt same, omega (arith, same))
  | inr apart ↦ elim (Bool-cases (ltb (limit / e) used)) [
    | inl above ↦
        let more : limit / e < used = ground arith in
        let share = share_le fee (used - limit / e) (limit / e) d (omega arith) in
        (
          fee + max (fee * (used - limit / e) / (limit / e) / d) 1,
          base_fee_above d e fee used limit pd pe pt more,
          omega (arith, share, more),
        )
    | inr below ↦
        let less : used < limit / e = ground arith in
        let share = share_le fee (limit / e - used) (limit / e) d (omega arith) in
        let whole = div-le_self fee d in
        (
          fee - fee * (limit / e - used) / (limit / e) / d,
          base_fee_below d e fee used limit pd pe pt less
              ∙ ap ok (
                  sub_pos fee (fee * (limit / e - used) / (limit / e) / d)
                    (omega (arith, share, whole))),
          omega (arith, share, whole, less),
        )
  ]
]
