-- ===== src/Forks/Selection/Range.antt =====
-- Proofs on `ForkRangeDescriptor.fork_in_range` in src/ethereum_test_forks/helpers.py.
use execution_spec_tests.Base.{
  ◌≡◌, true, false, none, some, Bool-cases, Option-cases, inl, inr, arith, ◌↔◌, ◌≢◌,
}
use execution_spec_tests.Forks.Fork.{Fork, same, same_iff, lt, ge}
use execution_spec_tests.Forks.Fork.Order.{Descends, ge_iff, lt_iff}
use execution_spec_tests.Forks.Selection.{ForkRangeDescriptor, fork_in_range}

-- The tests of the two bounds, for the bound that a descriptor has.
lower_passes : (g : Fork) (f : Fork) → (lt f g ≡ false) ↔ (Descends f g → f ≡ g)
lower_passes g f = (
  (λ h d. elim (Bool-cases (same f g)) [
    | inl e ↦ (same_iff f g).0 e
    | inr n ↦ let ne : f ≢ g = (λ e. ground (arith, same_iff f g)) in cc ((lt_iff f g).1 (d, ne))
  ]),
  (λ h. elim (Bool-cases (lt f g)) [
    | inl t ↦ let (d, n) = (lt_iff f g).0 t in absurd (n (h d))
    | inr t ↦ t
  ]),
)

upper_passes : (l : Fork) (f : Fork) → (ge f l ≡ false) ↔ (¬ Descends l f)
upper_passes l f = (
  (λ h d. cc ((ge_iff f l).1 d)),
  (λ h. elim (Bool-cases (ge f l)) [ inl t ↦ absurd (h ((ge_iff f l).0 t)) | inr t ↦ t ]),
)

-- A fork is in the range exactly when it is no proper ancestor of the lower bound and no descendant
-- of the upper one.
pub fork_in_range_iff :
    (r : ForkRangeDescriptor) (f : Fork)
    → (fork_in_range r f ≡ true) ↔ (
        ((g : Fork) → r.greater_equal ≡ some g → Descends f g → f ≡ g)
        × ((l : Fork) → r.less_than ≡ some l → ¬ Descends l f))
unfolding fork_in_range
fork_in_range_iff r f = (
  (λ h. (
    (λ g e. (lower_passes g f).0 (ground (arith, e))),
    (λ l e. (upper_passes l f).0 (ground (arith, e))),
  )),
  (λ (above, below). elim (Option-cases r.greater_equal) [
    | inl n ↦ elim (Option-cases r.less_than) [
      | inl k ↦ ground arith
      | inr (l, k) ↦ ground (arith, (upper_passes l f).1 (below l k))
    ]
    | inr (g, e) ↦ elim (Option-cases r.less_than) [
      | inl k ↦ ground (arith, (lower_passes g f).1 (above g e))
      | inr (l, k) ↦
          ground (arith, (lower_passes g f).1 (above g e), (upper_passes l f).1 (below l k))
    ]
  ]),
)

-- A range with a lower bound alone holds every fork that the bound does not compare with: such a
-- fork is in the range, and yet is not greater than or equal to the bound.
pub fork_in_range_incomparable :
    (f g : Fork)
    → ¬ Descends f g
    → ¬ Descends g f
    → (fork_in_range (record { greater_equal = some g; less_than = none }) f ≡ true)
      × (ge f g ≡ false)
unfolding fork_in_range
fork_in_range_incomparable f g not_above not_below = (
  ground (arith, (lower_passes g f).1 (λ d. absurd (not_above d))),
  (upper_passes g f).1 not_below,
)
