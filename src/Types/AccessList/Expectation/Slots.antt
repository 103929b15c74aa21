-- ===== src/Types/AccessList/Expectation/Slots.antt =====
-- Proofs on the loop over expected slots in
-- src/ethereum_test_types/block_access_list/expectations.py.
use mathlib.Core.Option.{none-ne-some, some-injective}
use execution_spec_tests.Base.{
  ℕ, ◌≡◌, refl, sym, ap, ◌∙◌, subst, ◌↔◌, true, false, some, List, [], ◌∷◌, ◌==◌, ==_iff,
  Bool-cases, Option-cases, inl, inr, arith, passed, and_then-passed,
}
use execution_spec_tests.Types.AccessList.{
  Change, StorageSlot, contains, slots, change_not_found, not_found, storage,
}
use execution_spec_tests.Types.AccessList.Order.{IsAscending, tail-IsAscending, above_all}
use execution_spec_tests.Types.AccessList.Expectation.{
  equal, same_change, find_slot, check_changes, slots_subsequence,
}
use execution_spec_tests.Types.AccessList.Expectation.Subsequence.{
  Sub, nil, take, skip, Same, subsequence_iff, raised-apart,
}

-- No expected changes accept any changes.
abbrev pub MeetsChanges : (expected actual : List (Change ℕ)) → Type 0
MeetsChanges [] actual = Unit
MeetsChanges (c ∷ cs) actual = Sub (Same (same_change equal)) (c ∷ cs) actual

abbrev pub MeetsSlot : (actual expected : StorageSlot) → Type 0
MeetsSlot s x = (s.slot ≡ x.slot) × MeetsChanges x.slot_changes s.slot_changes

check_changes_iff : (xs ys : List (Change ℕ)) → (check_changes xs ys ≡ passed) ↔ MeetsChanges xs ys
unfolding check_changes
check_changes_iff [] ys = ((λ _. tt), λ _. refl)
check_changes_iff (x ∷ xs) ys =
    subsequence_iff (same_change equal) (change_not_found storage) (x ∷ xs) ys

found-MeetsSlot :
    (x : StorageSlot) (xs ss rest : List StorageSlot) (t : StorageSlot)
    → find_slot x.slot ss ≡ some (t, rest)
    → MeetsChanges x.slot_changes t.slot_changes
    → Sub MeetsSlot xs rest
    → Sub MeetsSlot (x ∷ xs) ss
unfolding find_slot
found-MeetsSlot x xs [] rest t e m s = absurd (none-ne-some (t, rest) e)
found-MeetsSlot x xs (y ∷ ss) rest t e m s = elim (Bool-cases (y.slot == x.slot)) [
  | inl h ↦
      let here : (y, ss) ≡ (t, rest) = some-injective (y, ss) (t, rest) (rw (find_slot, h) at e) in
      take
        (
          (==_iff y.slot x.slot).0 h,
          subst (λ u. MeetsChanges x.slot_changes u.slot_changes) (sym (ap (λ p. p.0) here)) m,
        )
        (subst (Sub MeetsSlot xs) (sym (ap (λ p. p.1) here)) s)
  | inr h ↦
      let later : find_slot x.slot ss ≡ some (t, rest) = rw (find_slot, h) at e in
      skip (found-MeetsSlot x xs ss rest t later m s)
]

found-IsAscending :
    (k : ℕ) (ss rest : List StorageSlot) (t : StorageSlot)
    → find_slot k ss ≡ some (t, rest)
    → IsAscending (slots ss)
    → IsAscending (slots rest)
unfolding find_slot
found-IsAscending k [] rest t e a = absurd (none-ne-some (t, rest) e)
found-IsAscending k (y ∷ ss) rest t e a = elim (Bool-cases (y.slot == k)) [
  | inl h ↦
      let here : (y, ss) ≡ (t, rest) = some-injective (y, ss) (t, rest) (rw (find_slot, h) at e) in
      subst (λ r. IsAscending (slots r)) (ap (λ p. p.1) here) (tail-IsAscending y.slot (slots ss) a)
  | inr h ↦
      let later : find_slot k ss ≡ some (t, rest) = rw (find_slot, h) at e in
      found-IsAscending k ss rest t later (tail-IsAscending y.slot (slots ss) a)
]

Sub-contains :
    (x : StorageSlot) (xs ss : List StorageSlot)
    → Sub MeetsSlot (x ∷ xs) ss
    → contains x.slot (slots ss) ≡ true
Sub-contains x xs [] s = elim s [ ]
Sub-contains x xs (y ∷ ss) (take (e, m) s) =
    let here : (x.slot == y.slot) ≡ true = (==_iff x.slot y.slot).1 (sym e) in rw here refl
Sub-contains x xs (y ∷ ss) (skip s) = elim (Bool-cases (x.slot == y.slot)) [
  | inl h ↦ rw h refl
  | inr h ↦ rw h (Sub-contains x xs ss s)
]

Sub-found :
    (x : StorageSlot) (xs ss : List StorageSlot)
    → IsAscending (slots ss)
    → Sub MeetsSlot (x ∷ xs) ss
    → (t : StorageSlot) × (rest : List StorageSlot) × (find_slot x.slot ss ≡ some (t, rest))
      × MeetsChanges x.slot_changes t.slot_changes
      × Sub MeetsSlot xs rest
unfolding find_slot
Sub-found x xs [] a s = elim s [ ]
Sub-found x xs (y ∷ ss) a (take (e, m) s) = (y, ss, rw ((==_iff y.slot x.slot).1 e) refl, m, s)
Sub-found x xs (y ∷ ss) a (skip s) = elim (Bool-cases (y.slot == x.slot)) [
  | inl h ↦
      let absent =
        above_all x.slot y.slot (slots ss) (omega (arith, (==_iff y.slot x.slot).0 h)) a in
      absurd (true-apart (sym (Sub-contains x xs ss s) ∙ absent))
  | inr h ↦
      let (t, rest, e, m, r) = Sub-found x xs ss (tail-IsAscending y.slot (slots ss) a) s in
      (t, rest, rw h e, m, r)
]
  where
    true-apart : true ≡ false → ⊥
    true-apart q = cc

-- In slots with ascending keys, the loop succeeds exactly on the slots that are matched in order.
pub slots_subsequence_iff :
    (xs ss : List StorageSlot)
    → IsAscending (slots ss)
    → (slots_subsequence xs ss ≡ passed) ↔ Sub MeetsSlot xs ss
unfolding slots_subsequence
slots_subsequence_iff [] ss a = ((λ _. nil), λ _. refl)
slots_subsequence_iff (x ∷ xs) ss a = elim (Option-cases (find_slot x.slot ss)) [
  | inl q ↦ (
    λ h. absurd (raised-apart (not_found storage) (rw (slots_subsequence, q) at h)),
    λ s.
        let (t, rest, f, m, r) = Sub-found x xs ss a s in
        absurd (none-ne-some (t, rest) (sym q ∙ f)),
  )
  | inr ((t, rest), q) ↦
      let ih = slots_subsequence_iff xs rest (found-IsAscending x.slot ss rest t q a) in
      let split =
        and_then-passed (check_changes x.slot_changes t.slot_changes) (slots_subsequence xs rest) in
      let changes = check_changes_iff x.slot_changes t.slot_changes in
      (
        λ h.
            let (p, r) = split.0 (rw (slots_subsequence, q) at h) in
            found-MeetsSlot x xs ss rest t q (changes.0 p) (ih.0 r),
        λ s.
            let (u, other, f, m, r) = Sub-found x xs ss a s in
            let same : (u, other) ≡ (t, rest) = some-injective (u, other) (t, rest) (sym f ∙ q) in
            rw (slots_subsequence, q)
              (split.1 (
                changes.1 (
                    subst (λ v. MeetsChanges x.slot_changes v.slot_changes) (ap (λ p. p.0) same) m),
                ih.1 (subst (Sub MeetsSlot xs) (ap (λ p. p.1) same) r),
              )),
      )
]
