-- ===== src/Types/AccessList/Expectation/Subsequence.antt =====
-- Proofs on the loops over expected and actual items in
-- src/ethereum_test_types/block_access_list/expectations.py.
use mathlib.Core.Option.{none-ne-some, some-injective}
use execution_spec_tests.Base.{
  ◌≡◌, refl, sym, ◌∙◌, subst, ◌↔◌, Bool, true, some, List, [], ◌∷◌, Bool-cases, Option-cases, inl,
  inr, passed, raised,
}
use execution_spec_tests.Types.AccessList.{BalError}
use execution_spec_tests.Types.AccessList.Expectation.{find_next, subsequence}

-- The expected items are matched in their order by some of the actual ones.
pub data Sub {A : Type 0} (R : A → A → Type 0) : List A → List A → Type 0 where
  nil : {ys : List A} → Sub R [] ys
  take : {x y : A} {xs ys : List A} → R y x → Sub R xs ys → Sub R (x ∷ xs) (y ∷ ys)
  skip : {y : A} {xs ys : List A} → Sub R xs ys → Sub R xs (y ∷ ys)

pub Sub-rest :
    {A : Type 0} {R : A → A → Type 0} {x : A} {xs ys : List A} → Sub R (x ∷ xs) ys → Sub R xs ys
Sub-rest (take r s) = skip s
Sub-rest (skip s) = skip (Sub-rest s)

pub raised-apart : (e : BalError) → raised e ≡ passed → ⊥
raised-apart e h = cc

module _ {A : Type 0} (same : A → A → Bool) where
  abbrev pub Same : A → A → Type 0
  Same y x = same y x ≡ true

  found-Sub :
      (x : A) (xs ys rest : List A)
      → find_next same x ys ≡ some rest
      → Sub Same xs rest
      → Sub Same (x ∷ xs) ys
  unfolding find_next
  found-Sub x xs [] rest e s = absurd (none-ne-some rest e)
  found-Sub x xs (y ∷ ys) rest e s = elim (Bool-cases (same y x)) [
    | inl h ↦
        let here : ys ≡ rest = some-injective ys rest (rw h at e) in
        take h (subst (Sub Same xs) (sym here) s)
    | inr h ↦
        let later : find_next same x ys ≡ some rest = rw h at e in
        skip (found-Sub x xs ys rest later s)
  ]

  Sub-found :
      (x : A) (xs ys : List A)
      → Sub Same (x ∷ xs) ys
      → (rest : List A) × (find_next same x ys ≡ some rest) × Sub Same xs rest
  unfolding find_next
  Sub-found x xs [] s = elim s [ ]
  Sub-found x xs (y ∷ ys) (take r s) = (ys, rw r refl, s)
  Sub-found x xs (y ∷ ys) (skip s) = elim (Bool-cases (same y x)) [
    | inl h ↦ (ys, rw h refl, Sub-rest s)
    | inr h ↦ let (rest, e, t) = Sub-found x xs ys s in (rest, rw h e, t)
  ]

  pub subsequence_iff :
      (e : BalError) (xs ys : List A) → (subsequence e same xs ys ≡ passed) ↔ Sub Same xs ys
  unfolding subsequence
  subsequence_iff e [] ys = ((λ _. nil), λ _. refl)
  subsequence_iff e (x ∷ xs) ys = elim (Option-cases (find_next same x ys)) [
    | inl q ↦ (
      λ h. absurd (raised-apart e (rw (subsequence, q) at h)),
      λ s. let (rest, f, t) = Sub-found x xs ys s in absurd (none-ne-some rest (sym q ∙ f)),
    )
    | inr (rest, q) ↦
        let ih = subsequence_iff e xs rest in
        (
          λ h. found-Sub x xs ys rest q (ih.0 (rw (subsequence, q) at h)),
          λ s.
              let (other, f, t) = Sub-found x xs ys s in
              let same_rest : other ≡ rest = some-injective other rest (sym f ∙ q) in
              rw (subsequence, q) (ih.1 (subst (Sub Same xs) same_rest t)),
        )
  ]
