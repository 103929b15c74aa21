-- ===== src/Base/Checks.antt =====
-- A Python call that returns nothing or raises an error that the caller may inspect.
use mathlib.Core.Path.{◌≡◌, refl}
use mathlib.Core.Logic.{◌↔◌}
use mathlib.Core.List.{List, [], ◌∷◌}
use execution_spec_tests.Base.Lists.{All}

pub data Check {ℓ} (E : Type ℓ) : Type ℓ where
  passed : Check E
  raised : E → Check E

module _ {ℓ} {E : Type ℓ} where
  -- One statement after another.
  infixr 5 ◌and_then◌
  abbrev pub ◌and_then◌ : Check E → Check E → Check E
  passed and_then c = c
  raised e and_then c = raised e

  -- A `for` loop with a body that may raise.
  abbrev pub check_each {κ} : {A : Type κ} → (A → Check E) → List A → Check E
  check_each f [] = passed
  check_each f (x ∷ xs) = f x and_then check_each f xs

  -- The error of an inner call, as an error of the outer one.
  abbrev pub relabel {κ} : {F : Type κ} → (E → F) → Check E → Check F
  relabel f passed = passed
  relabel f (raised e) = raised (f e)

  pub and_then-passed : (c d : Check E) → ((c and_then d) ≡ passed) ↔ ((c ≡ passed) × (d ≡ passed))
  and_then-passed passed d = ((λ h. (refl, h)), λ (_, h). h)
  and_then-passed (raised e) d = ((λ h. cc), λ (h, _). cc)

  pub relabel-passed {κ} :
      {F : Type κ} (f : E → F) (c : Check E) → (relabel f c ≡ passed) ↔ (c ≡ passed)
  relabel-passed f passed = ((λ _. refl), λ _. refl)
  relabel-passed f (raised e) = ((λ h. cc), λ h. cc)

  pub check_each-passed {κ} :
      {A : Type κ} (f : A → Check E) (xs : List A)
      → (check_each f xs ≡ passed) ↔ All (λ x. f x ≡ passed) xs
  check_each-passed f [] = ((λ _. tt), λ _. refl)
  check_each-passed f (x ∷ xs) =
      let split = and_then-passed (f x) (check_each f xs) in
      let rest = check_each-passed f xs in
      ((λ h. let (p, q) = split.0 h in (p, rest.0 q)), λ (p, q). split.1 (p, rest.1 q))
