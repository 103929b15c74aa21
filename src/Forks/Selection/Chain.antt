-- ===== src/Forks/Selection/Chain.antt =====
-- Proofs on `forks_from_until` in src/ethereum_test_forks/helpers.py.
use execution_spec_tests.Base.{
  ℕ, zero, suc, ◌<◌, ◌≡◌, refl, sym, subst, Option, none, some, List, [], ◌∷◌, Bool-cases,
  Option-cases, inl, inr, ◌⊎◌, arith, false, ◌≢◌,
}
use execution_spec_tests.Forks.Fork.{Fork, parent, index, same, same_iff}
use execution_spec_tests.Forks.Fork.Order.{
  Descends, here, up, Descends-trans, Descends-parent, parent-index,
}
use execution_spec_tests.Forks.Selection.{descend, forks_from_until}

-- A list of forks from `a` to `u`, each the base of the next.
pub data IsChain (u : Fork) : Fork → List Fork → Type 0 where
  single : IsChain u u (u ∷ [])
  before : {a b : Fork} {fs : List Fork} → parent b ≡ some a → IsChain u b fs → IsChain u a (a ∷ fs)

IsChain-Descends : {u a : Fork} {fs : List Fork} → IsChain u a fs → Descends a u
IsChain-Descends single = here
IsChain-Descends (before e c) = Descends-trans (up e here) (IsChain-Descends c)

-- What a call returns: the chain if the later fork descends from the earlier, else no fork.
abbrev pub Outcome : Fork → Fork → Option (List Fork) → Type 0
Outcome a u none = ⊥
Outcome a u (some fs) = IsChain u a fs ⊎ ((¬ Descends a u) × (fs ≡ []))

-- A class with no base but `BaseFork` descends from itself alone.
Descends-top : {a p : Fork} → parent p ≡ none → Descends a p → a ≡ p
Descends-top e here = refl
Descends-top e (up f d) = cc

module _ (a u : Fork) where
  descend-Outcome :
      (n : ℕ) (p : Fork) (forks : List Fork)
      → suc (index p) < n
      → IsChain u p (p ∷ forks)
      → (Descends a u → Descends a p)
      → Outcome a u (descend n a (some p) forks)
  unfolding descend
  descend-Outcome zero p forks lt chain reach = elim lt [ ]
  descend-Outcome (suc n) p forks lt chain reach = elim (Bool-cases (same p a)) [
    | inl e ↦ rw e (inl (subst (λ x. IsChain u x (x ∷ forks)) ((same_iff p a).0 e) chain))
    | inr ne ↦ rw ne (elim (Option-cases (parent p)) [
      | inl top ↦ rw top (stop n lt (λ d. ne_of_false p ne (Descends-top top (reach d))))
      | inr (q, e) ↦ rw e (
          descend-Outcome n q (p ∷ forks) (omega (arith, parent-index p e)) (before e chain)
            (λ d. later p q ne e (reach d)))
    ])
  ]
    where
      ne_of_false : (p : Fork) → same p a ≡ false → a ≢ p
      ne_of_false p ne e = ground (arith, same_iff p a, sym e)

      later : (p q : Fork) → same p a ≡ false → parent p ≡ some q → Descends a p → Descends a q
      later p q ne e d = elim (Descends-parent e d) [
        | inl same_fork ↦ absurd (ne_of_false p ne same_fork)
        | inr r ↦ r
      ]

      stop :
          (n : ℕ)
          → suc (index p) < suc n
          → ¬ Descends a u
          → Outcome a u (descend n a none (p ∷ forks))
      stop zero lt no_way = absurd (omega arith)
      stop (suc n) lt no_way = inr (no_way, refl)

-- `forks_from_until` always returns: the chain of forks from the first to the second, each the base
-- of the next, if the second descends from the first, and else the empty list.
pub forks_from_until-Outcome : (a u : Fork) → Outcome a u (forks_from_until a u)
unfolding forks_from_until
forks_from_until-Outcome a u =
    descend-Outcome a u (suc (suc (index u))) u [] (omega arith) single (λ d. d)
