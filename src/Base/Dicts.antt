-- ===== src/Base/Dicts.antt =====
-- A Python dict keyed by numbers, in insertion order, and the tests that a comparison runs over it.
use Prim.Native.Nat.{ℕ}
use mathlib.Core.Path.{◌≡◌, refl, subst}
use mathlib.Core.Logic.{◌↔◌, ◌⊎◌, inl, inr}
use mathlib.Core.Bool.{Bool, true, false}
use mathlib.Core.Option.{Option, none, some}
use mathlib.Core.List.{List, [], ◌∷◌}
use native.Mathlib.Omega.{arith}
use execution_spec_tests.Base.Tests.{◌==◌, if◌then◌else◌, ==_iff, ==_self, Bool-cases}
use execution_spec_tests.Base.Lists.{All}

abbrev pub Dict {ℓ} : Type ℓ → Type ℓ
Dict V = List (ℕ × V)

module _ {ℓ} {V : Type ℓ} where
  abbrev pub lookup : Dict V → ℕ → Option V
  lookup [] k = none
  lookup ((j, v) ∷ d) k = if j == k then some v else lookup d k

  -- `k in d`
  abbrev pub has : Dict V → ℕ → Bool
  has [] k = false
  has ((j, v) ∷ d) k = if j == k then true else has d k

  -- `d[k] = v`
  abbrev pub store : ℕ → V → Dict V → Dict V
  store k v [] = (k, v) ∷ []
  store k v ((j, w) ∷ d) = if j == k then (j, v) ∷ d else (j, w) ∷ store k v d

  -- `del d[k]`
  abbrev pub delete : ℕ → Dict V → Dict V
  delete k [] = []
  delete k ((j, w) ∷ d) = if j == k then delete k d else (j, w) ∷ delete k d

  -- `{**d, **e}`
  abbrev pub update : Dict V → Dict V → Dict V
  update d [] = d
  update d ((k, v) ∷ e) = update (store k v d) e

  abbrev pub keys : Dict V → List ℕ
  keys [] = []
  keys ((k, v) ∷ d) = k ∷ keys d

  -- No key is there twice.
  abbrev pub IsUnique : Dict V → Type 0
  IsUnique [] = Unit
  IsUnique ((k, v) ∷ d) = (has d k ≡ false) × IsUnique d

  abbrev pub or_else : Option V → Option V → Option V
  or_else none b = b
  or_else (some v) b = some v

  pub lookup-store :
      (k : ℕ) (v : V) (d : Dict V) (j : ℕ)
      → lookup (store k v d) j ≡ (if k == j then some v else lookup d j)
  lookup-store k v [] j = refl
  lookup-store k v ((i, w) ∷ d) j = ground (arith, lookup-store k v d j)

  pub lookup-delete :
      (k : ℕ) (d : Dict V) (j : ℕ) → lookup (delete k d) j ≡ (if k == j then none else lookup d j)
  lookup-delete k [] j = ground arith
  lookup-delete k ((i, w) ∷ d) j = ground (arith, lookup-delete k d j)

  pub has-store :
      (k : ℕ) (v : V) (d : Dict V) (j : ℕ)
      → has (store k v d) j ≡ (if k == j then true else has d j)
  has-store k v [] j = refl
  has-store k v ((i, w) ∷ d) j = ground (arith, has-store k v d j)

  pub has-delete :
      (k : ℕ) (d : Dict V) (j : ℕ) → has (delete k d) j ≡ (if k == j then false else has d j)
  has-delete k [] j = ground arith
  has-delete k ((i, w) ∷ d) j = ground (arith, has-delete k d j)

  -- Membership decides whether a lookup finds a value.
  pub has-cases :
      (d : Dict V) (k : ℕ)
      → ((has d k ≡ true) × (v : V) × (lookup d k ≡ some v))
        ⊎ ((has d k ≡ false) × (lookup d k ≡ none))
  has-cases [] k = inr (refl, refl)
  has-cases ((j, w) ∷ d) k = elim (Bool-cases (j == k)) [
    | inl e ↦ rw e (inl (refl, w, refl))
    | inr e ↦ rw e (has-cases d k)
  ]

  pub lookup-update :
      (d e : Dict V) (k : ℕ)
      → IsUnique e
      → lookup (update d e) k ≡ or_else (lookup e k) (lookup d k)
  lookup-update d [] k u = refl
  lookup-update d ((j, v) ∷ e) k (fresh, u) = elim (Bool-cases (j == k)) [
    | inl q ↦
        let p : j ≡ k = (==_iff j k).0 q in
        rw (lookup-update (store j v d) e k u, lookup-store j v d k, q)
          (elim (has-cases e k) [
            | inl (h, _, _) ↦ ground (arith, fresh, h, p)
            | inr (_, h) ↦ rw h refl
          ])
    | inr q ↦ rw (lookup-update (store j v d) e k u, lookup-store j v d k, q) refl
  ]

  pub store-IsUnique : (k : ℕ) (v : V) (d : Dict V) → IsUnique d → IsUnique (store k v d)
  store-IsUnique k v [] u = (refl, tt)
  store-IsUnique k v ((j, w) ∷ d) (fresh, u) = elim (Bool-cases (j == k)) [
    | inl q ↦ rw q (fresh, u)
    | inr q ↦ rw q (ground (arith, has-store k v d j, fresh, q), store-IsUnique k v d u)
  ]

  pub delete-IsUnique : (k : ℕ) (d : Dict V) → IsUnique d → IsUnique (delete k d)
  delete-IsUnique k [] u = tt
  delete-IsUnique k ((j, w) ∷ d) (fresh, u) = elim (Bool-cases (j == k)) [
    | inl q ↦ rw q (delete-IsUnique k d u)
    | inr q ↦ rw q (ground (arith, has-delete k d j, fresh, q), delete-IsUnique k d u)
  ]

  pub update-IsUnique : (d e : Dict V) → IsUnique d → IsUnique (update d e)
  update-IsUnique d [] u = u
  update-IsUnique d ((k, v) ∷ e) u = update-IsUnique (store k v d) e (store-IsUnique k v d u)

  -- To run over the keys is to run over what lookups find.
  pub All-keys {κ} :
      (P : ℕ → Type κ) (d : Dict V) → All P (keys d) ↔ ((k : ℕ) → has d k ≡ true → P k)
  All-keys P d = (down d, up d)
    where
      down : (d : Dict V) → All P (keys d) → (k : ℕ) → has d k ≡ true → P k
      down [] a k h = cc
      down ((j, v) ∷ d) (p, a) k h = elim (Bool-cases (j == k)) [
        | inl e ↦ let q : j ≡ k = (==_iff j k).0 e in subst P q p
        | inr e ↦ down d a k (ground (arith, h, e))
      ]

      up : (d : Dict V) → ((k : ℕ) → has d k ≡ true → P k) → All P (keys d)
      up [] f = tt
      up ((j, v) ∷ d) f = (f j (ground (arith, ==_self j)), up d λ k h. f k (ground (arith, h)))
