-- ===== src/Forks/Fork/Order.antt =====
-- Proofs on descent and the order on forks, `BaseForkMeta` in
-- src/ethereum_test_forks/base_fork.py.
use execution_spec_tests.Base.{
  ℕ, zero, suc, ◌≤◌, ◌<◌, ◌≡◌, ◌↔◌, refl, sym, subst, Bool, true, not, ◌&&◌, ◌||◌, some, ◌≢◌, ◌⊎◌,
  ◌∙◌, Bool-cases, Option-cases, inl, inr, arith,
}
use execution_spec_tests.Forks.Fork.{
  Fork, frontier, parent, index, same, same_iff, walk, is_subclass, gt, ge, lt, le,
}

-- Each class has a larger position than its base.
pub parent-index : (f : Fork) {p : Fork} → parent f ≡ some p → index p < index f
unfolding parent
parent-index frontier e = ground arith
parent-index _ e = ground arith

-- A fork descends from itself, and from what its base descends from.
pub data Descends (b : Fork) : Fork → Type 0 where
  here : Descends b b
  up : {a p : Fork} → parent a ≡ some p → Descends b p → Descends b a

Descends-index : {b a : Fork} → Descends b a → index b ≤ index a
Descends-index here = omega arith
Descends-index (up {a} {p} e d) = omega (arith, parent-index a e, Descends-index d)

pub Descends-trans : {c b a : Fork} → Descends c b → Descends b a → Descends c a
Descends-trans d here = d
Descends-trans d (up e f) = up e (Descends-trans d f)

walk-Descends : (n : ℕ) (a b : Fork) → walk n a b ≡ true → Descends b a
unfolding walk
walk-Descends zero a b h = cc
walk-Descends (suc n) a b h = elim (Bool-cases (same a b)) [
  | inl e ↦ subst (λ x. Descends b x) (sym ((same_iff a b).0 e)) here
  | inr ne ↦ elim (Option-cases (parent a)) [
    | inl top ↦ ground arith
    | inr (p, e) ↦ up e (walk-Descends n p b (ground arith))
  ]
]

Descends-walk : (n : ℕ) {b a : Fork} → index a < n → Descends b a → walk n a b ≡ true
unfolding walk
Descends-walk zero h d = elim h [ ]
Descends-walk (suc n) {a} h here = rw ((same_iff a a).1 refl)
Descends-walk (suc n) {b} h (up {a} {p} e d) =
    let below : index p < n = omega (arith, parent-index a e) in
    ground (arith, Descends-walk n below d, e)

-- The walk of `issubclass` decides descent.
pub is_subclass_iff : (a b : Fork) → (is_subclass a b ≡ true) ↔ Descends b a
unfolding is_subclass
is_subclass_iff a b =
    (walk-Descends (suc (index a)) a b, Descends-walk (suc (index a)) (omega arith))

pub Descends-parent : {b a p : Fork} → parent a ≡ some p → Descends b a → (b ≡ a) ⊎ Descends b p
Descends-parent e here = inl refl
Descends-parent {b} {p = r} e (up {p = q} f d) =
    let g : q ≡ r = cc in inr (subst (λ x. Descends b x) g d)

Descends-antisym : {a b : Fork} → Descends b a → Descends a b → a ≡ b
Descends-antisym here e = refl
Descends-antisym (up {a} {p} e d) f =
    absurd (omega (arith, parent-index a e, Descends-index d, Descends-index f))

-- `>=` on forks is descent, and a partial order; `<=` is its converse.
pub ge_iff : (a b : Fork) → (ge a b ≡ true) ↔ Descends b a
unfolding ge
ge_iff a b = (
  (λ h. elim (Bool-cases (same a b)) [
    | inl e ↦ subst (λ x. Descends b x) (sym ((same_iff a b).0 e)) here
    | inr ne ↦ (is_subclass_iff a b).0 (ground arith)
  ]),
  (λ d. ground (arith, (is_subclass_iff a b).1 d)),
)

pub ge-le : (a b : Fork) → ge a b ≡ le b a
unfolding ge le
ge-le a b = ground (arith, same_iff a b, same_iff b a)

-- `>=` between forks is reflexive, antisymmetric and transitive; `<=` is its converse, and `>` and
-- `<` are `>=` and `<=` between different forks.
pub order_laws :
    ((a : Fork) → ge a a ≡ true)
    × ((a b : Fork) → ge a b ≡ true → ge b a ≡ true → a ≡ b)
    × ((a b c : Fork) → ge a b ≡ true → ge b c ≡ true → ge a c ≡ true)
    × ((a b : Fork) → le a b ≡ ge b a)
    × ((a b : Fork) → (gt a b ≡ true) ↔ ((ge a b ≡ true) × (a ≢ b)))
    × ((a b : Fork) → (lt a b ≡ true) ↔ ((le a b ≡ true) × (a ≢ b)))
unfolding gt lt ge le
order_laws = (
  (λ a. (ge_iff a a).1 here),
  (λ a b h k. Descends-antisym ((ge_iff a b).0 h) ((ge_iff b a).0 k)),
  (λ a b c h k. (ge_iff a c).1 (Descends-trans ((ge_iff b c).0 k) ((ge_iff a b).0 h))),
  (λ a b. sym (ge-le b a)),
  (λ a b. strict a b (is_subclass a b)),
  (λ a b. strict a b (is_subclass b a)),
)
  where
    strict :
        (a b : Fork) (s : Bool)
        → ((not (same a b) && s) ≡ true) ↔ (((same a b || s) ≡ true) × (a ≢ b))
    strict a b s =
        ((λ h. (ground arith, ground (arith, same_iff a b))), (λ h. ground (arith, same_iff a b)))

pub gt_iff : (a b : Fork) → (gt a b ≡ true) ↔ (Descends b a × (a ≢ b))
gt_iff a b =
    let strict = order_laws.4 a b in
    (
      (λ h. let (g, n) = strict.0 h in ((ge_iff a b).0 g, n)),
      (λ h. strict.1 ((ge_iff a b).1 h.0, h.1)),
    )

pub lt_iff : (a b : Fork) → (lt a b ≡ true) ↔ (Descends a b × (a ≢ b))
lt_iff a b =
    let strict = order_laws.5 a b in
    (
      (λ h. let (g, n) = strict.0 h in ((ge_iff b a).0 (ge-le b a ∙ g), n)),
      (λ h. strict.1 (sym (ge-le b a) ∙ (ge_iff b a).1 h.0, h.1)),
    )

-- A proper descendant has a larger position.
pub Descends-index_lt : {b a : Fork} → Descends b a → b ≢ a → index b < index a
Descends-index_lt here n = absurd (n refl)
Descends-index_lt (up {a} {p} e d) n = omega (arith, parent-index a e, Descends-index d)
