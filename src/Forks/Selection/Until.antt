-- ===== src/Forks/Selection/Until.antt =====
-- Proofs on the sets that src/ethereum_test_forks/helpers.py builds, in terms of descent.
use execution_spec_tests.Base.{
  ℕ, zero, suc, ◌<◌, ◌≡◌, sym, Bool, true, false, not, ◌&&◌, ◌||◌, List, [], ◌∷◌, Bool-cases, inl,
  inr, arith, ◌↔◌, ◌≢◌, ◌∙◌,
}
use execution_spec_tests.Forks.Fork.{Fork, index, same, same_iff, le, ge, lt, gt}
use execution_spec_tests.Forks.Fork.Order.{
  Descends, Descends-trans, Descends-index_lt, here, ge_iff, ge-le, lt_iff, gt_iff,
}
use execution_spec_tests.Forks.Selection.{
  contains, keep, get_from_until_fork_set, any_fork, has_parent, has_descendant, add_unless,
  get_forks_with_no_parents, get_forks_with_no_descendants, add_descendants, get_last_descendants,
}
use execution_spec_tests.Forks.Selection.Sets.{
  contains-keep, contains-add_unless, any_fork-elim, any_fork-intro, contains-add_from,
}

-- Membership in a Python set.
abbrev pub In : Fork → List Fork → Type 0
In f fs = contains f fs ≡ true

-- The selected range holds exactly the forks of the set that descend from some first fork and that
-- some last fork descends from.
pub get_from_until_fork_set_iff :
    (forks froms untils : List Fork) (g : Fork)
    → In g (get_from_until_fork_set forks froms untils) ↔ (
        In g forks
        × ((a : Fork) × In a froms × Descends a g)
        × ((u : Fork) × In u untils × Descends g u))
unfolding get_from_until_fork_set
get_from_until_fork_set_iff forks froms untils g = (
  (λ h.
      let e = contains-add_from forks untils g froms [] in
      let (a, ma, da) = any_fork-elim (λ a. ge g a) froms (unfold contains in ground (arith, e)) in
      let (u, mu, du) = any_fork-elim (λ u. le g u) untils (unfold contains in ground (arith, e)) in
      (
        unfold contains in ground (arith, e),
        (a, ma, (ge_iff g a).0 da),
        (u, mu, (ge_iff u g).0 (ge-le u g ∙ du)),
      )),
  (λ (m, (a, ma, da), (u, mu, du)). ground (
    arith,
    contains-add_from forks untils g froms [],
    any_fork-intro (λ a. ge g a) froms a ma ((ge_iff g a).1 da),
    any_fork-intro (λ u. le g u) untils u mu (sym (ge-le u g) ∙ (ge_iff u g).1 du),
  )),
)

-- No other fork of the set lies above, or below.
abbrev pub IsFirst : Fork → List Fork → Type 0
IsFirst f fs = (g : Fork) → In g fs → Descends g f → g ≡ f

abbrev pub IsLast : Fork → List Fork → Type 0
IsLast f fs = (g : Fork) → In g fs → Descends f g → g ≡ f

In-others : (f g : Fork) (fs : List Fork) → g ≢ f → In g fs → In g (keep (λ x. not (same x f)) fs)
In-others f g fs ne m = contains-keep (λ x. not (same x f)) g fs ∙ ground (arith, same_iff g f)

has_parent-IsFirst : (f : Fork) (fs : List Fork) → has_parent fs f ≡ false → IsFirst f fs
unfolding has_parent
has_parent-IsFirst f fs none_above g m d = elim (Bool-cases (same g f)) [
  | inl e ↦ (same_iff g f).0 e
  | inr n ↦
      let ne : g ≢ f = (λ e. ground (arith, same_iff g f)) in
      let found =
        any_fork-intro (λ x. lt x f) (keep (λ x. not (same x f)) fs) g (In-others f g fs ne m)
          ((lt_iff g f).1 (d, ne)) in
      cc
]

has_descendant-IsLast : (f : Fork) (fs : List Fork) → has_descendant fs f ≡ false → IsLast f fs
unfolding has_descendant
has_descendant-IsLast f fs none_below g m d = elim (Bool-cases (same g f)) [
  | inl e ↦ (same_iff g f).0 e
  | inr n ↦
      let ne : g ≢ f = (λ e. ground (arith, same_iff g f)) in
      let found =
        any_fork-intro (λ x. gt x f) (keep (λ x. not (same x f)) fs) g (In-others f g fs ne m)
          ((gt_iff g f).1 (d, ne)) in
      cc
]

-- The fork that the inner loop finds.
has_parent-elim :
    (f : Fork) (fs : List Fork)
    → has_parent fs f ≡ true
    → (g : Fork) × In g fs × Descends g f × (g ≢ f)
unfolding has_parent
has_parent-elim f fs h =
    let (g, m, l) = any_fork-elim (λ x. lt x f) (keep (λ x. not (same x f)) fs) h in
    let (d, ne) = (lt_iff g f).0 l in
    (g, ground (arith, contains-keep (λ x. not (same x f)) g fs), d, ne)

has_descendant-elim :
    (f : Fork) (fs : List Fork)
    → has_descendant fs f ≡ true
    → (g : Fork) × In g fs × Descends f g × (g ≢ f)
unfolding has_descendant
has_descendant-elim f fs h =
    let (g, m, l) = any_fork-elim (λ x. gt x f) (keep (λ x. not (same x f)) fs) h in
    let (d, ne) = (gt_iff g f).0 l in
    (g, ground (arith, contains-keep (λ x. not (same x f)) g fs), d, ne)

In-unless :
    (p : Fork → Bool) (f : Fork) (fs : List Fork)
    → (contains f (add_unless p fs []) ≡ true) ↔ (In f fs × (p f ≡ false))
In-unless p f fs = (
  (λ h.
      unfold contains in
      (
        ground (arith, contains-add_unless p f fs []),
        ground (arith, contains-add_unless p f fs []),
      )),
  (λ h. ground (arith, contains-add_unless p f fs [])),
)

-- `get_forks_with_no_parents` gives exactly the first forks of the set.
pub get_forks_with_no_parents_iff :
    (fs : List Fork) (f : Fork) → In f (get_forks_with_no_parents fs) ↔ (In f fs × IsFirst f fs)
unfolding get_forks_with_no_parents
get_forks_with_no_parents_iff fs f = (
  (λ h. let (m, n) = (In-unless (has_parent fs) f fs).0 h in (m, has_parent-IsFirst f fs n)),
  (λ (m, first). (In-unless (has_parent fs) f fs).1 (m, no_parent m first)),
)
  where
    no_parent : In f fs → IsFirst f fs → has_parent fs f ≡ false
    no_parent m first = elim (Bool-cases (has_parent fs f)) [
      | inl found ↦ let (g, k, d, ne) = has_parent-elim f fs found in absurd (ne (first g k d))
      | inr n ↦ n
    ]

get_forks_with_no_descendants_iff :
    (fs : List Fork) (f : Fork) → In f (get_forks_with_no_descendants fs) ↔ (In f fs × IsLast f fs)
unfolding get_forks_with_no_descendants
get_forks_with_no_descendants_iff fs f = (
  (λ h. let (m, n) = (In-unless (has_descendant fs) f fs).0 h in (m, has_descendant-IsLast f fs n)),
  (λ (m, last). (In-unless (has_descendant fs) f fs).1 (m, no_child m last)),
)
  where
    no_child : In f fs → IsLast f fs → has_descendant fs f ≡ false
    no_child m last = elim (Bool-cases (has_descendant fs f)) [
      | inl found ↦ let (g, k, d, ne) = has_descendant-elim f fs found in absurd (ne (last g k d))
      | inr n ↦ n
    ]

-- Some first fork lies above every fork of the set, so a set with a fork has a first fork.
first_above_fuel :
    (n : ℕ) (fs : List Fork) (f : Fork)
    → index f < n
    → In f fs
    → (g : Fork) × In g (get_forks_with_no_parents fs) × Descends g f
first_above_fuel zero fs f lt m = elim lt [ ]
first_above_fuel (suc n) fs f lt m = elim (Bool-cases (has_parent fs f)) [
  | inr first ↦ (f, (get_forks_with_no_parents_iff fs f).1 (m, has_parent-IsFirst f fs first), here)
  | inl found ↦
      let (g, k, d, ne) = has_parent-elim f fs found in
      let (r, i, e) = first_above_fuel n fs g (omega (arith, Descends-index_lt d ne)) k in
      (r, i, Descends-trans e d)
]

-- Every fork of a set descends from a fork that `get_forks_with_no_parents` gives, and what it gives
-- is exactly the forks of the set that have no other fork of the set above them.
pub IsFirst-above :
    (fs : List Fork) (f : Fork)
    → In f fs
    → ((g : Fork) × In g (get_forks_with_no_parents fs) × Descends g f)
      × ((h : Fork) → In h (get_forks_with_no_parents fs) ↔ (In h fs × IsFirst h fs))
IsFirst-above fs f m =
    (first_above_fuel (suc (index f)) fs f (omega arith) m, get_forks_with_no_parents_iff fs)

contains-add_descendants :
    (leaves : List Fork) (g : Fork) (fs acc : List Fork)
    → contains g (add_descendants leaves fs acc)
      ≡ ((contains g leaves && any_fork (λ a. ge g a) fs) || contains g acc)
unfolding add_descendants any_fork
contains-add_descendants leaves g [] acc = ground arith
contains-add_descendants leaves g (f ∷ fs) acc = ground (
  arith,
  contains-add_descendants leaves g fs (add_unless (λ x. not (ge x f)) leaves acc),
  contains-add_unless (λ x. not (ge x f)) g leaves acc,
)

-- `get_last_descendants` gives exactly the last forks of the set that descend from a given fork.
pub get_last_descendants_iff :
    (fs froms : List Fork) (g : Fork)
    → In g (get_last_descendants fs froms)
      ↔ (In g fs × IsLast g fs × ((a : Fork) × In a froms × Descends a g))
unfolding get_last_descendants
get_last_descendants_iff fs froms g =
    let e = contains-add_descendants (get_forks_with_no_descendants fs) g froms [] in
    (
      (λ h.
          let (a, m, d) =
            any_fork-elim (λ a. ge g a) froms (unfold contains in ground (arith, e)) in
          let (k, last) =
            (get_forks_with_no_descendants_iff fs g).0 (unfold contains in ground (arith, e)) in
          (k, last, (a, m, (ge_iff g a).0 d))),
      (λ (k, last, (a, m, d)). ground (
        arith,
        e,
        (get_forks_with_no_descendants_iff fs g).1 (k, last),
        any_fork-intro (λ a. ge g a) froms a m ((ge_iff g a).1 d),
      )),
    )
