-- ===== src/Forks/Selection/Sets.antt =====
-- Proofs on membership in the sets that src/ethereum_test_forks/helpers.py builds.
use execution_spec_tests.Base.{
  ◌≡◌, refl, Bool, true, not, ◌&&◌, ◌||◌, List, [], ◌∷◌, Bool-cases, inl, inr, arith, if◌then◌else◌,
}
use execution_spec_tests.Forks.Fork.{Fork, same, same_iff, le, ge}
use execution_spec_tests.Forks.Selection.{
  contains, insert, keep, add_between, add_until, add_from, any_fork, add_unless,
}

pub contains-insert :
    (f g : Fork) (fs : List Fork) → contains g (insert f fs) ≡ (same f g || contains g fs)
unfolding contains insert
contains-insert f g fs = elim (Bool-cases (contains f fs)) [
  | inl old ↦ rw old (elim (Bool-cases (same f g)) [
    | inl e ↦ rw e (let p : f ≡ g = (same_iff f g).0 e in subst_lem p old)
    | inr ne ↦ rw ne refl
  ])
  | inr new ↦ rw new refl
]
  where
    subst_lem : f ≡ g → contains f fs ≡ true → contains g fs ≡ true
    subst_lem p h = rw p at h

pub contains-keep :
    (p : Fork → Bool) (g : Fork) (fs : List Fork) → contains g (keep p fs) ≡ (p g && contains g fs)
unfolding contains keep
contains-keep p g [] = ground arith
contains-keep p g (f ∷ fs) = elim (Bool-cases (same f g)) [
  | inl e ↦ let q : f ≡ g = (same_iff f g).0 e in ground (arith, contains-keep p g fs, q)
  | inr ne ↦ ground (arith, contains-keep p g fs)
]

pub contains-add_unless :
    (p : Fork → Bool) (g : Fork) (fs acc : List Fork)
    → contains g (add_unless p fs acc) ≡ ((not (p g) && contains g fs) || contains g acc)
unfolding contains add_unless
contains-add_unless p g [] acc = ground arith
contains-add_unless p g (f ∷ fs) acc = elim (Bool-cases (same f g)) [
  | inl e ↦
      let q : f ≡ g = (same_iff f g).0 e in
      ground (
        arith,
        contains-add_unless p g fs (if p f then acc else insert f acc),
        contains-insert f g acc,
        q,
      )
  | inr ne ↦ ground (
    arith,
    contains-add_unless p g fs (if p f then acc else insert f acc),
    contains-insert f g acc,
  )
]

-- Some fork of a set passes a test.
pub any_fork-elim :
    (p : Fork → Bool) (fs : List Fork)
    → any_fork p fs ≡ true
    → (f : Fork) × (contains f fs ≡ true) × (p f ≡ true)
unfolding any_fork contains
any_fork-elim p [] h = cc
any_fork-elim p (f ∷ fs) h = elim (Bool-cases (p f)) [
  | inl e ↦ (f, ground (arith, same_iff f f), e)
  | inr ne ↦ let (g, m, q) = any_fork-elim p fs (ground arith) in (g, ground arith, q)
]

pub any_fork-intro :
    (p : Fork → Bool) (fs : List Fork) (f : Fork)
    → contains f fs ≡ true
    → p f ≡ true
    → any_fork p fs ≡ true
unfolding any_fork contains
any_fork-intro p [] f m h = cc
any_fork-intro p (g ∷ fs) f m h = elim (Bool-cases (same g f)) [
  | inl e ↦ let q : g ≡ f = (same_iff g f).0 e in ground (arith, q)
  | inr ne ↦ ground (arith, any_fork-intro p fs f)
]

pub contains-add_between :
    (a u g : Fork) (fs acc : List Fork)
    → contains g (add_between a u fs acc) ≡ ((le g u && ge g a && contains g fs) || contains g acc)
unfolding contains add_between
contains-add_between a u g [] acc = ground arith
contains-add_between a u g (f ∷ fs) acc = elim (Bool-cases (same f g)) [
  | inl e ↦
      let q : f ≡ g = (same_iff f g).0 e in
      ground (
        arith,
        contains-add_between a u g fs (if le f u && ge f a then insert f acc else acc),
        contains-insert f g acc,
        q,
      )
  | inr ne ↦ ground (
    arith,
    contains-add_between a u g fs (if le f u && ge f a then insert f acc else acc),
    contains-insert f g acc,
  )
]

pub contains-add_until :
    (fs : List Fork) (a g : Fork) (us acc : List Fork)
    → contains g (add_until fs a us acc)
      ≡ ((contains g fs && ge g a && any_fork (λ u. le g u) us) || contains g acc)
unfolding add_until any_fork
contains-add_until fs a g [] acc = ground arith
contains-add_until fs a g (u ∷ us) acc = ground (
  arith,
  contains-add_until fs a g us (add_between a u fs acc),
  contains-add_between a u g fs acc,
)

pub contains-add_from :
    (fs us : List Fork) (g : Fork) (starts acc : List Fork)
    → contains g (add_from fs us starts acc) ≡ (
        (contains g fs && any_fork (λ a. ge g a) starts && any_fork (λ u. le g u) us)
        || contains g acc)
unfolding add_from any_fork
contains-add_from fs us g [] acc = ground arith
contains-add_from fs us g (a ∷ starts) acc = ground (
  arith,
  contains-add_from fs us g starts (add_until fs a us acc),
  contains-add_until fs a g us acc,
)
