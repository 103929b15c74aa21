-- ===== src/BaseTypes/Storage/Compare.antt =====
-- Proofs on `contains`, `must_contain` and `must_be_equal` of the class Storage in
-- src/ethereum_test_base_types/composite_types.py.
use execution_spec_tests.Base.{
  ℕ, ◌≡◌, refl, sym, ◌∙◌, ◌↔◌, ◌⊎◌, inl, inr, Bool, true, false, not, Option, none, some, List, [],
  ◌∷◌, arith, ◌==◌, ==_iff, Bool-cases, All, All-append, lookup, has, has-cases, keys, All-keys,
  passed, and_then-passed, check_each, check_each-passed, Check, Dict, ap,
}
use execution_spec_tests.BaseTypes.Storage.{
  Storage, storage_of, value, value_or_zero, contains, contains_keys, mismatch, must_contain,
  must_contain_key, keep_keys, common_keys, other_keys, is_any, equal_common_key, equal_other_key,
  must_equal_storage, must_be_equal, StorageFailure,
}

-- A key that is missing reads as zero.
value-missing : (s : Storage) (k : ℕ) → has s.root k ≡ false → value s k ≡ 0
value-missing s k h = elim (has-cases s.root k) [ inl (q, _, _) ↦ cc | inr (_, q) ↦ rw q refl ]

must_contain_key-passed :
    (s : Storage) (a : ℕ) (o : Storage) (k : ℕ)
    → (must_contain_key s a o k ≡ passed) ↔ (value s k ≡ value o k)
unfolding must_contain_key mismatch
must_contain_key-passed s a o k = go (lookup s.root k) refl
  where
    go :
        (m : Option ℕ)
        → lookup s.root k ≡ m
        → (must_contain_key s a o k ≡ passed) ↔ (value s k ≡ value o k)
    go none q = rw q (ground arith)
    go (some v) q = rw q (ground arith)

All-keep_keys {κ} :
    (P : ℕ → Type κ) (p : ℕ → Bool) (ks : List ℕ)
    → All P (keep_keys p ks) ↔ All (λ k. p k ≡ true → P k) ks
All-keep_keys P p [] = ((λ _. tt), λ _. tt)
All-keep_keys P p (k ∷ ks) =
    let rest = All-keep_keys P p ks in
    elim (Bool-cases (p k)) [
      | inl e ↦ rw e ((λ (x, h). ((λ _. x), rest.0 h)), λ (f, h). (f refl, rest.1 h))
      | inr e ↦ rw e ((λ h. ((λ bad. cc), rest.0 h)), λ (_, h). rest.1 h)
    ]

-- `self.must_contain(address, other)` succeeds just when self reads the same value as the other
-- storage at every key of the other storage.
pub must_contain_iff :
    (s : Storage) (a : ℕ) (o : Storage)
    → (must_contain s a o ≡ passed) ↔ ((k : ℕ) → has o.root k ≡ true → value s k ≡ value o k)
unfolding must_contain
must_contain_iff s a o =
    let loop = check_each-passed (must_contain_key s a o) (keys o.root) in
    let all = All-keys (λ k. must_contain_key s a o k ≡ passed) o.root in
    (
      (λ h k m. (must_contain_key-passed s a o k).0 (all.0 (loop.0 h) k m)),
      λ h. loop.1 (all.1 λ k m. (must_contain_key-passed s a o k).1 (h k m)),
    )

-- The storage that stands for the argument of `must_be_equal`.
abbrev pub other_or_empty : Option Storage → Storage
other_or_empty none = storage_of []
other_or_empty (some o) = o

-- Where the two storages are allowed to read: the same value, or any for a marked key that self
-- does not hold.
abbrev pub Agrees : Storage → Storage → ℕ → Type 0
Agrees s o k = (value s k ≡ value o k) ⊎ ((has s.root k ≡ false) × (is_any s k ≡ true))

equal_common_key-passed :
    (s : Storage) (a : ℕ) (o : Storage) (k : ℕ)
    → (equal_common_key s a o k ≡ passed) ↔ (value s k ≡ value o k)
unfolding equal_common_key mismatch
equal_common_key-passed s a o k = ground arith

equal_left_key-passed :
    (s : Storage) (a : ℕ) (o : Storage) (k : ℕ)
    → has s.root k ≡ true
    → has o.root k ≡ false
    → (equal_other_key s a o k ≡ passed) ↔ (value s k ≡ value o k)
unfolding equal_other_key mismatch
equal_left_key-passed s a o k h m = rw (h, value-missing o k m) (ground arith)

equal_right_key-passed :
    (s : Storage) (a : ℕ) (o : Storage) (k : ℕ)
    → has s.root k ≡ false
    → (equal_other_key s a o k ≡ passed) ↔ Agrees s o k
unfolding equal_other_key mismatch
equal_right_key-passed s a o k h = rw (h, value-missing s k h) (ground arith)

loop_keep_keys :
    (f : ℕ → Check StorageFailure) (p : ℕ → Bool) (d : Dict ℕ)
    → All (λ k. f k ≡ passed) (keep_keys p (keys d))
      ↔ ((k : ℕ) → has d k ≡ true → p k ≡ true → f k ≡ passed)
loop_keep_keys f p d =
    let kept = All-keep_keys (λ k. f k ≡ passed) p (keys d) in
    let all = All-keys (λ k. p k ≡ true → f k ≡ passed) d in
    ((λ h. all.0 (kept.0 h)), λ h. kept.1 (all.1 h))

-- The two loops of `must_be_equal`, as tests of keys.
loops_lem :
    (s : Storage) (a : ℕ) (o : Storage)
    → (must_equal_storage s a o ≡ passed) ↔ (
        ((k : ℕ) → has s.root k ≡ true → has o.root k ≡ true → equal_common_key s a o k ≡ passed)
        × ((k : ℕ)
            → has s.root k ≡ true
            → not (has o.root k) ≡ true
            → equal_other_key s a o k ≡ passed)
        × ((k : ℕ)
            → has o.root k ≡ true
            → not (has s.root k) ≡ true
            → equal_other_key s a o k ≡ passed))
unfolding must_equal_storage common_keys other_keys
loops_lem s a o =
    let both = equal_common_key s a o in
    let one = equal_other_key s a o in
    let left = keep_keys (λ k. not (has o.root k)) (keys s.root) in
    let right = keep_keys (λ k. not (has s.root k)) (keys o.root) in
    let seq =
      and_then-passed (check_each both (common_keys s o)) (check_each one (other_keys s o)) in
    let loop = check_each-passed both (common_keys s o) in
    let loops = check_each-passed one (other_keys s o) in
    let parts = All-append (λ k. one k ≡ passed) left right in
    let first = loop_keep_keys both (has o.root) s.root in
    let second = loop_keep_keys one (λ k. not (has o.root k)) s.root in
    let third = loop_keep_keys one (λ k. not (has s.root k)) o.root in
    (
      (λ h.
          let (p, q) = seq.0 h in
          let (l, r) = parts.0 (loops.0 q) in (first.0 (loop.0 p), second.0 l, third.0 r)),
      λ (f, g, h). seq.1 (loop.1 (first.1 f), loops.1 (parts.1 (second.1 g, third.1 h))),
    )

must_equal_storage_iff :
    (s : Storage) (a : ℕ) (o : Storage)
    → (must_equal_storage s a o ≡ passed) ↔ ((k : ℕ) → Agrees s o k)
must_equal_storage_iff s a o = (
  (λ h. down ((loops_lem s a o).0 h)),
  λ h. (loops_lem s a o).1 (
    (λ k m n. (equal_common_key-passed s a o k).1 (held k m (h k))),
    (λ k m n. (equal_left_key-passed s a o k m (ground arith)).1 (held k m (h k))),
    λ k m n. (equal_right_key-passed s a o k (ground arith)).1 (h k),
  ),
)
  where
    held : (k : ℕ) → has s.root k ≡ true → Agrees s o k → value s k ≡ value o k
    held k m (inl q) = q
    held k m (inr (q, _)) = cc

    down :
        ((k : ℕ) → has s.root k ≡ true → has o.root k ≡ true → equal_common_key s a o k ≡ passed)
          × ((k : ℕ)
              → has s.root k ≡ true
              → not (has o.root k) ≡ true
              → equal_other_key s a o k ≡ passed)
          × ((k : ℕ)
              → has o.root k ≡ true
              → not (has s.root k) ≡ true
              → equal_other_key s a o k ≡ passed)
        → (k : ℕ) → Agrees s o k
    down (f, g, h) k = elim (Bool-cases (has s.root k)) [
      | inl m ↦ elim (Bool-cases (has o.root k)) [
        | inl n ↦ inl ((equal_common_key-passed s a o k).0 (f k m n))
        | inr n ↦ inl ((equal_left_key-passed s a o k m n).0 (g k m (ap not n)))
      ]
      | inr m ↦ elim (Bool-cases (has o.root k)) [
        | inl n ↦ (equal_right_key-passed s a o k m).0 (h k n (ap not m))
        | inr n ↦ inl (value-missing s k m ∙ sym (value-missing o k n))
      ]
    ]

-- `self.must_be_equal(address, other)` succeeds just when both storages read the same at every
-- key, with a missing key or a missing storage read as zero, but for the keys that are marked by
-- `set_expect_any` and that self does not hold.
pub must_be_equal_iff :
    (s : Storage) (a : ℕ) (other : Option Storage)
    → (must_be_equal s a other ≡ passed) ↔ ((k : ℕ) → Agrees s (other_or_empty other) k)
unfolding must_be_equal
must_be_equal_iff s a none = must_equal_storage_iff s a (storage_of [])
must_be_equal_iff s a (some o) = must_equal_storage_iff s a o

contains_keys_iff :
    (s o : Storage) (ks : List ℕ)
    → (contains_keys s o ks ≡ true) ↔ All (λ k. lookup s.root k ≡ some (value o k)) ks
unfolding contains_keys
contains_keys_iff s o [] = ((λ _. tt), λ _. refl)
contains_keys_iff s o (k ∷ ks) = go (lookup s.root k) refl (contains_keys_iff s o ks)
  where
    go :
        (m : Option ℕ)
        → lookup s.root k ≡ m
        → (contains_keys s o ks ≡ true) ↔ All (λ k. lookup s.root k ≡ some (value o k)) ks
        → (contains_keys s o (k ∷ ks) ≡ true)
          ↔ All (λ k. lookup s.root k ≡ some (value o k)) (k ∷ ks)
    go none q rest = rw q ((λ h. cc), λ (h, _). cc)
    go (some v) q rest =
        rw (contains_keys, q)
          (elim (Bool-cases (v == value o k)) [
            | inl e ↦
                rw e ((λ h. (ap some ((==_iff v (value o k)).0 e), rest.0 h)), λ (_, h). rest.1 h)
            | inr e ↦ rw e ((λ h. cc), λ (h, _). ground (arith, h, e))
          ])

-- `self.contains(other)` is true just when self holds every key of the other storage with the
-- other's value, a zero included; `must_contain` then succeeds as well.
pub contains_iff :
    (s o : Storage)
    → ((contains s o ≡ true) ↔ ((k : ℕ) → has o.root k ≡ true → lookup s.root k ≡ some (value o k)))
      × (contains s o ≡ true → (a : ℕ) → must_contain s a o ≡ passed)
unfolding contains
contains_iff s o =
    let loop = contains_keys_iff s o (keys o.root) in
    let all = All-keys (λ k. lookup s.root k ≡ some (value o k)) o.root in
    (
      ((λ h. all.0 (loop.0 h)), λ h. loop.1 (all.1 h)),
      λ h a. (must_contain_iff s a o).1 λ k m. ap value_or_zero (all.0 (loop.0 h) k m),
    )
