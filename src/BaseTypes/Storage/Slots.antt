-- ===== src/BaseTypes/Storage/Slots.antt =====
-- Proofs on `store_next`, `+` and `canary` of the class Storage in
-- src/ethereum_test_base_types/composite_types.py, and on the numbers that it stores.
use execution_spec_tests.Base.{
  ℕ, ◌+◌, ◌^◌, ◌<◌, ◌≤◌, ◌-◌, ◌≢◌, get_elem?, length, All, zero, suc, ◌≡◌, refl, ap, subst, ◌∙◌,
  ◌⊎◌, inl, inr, true, false, Option, none, some, List, [], ◌∷◌, String, err, ok, arith, ◌==◌,
  ==_self, Bool-cases, if◌then◌else◌, Dict, lookup, has, store, update, IsUnique, has-cases,
  lookup-store, lookup-update, passed, Result, value_error,
}
use execution_spec_tests.Base.Int.{ℤ, pos, negsuc, ◌+ℤ◌}
use execution_spec_tests.BaseTypes.Number.{fixed_size_with, fixed_size_number, hash_int, max_value}
use execution_spec_tests.BaseTypes.Storage.{
  Storage, storage_of, value, value_or_zero, set_item, add, store_at, move_slot, store_next,
  must_be_equal, canary, canary_of, contains,
}
use execution_spec_tests.BaseTypes.Storage.Compare.{must_be_equal_iff, contains_iff}

-- The number of a given byte length that an integer is taken for, described by its outcomes.
abbrev pub Accepts : ℕ → ℤ → Result ℕ → Type 0
Accepts m (pos n) r = ((n ≤ m) × (r ≡ ok n)) ⊎ ((m < n) × (r ≡ err value_error))
Accepts m (negsuc n) r = ((n < m) × (r ≡ ok (m - n))) ⊎ ((m ≤ n) × (r ≡ err value_error))

-- A fixed size number takes an integer between 0 and its largest number m as it is, an integer i
-- between -m and -1 as i + m + 1, and raises ValueError for every other.
pub fixed_size_lem : (m : ℕ) (i : ℤ) → Accepts m i (fixed_size_with m i)
unfolding fixed_size_with ◌+ℤ◌
fixed_size_lem m (pos n) = ground arith
fixed_size_lem m (negsuc n) = ground arith

hash_int-pos : (n : ℕ) → n < 2 ^ 256 → hash_int (pos n) ≡ ok n
unfolding hash_int fixed_size_number
hash_int-pos n h = elim (fixed_size_lem (max_value 32) (pos n)) [
  | inl (_, q) ↦ q
  | inr (bad, _) ↦ absurd (omega arith)
]

next_slot : (n : ℕ) → (pos n +ℤ pos 1) ≡ pos (n + 1)
unfolding ◌+ℤ◌
next_slot n = ground arith

-- `self.store_next(value)` with a next slot and a value below 2^256 returns that slot, puts the
-- value there, leaves every other slot as it was and moves to the slot that follows.
pub store_next_lem :
    (n v : ℕ) (hint : Option String) (s : Storage)
    → s.current_slot ≡ pos n
    → n < 2 ^ 256
    → v < 2 ^ 256
    → ((store_next (pos v) hint s).1 ≡ ok n)
      × ((store_next (pos v) hint s).0.current_slot ≡ pos (n + 1))
      × ((j : ℕ) → value (store_next (pos v) hint s).0 j ≡ (if n == j then v else value s j))
unfolding store_next store_at move_slot set_item
store_next_lem n v hint s c hn hv =
    rw (ap hash_int c ∙ hash_int-pos n hn, hash_int-pos v hv)
      (refl, ap (λ i. i +ℤ pos 1) c ∙ next_slot n, λ j. read j)
  where
    read : (j : ℕ) → value_or_zero (lookup (store n v s.root) j) ≡ (if n == j then v else value s j)
    read j = elim (Bool-cases (n == j)) [
      | inl e ↦ rw (lookup-store n v s.root j, e) refl
      | inr e ↦ rw (lookup-store n v s.root j, e) refl
    ]

-- One call of `store_next` per value.
abbrev pub store_values : List ℕ → Storage → Storage
store_values [] s = s
store_values (v ∷ vs) s = store_values vs (store_next (pos v) none s).0

-- Calls of `store_next` for a list of values below 2^256, from a slot n on that leaves them room,
-- put the i-th value at slot n + i and keep every slot below n.
pub store_values_lem :
    (vs : List ℕ) (n : ℕ) (s : Storage)
    → s.current_slot ≡ pos n
    → n + length vs ≤ 2 ^ 256
    → All (λ v. v < 2 ^ 256) vs
    → ((i v : ℕ) → get_elem? vs i ≡ some v → value (store_values vs s) (n + i) ≡ v)
      × ((j : ℕ) → j < n → value (store_values vs s) j ≡ value s j)
store_values_lem [] n s c room small = ((λ i v h. cc), λ j h. refl)
store_values_lem (v ∷ vs) n s c room (hv, small) =
    let t : Storage = (store_next (pos v) none s).0 in
    let (_, moved, read) = store_next_lem n v none s c (omega arith) hv in
    let (here, below) = store_values_lem vs (n + 1) t moved (omega arith) small in
    (at t here below read, λ j h. below j (omega arith) ∙ read j ∙ ground arith)
  where
    at :
        (t : Storage)
        → ((i w : ℕ) → get_elem? vs i ≡ some w → value (store_values vs t) (n + 1 + i) ≡ w)
        → ((j : ℕ) → j < n + 1 → value (store_values vs t) j ≡ value t j)
        → ((j : ℕ) → value t j ≡ (if n == j then v else value s j))
        → (i w : ℕ) → get_elem? (v ∷ vs) i ≡ some w
        → value (store_values vs t) (n + i) ≡ w
    at t here below read zero w h =
        subst (λ x. value (store_values vs t) x ≡ w) (omega arith)
          (below n (omega arith) ∙ read n ∙ rw (==_self n) (some_inj h))
      where
        some_inj : some v ≡ some w → v ≡ w
        some_inj q = cc
    at t here below read (suc i) w h =
        subst (λ x. value (store_values vs t) x ≡ w) (omega arith) (here i w h)

-- `self + other`, for two dicts, contains the other storage and reads as self at every key that
-- the other storage does not hold.
pub add-contains :
    (s o : Storage)
    → IsUnique o.root
    → (contains (add s o) o ≡ true)
      × ((k : ℕ) → has o.root k ≡ false → value (add s o) k ≡ value s k)
unfolding add storage_of
add-contains s o u = (
  ((contains_iff (add s o) o).0).1 λ k h. held k h,
  λ k h. elim (has-cases o.root k) [
    | inl (m, _, _) ↦ cc
    | inr (_, q) ↦ rw (lookup-update s.root o.root k u, q) refl
  ],
)
  where
    held : (k : ℕ) → has o.root k ≡ true → lookup (update s.root o.root) k ≡ some (value o k)
    held k h = elim (has-cases o.root k) [
      | inl (_, v, q) ↦ rw (lookup-update s.root o.root k u, q) refl
      | inr (m, _) ↦ cc
    ]

lookup-canary_of : (d : Dict ℕ) (k : ℕ) → lookup d k ≡ some 0 → lookup (canary_of d) k ≡ some 47710
lookup-canary_of [] k h = cc
lookup-canary_of ((j, v) ∷ d) k h = ground (arith, lookup-canary_of d k)

-- A storage that is expected to hold zero at a key has there a canary that is not zero, and the
-- comparison with the canary storage fails.
pub canary_detects :
    (s : Storage) (a k : ℕ)
    → lookup s.root k ≡ some 0
    → (value (canary s) k ≡ 47710) × (must_be_equal s a (some (canary s)) ≢ passed)
unfolding canary storage_of
canary_detects s a k h =
    let there = lookup-canary_of s.root k h in
    (
      rw there refl,
      λ q. elim ((must_be_equal_iff s a (some (canary s))).0 q k) [
        | inl e ↦ differs there e
        | inr (m, _) ↦ missing m
      ],
    )
  where
    distinct : ◌≡◌ {A = ℕ} 0 47710 → ⊥
    distinct e = omega arith

    differs :
        lookup (canary_of s.root) k ≡ some 47710
        → value s k ≡ value_or_zero (lookup (canary_of s.root) k)
        → ⊥
    differs there e = (distinct (rw (there, h) at e))

    missing : has s.root k ≡ false → ⊥
    missing m = elim (has-cases s.root k) [ inl (n, _, _) ↦ cc | inr (_, q) ↦ cc ]
