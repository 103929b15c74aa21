-- ===== src/Types/Alloc/Merge.antt =====
-- Proofs on `Alloc.merge` in src/ethereum_test_types/account_types.py.
use execution_spec_tests.Base.{
  ℕ, ◌≡◌, refl, ap, ◌∙◌, ◌↔◌, inl, inr, true, Option, none, some, List, [], ◌∷◌, All, All-keys,
  keys, arith, ◌==◌, ==_iff, Bool-cases, if◌then◌else◌, lookup, has, has-cases, IsUnique,
  lookup-store, lookup-delete, Check, passed, raised, check_each-passed,
}
use execution_spec_tests.BaseTypes.Account.{Account, is_true, merge as merge_account}
use execution_spec_tests.Types.Alloc.{
  Alloc, AllocFailure, KeyCollisionMode, error, overwrite, allow_identical_accounts, dump,
  dump_account, dict_source, other_source, put_merged, merge_entries, overlapping, same_entry,
  entry, check_identical, check_collisions, failed, merged_alloc, merge,
}

-- The entry that a merge leaves for an address.
abbrev pub entry_of : Account → Option (Option Account)
entry_of account = if is_true account then some (some account) else none

abbrev pub merged_entry :
    Option (Option Account) → Option (Option Account) → Option (Option Account)
merged_entry before none = before
merged_entry before (some other) =
    entry_of (merge_account (dict_source before) (other_source other))

lookup-put_merged :
    (address : ℕ) (account : Account) (merged : Alloc) (k : ℕ)
    → lookup (put_merged address account merged) k
      ≡ (if address == k then entry_of account else lookup merged k)
unfolding put_merged
lookup-put_merged address account merged k = elim (Bool-cases (is_true account)) [
  | inl e ↦ rw e (lookup-store address (some account) merged k)
  | inr e ↦ rw e (lookup-delete address merged k)
]

lookup-merge_entries :
    (merged rest : Alloc) (k : ℕ)
    → IsUnique rest
    → lookup (merge_entries merged rest) k ≡ merged_entry (lookup merged k) (lookup rest k)
unfolding merge_entries
lookup-merge_entries merged [] k u = refl
lookup-merge_entries merged ((address, other) ∷ rest) k (fresh, u) =
    let account : Account =
      merge_account (dict_source (lookup merged address)) (other_source other) in
    lookup-merge_entries (put_merged address account merged) rest k u
    ∙ ap (λ e. merged_entry e (lookup rest k)) (lookup-put_merged address account merged k)
    ∙ step
  where
    account : Account
    account = merge_account (dict_source (lookup merged address)) (other_source other)

    step :
        merged_entry (if address == k then entry_of account else lookup merged k) (lookup rest k)
        ≡ merged_entry (lookup merged k) (if address == k then some other else lookup rest k)
    step = elim (Bool-cases (address == k)) [
      | inl e ↦
          let q : address ≡ k = (==_iff address k).0 e in
          elim (has-cases rest k) [
            | inl (m, _, _) ↦ ground (arith, fresh, m, q)
            | inr (_, h) ↦ rw (e, h, ← q) refl
          ]
      | inr e ↦ rw e refl
    ]

-- What a mode asks of the addresses that both allocations hold.
abbrev pub Permits : KeyCollisionMode → Alloc → Alloc → Type 0
Permits error a b = (k : ℕ) → has a k ≡ true → has b k ≡ true → ⊥
Permits overwrite a b = Unit
Permits allow_identical_accounts a b =
    (k : ℕ) → has a k ≡ true → has b k ≡ true → same_entry (entry a k) (entry b k) ≡ true

All-overlapping :
    (P : ℕ → Type 0) (a b : Alloc)
    → All P (overlapping a b) ↔ ((k : ℕ) → has a k ≡ true → has b k ≡ true → P k)
All-overlapping P a b =
    let all = All-keys (λ k. has b k ≡ true → P k) a in
    ((λ h. all.0 ((kept a).0 h)), λ h. (kept a).1 (all.1 h))
  where
    kept : (a : Alloc) → All P (overlapping a b) ↔ All (λ k. has b k ≡ true → P k) (keys a)
    kept [] = ((λ _. tt), λ _. tt)
    kept ((k, _) ∷ a) = elim (Bool-cases (has b k)) [
      | inl e ↦ rw e ((λ (x, h). ((λ _. x), (kept a).0 h)), λ (f, h). (f refl, (kept a).1 h))
      | inr e ↦ rw e ((λ h. ((λ bad. cc), (kept a).0 h)), λ (_, h). (kept a).1 h)
    ]

identical_lem :
    (a b : Alloc) (k : ℕ)
    → (check_identical a b k ≡ passed) ↔ (same_entry (entry a k) (entry b k) ≡ true)
unfolding check_identical
identical_lem a b k = ground arith

loop_identical :
    (a b : Alloc) (ks : List ℕ)
    → (check_collisions allow_identical_accounts a b ks ≡ passed)
      ↔ All (λ k. check_identical a b k ≡ passed) ks
unfolding check_collisions
loop_identical a b [] = ((λ _. tt), λ _. refl)
loop_identical a b (k ∷ ks) = check_each-passed (check_identical a b) (k ∷ ks)

no_overlap :
    (a b : Alloc) (ks : List ℕ) → (check_collisions error a b ks ≡ passed) ↔ All (λ k. ⊥) ks
unfolding check_collisions
no_overlap a b [] = ((λ _. tt), λ _. refl)
no_overlap a b (k ∷ ks) = ((λ h. cc), λ (h, _). absurd h)

any_overlap : (a b : Alloc) (ks : List ℕ) → check_collisions overwrite a b ks ≡ passed
unfolding check_collisions
any_overlap a b [] = refl
any_overlap a b (k ∷ ks) = refl

collisions_iff :
    (mode : KeyCollisionMode) (a b : Alloc)
    → (check_collisions mode a b (overlapping a b) ≡ passed) ↔ Permits mode a b
collisions_iff error a b =
    let loop = no_overlap a b (overlapping a b) in
    let all = All-overlapping (λ _. ⊥) a b in ((λ h. all.0 (loop.0 h)), λ h. loop.1 (all.1 h))
collisions_iff overwrite a b = ((λ _. tt), λ _. any_overlap a b (overlapping a b))
collisions_iff allow_identical_accounts a b =
    let loop = loop_identical a b (overlapping a b) in
    let all = All-overlapping (λ k. check_identical a b k ≡ passed) a b in
    (
      (λ h k m n. (identical_lem a b k).0 (all.0 (loop.0 h) k m n)),
      λ h. loop.1 (all.1 λ k m n. (identical_lem a b k).1 (h k m n)),
    )

-- The entry of the first allocation, once its fields are all set.
abbrev pub dump_entry : Option (Option Account) → Option (Option Account)
dump_entry none = none
dump_entry (some none) = some none
dump_entry (some (some account)) = some (some (dump_account account))

lookup-dump : (a : Alloc) (k : ℕ) → lookup (dump a) k ≡ dump_entry (lookup a k)
lookup-dump [] k = refl
lookup-dump ((j, none) ∷ a) k = elim (Bool-cases (j == k)) [
  | inl e ↦ rw e refl
  | inr e ↦ rw e (lookup-dump a k)
]
lookup-dump ((j, some account) ∷ a) k = elim (Bool-cases (j == k)) [
  | inl e ↦ rw e refl
  | inr e ↦ rw e (lookup-dump a k)
]

-- `merge` of two allocations, the second a dict, returns one just when the mode permits the shared
-- addresses: ERROR permits none, ALLOW_IDENTICAL_ACCOUNTS equal accounts, OVERWRITE all; otherwise
-- it raises. The result keeps the first allocation's entries, with every field set, at addresses
-- that the second does not hold, and at the others has the two accounts merged, or nothing where
-- the merged account is empty.
pub merge_lem :
    (mode : KeyCollisionMode) (a b : Alloc)
    → IsUnique b
    → (Permits mode a b
        → (r : Alloc) × (merge a b mode ≡ merged_alloc r)
          × ((k : ℕ) → lookup r k ≡ merged_entry (dump_entry (lookup a k)) (lookup b k)))
      × ((Permits mode a b → ⊥) → (e : AllocFailure) × (merge a b mode ≡ failed e))
unfolding merge
merge_lem mode a b u = (
  (λ p. (
    merge_entries (dump a) b,
    rw (merge, (collisions_iff mode a b).1 p) refl,
    λ k.
        lookup-merge_entries (dump a) b k u
        ∙ ap (λ e. merged_entry e (lookup b k)) (lookup-dump a k),
  )),
  λ refused. raises (check_collisions mode a b (overlapping a b)) refl refused,
)
  where
    raises :
        (c : Check AllocFailure)
        → check_collisions mode a b (overlapping a b) ≡ c
        → (Permits mode a b → ⊥)
        → (e : AllocFailure) × (merge a b mode ≡ failed e)
    raises passed q refused = absurd (refused ((collisions_iff mode a b).0 q))
    raises (raised e) q refused = (e, rw (merge, q) refl)
