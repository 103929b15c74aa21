-- ===== src/Types/AccessList/Order.antt =====
-- Proofs on the order of a block access list in src/ethereum_test_types/block_access_list/.
use execution_spec_tests.Base.{
  ℕ, suc, ◌<◌, ◌≤◌, ◌≡◌, refl, sym, ap, ◌∙◌, subst, ◌↔◌, Bool, true, false, List, [], ◌∷◌, length,
  arith, leb, ◌==◌, ==_iff, if◌then◌else◌, same_bytes, same_bytes_iff, All, passed, raised,
  and_then-passed, Bool-cases, inl, inr,
}
use execution_spec_tests.Types.AccessList.{
  AccountChange, BlockAccessList, Field, BalError, check_ascending, insert, sorted, contains,
  set_size, check_indices, indices, slots, addresses,
}

-- Every key is greater than the one before it.
abbrev pub IsAscending : List ℕ → Type 0
IsAscending [] = Unit
IsAscending (a ∷ []) = Unit
IsAscending (a ∷ b ∷ keys) = (a < b) × IsAscending (b ∷ keys)

abbrev pub IsOrderedAccount : AccountChange → Type 0
IsOrderedAccount a =
    IsAscending (indices a.nonce_changes)
    × IsAscending (indices a.balance_changes)
    × IsAscending (indices a.code_changes)
    × IsAscending (slots a.storage_changes)
    × All (λ s. IsAscending (indices s.slot_changes)) a.storage_changes
    × IsAscending a.storage_reads

-- The order that EIP-7928 asks for.
abbrev pub IsOrdered : BlockAccessList → Type 0
IsOrdered bal = IsAscending (addresses bal) × All IsOrderedAccount bal

pub check_ascending_iff :
    (e : BalError) (keys : List ℕ) → (check_ascending e keys ≡ passed) ↔ IsAscending keys
unfolding check_ascending
check_ascending_iff e [] = ((λ _. tt), λ _. refl)
check_ascending_iff e (a ∷ []) = ((λ _. tt), λ _. refl)
check_ascending_iff e (a ∷ b ∷ keys) = ground (arith, check_ascending_iff e (b ∷ keys))

abbrev IsSorted : List ℕ → Type 0
IsSorted [] = Unit
IsSorted (a ∷ []) = Unit
IsSorted (a ∷ b ∷ keys) = (a ≤ b) × IsSorted (b ∷ keys)

insert-least : (a : ℕ) (keys : List ℕ) → IsSorted (a ∷ keys) → insert a keys ≡ a ∷ keys
unfolding insert
insert-least a [] h = refl
insert-least a (b ∷ keys) (le, h) = let e : leb a b ≡ true = ground arith in rw e refl

tail-IsSorted : (a : ℕ) (keys : List ℕ) → IsSorted (a ∷ keys) → IsSorted keys
tail-IsSorted a [] h = tt
tail-IsSorted a (b ∷ keys) (le, h) = h

sorted-fixed : (keys : List ℕ) → IsSorted keys → sorted keys ≡ keys
unfolding sorted
sorted-fixed [] h = refl
sorted-fixed (a ∷ keys) h =
    ap (insert a) (sorted-fixed keys (tail-IsSorted a keys h)) ∙ insert-least a keys h

insert-IsSorted : (a : ℕ) (keys : List ℕ) → IsSorted keys → IsSorted (insert a keys)
unfolding insert
insert-IsSorted a [] h = tt
insert-IsSorted a (b ∷ []) h = elim (Bool-cases (leb a b)) [
  | inl e ↦ rw e (ground (arith, e), tt)
  | inr e ↦ rw e (ground (arith, e), tt)
]
insert-IsSorted a (b ∷ c ∷ keys) (le, h) = elim (Bool-cases (leb a b)) [
  | inl e ↦ rw e (ground (arith, e), (le, h))
  | inr e ↦ rw e (behind (insert-IsSorted a (c ∷ keys) h) e)
]
  where
    behind : IsSorted (insert a (c ∷ keys)) → leb a b ≡ false → IsSorted (b ∷ insert a (c ∷ keys))
    behind s e = elim (Bool-cases (leb a c)) [
      | inl f ↦ rw f (ground (arith, e), subst IsSorted (above f) s)
      | inr f ↦ rw f (le, subst IsSorted (below f) s)
    ]
      where
        above : leb a c ≡ true → insert a (c ∷ keys) ≡ a ∷ c ∷ keys
        above f = rw f refl

        below : leb a c ≡ false → insert a (c ∷ keys) ≡ c ∷ insert a keys
        below f = rw f refl

sorted-IsSorted : (keys : List ℕ) → IsSorted (sorted keys)
unfolding sorted
sorted-IsSorted [] = tt
sorted-IsSorted (a ∷ keys) = insert-IsSorted a (sorted keys) (sorted-IsSorted keys)

set_size_least : (keys : List ℕ) → set_size keys ≤ length keys
unfolding set_size
set_size_least [] = omega arith
set_size_least (a ∷ keys) = elim (Bool-cases (contains a keys)) [
  | inl e ↦ rw e (omega (arith, set_size_least keys))
  | inr e ↦ rw e (omega (arith, set_size_least keys))
]

-- Nothing is counted less than once.
distinct_step :
    (a : ℕ) (keys : List ℕ)
    → length (a ∷ keys) ≡ set_size (a ∷ keys)
    → (contains a keys ≡ false) × (length keys ≡ set_size keys)
unfolding set_size
distinct_step a keys h = elim (Bool-cases (contains a keys)) [
  | inl e ↦
      let counted : suc (length keys) ≡ set_size keys = rw (e) at h in
      absurd (omega (arith, counted, set_size_least keys))
  | inr e ↦
      let counted : suc (length keys) ≡ suc (set_size keys) = rw (e) at h in
      (e, omega (arith, counted))
]

sorted-IsAscending :
    (keys : List ℕ) → IsSorted keys → length keys ≡ set_size keys → IsAscending keys
sorted-IsAscending [] h n = tt
sorted-IsAscending (a ∷ []) h n = tt
sorted-IsAscending (a ∷ b ∷ keys) (le, h) n =
    let (apart, rest) = distinct_step a (b ∷ keys) n in
    (ground (arith, apart), sorted-IsAscending (b ∷ keys) h rest)

pub above_all : (c a : ℕ) (keys : List ℕ) → c ≤ a → IsAscending (a ∷ keys) → contains c keys ≡ false
above_all c a [] le h = refl
above_all c a (b ∷ keys) le (lt, h) =
    let rest = above_all c b keys (omega (arith, le, lt)) h in
    let apart : (c == b) ≡ false = ground (arith, le, lt) in rw (apart, rest) refl

pub tail-IsAscending : (a : ℕ) (keys : List ℕ) → IsAscending (a ∷ keys) → IsAscending keys
tail-IsAscending a [] h = tt
tail-IsAscending a (b ∷ keys) (lt, h) = h

ascending_size : (keys : List ℕ) → IsAscending keys → length keys ≡ set_size keys
unfolding set_size
ascending_size [] h = refl
ascending_size (a ∷ keys) h =
    let apart = above_all a a keys (omega arith) h in
    rw apart (ap suc (ascending_size keys (tail-IsAscending a keys h)))

ascending-IsSorted : (keys : List ℕ) → IsAscending keys → IsSorted keys
ascending-IsSorted [] h = tt
ascending-IsSorted (a ∷ []) h = tt
ascending-IsSorted (a ∷ b ∷ keys) (lt, h) = (omega (arith, lt), ascending-IsSorted (b ∷ keys) h)

pub test_passed :
    (t : Bool) (e : BalError) → ((if t then passed else raised e) ≡ passed) ↔ (t ≡ true)
test_passed true e = ((λ _. refl), λ _. refl)
test_passed false e = ((λ h. cc), λ h. cc)

pub check_indices_iff :
    (field : Field) (keys : List ℕ) → (check_indices field keys ≡ passed) ↔ IsAscending keys
unfolding check_indices
check_indices_iff field [] = ((λ _. tt), λ _. refl)
check_indices_iff field (k ∷ keys) =
    let all = k ∷ keys in
    let split =
      and_then-passed
        (if same_bytes all (sorted all) then passed else raised (BalError.indices_unordered field))
        (if length all == set_size all
          then passed
          else raised (BalError.duplicate_indices field)) in
    let first = test_passed (same_bytes all (sorted all)) (BalError.indices_unordered field) in
    let second = test_passed (length all == set_size all) (BalError.duplicate_indices field) in
    (
      λ h.
          let (p, q) = split.0 h in
          let same = (same_bytes_iff all (sorted all)).0 (first.0 p) in
          sorted-IsAscending all (subst IsSorted (sym same) (sorted-IsSorted all))
            ((==_iff (length all) (set_size all)).0 (second.0 q)),
      λ h. split.1 (
        first.1 (
            (same_bytes_iff all (sorted all)).1
              (sym (sorted-fixed all (ascending-IsSorted all h)))),
        second.1 ((==_iff (length all) (set_size all)).1 (ascending_size all h)),
      ),
    )
