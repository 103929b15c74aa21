-- ===== src/BaseTypes/Account/Outcome.antt =====
-- Proofs on `check_alloc` and `merge` of the class Account in
-- src/ethereum_test_base_types/composite_types.py.
use execution_spec_tests.Base.{
  same_bytes, same_bytes_iff, ℕ, ◌≡◌, refl, sym, subst, ◌↔◌, inl, inr, Option, none, some, List,
  arith, ◌==◌, Bool-cases, if◌then◌else◌, Check, passed, raised, and_then-passed, relabel,
  relabel-passed,
}
use execution_spec_tests.BaseTypes.Storage.{Storage, storage_of, value, is_any, must_be_equal}
use execution_spec_tests.BaseTypes.Storage.Compare.{Agrees, must_be_equal_iff}
use execution_spec_tests.BaseTypes.Account.{
  Account, AccountFailure, of_account, nonce, balance, code, storage, check_field, check_alloc,
  later, dump_storage, to_kwargs, merge_kwargs, merge, storage_failure,
}

-- A field that is set satisfies P.
abbrev pub SetTo {ℓ} : {A : Type ℓ} → Option A → (A → Type 0) → Type 0
SetTo none P = Unit
SetTo (some v) P = P v

check_field_iff {ℓ} :
    {A : Type ℓ} (test : A → Check AccountFailure) (P : A → Type 0)
    → ((v : A) → (test v ≡ passed) ↔ P v)
    → (o : Option A) → (check_field test o ≡ passed) ↔ SetTo o P
check_field_iff test P each none = ((λ _. tt), λ _. refl)
check_field_iff test P each (some v) = each v

number_lem :
    (n m : ℕ) (e : AccountFailure) → ((if n == m then passed else raised e) ≡ passed) ↔ (n ≡ m)
number_lem n m e = ground arith

bytes_lem :
    (xs ys : List ℕ) (e : AccountFailure)
    → ((if same_bytes xs ys then passed else raised e) ≡ passed) ↔ (xs ≡ ys)
bytes_lem xs ys e = elim (Bool-cases (same_bytes xs ys)) [
  | inl q ↦ rw q ((λ _. (same_bytes_iff xs ys).0 q), λ _. refl)
  | inr q ↦ rw q ((λ h. cc), λ h. ground (arith, q, (same_bytes_iff xs ys).1 h))
]

storage_lem :
    (s : Storage) (a : ℕ) (o : Storage)
    → (relabel storage_failure (must_be_equal s a (some o)) ≡ passed) ↔ ((k : ℕ) → Agrees s o k)
storage_lem s a o =
    let outer = relabel-passed storage_failure (must_be_equal s a (some o)) in
    let inner = must_be_equal_iff s a (some o) in
    ((λ h. inner.0 (outer.0 h)), λ h. outer.1 (inner.1 h))

-- The fields that are set in an expected account, and no other, agree with an account.
abbrev pub Matches : Account → Account → Type 0
Matches self account =
    SetTo self.nonce_set (λ n. n ≡ nonce account)
    × SetTo self.balance_set (λ b. b ≡ balance account)
    × SetTo self.code_set (λ c. c ≡ code account)
    × SetTo self.storage_set (λ s. (k : ℕ) → Agrees s (storage account) k)

-- `self.check_alloc(address, account)` succeeds just when every field that is set in self, and no
-- other, agrees with the account: nonce, balance and code are equal, and the storages agree at
-- every key, with a missing key read as zero, but for the keys that self marks as any and does not
-- hold, which are left out.
pub check_alloc_iff :
    (self : Account) (address : ℕ) (account : Account)
    → (check_alloc self address account ≡ passed) ↔ Matches self account
unfolding check_alloc
check_alloc_iff self address account =
    let n = check_field_iff _ _ (λ v. number_lem v (nonce account) _) self.nonce_set in
    let b = check_field_iff _ _ (λ v. number_lem v (balance account) _) self.balance_set in
    let c = check_field_iff _ _ (λ v. bytes_lem v (code account) _) self.code_set in
    let s = check_field_iff _ _ (λ v. storage_lem v address (storage account)) self.storage_set in
    let first = and_then-passed _ _ in
    let second = and_then-passed _ _ in
    let third = and_then-passed _ _ in
    (
      (λ h.
          let (p, h1) = first.0 h in
          let (q, h2) = second.0 h1 in let (r, t) = third.0 h2 in (n.0 p, b.0 q, c.0 r, s.0 t)),
      λ (p, q, r, t). first.1 (n.1 p, second.1 (b.1 q, third.1 (c.1 r, s.1 t))),
    )

dump_storage_idem : (o : Option Storage) → dump_storage (dump_storage o) ≡ dump_storage o
unfolding storage_of
dump_storage_idem none = refl
dump_storage_idem (some s) = refl

dump-later :
    (a b : Option Storage)
    → dump_storage (later (dump_storage b) (dump_storage a))
      ≡ later (dump_storage b) (dump_storage a)
dump-later a none = dump_storage_idem a
dump-later a (some s) = dump_storage_idem (some s)

later_assoc {ℓ} : {A : Type ℓ} (a b c : Option A) → later c (later b a) ≡ later (later c b) a
later_assoc a b none = refl
later_assoc a b (some v) = refl

-- Merging accounts is associative.
pub merge_assoc :
    (a b c : Account)
    → merge (of_account (merge (of_account a) (of_account b))) (of_account c)
      ≡ merge (of_account a) (of_account (merge (of_account b) (of_account c)))
unfolding merge merge_kwargs to_kwargs
merge_assoc a b c =
    rw
      (
        dump-later a.storage_set b.storage_set,
        dump-later b.storage_set c.storage_set,
        later_assoc a.nonce_set b.nonce_set c.nonce_set,
        later_assoc a.balance_set b.balance_set c.balance_set,
        later_assoc a.code_set b.code_set c.code_set,
        later_assoc (dump_storage a.storage_set) (dump_storage b.storage_set)
            (dump_storage c.storage_set),
      )
      refl

-- A dumped storage has no marked keys.
dumped_lem :
    (o other : Storage)
    → ((k : ℕ) → Agrees (storage_of o.root) other k) ↔ ((k : ℕ) → value o k ≡ value other k)
unfolding storage_of is_any
dumped_lem o other = ((λ h k. strict k (h k)), λ h k. inl (h k))
  where
    strict : (k : ℕ) → Agrees (storage_of o.root) other k → value o k ≡ value other k
    strict k (inl q) = q
    strict k (inr (_, q)) = cc

later-dump :
    (a b : Option Storage) → later (dump_storage b) (dump_storage a) ≡ dump_storage (later b a)
later-dump a none = refl
later-dump a (some s) = refl

merged_storage_lem :
    (o : Option Storage) (other : Storage)
    → SetTo (dump_storage o) (λ s. (k : ℕ) → Agrees s other k)
      ↔ SetTo o (λ s. (k : ℕ) → value s k ≡ value other k)
merged_storage_lem none other = ((λ _. tt), λ _. tt)
merged_storage_lem (some s) other = dumped_lem s other

-- The check of two merged accounts compares the field of the second account where it is set and
-- the first's otherwise, and compares the storage at every key: a merge drops the marks of
-- `set_expect_any`.
pub merge_check :
    (a b : Account) (address : ℕ) (account : Account)
    → (check_alloc (merge (of_account a) (of_account b)) address account ≡ passed) ↔ (
        SetTo (later b.nonce_set a.nonce_set) (λ n. n ≡ nonce account)
        × SetTo (later b.balance_set a.balance_set) (λ n. n ≡ balance account)
        × SetTo (later b.code_set a.code_set) (λ c. c ≡ code account)
        × SetTo
            (later b.storage_set a.storage_set)
            (λ s. (k : ℕ) → value s k ≡ value (storage account) k))
unfolding merge merge_kwargs to_kwargs
merge_check a b address account =
    let check = check_alloc_iff (merge (of_account a) (of_account b)) address account in
    let strict = merged_storage_lem (later b.storage_set a.storage_set) (storage account) in
    let dump = later-dump a.storage_set b.storage_set in
    let P : Option Storage → Type 0 = λ o. SetTo o λ s. (k : ℕ) → Agrees s (storage account) k in
    (
      (λ h. let (p, q, r, t) = check.0 h in (p, q, r, strict.0 (subst P dump t))),
      λ (p, q, r, t). check.1 (p, q, r, subst P (sym dump) (strict.1 t)),
    )
