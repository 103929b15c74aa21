-- ===== src/Types/AccessList/Modifiers/Changed.antt =====
-- Proofs on what the modifiers of src/ethereum_test_types/block_access_list/modifiers.py change.
use execution_spec_tests.Base.{
  ℕ, ◌≡◌, refl, sym, ap, ◌∙◌, Bool, true, false, ◌||◌, List, [], ◌∷◌, ◌==◌, if◌then◌else◌,
  Bool-cases, inl, inr, arith, Result, ok, err, guard, ◌>>=◌, ◌>>◌, value_error, passed,
}
use execution_spec_tests.Types.AccessList.{
  Change, AccountChange, BlockAccessList, addresses, validate_bal_ordering,
}
use execution_spec_tests.Types.AccessList.Order.{IsAscending, tail-IsAscending}
use execution_spec_tests.Types.AccessList.Valid.{validate_bal_ordering_iff}
use execution_spec_tests.Types.AccessList.Modifiers.{
  set_code, has_address, change_account, modify_field, modify_code, duplicate_all,
  duplicate_account,
}

duplicate_all-apart :
    (address : ℕ) (bal : BlockAccessList)
    → has_address address bal ≡ true
    → ¬ IsAscending (addresses (duplicate_all address bal))
unfolding duplicate_all
duplicate_all-apart address [] h asc = cc
duplicate_all-apart address (a ∷ bal) h asc = elim (Bool-cases (a.address == address)) [
  | inl e ↦ let twice = (rw (duplicate_all, e) at asc).0 in omega (arith, twice)
  | inr e ↦ duplicate_all-apart address bal (rw e at h) (
      tail-IsAscending a.address (addresses (duplicate_all address bal))
        (rw (duplicate_all, e) at asc))
]

-- An account that is there is duplicated, and the result never passes the check of its order.
pub duplicate_account_lem :
    (address : ℕ) (address_present : Bool) (bal : BlockAccessList)
    → has_address address bal ≡ true
    → (new : BlockAccessList) × (duplicate_account address address_present bal ≡ ok new)
      × ¬ validate_bal_ordering new ≡ passed
unfolding duplicate_account
duplicate_account_lem address address_present bal h = (
  duplicate_all address bal,
  present address_present,
  λ p.
      duplicate_all-apart address bal h
        ((validate_bal_ordering_iff (duplicate_all address bal)).0 p).0,
)
  where
    present :
        (b : Bool)
        → (guard (b || has_address address bal) value_error >> ok (duplicate_all address bal))
          ≡ ok (duplicate_all address bal)
    present true = refl
    present false = rw h refl

-- A step that keeps its value where it succeeds, and then a rest that does.
kept_cons :
    {A : Type 0} (r : Result A) (t : Result (List A)) (a : A) (xs new : List A)
    → ((b : A) → r ≡ ok b → b ≡ a)
    → ((ys : List A) → t ≡ ok ys → ys ≡ xs)
    → (r >>= λ b. t >>= λ ys. ok (b ∷ ys)) ≡ ok new
    → new ≡ a ∷ xs
kept_cons (err x) t a xs new f g e = cc
kept_cons (ok b) (err x) a xs new f g e = cc
kept_cons (ok b) (ok ys) a xs new f g e = let first = f b refl in let rest = g ys refl in cc

set_code_kept : (tx : ℕ) (cs new : List (Change (List ℕ))) → set_code tx cs ≡ ok new → new ≡ cs
unfolding set_code
set_code_kept tx [] new e = cc
set_code_kept tx (c ∷ cs) new e = elim (Bool-cases (c.tx_index == tx)) [
  | inl h ↦ absurd (refused (rw (set_code, h) at e))
  | inr h ↦
      kept_cons (ok c) (set_code tx cs) c cs new (λ b q. cc) (set_code_kept tx cs)
        (rw (set_code, h) at e)
]
  where
    refused : err value_error ≡ ok new → ⊥
    refused q = cc

account_kept :
    (tx : ℕ) (a b : AccountChange) (r : Result (List (Change (List ℕ))))
    → ((cs : List (Change (List ℕ))) → r ≡ ok cs → cs ≡ a.code_changes)
    → (r >>= λ cs. ok (record a { code_changes = cs })) ≡ ok b
    → b ≡ a
account_kept tx a b (err x) f e = cc
account_kept tx a b (ok cs) f e =
    let same : cs ≡ a.code_changes = f cs refl in
    let made : record a { code_changes = cs } ≡ b = ok-injective _ _ e in
    sym made ∙ ap (λ c. record a { code_changes = c }) same
  where
    ok-injective : (x y : AccountChange) → ok x ≡ ok y → x ≡ y
    ok-injective x y q = cc

change_kept :
    (tx address : ℕ) (bal new : BlockAccessList)
    → change_account
        (λ a. set_code tx a.code_changes >>= λ cs. ok (record a { code_changes = cs }))
        address
        bal
      ≡ ok new
    → new ≡ bal
unfolding change_account
change_kept tx address [] new e = cc
change_kept tx address (a ∷ bal) new e =
    kept_cons _ _ a bal new (here (a.address == address)) (change_kept tx address bal) e
  where
    here :
        (t : Bool) (b : AccountChange)
        → (if t
            then (set_code tx a.code_changes >>= λ cs. ok (record a { code_changes = cs }))
            else ok a)
          ≡ ok b
        → b ≡ a
    here true b q =
        account_kept tx a b (set_code tx a.code_changes) (set_code_kept tx a.code_changes) q
    here false b q = cc

-- Whatever code `modify_code` is given, it changes nothing where it returns.
pub modify_code_lem :
    (address tx : ℕ) (code : List ℕ) (found : Bool) (bal new : BlockAccessList)
    → modify_code address tx code found bal ≡ ok new
    → new ≡ bal
unfolding modify_code modify_field
modify_code_lem address tx code found bal new e =
    change_kept tx address bal new (returned _ (found || has_address address bal) e)
  where
    returned :
        (r : Result BlockAccessList) (b : Bool)
        → (r >>= λ x. guard b value_error >> ok x) ≡ ok new
        → r ≡ ok new
    returned (err x) b q = cc
    returned (ok x) true q = q
    returned (ok x) false q = cc
