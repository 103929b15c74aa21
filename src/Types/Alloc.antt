-- ===== src/Types/Alloc.antt =====
-- The class Alloc of src/ethereum_test_types/account_types.py: a dict from addresses to accounts,
-- where `none` marks an account that must not exist.
mod Verify
mod Merge
mod Examples
use execution_spec_tests.Base.{
  same_bytes, ℕ, Bool, true, false, not, ◌&&◌, Option, none, some, List, [], ◌∷◌, ◌==◌,
  if◌then◌else◌, Dict, lookup, has, store, delete, keys, Check, passed, raised, ◌and_then◌,
  check_each, relabel,
}
use execution_spec_tests.BaseTypes.Storage.{Storage, storage_of}
use execution_spec_tests.BaseTypes.Account.{
  Account, AccountFailure, Source, nothing, of_dict, of_account, nonce, balance, code, storage,
  check_alloc, is_true, merge as merge_account,
}

abbrev pub Alloc : Type 0
Alloc = Dict (Option Account)

pub data AllocFailure : Type 0 where
  unexpected_account : (address : ℕ) (account : Account) → AllocFailure
  missing_account : (address : ℕ) → AllocFailure
  collision : (address : ℕ) (account_1 account_2 : Option Account) → AllocFailure
  overlapping_keys : AllocFailure
  -- `assert isinstance(got_account, Account)`
  assertion : AllocFailure
  account_failure : AccountFailure → AllocFailure

-- A test whether an address is there with an account, with none, or is not there.
abbrev pub found : Alloc → ℕ → Option (Option Account)
found alloc address = lookup alloc address

unfoldable pub verify_absent : ℕ → Option (Option Account) → Check AllocFailure
verify_absent address none = passed
verify_absent address (some none) = passed
verify_absent address (some (some account)) = raised (unexpected_account address account)

unfoldable pub verify_present : ℕ → Account → Option (Option Account) → Check AllocFailure
verify_present address account none = raised (missing_account address)
verify_present address account (some none) = raised assertion
verify_present address account (some (some got)) =
    relabel account_failure (check_alloc account address got)

-- The body of the loop of `verify_post_alloc`.
unfoldable pub verify_entry : Alloc → ℕ × Option Account → Check AllocFailure
verify_entry got (address, none) = verify_absent address (found got address)
verify_entry got (address, some account) = verify_present address account (found got address)

unfoldable pub verify_post_alloc : Alloc → Alloc → Check AllocFailure
verify_post_alloc self got = check_each (verify_entry got) self

-- `empty_accounts`
abbrev pub is_empty : Option Account → Bool
is_empty none = true
is_empty (some a) = not (is_true a)

unfoldable pub empty_accounts : Alloc → List ℕ
empty_accounts [] = []
empty_accounts ((address, account) ∷ alloc) =
    if is_empty account then address ∷ empty_accounts alloc else empty_accounts alloc

pub data KeyCollisionMode : Type 0 where
  error overwrite allow_identical_accounts : KeyCollisionMode

-- `model_dump` of an account sets every field.
unfoldable pub dump_account : Account → Account
dump_account a = record {
  nonce_set = some (nonce a);
  balance_set = some (balance a);
  code_set = some (code a);
  storage_set = some (storage_of (storage a).root);
}

abbrev pub dump : Alloc → Alloc
dump [] = []
dump ((address, none) ∷ alloc) = (address, none) ∷ dump alloc
dump ((address, some account) ∷ alloc) = (address, some (dump_account account)) ∷ dump alloc

-- What the dict of merged accounts gives for an address: an account is a dict or an account there,
-- and both are read in the same way, since a merge sets it only once.
abbrev pub dict_source : Option (Option Account) → Source
dict_source none = nothing
dict_source (some none) = nothing
dict_source (some (some account)) = of_dict account

abbrev pub other_source : Option Account → Source
other_source none = nothing
other_source (some account) = of_account account

unfoldable pub put_merged : ℕ → Account → Alloc → Alloc
put_merged address account merged =
    if is_true account then store address (some account) merged else delete address merged

-- The loop of `merge`.
unfoldable pub merge_entries : Alloc → Alloc → Alloc
merge_entries merged [] = merged
merge_entries merged ((address, other) ∷ rest) =
    merge_entries
      (put_merged address (merge_account (dict_source (lookup merged address)) (other_source other))
        merged)
      rest

abbrev pub overlapping : Alloc → Alloc → List ℕ
overlapping [] alloc_2 = []
overlapping ((address, _) ∷ alloc_1) alloc_2 =
    if has alloc_2 address
    then address ∷ overlapping alloc_1 alloc_2
    else overlapping alloc_1 alloc_2

-- Python's equality of accounts: of their fields, and of storages by their dicts.
abbrev pub agree : Dict ℕ → Dict ℕ → Bool
agree [] e = true
agree ((k, v) ∷ d) e = (elim (lookup e k) [ none ↦ false | some w ↦ v == w ]) && agree d e

abbrev pub same_account : Account → Account → Bool
same_account a b =
    nonce a == nonce b
    && balance a == balance b
    && same_bytes (code a) (code b)
    && agree (storage a).root (storage b).root
    && agree (storage b).root (storage a).root

abbrev pub same_entry : Option Account → Option Account → Bool
same_entry none none = true
same_entry none (some b) = false
same_entry (some a) none = false
same_entry (some a) (some b) = same_account a b

abbrev pub entry : Alloc → ℕ → Option Account
entry alloc address = elim (lookup alloc address) [ none ↦ none | some e ↦ e ]

unfoldable pub check_identical : Alloc → Alloc → ℕ → Check AllocFailure
check_identical alloc_1 alloc_2 address =
    if same_entry (entry alloc_1 address) (entry alloc_2 address)
    then passed
    else raised (collision address (entry alloc_1 address) (entry alloc_2 address))

unfoldable pub check_collisions : KeyCollisionMode → Alloc → Alloc → List ℕ → Check AllocFailure
check_collisions mode alloc_1 alloc_2 [] = passed
check_collisions error alloc_1 alloc_2 (k ∷ ks) = raised overlapping_keys
check_collisions overwrite alloc_1 alloc_2 (k ∷ ks) = passed
check_collisions allow_identical_accounts alloc_1 alloc_2 (k ∷ ks) =
    check_each (check_identical alloc_1 alloc_2) (k ∷ ks)

pub data MergeResult : Type 0 where
  failed : AllocFailure → MergeResult
  merged_alloc : Alloc → MergeResult

unfoldable pub merge : Alloc → Alloc → KeyCollisionMode → MergeResult
merge alloc_1 alloc_2 mode =
    elim (check_collisions mode alloc_1 alloc_2 (overlapping alloc_1 alloc_2)) [
      | raised e ↦ failed e
      | passed ↦ merged_alloc (merge_entries (dump alloc_1) alloc_2)
    ]
