-- ===== src/Types/AccessList/Expectation.antt =====
-- src/ethereum_test_types/block_access_list/expectations.py and account_absent_values.py: what a test
-- expects of a block access list. A field that is not in `model_fields_set` has no value here.
pub mod Subsequence
pub mod Slots
pub mod Meets
pub mod Verify
mod Examples
use execution_spec_tests.Base.{
  ℕ, Bool, true, false, not, ◌&&◌, Option, none, some, List, [], ◌∷◌, ◌==◌, if◌then◌else◌,
  same_bytes, Check, passed, raised, ◌and_then◌, check_each,
}
use execution_spec_tests.Types.AccessList.{
  Change, StorageSlot, AccountChange, BlockAccessList, Field, BalError, nonces, balances, codes,
  storage, reads, should_not_be_there, ambiguous, not_in_bal, account_changed, forbidden,
  should_be_empty, not_found, change_not_found, validate_bal_ordering,
}

pub record AbsentValues : Type 0 where
  pub nonce_changes : List (Change ℕ)
  pub balance_changes : List (Change ℕ)
  pub code_changes : List (Change (List ℕ))
  pub storage_changes : List StorageSlot
  pub storage_reads : List ℕ

-- `is_empty` is the identity test with `BalAccountExpectation.empty()`.
pub record Expectation : Type 0 where
  pub nonce_changes : Option (List (Change ℕ))
  pub balance_changes : Option (List (Change ℕ))
  pub code_changes : Option (List (Change (List ℕ)))
  pub storage_changes : Option (List StorageSlot)
  pub storage_reads : Option (List ℕ)
  pub absent_values : Option (Option AbsentValues)
  pub is_empty : Bool

abbrev pub equal : ℕ → ℕ → Bool
equal a b = a == b

abbrev pub same_change : {A : Type 0} → (A → A → Bool) → Change A → Change A → Bool
same_change same c d = (c.tx_index == d.tx_index) && same c.post_value d.post_value

-- `BalAccountAbsentValues._validate_forbidden_changes`
unfoldable pub validate_forbidden :
    {A : Type 0}
    → Field
    → (A → A → Bool)
    → (actual_changes forbidden_changes : List A) → Check BalError
validate_forbidden field match_fn actual_changes forbidden_changes =
    check_each
      (λ actual.
        check_each (λ f. if match_fn actual f then raised (forbidden field) else passed)
          forbidden_changes)
      actual_changes

-- `BalAccountAbsentValues.validate_against`
unfoldable pub validate_against : AbsentValues → AccountChange → Check BalError
validate_against absent account =
    validate_forbidden nonces (same_change equal) account.nonce_changes absent.nonce_changes
    and_then (validate_forbidden balances (same_change equal) account.balance_changes
          absent.balance_changes
        and_then (validate_forbidden codes (same_change same_bytes) account.code_changes
              absent.code_changes
            and_then (check_each
                  (λ f.
                    check_each
                      (λ s.
                        if s.slot == f.slot
                        then validate_forbidden storage (same_change equal) s.slot_changes
                            f.slot_changes
                        else passed)
                      account.storage_changes)
                  absent.storage_changes
                and_then check_each
                    (λ f.
                      check_each (λ r. if r == f then raised (forbidden reads) else passed)
                        account.storage_reads)
                    absent.storage_reads)))

-- The inner loop: what is behind the next actual item that is the expected one.
unfoldable pub find_next : {A : Type 0} → (A → A → Bool) → A → List A → Option (List A)
find_next same x [] = none
find_next same x (y ∷ ys) = if same y x then some ys else find_next same x ys

-- The loop over the expected items, which goes on in the actual items where it stopped.
unfoldable pub subsequence :
    {A : Type 0} → BalError → (A → A → Bool) → (expected actual : List A) → Check BalError
subsequence e same [] ys = passed
subsequence e same (x ∷ xs) ys = elim (find_next same x ys) [
  | none ↦ raised e
  | some rest ↦ subsequence e same xs rest
]

unfoldable pub find_slot : ℕ → List StorageSlot → Option (StorageSlot × List StorageSlot)
find_slot k [] = none
find_slot k (s ∷ ss) = if s.slot == k then some (s, ss) else find_slot k ss

-- No expected changes accept any changes of a slot.
unfoldable pub check_changes : (expected actual : List (Change ℕ)) → Check BalError
check_changes [] actual = passed
check_changes (c ∷ cs) actual =
    subsequence (change_not_found storage) (same_change equal) (c ∷ cs) actual

unfoldable pub slots_subsequence : (expected actual : List StorageSlot) → Check BalError
slots_subsequence [] ss = passed
slots_subsequence (x ∷ xs) ss = elim (find_slot x.slot ss) [
  | none ↦ raised (not_found storage)
  | some found ↦
      check_changes x.slot_changes found.0.slot_changes and_then slots_subsequence xs found.1
]

-- One turn of the loop over the fields, for a way to compare the lists that are not empty.
unfoldable pub compare_field :
    {A : Type 0}
    → Field
    → (List A → List A → Check BalError)
    → Option (List A)
    → List A
    → Check BalError
compare_field field compare none actual = passed
compare_field field compare (some []) [] = passed
compare_field field compare (some []) (y ∷ ys) = raised (should_be_empty field)
compare_field field compare (some (x ∷ xs)) ys = compare (x ∷ xs) ys

unfoldable pub check_absent : Option (Option AbsentValues) → AccountChange → Check BalError
check_absent (some (some absent)) actual = validate_against absent actual
check_absent (some none) actual = passed
check_absent none actual = passed

-- `BlockAccessListExpectation._compare_account_expectations`
unfoldable pub compare_account : Expectation → AccountChange → Check BalError
compare_account expected actual =
    check_absent expected.absent_values actual
    and_then (compare_field nonces (subsequence (not_found nonces) (same_change equal))
          expected.nonce_changes actual.nonce_changes
        and_then (compare_field balances (subsequence (not_found balances) (same_change equal))
              expected.balance_changes actual.balance_changes
            and_then (compare_field codes (subsequence (not_found codes) (same_change same_bytes))
                  expected.code_changes actual.code_changes
                and_then (compare_field storage slots_subsequence expected.storage_changes
                      actual.storage_changes
                    and_then compare_field reads (subsequence (not_found reads) equal)
                        expected.storage_reads actual.storage_reads))))

-- The dict of the accounts by address: of two with an address the last one is kept.
unfoldable pub find_account : ℕ → BlockAccessList → Option AccountChange
find_account a [] = none
find_account a (c ∷ cs) = elim (find_account a cs) [
  | some found ↦ some found
  | none ↦ if c.address == a then some c else none
]

abbrev pub is_nil : {A : Type 0} → List A → Bool
is_nil [] = true
is_nil (x ∷ xs) = false

-- The test `== BalAccountChange(address=address)` on an account with that address.
unfoldable pub has_no_changes : AccountChange → Bool
has_no_changes a =
    is_nil a.nonce_changes
    && is_nil a.balance_changes
    && is_nil a.code_changes
    && is_nil a.storage_changes
    && is_nil a.storage_reads

abbrev pub is_none : {A : Type 0} → Option A → Bool
is_none none = true
is_none (some a) = false

unfoldable pub has_no_fields : Expectation → Bool
has_no_fields e =
    is_none e.nonce_changes
    && is_none e.balance_changes
    && is_none e.code_changes
    && is_none e.storage_changes
    && is_none e.storage_reads
    && is_none e.absent_values

unfoldable pub verify_present : Expectation → Option AccountChange → Check BalError
verify_present e none = raised not_in_bal
verify_present e (some actual) =
    (if e.is_empty && not (has_no_changes actual) then raised account_changed else passed)
    and_then compare_account e actual

-- The body of the loop over the expectations.
unfoldable pub verify_expectation : BlockAccessList → ℕ × Option Expectation → Check BalError
verify_expectation bal (address, none) = elim (find_account address bal) [
  | some found ↦ raised should_not_be_there
  | none ↦ passed
]
verify_expectation bal (address, some e) =
    if has_no_fields e then raised ambiguous else verify_present e (find_account address bal)

-- `BlockAccessListExpectation.verify_against`
unfoldable pub verify_against : List (ℕ × Option Expectation) → BlockAccessList → Check BalError
verify_against account_expectations bal =
    validate_bal_ordering bal and_then check_each (verify_expectation bal) account_expectations
