-- ===== src/Types/AccessList/Expectation/Examples.antt =====
-- Tests of the expectations in src/ethereum_test_types/block_access_list/expectations.py.
use execution_spec_tests.Base.{◌≡◌, refl, false, none, some, [], ◌∷◌, ◌↔◌, All, passed, raised}
use execution_spec_tests.Types.AccessList.{
  check_ascending, insert, sorted, set_size, check_indices, check_account, validate_bal_ordering,
  reads, not_found, ambiguous, should_not_be_there,
}
use execution_spec_tests.Types.AccessList.Order.{IsOrdered}
use execution_spec_tests.Types.AccessList.Examples.{two_accounts}
use execution_spec_tests.Types.AccessList.Expectation.{
  Expectation, equal, validate_forbidden, validate_against, find_next, subsequence, find_slot,
  check_changes, slots_subsequence, compare_field, check_absent, compare_account, find_account,
  has_no_changes, has_no_fields, verify_present, verify_expectation, verify_against,
}
use execution_spec_tests.Types.AccessList.Expectation.Verify.{MeetsEntry, verify_against_iff}

abbrev no_fields : Expectation
no_fields = record {
  nonce_changes = none;
  balance_changes = none;
  code_changes = none;
  storage_changes = none;
  storage_reads = none;
  absent_values = none;
  is_empty = false;
}

-- The last balance, no code, any change of slot 4, and no read of slot 9.
abbrev some_fields : Expectation
some_fields = record no_fields {
  balance_changes = some (record { tx_index = 3; post_value = 80 } ∷ []);
  code_changes = some [];
  storage_changes = some (record { slot = 4; slot_changes = [] } ∷ []);
  absent_values = some (
      some record {
        nonce_changes = [];
        balance_changes = [];
        code_changes = [];
        storage_changes = [];
        storage_reads = 9 ∷ [];
      });
}

verify_against_iff_example :
    (verify_against ((10, some some_fields) ∷ (12, none) ∷ []) two_accounts ≡ passed) ↔ (
      IsOrdered two_accounts
      × All (MeetsEntry two_accounts) ((10, some some_fields) ∷ (12, none) ∷ []))
verify_against_iff_example =
    verify_against_iff ((10, some some_fields) ∷ (12, none) ∷ []) two_accounts

verified : verify_against ((10, some some_fields) ∷ (12, none) ∷ []) two_accounts ≡ passed
unfolding validate_bal_ordering check_account check_indices check_ascending sorted insert set_size
    validate_forbidden validate_against find_next subsequence find_slot check_changes
    slots_subsequence compare_field check_absent compare_account find_account has_no_changes
    has_no_fields verify_present verify_expectation verify_against
verified = refl

-- The reads are there, but not in this order.
reads_out_of_order :
    subsequence (not_found reads) equal (3 ∷ 1 ∷ []) (1 ∷ 3 ∷ []) ≡ raised (not_found reads)
unfolding subsequence find_next
reads_out_of_order = refl

nothing_set : verify_expectation two_accounts (10, some no_fields) ≡ raised ambiguous
unfolding verify_expectation has_no_fields
nothing_set = refl

unwanted : verify_expectation two_accounts (11, none) ≡ raised should_not_be_there
unfolding verify_expectation find_account
unwanted = refl
