-- ===== src/Types/AccessList/Modifiers/Examples.antt =====
-- Tests of src/ethereum_test_types/block_access_list/modifiers.py.
use execution_spec_tests.Base.{
  ◌≡◌, refl, false, [], ◌∷◌, map, ◌==◌, if◌then◌else◌, ok, err, value_error, index_error, passed,
}
use execution_spec_tests.Types.AccessList.{BlockAccessList, nonces, validate_bal_ordering, set_size}
use execution_spec_tests.Types.AccessList.Examples.{two_accounts}
use execution_spec_tests.Types.AccessList.Modifiers.{
  remove_field, clear_fields, find_addresses, change_account, modify_field, modify_code, set_code,
  swap_tx_indices, keep_accounts, keep_only, duplicate_account, reverse_accounts,
  sort_accounts_by_address, insert_account, pick, reorder_accounts,
}
use execution_spec_tests.Types.AccessList.Modifiers.Swap.{all_indices, swap_twice}
use execution_spec_tests.Types.AccessList.Modifiers.Changed.{duplicate_account_lem, modify_code_lem}

swap_twice_example :
    (swap_tx_indices 1 3 (swap_tx_indices 1 3 two_accounts) ≡ two_accounts)
    × (all_indices (swap_tx_indices 1 3 two_accounts)
        ≡ map (λ i. if i == 1 then 3 else (if i == 3 then 1 else i)) (all_indices two_accounts))
swap_twice_example = swap_twice 1 3 two_accounts

duplicate_account_lem_example :
    (new : BlockAccessList) × (duplicate_account 11 false two_accounts ≡ ok new)
    × ¬ validate_bal_ordering new ≡ passed
duplicate_account_lem_example = duplicate_account_lem 11 false two_accounts refl

-- The accounts have no code changes, so the call returns.
modify_code_lem_example : two_accounts ≡ two_accounts
unfolding modify_code modify_field change_account set_code
modify_code_lem_example = modify_code_lem 10 1 (1 ∷ []) false two_accounts two_accounts refl

-- A code change at the transaction cannot be replaced.
code_refused : set_code 1 (record { tx_index = 1; post_value = 96 ∷ [] } ∷ []) ≡ err value_error
unfolding set_code
code_refused = refl

-- The second call of one modifier passes on a list without the account, since the first one found it.
remembered : (remove_field nonces (10 ∷ []) (10 ∷ []) []).1 ≡ ok []
unfolding remove_field clear_fields find_addresses set_size
remembered = refl

forgotten : (remove_field nonces (10 ∷ []) [] []).1 ≡ err value_error
unfolding remove_field clear_fields find_addresses set_size
forgotten = refl

sorted_back : sort_accounts_by_address (reverse_accounts two_accounts) ≡ two_accounts
unfolding sort_accounts_by_address insert_account reverse_accounts
sorted_back = refl

kept_too_few : keep_only (10 ∷ 12 ∷ []) two_accounts ≡ err value_error
unfolding keep_only keep_accounts
kept_too_few = refl

picked_outside : reorder_accounts (0 ∷ 2 ∷ []) two_accounts ≡ err index_error
unfolding reorder_accounts pick
picked_outside = refl
