-- ===== src/Types/AccessList/Examples.antt =====
-- Tests of the order of block access lists in src/ethereum_test_types/block_access_list/.
use execution_spec_tests.Base.{ℕ, ◌≡◌, refl, [], ◌∷◌, raised}
use execution_spec_tests.Types.AccessList.{
  AccountChange, BlockAccessList, addresses_unordered, check_ascending, insert, sorted, set_size,
  check_indices, validate_bal_ordering, nonces, duplicate_indices, indices_unordered,
}

abbrev pub account : ℕ → AccountChange
account a = record {
  address = a;
  nonce_changes = record { tx_index = 1; post_value = 7 } ∷ [];
  balance_changes =
      record { tx_index = 1; post_value = 90 } ∷ record { tx_index = 3; post_value = 80 } ∷ [];
  code_changes = [];
  storage_changes =
      record { slot = 2; slot_changes = record { tx_index = 1; post_value = 5 } ∷ [] }
      ∷ record {
        slot = 4;
        slot_changes =
            record { tx_index = 1; post_value = 6 } ∷ record { tx_index = 2; post_value = 9 } ∷ [];
      }
      ∷ [];
  storage_reads = 1 ∷ 3 ∷ [];
}

abbrev pub two_accounts : BlockAccessList
two_accounts = account 10 ∷ account 11 ∷ []

same_address : validate_bal_ordering (account 10 ∷ account 10 ∷ []) ≡ raised addresses_unordered
unfolding validate_bal_ordering check_ascending
same_address = refl

index_twice : check_indices nonces (1 ∷ 1 ∷ []) ≡ raised (duplicate_indices nonces)
unfolding check_indices sorted insert set_size
index_twice = refl

index_behind : check_indices nonces (2 ∷ 1 ∷ []) ≡ raised (indices_unordered nonces)
unfolding check_indices sorted insert
index_behind = refl
