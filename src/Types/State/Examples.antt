-- ===== src/Types/State/Examples.antt =====
-- Tests of the state of accounts and storage tries in src/ethereum_test_types/account_types.py.
use execution_spec_tests.Base.{
  ℕ, ◌^◌, ◌≡◌, refl, true, false, some, List, [], ◌∷◌, if◌then◌else◌, same_bytes, err, ok,
  assertion_error, overflow_error,
}
use execution_spec_tests.BaseTypes.Storage.{storage_of}
use execution_spec_tests.BaseTypes.Account.{with_code}
use execution_spec_tests.Types.Alloc.{Alloc}
use execution_spec_tests.Types.Trie.{Extended}
use execution_spec_tests.Types.Commit.{account, u256, trie_get, root}
use execution_spec_tests.Types.State.{
  State, empty_state, set_account, is_account, set_storage, to_bytes, add_account, add_accounts,
  storage_root, alloc_state_root,
}
use execution_spec_tests.Types.State.Slots.{IsTidy, storage_at, set_storage_lem}
use execution_spec_tests.Types.State.Build.{balances_fit, alloc_state_root_lem}

abbrev one_account : State
one_account = set_account empty_state (7 ∷ []) (account 1 0 [])

no_account : set_storage empty_state (7 ∷ []) (1 ∷ []) 5 ≡ err assertion_error
unfolding set_storage empty_state trie_get
no_account = refl

number_bytes : to_bytes 3 258 ≡ 0 ∷ 1 ∷ 2 ∷ []
number_bytes = refl

set_storage_lem_example :
    (is_account (trie_get one_account.main_trie (7 ∷ [])) ≡ true
      → (s' : State) × (set_storage one_account (7 ∷ []) (1 ∷ []) 5 ≡ ok s')
        × IsTidy s'
        × (s'.main_trie ≡ one_account.main_trie)
        × (s'.snapshots ≡ one_account.snapshots)
        × ((b j : List ℕ)
            → storage_at s' b j ≡ (
                if same_bytes (7 ∷ []) b
                then if same_bytes (1 ∷ []) j then u256 5 else storage_at one_account (7 ∷ []) j
                else storage_at one_account b j)))
    × (is_account (trie_get one_account.main_trie (7 ∷ [])) ≡ false
        → set_storage one_account (7 ∷ []) (1 ∷ []) 5 ≡ err assertion_error)
unfolding set_account empty_state
set_storage_lem_example = set_storage_lem one_account (7 ∷ []) (1 ∷ []) 5 tt

abbrev one_contract : Alloc
one_contract =
    (7, some (record (with_code (0 ∷ [])) { storage_set = some (storage_of ((1, 5) ∷ [])) })) ∷ []

abbrev no_rlp : Extended → List ℕ
no_rlp e = []

alloc_state_root_lem_example :
    (balances_fit one_contract ≡ true
      → (s : State) × (add_accounts empty_state one_contract ≡ ok s)
        × IsTidy s
        × (alloc_state_root no_rlp (λ b. b) one_contract
            ≡ root no_rlp (λ b. b) s.main_trie (some (storage_root no_rlp (λ b. b) s))))
    × (balances_fit one_contract ≡ false
        → alloc_state_root no_rlp (λ b. b) one_contract ≡ err overflow_error)
alloc_state_root_lem_example = alloc_state_root_lem no_rlp (λ b. b) one_contract

one_contract_fits : balances_fit one_contract ≡ true
unfolding balances_fit with_code
one_contract_fits = refl

-- A balance of 2^256.
too_rich :
    alloc_state_root no_rlp
      (λ b. b)
      ((7, some (record (with_code []) { balance_set = some (2 ^ 256) })) ∷ [])
    ≡ err overflow_error
unfolding alloc_state_root add_accounts add_account
too_rich = refl
