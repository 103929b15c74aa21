-- ===== src/Types/State/Build.antt =====
-- Proofs on `Alloc.state_root` in src/ethereum_test_types/account_types.py.
use execution_spec_tests.Base.{
  ℕ, ◌^◌, ◌≡◌, refl, ap, ◌∙◌, inl, inr, Bool, true, false, ◌&&◌, Bool-cases, none, some, List, [],
  ◌∷◌, Dict, same_bytes_iff, Result, ok, err, overflow_error, ltb, and_true,
}
use execution_spec_tests.BaseTypes.Account.{Account, nonce, balance, code, storage}
use execution_spec_tests.Types.Alloc.{Alloc}
use execution_spec_tests.Types.Trie.{Extended}
use execution_spec_tests.Types.Commit.{account, trie_get, root}
use execution_spec_tests.Types.Commit.Entries.{trie_get-set}
use execution_spec_tests.Types.State.{
  State, empty_state, set_account, is_account, to_bytes, add_storage, add_account, add_accounts,
  storage_root, state_root, alloc_state_root,
}
use execution_spec_tests.Types.State.Slots.{IsTidy, set_storage_lem}

-- A call returns a state that keeps no empty storage trie and has no snapshots.
abbrev pub Gives : Result State → Type 0
Gives r = (s : State) × (r ≡ ok s) × IsTidy s × (s.snapshots ≡ 0)

add_storage-Gives :
    (s : State) (a : List ℕ) (slots : Dict ℕ)
    → IsTidy s
    → s.snapshots ≡ 0
    → is_account (trie_get s.main_trie a) ≡ true
    → Gives (add_storage s a slots)
unfolding add_storage
add_storage-Gives s a [] tidy z there = (s, refl, tidy, z)
add_storage-Gives s a ((key, value) ∷ slots) tidy z there =
    let (s', q, tidy', same, shots, _) =
      (set_storage_lem s a (to_bytes 32 key) value tidy).0 there in
    rw q (
      add_storage-Gives s' a slots tidy' (shots ∙ z)
        (ap (λ t. is_account (trie_get t a)) same ∙ there))

-- The balance of every account fits a word.
unfoldable pub balances_fit : Alloc → Bool
balances_fit [] = true
balances_fit ((address, none) ∷ alloc) = balances_fit alloc
balances_fit ((address, some e) ∷ alloc) = ltb (balance e) (2 ^ 256) && balances_fit alloc

add_account-Gives :
    (s : State) (a : List ℕ) (e : Account)
    → IsTidy s
    → s.snapshots ≡ 0
    → ltb (balance e) (2 ^ 256) ≡ true
    → Gives (add_account s a e)
unfolding add_account set_account
add_account-Gives s a e tidy z fits = rw fits (
    add_storage-Gives (set_account s a (account (nonce e) (balance e) (code e))) a (storage e).root
      tidy z
      (ap is_account (trie_get-set s.main_trie a (account (nonce e) (balance e) (code e)) a)
        ∙ rw ((same_bytes_iff a a).1 refl) refl))

add_account_overflow :
    (s : State) (a : List ℕ) (e : Account)
    → ltb (balance e) (2 ^ 256) ≡ false
    → add_account s a e ≡ err overflow_error
unfolding add_account
add_account_overflow s a e large = rw large

add_accounts-Gives :
    (s : State) (alloc : Alloc)
    → IsTidy s
    → s.snapshots ≡ 0
    → balances_fit alloc ≡ true
    → Gives (add_accounts s alloc)
unfolding add_accounts balances_fit
add_accounts-Gives s [] tidy z fits = (s, refl, tidy, z)
add_accounts-Gives s ((address, none) ∷ alloc) tidy z fits = add_accounts-Gives s alloc tidy z fits
add_accounts-Gives s ((address, some e) ∷ alloc) tidy z fits =
    let (here, rest) = and_true _ (balances_fit alloc) fits in
    let (s', q, tidy', z') = add_account-Gives s (to_bytes 20 address) e tidy z here in
    rw q (add_accounts-Gives s' alloc tidy' z' rest)

add_accounts_overflow :
    (s : State) (alloc : Alloc)
    → IsTidy s
    → s.snapshots ≡ 0
    → balances_fit alloc ≡ false
    → add_accounts s alloc ≡ err overflow_error
unfolding add_accounts balances_fit
add_accounts_overflow s [] tidy z large = cc
add_accounts_overflow s ((address, none) ∷ alloc) tidy z large =
    add_accounts_overflow s alloc tidy z large
add_accounts_overflow s ((address, some e) ∷ alloc) tidy z large =
    elim (Bool-cases (ltb (balance e) (2 ^ 256))) [
      | inl here ↦
          let (s', q, tidy', z') = add_account-Gives s (to_bytes 20 address) e tidy z here in
          let rest : balances_fit alloc ≡ false = rw here at large in
          rw q (add_accounts_overflow s' alloc tidy' z' rest)
      | inr here ↦ rw (add_account_overflow s (to_bytes 20 address) e here)
    ]

-- `Alloc.state_root` makes a state of every allocation whose balances are below 2^256: no assertion of
-- `set_storage` fails, the state keeps no empty storage trie, and the result is the root of its
-- accounts with their storage roots. For every other allocation it raises OverflowError.
pub alloc_state_root_lem :
    (rlp_encode : Extended → List ℕ) (keccak256 : List ℕ → List ℕ) (alloc : Alloc)
    → (balances_fit alloc ≡ true
        → (s : State) × (add_accounts empty_state alloc ≡ ok s)
          × IsTidy s
          × (alloc_state_root rlp_encode keccak256 alloc
              ≡ root rlp_encode keccak256 s.main_trie (some (storage_root rlp_encode keccak256 s))))
      × (balances_fit alloc ≡ false
          → alloc_state_root rlp_encode keccak256 alloc ≡ err overflow_error)
unfolding alloc_state_root state_root empty_state
alloc_state_root_lem rlp_encode keccak256 alloc = (
  (λ fits.
      let (s, q, tidy, z) = add_accounts-Gives empty_state alloc tt refl fits in
      (s, q, tidy, rw (q, z) refl)),
  (λ large. rw (add_accounts_overflow empty_state alloc tt refl large)),
)
