-- ===== src/Types/State.antt =====
-- The state of src/ethereum_test_types/account_types.py, from which an allocation's state root is
-- computed.
pub mod Slots
mod Build
mod Examples
use execution_spec_tests.Base.{
  ℕ, zero, suc, ◌/◌, ◌%◌, ◌^◌, Bool, true, false, Option, none, some, List, [], ◌∷◌, ◌==◌,
  if◌then◌else◌, Dict, Result, err, ok, ◌>>=◌, guard, ltb, ◌>>◌, assertion_error, overflow_error,
}
use execution_spec_tests.BaseTypes.Account.{Account, nonce, balance, code, storage}
use execution_spec_tests.Types.Alloc.{Alloc}
use execution_spec_tests.Types.Trie.{Extended}
use execution_spec_tests.Types.Commit.{
  Node, nothing, account, raw, uint_node, u256, find, put, remove, Trie, trie_set, trie_get,
  StorageRoots, root,
}

pub record State : Type 0 where
  pub main_trie : Trie
  pub storage_tries : List (List ℕ × Trie)
  -- How many snapshots there are.
  pub snapshots : ℕ

unfoldable pub empty_state : State
empty_state = record {
  main_trie = record { secured = true; default = nothing; entries = [] };
  storage_tries = [];
  snapshots = 0;
}

abbrev pub empty_storage : Trie
empty_storage = record { secured = true; default = u256 0; entries = [] }

-- The account is `nothing` to delete it.
unfoldable pub set_account : State → List ℕ → Node → State
set_account s address value = record s { main_trie = trie_set s.main_trie address value }

abbrev pub is_account : Node → Bool
is_account nothing = false
is_account (account n b c) = true
is_account (raw b) = true
is_account (uint_node n) = true
is_account (u256 n) = true

abbrev pub storage_trie : Option Trie → Trie
storage_trie none = empty_storage
storage_trie (some t) = t

-- A storage trie without entries is not kept.
abbrev pub keep_trie {ℓ} :
    {A : Type ℓ} → List A → List ℕ → Trie → List (List ℕ × Trie) → List (List ℕ × Trie)
keep_trie [] address t tries = remove address tries
keep_trie (e ∷ es) address t tries = put address t tries

-- The storage trie of an address with a slot set.
unfoldable pub changed_trie : State → List ℕ → List ℕ → ℕ → Trie
changed_trie s address key value =
    trie_set (storage_trie (find address s.storage_tries)) key (u256 value)

unfoldable pub set_storage : State → List ℕ → List ℕ → ℕ → Result State
set_storage s address key value =
    guard (is_account (trie_get s.main_trie address)) assertion_error
    >> ok (record s {
      storage_tries =
          keep_trie (changed_trie s address key value).entries address
            (changed_trie s address key value) s.storage_tries;
    })

-- The root of a trie without entries.
abbrev pub empty_trie_root : List ℕ
empty_trie_root =
    86 ∷ 232 ∷ 31 ∷ 23 ∷ 27 ∷ 204 ∷ 85 ∷ 166 ∷ 255 ∷ 131 ∷ 69 ∷ 230 ∷ 146 ∷ 192 ∷ 248 ∷ 110 ∷ 91
    ∷ 72 ∷ 224 ∷ 27 ∷ 153 ∷ 108 ∷ 173 ∷ 192 ∷ 1 ∷ 98 ∷ 47 ∷ 181 ∷ 227 ∷ 99 ∷ 180 ∷ 33 ∷ []

-- Big-endian bytes.
abbrev pub to_bytes : ℕ → ℕ → List ℕ
to_bytes zero x = []
to_bytes (suc n) x = (x / 256 ^ n) % 256 ∷ to_bytes n x

-- The loop over the storage of an account.
unfoldable pub add_storage : State → List ℕ → Dict ℕ → Result State
add_storage s address [] = ok s
add_storage s address ((key, value) ∷ slots) =
    set_storage s address (to_bytes 32 key) value >>= λ s. add_storage s address slots

-- The account that is set for an entry: `U256` refuses a balance that does not fit a word.
unfoldable pub add_account : State → List ℕ → Account → Result State
add_account s address a =
    guard (ltb (balance a) (2 ^ 256)) overflow_error
    >> add_storage (set_account s address (account (nonce a) (balance a) (code a))) address
        (storage a).root

-- The loop of `Alloc.state_root`.
unfoldable pub add_accounts : State → Alloc → Result State
add_accounts s [] = ok s
add_accounts s ((address, none) ∷ alloc) = add_accounts s alloc
add_accounts s ((address, some a) ∷ alloc) =
    add_account s (to_bytes 20 address) a >>= λ s. add_accounts s alloc

module _ (rlp_encode : Extended → List ℕ) (keccak256 : List ℕ → List ℕ) where
  unfoldable pub storage_root : State → List ℕ → Result (List ℕ)
  storage_root s address =
      guard (s.snapshots == 0) assertion_error >> (elim (find address s.storage_tries) [
        | none ↦ ok empty_trie_root
        | some t ↦ root rlp_encode keccak256 t none
      ])

  unfoldable pub state_root : State → Result (List ℕ)
  state_root s =
      guard (s.snapshots == 0) assertion_error
      >> root rlp_encode keccak256 s.main_trie (some (storage_root s))

  -- `Alloc.state_root`
  unfoldable pub alloc_state_root : Alloc → Result (List ℕ)
  alloc_state_root alloc = add_accounts empty_state alloc >>= λ s. state_root s
