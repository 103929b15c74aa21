-- ===== src/Types/Commit.antt =====
-- The entries of a trie and its root: the rest of src/ethereum_test_types/trie.py.
pub mod Entries
mod Prepare
pub mod Root
mod Examples
use execution_spec_tests.Base.{
  ℕ, suc, max, Bool, true, false, ◌&&◌, Option, none, some, List, [], ◌∷◌, ◌==◌, ltb, if◌then◌else◌,
  length, same_bytes, Result, err, ok, ◌>>=◌, ◌>>◌, guard, assertion_error, value_error,
}
use execution_spec_tests.Types.Trie.{
  Extended, bytes, uint, sequence, items_of, InternalNode, Mapping, bytes_to_nibble_list,
  encode_internal_node, patricialize,
}

-- What a trie holds: `account` is a FrontierAccount.
pub data Node : Type 0 where
  nothing : Node
  account : (nonce balance : ℕ) (code : List ℕ) → Node
  raw : List ℕ → Node
  uint_node u256 : ℕ → Node

abbrev pub same_node : Node → Node → Bool
same_node nothing nothing = true
same_node (account n b c) (account m d e) = n == m && b == d && same_bytes c e
same_node (raw b) (raw c) = same_bytes b c
same_node (uint_node n) (uint_node m) = n == m
same_node (u256 n) (u256 m) = n == m
same_node _ _ = false

module _ {ℓ} {V : Type ℓ} where
  abbrev pub find : List ℕ → List (List ℕ × V) → Option V
  find k [] = none
  find k ((j, v) ∷ d) = if same_bytes j k then some v else find k d

  abbrev pub put : List ℕ → V → List (List ℕ × V) → List (List ℕ × V)
  put k v [] = (k, v) ∷ []
  put k v ((j, w) ∷ d) = if same_bytes j k then (j, v) ∷ d else (j, w) ∷ put k v d

  abbrev pub remove : List ℕ → List (List ℕ × V) → List (List ℕ × V)
  remove k [] = []
  remove k ((j, w) ∷ d) = if same_bytes j k then remove k d else (j, w) ∷ remove k d

pub record Trie : Type 0 where
  pub secured : Bool
  pub default : Node
  pub entries : List (List ℕ × Node)

unfoldable pub trie_set : Trie → List ℕ → Node → Trie
trie_set t key value =
    if same_node value t.default
    then record t { entries = remove key t.entries }
    else record t { entries = put key value t.entries }

abbrev pub get_or : Node → Option Node → Node
get_or default none = default
get_or default (some v) = v

unfoldable pub trie_get : Trie → List ℕ → Node
trie_get t key = get_or t.default (find key t.entries)

-- The fuel of `patricialize` for a mapping.
abbrev pub longest : Mapping → ℕ
longest [] = 0
longest ((key, v) ∷ obj) = max (length key) (longest obj)

-- A storage root, where there is a function that gives one.
abbrev pub StorageRoots : Type 0
StorageRoots = Option (List ℕ → Result (List ℕ))

module _ (rlp_encode : Extended → List ℕ) (keccak256 : List ℕ → List ℕ) where
  unfoldable pub encode_account : (nonce balance : ℕ) (code storage_root : List ℕ) → List ℕ
  encode_account nonce balance code storage_root = rlp_encode (
      sequence
        (items_of (uint nonce ∷ uint balance ∷ bytes storage_root ∷ bytes (keccak256 code) ∷ [])))

  unfoldable pub encode_node : Node → Option (List ℕ) → Result (List ℕ)
  encode_node nothing storage_root = err assertion_error
  encode_node (account nonce balance code) none = err assertion_error
  encode_node (account nonce balance code) (some storage_root) =
      ok (encode_account nonce balance code storage_root)
  encode_node (raw b) storage_root = ok b
  encode_node (uint_node n) storage_root = err assertion_error
  encode_node (u256 n) storage_root = ok (rlp_encode (uint n))

  -- The encoded value of an entry, for `_prepare_trie`.
  unfoldable pub encode_entry : StorageRoots → List ℕ → Node → Result (List ℕ)
  encode_entry none preimage (account nonce balance code) = err assertion_error
  encode_entry (some roots) preimage (account nonce balance code) =
      guard (length preimage == 20) value_error
      >> (roots preimage >>= λ r. encode_node (account nonce balance code) (some r))
  encode_entry roots preimage nothing = encode_node nothing none
  encode_entry roots preimage (raw b) = encode_node (raw b) none
  encode_entry roots preimage (uint_node n) = encode_node (uint_node n) none
  encode_entry roots preimage (u256 n) = encode_node (u256 n) none

  abbrev pub non_empty : List ℕ → Result (List ℕ)
  non_empty [] = err assertion_error
  non_empty (b ∷ bs) = ok (b ∷ bs)

  unfoldable pub prepared_key : Bool → List ℕ → List ℕ
  prepared_key secured preimage =
      bytes_to_nibble_list (if secured then keccak256 preimage else preimage)

  unfoldable pub prepare_from :
      Bool → StorageRoots → Mapping → List (List ℕ × Node) → Result Mapping
  prepare_from secured roots mapped [] = ok mapped
  prepare_from secured roots mapped ((preimage, value) ∷ entries) =
      encode_entry roots preimage value >>= λ encoded. non_empty encoded >>= λ encoded.
      prepare_from secured roots (put (prepared_key secured preimage) encoded mapped) entries

  unfoldable pub prepare_trie : Trie → StorageRoots → Result Mapping
  prepare_trie t roots = prepare_from t.secured roots [] t.entries

  -- `Bytes32(root_node)`, after the assertion that it is bytes.
  unfoldable pub root_bytes : Extended → Result (List ℕ)
  root_bytes (bytes b) = if length b == 32 then ok b else err value_error
  root_bytes (uint n) = err assertion_error
  root_bytes (sequence es) = err assertion_error

  unfoldable pub root_of : Option InternalNode → Result (List ℕ)
  root_of node =
      if ltb (length (rlp_encode (encode_internal_node rlp_encode keccak256 node))) 32
      then ok (keccak256 (rlp_encode (encode_internal_node rlp_encode keccak256 node)))
      else root_bytes (encode_internal_node rlp_encode keccak256 node)

  unfoldable pub root : Trie → StorageRoots → Result (List ℕ)
  root t roots = prepare_trie t roots >>= λ obj.
      patricialize rlp_encode keccak256 (suc (longest obj)) 0 obj >>= λ node. root_of node
