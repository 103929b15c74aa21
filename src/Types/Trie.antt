-- ===== src/Types/Trie.antt =====
-- The Merkle Patricia trie of src/ethereum_test_types/trie.py. `rlp.encode` and `keccak256` are
-- third party: they are parameters of what uses them.
pub mod Compact
pub mod Entries
pub mod Paths
mod Extension
mod Branch
pub mod Build
mod Examples
use execution_spec_tests.Base.{
  ℕ, zero, suc, ◌+◌, ◌*◌, ◌/◌, ◌%◌, ◌<◌, min, max, Bool, true, false, Option, none, some, List, [],
  ◌∷◌, ◌++◌, ◌==◌, ltb, if◌then◌else◌, length, take, drop, get_elem?, Result, err, ok, ◌>>=◌, guard,
  ◌>>◌, assertion_error, index_error, out_of_fuel,
}

mutual
  -- What RLP encodes: bytes, a number, or a sequence of these.
  pub data Extended : Type 0 where
    bytes : List ℕ → Extended
    uint : ℕ → Extended
    sequence : Items → Extended

  pub data Items : Type 0 where
    nil : Items
    cons : Extended → Items → Items

pub data InternalNode : Type 0 where
  leaf : (rest_of_key value : List ℕ) → InternalNode
  extension : (key_segment : List ℕ) (subnode : Extended) → InternalNode
  branch : (subnodes : List Extended) (value : List ℕ) → InternalNode

-- The step of the loop at each index, as long as the sequences agree.
unfoldable pub common_prefix_length : List ℕ → List ℕ → ℕ
common_prefix_length [] b = 0
common_prefix_length (x ∷ a) [] = 0
common_prefix_length (x ∷ a) (y ∷ b) = if x == y then suc (common_prefix_length a b) else 0

-- Two nibbles make a byte; the length is even where this is called.
unfoldable pub pair_up : List ℕ → List ℕ
pair_up [] = []
pair_up (x ∷ []) = []
pair_up (x ∷ y ∷ xs) = (16 * x + y) ∷ pair_up xs

abbrev pub flag : Bool → ℕ
flag false = 0
flag true = 1

abbrev pub odd : List ℕ → Bool
odd [] = false
odd (x ∷ []) = true
odd (x ∷ y ∷ xs) = odd xs

abbrev pub compact_odd : List ℕ → Bool → List ℕ
compact_odd [] is_leaf = []
compact_odd (x ∷ xs) is_leaf = (16 * (2 * flag is_leaf + 1) + x) ∷ pair_up xs

unfoldable pub nibble_list_to_compact : List ℕ → Bool → List ℕ
nibble_list_to_compact xs is_leaf =
    if odd xs then compact_odd xs is_leaf else (16 * (2 * flag is_leaf)) ∷ pair_up xs

unfoldable pub bytes_to_nibble_list : List ℕ → List ℕ
bytes_to_nibble_list [] = []
bytes_to_nibble_list (b ∷ bs) = b / 16 % 16 ∷ b % 16 ∷ bytes_to_nibble_list bs

-- A mapping from nibble lists to encoded values, in insertion order.
abbrev pub Mapping : Type 0
Mapping = List (List ℕ × List ℕ)

-- The loop that searches the longest prefix, with its early end at zero.
unfoldable pub prefix_length_from : ℕ → List ℕ → ℕ → Mapping → ℕ
prefix_length_from n substring level [] = n
prefix_length_from n substring level ((key, _) ∷ obj) =
    if min n (common_prefix_length substring (drop level key)) == 0
    then 0
    else prefix_length_from (min n (common_prefix_length substring (drop level key))) substring
        level obj

-- The value of a branch: the last entry whose key ends here.
unfoldable pub branch_value_from : List ℕ → ℕ → Mapping → List ℕ
branch_value_from value level [] = value
branch_value_from value level ((key, v) ∷ obj) =
    branch_value_from (if length key == level then v else value) level obj

-- The entries that go to the k-th branch.
unfoldable pub branch_entries : ℕ → ℕ → Mapping → Mapping
branch_entries k level [] = []
branch_entries k level ((key, v) ∷ obj) = elim (get_elem? key level) [
  | none ↦ branch_entries k level obj
  | some j ↦ if j == k then (key, v) ∷ branch_entries k level obj else branch_entries k level obj
]

-- There are 16 branches, and `branches[16]` raises IndexError, as does the nibble of a key that ends
-- before the level.
unfoldable pub has_branches : ℕ → Mapping → Bool
has_branches level [] = true
has_branches level ((key, v) ∷ obj) = elim (get_elem? key level) [
  | none ↦ if length key == level then has_branches level obj else false
  | some j ↦ if ltb j 16 then has_branches level obj else false
]

abbrev pub items_of : List Extended → Items
items_of [] = nil
items_of (e ∷ es) = cons e (items_of es)

abbrev pub pair : Extended → Extended → Extended
pair a b = sequence (cons a (cons b nil))

unfoldable pub unencoded : Option InternalNode → Extended
unencoded none = bytes []
unencoded (some (leaf rest_of_key value)) =
    pair (bytes (nibble_list_to_compact rest_of_key true)) (bytes value)
unencoded (some (extension key_segment subnode)) =
    pair (bytes (nibble_list_to_compact key_segment false)) subnode
unencoded (some (branch subnodes value)) = sequence (items_of (subnodes ++ bytes value ∷ []))

module _ (rlp_encode : Extended → List ℕ) (keccak256 : List ℕ → List ℕ) where
  unfoldable pub encode_internal_node : Option InternalNode → Extended
  encode_internal_node node =
      if ltb (length (rlp_encode (unencoded node))) 32
      then unencoded node
      else bytes (keccak256 (rlp_encode (unencoded node)))

  -- The subnodes of a branch from the k-th on, with the recursive call as an argument.
  unfoldable pub subnodes_from :
      (Mapping → Result (Option InternalNode)) → ℕ → (k n : ℕ) → Mapping → Result (List Extended)
  subnodes_from call level k zero obj = ok []
  subnodes_from call level k (suc n) obj = call (branch_entries k level obj) >>= λ node.
      subnodes_from call level (k + 1) n obj >>= λ nodes. ok (encode_internal_node node ∷ nodes)

  unfoldable pub branch_node :
      (Mapping → Result (Option InternalNode)) → ℕ → Mapping → Result (Option InternalNode)
  branch_node call level obj =
      guard (has_branches level obj) index_error
      >> (subnodes_from call level 0 16 obj >>= λ nodes.
          ok (some (branch nodes (branch_value_from [] level obj))))

  unfoldable pub extension_node :
      (Mapping → Result (Option InternalNode)) → List ℕ → Mapping → Result (Option InternalNode)
  extension_node call prefix obj =
      call obj >>= λ node. ok (some (extension prefix (encode_internal_node node)))

  -- `patricialize` on at least two entries, of which the first has the given key.
  unfoldable pub inner_node :
      (ℕ → Mapping → Result (Option InternalNode))
      → List ℕ
      → ℕ
      → ℕ
      → Mapping
      → Result (Option InternalNode)
  inner_node call key level zero obj = branch_node (call (level + 1)) level obj
  inner_node call key level (suc n) obj =
      extension_node (call (level + suc n)) (take (suc n) (drop level key)) obj

  unfoldable pub patricialize : ℕ → ℕ → Mapping → Result (Option InternalNode)
  patricialize fuel level [] = ok none
  patricialize fuel level ((key, value) ∷ []) = ok (some (leaf (drop level key) value))
  patricialize zero level ((key, value) ∷ e ∷ obj) = err out_of_fuel
  patricialize (suc fuel) level ((key, value) ∷ e ∷ obj) =
      inner_node (patricialize fuel) key level
        (prefix_length_from (length (drop level key)) (drop level key) level
          ((key, value) ∷ e ∷ obj))
        ((key, value) ∷ e ∷ obj)
