-- ===== src/Types/Trie/Paths.antt =====
-- Paths through the nodes of the trie in src/ethereum_test_types/trie.py, and what the recursion
-- that builds the nodes relies on.
use execution_spec_tests.Base.{
  ℕ, ◌+◌, ◌<◌, ◌≤◌, ◌≡◌, Option, some, List, [], ◌∷◌, ◌++◌, All, length, take, drop, get_elem?,
  Result, ok,
}
use execution_spec_tests.Types.Trie.{
  Extended, InternalNode, leaf, extension, branch, Mapping, encode_internal_node,
}
use execution_spec_tests.Types.Trie.Entries.{In}

-- What the recursion relies on: keys of nibbles, that reach the level and not beyond the fuel, and
-- that determine the value from there on.
abbrev pub IsReady : (fuel level : ℕ) → Mapping → Type 0
IsReady fuel level obj =
    (key v : List ℕ)
    → In key v obj
    → All (λ x. x < 16) key × (level ≤ length key) × (length key < level + fuel)

abbrev pub IsConsistent : ℕ → Mapping → Type 0
IsConsistent level obj =
    (key v key' v' : List ℕ)
    → In key v obj
    → In key' v' obj
    → drop level key ≡ drop level key'
    → v ≡ v'

-- The keys share a prefix of n nibbles from the level on.
abbrev pub Shares : ℕ → ℕ → List ℕ → Mapping → Type 0
Shares n level key obj =
    (key' v : List ℕ)
    → In key' v obj
    → (take n (drop level key) ≡ take n (drop level key')) × (level + n ≤ length key')

module _ (rlp_encode : Extended → List ℕ) (keccak256 : List ℕ → List ℕ) where
  -- A path of nodes that leads from a node along a key to a value, where each node is referred to
  -- by its encoding.
  pub data Finds : InternalNode → List ℕ → List ℕ → Type 0 where
    at_leaf : {rest v : List ℕ} → Finds (leaf rest v) rest v
    at_branch : {nodes : List Extended} {v : List ℕ} → Finds (branch nodes v) [] v
    through_extension :
        {segment rest v : List ℕ} (node : InternalNode)
        → Finds node rest v
        → Finds
            (extension segment (encode_internal_node rlp_encode keccak256 (some node)))
            (segment ++ rest)
            v
    through_branch :
        {nodes : List Extended} {w rest v : List ℕ} {k : ℕ} (node : InternalNode)
        → get_elem? nodes k ≡ some (encode_internal_node rlp_encode keccak256 (some node))
        → Finds node rest v
        → Finds (branch nodes w) (k ∷ rest) v

  -- A call returns, and the node that it returns leads to every entry.
  abbrev pub Built : Result (Option InternalNode) → ℕ → Mapping → Type 0
  Built r level obj =
      (o : Option InternalNode) × (r ≡ ok o)
      × ((key v : List ℕ)
          → In key v obj
          → (node : InternalNode) × (o ≡ some node) × Finds node (drop level key) v)

  -- What a call does for every mapping that is ready for its fuel.
  abbrev pub Calls : ℕ → (ℕ → Mapping → Result (Option InternalNode)) → Type 0
  Calls fuel call =
      (level : ℕ) (obj : Mapping)
      → IsReady fuel level obj
      → IsConsistent level obj
      → Built (call level obj) level obj
