-- ===== src/Types/Trie/Extension.antt =====
-- The steps of `patricialize` in src/ethereum_test_types/trie.py: an extension node, and the
-- subnodes of a branch.
use execution_spec_tests.Base.{
  ℕ, zero, suc, ◌+◌, ◌<◌, ◌≡◌, refl, sym, ap, ap₂, ◌∙◌, subst, Option, some, List, [], ◌∷◌, ◌++◌,
  arith, take, drop, get_elem?, Result, ok,
}
use execution_spec_tests.Types.Trie.{
  Extended, InternalNode, extension, Mapping, branch_entries, encode_internal_node, subnodes_from,
  extension_node,
}
use execution_spec_tests.Types.Trie.Entries.{In, take-drop, drop-drop}
use execution_spec_tests.Types.Trie.Paths.{
  IsReady, IsConsistent, Finds, through_extension, Built, Calls, Shares,
}

module _ (rlp_encode : Extended → List ℕ) (keccak256 : List ℕ → List ℕ) where
  pub extension_lem :
      (fuel : ℕ) (call : ℕ → Mapping → Result (Option InternalNode)) (key : List ℕ) (level n : ℕ)
      (obj : Mapping)
      → Calls rlp_encode keccak256 fuel call
      → IsReady (suc fuel) level obj
      → IsConsistent level obj
      → Shares (suc n) level key obj
      → Built rlp_encode keccak256
          (extension_node rlp_encode keccak256
            (call (level + suc n))
            (take (suc n) (drop level key))
            obj)
          level
          obj
  unfolding extension_node
  extension_lem fuel call key level n obj calls ready same shares =
      let (o, q, finds) = calls (level + suc n) obj deeper apart in
      (node_of o, rw q refl, λ k v m. found o k v m (finds k v m))
    where
      node_of : Option InternalNode → Option InternalNode
      node_of o =
          some (
            extension (take (suc n) (drop level key)) (encode_internal_node rlp_encode keccak256 o))

      deeper : IsReady fuel (level + suc n) obj
      deeper k v m =
          let (nibbles, low, high) = ready k v m in
          let (_, reach) = shares k v m in (nibbles, reach, omega arith)

      split :
          (k v : List ℕ)
          → In k v obj
          → take (suc n) (drop level key) ++ drop (level + suc n) k ≡ drop level k
      split k v m =
          ap₂ (λ a b. a ++ b) (shares k v m).0 (sym (drop-drop level (suc n) k))
          ∙ take-drop (suc n) (drop level k)

      apart : IsConsistent (level + suc n) obj
      apart k v k' v' m m' e =
          same k v k' v' m m'
            (sym (split k v m) ∙ ap (λ a. take (suc n) (drop level key) ++ a) e ∙ split k' v' m')

      found :
          (o : Option InternalNode) (k v : List ℕ)
          → In k v obj
          → ((node : InternalNode) × (o ≡ some node)
              × Finds rlp_encode keccak256 node (drop (level + suc n) k) v)
          → (node : InternalNode) × (node_of o ≡ some node)
            × Finds rlp_encode keccak256 node (drop level k) v
      found o k v m (node, p, f) =
          let pre = take (suc n) (drop level key) in
          let sub = encode_internal_node rlp_encode keccak256 (some node) in
          (
            extension pre sub,
            ap node_of p,
            subst (λ r. Finds rlp_encode keccak256 (extension pre sub) r v) (split k v m)
                (through_extension node f),
          )

  -- The subnodes are the encodings of what the calls on the branches return.
  pub subnodes_lem :
      (call : Mapping → Result (Option InternalNode)) (level k n : ℕ) (obj : Mapping)
      → ((j : ℕ) → (o : Option InternalNode) × (call (branch_entries j level obj) ≡ ok o))
      → (nodes : List Extended) × (subnodes_from rlp_encode keccak256 call level k n obj ≡ ok nodes)
        × ((i : ℕ) (o : Option InternalNode)
            → i < n
            → call (branch_entries (k + i) level obj) ≡ ok o
            → get_elem? nodes i ≡ some (encode_internal_node rlp_encode keccak256 o))
  unfolding subnodes_from
  subnodes_lem call level k zero obj returns = ([], refl, λ i o h. absurd (omega arith))
  subnodes_lem call level k (suc n) obj returns =
      let (o, q) = returns k in
      let (nodes, p, each) = subnodes_lem call level (k + 1) n obj returns in
      let first = encode_internal_node rlp_encode keccak256 o in
      (first ∷ nodes, rw (q, p) refl, λ i o' h e. at o q nodes each i o' h e)
    where
      same_node : (o o' : Option InternalNode) → ok o ≡ ok o' → o ≡ o'
      same_node o o' e = cc

      at :
          (o : Option InternalNode)
          → call (branch_entries k level obj) ≡ ok o
          → (nodes : List Extended)
          → ((i : ℕ) (o' : Option InternalNode)
              → i < n
              → call (branch_entries (k + 1 + i) level obj) ≡ ok o'
              → get_elem? nodes i ≡ some (encode_internal_node rlp_encode keccak256 o'))
          → (i : ℕ) (o' : Option InternalNode) → i < suc n
          → call (branch_entries (k + i) level obj) ≡ ok o'
          → get_elem? (encode_internal_node rlp_encode keccak256 o ∷ nodes) i
            ≡ some (encode_internal_node rlp_encode keccak256 o')
      at o q nodes each zero o' h e =
          let e' : call (branch_entries k level obj) ≡ ok o' =
            subst (λ x. call (branch_entries x level obj) ≡ ok o') (omega arith) e in
          ap (λ x. some (encode_internal_node rlp_encode keccak256 x)) (same_node o o' (sym q ∙ e'))
      at o q nodes each (suc i) o' h e =
          each i o' (omega arith)
            (subst (λ x. call (branch_entries x level obj) ≡ ok o') (omega arith) e)
