-- ===== src/Types/Trie/Build.antt =====
-- Proofs on `patricialize` as a whole in src/ethereum_test_types/trie.py.
use execution_spec_tests.Base.{
  ℕ, zero, suc, ◌+◌, ◌≤◌, refl, inl, inr, Option, none, some, List, [], ◌∷◌, arith, length, drop,
  Result,
}
use execution_spec_tests.Types.Trie.{
  Extended, InternalNode, leaf, Mapping, prefix_length_from, inner_node, patricialize,
}
use execution_spec_tests.Types.Trie.Entries.{common_prefix-take, length-drop, prefix_length_lem}
use execution_spec_tests.Types.Trie.Paths.{IsReady, IsConsistent, at_leaf, Built, Calls, Shares}
use execution_spec_tests.Types.Trie.Extension.{extension_lem}
use execution_spec_tests.Types.Trie.Branch.{branch_lem}

module _ (rlp_encode : Extended → List ℕ) (keccak256 : List ℕ → List ℕ) where
  inner_lem :
      (fuel : ℕ) (call : ℕ → Mapping → Result (Option InternalNode)) (key : List ℕ) (level n : ℕ)
      (obj : Mapping)
      → Calls rlp_encode keccak256 fuel call
      → IsReady (suc fuel) level obj
      → IsConsistent level obj
      → Shares n level key obj
      → Built rlp_encode keccak256 (inner_node rlp_encode keccak256 call key level n obj) level obj
  unfolding inner_node
  inner_lem fuel call key level zero obj calls ready same shares =
      branch_lem rlp_encode keccak256 fuel call level obj calls ready same
  inner_lem fuel call key level (suc n) obj calls ready same shares =
      extension_lem rlp_encode keccak256 fuel call key level n obj calls ready same shares

  prefix-Shares :
      (fuel level : ℕ) (key : List ℕ) (obj : Mapping)
      → IsReady fuel level obj
      → Shares
          (prefix_length_from (length (drop level key)) (drop level key) level obj)
          level
          key
          obj
  prefix-Shares fuel level key obj ready key' v m =
      let n = prefix_length_from (length (drop level key)) (drop level key) level obj in
      let (_, below) = prefix_length_lem (length (drop level key)) (drop level key) level obj in
      let (p, _, r) = common_prefix-take n (drop level key) (drop level key') (below key' v m) in
      let (_, low, _) = ready key' v m in (p, reach n key' r low)
    where
      reach :
          (n : ℕ) (key' : List ℕ)
          → n ≤ length (drop level key')
          → level ≤ length key'
          → level + n ≤ length key'
      reach n key' r low = omega (arith, length-drop level key')

  -- `patricialize` returns, with more fuel than the longest key has nibbles after the level, for
  -- a mapping whose keys are nibbles, reach the level and determine the value from there on; and a
  -- path of nodes leads from the node that it returns along every key to the key's value.
  pub patricialize_finds :
      (fuel level : ℕ) (obj : Mapping)
      → IsReady fuel level obj
      → IsConsistent level obj
      → Built rlp_encode keccak256 (patricialize rlp_encode keccak256 fuel level obj) level obj
  unfolding patricialize
  patricialize_finds fuel level [] ready same = (none, refl, λ k v m. absurd m)
  patricialize_finds fuel level ((key, value) ∷ []) ready same = (
    some (leaf (drop level key) value),
    refl,
    λ k v m. elim m [
      | inl (p, q) ↦ (leaf (drop level key) value, refl, rw (p, q) at_leaf)
      | inr m ↦ absurd m
    ],
  )
  patricialize_finds zero level ((key, value) ∷ e ∷ obj) ready same =
      let (_, low, high) = ready key value (inl (refl, refl)) in absurd (omega arith)
  patricialize_finds (suc fuel) level ((key, value) ∷ e ∷ obj) ready same =
      inner_lem fuel (patricialize rlp_encode keccak256 fuel) key level
        (prefix_length_from (length (drop level key)) (drop level key) level
          ((key, value) ∷ e ∷ obj))
        ((key, value) ∷ e ∷ obj) (patricialize_finds fuel) ready same
        (prefix-Shares (suc fuel) level key ((key, value) ∷ e ∷ obj) ready)
