-- ===== src/Types/Trie/Branch.antt =====
-- The step of `patricialize` in src/ethereum_test_types/trie.py that makes a branch node.
use execution_spec_tests.Base.{
  ℕ, suc, ◌+◌, ◌<◌, ◌≡◌, refl, sym, ap, ◌∙◌, subst, inr, Option, none, some, List, [], ◌∷◌, arith,
  length, drop, get_elem?, Result, ok,
}
use execution_spec_tests.Types.Trie.{
  Extended, InternalNode, branch, Mapping, branch_value_from, branch_entries, encode_internal_node,
  branch_node,
}
use execution_spec_tests.Types.Trie.Entries.{
  In, length-drop, get_elem?-drop, get_elem?-none, All-get_elem?, branch_entries-In,
  has_branches_lem, branch_value_lem,
}
use execution_spec_tests.Types.Trie.Paths.{
  IsReady, IsConsistent, Finds, at_branch, through_branch, Built, Calls,
}
use execution_spec_tests.Types.Trie.Extension.{subnodes_lem}

module _ (rlp_encode : Extended → List ℕ) (keccak256 : List ℕ → List ℕ) where
  -- The mapping of a branch is ready for the level that follows.
  branch_entries-IsReady :
      (fuel level k : ℕ) (obj : Mapping)
      → IsReady (suc fuel) level obj
      → IsConsistent level obj
      → IsReady fuel (level + 1) (branch_entries k level obj)
        × IsConsistent (level + 1) (branch_entries k level obj)
  branch_entries-IsReady fuel level k obj ready same = (deeper, apart)
    where
      deeper : IsReady fuel (level + 1) (branch_entries k level obj)
      deeper key v m =
          let (m', h) = (branch_entries-In k level obj key v).0 m in
          let (nibbles, low, high) = ready key v m' in
          let (_, reach) = get_elem?-drop level key k h in (nibbles, omega arith, omega arith)

      apart : IsConsistent (level + 1) (branch_entries k level obj)
      apart key v key' v' m m' e =
          let (n, h) = (branch_entries-In k level obj key v).0 m in
          let (n', h') = (branch_entries-In k level obj key' v').0 m' in
          let (p, _) = get_elem?-drop level key k h in
          let (p', _) = get_elem?-drop level key' k h' in
          same key v key' v' n n' (p ∙ ap (λ a. k ∷ a) e ∙ sym p')

  pub branch_lem :
      (fuel : ℕ) (call : ℕ → Mapping → Result (Option InternalNode)) (level : ℕ) (obj : Mapping)
      → Calls rlp_encode keccak256 fuel call
      → IsReady (suc fuel) level obj
      → IsConsistent level obj
      → Built rlp_encode keccak256
          (branch_node rlp_encode keccak256 (call (level + 1)) level obj)
          level
          obj
  unfolding branch_node
  branch_lem fuel call level obj calls ready same =
      let (nodes, q, each) =
        subnodes_lem rlp_encode keccak256 (call (level + 1)) level 0 16 obj
          λ j. ((built j).0, (built j).1) in
      let value = branch_value_from [] level obj in
      let known = has_branches_lem level obj λ k v m. ((ready k v m).0, (ready k v m).1) in
      (
        some (branch nodes value),
        rw (known, q) refl,
        λ k v m. (branch nodes value, refl, at nodes each k v m (get_elem? k level) refl),
      )
    where
      built :
          (j : ℕ)
          → Built rlp_encode keccak256
              (call (level + 1) (branch_entries j level obj))
              (level + 1)
              (branch_entries j level obj)
      built j =
          let (r, s) = branch_entries-IsReady fuel level j obj ready same in
          calls (level + 1) (branch_entries j level obj) r s

      nil : (k : List ℕ) → length k ≡ level → drop level k ≡ []
      nil k e = empty_of (drop level k) (length-drop level k ∙ omega arith)
        where
          empty_of : (xs : List ℕ) → length xs ≡ 0 → xs ≡ []
          empty_of [] h = refl
          empty_of (x ∷ xs) h = absurd (omega arith)

      at :
          (nodes : List Extended)
          → ((i : ℕ) (o : Option InternalNode)
              → i < 16
              → call (level + 1) (branch_entries (0 + i) level obj) ≡ ok o
              → get_elem? nodes i ≡ some (encode_internal_node rlp_encode keccak256 o))
          → (k v : List ℕ) → In k v obj
          → (o : Option ℕ) → get_elem? k level ≡ o
          → Finds rlp_encode keccak256
              (branch nodes (branch_value_from [] level obj))
              (drop level k)
              v
      at nodes each k v m none e =
          let (_, low, _) = ready k v m in
          let len : length k ≡ level = omega (arith, get_elem?-none level k e) in
          let value =
            branch_value_lem [] level obj v
              (λ k' u m' e'. same k' u k v m' m (nil k' e' ∙ sym (nil k len))) (inr (k, m, len)) in
          rw (nil k len, value) at_branch
      at nodes each k v m (some j) e =
          let (nibbles, _, _) = ready k v m in
          let small = All-get_elem? (λ x. x < 16) k level j nibbles e in
          let (o, q, finds) = built j in
          let (node, p, f) = finds k v ((branch_entries-In j level obj k v).1 (m, e)) in
          let sub =
            each j o small
              (subst (λ x. call (level + 1) (branch_entries x level obj) ≡ ok o) (omega arith) q) in
          rw (get_elem?-drop level k j e).0 (
            through_branch node
              (sub ∙ ap (λ x. some (encode_internal_node rlp_encode keccak256 x)) p) f)
