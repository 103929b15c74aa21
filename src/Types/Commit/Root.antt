-- ===== src/Types/Commit/Root.antt =====
-- Proofs on `root` in src/ethereum_test_types/trie.py.
use execution_spec_tests.Base.{
  ℕ, suc, ◌<◌, ◌≤◌, ◌≡◌, refl, subst, inl, inr, Bool, false, Option, some, List, [], ◌∷◌, arith,
  ltb, Bool-cases, if◌then◌else◌, All, length, Result, err, ok, ◌>>=◌,
}
use execution_spec_tests.Types.Trie.{
  Extended, bytes, InternalNode, Mapping, bytes_to_nibble_list, unencoded, encode_internal_node,
}
use execution_spec_tests.Types.Trie.Entries.{In}
use execution_spec_tests.Types.Trie.Paths.{Finds}
use execution_spec_tests.Types.Trie.Build.{patricialize_finds}
use execution_spec_tests.Types.Commit.{
  Node, Trie, put, longest, StorageRoots, encode_entry, non_empty, prepared_key, prepare_from,
  prepare_trie, root_bytes, root_of, root,
}
use execution_spec_tests.Types.Commit.Prepare.{IsEncodable, AreDistinct, IsHeld, prepare_from_lem}
use execution_spec_tests.Types.Commit.Entries.{
  IsUnique, put-In, put-IsUnique, unique_values, length-longest,
}

nibbles_lem : (bs : List ℕ) → All (λ x. x < 16) (bytes_to_nibble_list bs)
unfolding bytes_to_nibble_list
nibbles_lem [] = tt
nibbles_lem (b ∷ bs) = (omega arith, (omega arith, nibbles_lem bs))

-- A mapping with keys of nibbles and no key twice.
abbrev IsPrepared : Mapping → Type 0
IsPrepared obj = IsUnique obj × ((k v : List ℕ) → In k v obj → All (λ x. x < 16) k)

module _ (rlp_encode : Extended → List ℕ) (keccak256 : List ℕ → List ℕ) where
  prepare-IsPrepared :
      (secured : Bool) (roots : StorageRoots) (mapped : Mapping) (entries : List (List ℕ × Node))
      (obj : Mapping)
      → IsPrepared mapped
      → prepare_from rlp_encode keccak256 secured roots mapped entries ≡ ok obj
      → IsPrepared obj
  unfolding prepare_from prepared_key
  prepare-IsPrepared secured roots mapped [] obj (u, n) q = subst IsPrepared (same q) (u, n)
    where
      same : ok mapped ≡ ok obj → mapped ≡ obj
      same q = cc
  prepare-IsPrepared secured roots mapped ((preimage, value) ∷ entries) obj (u, n) q =
      encoded (encode_entry rlp_encode keccak256 roots preimage value) q
        λ v. prepare-IsPrepared secured roots (put key v mapped) entries obj (grown v)
    where
      key : List ℕ
      key = prepared_key rlp_encode keccak256 secured preimage

      grown : (v : List ℕ) → IsPrepared (put key v mapped)
      grown v = (
        put-IsUnique key v mapped u,
        λ k w m. elim (put-In key v mapped k w m) [
          | inl (p, _) ↦ rw p (nibbles_lem (if secured then keccak256 preimage else preimage))
          | inr m ↦ n k w m
        ],
      )

      rest : List ℕ → Result Mapping
      rest v = prepare_from rlp_encode keccak256 secured roots (put key v mapped) entries

      not_empty :
          (e : List ℕ)
          → (non_empty rlp_encode keccak256 e >>= rest) ≡ ok obj
          → ((v : List ℕ) → rest v ≡ ok obj → IsPrepared obj)
          → IsPrepared obj
      not_empty [] q go = cc
      not_empty (b ∷ bs) q go = go (b ∷ bs) q

      encoded :
          (r : Result (List ℕ))
          → (r >>= λ e. non_empty rlp_encode keccak256 e >>= rest) ≡ ok obj
          → ((v : List ℕ) → rest v ≡ ok obj → IsPrepared obj)
          → IsPrepared obj
      encoded (err e) q go = cc
      encoded (ok e) q go = not_empty e q go

  -- The root of a node: the hash of its encoding, whether the encoding is short or not.
  root_of_lem :
      ((b : List ℕ) → length (keccak256 b) ≡ 32)
      → ((b : List ℕ) → length b ≤ length (rlp_encode (bytes b)))
      → (o : Option InternalNode)
      → root_of rlp_encode keccak256 o ≡ ok (keccak256 (rlp_encode (unencoded o)))
  unfolding root_of encode_internal_node root_bytes
  root_of_lem hash_length rlp_length o =
      let hash = keccak256 (rlp_encode (unencoded o)) in
      elim (Bool-cases (ltb (length (rlp_encode (unencoded o))) 32)) [
        | inl e ↦ rw (e, e) refl
        | inr e ↦
            let long = long_lem (length (rlp_encode (bytes hash))) (
              subst (λ n. n ≤ length (rlp_encode (bytes hash)))
                (hash_length (rlp_encode (unencoded o))) (rlp_length hash)) in
            rw (e, long, hash_length (rlp_encode (unencoded o))) refl
      ]
    where
      long_lem : (n : ℕ) → 32 ≤ n → ltb n 32 ≡ false
      long_lem n h = ground arith

  -- The root of a trie whose entries are prepared as a mapping.
  root_of_prepared :
      ((b : List ℕ) → length (keccak256 b) ≡ 32)
      → ((b : List ℕ) → length b ≤ length (rlp_encode (bytes b)))
      → (t : Trie) (roots : StorageRoots) (obj : Mapping)
      → prepare_trie rlp_encode keccak256 t roots ≡ ok obj
      → (o : Option InternalNode) × (root rlp_encode keccak256 t roots
          ≡ ok (keccak256 (rlp_encode (unencoded o))))
        × ((key v : List ℕ)
            → In key v obj
            → (node : InternalNode) × (o ≡ some node) × Finds rlp_encode keccak256 node key v)
  unfolding root prepare_trie
  root_of_prepared hash_length rlp_length t roots obj q =
      let (u, nibbles) =
        prepare-IsPrepared t.secured roots [] t.entries obj (tt, λ k v m. absurd m) q in
      let (o, p, finds) =
        patricialize_finds rlp_encode keccak256 (suc (longest obj)) 0 obj
          (λ k v m. (nibbles k v m, omega arith, omega (arith, length-longest obj k v m)))
          (λ k v k' v' m m' e. unique_values obj k v k' v' u m m' e) in
      (o, rw (q, p) (root_of_lem hash_length rlp_length o), finds)

  -- Something that a path of nodes from the top node finds for an entry: the entry's encoding.
  abbrev pub IsCommitted : Bool → StorageRoots → Option InternalNode → List ℕ × Node → Type 0
  IsCommitted secured roots o e =
      (v : List ℕ) × (encode_entry rlp_encode keccak256 roots e.0 e.1 ≡ ok v)
      × ((node : InternalNode) × (o ≡ some node)
          × Finds rlp_encode keccak256 node (prepared_key rlp_encode keccak256 secured e.0) v)

  -- With a hash of 32 bytes and an RLP that never shortens bytes: the root of a trie whose entries
  -- have encodings that are not empty, under keys that are still different once they are prepared,
  -- returns. It is the hash of the RLP of a node, or of no node, from which a path of nodes leads
  -- along the prepared key of every entry to the entry's encoding.
  pub root_commits :
      ((b : List ℕ) → length (keccak256 b) ≡ 32)
      → ((b : List ℕ) → length b ≤ length (rlp_encode (bytes b)))
      → (t : Trie) (roots : StorageRoots) → All (IsEncodable rlp_encode keccak256 roots) t.entries
      → AreDistinct rlp_encode keccak256 t.secured t.entries
      → (o : Option InternalNode) × (root rlp_encode keccak256 t roots
          ≡ ok (keccak256 (rlp_encode (unencoded o))))
        × All (IsCommitted t.secured roots o) t.entries
  unfolding prepare_trie
  root_commits hash_length rlp_length t roots encodable distinct =
      let (obj, q, _, held) =
        prepare_from_lem rlp_encode keccak256 t.secured roots [] t.entries encodable distinct in
      let (o, p, finds) = root_of_prepared hash_length rlp_length t roots obj q in
      (o, p, committed o obj finds t.entries held)
    where
      committed :
          (o : Option InternalNode) (obj : Mapping)
          → ((key v : List ℕ)
              → In key v obj
              → (node : InternalNode) × (o ≡ some node) × Finds rlp_encode keccak256 node key v)
          → (entries : List (List ℕ × Node))
          → All (IsHeld rlp_encode keccak256 t.secured roots obj) entries
          → All (IsCommitted t.secured roots o) entries
      committed o obj finds [] held = tt
      committed o obj finds (e ∷ entries) ((v, q, m), held) = (
        (v, q, finds (prepared_key rlp_encode keccak256 t.secured e.0) v m),
        committed o obj finds entries held,
      )
