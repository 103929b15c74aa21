-- ===== src/Types/Commit/Prepare.antt =====
-- Proofs on `_prepare_trie` in src/ethereum_test_types/trie.py.
use execution_spec_tests.Base.{
  ℕ, ◌≡◌, refl, sym, ◌∙◌, inl, inr, Bool, List, [], ◌∷◌, All, Bool-cases, same_bytes,
  same_bytes_iff, ok,
}
use execution_spec_tests.Types.Trie.{Extended, Mapping}
use execution_spec_tests.Types.Trie.Entries.{In}
use execution_spec_tests.Types.Commit.{
  Node, put, StorageRoots, encode_entry, prepared_key, prepare_from,
}

put-In_self : (k v : List ℕ) (obj : Mapping) → In k v (put k v obj)
put-In_self k v [] = inl (refl, refl)
put-In_self k v ((i, x) ∷ obj) = elim (Bool-cases (same_bytes i k)) [
  | inl e ↦ rw e (inl (sym ((same_bytes_iff i k).0 e), refl))
  | inr e ↦ rw e (inr (put-In_self k v obj))
]

put-In_other :
    (k v : List ℕ) (obj : Mapping) (j w : List ℕ) → (j ≡ k → ⊥) → In j w obj → In j w (put k v obj)
put-In_other k v [] j w apart m = absurd m
put-In_other k v ((i, x) ∷ obj) j w apart (inl (p, q)) = elim (Bool-cases (same_bytes i k)) [
  | inl e ↦ absurd (apart (p ∙ (same_bytes_iff i k).0 e))
  | inr e ↦ rw e (inl (p, q))
]
put-In_other k v ((i, x) ∷ obj) j w apart (inr m) = elim (Bool-cases (same_bytes i k)) [
  | inl e ↦ rw e (inr m)
  | inr e ↦ rw e (inr (put-In_other k v obj j w apart m))
]

module _ (rlp_encode : Extended → List ℕ) (keccak256 : List ℕ → List ℕ) where
  -- No entry of a list is prepared under the given key.
  abbrev pub IsFresh : Bool → List ℕ → List (List ℕ × Node) → Type 0
  IsFresh secured key entries =
      All (λ e. key ≡ prepared_key rlp_encode keccak256 secured e.0 → ⊥) entries

  -- No two entries are prepared under one key.
  abbrev pub AreDistinct : Bool → List (List ℕ × Node) → Type 0
  AreDistinct secured [] = Unit
  AreDistinct secured ((preimage, value) ∷ entries) =
      IsFresh secured (prepared_key rlp_encode keccak256 secured preimage) entries
      × AreDistinct secured entries

  -- An entry has an encoding, and it is not empty.
  abbrev pub IsEncodable : StorageRoots → List ℕ × Node → Type 0
  IsEncodable roots e =
      (b : ℕ) × (bs : List ℕ) × (encode_entry rlp_encode keccak256 roots e.0 e.1 ≡ ok (b ∷ bs))

  -- The encoding of an entry stands in a mapping under its prepared key.
  abbrev pub IsHeld : Bool → StorageRoots → Mapping → List ℕ × Node → Type 0
  IsHeld secured roots obj e =
      (v : List ℕ) × (encode_entry rlp_encode keccak256 roots e.0 e.1 ≡ ok v)
      × In (prepared_key rlp_encode keccak256 secured e.0) v obj

  -- Encodable entries under different keys are prepared, all of them, and what was there before
  -- under other keys stays.
  pub prepare_from_lem :
      (secured : Bool) (roots : StorageRoots) (mapped : Mapping) (entries : List (List ℕ × Node))
      → All (IsEncodable roots) entries
      → AreDistinct secured entries
      → (obj : Mapping) × (prepare_from rlp_encode keccak256 secured roots mapped entries ≡ ok obj)
        × ((k v : List ℕ) → In k v mapped → IsFresh secured k entries → In k v obj)
        × All (IsHeld secured roots obj) entries
  unfolding prepare_from
  prepare_from_lem secured roots mapped [] encodable distinct = (mapped, refl, (λ k v m f. m), tt)
  prepare_from_lem secured roots mapped ((preimage, value) ∷ entries) ((b, bs, q), encodable)
        (fresh, distinct) =
      let key = prepared_key rlp_encode keccak256 secured preimage in
      let grown = put key (b ∷ bs) mapped in
      let (obj, p, kept, held) = prepare_from_lem secured roots grown entries encodable distinct in
      (
        obj,
        rw (q, p) refl,
        (λ k v m (apart, f). kept k v (put-In_other key (b ∷ bs) mapped k v apart m) f),
        ((b ∷ bs, q, kept key (b ∷ bs) (put-In_self key (b ∷ bs) mapped) fresh), held),
      )
