-- ===== src/Types/Commit/Examples.antt =====
-- Tests of tries and their roots in src/ethereum_test_types/trie.py, with a hash that counts and an
-- RLP without long forms.
use execution_spec_tests.Base.{
  All, ℕ, ◌+◌, ◌≤◌, ◌≡◌, refl, inl, inr, false, Option, none, List, [], ◌∷◌, ◌++◌, arith, length,
  replicate, err, ok, assertion_error,
}
use execution_spec_tests.Types.Trie.{
  Extended, bytes, uint, sequence, Items, nil, cons, InternalNode, Mapping, unencoded, patricialize,
  bytes_to_nibble_list,
}
use execution_spec_tests.Types.Trie.Paths.{IsReady, IsConsistent, Built}
use execution_spec_tests.Types.Trie.Build.{patricialize_finds}
use execution_spec_tests.Types.Commit.{
  nothing, u256, Trie, encode_entry, encode_node, prepared_key, prepare_from, prepare_trie, root,
}
use execution_spec_tests.Types.Commit.Entries.{IsUnique, unique_values}
use execution_spec_tests.Types.Commit.Prepare.{IsEncodable, AreDistinct}
use execution_spec_tests.Types.Commit.Root.{IsCommitted, root_commits}

abbrev mutual
  short_rlp : Extended → List ℕ
  short_rlp (bytes b) = (128 + length b) ∷ b
  short_rlp (uint n) = 129 ∷ n ∷ []
  short_rlp (sequence es) = 192 ∷ short_items es

  short_items : Items → List ℕ
  short_items nil = []
  short_items (cons e es) = short_rlp e ++ short_items es

abbrev counting_hash : List ℕ → List ℕ
counting_hash b = length b ∷ replicate 31 0

-- Two keys that share their first nibble.
abbrev two_keys : Mapping
two_keys = (1 ∷ 2 ∷ [], 10 ∷ []) ∷ (1 ∷ 3 ∷ [], 11 ∷ []) ∷ []

abbrev numbers : Trie
numbers = record {
  secured = false;
  default = u256 0;
  entries = (18 ∷ [], u256 10) ∷ (19 ∷ [], u256 11) ∷ [];
}

two_keys-IsUnique : IsUnique two_keys
two_keys-IsUnique = (λ w m. elim m [ inl (p, _) ↦ cc | inr n ↦ n ], ((λ w m. m), tt))

two_keys-IsReady : IsReady 3 0 two_keys
two_keys-IsReady key v (inl (p, _)) =
    rw p ((omega arith, (omega arith, tt)), omega arith, omega arith)
two_keys-IsReady key v (inr (inl (p, _))) =
    rw p ((omega arith, (omega arith, tt)), omega arith, omega arith)
two_keys-IsReady key v (inr (inr m)) = absurd m

two_keys-IsConsistent : IsConsistent 0 two_keys
two_keys-IsConsistent k v k' v' m m' e = unique_values two_keys k v k' v' two_keys-IsUnique m m' e

no_account :
    prepare_trie short_rlp counting_hash (record numbers { entries = (1 ∷ [], nothing) ∷ [] }) none
    ≡ err assertion_error
unfolding prepare_trie prepare_from encode_entry encode_node
no_account = refl

patricialize_finds_example :
    Built short_rlp counting_hash (patricialize short_rlp counting_hash 3 0 two_keys) 0 two_keys
patricialize_finds_example =
    patricialize_finds short_rlp counting_hash 3 0 two_keys two_keys-IsReady two_keys-IsConsistent

counting_hash-length : (b : List ℕ) → length (counting_hash b) ≡ 32
counting_hash-length b = refl

short_rlp-length : (b : List ℕ) → length b ≤ length (short_rlp (bytes b))
short_rlp-length b = omega arith

numbers-AreEncodable : All (IsEncodable short_rlp counting_hash none) numbers.entries
unfolding encode_entry encode_node
numbers-AreEncodable = ((129, 10 ∷ [], refl), ((129, 11 ∷ [], refl), tt))

numbers-AreDistinct : AreDistinct short_rlp counting_hash false numbers.entries
unfolding prepared_key bytes_to_nibble_list
numbers-AreDistinct = (((λ e. cc), tt), (tt, tt))

root_commits_example :
    (o : Option InternalNode) × (root short_rlp counting_hash numbers none
      ≡ ok (counting_hash (short_rlp (unencoded o))))
    × All (IsCommitted short_rlp counting_hash false none o) numbers.entries
root_commits_example =
    root_commits short_rlp counting_hash counting_hash-length short_rlp-length numbers none
      numbers-AreEncodable numbers-AreDistinct
