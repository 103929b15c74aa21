-- ===== src/Types/Trie/Examples.antt =====
-- Tests of the helpers of the trie in src/ethereum_test_types/trie.py.
use execution_spec_tests.Base.{◌≡◌, refl, true, false, some, [], ◌∷◌, arith}
use execution_spec_tests.Types.Trie.{
  common_prefix_length, pair_up, nibble_list_to_compact, bytes_to_nibble_list,
}
use execution_spec_tests.Types.Trie.Compact.{read_compact, compact_round_trip}

common_three : common_prefix_length (1 ∷ 2 ∷ 3 ∷ []) (1 ∷ 2 ∷ 3 ∷ 4 ∷ []) ≡ 3
unfolding common_prefix_length
common_three = refl

odd_leaf : nibble_list_to_compact (15 ∷ 1 ∷ 12 ∷ []) true ≡ 63 ∷ 28 ∷ []
unfolding nibble_list_to_compact pair_up
odd_leaf = refl

even_extension : nibble_list_to_compact (0 ∷ 1 ∷ []) false ≡ 0 ∷ 1 ∷ []
unfolding nibble_list_to_compact pair_up
even_extension = refl

two_nibbles : bytes_to_nibble_list (171 ∷ []) ≡ 10 ∷ 11 ∷ []
unfolding bytes_to_nibble_list
two_nibbles = refl

compact_round_trip_example :
    read_compact (nibble_list_to_compact (15 ∷ 1 ∷ 12 ∷ []) true) ≡ some (15 ∷ 1 ∷ 12 ∷ [], true)
compact_round_trip_example =
    compact_round_trip (15 ∷ 1 ∷ 12 ∷ []) true (omega arith, (omega arith, (omega arith, tt)))
