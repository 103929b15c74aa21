-- ===== src/BaseTypes/Storage/Examples.antt =====
-- Tests of the class Storage in src/ethereum_test_base_types/composite_types.py on small storages.
use execution_spec_tests.Base.{
  ℕ, ◌≡◌, refl, ◌↔◌, true, some, [], ◌∷◌, passed, raised, ok, err, value_error,
}
use execution_spec_tests.Base.Int.{pos, negsuc, ◌+ℤ◌}
use execution_spec_tests.BaseTypes.Number.{fixed_size_with, fixed_size_number}
use execution_spec_tests.BaseTypes.Storage.{
  Storage, key_value_mismatch, missing_key, storage_of, is_true, set_expect_any, is_any,
  must_contain, must_contain_key, must_be_equal, must_equal_storage, mismatch, common_keys,
  other_keys, equal_common_key, equal_other_key, contains, contains_keys,
}
use execution_spec_tests.BaseTypes.Storage.Compare.{Agrees, other_or_empty, must_be_equal_iff}

-- Slot 1 holds 5, slot 2 holds 0.
abbrev two_slots : Storage
two_slots = storage_of ((1, 5) ∷ (2, 0) ∷ [])

abbrev one_slot : Storage
one_slot = storage_of ((1, 5) ∷ [])

abbrev other_slot : Storage
other_slot = storage_of ((1, 5) ∷ (7, 9) ∷ [])

missing_zero : must_be_equal two_slots 3 (some one_slot) ≡ passed
unfolding must_be_equal must_equal_storage equal_common_key equal_other_key common_keys other_keys
    storage_of
missing_zero = refl

found_more : must_be_equal one_slot 3 (some other_slot) ≡ raised (key_value_mismatch 3 7 0 9 "")
unfolding must_be_equal must_equal_storage equal_common_key equal_other_key common_keys other_keys
    storage_of mismatch is_any
found_more = refl

found_any : must_be_equal (set_expect_any 7 one_slot) 3 (some other_slot) ≡ passed
unfolding must_be_equal must_equal_storage equal_common_key equal_other_key common_keys other_keys
    storage_of mismatch is_any set_expect_any
found_any = refl

contained : contains two_slots one_slot ≡ true
unfolding contains contains_keys storage_of
contained = refl

not_contained : must_contain one_slot 3 other_slot ≡ raised (missing_key 7)
unfolding must_contain must_contain_key storage_of
not_contained = refl

not_zero : is_true two_slots ≡ true
unfolding is_true storage_of
not_zero = refl

minus_one : fixed_size_number 1 (negsuc 0) ≡ ok 255
unfolding fixed_size_number fixed_size_with ◌+ℤ◌
minus_one = refl

too_large : fixed_size_number 1 (pos 256) ≡ err value_error
unfolding fixed_size_number fixed_size_with
too_large = refl

must_be_equal_iff_example :
    (must_be_equal two_slots 3 (some one_slot) ≡ passed)
    ↔ ((k : ℕ) → Agrees two_slots (other_or_empty (some one_slot)) k)
must_be_equal_iff_example = must_be_equal_iff two_slots 3 (some one_slot)
