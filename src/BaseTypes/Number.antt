-- ===== src/BaseTypes/Number.antt =====
-- Fixed size numbers: FixedSizeHexNumber in src/ethereum_test_base_types/base_types.py.
use execution_spec_tests.Base.{ℕ, ◌+◌, ◌-◌, ◌*◌, ◌^◌, value_error, Result, err, ok, if◌then◌else◌}
use execution_spec_tests.Base.Int.{ℤ, pos, ◌+ℤ◌, leb_ℤ, ltb_ℤ, pos_part}

-- The largest number of a byte length.
abbrev pub max_value : ℕ → ℕ
max_value byte_length = 2 ^ (8 * byte_length) - 1

-- `FixedSizeHexNumber.__new__` with a given largest number.
unfoldable pub fixed_size_with : ℕ → ℤ → Result ℕ
fixed_size_with largest i =
    if ltb_ℤ (pos largest) i
    then err value_error
    else if ltb_ℤ i (pos 0)
    then if leb_ℤ (i +ℤ pos (largest + 1)) (pos 0)
      then err value_error
      else ok (pos_part (i +ℤ pos (largest + 1)))
    else ok (pos_part i)

unfoldable pub fixed_size_number : ℕ → ℤ → Result ℕ
fixed_size_number byte_length i = fixed_size_with (max_value byte_length) i

-- `HashInt`
unfoldable pub hash_int : ℤ → Result ℕ
hash_int i = fixed_size_number 32 i
