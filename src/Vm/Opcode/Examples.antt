-- ===== src/Vm/Opcode/Examples.antt =====
-- Tests of the data portions in src/ethereum_test_vm/opcodes.py.
use execution_spec_tests.Base.{
  ℕ, ◌+◌, ◌*◌, ◌/◌, ◌%◌, ◌<◌, ◌≡◌, refl, some, List, [], ◌∷◌, length, arith, ok, err,
  assertion_error, overflow_error,
}
use execution_spec_tests.Base.Int.{ℤ, pos, negsuc}
use execution_spec_tests.Vm.Opcode.{
  int, raw, exchange_modifier, encode_exchange, exchange_pair, encode_rjumpv, modified,
  fixed_portion, int_to_bytes, low_bytes, signed_offset, offsets,
}
use execution_spec_tests.Vm.Opcode.Encoders.{exchange_lem, rjumpv_lem, items_of, read_offsets}

exchange_lem_example :
    (b : ℕ) × (encode_exchange (int (pos 3) ∷ int (pos 10) ∷ []) ≡ ok (b ∷ []))
    × (b < 256)
    × (b / 16 + 2 ≡ 3)
    × (b / 16 + b % 16 + 3 ≡ 10)
    × (modified exchange_modifier (b ∷ []) ≡ some (0, 0, 10, 10))
exchange_lem_example = exchange_lem 3 10 (omega arith) (omega arith) (omega arith) (omega arith)

abbrev two_offsets : List ℤ
two_offsets = negsuc 2 ∷ []

rjumpv_lem_example :
    (bytes : List ℕ) × (encode_rjumpv (items_of (pos 300 ∷ two_offsets))
      ≡ ok (length two_offsets ∷ bytes))
    × (length bytes ≡ 2 * (length two_offsets + 1))
    × (read_offsets bytes ≡ pos 300 ∷ two_offsets)
rjumpv_lem_example = rjumpv_lem (pos 300) two_offsets (omega arith, (omega arith, tt)) (omega arith)

exchange_refused : encode_exchange (int (pos 3) ∷ int (pos 3) ∷ []) ≡ err assertion_error
unfolding encode_exchange exchange_pair
exchange_refused = refl

-- A hex string is filled up with zeros in front, and is refused if it is too long.
portion_filled : fixed_portion 2 (raw (7 ∷ [])) ≡ ok (0 ∷ 7 ∷ [])
unfolding fixed_portion
portion_filled = refl

portion_refused : fixed_portion 1 (raw (7 ∷ 8 ∷ [])) ≡ err assertion_error
unfolding fixed_portion
portion_refused = refl

-- 40000 does not fit an offset of 16 bits with a sign.
offset_refused : encode_rjumpv (items_of (pos 1 ∷ pos 40000 ∷ [])) ≡ err overflow_error
unfolding encode_rjumpv offsets signed_offset int_to_bytes low_bytes
offset_refused = refl
