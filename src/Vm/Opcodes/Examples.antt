-- ===== src/Vm/Opcodes/Examples.antt =====
-- Tests of the tables of opcodes in src/ethereum_test_vm/opcodes.py.
use execution_spec_tests.Base.{ℕ, ◌≡◌, refl, ◌↔◌, true, ◌&&◌, ◌||◌, length, arith}
use execution_spec_tests.Vm.Opcodes.{opcodes, undefined_opcodes, undefined_bytes}
use execution_spec_tests.Vm.Opcodes.Table.{has_byte, byte_tables}

abbrev twin : ℕ
twin = 30

byte_tables_example :
    ((has_byte opcodes twin || has_byte undefined_opcodes twin) ≡ true)
    × (((has_byte opcodes twin && has_byte undefined_opcodes twin) ≡ true) ↔ (twin ≡ 30))
byte_tables_example = byte_tables twin (omega arith)

undefined_count : length undefined_bytes ≡ 87
undefined_count = refl
