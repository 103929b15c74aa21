-- ===== src/Tools/Generators/Initcode/Examples.antt =====
-- Tests of Initcode in src/ethereum_test_tools/tools_code/generators.py.
use execution_spec_tests.Base.{
  ℕ, ◌+◌, ◌*◌, ◌<◌, ◌≡◌, ◌↔◌, refl, some, none, List, [], ◌∷◌, ok, err, arith, ◌>>=◌,
  assertion_error, overflow_error,
}
use execution_spec_tests.Vm.Bytecode.{empty, join, len}
use execution_spec_tests.Vm.Opcode.{
  get_item, data_portion, fixed_portion, int_to_bytes, low_bytes, modified, with_portion,
}
use execution_spec_tests.Vm.Call.{call, call_portion, call_plain, push_args}
use execution_spec_tests.Vm.Machine.Jumps.{
  push_bytes, length-push_bytes, push_bytes-IsWhole, push_bytes-Runs,
}
use execution_spec_tests.Forks.Fork.{prague}
use execution_spec_tests.Forks.Gas.{words, memory_expansion}
use execution_spec_tests.Tools.Generators.Examples.{code_of, Spends}
use execution_spec_tests.Tools.Generators.Initcode.{
  Initcode, initcode, instructions, padding, initcode_gas,
}
use execution_spec_tests.Tools.Generators.Initcode.Deployed.{Deploys, initcode_lem}
use execution_spec_tests.Tools.Generators.Initcode.Gas.{initcode_gas_lem}

abbrev deployed_code : List ℕ
deployed_code = 96 ∷ 0 ∷ 0 ∷ []

-- The prefix is PUSH1 5, and 20 bytes are asked for.
initcode_lem_example :
    (i : Initcode) × (initcode
        (some deployed_code)
        (some 20)
        (some (code_of (push_bytes 0 5)))
        3
        0
        ""
      ≡ ok i)
    × Deploys Spends deployed_code (push_bytes 0 5) 20 [] (5 ∷ []) 9 9 i
initcode_lem_example =
    initcode_lem Spends deployed_code (some 20) (code_of (push_bytes 0 5)) 3 0 "" [] (5 ∷ []) 9 9
      (omega arith) (omega (arith, length-push_bytes 0 5))
      (omega (arith, length-push_bytes 0 5), omega arith, omega arith)
      (push_bytes-IsWhole 0 5 (omega arith))
      (push_bytes-Runs Spends 0 5 [] 9 (omega arith) (omega arith))

initcode_gas_lem_example :
    (initcode_gas 100 64 ≡ 18 + 3 * words 64 + memory_expansion prague (32 * 64) 0)
    × ((18 + 3 * words 64 + memory_expansion prague 64 0 < initcode_gas 100 64) ↔ (1 < 64))
initcode_gas_lem_example = initcode_gas_lem prague 100 64

initcode_bytes :
    (initcode (some deployed_code) (some 16) none 0 7 "" >>= λ i. ok i.code.bytes)
    ≡ ok (97 ∷ 0 ∷ 3 ∷ 96 ∷ 0 ∷ 129 ∷ 96 ∷ 11 ∷ 130 ∷ 57 ∷ 243 ∷ 96 ∷ 0 ∷ 0 ∷ 7 ∷ 7 ∷ [])
unfolding initcode instructions padding call call_portion call_plain push_args get_item data_portion
    fixed_portion int_to_bytes low_bytes join len modified with_portion
initcode_bytes = refl

-- The length that is asked for is too short.
initcode_short : initcode (some deployed_code) (some 13) none 0 0 "" ≡ err assertion_error
unfolding initcode instructions padding call call_portion call_plain push_args get_item data_portion
    fixed_portion int_to_bytes low_bytes join len modified with_portion
initcode_short = refl

-- A code of 65536 bytes does not fit PUSH2.
initcode_large : instructions (empty "") 65536 ≡ err overflow_error
unfolding instructions call call_portion call_plain get_item data_portion fixed_portion int_to_bytes
initcode_large = refl
