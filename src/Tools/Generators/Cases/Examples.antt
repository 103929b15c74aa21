-- ===== src/Tools/Generators/Cases/Examples.antt =====
-- Tests of the code of Switch in src/ethereum_test_tools/tools_code/generators.py.
use execution_spec_tests.Base.{
  ℕ, ◌+◌, ◌≡◌, refl, some, none, List, [], ◌∷◌, ◌++◌, length, get_elem?, ok, arith, ◌>>=◌,
  replicate,
}
use execution_spec_tests.Vm.Bytecode.{Bytecode, join, len}
use execution_spec_tests.Vm.Opcode.{
  get_item, data_portion, fixed_portion, int_to_bytes, get_int_size, size_from, low_bytes, modified,
  with_portion,
}
use execution_spec_tests.Vm.Opcodes.{push_opcodes}
use execution_spec_tests.Vm.Call.{call, call_plain, push_args, stack_argument, push_constant}
use execution_spec_tests.Vm.Machine.{Steps, at}
use execution_spec_tests.Vm.Machine.Placed.{single-IsWhole}
use execution_spec_tests.Vm.Machine.Jumps.{
  push_bytes, length-push_bytes, push_bytes-IsWhole, push_bytes-Runs,
}
use execution_spec_tests.Tools.Generators.{
  Case, legacy, action_lengths, start_legacy, wrap_legacy, wrap_all, switch, forward, jump_to,
  jump_if,
}
use execution_spec_tests.Tools.Generators.Cases.{Selects, met, unmet}
use execution_spec_tests.Tools.Generators.Cases.Chosen.{switch_lem}
use execution_spec_tests.Tools.Generators.Examples.{code_of, label, Spends, gas-Runs}

abbrev case_of : List ℕ → List ℕ → Case
case_of condition action = record {
  condition = code_of condition;
  action = code_of action;
  terminating = none;
}

-- PUSH1 0 and GAS are the conditions, and GAS is the one that is met.
abbrev two_cases : List Case
two_cases = case_of (push_bytes 0 0) (push_bytes 0 7) ∷ case_of (90 ∷ []) (push_bytes 0 9) ∷ []

second_met : Selects Spends (90 ∷ []) two_cases [] 3 (9 ∷ []) 2
second_met = unmet (push_bytes-Runs Spends 0 0 [] 3 (omega arith) (omega arith)) (
    met 3 (omega arith) (gas-Runs [] 3)
      (push_bytes-Runs Spends 0 9 [] 2 (omega arith) (omega arith)))

switch_lem_example :
    (code : Bytecode) × (switch (some (code_of (90 ∷ []))) two_cases legacy ≡ ok code)
    × Steps Spends
        (label ++ (code.bytes ++ []))
        (at (length label) [] 3)
        (at (length label + length code.bytes) (9 ∷ []) 2)
switch_lem_example =
    switch_lem Spends (code_of (90 ∷ [])) two_cases label [] [] (9 ∷ []) 3 2
      (single-IsWhole 90 refl)
      (
        push_bytes-IsWhole 0 0 (omega arith),
        push_bytes-IsWhole 0 7 (omega arith),
        (single-IsWhole 90 refl, push_bytes-IsWhole 0 9 (omega arith), tt),
      )
      (single-IsWhole 91 refl) (omega arith, (omega (arith, length-push_bytes 0 7), tt))
      (omega (arith, length-push_bytes 0 0, length-push_bytes 0 7, length-push_bytes 0 9))
      second_met

-- A case with a long action before another one: the jump of the other one takes a byte more than is
-- counted, so the jump at the end of the default, at 14, leads to the JUMP in front of the JUMPDEST.
abbrev far_cases : List Case
far_cases = case_of (96 ∷ 0 ∷ []) (replicate 300 91) ∷ case_of (96 ∷ 0 ∷ []) (91 ∷ []) ∷ []

far_default :
    (switch none far_cases legacy >>= λ c.
    ok (get_elem? c.bytes 14 ∷ get_elem? c.bytes (17 + 316) ∷ get_elem? c.bytes 334 ∷ []))
    ≡ ok (some 97 ∷ some 86 ∷ some 91 ∷ [])
unfolding switch start_legacy wrap_legacy wrap_all action_lengths forward jump_to jump_if call
    call_plain push_args stack_argument push_constant get_item data_portion fixed_portion
    int_to_bytes get_int_size size_from low_bytes join len push_opcodes modified with_portion
far_default = refl
