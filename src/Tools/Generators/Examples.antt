-- ===== src/Tools/Generators/Examples.antt =====
-- Tests of the code of src/ethereum_test_tools/tools_code/generators.py, on a machine with one more
-- instruction.
use execution_spec_tests.Base.{
  ℕ, ◌+◌, ◌-◌, ◌≡◌, refl, some, List, [], ◌∷◌, ◌++◌, length, get_elem?, ok, arith, ◌>>=◌,
}
use execution_spec_tests.Vm.Bytecode.{Bytecode, empty, join, len}
use execution_spec_tests.Vm.Opcode.{
  get_item, data_portion, fixed_portion, int_to_bytes, get_int_size, size_from, low_bytes, modified,
  with_portion,
}
use execution_spec_tests.Vm.Opcodes.{push_opcodes}
use execution_spec_tests.Vm.Call.{call, call_plain, push_args, stack_argument, push_constant}
use execution_spec_tests.Vm.Machine.{State, at, scan, Steps, jumpdest, other}
use execution_spec_tests.Vm.Machine.Placed.{IsPlaced-get, single-IsWhole}
use execution_spec_tests.Vm.Machine.Jumps.{
  push_bytes, length-push_bytes, push_bytes-IsWhole, push_bytes-Runs, Runs, one_step,
}
use execution_spec_tests.Tools.Generators.{
  legacy, conditional, conditional_legacy, while_loop, forward, backward, jump_to, jump_if,
}
use execution_spec_tests.Tools.Generators.Choice.{conditional_lem}
use execution_spec_tests.Tools.Generators.While.{Loop, last, again, while_lem}

abbrev pub code_of : List ℕ → Bytecode
code_of bytes = record (empty "") { bytes = bytes }

abbrev pub label : List ℕ
label = 91 ∷ []

-- GAS, on a machine whose world is the gas that is left and on which only GAS costs gas.
abbrev pub Spends : List ℕ → State ℕ → State ℕ → Type 0
Spends code s t =
    (get_elem? code s.pc ≡ some 90) × (t ≡ at (s.pc + 1) (s.world ∷ s.stack) (s.world - 1))

pub gas-Runs : (s : List ℕ) (w : ℕ) → Runs Spends (90 ∷ []) s w (w ∷ s) (w - 1)
gas-Runs s w code p h bound = one_step Spends (other (IsPlaced-get 90 [] h, refl))

jumpdest-Runs : (s : List ℕ) (w : ℕ) → Runs Spends (91 ∷ []) s w s w
jumpdest-Runs s w code p h bound = one_step Spends (jumpdest (IsPlaced-get 91 [] h))

-- The condition is PUSH1 5, the true piece PUSH1 7 and the false one GAS; it stands behind a JUMPDEST.
conditional_lem_example :
    (code : Bytecode) × (conditional
        (code_of (push_bytes 0 5))
        (some (code_of (push_bytes 0 7)))
        (some (code_of (90 ∷ [])))
        legacy
      ≡ ok code)
    × Steps Spends
        (label ++ (code.bytes ++ (0 ∷ [])))
        (at (length label) [] 3)
        (at (length label + length code.bytes) (7 ∷ []) 3)
conditional_lem_example =
    conditional_lem Spends (code_of (push_bytes 0 5)) (code_of (push_bytes 0 7)) (code_of (90 ∷ []))
      label (0 ∷ []) 5 [] [] (7 ∷ []) 3 3 3 (push_bytes-IsWhole 0 5 (omega arith))
      (push_bytes-IsWhole 0 7 (omega arith)) (single-IsWhole 90 refl) (single-IsWhole 91 refl)
      (omega (arith, length-push_bytes 0 5, length-push_bytes 0 7))
      (push_bytes-Runs Spends 0 5 [] 3 (omega arith) (omega arith))
      (push_bytes-Runs Spends 0 7 [] 3 (omega arith) (omega arith))

-- GAS as the condition leaves 1 and then 0.
two_turns : Loop Spends (91 ∷ []) (90 ∷ []) [] 1 [] 0
two_turns =
    again 1 (omega arith) (jumpdest-Runs [] 1) (gas-Runs [] 1)
      (last (jumpdest-Runs [] 0) (gas-Runs [] 0))

while_lem_example :
    (code : Bytecode) × (while_loop (code_of (91 ∷ [])) (some (code_of (90 ∷ []))) legacy ≡ ok code)
    × Steps Spends
        ([] ++ (code.bytes ++ (0 ∷ [])))
        (at (length {A = ℕ} []) [] 1)
        (at (length {A = ℕ} [] + length code.bytes) [] 0)
unfolding scan
while_lem_example =
    while_lem Spends (code_of (91 ∷ [])) (code_of (90 ∷ [])) [] (0 ∷ []) [] [] 1 0
      (single-IsWhole 91 refl) (single-IsWhole 90 refl) refl (omega arith) (omega arith) two_turns

-- Conditional(condition=Op.PUSH1[5], if_true=Op.PUSH1[7], if_false=Op.GAS).
conditional_bytes :
    (conditional
        (code_of (96 ∷ 5 ∷ []))
        (some (code_of (96 ∷ 7 ∷ [])))
        (some (code_of (90 ∷ [])))
        legacy
      >>= λ c. ok c.bytes)
    ≡ ok (96 ∷ 5 ∷ 96 ∷ 9 ∷ 88 ∷ 1 ∷ 87 ∷ 90 ∷ 96 ∷ 6 ∷ 88 ∷ 1 ∷ 86 ∷ 91 ∷ 96 ∷ 7 ∷ 91 ∷ [])
unfolding conditional conditional_legacy forward jump_to jump_if call call_plain push_args
    stack_argument push_constant get_item data_portion fixed_portion int_to_bytes get_int_size
    size_from low_bytes join len push_opcodes modified with_portion
conditional_bytes = refl

while_bytes :
    (while_loop (code_of (91 ∷ [])) (some (code_of (90 ∷ []))) legacy >>= λ c. ok c.bytes)
    ≡ ok (91 ∷ 91 ∷ 90 ∷ 99 ∷ 0 ∷ 0 ∷ 0 ∷ 8 ∷ 88 ∷ 3 ∷ 87 ∷ [])
unfolding while_loop backward jump_if call call_plain push_args stack_argument get_item data_portion
    fixed_portion int_to_bytes low_bytes join len modified with_portion
while_bytes = refl
