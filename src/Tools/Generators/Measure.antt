-- ===== src/Tools/Generators/Measure.antt =====
-- src/ethereum_test_tools/tools_code/generators.py: the class CodeGasMeasure.
mod Stored
mod Layout
mod Examples
use execution_spec_tests.Base.{
  ℕ, zero, suc, ◌+◌, Bool, true, false, List, [], ◌∷◌, Result, ok, err, ◌>>=◌, if◌then◌else◌,
}
use execution_spec_tests.Base.Int.{ℤ, pos, ◌+ℤ◌}
use execution_spec_tests.Vm.Bytecode.{Bytecode, empty, join, mul}
use execution_spec_tests.Vm.Opcode.{Arg}
use execution_spec_tests.Vm.Call.{call}
use execution_spec_tests.Vm.Opcodes.Plain.{sub as op_sub, stop as op_stop}
use execution_spec_tests.Vm.Opcodes.Stack.{gas, pop, sstore, push1}
use execution_spec_tests.Vm.Opcodes.Reach.{swap1}

-- `CodeGasMeasure.__new__`
unfoldable pub code_gas_measure :
    Bytecode
    → (overhead_cost extra_stack_items : ℤ) (sstore_key : Arg) (stop : Bool) → Result Bytecode
code_gas_measure code overhead_cost extra_stack_items sstore_key stop = do
  let res = join (join gas.code code) gas.code
  pops ← mul (join swap1.code pop.code) extra_stack_items
  cost ← call push1 (Arg.int (overhead_cost +ℤ pos 2) ∷ []) false
  store ← call sstore (sstore_key ∷ Arg.code op_sub.code ∷ []) false
  let added = join (join (join (join swap1.code op_sub.code) cost) swap1.code) store
  let res = join (join res pops) added
  ok (if stop then join res op_stop.code else res)
