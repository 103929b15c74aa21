-- ===== src/Vm/Call/Examples.antt =====
-- Tests of the calls of opcodes in src/ethereum_test_vm/opcodes.py.
use execution_spec_tests.Base.{
  ℕ, ◌+◌, ◌^◌, ◌<◌, ◌≤◌, ◌≡◌, refl, false, List, [], ◌∷◌, length, arith, ok, err, value_error,
  ◌>>=◌,
}
use execution_spec_tests.Base.Int.{pos, negsuc}
use execution_spec_tests.Vm.Bytecode.{Bytecode, join}
use execution_spec_tests.Vm.Opcode.{
  Arg, get_item, data_portion, fixed_portion, int_to_bytes, get_int_size, size_from, low_bytes,
  modified, with_portion, from_bytes,
}
use execution_spec_tests.Vm.Opcodes.{push_opcodes}
use execution_spec_tests.Vm.Opcodes.Plain.{add}
use execution_spec_tests.Vm.Opcodes.Stack.{sstore}
use execution_spec_tests.Vm.Opcodes.System.{rjumpi}
use execution_spec_tests.Vm.Call.{
  call, call_plain, call_portion, call_named, named_args, push_args, stack_argument, push_constant,
}
use execution_spec_tests.Vm.Call.Argument.{integer_argument, integer_refused, word, range_error}

integer_argument_example :
    (c : Bytecode) × (portion : List ℕ) × (stack_argument (Arg.int (negsuc 0)) ≡ ok c)
    × (c.bytes ≡ (95 + length portion) ∷ portion)
    × (0 < length portion)
    × (length portion ≤ 32)
    × (from_bytes 0 portion ≡ word (negsuc 0))
integer_argument_example = integer_argument (negsuc 0) (omega arith)

integer_refused_example : stack_argument (Arg.int (pos (2 ^ 256))) ≡ range_error (pos (2 ^ 256))
integer_refused_example = integer_refused (pos (2 ^ 256)) (λ h. omega (arith, h))

-- Op.ADD(1, 256) pushes the last argument first.
call_bytes :
    (call add (Arg.int (pos 1) ∷ Arg.int (pos 256) ∷ []) false >>= λ c. ok c.bytes)
    ≡ ok (97 ∷ 1 ∷ 0 ∷ 96 ∷ 1 ∷ 1 ∷ [])
unfolding call call_plain push_args stack_argument push_constant get_item data_portion fixed_portion
    int_to_bytes get_int_size size_from low_bytes join push_opcodes modified with_portion
call_bytes = refl

call_refused : call add (Arg.int (pos 1) ∷ []) false ≡ err value_error
unfolding call call_plain
call_refused = refl

-- Op.SSTORE(value=2, key=1): the keywords are put in the opcode's order.
call_named_bytes :
    (call_named sstore (("value", Arg.int (pos 2)) ∷ ("key", Arg.int (pos 1)) ∷ []) false >>= λ c.
    ok c.bytes)
    ≡ ok (96 ∷ 2 ∷ 96 ∷ 1 ∷ 85 ∷ [])
unfolding call_named call_plain named_args push_args stack_argument push_constant get_item
    data_portion fixed_portion int_to_bytes get_int_size size_from low_bytes join push_opcodes
    modified with_portion
call_named_bytes = refl

-- Op.RJUMPI[-3] and its condition.
call_portion_bytes :
    (call rjumpi (Arg.int (pos 1) ∷ Arg.int (negsuc 2) ∷ []) false >>= λ c. ok c.bytes)
    ≡ ok (96 ∷ 1 ∷ 225 ∷ 255 ∷ 253 ∷ [])
unfolding call call_portion call_plain push_args stack_argument push_constant get_item data_portion
    fixed_portion int_to_bytes get_int_size size_from low_bytes join push_opcodes modified
    with_portion
call_portion_bytes = refl
