-- ===== src/Vm/Bytecode/Examples.antt =====
-- The theorems on bytecode at concrete code, and runs of the operators.
use execution_spec_tests.Base.{◌≡◌, refl, true, false, [], ◌∷◌, map, arith, err, value_error}
use execution_spec_tests.Base.Int.{pos, negsuc, ◌+ℤ◌, ◌-ℤ◌, min_ℤ, max_ℤ}
use execution_spec_tests.Vm.Bytecode.{Bytecode, join, mul, sum_from}
use execution_spec_tests.Vm.Bytecode.Effect.{join_assoc}
use execution_spec_tests.Vm.Bytecode.Validity.{IsValid, join-IsValid}
use execution_spec_tests.Vm.Bytecode.Execution.{Instr, code, run, Agrees, sum_from-Agrees}

-- PUSH1 1, PUSH1 2, ADD, POP
abbrev push_one : Instr
push_one = record { bytes = 0x60 ∷ 1 ∷ []; pops = 0; pushes = 1 }

abbrev push_two : Instr
push_two = record { bytes = 0x60 ∷ 2 ∷ []; pops = 0; pushes = 1 }

abbrev add_op : Instr
add_op = record { bytes = 0x01 ∷ []; pops = 2; pushes = 1 }

abbrev pop_op : Instr
pop_op = record { bytes = 0x50 ∷ []; pops = 1; pushes = 0 }

-- The sum as a record: two items deep at most, one item left.
sum_of_pushes : sum_from (code push_one) (code push_two ∷ code add_op ∷ []) ≡ record {
  name = "";
  bytes = 0x60 ∷ 1 ∷ 0x60 ∷ 2 ∷ 0x01 ∷ [];
  popped_stack_items = pos 0;
  pushed_stack_items = pos 1;
  max_stack_height = pos 2;
  min_stack_height = pos 0;
  terminating = false;
}
unfolding sum_from join min_ℤ max_ℤ ◌+ℤ◌ ◌-ℤ◌
sum_of_pushes = refl

mul_negative : mul (code pop_op) (negsuc 0) ≡ err value_error
unfolding mul
mul_negative = refl

sum_from-Agrees_example :
    Agrees
      (sum_from (code add_op) (map code (pop_op ∷ pop_op ∷ [])))
      2
      (run (add_op ∷ pop_op ∷ pop_op ∷ []) 2)
sum_from-Agrees_example = sum_from-Agrees add_op (pop_op ∷ pop_op ∷ []) 2

join_assoc_example :
    join (join (code push_one) (code add_op)) (code pop_op)
    ≡ join (code push_one) (join (code add_op) (code pop_op))
join_assoc_example = join_assoc (code push_one) (code add_op) (code pop_op)

abbrev two_items : Bytecode
two_items = record {
  name = "two";
  bytes = 0x50 ∷ 0x50 ∷ [];
  popped_stack_items = pos 2;
  pushed_stack_items = pos 1;
  max_stack_height = pos 5;
  min_stack_height = pos 3;
  terminating = true;
}

two_items-IsValid : IsValid two_items
unfolding ◌+ℤ◌ ◌-ℤ◌
two_items-IsValid = record {
  popped_nonneg = omega arith;
  pushed_nonneg = omega arith;
  popped_le = omega arith;
  start_le = omega arith;
  end_le = omega arith;
}

join-IsValid_example : IsValid (join two_items two_items)
join-IsValid_example = join-IsValid two_items-IsValid two_items-IsValid
