-- ===== src/Tools/Generators/Measure/Examples.antt =====
-- Tests of CodeGasMeasure in src/ethereum_test_tools/tools_code/generators.py, on a machine that
-- charges 2 for GAS and knows SSTORE.
use execution_spec_tests.Base.{
  ℕ, ◌+◌, ◌-◌, ◌≡◌, refl, ◌⊎◌, inl, inr, true, false, some, List, [], ◌∷◌, ◌++◌, length, get_elem?,
  drop, ok, err, value_error, arith, ◌>>=◌,
}
use execution_spec_tests.Base.Int.{pos, negsuc, ◌+ℤ◌}
use execution_spec_tests.Vm.Bytecode.{Bytecode, join, join_times, mul}
use execution_spec_tests.Vm.Opcode.{
  Arg, get_item, data_portion, fixed_portion, int_to_bytes, get_int_size, size_from, low_bytes,
  modified, with_portion,
}
use execution_spec_tests.Vm.Opcodes.{push_opcodes}
use execution_spec_tests.Vm.Call.{
  call, call_portion, call_plain, push_args, stack_argument, push_constant,
}
use execution_spec_tests.Vm.Machine.{State, at, Steps, other}
use execution_spec_tests.Vm.Machine.Placed.{IsPlaced-get, single-IsWhole}
use execution_spec_tests.Vm.Machine.Jumps.{Runs, one_step}
use execution_spec_tests.Tools.Generators.Examples.{code_of, label}
use execution_spec_tests.Tools.Generators.Measure.{code_gas_measure}
use execution_spec_tests.Tools.Generators.Measure.Layout.{stopped}
use execution_spec_tests.Tools.Generators.Measure.Stored.{measure_lem}

-- The world is the gas that is left, and the last value that was stored at a key.
abbrev World : Type 0
World = ℕ × List ℕ

abbrev Meter : List ℕ → State World → State World → Type 0
Meter code s t =
    ((get_elem? code s.pc ≡ some 90)
      × (t ≡ at (s.pc + 1) ((s.world.0 - 2) ∷ s.stack) (s.world.0 - 2, s.world.1)))
    ⊎ ((get_elem? code s.pc ≡ some 85) × (t ≡ at (s.pc + 1) (drop 2 s.stack) (s.world.0, s.stack)))

gas-Runs :
    (s : List ℕ) (g : ℕ) (v : List ℕ) → Runs Meter (90 ∷ []) s (g, v) ((g - 2) ∷ s) (g - 2, v)
gas-Runs s g v code p h bound = one_step Meter (other (inl (IsPlaced-get 90 [] h, refl)))

sstore-Runs :
    (key value : ℕ) (s : List ℕ) (g : ℕ) (v : List ℕ)
    → Runs Meter (85 ∷ []) (key ∷ value ∷ s) (g, v) s (g, key ∷ value ∷ s)
sstore-Runs key value s g v code p h bound =
    one_step Meter (other (inr (IsPlaced-get 85 [] h, refl)))

abbrev left_over : List ℕ
left_over = 96 ∷ []

-- GAS is the code that is measured: it leaves one item and costs 2, which is stored at 7.
measure_lem_example :
    (b : Bytecode) × (body : List ℕ) × (code_gas_measure
        (code_of (90 ∷ []))
        (pos 0)
        (pos (length left_over))
        (Arg.int (pos 7))
        true
      ≡ ok b)
    × (b.bytes ≡ body ++ stopped true)
    × Steps Meter
        (label ++ (b.bytes ++ []))
        (at (length label) [] (100, []))
        (at (length label + length body) [] (94, 7 ∷ 2 ∷ []))
measure_lem_example =
    measure_lem Meter (code_of (90 ∷ [])) 0 7 98 94 true left_over label [] [] (100, []) (98, [])
      (96, []) (94, []) (94, 7 ∷ 2 ∷ []) (omega arith) (omega arith) (omega arith) (omega arith)
      (single-IsWhole 90 refl) (single-IsWhole 91 refl) (omega arith) (gas-Runs [] 100 [])
      (gas-Runs (98 ∷ []) 98 []) (gas-Runs (96 ∷ 98 ∷ []) 96 []) (sstore-Runs 7 2 [] 94 [])

-- CodeGasMeasure(code=Op.GAS, extra_stack_items=1, sstore_key=7)
measured_bytes :
    (code_gas_measure (code_of (90 ∷ [])) (pos 0) (pos 1) (Arg.int (pos 7)) true >>= λ b.
    ok b.bytes)
    ≡ ok (90 ∷ 90 ∷ 90 ∷ 144 ∷ 80 ∷ 144 ∷ 3 ∷ 96 ∷ 2 ∷ 144 ∷ 3 ∷ 96 ∷ 7 ∷ 85 ∷ 0 ∷ [])
unfolding code_gas_measure mul join_times join call call_portion call_plain push_args stack_argument
    push_constant get_item data_portion fixed_portion int_to_bytes get_int_size size_from low_bytes
    push_opcodes modified with_portion ◌+ℤ◌
measured_bytes = refl

measure_refused :
    code_gas_measure (code_of []) (pos 0) (negsuc 0) (Arg.int (pos 0)) false ≡ err value_error
unfolding code_gas_measure mul
measure_refused = refl
