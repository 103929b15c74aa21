-- ===== src/Tools/Generators/Measure/Layout.antt =====
-- The bytes of CodeGasMeasure in src/ethereum_test_tools/tools_code/generators.py.
use execution_spec_tests.Base.{
  ℕ, zero, suc, ◌+◌, ◌^◌, ◌<◌, ◌≡◌, refl, sym, ap, ◌∙◌, Bool, true, false, List, [], ◌∷◌, ◌++◌,
  append_assoc, append-nil, ok, if◌then◌else◌,
}
use execution_spec_tests.Base.Int.{pos, ◌+ℤ◌, int_laws}
use execution_spec_tests.Vm.Bytecode.{Bytecode, empty, join, join_times, mul}
use execution_spec_tests.Vm.Opcode.{Arg}
use execution_spec_tests.Vm.Call.{call, call_plain, push_args, stack_argument}
use execution_spec_tests.Vm.Call.Bytes.{stack_argument_int}
use execution_spec_tests.Vm.Opcodes.Plain.{sub as op_sub, stop as op_stop}
use execution_spec_tests.Vm.Opcodes.Stack.{gas, pop as op_pop, sstore, push1}
use execution_spec_tests.Vm.Opcodes.Reach.{swap1 as op_swap1}
use execution_spec_tests.Vm.Machine.Jumps.{push_bytes}
use execution_spec_tests.Tools.Generators.Layout.{Makes}
use execution_spec_tests.Tools.Generators.Initcode.Layout.{push1-Makes}
use execution_spec_tests.Tools.Generators.Measure.{code_gas_measure}

-- SWAP1 and POP, as often as there are extra items.
abbrev pub pops : ℕ → List ℕ
pops zero = []
pops (suc n) = (144 ∷ 80 ∷ []) ++ pops n

join_times-bytes :
    (n : ℕ) (b out : Bytecode)
    → b.bytes ≡ 144 ∷ 80 ∷ []
    → (join_times n b out).bytes ≡ out.bytes ++ pops n
unfolding join_times join
join_times-bytes zero b out e = sym (append-nil out.bytes)
join_times-bytes (suc n) b out e =
    join_times-bytes n b (join out b) e
    ∙ append_assoc out.bytes b.bytes (pops n)
    ∙ ap (λ c. out.bytes ++ (c ++ pops n)) e

pops-Makes : (n : ℕ) → Makes (mul (join op_swap1.code op_pop.code) (pos n)) (pops n)
unfolding mul join
pops-Makes zero = (empty "", refl, refl)
pops-Makes (suc n) = (
  join_times n (join op_swap1.code op_pop.code) (join op_swap1.code op_pop.code),
  refl,
  join_times-bytes n (join op_swap1.code op_pop.code) (join op_swap1.code op_pop.code) refl,
)

store_with :
    (key : ℕ) (c : Bytecode) (bytes : List ℕ)
    → stack_argument (Arg.int (pos key)) ≡ ok c
    → c.bytes ≡ bytes
    → Makes
        (call sstore (Arg.int (pos key) ∷ Arg.code op_sub.code ∷ []) false)
        ((3 ∷ []) ++ (bytes ++ (85 ∷ [])))
unfolding call call_plain push_args stack_argument join
store_with key c bytes e b = (
  join (join (join (empty "") op_sub.code) c) sstore.code,
  rw e refl,
  ap (λ bs. (3 ∷ []) ++ (bs ++ (85 ∷ []))) b,
)

-- The code behind the second GAS.
abbrev pub ending : (n c j key : ℕ) → List ℕ
ending n c j key =
    pops n
    ++ ((144 ∷ [])
        ++ ((3 ∷ [])
            ++ (push_bytes 0 c ++ ((144 ∷ []) ++ ((3 ∷ []) ++ (push_bytes j key ++ (85 ∷ [])))))))

abbrev pub measure_bytes : List ℕ → (n c j key : ℕ) → List ℕ
measure_bytes code n c j key = (90 ∷ []) ++ (code ++ ((90 ∷ []) ++ ending n c j key))

abbrev pub stopped : Bool → List ℕ
stopped stop = if stop then 0 ∷ [] else []

plus_two : (n : ℕ) → pos n +ℤ pos 2 ≡ pos (n + 2)
plus_two n = omega int_laws

abbrev pieces : (code extra cost store : Bytecode) → Bytecode
pieces code extra cost store =
    join (join (join (join gas.code code) gas.code) extra)
      (join (join (join (join op_swap1.code op_sub.code) cost) op_swap1.code) store)

pub measure-Makes :
    (code : Bytecode) (overhead n key : ℕ) (stop : Bool)
    → overhead + 2 < 256
    → key < 2 ^ 256
    → (j : ℕ) × (j < 32)
      × (key < 256 ^ suc j)
      × Makes
          (code_gas_measure code (pos overhead) (pos n) (Arg.int (pos key)) stop)
          (measure_bytes code.bytes n (overhead + 2) j key ++ stopped stop)
unfolding code_gas_measure join
measure-Makes code overhead n key stop small word =
    let (extra, e, b) = pops-Makes n in
    let (cost, f, c) = push1-Makes (overhead + 2) small in
    let (j, pushed, g, d, below, few) = stack_argument_int key word in
    let (store, h, s) = store_with key pushed (push_bytes j key) g d in
    (j, few, below, built j stop extra cost store e b f c h s)
  where
    cost_found :
        {cost : Bytecode}
        → call push1 (Arg.int (pos (overhead + 2)) ∷ []) false ≡ ok cost
        → call push1 (Arg.int (pos overhead +ℤ pos 2) ∷ []) false ≡ ok cost
    cost_found f = ap (λ n. call push1 (Arg.int n ∷ []) false) (plus_two overhead) ∙ f

    built :
        (j : ℕ) (stop : Bool) (extra cost store : Bytecode)
        → mul (join op_swap1.code op_pop.code) (pos n) ≡ ok extra
        → extra.bytes ≡ pops n
        → call push1 (Arg.int (pos (overhead + 2)) ∷ []) false ≡ ok cost
        → cost.bytes ≡ push_bytes 0 (overhead + 2)
        → call sstore (Arg.int (pos key) ∷ Arg.code op_sub.code ∷ []) false ≡ ok store
        → store.bytes ≡ (3 ∷ []) ++ (push_bytes j key ++ (85 ∷ []))
        → Makes
            (code_gas_measure code (pos overhead) (pos n) (Arg.int (pos key)) stop)
            (measure_bytes code.bytes n (overhead + 2) j key ++ stopped stop)
    built j true extra cost store e b f c h s = (
      join (pieces code extra cost store) op_stop.code,
      rw (e, cost_found f, h) refl,
      rw (b, c, s) (simp append_assoc),
    )
    built j false extra cost store e b f c h s = (
      pieces code extra cost store,
      rw (e, cost_found f, h) refl,
      rw (b, c, s) (simp (append_assoc, append-nil)),
    )
