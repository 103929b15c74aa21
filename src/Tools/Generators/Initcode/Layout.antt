-- ===== src/Tools/Generators/Initcode/Layout.antt =====
-- What the code of Initcode in src/ethereum_test_tools/tools_code/generators.py does in the virtual
-- machine up to the copy.
use execution_spec_tests.Base.{
  ℕ, ◌+◌, ◌^◌, ◌<◌, ◌≡◌, refl, true, false, none, List, [], ◌∷◌, ◌++◌, append_assoc, length,
  length-append, arith, leb, lt→ltb, ok,
}
use execution_spec_tests.Vm.Bytecode.{Bytecode, empty, join, len}
use execution_spec_tests.Vm.Opcode.{
  get_item, data_portion, fixed_portion, int_to_bytes, low_bytes, modified, with_portion,
}
use execution_spec_tests.Vm.Call.{call, call_portion, call_plain, push_args}
use execution_spec_tests.Vm.Opcodes.Plain.{codecopy}
use execution_spec_tests.Vm.Opcodes.Stack.{push1, push2}
use execution_spec_tests.Vm.Opcodes.Reach.{dup2, dup3}
use execution_spec_tests.Vm.Opcodes.System.{return as op_return}
use execution_spec_tests.Vm.Machine.Jumps.{push_bytes, length-push_bytes}
use execution_spec_tests.Tools.Generators.{int_arg}
use execution_spec_tests.Tools.Generators.Layout.{Makes}
use execution_spec_tests.Tools.Generators.Initcode.{instructions}

pub push1-Makes : (n : ℕ) → n < 256 → Makes (call push1 (int_arg n ∷ []) false) (push_bytes 0 n)
unfolding call call_portion call_plain push_args get_item data_portion fixed_portion int_to_bytes
    modified with_portion join
push1-Makes n h = (
  join (empty "") (with_portion push1 (low_bytes 1 n) none).code,
  rw (lt→ltb n (256 ^ 1) h) refl,
  refl,
)

push2-Makes : (n : ℕ) → n < 65536 → Makes (call push2 (int_arg n ∷ []) false) (push_bytes 1 n)
unfolding call call_portion call_plain push_args get_item data_portion fixed_portion int_to_bytes
    modified with_portion join
push2-Makes n h = (
  join (empty "") (with_portion push2 (low_bytes 2 n) none).code,
  rw (lt→ltb n (256 ^ 2) h) refl,
  refl,
)

-- The instructions that put the arguments of the copy on the stack.
abbrev pub arguments : List ℕ → ℕ → List ℕ
arguments prefix k =
    prefix
    ++ (push_bytes 1 k
        ++ (push_bytes 0 0 ++ ((129 ∷ []) ++ (push_bytes 0 (11 + length prefix) ++ (130 ∷ [])))))

pub length-arguments : (prefix : List ℕ) (k : ℕ) → length (arguments prefix k) ≡ length prefix + 9
length-arguments prefix k = omega (
  arith,
  length-append prefix (
      push_bytes 1 k
      ++ (push_bytes 0 0 ++ ((129 ∷ []) ++ (push_bytes 0 (11 + length prefix) ++ (130 ∷ []))))),
  length-append (push_bytes 1 k)
      (push_bytes 0 0 ++ ((129 ∷ []) ++ (push_bytes 0 (11 + length prefix) ++ (130 ∷ [])))),
  length-append (push_bytes 0 0) ((129 ∷ []) ++ (push_bytes 0 (11 + length prefix) ++ (130 ∷ []))),
  length-append (push_bytes 0 (11 + length prefix)) (130 ∷ []),
  length-push_bytes 1 k,
  length-push_bytes 0 0,
  length-push_bytes 0 (11 + length prefix),
)

pub instructions-Makes :
    (prefix : Bytecode) (k : ℕ)
    → k < 65536
    → length prefix.bytes < 245
    → Makes (instructions prefix k) (arguments prefix.bytes k ++ (57 ∷ 243 ∷ []))
unfolding instructions len join
instructions-Makes prefix k small short =
    let (size, e, b) = push2-Makes k small in
    let (origin, f, c) = push1-Makes 0 (omega arith) in
    let (offset, g, d) = push1-Makes (11 + length prefix.bytes) (omega arith) in
    let fits : leb (11 + length prefix.bytes) 255 ≡ true = ground arith in
    built size origin offset e b f c fits g d
  where
    built :
        (size origin offset : Bytecode)
        → call push2 (int_arg k ∷ []) false ≡ ok size
        → size.bytes ≡ push_bytes 1 k
        → call push1 (int_arg 0 ∷ []) false ≡ ok origin
        → origin.bytes ≡ push_bytes 0 0
        → leb (11 + length prefix.bytes) 255 ≡ true
        → call push1 (int_arg (11 + length prefix.bytes) ∷ []) false ≡ ok offset
        → offset.bytes ≡ push_bytes 0 (11 + length prefix.bytes)
        → Makes (instructions prefix k) (arguments prefix.bytes k ++ (57 ∷ 243 ∷ []))
    built size origin offset e b f c fits g d = (
      join
          (join (join (join (join (join (join prefix size) origin) dup2.code) offset) dup3.code)
            codecopy.code)
          op_return.code,
      rw (e, f, fits, g) refl,
      rw (b, c, d) (simp append_assoc),
    )
