-- ===== src/Tools/Generators/Layout.antt =====
-- The bytes of the relative jumps in src/ethereum_test_tools/tools_code/generators.py.
use execution_spec_tests.Base.{
  ℕ, suc, ◌^◌, ◌<◌, ◌≡◌, refl, ap, ◌∙◌, List, [], ◌∷◌, ◌++◌, append_assoc, arith, ok, err, Result,
  none, ◌≤◌, overflow_error, lt→ltb, ltb, false,
}
use execution_spec_tests.Base.Int.{pos}
use execution_spec_tests.Vm.Bytecode.{Bytecode, empty, join}
use execution_spec_tests.Vm.Opcode.{
  Arg, Item, get_item, data_portion, fixed_portion, int_to_bytes, low_bytes, modified, with_portion,
}
use execution_spec_tests.Vm.Call.{call, call_plain, push_args, stack_argument}
use execution_spec_tests.Vm.Call.Bytes.{stack_argument_int, stack_argument_byte}
use execution_spec_tests.Vm.Machine.Jumps.{push_bytes}
use execution_spec_tests.Vm.Opcodes.Plain.{add as op_add, sub as op_sub}
use execution_spec_tests.Vm.Opcodes.Stack.{pc, push4}
use execution_spec_tests.Tools.Generators.{forward, jump_to, jump_if, backward}

-- What an operator returns, and the bytes of it.
abbrev pub Makes : Result Bytecode → List ℕ → Type 0
Makes r bytes = (c : Bytecode) × (r ≡ ok c) × (c.bytes ≡ bytes)

forward_with :
    (n : ℕ) (c : Bytecode) (bytes : List ℕ)
    → stack_argument (Arg.int (pos n)) ≡ ok c
    → c.bytes ≡ bytes
    → Makes (forward n) (bytes ++ (88 ∷ 1 ∷ []))
unfolding forward call call_plain push_args stack_argument join
forward_with n c bytes e b = (
  join (join (join (empty "") c) pc.code) op_add.code,
  rw e refl,
  append_assoc c.bytes (88 ∷ []) (1 ∷ []) ∙ ap (λ bs. bs ++ (88 ∷ 1 ∷ [])) b,
)

pub forward-Makes :
    (n : ℕ)
    → n < 2 ^ 256
    → (j : ℕ) × (j < 32) × (n < 256 ^ suc j) × Makes (forward n) (push_bytes j n ++ (88 ∷ 1 ∷ []))
forward-Makes n h =
    let (j, c, e, b, below, small) = stack_argument_int n h in
    (j, small, below, forward_with n c (push_bytes j n) e b)

pub forward_byte-Makes : (n : ℕ) → n < 256 → Makes (forward n) (push_bytes 0 n ++ (88 ∷ 1 ∷ []))
forward_byte-Makes n h =
    let (c, e, b) = stack_argument_byte n h in forward_with n c (push_bytes 0 n) e b

pub jump_to-Makes : (target : Bytecode) → Makes (jump_to target) (target.bytes ++ (86 ∷ []))
unfolding jump_to call call_plain push_args stack_argument join
jump_to-Makes target = (_, refl, refl)

pub jump_if-Makes :
    (target condition : Bytecode)
    → Makes (jump_if target condition) (condition.bytes ++ (target.bytes ++ (87 ∷ [])))
unfolding jump_if call call_plain push_args stack_argument join
jump_if-Makes target condition = (_, refl, append_assoc condition.bytes target.bytes (87 ∷ []))

-- PUSH4 of a number that fits.
push4-bytes :
    (n : ℕ)
    → n < 256 ^ 4
    → get_item push4 (Item.int (pos n) ∷ []) ≡ ok (with_portion push4 (low_bytes 4 n) none)
unfolding get_item data_portion fixed_portion int_to_bytes modified
push4-bytes n h = rw (lt→ltb n (256 ^ 4) h) refl

pub backward-Makes : (n : ℕ) → n < 256 ^ 4 → Makes (backward n) (push_bytes 3 n ++ (88 ∷ 3 ∷ []))
unfolding backward call call_plain push_args stack_argument join with_portion low_bytes
backward-Makes n h = (
  join (join (join (empty "") (with_portion push4 (low_bytes 4 n) none).code) pc.code) op_sub.code,
  rw (push4-bytes n h) refl,
  refl,
)

pub backward_overflow : (n : ℕ) → 256 ^ 4 ≤ n → backward n ≡ err overflow_error
unfolding backward get_item data_portion fixed_portion int_to_bytes
backward_overflow n h = let above : ltb n (256 ^ 4) ≡ false = ground arith in rw above refl
