-- ===== src/Tools/Generators.antt =====
-- src/ethereum_test_tools/tools_code/generators.py: code that is generated from pieces of code.
pub mod Layout
pub mod Conditional
mod Branch
mod Choice
mod While
mod Exit
mod Layer
mod Cases
pub mod Initcode
pub mod Measure
mod Examples
use execution_spec_tests.Base.{
  ℕ, zero, suc, ◌+◌, ◌-◌, ◌*◌, ◌/◌, Bool, true, false, Option, none, some, List, [], ◌∷◌, ◌++◌,
  length, replicate, leb, if◌then◌else◌, Result, ok, err, guard, ◌>>=◌, ◌>>◌, assertion_error,
  not_implemented,
}
use execution_spec_tests.Base.Int.{ℤ, pos}
use execution_spec_tests.Vm.Bytecode.{Bytecode, empty, join, len, mul}
use execution_spec_tests.Vm.Opcode.{Opcode, Arg, Item, given, get_item}
use execution_spec_tests.Vm.Call.{call, call_plain}
use execution_spec_tests.Vm.Opcodes.Plain.{
  add as op_add, sub as op_sub, codecopy, calldataload, eq as op_eq,
}
use execution_spec_tests.Vm.Opcodes.Stack.{
  pc, jump, jumpi, jumpdest, gas, pop, sstore, push1, push2, push4,
}
use execution_spec_tests.Vm.Opcodes.Reach.{dup2, dup3, swap1}
use execution_spec_tests.Vm.Opcodes.System.{return as op_return, rjump, rjumpi}
use execution_spec_tests.Vm.Opcodes.Plain.{stop as op_stop}

-- EVMCodeType
pub data EvmCodeType : Type 0 where
  legacy eof_v1 : EvmCodeType

abbrev pub int_arg : ℕ → Arg
int_arg n = Arg.int (pos n)

-- `Op.ADD(Op.PC, n)` and `Op.SUB(Op.PC, Op.PUSH4[n])`
unfoldable pub forward : ℕ → Result Bytecode
forward n = call op_add (Arg.code pc.code ∷ int_arg n ∷ []) false

unfoldable pub backward : ℕ → Result Bytecode
backward n = get_item push4 (Item.int (pos n) ∷ []) >>= λ pushed.
    call op_sub (Arg.code pc.code ∷ Arg.code pushed.code ∷ []) false

-- `Op.JUMP(target)` and `Op.JUMPI(target, condition)`
unfoldable pub jump_to : Bytecode → Result Bytecode
jump_to target = call jump (Arg.code target ∷ []) false

unfoldable pub jump_if : Bytecode → Bytecode → Result Bytecode
jump_if target condition = call jumpi (Arg.code target ∷ Arg.code condition ∷ []) false

unfoldable pub conditional_legacy : Bytecode → Bytecode → Bytecode → Result Bytecode
conditional_legacy condition if_true if_false = do
  let t = join jumpdest.code if_true
  over ← forward (len t + 3)
  leave ← jump_to over
  let f = join if_false leave
  target ← forward (len f + 3)
  test ← jump_if target condition
  ok (join (join (join test f) t) jumpdest.code)

-- The false branch, with a jump over the true one where it does not end the code itself.
unfoldable pub false_branch : Bytecode → Bytecode → Result Bytecode
false_branch if_true if_false =
    if if_false.terminating
    then ok if_false
    else get_item rjump (Item.int (pos (len if_true)) ∷ []) >>= λ leave.
        ok (join if_false leave.code)

unfoldable pub conditional_eof : Bytecode → Bytecode → Bytecode → Result Bytecode
conditional_eof condition if_true if_false = do
  f ← false_branch if_true if_false
  branch ← get_item rjumpi (Item.int (pos (len f)) ∷ [])
  test ← call branch (Arg.code condition ∷ []) false
  ok (join (join test f) if_true)

-- `Conditional.__new__`
unfoldable pub conditional :
    Bytecode → (if_true if_false : Option Bytecode) → EvmCodeType → Result Bytecode
conditional condition if_true if_false legacy =
    conditional_legacy condition (given if_true (empty "")) (given if_false (empty ""))
conditional condition if_true if_false eof_v1 =
    conditional_eof condition (given if_true (empty "")) (given if_false (empty ""))

-- `While.__new__`
unfoldable pub while_loop : Bytecode → Option Bytecode → EvmCodeType → Result Bytecode
while_loop body condition eof_v1 = err not_implemented
while_loop body none legacy = do
  target ← backward (len body + 6)
  again ← jump_to target
  ok (join (join (join (empty "") jumpdest.code) body) again)
while_loop body (some condition) legacy = do
  target ← backward (len body + len condition + 6)
  again ← jump_if target condition
  ok (join (join (join (empty "") jumpdest.code) body) again)

pub record Case : Type 0 where
  pub condition : Bytecode
  pub action : Bytecode
  pub terminating : Option Bool

abbrev pub is_terminating : Case → Bool
is_terminating c = given c.terminating c.action.terminating

-- `CalldataCase.__init__`
unfoldable pub calldata_condition : Arg → ℕ → Result Bytecode
calldata_condition value position = call calldataload (int_arg position ∷ []) false >>= λ load.
    call op_eq (Arg.code load ∷ value ∷ []) false

-- The sums over the cases, and the default action before the jump that is added to it.
unfoldable pub action_lengths : List Case → ℕ
action_lengths [] = 0
action_lengths (c ∷ cases) = len c.action + 6 + action_lengths cases

unfoldable pub eof_lengths : List Case → ℕ
eof_lengths [] = 0
eof_lengths (c ∷ cases) = len c.action + (if is_terminating c then 0 else 3) + eof_lengths cases

abbrev pub or_only : Option Bytecode → Bytecode → Bytecode
or_only none code = code
or_only (some action) code = join action code

-- What the loop carries: the code, and the lengths of the jumps to the end and to the action.
pub record Onion : Type 0 where
  pub code : Bytecode
  pub action_jump_length : ℕ
  pub condition_jump_length : ℕ

unfoldable pub start_legacy : Option Bytecode → List Case → Result Onion
start_legacy default cases = do
  target ← forward (action_lengths cases + 3)
  leave ← jump_to target
  let code = or_only default leave
  ok record {
    code = code;
    action_jump_length = action_lengths cases + 3;
    condition_jump_length = len code + 3;
  }

unfoldable pub wrap_legacy : Case → Onion → Result Onion
wrap_legacy c o = do
  let length_left = o.action_jump_length - (len c.action + 6)
  end ← forward length_left
  leave ← jump_to end
  let action = join (join jumpdest.code c.action) leave
  target ← forward o.condition_jump_length
  test ← jump_if target c.condition
  ok record {
    code = join (join test o.code) action;
    action_jump_length = length_left;
    condition_jump_length = o.condition_jump_length + (len test + len action);
  }

unfoldable pub start_eof : Option Bytecode → List Case → Result Onion
start_eof default cases = do
  leave ← get_item rjump (Item.int (pos (eof_lengths cases)) ∷ [])
  let code = or_only default leave.code
  ok record {
    code = code;
    action_jump_length = eof_lengths cases;
    condition_jump_length = len code;
  }

unfoldable pub eof_action : Case → ℕ → Result Bytecode
eof_action c length_left =
    if is_terminating c
    then ok c.action
    else get_item rjump (Item.int (pos length_left) ∷ []) >>= λ leave. ok (join c.action leave.code)

unfoldable pub wrap_eof : Case → Onion → Result Onion
wrap_eof c o = do
  let length_left = o.action_jump_length - (len c.action + (if is_terminating c then 0 else 3))
  action ← eof_action c length_left
  branch ← get_item rjumpi (Item.int (pos o.condition_jump_length) ∷ [])
  test ← call branch (Arg.code c.condition ∷ []) false
  ok record {
    code = join (join test o.code) action;
    action_jump_length = length_left;
    condition_jump_length = o.condition_jump_length + (len test + len action);
  }

-- The loop over the reversed cases: the first case is wrapped last.
unfoldable pub wrap_all : (Case → Onion → Result Onion) → List Case → Onion → Result Onion
wrap_all wrap [] o = ok o
wrap_all wrap (c ∷ cases) o = wrap_all wrap cases o >>= λ inner. wrap c inner

-- `Switch.__new__`
unfoldable pub switch : Option Bytecode → List Case → EvmCodeType → Result Bytecode
switch default cases legacy = start_legacy default cases >>= λ o.
    wrap_all wrap_legacy cases o >>= λ o. ok (join o.code jumpdest.code)
switch default cases eof_v1 = start_eof default cases >>= λ o.
    wrap_all wrap_eof cases o >>= λ o. ok (join o.code jumpdest.code)
