-- ===== src/Vm/Call.antt =====
-- src/ethereum_test_vm/opcodes.py: the call of an opcode, which puts its arguments on the stack, and
-- the macros.
pub mod Bytes
pub mod Argument
mod Examples
use text.Mathlib.Text.{◌==◌ as str_eq}
use execution_spec_tests.Base.{
  ℕ, zero, suc, ◌+◌, ◌-◌, Bool, true, false, not, ◌&&◌, ◌||◌, Option, none, some, List, [], ◌∷◌,
  ◌++◌, String, length, take, drop, replicate, Result, ok, err, guard, ◌>>=◌, ◌>>◌, ◌==◌, ltb, leb,
  if◌then◌else◌, value_error, assertion_error, index_error, get_elem?,
}
use execution_spec_tests.Base.Int.{ℤ, pos, negsuc, ◌==ℤ◌}
use execution_spec_tests.Vm.Bytecode.{Bytecode, empty, join}
use execution_spec_tests.Vm.Opcode.{
  Opcode, Arg, Item, given, get_int_size, int_to_bytes, low_bytes, has_data_portion, get_item,
}
use execution_spec_tests.Vm.Opcodes.{push_opcodes}

-- `_push_opcodes_byte_list[data_size - 1][arg]`
unfoldable pub push_constant : List ℕ → Result Bytecode
push_constant portion = elim (get_elem? push_opcodes (length portion - 1)) [
  | none ↦ err index_error
  | some op ↦ get_item op (Item.raw portion ∷ []) >>= λ pushed. ok pushed.code
]

-- Python's `lstrip(b"\0")`.
abbrev pub lstrip : List ℕ → List ℕ
lstrip [] = []
lstrip (b ∷ bs) = if b == 0 then lstrip bs else b ∷ bs

-- Zero takes one byte.
abbrev pub or_zero : List ℕ → List ℕ
or_zero [] = 0 ∷ []
or_zero (b ∷ bs) = b ∷ bs

abbrev pub at_least_one : ℕ → ℕ
at_least_one zero = 1
at_least_one (suc n) = suc n

-- `_stack_argument_to_bytecode`
unfoldable pub stack_argument : Arg → Result Bytecode
stack_argument (Arg.code b) = ok b
stack_argument (Arg.int n) =
    guard (leb (get_int_size n) 32) value_error
    >> (int_to_bytes (at_least_one (get_int_size n)) n >>= push_constant)
stack_argument (Arg.raw bytes) = push_constant (or_zero (lstrip bytes))

-- The loop of `__call__`: the last argument is pushed first.
unfoldable pub push_args : List Arg → Result Bytecode
push_args [] = ok (empty "")
push_args (a ∷ args) = push_args args >>= λ pre. stack_argument a >>= λ c. ok (join pre c)

-- `__call__` of an opcode without a data portion.
unfoldable pub call_plain : Opcode → List Arg → Bool → Result Bytecode
call_plain op args unchecked =
    guard (op.code.popped_stack_items ==ℤ pos (length args) || unchecked || op.unchecked_stack)
      value_error
    >> (push_args args >>= λ pre. ok (join pre op.code))

-- The last argument, and those before it.
abbrev pub split_last : Arg → List Arg → Arg × List Arg
split_last a [] = (a, [])
split_last a (b ∷ args) = let rest = split_last b args in (rest.0, a ∷ rest.1)

abbrev pub item_of : Arg → Result Item
item_of (Arg.int n) = ok (Item.int n)
item_of (Arg.raw b) = ok (Item.raw b)
item_of (Arg.code b) = err assertion_error

-- `__call__` of an opcode with a data portion: the last argument is the portion, and the call of the
-- opcode that results does not hand `unchecked` on.
unfoldable pub call_portion : Opcode → List Arg → Result Bytecode
call_portion op [] = err value_error
call_portion op (a ∷ args) = item_of (split_last a args).0 >>= λ item.
    get_item op (item ∷ []) >>= λ filled. call_plain filled (split_last a args).1 false

unfoldable pub call : Opcode → List Arg → Bool → Result Bytecode
call op args unchecked =
    if has_data_portion op then call_portion op args else call_plain op args unchecked

abbrev pub find_name : String → List (String × Arg) → Option Arg
find_name name [] = none
find_name name ((other, a) ∷ named) = if str_eq other name then some a else find_name name named

abbrev pub contains_name : String → List String → Bool
contains_name name [] = false
contains_name name (other ∷ names) = str_eq other name || contains_name name names

abbrev pub all_known : List String → List (String × Arg) → Bool
all_known names [] = true
all_known names ((name, a) ∷ named) = contains_name name names && all_known names named

-- The arguments in the order of the opcode's keywords, with the defaults, and zero for the others.
unfoldable pub named_args : List String → List (String × Arg) → List (String × Arg) → List Arg
named_args [] named defaults = []
named_args (name ∷ names) named defaults =
    given (find_name name named) (given (find_name name defaults) (Arg.int (pos 0)))
    ∷ named_args names named defaults

-- `__call__` with keyword arguments alone.
unfoldable pub call_named : Opcode → List (String × Arg) → Bool → Result Bytecode
call_named op [] unchecked = call op [] unchecked
call_named op (n ∷ named) unchecked =
    if has_data_portion op
    then err value_error
    else guard (all_known op.kwargs (n ∷ named)) value_error
      >> call_plain op (named_args op.kwargs (n ∷ named) op.kwargs_defaults) unchecked

-- `Macro.__call__` without an operation: here the first argument is pushed first.
unfoldable pub macro_args : Bytecode → List Arg → Result Bytecode
macro_args acc [] = ok acc
macro_args acc (a ∷ args) = stack_argument a >>= λ c. macro_args (join acc c) args

unfoldable pub call_macro : Bytecode → List Arg → Result Bytecode
call_macro macro args = macro_args (empty "") args >>= λ pre. ok (join pre macro)
