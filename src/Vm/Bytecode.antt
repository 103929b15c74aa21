-- ===== src/Vm/Bytecode.antt =====
-- src/ethereum_test_vm/bytecode.py: the class `Bytecode`, its constructor and its operators.
pub mod Effect
pub mod Validity
pub mod Execution
mod Examples
use execution_spec_tests.Base.{
  ℕ, zero, suc, ◌≡◌, Bool, true, false, ◌&&◌, Option, none, some, List, [], ◌∷◌, ◌++◌, String,
  length, Result, ok, err, type_error, value_error, assertion_error, not_implemented, ◌>>=◌, ◌==◌,
  if◌then◌else◌,
}
use execution_spec_tests.Base.Int.{ℤ, pos, negsuc, ◌+ℤ◌, ◌-ℤ◌, ◌==ℤ◌, min_ℤ, max_ℤ}

pub record Bytecode : Type 0 where
  pub name : String
  pub bytes : List ℕ
  pub popped_stack_items : ℤ
  pub pushed_stack_items : ℤ
  pub max_stack_height : ℤ
  pub min_stack_height : ℤ
  pub terminating : Bool

-- What the first argument of the constructor may be.
pub data Source : Type 0 where
  absent : Source
  of_bytecode : Bytecode → Source
  of_bytes : List ℕ → Source
  other : Source

abbrev pub empty : String → Bytecode
empty name = record {
  name = name;
  bytes = [];
  popped_stack_items = pos 0;
  pushed_stack_items = pos 0;
  max_stack_height = pos 0;
  min_stack_height = pos 0;
  terminating = false;
}

abbrev or_else : Option ℤ → ℤ → ℤ
or_else none d = d
or_else (some n) d = n

abbrev required : Option ℤ → Result ℤ
required none = err assertion_error
required (some n) = ok n

-- `Bytecode.__new__`
unfoldable pub new :
    Source → (popped pushed max_height min_height : Option ℤ) → Bool → String → Result Bytecode
unfolding max_ℤ
new absent popped pushed max_height min_height terminating name = ok (empty name)
new (of_bytecode b) popped pushed max_height min_height terminating name = ok b
new (of_bytes bytes) popped pushed max_height min_height terminating name = do
  p ← required popped
  q ← required pushed
  ok record {
    name = name;
    bytes = bytes;
    popped_stack_items = p;
    pushed_stack_items = q;
    max_stack_height = or_else max_height (max_ℤ p q);
    min_stack_height = or_else min_height p;
    terminating = terminating;
  }
new other popped pushed max_height min_height terminating name = err type_error

-- The body of `__add__` for two bytecodes, with the source's stages of the execution of `a + b`.
unfoldable pub join : Bytecode → Bytecode → Bytecode
join a b =
    let a_pop = a.popped_stack_items in
    let a_push = a.pushed_stack_items in
    let a_min = a.min_stack_height in
    let a_max = a.max_stack_height in
    let b_pop = b.popped_stack_items in
    let b_push = b.pushed_stack_items in
    let b_min = b.min_stack_height in
    let b_max = b.max_stack_height in
    let a_start = pos 0 in
    let a_bottom = a_start -ℤ a_pop in
    let b_bottom = a_bottom +ℤ a_push -ℤ b_pop in
    let c_bottom = min_ℤ a_bottom b_bottom in
    let at_a = c_bottom ==ℤ a_bottom in
    let c_pop = if at_a then a_pop else a_pop -ℤ a_push +ℤ b_pop in
    let c_push = if at_a then a_push -ℤ b_pop +ℤ b_push else b_push in
    let c_min = max_ℤ a_min (b_min +ℤ a_pop -ℤ a_push) in
    let c_max = max_ℤ (c_min +ℤ a_max -ℤ a_min) (c_min -ℤ a_pop +ℤ a_push +ℤ b_max -ℤ b_min) in
    record {
      name = "";
      bytes = a.bytes ++ b.bytes;
      popped_stack_items = c_pop;
      pushed_stack_items = c_push;
      max_stack_height = c_max;
      min_stack_height = c_min;
      terminating = b.terminating;
    }

-- What the other operand of `+` may be.
pub data Operand : Type 0 where
  nothing : Operand
  int : ℤ → Operand
  raw : List ℕ → Operand
  code : Bytecode → Operand

-- `Bytecode.__add__`
unfoldable pub add : Bytecode → Operand → Result Bytecode
add a nothing = ok a
add a (int n) = if n ==ℤ pos 0 then ok a else err assertion_error
add a (raw bytes) = ok (record a { bytes = a.bytes ++ bytes; name = "" })
add a (code b) = ok (join a b)

-- `Bytecode.__radd__`: the same tests, with no case for raw bytes.
unfoldable pub radd : Bytecode → Operand → Result Bytecode
radd a nothing = ok a
radd a (int n) = if n ==ℤ pos 0 then ok a else err assertion_error
radd a (raw bytes) = err assertion_error
radd a (code b) = ok (join b a)

-- The loop of `__mul__`: `output += self`, as often as is left.
unfoldable pub join_times : ℕ → Bytecode → Bytecode → Bytecode
join_times zero b output = output
join_times (suc n) b output = join_times n b (join output b)

-- `Bytecode.__mul__`
unfoldable pub mul : Bytecode → ℤ → Result Bytecode
mul b (negsuc n) = err value_error
mul b (pos zero) = ok (empty "")
mul b (pos (suc n)) = ok (join_times n b b)

-- What `==` may compare with; an object that converts to bytes stands for those bytes.
pub data Comparand : Type 0 where
  code : Bytecode → Comparand
  raw : List ℕ → Comparand
  other : Comparand

unfoldable pub bytes_eq : List ℕ → List ℕ → Bool
bytes_eq [] [] = true
bytes_eq (x ∷ xs) (y ∷ ys) = (x == y) && bytes_eq xs ys
bytes_eq _ _ = false

-- `Bytecode.__eq__`
unfoldable pub eq : Bytecode → Comparand → Result Bool
eq a (code b) = ok (
    bytes_eq a.bytes b.bytes
    && (a.popped_stack_items ==ℤ b.popped_stack_items)
    && (a.pushed_stack_items ==ℤ b.pushed_stack_items)
    && (a.max_stack_height ==ℤ b.max_stack_height)
    && (a.min_stack_height ==ℤ b.min_stack_height))
eq a (raw bytes) = ok (bytes_eq a.bytes bytes)
eq a other = err not_implemented

-- `Bytecode.__len__`
unfoldable pub len : Bytecode → ℕ
len b = length b.bytes

-- Python's `sum(codes)`: it starts from the integer 0, which `__radd__` takes for no code.
unfoldable pub sum_from : Bytecode → List Bytecode → Bytecode
sum_from acc [] = acc
sum_from acc (b ∷ bs) = sum_from (join acc b) bs
