-- ===== src/Vm/Opcode.antt =====
-- src/ethereum_test_vm/opcodes.py: the class Opcode, with the data portion that `[]` sets and the
-- stack arguments that a call puts in front.
pub mod Encoders
mod Examples
use text.Mathlib.Text.{◌==◌ as str_eq}
use execution_spec_tests.Base.{
  ℕ, zero, suc, ◌+◌, ◌-◌, ◌*◌, ◌/◌, ◌%◌, ◌^◌, max, Bool, true, false, not, ◌&&◌, ◌||◌, Option, none,
  some, List, [], ◌∷◌, ◌++◌, String, length, replicate, Result, ok, err, guard, ◌>>=◌, ◌>>◌, ◌==◌,
  ltb, leb, if◌then◌else◌, value_error, type_error, assertion_error, overflow_error, index_error,
  get_elem?,
}
use execution_spec_tests.Base.Int.{ℤ, pos, negsuc, ◌+ℤ◌, ◌-ℤ◌, ◌==ℤ◌, max_ℤ}
use execution_spec_tests.Vm.Bytecode.{Bytecode, empty, join}

-- The formatters and the modifiers that the table of opcodes uses.
pub data Formatter : Type 0 where
  no_formatter rjumpv_encoder exchange_encoder : Formatter

pub data Modifier : Type 0 where
  no_modifier swapn_modifier dupn_modifier exchange_modifier : Modifier

-- An argument of a call: an integer, bytes, or bytecode.
pub data Arg : Type 0 where
  int : ℤ → Arg
  raw : List ℕ → Arg
  code : Bytecode → Arg

pub record Opcode : Type 0 where
  pub code : Bytecode
  pub data_portion_length : ℕ
  pub data_portion_formatter : Formatter
  pub stack_properties_modifier : Modifier
  pub unchecked_stack : Bool
  pub kwargs : List String
  pub kwargs_defaults : List (String × Arg)

-- The keyword arguments of the constructor.
pub record Props : Type 0 where
  pub popped_stack_items : ℕ
  pub pushed_stack_items : ℕ
  pub max_stack_height : Option ℕ
  pub min_stack_height : Option ℕ
  pub data_portion_length : ℕ
  pub data_portion_formatter : Formatter
  pub stack_properties_modifier : Modifier
  pub unchecked_stack : Bool
  pub terminating : Bool
  pub kwargs : List String
  pub kwargs_defaults : List (String × Arg)

-- Their defaults.
abbrev pub plain : Props
plain = record {
  popped_stack_items = 0;
  pushed_stack_items = 0;
  max_stack_height = none;
  min_stack_height = none;
  data_portion_length = 0;
  data_portion_formatter = no_formatter;
  stack_properties_modifier = no_modifier;
  unchecked_stack = false;
  terminating = false;
  kwargs = [];
  kwargs_defaults = [];
}

abbrev pub given {ℓ} : {A : Type ℓ} → Option A → A → A
given none d = d
given (some a) d = a

-- `Opcode.__new__` on bytes; the counts of an opcode are natural numbers.
abbrev pub new : List ℕ → String → Props → Opcode
new bytes name p =
    let low = given p.min_stack_height p.popped_stack_items in
    record {
      code = record {
        name = name;
        bytes = bytes;
        popped_stack_items = pos p.popped_stack_items;
        pushed_stack_items = pos p.pushed_stack_items;
        max_stack_height =
            given (elim p.max_stack_height [ none ↦ none | some h ↦ some (pos h) ])
              (max_ℤ (pos low -ℤ pos p.popped_stack_items +ℤ pos p.pushed_stack_items) (pos low));
        min_stack_height = pos low;
        terminating = p.terminating;
      };
      data_portion_length = p.data_portion_length;
      data_portion_formatter = p.data_portion_formatter;
      stack_properties_modifier = p.stack_properties_modifier;
      unchecked_stack = p.unchecked_stack;
      kwargs = p.kwargs;
      kwargs_defaults = p.kwargs_defaults;
    }

-- `_get_int_size`: the loop shifts by a byte until nothing is left; a number is fuel for itself.
unfoldable pub size_from : ℕ → ℕ → ℕ
size_from zero n = 0
size_from (suc fuel) n = if n == 0 then 0 else suc (size_from fuel (n / 256))

unfoldable pub get_int_size : ℤ → ℕ
get_int_size (negsuc n) = 32
get_int_size (pos n) = size_from n n

-- The low bytes of a number, the highest first.
unfoldable pub low_bytes : ℕ → ℕ → List ℕ
low_bytes zero n = []
low_bytes (suc k) n = n / 256 ^ k % 256 ∷ low_bytes k n

-- Python's `n.to_bytes(length, "big", signed=n < 0)`.
unfoldable pub int_to_bytes : ℕ → ℤ → Result (List ℕ)
int_to_bytes k (pos n) = if ltb n (256 ^ k) then ok (low_bytes k n) else err overflow_error
int_to_bytes k (negsuc n) =
    if ltb (2 * n) (256 ^ k) then ok (low_bytes k (256 ^ k - 1 - n)) else err overflow_error

-- Python's `int.from_bytes(bytes, "big")`, with the number that the bytes before stand for.
unfoldable pub from_bytes : ℕ → List ℕ → ℕ
from_bytes n [] = n
from_bytes n (b ∷ bs) = from_bytes (n * 256 + b) bs

-- An argument of `[]`: bytes, or an integer. A hex string stands for its bytes where the portion has a
-- fixed length; a formatter is given bytes and integers only.
pub data Item : Type 0 where
  int : ℤ → Item
  raw : List ℕ → Item

-- The data portion of a fixed length.
unfoldable pub fixed_portion : ℕ → Item → Result (List ℕ)
fixed_portion k (raw bytes) =
    if leb (length bytes) k
    then ok (replicate (k - length bytes) 0 ++ bytes)
    else err assertion_error
fixed_portion k (int n) = int_to_bytes k n

-- The offsets of `_rjumpv_encoder`, of which it leaves out what is no integer.
unfoldable pub signed_offset : ℤ → Result (List ℕ)
signed_offset (negsuc n) = int_to_bytes 2 (negsuc n)
signed_offset (pos n) = if ltb n 32768 then ok (low_bytes 2 n) else err overflow_error

unfoldable pub offsets : List Item → Result (List ℕ)
offsets [] = ok []
offsets (raw b ∷ items) = offsets items
offsets (int n ∷ items) = signed_offset n >>= λ b. offsets items >>= λ rest. ok (b ++ rest)

unfoldable pub encode_rjumpv : List Item → Result (List ℕ)
encode_rjumpv (raw bytes ∷ []) = ok bytes
encode_rjumpv [] = err overflow_error
encode_rjumpv (item ∷ items) = int_to_bytes 1 (pos (length items)) >>= λ count.
    offsets (item ∷ items) >>= λ rest. ok (count ++ rest)

-- The immediate of two stack positions.
unfoldable pub exchange_pair : ℕ → Item → Result (List ℕ)
exchange_pair x (raw b) = err type_error
exchange_pair x (int (negsuc n)) = err assertion_error
exchange_pair x (int (pos y)) =
    guard (leb (x + 1) y && leb y (x + 16)) assertion_error
    >> int_to_bytes 1 (pos ((x - 2) * 16 + (y - x - 1)))

unfoldable pub encode_exchange : List Item → Result (List ℕ)
encode_exchange (int n ∷ []) = elim n [
  | pos n ↦ int_to_bytes 1 (pos n)
  | negsuc n ↦ err overflow_error
]
encode_exchange (raw b ∷ []) = err type_error
encode_exchange (raw b ∷ y ∷ []) = err type_error
encode_exchange (int (negsuc n) ∷ y ∷ []) = err assertion_error
encode_exchange (int (pos x) ∷ y ∷ []) =
    guard (leb 2 x && leb x 17) assertion_error >> exchange_pair x y
encode_exchange [] = err assertion_error
encode_exchange (x ∷ y ∷ z ∷ items) = err assertion_error

-- The counts that a modifier returns for a data portion: popped, pushed, least and greatest height.
abbrev pub Counts : Type 0
Counts = ℕ × ℕ × ℕ × ℕ

unfoldable pub modified : Modifier → List ℕ → Option Counts
modified no_modifier portion = none
modified swapn_modifier portion = let n = from_bytes 0 portion + 1 in some (0, 0, n + 1, n + 1)
modified dupn_modifier portion = let n = from_bytes 0 portion + 1 in some (0, 1, n, n + 1)
modified exchange_modifier portion =
    let n = from_bytes 0 portion / 16 + 1 in
    let m = from_bytes 0 portion % 16 + 1 in some (0, 0, n + m + 1, n + m + 1)

abbrev pub has_data_portion : Opcode → Bool
has_data_portion op =
    ltb 0 op.data_portion_length
    || (elim op.data_portion_formatter [ no_formatter ↦ false | _ ↦ true ])

-- `op[a, b]` passes a tuple as the one argument: a formatter gets its members, a portion of a fixed
-- length refuses it, as it does the empty tuple.
unfoldable pub data_portion : Opcode → List Item → Result (List ℕ)
data_portion op items = elim op.data_portion_formatter [
  | rjumpv_encoder ↦ encode_rjumpv items
  | exchange_encoder ↦ encode_exchange items
  | no_formatter ↦ elim items [
    | [] ↦ err type_error
    | item ∷ rest ↦ elim rest [
      | [] ↦ fixed_portion op.data_portion_length item
      | _ ∷ _ ↦ err type_error
    ]
  ]
]

-- The opcode with its data portion behind its bytes, and with the modified counts if any.
unfoldable pub with_portion : Opcode → List ℕ → Option Counts → Opcode
with_portion op portion none = record op {
  code = record (op.code) { bytes = op.code.bytes ++ portion };
  data_portion_length = 0;
  data_portion_formatter = no_formatter;
  stack_properties_modifier = no_modifier;
}
with_portion op portion (some (popped, pushed, low, high)) = record op {
  code = record (op.code) {
    bytes = op.code.bytes ++ portion;
    popped_stack_items = pos popped;
    pushed_stack_items = pos pushed;
    min_stack_height = pos low;
    max_stack_height = pos high;
  };
  data_portion_length = 0;
  data_portion_formatter = no_formatter;
  stack_properties_modifier = no_modifier;
}

-- `__getitem__`; the new opcode keeps its name here.
unfoldable pub get_item : Opcode → List Item → Result Opcode
get_item op items =
    guard (has_data_portion op) value_error
    >> (data_portion op items >>= λ portion.
        ok (with_portion op portion (modified op.stack_properties_modifier portion)))
