-- ===== src/Vm/Opcodes/Counts.antt =====
-- Proofs on the stack counts of the members of Opcodes in src/ethereum_test_vm/opcodes.py, against a
-- table of the instructions by their bytes.
use execution_spec_tests.Base.{
  ℕ, ◌+◌, ◌-◌, max, ◌≡◌, Bool, true, false, ◌&&◌, List, [], ◌∷◌, ◌==◌, ltb, if◌then◌else◌,
}
use execution_spec_tests.Base.Int.{ℤ, pos, negsuc}
use execution_spec_tests.Vm.Bytecode.{Bytecode}
use execution_spec_tests.Vm.Opcode.{Opcode}

-- What an instruction does to the stack: the items below its operands that it reads and keeps, the
-- operands that it takes, and the results that it leaves.
pub record Effect : Type 0 where
  pub kept : ℕ
  pub taken : ℕ
  pub left : ℕ

-- The instructions from a first byte to a last one take and leave as many items.
abbrev pub Row : Type 0
Row = ℕ × ℕ × ℕ × ℕ

-- The instructions other than DUP, SWAP and LOG, by increasing bytes. A byte that no row covers is
-- one of an instruction that takes and leaves nothing.
abbrev pub rows : List Row
rows =
    -- Arithmetic, comparison, bits and hashing.
    (0x01, 0x07, 2, 1)
    ∷ (0x08, 0x09, 3, 1)
    ∷ (0x0a, 0x0b, 2, 1)
    ∷ (0x10, 0x14, 2, 1)
    ∷ (0x15, 0x15, 1, 1)
    ∷ (0x16, 0x18, 2, 1)
    ∷ (0x19, 0x19, 1, 1)
    ∷ (0x1a, 0x1d, 2, 1)
    ∷ (0x1e, 0x1e, 1, 1)
    ∷ (0x20, 0x20, 2, 1)
    -- Environment and block.
    ∷ (0x30, 0x30, 0, 1)
    ∷ (0x31, 0x31, 1, 1)
    ∷ (0x32, 0x34, 0, 1)
    ∷ (0x35, 0x35, 1, 1)
    ∷ (0x36, 0x36, 0, 1)
    ∷ (0x37, 0x37, 3, 0)
    ∷ (0x38, 0x38, 0, 1)
    ∷ (0x39, 0x39, 3, 0)
    ∷ (0x3a, 0x3a, 0, 1)
    ∷ (0x3b, 0x3b, 1, 1)
    ∷ (0x3c, 0x3c, 4, 0)
    ∷ (0x3d, 0x3d, 0, 1)
    ∷ (0x3e, 0x3e, 3, 0)
    ∷ (0x3f, 0x40, 1, 1)
    ∷ (0x41, 0x48, 0, 1)
    ∷ (0x49, 0x49, 1, 1)
    ∷ (0x4a, 0x4a, 0, 1)
    -- Stack, memory, storage and jumps, and PUSH0 to PUSH32.
    ∷ (0x50, 0x50, 1, 0)
    ∷ (0x51, 0x51, 1, 1)
    ∷ (0x52, 0x53, 2, 0)
    ∷ (0x54, 0x54, 1, 1)
    ∷ (0x55, 0x55, 2, 0)
    ∷ (0x56, 0x56, 1, 0)
    ∷ (0x57, 0x57, 2, 0)
    ∷ (0x58, 0x5a, 0, 1)
    ∷ (0x5c, 0x5c, 1, 1)
    ∷ (0x5d, 0x5d, 2, 0)
    ∷ (0x5e, 0x5e, 3, 0)
    ∷ (0x5f, 0x7f, 0, 1)
    -- EOF.
    ∷ (0xd0, 0xd0, 1, 1)
    ∷ (0xd1, 0xd2, 0, 1)
    ∷ (0xd3, 0xd3, 3, 0)
    ∷ (0xe1, 0xe2, 1, 0)
    ∷ (0xe6, 0xe6, 0, 1)
    ∷ (0xec, 0xec, 4, 1)
    ∷ (0xed, 0xed, 5, 1)
    ∷ (0xee, 0xee, 2, 0)
    -- Calls and creation.
    ∷ (0xf0, 0xf0, 3, 1)
    ∷ (0xf1, 0xf2, 7, 1)
    ∷ (0xf3, 0xf3, 2, 0)
    ∷ (0xf4, 0xf4, 6, 1)
    ∷ (0xf5, 0xf5, 4, 1)
    ∷ (0xf7, 0xf7, 1, 1)
    ∷ (0xf8, 0xf8, 4, 1)
    ∷ (0xf9, 0xf9, 3, 1)
    ∷ (0xfa, 0xfa, 6, 1)
    ∷ (0xfb, 0xfb, 3, 1)
    ∷ (0xfd, 0xfd, 2, 0)
    ∷ (0xff, 0xff, 1, 0)
    ∷ []

abbrev within : ℕ → ℕ → ℕ → Bool
within first last b = ltb b (last + 1) && ltb first (b + 1)

row_of : List Row → ℕ → Effect
row_of [] b = record { kept = 0; taken = 0; left = 0 }
row_of ((first, last, taken, left) ∷ rs) b =
    let rest = row_of rs b in
    if within first last b then record { kept = 0; taken = taken; left = left } else rest

-- DUP reads the item that it copies, SWAP the two that it exchanges, and LOG takes its topics.
pub effect_of : ℕ → Effect
effect_of b =
    if within 0x80 0x8f b
    then record { kept = b - 0x7f; taken = 0; left = 1 }
    else if within 0x90 0x9f b
    then record { kept = b - 0x8e; taken = 0; left = 0 }
    else if within 0xa0 0xa4 b
    then record { kept = 0; taken = 2 + (b - 0xa0); left = 0 }
    else row_of rows b

-- All four counts of a bytecode are those of one instruction with this effect: the height needed is
-- that of the items kept and taken, and the greatest height is that before it or after it.
pub record Has (e : Effect) (c : Bytecode) : Type 0 where
  pub popped : c.popped_stack_items ≡ pos e.taken
  pub pushed : c.pushed_stack_items ≡ pos e.left
  pub needed : c.min_stack_height ≡ pos (e.kept + e.taken)
  pub reached : c.max_stack_height ≡ pos (e.kept + max e.taken e.left)

is_pos : ℤ → ℕ → Bool
is_pos (pos n) m = n == m
is_pos (negsuc n) m = false

has_effect : Effect → Bytecode → Bool
has_effect e c =
    is_pos c.popped_stack_items e.taken
    && is_pos c.pushed_stack_items e.left
    && is_pos c.min_stack_height (e.kept + e.taken)
    && is_pos c.max_stack_height (e.kept + max e.taken e.left)

one_byte : List ℕ → Bytecode → Bool
one_byte [] c = false
one_byte (b ∷ []) c = has_effect (effect_of b) c
one_byte (b ∷ _ ∷ _) c = false

each : List Opcode → Bool
each [] = true
each (op ∷ ops) = one_byte op.code.bytes op.code && each ops
