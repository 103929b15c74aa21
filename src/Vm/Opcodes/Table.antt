-- ===== src/Vm/Opcodes/Table.antt =====
-- Proofs on the tables of opcodes in src/ethereum_test_vm/opcodes.py, by evaluation over the bytes and
-- the members.
use mathlib.Core.List.{Memᴰ}
use execution_spec_tests.Base.{
  ℕ, zero, suc, ◌<◌, ◌≡◌, refl, ◌↔◌, Bool, true, false, ◌&&◌, ◌||◌, List, [], ◌∷◌, length, ◌==◌,
  ==_iff, and_true, arith,
}
use execution_spec_tests.Base.Int.{leb_ℤ, pos, ◌+ℤ◌, ◌-ℤ◌, max_ℤ}
use execution_spec_tests.Vm.Bytecode.{bytes_eq}
use execution_spec_tests.Vm.Bytecode.Validity.{IsValid}
use execution_spec_tests.Vm.Opcode.{Opcode}
use execution_spec_tests.Vm.Opcodes.{opcodes, undefined_opcodes}

-- Some opcode of the list is this byte.
unfoldable pub has_byte : List Opcode → ℕ → Bool
has_byte [] b = false
has_byte (op ∷ ops) b = bytes_eq op.code.bytes (b ∷ []) || has_byte ops b

all_below : ℕ → (ℕ → Bool) → Bool
all_below zero p = true
all_below (suc n) p = p n && all_below n p

all_below_lem : (n : ℕ) (p : ℕ → Bool) (x : ℕ) → all_below n p ≡ true → x < n → p x ≡ true
unfolding all_below
all_below_lem zero p x h lt = absurd (omega arith)
all_below_lem (suc n) p x h lt = ground (arith, all_below_lem n p x)

same : Bool → Bool → Bool
same true b = b
same false true = false
same false false = true

covered : all_below 256 (λ b. has_byte opcodes b || has_byte undefined_opcodes b) ≡ true
unfolding all_below has_byte opcodes undefined_opcodes bytes_eq
covered = refl

overlap :
    all_below 256 (λ b. same (has_byte opcodes b && has_byte undefined_opcodes b) (b == 30)) ≡ true
unfolding all_below has_byte opcodes undefined_opcodes bytes_eq same
overlap = refl

same_iff : (a b : Bool) → same a b ≡ true → (a ≡ true) ↔ (b ≡ true)
unfolding same
same_iff true true h = (λ p. p, λ p. p)
same_iff true false h = (λ p. h, λ p. refl)
same_iff false true h = (λ p. refl, λ p. h)
same_iff false false h = (λ p. p, λ p. p)

-- Every byte is an opcode or an undefined opcode, and 0x1E alone is both.
pub byte_tables :
    (b : ℕ)
    → b < 256
    → ((has_byte opcodes b || has_byte undefined_opcodes b) ≡ true)
      × (((has_byte opcodes b && has_byte undefined_opcodes b) ≡ true) ↔ (b ≡ 30))
byte_tables b h =
    let both = same_iff (has_byte opcodes b && has_byte undefined_opcodes b) (b == 30) (
      all_below_lem 256 (λ b. same (has_byte opcodes b && has_byte undefined_opcodes b) (b == 30)) b
        overlap h) in
    (
      all_below_lem 256 (λ b. has_byte opcodes b || has_byte undefined_opcodes b) b covered h,
      (λ p. (==_iff b 30).0 (both.0 p), λ p. both.1 ((==_iff b 30).1 p)),
    )

check_op : Opcode → Bool
check_op op =
    leb_ℤ (pos 0) op.code.popped_stack_items
    && leb_ℤ (pos 0) op.code.pushed_stack_items
    && leb_ℤ op.code.popped_stack_items op.code.min_stack_height
    && leb_ℤ op.code.min_stack_height op.code.max_stack_height
    && leb_ℤ (op.code.min_stack_height +ℤ op.code.pushed_stack_items -ℤ op.code.popped_stack_items)
        op.code.max_stack_height
    && (length op.code.bytes == 1)

check_all : List Opcode → Bool
check_all [] = true
check_all (op ∷ ops) = check_op op && check_all ops

checked : check_all opcodes ≡ true
unfolding check_all check_op opcodes ◌+ℤ◌ ◌-ℤ◌ max_ℤ
checked = refl

check_op_lem : (op : Opcode) → check_op op ≡ true → IsValid op.code × (length op.code.bytes ≡ 1)
unfolding check_op
check_op_lem op h = ground (arith, h)

check_all_lem :
    (ops : List Opcode) → check_all ops ≡ true → (op : Opcode) → Memᴰ op ops → check_op op ≡ true
unfolding check_all
check_all_lem [] h op m = elim m [ ]
check_all_lem (o ∷ ops) h op (Memᴰ.head e) = rw e (and_true (check_op o) (check_all ops) h).0
check_all_lem (o ∷ ops) h op (Memᴰ.tail m) =
    check_all_lem ops (and_true (check_op o) (check_all ops) h).1 op m

-- Every opcode of the table is one byte, and its counts meet the invariant.
pub opcodes-IsValid : (op : Opcode) → Memᴰ op opcodes → IsValid op.code × (length op.code.bytes ≡ 1)
opcodes-IsValid op m = check_op_lem op (check_all_lem opcodes checked op m)
