-- ===== src/Vm/Call/Argument.antt =====
-- Proofs on the integers that src/ethereum_test_vm/opcodes.py takes as stack arguments.
use execution_spec_tests.Base.{
  ℕ, suc, ◌+◌, ◌-◌, ◌*◌, ◌%◌, ◌^◌, ◌<◌, ◌≤◌, ◌≡◌, refl, ap, ◌∙◌, false, List, ◌∷◌, length, arith,
  leb, ltb, lt→ltb, Result, ok, err, value_error, overflow_error, inl, inr, Bool-cases,
}
use native.Mathlib.Nat.{mod-eq_of_lt, pow-le-pow_right}
use execution_spec_tests.Base.Int.{ℤ, pos, negsuc}
use execution_spec_tests.Vm.Bytecode.{Bytecode}
use execution_spec_tests.Vm.Opcode.{
  Arg, size_from, get_int_size, low_bytes, int_to_bytes, from_bytes,
}
use execution_spec_tests.Vm.Call.{push_constant, stack_argument}
use execution_spec_tests.Vm.Call.Bytes.{
  size_lem, length-low_bytes, from_bytes-low_bytes, push_constant_lem, stack_argument_int,
}

-- The integers that a word of 256 bits can hold, with or without a sign, and their words.
abbrev pub InWord : ℤ → Type 0
InWord (pos n) = n < 2 ^ 256
InWord (negsuc n) = n < 2 ^ 255

abbrev pub word : ℤ → ℕ
word (pos n) = n
word (negsuc n) = 2 ^ 256 - 1 - n

low_bytes_lem : (k n : ℕ) → n < 256 ^ k → from_bytes 0 (low_bytes k n) ≡ n
low_bytes_lem k n h = from_bytes-low_bytes k 0 n ∙ no_more (256 ^ k) (n % 256 ^ k) ∙ mod-eq_of_lt h
  where
    no_more : (x y : ℕ) → 0 * x + y ≡ y
    no_more x y = omega arith

negative_bytes :
    (n : ℕ) → n < 2 ^ 255 → int_to_bytes 32 (negsuc n) ≡ ok (low_bytes 32 (2 ^ 256 - 1 - n))
unfolding int_to_bytes
negative_bytes n h = rw (lt→ltb (2 * n) (256 ^ 32) (omega arith)) refl

negative_argument :
    (n : ℕ) (c : Bytecode)
    → n < 2 ^ 255
    → push_constant (low_bytes 32 (2 ^ 256 - 1 - n)) ≡ ok c
    → stack_argument (Arg.int (negsuc n)) ≡ ok c
unfolding stack_argument get_int_size
negative_argument n c h e = rw (negative_bytes n h) e

-- An integer in the range of a word becomes one push of at most 32 bytes of data, which are the word
-- of it, in two's complement if it is negative.
pub integer_argument :
    (n : ℤ)
    → InWord n
    → (c : Bytecode) × (portion : List ℕ) × (stack_argument (Arg.int n) ≡ ok c)
      × (c.bytes ≡ (95 + length portion) ∷ portion)
      × (0 < length portion)
      × (length portion ≤ 32)
      × (from_bytes 0 portion ≡ word n)
integer_argument (pos n) h =
    let (j, c, e, b, below, small) = stack_argument_int n h in
    let size = length-low_bytes (suc j) n in
    (
      c,
      low_bytes (suc j) n,
      e,
      b ∙ ap (λ k. k ∷ low_bytes (suc j) n) (omega arith),
      omega arith,
      omega arith,
      low_bytes_lem (suc j) n below,
    )
integer_argument (negsuc n) h =
    let size = length-low_bytes 32 (2 ^ 256 - 1 - n) in
    let (c, e, b) = push_constant_lem 31 (low_bytes 32 (2 ^ 256 - 1 - n)) size (omega arith) in
    (
      c,
      low_bytes 32 (2 ^ 256 - 1 - n),
      negative_argument n c h e,
      b ∙ ap (λ k. k ∷ low_bytes 32 (2 ^ 256 - 1 - n)) (omega arith),
      omega arith,
      omega arith,
      low_bytes_lem 32 (2 ^ 256 - 1 - n) (omega arith),
    )

-- The error for an integer that no word holds: one that is too large is refused by its size, one that
-- is too low by the conversion.
abbrev pub range_error : ℤ → Result Bytecode
range_error (pos n) = err value_error
range_error (negsuc n) = err overflow_error

too_large : (n : ℕ) → 2 ^ 256 ≤ n → leb (size_from n n) 32 ≡ false
too_large n h = elim (Bool-cases (leb (size_from n n) 32)) [
  | inr e ↦ e
  | inl e ↦
      let fits : size_from n n ≤ 32 = ground (arith, e) in
      absurd
        (omega (arith, size_lem n n (omega arith), pow-le-pow_right {n = 256} (omega arith) fits))
]

-- An integer outside that range is no stack argument: the call raises ValueError if it is too large
-- and OverflowError if it is too low.
pub integer_refused : (n : ℤ) → ¬ InWord n → stack_argument (Arg.int n) ≡ range_error n
unfolding stack_argument get_int_size int_to_bytes
integer_refused (pos n) h = rw (too_large n (omega (arith, h))) refl
integer_refused (negsuc n) h =
    let low : ltb (2 * n) (256 ^ 32) ≡ false = ground (arith, h) in rw low refl
