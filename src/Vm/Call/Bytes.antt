-- ===== src/Vm/Call/Bytes.antt =====
-- Proofs on the bytes that src/ethereum_test_vm/opcodes.py makes of numbers, and on its pushes.
use Prim.Native.Nat.pow
use native.Mathlib.Nat.{mod-add-div', div-div-eq-div-mul, add-mul, mul_right_comm, mul_assoc}
use execution_spec_tests.Base.{
  ℕ, zero, suc, ◌+◌, ◌-◌, ◌*◌, ◌/◌, ◌%◌, ◌^◌, ◌<◌, ◌≤◌, ◌≡◌, refl, sym, ap, ◌∙◌, subst, inl, inr,
  Bool, true, false, ◌&&◌, none, some, List, [], ◌∷◌, length, arith, ◌==◌, ==_iff, leb, ltb, lt→ltb,
  Bool-cases, get_elem?, ok, same_bytes, same_bytes_iff, ◌++◌,
}
use execution_spec_tests.Base.Int.{pos}
use execution_spec_tests.Vm.Bytecode.{Bytecode}
use execution_spec_tests.Vm.Opcode.{
  Opcode, Arg, Item, Formatter, Modifier, no_formatter, no_modifier, rjumpv_encoder,
  exchange_encoder, swapn_modifier, dupn_modifier, exchange_modifier, size_from, get_int_size,
  low_bytes, int_to_bytes, from_bytes, fixed_portion, data_portion, modified, with_portion,
  get_item,
}
use execution_spec_tests.Vm.Opcodes.{push_opcodes}
use execution_spec_tests.Vm.Call.{push_constant, at_least_one, stack_argument}

-- As many bytes as `_get_int_size` counts are enough, and no fewer.
pub size_lem : (fuel n : ℕ) → n ≤ fuel → n < 256 ^ size_from fuel n
unfolding size_from
size_lem zero n h = omega arith
size_lem (suc fuel) n h = elim (Bool-cases (n == 0)) [
  | inl e ↦ rw e (let p : n ≡ 0 = (==_iff n 0).0 e in omega arith)
  | inr e ↦
      let apart : 0 < n = ground (arith, e) in
      let rest = size_lem fuel (n / 256) (omega arith) in rw (e, pow.suc) (omega (arith, rest))
]

pub size_least : (fuel n k : ℕ) → n < 256 ^ k → size_from fuel n ≤ k
unfolding size_from
size_least zero n k h = omega arith
size_least (suc fuel) n zero h = rw ((==_iff n 0).1 (omega arith)) (omega arith)
size_least (suc fuel) n (suc k) h = elim (Bool-cases (n == 0)) [
  | inl e ↦ rw e (omega arith)
  | inr e ↦
      let smaller : n / 256 < 256 ^ k = omega (arith, pow.suc 256 k) in
      rw e (omega (arith, size_least fuel (n / 256) k smaller))
]

pub length-low_bytes : (k n : ℕ) → length (low_bytes k n) ≡ k
unfolding low_bytes
length-low_bytes zero n = refl
length-low_bytes (suc k) n = ap suc (length-low_bytes k n)

cancel_lem :
    (acc t u p a b n r : ℕ)
    → a + r * p ≡ n
    → b + u * (p * 256) ≡ n
    → r ≡ t + u * 256
    → (acc * 256 + t) * p + a ≡ acc * (p * 256) + b
cancel_lem acc t u p a b n r h k e = omega (
  arith,
  add-mul (acc * 256) t p,
  mul_right_comm acc 256 p,
  mul_assoc acc p 256,
  ap (λ x. x * p) e,
  add-mul t (u * 256) p,
  mul_right_comm u 256 p,
  mul_assoc u p 256,
)

-- The bytes of a number read back as its remainder.
pub from_bytes-low_bytes :
    (k acc n : ℕ) → from_bytes acc (low_bytes k n) ≡ acc * 256 ^ k + n % 256 ^ k
unfolding from_bytes low_bytes
from_bytes-low_bytes zero acc n = omega arith
from_bytes-low_bytes (suc k) acc n =
    from_bytes-low_bytes k (acc * 256 + n / 256 ^ k % 256) n
    ∙ step (256 ^ k)
    ∙ ap (λ p. acc * p + n % p) (sym (pow.suc 256 k))
  where
    step : (p : ℕ) → (acc * 256 + n / p % 256) * p + n % p ≡ acc * (p * 256) + n % (p * 256)
    step p =
        cancel_lem acc (n / p % 256) (n / (p * 256)) p (n % p) (n % (p * 256)) n (n / p)
          (mod-add-div' n p) (mod-add-div' n (p * 256))
          (sym (mod-add-div' (n / p) 256)
            ∙ ap (λ x. n / p % 256 + x * 256) (div-div-eq-div-mul n p 256))

-- An opcode that pushes a data portion of j + 1 bytes.
abbrev is_plain : Formatter → Bool
is_plain no_formatter = true
is_plain rjumpv_encoder = false
is_plain exchange_encoder = false

abbrev is_fixed : Modifier → Bool
is_fixed no_modifier = true
is_fixed swapn_modifier = false
is_fixed dupn_modifier = false
is_fixed exchange_modifier = false

pub record IsPush (j : ℕ) (op : Opcode) : Type 0 where
  pub bytes : op.code.bytes ≡ (96 + j) ∷ []
  pub portion : op.data_portion_length ≡ suc j
  pub formatter : op.data_portion_formatter ≡ no_formatter
  pub modifier : op.stack_properties_modifier ≡ no_modifier

abbrev is_push : ℕ → Opcode → Bool
is_push j op =
    same_bytes op.code.bytes ((96 + j) ∷ [])
    && op.data_portion_length == suc j
    && is_plain op.data_portion_formatter
    && is_fixed op.stack_properties_modifier

is_push-IsPush : (j : ℕ) (op : Opcode) → is_push j op ≡ true → IsPush j op
is_push-IsPush j op h = record {
  bytes = (same_bytes_iff op.code.bytes ((96 + j) ∷ [])).0 (ground arith);
  portion = (==_iff op.data_portion_length (suc j)).0 (ground arith);
  formatter = plain_lem op.data_portion_formatter (ground arith);
  modifier = fixed_lem op.stack_properties_modifier (ground arith);
}
  where
    plain_lem : (f : Formatter) → is_plain f ≡ true → f ≡ no_formatter
    plain_lem no_formatter h = refl
    plain_lem rjumpv_encoder h = cc
    plain_lem exchange_encoder h = cc

    fixed_lem : (m : Modifier) → is_fixed m ≡ true → m ≡ no_modifier
    fixed_lem no_modifier h = refl
    fixed_lem swapn_modifier h = cc
    fixed_lem dupn_modifier h = cc
    fixed_lem exchange_modifier h = cc

abbrev all_push : ℕ → List Opcode → Bool
all_push j [] = true
all_push j (op ∷ ops) = is_push j op && all_push (suc j) ops

found-IsPush :
    (j : ℕ) (ops : List Opcode) (i : ℕ)
    → all_push j ops ≡ true
    → i < length ops
    → (op : Opcode) × (get_elem? ops i ≡ some op) × IsPush (j + i) op
found-IsPush j [] i h k = absurd (omega arith)
found-IsPush j (op ∷ ops) zero h k =
    (op, refl, subst (λ x. IsPush x op) (omega arith) (is_push-IsPush j op (ground arith)))
found-IsPush j (op ∷ ops) (suc i) h k =
    let (op', q, p) = found-IsPush (suc j) ops i (ground arith) (omega arith) in
    (op', q, subst (λ x. IsPush x op') (omega arith) p)

push_opcodes_lem : all_push 0 push_opcodes ≡ true
unfolding push_opcodes
push_opcodes_lem = refl

length-push_opcodes : length push_opcodes ≡ 32
unfolding push_opcodes
length-push_opcodes = refl

exact_portion : (portion : List ℕ) → fixed_portion (length portion) (Item.raw portion) ≡ ok portion
unfolding fixed_portion
exact_portion portion =
    let none_left : length portion - length portion ≡ 0 = omega arith in
    let fits : leb (length portion) (length portion) ≡ true = ground arith in
    rw (fits, none_left) refl

get_push :
    (j : ℕ) (op : Opcode) (portion : List ℕ)
    → IsPush j op
    → length portion ≡ suc j
    → (filled : Opcode) × (get_item op (Item.raw portion ∷ []) ≡ ok filled)
      × (filled.code.bytes ≡ (96 + j) ∷ portion)
unfolding get_item data_portion modified with_portion
get_push j op portion p len =
    let some_left : ltb 0 (suc j) ≡ true = lt→ltb 0 (suc j) (omega arith) in
    let exact : fixed_portion (suc j) (Item.raw portion) ≡ ok portion =
      subst (λ k. fixed_portion k (Item.raw portion) ≡ ok portion) len (exact_portion portion) in
    (
      with_portion op portion none,
      rw (p.portion, some_left, p.formatter, exact, p.modifier) refl,
      ap (λ bs. bs ++ portion) p.bytes,
    )

push_found :
    (portion : List ℕ) (op filled : Opcode)
    → get_elem? push_opcodes (length portion - 1) ≡ some op
    → get_item op (Item.raw portion ∷ []) ≡ ok filled
    → push_constant portion ≡ ok filled.code
unfolding push_constant
push_found portion op filled found e = rw (push_constant, found, e) refl

-- A push of a data portion of 1 to 32 bytes.
pub push_constant_lem :
    (j : ℕ) (portion : List ℕ)
    → length portion ≡ suc j
    → j < 32
    → (c : Bytecode) × (push_constant portion ≡ ok c) × (c.bytes ≡ (96 + j) ∷ portion)
push_constant_lem j portion len h =
    let (op, q, p) =
      found-IsPush 0 push_opcodes j push_opcodes_lem (omega (arith, length-push_opcodes)) in
    let index : length portion - 1 ≡ j = omega arith in
    let (filled, e, bytes) = get_push j op portion (subst (λ x. IsPush x op) (omega arith) p) len in
    (filled.code, push_found portion op filled (ap (get_elem? push_opcodes) index ∙ q) e, bytes)

int_push :
    (n j : ℕ) (c : Bytecode)
    → size_from n n ≤ 32
    → at_least_one (size_from n n) ≡ suc j
    → n < 256 ^ suc j
    → push_constant (low_bytes (suc j) n) ≡ ok c
    → stack_argument (Arg.int (pos n)) ≡ ok c
unfolding stack_argument get_int_size int_to_bytes
int_push n j c small size below e =
    let fits : leb (size_from n n) 32 ≡ true = ground arith in
    rw (fits, size, lt→ltb n (256 ^ suc j) below) e

-- A natural number below 2^256 as a stack argument is a push of 1 to 32 bytes, which are its bytes.
pub stack_argument_int :
    (n : ℕ)
    → n < 2 ^ 256
    → (j : ℕ) × (c : Bytecode) × (stack_argument (Arg.int (pos n)) ≡ ok c)
      × (c.bytes ≡ (96 + j) ∷ low_bytes (suc j) n)
      × (n < 256 ^ suc j)
      × (j < 32)
stack_argument_int n h = go (size_from n n) refl (size_least n n 32 h) (size_lem n n (omega arith))
  where
    go :
        (k : ℕ)
        → size_from n n ≡ k
        → size_from n n ≤ 32
        → n < 256 ^ size_from n n
        → (j : ℕ) × (c : Bytecode) × (stack_argument (Arg.int (pos n)) ≡ ok c)
          × (c.bytes ≡ (96 + j) ∷ low_bytes (suc j) n)
          × (n < 256 ^ suc j)
          × (j < 32)
    go zero q small large =
        let below : n < 256 ^ 1 = omega (arith, subst (λ k. n < 256 ^ k) q large) in
        let (c, e, b) = push_constant_lem 0 (low_bytes 1 n) (length-low_bytes 1 n) (omega arith) in
        (0, c, int_push n 0 c small (ap at_least_one q) below e, b, below, omega arith)
    go (suc j) q small large =
        let below : n < 256 ^ suc j = subst (λ k. n < 256 ^ k) q large in
        let (c, e, b) =
          push_constant_lem j (low_bytes (suc j) n) (length-low_bytes (suc j) n) (omega arith) in
        (j, c, int_push n j c small (ap at_least_one q) below e, b, below, omega arith)

-- A number below 256 is PUSH1.
pub stack_argument_byte :
    (n : ℕ)
    → n < 256
    → (c : Bytecode) × (stack_argument (Arg.int (pos n)) ≡ ok c) × (c.bytes ≡ 96 ∷ low_bytes 1 n)
stack_argument_byte n h =
    let (c, e, b) = push_constant_lem 0 (low_bytes 1 n) (length-low_bytes 1 n) (omega arith) in
    let small = size_least n n 1 (omega arith) in
    (c, int_push n 0 c (omega (arith, small)) (one (size_from n n) small) (omega arith) e, b)
  where
    one : (k : ℕ) → k ≤ 1 → at_least_one k ≡ 1
    one zero h = refl
    one (suc zero) h = refl
    one (suc (suc k)) h = absurd (omega (arith, h))
