-- ===== src/Vm/Opcode/Encoders.antt =====
-- Proofs on the data portions of RJUMPV and EXCHANGE in src/ethereum_test_vm/opcodes.py.
use execution_spec_tests.Base.{
  ℕ, suc, ◌+◌, ◌-◌, ◌*◌, ◌/◌, ◌%◌, ◌^◌, ◌<◌, ◌≤◌, ◌≡◌, refl, ap, ap₂, ◌∙◌, true, ◌&&◌, some, List,
  [], ◌∷◌, ◌++◌, length, arith, leb, ltb, lt→ltb, if◌then◌else◌, ok,
}
use execution_spec_tests.Base.Int.{ℤ, pos, negsuc}
use execution_spec_tests.Vm.Opcode.{
  Item, int, exchange_modifier, low_bytes, int_to_bytes, from_bytes, signed_offset, offsets,
  encode_rjumpv, exchange_pair, encode_exchange, modified,
}

exchange_found :
    (x y : ℕ)
    → 2 ≤ x
    → x ≤ 17
    → x + 1 ≤ y
    → y ≤ x + 16
    → encode_exchange (int (pos x) ∷ int (pos y) ∷ []) ≡ ok (((x - 2) * 16 + (y - x - 1)) ∷ [])
unfolding encode_exchange exchange_pair int_to_bytes low_bytes
exchange_found x y a b c d =
    let first : (leb 2 x && leb x 17) ≡ true = ground arith in
    let second : (leb (x + 1) y && leb y (x + 16)) ≡ true = ground arith in
    let small : ltb ((x - 2) * 16 + (y - x - 1)) (256 ^ 1) ≡ true = ground arith in
    let byte : ((x - 2) * 16 + (y - x - 1)) / 256 ^ 0 % 256 ≡ (x - 2) * 16 + (y - x - 1) =
      omega arith in
    rw (first, second, small, byte) refl

-- EXCHANGE of two stack positions, the first from 2 to 17 and the second at most 16 below it, has one
-- byte as its data portion. The byte holds both positions, and the height that the modifier takes
-- from it is the lower position.
pub exchange_lem :
    (x y : ℕ)
    → 2 ≤ x
    → x ≤ 17
    → x + 1 ≤ y
    → y ≤ x + 16
    → (b : ℕ) × (encode_exchange (int (pos x) ∷ int (pos y) ∷ []) ≡ ok (b ∷ []))
      × (b < 256)
      × (b / 16 + 2 ≡ x)
      × (b / 16 + b % 16 + 3 ≡ y)
      × (modified exchange_modifier (b ∷ []) ≡ some (0, 0, y, y))
unfolding modified from_bytes
exchange_lem x y a b c d =
    let height : from_bytes 0 (((x - 2) * 16 + (y - x - 1)) ∷ []) / 16
          + 1
          + (from_bytes 0 (((x - 2) * 16 + (y - x - 1)) ∷ []) % 16 + 1)
          + 1
        ≡ y =
      omega arith in
    (
      (x - 2) * 16 + (y - x - 1),
      exchange_found x y a b c d,
      omega arith,
      omega arith,
      omega arith,
      ap (λ k. some (0, 0, k, k)) height,
    )

-- The offsets of a jump table, and what two bytes are as one.
abbrev pub InShort : ℤ → Type 0
InShort (pos n) = n < 32768
InShort (negsuc n) = n < 32768

abbrev pub read_short : ℕ → ℕ → ℤ
read_short high low =
    if ltb (high * 256 + low) 32768
    then pos (high * 256 + low)
    else negsuc (65535 - (high * 256 + low))

abbrev pub read_offsets : List ℕ → List ℤ
read_offsets [] = []
read_offsets (b ∷ []) = []
read_offsets (high ∷ low ∷ bytes) = read_short high low ∷ read_offsets bytes

abbrev pub AllShort : List ℤ → Type 0
AllShort [] = Unit
AllShort (n ∷ ns) = InShort n × AllShort ns

short_bytes :
    (n : ℤ)
    → InShort n
    → (high : ℕ) × (low : ℕ) × (signed_offset n ≡ ok (high ∷ low ∷ [])) × (read_short high low ≡ n)
unfolding signed_offset int_to_bytes low_bytes
short_bytes (pos n) h =
    let fits : ltb n 32768 ≡ true = ground arith in
    let back : n / 256 % 256 * 256 + n % 256 ≡ n = omega arith in
    (n / 256 ^ 1 % 256, n / 256 ^ 0 % 256, rw fits refl, ground (arith, back))
short_bytes (negsuc n) h =
    let fits : ltb (2 * n) (256 ^ 2) ≡ true = ground arith in
    (
      (256 ^ 2 - 1 - n) / 256 ^ 1 % 256,
      (256 ^ 2 - 1 - n) / 256 ^ 0 % 256,
      rw fits refl,
      ground arith,
    )

-- Integers as arguments of `[]`.
abbrev pub items_of : List ℤ → List Item
items_of [] = []
items_of (n ∷ ns) = int n ∷ items_of ns

offsets_step :
    (n : ℤ) (rest : List Item) (head tail : List ℕ)
    → signed_offset n ≡ ok head
    → offsets rest ≡ ok tail
    → offsets (int n ∷ rest) ≡ ok (head ++ tail)
unfolding offsets
offsets_step n rest head tail p q = rw (p, q) refl

offsets_lem :
    (ns : List ℤ)
    → AllShort ns
    → (bytes : List ℕ) × (offsets (items_of ns) ≡ ok bytes)
      × (length bytes ≡ 2 * length ns)
      × (read_offsets bytes ≡ ns)
unfolding offsets
offsets_lem [] _ = ([], refl, refl, refl)
offsets_lem (n ∷ ns) (h, hs) =
    let (high, low, e, back) = short_bytes n h in
    let (bytes, es, size, rest) = offsets_lem ns hs in
    (
      high ∷ low ∷ bytes,
      offsets_step n (items_of ns) (high ∷ low ∷ []) bytes e es,
      omega (arith, size),
      ap₂ (λ m ms. m ∷ ms) back rest,
    )

count_byte : (k : ℕ) → k < 256 → int_to_bytes 1 (pos k) ≡ ok (k ∷ [])
unfolding int_to_bytes low_bytes
count_byte k h =
    let byte : k / 256 ^ 0 % 256 ≡ k = omega arith in rw (lt→ltb k (256 ^ 1) h, byte) refl

length-items : (ns : List ℤ) → length (items_of ns) ≡ length ns
length-items [] = refl
length-items (n ∷ ns) = ap suc (length-items ns)

-- The data portion of RJUMPV for up to 256 offsets, each in the range of 16 bits with a sign, is one
-- byte less than their number and then two bytes for each, which read back as the offsets.
pub rjumpv_lem :
    (n : ℤ) (ns : List ℤ)
    → AllShort (n ∷ ns)
    → length ns < 256
    → (bytes : List ℕ) × (encode_rjumpv (items_of (n ∷ ns)) ≡ ok (length ns ∷ bytes))
      × (length bytes ≡ 2 * (length ns + 1))
      × (read_offsets bytes ≡ n ∷ ns)
unfolding encode_rjumpv
rjumpv_lem n ns short few =
    let (bytes, e, size, back) = offsets_lem (n ∷ ns) short in
    let count : int_to_bytes 1 (pos (length (items_of ns))) ≡ ok (length ns ∷ []) =
      ap (λ k. int_to_bytes 1 (pos k)) (length-items ns) ∙ count_byte (length ns) few in
    (bytes, rw (count, e) refl, omega (arith, size), back)
