-- ===== src/Types/Trie/Compact.antt =====
-- Proofs on the compact form of keys in src/ethereum_test_types/trie.py.
use execution_spec_tests.Base.{
  ℕ, ◌+◌, ◌*◌, ◌/◌, ◌%◌, ◌<◌, ◌≡◌, refl, ap, Bool, true, false, Option, none, some, List, [], ◌∷◌,
  arith, ◌==◌, if◌then◌else◌, All, Bool-cases, inl, inr,
}
use execution_spec_tests.Types.Trie.{
  pair_up, flag, odd, compact_odd, nibble_list_to_compact, bytes_to_nibble_list,
}

-- To read a compact form: the flag nibble tells the parity and the kind of the node.
abbrev pub read_compact : List ℕ → Option (List ℕ × Bool)
read_compact [] = none
read_compact (b ∷ bs) = some (
  (if b / 16 % 2 == 1 then b % 16 ∷ bytes_to_nibble_list bs else bytes_to_nibble_list bs),
  (b / 32 == 1),
)

split_byte : (x y : ℕ) → x < 16 → y < 16 → ((16 * x + y) / 16 % 16 ≡ x) × ((16 * x + y) % 16 ≡ y)
split_byte x y hx hy = (omega arith, omega arith)

-- Nibbles in pairs are the nibbles of their bytes, when their number is even.
nibbles-pair_up :
    (xs : List ℕ) → All (λ x. x < 16) xs → odd xs ≡ false → bytes_to_nibble_list (pair_up xs) ≡ xs
unfolding bytes_to_nibble_list pair_up
nibbles-pair_up [] h e = refl
nibbles-pair_up (x ∷ []) h e = cc
nibbles-pair_up (x ∷ y ∷ xs) (hx, (hy, h)) e =
    rw ((split_byte x y hx hy).0, (split_byte x y hx hy).1, nibbles-pair_up xs h e) refl

even_tail : (x : ℕ) (xs : List ℕ) → odd (x ∷ xs) ≡ true → odd xs ≡ false
even_tail x [] h = refl
even_tail x (y ∷ []) h = cc
even_tail x (y ∷ z ∷ xs) h = even_tail z xs h

-- The compact form of nibbles determines the nibbles and whether the node is a leaf.
pub compact_round_trip :
    (xs : List ℕ) (is_leaf : Bool)
    → All (λ x. x < 16) xs
    → read_compact (nibble_list_to_compact xs is_leaf) ≡ some (xs, is_leaf)
unfolding nibble_list_to_compact
compact_round_trip xs is_leaf h = elim (Bool-cases (odd xs)) [
  | inl e ↦ rw e (from_odd xs is_leaf h e)
  | inr e ↦ rw e (from_even is_leaf e)
]
  where
    from_even :
        (is_leaf : Bool)
        → odd xs ≡ false
        → read_compact (16 * (2 * flag is_leaf) ∷ pair_up xs) ≡ some (xs, is_leaf)
    from_even false e = ap (λ ys. some (ys, false)) (nibbles-pair_up xs h e)
    from_even true e = ap (λ ys. some (ys, true)) (nibbles-pair_up xs h e)

    from_odd :
        (xs : List ℕ) (is_leaf : Bool)
        → All (λ x. x < 16) xs
        → odd xs ≡ true
        → read_compact (compact_odd xs is_leaf) ≡ some (xs, is_leaf)
    from_odd [] is_leaf h e = cc
    from_odd (x ∷ xs) false (hx, h) e =
        let rest = nibbles-pair_up xs h (even_tail x xs e) in
        let p : (16 + x) / 16 % 2 ≡ 1 = omega arith in
        let q : (16 + x) % 16 ≡ x = omega arith in
        let r : (16 + x) / 32 ≡ 0 = omega arith in rw (p, q, r, rest) refl
    from_odd (x ∷ xs) true (hx, h) e =
        let rest = nibbles-pair_up xs h (even_tail x xs e) in
        let p : (48 + x) / 16 % 2 ≡ 1 = omega arith in
        let q : (48 + x) % 16 ≡ x = omega arith in
        let r : (48 + x) / 32 ≡ 1 = omega arith in rw (p, q, r, rest) refl
