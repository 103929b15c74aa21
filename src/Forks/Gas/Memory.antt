-- ===== src/Forks/Gas/Memory.antt =====
-- Proofs on memory expansion in src/ethereum_test_forks/forks/forks.py.
use native.Mathlib.Nat.{mul-le-mul, mul-le-mul_left}
use execution_spec_tests.Base.{ℕ, ◌+◌, ◌*◌, ◌/◌, ◌≤◌, ◌≡◌, Bool-cases, inl, inr, leb, arith, ap}
use execution_spec_tests.Base.Int.{pos_part}
use execution_spec_tests.Forks.Fork.{Fork}
use execution_spec_tests.Forks.Costs.{GasCosts, gas_costs}
use execution_spec_tests.Forks.Arith.Ceiling.{ceiling_division_pos}
use execution_spec_tests.Forks.Arith.Exponential.{div_mono}
use execution_spec_tests.Forks.Gas.{words, memory_cost, memory_expansion}

-- A word is 32 bytes, and a part of one counts as one.
pub words_lem : (n : ℕ) → words n ≡ (n + 31) / 32
unfolding words
words_lem n = ap pos_part (ceiling_division_pos n 31)

memory_cost_mono : (g : GasCosts) (v w : ℕ) → v ≤ w → memory_cost g v ≤ memory_cost g w
unfolding memory_cost
memory_cost_mono g v w h =
    let squares = div_mono (v * v) (w * w) 512 (mul-le-mul h h) in
    let linear = mul-le-mul_left g.g_memory h in omega (arith, squares, linear)

words_mono : (m n : ℕ) → m ≤ n → words m ≤ words n
words_mono m n h = rw (words_lem m, words_lem n) (omega arith)

-- The cost of an expansion, as a difference of costs that is never cut off at zero.
pub memory_expansion_lem :
    (f : Fork) (m n : ℕ)
    → m ≤ n
    → memory_expansion f n m + memory_cost (gas_costs f) (words m)
      ≡ memory_cost (gas_costs f) (words n)
unfolding memory_expansion
memory_expansion_lem f m n h = elim (Bool-cases (leb n m)) [
  | inl stays ↦ let e : n ≡ m = ground arith in rw (stays, e) (omega arith)
  | inr grows ↦
      rw grows
        (omega (arith, memory_cost_mono (gas_costs f) (words m) (words n) (words_mono m n h)))
]

-- In every fork, growing the memory from `l` to `m` and then to `n` bytes costs as much as growing it
-- from `l` to `n` at once, and more memory never costs less.
pub memory_expansion-add :
    (f : Fork) (l m n : ℕ)
    → l ≤ m
    → m ≤ n
    → (memory_expansion f n l ≡ memory_expansion f n m + memory_expansion f m l)
      × (memory_expansion f m l ≤ memory_expansion f n l)
memory_expansion-add f l m n h k =
    let a = memory_expansion_lem f l m h in
    let b = memory_expansion_lem f m n k in
    let c = memory_expansion_lem f l n (omega arith) in
    (omega (arith, a, b, c), omega (arith, a, b, c))
