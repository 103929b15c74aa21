-- ===== src/Tools/Generators/Initcode/Gas.antt =====
-- Proofs on the gas of Initcode in src/ethereum_test_tools/tools_code/generators.py.
use native.Mathlib.Nat.{mul-le-mul}
use execution_spec_tests.Base.{
  ℕ, ◌+◌, ◌*◌, ◌/◌, ◌<◌, ◌≤◌, ◌≡◌, refl, ap, ◌∙◌, ◌↔◌, inl, inr, Bool-cases, ltb, arith,
}
use execution_spec_tests.Forks.Fork.{
  Fork, frontier, homestead, dao_fork, tangerine, spurious_dragon, byzantium, constantinople,
  constantinople_fix, istanbul, muir_glacier, berlin, london, arrow_glacier, gray_glacier, paris,
  shanghai, cancun, prague, osaka, bpo1, bpo2, bpo3, bpo4, bpo5, amsterdam, eofv1,
}
use execution_spec_tests.Forks.Costs.{gas_costs}
use execution_spec_tests.Forks.Arith.Exponential.{div_mono}
use execution_spec_tests.Forks.Gas.{words, memory_cost, memory_expansion}
use execution_spec_tests.Forks.Gas.Memory.{words_lem, memory_expansion_lem}
use execution_spec_tests.Tools.Generators.Initcode.{initcode_gas}

memory_price : (f : Fork) → (gas_costs f).g_memory ≡ 3
unfolding gas_costs
memory_price frontier = refl
memory_price homestead = refl
memory_price dao_fork = refl
memory_price tangerine = refl
memory_price spurious_dragon = refl
memory_price byzantium = refl
memory_price constantinople = refl
memory_price constantinople_fix = refl
memory_price istanbul = refl
memory_price muir_glacier = refl
memory_price berlin = refl
memory_price london = refl
memory_price arrow_glacier = refl
memory_price gray_glacier = refl
memory_price paris = refl
memory_price shanghai = refl
memory_price cancun = refl
memory_price prague = refl
memory_price osaka = refl
memory_price bpo1 = refl
memory_price bpo2 = refl
memory_price bpo3 = refl
memory_price bpo4 = refl
memory_price bpo5 = refl
memory_price amsterdam = refl
memory_price eofv1 = refl

no_memory : (f : Fork) → memory_cost (gas_costs f) (words 0) ≡ 0
unfolding memory_cost
no_memory f = rw (words_lem 0, memory_price f) refl

expansion_from_nothing :
    (f : Fork) (n : ℕ) → memory_expansion f n 0 ≡ 3 * words n + words n * words n / 512
unfolding memory_cost
expansion_from_nothing f n =
    let grown = memory_expansion_lem f 0 n (omega arith) in
    let price : memory_cost (gas_costs f) (words n) ≡ 3 * words n + words n * words n / 512 =
      rw (memory_price f) refl in
    omega (arith, grown, price, no_memory f)

words_of : (k : ℕ) → words (32 * k) ≡ k
words_of k = rw (words_lem (32 * k)) (omega arith)

words_small : (k : ℕ) → k ≤ 1 → words k ≡ k
words_small k h = rw (words_lem k) (omega arith)

-- The gas of an initcode, for every code and whatever gas the caller gives for the prefix: six
-- instructions, copying the code, and memory for as many words as the code has bytes. It is more
-- than with the memory that the code fills, in every fork, exactly if the code has two bytes or more.
pub initcode_gas_lem :
    (f : Fork) (prefix_gas k : ℕ)
    → (initcode_gas prefix_gas k ≡ 18 + 3 * words k + memory_expansion f (32 * k) 0)
      × ((18 + 3 * words k + memory_expansion f k 0 < initcode_gas prefix_gas k) ↔ (1 < k))
unfolding initcode_gas
initcode_gas_lem f prefix_gas k =
    let all : memory_expansion f (32 * k) 0 ≡ 3 * k + k * k / 512 =
      expansion_from_nothing f (32 * k) ∙ ap (λ w. 3 * w + w * w / 512) (words_of k) in
    let filled = expansion_from_nothing f k in
    (
      omega (arith, all),
      (
        (λ more. elim (Bool-cases (ltb 1 k)) [
          | inl h ↦ ground arith
          | inr small ↦
              let one : k ≤ 1 = ground arith in
              let filled' = rw (words_small k one) at filled in
              omega (arith, filled', all, more, words_small k one)
        ]),
        (λ h.
            let fewer : words k < k = rw (words_lem k) (omega arith) in
            let squares : words k * words k / 512 ≤ k * k / 512 =
              div_mono (words k * words k) (k * k) 512 (mul-le-mul (omega arith) (omega arith)) in
            omega (arith, all, fewer, squares, filled)),
      ),
    )
