-- ===== src/Tools/Generators/Measure/Stored.antt =====
-- What the code of CodeGasMeasure in src/ethereum_test_tools/tools_code/generators.py stores, in the
-- virtual machine.
use execution_spec_tests.Base.{
  ℕ, zero, suc, ◌+◌, ◌-◌, ◌%◌, ◌^◌, ◌<◌, ◌≤◌, ◌≡◌, refl, ap, subst, Bool, true, false, List, [],
  ◌∷◌, ◌++◌, length, length-append, arith, ok,
}
use execution_spec_tests.Base.Int.{pos}
use execution_spec_tests.Vm.Bytecode.{Bytecode}
use execution_spec_tests.Vm.Opcode.{Arg}
use execution_spec_tests.Vm.Machine.{State, at, scan, IsWhole, Steps, done, swap1, pop, sub}
use execution_spec_tests.Vm.Machine.Placed.{
  left-IsPlaced, IsPlaced-get, single-IsWhole, append-IsWhole,
}
use execution_spec_tests.Vm.Machine.Jumps.{
  push_bytes, length-push_bytes, push_bytes-IsWhole, Steps-move, one_step, Runs, Runs-append,
  push_bytes-Runs,
}
use execution_spec_tests.Tools.Generators.Measure.{code_gas_measure}
use execution_spec_tests.Tools.Generators.Measure.Layout.{
  pops, ending, measure_bytes, stopped, measure-Makes,
}

pops-IsWhole : (n : ℕ) → IsWhole (pops n)
unfolding scan
pops-IsWhole zero = refl
pops-IsWhole (suc n) = append-IsWhole (144 ∷ 80 ∷ []) (pops n) refl (pops-IsWhole n)

length-pops : (n : ℕ) → length (pops n) ≡ n + n
length-pops zero = refl
length-pops (suc n) = omega (arith, length-append (144 ∷ 80 ∷ []) (pops n), length-pops n)

length-measure_bytes :
    (code : List ℕ) (n c j key : ℕ)
    → length (measure_bytes code n c j key) ≡ length code + n + n + j + 11
length-measure_bytes code n c j key = omega (
  arith,
  length-append code ((90 ∷ []) ++ ending n c j key),
  length-append (pops n)
      (144 ∷ 3 ∷ (push_bytes 0 c ++ (144 ∷ 3 ∷ (push_bytes j key ++ (85 ∷ []))))),
  length-append (push_bytes 0 c) (144 ∷ 3 ∷ (push_bytes j key ++ (85 ∷ []))),
  length-append (push_bytes j key) (85 ∷ []),
  length-push_bytes 0 c,
  length-push_bytes j key,
  length-pops n,
)

length-stopped : (stop : Bool) → length (stopped stop) ≤ 1
length-stopped true = omega arith
length-stopped false = omega arith

module _ {W : Type 0} (Other : List ℕ → State W → State W → Type 0) where
  swap1-Runs : (a b : ℕ) (s : List ℕ) (w : W) → Runs Other (144 ∷ []) (a ∷ b ∷ s) w (b ∷ a ∷ s) w
  swap1-Runs a b s w code p h bound = one_step Other (swap1 (IsPlaced-get 144 [] h))

  pop-Runs : (a : ℕ) (s : List ℕ) (w : W) → Runs Other (80 ∷ []) (a ∷ s) w s w
  pop-Runs a s w code p h bound = one_step Other (pop (IsPlaced-get 80 [] h))

  sub-Runs :
      (a b : ℕ) (s : List ℕ) (w : W)
      → b ≤ a
      → a < 2 ^ 256
      → Runs Other (3 ∷ []) (a ∷ b ∷ s) w ((a - b) ∷ s) w
  sub-Runs a b s w le small code p h bound =
      let value : (a + 2 ^ 256 - b) % 2 ^ 256 ≡ a - b = omega (arith, le, small) in
      subst (λ v. Steps Other code (at p (a ∷ b ∷ s) w) (at (p + 1) (v ∷ s) w)) value
        (one_step Other (sub (IsPlaced-get 3 [] h)))

  -- The top of the stack stays, and the items under it go.
  pops-Runs :
      (xs : List ℕ) (g : ℕ) (s : List ℕ) (w : W)
      → Runs Other (pops (length xs)) (g ∷ (xs ++ s)) w (g ∷ s) w
  pops-Runs [] g s w = λ code p h bound. Steps-move Other (omega arith) done
  pops-Runs (x ∷ xs) g s w =
      Runs-append Other (144 ∷ 80 ∷ []) (pops (length xs)) (pops-IsWhole 1)
        (Runs-append Other (144 ∷ []) (80 ∷ []) (single-IsWhole 144 refl)
          (swap1-Runs g x (xs ++ s) w) (pop-Runs x (g ∷ (xs ++ s)) w))
        (pops-Runs xs g s w)

  ending-Runs :
      (xs : List ℕ) (c j key first second : ℕ) (s : List ℕ) (w u : W)
      → c < 256
      → j < 32
      → key < 256 ^ suc j
      → second + c ≤ first
      → first < 2 ^ 256
      → Runs Other (85 ∷ []) (key ∷ (first - second - c) ∷ s) w s u
      → Runs Other (ending (length xs) c j key) (second ∷ (xs ++ (first ∷ s))) w s u
  ending-Runs xs c j key first second s w u small few below le big store =
      Runs-append Other (pops (length xs)) _ (pops-IsWhole (length xs))
        (pops-Runs xs second (first ∷ s) w)
        (Runs-append Other (144 ∷ []) _ (single-IsWhole 144 refl) (swap1-Runs second first s w) (
          Runs-append Other (3 ∷ []) _ (single-IsWhole 3 refl)
            (sub-Runs first second s w (omega (arith, le)) big)
            (Runs-append Other (push_bytes 0 c) _ (push_bytes-IsWhole 0 c (omega arith))
              (push_bytes-Runs Other 0 c ((first - second) ∷ s) w (omega arith) small)
              (Runs-append Other (144 ∷ []) _ (single-IsWhole 144 refl)
                (swap1-Runs c (first - second) s w)
                (Runs-append Other (3 ∷ []) _ (single-IsWhole 3 refl)
                  (sub-Runs (first - second) c s w (omega (arith, le)) (omega (arith, big)))
                  (Runs-append Other (push_bytes j key) (85 ∷ []) (push_bytes-IsWhole j key few)
                    (push_bytes-Runs Other j key ((first - second - c) ∷ s) w few below) store))))))

  -- Say GAS puts a first number on a stack, a code runs on from there and leaves some items above it,
  -- GAS then puts a second number on top, and SSTORE stores the first number less the second one, the
  -- overhead and 2 at a key. Then CodeGasMeasure makes code of the code, which has all the data of its
  -- pushes, for as many extra items; put anywhere behind a code with all the data of its pushes it
  -- runs from its start, with that effect and with the stack it had, to its end, or to a STOP there if
  -- that is asked for. The first number must cover the others, the overhead and 2 must fit a byte, and
  -- the lengths are bounded.
  pub measure_lem :
      (code : Bytecode) (overhead key first second : ℕ) (stop : Bool) (xs before after s : List ℕ)
      (w w₁ w₂ w₃ u : W)
      → overhead + 2 < 256
      → key < 2 ^ 256
      → first < 2 ^ 256
      → second + (overhead + 2) ≤ first
      → IsWhole code.bytes
      → IsWhole before
      → length before + length code.bytes + length xs + length xs + length after + 50 < 2 ^ 256
      → Runs Other (90 ∷ []) s w (first ∷ s) w₁
      → Runs Other code.bytes (first ∷ s) w₁ (xs ++ (first ∷ s)) w₂
      → Runs Other (90 ∷ []) (xs ++ (first ∷ s)) w₂ (second ∷ (xs ++ (first ∷ s))) w₃
      → Runs Other (85 ∷ []) (key ∷ (first - second - (overhead + 2)) ∷ s) w₃ s u
      → (b : Bytecode) × (body : List ℕ) × (code_gas_measure code
            (pos overhead)
            (pos (length xs))
            (Arg.int (pos key))
            stop
          ≡ ok b)
        × (b.bytes ≡ body ++ stopped stop)
        × Steps Other
            (before ++ (b.bytes ++ after))
            (at (length before) s w)
            (at (length before + length body) s u)
  measure_lem code overhead key first second stop xs before after s w w₁ w₂ w₃ u small word big le
        wc wb bound start run end store =
      let (j, few, below, (b, e, q)) =
        measure-Makes code overhead (length xs) key stop small word in
      (
        b,
        measure_bytes code.bytes (length xs) (overhead + 2) j key,
        e,
        q,
        placed j b.bytes few below q,
      )
    where
      placed :
          (j : ℕ) (bytes : List ℕ)
          → j < 32
          → key < 256 ^ suc j
          → bytes ≡ measure_bytes code.bytes (length xs) (overhead + 2) j key ++ stopped stop
          → Steps Other (before ++ (bytes ++ after)) (at (length before) s w) (
              at
                (length before + length (measure_bytes code.bytes (length xs) (overhead + 2) j key))
                s
                u)
      placed j bytes few below q =
          let c = overhead + 2 in
          let body = measure_bytes code.bytes (length xs) c j key in
          Runs-append Other (90 ∷ []) (code.bytes ++ ((90 ∷ []) ++ ending (length xs) c j key))
            (single-IsWhole 90 refl) start
            (Runs-append Other code.bytes ((90 ∷ []) ++ ending (length xs) c j key) wc run (
              Runs-append Other (90 ∷ []) (ending (length xs) c j key) (single-IsWhole 90 refl) end
                (ending-Runs xs c j key first second s w₃ u small few below le big store)))
            (before ++ (bytes ++ after)) (length before)
            (left-IsPlaced body (stopped stop) record {
              before = before;
              after = after;
              parts = ap (λ b. before ++ (b ++ after)) q;
              position = refl;
              whole = wb;
            })
            (omega (
              arith,
              bound,
              length-append before (bytes ++ after),
              length-append bytes after,
              ap length q,
              length-append body (stopped stop),
              length-measure_bytes code.bytes (length xs) c j key,
              length-stopped stop,
            ))
