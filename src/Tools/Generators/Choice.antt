-- ===== src/Tools/Generators/Choice.antt =====
-- What the code of Conditional in src/ethereum_test_tools/tools_code/generators.py does in the virtual
-- machine, for legacy code.
use execution_spec_tests.Base.{
  ℕ, zero, suc, ◌+◌, ◌^◌, ◌<◌, ◌≡◌, refl, sym, subst, false, some, List, [], ◌∷◌, ◌++◌, length,
  length-append, arith, ok, ◌==◌, if◌then◌else◌,
}
use execution_spec_tests.Vm.Bytecode.{Bytecode}
use execution_spec_tests.Vm.Machine.{State, at, IsWhole, Steps}
use execution_spec_tests.Vm.Machine.Placed.{left-IsPlaced}
use execution_spec_tests.Vm.Machine.Jumps.{push_bytes, length-push_bytes, Steps-trans, Runs}
use execution_spec_tests.Tools.Generators.{legacy, conditional}
use execution_spec_tests.Tools.Generators.Conditional.{
  true_bytes, false_bytes, over_false, layout, conditional-Makes,
}
use execution_spec_tests.Tools.Generators.Branch.{run_true, run_false}

length-layout :
    (i j : ℕ) (c t f : List ℕ)
    → length (layout i j c t f) ≡ length c + length t + length f + i + j + 12
length-layout i j c t f = omega (
  arith,
  length-append c (push_bytes i (over_false j f) ++ (88 ∷ 1 ∷ 87 ∷ false_bytes j t f)),
  length-append (push_bytes i (over_false j f)) (88 ∷ 1 ∷ 87 ∷ false_bytes j t f),
  length-append f (push_bytes j (suc (length t) + 3) ++ (88 ∷ 1 ∷ 86 ∷ true_bytes t)),
  length-append (push_bytes j (suc (length t) + 3)) (88 ∷ 1 ∷ 86 ∷ true_bytes t),
  length-append t (91 ∷ []),
  length-push_bytes i (over_false j f),
  length-push_bytes j (suc (length t) + 3),
)

taken : (v : ℕ) → (suc v == 0) ≡ false
taken v = ground arith

module _ {W : Type 0} (Other : List ℕ → State W → State W → Type 0) where
  -- The layout chooses by the word that the condition leaves.
  layout-Runs :
      (i j : ℕ) (c t f : List ℕ) (v : ℕ) (s m r : List ℕ) (w u x : W)
      → i < 32
      → j < 32
      → over_false j f < 256 ^ suc i
      → suc (length t) + 3 < 256 ^ suc j
      → IsWhole c
      → IsWhole t
      → IsWhole f
      → Runs Other c s w (v ∷ m) u
      → Runs Other (if v == 0 then f else t) m u r x
      → Runs Other (layout i j c t f) s w r x
  layout-Runs i j c t f v s m r w u x si sj bi bj wc wt wf test body code p h bound =
      Steps-trans Other
        (test code p
          (left-IsPlaced c (push_bytes i (over_false j f) ++ (88 ∷ 1 ∷ 87 ∷ false_bytes j t f)) h)
          bound)
        (choose v body)
    where
      choose :
          (v : ℕ)
          → Runs Other (if v == 0 then f else t) m u r x
          → Steps Other code (at (p + length c) (v ∷ m) u) (at (p + length (layout i j c t f)) r x)
      choose zero body = run_false Other i j c t f si sj bi bj wc wt wf code p h bound m r u x body
      choose (suc v) body =
          run_true Other i j c t f si sj bi bj wc wt wf code p h bound (suc v) m r u x (omega arith)
            (subst (λ b. Runs Other (if b then f else t) m u r x) (taken v) body)

  -- Conditional makes code whatever its three pieces are that have all the data of their pushes. Say
  -- the condition leaves a word above a stack, and the false piece, if the word is zero, or else the
  -- true one runs on from that stack. Then the code, put anywhere behind a code with all the data
  -- of its pushes, runs from its start to its end with the same effect as the condition and that
  -- piece, with bounds on the lengths.
  pub conditional_lem :
      (c t f : Bytecode) (before after : List ℕ) (v : ℕ) (s m r : List ℕ) (w u x : W)
      → IsWhole c.bytes
      → IsWhole t.bytes
      → IsWhole f.bytes
      → IsWhole before
      → length before + length c.bytes + length t.bytes + length f.bytes + length after + 100
        < 2 ^ 256
      → Runs Other c.bytes s w (v ∷ m) u
      → Runs Other (if v == 0 then f.bytes else t.bytes) m u r x
      → (code : Bytecode) × (conditional c (some t) (some f) legacy ≡ ok code)
        × Steps Other
            (before ++ (code.bytes ++ after))
            (at (length before) s w)
            (at (length before + length code.bytes) r x)
  unfolding conditional
  conditional_lem c t f before after v s m r w u x wc wt wf wb bound test body =
      let (i, j, si, sj, bi, bj, (code, e, bytes)) = conditional-Makes c t f (omega arith) in
      (code, e, placed i j code.bytes si sj bi bj bytes)
    where
      placed :
          (i j : ℕ) (bytes : List ℕ)
          → i < 32
          → j < 32
          → over_false j f.bytes < 256 ^ suc i
          → suc (length t.bytes) + 3 < 256 ^ suc j
          → bytes ≡ layout i j c.bytes t.bytes f.bytes
          → Steps Other
              (before ++ (bytes ++ after))
              (at (length before) s w)
              (at (length before + length bytes) r x)
      placed i j bytes si sj bi bj q =
          subst
            (λ b.
              Steps Other (before ++ (b ++ after)) (at (length before) s w)
                (at (length before + length b) r x))
            (sym q)
            (layout-Runs i j c.bytes t.bytes f.bytes v s m r w u x si sj bi bj wc wt wf test body
              (before ++ (layout i j c.bytes t.bytes f.bytes ++ after)) (length before)
              record { before = before; after = after; parts = refl; position = refl; whole = wb }
              (omega (
                arith,
                length-append before (layout i j c.bytes t.bytes f.bytes ++ after),
                length-append (layout i j c.bytes t.bytes f.bytes) after,
                length-layout i j c.bytes t.bytes f.bytes,
              )))
