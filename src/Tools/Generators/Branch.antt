-- ===== src/Tools/Generators/Branch.antt =====
-- Where the jumps of Conditional in src/ethereum_test_tools/tools_code/generators.py lead.
use execution_spec_tests.Base.{
  ℕ, suc, ◌+◌, ◌^◌, ◌<◌, ◌≤◌, ◌≡◌, refl, ap, List, [], ◌∷◌, ◌++◌, length, length-append, arith,
}
use execution_spec_tests.Vm.Machine.{
  State, at, scan, IsWhole, Steps, then, jumpdest, jump, jumpi_taken, jumpi_passed,
}
use execution_spec_tests.Vm.Machine.Placed.{
  IsPlaced, left-IsPlaced, right-IsPlaced, IsPlaced-move, IsPlaced-get, IsPlaced-IsTarget,
  IsPlaced-length, single-IsWhole,
}
use execution_spec_tests.Vm.Machine.Jumps.{
  push_bytes, length-push_bytes, push_bytes-IsWhole, Steps-trans, Steps-move, Steps-arrive,
  one_step, Runs, forward_lem,
}
use execution_spec_tests.Tools.Generators.Conditional.{true_bytes, false_bytes, over_false, layout}

-- A jump behind a distance: PUSH, PC, ADD and one more opcode, and what follows.
after_jump :
    {code : List ℕ} {p : ℕ} (j n x : ℕ) (rest : List ℕ)
    → j < 32
    → IsWhole (88 ∷ 1 ∷ [])
    → IsPlaced code p (push_bytes j n ++ (88 ∷ 1 ∷ x ∷ rest))
    → IsPlaced code (p + (2 + j) + 2) (x ∷ rest)
after_jump {code} {p} j n x rest small w h =
    IsPlaced-move (x ∷ rest) (ap (λ k. p + k + 2) (length-push_bytes j n)) (
      right-IsPlaced (88 ∷ 1 ∷ []) (x ∷ rest) w
        (right-IsPlaced (push_bytes j n) (88 ∷ 1 ∷ x ∷ rest) (push_bytes-IsWhole j n small) h))

distance-IsWhole : IsWhole (88 ∷ 1 ∷ [])
unfolding scan
distance-IsWhole = refl

module _ {W : Type 0} (Other : List ℕ → State W → State W → Type 0) (i j : ℕ) (c t f : List ℕ)
    (small_i : i < 32) (small_j : j < 32) (below_i : over_false j f < 256 ^ suc i)
    (below_j : suc (length t) + 3 < 256 ^ suc j) (wc : IsWhole c) (wt : IsWhole t)
    (wf : IsWhole f) where
  -- The position of the conditional jump, for a layout at p.
  abbrev test_at : ℕ → ℕ
  test_at p = p + length c + (2 + i) + 2

  -- The position of the jump over the true branch.
  abbrev leave_at : ℕ → ℕ
  leave_at p = test_at p + 1 + length f + (2 + j) + 2

  module _ (code : List ℕ) (p : ℕ) (h : IsPlaced code p (layout i j c t f))
      (bound : length code < 2 ^ 256) where
    at_distance :
        IsPlaced code
          (p + length c)
          (push_bytes i (over_false j f) ++ (88 ∷ 1 ∷ 87 ∷ false_bytes j t f))
    at_distance =
        right-IsPlaced c (push_bytes i (over_false j f) ++ (88 ∷ 1 ∷ 87 ∷ false_bytes j t f)) wc h

    at_test : IsPlaced code (test_at p) (87 ∷ false_bytes j t f)
    at_test =
        after_jump i (over_false j f) 87 (false_bytes j t f) small_i distance-IsWhole at_distance

    at_false : IsPlaced code (test_at p + 1) (false_bytes j t f)
    at_false = right-IsPlaced (87 ∷ []) (false_bytes j t f) (single-IsWhole 87 refl) at_test

    at_leave : IsPlaced code (leave_at p) (86 ∷ true_bytes t)
    at_leave = after_jump j (suc (length t) + 3) 86 (true_bytes t) small_j distance-IsWhole (
        right-IsPlaced f (push_bytes j (suc (length t) + 3) ++ (88 ∷ 1 ∷ 86 ∷ true_bytes t)) wf
          at_false)

    at_true : IsPlaced code (leave_at p + 1) (true_bytes t)
    at_true = right-IsPlaced (86 ∷ []) (true_bytes t) (single-IsWhole 86 refl) at_leave

    at_body : IsPlaced code (leave_at p + 1 + 1) (t ++ (91 ∷ []))
    at_body = right-IsPlaced (91 ∷ []) (t ++ (91 ∷ [])) (single-IsWhole 91 refl) at_true

    at_end : IsPlaced code (leave_at p + 1 + 1 + length t) (91 ∷ [])
    at_end = right-IsPlaced t (91 ∷ []) wt at_body

    end_lem : leave_at p + 1 + 1 + length t + 1 ≡ p + length (layout i j c t f)
    end_lem = omega (
      arith,
      length-append c (push_bytes i (over_false j f) ++ (88 ∷ 1 ∷ 87 ∷ false_bytes j t f)),
      length-append (push_bytes i (over_false j f)) (88 ∷ 1 ∷ 87 ∷ false_bytes j t f),
      length-append f (push_bytes j (suc (length t) + 3) ++ (88 ∷ 1 ∷ 86 ∷ true_bytes t)),
      length-append (push_bytes j (suc (length t) + 3)) (88 ∷ 1 ∷ 86 ∷ true_bytes t),
      length-append t (91 ∷ []),
      length-push_bytes i (over_false j f),
      length-push_bytes j (suc (length t) + 3),
    )

    inside : leave_at p + 1 + 1 + length t + 1 ≤ length code
    inside = omega (arith, IsPlaced-length (91 ∷ []) at_end)

    to_test :
        (v : ℕ) (s : List ℕ) (w : W)
        → Steps Other code
            (at (p + length c) (v ∷ s) w)
            (at (test_at p) ((leave_at p + 1) ∷ v ∷ s) w)
    to_test v s w = Steps-arrive Other (omega arith) (omega arith) (
        forward_lem Other i (over_false j f) (v ∷ s) w (87 ∷ false_bytes j t f) code (p + length c)
          small_i below_i at_distance bound (omega (arith, inside, bound)))

    to_leave :
        (s : List ℕ) (w : W)
        → Steps Other code
            (at (test_at p + 1 + length f) s w)
            (at (leave_at p) ((leave_at p + 1 + 1 + length t) ∷ s) w)
    to_leave s w = Steps-arrive Other (omega arith) (omega arith) (
        forward_lem Other j (suc (length t) + 3) s w (86 ∷ true_bytes t) code
          (test_at p + 1 + length f) small_j below_j
          (right-IsPlaced f (push_bytes j (suc (length t) + 3) ++ (88 ∷ 1 ∷ 86 ∷ true_bytes t)) wf
            at_false)
          bound (omega (arith, inside, bound)))

    pub run_true :
        (v : ℕ) (s r : List ℕ) (w x : W)
        → 0 < v
        → Runs Other t s w r x
        → Steps Other code (at (p + length c) (v ∷ s) w) (at (p + length (layout i j c t f)) r x)
    run_true v s r w x positive body = Steps-trans Other (to_test v s w) (
        then
          (jumpi_taken (IsPlaced-get 87 (false_bytes j t f) at_test) positive
            (IsPlaced-IsTarget (t ++ (91 ∷ [])) at_true))
          (then (jumpdest (IsPlaced-get 91 (t ++ (91 ∷ [])) at_true)) (
            Steps-trans Other
              (body code (leave_at p + 1 + 1) (left-IsPlaced t (91 ∷ []) at_body) bound)
              (Steps-move Other end_lem (one_step Other (jumpdest (IsPlaced-get 91 [] at_end)))))))

    pub run_false :
        (s r : List ℕ) (w x : W)
        → Runs Other f s w r x
        → Steps Other code (at (p + length c) (0 ∷ s) w) (at (p + length (layout i j c t f)) r x)
    run_false s r w x body = Steps-trans Other (to_test 0 s w) (
        then (jumpi_passed (IsPlaced-get 87 (false_bytes j t f) at_test)) (
          Steps-trans Other
            (body code (test_at p + 1)
              (left-IsPlaced f (push_bytes j (suc (length t) + 3) ++ (88 ∷ 1 ∷ 86 ∷ true_bytes t))
                at_false)
              bound)
            (Steps-trans Other (to_leave r x) (
              then (jump (IsPlaced-get 86 (true_bytes t) at_leave) (IsPlaced-IsTarget [] at_end)) (
                Steps-move Other end_lem
                  (one_step Other (jumpdest (IsPlaced-get 91 [] at_end))))))))
