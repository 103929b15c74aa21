-- ===== src/Tools/Generators/Layer.antt =====
-- What one case of Switch in src/ethereum_test_tools/tools_code/generators.py does in the virtual
-- machine, for legacy code.
use execution_spec_tests.Base.{
  ℕ, suc, ◌+◌, ◌^◌, ◌<◌, ◌≡◌, refl, sym, ap, subst, List, [], ◌∷◌, ◌++◌, length, length-append,
  arith,
}
use execution_spec_tests.Vm.Machine.{
  State, at, IsWhole, IsTarget, Steps, then, jumpdest, jumpi_taken, jumpi_passed,
}
use execution_spec_tests.Vm.Machine.Placed.{
  IsPlaced, left-IsPlaced, right-IsPlaced, IsPlaced-move, IsPlaced-get, IsPlaced-IsTarget,
  IsPlaced-length, single-IsWhole,
}
use execution_spec_tests.Vm.Machine.Jumps.{
  push_bytes, length-push_bytes, push_bytes-IsWhole, Steps-trans, Steps-move, Steps-arrive, Runs,
  forward_lem,
}
use execution_spec_tests.Tools.Generators.Exit.{
  exit, test_of, action_of, layer, length-test_of, length-action_of, test_of-IsWhole, mid-IsWhole,
  Leaves, exit-Leaves, Leaves-append,
}

pub length-layer :
    (i j : ℕ) (c o a : List ℕ) (k : ℕ)
    → length (layer i j c o a k)
      ≡ length (test_of i c (length o)) + length o + length (action_of j a k)
length-layer i j c o a k = omega (
  arith,
  length-append (test_of i c (length o)) (o ++ action_of j a k),
  length-append o (action_of j a k),
)

module _ {W : Type 0} (Other : List ℕ → State W → State W → Type 0) (i j : ℕ) (c o a : List ℕ)
    (k : ℕ) (small_i : i < 32) (small_j : j < 32) (below_i : length o + 3 < 256 ^ suc i)
    (below_j : k + 3 < 256 ^ suc j) (wc : IsWhole c) (wo : IsWhole o) (wa : IsWhole a) where
  module _ (code : List ℕ) (p : ℕ) (h : IsPlaced code p (layer i j c o a k))
      (bound : length code < 2 ^ 256) where
    abbrev inner_at : ℕ
    inner_at = p + length (test_of i c (length o))

    at_inner : IsPlaced code inner_at (o ++ action_of j a k)
    at_inner =
        right-IsPlaced (test_of i c (length o)) (o ++ action_of j a k)
          (test_of-IsWhole i c (length o) small_i wc) h

    at_action : IsPlaced code (inner_at + length o) (action_of j a k)
    at_action = right-IsPlaced o (action_of j a k) wo at_inner

    at_distance : IsPlaced code (p + length c) (push_bytes i (length o + 3) ++ (88 ∷ 1 ∷ 87 ∷ []))
    at_distance =
        right-IsPlaced c (push_bytes i (length o + 3) ++ (88 ∷ 1 ∷ 87 ∷ [])) wc
          (left-IsPlaced (test_of i c (length o)) (o ++ action_of j a k) h)

    at_test : IsPlaced code (p + length c + (2 + i) + 2) (87 ∷ [])
    at_test =
        IsPlaced-move (87 ∷ [])
          (ap (λ n. p + length c + n + 2) (length-push_bytes i (length o + 3)))
          (right-IsPlaced (88 ∷ 1 ∷ []) (87 ∷ []) mid-IsWhole (
            right-IsPlaced (push_bytes i (length o + 3)) (88 ∷ 1 ∷ 87 ∷ [])
              (push_bytes-IsWhole i (length o + 3) small_i) at_distance))

    to_test :
        (v : ℕ) (s : List ℕ) (w : W)
        → Steps Other code
            (at (p + length c) (v ∷ s) w)
            (at (p + length c + (2 + i) + 2) ((inner_at + length o) ∷ v ∷ s) w)
    to_test v s w =
        Steps-arrive Other (omega arith) (omega (arith, length-test_of i c (length o))) (
          forward_lem Other i (length o + 3) (v ∷ s) w (87 ∷ []) code (p + length c) small_i below_i
            at_distance bound
            (omega (
              arith,
              IsPlaced-length (action_of j a k) at_action,
              length-test_of i c (length o),
              length-action_of j a k,
              bound,
            )))

    -- A word that is not zero leads to the action, and on to the target.
    pub run_met :
        (v : ℕ) (s r : List ℕ) (w x : W)
        → 0 < v
        → Runs Other a s w r x
        → IsTarget code (p + length (layer i j c o a k) + k)
        → Steps Other code
            (at (p + length c) (v ∷ s) w)
            (at (p + length (layer i j c o a k) + k) r x)
    run_met v s r w x positive run target =
        let far : p + length (layer i j c o a k) + k
            ≡ inner_at + length o + 1 + length (a ++ exit j k) + k =
          omega (arith, length-layer i j c o a k) in
        Steps-trans Other (to_test v s w) (
          then
            (jumpi_taken (IsPlaced-get 87 [] at_test) positive
              (IsPlaced-IsTarget (a ++ exit j k) at_action))
            (then (jumpdest (IsPlaced-get 91 (a ++ exit j k) at_action)) (
              Steps-move Other (sym far) (
                Leaves-append Other a (exit j k) k s r r w x x wa run
                  (exit-Leaves Other j k r x small_j below_j) code (inner_at + length o + 1)
                  (right-IsPlaced (91 ∷ []) (a ++ exit j k) (single-IsWhole 91 refl) at_action)
                  (subst (IsTarget code) far target) bound))))

    -- Zero leads into the code of the cases behind, which jumps over this action as well.
    pub run_unmet :
        (s r : List ℕ) (w x : W)
        → Leaves Other o (length (action_of j a k) + k) s w r x
        → IsTarget code (p + length (layer i j c o a k) + k)
        → Steps Other code
            (at (p + length c) (0 ∷ s) w)
            (at (p + length (layer i j c o a k) + k) r x)
    run_unmet s r w x leaves target =
        let far : p + length (layer i j c o a k) + k
            ≡ inner_at + length o + (length (action_of j a k) + k) =
          omega (arith, length-layer i j c o a k) in
        let passed : p + length c + (2 + i) + 2 + 1 ≡ inner_at =
          omega (arith, length-test_of i c (length o)) in
        Steps-trans Other (to_test 0 s w) (
          then (jumpi_passed (IsPlaced-get 87 [] at_test)) (
            subst (λ q. Steps Other code (at q s w) (at (p + length (layer i j c o a k) + k) r x))
              (sym passed)
              (Steps-move Other (sym far) (
                leaves code inner_at (left-IsPlaced o (action_of j a k) at_inner)
                  (subst (IsTarget code) far target) bound))))
