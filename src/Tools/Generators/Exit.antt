-- ===== src/Tools/Generators/Exit.antt =====
-- Proofs on the pieces of Switch in src/ethereum_test_tools/tools_code/generators.py, for legacy code.
use mathlib.Core.Option.{none-ne-some}
use execution_spec_tests.Base.{
  ℕ, zero, suc, ◌+◌, ◌^◌, ◌<◌, ◌≡◌, refl, sym, ap, subst, some, List, [], ◌∷◌, ◌++◌, length,
  length-append, arith, get_elem?,
}
use execution_spec_tests.Vm.Machine.{State, at, scan, IsWhole, IsTarget, Steps, jump}
use execution_spec_tests.Vm.Machine.Placed.{
  IsPlaced, left-IsPlaced, right-IsPlaced, IsPlaced-move, IsPlaced-get, append-IsWhole,
  single-IsWhole,
}
use execution_spec_tests.Vm.Machine.Jumps.{
  push_bytes, length-push_bytes, push_bytes-IsWhole, Steps-trans, Steps-move, Steps-arrive,
  one_step, Runs, forward_lem,
}

-- A jump over some number of bytes that follow it.
abbrev pub exit : ℕ → ℕ → List ℕ
exit j k = push_bytes j (k + 3) ++ (88 ∷ 1 ∷ 86 ∷ [])

abbrev pub test_of : ℕ → List ℕ → ℕ → List ℕ
test_of i c n = c ++ (push_bytes i (n + 3) ++ (88 ∷ 1 ∷ 87 ∷ []))

abbrev pub action_of : ℕ → List ℕ → ℕ → List ℕ
action_of j a k = 91 ∷ (a ++ exit j k)

-- A case around the code of those behind it.
abbrev pub layer : (i j : ℕ) → (c o a : List ℕ) → ℕ → List ℕ
layer i j c o a k = test_of i c (length o) ++ (o ++ action_of j a k)

pub length-exit : (j k : ℕ) → length (exit j k) ≡ j + 5
length-exit j k =
    omega
      (arith, length-append (push_bytes j (k + 3)) (88 ∷ 1 ∷ 86 ∷ []), length-push_bytes j (k + 3))

pub length-test_of : (i : ℕ) (c : List ℕ) (n : ℕ) → length (test_of i c n) ≡ length c + i + 5
length-test_of i c n = omega (
  arith,
  length-append c (push_bytes i (n + 3) ++ (88 ∷ 1 ∷ 87 ∷ [])),
  length-append (push_bytes i (n + 3)) (88 ∷ 1 ∷ 87 ∷ []),
  length-push_bytes i (n + 3),
)

pub length-action_of : (j : ℕ) (a : List ℕ) (k : ℕ) → length (action_of j a k) ≡ length a + j + 6
length-action_of j a k = omega (arith, length-append a (exit j k), length-exit j k)

pub exit-IsWhole : (j k : ℕ) → j < 32 → IsWhole (exit j k)
unfolding scan
exit-IsWhole j k h =
    append-IsWhole (push_bytes j (k + 3)) (88 ∷ 1 ∷ 86 ∷ []) (push_bytes-IsWhole j (k + 3) h) refl

pub test_of-IsWhole : (i : ℕ) (c : List ℕ) (n : ℕ) → i < 32 → IsWhole c → IsWhole (test_of i c n)
unfolding scan
test_of-IsWhole i c n h w =
    append-IsWhole c (push_bytes i (n + 3) ++ (88 ∷ 1 ∷ 87 ∷ [])) w (
      append-IsWhole (push_bytes i (n + 3)) (88 ∷ 1 ∷ 87 ∷ []) (push_bytes-IsWhole i (n + 3) h)
        refl)

pub action_of-IsWhole :
    (j : ℕ) (a : List ℕ) (k : ℕ) → j < 32 → IsWhole a → IsWhole (action_of j a k)
action_of-IsWhole j a k h w =
    append-IsWhole (91 ∷ []) (a ++ exit j k) (single-IsWhole 91 refl)
      (append-IsWhole a (exit j k) w (exit-IsWhole j k h))

-- A position that holds a byte is inside the code.
get-inside : (code : List ℕ) (p b : ℕ) → get_elem? code p ≡ some b → p < length code
get-inside [] p b e = absurd (none-ne-some b e)
get-inside (x ∷ code) zero b e = omega arith
get-inside (x ∷ code) (suc p) b e = omega (arith, get-inside code p b e)

pub mid-IsWhole : IsWhole (88 ∷ 1 ∷ [])
unfolding scan
mid-IsWhole = refl

module _ {W : Type 0} (Other : List ℕ → State W → State W → Type 0) where
  -- Code that jumps over the next bytes at its end, wherever it stands in front of a target.
  abbrev pub Leaves : List ℕ → ℕ → List ℕ → W → List ℕ → W → Type 0
  Leaves bytes k s w t v =
      (code : List ℕ) (p : ℕ)
      → IsPlaced code p bytes
      → IsTarget code (p + length bytes + k)
      → length code < 2 ^ 256
      → Steps Other code (at p s w) (at (p + length bytes + k) t v)

  pub exit-Leaves :
      (j k : ℕ) (s : List ℕ) (w : W) → j < 32 → k + 3 < 256 ^ suc j → Leaves (exit j k) k s w s w
  exit-Leaves j k s w small below code p h target bound =
      let there = right-IsPlaced (88 ∷ 1 ∷ []) (86 ∷ []) mid-IsWhole (
        right-IsPlaced (push_bytes j (k + 3)) (88 ∷ 1 ∷ 86 ∷ [])
          (push_bytes-IsWhole j (k + 3) small) h) in
      let at_jump : IsPlaced code (p + (2 + j) + 2) (86 ∷ []) =
        IsPlaced-move (86 ∷ []) (ap (λ n. p + n + 2) (length-push_bytes j (k + 3))) there in
      Steps-trans Other
        (Steps-arrive Other (omega arith) (omega (arith, length-exit j k)) (
          forward_lem Other j (k + 3) s w (86 ∷ []) code p small below h bound (
            omega (
              arith,
              get-inside code (p + length (exit j k) + k) 91 target.1,
              length-exit j k,
              bound,
            ))))
        (one_step Other (jump (IsPlaced-get 86 [] at_jump) target))

  pub Leaves-append :
      (a b : List ℕ) (k : ℕ) (s t u : List ℕ) (w v x : W)
      → IsWhole a
      → Runs Other a s w t v
      → Leaves b k t v u x
      → Leaves (a ++ b) k s w u x
  Leaves-append a b k s t u w v x whole f g code p h target bound =
      let far : p + length (a ++ b) + k ≡ p + length a + length b + k =
        omega (arith, length-append a b) in
      Steps-trans Other (f code p (left-IsPlaced a b h) bound) (
        Steps-move Other (sym far) (
          g code (p + length a) (right-IsPlaced a b whole h) (subst (IsTarget code) far target)
            bound))
