-- ===== src/Tools/Generators/Conditional.antt =====
-- Proofs on Conditional in src/ethereum_test_tools/tools_code/generators.py, for legacy code.
use execution_spec_tests.Base.{
  ℕ, suc, ◌+◌, ◌^◌, ◌<◌, ◌≡◌, refl, ap, ◌∙◌, List, [], ◌∷◌, ◌++◌, append_assoc, length,
  length-append, arith, ok,
}
use execution_spec_tests.Vm.Bytecode.{Bytecode, join, len}
use execution_spec_tests.Vm.Machine.Jumps.{push_bytes, length-push_bytes}
use execution_spec_tests.Vm.Opcodes.Stack.{jumpdest as op_jumpdest}
use execution_spec_tests.Tools.Generators.{forward, jump_to, jump_if, conditional_legacy}
use execution_spec_tests.Tools.Generators.Layout.{
  Makes, forward-Makes, jump_to-Makes, jump_if-Makes,
}

-- The true branch, between the two JUMPDESTs, and the false one with its jump; the numbers are the
-- distances of the two jumps.
abbrev pub true_bytes : List ℕ → List ℕ
true_bytes t = 91 ∷ (t ++ (91 ∷ []))

abbrev pub false_bytes : (j : ℕ) → List ℕ → List ℕ → List ℕ
false_bytes j t f = f ++ (push_bytes j (suc (length t) + 3) ++ (88 ∷ 1 ∷ 86 ∷ true_bytes t))

abbrev pub over_false : (j : ℕ) → List ℕ → ℕ
over_false j f = length f + (2 + j) + 6

abbrev pub layout : (i j : ℕ) → List ℕ → List ℕ → List ℕ → List ℕ
layout i j c t f = c ++ (push_bytes i (over_false j f) ++ (88 ∷ 1 ∷ 87 ∷ false_bytes j t f))

-- The pieces are no longer than this: their distances fit a word.
abbrev pub Fits : List ℕ → List ℕ → Type 0
Fits t f = length t + length f + 100 < 2 ^ 256

jump-length :
    (j n : ℕ) (over leave : Bytecode)
    → over.bytes ≡ push_bytes j n ++ (88 ∷ 1 ∷ [])
    → leave.bytes ≡ over.bytes ++ (86 ∷ [])
    → length leave.bytes ≡ 2 + j + 3
jump-length j n over leave p q = omega (
  arith,
  ap length p,
  ap length q,
  length-append (push_bytes j n) (88 ∷ 1 ∷ []),
  length-append over.bytes (86 ∷ []),
  length-push_bytes j n,
)

-- The pieces that are joined last, as bytes.
joined_bytes :
    (i j : ℕ) (c t f over leave target test : Bytecode)
    → over.bytes ≡ push_bytes j (suc (length t.bytes) + 3) ++ (88 ∷ 1 ∷ [])
    → leave.bytes ≡ over.bytes ++ (86 ∷ [])
    → target.bytes ≡ push_bytes i (over_false j f.bytes) ++ (88 ∷ 1 ∷ [])
    → test.bytes ≡ c.bytes ++ (target.bytes ++ (87 ∷ []))
    → (join (join (join test (join f leave)) (join op_jumpdest.code t)) op_jumpdest.code).bytes
      ≡ layout i j c.bytes t.bytes f.bytes
unfolding join
joined_bytes i j c t f over leave target test over_b leave_b target_b test_b =
    rw (test_b, leave_b, target_b, over_b) (simp append_assoc)

pub conditional-Makes :
    (c t f : Bytecode)
    → Fits t.bytes f.bytes
    → (i : ℕ) × (j : ℕ) × (i < 32)
      × (j < 32)
      × (over_false j f.bytes < 256 ^ suc i)
      × (suc (length t.bytes) + 3 < 256 ^ suc j)
      × Makes (conditional_legacy c t f) (layout i j c.bytes t.bytes f.bytes)
unfolding conditional_legacy len join
conditional-Makes c t f fits =
    let (j, small_j, below_j, (over, over_e, over_b)) =
      forward-Makes (suc (length t.bytes) + 3) (omega arith) in
    let (leave, leave_e, leave_b) = jump_to-Makes over in
    let (i, small_i, below_i, (target, target_e, target_b)) =
      forward-Makes (over_false j f.bytes) (omega arith) in
    let (test, test_e, test_b) = jump_if-Makes target c in
    (
      i,
      j,
      small_i,
      small_j,
      below_i,
      below_j,
      built i j over leave target test over_e over_b leave_e leave_b target_e target_b test_e
          test_b,
    )
  where
    away :
        (j : ℕ) (over leave : Bytecode)
        → over.bytes ≡ push_bytes j (suc (length t.bytes) + 3) ++ (88 ∷ 1 ∷ [])
        → leave.bytes ≡ over.bytes ++ (86 ∷ [])
        → length (f.bytes ++ leave.bytes) + 3 ≡ over_false j f.bytes
    away j over leave over_b leave_b = omega (
      arith,
      length-append f.bytes leave.bytes,
      jump-length j (suc (length t.bytes) + 3) over leave over_b leave_b,
    )

    built :
        (i j : ℕ) (over leave target test : Bytecode)
        → forward (suc (length t.bytes) + 3) ≡ ok over
        → over.bytes ≡ push_bytes j (suc (length t.bytes) + 3) ++ (88 ∷ 1 ∷ [])
        → jump_to over ≡ ok leave
        → leave.bytes ≡ over.bytes ++ (86 ∷ [])
        → forward (over_false j f.bytes) ≡ ok target
        → target.bytes ≡ push_bytes i (over_false j f.bytes) ++ (88 ∷ 1 ∷ [])
        → jump_if target c ≡ ok test
        → test.bytes ≡ c.bytes ++ (target.bytes ++ (87 ∷ []))
        → Makes (conditional_legacy c t f) (layout i j c.bytes t.bytes f.bytes)
    built i j over leave target test over_e over_b leave_e leave_b target_e target_b test_e test_b =
        (
          join (join (join test (join f leave)) (join op_jumpdest.code t)) op_jumpdest.code,
          rw (over_e, leave_e, ap forward (away j over leave over_b leave_b) ∙ target_e, test_e)
              refl,
          joined_bytes i j c t f over leave target test over_b leave_b target_b test_b,
        )
