-- ===== src/Tools/Generators/Cases/Wrap.antt =====
-- The bytes that one turn of the loop of Switch in src/ethereum_test_tools/tools_code/generators.py
-- makes, for legacy code.
use execution_spec_tests.Base.{
  ℕ, suc, ◌+◌, ◌-◌, ◌^◌, ◌<◌, ◌≡◌, refl, ap, ◌∙◌, [], ◌∷◌, ◌++◌, append_assoc, length,
  length-append, arith, ok,
}
use execution_spec_tests.Vm.Bytecode.{Bytecode, join, len}
use execution_spec_tests.Vm.Machine.Jumps.{push_bytes}
use execution_spec_tests.Vm.Opcodes.Stack.{jumpdest as op_jumpdest}
use execution_spec_tests.Tools.Generators.{Case, Onion, forward, jump_to, jump_if, wrap_legacy}
use execution_spec_tests.Tools.Generators.Layout.{
  forward-Makes, forward_byte-Makes, jump_to-Makes, jump_if-Makes,
}
use execution_spec_tests.Tools.Generators.Exit.{layer}

-- The onion that a turn makes for a case, where k bytes come behind it.
pub record IsWrapped (c : Case) (o wrapped : Onion) (k i : ℕ) : Type 0 where
  pub bytes : wrapped.code.bytes ≡ layer i 0 c.condition.bytes o.code.bytes c.action.bytes k
  pub leaves : wrapped.action_jump_length ≡ k + 3
  pub enters : wrapped.condition_jump_length ≡ length wrapped.code.bytes + 3

pub wrap_legacy-IsWrapped :
    (c : Case) (o : Onion) (k : ℕ)
    → o.action_jump_length ≡ length c.action.bytes + 6 + k + 3
    → o.condition_jump_length ≡ length o.code.bytes + 3
    → k + 3 < 256
    → length o.code.bytes + 3 < 2 ^ 256
    → (i : ℕ) × (wrapped : Onion) × (i < 32)
      × (length o.code.bytes + 3 < 256 ^ suc i)
      × (wrap_legacy c o ≡ ok wrapped)
      × IsWrapped c o wrapped k i
unfolding wrap_legacy len join
wrap_legacy-IsWrapped c o k jumps skips near fits =
    let (end, end_e, end_b) = forward_byte-Makes (k + 3) near in
    let (leave, leave_e, leave_b) = jump_to-Makes end in
    let (i, small, below, (target, target_e, target_b)) =
      forward-Makes (length o.code.bytes + 3) fits in
    let (test, test_e, test_b) = jump_if-Makes target c.condition in
    built i end leave target test small below end_e end_b leave_e leave_b target_e target_b test_e
      test_b
  where
    left : o.action_jump_length - (length c.action.bytes + 6) ≡ k + 3
    left = omega (arith, jumps)

    built :
        (i : ℕ) (end leave target test : Bytecode)
        → i < 32
        → length o.code.bytes + 3 < 256 ^ suc i
        → forward (k + 3) ≡ ok end
        → end.bytes ≡ push_bytes 0 (k + 3) ++ (88 ∷ 1 ∷ [])
        → jump_to end ≡ ok leave
        → leave.bytes ≡ end.bytes ++ (86 ∷ [])
        → forward (length o.code.bytes + 3) ≡ ok target
        → target.bytes ≡ push_bytes i (length o.code.bytes + 3) ++ (88 ∷ 1 ∷ [])
        → jump_if target c.condition ≡ ok test
        → test.bytes ≡ c.condition.bytes ++ (target.bytes ++ (87 ∷ []))
        → (i : ℕ) × (wrapped : Onion) × (i < 32)
          × (length o.code.bytes + 3 < 256 ^ suc i)
          × (wrap_legacy c o ≡ ok wrapped)
          × IsWrapped c o wrapped k i
    built i end leave target test small below end_e end_b leave_e leave_b target_e target_b test_e
          test_b =
        (
          i,
          record {
            code = join (join test o.code) (join (join op_jumpdest.code c.action) leave);
            action_jump_length = o.action_jump_length - (length c.action.bytes + 6);
            condition_jump_length =
                o.condition_jump_length
                + (length test.bytes + length (join (join op_jumpdest.code c.action) leave).bytes);
          },
          small,
          below,
          rw (ap forward left ∙ end_e, leave_e, ap forward skips ∙ target_e, test_e) refl,
          record {
            bytes = whole;
            leaves = left;
            enters = omega (
              arith,
              skips,
              length-append (test.bytes ++ o.code.bytes) ((91 ∷ c.action.bytes) ++ leave.bytes),
              length-append test.bytes o.code.bytes,
            );
          },
        )
      where
        whole :
            (test.bytes ++ o.code.bytes) ++ ((91 ∷ c.action.bytes) ++ leave.bytes)
            ≡ layer i 0 c.condition.bytes o.code.bytes c.action.bytes k
        whole = rw (test_b, leave_b, target_b, end_b) (simp append_assoc)
