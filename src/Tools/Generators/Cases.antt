-- ===== src/Tools/Generators/Cases.antt =====
-- The loop of Switch in src/ethereum_test_tools/tools_code/generators.py, for legacy code.
mod Wrap
mod Chosen
mod Examples
use execution_spec_tests.Base.{
  ℕ, zero, suc, ◌+◌, ◌^◌, ◌<◌, ◌≤◌, ◌≡◌, refl, sym, ap, ◌∙◌, subst, some, List, [], ◌∷◌, ◌++◌,
  length, length-append, arith, Result, ok, All, append_assoc,
}
use execution_spec_tests.Vm.Bytecode.{Bytecode, join, len}
use execution_spec_tests.Vm.Machine.{State, IsWhole, Steps}
use execution_spec_tests.Vm.Machine.Placed.{append-IsWhole}
use execution_spec_tests.Vm.Machine.Jumps.{push_bytes, Runs}
use execution_spec_tests.Tools.Generators.{
  Case, Onion, forward, jump_to, action_lengths, start_legacy, wrap_legacy, wrap_all,
}
use execution_spec_tests.Tools.Generators.Layout.{forward-Makes, jump_to-Makes}
use execution_spec_tests.Tools.Generators.Exit.{
  exit, length-exit, exit-IsWhole, Leaves, exit-Leaves, Leaves-append,
}

-- The distances that the cases jump over fit one byte; the one of the last case is the greatest.
abbrev pub Near : List Case → ℕ → Type 0
Near [] k = Unit
Near (c ∷ cases) k = (k + 3 < 256) × Near cases (length c.action.bytes + 6 + k)

-- A bound on the length of the code.
abbrev pub room : ℕ → List Case → ℕ
room d [] = d + 40
room d (c ∷ cases) = length c.condition.bytes + length c.action.bytes + 60 + room d cases

-- The pieces have all the data of their pushes.
abbrev pub ArePieces : List Case → Type 0
ArePieces [] = Unit
ArePieces (c ∷ cases) = IsWhole c.condition.bytes × IsWhole c.action.bytes × ArePieces cases

module _ {W : Type 0} (Other : List ℕ → State W → State W → Type 0) where
  -- What the first case does whose condition leaves a word that is not zero, or else the default; the
  -- conditions before it leave zero.
  pub data Selects (default : List ℕ) : List Case → List ℕ → W → List ℕ → W → Type 0 where
    otherwise : {s r : List ℕ} {w x : W} → Runs Other default s w r x → Selects default [] s w r x
    met :
        {c : Case} {cases : List Case} {s m r : List ℕ} {w u x : W} (v : ℕ)
        → 0 < v
        → Runs Other c.condition.bytes s w (v ∷ m) u
        → Runs Other c.action.bytes m u r x
        → Selects default (c ∷ cases) s w r x
    unmet :
        {c : Case} {cases : List Case} {s m r : List ℕ} {w u x : W}
        → Runs Other c.condition.bytes s w (0 ∷ m) u
        → Selects default cases m u r x
        → Selects default (c ∷ cases) s w r x

  -- The loop's state behind some cases, when the code is to jump over k bytes more.
  pub record IsOnion (default : List ℕ) (cases : List Case) (k : ℕ) (o : Onion) : Type 0 where
    pub leaves : o.action_jump_length ≡ k + 3
    pub enters : o.condition_jump_length ≡ length o.code.bytes + 3
    pub whole : IsWhole o.code.bytes
    pub fits : length o.code.bytes ≤ room (length default) cases
    pub runs :
        (s r : List ℕ) (w x : W)
        → Selects default cases s w r x
        → Leaves Other o.code.bytes k s w r x

  pub start-IsOnion :
      (default : Bytecode) (cases : List Case)
      → IsWhole default.bytes
      → action_lengths cases + 3 < 2 ^ 256
      → (o : Onion) × (start_legacy (some default) cases ≡ ok o)
        × IsOnion default.bytes [] (action_lengths cases) o
  unfolding start_legacy len join
  start-IsOnion default cases whole fits =
      let (j, small, below, (over, over_e, over_b)) =
        forward-Makes (action_lengths cases + 3) fits in
      let (leave, leave_e, leave_b) = jump_to-Makes over in
      built j over leave small below over_e over_b leave_e leave_b
    where
      default_run :
          (default : List ℕ) (s r : List ℕ) (w x : W)
          → Selects default [] s w r x
          → Runs Other default s w r x
      default_run default s r w x (otherwise run) = run

      built :
          (j : ℕ) (over leave : Bytecode)
          → j < 32
          → action_lengths cases + 3 < 256 ^ suc j
          → forward (action_lengths cases + 3) ≡ ok over
          → over.bytes ≡ push_bytes j (action_lengths cases + 3) ++ (88 ∷ 1 ∷ [])
          → jump_to over ≡ ok leave
          → leave.bytes ≡ over.bytes ++ (86 ∷ [])
          → (o : Onion) × (start_legacy (some default) cases ≡ ok o)
            × IsOnion default.bytes [] (action_lengths cases) o
      built j over leave small below over_e over_b leave_e leave_b =
          let k = action_lengths cases in
          let bytes : leave.bytes ≡ exit j k = rw (leave_b, over_b) (simp append_assoc) in
          (
            record {
              code = join default leave;
              action_jump_length = k + 3;
              condition_jump_length = length (default.bytes ++ leave.bytes) + 3;
            },
            rw (over_e, leave_e) refl,
            record {
              leaves = refl;
              enters = refl;
              whole =
                  subst (λ b. IsWhole (default.bytes ++ b)) (sym bytes)
                    (append-IsWhole default.bytes (exit j k) whole (exit-IsWhole j k small));
              fits = omega (
                arith,
                length-append default.bytes leave.bytes,
                ap length bytes,
                length-exit j k,
              );
              runs = λ s r w x sel.
                  subst (λ b. Leaves Other (default.bytes ++ b) k s w r x) (sym bytes)
                    (Leaves-append Other default.bytes (exit j k) k s r r w x x whole
                      (default_run default.bytes s r w x sel)
                      (exit-Leaves Other j k r x small below));
            },
          )
