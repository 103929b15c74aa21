-- ===== src/Tools/Generators/While.antt =====
-- What the code of While in src/ethereum_test_tools/tools_code/generators.py does in the virtual
-- machine, for legacy code with a condition.
use execution_spec_tests.Base.{
  ℕ, ◌+◌, ◌^◌, ◌<◌, ◌≤◌, ◌≡◌, refl, sym, subst, some, List, [], ◌∷◌, ◌++◌, append_assoc, length,
  length-append, arith, ok, err, overflow_error,
}
use execution_spec_tests.Vm.Bytecode.{Bytecode, empty, join, len}
use execution_spec_tests.Vm.Opcodes.Stack.{jumpdest as op_jumpdest}
use execution_spec_tests.Vm.Machine.{
  State, at, scan, IsWhole, Steps, then, jumpdest, jumpi_taken, jumpi_passed,
}
use execution_spec_tests.Vm.Machine.Placed.{
  IsPlaced, left-IsPlaced, right-IsPlaced, IsPlaced-move, IsPlaced-get, IsPlaced-IsTarget,
  IsPlaced-length, single-IsWhole,
}
use execution_spec_tests.Vm.Machine.Jumps.{
  push_bytes, length-push_bytes, push_bytes-IsWhole, Steps-trans, Steps-move, Steps-arrive,
  one_step, Runs, backward_lem,
}
use execution_spec_tests.Tools.Generators.{legacy, backward, jump_if, while_loop}
use execution_spec_tests.Tools.Generators.Layout.{
  Makes, backward-Makes, backward_overflow, jump_if-Makes,
}

abbrev pub tail_bytes : ℕ → List ℕ
tail_bytes n = push_bytes 3 n ++ (88 ∷ 3 ∷ 87 ∷ [])

abbrev pub turn : List ℕ → List ℕ → ℕ
turn body condition = length body + length condition + 6

abbrev pub loop_bytes : List ℕ → List ℕ → List ℕ
loop_bytes body condition = 91 ∷ (body ++ (condition ++ tail_bytes (turn body condition)))

while-Makes :
    (body condition : Bytecode)
    → turn body.bytes condition.bytes < 256 ^ 4
    → Makes (while_loop body (some condition) legacy) (loop_bytes body.bytes condition.bytes)
unfolding while_loop len join
while-Makes body condition h =
    let (target, e, b) = backward-Makes (turn body.bytes condition.bytes) h in
    let (again, again_e, again_b) = jump_if-Makes target condition in
    built target again e b again_e again_b
  where
    built :
        (target again : Bytecode)
        → backward (turn body.bytes condition.bytes) ≡ ok target
        → target.bytes ≡ push_bytes 3 (turn body.bytes condition.bytes) ++ (88 ∷ 3 ∷ [])
        → jump_if target condition ≡ ok again
        → again.bytes ≡ condition.bytes ++ (target.bytes ++ (87 ∷ []))
        → Makes (while_loop body (some condition) legacy) (loop_bytes body.bytes condition.bytes)
    built target again e b again_e again_b = (
      join (join (join (empty "") op_jumpdest.code) body) again,
      rw (e, again_e) refl,
      rw (again_b, b) (simp append_assoc),
    )

while_overflow :
    (body condition : Bytecode)
    → 256 ^ 4 ≤ turn body.bytes condition.bytes
    → while_loop body (some condition) legacy ≡ err overflow_error
unfolding while_loop len
while_overflow body condition h = rw (backward_overflow (turn body.bytes condition.bytes) h) refl

module _ {W : Type 0} (Other : List ℕ → State W → State W → Type 0) (body condition : List ℕ) where
  -- The body and then the condition, until the condition leaves zero.
  pub data Loop : List ℕ → W → List ℕ → W → Type 0 where
    last :
        {s m r : List ℕ} {w u x : W}
        → Runs Other body s w m u
        → Runs Other condition m u (0 ∷ r) x
        → Loop s w r x
    again :
        {s m r t : List ℕ} {w u x y : W} (v : ℕ)
        → 0 < v
        → Runs Other body s w m u
        → Runs Other condition m u (v ∷ r) x
        → Loop r x t y
        → Loop s w t y

  module _ (wb : IsWhole body) (wc : IsWhole condition) (small : turn body condition < 256 ^ 4)
      (code : List ℕ) (p : ℕ) (h : IsPlaced code p (loop_bytes body condition))
      (bound : length code < 2 ^ 256) where
    abbrev test_at : ℕ
    test_at = p + 1 + length body + length condition + 7

    at_body : IsPlaced code (p + 1) (body ++ (condition ++ tail_bytes (turn body condition)))
    at_body =
        right-IsPlaced (91 ∷ []) (body ++ (condition ++ tail_bytes (turn body condition)))
          (single-IsWhole 91 refl) h

    at_condition :
        IsPlaced code (p + 1 + length body) (condition ++ tail_bytes (turn body condition))
    at_condition = right-IsPlaced body (condition ++ tail_bytes (turn body condition)) wb at_body

    at_tail :
        IsPlaced code (p + 1 + length body + length condition) (tail_bytes (turn body condition))
    at_tail = right-IsPlaced condition (tail_bytes (turn body condition)) wc at_condition

    at_test : IsPlaced code test_at (87 ∷ [])
    unfolding scan
    at_test = IsPlaced-move (87 ∷ []) (omega (arith, length-push_bytes 3 (turn body condition))) (
        right-IsPlaced (88 ∷ 3 ∷ []) (87 ∷ []) refl (
          right-IsPlaced (push_bytes 3 (turn body condition)) (88 ∷ 3 ∷ 87 ∷ [])
            (push_bytes-IsWhole 3 (turn body condition) (omega arith)) at_tail))

    end_lem : test_at + 1 ≡ p + length (loop_bytes body condition)
    end_lem = omega (
      arith,
      length-append body (condition ++ tail_bytes (turn body condition)),
      length-append condition (tail_bytes (turn body condition)),
      length-append (push_bytes 3 (turn body condition)) (88 ∷ 3 ∷ 87 ∷ []),
      length-push_bytes 3 (turn body condition),
    )

    -- From the start of the loop to the conditional jump back to it.
    one_turn :
        (v : ℕ) (s m r : List ℕ) (w u x : W)
        → Runs Other body s w m u
        → Runs Other condition m u (v ∷ r) x
        → Steps Other code (at p s w) (at test_at (p ∷ v ∷ r) x)
    one_turn v s m r w u x run test =
        then
          (jumpdest (IsPlaced-get 91 (body ++ (condition ++ tail_bytes (turn body condition))) h))
          (Steps-trans Other
            (run code (p + 1)
              (left-IsPlaced body (condition ++ tail_bytes (turn body condition)) at_body) bound)
            (Steps-trans Other
              (test code (p + 1 + length body)
                (left-IsPlaced condition (tail_bytes (turn body condition)) at_condition) bound)
              (Steps-arrive Other (omega arith) (omega arith) (
                backward_lem Other 3 (turn body condition) (v ∷ r) x (87 ∷ []) code
                  (p + 1 + length body + length condition) (omega arith) small at_tail bound
                  (omega (arith, end_lem, IsPlaced-length (87 ∷ []) at_test)) (omega arith)))))

    pub Loop-Steps :
        (s r : List ℕ) (w x : W)
        → Loop s w r x
        → Steps Other code (at p s w) (at (p + length (loop_bytes body condition)) r x)
    Loop-Steps s r w x (last {m = m} {u = u} run test) =
        Steps-trans Other (one_turn 0 s m r w u x run test)
          (Steps-move Other end_lem (one_step Other (jumpi_passed (IsPlaced-get 87 [] at_test))))
    Loop-Steps s t w y (again {m = m} {r = r} {u = u} {x = x} v positive run test rest) =
        Steps-trans Other (one_turn v s m r w u x run test) (
          then
            (jumpi_taken (IsPlaced-get 87 [] at_test) positive
              (IsPlaced-IsTarget (body ++ (condition ++ tail_bytes (turn body condition))) h))
            (Loop-Steps r t x y rest))

length-loop_bytes :
    (body condition : List ℕ)
    → length (loop_bytes body condition) ≡ length body + length condition + 9
length-loop_bytes body condition = omega (
  arith,
  length-append body (condition ++ tail_bytes (turn body condition)),
  length-append condition (tail_bytes (turn body condition)),
  length-append (push_bytes 3 (turn body condition)) (88 ∷ 3 ∷ 87 ∷ []),
  length-push_bytes 3 (turn body condition),
)

module _ {W : Type 0} (Other : List ℕ → State W → State W → Type 0) where
  -- Say the body and then the condition, again and again, lead from one stack and world to another,
  -- where the condition leaves a word that is zero the last time and not before. Then While makes
  -- code of a body and a condition that have all the data of their pushes and whose distance fits
  -- PUSH4, and the code, put anywhere behind a code with all the data of its pushes, runs from its
  -- start to its end with that effect, with a bound on the lengths.
  pub while_lem :
      (body condition : Bytecode) (before after : List ℕ) (s r : List ℕ) (w x : W)
      → IsWhole body.bytes
      → IsWhole condition.bytes
      → IsWhole before
      → length body.bytes + length condition.bytes + 6 < 2 ^ 32
      → length before + length body.bytes + length condition.bytes + length after + 9 < 2 ^ 256
      → Loop Other body.bytes condition.bytes s w r x
      → (code : Bytecode) × (while_loop body (some condition) legacy ≡ ok code)
        × Steps Other
            (before ++ (code.bytes ++ after))
            (at (length before) s w)
            (at (length before + length code.bytes) r x)
  while_lem body condition before after s r w x wb wc whole small bound loop =
      let (code, e, bytes) = while-Makes body condition (omega arith) in
      (code, e, placed code.bytes bytes)
    where
      placed :
          (bytes : List ℕ)
          → bytes ≡ loop_bytes body.bytes condition.bytes
          → Steps Other
              (before ++ (bytes ++ after))
              (at (length before) s w)
              (at (length before + length bytes) r x)
      placed bytes q =
          subst
            (λ b.
              Steps Other (before ++ (b ++ after)) (at (length before) s w)
                (at (length before + length b) r x))
            (sym q)
            (Loop-Steps Other body.bytes condition.bytes wb wc (omega arith)
              (before ++ (loop_bytes body.bytes condition.bytes ++ after)) (length before)
              record {
                before = before;
                after = after;
                parts = refl;
                position = refl;
                whole = whole;
              }
              (omega (
                arith,
                length-append before (loop_bytes body.bytes condition.bytes ++ after),
                length-append (loop_bytes body.bytes condition.bytes) after,
                length-loop_bytes body.bytes condition.bytes,
              ))
              s r w x loop)
