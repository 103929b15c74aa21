-- ===== src/Tools/Generators/Cases/Chosen.antt =====
-- What the code of Switch in src/ethereum_test_tools/tools_code/generators.py does in the virtual
-- machine, for legacy code.
use execution_spec_tests.Base.{
  ℕ, suc, ◌+◌, ◌^◌, ◌<◌, ◌≤◌, ◌≡◌, refl, sym, ap, ◌∙◌, subst, some, List, [], ◌∷◌, ◌++◌, length,
  length-append, arith, ok, get_elem?,
}
use execution_spec_tests.Vm.Bytecode.{Bytecode, join, len}
use execution_spec_tests.Vm.Opcodes.Stack.{jumpdest as op_jumpdest}
use execution_spec_tests.Vm.Machine.{State, at, IsWhole, IsTarget, Steps, jumpdest}
use execution_spec_tests.Vm.Machine.Placed.{
  IsPlaced, left-IsPlaced, right-IsPlaced, IsPlaced-get, IsPlaced-IsTarget, append-IsWhole,
}
use execution_spec_tests.Vm.Machine.Jumps.{Steps-trans, Steps-move, one_step}
use execution_spec_tests.Tools.Generators.{
  Case, Onion, legacy, action_lengths, start_legacy, wrap_legacy, wrap_all, switch,
}
use execution_spec_tests.Tools.Generators.Exit.{
  test_of, action_of, layer, length-test_of, length-action_of, test_of-IsWhole, action_of-IsWhole,
  Leaves,
}
use execution_spec_tests.Tools.Generators.Layer.{length-layer, run_met, run_unmet}
use execution_spec_tests.Tools.Generators.Cases.{
  Near, room, ArePieces, Selects, met, unmet, IsOnion, start-IsOnion,
}
use execution_spec_tests.Tools.Generators.Cases.Wrap.{IsWrapped, wrap_legacy-IsWrapped}

module _ {W : Type 0} (Other : List ℕ → State W → State W → Type 0) where
  layer-Leaves :
      (default : List ℕ) (c : Case) (cases : List Case) (o : Onion) (k i : ℕ)
      → i < 32
      → length o.code.bytes + 3 < 256 ^ suc i
      → k + 3 < 256
      → IsWhole c.condition.bytes
      → IsWhole c.action.bytes
      → IsOnion Other default cases (length c.action.bytes + 6 + k) o
      → (s r : List ℕ) (w x : W) → Selects Other default (c ∷ cases) s w r x
      → Leaves Other (layer i 0 c.condition.bytes o.code.bytes c.action.bytes k) k s w r x
  layer-Leaves default c cases o k i small below near wc wa inner s r w x
        (met {m = m} {u = u} v positive test run) code p h target bound =
      Steps-trans Other
        (test code p
          (left-IsPlaced c.condition.bytes _
            (left-IsPlaced (test_of i c.condition.bytes (length o.code.bytes)) _ h))
          bound)
        (run_met Other i 0 c.condition.bytes o.code.bytes c.action.bytes k small (omega arith) below
          (omega (arith, near)) wc inner.whole wa code p h bound v m r u x positive run target)
  layer-Leaves default c cases o k i small below near wc wa inner s r w x
        (unmet {m = m} {u = u} test rest) code p h target bound =
      Steps-trans Other
        (test code p
          (left-IsPlaced c.condition.bytes _
            (left-IsPlaced (test_of i c.condition.bytes (length o.code.bytes)) _ h))
          bound)
        (run_unmet Other i 0 c.condition.bytes o.code.bytes c.action.bytes k small (omega arith)
          below (omega (arith, near)) wc inner.whole wa code p h bound m r u x
          (subst (λ n. Leaves Other o.code.bytes n m u r x)
            (omega (arith, length-action_of 0 c.action.bytes k)) (inner.runs m r u x rest))
          target)

  wrapped-IsOnion :
      (default : List ℕ) (c : Case) (cases : List Case) (o wrapped : Onion) (k i : ℕ)
      → i < 32
      → length o.code.bytes + 3 < 256 ^ suc i
      → k + 3 < 256
      → IsWhole c.condition.bytes
      → IsWhole c.action.bytes
      → IsOnion Other default cases (length c.action.bytes + 6 + k) o
      → IsWrapped c o wrapped k i
      → IsOnion Other default (c ∷ cases) k wrapped
  wrapped-IsOnion default c cases o wrapped k i small below near wc wa inner h = record {
    leaves = h.leaves;
    enters = h.enters;
    whole = subst IsWhole (sym h.bytes) (
        append-IsWhole (test_of i c.condition.bytes (length o.code.bytes))
          (o.code.bytes ++ action_of 0 c.action.bytes k)
          (test_of-IsWhole i c.condition.bytes (length o.code.bytes) small wc)
          (append-IsWhole o.code.bytes (action_of 0 c.action.bytes k) inner.whole
            (action_of-IsWhole 0 c.action.bytes k (omega arith) wa)));
    fits = omega (
      arith,
      inner.fits,
      ap length h.bytes,
      length-layer i 0 c.condition.bytes o.code.bytes c.action.bytes k,
      length-test_of i c.condition.bytes (length o.code.bytes),
      length-action_of 0 c.action.bytes k,
    );
    runs = λ s r w x chosen.
        subst (λ b. Leaves Other b k s w r x) (sym h.bytes)
          (layer-Leaves default c cases o k i small below near wc wa inner s r w x chosen);
  }

  wrap_all-IsOnion :
      (default : List ℕ) (cases : List Case) (k n : ℕ) (o : Onion)
      → n ≡ action_lengths cases + k
      → IsOnion Other default [] n o
      → Near cases k
      → ArePieces cases
      → room (length default) cases + 3 < 2 ^ 256
      → (wrapped : Onion) × (wrap_all wrap_legacy cases o ≡ ok wrapped)
        × IsOnion Other default cases k wrapped
  unfolding wrap_all action_lengths len
  wrap_all-IsOnion default [] k n o e h near pieces fits =
      (o, refl, subst (λ m. IsOnion Other default [] m o) (omega (arith, e)) h)
  wrap_all-IsOnion default (c ∷ cases) k n o e h (near, nears) (wc, wa, pieces) fits =
      let (inner, f, inner_onion) =
        wrap_all-IsOnion default cases (length c.action.bytes + 6 + k) n o (omega (arith, e)) h
          nears pieces (omega (arith, fits)) in
      let (i, wrapped, small, below, g, shape) =
        wrap_legacy-IsWrapped c inner k inner_onion.leaves inner_onion.enters near
          (omega (arith, inner_onion.fits, fits)) in
      (
        wrapped,
        step inner f ∙ g,
        wrapped-IsOnion default c cases inner wrapped k i small below near wc wa inner_onion shape,
      )
    where
      step :
          (inner : Onion)
          → wrap_all wrap_legacy cases o ≡ ok inner
          → wrap_all wrap_legacy (c ∷ cases) o ≡ wrap_legacy c inner
      step inner f = rw f refl

actions_fit : (d : ℕ) (cases : List Case) → action_lengths cases ≤ room d cases
unfolding action_lengths len
actions_fit d [] = omega arith
actions_fit d (c ∷ cases) = omega (arith, actions_fit d cases)

module _ {W : Type 0} (Other : List ℕ → State W → State W → Type 0) where
  -- The code of the cases in front of the JUMPDEST that ends a switch.
  ended-Steps :
      (o : List ℕ) (before after : List ℕ) (s r : List ℕ) (w x : W)
      → IsWhole before
      → IsWhole o
      → length before + length o + length after + 1 < 2 ^ 256
      → Leaves Other o 0 s w r x
      → Steps Other
          (before ++ ((o ++ (91 ∷ [])) ++ after))
          (at (length before) s w)
          (at (length before + length (o ++ (91 ∷ []))) r x)
  ended-Steps o before after s r w x wb wo bound leaves =
      let h : IsPlaced (before ++ ((o ++ (91 ∷ [])) ++ after)) (length before) (o ++ (91 ∷ [])) =
        record { before = before; after = after; parts = refl; position = refl; whole = wb } in
      let end = right-IsPlaced o (91 ∷ []) wo h in
      let small : length (before ++ ((o ++ (91 ∷ [])) ++ after)) < 2 ^ 256 = omega (
        arith,
        bound,
        length-append before ((o ++ (91 ∷ [])) ++ after),
        length-append (o ++ (91 ∷ [])) after,
        length-append o (91 ∷ []),
      ) in
      let here : length before + length o ≡ length before + length o + 0 = omega arith in
      Steps-trans Other
        (leaves (before ++ ((o ++ (91 ∷ [])) ++ after)) (length before)
          (left-IsPlaced o (91 ∷ []) h)
          (subst (IsTarget (before ++ ((o ++ (91 ∷ [])) ++ after))) here (IsPlaced-IsTarget [] end))
          small)
        (Steps-move Other (omega (arith, length-append o (91 ∷ []))) (
          one_step Other (
            jumpdest (
              subst (λ q. get_elem? (before ++ ((o ++ (91 ∷ [])) ++ after)) q ≡ some 91) here
                (IsPlaced-get 91 [] end)))))

  -- Say the first case whose condition leaves a word that is not zero, or else the default, leads
  -- from one stack and world to another, after the conditions before it. Then Switch makes code of
  -- a default and cases that have all the data of their pushes, where the distance of each case's
  -- jump over the actions of the cases before it is less than 256, and the code, put anywhere behind
  -- a code with all the data of its pushes, runs from its start to its end with that effect, with a
  -- bound on the lengths.
  pub switch_lem :
      (default : Bytecode) (cases : List Case) (before after : List ℕ) (s r : List ℕ) (w x : W)
      → IsWhole default.bytes
      → ArePieces cases
      → IsWhole before
      → Near cases 0
      → length before + room (length default.bytes) cases + length after + 3 < 2 ^ 256
      → Selects Other default.bytes cases s w r x
      → (code : Bytecode) × (switch (some default) cases legacy ≡ ok code)
        × Steps Other
            (before ++ (code.bytes ++ after))
            (at (length before) s w)
            (at (length before + length code.bytes) r x)
  unfolding switch join
  switch_lem default cases before after s r w x wd pieces wb near bound chosen =
      let (o, e, onion) =
        start-IsOnion Other default cases wd
          (omega (arith, actions_fit (length default.bytes) cases, bound)) in
      let (wrapped, f, h) =
        wrap_all-IsOnion Other default.bytes cases 0 (action_lengths cases) o (omega arith) onion
          near pieces (omega (arith, bound)) in
      (
        join wrapped.code op_jumpdest.code,
        made o wrapped e f,
        ended-Steps wrapped.code.bytes before after s r w x wb h.whole
            (omega (arith, bound, h.fits)) (h.runs s r w x chosen),
      )
    where
      made :
          (o wrapped : Onion)
          → start_legacy (some default) cases ≡ ok o
          → wrap_all wrap_legacy cases o ≡ ok wrapped
          → switch (some default) cases legacy ≡ ok (join wrapped.code op_jumpdest.code)
      made o wrapped e f = rw (e, f) refl
