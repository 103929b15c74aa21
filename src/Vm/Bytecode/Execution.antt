-- ===== src/Vm/Bytecode/Execution.antt =====
-- The stack counts of src/ethereum_test_vm/bytecode.py against an independent reading: the code is
-- run on a stack of which only the height matters.
use execution_spec_tests.Base.{
  ℕ, ◌+◌, ◌-◌, max, ◌≡◌, refl, false, Option, none, some, List, [], ◌∷◌, map, arith, ap, sym, ◌∙◌,
  ◌≤◌, ok, ltb, if◌then◌else◌, Bool-cases, ◌⊎◌, inl, inr,
}
use execution_spec_tests.Base.Int.{ℤ, pos, ◌+ℤ◌, ◌-ℤ◌, ◌≤ℤ◌, max_ℤ, max_ℤ_cases, int_laws}
use execution_spec_tests.Vm.Bytecode.{Bytecode, Source, new, join, sum_from}
use execution_spec_tests.Vm.Bytecode.Validity.{IsValid, join-IsValid}
use execution_spec_tests.Vm.Bytecode.Effect.{pushed-join, min-join, rise_cases, join_assoc}

-- An instruction: its bytes, and how many items it pops and pushes.
pub record Instr : Type 0 where
  pub bytes : List ℕ
  pub pops : ℕ
  pub pushes : ℕ

-- The bytecode that the constructor makes of it.
abbrev pub code : Instr → Bytecode
code i = record {
  name = "";
  bytes = i.bytes;
  popped_stack_items = pos i.pops;
  pushed_stack_items = pos i.pushes;
  max_stack_height = max_ℤ (pos i.pops) (pos i.pushes);
  min_stack_height = pos i.pops;
  terminating = false;
}

-- Running from a stack height: none if the stack underflows, else the last height and the peak.
pub run : List Instr → ℕ → Option (ℕ × ℕ)
run [] h = some (h, h)
run (i ∷ is) h =
    let rest = run is (h - i.pops + i.pushes) in
    if ltb h i.pops
    then none
    else elim rest [ none ↦ none | some (last, peak) ↦ some (last, max h peak) ]

-- The bytecode tells what the run does: it underflows exactly below the least height, else the net
-- effect is pushes minus pops and the peak is the rise from the least to the greatest height.
abbrev pub Agrees : Bytecode → ℕ → Option (ℕ × ℕ) → Type 0
Agrees c h none = pos h +ℤ pos 1 ≤ℤ c.min_stack_height
Agrees c h (some (last, peak)) =
    (c.min_stack_height ≤ℤ pos h)
    × (pos last ≡ pos h +ℤ c.pushed_stack_items -ℤ c.popped_stack_items)
    × (pos peak ≡ pos h +ℤ (c.max_stack_height -ℤ c.min_stack_height))

sum_from-cons : (bs : List Bytecode) (a b : Bytecode) → sum_from a (b ∷ bs) ≡ join a (sum_from b bs)
unfolding sum_from
sum_from-cons [] a b = refl
sum_from-cons (c ∷ bs) a b =
    sum_from-cons bs (join a b) c
    ∙ join_assoc a b (sum_from c bs)
    ∙ ap (join a) (sym (sum_from-cons bs b c))

code-Agrees : (i : Instr) (h : ℕ) → Agrees (code i) h (run (i ∷ []) h)
unfolding run
code-Agrees i h = elim (Bool-cases (ltb h i.pops)) [
  | inl low ↦ rw low (grind int_laws)
  | inr enough ↦ rw enough (grind int_laws, grind int_laws, grind (int_laws, max_ℤ_cases))
]

-- The constructor makes `code i` of the bytes and the two counts.
new-code :
    (i : Instr)
    → new (Source.of_bytes i.bytes) (some (pos i.pops)) (some (pos i.pushes)) none none false ""
      ≡ ok (code i)
unfolding new
new-code i = refl

code-IsValid : (i : Instr) → IsValid (code i)
code-IsValid i = record {
  popped_nonneg = omega arith;
  pushed_nonneg = omega arith;
  popped_le = omega arith;
  start_le = grind (int_laws, max_ℤ_cases);
  end_le = grind (int_laws, max_ℤ_cases);
}

sum_from-IsValid : (i : Instr) (is : List Instr) → IsValid (sum_from (code i) (map code is))
sum_from-IsValid i [] = unfold sum_from in code-IsValid i
sum_from-IsValid i (j ∷ is) =
    rw sum_from-cons (join-IsValid (code-IsValid i) (sum_from-IsValid j is))

-- The peak of the first instruction and of the rest, over the integers: `x` and `y` are the rises of
-- the rest and of the whole.
peak_lem :
    (p q h peak : ℕ) (x y : ℤ)
    → p ≤ h
    → pos 0 ≤ℤ x
    → pos peak ≡ pos (h - p + q) +ℤ x
    → ((y ≡ max_ℤ (pos p) (pos q) -ℤ pos p)
        × (pos q -ℤ pos p +ℤ x ≤ℤ max_ℤ (pos p) (pos q) -ℤ pos p))
      ⊎ ((y ≡ pos q -ℤ pos p +ℤ x) × (max_ℤ (pos p) (pos q) -ℤ pos p ≤ℤ pos q -ℤ pos p +ℤ x))
    → pos (max h peak) ≡ pos h +ℤ y
peak_lem p q h peak x y le nonneg e (inl (f, k)) = rw f (grind (int_laws, max_ℤ_cases))
peak_lem p q h peak x y le nonneg e (inr (f, k)) = rw f (grind (int_laws, max_ℤ_cases))

-- The last height likewise: `x` and `y` are the pops and pushes of the rest, `z` and `w` those of the
-- whole.
last_lem :
    (p q h last : ℕ) (x y z w : ℤ)
    → p ≤ h
    → pos last ≡ pos (h - p + q) +ℤ y -ℤ x
    → w ≡ z +ℤ (pos q -ℤ pos p) +ℤ (y -ℤ x)
    → pos last ≡ pos h +ℤ w -ℤ z
last_lem p q h last x y z w le e f = rw f (grind int_laws)

rise_nonneg : {c : Bytecode} → IsValid c → pos 0 ≤ℤ c.max_stack_height -ℤ c.min_stack_height
rise_nonneg v = omega (int_laws, v.start_le)

module _ (i : Instr) (c : Bytecode) (h : ℕ) where
  -- The first instruction underflows, and so does the whole.
  join-low : h + 1 ≤ i.pops → Agrees (join (code i) c) h none
  join-low low = grind (int_laws, max_ℤ_cases, min-join (code i) c)

  -- The first instruction runs, and the rest of the code starts from the height that it leaves.
  join-Agrees :
      i.pops ≤ h
      → IsValid c
      → (r : Option (ℕ × ℕ)) → Agrees c (h - i.pops + i.pushes) r
      → Agrees
          (join (code i) c)
          h
          (elim r [ none ↦ none | some (last, peak) ↦ some (last, max h peak) ])
  join-Agrees enough v none a = grind (int_laws, max_ℤ_cases, min-join (code i) c)
  join-Agrees enough v (some (last, peak)) (a, b, d) = (
    grind (int_laws, max_ℤ_cases, min-join (code i) c),
    last_lem i.pops i.pushes h last _ _ _ _ enough b (pushed-join (code i) c),
    peak_lem i.pops i.pushes h peak _ _ enough (rise_nonneg v) d (rise_cases (code i) c),
  )

-- Instructions that are concatenated one by one give a bytecode whose counts describe the run from
-- every height: it underflows exactly below `min_stack_height`, it ends at the start plus the
-- pushes minus the pops, and it peaks at the start plus the rise from the least to the greatest.
pub sum_from-Agrees :
    (i : Instr) (is : List Instr) (h : ℕ)
    → Agrees (sum_from (code i) (map code is)) h (run (i ∷ is) h)
unfolding run
sum_from-Agrees i [] h = unfold sum_from in code-Agrees i h
sum_from-Agrees i (j ∷ is) h = elim (Bool-cases (ltb h i.pops)) [
  | inl low ↦ rw (sum_from-cons, run) (rw low (join-low i rest h (ground arith)))
  | inr enough ↦
      rw (sum_from-cons, run)
        (rw enough (
          join-Agrees i rest h (ground arith) (sum_from-IsValid j is)
            (run (j ∷ is) (h - i.pops + i.pushes)) (sum_from-Agrees j is (h - i.pops + i.pushes))))
]
  where
    rest : Bytecode
    rest = sum_from (code j) (map code is)
