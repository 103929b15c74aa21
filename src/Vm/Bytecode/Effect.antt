-- ===== src/Vm/Bytecode/Effect.antt =====
-- The stack effect of `join`, for `+` in src/ethereum_test_vm/bytecode.py, in closed form.
use execution_spec_tests.Base.{◌≡◌, ◌⊎◌, inl, inr, true, false, append_assoc}
use execution_spec_tests.Base.Int.{
  ℤ, pos, ◌+ℤ◌, ◌-ℤ◌, ◌≤ℤ◌, ◌==ℤ◌, min_ℤ, max_ℤ, max_ℤ_cases, min_ℤ_cases, int_laws,
}
use execution_spec_tests.Vm.Bytecode.{Bytecode, join}

-- The source's test for the deeper bottom asks whether the second code pops no more than the first
-- has pushed.
bottom_cases :
    (p q r : ℤ)
    → (((min_ℤ (pos 0 -ℤ p) (pos 0 -ℤ p +ℤ q -ℤ r) ==ℤ (pos 0 -ℤ p)) ≡ true) × (r ≤ℤ q))
      ⊎ (((min_ℤ (pos 0 -ℤ p) (pos 0 -ℤ p +ℤ q -ℤ r) ==ℤ (pos 0 -ℤ p)) ≡ false) × (q +ℤ pos 1 ≤ℤ r))
bottom_cases p q r = grind (int_laws, min_ℤ_cases)

-- The pops of a join: the deeper of the two bottoms.
pub popped-join :
    (a b : Bytecode)
    → (join a b).popped_stack_items
      ≡ max_ℤ a.popped_stack_items
          (a.popped_stack_items -ℤ a.pushed_stack_items +ℤ b.popped_stack_items)
unfolding join
popped-join a b = grind (int_laws, min_ℤ_cases, max_ℤ_cases)

-- The pushes of a join: what brings its bottom up to the sum of the two net effects.
pub pushed-join :
    (a b : Bytecode)
    → (join a b).pushed_stack_items
      ≡ (join a b).popped_stack_items
        +ℤ (a.pushed_stack_items -ℤ a.popped_stack_items)
        +ℤ (b.pushed_stack_items -ℤ b.popped_stack_items)
unfolding join
pushed-join a b =
    elim (bottom_cases a.popped_stack_items a.pushed_stack_items b.popped_stack_items) [
      | inl (e, h) ↦ rw e (omega int_laws)
      | inr (e, h) ↦ rw e (omega int_laws)
    ]

pub min-join :
    (a b : Bytecode)
    → (join a b).min_stack_height
      ≡ max_ℤ a.min_stack_height
          (b.min_stack_height +ℤ (a.popped_stack_items -ℤ a.pushed_stack_items))
unfolding join
min-join a b = grind (int_laws, max_ℤ_cases)

pub max-join :
    (a b : Bytecode)
    → (join a b).max_stack_height
      ≡ (join a b).min_stack_height
        +ℤ max_ℤ (a.max_stack_height -ℤ a.min_stack_height) (
            a.pushed_stack_items
            -ℤ a.popped_stack_items
            +ℤ (b.max_stack_height -ℤ b.min_stack_height))
unfolding join
max-join a b = grind (int_laws, max_ℤ_cases)

popped-join_assoc :
    (a b c : Bytecode)
    → (join (join a b) c).popped_stack_items ≡ (join a (join b c)).popped_stack_items
popped-join_assoc a b c =
    rw (popped-join (join a b) c, popped-join a (join b c))
      (grind (int_laws, max_ℤ_cases, popped-join a b, popped-join b c, pushed-join a b))

min-join_assoc :
    (a b c : Bytecode) → (join (join a b) c).min_stack_height ≡ (join a (join b c)).min_stack_height
min-join_assoc a b c =
    rw (min-join (join a b) c, min-join a (join b c))
      (grind (int_laws, max_ℤ_cases, min-join a b, min-join b c, pushed-join a b))

pushed-join_assoc :
    (a b c : Bytecode)
    → (join (join a b) c).pushed_stack_items ≡ (join a (join b c)).pushed_stack_items
pushed-join_assoc a b c = grind (
  int_laws,
  popped-join_assoc a b c,
  pushed-join (join a b) c,
  pushed-join a (join b c),
  pushed-join a b,
  pushed-join b c,
)

-- The rise from the least height to the greatest: what `max-join` says, by cases.
pub rise_cases :
    (a b : Bytecode)
    → let net = a.pushed_stack_items -ℤ a.popped_stack_items in
      let rise_a = a.max_stack_height -ℤ a.min_stack_height in
      let rise_b = net +ℤ (b.max_stack_height -ℤ b.min_stack_height) in
      let rise = (join a b).max_stack_height -ℤ (join a b).min_stack_height in
      ((rise ≡ rise_a) × (rise_b ≤ℤ rise_a)) ⊎ ((rise ≡ rise_b) × (rise_a ≤ℤ rise_b))
rise_cases a b = grind (int_laws, max_ℤ_cases, max-join a b)

max-join_assoc :
    (a b c : Bytecode) → (join (join a b) c).max_stack_height ≡ (join a (join b c)).max_stack_height
max-join_assoc a b c = grind (
  int_laws,
  rise_cases a b,
  rise_cases b c,
  rise_cases (join a b) c,
  rise_cases a (join b c),
  min-join_assoc a b c,
  popped-join a b,
  pushed-join a b,
)

-- Concatenation of bytecodes is associative: the bytes, the four stack counts, the terminating flag
-- and the (empty) name agree however the sum is bracketed, for all stack counts.
pub join_assoc : (a b c : Bytecode) → join (join a b) c ≡ join a (join b c)
unfolding join
join_assoc a b c = λ i. record {
  name = "";
  bytes = append_assoc a.bytes b.bytes c.bytes i;
  popped_stack_items = popped-join_assoc a b c i;
  pushed_stack_items = pushed-join_assoc a b c i;
  max_stack_height = max-join_assoc a b c i;
  min_stack_height = min-join_assoc a b c i;
  terminating = c.terminating;
}
