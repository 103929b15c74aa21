-- ===== src/Vm/Bytecode/Validity.antt =====
-- Proofs on the stack counts, equality and repetition of src/ethereum_test_vm/bytecode.py.
use Prim.Native.Nat.add
use native.Mathlib.Nat.{suc-add}
use execution_spec_tests.Base.{
  ℕ, zero, suc, ◌+◌, ◌<◌, ◌≡◌, refl, ◌↔◌, true, false, some, none, List, [], ◌∷◌, String, arith, ok,
  Bool, append-nil, ap, sym, ◌∙◌,
}
use execution_spec_tests.Base.Int.{ℤ, pos, ◌+ℤ◌, ◌-ℤ◌, ◌≤ℤ◌, max_ℤ_cases, int_laws}
use execution_spec_tests.Vm.Bytecode.{
  Bytecode, Source, Operand, Comparand, empty, new, join, join_times, add, mul, bytes_eq, eq,
}
use execution_spec_tests.Vm.Bytecode.Effect.{
  popped-join, pushed-join, min-join, max-join, join_assoc,
}

-- The counts are those of some run: no count is negative, the least height covers the pops, and the
-- greatest height covers both the start and the end.
pub record IsValid (c : Bytecode) : Type 0 where
  pub popped_nonneg : pos 0 ≤ℤ c.popped_stack_items
  pub pushed_nonneg : pos 0 ≤ℤ c.pushed_stack_items
  pub popped_le : c.popped_stack_items ≤ℤ c.min_stack_height
  pub start_le : c.min_stack_height ≤ℤ c.max_stack_height
  pub end_le :
      c.min_stack_height +ℤ c.pushed_stack_items -ℤ c.popped_stack_items ≤ℤ c.max_stack_height

-- From two counts that are not negative, and no heights, the constructor makes a valid bytecode of
-- the given bytes, counts and flag.
pub new-IsValid :
    (bytes : List ℕ) (p q : ℤ) (terminating : Bool) (name : String)
    → pos 0 ≤ℤ p
    → pos 0 ≤ℤ q
    → (c : Bytecode) × (new (Source.of_bytes bytes) (some p) (some q) none none terminating name
        ≡ ok c)
      × (c.bytes ≡ bytes)
      × (c.popped_stack_items ≡ p)
      × (c.pushed_stack_items ≡ q)
      × (c.terminating ≡ terminating)
      × IsValid c
unfolding new
new-IsValid bytes p q terminating name hp hq = (
  _,
  refl,
  refl,
  refl,
  refl,
  refl,
  record {
    popped_nonneg = hp;
    pushed_nonneg = hq;
    popped_le = omega arith;
    start_le = ground arith;
    end_le = grind int_laws;
  },
)

-- Concatenation keeps the invariant: if in both parts no count is negative, the least height covers the
-- pops, and the greatest height covers the start and the end, so it is in the whole.
pub join-IsValid : {a b : Bytecode} → IsValid a → IsValid b → IsValid (join a b)
join-IsValid {a} {b} va vb = record {
  popped_nonneg = grind (int_laws, max_ℤ_cases, popped-join a b, va, vb);
  pushed_nonneg = grind (int_laws, max_ℤ_cases, popped-join a b, pushed-join a b);
  popped_le = grind (int_laws, max_ℤ_cases, popped-join a b, min-join a b);
  start_le = grind (int_laws, max_ℤ_cases, max-join a b);
  end_le = grind (int_laws, max_ℤ_cases, pushed-join a b, max-join a b);
}

pub bytes_eq_iff : (xs ys : List ℕ) → (bytes_eq xs ys ≡ true) ↔ (xs ≡ ys)
unfolding bytes_eq
bytes_eq_iff [] [] = ((λ _. refl), (λ _. refl))
bytes_eq_iff [] (y ∷ ys) = ((λ h. cc), (λ h. cc))
bytes_eq_iff (x ∷ xs) [] = ((λ h. cc), (λ h. cc))
bytes_eq_iff (x ∷ xs) (y ∷ ys) =
    let ih = bytes_eq_iff xs ys in ((λ h. ground (arith, ih)), (λ h. ground (arith, ih)))

-- `==` of two bytecodes holds exactly when their bytes and their four stack counts agree; the names
-- and the terminating flags are not compared.
pub eq_iff :
    (a b : Bytecode)
    → (eq a (Comparand.code b) ≡ ok true) ↔ (
        (a.bytes ≡ b.bytes)
        × (a.popped_stack_items ≡ b.popped_stack_items)
        × (a.pushed_stack_items ≡ b.pushed_stack_items)
        × (a.max_stack_height ≡ b.max_stack_height)
        × (a.min_stack_height ≡ b.min_stack_height))
unfolding eq
eq_iff a b = (
  (λ h. grind (int_laws, bytes_eq_iff a.bytes b.bytes)),
  (λ h. ground (arith, bytes_eq_iff a.bytes b.bytes)),
)

abbrev pub SameCounts : Bytecode → Bytecode → Type 0
SameCounts a b =
    (a.popped_stack_items ≡ b.popped_stack_items)
    × (a.pushed_stack_items ≡ b.pushed_stack_items)
    × (a.max_stack_height ≡ b.max_stack_height)
    × (a.min_stack_height ≡ b.min_stack_height)

module _ (c : Bytecode) (name : String) (v : IsValid c) where
  counts_left : SameCounts (join (empty name) c) c
  counts_left = (
    grind (int_laws, max_ℤ_cases, popped-join (empty name) c),
    grind (int_laws, max_ℤ_cases, popped-join (empty name) c, pushed-join (empty name) c),
    grind (int_laws, max_ℤ_cases, min-join (empty name) c, max-join (empty name) c),
    grind (int_laws, max_ℤ_cases, min-join (empty name) c),
  )

  counts_right : SameCounts (join c (empty name)) c
  counts_right = (
    grind (int_laws, max_ℤ_cases, popped-join c (empty name)),
    grind (int_laws, max_ℤ_cases, popped-join c (empty name), pushed-join c (empty name)),
    grind (int_laws, max_ℤ_cases, min-join c (empty name), max-join c (empty name)),
    grind (int_laws, max_ℤ_cases, min-join c (empty name)),
  )

-- The empty bytecode is a unit of concatenation for valid bytecodes, up to `==`. The terminating
-- flag of a sum is the right operand's, so `c + Bytecode()` is not terminating.
pub join_unit :
    (c : Bytecode) (name : String)
    → IsValid c
    → (eq (join (empty name) c) (Comparand.code c) ≡ ok true)
      × (eq (join c (empty name)) (Comparand.code c) ≡ ok true)
      × ((join c (empty name)).terminating ≡ false)
unfolding join
join_unit c name v =
    let l = counts_left c name v in
    let r = counts_right c name v in
    (
      (eq_iff _ c).1 (refl, l.0, l.1, l.2, l.3),
      (eq_iff _ c).1 (append-nil c.bytes, r.0, r.1, r.2, r.3),
      refl,
    )

join_times-join : (n : ℕ) (b x y : Bytecode) → join_times n b (join x y) ≡ join x (join_times n b y)
unfolding join_times
join_times-join zero b x y = refl
join_times-join (suc n) b x y = rw join_assoc (join_times-join n b x (join y b))

join_times-add :
    (m n : ℕ) (b x : Bytecode)
    → join_times n b (join (join_times m b x) b) ≡ join_times (m + suc n) b x
unfolding join_times
join_times-add zero n b x = rw add.zero
join_times-add (suc m) n b x = rw suc-add (join_times-add m n b (join x b))

-- Repetition distributes over the count: `b * (m + n)` is `b * m + b * n` for positive counts, with
-- all six attributes, and none of the three calls raises.
pub mul-add :
    (b : Bytecode) (m n : ℕ)
    → 0 < m
    → 0 < n
    → (c d : Bytecode) × (mul b (pos m) ≡ ok c)
      × (mul b (pos n) ≡ ok d)
      × (mul b (pos (m + n)) ≡ add c (Operand.code d))
unfolding mul add
mul-add b zero n h k = elim h [ ]
mul-add b (suc m) zero h k = elim k [ ]
mul-add b (suc m) (suc n) h k =
    (join_times m b b, join_times n b b, refl, refl, rw suc-add (ap ok sums))
  where
    sums : join_times (m + suc n) b b ≡ join (join_times m b b) (join_times n b b)
    sums = sym (join_times-add m n b b) ∙ join_times-join n b (join_times m b b) b
