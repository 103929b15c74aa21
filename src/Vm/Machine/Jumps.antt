-- ===== src/Vm/Machine/Jumps.antt =====
-- What the machine does with the pushes and the relative jumps that the code of
-- src/ethereum_test_tools/tools_code/generators.py is made of.
use native.Mathlib.Nat.{mod-eq_of_lt}
use execution_spec_tests.Base.{
  ℕ, suc, ◌+◌, ◌-◌, ◌*◌, ◌%◌, ◌^◌, ◌<◌, ◌≤◌, ◌≡◌, refl, sym, ap, ◌∙◌, subst, List, [], ◌∷◌, ◌++◌,
  append-nil, length, length-append, take, drop, arith,
}
use execution_spec_tests.Vm.Opcode.{low_bytes, from_bytes}
use execution_spec_tests.Vm.Call.Bytes.{length-low_bytes, from_bytes-low_bytes}
use execution_spec_tests.Vm.Machine.{
  State, at, IsWhole, Step, Steps, done, then, push, program_counter, add, sub,
}
use execution_spec_tests.Vm.Machine.Placed.{
  IsPlaced, left-IsPlaced, right-IsPlaced, IsPlaced-get, IsPlaced-data, push-IsWhole,
  single-IsWhole,
}

no_more : (x y : ℕ) → 0 * x + y ≡ y
no_more x y = omega arith

-- The bytes of a push of a number.
abbrev pub push_bytes : ℕ → ℕ → List ℕ
push_bytes j n = (96 + j) ∷ low_bytes (suc j) n

pub length-push_bytes : (j n : ℕ) → length (push_bytes j n) ≡ 2 + j
length-push_bytes j n = omega (arith, length-low_bytes (suc j) n)

pub push_bytes-IsWhole : (j n : ℕ) → j < 32 → IsWhole (push_bytes j n)
push_bytes-IsWhole j n h = push-IsWhole j (low_bytes (suc j) n) h (length-low_bytes (suc j) n)

module _ {W : Type 0} (Other : List ℕ → State W → State W → Type 0) where
  pub Steps-trans :
      {code : List ℕ} {s t u : State W}
      → Steps Other code s t
      → Steps Other code t u
      → Steps Other code s u
  Steps-trans done b = b
  Steps-trans (then x a) b = then x (Steps-trans a b)

  pub Steps-move :
      {bytes : List ℕ} {s : State W} {p q : ℕ} {t : List ℕ} {v : W}
      → p ≡ q
      → Steps Other bytes s (at p t v)
      → Steps Other bytes s (at q t v)
  Steps-move {bytes} {s} {p} {q} {t} {v} e h = subst (λ k. Steps Other bytes s (at k t v)) e h

  pub Steps-arrive :
      {bytes : List ℕ} {s : State W} {p q d e : ℕ} {t : List ℕ} {v : W}
      → p ≡ q
      → d ≡ e
      → Steps Other bytes s (at p (d ∷ t) v)
      → Steps Other bytes s (at q (e ∷ t) v)
  Steps-arrive {bytes} {s} {p} {q} {d} {e} {t} {v} there value h =
      Steps-move there (subst (λ x. Steps Other bytes s (at p (x ∷ t) v)) value h)

  pub one_step : {code : List ℕ} {s t : State W} → Step Other code s t → Steps Other code s t
  one_step x = then x done

  -- Code that runs from its start to its end wherever it stands, and turns one stack and world into
  -- another.
  abbrev pub Runs : List ℕ → List ℕ → W → List ℕ → W → Type 0
  Runs bytes s w t v =
      (code : List ℕ) (p : ℕ)
      → IsPlaced code p bytes
      → length code < 2 ^ 256
      → Steps Other code (at p s w) (at (p + length bytes) t v)

  pub Runs-append :
      (a b : List ℕ) {s t u : List ℕ} {w v x : W}
      → IsWhole a
      → Runs a s w t v
      → Runs b t v u x
      → Runs (a ++ b) s w u x
  Runs-append a b {s} {t} {u} {w} {v} {x} whole f g code p h small =
      Steps-trans (f code p (left-IsPlaced a b h) small) (
        subst (λ k. Steps Other code (at (p + length a) t v) (at k u x)) (end p)
          (g code (p + length a) (right-IsPlaced a b whole h) small))
    where
      end : (p : ℕ) → p + length a + length b ≡ p + length (a ++ b)
      end p = omega (arith, length-append a b)

  -- A push leaves its number.
  pub push_bytes-Runs :
      (j n : ℕ) (s : List ℕ) (w : W)
      → j < 32
      → n < 256 ^ suc j
      → Runs (push_bytes j n) s w (n ∷ s) w
  push_bytes-Runs j n s w small below code p h _ =
      subst (λ k. Steps Other code (at p s w) (at (p + k) (n ∷ s) w)) (sym (length-push_bytes j n))
        (subst (λ v. Steps Other code (at p s w) (at (p + (2 + j)) (v ∷ s) w)) value
          (one_step (push j small (IsPlaced-get (96 + j) (low_bytes (suc j) n) h))))
    where
      portion : take (suc j) (drop (p + 1) code) ≡ low_bytes (suc j) n
      portion =
          subst (λ k. take k (drop (p + 1) code) ≡ low_bytes (suc j) n) (length-low_bytes (suc j) n)
            (IsPlaced-data (96 + j) (low_bytes (suc j) n) []
              (subst (λ c. IsPlaced code p c) (sym (append-nil (push_bytes j n))) h))

      value : from_bytes 0 (take (suc j) (drop (p + 1) code)) ≡ n
      value =
          ap (from_bytes 0) portion
          ∙ from_bytes-low_bytes (suc j) 0 n
          ∙ no_more (256 ^ suc j) (n % 256 ^ suc j)
          ∙ mod-eq_of_lt below

  -- PUSH n, PC, ADD: the position n bytes behind PC.
  pub forward_lem :
      (j n : ℕ) (s : List ℕ) (w : W) (rest code : List ℕ) (p : ℕ)
      → j < 32
      → n < 256 ^ suc j
      → IsPlaced code p (push_bytes j n ++ (88 ∷ 1 ∷ rest))
      → length code < 2 ^ 256
      → p + (2 + j) + n < 2 ^ 256
      → Steps Other code (at p s w) (at (p + (2 + j) + 1 + 1) ((p + (2 + j) + n) ∷ s) w)
  forward_lem j n s w rest code p small below h bound far =
      let start = left-IsPlaced (push_bytes j n) (88 ∷ 1 ∷ rest) h in
      let pushed = push_bytes-Runs j n s w small below code p start bound in
      let there =
        subst (λ k. IsPlaced code (p + k) (88 ∷ 1 ∷ rest)) (length-push_bytes j n)
          (right-IsPlaced (push_bytes j n) (88 ∷ 1 ∷ rest) (push_bytes-IsWhole j n small) h) in
      let next = right-IsPlaced (88 ∷ []) (1 ∷ rest) (single-IsWhole 88 refl) there in
      Steps-trans
        (subst (λ k. Steps Other code (at p s w) (at (p + k) (n ∷ s) w)) (length-push_bytes j n)
          pushed)
        (then (program_counter (IsPlaced-get 88 (1 ∷ rest) there)) (
          subst
            (λ v.
              Steps Other code (at (p + (2 + j) + 1) ((p + (2 + j)) ∷ n ∷ s) w)
                (at (p + (2 + j) + 1 + 1) (v ∷ s) w))
            (mod-eq_of_lt far) (one_step (add (IsPlaced-get 1 rest next)))))

  -- PUSH n, PC, SUB: the position n bytes before PC.
  pub backward_lem :
      (j n : ℕ) (s : List ℕ) (w : W) (rest code : List ℕ) (p : ℕ)
      → j < 32
      → n < 256 ^ suc j
      → IsPlaced code p (push_bytes j n ++ (88 ∷ 3 ∷ rest))
      → length code < 2 ^ 256
      → p + (2 + j) < 2 ^ 256
      → n ≤ p + (2 + j)
      → Steps Other code (at p s w) (at (p + (2 + j) + 1 + 1) ((p + (2 + j) - n) ∷ s) w)
  backward_lem j n s w rest code p small below h bound far near =
      let start = left-IsPlaced (push_bytes j n) (88 ∷ 3 ∷ rest) h in
      let pushed = push_bytes-Runs j n s w small below code p start bound in
      let there =
        subst (λ k. IsPlaced code (p + k) (88 ∷ 3 ∷ rest)) (length-push_bytes j n)
          (right-IsPlaced (push_bytes j n) (88 ∷ 3 ∷ rest) (push_bytes-IsWhole j n small) h) in
      let next = right-IsPlaced (88 ∷ []) (3 ∷ rest) (single-IsWhole 88 refl) there in
      Steps-trans
        (subst (λ k. Steps Other code (at p s w) (at (p + k) (n ∷ s) w)) (length-push_bytes j n)
          pushed)
        (then (program_counter (IsPlaced-get 88 (3 ∷ rest) there)) (
          subst
            (λ v.
              Steps Other code (at (p + (2 + j) + 1) ((p + (2 + j)) ∷ n ∷ s) w)
                (at (p + (2 + j) + 1 + 1) (v ∷ s) w))
            wrap (one_step (sub (IsPlaced-get 3 rest next)))))
    where
      wrap : (p + (2 + j) + 2 ^ 256 - n) % 2 ^ 256 ≡ p + (2 + j) - n
      wrap = omega arith
