-- ===== src/Types/Trie/Entries.antt =====
-- Proofs on the prefixes of keys, and on the split of a mapping at a branch, in
-- src/ethereum_test_types/trie.py.
use execution_spec_tests.Base.{
  ℕ, zero, suc, ◌+◌, ◌-◌, ◌<◌, ◌≤◌, min, ◌≡◌, refl, sym, ap, ap₂, ◌∙◌, subst, ◌↔◌, ◌⊎◌, inl, inr,
  true, false, Option, none, some, List, [], ◌∷◌, ◌++◌, arith, ◌==◌, ==_iff, lt→ltb, if◌then◌else◌,
  All, Bool-cases, length, take, drop, get_elem?,
}
use execution_spec_tests.Types.Trie.{
  common_prefix_length, Mapping, prefix_length_from, branch_value_from, branch_entries,
  has_branches,
}

-- An entry stands in a mapping.
abbrev pub In : List ℕ → List ℕ → Mapping → Type 0
In key v [] = ⊥
In key v ((k, w) ∷ obj) = ((key ≡ k) × (v ≡ w)) ⊎ In key v obj

pub common_prefix-take :
    (n : ℕ) (a b : List ℕ)
    → n ≤ common_prefix_length a b
    → (take n a ≡ take n b) × (n ≤ length a) × (n ≤ length b)
unfolding common_prefix_length
common_prefix-take zero a b h = (refl, omega arith, omega arith)
common_prefix-take (suc n) [] b h = absurd (omega arith)
common_prefix-take (suc n) (x ∷ a) [] h = absurd (omega arith)
common_prefix-take (suc n) (x ∷ a) (y ∷ b) h = elim (Bool-cases (x == y)) [
  | inl e ↦
      let (p, q, r) = common_prefix-take n a b (smaller e h) in
      (ap₂ (λ u us. u ∷ us) ((==_iff x y).0 e) p, omega arith, omega arith)
  | inr e ↦ absurd (apart e h)
]
  where
    smaller :
        (x == y) ≡ true
        → suc n ≤ (if x == y then suc (common_prefix_length a b) else 0)
        → n ≤ common_prefix_length a b
    smaller e h = ground arith

    apart : (x == y) ≡ false → suc n ≤ (if x == y then suc (common_prefix_length a b) else 0) → ⊥
    apart e h = ground arith

pub take-drop : (n : ℕ) (xs : List ℕ) → take n xs ++ drop n xs ≡ xs
take-drop zero xs = refl
take-drop (suc n) [] = refl
take-drop (suc n) (x ∷ xs) = ap (λ ys. x ∷ ys) (take-drop n xs)

drop_nil : (n : ℕ) → drop {A = ℕ} n [] ≡ []
drop_nil zero = refl
drop_nil (suc n) = refl

pub drop-drop : (m n : ℕ) (xs : List ℕ) → drop n (drop m xs) ≡ drop (m + n) xs
drop-drop zero n xs = ap (λ k. drop k xs) (omega arith)
drop-drop (suc m) n [] = drop_nil n ∙ sym (drop_nil (suc m + n))
drop-drop (suc m) n (x ∷ xs) =
    let e : suc (m + n) ≡ suc m + n = omega arith in drop-drop m n xs ∙ ap (λ k. drop k (x ∷ xs)) e

pub length-drop : (n : ℕ) (xs : List ℕ) → length (drop n xs) ≡ length xs - n
length-drop zero xs = omega arith
length-drop (suc n) [] = omega arith
length-drop (suc n) (x ∷ xs) = length-drop n xs ∙ omega arith

-- The prefix that the loop finds is common to the keys of all entries.
pub prefix_length_lem :
    (n : ℕ) (substring : List ℕ) (level : ℕ) (obj : Mapping)
    → (prefix_length_from n substring level obj ≤ n)
      × ((key v : List ℕ)
          → In key v obj
          → prefix_length_from n substring level obj
            ≤ common_prefix_length substring (drop level key))
unfolding prefix_length_from
prefix_length_lem n substring level [] = (omega arith, λ key v m. absurd m)
prefix_length_lem n substring level ((k, w) ∷ obj) =
    let c = common_prefix_length substring (drop level k) in
    elim (Bool-cases (min n c == 0)) [
      | inl e ↦ rw e (omega arith, λ key v m. omega arith)
      | inr e ↦
          let (low, all) = prefix_length_lem (min n c) substring level obj in
          rw e (
            omega arith,
            λ key v m. elim m [ inl (p, _) ↦ rw p (omega arith) | inr m ↦ all key v m ],
          )
    ]

pub get_elem?-drop :
    (level : ℕ) (key : List ℕ) (k : ℕ)
    → get_elem? key level ≡ some k
    → (drop level key ≡ k ∷ drop (level + 1) key) × (level < length key)
get_elem?-drop level [] k h = cc
get_elem?-drop zero (x ∷ key) k h = (ap (λ y. y ∷ key) (ground arith), omega arith)
get_elem?-drop (suc level) (x ∷ key) k h =
    let (p, q) = get_elem?-drop level key k h in
    let e : suc (level + 1) ≡ suc level + 1 = omega arith in
    (p ∙ ap (λ n. k ∷ drop n (x ∷ key)) e, omega arith)

pub get_elem?-none : (level : ℕ) (key : List ℕ) → get_elem? key level ≡ none → length key ≤ level
get_elem?-none level [] h = omega arith
get_elem?-none zero (x ∷ key) h = cc
get_elem?-none (suc level) (x ∷ key) h = omega (arith, get_elem?-none level key h)

pub All-get_elem? :
    (P : ℕ → Type 0) (key : List ℕ) (i k : ℕ) → All P key → get_elem? key i ≡ some k → P k
All-get_elem? P [] i k a h = cc
All-get_elem? P (x ∷ key) zero k (p, a) h = subst P (ground arith) p
All-get_elem? P (x ∷ key) (suc i) k (p, a) h = All-get_elem? P key i k a h

-- The entries of the k-th branch are those whose key goes on with k.
pub branch_entries-In :
    (k level : ℕ) (obj : Mapping) (key v : List ℕ)
    → In key v (branch_entries k level obj) ↔ (In key v obj × (get_elem? key level ≡ some k))
unfolding branch_entries
branch_entries-In k level [] key v = ((λ m. absurd m), λ (m, _). absurd m)
branch_entries-In k level ((key', w) ∷ obj) key v =
    go (get_elem? key' level) refl (branch_entries-In k level obj key v)
  where
    go :
        (o : Option ℕ)
        → get_elem? key' level ≡ o
        → In key v (branch_entries k level obj) ↔ (In key v obj × (get_elem? key level ≡ some k))
        → In key v (branch_entries k level ((key', w) ∷ obj))
          ↔ (In key v ((key', w) ∷ obj) × (get_elem? key level ≡ some k))
    go none q rest =
        rw (branch_entries, q)
          (
            (λ m. let (a, b) = rest.0 m in (inr a, b)),
            λ (m, h). elim m [
              | inl (p, _) ↦ absurd (clash (sym q ∙ ap (λ l. get_elem? l level) (sym p) ∙ h))
              | inr m ↦ rest.1 (m, h)
            ],
          )
      where
        clash : ◌≡◌ {A = Option ℕ} none (some k) → ⊥
        clash e = cc
    go (some j) q rest =
        rw (branch_entries, q)
          (elim (Bool-cases (j == k)) [
            | inl e ↦
                let p : j ≡ k = (==_iff j k).0 e in
                rw e (
                  (λ m. elim m [
                    | inl (a, b) ↦ (inl (a, b), ap (λ l. get_elem? l level) a ∙ q ∙ ap some p)
                    | inr m ↦ let (a, b) = rest.0 m in (inr a, b)
                  ]),
                  λ (m, h). elim m [ inl a ↦ inl a | inr m ↦ inr (rest.1 (m, h)) ],
                )
            | inr e ↦ rw e (
              (λ m. let (a, b) = rest.0 m in (inr a, b)),
              λ (m, h). elim m [
                | inl (p, _) ↦ absurd (clash e (sym q ∙ ap (λ l. get_elem? l level) (sym p) ∙ h))
                | inr m ↦ rest.1 (m, h)
              ],
            )
          ])
      where
        clash : (j == k) ≡ false → ◌≡◌ {A = Option ℕ} (some j) (some k) → ⊥
        clash e h = ground (arith, e, h)

pub has_branches_lem :
    (level : ℕ) (obj : Mapping)
    → ((key v : List ℕ) → In key v obj → All (λ x. x < 16) key × (level ≤ length key))
    → has_branches level obj ≡ true
unfolding has_branches
has_branches_lem level [] h = refl
has_branches_lem level ((key, v) ∷ obj) h =
    go (get_elem? key level) refl (has_branches_lem level obj λ k w m. h k w (inr m))
  where
    go :
        (o : Option ℕ)
        → get_elem? key level ≡ o
        → has_branches level obj ≡ true
        → has_branches level ((key, v) ∷ obj) ≡ true
    go none q rest =
        let reach : level ≤ length key = (h key v (inl (refl, refl))).1 in
        let ends : length key ≡ level = omega (arith, get_elem?-none level key q) in
        rw (has_branches, q, (==_iff (length key) level).1 ends) rest
    go (some j) q rest =
        let small = All-get_elem? (λ x. x < 16) key level j (h key v (inl (refl, refl))).0 q in
        rw (has_branches, q, lt→ltb j 16 small) rest

-- Where the entries whose key ends have one value, that is the value of the branch.
pub branch_value_lem :
    (w : List ℕ) (level : ℕ) (obj : Mapping) (v : List ℕ)
    → ((key u : List ℕ) → In key u obj → length key ≡ level → u ≡ v)
    → ((w ≡ v) ⊎ ((key : List ℕ) × In key v obj × (length key ≡ level)))
    → branch_value_from w level obj ≡ v
unfolding branch_value_from
branch_value_lem w level [] v same (inl p) = p
branch_value_lem w level [] v same (inr (key, m, _)) = absurd m
branch_value_lem w level ((k, u) ∷ obj) v same found = elim (Bool-cases (length k == level)) [
  | inl e ↦
      let p : length k ≡ level = (==_iff (length k) level).0 e in
      rw e (
        branch_value_lem u level obj v (λ key x m. same key x (inr m))
          (inl (same k u (inl (refl, refl)) p)))
  | inr e ↦ rw e (branch_value_lem w level obj v (λ key x m. same key x (inr m)) (later e found))
]
  where
    later :
        (length k == level) ≡ false
        → ((w ≡ v) ⊎ ((key : List ℕ) × In key v ((k, u) ∷ obj) × (length key ≡ level)))
        → (w ≡ v) ⊎ ((key : List ℕ) × In key v obj × (length key ≡ level))
    later e (inl p) = inl p
    later e (inr (key, inl (p, _), q)) = absurd (ground (arith, e, sym (ap length p) ∙ q))
    later e (inr (key, inr m, q)) = inr (key, m, q)
