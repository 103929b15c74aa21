-- ===== src/Types/Commit/Entries.antt =====
-- Proofs on `trie_set` and `trie_get` in src/ethereum_test_types/trie.py, and on the keys of a mapping.
use execution_spec_tests.Base.{
  ℕ, ◌≤◌, ◌≡◌, refl, sym, ap, ◌∙◌, subst, ◌⊎◌, inl, inr, Bool, true, false, none, some, List, [],
  ◌∷◌, arith, ==_iff, Bool-cases, if◌then◌else◌, length, same_bytes, same_bytes_iff,
}
use execution_spec_tests.Types.Trie.{Mapping}
use execution_spec_tests.Types.Trie.Entries.{In}
use execution_spec_tests.Types.Commit.{
  Node, nothing, account, raw, uint_node, u256, same_node, find, put, remove, Trie, trie_set,
  trie_get, get_or, longest,
}

account_lem :
    (n b : ℕ) (c : List ℕ) (m d : ℕ) (e : List ℕ)
    → same_node (account n b c) (account m d e) ≡ true
    → account n b c ≡ account m d e
account_lem n b c m d e h =
    let p : n ≡ m = (==_iff n m).0 (ground arith) in
    let q : b ≡ d = (==_iff b d).0 (ground arith) in
    let r : c ≡ e = (same_bytes_iff c e).0 (ground arith) in rw (p, q, r) refl

same_node-eq : (a b : Node) → same_node a b ≡ true → a ≡ b
same_node-eq nothing nothing h = refl
same_node-eq nothing (account m d e) h = cc
same_node-eq nothing (raw ys) h = cc
same_node-eq nothing (uint_node m) h = cc
same_node-eq nothing (u256 m) h = cc
same_node-eq (account n b c) nothing h = cc
same_node-eq (account n b c) (account m d e) h = account_lem n b c m d e h
same_node-eq (account n b c) (raw ys) h = cc
same_node-eq (account n b c) (uint_node m) h = cc
same_node-eq (account n b c) (u256 m) h = cc
same_node-eq (raw xs) nothing h = cc
same_node-eq (raw xs) (account m d e) h = cc
same_node-eq (raw xs) (raw ys) h = ap raw ((same_bytes_iff xs ys).0 h)
same_node-eq (raw xs) (uint_node m) h = cc
same_node-eq (raw xs) (u256 m) h = cc
same_node-eq (uint_node n) nothing h = cc
same_node-eq (uint_node n) (account m d e) h = cc
same_node-eq (uint_node n) (raw ys) h = cc
same_node-eq (uint_node n) (uint_node m) h = ap uint_node ((==_iff n m).0 h)
same_node-eq (uint_node n) (u256 m) h = cc
same_node-eq (u256 n) nothing h = cc
same_node-eq (u256 n) (account m d e) h = cc
same_node-eq (u256 n) (raw ys) h = cc
same_node-eq (u256 n) (uint_node m) h = cc
same_node-eq (u256 n) (u256 m) h = ap u256 ((==_iff n m).0 h)

pub find-put {ℓ} :
    {V : Type ℓ} (k : List ℕ) (v : V) (d : List (List ℕ × V)) (j : List ℕ)
    → find j (put k v d) ≡ (if same_bytes k j then some v else find j d)
find-put k v [] j = refl
find-put k v ((i, w) ∷ d) j = elim (Bool-cases (same_bytes i k)) [
  | inl e ↦ let p : i ≡ k = (same_bytes_iff i k).0 e in rw (e, p) (again (same_bytes k j))
  | inr e ↦ elim (Bool-cases (same_bytes i j)) [
    | inl f ↦ let p : i ≡ j = (same_bytes_iff i j).0 f in rw (e, f, other k p e) refl
    | inr f ↦ rw (e, f) (find-put k v d j)
  ]
]
  where
    again :
        (b : Bool)
        → (if b then some v else find j d) ≡ (if b then some v else if b then some w else find j d)
    again true = refl
    again false = refl

    other : (k : List ℕ) → i ≡ j → same_bytes i k ≡ false → same_bytes k j ≡ false
    other k p e = elim (Bool-cases (same_bytes k j)) [
      | inl g ↦
          absurd (ground (arith, e, (same_bytes_iff i k).1 (p ∙ sym ((same_bytes_iff k j).0 g))))
      | inr g ↦ g
    ]

pub find-remove {ℓ} :
    {V : Type ℓ} (k : List ℕ) (d : List (List ℕ × V)) (j : List ℕ)
    → find j (remove k d) ≡ (if same_bytes k j then none else find j d)
find-remove k [] j = elim (Bool-cases (same_bytes k j)) [ inl e ↦ rw e refl | inr e ↦ rw e refl ]
find-remove k ((i, w) ∷ d) j = elim (Bool-cases (same_bytes i k)) [
  | inl e ↦
      let p : i ≡ k = (same_bytes_iff i k).0 e in
      rw (e, p, find-remove k d j) (again (same_bytes k j))
  | inr e ↦ elim (Bool-cases (same_bytes i j)) [
    | inl f ↦ let p : i ≡ j = (same_bytes_iff i j).0 f in rw (e, f, other k p e) refl
    | inr f ↦ rw (e, f) (find-remove k d j)
  ]
]
  where
    again :
        (b : Bool)
        → (if b then none else find j d) ≡ (if b then none else if b then some w else find j d)
    again true = refl
    again false = refl

    other : (k : List ℕ) → i ≡ j → same_bytes i k ≡ false → same_bytes k j ≡ false
    other k p e = elim (Bool-cases (same_bytes k j)) [
      | inl g ↦
          absurd (ground (arith, e, (same_bytes_iff i k).1 (p ∙ sym ((same_bytes_iff k j).0 g))))
      | inr g ↦ g
    ]

-- A trie reads a value that is set, the default included, at its key, and every other key as
-- before.
pub trie_get-set :
    (t : Trie) (key : List ℕ) (value : Node) (j : List ℕ)
    → trie_get (trie_set t key value) j ≡ (if same_bytes key j then value else trie_get t j)
unfolding trie_get trie_set
trie_get-set t key value j = elim (Bool-cases (same_node value t.default)) [
  | inl e ↦
      rw (e, find-remove key t.entries j)
        (removed (same_bytes key j) (same_node-eq value t.default e))
  | inr e ↦ rw (e, find-put key value t.entries j) (stored (same_bytes key j))
]
  where
    removed :
        (b : Bool)
        → value ≡ t.default
        → get_or t.default (if b then none else find j t.entries)
          ≡ (if b then value else get_or t.default (find j t.entries))
    removed true p = sym p
    removed false p = refl

    stored :
        (b : Bool)
        → get_or t.default (if b then some value else find j t.entries)
          ≡ (if b then value else get_or t.default (find j t.entries))
    stored true = refl
    stored false = refl

-- No key of a mapping is there twice.
abbrev pub IsUnique : Mapping → Type 0
IsUnique [] = Unit
IsUnique ((k, v) ∷ obj) = ((w : List ℕ) → In k w obj → ⊥) × IsUnique obj

pub put-In :
    (k v : List ℕ) (obj : Mapping) (j w : List ℕ)
    → In j w (put k v obj)
    → ((j ≡ k) × (w ≡ v)) ⊎ In j w obj
put-In k v [] j w (inl m) = inl m
put-In k v [] j w (inr m) = absurd m
put-In k v ((i, u) ∷ obj) j w m = go (same_bytes i k) refl m (put-In k v obj j w)
  where
    go :
        (b : Bool)
        → same_bytes i k ≡ b
        → In j w (if b then (i, v) ∷ obj else (i, u) ∷ put k v obj)
        → (In j w (put k v obj) → ((j ≡ k) × (w ≡ v)) ⊎ In j w obj)
        → ((j ≡ k) × (w ≡ v)) ⊎ In j w ((i, u) ∷ obj)
    go true e (inl (p, q)) rest = inl (p ∙ (same_bytes_iff i k).0 e, q)
    go true e (inr m) rest = inr (inr m)
    go false e (inl m) rest = inr (inl m)
    go false e (inr m) rest = elim (rest m) [ inl a ↦ inl a | inr a ↦ inr (inr a) ]

pub put-IsUnique : (k v : List ℕ) (obj : Mapping) → IsUnique obj → IsUnique (put k v obj)
put-IsUnique k v [] u = ((λ w m. absurd m), tt)
put-IsUnique k v ((i, x) ∷ obj) (fresh, u) = elim (Bool-cases (same_bytes i k)) [
  | inl e ↦ rw e (fresh, u)
  | inr e ↦ rw e (
    (λ w m. elim (put-In k v obj i w m) [ inl (p, _) ↦ apart p e | inr n ↦ fresh w n ]),
    put-IsUnique k v obj u,
  )
]
  where
    apart : i ≡ k → same_bytes i k ≡ false → ⊥
    apart p e = ground (arith, e, (same_bytes_iff i k).1 p)

-- The keys of a mapping without repetition determine their values.
pub unique_values :
    (obj : Mapping) (k v k' v' : List ℕ)
    → IsUnique obj
    → In k v obj
    → In k' v' obj
    → k ≡ k'
    → v ≡ v'
unique_values [] k v k' v' u m m' e = absurd m
unique_values ((i, x) ∷ obj) k v k' v' (fresh, u) (inl (p, q)) (inl (p', q')) e = q ∙ sym q'
unique_values ((i, x) ∷ obj) k v k' v' (fresh, u) (inl (p, q)) (inr m') e =
    absurd (fresh v' (subst (λ y. In y v' obj) (sym e ∙ p) m'))
unique_values ((i, x) ∷ obj) k v k' v' (fresh, u) (inr m) (inl (p', q')) e =
    absurd (fresh v (subst (λ y. In y v obj) (e ∙ p') m))
unique_values ((i, x) ∷ obj) k v k' v' (fresh, u) (inr m) (inr m') e =
    unique_values obj k v k' v' u m m' e

pub length-longest : (obj : Mapping) (k v : List ℕ) → In k v obj → length k ≤ longest obj
length-longest [] k v m = absurd m
length-longest ((i, x) ∷ obj) k v (inl (p, _)) = rw p (omega arith)
length-longest ((i, x) ∷ obj) k v (inr m) = omega (arith, length-longest obj k v m)
