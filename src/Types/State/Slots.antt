-- ===== src/Types/State/Slots.antt =====
-- Proofs on `set_storage` in src/ethereum_test_types/account_types.py.
use execution_spec_tests.Base.{
  ℕ, ◌≡◌, refl, sym, ◌∙◌, subst, inl, inr, Bool, true, false, List, [], ◌∷◌, All, if◌then◌else◌,
  Bool-cases, same_bytes, err, ok, assertion_error,
}
use execution_spec_tests.Types.Commit.{
  Node, u256, same_node, find, put, remove, Trie, trie_set, trie_get,
}
use execution_spec_tests.Types.Commit.Entries.{trie_get-set, find-put, find-remove}
use execution_spec_tests.Types.State.{
  State, is_account, storage_trie, keep_trie, changed_trie, set_storage,
}

-- The value of a slot; a slot of an address without storage trie is zero.
abbrev pub storage_at : State → List ℕ → List ℕ → Node
storage_at s address key = trie_get (storage_trie (find address s.storage_tries)) key

abbrev pub HasEntries {ℓ} : {A : Type ℓ} → List A → Type 0
HasEntries [] = ⊥
HasEntries (e ∷ es) = Unit

-- Every storage trie has zero for default and is not empty.
abbrev pub IsTidy : State → Type 0
IsTidy s = All (λ e. (e.1.default ≡ u256 0) × HasEntries e.1.entries) s.storage_tries

set-default : (t : Trie) (k : List ℕ) (v : Node) → (trie_set t k v).default ≡ t.default
unfolding trie_set
set-default t k v = elim (Bool-cases (same_node v t.default)) [
  | inl e ↦ rw e refl
  | inr e ↦ rw e refl
]

All-put :
    (P : List ℕ × Trie → Type 0) (a : List ℕ) (t : Trie) (tries : List (List ℕ × Trie))
    → ((b : List ℕ) → P (b, t))
    → All P tries
    → All P (put a t tries)
All-put P a t [] p h = (p a, tt)
All-put P a t ((b, u) ∷ tries) p (q, h) = elim (Bool-cases (same_bytes b a)) [
  | inl e ↦ rw e (p b, h)
  | inr e ↦ rw e (q, All-put P a t tries p h)
]

All-remove :
    (P : List ℕ × Trie → Type 0) (a : List ℕ) (tries : List (List ℕ × Trie))
    → All P tries
    → All P (remove a tries)
All-remove P a [] h = tt
All-remove P a ((b, u) ∷ tries) (q, h) = elim (Bool-cases (same_bytes b a)) [
  | inl e ↦ rw e (All-remove P a tries h)
  | inr e ↦ rw e (q, All-remove P a tries h)
]

found_default :
    (a : List ℕ) (tries : List (List ℕ × Trie))
    → All (λ e. (e.1.default ≡ u256 0) × HasEntries e.1.entries) tries
    → (storage_trie (find a tries)).default ≡ u256 0
found_default a [] h = refl
found_default a ((b, u) ∷ tries) ((d, _), h) = elim (Bool-cases (same_bytes b a)) [
  | inl e ↦ rw e d
  | inr e ↦ rw e (found_default a tries h)
]

keep_trie-All :
    (t : Trie) (a : List ℕ) (tries : List (List ℕ × Trie))
    → t.default ≡ u256 0
    → All (λ e. (e.1.default ≡ u256 0) × HasEntries e.1.entries) tries
    → All (λ e. (e.1.default ≡ u256 0) × HasEntries e.1.entries) (keep_trie t.entries a t tries)
keep_trie-All t a tries d h = go t.entries refl
  where
    go :
        (es : List (List ℕ × Node))
        → t.entries ≡ es
        → All (λ e. (e.1.default ≡ u256 0) × HasEntries e.1.entries) (keep_trie es a t tries)
    go [] q = All-remove _ a tries h
    go (e ∷ es) q = All-put _ a t tries (λ b. (d, subst (λ x. HasEntries x) (sym q) tt)) h

keep_trie-get :
    (t : Trie) (a : List ℕ) (tries : List (List ℕ × Trie)) (b key : List ℕ)
    → t.default ≡ u256 0
    → trie_get (storage_trie (find b (keep_trie t.entries a t tries))) key
      ≡ (if same_bytes a b then trie_get t key else trie_get (storage_trie (find b tries)) key)
unfolding trie_get
keep_trie-get t a tries b key d = go t.entries refl
  where
    go :
        (es : List (List ℕ × Node))
        → t.entries ≡ es
        → trie_get (storage_trie (find b (keep_trie es a t tries))) key
          ≡ (if same_bytes a b then trie_get t key else trie_get (storage_trie (find b tries)) key)
    go [] q = elim (Bool-cases (same_bytes a b)) [
      | inl e ↦ rw (find-remove a tries b, e, q) (sym d)
      | inr e ↦ rw (find-remove a tries b, e) refl
    ]
    go (x ∷ es) q = elim (Bool-cases (same_bytes a b)) [
      | inl e ↦ rw (find-put a t tries b, e) refl
      | inr e ↦ rw (find-put a t tries b, e) refl
    ]

-- `set_storage` of a slot, in a state that keeps no empty storage trie and where the address has
-- an account, returns such a state with the same accounts, in which that slot reads the new value,
-- zero included, and every other slot of every address reads as before. Without an account it
-- raises AssertionError.
pub set_storage_lem :
    (s : State) (a k : List ℕ) (v : ℕ)
    → IsTidy s
    → (is_account (trie_get s.main_trie a) ≡ true
        → (s' : State) × (set_storage s a k v ≡ ok s')
          × IsTidy s'
          × (s'.main_trie ≡ s.main_trie)
          × (s'.snapshots ≡ s.snapshots)
          × ((b j : List ℕ)
              → storage_at s' b j ≡ (
                  if same_bytes a b
                  then if same_bytes k j then u256 v else storage_at s a j
                  else storage_at s b j)))
      × (is_account (trie_get s.main_trie a) ≡ false → set_storage s a k v ≡ err assertion_error)
unfolding set_storage changed_trie
set_storage_lem s a k v tidy = (
  (λ there. (
    record s { storage_tries = keep_trie t.entries a t s.storage_tries },
    rw there refl,
    keep_trie-All t a s.storage_tries default_zero tidy,
    refl,
    refl,
    λ b j. keep_trie-get t a s.storage_tries b j default_zero ∙ read b j (same_bytes a b),
  )),
  λ missing. rw missing refl,
)
  where
    t : Trie
    t = trie_set (storage_trie (find a s.storage_tries)) k (u256 v)

    default_zero : t.default ≡ u256 0
    default_zero =
        set-default (storage_trie (find a s.storage_tries)) k (u256 v)
        ∙ found_default a s.storage_tries tidy

    read :
        (b j : List ℕ) (same : Bool)
        → (if same then trie_get t j else storage_at s b j)
          ≡ (if same then if same_bytes k j then u256 v else storage_at s a j else storage_at s b j)
    read b j true = trie_get-set (storage_trie (find a s.storage_tries)) k (u256 v) j
    read b j false = refl
