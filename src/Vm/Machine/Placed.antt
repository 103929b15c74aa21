-- ===== src/Vm/Machine/Placed.antt =====
-- Where a piece of code stands in a larger one, for the machine that reads the bytes of
-- src/ethereum_test_vm/.
use execution_spec_tests.Base.{
  ℕ, zero, suc, ◌+◌, ◌<◌, ◌≤◌, ◌≡◌, refl, sym, ap, ◌∙◌, subst, some, List, [], ◌∷◌, ◌++◌,
  append_assoc, length, length-append, take, drop, get_elem?, arith,
}
use execution_spec_tests.Vm.Machine.{data_size, scan, IsWhole, IsTarget}

pub scan-append : (k : ℕ) (a b : List ℕ) → scan k (a ++ b) ≡ scan (scan k a) b
unfolding scan
scan-append k [] b = refl
scan-append zero (x ∷ a) b = scan-append (data_size x) a b
scan-append (suc k) (x ∷ a) b = scan-append k a b

pub append-IsWhole : (a b : List ℕ) → IsWhole a → IsWhole b → IsWhole (a ++ b)
append-IsWhole a b p q = scan-append 0 a b ∙ ap (λ k. scan k b) p ∙ q

-- An instruction without data.
pub single-IsWhole : (b : ℕ) → data_size b ≡ 0 → IsWhole (b ∷ [])
unfolding scan
single-IsWhole b h = h

scan-length : (bs : List ℕ) → scan (length bs) bs ≡ 0
unfolding scan
scan-length [] = refl
scan-length (b ∷ bs) = scan-length bs

-- A push with all its data.
pub push-IsWhole : (j : ℕ) (bs : List ℕ) → j < 32 → length bs ≡ suc j → IsWhole ((96 + j) ∷ bs)
unfolding scan
push-IsWhole j bs h len =
    let size : data_size (96 + j) ≡ suc j = ground arith in
    ap (λ k. scan k bs) (size ∙ sym len) ∙ scan-length bs

pub take-length : (a b : List ℕ) → take (length a) (a ++ b) ≡ a
take-length [] b = refl
take-length (x ∷ a) b = ap (λ c. x ∷ c) (take-length a b)

pub get_elem?-length :
    (a : List ℕ) (x : ℕ) (b : List ℕ) → get_elem? (a ++ x ∷ b) (length a) ≡ some x
get_elem?-length [] x b = refl
get_elem?-length (y ∷ a) x b = get_elem?-length a x b

drop-length : (a : List ℕ) (x : ℕ) (b : List ℕ) → drop (length a + 1) (a ++ x ∷ b) ≡ b
drop-length [] x b = refl
drop-length (y ∷ a) x b =
    let e : suc (length a) + 1 ≡ suc (length a + 1) = omega arith in
    ap (λ k. drop k (y ∷ a ++ x ∷ b)) e ∙ drop-length a x b

-- The bytes stand at a position, behind instructions that have all their data.
pub record IsPlaced (code : List ℕ) (p : ℕ) (bytes : List ℕ) : Type 0 where
  pub before : List ℕ
  pub after : List ℕ
  pub parts : code ≡ before ++ (bytes ++ after)
  pub position : length before ≡ p
  pub whole : IsWhole before

pub left-IsPlaced :
    {code : List ℕ} {p : ℕ} (a b : List ℕ) → IsPlaced code p (a ++ b) → IsPlaced code p a
left-IsPlaced a b h = record {
  before = h.before;
  after = b ++ h.after;
  parts = h.parts ∙ ap (λ c. h.before ++ c) (append_assoc a b h.after);
  position = h.position;
  whole = h.whole;
}

pub right-IsPlaced :
    {code : List ℕ} {p : ℕ} (a b : List ℕ)
    → IsWhole a
    → IsPlaced code p (a ++ b)
    → IsPlaced code (p + length a) b
right-IsPlaced a b w h = record {
  before = h.before ++ a;
  after = h.after;
  parts =
      h.parts
      ∙ ap (λ c. h.before ++ c) (append_assoc a b h.after)
      ∙ sym (append_assoc h.before a (b ++ h.after));
  position = length-append h.before a ∙ ap (λ n. n + length a) h.position;
  whole = append-IsWhole h.before a h.whole w;
}

-- The instruction at the position.
pub IsPlaced-get :
    {code : List ℕ} {p : ℕ} (x : ℕ) (bs : List ℕ)
    → IsPlaced code p (x ∷ bs)
    → get_elem? code p ≡ some x
IsPlaced-get {code} {p} x bs h =
    ap (λ c. get_elem? c p) h.parts
    ∙ ap (get_elem? (h.before ++ ((x ∷ bs) ++ h.after))) (sym h.position)
    ∙ get_elem?-length h.before x (bs ++ h.after)

-- A JUMPDEST there is a target.
pub IsPlaced-IsTarget :
    {code : List ℕ} {p : ℕ} (bs : List ℕ) → IsPlaced code p (91 ∷ bs) → IsTarget code p
IsPlaced-IsTarget {code} {p} bs h = (
  subst (λ c. scan 0 (take p c) ≡ 0) (sym h.parts)
      (subst (λ k. scan 0 (take k (h.before ++ ((91 ∷ bs) ++ h.after))) ≡ 0) h.position
        (ap (scan 0) (take-length h.before ((91 ∷ bs) ++ h.after)) ∙ h.whole)),
  IsPlaced-get 91 bs h,
)

-- The data of a push there.
pub IsPlaced-data :
    {code : List ℕ} {p : ℕ} (x : ℕ) (bs cs : List ℕ)
    → IsPlaced code p ((x ∷ bs) ++ cs)
    → take (length bs) (drop (p + 1) code) ≡ bs
IsPlaced-data {code} {p} x bs cs h =
    subst (λ c. take (length bs) (drop (p + 1) c) ≡ bs) (sym h.parts)
      (subst (λ k. take (length bs) (drop (k + 1) (h.before ++ (((x ∷ bs) ++ cs) ++ h.after))) ≡ bs)
        h.position
        (ap (take (length bs)) (drop-length h.before x ((bs ++ cs) ++ h.after))
          ∙ ap (take (length bs)) (append_assoc bs cs h.after)
          ∙ take-length bs (cs ++ h.after)))

-- Nothing stands beyond the end.
pub IsPlaced-length :
    {code : List ℕ} {p : ℕ} (bs : List ℕ) → IsPlaced code p bs → p + length bs ≤ length code
IsPlaced-length {code} {p} bs h = omega (
  arith,
  ap length h.parts,
  h.position,
  length-append h.before (bs ++ h.after),
  length-append bs h.after,
)

pub IsPlaced-move :
    {code : List ℕ} {p q : ℕ} (bs : List ℕ) → p ≡ q → IsPlaced code p bs → IsPlaced code q bs
IsPlaced-move {code} bs e h = subst (λ k. IsPlaced code k bs) e h
