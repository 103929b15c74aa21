-- ===== src/Tools/Generators/Initcode/Copy.antt =====
-- What the code of Initcode in src/ethereum_test_tools/tools_code/generators.py copies, in the virtual
-- machine.
use execution_spec_tests.Base.{
  ℕ, ◌+◌, ◌-◌, ◌^◌, ◌<◌, ◌≤◌, ◌≡◌, refl, sym, ap, ◌∙◌, subst, true, Option, none, some, List, [],
  ◌∷◌, ◌++◌, append_assoc, length, length-append, length-replicate, take, drop, replicate,
  get_elem?, arith, leb, lt→ltb, ok, ◌==◌, Bool-cases, inl, inr, ==_iff,
}
use execution_spec_tests.Vm.Opcode.{given}
use execution_spec_tests.Vm.Machine.{State, IsWhole, dup}
use execution_spec_tests.Vm.Machine.Placed.{
  IsPlaced-get, single-IsWhole, take-length, get_elem?-length,
}
use execution_spec_tests.Vm.Machine.Jumps.{
  push_bytes, push_bytes-IsWhole, one_step, Runs, Runs-append, push_bytes-Runs,
}
use execution_spec_tests.Tools.Generators.Initcode.{padding}
use execution_spec_tests.Tools.Generators.Initcode.Layout.{arguments, length-arguments}

module _ {W : Type 0} (Other : List ℕ → State W → State W → Type 0) where
  dup-Runs :
      (i x : ℕ) (s : List ℕ) (w : W)
      → i < 16
      → get_elem? s i ≡ some x
      → Runs Other ((128 + i) ∷ []) s w (x ∷ s) w
  dup-Runs i x s w small found code p h bound =
      one_step Other (dup i x small (IsPlaced-get (128 + i) [] h) found)

  pub arguments-Runs :
      (prefix : List ℕ) (k : ℕ) (s r : List ℕ) (w u : W)
      → k < 65536
      → length prefix < 245
      → IsWhole prefix
      → Runs Other prefix s w r u
      → Runs Other (arguments prefix k) s w (0 ∷ (11 + length prefix) ∷ k ∷ 0 ∷ k ∷ r) u
  arguments-Runs prefix k s r w u small short whole run = Runs-append Other prefix _ whole run (
      Runs-append Other (push_bytes 1 k) _ (push_bytes-IsWhole 1 k (omega arith))
        (push_bytes-Runs Other 1 k r u (omega arith) small)
        (Runs-append Other (push_bytes 0 0) _ (push_bytes-IsWhole 0 0 (omega arith))
          (push_bytes-Runs Other 0 0 (k ∷ r) u (omega arith) (omega arith))
          (Runs-append Other (129 ∷ []) _ (single-IsWhole 129 refl)
            (dup-Runs 1 k (0 ∷ k ∷ r) u (omega arith) refl)
            (Runs-append Other (push_bytes 0 (11 + length prefix)) _
              (push_bytes-IsWhole 0 (11 + length prefix) (omega arith))
              (push_bytes-Runs Other 0 (11 + length prefix) (k ∷ 0 ∷ k ∷ r) u (omega arith)
                (omega arith))
              (dup-Runs 2 0 ((11 + length prefix) ∷ k ∷ 0 ∷ k ∷ r) u (omega arith) refl)))))

drop-append : (a b : List ℕ) → drop (length a) (a ++ b) ≡ b
drop-append [] b = refl
drop-append (x ∷ a) b = drop-append a b

-- What the caller asks for as the length of an initcode of some size: nothing, or at least the size,
-- with a padding byte that is a byte.
abbrev pub Padded : Option ℕ → ℕ → ℕ → Type 0
Padded none size padding_byte = Unit
Padded (some l) size padding_byte = (size ≤ l) × (l < 2 ^ 256) × (padding_byte < 256)

abbrev pub initcode_size : ℕ → ℕ → ℕ
initcode_size prefix_length k = 11 + prefix_length + k

pub padding_lem :
    (initcode_length : Option ℕ) (size padding_byte : ℕ)
    → Padded initcode_length size padding_byte
    → (bytes : List ℕ) × (padding initcode_length size padding_byte ≡ ok bytes)
      × (size + length bytes ≡ given initcode_length size)
unfolding padding
padding_lem none size padding_byte h = ([], refl, omega arith)
padding_lem (some l) size padding_byte (enough, small, byte) =
    let fits : leb size l ≡ true = ground arith in
    elim (Bool-cases (l - size == 0)) [
      | inl e ↦
          let exact : l - size ≡ 0 = (==_iff (l - size) 0).0 e in
          ([], rw (fits, e) refl, omega arith)
      | inr e ↦ (
        replicate (l - size) padding_byte,
        rw (fits, e, lt→ltb padding_byte 256 byte) refl,
        omega (arith, length-replicate (l - size) padding_byte),
      )
    ]

-- The instructions, the code and the padding.
abbrev pub full : List ℕ → List ℕ → List ℕ → List ℕ
full prefix deploy rest = arguments prefix (length deploy) ++ (57 ∷ 243 ∷ (deploy ++ rest))

pub length-full :
    (prefix deploy rest : List ℕ)
    → length (full prefix deploy rest) ≡ initcode_size (length prefix) (length deploy) + length rest
length-full prefix deploy rest = omega (
  arith,
  length-append (arguments prefix (length deploy)) (57 ∷ 243 ∷ (deploy ++ rest)),
  length-arguments prefix (length deploy),
  length-append deploy rest,
)

pub get-full :
    (prefix deploy rest : List ℕ)
    → (get_elem? (full prefix deploy rest) (length prefix + 9) ≡ some 57)
      × (get_elem? (full prefix deploy rest) (length prefix + 10) ≡ some 243)
get-full prefix deploy rest =
    let args = arguments prefix (length deploy) in
    let size = length-arguments prefix (length deploy) in
    let longer : length (args ++ (57 ∷ [])) ≡ length prefix + 10 =
      omega (arith, size, length-append args (57 ∷ [])) in
    (
      subst (λ k. get_elem? (full prefix deploy rest) k ≡ some 57) size
          (get_elem?-length args 57 (243 ∷ (deploy ++ rest))),
      subst (λ k. get_elem? (full prefix deploy rest) k ≡ some 243) longer
          (subst (λ b. get_elem? b (length (args ++ (57 ∷ []))) ≡ some 243)
            (append_assoc args (57 ∷ []) (243 ∷ (deploy ++ rest)))
            (get_elem?-length (args ++ (57 ∷ [])) 243 (deploy ++ rest))),
    )

pub copy-full :
    (prefix deploy rest : List ℕ)
    → take (length deploy) (drop (11 + length prefix) (full prefix deploy rest)) ≡ deploy
copy-full prefix deploy rest =
    let args = arguments prefix (length deploy) in
    let head = args ++ (57 ∷ 243 ∷ []) in
    let size : length head ≡ 11 + length prefix =
      omega (arith, length-append args (57 ∷ 243 ∷ []), length-arguments prefix (length deploy)) in
    let dropped : drop (11 + length prefix) (full prefix deploy rest) ≡ deploy ++ rest =
      subst (λ k. drop k (full prefix deploy rest) ≡ deploy ++ rest) size
        (ap (drop (length head)) (sym (append_assoc args (57 ∷ 243 ∷ []) (deploy ++ rest)))
          ∙ drop-append head (deploy ++ rest)) in
    ap (take (length deploy)) dropped ∙ take-length deploy rest
