-- ===== src/Vm/Machine.antt =====
-- An independent reading of the bytes that src/ethereum_test_vm/ makes: the Ethereum virtual machine,
-- as far as the generated jumps depend on it. Every other instruction is a parameter.
pub mod Placed
pub mod Jumps
use execution_spec_tests.Base.{
  ℕ, zero, suc, ◌+◌, ◌-◌, ◌^◌, ◌%◌, ◌<◌, ◌≤◌, ◌≡◌, Bool, ◌&&◌, Option, some, List, [], ◌∷◌, ◌++◌,
  length, take, drop, leb, if◌then◌else◌, get_elem?,
}
use execution_spec_tests.Vm.Opcode.{from_bytes}

-- How many bytes of data follow an opcode: PUSH1 to PUSH32 have some.
abbrev pub data_size : ℕ → ℕ
data_size b = if leb 96 b && leb b 127 then b - 95 else 0

-- The scan for jump destinations: how many bytes of data are still to come after a code.
unfoldable pub scan : ℕ → List ℕ → ℕ
scan skip [] = skip
scan zero (b ∷ bs) = scan (data_size b) bs
scan (suc skip) (b ∷ bs) = scan skip bs

-- The last instruction of a code has all its data.
abbrev pub IsWhole : List ℕ → Type 0
IsWhole code = scan 0 code ≡ 0

-- A jump may go to a JUMPDEST that is an instruction.
abbrev pub IsTarget : List ℕ → ℕ → Type 0
IsTarget code p = IsWhole (take p code) × (get_elem? code p ≡ some 91)

-- The position, the stack, and what else there is: memory, storage, the rest of the world.
pub record State (W : Type 0) : Type 0 where
  pub pc : ℕ
  pub stack : List ℕ
  pub world : W

abbrev pub at : {W : Type 0} → ℕ → List ℕ → W → State W
at p s w = record { pc = p; stack = s; world = w }

module _ {W : Type 0} (Other : List ℕ → State W → State W → Type 0) where
  -- The instructions that the generated code uses to push and to jump, and all others.
  pub data Step (code : List ℕ) : State W → State W → Type 0 where
    jumpdest :
        {p : ℕ} {s : List ℕ} {w : W}
        → get_elem? code p ≡ some 91
        → Step code (at p s w) (at (p + 1) s w)
    push :
        {p : ℕ} {s : List ℕ} {w : W} (j : ℕ)
        → j < 32
        → get_elem? code p ≡ some (96 + j)
        → Step code
            (at p s w)
            (at (p + (2 + j)) (from_bytes 0 (take (suc j) (drop (p + 1) code)) ∷ s) w)
    program_counter :
        {p : ℕ} {s : List ℕ} {w : W}
        → get_elem? code p ≡ some 88
        → Step code (at p s w) (at (p + 1) (p ∷ s) w)
    add :
        {p : ℕ} {s : List ℕ} {w : W} {a b : ℕ}
        → get_elem? code p ≡ some 1
        → Step code (at p (a ∷ b ∷ s) w) (at (p + 1) ((a + b) % 2 ^ 256 ∷ s) w)
    sub :
        {p : ℕ} {s : List ℕ} {w : W} {a b : ℕ}
        → get_elem? code p ≡ some 3
        → Step code (at p (a ∷ b ∷ s) w) (at (p + 1) ((a + 2 ^ 256 - b) % 2 ^ 256 ∷ s) w)
    jump :
        {p : ℕ} {s : List ℕ} {w : W} {d : ℕ}
        → get_elem? code p ≡ some 86
        → IsTarget code d
        → Step code (at p (d ∷ s) w) (at d s w)
    jumpi_taken :
        {p : ℕ} {s : List ℕ} {w : W} {d v : ℕ}
        → get_elem? code p ≡ some 87
        → 0 < v
        → IsTarget code d
        → Step code (at p (d ∷ v ∷ s) w) (at d s w)
    jumpi_passed :
        {p : ℕ} {s : List ℕ} {w : W} {d : ℕ}
        → get_elem? code p ≡ some 87
        → Step code (at p (d ∷ 0 ∷ s) w) (at (p + 1) s w)
    dup :
        {p : ℕ} {s : List ℕ} {w : W} (i x : ℕ)
        → i < 16
        → get_elem? code p ≡ some (128 + i)
        → get_elem? s i ≡ some x
        → Step code (at p s w) (at (p + 1) (x ∷ s) w)
    swap1 :
        {p : ℕ} {s : List ℕ} {w : W} {a b : ℕ}
        → get_elem? code p ≡ some 144
        → Step code (at p (a ∷ b ∷ s) w) (at (p + 1) (b ∷ a ∷ s) w)
    pop :
        {p : ℕ} {s : List ℕ} {w : W} {a : ℕ}
        → get_elem? code p ≡ some 80
        → Step code (at p (a ∷ s) w) (at (p + 1) s w)
    other : {s t : State W} → Other code s t → Step code s t

  pub data Steps (code : List ℕ) : State W → State W → Type 0 where
    done : {s : State W} → Steps code s s
    then : {s t u : State W} → Step code s t → Steps code t u → Steps code s u
