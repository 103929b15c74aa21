-- ===== src/Types/AccessList.antt =====
-- src/ethereum_test_types/block_access_list/: block access lists, and the check of their order.
-- Addresses and storage keys have a fixed length, so they are compared rest numbers.
pub mod Expectation
pub mod Order
pub mod Valid
pub mod Modifiers
mod Examples
use execution_spec_tests.Base.{
  ℕ, zero, suc, ◌+◌, Bool, true, false, List, [], ◌∷◌, map, length, leb, ◌==◌, ◌||◌, if◌then◌else◌,
  same_bytes, Check, passed, raised, ◌and_then◌, check_each,
}

-- The classes of a change at a transaction: of a nonce, a balance, a code and a slot.
pub record Change (A : Type 0) : Type 0 where
  pub tx_index : ℕ
  pub post_value : A

pub record StorageSlot : Type 0 where
  pub slot : ℕ
  pub slot_changes : List (Change ℕ)

pub record AccountChange : Type 0 where
  pub address : ℕ
  pub nonce_changes : List (Change ℕ)
  pub balance_changes : List (Change ℕ)
  pub code_changes : List (Change (List ℕ))
  pub storage_changes : List StorageSlot
  pub storage_reads : List ℕ

abbrev pub BlockAccessList : Type 0
BlockAccessList = List AccountChange

pub data Field : Type 0 where
  nonces balances codes storage reads : Field

-- The messages of BlockAccessListValidationError, with the address or the field they are about.
pub data BalError : Type 0 where
  addresses_unordered should_not_be_there ambiguous not_in_bal account_changed : BalError
  indices_unordered duplicate_indices : Field → BalError
  slots_unordered reads_unordered : BalError
  forbidden should_be_empty not_found change_not_found : Field → BalError

-- A loop over the neighbours of a list of keys.
unfoldable pub check_ascending : BalError → List ℕ → Check BalError
check_ascending e [] = passed
check_ascending e (a ∷ []) = passed
check_ascending e (a ∷ b ∷ keys) = if leb b a then raised e else check_ascending e (b ∷ keys)

-- Python's `sorted` on integers.
unfoldable pub insert : ℕ → List ℕ → List ℕ
insert a [] = a ∷ []
insert a (b ∷ bs) = if leb a b then a ∷ b ∷ bs else b ∷ insert a bs

unfoldable pub sorted : List ℕ → List ℕ
sorted [] = []
sorted (a ∷ rest) = insert a (sorted rest)

-- Python's `len(set(indices))`.
abbrev pub contains : ℕ → List ℕ → Bool
contains a [] = false
contains a (b ∷ bs) = a == b || contains a bs

unfoldable pub set_size : List ℕ → ℕ
set_size [] = 0
set_size (a ∷ rest) = if contains a rest then set_size rest else suc (set_size rest)

unfoldable pub check_indices : Field → List ℕ → Check BalError
check_indices field [] = passed
check_indices field (i ∷ more) =
    (if same_bytes (i ∷ more) (sorted (i ∷ more)) then passed else raised (indices_unordered field))
    and_then (if length (i ∷ more) == set_size (i ∷ more)
        then passed
        else raised (duplicate_indices field))

abbrev pub indices : {A : Type 0} → List (Change A) → List ℕ
indices [] = []
indices (c ∷ cs) = c.tx_index ∷ indices cs

abbrev pub slots : List StorageSlot → List ℕ
slots [] = []
slots (s ∷ ss) = s.slot ∷ slots ss

abbrev pub addresses : BlockAccessList → List ℕ
addresses [] = []
addresses (a ∷ rest) = a.address ∷ addresses rest

-- The body of the loop over the accounts.
unfoldable pub check_account : AccountChange → Check BalError
check_account a =
    check_indices nonces (indices a.nonce_changes)
    and_then (check_indices balances (indices a.balance_changes)
        and_then (check_indices codes (indices a.code_changes)
            and_then (check_ascending slots_unordered (slots a.storage_changes)
                and_then (check_each (λ s. check_indices storage (indices s.slot_changes))
                      a.storage_changes
                    and_then check_ascending reads_unordered a.storage_reads))))

-- `BlockAccessListExpectation._validate_bal_ordering`
unfoldable pub validate_bal_ordering : BlockAccessList → Check BalError
validate_bal_ordering bal =
    check_ascending addresses_unordered (addresses bal) and_then check_each check_account bal
