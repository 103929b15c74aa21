-- ===== src/BaseTypes/Account.antt =====
-- The class Account of src/ethereum_test_base_types/composite_types.py. A field that a test leaves
-- out of an account is not in `model_fields_set`: it is `none` here, and reads as its default.
pub mod Outcome
mod Examples
use execution_spec_tests.Base.{
  same_bytes, ℕ, Bool, true, false, not, ◌||◌, Option, none, some, List, [], ◌∷◌, ◌==◌,
  if◌then◌else◌, Check, passed, raised, ◌and_then◌, relabel,
}
use execution_spec_tests.BaseTypes.Storage.{
  Storage, storage_of, StorageFailure, must_be_equal, is_true as storage_is_true,
}

pub record Account : Type 0 where
  pub nonce_set : Option ℕ
  pub balance_set : Option ℕ
  pub code_set : Option (List ℕ)
  pub storage_set : Option Storage

pub data AccountFailure : Type 0 where
  nonce_mismatch : (address want got : ℕ) → AccountFailure
  balance_mismatch : (address want got : ℕ) → AccountFailure
  code_mismatch : (address : ℕ) (want got : List ℕ) → AccountFailure
  storage_failure : StorageFailure → AccountFailure

-- An account with no field set.
unfoldable pub empty_account : Account
empty_account = record { nonce_set = none; balance_set = none; code_set = none; storage_set = none }

-- The fields with their defaults.
abbrev pub field_or {ℓ} : {A : Type ℓ} → A → Option A → A
field_or d none = d
field_or d (some v) = v

abbrev pub nonce : Account → ℕ
nonce a = field_or 0 a.nonce_set

abbrev pub balance : Account → ℕ
balance a = field_or 0 a.balance_set

abbrev pub code : Account → List ℕ
code a = field_or [] a.code_set

abbrev pub storage : Account → Storage
storage a = field_or (storage_of []) a.storage_set

-- The test of one field: nothing where it is not set.
abbrev pub check_field {ℓ} :
    {A : Type ℓ} → (A → Check AccountFailure) → Option A → Check AccountFailure
check_field test none = passed
check_field test (some v) = test v

unfoldable pub check_alloc : Account → ℕ → Account → Check AccountFailure
check_alloc self address account =
    check_field
      (λ n.
        if n == nonce account then passed else raised (nonce_mismatch address n (nonce account)))
      self.nonce_set
    and_then check_field
        (λ b.
          if b == balance account
          then passed
          else raised (balance_mismatch address b (balance account)))
        self.balance_set
    and_then check_field
        (λ c.
          if same_bytes c (code account)
          then passed
          else raised (code_mismatch address c (code account)))
        self.code_set
    and_then check_field
        (λ s. relabel storage_failure (must_be_equal s address (some (storage account))))
        self.storage_set

-- `__bool__`
unfoldable pub is_true : Account → Bool
is_true a =
    not (nonce a == 0)
    || not (balance a == 0)
    || not (same_bytes (code a) [])
    || storage_is_true (storage a)

unfoldable pub with_code : List ℕ → Account
with_code c = record {
  nonce_set = some 1;
  balance_set = none;
  code_set = some c;
  storage_set = none;
}

abbrev pub later {ℓ} : {A : Type ℓ} → Option A → Option A → Option A
later none first = first
later (some v) first = some v

-- A dumped storage keeps its entries alone.
abbrev pub dump_storage : Option Storage → Option Storage
dump_storage none = none
dump_storage (some s) = some (storage_of s.root)

-- What `merge` takes: nothing, a dict of keyword arguments (an account record that lists them), or
-- an account.
pub data Source : Type 0 where
  nothing : Source
  of_dict : Account → Source
  of_account : Account → Source

-- `to_kwargs_dict`: an account is dumped without its unset fields.
unfoldable pub to_kwargs : Source → Account
to_kwargs nothing = empty_account
to_kwargs (of_dict d) = d
to_kwargs (of_account a) = record a { storage_set = dump_storage a.storage_set }

unfoldable pub merge_kwargs : Account → Account → Account
merge_kwargs a b = record {
  nonce_set = later b.nonce_set a.nonce_set;
  balance_set = later b.balance_set a.balance_set;
  code_set = later b.code_set a.code_set;
  storage_set = later b.storage_set a.storage_set;
}

unfoldable pub merge : Source → Source → Account
merge a b = merge_kwargs (to_kwargs a) (to_kwargs b)
