-- ===== src/BaseTypes/Storage.antt =====
-- The class Storage of src/ethereum_test_base_types/composite_types.py.
pub mod Compare
mod Slots
mod Examples
use execution_spec_tests.Base.{
  ℕ, ◌+◌, Bool, true, false, not, ◌&&◌, ◌||◌, Option, none, some, List, [], ◌∷◌, ◌++◌, String,
  Result, err, ok, ◌==◌, if◌then◌else◌, Dict, lookup, has, store, update, keys, Check, passed,
  raised, ◌and_then◌, check_each,
}
use execution_spec_tests.Base.Int.{ℤ, pos, ◌+ℤ◌}
use execution_spec_tests.BaseTypes.Number.{hash_int}

pub record Storage : Type 0 where
  pub root : Dict ℕ
  pub current_slot : ℤ
  pub hint_map : Dict String
  pub any_map : Dict Bool

-- The errors that a comparison raises: of a key, and of an address, key, wanted and found value.
pub data StorageFailure : Type 0 where
  missing_key : ℕ → StorageFailure
  key_value_mismatch : (address key want got : ℕ) (hint : String) → StorageFailure

-- `Storage(root)`
unfoldable pub storage_of : Dict ℕ → Storage
storage_of d = record { root = d; current_slot = pos 0; hint_map = []; any_map = [] }

-- The value that the virtual machine reads: a missing key holds zero.
abbrev pub value_or_zero : Option ℕ → ℕ
value_or_zero none = 0
value_or_zero (some v) = v

abbrev pub value : Storage → ℕ → ℕ
value s k = value_or_zero (lookup s.root k)

abbrev pub hint_of : Storage → ℕ → String
hint_of s k = elim (lookup s.hint_map k) [ none ↦ "" | some h ↦ h ]

unfoldable pub set_item : ℕ → ℕ → Storage → Storage
set_item k v s = record s { root = store k v s.root }

-- `__bool__`
abbrev pub any_value : Dict ℕ → Bool
any_value [] = false
any_value ((k, v) ∷ d) = not (v == 0) || any_value d

unfoldable pub is_true : Storage → Bool
is_true s = any_value s.root

-- `__add__`
unfoldable pub add : Storage → Storage → Storage
add s o = storage_of (update s.root o.root)

unfoldable pub set_next_slot : ℤ → Storage → Storage
set_next_slot slot s = record s { current_slot = slot }

unfoldable pub set_expect_any : ℕ → Storage → Storage
set_expect_any k s = record s { any_map = store k true s.any_map }

-- The key counter has moved and the hint is noted, where there is one.
unfoldable pub move_slot : Option String → ℕ → Storage → Storage
move_slot hint slot s = record s {
  current_slot = s.current_slot +ℤ pos 1;
  hint_map = elim hint [ none ↦ s.hint_map | some h ↦ store slot h s.hint_map ];
}

-- `store_next` with the slot and the value converted. An exception leaves behind what was done
-- before it, so the storage is part of every outcome.
unfoldable pub store_at : Option String → Storage → Result ℕ → Result ℕ → Storage × Result ℕ
store_at hint s (err e) w = (s, err e)
store_at hint s (ok slot) (err e) = (move_slot hint slot s, err e)
store_at hint s (ok slot) (ok w) = (set_item slot w (move_slot hint slot s), ok slot)

-- The hint is `none` where it is empty.
unfoldable pub store_next : ℤ → Option String → Storage → Storage × Result ℕ
store_next v hint s = store_at hint s (hash_int s.current_slot) (hash_int v)

unfoldable pub contains_keys : Storage → Storage → List ℕ → Bool
contains_keys s o [] = true
contains_keys s o (k ∷ ks) = elim (lookup s.root k) [
  | none ↦ false
  | some v ↦ if v == value o k then contains_keys s o ks else false
]

unfoldable pub contains : Storage → Storage → Bool
contains s o = contains_keys s o (keys o.root)

unfoldable pub mismatch : Storage → (address key want got : ℕ) → Check StorageFailure
mismatch s a k want got = raised (key_value_mismatch a k want got (hint_of s k))

-- The body of the loop of `must_contain`.
unfoldable pub must_contain_key : Storage → ℕ → Storage → ℕ → Check StorageFailure
must_contain_key s a o k = elim (lookup s.root k) [
  | none ↦ if value o k == 0 then passed else raised (missing_key k)
  | some v ↦ if v == value o k then passed else mismatch s a k v (value o k)
]

unfoldable pub must_contain : Storage → ℕ → Storage → Check StorageFailure
must_contain s a o = check_each (must_contain_key s a o) (keys o.root)

abbrev pub keep_keys : (ℕ → Bool) → List ℕ → List ℕ
keep_keys p [] = []
keep_keys p (k ∷ ks) = if p k then k ∷ keep_keys p ks else keep_keys p ks

-- The keys of both, and the keys of one alone.
unfoldable pub common_keys : Storage → Storage → List ℕ
common_keys s o = keep_keys (has o.root) (keys s.root)

unfoldable pub other_keys : Storage → Storage → List ℕ
other_keys s o =
    keep_keys (λ k. not (has o.root k)) (keys s.root)
    ++ keep_keys (λ k. not (has s.root k)) (keys o.root)

unfoldable pub is_any : Storage → ℕ → Bool
is_any s k = elim (lookup s.any_map k) [ none ↦ false | some b ↦ b ]

unfoldable pub equal_common_key : Storage → ℕ → Storage → ℕ → Check StorageFailure
equal_common_key s a o k =
    if value s k == value o k then passed else mismatch s a k (value s k) (value o k)

unfoldable pub equal_other_key : Storage → ℕ → Storage → ℕ → Check StorageFailure
equal_other_key s a o k =
    if has s.root k
    then if value s k == 0 then passed else mismatch s a k (value s k) 0
    else if value o k == 0
    then passed
    else if is_any s k
    then passed
    else mismatch s a k 0 (value o k)

unfoldable pub must_equal_storage : Storage → ℕ → Storage → Check StorageFailure
must_equal_storage s a o =
    check_each (equal_common_key s a o) (common_keys s o)
    and_then check_each (equal_other_key s a o) (other_keys s o)

-- `must_be_equal`, where `none` is Python's None.
unfoldable pub must_be_equal : Storage → ℕ → Option Storage → Check StorageFailure
must_be_equal s a none = must_equal_storage s a (storage_of [])
must_be_equal s a (some o) = must_equal_storage s a o

abbrev pub canary_of : Dict ℕ → Dict ℕ
canary_of [] = []
canary_of ((k, v) ∷ d) = if v == 0 then (k, 47710) ∷ canary_of d else canary_of d

unfoldable pub canary : Storage → Storage
canary s = storage_of (canary_of s.root)
