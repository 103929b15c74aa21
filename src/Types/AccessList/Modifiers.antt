-- ===== src/Types/AccessList/Modifiers.antt =====
-- src/ethereum_test_types/block_access_list/modifiers.py: modifiers of block access lists. What a
-- modifier remembers from one call to the next is an argument here, and a result.
mod Swap
mod Changed
mod Examples
use execution_spec_tests.Base.{
  ℕ, zero, suc, ◌+◌, Bool, true, false, not, ◌||◌, Option, none, some, List, [], ◌∷◌, ◌++◌, length,
  leb, ◌==◌, if◌then◌else◌, get_elem?, Result, ok, err, guard, ◌>>=◌, ◌>>◌, value_error,
  index_error,
}
use execution_spec_tests.Types.AccessList.{
  Change, StorageSlot, AccountChange, BlockAccessList, Field, nonces, balances, codes, storage,
  reads, contains, set_size,
}

-- `compose`
unfoldable pub compose :
    List (BlockAccessList → Result BlockAccessList) → BlockAccessList → Result BlockAccessList
compose [] bal = ok bal
compose (modifier ∷ modifiers) bal = modifier bal >>= compose modifiers

abbrev pub clear_field : Field → AccountChange → AccountChange
clear_field nonces a = record a { nonce_changes = [] }
clear_field balances a = record a { balance_changes = [] }
clear_field codes a = record a { code_changes = [] }
clear_field storage a = record a { storage_changes = [] }
clear_field reads a = record a { storage_reads = [] }

unfoldable pub clear_fields : Field → List ℕ → BlockAccessList → BlockAccessList
clear_fields field addresses [] = []
clear_fields field addresses (a ∷ bal) =
    (if contains a.address addresses then clear_field field a else a)
    ∷ clear_fields field addresses bal

unfoldable pub find_addresses : List ℕ → List ℕ → BlockAccessList → List ℕ
find_addresses addresses found [] = found
find_addresses addresses found (a ∷ bal) =
    find_addresses addresses (if contains a.address addresses then a.address ∷ found else found) bal

-- `_remove_field_from_accounts`, with the addresses found in earlier calls.
unfoldable pub remove_field :
    Field → (addresses found : List ℕ) → BlockAccessList → List ℕ × Result BlockAccessList
remove_field field addresses found bal =
    let found = find_addresses addresses found bal in
    (
      found,
      guard (set_size found == length addresses) value_error
          >> ok (clear_fields field addresses bal),
    )

-- The loop that stops at the first change of the transaction.
unfoldable pub set_change : {A : Type 0} → ℕ → A → List (Change A) → List (Change A)
set_change tx value [] = []
set_change tx value (c ∷ cs) =
    if c.tx_index == tx
    then record { tx_index = tx; post_value = value } ∷ cs
    else c ∷ set_change tx value cs

unfoldable pub set_slot : ℕ → ℕ → ℕ → List StorageSlot → List StorageSlot
set_slot tx slot value [] = []
set_slot tx slot value (s ∷ ss) =
    if s.slot == slot
    then record s { slot_changes = set_change tx value s.slot_changes } ∷ ss
    else s ∷ set_slot tx slot value ss

-- `BalCodeChange` has no field `post_code`, so the change that is found cannot be replaced.
unfoldable pub set_code : ℕ → List (Change (List ℕ)) → Result (List (Change (List ℕ)))
set_code tx [] = ok []
set_code tx (c ∷ cs) =
    let rest = set_code tx cs in
    if c.tx_index == tx then err value_error else rest >>= λ cs. ok (c ∷ cs)

abbrev pub has_address : ℕ → BlockAccessList → Bool
has_address address [] = false
has_address address (a ∷ bal) = a.address == address || has_address address bal

-- The loop over the accounts, for what is done with those at the address.
unfoldable pub change_account :
    (AccountChange → Result AccountChange) → ℕ → BlockAccessList → Result BlockAccessList
change_account change address [] = ok []
change_account change address (a ∷ bal) = (if a.address == address then change a else ok a) >>= λ b.
    change_account change address bal >>= λ rest. ok (b ∷ rest)

-- `_modify_field_value`, with whether the address was found in an earlier call.
unfoldable pub modify_field :
    (AccountChange → Result AccountChange) → ℕ → Bool → BlockAccessList → Result BlockAccessList
modify_field change address found bal = change_account change address bal >>= λ new_root.
    guard (found || has_address address bal) value_error >> ok new_root

unfoldable pub modify_nonce : ℕ → ℕ → ℕ → Bool → BlockAccessList → Result BlockAccessList
modify_nonce address tx nonce =
    modify_field (λ a. ok (record a { nonce_changes = set_change tx nonce a.nonce_changes }))
      address

unfoldable pub modify_balance : ℕ → ℕ → ℕ → Bool → BlockAccessList → Result BlockAccessList
modify_balance address tx balance =
    modify_field (λ a. ok (record a { balance_changes = set_change tx balance a.balance_changes }))
      address

unfoldable pub modify_storage : ℕ → ℕ → ℕ → ℕ → Bool → BlockAccessList → Result BlockAccessList
modify_storage address tx slot value =
    modify_field (λ a. ok (record a { storage_changes = set_slot tx slot value a.storage_changes }))
      address

unfoldable pub modify_code : ℕ → ℕ → List ℕ → Bool → BlockAccessList → Result BlockAccessList
modify_code address tx code =
    modify_field (λ a. set_code tx a.code_changes >>= λ cs. ok (record a { code_changes = cs }))
      address

abbrev pub swap_index : ℕ → ℕ → ℕ → ℕ
swap_index tx1 tx2 i = if i == tx1 then tx2 else (if i == tx2 then tx1 else i)

abbrev pub swap_changes : {A : Type 0} → ℕ → ℕ → List (Change A) → List (Change A)
swap_changes tx1 tx2 [] = []
swap_changes tx1 tx2 (c ∷ cs) =
    record c { tx_index = swap_index tx1 tx2 c.tx_index } ∷ swap_changes tx1 tx2 cs

abbrev pub swap_slots : ℕ → ℕ → List StorageSlot → List StorageSlot
swap_slots tx1 tx2 [] = []
swap_slots tx1 tx2 (s ∷ ss) =
    record s { slot_changes = swap_changes tx1 tx2 s.slot_changes } ∷ swap_slots tx1 tx2 ss

-- `swap_tx_indices`
unfoldable pub swap_tx_indices : ℕ → ℕ → BlockAccessList → BlockAccessList
swap_tx_indices tx1 tx2 [] = []
swap_tx_indices tx1 tx2 (a ∷ bal) =
    record a {
      nonce_changes = swap_changes tx1 tx2 a.nonce_changes;
      balance_changes = swap_changes tx1 tx2 a.balance_changes;
      storage_changes = swap_slots tx1 tx2 a.storage_changes;
      code_changes = swap_changes tx1 tx2 a.code_changes;
    }
    ∷ swap_tx_indices tx1 tx2 bal

unfoldable pub keep_accounts : Bool → List ℕ → BlockAccessList → BlockAccessList
keep_accounts kept addresses [] = []
keep_accounts kept addresses (a ∷ bal) =
    let rest = keep_accounts kept addresses bal in
    if contains a.address addresses
    then (if kept then a ∷ rest else rest)
    else (if kept then rest else a ∷ rest)

unfoldable pub remove_accounts : List ℕ → BlockAccessList → BlockAccessList
remove_accounts addresses bal = keep_accounts false addresses bal

unfoldable pub keep_only : List ℕ → BlockAccessList → Result BlockAccessList
keep_only addresses bal =
    let new_root = keep_accounts true addresses bal in
    guard (length new_root == length addresses) value_error >> ok new_root

unfoldable pub append_account : AccountChange → BlockAccessList → BlockAccessList
append_account account_change bal = bal ++ (account_change ∷ [])

unfoldable pub duplicate_all : ℕ → BlockAccessList → BlockAccessList
duplicate_all address [] = []
duplicate_all address (a ∷ bal) =
    let rest = duplicate_all address bal in if a.address == address then a ∷ a ∷ rest else a ∷ rest

-- `duplicate_account`, with whether the address was there in an earlier call.
unfoldable pub duplicate_account : ℕ → Bool → BlockAccessList → Result BlockAccessList
duplicate_account address address_present bal =
    guard (address_present || has_address address bal) value_error >> ok (duplicate_all address bal)

unfoldable pub reverse_accounts : BlockAccessList → BlockAccessList
reverse_accounts [] = []
reverse_accounts (a ∷ bal) = reverse_accounts bal ++ (a ∷ [])

-- `sorted` with the addresses as keys: accounts with one address keep their order.
unfoldable pub insert_account : AccountChange → BlockAccessList → BlockAccessList
insert_account a [] = a ∷ []
insert_account a (b ∷ bal) =
    if leb a.address b.address then a ∷ b ∷ bal else b ∷ insert_account a bal

unfoldable pub sort_accounts_by_address : BlockAccessList → BlockAccessList
sort_accounts_by_address [] = []
sort_accounts_by_address (a ∷ bal) = insert_account a (sort_accounts_by_address bal)

unfoldable pub pick : List ℕ → BlockAccessList → Result BlockAccessList
pick [] bal = ok []
pick (i ∷ indices) bal = elim (get_elem? bal i) [
  | none ↦ err index_error
  | some a ↦ pick indices bal >>= λ rest. ok (a ∷ rest)
]

-- `reorder_accounts`, for indices that are not negative.
unfoldable pub reorder_accounts : List ℕ → BlockAccessList → Result BlockAccessList
reorder_accounts indices bal = guard (length indices == length bal) value_error >> pick indices bal
