-- ===== src/Types/AccessList/Modifiers/Swap.antt =====
-- Proofs on `swap_tx_indices` of src/ethereum_test_types/block_access_list/modifiers.py.
use mathlib.Core.List.{map-append}
use execution_spec_tests.Base.{
  ℕ, ◌≡◌, refl, ap, ap₂, List, [], ◌∷◌, ◌++◌, map, ◌==◌, if◌then◌else◌, arith,
}
use execution_spec_tests.Types.AccessList.{Change, StorageSlot, BlockAccessList, indices}
use execution_spec_tests.Types.AccessList.Modifiers.{
  swap_index, swap_changes, swap_slots, swap_tx_indices,
}

index_twice : (a b i : ℕ) → swap_index a b (swap_index a b i) ≡ i
index_twice a b i = ground arith

changes_twice :
    {A : Type 0} (a b : ℕ) (cs : List (Change A)) → swap_changes a b (swap_changes a b cs) ≡ cs
changes_twice a b [] = refl
changes_twice a b (c ∷ cs) =
    ap₂ (λ i rest. record c { tx_index = i } ∷ rest) (index_twice a b c.tx_index)
      (changes_twice a b cs)

slots_twice : (a b : ℕ) (ss : List StorageSlot) → swap_slots a b (swap_slots a b ss) ≡ ss
slots_twice a b [] = refl
slots_twice a b (s ∷ ss) =
    ap₂ (λ cs rest. record s { slot_changes = cs } ∷ rest) (changes_twice a b s.slot_changes)
      (slots_twice a b ss)

-- All transaction indices of a block access list, in its order.
slot_indices : List StorageSlot → List ℕ
slot_indices [] = []
slot_indices (s ∷ ss) = indices s.slot_changes ++ slot_indices ss

pub all_indices : BlockAccessList → List ℕ
all_indices [] = []
all_indices (a ∷ bal) =
    indices a.nonce_changes
    ++ indices a.balance_changes
    ++ indices a.code_changes
    ++ slot_indices a.storage_changes
    ++ all_indices bal

indices-swap_changes :
    {A : Type 0} (a b : ℕ) (cs : List (Change A))
    → indices (swap_changes a b cs) ≡ map (swap_index a b) (indices cs)
indices-swap_changes a b [] = refl
indices-swap_changes a b (c ∷ cs) =
    ap (λ l. swap_index a b c.tx_index ∷ l) (indices-swap_changes a b cs)

slot_indices-swap_slots :
    (a b : ℕ) (ss : List StorageSlot)
    → slot_indices (swap_slots a b ss) ≡ map (swap_index a b) (slot_indices ss)
unfolding slot_indices
slot_indices-swap_slots a b [] = refl
slot_indices-swap_slots a b (s ∷ ss) =
    simp (indices-swap_changes a b s.slot_changes, slot_indices-swap_slots a b ss, map-append)

all_indices-swap :
    (tx1 tx2 : ℕ) (bal : BlockAccessList)
    → all_indices (swap_tx_indices tx1 tx2 bal) ≡ map (swap_index tx1 tx2) (all_indices bal)
unfolding swap_tx_indices all_indices
all_indices-swap tx1 tx2 [] = refl
all_indices-swap tx1 tx2 (a ∷ bal) = simp (
  indices-swap_changes tx1 tx2 a.nonce_changes,
  indices-swap_changes tx1 tx2 a.balance_changes,
  indices-swap_changes tx1 tx2 a.code_changes,
  slot_indices-swap_slots tx1 tx2 a.storage_changes,
  all_indices-swap tx1 tx2 bal,
  map-append,
)

tx_twice :
    (tx1 tx2 : ℕ) (bal : BlockAccessList)
    → swap_tx_indices tx1 tx2 (swap_tx_indices tx1 tx2 bal) ≡ bal
unfolding swap_tx_indices
tx_twice tx1 tx2 [] = refl
tx_twice tx1 tx2 (a ∷ bal) =
    rw
      (
        changes_twice tx1 tx2 a.nonce_changes,
        changes_twice tx1 tx2 a.balance_changes,
        changes_twice tx1 tx2 a.code_changes,
        slots_twice tx1 tx2 a.storage_changes,
        tx_twice tx1 tx2 bal,
      )
      refl

-- Swapping two transaction indices throughout a block access list twice gives the list back. Swapping
-- them once swaps them at every nonce, balance, code and storage change, in place.
pub swap_twice :
    (tx1 tx2 : ℕ) (bal : BlockAccessList)
    → (swap_tx_indices tx1 tx2 (swap_tx_indices tx1 tx2 bal) ≡ bal)
      × (all_indices (swap_tx_indices tx1 tx2 bal)
          ≡ map (λ i. if i == tx1 then tx2 else (if i == tx2 then tx1 else i)) (all_indices bal))
swap_twice tx1 tx2 bal = (tx_twice tx1 tx2 bal, all_indices-swap tx1 tx2 bal)
