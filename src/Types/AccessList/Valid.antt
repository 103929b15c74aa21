-- ===== src/Types/AccessList/Valid.antt =====
-- Proofs on the check of the order of a block access list in
-- src/ethereum_test_types/block_access_list/expectations.py.
use execution_spec_tests.Base.{
  ◌≡◌, ◌↔◌, List, [], ◌∷◌, All, Check, passed, ◌and_then◌, check_each, and_then-passed,
  check_each-passed,
}
use execution_spec_tests.Types.AccessList.{
  StorageSlot, AccountChange, BlockAccessList, BalError, nonces, balances, codes, storage,
  addresses_unordered, slots_unordered, reads_unordered, check_indices, indices, slots, addresses,
  check_account, validate_bal_ordering,
}
use execution_spec_tests.Types.AccessList.Order.{
  IsAscending, IsOrderedAccount, IsOrdered, check_ascending_iff, check_indices_iff,
}

pub pointwise_iff :
    {A : Type 0} (P Q : A → Type 0) (xs : List A) → ((x : A) → P x ↔ Q x) → All P xs ↔ All Q xs
pointwise_iff P Q [] f = ((λ h. h), λ h. h)
pointwise_iff P Q (x ∷ xs) f =
    let rest = pointwise_iff P Q xs f in
    ((λ (p, h). ((f x).0 p, rest.0 h)), λ (p, h). ((f x).1 p, rest.1 h))

pub two_checks :
    (c d : Check BalError) (P Q : Type 0)
    → (c ≡ passed) ↔ P
    → (d ≡ passed) ↔ Q
    → ((c and_then d) ≡ passed) ↔ (P × Q)
two_checks c d P Q f g =
    let split = and_then-passed c d in
    ((λ h. let (p, q) = split.0 h in (f.0 p, g.0 q)), λ (p, q). split.1 (f.1 p, g.1 q))

slots_iff :
    (ss : List StorageSlot)
    → (check_each (λ s. check_indices storage (indices s.slot_changes)) ss ≡ passed)
      ↔ All (λ s. IsAscending (indices s.slot_changes)) ss
slots_iff ss =
    let each = check_each-passed (λ s. check_indices storage (indices s.slot_changes)) ss in
    let same =
      pointwise_iff (λ s. check_indices storage (indices s.slot_changes) ≡ passed)
        (λ s. IsAscending (indices s.slot_changes)) ss
        (λ s. check_indices_iff storage (indices s.slot_changes)) in
    ((λ h. same.0 (each.0 h)), λ h. each.1 (same.1 h))

check_account_iff : (a : AccountChange) → (check_account a ≡ passed) ↔ IsOrderedAccount a
unfolding check_account
check_account_iff a =
    let nested = two_checks _ _ _ _ (check_indices_iff nonces (indices a.nonce_changes)) (
      two_checks _ _ _ _ (check_indices_iff balances (indices a.balance_changes)) (
        two_checks _ _ _ _ (check_indices_iff codes (indices a.code_changes)) (
          two_checks _ _ _ _ (check_ascending_iff slots_unordered (slots a.storage_changes)) (
            two_checks _ _ _ _ (slots_iff a.storage_changes)
              (check_ascending_iff reads_unordered a.storage_reads))))) in
    (
      λ h. let (n, (b, (c, (t, (m, r))))) = nested.0 h in (n, b, c, t, m, r),
      λ (n, b, c, t, m, r). nested.1 (n, (b, (c, (t, (m, r))))),
    )

-- A block access list passes the check of its order exactly when its addresses are strictly
-- ascending, and in each account the transaction indices of every field and of every slot, the
-- slots and the slots that are read are.
pub validate_bal_ordering_iff :
    (bal : BlockAccessList) → (validate_bal_ordering bal ≡ passed) ↔ IsOrdered bal
unfolding validate_bal_ordering
validate_bal_ordering_iff bal =
    let each = check_each-passed check_account bal in
    let same =
      pointwise_iff (λ a. check_account a ≡ passed) IsOrderedAccount bal check_account_iff in
    two_checks _ _ _ _ (check_ascending_iff addresses_unordered (addresses bal))
      ((λ h. same.0 (each.0 h)), λ h. each.1 (same.1 h))
