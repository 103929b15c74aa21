-- ===== src/BaseTypes/Account/Examples.antt =====
-- Tests of the class Account in src/ethereum_test_base_types/composite_types.py.
use execution_spec_tests.Base.{ℕ, ◌≡◌, refl, ◌↔◌, true, false, none, some, [], ◌∷◌, passed, raised}
use execution_spec_tests.BaseTypes.Storage.{is_true as storage_is_true, storage_of, value}
use execution_spec_tests.BaseTypes.Account.{
  Account, nonce_mismatch, nothing, of_account, nonce, balance, code, storage, check_alloc, is_true,
  empty_account, with_code, to_kwargs, merge_kwargs, merge, later,
}
use execution_spec_tests.BaseTypes.Account.Outcome.{Matches, SetTo, check_alloc_iff, merge_check}

-- A contract with a nonce, a code and a storage, and an expectation of a nonce alone.
abbrev contract : Account
contract = record {
  nonce_set = some 1;
  balance_set = none;
  code_set = some (96 ∷ 0 ∷ []);
  storage_set = some (storage_of ((1, 5) ∷ []));
}

abbrev nonce_two : Account
nonce_two = record { nonce_set = some 2; balance_set = none; code_set = none; storage_set = none }

wrong_nonce : check_alloc nonce_two 7 contract ≡ raised (nonce_mismatch 7 2 1)
unfolding check_alloc
wrong_nonce = refl

nothing_set : check_alloc empty_account 7 contract ≡ passed
unfolding check_alloc empty_account
nothing_set = refl

merged_nonce : nonce (merge (of_account contract) (of_account nonce_two)) ≡ 2
unfolding merge merge_kwargs to_kwargs
merged_nonce = refl

coded : is_true (with_code (0 ∷ [])) ≡ true
unfolding is_true with_code
coded = refl

empty_is_false : is_true (merge nothing nothing) ≡ false
unfolding is_true merge merge_kwargs to_kwargs empty_account storage_of storage_is_true
empty_is_false = refl

check_alloc_iff_example : (check_alloc nonce_two 7 contract ≡ passed) ↔ Matches nonce_two contract
check_alloc_iff_example = check_alloc_iff nonce_two 7 contract

merge_check_example :
    (check_alloc (merge (of_account contract) (of_account nonce_two)) 7 contract ≡ passed) ↔ (
      SetTo (later nonce_two.nonce_set contract.nonce_set) (λ n. n ≡ nonce contract)
      × SetTo (later nonce_two.balance_set contract.balance_set) (λ n. n ≡ balance contract)
      × SetTo (later nonce_two.code_set contract.code_set) (λ c. c ≡ code contract)
      × SetTo
          (later nonce_two.storage_set contract.storage_set)
          (λ s. (k : ℕ) → value s k ≡ value (storage contract) k))
merge_check_example = merge_check contract nonce_two 7 contract
