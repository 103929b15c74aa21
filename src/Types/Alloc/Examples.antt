-- ===== src/Types/Alloc/Examples.antt =====
-- Tests of the class Alloc in src/ethereum_test_types/account_types.py.
use execution_spec_tests.Base.{ℕ, ◌≡◌, refl, ◌↔◌, none, some, [], ◌∷◌, All, lookup, passed, raised}
use execution_spec_tests.BaseTypes.Account.{is_true, with_code}
use execution_spec_tests.Types.Alloc.{
  Alloc, AllocFailure, missing_account, unexpected_account, overlapping_keys, verify_absent,
  verify_present, verify_entry, verify_post_alloc, error, overwrite, check_collisions, failed,
  merged_alloc, merge, empty_accounts,
}
use execution_spec_tests.Types.Alloc.Verify.{Meets, verify_post_alloc_iff}
use execution_spec_tests.Types.Alloc.Merge.{Permits, dump_entry, merged_entry, merge_lem}

abbrev coded : Alloc
coded = (16, some (with_code (0 ∷ []))) ∷ []

-- The account of `coded` is expected to be absent, and one more with a code.
abbrev expected : Alloc
expected = (16, none) ∷ (17, some (with_code (1 ∷ []))) ∷ []

unexpected : verify_post_alloc expected coded ≡ raised (unexpected_account 16 (with_code (0 ∷ [])))
unfolding verify_post_alloc verify_entry verify_absent verify_present
unexpected = refl

absent : verify_post_alloc expected [] ≡ raised (missing_account 17)
unfolding verify_post_alloc verify_entry verify_absent verify_present
absent = refl

refused : merge coded expected error ≡ failed overlapping_keys
unfolding merge check_collisions
refused = refl

none_is_empty : empty_accounts expected ≡ 16 ∷ []
unfolding empty_accounts with_code is_true
none_is_empty = refl

verify_post_alloc_iff_example :
    (verify_post_alloc expected coded ≡ passed) ↔ All (λ e. Meets e.1 (lookup coded e.0)) expected
verify_post_alloc_iff_example = verify_post_alloc_iff expected coded

merge_lem_example :
    (Permits overwrite coded expected
      → (r : Alloc) × (merge coded expected overwrite ≡ merged_alloc r)
        × ((k : ℕ) → lookup r k ≡ merged_entry (dump_entry (lookup coded k)) (lookup expected k)))
    × ((Permits overwrite coded expected → ⊥)
        → (e : AllocFailure) × (merge coded expected overwrite ≡ failed e))
merge_lem_example = merge_lem overwrite coded expected (refl, (refl, tt))
