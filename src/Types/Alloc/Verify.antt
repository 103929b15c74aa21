-- ===== src/Types/Alloc/Verify.antt =====
-- Proofs on `Alloc.verify_post_alloc` in src/ethereum_test_types/account_types.py.
use execution_spec_tests.Base.{
  ℕ, ◌≡◌, refl, sym, subst, ◌↔◌, ◌≢◌, Option, none, some, [], ◌∷◌, All, lookup, passed,
  check_each-passed, relabel-passed,
}
use execution_spec_tests.BaseTypes.Account.{Account, check_alloc}
use execution_spec_tests.BaseTypes.Account.Outcome.{Matches, check_alloc_iff}
use execution_spec_tests.Types.Alloc.{
  Alloc, account_failure, found, verify_absent, verify_present, verify_entry, verify_post_alloc,
}

-- What an expected entry says of the entry that is found under its address.
abbrev pub Meets : Option Account → Option (Option Account) → Type 0
Meets none found = (account : Account) → found ≢ some (some account)
Meets (some account) found = (got : Account) × (found ≡ some (some got)) × Matches account got

absent_lem :
    (address : ℕ) (entry : Option (Option Account))
    → (verify_absent address entry ≡ passed) ↔ Meets none entry
unfolding verify_absent
absent_lem address none = ((λ _ account q. cc), λ _. refl)
absent_lem address (some none) = ((λ _ account q. cc), λ _. refl)
absent_lem address (some (some got)) = ((λ h. cc), λ h. absurd (h got refl))

present_lem :
    (address : ℕ) (account : Account) (entry : Option (Option Account))
    → (verify_present address account entry ≡ passed) ↔ Meets (some account) entry
unfolding verify_present
present_lem address account none = ((λ h. cc), λ (got, q, _). cc)
present_lem address account (some none) = ((λ h. cc), λ (got, q, _). cc)
present_lem address account (some (some got)) =
    let outer = relabel-passed account_failure (check_alloc account address got) in
    let inner = check_alloc_iff account address got in
    (
      (λ h. (got, refl, inner.0 (outer.0 h))),
      λ (other, q, m). outer.1 (inner.1 (subst (λ a. Matches account a) (sym (same other q)) m)),
    )
  where
    same :
        (other : Account)
        → ◌≡◌ {A = Option (Option Account)} (some (some got)) (some (some other))
        → got ≡ other
    same other q = cc

entry_lem :
    (got : Alloc) (e : ℕ × Option Account)
    → (verify_entry got e ≡ passed) ↔ Meets e.1 (lookup got e.0)
unfolding verify_entry
entry_lem got (address, none) = absent_lem address (lookup got address)
entry_lem got (address, some account) = present_lem address account (lookup got address)

-- `self.verify_post_alloc(got)` succeeds just when, for every entry of self, the other allocation
-- has no account under the address of an entry without account, and has an account that agrees
-- with all the fields that are set where the entry has one.
pub verify_post_alloc_iff :
    (self got : Alloc)
    → (verify_post_alloc self got ≡ passed) ↔ All (λ e. Meets e.1 (lookup got e.0)) self
unfolding verify_post_alloc
verify_post_alloc_iff self got =
    let loop = check_each-passed (verify_entry got) self in
    ((λ h. down self (loop.0 h)), λ h. loop.1 (up self h))
  where
    down :
        (es : Alloc)
        → All (λ e. verify_entry got e ≡ passed) es
        → All (λ e. Meets e.1 (lookup got e.0)) es
    down [] h = tt
    down (e ∷ es) (p, h) = ((entry_lem got e).0 p, down es h)

    up :
        (es : Alloc)
        → All (λ e. Meets e.1 (lookup got e.0)) es
        → All (λ e. verify_entry got e ≡ passed) es
    up [] h = tt
    up (e ∷ es) (p, h) = ((entry_lem got e).1 p, up es h)
