-- ===== src/Types/AccessList/Expectation/Meets.antt =====
-- What an account of a block access list must be to meet an expectation of
-- src/ethereum_test_types/block_access_list/expectations.py.
use execution_spec_tests.Base.{
  ◌≡◌, refl, ◌↔◌, Bool, true, false, Option, none, some, List, [], ◌∷◌, ◌==◌, if◌then◌else◌, All,
  same_bytes, Check, passed, raised, check_each, check_each-passed,
}
use execution_spec_tests.Types.AccessList.{
  AccountChange, Field, BalError, nonces, balances, codes, storage, reads, forbidden, not_found,
}
use execution_spec_tests.Types.AccessList.Order.{IsOrderedAccount}
use execution_spec_tests.Types.AccessList.Valid.{pointwise_iff, two_checks}
use execution_spec_tests.Types.AccessList.Expectation.{
  AbsentValues, Expectation, equal, same_change, validate_forbidden, validate_against,
  slots_subsequence, compare_field, check_absent, compare_account,
}
use execution_spec_tests.Types.AccessList.Expectation.Subsequence.{Sub, Same, subsequence_iff}
use execution_spec_tests.Types.AccessList.Expectation.Slots.{MeetsSlot, slots_subsequence_iff}

-- No actual item is a forbidden one.
abbrev pub AreApart : {A : Type 0} → (A → A → Bool) → (actual forbidden : List A) → Type 0
AreApart same actual unwanted = All (λ a. All (λ f. same a f ≡ false) unwanted) actual

abbrev pub Lacks : AbsentValues → AccountChange → Type 0
Lacks absent a =
    AreApart (same_change equal) a.nonce_changes absent.nonce_changes
    × AreApart (same_change equal) a.balance_changes absent.balance_changes
    × AreApart (same_change same_bytes) a.code_changes absent.code_changes
    × All
        (λ f.
          All
            (λ s.
              if s.slot == f.slot
              then AreApart (same_change equal) s.slot_changes f.slot_changes
              else Unit)
            a.storage_changes)
        absent.storage_changes
    × All (λ f. All (λ r. (r == f) ≡ false) a.storage_reads) absent.storage_reads

abbrev pub LacksAny : Option (Option AbsentValues) → AccountChange → Type 0
LacksAny none a = Unit
LacksAny (some none) a = Unit
LacksAny (some (some absent)) a = Lacks absent a

-- A field that is not set meets anything, an empty one only nothing, and others by a relation.
abbrev pub MeetsField :
    {A : Type 0} → (List A → List A → Type 0) → Option (List A) → List A → Type 0
MeetsField R none ys = Unit
MeetsField R (some []) ys = ys ≡ []
MeetsField R (some (x ∷ xs)) ys = R (x ∷ xs) ys

abbrev pub Meets : Expectation → AccountChange → Type 0
Meets e a =
    LacksAny e.absent_values a
    × MeetsField (Sub (Same (same_change equal))) e.nonce_changes a.nonce_changes
    × MeetsField (Sub (Same (same_change equal))) e.balance_changes a.balance_changes
    × MeetsField (Sub (Same (same_change same_bytes))) e.code_changes a.code_changes
    × MeetsField (Sub MeetsSlot) e.storage_changes a.storage_changes
    × MeetsField (Sub (Same equal)) e.storage_reads a.storage_reads

pub refused_iff :
    (t : Bool) (e : BalError) → ((if t then raised e else passed) ≡ passed) ↔ (t ≡ false)
refused_iff true e = ((λ h. cc), λ h. cc)
refused_iff false e = ((λ _. refl), λ _. refl)

pub each_iff :
    {A : Type 0} (f : A → Check BalError) (P : A → Type 0) (xs : List A)
    → ((x : A) → (f x ≡ passed) ↔ P x)
    → (check_each f xs ≡ passed) ↔ All P xs
each_iff f P xs g =
    let each = check_each-passed f xs in
    let same = pointwise_iff (λ x. f x ≡ passed) P xs g in
    ((λ h. same.0 (each.0 h)), λ h. each.1 (same.1 h))

forbidden_iff :
    {A : Type 0} (field : Field) (same : A → A → Bool) (actual unwanted : List A)
    → (validate_forbidden field same actual unwanted ≡ passed) ↔ AreApart same actual unwanted
unfolding validate_forbidden
forbidden_iff field same actual unwanted =
    each_iff _ (λ a. All (λ f. same a f ≡ false) unwanted) actual
      (λ a.
        each_iff _ (λ f. same a f ≡ false) unwanted (λ f. refused_iff (same a f) (forbidden field)))

when_iff :
    (t : Bool) (c : Check BalError) (P : Type 0)
    → (c ≡ passed) ↔ P
    → ((if t then c else passed) ≡ passed) ↔ (if t then P else Unit)
when_iff true c P f = f
when_iff false c P f = ((λ _. tt), λ _. refl)

validate_against_iff :
    (absent : AbsentValues) (a : AccountChange)
    → (validate_against absent a ≡ passed) ↔ Lacks absent a
unfolding validate_against
validate_against_iff absent a =
    let nested =
      two_checks _ _ _ _
        (forbidden_iff nonces (same_change equal) a.nonce_changes absent.nonce_changes)
        (two_checks _ _ _ _
          (forbidden_iff balances (same_change equal) a.balance_changes absent.balance_changes)
          (two_checks _ _ _ _
            (forbidden_iff codes (same_change same_bytes) a.code_changes absent.code_changes)
            (two_checks _ _ _ _
              (each_iff _ _ absent.storage_changes (λ f. each_iff _ _ a.storage_changes (λ s.
                when_iff (s.slot == f.slot) _ _
                  (forbidden_iff storage (same_change equal) s.slot_changes f.slot_changes))))
              (each_iff _ _ absent.storage_reads (λ f.
                each_iff _ _ a.storage_reads (λ r. refused_iff (r == f) (forbidden reads))))))) in
    (
      λ h. let (n, (b, (c, (s, r)))) = nested.0 h in (n, b, c, s, r),
      λ (n, b, c, s, r). nested.1 (n, (b, (c, (s, r)))),
    )

check_absent_iff :
    (absent : Option (Option AbsentValues)) (a : AccountChange)
    → (check_absent absent a ≡ passed) ↔ LacksAny absent a
unfolding check_absent
check_absent_iff none a = ((λ _. tt), λ _. refl)
check_absent_iff (some none) a = ((λ _. tt), λ _. refl)
check_absent_iff (some (some absent)) a = validate_against_iff absent a

compare_field_iff :
    {A : Type 0} (field : Field) (compare : List A → List A → Check BalError)
    (R : List A → List A → Type 0) (expected : Option (List A)) (actual : List A)
    → ((xs : List A) → (compare xs actual ≡ passed) ↔ R xs actual)
    → (compare_field field compare expected actual ≡ passed) ↔ MeetsField R expected actual
unfolding compare_field
compare_field_iff field compare R none actual f = ((λ _. tt), λ _. refl)
compare_field_iff field compare R (some []) [] f = ((λ _. refl), λ _. refl)
compare_field_iff field compare R (some []) (y ∷ ys) f = ((λ h. cc), λ h. cc)
compare_field_iff field compare R (some (x ∷ xs)) actual f = f (x ∷ xs)

-- An account whose fields are in order passes the comparison with an expectation exactly when it has
-- no value that must be absent, and of each field that is set, it has nothing if nothing is expected
-- and else the expected items in their order among its own; an expected slot is met by a slot with
-- that key and with the expected changes in their order, if there are any.
pub compare_account_iff :
    (e : Expectation) (a : AccountChange)
    → IsOrderedAccount a
    → (compare_account e a ≡ passed) ↔ Meets e a
unfolding compare_account
compare_account_iff e a (_, _, _, ordered, _, _) =
    let nested = two_checks _ _ _ _ (check_absent_iff e.absent_values a) (
      two_checks _ _ _ _
        (compare_field_iff nonces _ (Sub (Same (same_change equal))) e.nonce_changes a.nonce_changes
          (λ xs. subsequence_iff (same_change equal) (not_found nonces) xs a.nonce_changes))
        (two_checks _ _ _ _
          (compare_field_iff balances _ (Sub (Same (same_change equal))) e.balance_changes
            a.balance_changes
            (λ xs. subsequence_iff (same_change equal) (not_found balances) xs a.balance_changes))
          (two_checks _ _ _ _
            (compare_field_iff codes _ (Sub (Same (same_change same_bytes))) e.code_changes
              a.code_changes
              (λ xs. subsequence_iff (same_change same_bytes) (not_found codes) xs a.code_changes))
            (two_checks _ _ _ _
              (compare_field_iff storage slots_subsequence (Sub MeetsSlot) e.storage_changes
                a.storage_changes (λ xs. slots_subsequence_iff xs a.storage_changes ordered))
              (compare_field_iff reads _ (Sub (Same equal)) e.storage_reads a.storage_reads
                (λ xs. subsequence_iff equal (not_found reads) xs a.storage_reads)))))) in
    (
      λ h. let (m, (n, (b, (c, (s, r))))) = nested.0 h in (m, n, b, c, s, r),
      λ (m, n, b, c, s, r). nested.1 (m, (n, (b, (c, (s, r))))),
    )
