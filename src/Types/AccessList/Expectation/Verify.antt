-- ===== src/Types/AccessList/Expectation/Verify.antt =====
-- Proofs on `verify_against` of src/ethereum_test_types/block_access_list/expectations.py.
use mathlib.Core.List.{Memᴰ}
use mathlib.Core.Option.{none-ne-some, some-injective}
use execution_spec_tests.Base.{
  ℕ, ◌≤◌, ◌≡◌, refl, sym, ap, ◌∙◌, subst, ◌↔◌, true, false, not, ◌&&◌, Option, none, some, List, [],
  ◌∷◌, ◌==◌, ==_iff, if◌then◌else◌, All, Bool-cases, Option-cases, inl, inr, arith, passed, raised,
  and_then-passed, check_each,
}
use execution_spec_tests.Types.AccessList.{
  AccountChange, BlockAccessList, contains, addresses, should_not_be_there, ambiguous, not_in_bal,
  account_changed, validate_bal_ordering,
}
use execution_spec_tests.Types.AccessList.Order.{
  IsAscending, IsOrderedAccount, IsOrdered, tail-IsAscending, above_all,
}
use execution_spec_tests.Types.AccessList.Valid.{validate_bal_ordering_iff}
use execution_spec_tests.Types.AccessList.Expectation.{
  Expectation, find_account, has_no_changes, has_no_fields, compare_account, verify_present,
  verify_expectation, verify_against,
}
use execution_spec_tests.Types.AccessList.Expectation.Subsequence.{raised-apart}
use execution_spec_tests.Types.AccessList.Expectation.Meets.{
  Meets, compare_account_iff, each_iff, refused_iff,
}

-- What one entry asks for: no account with the address, or one that meets the expectation.
abbrev pub MeetsEntry : BlockAccessList → ℕ × Option Expectation → Type 0
MeetsEntry bal (address, none) = All (λ a. (a.address == address) ≡ false) bal
MeetsEntry bal (address, some e) =
    (has_no_fields e ≡ false)
    × (a : AccountChange) × Memᴰ a bal
    × (a.address ≡ address)
    × ((e.is_empty && not (has_no_changes a)) ≡ false)
    × Meets e a

absent_iff :
    (k : ℕ) (bal : BlockAccessList)
    → (find_account k bal ≡ none) ↔ All (λ a. (a.address == k) ≡ false) bal
unfolding find_account
absent_iff k [] = ((λ _. tt), λ _. refl)
absent_iff k (c ∷ bal) = elim (Option-cases (find_account k bal)) [
  | inl q ↦ elim (Bool-cases (c.address == k)) [
    | inl h ↦ (
      λ e. absurd (none-ne-some c (sym (rw (find_account, q, h) at e))),
      λ (r, _). absurd (true-apart (sym h ∙ r)),
    )
    | inr h ↦ (λ _. (h, (absent_iff k bal).0 q), λ _. rw (q, h) refl)
  ]
  | inr (found, q) ↦ (
    λ e. absurd (none-ne-some found (sym (rw (find_account, q) at e))),
    λ (_, rest). absurd (none-ne-some found (sym ((absent_iff k bal).1 rest) ∙ q)),
  )
]
  where
    true-apart : true ≡ false → ⊥
    true-apart q = cc

found_lem :
    (k : ℕ) (bal : BlockAccessList) (a : AccountChange)
    → find_account k bal ≡ some a
    → Memᴰ a bal × (a.address ≡ k)
unfolding find_account
found_lem k [] a e = absurd (none-ne-some a e)
found_lem k (c ∷ bal) a e = elim (Option-cases (find_account k bal)) [
  | inl q ↦ elim (Bool-cases (c.address == k)) [
    | inl h ↦
        let here : c ≡ a = some-injective c a (rw (find_account, q, h) at e) in
        (Memᴰ.head (sym here), subst (λ x. x.address ≡ k) here ((==_iff c.address k).0 h))
    | inr h ↦ absurd (none-ne-some a (rw (find_account, q, h) at e))
  ]
  | inr (found, q) ↦
      let same : found ≡ a = some-injective found a (rw (find_account, q) at e) in
      let (m, p) = found_lem k bal a (q ∙ ap some same) in (Memᴰ.tail m, p)
]

member-contains :
    (a : AccountChange) (bal : BlockAccessList)
    → Memᴰ a bal
    → contains a.address (addresses bal) ≡ true
member-contains a [] m = elim m [ ]
member-contains a (c ∷ bal) (Memᴰ.head e) =
    let here : (a.address == c.address) ≡ true =
      (==_iff a.address c.address).1 (ap (λ x. x.address) e) in
    rw here refl
member-contains a (c ∷ bal) (Memᴰ.tail m) = elim (Bool-cases (a.address == c.address)) [
  | inl h ↦ rw h refl
  | inr h ↦ rw h (member-contains a bal m)
]

-- In a list with ascending addresses, the account found for an address is the only one.
member_found :
    (a : AccountChange) (bal : BlockAccessList)
    → IsAscending (addresses bal)
    → Memᴰ a bal
    → find_account a.address bal ≡ some a
unfolding find_account
member_found a [] asc m = elim m [ ]
member_found a (c ∷ bal) asc (Memᴰ.head e) = elim (Option-cases (find_account a.address bal)) [
  | inl q ↦
      let here : (c.address == a.address) ≡ true =
        (==_iff c.address a.address).1 (ap (λ x. x.address) (sym e)) in
      rw (q, here) (ap some (sym e))
  | inr (found, q) ↦
      let (m, p) = found_lem a.address bal found q in
      let least : found.address ≤ c.address = omega (arith, p, ap (λ x. x.address) e) in
      absurd (
        true-apart (
          sym (member-contains found bal m)
          ∙ above_all found.address c.address (addresses bal) least asc))
]
  where
    true-apart : true ≡ false → ⊥
    true-apart q = cc
member_found a (c ∷ bal) asc (Memᴰ.tail m) =
    let rest = member_found a bal (tail-IsAscending c.address (addresses bal) asc) m in rw rest refl

All-member : {A : Type 0} (P : A → Type 0) (xs : List A) (x : A) → All P xs → Memᴰ x xs → P x
All-member P [] x h m = elim m [ ]
All-member P (y ∷ ys) x (p, h) (Memᴰ.head e) = subst P (sym e) p
All-member P (y ∷ ys) x (p, h) (Memᴰ.tail m) = All-member P ys x h m

present_iff :
    (bal : BlockAccessList) (address : ℕ) (e : Expectation)
    → IsOrdered bal
    → (verify_present e (find_account address bal) ≡ passed) ↔ (
        (a : AccountChange) × Memᴰ a bal
        × (a.address ≡ address)
        × ((e.is_empty && not (has_no_changes a)) ≡ false)
        × Meets e a)
unfolding verify_present
present_iff bal address e (asc, accounts) = elim (Option-cases (find_account address bal)) [
  | inl q ↦ (
    λ h. absurd (raised-apart not_in_bal (rw (verify_present, q) at h)),
    λ (a, m, p, _, _). absurd (
        none-ne-some a
          (sym q ∙ subst (λ k. find_account k bal ≡ some a) p (member_found a bal asc m))),
  )
  | inr (c, q) ↦
      let (m, p) = found_lem address bal c q in
      let split =
        and_then-passed
          (if e.is_empty && not (has_no_changes c) then raised account_changed else passed)
          (compare_account e c) in
      let kept = refused_iff (e.is_empty && not (has_no_changes c)) account_changed in
      let meets = compare_account_iff e c (All-member IsOrderedAccount bal c accounts m) in
      (
        λ h. let (r, s) = split.0 (rw (verify_present, q) at h) in (c, m, p, kept.0 r, meets.0 s),
        λ (a, n, o, r, s).
            let same : a ≡ c =
              some-injective a c
                (sym (subst (λ k. find_account k bal ≡ some a) o (member_found a bal asc n)) ∙ q) in
            rw (verify_present, q)
              (split.1 (
                kept.1 (subst (λ x. (e.is_empty && not (has_no_changes x)) ≡ false) same r),
                meets.1 (subst (Meets e) same s),
              )),
      )
]

entry_iff :
    (bal : BlockAccessList)
    → IsOrdered bal
    → (entry : ℕ × Option Expectation)
    → (verify_expectation bal entry ≡ passed) ↔ MeetsEntry bal entry
unfolding verify_expectation
entry_iff bal ordered (address, none) = elim (Option-cases (find_account address bal)) [
  | inl q ↦ (λ _. (absent_iff address bal).0 q, λ _. rw (verify_expectation, q) refl)
  | inr (c, q) ↦ (
    λ h. absurd (raised-apart should_not_be_there (rw (verify_expectation, q) at h)),
    λ apart. absurd (none-ne-some c (sym ((absent_iff address bal).1 apart) ∙ q)),
  )
]
entry_iff bal ordered (address, some e) = elim (Bool-cases (has_no_fields e)) [
  | inl h ↦ (
    λ p. absurd (raised-apart ambiguous (rw (verify_expectation, h) at p)),
    λ (f, _, _, _, _, _). absurd (true-apart (sym h ∙ f)),
  )
  | inr h ↦
      let present = present_iff bal address e ordered in
      (
        λ p.
            let (a, m, o, r, s) = present.0 (rw (verify_expectation, h) at p) in (h, a, m, o, r, s),
        λ (_, a, m, o, r, s). rw (verify_expectation, h) (present.1 (a, m, o, r, s)),
      )
]
  where
    true-apart : true ≡ false → ⊥
    true-apart q = cc

-- The check of a block access list against the expectations of a test passes exactly when the list
-- is in order and meets every entry: an address without an expectation is in no account, and an
-- expectation has some field set and is met by an account with its address, which has no changes at
-- all if the expectation is the empty one.
pub verify_against_iff :
    (entries : List (ℕ × Option Expectation)) (bal : BlockAccessList)
    → (verify_against entries bal ≡ passed) ↔ (IsOrdered bal × All (MeetsEntry bal) entries)
unfolding verify_against
verify_against_iff entries bal =
    let split =
      and_then-passed (validate_bal_ordering bal) (check_each (verify_expectation bal) entries) in
    let order = validate_bal_ordering_iff bal in
    let met = λ (ordered : IsOrdered bal).
      each_iff (verify_expectation bal) (MeetsEntry bal) entries (entry_iff bal ordered) in
    (
      λ h. let (p, q) = split.0 h in (order.0 p, (met (order.0 p)).0 q),
      λ (ordered, q). split.1 (order.1 ordered, (met ordered).1 q),
    )
