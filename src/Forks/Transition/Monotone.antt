-- ===== src/Forks/Transition/Monotone.antt =====
-- Proofs on transition forks, src/ethereum_test_forks/transition_base_fork.py.
use execution_spec_tests.Base.{
  ℕ, ◌≤◌, ◌≡◌, refl, Bool, true, false, ◌||◌, if◌then◌else◌, Bool-cases, inl, inr, arith, some,
}
use execution_spec_tests.Forks.Fork.{Fork, same, is_subclass, same_iff, parent, options, le}
use execution_spec_tests.Forks.Fork.Order.{is_subclass_iff, here, up}
use execution_spec_tests.Forks.Transition.{
  TransitionFork, berlin_to_london_at5, paris_to_shanghai_at_time15k, shanghai_to_cancun_at_time15k,
  cancun_to_prague_at_time15k, prague_to_osaka_at_time15k, osaka_to_bpo1_at_time15k,
  bpo1_to_bpo2_at_time15k, bpo2_to_bpo3_at_time15k, bpo3_to_bpo4_at_time15k, transitions_from,
  transitions_to, at_block, at_timestamp, is_transitioned, fork_at, transition_method, regular,
  transition, maybe_transitioned, is_subclass_of, same_class, is_newer,
  always_transitioned_block_number, always_transitioned_block_timestamp,
}

subclass_self : (f : Fork) → is_subclass f f ≡ true
subclass_self f = (is_subclass_iff f f).1 here

same_self : (f : Fork) → same f f ≡ true
same_self f = (same_iff f f).1 refl

le_self : (f : Fork) → le f f ≡ true
unfolding le
le_self f = rw (same_self f) refl

-- The fork that a transition leads to has the other one as its base.
base_lem : (t : TransitionFork) → parent (transitions_to t) ≡ some (transitions_from t)
unfolding parent options transitions_to transitions_from
base_lem berlin_to_london_at5 = refl
base_lem paris_to_shanghai_at_time15k = refl
base_lem shanghai_to_cancun_at_time15k = refl
base_lem cancun_to_prague_at_time15k = refl
base_lem prague_to_osaka_at_time15k = refl
base_lem osaka_to_bpo1_at_time15k = refl
base_lem bpo1_to_bpo2_at_time15k = refl
base_lem bpo2_to_bpo3_at_time15k = refl
base_lem bpo3_to_bpo4_at_time15k = refl

or_true : (a b : Bool) → b ≡ true → (a || b) ≡ true
or_true true b h = refl
or_true false b h = h

le_forward : (t : TransitionFork) → le (transitions_from t) (transitions_to t) ≡ true
unfolding le
le_forward t =
    or_true (same (transitions_from t) (transitions_to t))
      (is_subclass (transitions_to t) (transitions_from t))
      ((is_subclass_iff (transitions_to t) (transitions_from t)).1 (up (base_lem t) here))

later_lem :
    (t : TransitionFork) (block later timestamp after : ℕ)
    → block ≤ later
    → timestamp ≤ after
    → is_transitioned t block timestamp ≡ true
    → is_transitioned t later after ≡ true
unfolding is_transitioned
later_lem t block later timestamp after p q h = ground (arith, p, q, h)

-- At a later block and a later time a transition fork is never an older fork than before. It is the
-- fork it comes from at block 0 and time 0, and the fork it leads to at the defaults of its methods;
-- a method that does not prefer the latter is the method of the fork it is.
pub fork_at_lem :
    {A : Type 0} (method : Fork → ℕ → ℕ → A) (t : TransitionFork) (block later timestamp after : ℕ)
    → block ≤ later
    → timestamp ≤ after
    → (le (fork_at t block timestamp) (fork_at t later after) ≡ true)
      × (fork_at t 0 0 ≡ transitions_from t)
      × (fork_at t always_transitioned_block_number always_transitioned_block_timestamp
          ≡ transitions_to t)
      × (transition_method false method t block timestamp
          ≡ method (fork_at t block timestamp) block timestamp)
unfolding fork_at transition_method is_transitioned at_block at_timestamp
fork_at_lem method t block later timestamp after p q =
    (monotone, start t, end t, chosen (is_transitioned t block timestamp))
  where
    monotone : le (fork_at t block timestamp) (fork_at t later after) ≡ true
    monotone = elim (Bool-cases (is_transitioned t block timestamp)) [
      | inl h ↦
          rw (fork_at, h, later_lem t block later timestamp after p q h)
            (le_self (transitions_to t))
      | inr h ↦ elim (Bool-cases (is_transitioned t later after)) [
        | inl g ↦ rw (fork_at, h, g) (le_forward t)
        | inr g ↦ rw (fork_at, h, g) (le_self (transitions_from t))
      ]
    ]

    start : (t : TransitionFork) → fork_at t 0 0 ≡ transitions_from t
    start berlin_to_london_at5 = refl
    start paris_to_shanghai_at_time15k = refl
    start shanghai_to_cancun_at_time15k = refl
    start cancun_to_prague_at_time15k = refl
    start prague_to_osaka_at_time15k = refl
    start osaka_to_bpo1_at_time15k = refl
    start bpo1_to_bpo2_at_time15k = refl
    start bpo2_to_bpo3_at_time15k = refl
    start bpo3_to_bpo4_at_time15k = refl

    end :
        (t : TransitionFork)
        → fork_at t always_transitioned_block_number always_transitioned_block_timestamp
          ≡ transitions_to t
    end berlin_to_london_at5 = refl
    end paris_to_shanghai_at_time15k = refl
    end shanghai_to_cancun_at_time15k = refl
    end cancun_to_prague_at_time15k = refl
    end prague_to_osaka_at_time15k = refl
    end osaka_to_bpo1_at_time15k = refl
    end bpo1_to_bpo2_at_time15k = refl
    end bpo2_to_bpo3_at_time15k = refl
    end bpo3_to_bpo4_at_time15k = refl

    chosen :
        (b : Bool)
        → (if b
            then method (transitions_to t) block timestamp
            else method (transitions_from t) block timestamp)
          ≡ method (if b then transitions_to t else transitions_from t) block timestamp
    chosen true = refl
    chosen false = refl

-- A transition fork and the fork it leads to are each newer than the other.
pub each_newer :
    (t : TransitionFork)
    → (is_newer (transition t) (regular (transitions_to t)) ≡ true)
      × (is_newer (regular (transitions_to t)) (transition t) ≡ true)
unfolding is_newer same_class is_subclass_of maybe_transitioned
each_newer t = (subclass_self (transitions_to t), subclass_self (transitions_to t))
