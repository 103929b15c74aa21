-- ===== src/Forks/Transition/Examples.antt =====
-- Tests of the transition forks in src/ethereum_test_forks/forks/transition.py.
use execution_spec_tests.Base.{ℕ, ◌≡◌, refl, true, false, arith}
use execution_spec_tests.Forks.Fork.{Fork, berlin, shanghai, le}
use execution_spec_tests.Forks.Transition.{
  TransitionFork, berlin_to_london_at5, paris_to_shanghai_at_time15k, transitions_from,
  transitions_to, at_block, at_timestamp, is_transitioned, fork_at, transition_method, regular,
  transition, is_newer, always_transitioned_block_number, always_transitioned_block_timestamp,
}
use execution_spec_tests.Forks.Transition.Monotone.{fork_at_lem, each_newer}

abbrev itself : Fork → ℕ → ℕ → Fork
itself f block_number timestamp = f

abbrev to_london : TransitionFork
to_london = berlin_to_london_at5

fork_at_lem_example :
    (le (fork_at to_london 4 0) (fork_at to_london 5 0) ≡ true)
    × (fork_at to_london 0 0 ≡ transitions_from to_london)
    × (fork_at to_london always_transitioned_block_number always_transitioned_block_timestamp
        ≡ transitions_to to_london)
    × (transition_method false itself to_london 4 0 ≡ itself (fork_at to_london 4 0) 4 0)
fork_at_lem_example = fork_at_lem itself to_london 4 5 0 0 (omega arith) (omega arith)

each_newer_example :
    (is_newer (transition to_london) (regular (transitions_to to_london)) ≡ true)
    × (is_newer (regular (transitions_to to_london)) (transition to_london) ≡ true)
each_newer_example = each_newer to_london

before_block : fork_at to_london 4 1000000 ≡ berlin
unfolding fork_at is_transitioned at_block at_timestamp transitions_from
before_block = refl

at_time : fork_at paris_to_shanghai_at_time15k 0 15000 ≡ shanghai
unfolding fork_at is_transitioned at_block at_timestamp transitions_to
at_time = refl
