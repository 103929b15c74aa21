-- ===== src/Forks/Transition.antt =====
-- src/ethereum_test_forks/transition_base_fork.py and forks/transition.py: transition forks, and the
-- order of src/ethereum_test_forks/base_fork.py on them.
mod Monotone
mod Examples
use execution_spec_tests.Base.{ℕ, ◌+◌, Bool, true, false, not, ◌&&◌, ◌||◌, leb, if◌then◌else◌}
use execution_spec_tests.Forks.Fork.{
  Fork, berlin, london, paris, shanghai, cancun, prague, osaka, bpo1, bpo2, bpo3, bpo4, same,
  is_subclass,
}

pub data TransitionFork : Type 0 where
  berlin_to_london_at5 paris_to_shanghai_at_time15k shanghai_to_cancun_at_time15k : TransitionFork
  cancun_to_prague_at_time15k prague_to_osaka_at_time15k osaka_to_bpo1_at_time15k : TransitionFork
  bpo1_to_bpo2_at_time15k bpo2_to_bpo3_at_time15k bpo3_to_bpo4_at_time15k : TransitionFork

-- The base of the decorated class.
unfoldable pub transitions_from : TransitionFork → Fork
transitions_from berlin_to_london_at5 = berlin
transitions_from paris_to_shanghai_at_time15k = paris
transitions_from shanghai_to_cancun_at_time15k = shanghai
transitions_from cancun_to_prague_at_time15k = cancun
transitions_from prague_to_osaka_at_time15k = prague
transitions_from osaka_to_bpo1_at_time15k = osaka
transitions_from bpo1_to_bpo2_at_time15k = bpo1
transitions_from bpo2_to_bpo3_at_time15k = bpo2
transitions_from bpo3_to_bpo4_at_time15k = bpo3

unfoldable pub transitions_to : TransitionFork → Fork
transitions_to berlin_to_london_at5 = london
transitions_to paris_to_shanghai_at_time15k = shanghai
transitions_to shanghai_to_cancun_at_time15k = cancun
transitions_to cancun_to_prague_at_time15k = prague
transitions_to prague_to_osaka_at_time15k = osaka
transitions_to osaka_to_bpo1_at_time15k = bpo1
transitions_to bpo1_to_bpo2_at_time15k = bpo2
transitions_to bpo2_to_bpo3_at_time15k = bpo3
transitions_to bpo3_to_bpo4_at_time15k = bpo4

-- The arguments of the decorator.
unfoldable pub at_block : TransitionFork → ℕ
at_block berlin_to_london_at5 = 5
at_block _ = 0

unfoldable pub at_timestamp : TransitionFork → ℕ
at_timestamp berlin_to_london_at5 = 0
at_timestamp _ = 15000

abbrev pub always_transitioned_block_number : ℕ
always_transitioned_block_number = 10000

abbrev pub always_transitioned_block_timestamp : ℕ
always_transitioned_block_timestamp = 10000000

-- The test that `fork_at` and the methods make.
unfoldable pub is_transitioned : TransitionFork → (block_number timestamp : ℕ) → Bool
is_transitioned t block_number timestamp =
    leb (at_block t) block_number && leb (at_timestamp t) timestamp

unfoldable pub fork_at : TransitionFork → (block_number timestamp : ℕ) → Fork
fork_at t block_number timestamp =
    if is_transitioned t block_number timestamp then transitions_to t else transitions_from t

-- `transition_method`, for a method that each fork has and whether the method is marked to prefer the
-- fork the transition leads to.
unfoldable pub transition_method :
    {A : Type 0}
    → Bool
    → (Fork → (block_number timestamp : ℕ) → A)
    → TransitionFork
    → (block_number timestamp : ℕ) → A
transition_method prefer method t block_number timestamp =
    if prefer
    then method (transitions_to t) block_number timestamp
    else (if is_transitioned t block_number timestamp
        then method (transitions_to t) block_number timestamp
        else method (transitions_from t) block_number timestamp)

pub data AnyFork : Type 0 where
  regular : Fork → AnyFork
  transition : TransitionFork → AnyFork

-- `BaseForkMeta._maybe_transitioned`
unfoldable pub maybe_transitioned : AnyFork → Fork
maybe_transitioned (regular f) = f
maybe_transitioned (transition t) = transitions_to t

unfoldable pub is_subclass_of : AnyFork → AnyFork → Bool
is_subclass_of a b = is_subclass (maybe_transitioned a) (maybe_transitioned b)

-- Two transition forks are one class exactly when the forks they lead to are.
unfoldable pub same_class : AnyFork → AnyFork → Bool
same_class (regular a) (regular b) = same a b
same_class (transition t) (transition u) = same (transitions_to t) (transitions_to u)
same_class (regular a) (transition u) = false
same_class (transition t) (regular b) = false

-- `__gt__`, `__ge__`, `__lt__` and `__le__` of `BaseForkMeta`, with transition forks.
unfoldable pub is_newer : AnyFork → AnyFork → Bool
is_newer a b = not (same_class a b) && is_subclass_of a b

unfoldable pub is_newer_or_same : AnyFork → AnyFork → Bool
is_newer_or_same a b = same_class a b || is_subclass_of a b

unfoldable pub is_older : AnyFork → AnyFork → Bool
is_older a b = not (same_class a b) && is_subclass_of b a

unfoldable pub is_older_or_same : AnyFork → AnyFork → Bool
is_older_or_same a b = same_class a b || is_subclass_of b a
