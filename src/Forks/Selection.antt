-- ===== src/Forks/Selection.antt =====
-- src/ethereum_test_forks/helpers.py: which forks a test run selects. A Python set of forks is a list
-- that is read by `contains` alone; `insert` adds no fork twice.
pub mod Sets
pub mod Range
pub mod Chain
pub mod Until
mod Examples
use execution_spec_tests.Base.{
  ℕ, zero, suc, Bool, true, false, not, ◌&&◌, ◌||◌, Option, none, some, List, [], ◌∷◌,
  if◌then◌else◌,
}
use execution_spec_tests.Forks.Fork.{
  Fork, frontier, homestead, dao_fork, tangerine, spurious_dragon, byzantium, constantinople,
  constantinople_fix, istanbul, muir_glacier, berlin, london, arrow_glacier, gray_glacier, paris,
  shanghai, cancun, prague, osaka, bpo1, bpo2, bpo3, bpo4, bpo5, amsterdam, eofv1, options, parent,
  index, same, ge, gt, lt, le,
}

unfoldable pub contains : Fork → List Fork → Bool
contains f [] = false
contains f (g ∷ gs) = same g f || contains f gs

-- `set.add`
unfoldable pub insert : Fork → List Fork → List Fork
insert f fs = if contains f fs then fs else f ∷ fs

-- The list comprehension and set difference with one condition.
unfoldable pub keep : (Fork → Bool) → List Fork → List Fork
keep p [] = []
keep p (f ∷ fs) = let rest = keep p fs in if p f then f ∷ rest else rest

-- `get_forks`: `all_forks` in the order of the class statements.
abbrev pub get_forks : List Fork
get_forks =
    frontier ∷ homestead ∷ dao_fork ∷ tangerine ∷ spurious_dragon ∷ byzantium ∷ constantinople
    ∷ constantinople_fix ∷ istanbul ∷ muir_glacier ∷ berlin ∷ london ∷ arrow_glacier ∷ gray_glacier
    ∷ paris ∷ shanghai ∷ cancun ∷ prague ∷ osaka ∷ bpo1 ∷ bpo2 ∷ bpo3 ∷ bpo4 ∷ bpo5 ∷ amsterdam
    ∷ eofv1 ∷ []

-- `ignore`
unfoldable pub ignore : Fork → Bool
ignore f = (options f).ignore

-- `is_deployed`, false for the three classes that override it and for what inherits from them.
unfoldable pub is_deployed : Fork → Bool
is_deployed osaka = false
is_deployed bpo1 = false
is_deployed bpo2 = false
is_deployed bpo3 = false
is_deployed bpo4 = false
is_deployed bpo5 = false
is_deployed amsterdam = false
is_deployed eofv1 = false
is_deployed _ = true

-- `ALL_FORKS`
unfoldable pub all_forks : List Fork
all_forks = keep (λ f. not (ignore f)) get_forks

unfoldable pub get_deployed_forks : List Fork
get_deployed_forks = keep (λ f. is_deployed f && not (ignore f)) get_forks

unfoldable pub get_development_forks : List Fork
get_development_forks = keep (λ f. not (is_deployed f)) get_forks

-- The innermost loop of `get_from_until_fork_set`.
unfoldable pub add_between : Fork → Fork → List Fork → List Fork → List Fork
add_between fork_from fork_until [] acc = acc
add_between fork_from fork_until (f ∷ fs) acc =
    add_between fork_from fork_until fs
      (if le f fork_until && ge f fork_from then insert f acc else acc)

unfoldable pub add_until : List Fork → Fork → List Fork → List Fork → List Fork
add_until forks fork_from [] acc = acc
add_until forks fork_from (u ∷ us) acc =
    add_until forks fork_from us (add_between fork_from u forks acc)

unfoldable pub add_from : List Fork → List Fork → List Fork → List Fork → List Fork
add_from forks untils [] acc = acc
add_from forks untils (f ∷ fs) acc = add_from forks untils fs (add_until forks f untils acc)

unfoldable pub get_from_until_fork_set : List Fork → List Fork → List Fork → List Fork
get_from_until_fork_set forks forks_from forks_until = add_from forks forks_until forks_from []

-- The inner loop of `get_forks_with_no_parents` and its mirror, over `forks - {fork}`.
unfoldable pub any_fork : (Fork → Bool) → List Fork → Bool
any_fork p [] = false
any_fork p (f ∷ fs) = let rest = any_fork p fs in if p f then true else rest

unfoldable pub has_parent : List Fork → Fork → Bool
has_parent forks f = any_fork (λ g. lt g f) (keep (λ g. not (same g f)) forks)

unfoldable pub has_descendant : List Fork → Fork → Bool
has_descendant forks f = any_fork (λ g. gt g f) (keep (λ g. not (same g f)) forks)

-- The outer loop: `resulting_forks | {fork}` for each fork that fails the test.
unfoldable pub add_unless : (Fork → Bool) → List Fork → List Fork → List Fork
add_unless p [] acc = acc
add_unless p (f ∷ fs) acc = add_unless p fs (if p f then acc else insert f acc)

unfoldable pub get_forks_with_no_parents : List Fork → List Fork
get_forks_with_no_parents forks = add_unless (has_parent forks) forks []

unfoldable pub get_forks_with_no_descendants : List Fork → List Fork
get_forks_with_no_descendants forks = add_unless (has_descendant forks) forks []

-- The two loops of `get_last_descendants`.
unfoldable pub add_descendants : List Fork → List Fork → List Fork → List Fork
add_descendants leaves [] acc = acc
add_descendants leaves (f ∷ fs) acc =
    add_descendants leaves fs (add_unless (λ g. not (ge g f)) leaves acc)

unfoldable pub get_last_descendants : List Fork → List Fork → List Fork
get_last_descendants forks forks_from =
    add_descendants (get_forks_with_no_descendants forks) forks_from []

-- The loop of `forks_from_until`, on fuel; none is `BaseFork`, and the fuel never runs out.
unfoldable pub descend : ℕ → Fork → Option Fork → List Fork → Option (List Fork)
descend zero fork_from prev forks = none
descend (suc n) fork_from none forks = some []
descend (suc n) fork_from (some p) forks =
    let rest = descend n fork_from (parent p) (p ∷ forks) in
    if same p fork_from then some (fork_from ∷ forks) else rest

unfoldable pub forks_from_until : Fork → Fork → Option (List Fork)
forks_from_until fork_from fork_until =
    descend (suc (suc (index fork_until))) fork_from (some fork_until) []

-- `ForkRangeDescriptor`
pub record ForkRangeDescriptor : Type 0 where
  pub greater_equal : Option Fork
  pub less_than : Option Fork

unfoldable pub fork_in_range : ForkRangeDescriptor → Fork → Bool
fork_in_range r f =
    if elim r.greater_equal [ none ↦ false | some g ↦ lt f g ]
    then false
    else if elim r.less_than [ none ↦ false | some l ↦ ge f l ]
    then false
    else true
