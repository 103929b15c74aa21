-- ===== src/Forks/Selection/Examples.antt =====
-- The theorems on forks and their selection at concrete forks, and runs of the selection.
use execution_spec_tests.Base.{◌≡◌, ◌↔◌, refl, true, false, some, none, List, [], ◌∷◌}
use execution_spec_tests.Forks.Fork.{
  Fork, london, paris, shanghai, cancun, prague, osaka, eofv1, options, parent, same, walk,
  is_subclass, ge, le,
}
use execution_spec_tests.Forks.Fork.Order.{Descends, is_subclass_iff}
use execution_spec_tests.Forks.Selection.{
  contains, insert, keep, ignore, all_forks, add_between, add_until, add_from,
  get_from_until_fork_set, get_forks_with_no_parents, descend, forks_from_until, fork_in_range,
}
use execution_spec_tests.Forks.Selection.Chain.{Outcome, forks_from_until-Outcome}
use execution_spec_tests.Forks.Selection.Until.{In, IsFirst, IsFirst-above}
use execution_spec_tests.Forks.Selection.Range.{fork_in_range_incomparable}

chain_to_cancun : forks_from_until london cancun ≡ some (london ∷ paris ∷ shanghai ∷ cancun ∷ [])
unfolding forks_from_until descend same parent options
chain_to_cancun = refl

no_chain : forks_from_until osaka eofv1 ≡ some []
unfolding forks_from_until descend same parent options
no_chain = refl

from_paris_until_cancun :
    get_from_until_fork_set all_forks (paris ∷ []) (cancun ∷ []) ≡ cancun ∷ shanghai ∷ paris ∷ []
unfolding get_from_until_fork_set add_from add_until add_between all_forks keep ignore insert
    contains ge le is_subclass walk same parent options
from_paris_until_cancun = refl

forks_from_until-Outcome_example : Outcome london cancun (forks_from_until london cancun)
forks_from_until-Outcome_example = forks_from_until-Outcome london cancun

abbrev some_forks : List Fork
some_forks = shanghai ∷ cancun ∷ prague ∷ osaka ∷ eofv1 ∷ []

eofv1-In : In eofv1 some_forks
unfolding contains same
eofv1-In = refl

IsFirst-above_example :
    ((g : Fork) × In g (get_forks_with_no_parents some_forks) × Descends g eofv1)
    × ((h : Fork)
        → In h (get_forks_with_no_parents some_forks) ↔ (In h some_forks × IsFirst h some_forks))
IsFirst-above_example = IsFirst-above some_forks eofv1 eofv1-In

apart_by_walk : (is_subclass eofv1 osaka ≡ false) × (is_subclass osaka eofv1 ≡ false)
unfolding is_subclass walk same parent options
apart_by_walk = (refl, refl)

-- EOFv1 and Osaka are both children of Prague.
eofv1_not_above : ¬ Descends eofv1 osaka
eofv1_not_above d = let (_, apart) = apart_by_walk in cc (apart, (is_subclass_iff osaka eofv1).1 d)

osaka_not_above : ¬ Descends osaka eofv1
osaka_not_above d = let (apart, _) = apart_by_walk in cc (apart, (is_subclass_iff eofv1 osaka).1 d)

fork_in_range_incomparable_example :
    (fork_in_range (record { greater_equal = some osaka; less_than = none }) eofv1 ≡ true)
    × (ge eofv1 osaka ≡ false)
fork_in_range_incomparable_example =
    fork_in_range_incomparable eofv1 osaka eofv1_not_above osaka_not_above
