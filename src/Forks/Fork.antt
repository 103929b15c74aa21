-- ===== src/Forks/Fork.antt =====
-- src/ethereum_test_forks/forks/forks.py, class statements, and base_fork.py, `BaseForkMeta` and
-- `BaseFork`: the fork classes as a tree, their options, and the order on them.
pub mod Order
use execution_spec_tests.Base.{
  ℕ, zero, suc, ◌≡◌, refl, ◌↔◌, Bool, true, false, not, ◌&&◌, ◌||◌, Option, none, some, String,
}

pub data Fork : Type 0 where
  frontier homestead dao_fork tangerine spurious_dragon byzantium constantinople : Fork
  constantinople_fix istanbul muir_glacier berlin london arrow_glacier gray_glacier : Fork
  paris shanghai cancun prague osaka bpo1 bpo2 bpo3 bpo4 bpo5 amsterdam eofv1 : Fork

-- What a class statement gives to `__init_subclass__`; its base is none for `BaseFork`.
pub record ClassOptions : Type 0 where
  pub base : Option Fork
  pub transition_tool_name : Option String
  pub solc_name : Option String
  pub ignore : Bool
  pub bpo_fork : Bool

-- The defaults of `__init_subclass__`, which do not carry over to subclasses.
abbrev pub extends : Option Fork → ClassOptions
extends base = record {
  base = base;
  transition_tool_name = none;
  solc_name = none;
  ignore = false;
  bpo_fork = false;
}

unfoldable pub options : Fork → ClassOptions
options frontier = record (extends none) { solc_name = some "homestead" }
options homestead = extends (some frontier)
options dao_fork = record (extends (some homestead)) { ignore = true }
options tangerine = record (extends (some dao_fork)) { ignore = true }
options spurious_dragon = record (extends (some tangerine)) { ignore = true }
options byzantium = extends (some homestead)
options constantinople = extends (some byzantium)
options constantinople_fix = record (extends (some constantinople)) {
  solc_name = some "constantinople";
}
options istanbul = extends (some constantinople_fix)
options muir_glacier = record (extends (some istanbul)) {
  solc_name = some "istanbul";
  ignore = true;
}
options berlin = extends (some istanbul)
options london = extends (some berlin)
options arrow_glacier = record (extends (some london)) { solc_name = some "london"; ignore = true }
options gray_glacier = record (extends (some arrow_glacier)) {
  solc_name = some "london";
  ignore = true;
}
options paris = record (extends (some london)) { transition_tool_name = some "Merge" }
options shanghai = extends (some paris)
options cancun = extends (some shanghai)
options prague = extends (some cancun)
options osaka = record (extends (some prague)) { solc_name = some "cancun" }
options bpo1 = record (extends (some osaka)) { bpo_fork = true }
options bpo2 = record (extends (some bpo1)) { bpo_fork = true }
options bpo3 = record (extends (some bpo2)) { bpo_fork = true }
options bpo4 = record (extends (some bpo3)) { bpo_fork = true }
options bpo5 = record (extends (some bpo4)) { bpo_fork = true }
options amsterdam = extends (some osaka)
options eofv1 = record (extends (some prague)) { solc_name = some "cancun" }

-- `parent`
unfoldable pub parent : Fork → Option Fork
unfolding options
parent f = (options f).base

-- `is` between two classes.
Fork-discrete : Discrete Fork
Fork-discrete = hlevel

unfoldable pub same : Fork → Fork → Bool
unfolding Fork-discrete
same a b = elim (Fork-discrete a b) [ yes _ ↦ true | no _ ↦ false ]

pub same_iff : (a b : Fork) → (same a b ≡ true) ↔ (a ≡ b)
unfolding same
same_iff a b =
    elim (Fork-discrete a b) as (λ d. ((elim d [ yes _ ↦ true | no _ ↦ false ]) ≡ true) ↔ (a ≡ b)) [
      | yes e ↦ ((λ _. e), (λ _. refl))
      | no n ↦ ((λ h. cc), (λ e. absurd (n e)))
    ]

-- The position in `all_forks`, the order of the class statements: it tells the classes apart.
abbrev pub index : Fork → ℕ
index frontier = 0
index homestead = 1
index dao_fork = 2
index tangerine = 3
index spurious_dragon = 4
index byzantium = 5
index constantinople = 6
index constantinople_fix = 7
index istanbul = 8
index muir_glacier = 9
index berlin = 10
index london = 11
index arrow_glacier = 12
index gray_glacier = 13
index paris = 14
index shanghai = 15
index cancun = 16
index prague = 17
index osaka = 18
index bpo1 = 19
index bpo2 = 20
index bpo3 = 21
index bpo4 = 22
index bpo5 = 23
index amsterdam = 24
index eofv1 = 25

-- `issubclass(a, b)`: the walk from `a` up its bases. The position of a class bounds its steps.
unfoldable pub walk : ℕ → Fork → Fork → Bool
walk zero a b = false
walk (suc n) a b = same a b || elim (parent a) [ none ↦ false | some p ↦ walk n p b ]

unfoldable pub is_subclass : Fork → Fork → Bool
is_subclass a b = walk (suc (index a)) a b

-- `__gt__`, `__ge__`, `__lt__` and `__le__` between forks that are no transition forks.
unfoldable pub gt : Fork → Fork → Bool
gt a b = not (same a b) && is_subclass a b

unfoldable pub ge : Fork → Fork → Bool
ge a b = same a b || is_subclass a b

unfoldable pub lt : Fork → Fork → Bool
lt a b = not (same a b) && is_subclass b a

unfoldable pub le : Fork → Fork → Bool
le a b = same a b || is_subclass b a
