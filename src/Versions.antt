-- ===== src/Versions.antt =====
-- internal/versions/versions.go: the order of software versions, and what sets an installed version apart
-- from a target.
pub mod Parse
pub mod Order
pub mod Laws
pub mod Flip
pub mod Assess
use cairnops.Common.{
  ℕ, String, str_eq, Bool, true, false, ◌&&◌, not, Option, none, some, List, [], ◌∷◌, ◌==◌,
  if◌then◌else◌,
}
use cairnops.Common.Text.{trim_space}
use cairnops.Versions.Parse.{Parsed, parse}
use cairnops.Versions.Order.{Ordering, less, same, greater, compare_parsed}

pub data Situation : Type 0 where
  current update prerelease target_older unordered : Situation

pub data Level : Type 0 where
  major minor patch : Level

pub record Assessment : Type 0 where
  pub situation : Situation
  pub level : Option Level

unfoldable pub actionable : Assessment → Bool
actionable a = elim a.situation [ update ↦ true | _ ↦ false ]

unfoldable pub valid : String → Bool
valid raw = elim (parse raw) [ none ↦ false | some _ ↦ true ]

unfoldable pub has_prerelease : Parsed → Bool
has_prerelease p = elim p.prerelease [ [] ↦ false | _ ∷ _ ↦ true ]

unfoldable pub is_prerelease : String → Bool
unfolding has_prerelease
is_prerelease raw = elim (parse raw) [ none ↦ false | some p ↦ has_prerelease p ]

-- `none` where the second result of Compare is false.
unfoldable pub compare : String → String → Option Ordering
compare left right = elim (parse left) [
  | none ↦ none
  | some a ↦ elim (parse right) [ none ↦ none | some b ↦ some (compare_parsed a b) ]
]

-- The number at an index, zero past the end.
abbrev pub component : List ℕ → ℕ → ℕ
component [] n = 0
component (x ∷ xs) ℕ.zero = x
component (x ∷ xs) (ℕ.suc n) = component xs n

-- The numbers of a version that does not parse are empty.
unfoldable pub numbers_of : String → List ℕ
numbers_of raw = elim (parse raw) [ none ↦ [] | some p ↦ p.numbers ]

unfoldable pub level_of : List ℕ → List ℕ → Level
level_of a b =
    if not (component a 0 == component b 0)
    then major
    else if not (component a 1 == component b 1)
    then minor
    else patch

-- Assess on texts that are trimmed.
unfoldable pub assess_trimmed : String → String → Assessment
unfolding compare is_prerelease numbers_of level_of
assess_trimmed installed target =
    if str_eq installed target
    then record { situation = current; level = none }
    else elim (compare installed target) [
      | none ↦ record { situation = unordered; level = none }
      | some same ↦ record { situation = current; level = none }
      | some greater ↦ record { situation = target_older; level = none }
      | some less ↦ record {
        situation =
            if is_prerelease target && not (is_prerelease installed) then prerelease else update;
        level = some (level_of (numbers_of installed) (numbers_of target));
      }
    ]

unfoldable pub assess : String → String → Assessment
unfolding assess_trimmed
assess installed target = assess_trimmed (trim_space installed) (trim_space target)
