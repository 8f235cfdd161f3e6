-- ===== src/Health.antt =====
-- internal/health/health.go: the health state of a resource from its checks and conditions. An instant
-- is a number of nanoseconds from Go's zero time, 0; a nil pointer is `none`; durations are int64.
pub mod Conclusions
use cairnops.Common.{
  ℕ, zero, suc, ◌+◌, ◌*◌, Bool, true, false, not, ◌||◌, ◌&&◌, ltb, leb, ◌==◌, if◌then◌else◌, Option,
  none, some, List, [], ◌∷◌,
}
use cairnops.Common.Int.{ℤ, pos, negsuc, ltb_ℤ, leb_ℤ, scale64, sub_time}
use cairnops.AlertText.{Kind, impairs_functioning, same_kind}
use cairnops.Domain.Trigger.{Outcome}

-- `unset` is the empty state that `Overall` returns with no resource.
pub data State : Type 0 where
  unavailable degraded unknown available unset : State

-- `Rank`: the length of `States` less the index in it, 0 where the state is not there.
unfoldable pub rank : State → ℕ
rank State.unavailable = 4
rank State.degraded = 3
rank State.unknown = 2
rank State.available = 1
rank State.unset = 0

-- 5 minutes, 15 minutes and 1 minute.
abbrev pub default_cadence : ℤ
default_cadence = pos 300000000000

abbrev pub minimum_freshness : ℤ
minimum_freshness = pos 900000000000

abbrev pub clock_skew : ℕ
clock_skew = 60000000000

-- The window for a cadence, with the defaults of `Fresh`.
unfoldable pub freshness_window : ℤ → ℤ
freshness_window cadence =
    let cadence' = if leb_ℤ cadence (pos 0) then default_cadence else cadence in
    let window = scale64 3 cadence' in
    if ltb_ℤ window minimum_freshness then minimum_freshness else window

unfoldable pub fresh : Option ℕ → ℕ → ℤ → Bool
unfolding freshness_window
fresh none now cadence = false
fresh (some instant) now cadence =
    if instant == 0
    then false
    else let age = sub_time now instant in
      leb_ℤ (negsuc 59999999999) age && leb_ℤ age (freshness_window cadence)

pub record Check : Type 0 where
  pub last_observed_at : Option ℕ
  pub latest_outcome : Outcome
  pub cadence : ℤ
  pub enabled : Bool
  pub measures_availability : Bool

pub record Condition : Type 0 where
  pub last_seen_at : Option ℕ
  pub kind : Kind
  pub invalidated : Bool

pub record Facts : Type 0 where
  pub target_id : ℕ
  pub checks : List Check
  pub conditions : List Condition

-- A condition that the first loop does not skip.
unfoldable pub counts : Condition → ℕ → Bool
unfolding fresh
counts c now = not (c.invalidated || not (fresh c.last_seen_at now default_cadence))

abbrev pub is_healthy : Outcome → Bool
is_healthy Outcome.healthy = true
is_healthy _ = false

unfoldable pub proves_available : Check → ℕ → Bool
unfolding fresh
proves_available c now =
    c.enabled
    && c.measures_availability
    && is_healthy c.latest_outcome
    && fresh c.last_observed_at now c.cadence

-- The second loop.
unfoldable pub from_checks : List Check → ℕ → State
unfolding proves_available
from_checks [] now = State.unknown
from_checks (c ∷ cs) now = if proves_available c now then State.available else from_checks cs now

-- The first loop, with what follows it; `impaired` is the local variable.
unfoldable pub from_conditions : Bool → List Condition → List Check → ℕ → State
unfolding from_checks
from_conditions impaired [] checks now = if impaired then State.degraded else from_checks checks now
from_conditions impaired (c ∷ cs) checks now =
    let rest =
      from_conditions (if counts c now && impairs_functioning c.kind then true else impaired) cs
        checks now in
    if counts c now && same_kind c.kind Kind.unavailable then State.unavailable else rest

unfoldable pub evaluate : Facts → ℕ → State
unfolding from_conditions
evaluate f now = from_conditions false f.conditions f.checks now

unfoldable pub worst_from : State → List State → State
unfolding rank
worst_from worst [] = worst
worst_from worst (s ∷ ss) = worst_from (if ltb (rank worst) (rank s) then s else worst) ss

unfoldable pub overall : List State → State
unfolding worst_from
overall [] = State.unset
overall (s ∷ ss) = worst_from State.available (s ∷ ss)
