-- ===== src/Health/Conclusions.antt =====
-- When each health state is concluded, and that freshness is a window around now.
use cairnops.Common.{
  ℕ, ◌==◌, ◌+◌, ◌*◌, ◌≤◌, ◌<◌, ◌≡◌, ◌≢◌, ◌↔◌, ◌⊎◌, refl, some, List, [], ◌∷◌, arith, Bool, true,
  false, ◌&&◌, ◌||◌, All, exists, if◌then◌else◌, ltb, ◌∙◌,
}
use cairnops.Common.Int.{pos, scale64, sub_time, wrap64_pos}
use cairnops.AlertText.{Kind, same_kind, impairs_functioning}
use cairnops.Health.{
  State, rank, clock_skew, freshness_window, fresh, Check, Condition, Facts, counts,
  proves_available, from_checks, from_conditions, evaluate, worst_from, overall,
}

-- Fresh says of an instant other than the zero time, for a cadence of up to 2^61 ns (73 years) and
-- clocks less than 2^62 ns apart, that it lies at most a minute ahead of now and at most three
-- cadences back, or 15 minutes where that is longer, a cadence of 0 counting as 5 minutes.
fresh_iff :
    (instant now cadence : ℕ)
    → instant ≢ 0
    → cadence < 2305843009213693952
    → instant < now + 4611686018427387904
    → now < instant + 4611686018427387904
    → (fresh (some instant) now (pos cadence) ≡ true) ↔ (
        (instant ≤ now + clock_skew)
        × ((now ≤ instant + 900000000000) ⊎ (now ≤ instant + 3 * cadence)))
unfolding fresh freshness_window sub_time scale64
fresh_iff instant now cadence z c h k = ground (arith, wrap64_pos (3 * cadence))

-- A condition that counts now: not invalidated and seen within the default freshness.
abbrev pub down : ℕ → Condition → Bool
down now c = counts c now && same_kind c.kind Kind.unavailable

abbrev pub impaired_by : ℕ → Condition → Bool
impaired_by now c = counts c now && impairs_functioning c.kind

from_checks_lem :
    (cs : List Check) (now : ℕ)
    → from_checks cs now
      ≡ (if exists (λ c. proves_available c now) cs then State.available else State.unknown)
unfolding from_checks
from_checks_lem [] now = refl
from_checks_lem (c ∷ cs) now = ground (arith, from_checks_lem cs now)

from_conditions_lem :
    (impaired : Bool) (cs : List Condition) (checks : List Check) (now : ℕ)
    → from_conditions impaired cs checks now ≡ (
        if exists (down now) cs
        then State.unavailable
        else if impaired || exists (impaired_by now) cs
        then State.degraded
        else from_checks checks now)
unfolding from_conditions
from_conditions_lem impaired [] checks now = ground arith
from_conditions_lem impaired (c ∷ cs) checks now =
    ground
      (arith, from_conditions_lem impaired cs checks now, from_conditions_lem true cs checks now)

-- A resource is unavailable where some condition that counts (not invalidated and fresh) is an
-- unavailability, whatever the order; else degraded where one that counts impairs it; else
-- available where an enabled check of availability has a fresh healthy outcome; else unknown.
pub evaluate_lem :
    (f : Facts) (now : ℕ)
    → evaluate f now ≡ (
        if exists (down now) f.conditions
        then State.unavailable
        else if exists (impaired_by now) f.conditions
        then State.degraded
        else if exists (λ c. proves_available c now) f.checks
        then State.available
        else State.unknown)
unfolding evaluate
evaluate_lem f now =
    from_conditions_lem false f.conditions f.checks now
    ∙ (rw (from_checks_lem f.checks now) (ground arith))

rank-worst_from :
    (w : State) (ss : List State)
    → (rank w ≤ rank (worst_from w ss)) × All (λ s. rank s ≤ rank (worst_from w ss)) ss
unfolding worst_from
rank-worst_from w [] = (omega arith, tt)
rank-worst_from w (s ∷ ss) =
    ground (arith, rank-worst_from (if ltb (rank w) (rank s) then s else w) ss)

worst_from-exists :
    (k : ℕ) (w : State) (ss : List State)
    → rank (worst_from w ss) ≡ k
    → exists (λ s. rank s == k) (w ∷ ss) ≡ true
unfolding worst_from
worst_from-exists k w [] h = ground (arith, h)
worst_from-exists k w (s ∷ ss) h =
    ground (arith, worst_from-exists k (if ltb (rank w) (rank s) then s else w) ss h)

-- The overall state of one resource or more ranks at least as high as each of them, and ranks as one
-- of them or as available.
pub overall-rank :
    (s : State) (ss : List State)
    → All (λ r. rank r ≤ rank (overall (s ∷ ss))) (s ∷ ss)
      × (exists (λ r. rank r == rank (overall (s ∷ ss))) (State.available ∷ s ∷ ss) ≡ true)
unfolding overall
overall-rank s ss = (
  (rank-worst_from State.available (s ∷ ss)).1,
  worst_from-exists _ State.available (s ∷ ss) refl,
)
