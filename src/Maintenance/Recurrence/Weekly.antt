-- ===== src/Maintenance/Recurrence/Weekly.antt =====
-- The weekly windows of a series: when they start, how long they last, that none is left out, and that
-- they do not overlap.
use cairnops.Common.{
  ℕ, zero, suc, ◌+◌, ◌-◌, ◌*◌, ◌/◌, ◌≤◌, ◌<◌, ◌≡◌, refl, ◌∙◌, subst, Bool, true, false, ◌||◌, ltb,
  ◌==◌, ltb-false, Bool-cases, Option-cases, inl, inr, some, List, [], ◌∷◌, length, All, All-mono,
  exists, arith, ==_refl,
}
use cairnops.Common.Int.{ℤ, pos, negsuc, pos_part, neg_part}
use cairnops.Maintenance.Recurrence.{
  day, zero_time, Zone, ahead, in_zone, Occurrence, local_time, weekly,
}
use cairnops.Maintenance.Recurrence.Local.{IsBounded, local_time-reads}

-- Windows in ascending order, none of which starts before the end of another.
abbrev pub IsApart : List Occurrence → Type 0
IsApart [] = Unit
IsApart (w ∷ ws) = All (λ v. w.ends_at ≤ v.starts_at) ws × IsApart ws

open_week : (last date : ℕ) → date ≤ last → ltb last date ≡ false
open_week last date h = ground arith

pub or_true : (b : Bool) → (b || true) ≡ true
or_true true = refl
or_true false = refl

pub reading_bounds :
    (o : ℤ) (t : ℕ)
    → pos_part o + neg_part o ≤ 86400
    → (ahead o t ≤ t + day) × (t ≤ ahead o t + day)
unfolding ahead
reading_bounds (pos n) t b = omega arith
reading_bounds (negsuc n) t b = omega arith

module _ (zone : Zone) (last time_of_day duration : ℕ) where
  -- A window that starts at the time of day, in local time, some weeks after a date.
  abbrev pub IsWeek : ℕ → Occurrence → Type 0
  IsWeek date w =
      (k : ℕ) × (in_zone zone w.starts_at ≡ (date + 7 * k) * day + time_of_day)
      × (date + 7 * k ≤ last)
      × (w.ends_at ≡ w.starts_at + duration)

  pub IsWeek-next : (date : ℕ) (w : Occurrence) → IsWeek (date + 7) w → IsWeek date w
  IsWeek-next date w (k, at_time, until, lasts) = (suc k, at_time ∙ omega arith, omega arith, lasts)

  pub weekly-All-IsWeek :
      (n date : ℕ)
      → IsBounded zone
      → zero_time + 2 * day ≤ date * day
      → All (IsWeek date) (weekly zone last time_of_day duration n date)
  unfolding weekly
  weekly-All-IsWeek zero date b l = tt
  weekly-All-IsWeek (suc n) date b l =
      let later =
        All-mono (IsWeek (date + 7)) (IsWeek date)
          (weekly zone last time_of_day duration n (date + 7)) (IsWeek-next date)
          (weekly-All-IsWeek n (date + 7) b (omega arith)) in
      elim (Bool-cases (ltb last date)) [
        | inl e ↦ rw e tt
        | inr e ↦ elim (Option-cases (local_time zone (date * day + time_of_day))) [
          | inl gap ↦ rw (e, gap) later
          | inr (start, found) ↦ rw (e, found) (first start e found, later)
        ]
      ]
    where
      first :
          (start : ℕ)
          → ltb last date ≡ false
          → local_time zone (date * day + time_of_day) ≡ some start
          → IsWeek date (record { starts_at = start; ends_at = start + duration })
      first start e found = (
        0,
        local_time-reads zone (date * day + time_of_day) b (omega arith) found ∙ omega arith,
        omega (arith, ltb-false last date e),
        refl,
      )

  -- A week after, whatever the offsets, a window of at most a day has ended.
  pub week_after :
      (date start : ℕ) (v : Occurrence)
      → IsBounded zone
      → duration ≤ day
      → in_zone zone start ≡ date * day + time_of_day
      → IsWeek (date + 7) v
      → start + duration ≤ v.starts_at
  week_after date start v b d e (k, at_time, until, lasts) = omega (
    arith,
    reading_bounds (zone start) start (b start),
    reading_bounds (zone v.starts_at) v.starts_at (b v.starts_at),
    e,
    at_time,
  )

  pub weekly-IsApart :
      (n date : ℕ)
      → IsBounded zone
      → duration ≤ day
      → zero_time + 2 * day ≤ date * day
      → IsApart (weekly zone last time_of_day duration n date)
  unfolding weekly
  weekly-IsApart zero date b d l = tt
  weekly-IsApart (suc n) date b d l =
      let later = weekly-IsApart n (date + 7) b d (omega arith) in
      elim (Bool-cases (ltb last date)) [
        | inl e ↦ rw e tt
        | inr e ↦ elim (Option-cases (local_time zone (date * day + time_of_day))) [
          | inl gap ↦ rw (e, gap) later
          | inr (start, found) ↦ rw (e, found) (after start found, later)
        ]
      ]
    where
      after :
          (start : ℕ)
          → local_time zone (date * day + time_of_day) ≡ some start
          → All
              (λ v. start + duration ≤ v.starts_at)
              (weekly zone last time_of_day duration n (date + 7))
      after start found =
          All-mono (IsWeek (date + 7)) (λ v. start + duration ≤ v.starts_at)
            (weekly zone last time_of_day duration n (date + 7))
            (λ v.
              week_after date start v b d
                (local_time-reads zone (date * day + time_of_day) b (omega arith) found))
            (weekly-All-IsWeek n (date + 7) b (omega arith))

  -- However many rounds the loop is given, it stops after the last day.
  pub length-weekly :
      (n date : ℕ) → length (weekly zone last time_of_day duration n date) ≤ (last + 7 - date) / 7
  unfolding weekly
  length-weekly zero date = omega arith
  length-weekly (suc n) date =
      let later = length-weekly n (date + 7) in
      elim (Bool-cases (ltb last date)) [
        | inl e ↦ rw e (omega arith)
        | inr e ↦ elim (Option-cases (local_time zone (date * day + time_of_day))) [
          | inl gap ↦ rw (e, gap) (omega (arith, later))
          | inr (start, found) ↦ rw (e, found) (omega (arith, later, ltb-false last date e))
        ]
      ]

  -- A week whose civil time exists has its window, where the rounds reach the last day.
  pub weekly_complete :
      (n date k start : ℕ)
      → last < date + 7 * n
      → date + 7 * k ≤ last
      → local_time zone ((date + 7 * k) * day + time_of_day) ≡ some start
      → exists (λ w. w.starts_at == start) (weekly zone last time_of_day duration n date) ≡ true
  unfolding weekly
  weekly_complete zero date k start r h found = absurd (omega arith)
  weekly_complete (suc n) date zero start r h found =
      rw (open_week last date (omega arith), this_week) (rw (==_refl start) refl)
    where
      this_week : local_time zone (date * day + time_of_day) ≡ some start
      this_week = subst (λ c. local_time zone c ≡ some start) (omega arith) found
  weekly_complete (suc n) date (suc k) start r h found =
      let rest =
        weekly_complete n (date + 7) k start (omega arith) (omega arith)
          (subst (λ c. local_time zone c ≡ some start) (omega arith) found) in
      elim (Option-cases (local_time zone (date * day + time_of_day))) [
        | inl gap ↦ rw (open_week last date (omega arith), gap) rest
        | inr (s, e) ↦ rw (open_week last date (omega arith), e) (rw rest (or_true (s == start)))
      ]
