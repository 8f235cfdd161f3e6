-- ===== src/Maintenance/Recurrence/Series.antt =====
-- The windows that `occurrences` returns for a recurrent maintenance.
use cairnops.Common.{
  ℕ, ◌+◌, ◌-◌, ◌*◌, ◌/◌, ◌%◌, ◌≤◌, ◌<◌, ◌≡◌, subst, String, true, ◌==◌, Option, some, List, ◌∷◌,
  length, All, All-mono, exists, arith,
}
use cairnops.Common.Result.{ok}
use cairnops.Maintenance.Calendar.{Date, day_number, read_date, add_year}
use cairnops.Maintenance.Calendar.Laws.{add_year_bounds}
use cairnops.Maintenance.Recurrence.{
  day, zero_time, Zone, in_zone, Recurrence, Occurrence, CreateInput, local_time, weekly,
  later_occurrences, recurrent, repeated, by_rule, occurrences,
}
use cairnops.Maintenance.Recurrence.Local.{IsBounded}
use cairnops.Maintenance.Recurrence.Weekly.{
  IsApart, IsWeek, IsWeek-next, reading_bounds, or_true, weekly-All-IsWeek, week_after,
  weekly-IsApart, length-weekly, weekly_complete,
}

-- What the guards of `occurrences` establish.
pub record IsRecurrent (zone : Zone) (last : ℕ) (input : CreateInput) (ws : List Occurrence)
    : Type 0 where
  pub from_week : in_zone zone input.starts_at / day + 7 ≤ last
  pub to_year : last ≤ add_year (in_zone zone input.starts_at / day)
  pub lasts : input.starts_at < input.ends_at
  pub at_most_day : input.ends_at - input.starts_at ≤ day
  pub at_least_two : 2 ≤ length ws
  pub are :
      ws
      ≡ record { starts_at = input.starts_at; ends_at = input.ends_at }
        ∷ later_occurrences zone last input.starts_at input.ends_at

pub recurrent-IsRecurrent :
    (zone : Zone) (last : ℕ) (input : CreateInput) (ws : List Occurrence)
    → recurrent zone last input ≡ ok ws
    → IsRecurrent zone last input ws
unfolding recurrent
recurrent-IsRecurrent zone last input ws h = ground arith

module _ (load_location : String → Option Zone) (zone : Zone) (rule : Recurrence) (until : Date)
    (input : CreateInput) (ws : List Occurrence) (located : load_location rule.timezone ≡ some zone)
    (dated : read_date rule.until ≡ some until) where
  pub repeated-recurrent :
      repeated load_location input rule ≡ ok ws → recurrent zone (day_number until) input ≡ ok ws
  unfolding repeated
  repeated-recurrent h = ground arith

  module _ (repeats : input.recurrence ≡ some rule)
      (accepted : occurrences load_location input ≡ ok ws) where
    occurrences-IsRecurrent : IsRecurrent zone (day_number until) input ws
    unfolding occurrences by_rule
    occurrences-IsRecurrent =
        recurrent-IsRecurrent zone (day_number until) input ws
          (repeated-recurrent (subst (λ r. by_rule load_location input r ≡ ok ws) repeats accepted))

    g : IsRecurrent zone (day_number until) input ws
    g = occurrences-IsRecurrent

    -- The local date and time of day of the first start, and the length of a window.
    abbrev pub date : ℕ
    date = in_zone zone input.starts_at / day

    abbrev pub time_of_day : ℕ
    time_of_day = in_zone zone input.starts_at % day

    abbrev pub duration : ℕ
    duration = input.ends_at - input.starts_at

    -- A series has at most one window more than the whole weeks from the local date of its first start to
    -- its last day, and never more than 53.
    pub occurrences_bounds : (length ws ≤ 1 + (day_number until - date) / 7) × (length ws ≤ 53)
    unfolding later_occurrences
    occurrences_bounds = rw g.are (
      omega (arith, g.from_week, weeks),
      omega (arith, add_year_bounds date, g.to_year, g.from_week, weeks),
    )
      where
        weeks :
            length (
              weekly zone
                (day_number until)
                time_of_day
                duration
                (day_number until - date)
                (date + 7))
            ≤ (day_number until + 7 - (date + 7)) / 7
        weeks =
            length-weekly zone (day_number until) time_of_day duration (day_number until - date)
              (date + 7)

    -- Where a later week's civil time exists, the series has the window that starts then.
    pub occurrences_complete :
        (k start : ℕ)
        → date + 7 * (k + 1) ≤ day_number until
        → local_time zone ((date + 7 * (k + 1)) * day + time_of_day) ≡ some start
        → exists (λ w. w.starts_at == start) ws ≡ true
    unfolding later_occurrences
    occurrences_complete k start u found = rw g.are (
        rw
          (weekly_complete zone (day_number until) time_of_day duration (day_number until - date)
            (date + 7) k start (omega (arith, g.from_week)) (omega arith)
            (subst (λ c. local_time zone c ≡ some start) (omega arith) found))
          (or_true (input.starts_at == start)))

    module _ (bounded : IsBounded zone) (late : zero_time + 4 * day ≤ input.starts_at) where
      from_year_one : zero_time + 2 * day ≤ (date + 7) * day
      from_year_one =
          omega
            (arith, reading_bounds (zone input.starts_at) input.starts_at (bounded input.starts_at))

      later-All :
          All
            (IsWeek zone (day_number until) time_of_day duration (date + 7))
            (later_occurrences zone (day_number until) input.starts_at input.ends_at)
      unfolding later_occurrences
      later-All =
          weekly-All-IsWeek zone (day_number until) time_of_day duration (day_number until - date)
            (date + 7) bounded from_year_one

      -- Every window of a series starts at the local time of the first one, some weeks after it and
      -- not after the last day, and is as long as the first.
      pub occurrences-All-IsWeek : All (IsWeek zone (day_number until) time_of_day duration date) ws
      occurrences-All-IsWeek = rw g.are (
        (0, omega arith, omega (arith, g.from_week), omega (arith, g.lasts)),
        All-mono (IsWeek zone (day_number until) time_of_day duration (date + 7))
            (IsWeek zone (day_number until) time_of_day duration date)
            (later_occurrences zone (day_number until) input.starts_at input.ends_at)
            (IsWeek-next zone (day_number until) time_of_day duration date) later-All,
      )

      pub occurrences-IsApart : IsApart ws
      unfolding later_occurrences
      occurrences-IsApart = rw g.are (
        All-mono (IsWeek zone (day_number until) time_of_day duration (date + 7))
            (λ v. input.ends_at ≤ v.starts_at)
            (later_occurrences zone (day_number until) input.starts_at input.ends_at)
            (λ v week. omega (
              arith,
              g.lasts,
              week_after zone (day_number until) time_of_day duration date input.starts_at v bounded
                  g.at_most_day (omega arith) week,
            ))
            later-All,
        weekly-IsApart zone (day_number until) time_of_day duration (day_number until - date)
            (date + 7) bounded g.at_most_day from_year_one,
      )
