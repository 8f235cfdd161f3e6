-- ===== src/Maintenance/Recurrence.antt =====
-- internal/maintenance/recurrence.go. A time is a number of microseconds, which is what the database
-- keeps, from 0000-01-01 in UTC; the zero time of Go is the first of January of year 1. A zone gives
-- its offset in seconds at every instant, as `Zone` does. The table of zones is a parameter.
pub mod Local
pub mod Weekly
pub mod Series
use cairnops.Common.{
  ℕ, zero, suc, ◌+◌, ◌-◌, ◌*◌, ◌/◌, ◌%◌, String, str_eq, Bool, true, false, ◌||◌, ◌&&◌, ltb, leb,
  ◌==◌, if◌then◌else◌, Option, none, some, List, [], ◌∷◌, length,
}
use cairnops.Common.Int.{ℤ, pos, negsuc}
use cairnops.Common.Text.{Text}
use cairnops.Common.Result.{Result, ok, err, invalid_input}
use cairnops.Maintenance.Calendar.{Date, day_number, read_date, add_year}

abbrev pub second : ℕ
second = 1000000

abbrev pub hour : ℕ
hour = 3600 * second

abbrev pub day : ℕ
day = 24 * hour

abbrev pub zero_time : ℕ
zero_time = 366 * day

abbrev pub Zone : Type 0
Zone = ℕ → ℤ

pub record Recurrence : Type 0 where
  pub frequency : String
  pub timezone : String
  pub until : Text

pub record Occurrence : Type 0 where
  pub starts_at : ℕ
  pub ends_at : ℕ

pub record CreateInput : Type 0 where
  pub name : String
  pub reason : String
  pub target_ids : List String
  pub starts_at : ℕ
  pub ends_at : ℕ
  pub recurrence : Option Recurrence

-- An instant as its zone reads it, and the instant of a reading under an offset.
unfoldable pub ahead : ℤ → ℕ → ℕ
ahead (pos n) t = t + n * second
ahead (negsuc n) t = t - suc n * second

unfoldable pub behind : ℤ → ℕ → ℕ
behind (pos n) t = t - n * second
behind (negsuc n) t = t + suc n * second

abbrev pub in_zone : Zone → ℕ → ℕ
in_zone zone t = ahead (zone t) t

-- The offsets that are in force around a civil time, from two days before to two days after.
unfoldable pub offsets : Zone → ℕ → List ℤ
offsets zone civil =
    zone (civil - 48 * hour)
    ∷ zone (civil - 24 * hour)
    ∷ zone civil
    ∷ zone (civil + 24 * hour)
    ∷ zone (civil + 48 * hour)
    ∷ []

-- The fields of `projected`, from the year to the second, are those that were asked for.
unfoldable pub reads_as : Zone → ℕ → ℕ → Bool
unfolding ahead
reads_as zone civil candidate = in_zone zone candidate / second == civil / second

-- One offset of the loop. The zero time stands for no candidate so far.
unfoldable pub consider : Zone → ℕ → ℕ → ℤ → ℕ
unfolding reads_as behind
consider zone civil first offset =
    let candidate = behind offset civil in
    if reads_as zone civil candidate && (first == zero_time || ltb candidate first)
    then candidate
    else first

unfoldable pub first_fitting : Zone → ℕ → ℕ → List ℤ → ℕ
first_fitting zone civil first [] = first
first_fitting zone civil first (offset ∷ rest) =
    first_fitting zone civil (consider zone civil first offset) rest

unfoldable pub local_time : Zone → ℕ → Option ℕ
local_time zone civil =
    let first = first_fitting zone civil zero_time (offsets zone civil) in
    if first == zero_time then none else some first

-- The loop over the weeks, with at most n rounds, which stops at the first date after the last day;
-- `time_of_day` is the local time of the first start.
module _ (zone : Zone) (last time_of_day duration : ℕ) where
  unfoldable pub weekly : ℕ → ℕ → List Occurrence
  weekly zero date = []
  weekly (suc n) date =
      let rest = weekly n (date + 7) in
      if ltb last date then [] else elim (local_time zone (date * day + time_of_day)) [
        | none ↦ rest
        | some start ↦ record { starts_at = start; ends_at = start + duration } ∷ rest
      ]

-- From the local date of the first start on, with a round for each day that is left: more than the weeks.
unfoldable pub later_occurrences : Zone → ℕ → ℕ → ℕ → List Occurrence
later_occurrences zone last starts_at ends_at =
    let local = in_zone zone starts_at in
    let date = local / day in
    weekly zone last (local % day) (ends_at - starts_at) (last - date) (date + 7)

-- The items where the rule is readable: `last` is the day of `Until`.
unfoldable pub recurrent : Zone → ℕ → CreateInput → Result (List Occurrence)
recurrent zone last input =
    let date = in_zone zone input.starts_at / day in
    let first : Occurrence = record { starts_at = input.starts_at; ends_at = input.ends_at } in
    let items = first ∷ later_occurrences zone last input.starts_at input.ends_at in
    if ltb last (date + 7) || ltb (add_year date) last
    then err invalid_input
    else if leb input.ends_at input.starts_at || ltb day (input.ends_at - input.starts_at)
    then err invalid_input
    else if ltb (length items) 2
    then err invalid_input
    else ok items

-- `time.LoadLocation` is the parameter.
module _ (load_location : String → Option Zone) where
  unfoldable pub repeated : CreateInput → Recurrence → Result (List Occurrence)
  repeated input rule =
      if str_eq rule.frequency "weekly"
      then if str_eq rule.timezone "" || str_eq rule.timezone "Local"
        then err invalid_input
        else elim (load_location rule.timezone) [
          | none ↦ err invalid_input
          | some zone ↦ elim (read_date rule.until) [
            | none ↦ err invalid_input
            | some until ↦ recurrent zone (day_number until) input
          ]
        ]
      else err invalid_input

  unfoldable pub by_rule : CreateInput → Option Recurrence → Result (List Occurrence)
  by_rule input none = ok (record { starts_at = input.starts_at; ends_at = input.ends_at } ∷ [])
  by_rule input (some rule) = repeated input rule

  unfoldable pub occurrences : CreateInput → Result (List Occurrence)
  occurrences input = by_rule input input.recurrence
