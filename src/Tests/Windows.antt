-- ===== src/Tests/Windows.antt =====
-- The maintenance windows of internal/maintenance at concrete inputs: a weekly series that crosses the
-- change to summer time.
use cairnops.Common.{
  ℕ, ◌+◌, ◌*◌, ◌≤◌, ◌≡◌, refl, subst, String, str_eq, true, if◌then◌else◌, ltb, ◌==◌, Bool-cases,
  Option, none, some, some_eq, List, [], ◌∷◌, All, length, exists, inl, inr, arith,
}
use cairnops.Common.Int.{pos}
use cairnops.Common.Result.{ok}
use cairnops.Maintenance.Calendar.{
  is_leap, days_in_month, days_in_year, days_before_year, months_before, day_number, find_month,
  find_year, date_of, add_year, read_two, read_four, check_date, read_date,
}
use cairnops.Maintenance.Recurrence.{
  second, hour, day, Zone, ahead, behind, in_zone, offsets, reads_as, consider, first_fitting,
  local_time, weekly, later_occurrences, recurrent, repeated, by_rule, occurrences, Recurrence,
  Occurrence, CreateInput,
}
use cairnops.Maintenance.Recurrence.Local.{IsBounded, IsSteady, local_time-IsFirst}
use cairnops.Maintenance.Recurrence.Weekly.{IsWeek}
use cairnops.Maintenance.Recurrence.Series.{
  occurrences_bounds, occurrences_complete, occurrences-All-IsWeek,
}

-- 2026-03-15, and the changes of 2026 in Europe/Paris.
abbrev pub sunday : ℕ
sunday = 740055

abbrev pub paris : Zone
paris t =
    if ltb t ((sunday + 14) * day + hour)
    then pos 3600
    else if ltb t ((sunday + 224) * day + hour)
    then pos 7200
    else pos 3600

abbrev pub load : String → Option Zone
load name = if str_eq name "Europe/Paris" then some paris else none

sunday-date : date_of sunday ≡ record { year = 2026; month = 3; day = 15 }
unfolding date_of find_year find_month days_in_year days_in_month is_leap
sunday-date = refl

leap_day :
    add_year (day_number (record { year = 2024; month = 2; day = 29 }))
    ≡ day_number (record { year = 2025; month = 3; day = 1 })
unfolding add_year day_number date_of find_year find_month days_in_year days_in_month is_leap
    days_before_year months_before
leap_day = refl

-- 02:30 does not exist on the 29th of March, and is read twice on the 25th of October.
gap : local_time paris ((sunday + 14) * day + 2 * hour + 1800 * second) ≡ none
unfolding local_time first_fitting consider reads_as offsets behind ahead
gap = refl

fold :
    local_time paris ((sunday + 224) * day + 2 * hour + 1800 * second)
    ≡ some ((sunday + 224) * day + 1800 * second)
unfolding local_time first_fitting consider reads_as offsets behind ahead
fold = refl

abbrev rule : Recurrence
rule = record {
  frequency = "weekly";
  timezone = "Europe/Paris";
  until = 50 ∷ 48 ∷ 50 ∷ 54 ∷ 45 ∷ 48 ∷ 52 ∷ 45 ∷ 48 ∷ 53 ∷ [];
}

-- Two hours from 02:30 on, on Sundays until the 5th of April.
abbrev pub input : CreateInput
input = record {
  name = "Sauvegarde";
  reason = "Copie hebdomadaire";
  target_ids = "00000000-0000-0000-0000-00000000000A" ∷ [];
  starts_at = sunday * day + hour + 1800 * second;
  ends_at = sunday * day + 3 * hour + 1800 * second;
  recurrence = some rule;
}

abbrev window : ℕ → Occurrence
window starts_at = record { starts_at = starts_at; ends_at = starts_at + 2 * hour }

abbrev windows : List Occurrence
windows =
    window (sunday * day + hour + 1800 * second)
    ∷ window ((sunday + 7) * day + hour + 1800 * second)
    ∷ window ((sunday + 21) * day + 1800 * second)
    ∷ []

planned : occurrences load input ≡ ok windows
unfolding occurrences by_rule repeated recurrent later_occurrences weekly local_time first_fitting
    consider reads_as offsets behind ahead read_date read_two read_four check_date day_number
    days_before_year months_before days_in_month is_leap add_year date_of find_year find_month
    days_in_year
planned = refl

until_date : read_date rule.until ≡ some (record { year = 2026; month = 4; day = 5 })
unfolding read_date read_two read_four check_date days_in_month is_leap
until_date = refl

paris-IsBounded : IsBounded paris
paris-IsBounded t = ground arith

pub load-IsBounded : (name : String) (zone : Zone) → load name ≡ some zone → IsBounded zone
load-IsBounded name zone h = elim (Bool-cases (str_eq name "Europe/Paris")) [
  | inl e ↦ subst IsBounded (some_eq (rw e at h)) paris-IsBounded
  | inr e ↦ cc (rw e at h)
]

fold-IsSteady :
    IsSteady paris ((sunday + 224) * day + 2 * hour + 1800 * second) paris-IsBounded (omega arith)
fold-IsSteady = record {
  before = λ t low high. ground (arith, low, high);
  after = λ t low high. ground (arith, low, high);
}

local_time-IsFirst_example :
    (s : ℕ) × (local_time paris ((sunday + 224) * day + 2 * hour + 1800 * second) ≡ some s)
    × (in_zone paris s ≡ (sunday + 224) * day + 2 * hour + 1800 * second)
    × (s ≤ (sunday + 224) * day + hour + 1800 * second)
unfolding ahead
local_time-IsFirst_example =
    local_time-IsFirst paris ((sunday + 224) * day + 2 * hour + 1800 * second) paris-IsBounded
      (omega arith) ((sunday + 224) * day + hour + 1800 * second) fold-IsSteady refl

occurrences_bounds_example : (length windows ≤ 4) × (length windows ≤ 53)
unfolding day_number ahead is_leap days_before_year months_before days_in_month
occurrences_bounds_example =
    occurrences_bounds load paris rule (record { year = 2026; month = 4; day = 5 }) input windows
      refl until_date refl planned

occurrences_complete_example :
    exists (λ (w : Occurrence). w.starts_at == (sunday + 21) * day + 1800 * second) windows ≡ true
unfolding local_time first_fitting consider reads_as offsets behind ahead day_number
    days_before_year months_before days_in_month is_leap
occurrences_complete_example =
    occurrences_complete load paris rule (record { year = 2026; month = 4; day = 5 }) input windows
      refl until_date refl planned 2 ((sunday + 21) * day + 1800 * second) (omega arith) refl

occurrences-All-IsWeek_example :
    All
      (IsWeek paris
        (day_number (record { year = 2026; month = 4; day = 5 }))
        (2 * hour + 1800 * second)
        (2 * hour)
        sunday)
      windows
unfolding ahead
occurrences-All-IsWeek_example =
    occurrences-All-IsWeek load paris rule (record { year = 2026; month = 4; day = 5 }) input
      windows refl until_date refl planned paris-IsBounded (omega arith)
