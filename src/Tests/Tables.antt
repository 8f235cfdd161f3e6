-- ===== src/Tests/Tables.antt =====
-- The requests of internal/maintenance on concrete tables.
use cairnops.Common.{ℕ, ◌+◌, ◌*◌, ◌≡◌, refl, subst, none, some, [], ◌∷◌, arith}
use cairnops.Common.Text.{is_space, trim_left, trim_right, rune_count, runes}
use cairnops.Common.Result.{Result, ok, err, conflict}
use cairnops.Maintenance.Calendar.{
  is_leap, days_in_month, days_in_year, days_before_year, months_before, day_number, find_month,
  find_year, date_of, add_year, read_two, read_four, check_date, read_date, write_date,
}
use cairnops.Maintenance.Recurrence.{
  second, hour, day, ahead, behind, offsets, reads_as, consider, first_fitting, local_time, weekly,
  later_occurrences, recurrent, repeated, by_rule, occurrences,
}
use cairnops.Maintenance.Input.{
  hex_value, read_hex, read_uuid, valid_uuid, collect, check_texts, check_times, checked,
}
use cairnops.Maintenance.Store.{
  Maintenance, Tables, View, active, upcoming, state_of, recurrence_of, view, get,
}
use cairnops.Maintenance.Create.{
  attached, inserted, insert_window, insert_windows, insert_series, create_rows, store_create,
  create,
}
use cairnops.Maintenance.Changes.{
  is_open, cancelled_row, same_series, cancel_series, cancel_row_series, half_hour, is_following,
  can_extend, extended_window, extension_of, store_extend, extend,
}
use cairnops.Maintenance.Overlap.{IsSound}
use cairnops.Maintenance.Overlap.Runs.{none_yet, Reach, start, creates, time_passes, Reach-IsSound}
use cairnops.Maintenance.Shown.{create-recurrence}
use cairnops.Maintenance.Retries.{extend-again}
use cairnops.Tests.Windows.{sunday, load, load-IsBounded, input}

abbrev clock : ℕ
clock = sunday * day

abbrev row : ℕ → ℕ → Maintenance
row id starts_at = record {
  id = id;
  name = "Sauvegarde";
  reason = "Copie hebdomadaire";
  starts_at = starts_at;
  ends_at = starts_at + 2 * hour;
  cancelled_at = none;
  cancelled_by = none;
  created_by = 7;
  created_at = clock;
  series_id = some 1;
  extension_count = 0;
  targets = 10 ∷ [];
}

-- The series, and its windows in the order of their insertion, from the last one.
abbrev created : Tables
created = record {
  now = clock;
  next_id = 5;
  targets = 10 ∷ [];
  series =
      record {
        id = 1;
        timezone = "Europe/Paris";
        until_date = record { year = 2026; month = 4; day = 5 };
      }
      ∷ [];
  maintenances =
      row 4 ((sunday + 21) * day + 1800 * second)
      ∷ row 3 ((sunday + 7) * day + hour + 1800 * second)
      ∷ row 2 (sunday * day + hour + 1800 * second)
      ∷ [];
  extensions = [];
}

abbrev shown : View
shown = record {
  row = row 2 (sunday * day + hour + 1800 * second);
  state = upcoming;
  recurrence = input.recurrence;
}

creates_three : create load clock 7 input (none_yet clock (10 ∷ [])) ≡ (created, ok shown)
unfolding create checked check_texts check_times collect valid_uuid read_uuid read_hex hex_value
    store_create create_rows insert_series insert_windows insert_window inserted attached get view
    recurrence_of state_of trim_left trim_right is_space rune_count runes occurrences by_rule
    repeated recurrent later_occurrences weekly local_time first_fitting consider reads_as offsets
    behind ahead read_date read_two read_four check_date write_date day_number days_before_year
    months_before days_in_month is_leap add_year date_of find_year find_month days_in_year
creates_three = refl

create-recurrence_example : shown.recurrence ≡ input.recurrence
create-recurrence_example =
    create-recurrence load clock 7 input (none_yet clock (10 ∷ [])) created shown creates_three

abbrev running : Tables
running = record created { now = sunday * day + 2 * hour }

-- The end that the operator sees, and half an hour later.
abbrev end : ℕ
end = sunday * day + 3 * hour + 1800 * second

abbrev longer : Maintenance
longer = record (row 2 (sunday * day + hour + 1800 * second)) {
  ends_at = end + half_hour;
  extension_count = 1;
}

abbrev extended : Tables
extended = record running {
  maintenances =
      row 4 ((sunday + 21) * day + 1800 * second)
      ∷ row 3 ((sunday + 7) * day + hour + 1800 * second)
      ∷ longer
      ∷ [];
  extensions =
      record { maintenance_id = 2; actor_id = 7; previous_ends_at = end; ends_at = end + half_hour }
      ∷ [];
}

extends_one :
    extend 2 7 end running
    ≡ (extended, ok (record { row = longer; state = active; recurrence = input.recurrence }))
unfolding extend store_extend can_extend is_following same_series extended_window extension_of get
    view recurrence_of state_of write_date
extends_one = refl

reached : Reach load running
reached = time_passes (sunday * day + 2 * hour) (omega arith) (
    subst (λ (p : Tables × Result View). Reach load p.0) creates_three
      (creates clock 7 input (omega arith) (start clock (10 ∷ []))))

Reach-IsSound_example : IsSound running
Reach-IsSound_example = Reach-IsSound load running load-IsBounded reached

extend-again_example : (extend 2 8 end (record extended { now = end })).1 ≡ err conflict
extend-again_example =
    extend-again 2 7 8 end end running extended
      (record { row = longer; state = active; recurrence = input.recurrence })
      (Reach-IsSound load running load-IsBounded reached) extends_one

-- A second cancellation of the series finds nothing that is open.
cancels_three : (cancel_series 2 7 (cancel_series 4 7 running).0).1 ≡ err conflict
unfolding cancel_series cancel_row_series cancelled_row same_series is_open get view
cancels_three = refl
