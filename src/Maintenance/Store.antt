-- ===== src/Maintenance/Store.antt =====
-- internal/maintenance/store.go, and the service over it. A uuid is a number: gen_random_uuid draws
-- the next one that was never drawn. An operation returns the tables after it and its result; a
-- transaction that fails leaves them as they were. The links to targets stand in the row of their
-- maintenance. The list is read without the names of its targets and of its author.
use cairnops.Common.{
  ℕ, String, ltb, leb, ◌==◌, if◌then◌else◌, is_some, Option, none, some, List, find?,
}
use cairnops.Common.Result.{Result, ok, err, not_found}
use cairnops.Maintenance.Calendar.{Date, write_date}
use cairnops.Maintenance.Recurrence.{Recurrence}

pub record Maintenance : Type 0 where
  pub id : ℕ
  pub name : String
  pub reason : String
  pub starts_at : ℕ
  pub ends_at : ℕ
  pub cancelled_at : Option ℕ
  pub cancelled_by : Option ℕ
  pub created_by : ℕ
  pub created_at : ℕ
  pub series_id : Option ℕ
  pub extension_count : ℕ
  pub targets : List ℕ

pub record SeriesRow : Type 0 where
  pub id : ℕ
  pub timezone : String
  pub until_date : Date

pub record Extension : Type 0 where
  pub maintenance_id : ℕ
  pub actor_id : ℕ
  pub previous_ends_at : ℕ
  pub ends_at : ℕ

pub record Tables : Type 0 where
  pub now : ℕ
  pub next_id : ℕ
  pub targets : List ℕ
  pub series : List SeriesRow
  pub maintenances : List Maintenance
  pub extensions : List Extension

pub data State : Type 0 where
  cancelled upcoming active ended : State

-- A row of maintenanceSelect.
pub record View : Type 0 where
  pub row : Maintenance
  pub state : State
  pub recurrence : Option Recurrence

unfoldable pub state_of : ℕ → Maintenance → State
state_of now m =
    if is_some m.cancelled_at
    then cancelled
    else if ltb now m.starts_at
    then upcoming
    else if leb now m.ends_at
    then active
    else ended

abbrev pub shown : SeriesRow → Recurrence
shown s = record { frequency = "weekly"; timezone = s.timezone; until = write_date s.until_date }

-- The LEFT JOIN on the series.
unfoldable pub recurrence_of : List SeriesRow → Option ℕ → Option Recurrence
recurrence_of series none = none
recurrence_of series (some id) = elim (find? (λ s. s.id == id) series) [
  | none ↦ none
  | some s ↦ some (shown s)
]

unfoldable pub view : Tables → Maintenance → View
view db m = record {
  row = m;
  state = state_of db.now m;
  recurrence = recurrence_of db.series m.series_id;
}

unfoldable pub get : ℕ → Tables → Result View
get id db = elim (find? (λ m. m.id == id) db.maintenances) [
  | none ↦ err not_found
  | some m ↦ ok (view db m)
]
