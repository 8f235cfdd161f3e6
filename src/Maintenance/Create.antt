-- ===== src/Maintenance/Create.antt =====
-- Create of internal/maintenance, from the request to the rows.
use cairnops.Common.{
  ℕ, suc, ◌+◌, ◌*◌, String, Bool, false, ◌&&◌, ltb, leb, ◌==◌, if◌then◌else◌, Option, none, some,
  List, [], ◌∷◌, length, exists, select,
}
use cairnops.Common.Text.{runes}
use cairnops.Common.Result.{Result, ok, err, ◌>>=◌, invalid_input, failed}
use cairnops.Maintenance.Calendar.{read_date}
use cairnops.Maintenance.Recurrence.{day, Zone, Recurrence, Occurrence, CreateInput, occurrences}
use cairnops.Maintenance.Store.{Maintenance, Tables, View, get}
use cairnops.Maintenance.Input.{read_uuid, checked}

abbrev pub is_target_of : List String → ℕ → Bool
is_target_of target_ids t =
    exists (λ s. elim (read_uuid (runes s)) [ none ↦ false | some id ↦ id == t ]) target_ids

unfoldable pub attached : CreateInput → Tables → List ℕ
attached input db = select (is_target_of input.target_ids) db.targets

unfoldable pub inserted : ℕ → CreateInput → Option ℕ → Occurrence → Tables → Maintenance
inserted actor_id input series_id window db = record {
  id = db.next_id;
  name = input.name;
  reason = input.reason;
  starts_at = window.starts_at;
  ends_at = window.ends_at;
  cancelled_at = none;
  cancelled_by = none;
  created_by = actor_id;
  created_at = db.now;
  series_id = series_id;
  extension_count = 0;
  targets = attached input db;
}

-- One round of the loop over the windows, with the CHECKs of the table on the times.
unfoldable pub insert_window : ℕ → CreateInput → Option ℕ → Occurrence → Tables → Result Tables
insert_window actor_id input series_id window db =
    if ltb window.starts_at window.ends_at && leb window.ends_at (window.starts_at + 31 * day)
    then if length (attached input db) == length input.target_ids
      then ok (record db {
        next_id = suc db.next_id;
        maintenances = inserted actor_id input series_id window db ∷ db.maintenances;
      })
      else err invalid_input
    else err failed

unfoldable pub insert_windows :
    ℕ → CreateInput → Option ℕ → List Occurrence → Tables → Result Tables
insert_windows actor_id input series_id [] db = ok db
insert_windows actor_id input series_id (window ∷ windows) db =
    insert_window actor_id input series_id window db >>= λ db'.
    insert_windows actor_id input series_id windows db'

unfoldable pub insert_series : Option Recurrence → Tables → Result (Tables × Option ℕ)
insert_series none db = ok (db, none)
insert_series (some rule) db = elim (read_date rule.until) [
  | none ↦ err failed
  | some until ↦ ok (
    record db {
      next_id = suc db.next_id;
      series = record { id = db.next_id; timezone = rule.timezone; until_date = until } ∷ db.series;
    },
    some db.next_id,
  )
]

-- The transaction: the tables that it commits, with the identifier of the first window.
module _ (load_location : String → Option Zone) where
  unfoldable pub create_rows : ℕ → CreateInput → Tables → Result (Tables × ℕ)
  create_rows actor_id input db = occurrences load_location input >>= λ windows.
      insert_series input.recurrence db >>= λ begun.
      insert_windows actor_id input begun.1 windows begun.0 >>= λ db'. ok (db', begun.0.next_id)

  unfoldable pub store_create : ℕ → CreateInput → Tables → Tables × Result View
  store_create actor_id input db = elim (create_rows actor_id input db) [
    | err e ↦ (db, err e)
    | ok (db', id) ↦ (db', get id db')
  ]

  -- The service, whose clock is not the database's.
  unfoldable pub create : ℕ → ℕ → CreateInput → Tables → Tables × Result View
  create clock actor_id input db =
      elim (checked clock input >>= λ normal.
      occurrences load_location normal >>= λ windows. ok normal) [
        | err e ↦ (db, err e)
        | ok normal ↦ store_create actor_id normal db
      ]
