-- ===== src/Maintenance/Overlap/Runs.antt =====
-- The tables of internal/maintenance that any sequence of requests can reach.
use cairnops.Common.{
  ℕ, ◌+◌, ◌*◌, ◌≤◌, ◌<◌, ◌≡◌, refl, String, Bool, true, false, ◌&&◌, if◌then◌else◌, Option, none,
  some, List, [], exists, select, ◌==◌, update_where, All-update_where, update_where-IsKeyed, inl,
  inr,
}
use cairnops.Common.Result.{Result, ok, err, conflict, Result-cases}
use cairnops.Maintenance.Recurrence.{day, zero_time, Zone, CreateInput}
use cairnops.Maintenance.Recurrence.Local.{IsBounded}
use cairnops.Maintenance.Store.{Maintenance, Tables, View, get}
use cairnops.Maintenance.Create.{create}
use cairnops.Maintenance.Changes.{
  is_open, same_series, cancel, cancel_row_series, cancel_series, store_extend, extend,
}
use cairnops.Maintenance.Overlap.{
  IsSound, overlaps, Lasts, is_drawn, update-apart, cancelled-IsSound, extended-IsSound,
}
use cairnops.Maintenance.Overlap.Created.{create-IsSound}

-- The tables before any maintenance.
abbrev pub none_yet : ℕ → List ℕ → Tables
none_yet now targets = record {
  now = now;
  next_id = 1;
  targets = targets;
  series = [];
  maintenances = [];
  extensions = [];
}

unfoldable pub unlinked : List ℕ → Maintenance → Maintenance
unlinked targets m = record m { targets = select (λ t. exists (λ u. u == t) targets) m.targets }

-- The resources change: the links of one that is gone are deleted in cascade.
unfoldable pub change_targets : List ℕ → Tables → Tables
change_targets targets db = record db {
  targets = targets;
  maintenances = update_where (λ m. true) (unlinked targets) db.maintenances;
}

module _ (load_location : String → Option Zone) where
  pub data Reach : Tables → Type 0 where
    start : (now : ℕ) (targets : List ℕ) → Reach (none_yet now targets)
    time_passes :
        {db : Tables} (now : ℕ) → db.now ≤ now → Reach db → Reach (record db { now = now })
    targets_change : {db : Tables} (targets : List ℕ) → Reach db → Reach (change_targets targets db)
    creates :
        {db : Tables} (clock actor_id : ℕ) (input : CreateInput)
        → zero_time + 35 * day ≤ clock
        → Reach db
        → Reach (create load_location clock actor_id input db).0
    cancels : {db : Tables} (id actor_id : ℕ) → Reach db → Reach (cancel id actor_id db).0
    cancels_series :
        {db : Tables} (id actor_id : ℕ) → Reach db → Reach (cancel_series id actor_id db).0
    extends :
        {db : Tables} (id actor_id expected : ℕ)
        → Reach db
        → Reach (extend id actor_id expected db).0

either-IsSound :
    (b : Bool) (x y : Tables × Result View)
    → IsSound x.0
    → IsSound y.0
    → IsSound (if b then x else y).0
either-IsSound true x y h k = h
either-IsSound false x y h k = k

cancel-IsSound : (id actor_id : ℕ) (db : Tables) → IsSound db → IsSound (cancel id actor_id db).0
unfolding cancel
cancel-IsSound id actor_id db s =
    either-IsSound _ _ _
      (cancelled-IsSound (λ m. m.id == id && is_open db.now m) db.now actor_id db s)
      (either-IsSound _ _ _ s s)

cancel_row_series-IsSound :
    (id actor_id : ℕ) (series_id : Option ℕ) (db : Tables)
    → IsSound db
    → IsSound (cancel_row_series id actor_id series_id db).0
unfolding cancel_row_series
cancel_row_series-IsSound id actor_id none db s = s
cancel_row_series-IsSound id actor_id (some series_id) db s =
    either-IsSound _ _ _
      (cancelled-IsSound (λ m. same_series m.series_id (some series_id) && is_open db.now m) db.now
        actor_id db s)
      s

cancel_series-IsSound :
    (id actor_id : ℕ) (db : Tables) → IsSound db → IsSound (cancel_series id actor_id db).0
unfolding cancel_series
cancel_series-IsSound id actor_id db s = elim (Result-cases (get id db)) [
  | inl (e, missing) ↦ rw (missing, cancel_series) s
  | inr (shown, found) ↦
      rw (found, cancel_series) (cancel_row_series-IsSound id actor_id shown.row.series_id db s)
]

store_extend-IsSound :
    (id actor_id expected : ℕ) (db : Tables)
    → IsSound db
    → IsSound (store_extend id actor_id expected db).0
unfolding store_extend
store_extend-IsSound id actor_id expected db s =
    either-IsSound _ _ _ (extended-IsSound id expected _ db s) (refused (get id db))
  where
    refused :
        (r : Result View)
        → IsSound
            (let x : Tables × Result View = elim r [
              | err e ↦ (db, err e)
              | ok found ↦ (db, err conflict)
            ] in
              x).0
    refused (err e) = s
    refused (ok found) = s

extend-IsSound :
    (id actor_id expected : ℕ) (db : Tables)
    → IsSound db
    → IsSound (extend id actor_id expected db).0
unfolding extend
extend-IsSound id actor_id expected db s =
    either-IsSound _ _ _ s (store_extend-IsSound id actor_id expected db s)

change_targets-IsSound :
    (targets : List ℕ) (db : Tables) → IsSound db → IsSound (change_targets targets db)
unfolding change_targets unlinked overlaps
change_targets-IsSound targets db s = record {
  apart =
      update-apart (λ m. true) (unlinked targets) db.maintenances (λ m n e. e) (λ m h e. h) s.apart;
  last = All-update_where Lasts (λ m. true) (unlinked targets) db.maintenances (λ m h e. h) s.last;
  keyed =
      update_where-IsKeyed (λ m. m.id) (λ m. true) (unlinked targets) db.maintenances (λ m. refl)
        s.keyed;
  drawn =
      All-update_where (λ m. (m.id < db.next_id) × (is_drawn db.next_id m.series_id ≡ true))
        (λ m. true) (unlinked targets) db.maintenances (λ m h e. h) s.drawn;
}

-- In every state that requests reach, where no zone is a day or more from UTC: no window of a series
-- starts during an earlier one unless one of the two is cancelled, and each lasts at most 31 days.
pub Reach-IsSound :
    (load_location : String → Option Zone) (db : Tables)
    → ((name : String) (zone : Zone) → load_location name ≡ some zone → IsBounded zone)
    → Reach load_location db
    → IsSound db
Reach-IsSound load_location db bounded (start now targets) = record {
  apart = tt;
  last = tt;
  keyed = tt;
  drawn = tt;
}
Reach-IsSound load_location db bounded (time_passes now later r) =
    let s = Reach-IsSound load_location _ bounded r in
    record { apart = s.apart; last = s.last; keyed = s.keyed; drawn = s.drawn }
Reach-IsSound load_location db bounded (targets_change targets r) =
    change_targets-IsSound targets _ (Reach-IsSound load_location _ bounded r)
Reach-IsSound load_location db bounded (creates clock actor_id input late r) =
    create-IsSound load_location bounded clock actor_id input _ late
      (Reach-IsSound load_location _ bounded r)
Reach-IsSound load_location db bounded (cancels id actor_id r) =
    cancel-IsSound id actor_id _ (Reach-IsSound load_location _ bounded r)
Reach-IsSound load_location db bounded (cancels_series id actor_id r) =
    cancel_series-IsSound id actor_id _ (Reach-IsSound load_location _ bounded r)
Reach-IsSound load_location db bounded (extends id actor_id expected r) =
    extend-IsSound id actor_id expected _ (Reach-IsSound load_location _ bounded r)
