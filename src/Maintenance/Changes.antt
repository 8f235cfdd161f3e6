-- ===== src/Maintenance/Changes.antt =====
-- Cancel, CancelSeries and Extend of internal/maintenance, and the list.
use cairnops.Common.{
  ℕ, zero, suc, ◌+◌, ◌*◌, Bool, false, ◌||◌, ◌&&◌, not, ltb, leb, ◌==◌, if◌then◌else◌, is_none,
  Option, none, some, List, [], ◌∷◌, ◌++◌, exists, select, update_where, map,
}
use cairnops.Common.Result.{Result, ok, err, invalid_input, not_found, conflict}
use cairnops.Maintenance.Recurrence.{second, day, zero_time}
use cairnops.Maintenance.Store.{Maintenance, Extension, Tables, View, get, view}

unfoldable pub is_open : ℕ → Maintenance → Bool
is_open now m = is_none m.cancelled_at && ltb now m.ends_at

unfoldable pub cancelled_row : ℕ → ℕ → Maintenance → Maintenance
cancelled_row now actor_id m = record m { cancelled_at = some now; cancelled_by = some actor_id }

unfoldable pub cancel : ℕ → ℕ → Tables → Tables × Result View
cancel id actor_id db =
    let hit = λ (m : Maintenance). m.id == id && is_open db.now m in
    let db' : Tables = record db {
      maintenances = update_where hit (cancelled_row db.now actor_id) db.maintenances;
    } in
    if exists hit db.maintenances
    then (db', get id db')
    else if exists (λ m. m.id == id) db.maintenances
    then (db, err conflict)
    else (db, err not_found)

-- `=` on two columns that may be null.
unfoldable pub same_series : Option ℕ → Option ℕ → Bool
same_series (some a) (some b) = a == b
same_series _ _ = false

unfoldable pub cancel_row_series : ℕ → ℕ → Option ℕ → Tables → Tables × Result View
cancel_row_series id actor_id none db = (db, err conflict)
cancel_row_series id actor_id (some series_id) db =
    let hit = λ (m : Maintenance). same_series m.series_id (some series_id) && is_open db.now m in
    let db' : Tables = record db {
      maintenances = update_where hit (cancelled_row db.now actor_id) db.maintenances;
    } in
    if exists hit db.maintenances then (db', get id db') else (db, err conflict)

unfoldable pub cancel_series : ℕ → ℕ → Tables → Tables × Result View
cancel_series id actor_id db = elim (get id db) [
  | err e ↦ (db, err e)
  | ok shown ↦ cancel_row_series id actor_id shown.row.series_id db
]

abbrev pub half_hour : ℕ
half_hour = 1800 * second

-- The NOT EXISTS: a later window of the series that would start before m ends.
unfoldable pub is_following : Maintenance → Maintenance → Bool
is_following m following =
    same_series following.series_id m.series_id
    && is_none following.cancelled_at
    && ltb m.starts_at following.starts_at
    && ltb following.starts_at (m.ends_at + half_hour)

unfoldable pub can_extend : ℕ → ℕ → Tables → Maintenance → Bool
can_extend id expected db m =
    m.id == id
    && is_none m.cancelled_at
    && leb m.starts_at db.now
    && ltb db.now m.ends_at
    && m.ends_at == expected
    && leb (m.ends_at + half_hour) (m.starts_at + 31 * day)
    && not (exists (is_following m) db.maintenances)

unfoldable pub extended_window : Maintenance → Maintenance
extended_window m = record m {
  ends_at = m.ends_at + half_hour;
  extension_count = suc m.extension_count;
}

unfoldable pub extension_of : ℕ → Maintenance → Extension
extension_of actor_id m = record {
  maintenance_id = m.id;
  actor_id = actor_id;
  previous_ends_at = m.ends_at;
  ends_at = m.ends_at + half_hour;
}

unfoldable pub store_extend : ℕ → ℕ → ℕ → Tables → Tables × Result View
store_extend id actor_id expected db =
    let hit = can_extend id expected db in
    let db' : Tables = record db {
      maintenances = update_where hit extended_window db.maintenances;
      extensions = map (extension_of actor_id) (select hit db.maintenances) ++ db.extensions;
    } in
    if exists hit db.maintenances
    then (db', get id db')
    else elim (get id db) [ err e ↦ (db, err e) | ok found ↦ (db, err conflict) ]

unfoldable pub extend : ℕ → ℕ → ℕ → Tables → Tables × Result View
extend id actor_id expected db =
    if expected == zero_time then (db, err invalid_input) else store_extend id actor_id expected db

-- The ORDER BY of List.
unfoldable pub list_rank : ℕ → Maintenance → ℕ
list_rank now m =
    if is_none m.cancelled_at && leb m.starts_at now && leb now m.ends_at
    then 0
    else if is_none m.cancelled_at && ltb now m.starts_at
    then 1
    else 2

unfoldable pub is_listed_before : ℕ → Maintenance → Maintenance → Bool
is_listed_before now a b =
    let p = list_rank now a in
    let q = list_rank now b in
    ltb p q
    || (p == q && (ltb a.starts_at b.starts_at || (a.starts_at == b.starts_at && ltb a.id b.id)))

unfoldable pub insert_listed : ℕ → Maintenance → List Maintenance → List Maintenance
insert_listed now m [] = m ∷ []
insert_listed now m (n ∷ ms) =
    let rest = insert_listed now m ms in if is_listed_before now n m then n ∷ rest else m ∷ n ∷ ms

unfoldable pub order_listed : ℕ → List Maintenance → List Maintenance
order_listed now [] = []
order_listed now (m ∷ ms) = insert_listed now m (order_listed now ms)

unfoldable pub take {ℓ} : {A : Type ℓ} → ℕ → List A → List A
take zero xs = []
take (suc n) [] = []
take (suc n) (x ∷ xs) = x ∷ take n xs

unfoldable pub list : ℕ → Tables → Result (List View)
list limit db =
    if ltb limit 1 || ltb 200 limit
    then err invalid_input
    else ok (
        map (view db) (
          take limit
            (order_listed db.now (select (λ m. leb db.now (m.ends_at + day)) db.maintenances))))
