-- ===== src/Maintenance/Overlap/Created.antt =====
-- Create keeps the tables of internal/maintenance sound.
use cairnops.Common.{
  ℕ, suc, ◌+◌, ◌*◌, ◌≤◌, ◌<◌, ◌≡◌, refl, subst, String, true, false, Option-cases, inl, inr, Option,
  none, some, List, [], ◌∷◌, All, All-mono, arith,
}
use cairnops.Common.Result.{ok, ok_eq, ◌>>=◌, >>=-eq-ok, Result-cases}
use cairnops.Maintenance.Calendar.{Date, read_date}
use cairnops.Maintenance.Recurrence.{
  day, zero_time, Zone, Recurrence, Occurrence, CreateInput, repeated, by_rule, occurrences,
}
use cairnops.Maintenance.Recurrence.Local.{IsBounded}
use cairnops.Maintenance.Recurrence.Weekly.{IsApart}
use cairnops.Maintenance.Recurrence.Series.{occurrences-IsApart}
use cairnops.Maintenance.Input.{check_texts, check_times, checked}
use cairnops.Maintenance.Store.{SeriesRow, Tables}
use cairnops.Maintenance.Create.{insert_series, insert_windows, create_rows, store_create, create}
use cairnops.Maintenance.Changes.{same_series}
use cairnops.Maintenance.Overlap.{is_drawn, IsSound}
use cairnops.Maintenance.Overlap.Inserted.{ends_before, drawn_later, insert_windows-IsSound}

module _ (load_location : String → Option Zone) where
  pub repeated-located :
      (input : CreateInput) (rule : Recurrence) {ws : List Occurrence}
      → repeated load_location input rule ≡ ok ws
      → (zone : Zone) × (load_location rule.timezone ≡ some zone)
        × (until : Date) × (read_date rule.until ≡ some until)
  unfolding repeated
  repeated-located input rule h = elim (Option-cases (load_location rule.timezone)) [
    | inl e ↦ absurd (ground arith)
    | inr (zone, e) ↦ elim (Option-cases (read_date rule.until)) [
      | inl f ↦ absurd (ground arith)
      | inr (until, f) ↦ (zone, e, until, f)
    ]
  ]

  pub accepted :
      (clock : ℕ) (input : CreateInput) {normal : CreateInput}
      → (checked clock input >>= λ n. occurrences load_location n >>= λ ws. ok n) ≡ ok normal
      → checked clock input ≡ ok normal
  accepted clock input h =
      let (n, first, rest) = >>=-eq-ok (checked clock input) _ h in
      let (ws, _, same) = >>=-eq-ok (occurrences load_location n) _ rest in
      subst (λ k. checked clock input ≡ ok k) (ok_eq same) first

-- A start is at most 31 days before the clock.
check_times_late :
    (clock : ℕ) (input : CreateInput) {normal : CreateInput}
    → check_times clock input ≡ ok normal
    → clock ≤ normal.starts_at + 31 * day
unfolding check_times
check_times_late clock input h = ground arith

checked_late :
    (clock : ℕ) (input : CreateInput) {normal : CreateInput}
    → checked clock input ≡ ok normal
    → clock ≤ normal.starts_at + 31 * day
unfolding checked
checked_late clock input h =
    let (texts, _, last) = >>=-eq-ok (check_texts input) (check_times clock) h in
    check_times_late clock texts last

-- The tables where a series has begun, or none has: no window is of it.
abbrev Begins : List Occurrence → Tables × Option ℕ → Type 0
Begins ws begun =
    IsSound begun.0
    × (is_drawn begun.0.next_id begun.1 ≡ true)
    × All (λ w. All (λ m. ends_before begun.1 w.starts_at m ≡ true) begun.0.maintenances) ws

everywhere {ℓ κ} : {A : Type ℓ} (P : A → Type κ) (xs : List A) → ((x : A) → P x) → All P xs
everywhere P [] h = tt
everywhere P (x ∷ xs) h = (h x, everywhere P xs h)

new_series :
    (next : ℕ) (id : Option ℕ) → is_drawn next id ≡ true → same_series (some next) id ≡ false
unfolding same_series
new_series next none h = refl
new_series next (some id) h = ground arith

begun-IsSound :
    (db : Tables) (series : List SeriesRow)
    → IsSound db
    → IsSound (record db { next_id = suc db.next_id; series = series })
begun-IsSound db series s = record {
  apart = s.apart;
  last = s.last;
  keyed = s.keyed;
  drawn =
      All-mono (λ m. (m.id < db.next_id) × (is_drawn db.next_id m.series_id ≡ true))
        (λ m. (m.id < suc db.next_id) × (is_drawn (suc db.next_id) m.series_id ≡ true))
        db.maintenances (λ m e. (omega (arith, e.0), drawn_later db.next_id m.series_id e.1))
        s.drawn;
}

insert_series_fresh :
    (rule : Option Recurrence) (db : Tables) {begun : Tables × Option ℕ} (ws : List Occurrence)
    → IsSound db
    → insert_series rule db ≡ ok begun
    → Begins ws begun
unfolding insert_series same_series
insert_series_fresh none db ws s h = subst (Begins ws) (ok_eq h) (
  s,
  refl,
  everywhere (λ w. All (λ m. ends_before none w.starts_at m ≡ true) db.maintenances) ws
      (λ w. everywhere (λ m. ends_before none w.starts_at m ≡ true) db.maintenances (λ m. refl)),
)
insert_series_fresh (some rule) db ws s h = elim (Option-cases (read_date rule.until)) [
  | inl e ↦ cc (rw (e, insert_series) at h)
  | inr (until, e) ↦ subst (Begins ws) (ok_eq (rw (e, insert_series) at h)) (
    begun-IsSound db _ s,
    ground arith,
    everywhere (λ w. All (λ m. ends_before (some db.next_id) w.starts_at m ≡ true) db.maintenances)
        ws
        (λ w.
          All-mono (λ m. (m.id < db.next_id) × (is_drawn db.next_id m.series_id ≡ true))
            (λ m. ends_before (some db.next_id) w.starts_at m ≡ true) db.maintenances
            (λ m e. rw (new_series db.next_id m.series_id e.1) refl) s.drawn),
  )
]

module _ (load_location : String → Option Zone)
    (bounded : (name : String) (zone : Zone)
      → load_location name ≡ some zone
      → IsBounded zone) where
  -- The windows of a request are in order and apart, also where there is only one.
  occurrences-IsApart_any :
      (input : CreateInput) (rule : Option Recurrence) {ws : List Occurrence}
      → zero_time + 4 * day ≤ input.starts_at
      → input.recurrence ≡ rule
      → occurrences load_location input ≡ ok ws
      → IsApart ws
  unfolding occurrences by_rule
  occurrences-IsApart_any input none {ws = ws} l e h =
      subst IsApart (ok_eq (subst (λ r. by_rule load_location input r ≡ ok ws) e h)) (tt, tt)
  occurrences-IsApart_any input (some rule) {ws = ws} l e h =
      let (zone, located, until, dated) =
        repeated-located load_location input rule
          (subst (λ r. by_rule load_location input r ≡ ok ws) e h) in
      occurrences-IsApart load_location zone rule until input ws located dated e h
        (bounded rule.timezone zone located) l

  create_rows-IsSound :
      (actor_id : ℕ) (input : CreateInput) (db : Tables) {done : Tables × ℕ}
      → zero_time + 4 * day ≤ input.starts_at
      → IsSound db
      → create_rows load_location actor_id input db ≡ ok done
      → IsSound done.0
  unfolding create_rows
  create_rows-IsSound actor_id input db l s h =
      let (ws, planned, after) = >>=-eq-ok (occurrences load_location input) _ h in
      let (begun, started, rest) = >>=-eq-ok (insert_series input.recurrence db) _ after in
      let (db', filled, end) =
        >>=-eq-ok (insert_windows actor_id input begun.1 ws begun.0) _ rest in
      let (sound, drawn, clear) = insert_series_fresh input.recurrence db ws s started in
      subst (λ (d : Tables × ℕ). IsSound d.0) (ok_eq end)
        (insert_windows-IsSound actor_id input begun.1 ws begun.0
          (occurrences-IsApart_any input input.recurrence l refl planned) clear drawn sound filled)

  store_create-IsSound :
      (actor_id : ℕ) (input : CreateInput) (db : Tables)
      → zero_time + 4 * day ≤ input.starts_at
      → IsSound db
      → IsSound (store_create load_location actor_id input db).0
  unfolding store_create
  store_create-IsSound actor_id input db l s =
      elim (Result-cases (create_rows load_location actor_id input db)) [
        | inl (e, failed) ↦ rw (failed, store_create) s
        | inr (done, committed) ↦
            rw (committed, store_create) (create_rows-IsSound actor_id input db l s committed)
      ]

  pub create-IsSound :
      (clock actor_id : ℕ) (input : CreateInput) (db : Tables)
      → zero_time + 35 * day ≤ clock
      → IsSound db
      → IsSound (create load_location clock actor_id input db).0
  unfolding create
  create-IsSound clock actor_id input db l s =
      elim (Result-cases (
        checked clock input >>= λ normal.
        occurrences load_location normal >>= λ windows. ok normal)) [
          | inl (e, refused) ↦ rw (refused, create) s
          | inr (normal, passed) ↦
              rw (passed, create)
                (store_create-IsSound actor_id normal db
                  (omega
                    (arith, checked_late clock input (accepted load_location clock input passed)))
                  s)
        ]
