-- ===== src/Maintenance/Shown.antt =====
-- What Create returns is the window that it inserted first, and the rule that was asked for.
use cairnops.Common.{
  ℕ, ◌<◌, ◌≡◌, refl, subst, sym, ap, ◌∙◌, String, str_eq, eq_iff, ◌==◌, Bool-cases, Option-cases,
  inl, inr, Option, none, some, some_eq, List, [], ◌∷◌, find?, arith, ==_refl,
}
use cairnops.Common.Result.{Result, ok, ok_eq, ◌>>=◌, >>=-eq-ok, Result-cases}
use cairnops.Maintenance.Calendar.{day_number, read_date}
use cairnops.Maintenance.Calendar.Texts.{write_date-read_date}
use cairnops.Maintenance.Recurrence.{
  Zone, Recurrence, Occurrence, CreateInput, repeated, by_rule, occurrences,
}
use cairnops.Maintenance.Input.{check_texts, check_times, checked}
use cairnops.Maintenance.Store.{Maintenance, SeriesRow, Tables, View, get, view, recurrence_of}
use cairnops.Maintenance.Create.{
  inserted, insert_window, insert_series, insert_windows, create_rows, store_create, create,
}
use cairnops.Maintenance.Overlap.Created.{repeated-located, accepted}
use cairnops.Maintenance.Recurrence.Series.{recurrent-IsRecurrent, repeated-recurrent}
use cairnops.Maintenance.Overlap.Inserted.{other, insert_window-ok}

abbrev Finds : ℕ → Option Maintenance → Tables → Type 0
Finds id row db = find? (λ m. m.id == id) db.maintenances ≡ row

module _ (actor_id : ℕ) (input : CreateInput) (series_id : Option ℕ) where
  -- Rows that are inserted later have other identifiers, and the series stay.
  insert_windows-find? :
      (id : ℕ) (row : Option Maintenance) (series : List SeriesRow) (ws : List Occurrence)
      (db : Tables) {db' : Tables}
      → id < db.next_id
      → Finds id row db
      → db.series ≡ series
      → insert_windows actor_id input series_id ws db ≡ ok db'
      → Finds id row db' × (db'.series ≡ series)
  unfolding insert_windows inserted
  insert_windows-find? id row series [] db l f e h =
      subst (λ (d : Tables). Finds id row d × (d.series ≡ series)) (ok_eq h) (f, e)
  insert_windows-find? id row series (w ∷ ws) db l f e h =
      let (db1, first, rest) =
        >>=-eq-ok (insert_window actor_id input series_id w db)
          (insert_windows actor_id input series_id ws) h in
      let same = sym (insert_window-ok actor_id input series_id w db first).2 in
      insert_windows-find? id row series ws db1
        (subst (λ (d : Tables). id < d.next_id) same (omega arith))
        (subst (λ (d : Tables). Finds id row d) same (rw (other db.next_id id l) f))
        (subst (λ (d : Tables). d.series ≡ series) same e) rest

  -- The first window is found under the identifier that its insertion drew.
  insert_windows-first :
      (w : Occurrence) (ws : List Occurrence) (db : Tables) {db' : Tables}
      → insert_windows actor_id input series_id (w ∷ ws) db ≡ ok db'
      → Finds db.next_id (some (inserted actor_id input series_id w db)) db'
        × (db'.series ≡ db.series)
  unfolding insert_windows inserted
  insert_windows-first w ws db h =
      let (db1, first, rest) =
        >>=-eq-ok (insert_window actor_id input series_id w db)
          (insert_windows actor_id input series_id ws) h in
      let same = sym (insert_window-ok actor_id input series_id w db first).2 in
      insert_windows-find? db.next_id (some (inserted actor_id input series_id w db)) db.series ws
        db1 (subst (λ (d : Tables). db.next_id < d.next_id) same (omega arith))
        (subst (λ (d : Tables). Finds db.next_id (some (inserted actor_id input series_id w db)) d)
          same (rw (==_refl db.next_id) refl))
        (subst (λ (d : Tables). d.series ≡ db.series) same refl) rest

get-found :
    (id : ℕ) (db : Tables) (m : Maintenance) → Finds id (some m) db → get id db ≡ ok (view db m)
unfolding get
get-found id db m f = rw (f, get) refl

second_eq :
    {a c : Tables} {b d : Result View} → ◌≡◌ {A = Tables × Result View} (a, b) (c, d) → b ≡ d
second_eq h = ap (λ (p : Tables × Result View). p.1) h

-- The recurrence of the series that Create began, as `get` shows it.
insert_series-shown :
    (rule : Option Recurrence) (db : Tables) {begun : Tables × Option ℕ}
    → ((r : Recurrence) → rule ≡ some r → r.frequency ≡ "weekly")
    → insert_series rule db ≡ ok begun
    → recurrence_of begun.0.series begun.1 ≡ rule
unfolding insert_series recurrence_of
insert_series-shown none db w h =
    subst (λ (b : Tables × Option ℕ). recurrence_of b.0.series b.1 ≡ none) (ok_eq h) refl
insert_series-shown (some rule) db w h = elim (Option-cases (read_date rule.until)) [
  | inl e ↦ cc (rw (e, insert_series) at h)
  | inr (until, e) ↦
      subst (λ (b : Tables × Option ℕ). recurrence_of b.0.series b.1 ≡ some rule)
        (ok_eq (rw (e, insert_series) at h))
        (rw (==_refl db.next_id, recurrence_of)
          (ground (arith, w rule refl, write_date-read_date rule.until until e)))
]

check_texts_recurrence :
    (input : CreateInput) {normal : CreateInput}
    → check_texts input ≡ ok normal
    → normal.recurrence ≡ input.recurrence
unfolding check_texts
check_texts_recurrence input h = ground arith

times :
    (clock : ℕ) (input : CreateInput) {normal : CreateInput}
    → check_times clock input ≡ ok normal
    → normal.recurrence ≡ input.recurrence
unfolding check_times
times clock input h = ground arith

module _ (load_location : String → Option Zone) where
  repeated-weekly :
      (input : CreateInput) (rule : Recurrence) {ws : List Occurrence}
      → repeated load_location input rule ≡ ok ws
      → rule.frequency ≡ "weekly"
  unfolding repeated
  repeated-weekly input rule h = elim (Bool-cases (str_eq rule.frequency "weekly")) [
    | inl e ↦ (eq_iff _ _).0 e
    | inr e ↦ absurd (ground arith)
  ]

  -- A maintenance has a first window.
  occurrences-first :
      (input : CreateInput) (rule : Option Recurrence) {ws : List Occurrence}
      → by_rule load_location input rule ≡ ok ws
      → (w : Occurrence) × (rest : List Occurrence) × (ws ≡ w ∷ rest)
  unfolding by_rule
  occurrences-first input none h = (_, [], sym (ok_eq h))
  occurrences-first input (some rule) {ws = ws} h =
      let (zone, located, until, dated) = repeated-located load_location input rule h in
      (
        _,
        _,
        (recurrent-IsRecurrent zone (day_number until) input ws
            (repeated-recurrent load_location zone rule until input ws located dated h)).are,
      )

  by_rule-weekly :
      (input : CreateInput) (rule : Option Recurrence) {ws : List Occurrence}
      → by_rule load_location input rule ≡ ok ws
      → (r : Recurrence) → rule ≡ some r
      → r.frequency ≡ "weekly"
  unfolding by_rule
  by_rule-weekly input none h r e = cc
  by_rule-weekly input (some rule) h r e =
      subst (λ (q : Recurrence). q.frequency ≡ "weekly") (some_eq e) (repeated-weekly input rule h)

  -- The tables that the transaction commits show the rule of the request.
  create_rows-shown :
      (actor_id : ℕ) (input : CreateInput) (db : Tables) {done : Tables × ℕ}
      → create_rows load_location actor_id input db ≡ ok done
      → (m : Maintenance) × Finds done.1 (some m) done.0
        × (recurrence_of done.0.series m.series_id ≡ input.recurrence)
  unfolding create_rows occurrences inserted
  create_rows-shown actor_id input db h =
      let (ws, planned, after) = >>=-eq-ok (occurrences load_location input) _ h in
      let (begun, started, rest) = >>=-eq-ok (insert_series input.recurrence db) _ after in
      let (db', filled, end) =
        >>=-eq-ok (insert_windows actor_id input begun.1 ws begun.0) _ rest in
      let (w, later, same) = occurrences-first input input.recurrence planned in
      let (found, series) =
        insert_windows-first actor_id input begun.1 w later begun.0
          (subst (λ us. insert_windows actor_id input begun.1 us begun.0 ≡ ok db') same filled) in
      subst Shows (ok_eq end) (
        inserted actor_id input begun.1 w begun.0,
        found,
        rw series (
            insert_series-shown input.recurrence db (by_rule-weekly input input.recurrence planned)
              started),
      )
    where
      Shows : Tables × ℕ → Type 0
      Shows d =
          (m : Maintenance) × Finds d.1 (some m) d.0
          × (recurrence_of d.0.series m.series_id ≡ input.recurrence)

  store_create-shown :
      (actor_id : ℕ) (input : CreateInput) (db : Tables) {db' : Tables} {v : View}
      → store_create load_location actor_id input db ≡ (db', ok v)
      → v.recurrence ≡ input.recurrence
  unfolding store_create get view
  store_create-shown actor_id input db h =
      elim (Result-cases (create_rows load_location actor_id input db)) [
        | inl (e, failed) ↦ cc (rw (failed, store_create) at h)
        | inr (done, committed) ↦
            let (m, found, shown) = create_rows-shown actor_id input db committed in
            let same = second_eq (rw (committed, store_create) at h) in
            let seen = ok_eq (sym (get-found done.1 done.0 m found) ∙ same) in
            subst (λ (u : View). u.recurrence ≡ input.recurrence) seen shown
      ]

  checked_recurrence :
      (clock : ℕ) (input : CreateInput) {normal : CreateInput}
      → checked clock input ≡ ok normal
      → normal.recurrence ≡ input.recurrence
  unfolding checked
  checked_recurrence clock input h =
      let (texts, first, last) = >>=-eq-ok (check_texts input) (check_times clock) h in
      times clock texts last ∙ check_texts_recurrence input first

  -- Where Create returns a maintenance, its recurrence is the one of the request, with the last day
  -- in the text that the request spelled it in.
  pub create-recurrence :
      (clock actor_id : ℕ) (input : CreateInput) (db db' : Tables) (v : View)
      → create load_location clock actor_id input db ≡ (db', ok v)
      → v.recurrence ≡ input.recurrence
  unfolding create
  create-recurrence clock actor_id input db db' v h =
      elim (Result-cases (
        checked clock input >>= λ normal.
        occurrences load_location normal >>= λ windows. ok normal)) [
          | inl (e, refused) ↦ cc (rw (refused, create) at h)
          | inr (normal, passed) ↦
              store_create-shown actor_id normal db (rw (passed, create) at h)
              ∙ checked_recurrence clock input (accepted load_location clock input passed)
        ]
