-- ===== src/Maintenance/Overlap/Inserted.antt =====
-- The windows that Create inserts do not overlap with those of the tables, nor with one another.
use cairnops.Common.{
  ℕ, suc, ◌+◌, ◌*◌, ◌≤◌, ◌<◌, ◌≡◌, refl, subst, sym, Bool, true, false, ◌||◌, not, leb, ◌==◌,
  Option, none, some, List, [], ◌∷◌, exists, All, All-mono, All-both, IsKeyed, find?, ==_refl,
  arith,
}
use cairnops.Common.Result.{ok, ok_eq, >>=-eq-ok}
use cairnops.Maintenance.Recurrence.{day, Occurrence, CreateInput}
use cairnops.Maintenance.Recurrence.Weekly.{IsApart}
use cairnops.Maintenance.Store.{Maintenance, Tables}
use cairnops.Maintenance.Create.{inserted, insert_window, insert_windows}
use cairnops.Maintenance.Changes.{same_series}
use cairnops.Maintenance.Overlap.{overlaps, Lasts, is_drawn, IsSound}

pub other : (a b : ℕ) → b < a → (a == b) ≡ false
other a b h = ground arith

same_series_sym : (a b : Option ℕ) → same_series a b ≡ same_series b a
unfolding same_series
same_series_sym none none = refl
same_series_sym none (some b) = refl
same_series_sym (some a) none = refl
same_series_sym (some a) (some b) = ground arith

-- The window m is of another series, or ends before a start.
abbrev pub ends_before : Option ℕ → ℕ → Maintenance → Bool
ends_before series_id start m = not (same_series series_id m.series_id) || leb m.ends_at start

module _ (n : Maintenance) where
  abbrev Precedes : Maintenance → Type 0
  Precedes m = ends_before n.series_id n.starts_at m ≡ true

  old_new : (m : Maintenance) → Precedes m → overlaps m n ≡ false
  unfolding overlaps
  old_new m h = ground arith

  new_old : (m : Maintenance) → Precedes m → Lasts m → overlaps n m ≡ false
  unfolding overlaps
  new_old m h l = rw (same_series_sym m.series_id n.series_id) (ground arith)

  new_new : overlaps n n ≡ false
  unfolding overlaps
  new_new = ground arith

  new_none :
      (rows : List Maintenance)
      → All Precedes rows
      → All Lasts rows
      → exists (overlaps n) rows ≡ false
  new_none [] a l = refl
  new_none (m ∷ rows) a l = rw (new_old m a.0 l.0) (new_none rows a.1 l.1)

  insert-apart :
      (rows : List Maintenance)
      → All Precedes rows
      → All Lasts rows
      → All (λ m. exists (overlaps m) rows ≡ false) rows
      → All (λ m. exists (overlaps m) (n ∷ rows) ≡ false) (n ∷ rows)
  insert-apart rows a l h = (
    rw new_new (new_none rows a l),
    All-mono (λ m. Precedes m × (exists (overlaps m) rows ≡ false))
        (λ m. exists (overlaps m) (n ∷ rows) ≡ false) rows (λ m e. rw (old_new m e.0) e.1)
        (All-both Precedes (λ m. exists (overlaps m) rows ≡ false) rows a h),
  )

pub drawn_later :
    (next : ℕ) (id : Option ℕ) → is_drawn next id ≡ true → is_drawn (suc next) id ≡ true
drawn_later next none h = refl
drawn_later next (some id) h = ground arith

insert-IsKeyed :
    (n : Maintenance) (db : Tables)
    → All (λ m. (m.id < n.id) × (is_drawn n.id m.series_id ≡ true)) db.maintenances
    → IsKeyed (λ m. m.id) db.maintenances
    → All (λ m. find? (λ y. y.id == m.id) (n ∷ db.maintenances) ≡ some m) db.maintenances
insert-IsKeyed n db d k =
    All-mono
      (λ m.
        ((m.id < n.id) × (is_drawn n.id m.series_id ≡ true))
        × (find? (λ y. y.id == m.id) db.maintenances ≡ some m))
      (λ m. find? (λ y. y.id == m.id) (n ∷ db.maintenances) ≡ some m) db.maintenances
      (λ m h. rw (other n.id m.id h.0.0) h.1)
      (All-both (λ m. (m.id < n.id) × (is_drawn n.id m.series_id ≡ true))
        (λ m. find? (λ y. y.id == m.id) db.maintenances ≡ some m) db.maintenances d k)

module _ (actor_id : ℕ) (input : CreateInput) (series_id : Option ℕ) where
  pub insert_window-ok :
      (w : Occurrence) (db : Tables) {db' : Tables}
      → insert_window actor_id input series_id w db ≡ ok db'
      → (w.starts_at < w.ends_at)
        × (w.ends_at ≤ w.starts_at + 31 * day)
        × (db' ≡ record db {
          next_id = suc db.next_id;
          maintenances = inserted actor_id input series_id w db ∷ db.maintenances;
        })
  unfolding insert_window
  insert_window-ok w db h = ground arith

  insert_window-IsSound :
      (w : Occurrence) (db : Tables) {db' : Tables}
      → All (λ m. ends_before series_id w.starts_at m ≡ true) db.maintenances
      → is_drawn db.next_id series_id ≡ true
      → IsSound db
      → insert_window actor_id input series_id w db ≡ ok db'
      → IsSound db'
  unfolding inserted
  insert_window-IsSound w db a d s h =
      let (order, most, same) = insert_window-ok w db h in
      subst IsSound (sym same) (record {
        apart =
            insert-apart (inserted actor_id input series_id w db) db.maintenances a s.last s.apart;
        last = ((order, most), s.last);
        keyed = (
          rw (==_refl db.next_id) refl,
          insert-IsKeyed (inserted actor_id input series_id w db) db s.drawn s.keyed,
        );
        drawn = (
          (omega arith, drawn_later db.next_id series_id d),
          All-mono (λ m. (m.id < db.next_id) × (is_drawn db.next_id m.series_id ≡ true))
              (λ m. (m.id < suc db.next_id) × (is_drawn (suc db.next_id) m.series_id ≡ true))
              db.maintenances (λ m e. (omega (arith, e.0), drawn_later db.next_id m.series_id e.1))
              s.drawn,
        );
      })

  -- The later windows find the row of w, which ends before they start.
  later :
      (w : Occurrence) (ws : List Occurrence) (db : Tables) {db' : Tables}
      → insert_window actor_id input series_id w db ≡ ok db'
      → All (λ v. w.ends_at ≤ v.starts_at) ws
      → All (λ v. All (λ m. ends_before series_id v.starts_at m ≡ true) db.maintenances) ws
      → All (λ v. All (λ m. ends_before series_id v.starts_at m ≡ true) db'.maintenances) ws
  unfolding inserted
  later w [] db h p a = tt
  later w (v ∷ ws) db {db' = db'} h p a = (
    subst (λ (d : Tables). All (λ m. ends_before series_id v.starts_at m ≡ true) d.maintenances)
        (sym (insert_window-ok w db h).2) (ground (arith, p.0), a.0),
    later w ws db h p.1 a.1,
  )

  still_drawn :
      (w : Occurrence) (db : Tables) {db' : Tables}
      → insert_window actor_id input series_id w db ≡ ok db'
      → is_drawn db.next_id series_id ≡ true
      → is_drawn db'.next_id series_id ≡ true
  still_drawn w db h d =
      subst (λ (e : Tables). is_drawn e.next_id series_id ≡ true) (sym (insert_window-ok w db h).2)
        (drawn_later db.next_id series_id d)

  pub insert_windows-IsSound :
      (ws : List Occurrence) (db : Tables) {db' : Tables}
      → IsApart ws
      → All (λ w. All (λ m. ends_before series_id w.starts_at m ≡ true) db.maintenances) ws
      → is_drawn db.next_id series_id ≡ true
      → IsSound db
      → insert_windows actor_id input series_id ws db ≡ ok db'
      → IsSound db'
  unfolding insert_windows
  insert_windows-IsSound [] db p a d s h = subst IsSound (ok_eq h) s
  insert_windows-IsSound (w ∷ ws) db p a d s h =
      let (db1, first, rest) =
        >>=-eq-ok (insert_window actor_id input series_id w db)
          (insert_windows actor_id input series_id ws) h in
      insert_windows-IsSound ws db1 p.1 (later w ws db first p.0 a.1) (still_drawn w db first d)
        (insert_window-IsSound w db a.0 d s first) rest
