-- ===== src/Maintenance/Overlap.antt =====
-- The tables of internal/maintenance that Create, Cancel, CancelSeries and Extend keep: no two windows
-- of a series that are not cancelled overlap, and none lasts longer than 31 days.
pub mod Inserted
pub mod Created
pub mod Runs
use cairnops.Common.{
  ℕ, zero, suc, ◌+◌, ◌-◌, ◌*◌, ◌≤◌, ◌<◌, ◌≡◌, refl, subst, sym, Bool, true, false, ◌||◌, ◌&&◌, not,
  ltb, leb, ◌==◌, Bool-cases, inl, inr, if◌then◌else◌, is_none, Option, none, some, List, [], ◌∷◌,
  exists, update_where, All, All-update_where, All-update_where_to, IsKeyed, update_where-IsKeyed,
  arith,
}
use cairnops.Maintenance.Recurrence.{day, second}
use cairnops.Maintenance.Store.{Maintenance, SeriesRow, Extension, Tables}
use cairnops.Maintenance.Changes.{
  is_open, cancelled_row, same_series, half_hour, is_following, can_extend, extended_window,
}

-- Another window of m's series starts after m and before m ends, and neither is cancelled.
unfoldable pub overlaps : Maintenance → Maintenance → Bool
unfolding same_series
overlaps m other =
    is_none m.cancelled_at
    && is_none other.cancelled_at
    && same_series other.series_id m.series_id
    && ltb m.starts_at other.starts_at
    && ltb other.starts_at m.ends_at

abbrev pub Lasts : Maintenance → Type 0
Lasts m = (m.starts_at < m.ends_at) × (m.ends_at ≤ m.starts_at + 31 * day)

abbrev pub is_drawn : ℕ → Option ℕ → Bool
is_drawn next_id none = true
is_drawn next_id (some id) = ltb id next_id

pub record IsSound (db : Tables) : Type 0 where
  pub apart : All (λ m. exists (overlaps m) db.maintenances ≡ false) db.maintenances
  pub last : All Lasts db.maintenances
  pub keyed : IsKeyed (λ m. m.id) db.maintenances
  pub drawn :
      All (λ m. (m.id < db.next_id) × (is_drawn db.next_id m.series_id ≡ true)) db.maintenances

pub exists-none_mono {ℓ} :
    {A : Type ℓ} (p q : A → Bool) (xs : List A)
    → ((x : A) → q x ≡ true → p x ≡ true)
    → exists p xs ≡ false
    → exists q xs ≡ false
exists-none_mono p q [] h e = refl
exists-none_mono p q (x ∷ xs) h e = ground (arith, h x, exists-none_mono p q xs h)

-- Rows that are changed by f, where f makes no new overlap, neither with the row that it changes nor
-- of it.
module _ (p : Maintenance → Bool) (f : Maintenance → Maintenance) where
  exists-overlaps-update :
      (m : Maintenance) (rows : List Maintenance)
      → ((n : Maintenance) → overlaps m (f n) ≡ true → overlaps m n ≡ true)
      → exists (overlaps m) rows ≡ false
      → exists (overlaps m) (update_where p f rows) ≡ false
  exists-overlaps-update m [] keeps e = refl
  exists-overlaps-update m (n ∷ rows) keeps e =
      ground (arith, keeps n, exists-overlaps-update m rows keeps)

  pub update-apart :
      (rows : List Maintenance)
      → ((m n : Maintenance) → overlaps m (f n) ≡ true → overlaps m n ≡ true)
      → ((m : Maintenance)
          → exists (overlaps m) rows ≡ false
          → p m ≡ true
          → exists (overlaps (f m)) rows ≡ false)
      → All (λ m. exists (overlaps m) rows ≡ false) rows
      → All (λ m. exists (overlaps m) (update_where p f rows) ≡ false) (update_where p f rows)
  update-apart rows keeps new a =
      All-update_where_to (λ m. exists (overlaps m) rows ≡ false)
        (λ m. exists (overlaps m) (update_where p f rows) ≡ false) p f rows
        (λ m h e. exists-overlaps-update (f m) rows (keeps (f m)) (new m h e))
        (λ m h e. exists-overlaps-update m rows (keeps m) h) a

cancelled_none :
    (now actor : ℕ) (m : Maintenance) (rows : List Maintenance)
    → exists (overlaps (cancelled_row now actor m)) rows ≡ false
unfolding overlaps cancelled_row
cancelled_none now actor m [] = refl
cancelled_none now actor m (n ∷ rows) = cancelled_none now actor m rows

keeps :
    (now actor : ℕ) (m n : Maintenance)
    → overlaps m (cancelled_row now actor n) ≡ true
    → overlaps m n ≡ true
unfolding overlaps cancelled_row
keeps now actor m n e = ground arith

-- A cancellation of any rows keeps the tables sound.
pub cancelled-IsSound :
    (hit : Maintenance → Bool) (now actor : ℕ) (db : Tables)
    → IsSound db
    → IsSound
        (record db { maintenances = update_where hit (cancelled_row now actor) db.maintenances })
unfolding cancelled_row
cancelled-IsSound hit now actor db s = record {
  apart =
      update-apart hit (cancelled_row now actor) db.maintenances (keeps now actor)
        (λ m h e. cancelled_none now actor m db.maintenances) s.apart;
  last = All-update_where Lasts hit (cancelled_row now actor) db.maintenances (λ m h e. h) s.last;
  keyed =
      update_where-IsKeyed (λ m. m.id) hit (cancelled_row now actor) db.maintenances (λ m. refl)
        s.keyed;
  drawn = All-update_where _ hit (cancelled_row now actor) db.maintenances (λ m h e. h) s.drawn;
}

extended_keeps : (m n : Maintenance) → overlaps m (extended_window n) ≡ true → overlaps m n ≡ true
unfolding overlaps extended_window
extended_keeps m n e = ground arith

following : (m n : Maintenance) → overlaps (extended_window m) n ≡ true → is_following m n ≡ true
unfolding overlaps extended_window is_following
following m n e = ground arith

module _ (id expected : ℕ) (db : Tables) (m : Maintenance) where
  none_following :
      can_extend id expected db m ≡ true → exists (is_following m) db.maintenances ≡ false
  unfolding can_extend
  none_following e = ground arith

  extended-Lasts : Lasts m → can_extend id expected db m ≡ true → Lasts (extended_window m)
  unfolding can_extend extended_window
  extended-Lasts h e = ground arith

-- So does an extension of the rows that the WHERE of Extend lets through.
pub extended-IsSound :
    (id expected : ℕ) (extensions : List Extension) (db : Tables)
    → IsSound db
    → IsSound (record db {
      maintenances = update_where (can_extend id expected db) extended_window db.maintenances;
      extensions = extensions;
    })
unfolding extended_window
extended-IsSound id expected extensions db s = record {
  apart =
      update-apart (can_extend id expected db) extended_window db.maintenances extended_keeps
        (λ m h e.
          exists-none_mono (is_following m) (overlaps (extended_window m)) db.maintenances
            (following m) (none_following id expected db m e))
        s.apart;
  last =
      All-update_where Lasts (can_extend id expected db) extended_window db.maintenances
        (extended-Lasts id expected db) s.last;
  keyed =
      update_where-IsKeyed (λ m. m.id) (can_extend id expected db) extended_window db.maintenances
        (λ m. refl) s.keyed;
  drawn =
      All-update_where _ (can_extend id expected db) extended_window db.maintenances (λ m h e. h)
        s.drawn;
}
