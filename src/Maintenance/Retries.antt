-- ===== src/Maintenance/Retries.antt =====
-- Extend compares the end that the operator saw: it extends once from it.
use cairnops.Common.{
  ℕ, ◌≡◌, ◌≢◌, refl, subst, sym, ap, ◌∙◌, Bool, true, false, ◌==◌, Bool-cases, Option-cases, inl,
  inr, some, some_eq, List, [], ◌∷◌, map, select, ◌++◌, find?, find?-fits, All-find?,
  All-update_where_to, All, exists, update_where, arith, ==_iff,
}
use cairnops.Common.Result.{Result, ok, err, conflict, Result-cases}
use cairnops.Maintenance.Recurrence.{zero_time}
use cairnops.Maintenance.Store.{Maintenance, Tables, View, get, view}
use cairnops.Maintenance.Changes.{can_extend, extended_window, extension_of, store_extend, extend}
use cairnops.Maintenance.Overlap.{IsSound}

exists-find? {ℓ} :
    {A : Type ℓ} (p : A → Bool) (xs : List A) → exists p xs ≡ true → (x : A) × (find? p xs ≡ some x)
exists-find? p [] e = cc
exists-find? p (x ∷ xs) e = elim (Bool-cases (p x)) [
  | inl h ↦ (x, rw h refl)
  | inr h ↦ rw h (exists-find? p xs (rw h at e))
]

exists-all_false {ℓ} :
    {A : Type ℓ} (p : A → Bool) (xs : List A) → All (λ x. p x ≡ false) xs → exists p xs ≡ false
exists-all_false p [] a = refl
exists-all_false p (x ∷ xs) a = rw a.0 (exists-all_false p xs a.1)

module _ (id expected : ℕ) where
  hit_has :
      (db : Tables) (m : Maintenance)
      → can_extend id expected db m ≡ true
      → (m.id ≡ id) × (m.ends_at ≡ expected)
  unfolding can_extend
  hit_has db m e = ground arith

  moved_misses :
      (db : Tables) (m : Maintenance) → m.ends_at ≢ expected → can_extend id expected db m ≡ false
  unfolding can_extend
  moved_misses db m n = ground arith

  other_misses :
      (db : Tables) (m : Maintenance) → (m.id == id) ≡ false → can_extend id expected db m ≡ false
  unfolding can_extend
  other_misses db m n = rw n refl

  module _ (db : Tables) (s : IsSound db)
      (found : exists (can_extend id expected db) db.maintenances ≡ true) where
    -- The row that was extended is the one that the identifier finds.
    extended :
        (h : Maintenance) × (can_extend id expected db h ≡ true)
        × (find? (λ y. y.id == id) db.maintenances ≡ some h)
    extended =
        let (h, first) = exists-find? (can_extend id expected db) db.maintenances found in
        let hit = find?-fits (can_extend id expected db) db.maintenances first in
        (
          h,
          hit,
          subst (λ k. find? (λ (y : Maintenance). y.id == k) db.maintenances ≡ some h)
              (hit_has db h hit).0
              (All-find?
                (λ (m : Maintenance).
                  find? (λ (y : Maintenance). y.id == m.id) db.maintenances ≡ some m)
                (can_extend id expected db) db.maintenances s.keyed first),
        )

    -- Any other row has another identifier.
    only :
        (m : Maintenance)
        → find? (λ (y : Maintenance). y.id == m.id) db.maintenances ≡ some m
        → can_extend id expected db m ≡ false
        → (m.id == id) ≡ false
    only m k e = elim (Bool-cases (m.id == id)) [
      | inr different ↦ different
      | inl same ↦
          let (h, hit, unique) = extended in
          let here =
            subst (λ j. find? (λ (y : Maintenance). y.id == j) db.maintenances ≡ some m)
              ((==_iff m.id id).0 same) k in
          let is_h : h ≡ m = some_eq (sym unique ∙ here) in
          cc (subst (λ n. can_extend id expected db n ≡ true) is_h hit)
    ]

    none_again :
        (db' : Tables)
        → exists
            (can_extend id expected db')
            (update_where (can_extend id expected db) extended_window db.maintenances)
          ≡ false
    unfolding extended_window
    none_again db' = exists-all_false (can_extend id expected db') _ (
        All-update_where_to
          (λ (m : Maintenance). find? (λ (y : Maintenance). y.id == m.id) db.maintenances ≡ some m)
          (λ m. can_extend id expected db' m ≡ false) (can_extend id expected db) extended_window
          db.maintenances
          (λ m k e.
            moved_misses db' (extended_window m)
              (λ again. omega (arith, again, (hit_has db m e).1)))
          (λ m k e. other_misses db' m (only m k e)) s.keyed)

get-later :
    (id now : ℕ) (db : Tables) (v : View)
    → get id db ≡ ok v
    → (w : View) × (get id (record db { now = now }) ≡ ok w)
unfolding get
get-later id now db v h =
    elim (Option-cases (find? (λ (m : Maintenance). m.id == id) db.maintenances)) [
      | inl e ↦ cc (rw (e, get) at h)
      | inr (m, e) ↦ (view (record db { now = now }) m, rw (e, get) refl)
    ]

module _ (id actor expected : ℕ) (db : Tables) where
  missed :
      {v : View}
      → exists (can_extend id expected db) db.maintenances ≡ false
      → get id db ≡ ok v
      → (store_extend id actor expected db).1 ≡ err conflict
  unfolding store_extend
  missed miss seen = rw (miss, store_extend) (rw seen refl)

  abbrev after : Tables
  after = record db {
    maintenances = update_where (can_extend id expected db) extended_window db.maintenances;
    extensions =
        map (extension_of actor) (select (can_extend id expected db) db.maintenances)
        ++ db.extensions;
  }

  store_extend-ok :
      {db' : Tables} {v : View}
      → store_extend id actor expected db ≡ (db', ok v)
      → (exists (can_extend id expected db) db.maintenances ≡ true)
        × (after ≡ db')
        × (get id after ≡ ok v)
  unfolding store_extend
  store_extend-ok h = elim (Bool-cases (exists (can_extend id expected db) db.maintenances)) [
    | inl e ↦
        let same = rw (e, store_extend) at h in
        (
          e,
          ap (λ (p : Tables × Result View). p.0) same,
          ap (λ (p : Tables × Result View). p.1) same,
        )
    | inr e ↦ elim (Result-cases (get id db)) [
      | inl (f, missing) ↦ cc (rw (e, missing, store_extend) at h)
      | inr (w, seen) ↦ cc (rw (e, seen, store_extend) at h)
    ]
  ]

-- Where Extend succeeds on a state that requests reach, any second Extend from the same end is a
-- conflict, at whatever time and by whom.
pub extend-again :
    (id actor other expected now : ℕ) (db db' : Tables) (v : View)
    → IsSound db
    → extend id actor expected db ≡ (db', ok v)
    → (extend id other expected (record db' { now = now })).1 ≡ err conflict
unfolding extend
extend-again id actor other expected now db db' v s h = elim (Bool-cases (expected == zero_time)) [
  | inl e ↦ cc (rw (e, extend) at h)
  | inr e ↦
      let (found, same, seen) = store_extend-ok id actor expected db (rw (e, extend) at h) in
      let (w, later) = get-later id now (after id actor expected db) v seen in
      subst (λ (d : Tables). (extend id other expected (record d { now = now })).1 ≡ err conflict)
        same
        (rw (e, extend)
          (missed id other expected (record (after id actor expected db) { now = now })
            (none_again id expected db s found (record (after id actor expected db) { now = now }))
            later))
]
