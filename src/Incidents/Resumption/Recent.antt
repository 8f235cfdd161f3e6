-- ===== src/Incidents/Resumption/Recent.antt =====
-- Which incidents are resumed.
use cairnops.Common.{
  ℕ, ◌+◌, ◌≤◌, ◌≡◌, refl, sym, subst, Bool, true, false, ◌&&◌, Option, none, some, List, [], ◌∷◌,
  ◌==◌, ◌⊎◌, str_eq, arith, All, select, exists, ltb, Bool-cases, Option-cases, inl, inr, some_eq,
}
use cairnops.Common.Order.{latest, latest_from}
use cairnops.Incidents.Schema.{resolved, Incident, Tables, EvidenceFact}
use cairnops.Incidents.Resumption.{
  Ensured, has_later, impact_of, is_resumable, resolved_or_zero, resume, resume_recent_incident,
  resumption_window, resolved_recently,
}

module _ {A : Type 0} (p : A → Bool) (key : A → ℕ) where
  All-select : (xs : List A) → All (λ x. p x ≡ true) (select p xs)
  All-select [] = tt
  All-select (x ∷ xs) = elim (Bool-cases (p x)) [
    | inl e ↦ rw e (e, All-select xs)
    | inr e ↦ rw e (All-select xs)
  ]

  -- What all rows satisfy, the latest satisfies, and no row's key is above its own.
  latest_from-fits :
      (x : A) (xs : List A)
      → p x ≡ true
      → All (λ y. p y ≡ true) xs
      → (p (latest_from key x xs) ≡ true)
        × (key x ≤ key (latest_from key x xs))
        × All (λ y. key y ≤ key (latest_from key x xs)) xs
  latest_from-fits x [] h a = (h, omega arith, tt)
  latest_from-fits x (y ∷ ys) h a = elim (Bool-cases (ltb (key x) (key y))) [
    | inl e ↦
        let (fits, top, rest) = latest_from-fits y ys a.0 a.1 in
        subst Best (sym (stepped e)) (fits, ground (arith, e, top), (top, rest))
    | inr e ↦
        let (fits, top, rest) = latest_from-fits x ys h a.1 in
        subst Best (sym (kept e)) (fits, top, (ground (arith, e, top), rest))
  ]
    where
      Best : A → Type 0
      Best z = (p z ≡ true) × (key x ≤ key z) × All (λ w. key w ≤ key z) (y ∷ ys)

      stepped : ltb (key x) (key y) ≡ true → latest_from key x (y ∷ ys) ≡ latest_from key y ys
      stepped e = rw e refl

      kept : ltb (key x) (key y) ≡ false → latest_from key x (y ∷ ys) ≡ latest_from key x ys
      kept e = rw e refl

  latest-fits :
      (xs : List A) (x : A)
      → All (λ y. p y ≡ true) xs
      → latest key xs ≡ some x
      → (p x ≡ true) × All (λ y. key y ≤ key x) xs
  latest-fits [] x a e = cc
  latest-fits (y ∷ ys) x a e =
      let (fits, top, rest) = latest_from-fits y ys a.0 a.1 in
      subst (λ z. (p z ≡ true) × All (λ w. key w ≤ key z) (y ∷ ys)) (some_eq e) (fits, (top, rest))

-- What is true of an incident that is resumed for a fact at an instant.
pub record IsRecent (t : Tables) (fact : EvidenceFact) (at : ℕ) (i : Incident) : Type 0 where
  pub same_nature : str_eq i.nature.key fact.nature.key ≡ true
  pub was_resolved : i.status ≡ resolved
  pub single_impact : i.impact_count ≡ 1
  pub within :
      (r : ℕ) × (i.resolved_at ≡ some r) × (fact.opened_at ≤ r + resumption_window) × (r ≤ at)
  pub on_target :
      exists (λ m. m.incident_id == i.id && m.target_id == fact.target_id) t.impacts ≡ true
  pub none_later : has_later t fact i ≡ false

within_hours :
    (resolved_at : Option ℕ) (opened_at at : ℕ)
    → resolved_recently resolved_at opened_at at ≡ true
    → (r : ℕ) × (resolved_at ≡ some r) × (opened_at ≤ r + resumption_window) × (r ≤ at)
within_hours none opened_at at h = cc
within_hours (some r) opened_at at h = (r, refl, ground arith, ground arith)

is_resumable-IsRecent :
    (t : Tables) (fact : EvidenceFact) (at : ℕ) (i : Incident)
    → is_resumable t fact at i ≡ true
    → IsRecent t fact at i
unfolding is_resumable
is_resumable-IsRecent t fact at i h = record {
  same_nature = ground (arith, h);
  was_resolved = ground (arith, h);
  single_impact = ground (arith, h);
  within = within_hours i.resolved_at fact.opened_at at (ground (arith, h));
  on_target = ground (arith, h);
  none_later = ground (arith, h);
}

IsRecent-is_resumable :
    (t : Tables) (fact : EvidenceFact) (at : ℕ) (i : Incident)
    → IsRecent t fact at i
    → is_resumable t fact at i ≡ true
unfolding is_resumable
IsRecent-is_resumable t fact at i r =
    let (resolved_at, known, after, before) = r.within in
    ground (
      arith, r.same_nature, r.was_resolved, r.single_impact, r.on_target, r.none_later, known,
      after, before,
    )

-- The rows of a table.
abbrev pub IsRow : Incident → List Incident → Type 0
IsRow i [] = ⊥
IsRow i (j ∷ js) = (i ≡ j) ⊎ IsRow i js

IsRow-select :
    (p : Incident → Bool) (i : Incident) (xs : List Incident) → IsRow i (select p xs) → IsRow i xs
IsRow-select p i [] h = h
IsRow-select p i (x ∷ xs) h = elim (Bool-cases (p x)) [
  | inl e ↦ kept (IsRow-select p i xs) (rw e at h)
  | inr e ↦ inr (IsRow-select p i xs (rw e at h))
]
  where
    kept :
        (IsRow i (select p xs) → IsRow i xs)
        → (i ≡ x) ⊎ IsRow i (select p xs)
        → (i ≡ x) ⊎ IsRow i xs
    kept f (inl e) = inl e
    kept f (inr k) = inr (f k)

latest_from-IsRow :
    (key : Incident → ℕ) (x : Incident) (xs : List Incident) → IsRow (latest_from key x xs) (x ∷ xs)
latest_from-IsRow key x [] = inl refl
latest_from-IsRow key x (y ∷ ys) = elim (Bool-cases (ltb (key x) (key y))) [
  | inl e ↦ subst Among (sym (stepped e)) (inr (latest_from-IsRow key y ys))
  | inr e ↦ subst Among (sym (kept e)) (skip (latest_from-IsRow key x ys))
]
  where
    Among : Incident → Type 0
    Among z = IsRow z (x ∷ (y ∷ ys))

    stepped : ltb (key x) (key y) ≡ true → latest_from key x (y ∷ ys) ≡ latest_from key y ys
    stepped e = rw e refl

    kept : ltb (key x) (key y) ≡ false → latest_from key x (y ∷ ys) ≡ latest_from key x ys
    kept e = rw e refl

    skip : {z : Incident} → IsRow z (x ∷ ys) → IsRow z (x ∷ (y ∷ ys))
    skip (inl e) = inl e
    skip (inr k) = inr (inr k)

latest-IsRow :
    (key : Incident → ℕ) (i : Incident) (xs : List Incident) → latest key xs ≡ some i → IsRow i xs
latest-IsRow key i [] e = cc
latest-IsRow key i (x ∷ xs) e =
    subst (λ z. IsRow z (x ∷ xs)) (some_eq e) (latest_from-IsRow key x xs)

-- What a selection bounds, the rows that it takes are bounded by.
bounded_rows :
    (p : Incident → Bool) (P : Incident → Type 0) (Q : Incident → Type 0) (xs : List Incident)
    → ((j : Incident) → P j → p j ≡ true)
    → All Q (select p xs)
    → All (λ j. P j → Q j) xs
bounded_rows p P Q [] f a = tt
bounded_rows p P Q (x ∷ xs) f a = elim (Bool-cases (p x)) [
  | inl e ↦
      let both : All Q (x ∷ select p xs) = (rw e at a) in
      ((λ h. both.0), bounded_rows p P Q xs f both.1)
  | inr e ↦ ((λ h. absurd (cc (f x h))), bounded_rows p P Q xs f (rw e at a))
]

-- The incident that is resumed is a row of the table that has the fact's nature, is resolved, with the
-- resolution at most six hours before the fact opened and not after the observation, has one impact
-- in all, has one on the fact's target, and no incident of the nature opened later on the target; no row
-- of which all of this is true was resolved after it.
pub resume_recent_incident-IsRecent :
    (t : Tables) (fact : EvidenceFact) (at : ℕ) (s : Ensured)
    → resume_recent_incident t fact at ≡ some s
    → (i : Incident) × (s.incident_id ≡ i.id)
      × IsRow i t.incidents
      × IsRecent t fact at i
      × All (λ j. IsRecent t fact at j → resolved_or_zero j ≤ resolved_or_zero i) t.incidents
unfolding resume_recent_incident resume
resume_recent_incident-IsRecent t fact at s h =
    elim (Option-cases (latest resolved_or_zero (select (is_resumable t fact at) t.incidents))) [
      | inl e ↦ cc (rw (e, resume_recent_incident) at h)
      | inr (i, e) ↦ elim (Option-cases (impact_of t i.id fact.target_id)) [
        | inl f ↦ cc (rw (e, f, resume_recent_incident) at h)
        | inr (m, f) ↦
            let (fits, top) =
              latest-fits (is_resumable t fact at) resolved_or_zero _ i
                (All-select (is_resumable t fact at) resolved_or_zero t.incidents) e in
            (
              i,
              subst (λ v. v.incident_id ≡ i.id) (some_eq (rw (e, f, resume_recent_incident) at h))
                  refl,
              IsRow-select (is_resumable t fact at) i t.incidents
                  (latest-IsRow resolved_or_zero i _ e),
              is_resumable-IsRecent t fact at i fits,
              bounded_rows (is_resumable t fact at) (IsRecent t fact at)
                  (λ j. resolved_or_zero j ≤ resolved_or_zero i) t.incidents
                  (IsRecent-is_resumable t fact at) top,
            )
      ]
    ]
