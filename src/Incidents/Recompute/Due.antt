-- ===== src/Incidents/Recompute/Due.antt =====
-- `advanceDueIncidents` leaves no propagation due whose row it can lock, and always ends well.
use mathlib.Core.Option
use cairnops.Common.{
  ℕ, ◌≡◌, refl, sym, ◌∙◌, subst, Bool, true, false, Option, none, some, List, [], ◌∷◌, map, ◌==◌,
  arith, All, find?, find?-fits, exists, select, IsKeyed, update_where-IsKeyed, ==_refl, ==_iff,
  if◌then◌else◌, Bool-cases, All-mono, All-both, All-update_where_to, is_some, Option-cases, inl,
  inr, some_eq,
}
use cairnops.Common.Result.{ok}
use cairnops.Incidents.Schema.{Incident, Tables}
use cairnops.Incidents.Recompute.{
  settle_incident, recompute_incident, recompute_incidents, advance_due_incidents, is_due, is_taken,
}
use cairnops.Incidents.Recompute.Row.{
  settled_row, settled_row-id, settle_incident-incidents, settled_row-ends_at,
  settle_incident-find?,
}
use cairnops.Incidents.Recompute.Checks.{settled_row-IsDerived}

-- The row that was read and settled at an instant is not due then.
settled_row-not_due :
    (t : Tables) (i : Incident) (at : ℕ) → is_due at (settled_row t i at i) ≡ false
settled_row-not_due t i at =
    let d = settled_row-IsDerived t i at in ground (arith, d.closes, settled_row-ends_at t i at i)

-- A list of ids that leaves out no row due at an instant.
abbrev Covered : List ℕ → ℕ → List ℕ → List Incident → Type 0
Covered held at ids xs =
    All (λ r. is_taken held at r ≡ true → exists (λ k. k == r.id) ids ≡ true) xs

Covered-select :
    (held : List ℕ) (at : ℕ) (xs : List Incident)
    → Covered held at (map (λ i. i.id) (select (is_taken held at) xs)) xs
Covered-select held at [] = tt
Covered-select held at (x ∷ xs) = (
  λ e. rw e (rw (==_refl x.id)),
  All-mono _ _ xs
      (λ r h e. elim (Bool-cases (is_taken held at x)) [
        | inl d ↦ rw d (ground (arith, h e))
        | inr d ↦ rw d (h e)
      ])
      (Covered-select held at xs),
)

Covered-nil :
    (held : List ℕ) (at : ℕ) (xs : List Incident)
    → Covered held at [] xs
    → exists (is_taken held at) xs ≡ false
Covered-nil held at [] c = refl
Covered-nil held at (x ∷ xs) c = ground (arith, c.0, Covered-nil held at xs c.1)

-- Every id of the list names a row.
abbrev Known : List Incident → List ℕ → Type 0
Known xs ids = All (λ k. is_some (find? (λ j. j.id == k) xs) ≡ true) ids

Known-select :
    (p : Incident → Bool) (all xs : List Incident)
    → All (λ r. find? (λ j. j.id == r.id) all ≡ some r) xs
    → Known all (map (λ i. i.id) (select p xs))
Known-select p all [] k = tt
Known-select p all (x ∷ xs) k = elim (Bool-cases (p x)) [
  | inl e ↦ rw e (rw k.0, Known-select p all xs k.1)
  | inr e ↦ rw e (Known-select p all xs k.1)
]

module _ (t : Tables) (i : Incident) (at : ℕ) where
  settled-Covered :
      (held ids : List ℕ)
      → IsKeyed (λ j. j.id) t.incidents
      → find? (λ j. j.id == i.id) t.incidents ≡ some i
      → Covered held at (i.id ∷ ids) t.incidents
      → Covered held at ids (settle_incident t i at).incidents
  settled-Covered held ids keyed found c = rw (settle_incident-incidents t i at) (
      All-update_where_to
        (λ r.
          (find? (λ j. j.id == r.id) t.incidents ≡ some r)
          × (is_taken held at r ≡ true → exists (λ k. k == r.id) (i.id ∷ ids) ≡ true))
        (λ r. is_taken held at r ≡ true → exists (λ k. k == r.id) ids ≡ true) (λ j. j.id == i.id)
        (settled_row t i at) t.incidents (λ r h same due. absurd (unmoved r h.0 same due))
        (λ r h other due. ground (arith, h.1 due)) (All-both _ _ t.incidents keyed c))
    where
      unmoved :
          (r : Incident)
          → find? (λ j. j.id == r.id) t.incidents ≡ some r
          → (r.id == i.id) ≡ true
          → is_taken held at (settled_row t i at r) ≡ true
          → ⊥
      unmoved r own same due =
          let r≡i : r ≡ i = some_eq (sym own ∙ rw ((==_iff r.id i.id).0 same) found) in
          let due' = subst (λ z. is_taken held at (settled_row t i at z) ≡ true) r≡i due in
          ground (arith, settled_row-not_due t i at)

  settled-Known :
      (ids : List ℕ) → Known t.incidents ids → Known (settle_incident t i at).incidents ids
  settled-Known ids k =
      All-mono _ _ ids
        (λ k' h.
          rw (settle_incident-find? t i at k') (kept (find? (λ j. j.id == k') t.incidents) h))
        k
    where
      kept :
          (o : Option Incident)
          → is_some o ≡ true
          → is_some (Option.map (λ x. if x.id == i.id then settled_row t i at x else x) o) ≡ true
      kept none h = h
      kept (some x) h = refl

  settled-IsKeyed :
      IsKeyed (λ j. j.id) t.incidents → IsKeyed (λ j. j.id) (settle_incident t i at).incidents
  settled-IsKeyed keyed = rw (settle_incident-incidents t i at) (
      update_where-IsKeyed (λ j. j.id) (λ j. j.id == i.id) (settled_row t i at) t.incidents
        (settled_row-id t i at) keyed)

recompute_incident-found :
    (t : Tables) (i : Incident) (id at : ℕ)
    → find? (λ j. j.id == id) t.incidents ≡ some i
    → recompute_incident t id at ≡ ok (settle_incident t i at)
unfolding recompute_incident
recompute_incident-found t i id at e = rw (e, recompute_incident)

recompute_incidents-settles :
    (held ids : List ℕ) (t : Tables) (at : ℕ)
    → IsKeyed (λ j. j.id) t.incidents
    → Known t.incidents ids
    → Covered held at ids t.incidents
    → (u : Tables) × (recompute_incidents t ids at ≡ ok u)
      × (exists (is_taken held at) u.incidents ≡ false)
unfolding recompute_incidents
recompute_incidents-settles held [] t at keyed known c =
    (t, refl, Covered-nil held at t.incidents c)
recompute_incidents-settles held (id ∷ ids) t at keyed known c =
    elim (Option-cases (find? (λ j. j.id == id) t.incidents)) [
      | inl e ↦ cc (rw e at known.0)
      | inr (i, e) ↦
          let same : i.id ≡ id = (==_iff i.id id).0 (find?-fits (λ j. j.id == id) t.incidents e) in
          let found : find? (λ j. j.id == i.id) t.incidents ≡ some i =
            subst (λ k. find? (λ j. j.id == k) t.incidents ≡ some i) (sym same) e in
          let (u, runs, clear) =
            recompute_incidents-settles held ids (settle_incident t i at) at
              (settled-IsKeyed t i at keyed) (settled-Known t i at ids known.1)
              (settled-Covered t i at held ids keyed found
                (subst (λ k. Covered held at (k ∷ ids) t.incidents) (sym same) c)) in
          (u, rw (recompute_incident-found t i id at e) runs, clear)
    ]

-- In tables whose incident ids are a primary key, the due incidents that no other transaction holds are
-- all recomputed without an error, and then each active incident whose open propagation has come to its
-- end is one that another transaction holds.
pub advance_due_incidents-none_due :
    (t : Tables) (at : ℕ)
    → IsKeyed (λ j. j.id) t.incidents
    → (u : Tables) × (advance_due_incidents t at ≡ ok u)
      × (exists (is_taken t.locked_elsewhere at) u.incidents ≡ false)
unfolding advance_due_incidents
advance_due_incidents-none_due t at keyed =
    recompute_incidents-settles t.locked_elsewhere _ t at keyed
      (Known-select (is_taken t.locked_elsewhere at) t.incidents t.incidents keyed)
      (Covered-select t.locked_elsewhere at t.incidents)
