-- ===== src/Incidents/Recompute/Checks.antt =====
-- The CHECK constraints of cairnops_incidents under `recomputeIncident`, and what the row states of
-- its impacts afterwards.
use mathlib.Core.Option
use cairnops.Common.{
  ℕ, ◌*◌, ◌≤◌, ◌<◌, ◌≡◌, ◌↔◌, ◌⊎◌, inl, inr, refl, ap, ◌∙◌, subst, true, false, Option, none, some,
  ◌==◌, arith, All, All-update_where, All-find?, find?, count_where, ==_refl, if◌then◌else◌,
  is_none, is_some, Bool-cases,
}
use cairnops.Common.Result.{ok}
use cairnops.Incidents.Schema.{resolved, closed, Incident, Tables, Target}
use cairnops.Incidents.Rows.{is_closed, is_resolved}
use cairnops.AlertText.{Kind}
use cairnops.Incidents.Presentation.{set_kind}
use cairnops.Incidents.Acknowledgement.{is_stale, desired_status, desired_error}
use cairnops.Incidents.Recompute.{
  Derived, derive_incident, of_incident, active_in, recompute_incident, settle_incident,
  write_derived, changed, closed_at, resolved_at,
}
use cairnops.Incidents.Recompute.Row.{
  acknowledged_row, settled_row, settle_incident-incidents, settle_incident-SameFacts,
  recompute_incident-ok, settle_incident-find?,
}

-- The CHECK constraints on the resolution time, the end of the propagation, the propagation of a resolved
-- incident, the acknowledgement's columns, the window and the revision.
pub record IncidentChecks (i : Incident) : Type 0 where
  pub status_check : is_some i.resolved_at ≡ is_resolved i.status
  pub propagation_check : is_some i.propagation_closed_at ≡ is_closed i.propagation_status
  pub resolved_check : i.status ≡ resolved → i.propagation_status ≡ closed
  pub acknowledgement_check :
      i.acknowledged_at ≡ none → (i.acknowledged_by ≡ none) × (i.acknowledgement_origin ≡ none)
  pub window_check : (60 ≤ i.propagation_window_seconds) × (i.propagation_window_seconds ≤ 300)
  pub revision_check : 0 < i.revision

-- What holds of the derived values: the propagation only closes, and a resolution is exactly a
-- closed propagation with no active impact.
derived_status :
    (t : Tables) (i : Incident) (at : ℕ)
    → let d = derive_incident t i at in
      (is_closed i.propagation_status ≡ true → d.propagation ≡ closed)
      × ((d.status ≡ resolved) ↔ ((d.propagation ≡ closed) × (d.active ≡ 0)))
unfolding derive_incident
derived_status t i at = ground arith

acknowledged_row-IncidentChecks :
    (now : ℕ) (t : Tables) (id : ℕ) (i : Incident)
    → IncidentChecks i
    → IncidentChecks (acknowledged_row now t.evidence id i)
unfolding acknowledged_row
acknowledged_row-IncidentChecks now t id i c = record {
  status_check = ground arith;
  propagation_check = ground arith;
  resolved_check = ground arith;
  acknowledgement_check = ground arith;
  window_check = ground arith;
  revision_check = ground (arith, c.revision_check);
}

written-IncidentChecks :
    (now : ℕ) (d : Derived) (i r : Incident) (at : ℕ)
    → (is_closed i.propagation_status ≡ true → d.propagation ≡ closed)
    → (d.status ≡ resolved → d.propagation ≡ closed)
    → IncidentChecks i
    → IncidentChecks r
    → IncidentChecks (write_derived now d (closed_at i d at) (resolved_at i d at) r)
unfolding write_derived
written-IncidentChecks now d i r at closes resolves ci cr = record {
  status_check = ground (arith, ci.status_check);
  propagation_check = ground (arith, ci.propagation_check);
  resolved_check = resolves;
  acknowledgement_check = cr.acknowledgement_check;
  window_check = cr.window_check;
  revision_check = ground (arith, cr.revision_check);
}

kinded-IncidentChecks :
    (kind : Kind) (r : Incident) → IncidentChecks r → IncidentChecks (set_kind kind r)
kinded-IncidentChecks kind r c = record {
  status_check = c.status_check;
  propagation_check = c.propagation_check;
  resolved_check = c.resolved_check;
  acknowledgement_check = c.acknowledgement_check;
  window_check = c.window_check;
  revision_check = c.revision_check;
}

settled_row-IncidentChecks :
    (t : Tables) (i : Incident) (at : ℕ) (r : Incident)
    → IncidentChecks i
    → IncidentChecks r
    → IncidentChecks (settled_row t i at r)
unfolding settled_row
settled_row-IncidentChecks t i at r ci cr =
    acknowledged_row-IncidentChecks t.now t i.id _ (elim (Bool-cases (changed i d)) [
      | inl e ↦ rw e (
          written-IncidentChecks t.now d i _ at (derived_status t i at).0
            (λ h. ((derived_status t i at).1.0 h).0) ci (kinded-IncidentChecks _ r cr))
      | inr e ↦ rw e (kinded-IncidentChecks _ r cr)
    ])
  where
    d : Derived
    d = derive_incident t i at

-- Where every incident is within its CHECK constraints and recomputing one, at any instant, succeeds,
-- every incident is within them afterwards.
pub recompute_incident-IncidentChecks :
    (t u : Tables) (id at : ℕ)
    → All IncidentChecks t.incidents
    → recompute_incident t id at ≡ ok u
    → All IncidentChecks u.incidents
unfolding recompute_incident
recompute_incident-IncidentChecks t u id at c h =
    let (i, found, _, settled) = recompute_incident-ok t u id at h in
    subst (λ v. All IncidentChecks v.incidents) settled
      (rw (settle_incident-incidents t i at) (
        All-update_where IncidentChecks (λ j. j.id == i.id) (settled_row t i at) t.incidents
          (λ r cr _.
            settled_row-IncidentChecks t i at r
              (All-find? IncidentChecks (λ j. j.id == id) t.incidents c found) cr)
          c))

-- What a row of an incident states of its impacts and its targets, once recomputed at an instant.
pub record IsDerived (t : Tables) (before : Incident) (at : ℕ) (i : Incident) : Type 0 where
  pub active_counted : i.active_impact_count ≡ count_where (active_in before.id) t.impacts
  pub total_counted : i.impact_count ≡ count_where (of_incident before.id) t.impacts
  pub peak_kept : before.max_affected_targets ≤ i.max_affected_targets
  pub peak_reached : i.active_impact_count ≤ i.max_affected_targets
  pub closes :
      (i.propagation_status ≡ closed)
      ↔ ((before.propagation_status ≡ closed) ⊎ (before.propagation_ends_at ≤ at))
  pub resolves :
      (i.status ≡ resolved) ↔ ((i.propagation_status ≡ closed) × (i.active_impact_count ≡ 0))
  pub extends : (i.extended ≡ true) ↔ (
      (before.extended ≡ true)
      ⊎ ((20 ≤ i.active_impact_count)
          ⊎ ((5 ≤ i.active_impact_count)
              × (0 < count_where (λ (g : Target). is_none g.archived_at) t.targets)
              × (count_where (λ (g : Target). is_none g.archived_at) t.targets
                  ≤ i.active_impact_count * 5))))

acknowledged_row-IsDerived :
    (t : Tables) (before : Incident) (at now id : ℕ) (i : Incident)
    → IsDerived t before at i
    → IsDerived t before at (acknowledged_row now t.evidence id i)
unfolding acknowledged_row
acknowledged_row-IsDerived t before at now id i d =
    elim (Bool-cases (is_stale (desired_status id t.evidence) (desired_error id t.evidence) i)) [
      | inl e ↦
          rw (e, acknowledged_row)
            (record {
              active_counted = d.active_counted;
              total_counted = d.total_counted;
              peak_kept = d.peak_kept;
              peak_reached = d.peak_reached;
              closes = d.closes;
              resolves = d.resolves;
              extends = d.extends;
            })
      | inr e ↦ rw (e, acknowledged_row) d
    ]

record Agrees (d : Derived) (i : Incident) : Type 0 where
  active_same : i.active_impact_count ≡ d.active
  total_same : i.impact_count ≡ d.total
  peak_same : i.max_affected_targets ≡ d.max_affected
  propagation_same : i.propagation_status ≡ d.propagation
  status_same : i.status ≡ d.status
  extended_same : i.extended ≡ d.extended

unchanged-Agrees : (i : Incident) (d : Derived) → changed i d ≡ false → Agrees d i
unchanged-Agrees i d h = ground arith

module _ (t : Tables) (i : Incident) (at : ℕ) where
  derive_incident-IsDerived :
      (r : Incident) → Agrees (derive_incident t i at) r → IsDerived t i at r
  unfolding derive_incident
  derive_incident-IsDerived r a = record {
    active_counted = ground (arith, a.active_same);
    total_counted = ground (arith, a.total_same);
    peak_kept = ground (arith, a.peak_same);
    peak_reached = ground (arith, a.peak_same, a.active_same);
    closes = ground (arith, a.propagation_same);
    resolves = ground (arith, a.propagation_same, a.status_same, a.active_same);
    extends = ground (arith, a.extended_same, a.active_same);
  }

  written-Agrees :
      (r : Incident) (now : ℕ) (c s : Option ℕ)
      → Agrees (derive_incident t i at) (write_derived now (derive_incident t i at) c s r)
  unfolding write_derived
  written-Agrees r now c s = record {
    active_same = refl;
    total_same = refl;
    peak_same = refl;
    propagation_same = refl;
    status_same = refl;
    extended_same = refl;
  }

  kinded-Agrees : (d : Derived) (kind : Kind) → Agrees d i → Agrees d (set_kind kind i)
  kinded-Agrees d kind a = record {
    active_same = a.active_same;
    total_same = a.total_same;
    peak_same = a.peak_same;
    propagation_same = a.propagation_same;
    status_same = a.status_same;
    extended_same = a.extended_same;
  }

  pub settled_row-IsDerived : IsDerived t i at (settled_row t i at i)
  unfolding settled_row
  settled_row-IsDerived =
      acknowledged_row-IsDerived t i at t.now i.id _ (elim (Bool-cases (changed i d)) [
        | inl e ↦ rw e (derive_incident-IsDerived _ (written-Agrees _ t.now _ _))
        | inr e ↦ rw e (derive_incident-IsDerived _ (kinded-Agrees d _ (unchanged-Agrees i d e)))
      ])
    where
      d : Derived
      d = derive_incident t i at

settle_incident-found :
    (t : Tables) (i : Incident) (at id : ℕ)
    → find? (λ j. j.id == id) t.incidents ≡ some i
    → find? (λ j. j.id == id) (settle_incident t i at).incidents ≡ some (settled_row t i at i)
settle_incident-found t i at id found =
    settle_incident-find? t i at id
    ∙ (ap (Option.map (λ x. if x.id == i.id then settled_row t i at x else x)) found
        ∙ rw (==_refl i.id))

-- Where recomputing an incident succeeds, its row then counts its impacts and its active impacts
-- exactly, keeps the peak, has closed its propagation exactly if it was closed or its end has come,
-- is resolved exactly if that is closed and no impact is active, and is extended exactly if it was,
-- or 20 targets are affected, or 5 that are a fifth of the targets not archived.
pub recompute_incident-IsDerived :
    (t u : Tables) (id at : ℕ)
    → recompute_incident t id at ≡ ok u
    → (before after : Incident) × (find? (λ j. j.id == id) t.incidents ≡ some before)
      × (find? (λ j. j.id == id) u.incidents ≡ some after)
      × IsDerived t before at after
      × (u.impacts ≡ t.impacts)
      × (u.evidence ≡ t.evidence)
recompute_incident-IsDerived t u id at h =
    let (i, found, same, settled) = recompute_incident-ok t u id at h in
    subst
      (λ v.
        (before after : Incident) × (find? (λ j. j.id == id) t.incidents ≡ some before)
        × (find? (λ j. j.id == id) v.incidents ≡ some after)
        × IsDerived t before at after
        × (v.impacts ≡ t.impacts)
        × (v.evidence ≡ t.evidence))
      settled
      (
        i,
        settled_row t i at i,
        found,
        settle_incident-found t i at id found,
        settled_row-IsDerived t i at,
        (settle_incident-SameFacts t i at).impacts_same,
        (settle_incident-SameFacts t i at).evidence_same,
      )
