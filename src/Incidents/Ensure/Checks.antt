-- ===== src/Incidents/Ensure/Checks.antt =====
-- The CHECK constraints of cairnops_incidents under `ensureImpact`.
use cairnops.Common.{
  ℕ, ◌≤◌, ◌≡◌, refl, subst, Bool, true, false, ◌&&◌, none, some, ◌==◌, arith, All, All-append,
  All-update_where, select, find?, update_where, if◌then◌else◌, is_some, Option-cases, inl, inr,
  ◌⊎◌,
}
use cairnops.Common.Result.{ok_eq, ok, err, target_archived}
use cairnops.Incidents.Schema.{Incident, Impact, Tables, EvidenceFact, Target}
use cairnops.Incidents.Rows.{is_open, append_activity}
use cairnops.Incidents.Recompute.Checks.{IncidentChecks}
use cairnops.Incidents.Resumption.{
  Ensured, resumed_row, resume, resume_recent_incident, resolved_or_zero, is_resumable, impact_of,
}
use cairnops.Incidents.Ensure.{
  ensure_impact, insert_impact, insert_incident, open_incident, opened_row, join, propagating,
  not_current, on_target, is_current,
}
use cairnops.Incidents.Propagation.{evidence_window, extended_row, extend_propagation}
use cairnops.Common.Order.{latest}
use cairnops.Incidents.Propagation.Window.{evidence_window_bounds}

-- Every incident of the tables is within the table's constraints.
abbrev pub AreChecked : Tables → Type 0
AreChecked t = All IncidentChecks t.incidents

extended_row-IncidentChecks :
    (now at window : ℕ) (i : Incident)
    → window ≤ 300
    → IncidentChecks i
    → IncidentChecks (extended_row now at window i)
unfolding extended_row
extended_row-IncidentChecks now at window i w c = record {
  status_check = c.status_check;
  propagation_check = c.propagation_check;
  resolved_check = c.resolved_check;
  acknowledgement_check = c.acknowledgement_check;
  window_check = ground (arith, c.window_check);
  revision_check = ground (arith, c.revision_check);
}

opened_row-IncidentChecks :
    (id now : ℕ) (fact : EvidenceFact) (window at : ℕ)
    → 60 ≤ window
    → window ≤ 300
    → IncidentChecks (opened_row id now fact window at)
unfolding opened_row
opened_row-IncidentChecks id now fact window at a b = record {
  status_check = refl;
  propagation_check = ground arith;
  resolved_check = ground arith;
  acknowledgement_check = λ _. (refl, refl);
  window_check = (a, b);
  revision_check = omega arith;
}

resumed_row-IncidentChecks :
    (now at : ℕ) (i : Incident) → IncidentChecks i → IncidentChecks (resumed_row now at i)
unfolding resumed_row
resumed_row-IncidentChecks now at i c = record {
  status_check = c.status_check;
  propagation_check = c.propagation_check;
  resolved_check = c.resolved_check;
  acknowledgement_check = c.acknowledgement_check;
  window_check = c.window_check;
  revision_check = ground (arith, c.revision_check);
}

join-AreChecked :
    (t : Tables) (fact : EvidenceFact) (window : ℕ) (i : Incident)
    → window ≤ 300
    → AreChecked t
    → AreChecked (join t fact window i).tables
unfolding join extend_propagation insert_impact append_activity
join-AreChecked t fact window i w c =
    elim (Option-cases
      (find? (λ m. m.incident_id == i.id && m.target_id == fact.target_id) t.impacts)) [
        | inl e ↦ rw (e, join) kept
        | inr (m, e) ↦ rw (e, join) kept
      ]
  where
    kept : All IncidentChecks (
        update_where
          (λ r. r.id == i.id && is_open r.propagation_status)
          (extended_row t.now fact.opened_at window)
          t.incidents)
    kept =
        All-update_where IncidentChecks _ (extended_row t.now fact.opened_at window) t.incidents
          (λ r cr _. extended_row-IncidentChecks t.now fact.opened_at window r w cr) c

resume-AreChecked :
    (t : Tables) (fact : EvidenceFact) (at : ℕ) (i : Incident) (m : Impact)
    → AreChecked t
    → AreChecked (resume t fact at i m).tables
unfolding resume append_activity
resume-AreChecked t fact at i m c =
    All-update_where IncidentChecks (λ j. j.id == i.id) (resumed_row t.now at) t.incidents
      (λ r cr _. resumed_row-IncidentChecks t.now at r cr) c

open_incident-AreChecked :
    (t : Tables) (fact : EvidenceFact) (window at : ℕ)
    → 60 ≤ window
    → window ≤ 300
    → AreChecked t
    → AreChecked (open_incident t fact window at).tables
unfolding open_incident insert_incident insert_impact
open_incident-AreChecked t fact window at a b c =
    All-append IncidentChecks t.incidents _ c
      (opened_row-IncidentChecks t.next_id t.now fact window at a b, tt)

-- What `resumeRecentIncident` may return.
resume_recent_incident-cases :
    (t : Tables) (fact : EvidenceFact) (at : ℕ)
    → (resume_recent_incident t fact at ≡ none)
      ⊎ ((i : Incident) × (m : Impact) × (resume_recent_incident t fact at
            ≡ some (resume t fact at i m)))
unfolding resume_recent_incident
resume_recent_incident-cases t fact at =
    elim (Option-cases (latest resolved_or_zero (select (is_resumable t fact at) t.incidents))) [
      | inl e ↦ inl (rw (e, resume_recent_incident) refl)
      | inr (i, e) ↦ elim (Option-cases (impact_of t i.id fact.target_id)) [
        | inl f ↦ inl (rw (e, f, resume_recent_incident) refl)
        | inr (m, f) ↦ inr (i, m, rw (e, f, resume_recent_incident) refl)
      ]
    ]

-- The three ways that `ensureImpact` takes for a target with no current impact.
not_current-AreChecked :
    (t : Tables) (fact : EvidenceFact) (at : ℕ)
    → AreChecked t
    → AreChecked (not_current t fact at).tables
not_current-AreChecked t fact at c =
    let (low, high, _, _, _) = evidence_window_bounds t fact in
    elim (Option-cases (propagating t fact)) [
      | inr (i, e) ↦ rw (e, not_current) (join-AreChecked t fact (evidence_window t fact) i high c)
      | inl e ↦ elim (resume_recent_incident-cases t fact at) [
        | inl f ↦
            rw (e, f, not_current)
              (open_incident-AreChecked t fact (evidence_window t fact) at low high c)
        | inr (i, m, f) ↦ rw (e, f, not_current) (resume-AreChecked t fact at i m c)
      ]
    ]

-- The branch on a target that is not archived.
on_target-AreChecked :
    (t : Tables) (fact : EvidenceFact) (at : ℕ)
    → AreChecked t
    → AreChecked (on_target t fact at).tables
on_target-AreChecked t fact at c =
    elim (Option-cases (latest (λ m. m.opened_at) (select (is_current t fact) t.impacts))) [
      | inl e ↦ rw (e, on_target) (not_current-AreChecked t fact at c)
      | inr (m, e) ↦ rw (e, on_target) c
    ]

unarchived {ℓ} :
    {A : Type ℓ} (b : Bool) (x s : A)
    → (if b then err target_archived else ok x) ≡ ok s
    → (b ≡ false) × (x ≡ s)
unarchived true x s h = cc
unarchived false x s h = (refl, ok_eq h)

-- Where an impact is ensured, the target is known and not archived.
pub ensure_impact-ok :
    (t : Tables) (fact : EvidenceFact) (at : ℕ) (s : Ensured)
    → ensure_impact t fact at ≡ ok s
    → (g : Target) × (find? (λ (k : Target). k.id == fact.target_id) t.targets ≡ some g)
      × (is_some g.archived_at ≡ false)
      × (on_target t fact at ≡ s)
unfolding ensure_impact
ensure_impact-ok t fact at s h =
    elim (Option-cases (find? (λ (g : Target). g.id == fact.target_id) t.targets)) [
      | inl e ↦ cc (rw (e, ensure_impact) at h)
      | inr (g, e) ↦
          let (live, same) =
            unarchived (is_some g.archived_at) (on_target t fact at) s
              (rw (e, ensure_impact) at h) in
          (g, e, live, same)
    ]

pub ensure_impact-AreChecked :
    (t : Tables) (fact : EvidenceFact) (at : ℕ) (s : Ensured)
    → AreChecked t
    → ensure_impact t fact at ≡ ok s
    → AreChecked s.tables
ensure_impact-AreChecked t fact at s c h =
    let (_, _, _, same) = ensure_impact-ok t fact at s h in
    subst (λ v. AreChecked v.tables) same (on_target-AreChecked t fact at c)
