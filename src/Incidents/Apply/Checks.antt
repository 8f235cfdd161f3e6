-- ===== src/Incidents/Apply/Checks.antt =====
-- The CHECK constraints of cairnops_incidents under `applyEvidenceFact`.
use cairnops.Common.{
  ℕ, ◌≡◌, refl, sym, subst, Bool, true, false, ◌&&◌, Option, none, some, String, ◌==◌, arith,
  exists, All, All-update_where, str_eq, map, select, find?, if◌then◌else◌, is_some, is_none,
  Bool-cases, Option-cases, inl, inr,
}
use cairnops.Common.Result.{
  ok_eq, Result, ok, err, target_archived, already_initialized, invalid_credentials,
  invalid_session, invalid_input, not_found, conflict, failed, ◌>>=◌, >>=-eq-ok,
}
use cairnops.Incidents.Schema.{
  SyncStatus, pending, Severity, Incident, Impact, Evidence, Tables, EvidenceFact,
}
use cairnops.Incidents.Rows.{highest, is_zabbix, append_activity, resolve_evidence_row}
use cairnops.Incidents.Acknowledgement.{
  is_stale, is_waiting, desired_status, desired_error, set_acknowledgement,
  acknowledged_by_connector, acknowledge_row, inherit_acknowledgement, acknowledge_from_evidence,
  recompute_acknowledgement,
}
use cairnops.Incidents.Recompute.{
  recompute_impact, recompute_incident, settle_impact, derive_impact, holds,
}
use cairnops.Incidents.Recompute.Checks.{IncidentChecks, recompute_incident-IncidentChecks}
use cairnops.Incidents.Resumption.{Ensured}
use cairnops.Incidents.Ensure.{ensure_impact}
use cairnops.Incidents.Ensure.Checks.{AreChecked, ensure_impact-AreChecked}
use cairnops.Incidents.Apply.{
  Applied, apply_evidence_fact, apply_existing, apply_new, move, refresh, attach, inherit, see,
  is_complete, active_evidence, with_incident, is_acknowledged, muted_evidence, attach_to, joined,
  insert_evidence, inserted_row,
}

-- The acknowledgement of an incident by its evidence.
acknowledge_row-AreChecked :
    (t : Tables) (id evidence_id at : ℕ)
    → AreChecked t
    → AreChecked (acknowledge_row t id evidence_id at)
unfolding acknowledge_row acknowledged_by_connector
acknowledge_row-AreChecked t id evidence_id at c =
    All-update_where IncidentChecks (λ i. i.id == id && is_none i.acknowledged_at)
      (acknowledged_by_connector t.now at (exists (is_waiting id evidence_id) t.evidence))
      t.incidents
      (λ r cr _. record {
        status_check = cr.status_check;
        propagation_check = cr.propagation_check;
        resolved_check = cr.resolved_check;
        acknowledgement_check = λ none_left. cc;
        window_check = cr.window_check;
        revision_check = ground (arith, cr.revision_check);
      })
      c

set_acknowledgement-IncidentChecks :
    (now : ℕ) (status : SyncStatus) (error : String) (r : Incident)
    → IncidentChecks r
    → IncidentChecks (set_acknowledgement now status error r)
set_acknowledgement-IncidentChecks now status error r c = record {
  status_check = c.status_check;
  propagation_check = c.propagation_check;
  resolved_check = c.resolved_check;
  acknowledgement_check = c.acknowledgement_check;
  window_check = c.window_check;
  revision_check = ground (arith, c.revision_check);
}

recompute_acknowledgement-AreChecked :
    (t : Tables) (id : ℕ) → AreChecked t → AreChecked (recompute_acknowledgement t id)
unfolding recompute_acknowledgement
recompute_acknowledgement-AreChecked t id c =
    let status = desired_status id t.evidence in
    let error = desired_error id t.evidence in
    All-update_where IncidentChecks (λ i. i.id == id && is_stale status error i)
      (set_acknowledgement t.now status error) t.incidents
      (λ r cr _. set_acknowledgement-IncidentChecks t.now status error r cr) c

acknowledge_from_evidence-AreChecked :
    (t : Tables) (id evidence_id at : ℕ)
    → AreChecked t
    → AreChecked (acknowledge_from_evidence t id evidence_id at)
unfolding acknowledge_from_evidence append_activity inherit_acknowledgement
acknowledge_from_evidence-AreChecked t id evidence_id at c =
    elim (Bool-cases (exists (λ i. i.id == id && is_none i.acknowledged_at) t.incidents)) [
      | inl e ↦
          rw (e, acknowledge_from_evidence)
            (recompute_acknowledgement-AreChecked _ id
              (acknowledge_row-AreChecked t id evidence_id at c))
      | inr e ↦ rw (e, acknowledge_from_evidence) (recompute_acknowledgement-AreChecked t id c)
    ]

inherit-AreChecked :
    (t : Tables) (id evidence_id : ℕ) → AreChecked t → AreChecked (inherit t id evidence_id)
unfolding inherit
inherit-AreChecked t id evidence_id c = elim (Bool-cases (is_acknowledged t id)) [
  | inl e ↦
      rw (e, inherit)
        (All-update_where IncidentChecks (λ i. i.id == id && is_some i.acknowledged_at)
          (set_acknowledgement t.now pending "") t.incidents
          (λ r cr _. set_acknowledgement-IncidentChecks t.now pending "" r cr) c)
  | inr e ↦ rw (e, inherit) c
]

refresh-AreChecked :
    (t : Tables) (fact : EvidenceFact) (at : ℕ) (e : Evidence)
    → AreChecked t
    → AreChecked (refresh t fact at e).tables
unfolding refresh
refresh-AreChecked t fact at e c = elim (Bool-cases fact.upstream_acknowledged) [
  | inl h ↦ rw (h, refresh) (acknowledge_from_evidence-AreChecked _ e.incident_id e.id at c)
  | inr h ↦ rw (h, refresh) c
]

joined-incidents :
    (s : Ensured) (fact : EvidenceFact) (id : ℕ) (t : Tables)
    → (joined s fact id t).incidents ≡ t.incidents
unfolding append_activity
joined-incidents s fact id t = ground arith

-- The last branch of `applyEvidenceFact`, from tables that are checked.
closing-AreChecked :
    (t : Tables) (upstream zabbix : Bool) (id evidence_id at : ℕ)
    → AreChecked t
    → AreChecked (
        if upstream
        then acknowledge_from_evidence t id evidence_id at
        else if zabbix
        then inherit t id evidence_id
        else t)
closing-AreChecked t true z id evidence_id at c =
    acknowledge_from_evidence-AreChecked t id evidence_id at c
closing-AreChecked t false true id evidence_id at c = inherit-AreChecked t id evidence_id c
closing-AreChecked t false false id evidence_id at c = c

attach-AreChecked :
    (s : Ensured) (fact : EvidenceFact) (at : ℕ)
    → AreChecked s.tables
    → AreChecked (attach s fact at).tables
unfolding attach append_activity
attach-AreChecked s fact at c =
    let row = inserted_row s.tables fact s.incident_id s.impact_id at in
    closing-AreChecked _ fact.upstream_acknowledged (is_zabbix fact.origin) s.incident_id
      s.tables.next_id at
      (subst (All IncidentChecks)
        (sym (joined-incidents s fact s.tables.next_id (insert_evidence s.tables row))) c)

apply_new-AreChecked :
    (t : Tables) (fact : EvidenceFact) (at : ℕ) (a : Applied)
    → AreChecked t
    → apply_new t fact at ≡ ok a
    → AreChecked a.tables
unfolding apply_new see
apply_new-AreChecked t fact at a c h = elim (Option-cases (muted_evidence t fact)) [
  | inr (e, m) ↦ subst (λ v. AreChecked v.tables) (ok_eq (rw (m, apply_new) at h)) c
  | inl m ↦ attached (ensure_impact t fact at) refl (rw (m, apply_new) at h)
]
  where
    attached :
        (r : Result Ensured)
        → ensure_impact t fact at ≡ r
        → attach_to t r fact at ≡ ok a
        → AreChecked a.tables
    attached (ok s) e k =
        subst (λ v. AreChecked v.tables) (ok_eq k)
          (attach-AreChecked s fact at (ensure_impact-AreChecked t fact at s c e))
    attached (err target_archived) e k = subst (λ v. AreChecked v.tables) (ok_eq k) c
    attached (err invalid_input) e k = cc
    attached (err not_found) e k = cc
    attached (err conflict) e k = cc
    attached (err failed) e k = cc
    attached (err already_initialized) e k = cc
    attached (err invalid_credentials) e k = cc
    attached (err invalid_session) e k = cc

-- The statements of a recomputed impact write no incident.
pub recompute_impact-incidents :
    (t u : Tables) (id at : ℕ) → recompute_impact t id at ≡ ok u → u.incidents ≡ t.incidents
unfolding recompute_impact settle_impact append_activity
recompute_impact-incidents t u id at h = elim (Option-cases (find? (λ i. i.id == id) t.impacts)) [
  | inl e ↦ cc (rw (e, recompute_impact) at h)
  | inr (i, e) ↦
      subst (λ v. v.incidents ≡ t.incidents) (ok_eq (rw (e, recompute_impact) at h))
        (derived i (highest (map (λ e. e.severity) (select (holds id) t.evidence))))
]
  where
    derived : (i : Impact) (s : Option Severity) → (derive_impact t i at s).incidents ≡ t.incidents
    derived i none = ground arith
    derived i (some s) = ground arith

move-AreChecked :
    (t : Tables) (fact : EvidenceFact) (at : ℕ) (e : Evidence) (a : Applied)
    → AreChecked t
    → move t fact at e ≡ ok a
    → AreChecked a.tables
unfolding move resolve_evidence_row append_activity
move-AreChecked t fact at e a c h =
    let (v, impact, h1) =
      >>=-eq-ok
        (recompute_impact
          (resolve_evidence_row t e.id e.incident_id e.impact_id fact.name fact.origin at)
          e.impact_id at)
        (λ v. recompute_incident v e.incident_id at >>= λ w. apply_new w fact at) h in
    let (w, incident, h2) =
      >>=-eq-ok (recompute_incident v e.incident_id at) (λ w. apply_new w fact at) h1 in
    apply_new-AreChecked w fact at a
      (recompute_incident-IncidentChecks v w e.incident_id at
        (subst (All IncidentChecks) (sym (recompute_impact-incidents _ v e.impact_id at impact)) c)
        incident)
      h2

apply_existing-AreChecked :
    (t : Tables) (fact : EvidenceFact) (at : ℕ) (e : Evidence) (i : Incident) (a : Applied)
    → AreChecked t
    → apply_existing t fact at e i ≡ ok a
    → AreChecked a.tables
unfolding apply_existing see
apply_existing-AreChecked t fact at e i a c h = elim (Bool-cases (is_some e.invalidated_at)) [
  | inl m ↦ subst (λ v. AreChecked v.tables) (ok_eq (rw (m, apply_existing) at h)) c
  | inr m ↦
      elim (Bool-cases (e.target_id == fact.target_id && str_eq i.nature.key fact.nature.key)) [
        | inl k ↦
            subst (λ v. AreChecked v.tables) (ok_eq (rw (m, k, apply_existing) at h))
              (refresh-AreChecked t fact at e c)
        | inr k ↦ move-AreChecked t fact at e a c (rw (m, k, apply_existing) at h)
      ]
]

-- Where every incident is within its CHECK constraints, a fact that is accepted, whichever branch it
-- takes, leaves every incident within them.
pub apply_evidence_fact-AreChecked :
    (t : Tables) (fact : EvidenceFact) (at : ℕ) (a : Applied)
    → AreChecked t
    → apply_evidence_fact t fact at ≡ ok a
    → AreChecked a.tables
unfolding apply_evidence_fact
apply_evidence_fact-AreChecked t fact at a c h = elim (Bool-cases (is_complete fact)) [
  | inr k ↦ cc (rw (k, apply_evidence_fact) at h)
  | inl k ↦ found (active_evidence t fact) (rw (k, apply_evidence_fact) at h)
]
  where
    found : (o : Option Evidence) → with_incident t fact at o ≡ ok a → AreChecked a.tables
    found none e = apply_new-AreChecked t fact at a c e
    found (some e) k =
        elim (Option-cases (find? (λ (i : Incident). i.id == e.incident_id) t.incidents)) [
          | inl n ↦ apply_new-AreChecked t fact at a c (rw (n, with_incident) at k)
          | inr (i, n) ↦ apply_existing-AreChecked t fact at e i a c (rw (n, with_incident) at k)
        ]
