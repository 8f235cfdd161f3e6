-- ===== src/Incidents/Ensure.antt =====
-- internal/incidents/cycle.go: `ensureImpact` and what it calls, which decide whether a fact joins an
-- incident, reopens an impact, resumes a recent incident or opens one.
pub mod Checks
use cairnops.Common.{
  ℕ, zero, suc, ◌+◌, ◌*◌, ◌/◌, max, min, Bool, true, false, not, ◌&&◌, ◌||◌, Option, none, some,
  List, [], ◌∷◌, ◌++◌, map, String, ◌==◌, str_eq, ltb, leb, if◌then◌else◌, select, exists, is_some,
  find?, update_where,
}
use cairnops.Common.Int.{ℤ, pos, negsuc}
use cairnops.Common.Result.{Result, ok, err, not_found, target_archived, failed, ◌>>=◌}
use cairnops.Domain.Source.{second}
use cairnops.Incidents.Schema.{
  Severity, Status, active, resolved, Propagation, opened, closed, NatureScope, canonical,
  connector, NatureIdentity, Incident, Impact, Evidence, Tables, ActivityKind, Target, SignalSource,
  Connector, EvidenceFact, SyncStatus,
}
use cairnops.Incidents.Rows.{
  is_active, is_resolved, is_open, update_incident, update_impact, append_activity,
}
use cairnops.AlertText.{Kind}
use cairnops.Common.Order.{earliest, earliest_from, latest, latest_from}
use cairnops.Incidents.Propagation.{
  cadence_seconds, evidence_window, extend_propagation, extended_row, window_seconds,
}
use cairnops.Incidents.Resumption.{
  Ensured, has_later, impact_of, is_resumable, reopened_row, resolved_or_zero, resume,
  resume_recent_incident, resumed_row, resumption_window,
}

-- INSERT INTO cairnops_incident_impacts; the row takes the next id.
unfoldable pub insert_impact : Tables → ℕ → ℕ → Severity → ℕ → Tables
insert_impact t incident_id target_id severity opened_at =
    let row : Impact = record {
      id = t.next_id;
      incident_id = incident_id;
      target_id = target_id;
      status = active;
      source_severity = severity;
      effective_severity = severity;
      opened_at = opened_at;
      resolved_at = none;
      updated_at = t.now;
    } in
    record t { impacts = t.impacts ++ (row ∷ []); next_id = suc t.next_id }

-- The incident that the last step of `ensureImpact` inserts.
unfoldable pub opened_row : ℕ → ℕ → EvidenceFact → ℕ → ℕ → Incident
opened_row id now fact window observed_at = record {
  id = id;
  nature = fact.nature;
  status = active;
  propagation_status = if fact.nature.eligible then opened else closed;
  severity = fact.severity;
  opened_at = fact.opened_at;
  last_impact_at = fact.opened_at;
  propagation_window_seconds = window;
  propagation_ends_at = fact.opened_at + window * second;
  propagation_closed_at = if fact.nature.eligible then none else some observed_at;
  resolved_at = none;
  acknowledged_at = none;
  acknowledged_by = none;
  acknowledgement_origin = none;
  acknowledgement_sync_status = SyncStatus.not_applicable;
  acknowledgement_sync_error = "";
  extended = false;
  active_impact_count = 1;
  impact_count = 1;
  affected_target_count = 1;
  max_affected_targets = 1;
  revision = 1;
  resumption_count = 0;
  resumed_at = none;
  alert_kind = Kind.none_known;
  updated_at = now;
}

unfoldable pub insert_incident : Tables → EvidenceFact → ℕ → ℕ → Tables
insert_incident t fact window observed_at = record t {
  incidents = t.incidents ++ (opened_row t.next_id t.now fact window observed_at ∷ []);
  next_id = suc t.next_id;
}

-- An active impact of the fact's target in an active incident of its nature.
unfoldable pub is_current : Tables → EvidenceFact → Impact → Bool
is_current t fact m =
    m.target_id == fact.target_id
    && (is_active m.status
        && exists
            (λ i.
              i.id == m.incident_id && (is_active i.status && str_eq i.nature.key fact.nature.key))
            t.incidents)

abbrev pub same_scope : NatureScope → NatureScope → Bool
same_scope canonical canonical = true
same_scope connector connector = true
same_scope _ _ = false

-- An incident whose propagation takes the fact in.
unfoldable pub is_propagating : EvidenceFact → Incident → Bool
is_propagating fact i =
    is_active i.status
    && (is_open i.propagation_status
        && (i.nature.eligible
            && (same_scope i.nature.scope fact.nature.scope
                && (str_eq i.nature.namespace fact.nature.namespace
                    && (str_eq i.nature.fingerprint fact.nature.fingerprint
                        && (leb i.opened_at fact.opened_at
                            && leb fact.opened_at i.propagation_ends_at))))))

-- The branch of `ensureImpact` for an incident that is still propagating.
unfoldable pub join : Tables → EvidenceFact → ℕ → Incident → Ensured
join t fact window i = elim (impact_of t i.id fact.target_id) [
  | some m ↦ record {
    tables =
        extend_propagation
          (append_activity (update_impact m.id (reopened_row t.now fact.severity) t) i.id m.id 0
            ActivityKind.impact_reopened fact.origin 0 fact.name)
          i.id fact.opened_at window;
    incident_id = i.id;
    impact_id = m.id;
    created_incident = false;
    created_impact = false;
  }
  | none ↦ record {
    tables =
        extend_propagation (insert_impact t i.id fact.target_id fact.severity fact.opened_at) i.id
          fact.opened_at window;
    incident_id = i.id;
    impact_id = t.next_id;
    created_incident = false;
    created_impact = true;
  }
]

-- The last step: a new incident with its first impact.
unfoldable pub open_incident : Tables → EvidenceFact → ℕ → ℕ → Ensured
open_incident t fact window observed_at =
    let t' = insert_incident t fact window observed_at in
    record {
      tables = insert_impact t' t.next_id fact.target_id fact.severity fact.opened_at;
      incident_id = t.next_id;
      impact_id = suc t.next_id;
      created_incident = true;
      created_impact = true;
    }

abbrev pub or_open : Option Ensured → Ensured → Ensured
or_open none e = e
or_open (some e') e = e'

abbrev pub propagating : Tables → EvidenceFact → Option Incident
propagating t fact =
    if fact.nature.eligible
    then earliest (λ i. i.opened_at) (select (is_propagating fact) t.incidents)
    else none

abbrev pub not_current : Tables → EvidenceFact → ℕ → Ensured
not_current t fact observed_at =
    let window = evidence_window t fact in
    elim (propagating t fact) [
      | some i ↦ join t fact window i
      | none ↦
          or_open (resume_recent_incident t fact observed_at)
            (open_incident t fact window observed_at)
    ]

abbrev pub on_target : Tables → EvidenceFact → ℕ → Ensured
on_target t fact observed_at =
    elim (latest (λ m. m.opened_at) (select (is_current t fact) t.impacts)) [
      | some m ↦ record {
        tables = t;
        incident_id = m.incident_id;
        impact_id = m.id;
        created_incident = false;
        created_impact = false;
      }
      | none ↦ not_current t fact observed_at
    ]

-- `ensureImpact`.
unfoldable pub ensure_impact : Tables → EvidenceFact → ℕ → Result Ensured
ensure_impact t fact observed_at = elim (find? (λ (g : Target). g.id == fact.target_id) t.targets) [
  | none ↦ err not_found
  | some g ↦
      if is_some g.archived_at then err target_archived else ok (on_target t fact observed_at)
]
