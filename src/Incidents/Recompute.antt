-- ===== src/Incidents/Recompute.antt =====
-- internal/incidents/cycle.go: `recomputeImpact`, `recomputeIncident` and `advanceDueIncidents`.
pub mod Row
pub mod Checks
pub mod Due
use cairnops.Common.{
  ℕ, zero, suc, ◌+◌, ◌*◌, Bool, true, false, not, ◌&&◌, ◌||◌, Option, none, some, List, [], ◌∷◌,
  map, String, ◌==◌, ltb, leb, if◌then◌else◌, select, count_where, is_some, is_none, coalesce,
  update_where, find?, exists,
}
use cairnops.Common.Result.{Result, ok, err, failed, ◌>>=◌}
use cairnops.Incidents.Schema.{
  Severity, Status, active, resolved, Propagation, opened, closed, Incident, Impact, Evidence,
  Tables, ActivityKind, Origin, by_cairnops, Target, same_severity,
}
use cairnops.Incidents.Rows.{
  is_active, is_resolved, same_status, is_open, is_closed, same_propagation, same_bool, highest,
  update_incident, update_impact, append_activity,
}
use cairnops.Incidents.Presentation.{refresh_incident_presentation}
use cairnops.Incidents.Acknowledgement.{recompute_acknowledgement}

-- Evidence that holds an impact up: active and not invalidated.
abbrev pub holds : ℕ → Evidence → Bool
holds impact_id e = e.impact_id == impact_id && (e.active && is_none e.invalidated_at)

-- The end of `recomputeImpact`, with the status, severity and resolution time it derived.
unfoldable pub settle_impact : Tables → Impact → Status → Severity → Option ℕ → Tables
settle_impact t i status severity resolved_at =
    if same_status status i.status && same_severity severity i.effective_severity
    then t
    else let t' =
        update_impact i.id
          (λ r. record r {
            status = status;
            source_severity = severity;
            effective_severity = severity;
            resolved_at = resolved_at;
            updated_at = t.now;
          })
          t in
      if is_resolved status && not (is_resolved i.status)
      then append_activity t' i.incident_id i.id 0 ActivityKind.impact_resolved by_cairnops 0
          "Atteinte rétablie"
      else t'

abbrev pub derive_impact : Tables → Impact → ℕ → Option Severity → Tables
derive_impact t i observed_at none =
    settle_impact t i resolved i.effective_severity (some observed_at)
derive_impact t i observed_at (some severity) = settle_impact t i active severity none

-- `recomputeImpact`.
unfoldable pub recompute_impact : Tables → ℕ → ℕ → Result Tables
recompute_impact t impact_id observed_at = elim (find? (λ i. i.id == impact_id) t.impacts) [
  | none ↦ err failed
  | some i ↦ ok (
      derive_impact t i observed_at
        (highest (map (λ e. e.severity) (select (holds impact_id) t.evidence))))
]

-- What `recomputeIncident` derives from the impacts before it writes.
pub record Derived : Type 0 where
  pub active : ℕ
  pub total : ℕ
  pub severity : Severity
  pub propagation : Propagation
  pub status : Status
  pub max_affected : ℕ
  pub extended : Bool

abbrev pub of_incident : ℕ → Impact → Bool
of_incident id i = i.incident_id == id

abbrev pub active_in : ℕ → Impact → Bool
active_in id i = i.incident_id == id && is_active i.status

unfoldable pub derive_incident : Tables → Incident → ℕ → Derived
derive_incident t i observed_at =
    let active_impacts = count_where (active_in i.id) t.impacts in
    let target_count = count_where (λ (g : Target). is_none g.archived_at) t.targets in
    let propagation =
      if is_open i.propagation_status && leb i.propagation_ends_at observed_at
      then closed
      else i.propagation_status in
    record {
      active = active_impacts;
      total = count_where (of_incident i.id) t.impacts;
      severity =
          coalesce (highest (map (λ m. m.effective_severity) (select (active_in i.id) t.impacts)))
            i.severity;
      propagation = propagation;
      status = if is_closed propagation && active_impacts == 0 then resolved else active;
      max_affected =
          if ltb i.max_affected_targets active_impacts
          then active_impacts
          else i.max_affected_targets;
      extended =
          i.extended
          || leb 20 active_impacts
          || (leb 5 active_impacts && ltb 0 target_count && leb target_count (active_impacts * 5));
    }

abbrev pub changed : Incident → Derived → Bool
changed i d =
    not (same_status d.status i.status)
    || not (same_propagation d.propagation i.propagation_status)
    || not (same_severity d.severity i.severity)
    || not (d.active == i.active_impact_count)
    || not (d.total == i.impact_count)
    || not (d.max_affected == i.max_affected_targets)
    || not (same_bool d.extended i.extended)

-- The two columns that are read again where they do not change.
abbrev pub closed_at : Incident → Derived → ℕ → Option ℕ
closed_at i d observed_at =
    if same_propagation d.propagation i.propagation_status
    then if is_closed d.propagation then i.propagation_closed_at else none
    else some observed_at

abbrev pub resolved_at : Incident → Derived → ℕ → Option ℕ
resolved_at i d observed_at =
    if same_status d.status i.status
    then if is_resolved d.status then i.resolved_at else none
    else if is_resolved d.status
    then some observed_at
    else none

-- The row that the update of `recomputeIncident` writes.
unfoldable pub write_derived : ℕ → Derived → Option ℕ → Option ℕ → Incident → Incident
write_derived now d closed_at resolved_at r = record r {
  status = d.status;
  propagation_status = d.propagation;
  severity = d.severity;
  propagation_closed_at = closed_at;
  resolved_at = resolved_at;
  active_impact_count = d.active;
  impact_count = d.total;
  affected_target_count = d.active;
  max_affected_targets = d.max_affected;
  extended = d.extended;
  revision = r.revision + 1;
  updated_at = now;
}

-- One optional line of the journal.
abbrev pub note_if : Bool → ℕ → ActivityKind → String → Tables → Tables
note_if b id kind message t = if b then append_activity t id 0 0 kind by_cairnops 0 message else t

abbrev pub notes : Incident → Derived → Tables → Tables
notes i d t =
    note_if (is_resolved d.status && not (is_resolved i.status)) i.id ActivityKind.resolved
      "Incident résolu"
      (note_if (d.extended && not i.extended) i.id ActivityKind.extended "Propagation étendue" (
        note_if (not (same_severity d.severity i.severity)) i.id ActivityKind.severity_changed
          "Gravité actualisée"
          (note_if (is_closed d.propagation && is_open i.propagation_status) i.id
            ActivityKind.propagation_closed "Regroupement terminé" t)))

unfoldable pub settle_incident : Tables → Incident → ℕ → Tables
settle_incident t i observed_at =
    let d = derive_incident t i observed_at in
    let t' = refresh_incident_presentation t i.id (d.active == 0) in
    if changed i d
    then recompute_acknowledgement
        (notes i d (
          update_incident i.id
            (write_derived t.now d (closed_at i d observed_at) (resolved_at i d observed_at)) t'))
        i.id
    else recompute_acknowledgement t' i.id

-- `recomputeIncident`.
unfoldable pub recompute_incident : Tables → ℕ → ℕ → Result Tables
recompute_incident t incident_id observed_at = elim (find? (λ i. i.id == incident_id) t.incidents) [
  | none ↦ err failed
  | some i ↦ ok (settle_incident t i observed_at)
]

-- The incidents that the query of `advanceDueIncidents` selects; the order it gives them does not
-- reach the tables but through the journal.
abbrev pub is_due : ℕ → Incident → Bool
is_due observed_at i =
    is_active i.status && (is_open i.propagation_status && leb i.propagation_ends_at observed_at)

unfoldable pub recompute_incidents : Tables → List ℕ → ℕ → Result Tables
recompute_incidents t [] observed_at = ok t
recompute_incidents t (id ∷ ids) observed_at = do
  t' ← recompute_incident t id observed_at
  recompute_incidents t' ids observed_at

-- `FOR UPDATE SKIP LOCKED`: a due row that no other transaction holds.
abbrev pub is_taken : List ℕ → ℕ → Incident → Bool
is_taken locked_elsewhere observed_at i =
    is_due observed_at i && not (exists (λ id. id == i.id) locked_elsewhere)

-- `advanceDueIncidents`.
unfoldable pub advance_due_incidents : Tables → ℕ → Result Tables
advance_due_incidents t observed_at =
    recompute_incidents t
      (map (λ i. i.id) (select (is_taken t.locked_elsewhere observed_at) t.incidents)) observed_at
