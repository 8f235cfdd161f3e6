-- ===== src/Incidents/Resumption.antt =====
-- internal/incidents/cycle.go: `resumeRecentIncident`, which takes a recently resolved incident up again.
pub mod Recent
use cairnops.Common.{
  ℕ, zero, suc, ◌+◌, ◌*◌, ◌/◌, max, min, Bool, true, false, not, ◌&&◌, ◌||◌, Option, none, some,
  List, [], ◌∷◌, ◌++◌, map, String, ◌==◌, str_eq, ltb, leb, if◌then◌else◌, select, exists, is_some,
  find?, update_where,
}
use cairnops.Common.Int.{ℤ, pos, negsuc}
use cairnops.Common.Result.{Result, ok, err, not_found, target_archived, failed, ◌>>=◌}
use cairnops.Domain.Source.{second}
use cairnops.Incidents.Schema.{
  Severity, Status, active, resolved, Propagation, opened, closed, NatureScope, canonical,
  connector, NatureIdentity, Incident, Impact, Evidence, Tables, ActivityKind, Target, SignalSource,
  Connector, EvidenceFact, SyncStatus,
}
use cairnops.Incidents.Rows.{
  is_active, is_resolved, is_open, update_incident, update_impact, append_activity,
}
use cairnops.AlertText.{Kind}
use cairnops.Common.Order.{earliest, earliest_from, latest, latest_from}

-- The columns that reopening an impact sets.
unfoldable pub reopened_row : ℕ → Severity → Impact → Impact
reopened_row now severity i = record i {
  status = active;
  resolved_at = none;
  source_severity = severity;
  effective_severity = severity;
  updated_at = now;
}

-- `ResumptionWindow`, 6 hours.
abbrev pub resumption_window : ℕ
resumption_window = 21600 * second

-- A comparison with a NULL resolution time is not true.
abbrev pub resolved_recently : Option ℕ → ℕ → ℕ → Bool
resolved_recently none opened_at observed_at = false
resolved_recently (some r) opened_at observed_at =
    leb opened_at (r + resumption_window) && leb r observed_at

-- The subquery of `resumeRecentIncident`: a later incident on the target with the nature.
unfoldable pub has_later : Tables → EvidenceFact → Incident → Bool
has_later t fact i =
    exists
      (λ m.
        m.target_id == fact.target_id
        && exists
            (λ j.
              j.id == m.incident_id
              && (str_eq j.nature.key fact.nature.key && ltb i.opened_at j.opened_at))
            t.incidents)
      t.impacts

unfoldable pub is_resumable : Tables → EvidenceFact → ℕ → Incident → Bool
is_resumable t fact observed_at i =
    str_eq i.nature.key fact.nature.key
    && (is_resolved i.status
        && (i.impact_count == 1
            && (resolved_recently i.resolved_at fact.opened_at observed_at
                && (exists (λ m. m.incident_id == i.id && m.target_id == fact.target_id) t.impacts
                    && not (has_later t fact i)))))

abbrev pub resolved_or_zero : Incident → ℕ
resolved_or_zero i = elim i.resolved_at [ none ↦ 0 | some r ↦ r ]

-- The row that a resumption writes.
unfoldable pub resumed_row : ℕ → ℕ → Incident → Incident
resumed_row now observed_at i = record i {
  resumption_count = i.resumption_count + 1;
  resumed_at = some observed_at;
  revision = i.revision + 1;
  updated_at = now;
}

pub record Ensured : Type 0 where
  pub tables : Tables
  pub incident_id : ℕ
  pub impact_id : ℕ
  pub created_incident : Bool
  pub created_impact : Bool

abbrev pub impact_of : Tables → ℕ → ℕ → Option Impact
impact_of t incident_id target_id =
    find? (λ m. m.incident_id == incident_id && m.target_id == target_id) t.impacts

-- The updates of `resumeRecentIncident`, once it found the incident and its impact.
unfoldable pub resume : Tables → EvidenceFact → ℕ → Incident → Impact → Ensured
resume t fact observed_at i m = record {
  tables =
      append_activity
        (update_incident i.id (resumed_row t.now observed_at)
          (update_impact m.id (reopened_row t.now fact.severity) t))
        i.id m.id 0 ActivityKind.resumed fact.origin 0 "Incident repris";
  incident_id = i.id;
  impact_id = m.id;
  created_incident = false;
  created_impact = false;
}

-- `resumeRecentIncident`; `none` is the empty identifiers.
unfoldable pub resume_recent_incident : Tables → EvidenceFact → ℕ → Option Ensured
resume_recent_incident t fact observed_at =
    elim (latest resolved_or_zero (select (is_resumable t fact observed_at) t.incidents)) [
      | none ↦ none
      | some i ↦ elim (impact_of t i.id fact.target_id) [
        | none ↦ none
        | some m ↦ some (resume t fact observed_at i m)
      ]
    ]
