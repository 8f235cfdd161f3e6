-- ===== src/Incidents/Propagation.antt =====
-- internal/incidents/cycle.go: `evidenceWindow` and `extendPropagation`.
pub mod Window
use cairnops.Common.{
  ℕ, zero, suc, ◌+◌, ◌*◌, ◌/◌, max, min, Bool, true, false, not, ◌&&◌, ◌||◌, Option, none, some,
  List, [], ◌∷◌, ◌++◌, map, String, ◌==◌, str_eq, ltb, leb, if◌then◌else◌, select, exists, is_some,
  find?, update_where,
}
use cairnops.Common.Int.{ℤ, pos, negsuc}
use cairnops.Common.Result.{Result, ok, err, not_found, target_archived, failed, ◌>>=◌}
use cairnops.Domain.Source.{second}
use cairnops.Incidents.Schema.{
  Severity, Status, active, resolved, Propagation, opened, closed, NatureScope, canonical,
  connector, NatureIdentity, Incident, Impact, Evidence, Tables, ActivityKind, Target, SignalSource,
  Connector, EvidenceFact, SyncStatus,
}
use cairnops.Incidents.Rows.{
  is_active, is_resolved, is_open, update_incident, update_impact, append_activity,
}
use cairnops.AlertText.{Kind}

-- `int(min(window, 5 minutes) / second)`; the division of a negative duration is at most 0, which
-- the maximum below never takes.
abbrev pub window_seconds : ℤ → ℕ
window_seconds (pos n) = min n (300 * second) / second
window_seconds (negsuc n) = 0

abbrev source_interval : Option SignalSource → ℕ
source_interval none = 30
source_interval (some s) = s.interval_seconds

abbrev connector_interval : Option Connector → ℕ
connector_interval none = 30
connector_interval (some c) = c.sync_interval_seconds

unfoldable pub cadence_seconds : Tables → EvidenceFact → ℕ
cadence_seconds t fact =
    if not (fact.source_id == 0)
    then source_interval (find? (λ (s : SignalSource). s.id == fact.source_id) t.sources)
    else if not (fact.connector_id == 0)
    then connector_interval (find? (λ (c : Connector). c.id == fact.connector_id) t.connectors)
    else 30

-- `evidenceWindow`.
unfoldable pub evidence_window : Tables → EvidenceFact → ℕ
evidence_window t fact =
    let window = max (cadence_seconds t fact * 2) (window_seconds fact.evaluation_window) in
    let window' = if ltb window 60 then 60 else window in if ltb 300 window' then 300 else window'

-- The row that `extendPropagation` writes.
unfoldable pub extended_row : ℕ → ℕ → ℕ → Incident → Incident
extended_row now observed_at window i =
    let last = max i.last_impact_at observed_at in
    let seconds = max i.propagation_window_seconds window in
    record i {
      last_impact_at = last;
      propagation_window_seconds = seconds;
      propagation_ends_at = max i.propagation_ends_at (last + seconds * second);
      revision = i.revision + 1;
      updated_at = now;
    }

-- `extendPropagation`.
unfoldable pub extend_propagation : Tables → ℕ → ℕ → ℕ → Tables
extend_propagation t incident_id observed_at window = record t {
  incidents =
      update_where (λ i. i.id == incident_id && is_open i.propagation_status)
        (extended_row t.now observed_at window) t.incidents;
}
