-- ===== src/Incidents/Presentation.antt =====
-- internal/incidents/presentation.go: `refreshIncidentPresentation`.
use cairnops.Common.{ℕ, Bool, ◌&&◌, ◌||◌, List, map, ◌==◌, select, is_none}
use cairnops.AlertText.{common, Kind}
use cairnops.Incidents.Schema.{Incident, Evidence, Tables}
use cairnops.Incidents.Rows.{update_incident}

-- The kind that the evidence of an incident shares: the evidence that is not invalidated, and
-- active unless no impact is.
unfoldable pub shared_kind : List Evidence → ℕ → Bool → Kind
shared_kind es incident_id no_active_impacts =
    let shown =
      select
        (λ e.
          e.incident_id == incident_id
          && is_none e.invalidated_at
          && (e.active || no_active_impacts))
        es in
    (common (map (λ e. e.alert_facts) shown)).kind

abbrev pub set_kind : Kind → Incident → Incident
set_kind kind i = record i { alert_kind = kind }

-- The update writes nothing but the kind, and skipping a row that has it already changes nothing.
unfoldable pub refresh_incident_presentation : Tables → ℕ → Bool → Tables
refresh_incident_presentation t incident_id no_active_impacts =
    update_incident incident_id (set_kind (shared_kind t.evidence incident_id no_active_impacts)) t
