-- ===== src/Incidents/Rows.antt =====
-- Statements on the tables that several functions of internal/incidents share: the updates by id,
-- `appendActivity` (store.go) and `resolveEvidenceRow` (cycle.go).
use cairnops.Common.{
  ℕ, Bool, true, false, not, ◌&&◌, Option, none, some, List, [], ◌∷◌, ◌++◌, String, ◌==◌, ltb,
  if◌then◌else◌, update_where,
}
use cairnops.Incidents.Schema.{
  Severity, severity_rank, Status, active, resolved, Propagation, opened, closed, Origin, zabbix,
  Incident, Impact, Evidence, ActivityKind, Activity, Tables,
}

abbrev pub is_active : Status → Bool
is_active active = true
is_active resolved = false

abbrev pub is_resolved : Status → Bool
is_resolved active = false
is_resolved resolved = true

abbrev pub same_status : Status → Status → Bool
same_status active s = is_active s
same_status resolved s = is_resolved s

abbrev pub is_open : Propagation → Bool
is_open opened = true
is_open closed = false

abbrev pub is_closed : Propagation → Bool
is_closed opened = false
is_closed closed = true

abbrev pub same_propagation : Propagation → Propagation → Bool
same_propagation opened p = is_open p
same_propagation closed p = is_closed p

abbrev pub same_bool : Bool → Bool → Bool
same_bool true b = b
same_bool false b = not b

abbrev pub is_zabbix : Origin → Bool
is_zabbix zabbix = true
is_zabbix _ = false

-- `nullableUUID`.
abbrev pub nullable_uuid : ℕ → Option ℕ
nullable_uuid n = if n == 0 then none else some n

-- `ORDER BY cairnops_severity_rank(severity) DESC LIMIT 1`.
unfoldable pub highest_from : Severity → List Severity → Severity
highest_from s [] = s
highest_from s (t ∷ ts) = highest_from (if ltb (severity_rank s) (severity_rank t) then t else s) ts

unfoldable pub highest : List Severity → Option Severity
highest [] = none
highest (s ∷ ss) = some (highest_from s ss)

abbrev pub update_incident : ℕ → (Incident → Incident) → Tables → Tables
update_incident id f t = record t { incidents = update_where (λ i. i.id == id) f t.incidents }

abbrev pub update_impact : ℕ → (Impact → Impact) → Tables → Tables
update_impact id f t = record t { impacts = update_where (λ i. i.id == id) f t.impacts }

abbrev pub update_evidence : (Evidence → Bool) → (Evidence → Evidence) → Tables → Tables
update_evidence p f t = record t { evidence = update_where p f t.evidence }

-- `appendActivity`: an empty id is NULL.
unfoldable pub append_activity : Tables → ℕ → ℕ → ℕ → ActivityKind → Origin → ℕ → String → Tables
append_activity t incident_id impact_id evidence_id kind origin actor_id message =
    let row : Activity = record {
      incident_id = incident_id;
      impact_id = nullable_uuid impact_id;
      evidence_id = nullable_uuid evidence_id;
      kind = kind;
      origin = origin;
      actor_id = nullable_uuid actor_id;
      message = message;
    } in
    record t { activity = t.activity ++ (row ∷ []) }

-- `resolveEvidenceRow`.
unfoldable pub resolve_evidence_row : Tables → ℕ → ℕ → ℕ → String → Origin → ℕ → Tables
resolve_evidence_row t evidence_id incident_id impact_id name origin observed_at =
    let t' =
      update_evidence (λ e. e.id == evidence_id && e.active)
        (λ e. record e {
          active = false;
          resolved_at = some observed_at;
          last_seen_at = observed_at;
          updated_at = t.now;
        })
        t in
    append_activity t' incident_id impact_id evidence_id ActivityKind.evidence_resolved origin 0
      name
