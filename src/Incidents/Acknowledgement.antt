-- ===== src/Incidents/Acknowledgement.antt =====
-- internal/incidents/cycle.go: how the acknowledgement of an incident follows from its evidence.
use Prim.Native.String.{◌++◌}
use cairnops.Common.{
  ℕ, zero, suc, ◌+◌, Bool, true, false, not, ◌&&◌, ◌||◌, Option, none, some, List, [], ◌∷◌, map,
  String, ◌==◌, str_eq, ltb, if◌then◌else◌, select, count_where, exists, is_some, is_none, coalesce,
  update_where, first_of_two,
}
use cairnops.Incidents.Schema.{
  SyncStatus, not_applicable, pending, synchronized, failed, by_connector, Incident, Evidence,
  Tables, ActivityKind, zabbix,
}
use cairnops.Incidents.Rows.{is_zabbix, update_evidence, append_activity}

abbrev pub is_pending : SyncStatus → Bool
is_pending pending = true
is_pending _ = false

abbrev pub is_failed : SyncStatus → Bool
is_failed failed = true
is_failed _ = false

abbrev pub same_sync : SyncStatus → SyncStatus → Bool
same_sync not_applicable not_applicable = true
same_sync pending pending = true
same_sync synchronized synchronized = true
same_sync failed failed = true
same_sync _ _ = false

-- `left(s, n)`.
unfoldable pub left : ℕ → String → String
left zero s = ""
left (suc n) String.[] = ""
left (suc n) (String.◌∷◌ c s) = String.◌∷◌ c (left n s)

-- `string_agg(nullif(error, ''), '; ')`, NULL where there is nothing to join. The order of the rows
-- stands for ORDER BY id.
unfoldable pub string_agg : List String → Option String
string_agg [] = none
string_agg (e ∷ es) =
    let rest = string_agg es in
    if str_eq e "" then rest else elim rest [ none ↦ some e | some r ↦ some (e ++ ("; " ++ r)) ]

-- `active AND origin = 'zabbix'`, of the evidence of one incident.
abbrev pub is_live : ℕ → Evidence → Bool
is_live incident_id e = e.incident_id == incident_id && (e.active && is_zabbix e.origin)

unfoldable pub desired_status : ℕ → List Evidence → SyncStatus
desired_status incident_id es =
    if count_where (is_live incident_id) es == 0
    then not_applicable
    else if ltb 0
        (count_where (λ e. is_live incident_id e && is_failed e.acknowledgement_sync_status) es)
    then failed
    else if ltb 0
        (count_where (λ e. is_live incident_id e && is_pending e.acknowledgement_sync_status) es)
    then pending
    else synchronized

unfoldable pub desired_error : ℕ → List Evidence → String
desired_error incident_id es = left 500 (
    coalesce
      (string_agg (
        map (λ e. e.acknowledgement_sync_error)
          (select (λ e. is_live incident_id e && is_failed e.acknowledgement_sync_status) es)))
      "")

-- The row's two columns differ from what the evidence asks for (IS DISTINCT FROM).
abbrev pub is_stale : SyncStatus → String → Incident → Bool
is_stale status error i =
    is_some i.acknowledged_at
    && not (
        same_sync i.acknowledgement_sync_status status && str_eq i.acknowledgement_sync_error error)

abbrev pub set_acknowledgement : ℕ → SyncStatus → String → Incident → Incident
set_acknowledgement now status error i = record i {
  acknowledgement_sync_status = status;
  acknowledgement_sync_error = error;
  revision = i.revision + 1;
  updated_at = now;
}

-- `recomputeAcknowledgement`.
unfoldable pub recompute_acknowledgement : Tables → ℕ → Tables
recompute_acknowledgement t incident_id =
    let status = desired_status incident_id t.evidence in
    let error = desired_error incident_id t.evidence in
    record t {
      incidents =
          update_where (λ i. i.id == incident_id && is_stale status error i)
            (set_acknowledgement t.now status error) t.incidents;
    }

-- The row that an acknowledgement received from a connector writes.
unfoldable pub acknowledged_by_connector : ℕ → ℕ → Bool → Incident → Incident
acknowledged_by_connector now observed_at waiting i = record i {
  acknowledged_at = some (coalesce i.acknowledged_at observed_at);
  acknowledgement_origin = first_of_two i.acknowledgement_origin (some by_connector);
  acknowledgement_sync_status = if waiting then pending else synchronized;
  acknowledgement_sync_error = "";
  revision = i.revision + 1;
  updated_at = now;
}

-- Other live evidence that its connector has not acknowledged.
abbrev pub is_waiting : ℕ → ℕ → Evidence → Bool
is_waiting incident_id evidence_id e =
    is_live incident_id e && (not (e.id == evidence_id) && not e.upstream_acknowledged)

-- The first statement of `acknowledgeFromEvidence`: only a row not yet acknowledged is written.
unfoldable pub acknowledge_row : Tables → ℕ → ℕ → ℕ → Tables
acknowledge_row t incident_id evidence_id observed_at =
    let waiting = exists (is_waiting incident_id evidence_id) t.evidence in
    record t {
      incidents =
          update_where (λ i. i.id == incident_id && is_none i.acknowledged_at)
            (acknowledged_by_connector t.now observed_at waiting) t.incidents;
    }

-- Its second statement: the incident's live evidence inherits the acknowledgement.
unfoldable pub inherit_acknowledgement : Tables → ℕ → ℕ → ℕ → Tables
inherit_acknowledgement t incident_id evidence_id observed_at =
    update_evidence (is_live incident_id)
      (λ e.
        let known = e.id == evidence_id || e.upstream_acknowledged in
        record e {
          acknowledgement_sync_status = if known then synchronized else pending;
          acknowledgement_sync_error = "";
          acknowledgement_synced_at =
              if known then some (coalesce e.acknowledgement_synced_at observed_at) else none;
          updated_at = t.now;
        })
      t

-- `acknowledgeFromEvidence`; `RowsAffected() == 0` is that no such row was there to write.
unfoldable pub acknowledge_from_evidence : Tables → ℕ → ℕ → ℕ → Tables
acknowledge_from_evidence t incident_id evidence_id observed_at =
    if exists (λ i. i.id == incident_id && is_none i.acknowledged_at) t.incidents
    then recompute_acknowledgement
        (append_activity
          (inherit_acknowledgement (acknowledge_row t incident_id evidence_id observed_at)
            incident_id evidence_id observed_at)
          incident_id 0 evidence_id ActivityKind.upstream_acknowledged zabbix 0
          "Acquittement reçu du Connecteur")
        incident_id
    else recompute_acknowledgement t incident_id
