-- ===== src/Incidents/Apply.antt =====
-- internal/incidents/cycle.go: `applyEvidenceFact`. Its advisory lock orders transactions and changes
-- no row. A fact on an archived target is `archived`, with what the transaction wrote before.
pub mod Checks
use cairnops.Common.{
  ℕ, zero, suc, ◌+◌, Bool, true, false, not, ◌&&◌, ◌||◌, Option, none, some, List, [], ◌∷◌, ◌++◌,
  String, ◌==◌, str_eq, if◌then◌else◌, select, exists, is_some, is_none, find?, update_where,
  coalesce,
}
use cairnops.Common.Text.{is_blank}
use cairnops.Common.Result.{Result, ok, err, invalid_input, target_archived, Error, ◌>>=◌}
use cairnops.AlertText.{normalize}
use cairnops.Incidents.Schema.{
  Severity, valid_severity, Origin, same_origin, SyncStatus, not_applicable, pending, synchronized,
  Incident, Impact, Evidence, Tables, ActivityKind, EvidenceFact,
}
use cairnops.Incidents.Rows.{
  is_zabbix, nullable_uuid, update_incident, update_evidence, append_activity, resolve_evidence_row,
}
use cairnops.Incidents.Acknowledgement.{acknowledge_from_evidence, set_acknowledgement}
use cairnops.Incidents.Recompute.{recompute_impact, recompute_incident}
use cairnops.Incidents.Resumption.{Ensured}
use cairnops.Incidents.Ensure.{ensure_impact}
use cairnops.Common.Order.{latest}

-- What the function returns: the tables, the two ids (0 for none), and whether the target was
-- archived.
pub record Applied : Type 0 where
  pub tables : Tables
  pub incident_id : ℕ
  pub impact_id : ℕ
  pub archived : Bool

-- The two guards at its head.
unfoldable pub is_complete : EvidenceFact → Bool
is_complete fact =
    not (
      is_blank fact.identity_scope
      || is_blank fact.identity_key
      || fact.target_id == 0
      || is_blank fact.nature.key
      || is_blank fact.name)
    && valid_severity fact.severity

-- origin, identity_scope and identity_key are those of the fact.
unfoldable pub same_identity : EvidenceFact → Evidence → Bool
same_identity fact e =
    same_origin e.origin fact.origin
    && (str_eq e.identity_scope fact.identity_scope && str_eq e.identity_key fact.identity_key)

-- The active evidence of the fact's identity.
abbrev pub active_evidence : Tables → EvidenceFact → Option Evidence
active_evidence t fact = find? (λ e. same_identity fact e && e.active) t.evidence

-- Evidence of the fact's identity that was invalidated and has not recovered since.
unfoldable pub is_muted : EvidenceFact → Evidence → Bool
is_muted fact e = same_identity fact e && (is_some e.invalidated_at && is_none e.rearmed_at)

abbrev pub invalidation_time : Evidence → ℕ
invalidation_time e = coalesce e.invalidated_at 0

abbrev pub muted_evidence : Tables → EvidenceFact → Option Evidence
muted_evidence t fact = latest invalidation_time (select (is_muted fact) t.evidence)

-- UPDATE … SET last_seen_at of one row.
unfoldable pub see : Tables → ℕ → ℕ → Tables
see t evidence_id observed_at =
    update_evidence (λ e. e.id == evidence_id)
      (λ e. record e { last_seen_at = observed_at; updated_at = t.now }) t

abbrev pub is_acknowledged : Tables → ℕ → Bool
is_acknowledged t incident_id =
    exists (λ i. i.id == incident_id && is_some i.acknowledged_at) t.incidents

-- The row that a fact seen again writes.
unfoldable pub refreshed_row : Tables → EvidenceFact → ℕ → Evidence → Evidence
refreshed_row t fact observed_at e =
    let upstream = fact.upstream_acknowledged in
    let acknowledged = is_acknowledged t e.incident_id in
    record e {
      name = fact.name;
      severity = fact.severity;
      external_event_id = fact.external_event_id;
      external_object_id = fact.external_object_id;
      upstream_acknowledged = upstream;
      acknowledgement_sync_status =
          if upstream
          then synchronized
          else if acknowledged
          then pending
          else e.acknowledgement_sync_status;
      acknowledgement_sync_error =
          if upstream || acknowledged then "" else e.acknowledgement_sync_error;
      acknowledgement_synced_at =
          if upstream
          then some observed_at
          else if acknowledged
          then none
          else e.acknowledgement_synced_at;
      last_seen_at = observed_at;
      alert_facts = normalize fact.alert;
      updated_at = t.now;
    }

-- `acknowledgeFromEvidence` where the fact is acknowledged upstream.
abbrev pub acknowledge_if : Bool → Tables → ℕ → ℕ → ℕ → Tables
acknowledge_if b t incident_id evidence_id observed_at =
    if b then acknowledge_from_evidence t incident_id evidence_id observed_at else t

-- The branch for evidence that is active on the same target and nature.
unfoldable pub refresh : Tables → EvidenceFact → ℕ → Evidence → Applied
refresh t fact observed_at e = record {
  tables =
      acknowledge_if fact.upstream_acknowledged
        (update_evidence (λ r. r.id == e.id) (refreshed_row t fact observed_at) t) e.incident_id
        e.id observed_at;
  incident_id = e.incident_id;
  impact_id = e.impact_id;
  archived = false;
}

-- The row that a new fact inserts.
unfoldable pub inserted_row : Tables → EvidenceFact → ℕ → ℕ → ℕ → Evidence
inserted_row t fact incident_id impact_id observed_at = record {
  id = t.next_id;
  incident_id = incident_id;
  impact_id = impact_id;
  target_id = fact.target_id;
  origin = fact.origin;
  connector_id = nullable_uuid fact.connector_id;
  connector_binding_id = nullable_uuid fact.binding_id;
  source_id = nullable_uuid fact.source_id;
  identity_scope = fact.identity_scope;
  identity_key = fact.identity_key;
  external_event_id = fact.external_event_id;
  external_object_id = fact.external_object_id;
  name = fact.name;
  active = true;
  severity = fact.severity;
  opened_at = fact.opened_at;
  resolved_at = none;
  upstream_acknowledged = fact.upstream_acknowledged;
  acknowledgement_sync_status = if fact.upstream_acknowledged then synchronized else not_applicable;
  acknowledgement_sync_error = "";
  acknowledgement_synced_at = if fact.upstream_acknowledged then some observed_at else none;
  last_seen_at = observed_at;
  invalidated_at = none;
  invalidated_by = none;
  invalidation_reason = "";
  rearmed_at = none;
  alert_facts = normalize fact.alert;
  updated_at = t.now;
}

abbrev pub insert_evidence : Tables → Evidence → Tables
insert_evidence t e = record t { evidence = t.evidence ++ (e ∷ []); next_id = suc t.next_id }

-- The branch of a zabbix fact not acknowledged upstream: it inherits the incident's acknowledgement.
unfoldable pub inherit : Tables → ℕ → ℕ → Tables
inherit t incident_id evidence_id =
    if is_acknowledged t incident_id
    then record t {
      evidence =
          update_where (λ e. e.id == evidence_id)
            (λ e. record e {
              acknowledgement_sync_status = pending;
              acknowledgement_sync_error = "";
              acknowledgement_synced_at = none;
              updated_at = t.now;
            })
            t.evidence;
      incidents =
          update_where (λ i. i.id == incident_id && is_some i.acknowledged_at)
            (set_acknowledgement t.now pending "") t.incidents;
    }
    else t

-- The first line of the journal for a fact that opened an incident or an impact.
abbrev pub joined : Ensured → EvidenceFact → ℕ → Tables → Tables
joined s fact evidence_id t =
    if s.created_incident
    then append_activity t s.incident_id s.impact_id evidence_id ActivityKind.opened fact.origin 0
        "Incident ouvert"
    else if s.created_impact
    then append_activity t s.incident_id s.impact_id evidence_id ActivityKind.impact_joined
        fact.origin 0 fact.name
    else t

-- The end of the function, once the impact is ensured.
unfoldable pub attach : Ensured → EvidenceFact → ℕ → Applied
attach s fact observed_at =
    let t = s.tables in
    let evidence_id = t.next_id in
    let row = inserted_row t fact s.incident_id s.impact_id observed_at in
    let t' =
      append_activity (joined s fact evidence_id (insert_evidence t row)) s.incident_id s.impact_id
        evidence_id ActivityKind.evidence_added fact.origin 0 fact.name in
    record {
      tables =
          if fact.upstream_acknowledged
          then acknowledge_from_evidence t' s.incident_id evidence_id observed_at
          else if is_zabbix fact.origin
          then inherit t' s.incident_id evidence_id
          else t';
      incident_id = s.incident_id;
      impact_id = s.impact_id;
      archived = false;
    }

-- What `ensureImpact` returned: an archived target is no failure of the whole.
abbrev pub attach_to : Tables → Result Ensured → EvidenceFact → ℕ → Result Applied
attach_to t (ok s) fact observed_at = ok (attach s fact observed_at)
attach_to t (err target_archived) fact observed_at =
    ok (record { tables = t; incident_id = 0; impact_id = 0; archived = true })
attach_to t (err e) fact observed_at = err e

-- From the search of invalidated evidence on.
unfoldable pub apply_new : Tables → EvidenceFact → ℕ → Result Applied
apply_new t fact observed_at = elim (muted_evidence t fact) [
  | some e ↦
      ok (record {
        tables = see t e.id observed_at;
        incident_id = 0;
        impact_id = 0;
        archived = false;
      })
  | none ↦ attach_to t (ensure_impact t fact observed_at) fact observed_at
]

-- The branch for evidence that is active on another target or nature: it is resolved first.
unfoldable pub move : Tables → EvidenceFact → ℕ → Evidence → Result Applied
move t fact observed_at e = do
  moved ←
      recompute_impact
        (resolve_evidence_row t e.id e.incident_id e.impact_id fact.name fact.origin observed_at)
        e.impact_id observed_at
  settled ← recompute_incident moved e.incident_id observed_at
  apply_new settled fact observed_at

unfoldable pub apply_existing : Tables → EvidenceFact → ℕ → Evidence → Incident → Result Applied
apply_existing t fact observed_at e i =
    if is_some e.invalidated_at
    then ok (record {
      tables = see t e.id observed_at;
      incident_id = e.incident_id;
      impact_id = e.impact_id;
      archived = false;
    })
    else if e.target_id == fact.target_id && str_eq i.nature.key fact.nature.key
    then ok (refresh t fact observed_at e)
    else move t fact observed_at e

-- The evidence is read with its incident, to which a foreign key ties it.
abbrev pub with_incident : Tables → EvidenceFact → ℕ → Option Evidence → Result Applied
with_incident t fact observed_at none = apply_new t fact observed_at
with_incident t fact observed_at (some e) =
    elim (find? (λ (i : Incident). i.id == e.incident_id) t.incidents) [
      | none ↦ apply_new t fact observed_at
      | some i ↦ apply_existing t fact observed_at e i
    ]

-- `applyEvidenceFact`.
unfoldable pub apply_evidence_fact : Tables → EvidenceFact → ℕ → Result Applied
apply_evidence_fact t fact observed_at =
    if is_complete fact
    then with_incident t fact observed_at (active_evidence t fact)
    else err invalid_input
