-- ===== src/Incidents/Schema.antt =====
-- The rows of internal/migrations/sql/031_incident_evidence_cycle.sql that internal/incidents reads
-- and writes, and the facts that adapters hand to it (internal/incidents/cycle.go, incidents.go).
-- A uuid is a number and 0 is the empty string; an instant is a number of nanoseconds and 0 is Go's
-- zero time. JSON metadata, which no decision reads, is left out; texts are native strings.
use cairnops.Common.{ℕ, Bool, true, false, Option, List, String, ◌≡◌, arith}
use cairnops.AlertText.{Fact, Kind}
use cairnops.Domain.Trigger.{TriggerPolicy, TriggerStreaks}
use cairnops.Common.Int.{ℤ}

-- A severity that is none of the four constants is `other`.
pub data Severity : Type 0 where
  information warning major critical other : Severity

-- `cairnops_severity_rank`.
unfoldable pub severity_rank : Severity → ℕ
severity_rank information = 1
severity_rank warning = 2
severity_rank major = 3
severity_rank critical = 4
severity_rank other = 0

unfoldable pub valid_severity : Severity → Bool
valid_severity other = false
valid_severity information = true
valid_severity warning = true
valid_severity major = true
valid_severity critical = true

pub Severity-discrete : Discrete Severity
Severity-discrete = hlevel

unfoldable pub same_severity : Severity → Severity → Bool
unfolding Severity-discrete
same_severity a b = elim (Severity-discrete a b) [ yes e ↦ true | no e ↦ false ]

pub same_severity→eq : (a b : Severity) → same_severity a b ≡ true → a ≡ b
unfolding same_severity
same_severity→eq a b h = ground arith

pub data Status : Type 0 where
  active resolved : Status

-- `propagation_status`: `open` and `closed` in the source.
pub data Propagation : Type 0 where
  opened closed : Propagation

pub data Origin : Type 0 where
  zabbix uptime_kuma webhook native patchmon argus proxmox by_cairnops user : Origin

pub Origin-discrete : Discrete Origin
Origin-discrete = hlevel

unfoldable pub same_origin : Origin → Origin → Bool
unfolding Origin-discrete
same_origin a b = elim (Origin-discrete a b) [ yes e ↦ true | no e ↦ false ]

pub same_origin_refl : (a : Origin) → same_origin a a ≡ true
unfolding same_origin
same_origin_refl a = ground arith

pub same_origin→eq : (a b : Origin) → same_origin a b ≡ true → a ≡ b
unfolding same_origin
same_origin→eq a b h = ground arith

pub data SyncStatus : Type 0 where
  not_applicable pending synchronized failed : SyncStatus

pub data AcknowledgementOrigin : Type 0 where
  by_user by_connector : AcknowledgementOrigin

pub data NatureScope : Type 0 where
  canonical connector : NatureScope

pub record NatureIdentity : Type 0 where
  pub key : String
  pub label : String
  pub scope : NatureScope
  pub namespace : String
  pub fingerprint : String
  pub eligible : Bool

pub record Incident : Type 0 where
  pub id : ℕ
  pub nature : NatureIdentity
  pub status : Status
  pub propagation_status : Propagation
  pub severity : Severity
  pub opened_at : ℕ
  pub last_impact_at : ℕ
  pub propagation_window_seconds : ℕ
  pub propagation_ends_at : ℕ
  pub propagation_closed_at : Option ℕ
  pub resolved_at : Option ℕ
  pub acknowledged_at : Option ℕ
  pub acknowledged_by : Option ℕ
  pub acknowledgement_origin : Option AcknowledgementOrigin
  pub acknowledgement_sync_status : SyncStatus
  pub acknowledgement_sync_error : String
  pub extended : Bool
  pub active_impact_count : ℕ
  pub impact_count : ℕ
  pub affected_target_count : ℕ
  pub max_affected_targets : ℕ
  pub revision : ℕ
  pub resumption_count : ℕ
  pub resumed_at : Option ℕ
  pub alert_kind : Kind
  pub updated_at : ℕ

pub record Impact : Type 0 where
  pub id : ℕ
  pub incident_id : ℕ
  pub target_id : ℕ
  pub status : Status
  pub source_severity : Severity
  pub effective_severity : Severity
  pub opened_at : ℕ
  pub resolved_at : Option ℕ
  pub updated_at : ℕ

pub record Evidence : Type 0 where
  pub id : ℕ
  pub incident_id : ℕ
  pub impact_id : ℕ
  pub target_id : ℕ
  pub origin : Origin
  pub connector_id : Option ℕ
  pub connector_binding_id : Option ℕ
  pub source_id : Option ℕ
  pub identity_scope : String
  pub identity_key : String
  pub external_event_id : String
  pub external_object_id : String
  pub name : String
  pub active : Bool
  pub severity : Severity
  pub opened_at : ℕ
  pub resolved_at : Option ℕ
  pub upstream_acknowledged : Bool
  pub acknowledgement_sync_status : SyncStatus
  pub acknowledgement_sync_error : String
  pub acknowledgement_synced_at : Option ℕ
  pub last_seen_at : ℕ
  pub invalidated_at : Option ℕ
  pub invalidated_by : Option ℕ
  pub invalidation_reason : String
  pub rearmed_at : Option ℕ
  pub alert_facts : Fact
  pub updated_at : ℕ

-- `kind` of a row of cairnops_incident_activity.
pub data ActivityKind : Type 0 where
  opened impact_joined impact_reopened impact_resolved evidence_added : ActivityKind
  evidence_updated evidence_resolved invalidated propagation_closed extended : ActivityKind
  severity_changed resolved resumed acknowledged : ActivityKind
  ack_sync_succeeded ack_sync_failed upstream_acknowledged : ActivityKind
  target_reconciled source_reassigned : ActivityKind

pub record Activity : Type 0 where
  pub incident_id : ℕ
  pub impact_id : Option ℕ
  pub evidence_id : Option ℕ
  pub kind : ActivityKind
  pub origin : Origin
  pub actor_id : Option ℕ
  pub message : String

pub record Target : Type 0 where
  pub id : ℕ
  pub archived_at : Option ℕ

-- The columns of cairnops_signal_sources that the cycle reads or writes.
pub record SignalSource : Type 0 where
  pub id : ℕ
  pub interval_seconds : ℕ
  pub policy : TriggerPolicy
  pub severity : Severity
  pub streaks : TriggerStreaks
  pub updated_at : ℕ

-- The columns of cairnops_connectors that the cycle reads.
pub record Connector : Type 0 where
  pub id : ℕ
  pub sync_interval_seconds : ℕ
  pub disabled : Bool
  pub lease_owner : String
  pub lease_until : ℕ

-- The tables as one transaction sees them. `now` is SQL's `now()`; `next_id` stands for
-- `gen_random_uuid()`, of which only freshness is used; `locked_elsewhere` are the incidents whose rows
-- another transaction holds.
pub record Tables : Type 0 where
  pub now : ℕ
  pub next_id : ℕ
  pub locked_elsewhere : List ℕ
  pub targets : List Target
  pub sources : List SignalSource
  pub connectors : List Connector
  pub incidents : List Incident
  pub impacts : List Impact
  pub evidence : List Evidence
  pub activity : List Activity

-- `EvidenceFact`, without its metadata.
pub record EvidenceFact : Type 0 where
  pub alert : Fact
  pub origin : Origin
  pub connector_id : ℕ
  pub binding_id : ℕ
  pub source_id : ℕ
  pub identity_scope : String
  pub identity_key : String
  pub target_id : ℕ
  pub external_event_id : String
  pub external_object_id : String
  pub nature : NatureIdentity
  pub name : String
  pub severity : Severity
  pub opened_at : ℕ
  pub upstream_acknowledged : Bool
  pub evaluation_window : ℤ

pub record EvidenceSnapshot : Type 0 where
  pub origin : Origin
  pub connector_id : ℕ
  pub lease_owner : String
  pub observed_at : ℕ
  pub complete_connector : Bool
  pub observed_scopes : List String
  pub facts : List EvidenceFact
