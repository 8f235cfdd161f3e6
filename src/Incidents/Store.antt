-- ===== src/Incidents/Store.antt =====
-- internal/incidents/store.go and incidents.go: what a user does to an incident. The final read that
-- returns it is left out, and so are a journal line's data.
pub mod Muted
pub mod Local
use cairnops.Common.{
  ℕ, zero, suc, Bool, true, false, not, ◌&&◌, ◌||◌, Option, none, some, List, [], ◌∷◌, ◌++◌, map,
  String, ◌==◌, str_eq, ltb, if◌then◌else◌, select, exists, is_some, find?, coalesce,
}
use cairnops.Common.Text.{trim_space, rune_count, cut_bytes}
use cairnops.Common.Result.{Result, Error, ok, err, not_found, conflict, invalid_input, ◌>>=◌}
use cairnops.Incidents.Schema.{
  Origin, SyncStatus, not_applicable, pending, synchronized, failed, by_user, Incident, Evidence,
  Tables, ActivityKind, user, by_cairnops,
}
use cairnops.Incidents.Rows.{is_resolved, update_incident, update_evidence, append_activity}
use cairnops.Incidents.Acknowledgement.{
  is_live, is_pending, is_failed, left, recompute_acknowledgement,
}
use cairnops.Incidents.Recompute.{recompute_impact, recompute_incident}

-- The row that an invalidation writes.
unfoldable pub invalidated_row : ℕ → ℕ → String → Evidence → Evidence
invalidated_row now actor_id reason e = record e {
  active = false;
  resolved_at = some now;
  invalidated_at = some now;
  invalidated_by = some actor_id;
  invalidation_reason = reason;
  updated_at = now;
}

-- `PostgresStore.InvalidateEvidence`, where `clock` is the process's `time.Now()`.
unfoldable pub invalidate_evidence : ℕ → Tables → ℕ → ℕ → ℕ → String → Result Tables
invalidate_evidence clock t incident_id evidence_id actor_id reason =
    elim (find? (λ e. e.id == evidence_id && (e.incident_id == incident_id && e.active))
      t.evidence) [
        | none ↦ err not_found
        | some e ↦ do
          t' ←
              recompute_impact
                (append_activity
                  (update_evidence (λ r. r.id == evidence_id)
                    (invalidated_row t.now actor_id reason) t)
                  incident_id e.impact_id evidence_id ActivityKind.invalidated user actor_id e.name)
                e.impact_id clock
          recompute_incident t' incident_id clock
      ]

-- `Service.InvalidateEvidence`.
unfoldable pub service_invalidate_evidence : ℕ → Tables → ℕ → ℕ → ℕ → String → Result Tables
service_invalidate_evidence clock t incident_id evidence_id actor_id reason =
    if ltb (rune_count (trim_space reason)) 8 || ltb 500 (rune_count (trim_space reason))
    then err invalid_input
    else invalidate_evidence clock t incident_id evidence_id actor_id (trim_space reason)

-- The row that a user's acknowledgement writes.
unfoldable pub acknowledged_by_user : ℕ → ℕ → SyncStatus → Incident → Incident
acknowledged_by_user now actor_id status i = record i {
  acknowledged_at = some now;
  acknowledged_by = some actor_id;
  acknowledgement_origin = some by_user;
  acknowledgement_sync_status = status;
  acknowledgement_sync_error = "";
  revision = suc i.revision;
  updated_at = now;
}

-- The row of live evidence that waits for its connector to be told.
unfoldable pub queued_row : ℕ → Evidence → Evidence
queued_row now e = record e {
  acknowledgement_sync_status = if e.upstream_acknowledged then synchronized else pending;
  acknowledgement_sync_error = "";
  acknowledgement_synced_at =
      if e.upstream_acknowledged then some (coalesce e.acknowledgement_synced_at now) else none;
  updated_at = now;
}

-- The three writes for an incident that was not acknowledged.
unfoldable pub acknowledge_first : Tables → ℕ → ℕ → Tables
acknowledge_first t incident_id actor_id =
    let status = if exists (is_live incident_id) t.evidence then pending else not_applicable in
    update_evidence (is_live incident_id) (queued_row t.now) (
      append_activity (update_incident incident_id (acknowledged_by_user t.now actor_id status) t)
        incident_id 0 0 ActivityKind.acknowledged user actor_id "Incident acquitté")

-- The evidence to tell the connectors of; the order of the plan is left out.
abbrev pub is_target : ℕ → Evidence → Bool
is_target incident_id e =
    is_live incident_id e
    && (is_pending e.acknowledgement_sync_status || is_failed e.acknowledgement_sync_status)

pub record Plan : Type 0 where
  pub tables : Tables
  pub targets : List ℕ

unfoldable pub plan : Tables → ℕ → Plan
plan t incident_id = record {
  tables = t;
  targets = map (λ e. e.id) (select (is_target incident_id) t.evidence);
}

-- `AcknowledgeLocal`.
unfoldable pub acknowledge_local : Tables → ℕ → ℕ → Result Plan
acknowledge_local t incident_id actor_id =
    elim (find? (λ (i : Incident). i.id == incident_id) t.incidents) [
      | none ↦ err not_found
      | some i ↦
          if is_resolved i.status
          then err conflict
          else ok (
              plan
                (if is_some i.acknowledged_at then t else acknowledge_first t incident_id actor_id)
                incident_id)
    ]

pub record AcknowledgementResult : Type 0 where
  pub evidence_id : ℕ
  pub error : String

-- The row of one result.
unfoldable pub completed_row : ℕ → String → Evidence → Evidence
completed_row now error e =
    let succeeded = str_eq error "" in
    record e {
      acknowledgement_sync_status = if succeeded then synchronized else failed;
      acknowledgement_sync_error = error;
      acknowledgement_synced_at = if succeeded then some now else none;
      upstream_acknowledged = e.upstream_acknowledged || succeeded;
      updated_at = now;
    }

unfoldable pub complete_one : Tables → ℕ → ℕ → String → Tables
complete_one t incident_id evidence_id error =
    if exists (λ e. e.id == evidence_id && is_live incident_id e) t.evidence
    then append_activity
        (update_evidence (λ e. e.id == evidence_id && is_live incident_id e)
          (completed_row t.now error) t)
        incident_id 0 evidence_id
        (if str_eq error "" then ActivityKind.ack_sync_succeeded else ActivityKind.ack_sync_failed)
        by_cairnops 0 error
    else t

-- A text that is not UTF-8 is refused by PostgreSQL.
unfoldable pub complete_all : Tables → ℕ → List AcknowledgementResult → Result Tables
complete_all t incident_id [] = ok t
complete_all t incident_id (r ∷ rs) = elim (cut_bytes 500 (trim_space r.error)) [
  | none ↦ err Error.failed
  | some error ↦ complete_all (complete_one t incident_id r.evidence_id error) incident_id rs
]

-- `CompleteAcknowledgement`.
unfoldable pub complete_acknowledgement : Tables → ℕ → List AcknowledgementResult → Result Tables
complete_acknowledgement t incident_id rs = do
  t' ← complete_all t incident_id rs
  ok (recompute_acknowledgement t' incident_id)

-- The results that `Service.Acknowledge` gathers: `acknowledge` is the adapter's answer, its error
-- text or none, and no adapter at all is an error for each target.
unfoldable pub results_of : Option (ℕ → Option String) → List ℕ → List AcknowledgementResult
results_of acknowledger [] = []
results_of none (id ∷ ids) =
    record { evidence_id = id; error = "aucun adaptateur de synchronisation n’est disponible" }
    ∷ results_of none ids
results_of (some acknowledge) (id ∷ ids) =
    record { evidence_id = id; error = coalesce (acknowledge id) "" }
    ∷ results_of (some acknowledge) ids

abbrev finish : Option (ℕ → Option String) → ℕ → Plan → Result Tables
finish acknowledger incident_id p = elim p.targets [
  | [] ↦ ok p.tables
  | id ∷ ids ↦ complete_acknowledgement p.tables incident_id (results_of acknowledger (id ∷ ids))
]

-- `Service.Acknowledge`. Its two transactions commit apart: where the second fails, the first stands,
-- which the error does not show.
unfoldable pub acknowledge : Option (ℕ → Option String) → Tables → ℕ → ℕ → Result Tables
acknowledge acknowledger t incident_id actor_id = do
  p ← acknowledge_local t incident_id actor_id
  finish acknowledger incident_id p
