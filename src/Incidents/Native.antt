-- ===== src/Incidents/Native.antt =====
-- internal/incidents/native.go: an observation of a native control, inside the transaction that
-- records it. Its reason and its message only reach the metadata.
pub mod Outcomes
use cairnops.Common.{
  ℕ, Bool, true, false, not, ◌&&◌, ◌||◌, Option, none, some, String, ◌==◌, str_eq, if◌then◌else◌,
  is_some, find?, update_where,
}
use cairnops.Common.Int.{pos}
use cairnops.Common.Result.{Result, ok, err, not_found, target_archived, ◌>>=◌}
use cairnops.AlertText.{Fact, Kind, no_fact}
use cairnops.Domain.Trigger.{Outcome, TriggerDecision, evaluate}
use cairnops.Incidents.Schema.{
  Severity, native, same_origin, NatureScope, canonical, NatureIdentity, Evidence, Tables,
  SignalSource, EvidenceFact,
}
use cairnops.Incidents.Rows.{update_evidence}
use cairnops.Incidents.Recompute.{recompute_impact, recompute_incident, advance_due_incidents}
use cairnops.Incidents.Apply.{Applied, apply_evidence_fact}
use cairnops.Incidents.Snapshot.{
  normalized_time, rearmed_row, awaits_recovery, resolve_and_recompute,
}

pub record NativeObservation : Type 0 where
  pub source_id : ℕ
  pub target_id : ℕ
  pub source_name : String
  pub outcome : Outcome
  pub observed_at : ℕ

-- `CanonicalNature`.
abbrev pub canonical_nature : String → String → NatureIdentity
canonical_nature key label = record {
  key = key;
  label = label;
  scope = canonical;
  namespace = "cairnops";
  fingerprint = key;
  eligible = true;
}

abbrev pub availability : String
availability = "availability"

abbrev pub unavailable_fact : Fact
unavailable_fact = record no_fact { kind = Kind.unavailable }

-- A source's id as a text is the scope of its evidence: a parameter.
module _ (id_text : ℕ → String) where
  unfoldable pub native_fact : NativeObservation → Severity → ℕ → EvidenceFact
  native_fact o severity observed_at = record {
    alert = unavailable_fact;
    origin = native;
    connector_id = 0;
    binding_id = 0;
    source_id = o.source_id;
    identity_scope = id_text o.source_id;
    identity_key = availability;
    target_id = o.target_id;
    external_event_id = "";
    external_object_id = "";
    nature = canonical_nature availability "Indisponibilité";
    name = o.source_name;
    severity = severity;
    opened_at = observed_at;
    upstream_acknowledged = false;
    evaluation_window = pos 0;
  }

  -- The evidence of the control.
  unfoldable pub is_native_evidence : ℕ → Evidence → Bool
  is_native_evidence source_id e =
      same_origin e.origin native
      && (str_eq e.identity_scope (id_text source_id) && str_eq e.identity_key availability)

  -- `recoverNativeEvidence`.
  unfoldable pub recover_native_evidence : Tables → NativeObservation → ℕ → Result Tables
  recover_native_evidence t o observed_at =
      elim (find? (λ e. is_native_evidence o.source_id e && e.active) t.evidence) [
        | none ↦
            advance_due_incidents
              (update_evidence (λ e. is_native_evidence o.source_id e && awaits_recovery e)
                (rearmed_row t.now observed_at) t)
              observed_at
        | some e ↦ resolve_and_recompute t e native observed_at
      ]

  -- What follows the evidence of a triggered control; a target archived meanwhile is an error.
  unfoldable pub after_fact : Applied → ℕ → Result Tables
  after_fact a observed_at =
      if a.archived then err target_archived else if a.incident_id == 0 then ok a.tables else (do
        t' ← recompute_impact a.tables a.impact_id observed_at
        recompute_incident t' a.incident_id observed_at)

  -- The statement that persists the streaks.
  unfoldable pub persist_streaks : Tables → ℕ → TriggerDecision → Tables
  persist_streaks t source_id d = record t {
    sources =
        update_where (λ (s : SignalSource). s.id == source_id)
          (λ s. record s { streaks = d.streaks; updated_at = t.now }) t.sources;
  }

  -- The switch on the decision.
  unfoldable pub conclude :
      Tables → NativeObservation → Severity → TriggerDecision → ℕ → Result Tables
  conclude t o severity d observed_at =
      if d.triggered
      then (do
        a ← apply_evidence_fact t (native_fact o severity observed_at) observed_at
        after_fact a observed_at)
      else if d.recovered
      then recover_native_evidence t o observed_at
      else advance_due_incidents t observed_at

  -- `ApplyNativeObservation`.
  unfoldable pub apply_native_observation : ℕ → Tables → NativeObservation → Result Tables
  apply_native_observation clock t o =
      elim (find? (λ (s : SignalSource). s.id == o.source_id) t.sources) [
        | none ↦ err not_found
        | some s ↦
            conclude (persist_streaks t o.source_id (evaluate s.policy s.streaks o.outcome)) o
              s.severity (evaluate s.policy s.streaks o.outcome)
              (normalized_time clock o.observed_at)
      ]
