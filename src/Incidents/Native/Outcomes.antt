-- ===== src/Incidents/Native/Outcomes.antt =====
-- What an observation of a native control does to the tables, by its outcome.
use cairnops.Common.{
  ℕ, ◌≡◌, ◌≢◌, refl, sym, subst, false, ◌&&◌, String, ◌==◌, All, find?, Bool-cases, Option-cases,
  inl, inr,
}
use cairnops.Common.Result.{ok_eq, ok, >>=-eq-ok}
use cairnops.Domain.Trigger.{Outcome, TriggerDecision, TriggerPolicy, TriggerStreaks, evaluate}
use cairnops.Incidents.Schema.{Severity, native, Evidence, Tables, SignalSource}
use cairnops.Incidents.Rows.{append_activity, resolve_evidence_row}
use cairnops.Incidents.Recompute.{recompute_impact, recompute_incident, advance_due_incidents}
use cairnops.Incidents.Recompute.Checks.{IncidentChecks, recompute_incident-IncidentChecks}
use cairnops.Incidents.Ensure.Checks.{AreChecked}
use cairnops.Incidents.Apply.{Applied, apply_evidence_fact}
use cairnops.Incidents.Apply.Checks.{apply_evidence_fact-AreChecked, recompute_impact-incidents}
use cairnops.Incidents.Snapshot.{normalized_time, resolve_and_recompute}
use cairnops.Incidents.Snapshot.Accounted.{recompute_incidents-evidence}
use cairnops.Incidents.Snapshot.Checks.{recompute_incidents-AreChecked}
use cairnops.Incidents.Native.{
  NativeObservation, native_fact, is_native_evidence, recover_native_evidence, after_fact,
  persist_streaks, conclude, apply_native_observation,
}

resolve_and_recompute-AreChecked :
    (t u : Tables) (e : Evidence) (at : ℕ)
    → AreChecked t
    → resolve_and_recompute t e native at ≡ ok u
    → AreChecked u
unfolding resolve_and_recompute resolve_evidence_row append_activity
resolve_and_recompute-AreChecked t u e at c h =
    let (v, impact, h1) =
      >>=-eq-ok
        (recompute_impact (resolve_evidence_row t e.id e.incident_id e.impact_id e.name native at)
          e.impact_id at)
        (λ v. recompute_incident v e.incident_id at) h in
    recompute_incident-IncidentChecks v u e.incident_id at
      (subst (All IncidentChecks) (sym (recompute_impact-incidents _ v e.impact_id at impact)) c) h1

after_fact-AreChecked :
    (id_text : ℕ → String) (a : Applied) (at : ℕ) (u : Tables)
    → AreChecked a.tables
    → after_fact id_text a at ≡ ok u
    → AreChecked u
unfolding after_fact
after_fact-AreChecked id_text a at u c h = elim (Bool-cases a.archived) [
  | inl e ↦ cc (rw (e, after_fact) at h)
  | inr e ↦ elim (Bool-cases (a.incident_id == 0)) [
    | inl z ↦ subst AreChecked (ok_eq (rw (e, z, after_fact) at h)) c
    | inr z ↦
        let (v, impact, h1) =
          >>=-eq-ok (recompute_impact a.tables a.impact_id at)
            (λ v. recompute_incident v a.incident_id at) (rw (e, z, after_fact) at h) in
        recompute_incident-IncidentChecks v u a.incident_id at
          (subst (All IncidentChecks)
            (sym (recompute_impact-incidents a.tables v a.impact_id at impact)) c)
          h1
  ]
]

recover-AreChecked :
    (id_text : ℕ → String) (t u : Tables) (o : NativeObservation) (at : ℕ)
    → AreChecked t
    → recover_native_evidence id_text t o at ≡ ok u
    → AreChecked u
unfolding recover_native_evidence advance_due_incidents
recover-AreChecked id_text t u o at c h =
    elim (Option-cases
      (find? (λ e. is_native_evidence id_text o.source_id e && e.active) t.evidence)) [
        | inl e ↦ recompute_incidents-AreChecked _ u _ at c (rw (e, recover_native_evidence) at h)
        | inr (r, e) ↦
            resolve_and_recompute-AreChecked t u r at c (rw (e, recover_native_evidence) at h)
      ]

conclude-AreChecked :
    (id_text : ℕ → String) (t u : Tables) (o : NativeObservation) (severity : Severity)
    (d : TriggerDecision) (at : ℕ)
    → AreChecked t
    → conclude id_text t o severity d at ≡ ok u
    → AreChecked u
unfolding conclude advance_due_incidents
conclude-AreChecked id_text t u o severity d at c h = elim (Bool-cases d.triggered) [
  | inl e ↦
      let (a, one, h1) =
        >>=-eq-ok (apply_evidence_fact t (native_fact id_text o severity at) at)
          (λ a. after_fact id_text a at) (rw (e, conclude) at h) in
      after_fact-AreChecked id_text a at u
        (apply_evidence_fact-AreChecked t (native_fact id_text o severity at) at a c one) h1
  | inr e ↦ elim (Bool-cases d.recovered) [
    | inl r ↦ recover-AreChecked id_text t u o at c (rw (e, r, conclude) at h)
    | inr r ↦ recompute_incidents-AreChecked t u _ at c (rw (e, r, conclude) at h)
  ]
]

-- An observation that succeeds read the row of its source.
apply_native_observation-ok :
    (id_text : ℕ → String) (clock : ℕ) (t u : Tables) (o : NativeObservation)
    → apply_native_observation id_text clock t o ≡ ok u
    → (s : SignalSource) × (conclude id_text
          (persist_streaks id_text t o.source_id (evaluate s.policy s.streaks o.outcome))
          o
          s.severity
          (evaluate s.policy s.streaks o.outcome)
          (normalized_time clock o.observed_at)
        ≡ ok u)
unfolding apply_native_observation
apply_native_observation-ok id_text clock t u o h =
    elim (Option-cases (find? (λ (s : SignalSource). s.id == o.source_id) t.sources)) [
      | inl e ↦ cc (rw (e, apply_native_observation) at h)
      | inr (s, e) ↦ (s, rw (e, apply_native_observation) at h)
    ]

-- An observation that is recorded keeps every incident within six of its table's CHECK constraints: a
-- resolution time exactly on a resolved incident, a closing time exactly on a closed propagation, a
-- closed propagation on a resolved incident, no actor or origin without an acknowledgement, a window
-- of 60 to 300 seconds, and a positive revision.
pub apply_native_observation-AreChecked :
    (id_text : ℕ → String) (clock : ℕ) (t u : Tables) (o : NativeObservation)
    → AreChecked t
    → apply_native_observation id_text clock t o ≡ ok u
    → AreChecked u
unfolding persist_streaks
apply_native_observation-AreChecked id_text clock t u o c h =
    let (s, concluded) = apply_native_observation-ok id_text clock t u o h in
    conclude-AreChecked id_text _ u o s.severity (evaluate s.policy s.streaks o.outcome) _ c
      concluded

-- An observation whose outcome is unknown, or none of the three, leaves the evidence as it was: it
-- neither opens nor resolves any.
pub apply_native_observation-unknown :
    (id_text : ℕ → String) (clock : ℕ) (t u : Tables) (o : NativeObservation)
    → (o.outcome ≢ Outcome.healthy)
    → (o.outcome ≢ Outcome.unhealthy)
    → apply_native_observation id_text clock t o ≡ ok u
    → u.evidence ≡ t.evidence
unfolding persist_streaks conclude advance_due_incidents evaluate
apply_native_observation-unknown id_text clock t u o not_healthy not_unhealthy h =
    let (s, concluded) = apply_native_observation-ok id_text clock t u o h in
    let (quiet, calm) = silent s.policy s.streaks o.outcome not_healthy not_unhealthy in
    recompute_incidents-evidence _ u _ _ (rw (quiet, calm, conclude) at concluded)
  where
    silent :
        (p : TriggerPolicy) (k : TriggerStreaks) (outcome : Outcome)
        → (outcome ≢ Outcome.healthy)
        → (outcome ≢ Outcome.unhealthy)
        → ((evaluate p k outcome).triggered ≡ false) × ((evaluate p k outcome).recovered ≡ false)
    silent p k Outcome.healthy a b = absurd (a refl)
    silent p k Outcome.unhealthy a b = absurd (b refl)
    silent p k Outcome.unknown a b = (refl, refl)
    silent p k Outcome.other a b = (refl, refl)
