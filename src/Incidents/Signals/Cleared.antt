-- ===== src/Incidents/Signals/Cleared.antt =====
-- What a reconciliation does to the evidence that its signals no longer report.
use cairnops.Common.{
  ℕ, ◌≡◌, refl, ap, ◌∙◌, String, str_eq, Bool, true, false, ◌||◌, some, List, [], ◌∷◌, map, arith,
  All, All-mono, exists, ==_refl,
}
use cairnops.Common.Result.{ok}
use cairnops.Incidents.Schema.{
  zabbix, uptime_kuma, Evidence, EvidenceSnapshot, Tables, same_origin_refl,
}
use cairnops.Incidents.Signals.Input.{ZabbixSignal, UptimeKumaSignal, ReconcileInput}
use cairnops.Incidents.Signals.{
  zabbix_fact, reconcile_zabbix, uptime_kuma_fact, reconcile_uptime_kuma,
}
use cairnops.Incidents.Snapshot.{
  is_observed, identity, fact_identity, evidence_identity, awaits_recovery,
}
use cairnops.Incidents.Snapshot.Accounted.{apply_evidence_snapshot-accounts}

exists-map {ℓ κ} :
    {A : Type ℓ} {B : Type κ} (p : B → Bool) (f : A → B) (xs : List A)
    → exists p (map f xs) ≡ exists (λ x. p (f x)) xs
exists-map p f [] = refl
exists-map p f (x ∷ xs) = ap (λ b. p (f x) || b) (exists-map p f xs)

is_observed_complete :
    (s : EvidenceSnapshot) (e : Evidence)
    → e.origin ≡ s.origin
    → e.connector_id ≡ some s.connector_id
    → s.complete_connector ≡ true
    → is_observed s e ≡ true
unfolding is_observed
is_observed_complete s e o c w = rw (o, c, w, same_origin_refl s.origin, ==_refl s.connector_id)

is_observed_scope :
    (s : EvidenceSnapshot) (e : Evidence)
    → e.origin ≡ s.origin
    → e.connector_id ≡ some s.connector_id
    → exists (λ scope. str_eq e.identity_scope scope) s.observed_scopes ≡ true
    → is_observed s e ≡ true
unfolding is_observed
is_observed_scope s e o c w =
    rw (o, c, w, same_origin_refl s.origin, ==_refl s.connector_id) (ground arith)

-- Evidence of a Zabbix connector that no signal names, by its binding and its event.
abbrev pub IsZabbixGone : (ℕ → String) → ReconcileInput ZabbixSignal → Evidence → Type 0
IsZabbixGone id_text input e =
    (e.origin ≡ zabbix)
    × (e.connector_id ≡ some input.connector_id)
    × (exists
          (λ s. str_eq (identity (id_text s.binding_id) s.external_event_id) (evidence_identity e))
          input.signals
        ≡ false)

-- Once ReconcileZabbix accepts the signals of a connector, none of the connector's evidence that they do
-- not name by its binding and its event is active, nor awaits its recovery where it was invalidated.
pub reconcile_zabbix-clears :
    (id_text : ℕ → String) (clock : ℕ) (t u : Tables) (input : ReconcileInput ZabbixSignal)
    → reconcile_zabbix id_text clock t input ≡ ok u
    → All
        (λ e. IsZabbixGone id_text input e → (e.active ≡ false) × (awaits_recovery e ≡ false))
        u.evidence
unfolding reconcile_zabbix zabbix_fact
reconcile_zabbix-clears id_text clock t u input h =
    All-mono _ _ u.evidence
      (λ e settled gone. settled (
        is_observed_complete _ e (gone.0) (gone.1) refl,
        exists-map (λ f. str_eq (fact_identity f) (evidence_identity e))
              (zabbix_fact id_text input.connector_id) input.signals
            ∙ gone.2,
      ))
      (apply_evidence_snapshot-accounts clock t u _ h)

-- Evidence of an Uptime Kuma connector on a binding that was observed, which no signal names.
abbrev pub IsUptimeKumaGone : (ℕ → String) → ReconcileInput UptimeKumaSignal → Evidence → Type 0
IsUptimeKumaGone id_text input e =
    (e.origin ≡ uptime_kuma)
    × (e.connector_id ≡ some input.connector_id)
    × (exists (λ b. str_eq e.identity_scope (id_text b)) input.observed_bindings ≡ true)
    × (exists (λ s. str_eq (identity (id_text s.binding_id) "availability") (evidence_identity e))
          input.signals
        ≡ false)

-- Once ReconcileUptimeKuma accepts the signals of a connector, none of its evidence on a binding that was
-- observed and that no signal reports is active, nor awaits its recovery where it was invalidated.
pub reconcile_uptime_kuma-clears :
    (id_text : ℕ → String) (clock : ℕ) (t u : Tables) (input : ReconcileInput UptimeKumaSignal)
    → reconcile_uptime_kuma id_text clock t input ≡ ok u
    → All
        (λ e. IsUptimeKumaGone id_text input e → (e.active ≡ false) × (awaits_recovery e ≡ false))
        u.evidence
unfolding reconcile_uptime_kuma uptime_kuma_fact
reconcile_uptime_kuma-clears id_text clock t u input h =
    All-mono _ _ u.evidence
      (λ e settled gone. settled (
        is_observed_scope _ e (gone.0) (gone.1) (
            exists-map (λ scope. str_eq e.identity_scope scope) id_text input.observed_bindings
            ∙ gone.2),
        exists-map (λ f. str_eq (fact_identity f) (evidence_identity e))
              (uptime_kuma_fact id_text input.connector_id input.observed_at) input.signals
            ∙ gone.3,
      ))
      (apply_evidence_snapshot-accounts clock t u _ h)
