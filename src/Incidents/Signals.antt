-- ===== src/Incidents/Signals.antt =====
-- internal/incidents/cycle.go: the adapters, which turn the signals of a connector into facts
-- (`ReconcileZabbix`, `ReconcileUptimeKuma`, `ReconcilePatchMon`, `ReconcileArgus`, `ApplyWebhook`), with
-- their inputs (incidents.go). The metadata that they copy is left out.
pub mod Input
pub mod Cleared
use Prim.Native.String.{◌++◌ as append}
use cairnops.Common.{
  ℕ, String, str_eq, Bool, true, false, not, Option, none, some, List, [], ◌∷◌, map, if◌then◌else◌,
  coalesce,
}
use cairnops.Common.Int.{ℤ, pos, ltb_ℤ}
use cairnops.Common.Result.{Result, err, ok, invalid_input}
use cairnops.Common.Text.{Text, is_blank, trim_space, runes}
use cairnops.AlertText.{Fact, Kind, no_fact, normalize}
use cairnops.Incidents.Schema.{
  Severity, Origin, zabbix, uptime_kuma, patchmon, argus, webhook, NatureIdentity, connector,
  EvidenceFact, EvidenceSnapshot, Tables,
}
use cairnops.Incidents.Native.{canonical_nature, availability, unavailable_fact}
use cairnops.Incidents.Snapshot.{normalized_time, apply_evidence_snapshot, resolve_evidence}
use cairnops.Incidents.Signals.Input.{
  ZabbixSignal, UptimeKumaSignal, PatchMonSignal, ArgusSignal, WebhookSignal, ReconcileInput,
  nature_label_fr, patch_mon_presentation,
}

-- `id_text` is the text of a uuid.
module _ (id_text : ℕ → String) where
  unfoldable pub connector_nature : ℕ → String → String → String → NatureIdentity
  connector_nature connector_id key label fingerprint = record {
    key = key;
    label = label;
    scope = connector;
    namespace = id_text connector_id;
    fingerprint = fingerprint;
    eligible = not (is_blank fingerprint);
  }

  unfoldable pub fingerprint_of : ZabbixSignal → String
  fingerprint_of s =
      if is_blank s.nature_fingerprint
      then trim_space s.external_object_id
      else trim_space s.nature_fingerprint

  unfoldable pub zabbix_nature : ℕ → ZabbixSignal → NatureIdentity
  unfolding nature_label_fr connector_nature fingerprint_of
  zabbix_nature connector_id s = elim (nature_label_fr s.canonical_nature_key) [
    | some label ↦ canonical_nature s.canonical_nature_key label
    | none ↦
        connector_nature connector_id
          (append "zabbix:" (append (id_text connector_id) (append ":" (fingerprint_of s)))) s.name
          (fingerprint_of s)
  ]

  unfoldable pub zabbix_fact : ℕ → ZabbixSignal → EvidenceFact
  unfolding zabbix_nature
  zabbix_fact connector_id s = record {
    alert = normalize s.alert;
    origin = zabbix;
    connector_id = connector_id;
    binding_id = s.binding_id;
    source_id = 0;
    identity_scope = id_text s.binding_id;
    identity_key = s.external_event_id;
    target_id = s.target_id;
    external_event_id = s.external_event_id;
    external_object_id = s.external_object_id;
    nature = zabbix_nature connector_id s;
    name = s.name;
    severity = s.severity;
    opened_at = s.opened_at;
    upstream_acknowledged = s.upstream_acknowledged;
    evaluation_window = s.evaluation_window;
  }

  unfoldable pub reconcile_zabbix : ℕ → Tables → ReconcileInput ZabbixSignal → Result Tables
  unfolding zabbix_fact
  reconcile_zabbix clock t input = apply_evidence_snapshot clock t (record {
    origin = zabbix;
    connector_id = input.connector_id;
    lease_owner = "";
    observed_at = input.observed_at;
    complete_connector = true;
    observed_scopes = [];
    facts = map (zabbix_fact input.connector_id) input.signals;
  })

  -- The snapshot of the three connectors that observe binding by binding.
  abbrev pub bindings_snapshot :
      {Signal : Type 0}
      → Origin
      → (Signal → EvidenceFact)
      → ReconcileInput Signal
      → EvidenceSnapshot
  bindings_snapshot origin fact input = record {
    origin = origin;
    connector_id = input.connector_id;
    lease_owner = "";
    observed_at = input.observed_at;
    complete_connector = false;
    observed_scopes = map id_text input.observed_bindings;
    facts = map fact input.signals;
  }

  unfoldable pub uptime_kuma_fact : ℕ → ℕ → UptimeKumaSignal → EvidenceFact
  uptime_kuma_fact connector_id observed_at s = record {
    alert = unavailable_fact;
    origin = uptime_kuma;
    connector_id = connector_id;
    binding_id = s.binding_id;
    source_id = 0;
    identity_scope = id_text s.binding_id;
    identity_key = "availability";
    target_id = s.target_id;
    external_event_id = s.external_monitor;
    external_object_id = s.external_monitor;
    nature = canonical_nature availability "Indisponibilité";
    name = s.name;
    severity = s.severity;
    opened_at = observed_at;
    upstream_acknowledged = false;
    evaluation_window = pos 0;
  }

  unfoldable pub reconcile_uptime_kuma :
      ℕ → Tables → ReconcileInput UptimeKumaSignal → Result Tables
  unfolding uptime_kuma_fact
  reconcile_uptime_kuma clock t input =
      apply_evidence_snapshot clock t (
        bindings_snapshot uptime_kuma (uptime_kuma_fact input.connector_id input.observed_at) input)

  unfoldable pub patch_mon_fact : ℕ → ℕ → PatchMonSignal → EvidenceFact
  unfolding patch_mon_presentation connector_nature
  patch_mon_fact connector_id observed_at s = record {
    alert = patch_mon_presentation s;
    origin = patchmon;
    connector_id = connector_id;
    binding_id = s.binding_id;
    source_id = 0;
    identity_scope = id_text s.binding_id;
    identity_key = s.condition_key;
    target_id = s.target_id;
    external_event_id = s.condition_key;
    external_object_id = s.condition_key;
    nature = connector_nature connector_id s.nature_key s.nature_label s.nature_key;
    name = s.name;
    severity = s.severity;
    opened_at = observed_at;
    upstream_acknowledged = false;
    evaluation_window = pos 0;
  }

  unfoldable pub reconcile_patch_mon : ℕ → Tables → ReconcileInput PatchMonSignal → Result Tables
  unfolding patch_mon_fact
  reconcile_patch_mon clock t input =
      apply_evidence_snapshot clock t
        (bindings_snapshot patchmon (patch_mon_fact input.connector_id input.observed_at) input)

  unfoldable pub argus_fact : ℕ → ℕ → ArgusSignal → EvidenceFact
  unfolding connector_nature
  argus_fact connector_id observed_at s = record {
    alert = record no_fact {
      kind = s.alert;
      current_version = runes s.deployed_version;
      available_version = runes s.latest_version;
    };
    origin = argus;
    connector_id = connector_id;
    binding_id = s.binding_id;
    source_id = 0;
    identity_scope = id_text s.binding_id;
    identity_key = "software_update";
    target_id = s.target_id;
    external_event_id = s.latest_version;
    external_object_id = "software_update";
    nature = connector_nature connector_id s.nature_key s.nature_label s.nature_key;
    name = s.name;
    severity = s.severity;
    opened_at = observed_at;
    upstream_acknowledged = false;
    evaluation_window = pos 0;
  }

  unfoldable pub reconcile_argus : ℕ → Tables → ReconcileInput ArgusSignal → Result Tables
  unfolding argus_fact
  reconcile_argus clock t input =
      apply_evidence_snapshot clock t
        (bindings_snapshot argus (argus_fact input.connector_id input.observed_at) input)

  unfoldable pub webhook_fact : ℕ → WebhookSignal → EvidenceFact
  unfolding connector_nature
  webhook_fact observed_at s = record {
    alert = no_fact;
    origin = webhook;
    connector_id = s.connector_id;
    binding_id = s.binding_id;
    source_id = 0;
    identity_scope = id_text s.binding_id;
    identity_key = s.external_event_key;
    target_id = s.target_id;
    external_event_id = s.external_event_key;
    external_object_id = s.external_event_key;
    nature = connector_nature s.connector_id s.nature_key s.nature_label s.nature_key;
    name = s.summary;
    severity = s.severity;
    opened_at = observed_at;
    upstream_acknowledged = false;
    evaluation_window = pos 0;
  }

  unfoldable pub apply_webhook : ℕ → Tables → WebhookSignal → Result Tables
  unfolding webhook_fact
  apply_webhook clock t s =
      let observed_at = normalized_time clock s.observed_at in
      if str_eq s.status "firing"
      then apply_evidence_snapshot clock t (record {
        origin = webhook;
        connector_id = s.connector_id;
        lease_owner = "";
        observed_at = observed_at;
        complete_connector = false;
        observed_scopes = [];
        facts = webhook_fact observed_at s ∷ [];
      })
      else if str_eq s.status "resolved"
      then resolve_evidence clock t webhook (id_text s.binding_id) s.external_event_key observed_at
      else err invalid_input
