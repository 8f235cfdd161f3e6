-- ===== src/Incidents/Signals/Input.antt =====
-- internal/incidents/incidents.go and presentation.go: what the adapters receive, and the labels and kinds that
-- they recognise in it (internal/synthesis/synthesis.go).
use cairnops.Common.{ℕ, String, str_eq, Bool, Option, none, some, List, if◌then◌else◌}
use cairnops.Common.Int.{ℤ, pos, ltb_ℤ}
use cairnops.AlertText.{Fact, Kind, no_fact}
use cairnops.Incidents.Schema.{Severity}

pub record ZabbixSignal : Type 0 where
  pub alert : Fact
  pub target_id : ℕ
  pub binding_id : ℕ
  pub external_event_id : String
  pub external_object_id : String
  pub nature_fingerprint : String
  pub canonical_nature_key : String
  pub evaluation_window : ℤ
  pub name : String
  pub severity : Severity
  pub opened_at : ℕ
  pub upstream_acknowledged : Bool

pub record UptimeKumaSignal : Type 0 where
  pub target_id : ℕ
  pub binding_id : ℕ
  pub external_monitor : String
  pub name : String
  pub severity : Severity

-- `security_updates` is the integer that the details hold under security_updates_count.
pub record PatchMonSignal : Type 0 where
  pub target_id : ℕ
  pub binding_id : ℕ
  pub condition_key : String
  pub nature_key : String
  pub nature_label : String
  pub name : String
  pub severity : Severity
  pub security_updates : Option ℤ

pub record ArgusSignal : Type 0 where
  pub target_id : ℕ
  pub binding_id : ℕ
  pub nature_key : String
  pub nature_label : String
  pub alert : Kind
  pub name : String
  pub severity : Severity
  pub deployed_version : String
  pub latest_version : String

pub record WebhookSignal : Type 0 where
  pub connector_id : ℕ
  pub binding_id : ℕ
  pub target_id : ℕ
  pub external_event_key : String
  pub nature_key : String
  pub nature_label : String
  pub summary : String
  pub status : String
  pub severity : Severity
  pub observed_at : ℕ

-- The input of a reconciliation; ReconcileZabbix observes its connector whole and has no bindings.
pub record ReconcileInput (Signal : Type 0) : Type 0 where
  pub connector_id : ℕ
  pub observed_at : ℕ
  pub observed_bindings : List ℕ
  pub signals : List Signal

-- `synthesis.NatureLabel(key, "fr")`.
unfoldable pub nature_label_fr : String → Option String
nature_label_fr key =
    if str_eq key "availability"
    then some "Indisponibilité"
    else if str_eq key "storage.latency"
    then some "Latence disque élevée"
    else if str_eq key "storage.capacity"
    then some "Espace disque insuffisant"
    else if str_eq key "backup.failure"
    then some "Échec de sauvegarde"
    else if str_eq key "backup.freshness"
    then some "Sauvegarde trop ancienne"
    else if str_eq key "tls.expiry"
    then some "Expiration de certificat proche"
    else none

unfoldable pub patch_mon_presentation : PatchMonSignal → Fact
patch_mon_presentation s =
    let count : Option ℤ = elim s.security_updates [
      | none ↦ none
      | some n ↦ if ltb_ℤ (pos 0) n then some n else none
    ] in
    if str_eq s.condition_key "security_updates"
    then record no_fact { kind = Kind.security_updates; count = count }
    else if str_eq s.condition_key "reboot_required"
    then record no_fact { kind = Kind.reboot_required }
    else no_fact
