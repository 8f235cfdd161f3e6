-- ===== src/Incidents/Owned.antt =====
-- internal/incidents/structure.go and cycle.go: the evidence that a target, a source or a connector
-- leaves behind is resolved before its owner goes.
pub mod Released
use cairnops.Common.{
  ℕ, zero, suc, ◌+◌, Bool, true, false, not, ◌&&◌, Option, none, some, List, [], ◌∷◌, map, String,
  ◌==◌, if◌then◌else◌, select, find?,
}
use cairnops.Common.Result.{Result, ok, err, failed, ◌>>=◌}
use cairnops.Incidents.Schema.{Status, Incident, Evidence, Tables, ActivityKind, by_cairnops}
use cairnops.Incidents.Rows.{is_resolved, append_activity, resolve_evidence_row}
use cairnops.Incidents.Recompute.{recompute_incident, recompute_incidents}
use cairnops.Incidents.Snapshot.{recompute_impacts, touch_id}

-- The loop over the evidence, with its two lines of the journal.
unfoldable pub resolve_each : Tables → List Evidence → ℕ → String → Tables
resolve_each t [] now message = t
resolve_each t (e ∷ es) now message =
    resolve_each
      (append_activity (resolve_evidence_row t e.id e.incident_id e.impact_id e.name e.origin now)
        e.incident_id e.impact_id e.id ActivityKind.evidence_updated by_cairnops 0 message)
      es now message

-- The impacts and the incidents of the evidence, each once; the order of `sortedKeys`, which is that
-- of the uuids, is not modelled.
unfoldable pub ids_of : (Evidence → ℕ) → List ℕ → List Evidence → List ℕ
ids_of key ids [] = ids
ids_of key ids (e ∷ es) = ids_of key (touch_id (key e) ids) es

abbrev is_resolved_in : Tables → ℕ → Result Bool
is_resolved_in t id = elim (find? (λ (i : Incident). i.id == id) t.incidents) [
  | none ↦ err failed
  | some i ↦ ok (is_resolved i.status)
]

pub record Resolved : Type 0 where
  pub tables : Tables
  pub count : ℕ

-- The loop over the incidents, which counts those that it resolves.
unfoldable pub recompute_counted : Tables → ℕ → List ℕ → ℕ → Result Resolved
recompute_counted t n [] now = ok (record { tables = t; count = n })
recompute_counted t n (id ∷ ids) now = do
  before ← is_resolved_in t id
  t' ← recompute_incident t id now
  after ← is_resolved_in t' id
  recompute_counted t' (if not before && after then suc n else n) ids now

-- `resolveOwnedEvidenceCount`, for the predicate of an owner.
unfoldable pub resolve_owned_evidence_count :
    Tables → (Evidence → Bool) → ℕ → String → Result Resolved
resolve_owned_evidence_count t owned now message =
    let items = select (λ e. e.active && owned e) t.evidence in
    do
      t' ←
          recompute_impacts (resolve_each t items now message) (ids_of (λ e. e.impact_id) [] items)
            now
      recompute_counted t' 0 (ids_of (λ e. e.incident_id) [] items) now

abbrev is_id : Option ℕ → ℕ → Bool
is_id none id = false
is_id (some k) id = k == id

-- `ResolveForSourceRemoval`.
unfoldable pub resolve_for_source_removal : Tables → ℕ → ℕ → Result Tables
resolve_for_source_removal t source_id now = do
  r ← resolve_owned_evidence_count t (λ e. is_id e.source_id source_id) now "Contrôle supprimé"
  ok r.tables

-- `ResolveForConnectorRemoval`.
unfoldable pub resolve_for_connector_removal : Tables → ℕ → ℕ → Result Resolved
resolve_for_connector_removal t connector_id now =
    resolve_owned_evidence_count t (λ e. is_id e.connector_id connector_id) now
      "Connecteur supprimé"

-- `ResolveForArchivedTarget`, which counts nothing.
unfoldable pub resolve_for_archived_target : Tables → ℕ → ℕ → Result Tables
resolve_for_archived_target t target_id now =
    let items = select (λ e. e.target_id == target_id && e.active) t.evidence in
    do
      t' ←
          recompute_impacts (resolve_each t items now "Cible archivée")
            (ids_of (λ e. e.impact_id) [] items) now
      recompute_incidents t' (ids_of (λ e. e.incident_id) [] items) now
