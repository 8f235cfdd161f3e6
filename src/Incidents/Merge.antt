-- ===== src/Incidents/Merge.antt =====
-- MergeTargets of internal/incidents/structure.go: the impacts of a target that another one absorbs. The
-- copies of indicator values and the inbox of notifications, which no decision reads, are left out.
-- `now` is the one instant of the loop's calls of time.Now. The impacts are taken in the order of the
-- table; that of the identifiers reaches only the journal.
pub mod Moved
use mathlib.Core.Option
use cairnops.Common.{
  ℕ, zero, suc, ◌+◌, Bool, true, false, not, ◌&&◌, Option, none, some, List, [], ◌∷◌, map, String,
  ◌==◌, if◌then◌else◌, select, find?, update_where,
}
use cairnops.Common.Result.{Result, ok, ◌>>=◌}
use cairnops.Incidents.Schema.{
  Incident, Impact, Evidence, Activity, Tables, ActivityKind, by_cairnops,
}
use cairnops.Incidents.Rows.{update_incident, update_impact, update_evidence, append_activity}
use cairnops.Incidents.Recompute.{recompute_impact, recompute_incident}
use cairnops.Incidents.Snapshot.{touch_id}

pub record Candidate : Type 0 where
  pub secondary_impact : ℕ
  pub incident_id : ℕ
  pub primary_impact : Option ℕ

unfoldable pub candidate : Tables → ℕ → Impact → Candidate
candidate t primary_id i = record {
  secondary_impact = i.id;
  incident_id = i.incident_id;
  primary_impact =
      Option.map (λ j. j.id)
        (find? (λ j. j.incident_id == i.incident_id && j.target_id == primary_id) t.impacts);
}

unfoldable pub candidates : Tables → ℕ → ℕ → List Candidate
candidates t primary_id secondary_id =
    map (candidate t primary_id) (select (λ i. i.target_id == secondary_id) t.impacts)

-- Where the incident has no impact on the primary target, the impact changes its target.
unfoldable pub move_impact : ℕ → ℕ → Tables → Tables
move_impact impact_id primary_id t = record t {
  impacts =
      update_where (λ i. i.id == impact_id)
        (λ i. record i { target_id = primary_id; updated_at = t.now }) t.impacts;
  evidence =
      update_where (λ e. e.impact_id == impact_id)
        (λ e. record e { target_id = primary_id; updated_at = t.now }) t.evidence;
}

abbrev pub is_id : Option ℕ → ℕ → Bool
is_id none id = false
is_id (some k) id = k == id

-- Where it has one, that impact takes the evidence and the journal, and the other goes.
unfoldable pub absorb_impact : ℕ → ℕ → ℕ → Tables → Tables
absorb_impact secondary_impact primary_impact primary_id t = record t {
  impacts = select (λ i. not (i.id == secondary_impact)) t.impacts;
  evidence =
      update_where (λ e. e.impact_id == secondary_impact)
        (λ e. record e { impact_id = primary_impact; target_id = primary_id; updated_at = t.now })
        t.evidence;
  activity =
      update_where (λ a. is_id a.impact_id secondary_impact)
        (λ a. record a { impact_id = some primary_impact }) t.activity;
}

-- One round of the loop, with the count of impacts that were merged.
unfoldable pub merge_one : Tables → ℕ → Candidate → ℕ → Result (Tables × ℕ)
merge_one t primary_id c now = elim c.primary_impact [
  | none ↦ ok (move_impact c.secondary_impact primary_id t, 0)
  | some primary ↦
      recompute_impact (absorb_impact c.secondary_impact primary primary_id t) primary now >>= λ t'.
      ok (t', 1)
]

unfoldable pub merge_each : Tables → ℕ → ℕ → List Candidate → ℕ → Result (Tables × ℕ)
merge_each t merged primary_id [] now = ok (t, merged)
merge_each t merged primary_id (c ∷ cs) now =
    merge_one t primary_id c now >>= λ s. merge_each s.0 (merged + s.1) primary_id cs now

-- `touchIncidentStructure`.
unfoldable pub touch_incident_structure : ℕ → Tables → Tables
touch_incident_structure incident_id t =
    update_incident incident_id (λ i. record i { revision = i.revision + 1; updated_at = t.now }) t

unfoldable pub incident_ids : List ℕ → List Candidate → List ℕ
incident_ids ids [] = ids
incident_ids ids (c ∷ cs) = incident_ids (touch_id c.incident_id ids) cs

-- The loop over the incidents.
unfoldable pub revise_each : Tables → List ℕ → ActivityKind → String → ℕ → Result Tables
revise_each t [] kind message now = ok t
revise_each t (id ∷ ids) kind message now = recompute_incident t id now >>= λ t'.
    revise_each (append_activity (touch_incident_structure id t') id 0 0 kind by_cairnops 0 message)
      ids kind message now

unfoldable pub merge_targets : Tables → ℕ → ℕ → ℕ → Result (Tables × ℕ)
merge_targets t primary_id secondary_id now =
    let items = candidates t primary_id secondary_id in
    merge_each t 0 primary_id items now >>= λ m.
    revise_each m.0 (incident_ids [] items) ActivityKind.target_reconciled
      "Atteintes réunies après rapprochement de Cibles" now
    >>= λ u. ok (u, m.1)
