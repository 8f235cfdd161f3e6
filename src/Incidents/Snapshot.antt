-- ===== src/Incidents/Snapshot.antt =====
-- internal/incidents/cycle.go: `ApplyEvidenceSnapshot` and what it calls, `ResolveEvidence` and
-- `Advance`. The ids of a Go map are taken in the order of their first insertion; the order that Go
-- gives them reaches the tables only through the journal and the revisions.
pub mod Scope
pub mod Seen
pub mod Sweep
pub mod Accounted
pub mod Checks
use Prim.Native.String.{◌++◌ as append}
use cairnops.Common.{
  ℕ, zero, suc, Bool, true, false, not, ◌&&◌, ◌||◌, Option, none, some, List, [], ◌∷◌, ◌++◌, map,
  String, ◌==◌, str_eq, ltb, leb, max, if◌then◌else◌, select, exists, is_some, is_none, find?,
  coalesce,
}
use cairnops.Common.Text.{text_ltb}
use cairnops.Common.Result.{Result, ok, err, failed, ◌>>=◌}
use cairnops.Incidents.Schema.{
  Origin, same_origin, Evidence, Tables, Connector, EvidenceFact, EvidenceSnapshot,
}
use cairnops.Incidents.Rows.{update_evidence, resolve_evidence_row, nullable_uuid}
use cairnops.Incidents.Recompute.{
  recompute_impact, recompute_incident, recompute_incidents, advance_due_incidents,
}
use cairnops.Incidents.Apply.{Applied, apply_evidence_fact}

-- `normalizedTime`, where `clock` is the process's `time.Now()`.
abbrev pub normalized_time : ℕ → ℕ → ℕ
normalized_time clock at = if at == 0 then clock else at

-- `scope + "\x00" + key`.
unfoldable pub identity : String → String → String
identity scope key = append scope (append "\0" key)

abbrev pub fact_identity : EvidenceFact → String
fact_identity f = identity f.identity_scope f.identity_key

abbrev pub evidence_identity : Evidence → String
evidence_identity e = identity e.identity_scope e.identity_key

-- The origin, the connector and the opening instant that the snapshot gives to a fact.
abbrev pub stamp : EvidenceSnapshot → ℕ → EvidenceFact → EvidenceFact
stamp s observed_at f = record f {
  origin = s.origin;
  connector_id = s.connector_id;
  opened_at = if f.opened_at == 0 then observed_at else f.opened_at;
}

-- The order of `sort.SliceStable`.
unfoldable pub comes_before : EvidenceFact → EvidenceFact → Bool
comes_before f g =
    if f.opened_at == g.opened_at
    then text_ltb (fact_identity f) (fact_identity g)
    else ltb f.opened_at g.opened_at

unfoldable pub insert_fact : EvidenceFact → List EvidenceFact → List EvidenceFact
insert_fact f [] = f ∷ []
insert_fact f (g ∷ gs) = if comes_before g f then g ∷ insert_fact f gs else f ∷ g ∷ gs

unfoldable pub sort_facts : List EvidenceFact → List EvidenceFact
sort_facts [] = []
sort_facts (f ∷ fs) = insert_fact f (sort_facts fs)

-- The lease that the transaction checks where the snapshot names an owner.
unfoldable pub lease_holds : Tables → EvidenceSnapshot → Bool
lease_holds t s =
    str_eq s.lease_owner ""
    || exists
        (λ (c : Connector).
          c.id == s.connector_id
          && (str_eq c.lease_owner s.lease_owner && (ltb t.now c.lease_until && not c.disabled)))
        t.connectors

-- What the loops gather: the identities seen, and the impacts and incidents to recompute.
pub record Touched : Type 0 where
  pub tables : Tables
  pub seen : List String
  pub impacts : List ℕ
  pub incidents : List ℕ

abbrev pub touch_id : ℕ → List ℕ → List ℕ
touch_id id ids = if exists (λ k. k == id) ids then ids else ids ++ (id ∷ [])

abbrev pub is_seen : List String → String → Bool
is_seen seen key = exists (λ k. str_eq k key) seen

-- What one fact adds to what is gathered; an archived target and a muted fact add no id.
unfoldable pub note_applied : Touched → String → Applied → Touched
note_applied g key a =
    if a.archived || a.incident_id == 0
    then record g { tables = a.tables; seen = g.seen ++ (key ∷ []) }
    else record {
      tables = a.tables;
      seen = g.seen ++ (key ∷ []);
      impacts = touch_id a.impact_id g.impacts;
      incidents = touch_id a.incident_id g.incidents;
    }

-- The loop over the facts: the first fact of an identity counts.
unfoldable pub apply_facts : Touched → List EvidenceFact → ℕ → Result Touched
apply_facts g [] observed_at = ok g
apply_facts g (f ∷ fs) observed_at =
    if is_seen g.seen (fact_identity f) then apply_facts g fs observed_at else (do
      a ← apply_evidence_fact g.tables f observed_at
      apply_facts (note_applied g (fact_identity f) a) fs observed_at)

-- The rows of the snapshot's origin and connector that it observed. The first guard of
-- `activeEvidenceForSnapshot` and of `rearmRecoveredEvidence` is that no scope was.
unfoldable pub is_observed : EvidenceSnapshot → Evidence → Bool
is_observed s e =
    same_origin e.origin s.origin
    && ((elim e.connector_id [ none ↦ false | some c ↦ c == s.connector_id ])
        && (s.complete_connector
            || exists (λ scope. str_eq e.identity_scope scope) s.observed_scopes))

-- `activeEvidenceForSnapshot`.
abbrev pub active_evidence_for_snapshot : Tables → EvidenceSnapshot → List Evidence
active_evidence_for_snapshot t s = select (λ e. is_observed s e && e.active) t.evidence

abbrev pub resolve_one : Touched → Evidence → Origin → ℕ → Touched
resolve_one g e origin observed_at = record g {
  tables = resolve_evidence_row g.tables e.id e.incident_id e.impact_id e.name origin observed_at;
  impacts = touch_id e.impact_id g.impacts;
  incidents = touch_id e.incident_id g.incidents;
}

-- The loop over the active evidence that the snapshot observed.
unfoldable pub resolve_absent : Touched → List Evidence → Origin → ℕ → Touched
resolve_absent g [] origin observed_at = g
resolve_absent g (e ∷ es) origin observed_at =
    if is_seen g.seen (evidence_identity e)
    then resolve_absent g es origin observed_at
    else resolve_absent (resolve_one g e origin observed_at) es origin observed_at

-- The row that rearming writes; `greatest` skips a NULL.
unfoldable pub rearmed_row : ℕ → ℕ → Evidence → Evidence
rearmed_row now observed_at e = record e {
  rearmed_at = some (max observed_at (coalesce e.invalidated_at observed_at));
  last_seen_at = observed_at;
  updated_at = now;
}

abbrev pub awaits_recovery : Evidence → Bool
awaits_recovery e = is_some e.invalidated_at && is_none e.rearmed_at

-- `rearmRecoveredEvidence`: each candidate is written once, by its id.
unfoldable pub rearm_recovered_evidence : Tables → EvidenceSnapshot → List String → ℕ → Tables
rearm_recovered_evidence t s seen observed_at =
    update_evidence
      (λ e. is_observed s e && (awaits_recovery e && not (is_seen seen (evidence_identity e))))
      (rearmed_row t.now observed_at) t

unfoldable pub recompute_impacts : Tables → List ℕ → ℕ → Result Tables
recompute_impacts t [] observed_at = ok t
recompute_impacts t (id ∷ ids) observed_at = do
  t' ← recompute_impact t id observed_at
  recompute_impacts t' ids observed_at

-- What follows the facts: the absent evidence is resolved, then the recovered evidence rearmed.
unfoldable pub sweep : Touched → EvidenceSnapshot → ℕ → Touched
sweep g s observed_at =
    let g' = resolve_absent g (active_evidence_for_snapshot g.tables s) s.origin observed_at in
    record g' { tables = rearm_recovered_evidence g'.tables s g'.seen observed_at }

-- What the transaction does before it recomputes.
unfoldable pub observe : Tables → EvidenceSnapshot → ℕ → Result Touched
observe t s observed_at = do
  g ←
      apply_facts (record { tables = t; seen = []; impacts = []; incidents = [] })
        (sort_facts (map (stamp s observed_at) s.facts)) observed_at
  ok (sweep g s observed_at)

-- What follows the lease in `ApplyEvidenceSnapshot`.
unfoldable pub cycle : Tables → EvidenceSnapshot → ℕ → Result Tables
cycle t s observed_at = do
  g ← observe t s observed_at
  t' ← recompute_impacts g.tables g.impacts observed_at
  t'' ← recompute_incidents t' g.incidents observed_at
  advance_due_incidents t'' observed_at

-- `ApplyEvidenceSnapshot`: an error rolls back to the tables before.
unfoldable pub apply_evidence_snapshot : ℕ → Tables → EvidenceSnapshot → Result Tables
apply_evidence_snapshot clock t s =
    if lease_holds t s then cycle t s (normalized_time clock s.observed_at) else err failed

-- The end that `ResolveEvidence` and the recovery of a native control share.
unfoldable pub resolve_and_recompute : Tables → Evidence → Origin → ℕ → Result Tables
resolve_and_recompute t e origin observed_at = do
  t' ←
      recompute_impact
        (resolve_evidence_row t e.id e.incident_id e.impact_id e.name origin observed_at)
        e.impact_id observed_at
  recompute_incident t' e.incident_id observed_at

-- `ResolveEvidence`.
unfoldable pub resolve_evidence : ℕ → Tables → Origin → String → String → ℕ → Result Tables
resolve_evidence clock t origin identity_scope identity_key observed_at =
    elim (find?
      (λ e.
        same_origin e.origin origin
        && (str_eq e.identity_scope identity_scope
            && (str_eq e.identity_key identity_key && e.active)))
      t.evidence) [
        | none ↦ ok t
        | some e ↦ resolve_and_recompute t e origin (normalized_time clock observed_at)
      ]

-- `Advance`.
abbrev pub advance : ℕ → Tables → ℕ → Result Tables
advance clock t observed_at = advance_due_incidents t (normalized_time clock observed_at)
