-- ===== src/Incidents/Reassign.antt =====
-- ReassignSource of internal/incidents/structure.go: the evidence of a source, or of a binding of a
-- connector, goes to another target within its incident. The copies of indicator values are left out.
-- `now` is the one instant of the loop's calls of time.Now, and the impacts are taken in the order of
-- the table, where Go's iteration of a map has none.
pub mod Gone
use cairnops.Common.{
  ℕ, suc, Bool, false, not, ◌&&◌, ◌||◌, Option, none, some, coalesce, List, [], ◌∷◌, ◌++◌, map,
  ◌==◌, ltb, if◌then◌else◌, is_none, select, find?, exists, count_where, update_where, length,
}
use cairnops.Common.Result.{Result, ok, err, failed, ◌>>=◌}
use cairnops.Incidents.Schema.{active, resolved, Impact, Evidence, Tables, ActivityKind}
use cairnops.Incidents.Rows.{highest}
use cairnops.Incidents.Recompute.{recompute_impact}
use cairnops.Incidents.Snapshot.{touch_id}
use cairnops.Incidents.Merge.{is_id, revise_each}

-- The evidence of one impact that moves.
pub record Group : Type 0 where
  pub impact_id : ℕ
  pub incident_id : ℕ
  pub evidence_ids : List ℕ

-- The WHERE of the selection; an empty binding is NULL, which nothing equals.
unfoldable pub is_reassigned : ℕ → Option ℕ → Evidence → Bool
is_reassigned source_id binding_id e =
    is_id e.source_id source_id
    || elim binding_id [ none ↦ false | some b ↦ is_id e.connector_binding_id b ]

abbrev pub is_in : List ℕ → ℕ → Bool
is_in ids id = exists (λ k. k == id) ids

-- `byImpact[move.impactID] = append(…)`.
unfoldable pub group_of : Evidence → List Evidence → Group
group_of e moves = record {
  impact_id = e.impact_id;
  incident_id = e.incident_id;
  evidence_ids = map (λ m. m.id) (select (λ m. m.impact_id == e.impact_id) moves);
}

unfoldable pub groups_from : List ℕ → List Evidence → List Evidence → List Group
groups_from seen moves [] = []
groups_from seen moves (e ∷ es) =
    let known = groups_from seen moves es in
    let begun = group_of e moves ∷ groups_from (e.impact_id ∷ seen) moves es in
    if is_in seen e.impact_id then known else begun

-- `max(resolved_at)` and `min(opened_at)` of the rows.
unfoldable pub latest_resolved : Option ℕ → List Evidence → Option ℕ
latest_resolved best [] = best
latest_resolved best (e ∷ es) = latest_resolved (later best e.resolved_at) es
  where
    later : Option ℕ → Option ℕ → Option ℕ
    later none b = b
    later (some a) none = some a
    later (some a) (some b) = if ltb a b then some b else some a

unfoldable pub first_opened : ℕ → List Evidence → ℕ
first_opened best [] = best
first_opened best (e ∷ es) = first_opened (if ltb e.opened_at best then e.opened_at else best) es

-- The impact that takes a part of another one's evidence. No row is left to aggregate only where the
-- evidence has gone, and the columns refuse NULL then.
unfoldable pub split_impact : Tables → ℕ → ℕ → List Evidence → Result Impact
split_impact t incident_id destination_id [] = err failed
split_impact t incident_id destination_id (e ∷ es) =
    let holds = exists (λ (r : Evidence). r.active && is_none r.invalidated_at) (e ∷ es) in
    let severity = coalesce (highest (map (λ (r : Evidence). r.severity) (e ∷ es))) e.severity in
    ok (record {
      id = t.next_id;
      incident_id = incident_id;
      target_id = destination_id;
      status = if holds then active else resolved;
      source_severity = severity;
      effective_severity = severity;
      opened_at = first_opened e.opened_at es;
      resolved_at = if holds then none else some (coalesce (latest_resolved none (e ∷ es)) t.now);
      updated_at = t.now;
    })

unfoldable pub insert_split : Tables → ℕ → Group → Result (Tables × ℕ)
insert_split t destination_id g =
    split_impact t g.incident_id destination_id (select (λ e. is_in g.evidence_ids e.id) t.evidence)
    >>= λ i. ok (record t { impacts = t.impacts ++ (i ∷ []); next_id = suc t.next_id }, t.next_id)

-- The impact that the evidence goes to: one that is there, the old one where all of it goes, or a new
-- one.
unfoldable pub destination_of : Tables → ℕ → Group → Result (Tables × ℕ)
destination_of t destination_id g =
    elim (find? (λ (i : Impact). i.incident_id == g.incident_id && i.target_id == destination_id)
      t.impacts) [
        | some i ↦ ok (t, i.id)
        | none ↦
            if count_where (λ (e : Evidence). e.impact_id == g.impact_id) t.evidence
              == length g.evidence_ids
            then ok (
              record t {
                impacts =
                    update_where (λ i. i.id == g.impact_id)
                      (λ i. record i { target_id = destination_id; updated_at = t.now }) t.impacts;
              },
              g.impact_id,
            )
            else insert_split t destination_id g
      ]

abbrev pub is_optional : (ℕ → Bool) → Option ℕ → Bool
is_optional p none = false
is_optional p (some id) = p id

unfoldable pub move_evidence : ℕ → ℕ → Group → Tables → Tables
move_evidence impact_id destination_id g t = record t {
  evidence =
      update_where (λ e. is_in g.evidence_ids e.id)
        (λ e. record e { impact_id = impact_id; target_id = destination_id; updated_at = t.now })
        t.evidence;
  activity =
      update_where (λ a. is_optional (is_in g.evidence_ids) a.evidence_id)
        (λ a. record a { impact_id = some impact_id }) t.activity;
}

-- What is done with the old impact: it goes where no evidence is left to it.
unfoldable pub settle_original : Tables → ℕ → ℕ → ℕ → Result Tables
settle_original t original destination now =
    if destination == original
    then ok t
    else if count_where (λ (e : Evidence). e.impact_id == original) t.evidence == 0
    then ok (record t {
      activity =
          update_where (λ a. is_id a.impact_id original)
            (λ a. record a { impact_id = some destination }) t.activity;
      impacts = select (λ i. not (i.id == original)) t.impacts;
    })
    else recompute_impact t original now

unfoldable pub reassign_one : Tables → ℕ → Group → ℕ → Result Tables
reassign_one t destination_id g now = destination_of t destination_id g >>= λ d.
    settle_original (move_evidence d.1 destination_id g d.0) g.impact_id d.1 now >>= λ t'.
    recompute_impact t' d.1 now

unfoldable pub reassign_each : Tables → ℕ → List Group → ℕ → Result Tables
reassign_each t destination_id [] now = ok t
reassign_each t destination_id (g ∷ gs) now =
    reassign_one t destination_id g now >>= λ t'. reassign_each t' destination_id gs now

unfoldable pub group_incidents : List ℕ → List Group → List ℕ
group_incidents ids [] = ids
group_incidents ids (g ∷ gs) = group_incidents (touch_id g.incident_id ids) gs

unfoldable pub reassign_source : Tables → ℕ → ℕ → Option ℕ → ℕ → Result (Tables × ℕ)
reassign_source t destination_id source_id binding_id now =
    let moves = select (is_reassigned source_id binding_id) t.evidence in
    let groups = groups_from [] moves moves in
    let ids = group_incidents [] groups in
    reassign_each t destination_id groups now >>= λ t'.
    revise_each t' ids ActivityKind.source_reassigned
      "Preuves réattribuées après correction d'une Source" now
    >>= λ u. ok (u, length ids)
