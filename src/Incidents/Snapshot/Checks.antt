-- ===== src/Incidents/Snapshot/Checks.antt =====
-- The CHECK constraints of cairnops_incidents under the whole of `ApplyEvidenceSnapshot`.
use cairnops.Common.{
  ℕ, ◌≡◌, refl, sym, subst, List, String, [], ◌∷◌, map, arith, All, Bool-cases, inl, inr,
}
use cairnops.Common.Result.{ok_eq, ok, >>=-eq-ok}
use cairnops.Incidents.Schema.{Origin, Evidence, EvidenceFact, Tables, EvidenceSnapshot}
use cairnops.Incidents.Rows.{append_activity, resolve_evidence_row}
use cairnops.Incidents.Recompute.{
  recompute_impact, recompute_incident, recompute_incidents, advance_due_incidents,
}
use cairnops.Incidents.Recompute.Checks.{IncidentChecks, recompute_incident-IncidentChecks}
use cairnops.Incidents.Ensure.Checks.{AreChecked}
use cairnops.Incidents.Apply.{Applied, apply_evidence_fact}
use cairnops.Incidents.Apply.Checks.{apply_evidence_fact-AreChecked, recompute_impact-incidents}
use cairnops.Incidents.Snapshot.Accounted.{apply_evidence_snapshot-ok}
use cairnops.Incidents.Snapshot.{
  Touched, fact_identity, evidence_identity, is_seen, stamp, sort_facts, apply_facts, note_applied,
  sweep, observe, recompute_impacts, apply_evidence_snapshot, resolve_absent, resolve_one,
  active_evidence_for_snapshot, rearm_recovered_evidence,
}

recompute_impacts-AreChecked :
    (t u : Tables) (ids : List ℕ) (at : ℕ)
    → AreChecked t
    → recompute_impacts t ids at ≡ ok u
    → AreChecked u
unfolding recompute_impacts
recompute_impacts-AreChecked t u [] at c h = subst AreChecked (ok_eq h) c
recompute_impacts-AreChecked t u (id ∷ ids) at c h =
    let (v, one, rest) = >>=-eq-ok (recompute_impact t id at) (λ v. recompute_impacts v ids at) h in
    recompute_impacts-AreChecked v u ids at
      (subst (All IncidentChecks) (sym (recompute_impact-incidents t v id at one)) c) rest

pub recompute_incidents-AreChecked :
    (t u : Tables) (ids : List ℕ) (at : ℕ)
    → AreChecked t
    → recompute_incidents t ids at ≡ ok u
    → AreChecked u
unfolding recompute_incidents
recompute_incidents-AreChecked t u [] at c h = subst AreChecked (ok_eq h) c
recompute_incidents-AreChecked t u (id ∷ ids) at c h =
    let (v, one, rest) =
      >>=-eq-ok (recompute_incident t id at) (λ v. recompute_incidents v ids at) h in
    recompute_incidents-AreChecked v u ids at (recompute_incident-IncidentChecks t v id at c one)
      rest

note_applied-tables :
    (g : Touched) (key : String) (a : Applied) → (note_applied g key a).tables ≡ a.tables
unfolding note_applied
note_applied-tables g key a = ground arith

apply_facts-AreChecked :
    (g h : Touched) (fs : List EvidenceFact) (at : ℕ)
    → AreChecked g.tables
    → apply_facts g fs at ≡ ok h
    → AreChecked h.tables
unfolding apply_facts
apply_facts-AreChecked g h [] at c e = subst (λ k. AreChecked k.tables) (ok_eq e) c
apply_facts-AreChecked g h (f ∷ fs) at c e = elim (Bool-cases (is_seen g.seen (fact_identity f))) [
  | inl d ↦ apply_facts-AreChecked g h fs at c (rw (d, apply_facts) at e)
  | inr d ↦
      let (a, one, e') =
        >>=-eq-ok (apply_evidence_fact g.tables f at)
          (λ (a : Applied). apply_facts (note_applied g (fact_identity f) a) fs at)
          (rw (d, apply_facts) at e) in
      apply_facts-AreChecked (note_applied g (fact_identity f) a) h fs at
        (subst AreChecked (sym (note_applied-tables g (fact_identity f) a))
          (apply_evidence_fact-AreChecked g.tables f at a c one))
        e'
]

resolve_absent-incidents :
    (g : Touched) (es : List Evidence) (origin : Origin) (at : ℕ)
    → (resolve_absent g es origin at).tables.incidents ≡ g.tables.incidents
unfolding resolve_absent resolve_evidence_row append_activity
resolve_absent-incidents g [] origin at = refl
resolve_absent-incidents g (e ∷ es) origin at =
    elim (Bool-cases (is_seen g.seen (evidence_identity e))) [
      | inl h ↦ rw (h, resolve_absent) (resolve_absent-incidents g es origin at)
      | inr h ↦
          rw (h, resolve_absent) (resolve_absent-incidents (resolve_one g e origin at) es origin at)
    ]

sweep-AreChecked :
    (g : Touched) (s : EvidenceSnapshot) (at : ℕ)
    → AreChecked g.tables
    → AreChecked (sweep g s at).tables
unfolding sweep rearm_recovered_evidence
sweep-AreChecked g s at c =
    subst (All IncidentChecks)
      (sym (resolve_absent-incidents g (active_evidence_for_snapshot g.tables s) s.origin at)) c

observe-AreChecked :
    (t : Tables) (s : EvidenceSnapshot) (at : ℕ) (g : Touched)
    → AreChecked t
    → observe t s at ≡ ok g
    → AreChecked g.tables
unfolding observe
observe-AreChecked t s at g c h =
    let start : Touched = record { tables = t; seen = []; impacts = []; incidents = [] } in
    let (g', facts, swept) =
      >>=-eq-ok (apply_facts start (sort_facts (map (stamp s at) s.facts)) at)
        (λ k. ok (sweep k s at)) h in
    subst (λ k. AreChecked k.tables) (ok_eq swept)
      (sweep-AreChecked g' s at (apply_facts-AreChecked start g' _ at c facts))

-- A snapshot that is accepted keeps every incident within six of its table's CHECK constraints: a
-- resolution time exactly on a resolved incident, a closing time exactly on a closed propagation, a
-- closed propagation on a resolved incident, no actor or origin without an acknowledgement, a window
-- of 60 to 300 seconds, and a positive revision.
pub apply_evidence_snapshot-AreChecked :
    (clock : ℕ) (t u : Tables) (s : EvidenceSnapshot)
    → AreChecked t
    → apply_evidence_snapshot clock t s ≡ ok u
    → AreChecked u
unfolding advance_due_incidents
apply_evidence_snapshot-AreChecked clock t u s c h =
    let (g, v, w, o, impacts, incidents, due) = apply_evidence_snapshot-ok clock t u s h in
    recompute_incidents-AreChecked w u _ _
      (recompute_incidents-AreChecked v w g.incidents _
        (recompute_impacts-AreChecked g.tables v g.impacts _ (observe-AreChecked t s _ g c o)
          impacts)
        incidents)
      due
