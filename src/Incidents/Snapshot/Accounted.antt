-- ===== src/Incidents/Snapshot/Accounted.antt =====
-- The whole of `ApplyEvidenceSnapshot`: what the evidence says once a snapshot is accepted.
use cairnops.Common.{
  Bool-cases, ℕ, ◌≡◌, sym, ap, subst, ◌∙◌, true, false, Option, none, some, List, [], ◌∷◌, map,
  ◌==◌, arith, All, All-mono, find?, Option-cases, inl, inr,
}
use cairnops.Common.Result.{ok_eq, ok, ◌>>=◌, >>=-eq-ok}
use cairnops.Incidents.Schema.{Status, Severity, Evidence, Impact, Tables, EvidenceSnapshot}
use cairnops.Incidents.Rows.{append_activity}
use cairnops.Incidents.Recompute.{
  settle_impact, derive_impact, recompute_impact, recompute_incident, recompute_incidents,
  advance_due_incidents,
}
use cairnops.Incidents.Recompute.Row.{recompute_incident-ok, settle_incident-SameFacts}
use cairnops.Incidents.Snapshot.{
  Touched, cycle, normalized_time, evidence_identity, is_observed, is_seen, awaits_recovery, stamp,
  sort_facts, apply_facts, sweep, observe, recompute_impacts, apply_evidence_snapshot, lease_holds,
}
use cairnops.Incidents.Snapshot.Seen.{
  mentions, apply_facts-seen, sort_facts-mentions, stamp-mentions,
}
use cairnops.Incidents.Snapshot.Sweep.{IsSettled, sweep-IsSettled}

settle_impact-evidence :
    (t : Tables) (i : Impact) (status : Status) (severity : Severity) (at : Option ℕ)
    → (settle_impact t i status severity at).evidence ≡ t.evidence
unfolding settle_impact append_activity
settle_impact-evidence t i status severity at = ground arith

derive_impact-evidence :
    (t : Tables) (i : Impact) (at : ℕ) (severity : Option Severity)
    → (derive_impact t i at severity).evidence ≡ t.evidence
derive_impact-evidence t i at none = settle_impact-evidence t i _ _ _
derive_impact-evidence t i at (some severity) = settle_impact-evidence t i _ _ _

pub recompute_impact-evidence :
    (t u : Tables) (id at : ℕ) → recompute_impact t id at ≡ ok u → u.evidence ≡ t.evidence
unfolding recompute_impact
recompute_impact-evidence t u id at h = elim (Option-cases (find? (λ i. i.id == id) t.impacts)) [
  | inl e ↦ cc (rw (e, recompute_impact) at h)
  | inr (i, e) ↦
      subst (λ v. v.evidence ≡ t.evidence) (ok_eq (rw (e, recompute_impact) at h))
        (derive_impact-evidence t i at _)
]

pub recompute_impacts-evidence :
    (t u : Tables) (ids : List ℕ) (at : ℕ)
    → recompute_impacts t ids at ≡ ok u
    → u.evidence ≡ t.evidence
unfolding recompute_impacts
recompute_impacts-evidence t u [] at h = ap (λ v. v.evidence) (sym (ok_eq h))
recompute_impacts-evidence t u (id ∷ ids) at h =
    let (t', one, rest) =
      >>=-eq-ok (recompute_impact t id at) (λ v. recompute_impacts v ids at) h in
    recompute_impacts-evidence t' u ids at rest ∙ recompute_impact-evidence t t' id at one

pub recompute_incidents-evidence :
    (t u : Tables) (ids : List ℕ) (at : ℕ)
    → recompute_incidents t ids at ≡ ok u
    → u.evidence ≡ t.evidence
unfolding recompute_incidents
recompute_incidents-evidence t u [] at h = ap (λ v. v.evidence) (sym (ok_eq h))
recompute_incidents-evidence t u (id ∷ ids) at h =
    let (t', one, rest) =
      >>=-eq-ok (recompute_incident t id at) (λ v. recompute_incidents v ids at) h in
    let (i, _, _, settled) = recompute_incident-ok t t' id at one in
    recompute_incidents-evidence t' u ids at rest
    ∙ subst (λ v. v.evidence ≡ t.evidence) settled (settle_incident-SameFacts t i at).evidence_same

-- The steps of a snapshot that is accepted.
pub apply_evidence_snapshot-ok :
    (clock : ℕ) (t u : Tables) (s : EvidenceSnapshot)
    → apply_evidence_snapshot clock t s ≡ ok u
    → let at = normalized_time clock s.observed_at in
      (g : Touched) × (v : Tables) × (w : Tables) × (observe t s at ≡ ok g)
      × (recompute_impacts g.tables g.impacts at ≡ ok v)
      × (recompute_incidents v g.incidents at ≡ ok w)
      × (advance_due_incidents w at ≡ ok u)
unfolding apply_evidence_snapshot cycle
apply_evidence_snapshot-ok clock t u s h = elim (Bool-cases (lease_holds t s)) [
  | inr e ↦ cc (rw (e, apply_evidence_snapshot) at h)
  | inl e ↦
      let (g, o, after_observe) =
        >>=-eq-ok (observe t s at)
          (λ g. recompute_impacts g.tables g.impacts at >>= λ v.
            recompute_incidents v g.incidents at >>= λ w. advance_due_incidents w at)
          (rw (e, apply_evidence_snapshot) at h) in
      let (v, impacts, after_impacts) =
        >>=-eq-ok (recompute_impacts g.tables g.impacts at)
          (λ v. recompute_incidents v g.incidents at >>= λ w. advance_due_incidents w at)
          after_observe in
      let (w, incidents, due) =
        >>=-eq-ok (recompute_incidents v g.incidents at) (λ w. advance_due_incidents w at)
          after_impacts in
      (g, v, w, o, impacts, incidents, due)
]
  where
    at : ℕ
    at = normalized_time clock s.observed_at

-- What an accepted snapshot observed: the tables' evidence is what the sweep left.
accepted :
    (clock : ℕ) (t u : Tables) (s : EvidenceSnapshot)
    → apply_evidence_snapshot clock t s ≡ ok u
    → (g : Touched) × (observe t s (normalized_time clock s.observed_at) ≡ ok g)
      × (u.evidence ≡ g.tables.evidence)
unfolding advance_due_incidents
accepted clock t u s h =
    let (g, v, w, o, impacts, incidents, due) = apply_evidence_snapshot-ok clock t u s h in
    (
      g,
      o,
      recompute_incidents-evidence w u _ _ due
          ∙ recompute_incidents-evidence v w g.incidents _ incidents
          ∙ recompute_impacts-evidence g.tables v g.impacts _ impacts,
    )

-- Evidence that a snapshot observed and of whose identity it has no fact.
abbrev pub IsMissing : EvidenceSnapshot → Evidence → Type 0
IsMissing s e = (is_observed s e ≡ true) × (mentions s.facts (evidence_identity e) ≡ false)

-- Once a snapshot is accepted, no evidence that it observed (its origin and connector, and one of its
-- scopes unless it is complete) and of which it has no fact is active, and none of it that was
-- invalidated still awaits its recovery.
pub apply_evidence_snapshot-accounts :
    (clock : ℕ) (t u : Tables) (s : EvidenceSnapshot)
    → apply_evidence_snapshot clock t s ≡ ok u
    → All (λ e. IsMissing s e → (e.active ≡ false) × (awaits_recovery e ≡ false)) u.evidence
unfolding observe
apply_evidence_snapshot-accounts clock t u s h =
    let at = normalized_time clock s.observed_at in
    let (g, o, same) = accepted clock t u s h in
    let start : Touched = record { tables = t; seen = []; impacts = []; incidents = [] } in
    let (g', facts, swept) =
      >>=-eq-ok (apply_facts start (sort_facts (map (stamp s at) s.facts)) at)
        (λ k. ok (sweep k s at)) o in
    let seen : (k : _) → is_seen g'.seen k ≡ mentions s.facts k = λ k.
      apply_facts-seen start g' _ at k facts
      ∙ sort_facts-mentions (map (stamp s at) s.facts) k
      ∙ stamp-mentions s at s.facts k in
    subst (All _) (sym (same ∙ ap (λ v. v.tables.evidence) (sym (ok_eq swept)))) (
      All-mono (IsSettled s g'.seen) _ (sweep g' s at).tables.evidence
        (λ e c m. (
          c.inactive m.0 (seen (evidence_identity e) ∙ m.1),
          c.rearmed m.0 (seen (evidence_identity e) ∙ m.1),
        ))
        (sweep-IsSettled g' s at))
