-- ===== src/Incidents/Merge/Moved.antt =====
-- What MergeTargets leaves of the target that was absorbed: nothing.
use cairnops.Common.{
  ℕ, ◌+◌, ◌≡◌, ◌≢◌, refl, sym, subst, ap, ◌∙◌, Bool, true, false, not, ◌&&◌, ◌||◌, Option, none,
  some, List, [], ◌∷◌, String, ◌==◌, arith, Bool-cases, Option-cases, inl, inr, All, All-mono,
  All-select, All-both, select_fits, All-update_where, All-update_where_to, select, exists, find?,
  map, ==_refl,
}
use cairnops.Common.Result.{ok, ok_eq, >>=-eq-ok}
use cairnops.Incidents.Schema.{
  Status, Severity, same_severity, Impact, Evidence, Tables, ActivityKind,
}
use cairnops.Incidents.Rows.{append_activity, same_status, is_resolved}
use cairnops.Incidents.Recompute.{
  settle_impact, derive_impact, recompute_impact, recompute_incident,
}
use cairnops.Incidents.Recompute.Row.{recompute_incident-ok, settle_incident-SameFacts}
use cairnops.Incidents.Snapshot.Accounted.{recompute_impact-evidence}
use cairnops.Incidents.Merge.{
  Candidate, candidate, candidates, move_impact, absorb_impact, merge_one, merge_each,
  touch_incident_structure, incident_ids, revise_each, merge_targets,
}

-- A row of an impact is off the target, or the impact is still to come in the loop.
abbrev pub waits : List Candidate → ℕ → ℕ → ℕ → Bool
waits cs secondary_id target_id impact_id =
    not (target_id == secondary_id) || exists (λ c. c.secondary_impact == impact_id) cs

pub or_true : (b : Bool) → (b || true) ≡ true
or_true b = ground arith

not-true : (b : Bool) → not b ≡ true → b ≡ false
not-true b h = ground arith

record IsMoving (cs : List Candidate) (secondary_id : ℕ) (t : Tables) : Type 0 where
  impacts_wait : All (λ i. waits cs secondary_id i.target_id i.id ≡ true) t.impacts
  evidence_waits : All (λ e. waits cs secondary_id e.target_id e.impact_id ≡ true) t.evidence

module _ (P : ℕ → ℕ → Type 0) where
  abbrev Holds : List Impact → Type 0
  Holds rows = All (λ i. P i.target_id i.id) rows

  settle_impact-Holds :
      (t : Tables) (i : Impact) (status : Status) (severity : Severity) (at : Option ℕ)
      → Holds t.impacts
      → Holds (settle_impact t i status severity at).impacts
  unfolding settle_impact append_activity
  settle_impact-Holds t i status severity at h =
      let written =
        All-update_where (λ (r : Impact). P r.target_id r.id) (λ r. r.id == i.id)
          (λ r. record r {
            status = status;
            source_severity = severity;
            effective_severity = severity;
            resolved_at = at;
            updated_at = t.now;
          })
          t.impacts (λ r p e. p) h in
      elim (Bool-cases
        (same_status status i.status && same_severity severity i.effective_severity)) [
          | inl e ↦ rw e h
          | inr e ↦ elim (Bool-cases (is_resolved status && not (is_resolved i.status))) [
            | inl f ↦ rw (e, f) written
            | inr f ↦ rw (e, f) written
          ]
        ]

  derive_impact-Holds :
      (t : Tables) (i : Impact) (at : ℕ) (severity : Option Severity)
      → Holds t.impacts
      → Holds (derive_impact t i at severity).impacts
  derive_impact-Holds t i at none h = settle_impact-Holds t i _ _ _ h
  derive_impact-Holds t i at (some severity) h = settle_impact-Holds t i _ _ _ h

  -- A recomputation leaves the impacts their identifiers and targets.
  recompute_impact-Holds :
      (t u : Tables) (id at : ℕ)
      → recompute_impact t id at ≡ ok u
      → Holds t.impacts
      → Holds u.impacts
  unfolding recompute_impact
  recompute_impact-Holds t u id at h a = elim (Option-cases (find? (λ i. i.id == id) t.impacts)) [
    | inl e ↦ cc (rw (e, recompute_impact) at h)
    | inr (i, e) ↦
        subst (λ (v : Tables). Holds v.impacts) (ok_eq (rw (e, recompute_impact) at h))
          (derive_impact-Holds t i at _ a)
  ]

module _ (primary_id secondary_id : ℕ) (apart : (primary_id == secondary_id) ≡ false) where
  arrived :
      (cs : List Candidate) (impact_id : ℕ) → waits cs secondary_id primary_id impact_id ≡ true
  arrived cs impact_id = rw apart refl

  passed :
      (c : Candidate) (cs : List Candidate) (target_id impact_id : ℕ)
      → waits (c ∷ cs) secondary_id target_id impact_id ≡ true
      → (impact_id == c.secondary_impact) ≡ false
      → waits cs secondary_id target_id impact_id ≡ true
  passed c cs target_id impact_id w e = ground arith

  move_impact-IsMoving :
      (c : Candidate) (cs : List Candidate) (t : Tables)
      → IsMoving (c ∷ cs) secondary_id t
      → IsMoving cs secondary_id (move_impact c.secondary_impact primary_id t)
  unfolding move_impact
  move_impact-IsMoving c cs t s = record {
    impacts_wait =
        All-update_where_to (λ (i : Impact). waits (c ∷ cs) secondary_id i.target_id i.id ≡ true)
          (λ (i : Impact). waits cs secondary_id i.target_id i.id ≡ true)
          (λ i. i.id == c.secondary_impact) _ t.impacts (λ i w e. arrived cs i.id)
          (λ i w e. passed c cs i.target_id i.id w e) s.impacts_wait;
    evidence_waits =
        All-update_where_to
          (λ (r : Evidence). waits (c ∷ cs) secondary_id r.target_id r.impact_id ≡ true)
          (λ (r : Evidence). waits cs secondary_id r.target_id r.impact_id ≡ true)
          (λ r. r.impact_id == c.secondary_impact) _ t.evidence (λ r w e. arrived cs r.impact_id)
          (λ r w e. passed c cs r.target_id r.impact_id w e) s.evidence_waits;
  }

  absorb_impact-IsMoving :
      (c : Candidate) (cs : List Candidate) (primary : ℕ) (t : Tables)
      → IsMoving (c ∷ cs) secondary_id t
      → IsMoving cs secondary_id (absorb_impact c.secondary_impact primary primary_id t)
  unfolding absorb_impact
  absorb_impact-IsMoving c cs primary t s = record {
    impacts_wait =
        All-mono _ _ _ (λ i h. passed c cs i.target_id i.id h.1 (not-true _ h.0))
          (All-both (λ (i : Impact). not (i.id == c.secondary_impact) ≡ true)
            (λ (i : Impact). waits (c ∷ cs) secondary_id i.target_id i.id ≡ true)
            (select (λ i. not (i.id == c.secondary_impact)) t.impacts)
            (select_fits (λ i. not (i.id == c.secondary_impact)) t.impacts)
            (All-select (λ (i : Impact). waits (c ∷ cs) secondary_id i.target_id i.id ≡ true)
              (λ i. not (i.id == c.secondary_impact)) t.impacts s.impacts_wait));
    evidence_waits =
        All-update_where_to
          (λ (r : Evidence). waits (c ∷ cs) secondary_id r.target_id r.impact_id ≡ true)
          (λ (r : Evidence). waits cs secondary_id r.target_id r.impact_id ≡ true)
          (λ r. r.impact_id == c.secondary_impact) _ t.evidence (λ r w e. arrived cs primary)
          (λ r w e. passed c cs r.target_id r.impact_id w e) s.evidence_waits;
  }

  merge_one-IsMoving :
      (c : Candidate) (cs : List Candidate) (now : ℕ) (t : Tables) {s : Tables × ℕ}
      → merge_one t primary_id c now ≡ ok s
      → IsMoving (c ∷ cs) secondary_id t
      → IsMoving cs secondary_id s.0
  unfolding merge_one
  merge_one-IsMoving c cs now t h w = elim (Option-cases c.primary_impact) [
    | inl e ↦
        subst (λ (p : Tables × ℕ). IsMoving cs secondary_id p.0) (ok_eq (rw (e, merge_one) at h))
          (move_impact-IsMoving c cs t w)
    | inr (primary, e) ↦
        let taken = absorb_impact c.secondary_impact primary primary_id t in
        let (u, done, same) =
          >>=-eq-ok (recompute_impact taken primary now) (λ u. ok (u, 1))
            (rw (e, merge_one) at h) in
        let moving = absorb_impact-IsMoving c cs primary t w in
        subst (λ (p : Tables × ℕ). IsMoving cs secondary_id p.0) (ok_eq same)
          (record {
            impacts_wait =
                recompute_impact-Holds (λ target id. waits cs secondary_id target id ≡ true) taken u
                  primary now done moving.impacts_wait;
            evidence_waits =
                subst (All (λ (r : Evidence). waits cs secondary_id r.target_id r.impact_id ≡ true))
                  (sym (recompute_impact-evidence taken u primary now done)) moving.evidence_waits;
          })
  ]

  merge_each-IsMoving :
      (cs : List Candidate) (t : Tables) (merged now : ℕ) {s : Tables × ℕ}
      → merge_each t merged primary_id cs now ≡ ok s
      → IsMoving cs secondary_id t
      → IsMoving [] secondary_id s.0
  unfolding merge_each
  merge_each-IsMoving [] t merged now h w =
      subst (λ (p : Tables × ℕ). IsMoving [] secondary_id p.0) (ok_eq h) w
  merge_each-IsMoving (c ∷ cs) t merged now h w =
      let (s, first, rest) =
        >>=-eq-ok (merge_one t primary_id c now)
          (λ (s : Tables × ℕ). merge_each s.0 (merged + s.1) primary_id cs now) h in
      merge_each-IsMoving cs s.0 (merged + s.1) now rest (merge_one-IsMoving c cs now t first w)

pub revise_each-rows :
    (ids : List ℕ) (t : Tables) (kind : ActivityKind) (message : String) (now : ℕ) {u : Tables}
    → revise_each t ids kind message now ≡ ok u
    → (u.impacts ≡ t.impacts) × (u.evidence ≡ t.evidence)
unfolding revise_each touch_incident_structure append_activity
revise_each-rows [] t kind message now h =
    subst (λ (v : Tables). (v.impacts ≡ t.impacts) × (v.evidence ≡ t.evidence)) (ok_eq h)
      (refl, refl)
revise_each-rows (id ∷ ids) t kind message now h =
    let (t', one, rest) = >>=-eq-ok (recompute_incident t id now) _ h in
    let (i, _, _, settled) = recompute_incident-ok t t' id now one in
    let same = settle_incident-SameFacts t i now in
    let (impacts, evidence) = revise_each-rows ids _ kind message now rest in
    (
      impacts ∙ subst (λ (v : Tables). v.impacts ≡ t.impacts) settled same.impacts_same,
      evidence ∙ subst (λ (v : Tables). v.evidence ≡ t.evidence) settled same.evidence_same,
    )

candidates_wait :
    (t : Tables) (primary_id secondary_id : ℕ) (impacts : List Impact) (target_id impact_id : ℕ)
    → exists (λ (i : Impact). i.id == impact_id && i.target_id == target_id) impacts ≡ true
    → waits
        (map (candidate t primary_id) (select (λ i. i.target_id == secondary_id) impacts))
        secondary_id
        target_id
        impact_id
      ≡ true
unfolding candidate
candidates_wait t primary_id secondary_id [] target_id impact_id h = cc
candidates_wait t primary_id secondary_id (i ∷ impacts) target_id impact_id h =
    ground (arith, candidates_wait t primary_id secondary_id impacts target_id impact_id)

each_stands :
    (impacts : List Impact)
    → All
        (λ (i : Impact).
          exists (λ (j : Impact). j.id == i.id && j.target_id == i.target_id) impacts ≡ true)
        impacts
each_stands [] = tt
each_stands (i ∷ impacts) = (
  rw (==_refl i.id, ==_refl i.target_id) refl,
  All-mono _ _ impacts (λ j h. rw h (or_true (i.id == j.id && i.target_id == j.target_id)))
      (each_stands impacts),
)

off :
    (target_id secondary_id impact_id : ℕ)
    → waits [] secondary_id target_id impact_id ≡ true
    → target_id ≢ secondary_id
off target_id secondary_id impact_id w e = ground arith

-- Where every piece of evidence is on the target of its impact: a merge into another target leaves no
-- impact and no evidence on the target that was absorbed.
pub merge_targets-leaves_none :
    (t u : Tables) (primary_id secondary_id now merged : ℕ)
    → primary_id ≢ secondary_id
    → All
        (λ (e : Evidence).
          exists (λ (i : Impact). i.id == e.impact_id && i.target_id == e.target_id) t.impacts
          ≡ true)
        t.evidence
    → merge_targets t primary_id secondary_id now ≡ ok (u, merged)
    → All (λ (i : Impact). i.target_id ≢ secondary_id) u.impacts
      × All (λ (e : Evidence). e.target_id ≢ secondary_id) u.evidence
unfolding merge_targets candidates
merge_targets-leaves_none t u primary_id secondary_id now merged apart stands h =
    let (m, moved, rest) =
      >>=-eq-ok (merge_each t 0 primary_id (candidates t primary_id secondary_id) now) _ h in
    let (v, revised, same) =
      >>=-eq-ok
        (revise_each m.0 (incident_ids [] (candidates t primary_id secondary_id))
          ActivityKind.target_reconciled "Atteintes réunies après rapprochement de Cibles" now)
        _ rest in
    let (impacts, evidence) = revise_each-rows _ m.0 _ _ now revised in
    let left =
      merge_each-IsMoving primary_id secondary_id (ground arith)
        (candidates t primary_id secondary_id) t 0 now moved begins in
    subst Clear (ap (λ (p : Tables × ℕ). p.0) (ok_eq same)) (
      rw impacts (
          All-mono _ (λ (i : Impact). i.target_id ≢ secondary_id) m.0.impacts
            (λ i. off i.target_id secondary_id i.id) left.impacts_wait),
      rw evidence (
          All-mono _ (λ (e : Evidence). e.target_id ≢ secondary_id) m.0.evidence
            (λ e. off e.target_id secondary_id e.impact_id) left.evidence_waits),
    )
  where
    Clear : Tables → Type 0
    Clear w =
        All (λ (i : Impact). i.target_id ≢ secondary_id) w.impacts
        × All (λ (e : Evidence). e.target_id ≢ secondary_id) w.evidence

    begins : IsMoving (candidates t primary_id secondary_id) secondary_id t
    begins = record {
      impacts_wait =
          All-mono _ _ t.impacts
            (λ (i : Impact). candidates_wait t primary_id secondary_id t.impacts i.target_id i.id)
            (each_stands t.impacts);
      evidence_waits =
          All-mono _ _ t.evidence
            (λ (e : Evidence).
              candidates_wait t primary_id secondary_id t.impacts e.target_id e.impact_id)
            stands;
    }
