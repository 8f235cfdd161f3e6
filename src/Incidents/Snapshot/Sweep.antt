-- ===== src/Incidents/Snapshot/Sweep.antt =====
-- What a snapshot leaves behind: no evidence that it observed and did not mention stays active or muted,
-- and the evidence that it did not observe is as it was.
use mathlib.Core.Option
use cairnops.Common.{
  ℕ, ◌≡◌, refl, sym, ap, subst, ◌∙◌, true, false, not, ◌&&◌, some, List, [], ◌∷◌, String, ◌==◌,
  arith, All, All-mono, All-update_where_to, IsKeyed, select, find?, find?-update_where, Bool-cases,
  ==_iff, ==_refl, some_eq, inl, inr,
}
use cairnops.Incidents.Schema.{Origin, Evidence, EvidenceSnapshot}
use cairnops.Incidents.Snapshot.{
  Touched, evidence_identity, is_seen, is_observed, active_evidence_for_snapshot, resolve_absent,
  rearmed_row, awaits_recovery, rearm_recovered_evidence, sweep, resolve_one,
}
use cairnops.Incidents.Snapshot.Scope.{resolved_row, is_absent, resolve_absent-evidence}

resolve_absent-seen :
    (g : Touched) (es : List Evidence) (origin : Origin) (at : ℕ)
    → (resolve_absent g es origin at).seen ≡ g.seen
unfolding resolve_absent
resolve_absent-seen g [] origin at = refl
resolve_absent-seen g (e ∷ es) origin at =
    elim (Bool-cases (is_seen g.seen (evidence_identity e))) [
      | inl h ↦ rw (h, resolve_absent) (resolve_absent-seen g es origin at)
      | inr h ↦
          rw (h, resolve_absent) (resolve_absent-seen (resolve_one g e origin at) es origin at)
    ]

-- A row of the list that the first test takes and the second does not except is found by its id.
select-is_absent :
    (s : EvidenceSnapshot) (seen : List String) (es : List Evidence)
    → All
        (λ r.
          is_observed s r ≡ true
          → r.active ≡ true
          → is_seen seen (evidence_identity r) ≡ false
          → is_absent seen (select (λ e. is_observed s e && e.active) es) r ≡ true)
        es
select-is_absent s seen [] = tt
select-is_absent s seen (e ∷ es) = (head, All-mono _ _ es tail (select-is_absent s seen es))
  where
    head :
        is_observed s e ≡ true
        → e.active ≡ true
        → is_seen seen (evidence_identity e) ≡ false
        → is_absent seen (select (λ e. is_observed s e && e.active) (e ∷ es)) e ≡ true
    head o a n = rw (o, a) (rw (n, ==_refl e.id) refl)

    tail :
        (r : Evidence)
        → (is_observed s r ≡ true
            → r.active ≡ true
            → is_seen seen (evidence_identity r) ≡ false
            → is_absent seen (select (λ e. is_observed s e && e.active) es) r ≡ true)
        → is_observed s r ≡ true
        → r.active ≡ true
        → is_seen seen (evidence_identity r) ≡ false
        → is_absent seen (select (λ e. is_observed s e && e.active) (e ∷ es)) r ≡ true
    tail r h o a n = ground (arith, h o a n)

-- What is left of a row: observed and not seen, it is not active, and awaits no recovery.
pub record IsSettled (s : EvidenceSnapshot) (seen : List String) (r : Evidence) : Type 0 where
  pub inactive :
      is_observed s r ≡ true → is_seen seen (evidence_identity r) ≡ false → r.active ≡ false
  pub rearmed :
      is_observed s r ≡ true
      → is_seen seen (evidence_identity r) ≡ false
      → awaits_recovery r ≡ false

resolved_row-observed :
    (s : EvidenceSnapshot) (now at : ℕ) (r : Evidence)
    → is_observed s (resolved_row now at r) ≡ is_observed s r
unfolding is_observed resolved_row
resolved_row-observed s now at r = refl

rearmed_row-observed :
    (s : EvidenceSnapshot) (now at : ℕ) (r : Evidence)
    → is_observed s (rearmed_row now at r) ≡ is_observed s r
unfolding is_observed rearmed_row
rearmed_row-observed s now at r = refl

abbrev Inactive : EvidenceSnapshot → List String → Evidence → Type 0
Inactive s seen r =
    is_observed s r ≡ true → is_seen seen (evidence_identity r) ≡ false → r.active ≡ false

resolved-Inactive :
    (g : Touched) (s : EvidenceSnapshot) (at : ℕ)
    → All
        (Inactive s g.seen)
        (resolve_absent g (active_evidence_for_snapshot g.tables s) s.origin at).tables.evidence
unfolding resolved_row
resolved-Inactive g s at =
    subst (All (Inactive s g.seen))
      (sym (resolve_absent-evidence g (active_evidence_for_snapshot g.tables s) s.origin at))
      (All-update_where_to _ (Inactive s g.seen) _ (resolved_row g.tables.now at) g.tables.evidence
        (λ r _ _ o n. refl) keeps (select-is_absent s g.seen g.tables.evidence))
  where
    keeps :
        (r : Evidence)
        → (is_observed s r ≡ true
            → r.active ≡ true
            → is_seen g.seen (evidence_identity r) ≡ false
            → is_absent g.seen (active_evidence_for_snapshot g.tables s) r ≡ true)
        → (r.active && is_absent g.seen (active_evidence_for_snapshot g.tables s) r) ≡ false
        → Inactive s g.seen r
    keeps r h e o n = elim (Bool-cases r.active) [ inl a ↦ cc (rw (a, h o a n) at e) | inr a ↦ a ]

-- After the sweep, evidence that the snapshot observed and whose identity no fact had is not active,
-- and none that was invalidated still awaits its recovery.
pub sweep-IsSettled :
    (g : Touched) (s : EvidenceSnapshot) (at : ℕ)
    → All (IsSettled s g.seen) (sweep g s at).tables.evidence
unfolding sweep rearm_recovered_evidence rearmed_row
sweep-IsSettled g s at =
    rw (resolve_absent-seen g (active_evidence_for_snapshot g.tables s) s.origin at) (
      All-update_where_to (Inactive s g.seen) (IsSettled s g.seen) _ (rearmed_row _ at) _
        (λ r h _. rearms _ r h) keeps (resolved-Inactive g s at))
  where
    rearms :
        (now : ℕ) (r : Evidence) → Inactive s g.seen r → IsSettled s g.seen (rearmed_row now at r)
    rearms now r h = record {
      inactive = λ o n. h (sym (rearmed_row-observed s now at r) ∙ o) n;
      rearmed = λ o n. ground arith;
    }

    keeps :
        (r : Evidence)
        → Inactive s g.seen r
        → (is_observed s r && (awaits_recovery r && not (is_seen g.seen (evidence_identity r))))
          ≡ false
        → IsSettled s g.seen r
    keeps r h e = record { inactive = h; rearmed = λ o n. ground (arith, o, n, e) }

-- A row that the sweep spares is none of the absent ones, since its id finds no other row.
spared-is_absent :
    (s : EvidenceSnapshot) (seen : List String) (all es : List Evidence) (e : Evidence)
    → All (λ r. find? (λ y. y.id == r.id) all ≡ some r) es
    → find? (λ r. r.id == e.id) all ≡ some e
    → (is_observed s e && not (is_seen seen (evidence_identity e))) ≡ false
    → is_absent seen (select (λ r. is_observed s r && r.active) es) e ≡ false
spared-is_absent s seen all [] e keyed found spared = refl
spared-is_absent s seen all (x ∷ xs) e keyed found spared = elim (Bool-cases (x.id == e.id)) [
  | inl h ↦
      let same : x ≡ e = some_eq (sym keyed.0 ∙ rw ((==_iff x.id e.id).0 h) found) in
      let not_x : (is_observed s x && not (is_seen seen (evidence_identity x))) ≡ false =
        subst (λ z. (is_observed s z && not (is_seen seen (evidence_identity z))) ≡ false)
          (sym same) spared in
      ground (arith, not_x, spared-is_absent s seen all xs e keyed.1 found spared)
  | inr h ↦ ground (arith, h, spared-is_absent s seen all xs e keyed.1 found spared)
]

-- Where the ids of the evidence tell its rows apart, a row that the snapshot did not observe, or whose
-- identity was seen among its facts, is found after the sweep as it was before.
pub sweep-find? :
    (g : Touched) (s : EvidenceSnapshot) (at : ℕ) (e : Evidence)
    → IsKeyed (λ r. r.id) g.tables.evidence
    → find? (λ r. r.id == e.id) g.tables.evidence ≡ some e
    → (is_observed s e && not (is_seen g.seen (evidence_identity e))) ≡ false
    → find? (λ r. r.id == e.id) (sweep g s at).tables.evidence ≡ some e
unfolding sweep rearm_recovered_evidence rearmed_row resolved_row
sweep-find? g s at e keyed found spared =
    rw (resolve_absent-seen g (active_evidence_for_snapshot g.tables s) s.origin at) (
      find?-update_where (λ r. r.id == e.id) _ _ _ (λ r. refl)
      ∙ ap (Option.map _) (
          ap (find? (λ r. r.id == e.id))
            (resolve_absent-evidence g (active_evidence_for_snapshot g.tables s) s.origin at)
          ∙ find?-update_where (λ r. r.id == e.id) _ _ g.tables.evidence (λ r. refl)
          ∙ ap (Option.map _) found)
      ∙ rw not_resolved (rw not_rearmed refl))
  where
    not_absent : is_absent g.seen (active_evidence_for_snapshot g.tables s) e ≡ false
    not_absent = spared-is_absent s g.seen g.tables.evidence g.tables.evidence e keyed found spared

    not_resolved :
        (e.active && is_absent g.seen (active_evidence_for_snapshot g.tables s) e) ≡ false
    not_resolved = rw not_absent (ground arith)

    not_rearmed :
        (is_observed s e && (awaits_recovery e && not (is_seen g.seen (evidence_identity e))))
        ≡ false
    not_rearmed = ground (arith, spared)
