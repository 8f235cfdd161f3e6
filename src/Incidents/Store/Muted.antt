-- ===== src/Incidents/Store/Muted.antt =====
-- Invalidated evidence of internal/incidents: a fact of its identity opens nothing until it recovers.
use cairnops.Common.{
  ℕ, ◌≡◌, refl, sym, subst, ◌∙◌, Bool, true, false, ◌&&◌, ◌||◌, none, some, List, [], ◌∷◌, String,
  ◌==◌, arith, All, select, exists, find?, exists-update_where, update_where, if◌then◌else◌,
  Bool-cases, Option-cases, inl, inr, find?-fits, ==_iff, some_eq, All-find?,
}
use cairnops.Common.Result.{ok, >>=-eq-ok}
use cairnops.Incidents.Schema.{Evidence, Tables, EvidenceFact, ActivityKind, user}
use cairnops.Incidents.Rows.{update_evidence, append_activity}
use cairnops.Incidents.Recompute.{recompute_impact, recompute_incident}
use cairnops.Incidents.Recompute.Row.{recompute_incident-ok, settle_incident-SameFacts}
use cairnops.Common.Order.{latest, latest_from}
use cairnops.Incidents.Apply.{
  Applied, is_complete, same_identity, active_evidence, is_muted, invalidation_time, see, apply_new,
  apply_evidence_fact,
}
use cairnops.Incidents.Snapshot.Accounted.{recompute_impact-evidence}
use cairnops.Incidents.Store.{invalidated_row, invalidate_evidence}

select-some {ℓ} :
    {A : Type ℓ} (key : A → ℕ) (p : A → Bool) (xs : List A)
    → exists p xs ≡ true
    → (x : A) × (latest key (select p xs) ≡ some x)
select-some key p [] h = cc
select-some key p (x ∷ xs) h = elim (Bool-cases (p x)) [
  | inl e ↦ (latest_from key x (select p xs), rw e refl)
  | inr e ↦ rw e (select-some key p xs (rw e at h))
]

-- The incidents, the impacts and the journal are as they were, and no id is returned.
pub record OpensNothing (t : Tables) (a : Applied) : Type 0 where
  pub no_incident : a.incident_id ≡ 0
  pub not_archived : a.archived ≡ false
  pub incidents_same : a.tables.incidents ≡ t.incidents
  pub impacts_same : a.tables.impacts ≡ t.impacts
  pub activity_same : a.tables.activity ≡ t.activity
  pub still_muted :
      (fact : EvidenceFact)
      → exists (is_muted fact) a.tables.evidence ≡ exists (is_muted fact) t.evidence

-- A complete fact with no active evidence of its identity, of which some was invalidated and has not
-- recovered since, is accepted and opens nothing; the evidence stays muted.
apply_evidence_fact-OpensNothing :
    (t : Tables) (fact : EvidenceFact) (at : ℕ)
    → is_complete fact ≡ true
    → active_evidence t fact ≡ none
    → exists (is_muted fact) t.evidence ≡ true
    → (a : Applied) × (apply_evidence_fact t fact at ≡ ok a) × OpensNothing t a
unfolding apply_evidence_fact apply_new see is_muted same_identity
apply_evidence_fact-OpensNothing t fact at complete inactive muted =
    let (e, found) = select-some invalidation_time (is_muted fact) t.evidence muted in
    (
      record { tables = see t e.id at; incident_id = 0; impact_id = 0; archived = false },
      rw (complete, inactive, found, apply_evidence_fact, apply_new) refl,
      record {
        no_incident = refl;
        not_archived = refl;
        incidents_same = refl;
        impacts_same = refl;
        activity_same = refl;
        still_muted = λ other.
            exists-update_where (is_muted other) (λ r. r.id == e.id)
              (λ r. record r { last_seen_at = at; updated_at = t.now }) t.evidence (λ r. refl);
      },
    )

exists_updated {ℓ} :
    {A : Type ℓ} (r p q : A → Bool) (f : A → A) (xs : List A) {x : A}
    → find? r xs ≡ some x
    → q x ≡ true
    → p (f x) ≡ true
    → exists p (update_where q f xs) ≡ true
exists_updated r p q f [] h a b = cc
exists_updated r p q f (y ∷ ys) {x} h a b = elim (Bool-cases (r y)) [
  | inl e ↦
      let same : y ≡ x = some_eq (rw e at h) in
      subst (λ z. (p (if q z then f z else z) || exists p (update_where q f ys)) ≡ true) (sym same)
        (rw (a, b) refl)
  | inr e ↦ ground (arith, exists_updated r p q f ys (rw e at h) a b)
]

-- The table's unique index: one row of the fact's identity is active at most.
abbrev pub IsOnlyActive : EvidenceFact → ℕ → List Evidence → Type 0
IsOnlyActive fact id es = All (λ r. same_identity fact r ≡ true → r.active ≡ true → r.id ≡ id) es

none_active :
    (fact : EvidenceFact) (id now actor_id : ℕ) (reason : String) (es : List Evidence)
    → IsOnlyActive fact id es
    → find?
        (λ e. same_identity fact e && e.active)
        (update_where (λ r. r.id == id) (invalidated_row now actor_id reason) es)
      ≡ none
unfolding invalidated_row same_identity
none_active fact id now actor_id reason [] only = refl
none_active fact id now actor_id reason (e ∷ es) only =
    ground (arith, only.0, none_active fact id now actor_id reason es only.1)

invalidate_evidence-evidence :
    (clock : ℕ) (t u : Tables) (incident_id evidence_id actor_id : ℕ) (reason : String)
    → invalidate_evidence clock t incident_id evidence_id actor_id reason ≡ ok u
    → (e : Evidence) × (find?
          (λ r. r.id == evidence_id && (r.incident_id == incident_id && r.active))
          t.evidence
        ≡ some e)
      × (u.evidence
          ≡ update_where
              (λ r. r.id == evidence_id)
              (invalidated_row t.now actor_id reason)
              t.evidence)
unfolding invalidate_evidence append_activity
invalidate_evidence-evidence clock t u incident_id evidence_id actor_id reason h =
    elim (Option-cases
      (find? (λ r. r.id == evidence_id && (r.incident_id == incident_id && r.active)) t.evidence)) [
        | inl n ↦ cc (rw (n, invalidate_evidence) at h)
        | inr (e, n) ↦
            let (v, impact, h1) =
              >>=-eq-ok
                (recompute_impact
                  (append_activity
                    (update_evidence (λ r. r.id == evidence_id)
                      (invalidated_row t.now actor_id reason) t)
                    incident_id e.impact_id evidence_id ActivityKind.invalidated user actor_id
                    e.name)
                  e.impact_id clock)
                (λ v. recompute_incident v incident_id clock) (rw (n, invalidate_evidence) at h) in
            let (i, _, _, settled) = recompute_incident-ok v u incident_id clock h1 in
            (
              e,
              n,
              subst (λ w. w.evidence ≡ v.evidence) settled
                    (settle_incident-SameFacts v i clock).evidence_same
                  ∙ recompute_impact-evidence _ v e.impact_id clock impact,
            )
      ]

invalidated-is_muted :
    (fact : EvidenceFact) (now actor_id : ℕ) (reason : String) (e : Evidence)
    → same_identity fact e ≡ true
    → e.rearmed_at ≡ none
    → is_muted fact (invalidated_row now actor_id reason e) ≡ true
unfolding is_muted invalidated_row same_identity
invalidated-is_muted fact now actor_id reason e same fresh = ground (arith, same, fresh)

-- Once a user has invalidated the only active evidence of an identity, a row that was not rearmed,
-- the next fact of that identity, if complete, is accepted with any time of observation and opens
-- nothing; the same facts are muted after it as before.
pub invalidate_evidence-OpensNothing :
    (clock : ℕ) (t u : Tables) (incident_id evidence_id actor_id : ℕ) (reason : String)
    (fact : EvidenceFact) (at : ℕ)
    → IsOnlyActive fact evidence_id t.evidence
    → All
        (λ r. r.id ≡ evidence_id → (same_identity fact r ≡ true) × (r.rearmed_at ≡ none))
        t.evidence
    → is_complete fact ≡ true
    → invalidate_evidence clock t incident_id evidence_id actor_id reason ≡ ok u
    → (a : Applied) × (apply_evidence_fact u fact at ≡ ok a) × OpensNothing u a
unfolding is_muted invalidated_row same_identity
invalidate_evidence-OpensNothing clock t u incident_id evidence_id actor_id reason fact at only row
      complete h =
    let (e, found, same) =
      invalidate_evidence-evidence clock t u incident_id evidence_id actor_id reason h in
    let found_id : (e.id == evidence_id) ≡ true = ground (arith, find?-fits _ t.evidence found) in
    let known = All-find? _ _ t.evidence row found ((==_iff e.id evidence_id).0 found_id) in
    apply_evidence_fact-OpensNothing u fact at complete
      (subst (λ es. find? (λ r. same_identity fact r && r.active) es ≡ none) (sym same)
        (none_active fact evidence_id t.now actor_id reason t.evidence only))
      (subst (λ es. exists (is_muted fact) es ≡ true) (sym same)
        (exists_updated _ (is_muted fact) (λ r. r.id == evidence_id)
          (invalidated_row t.now actor_id reason) t.evidence found found_id
          (invalidated-is_muted fact t.now actor_id reason e known.0 known.1)))
