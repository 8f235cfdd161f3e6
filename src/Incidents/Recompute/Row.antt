-- ===== src/Incidents/Recompute/Row.antt =====
-- `recomputeIncident` seen from the row that it writes: its statements amount to one update of the
-- row, and leave the impacts and the evidence alone.
use cairnops.Common.{
  ℕ, ◌≡◌, refl, ◌∙◌, some, List, ◌==◌, if◌then◌else◌, arith, update_where, update_where_twice,
  update_where-&&, Bool-cases, inl, inr, find?, find?-fits, ==_iff, Option-cases,
  find?-update_where,
}
use mathlib.Core.Option
use cairnops.AlertText.{Kind}
use cairnops.Incidents.Schema.{Incident, Evidence, Tables}
use cairnops.Incidents.Rows.{append_activity}
use cairnops.Incidents.Presentation.{shared_kind, set_kind, refresh_incident_presentation}
use cairnops.Incidents.Acknowledgement.{
  is_stale, set_acknowledgement, desired_status, desired_error, recompute_acknowledgement,
}
use cairnops.Incidents.Recompute.{
  Derived, derive_incident, changed, closed_at, resolved_at, write_derived, notes, settle_incident,
  recompute_incident,
}
use cairnops.Common.Result.{ok_eq, ok}

-- What `recomputeAcknowledgement` does to the row of its incident.
unfoldable pub acknowledged_row : ℕ → List Evidence → ℕ → Incident → Incident
acknowledged_row now es id i =
    if is_stale (desired_status id es) (desired_error id es) i
    then set_acknowledgement now (desired_status id es) (desired_error id es) i
    else i

pub recompute_acknowledgement-incidents :
    (t : Tables) (id : ℕ)
    → (recompute_acknowledgement t id).incidents
      ≡ update_where (λ i. i.id == id) (acknowledged_row t.now t.evidence id) t.incidents
unfolding recompute_acknowledgement acknowledged_row
recompute_acknowledgement-incidents t id =
    let status = desired_status id t.evidence in
    let error = desired_error id t.evidence in
    update_where-&& (λ i. i.id == id) (is_stale status error)
      (set_acknowledgement t.now status error) t.incidents

-- Two states of the tables that differ in the incidents' rows and the journal at most.
pub record SameFacts (t u : Tables) : Type 0 where
  pub now_same : u.now ≡ t.now
  pub next_id_same : u.next_id ≡ t.next_id
  pub targets_same : u.targets ≡ t.targets
  pub sources_same : u.sources ≡ t.sources
  pub connectors_same : u.connectors ≡ t.connectors
  pub impacts_same : u.impacts ≡ t.impacts
  pub evidence_same : u.evidence ≡ t.evidence

pub SameFacts-trans : {t u v : Tables} → SameFacts t u → SameFacts u v → SameFacts t v
SameFacts-trans a b = record {
  now_same = b.now_same ∙ a.now_same;
  next_id_same = b.next_id_same ∙ a.next_id_same;
  targets_same = b.targets_same ∙ a.targets_same;
  sources_same = b.sources_same ∙ a.sources_same;
  connectors_same = b.connectors_same ∙ a.connectors_same;
  impacts_same = b.impacts_same ∙ a.impacts_same;
  evidence_same = b.evidence_same ∙ a.evidence_same;
}

pub incidents-SameFacts :
    (t : Tables) (xs : List Incident) → SameFacts t (record t { incidents = xs })
incidents-SameFacts t xs = record {
  now_same = refl;
  next_id_same = refl;
  targets_same = refl;
  sources_same = refl;
  connectors_same = refl;
  impacts_same = refl;
  evidence_same = refl;
}

pub recompute_acknowledgement-SameFacts :
    (t : Tables) (id : ℕ) → SameFacts t (recompute_acknowledgement t id)
unfolding recompute_acknowledgement
recompute_acknowledgement-SameFacts t id = ground arith

notes-incidents : (i : Incident) (d : Derived) (t : Tables) → (notes i d t).incidents ≡ t.incidents
unfolding append_activity
notes-incidents i d t = ground arith

notes-SameFacts : (i : Incident) (d : Derived) (t : Tables) → SameFacts t (notes i d t)
unfolding append_activity
notes-SameFacts i d t = ground arith

-- What `recomputeIncident`, from the row i that it read, does to a row.
unfoldable pub settled_row : Tables → Incident → ℕ → Incident → Incident
settled_row t i observed_at r =
    let d = derive_incident t i observed_at in
    let r' = set_kind (shared_kind t.evidence i.id (d.active == 0)) r in
    acknowledged_row t.now t.evidence i.id (
      if changed i d
      then write_derived t.now d (closed_at i d observed_at) (resolved_at i d observed_at) r'
      else r')

-- The last step, after statements that amount to one update of the row.
then_acknowledgement :
    (t u : Tables) (id : ℕ) (g : Incident → Incident)
    → ((r : Incident) → (g r).id ≡ r.id)
    → SameFacts t u
    → u.incidents ≡ update_where (λ j. j.id == id) g t.incidents
    → (recompute_acknowledgement u id).incidents
      ≡ update_where (λ j. j.id == id) (λ r. acknowledged_row t.now t.evidence id (g r)) t.incidents
then_acknowledgement t u id g keeps same e =
    recompute_acknowledgement-incidents u id
    ∙ rw (same.now_same, same.evidence_same, e)
        (update_where_twice (λ j. j.id == id) g (acknowledged_row t.now t.evidence id) t.incidents
          (λ r. rw (keeps r)))

pub settle_incident-incidents :
    (t : Tables) (i : Incident) (observed_at : ℕ)
    → (settle_incident t i observed_at).incidents
      ≡ update_where (λ j. j.id == i.id) (settled_row t i observed_at) t.incidents
unfolding settle_incident settled_row refresh_incident_presentation write_derived
settle_incident-incidents t i observed_at = elim (Bool-cases (changed i d)) [
  | inl e ↦
      rw (e, settled_row)
        (then_acknowledgement t _ i.id (λ r. write (set_kind kind r)) (λ r. refl)
          (SameFacts-trans (incidents-SameFacts t _) (notes-SameFacts i d _))
          (notes-incidents i d _
            ∙ update_where_twice (λ j. j.id == i.id) (set_kind kind) write t.incidents (λ r. refl)))
  | inr e ↦
      rw (e, settled_row)
        (then_acknowledgement t _ i.id (set_kind kind) (λ r. refl) (incidents-SameFacts t _) refl)
]
  where
    d : Derived
    d = derive_incident t i observed_at

    kind : Kind
    kind = shared_kind t.evidence i.id (d.active == 0)

    write : Incident → Incident
    write = write_derived t.now d (closed_at i d observed_at) (resolved_at i d observed_at)

pub settle_incident-SameFacts :
    (t : Tables) (i : Incident) (observed_at : ℕ) → SameFacts t (settle_incident t i observed_at)
unfolding settle_incident refresh_incident_presentation
settle_incident-SameFacts t i observed_at = elim (Bool-cases (changed i d)) [
  | inl e ↦ rw e (
      SameFacts-trans (SameFacts-trans (incidents-SameFacts t _) (notes-SameFacts i d _))
        (recompute_acknowledgement-SameFacts _ i.id))
  | inr e ↦
      rw e (SameFacts-trans (incidents-SameFacts t _) (recompute_acknowledgement-SameFacts _ i.id))
]
  where
    d : Derived
    d = derive_incident t i observed_at

-- A recomputation that succeeds read the row of its incident, and settled it.
pub recompute_incident-ok :
    (t u : Tables) (id at : ℕ)
    → recompute_incident t id at ≡ ok u
    → (i : Incident) × (find? (λ j. j.id == id) t.incidents ≡ some i)
      × (i.id ≡ id)
      × (settle_incident t i at ≡ u)
unfolding recompute_incident
recompute_incident-ok t u id at h = elim (Option-cases (find? (λ j. j.id == id) t.incidents)) [
  | inl e ↦ cc (rw (e, recompute_incident) at h)
  | inr (i, e) ↦ (
    i,
    e,
    (==_iff i.id id).0 (find?-fits (λ j. j.id == id) t.incidents e),
    ok_eq (rw (e, recompute_incident) at h),
  )
]

pub settled_row-id :
    (t : Tables) (i : Incident) (at : ℕ) (r : Incident) → (settled_row t i at r).id ≡ r.id
unfolding settled_row acknowledged_row write_derived
settled_row-id t i at r = ground arith

-- A lookup after a recomputation: the row that was read is settled, every other row is as it was.
pub settle_incident-find? :
    (t : Tables) (i : Incident) (at k : ℕ)
    → find? (λ j. j.id == k) (settle_incident t i at).incidents
      ≡ Option.map
          (λ x. if x.id == i.id then settled_row t i at x else x)
          (find? (λ j. j.id == k) t.incidents)
settle_incident-find? t i at k = rw (settle_incident-incidents t i at) (
    find?-update_where (λ j. j.id == k) (λ j. j.id == i.id) (settled_row t i at) t.incidents
      (λ r. rw (settled_row-id t i at r)))

pub settled_row-ends_at :
    (t : Tables) (i : Incident) (at : ℕ) (r : Incident)
    → (settled_row t i at r).propagation_ends_at ≡ r.propagation_ends_at
unfolding settled_row acknowledged_row write_derived
settled_row-ends_at t i at r = ground arith
