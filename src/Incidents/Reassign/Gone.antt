-- ===== src/Incidents/Reassign/Gone.antt =====
-- Where the evidence of a source that ReassignSource moves stands afterwards.
use cairnops.Common.{
  ℕ, ◌≡◌, refl, sym, subst, ◌∙◌, Bool, true, false, not, ◌&&◌, ◌||◌, Option, List, [], ◌∷◌, ◌==◌,
  arith, Bool-cases, Option-cases, inl, inr, All, All-mono, All-both, All-update_where_to, select,
  exists, find?, map, count_where, length, ==_refl, ==_iff,
}
use cairnops.Common.Result.{ok, ok_eq, >>=-eq-ok}
use cairnops.Incidents.Schema.{Impact, Evidence, Tables}
use cairnops.Incidents.Snapshot.Accounted.{recompute_impact-evidence}
use cairnops.Incidents.Merge.{revise_each}
use cairnops.Incidents.Merge.Moved.{revise_each-rows, or_true}
use cairnops.Incidents.Reassign.{
  Group, is_reassigned, group_of, groups_from, is_in, split_impact, insert_split, destination_of,
  move_evidence, settle_original, reassign_one, reassign_each, group_incidents, reassign_source,
}

-- The evidence with r's impact among moves holds r.
abbrev inside : List Evidence → Evidence → Bool
inside moves r = is_in (group_of r moves).evidence_ids r.id

abbrev covers : List Group → ℕ → Bool
covers gs id = exists (λ (g : Group). is_in g.evidence_ids id) gs

inside-all : (moves : List Evidence) → All (λ r. inside moves r ≡ true) moves
unfolding group_of
inside-all [] = tt
inside-all (e ∷ es) = (
  rw (==_refl e.impact_id) (rw (==_refl e.id) refl),
  All-mono (λ r. inside es r ≡ true) (λ r. inside (e ∷ es) r ≡ true) es (λ r h. ground (arith, h))
      (inside-all es),
)

same_group :
    (moves : List Evidence) (e r : Evidence)
    → (e.impact_id == r.impact_id) ≡ true
    → inside moves r ≡ true
    → is_in (group_of e moves).evidence_ids r.id ≡ true
unfolding group_of
same_group moves e r h i =
    subst (λ k. is_in (map (λ m. m.id) (select (λ m. m.impact_id == k) moves)) r.id ≡ true)
      (sym ((==_iff e.impact_id r.impact_id).0 h)) i

known :
    (seen : List ℕ) (moves : List Evidence) (e : Evidence) (es : List Evidence)
    → is_in seen e.impact_id ≡ true
    → groups_from seen moves (e ∷ es) ≡ groups_from seen moves es
unfolding groups_from
known seen moves e es h = rw h refl

begun :
    (seen : List ℕ) (moves : List Evidence) (e : Evidence) (es : List Evidence)
    → is_in seen e.impact_id ≡ false
    → groups_from seen moves (e ∷ es) ≡ group_of e moves ∷ groups_from (e.impact_id ∷ seen) moves es
unfolding groups_from
begun seen moves e es h = rw h refl

abbrev Covers : List ℕ → List Evidence → List Group → Type 0
Covers seen es gs = All (λ r. (is_in seen r.impact_id || covers gs r.id) ≡ true) es

covered :
    (moves : List Evidence) (e r : Evidence) (seen : List ℕ) (rest : Bool)
    → inside moves r ≡ true
    → (is_in (e.impact_id ∷ seen) r.impact_id || rest) ≡ true
    → (is_in seen r.impact_id || (is_in (group_of e moves).evidence_ids r.id || rest)) ≡ true
covered moves e r seen rest i h = elim (Bool-cases (e.impact_id == r.impact_id)) [
  | inl same ↦ rw (same_group moves e r same i) (or_true (is_in seen r.impact_id))
  | inr other ↦ ground (arith, h, other)
]

groups_from-cover :
    (seen : List ℕ) (moves es : List Evidence)
    → All (λ r. inside moves r ≡ true) es
    → All (λ r. (is_in seen r.impact_id || covers (groups_from seen moves es) r.id) ≡ true) es
unfolding groups_from
groups_from-cover seen moves [] a = tt
groups_from-cover seen moves (e ∷ es) a =
    let again = groups_from-cover seen moves es a.1 in
    let rest = groups_from-cover (e.impact_id ∷ seen) moves es a.1 in
    elim (Bool-cases (is_in seen e.impact_id)) [
      | inl h ↦ subst (Covers seen (e ∷ es)) (sym (known seen moves e es h)) (rw h refl, again)
      | inr h ↦ subst (Covers seen (e ∷ es)) (sym (begun seen moves e es h)) (
        rw (h, a.0) refl,
        All-mono
            (λ r.
              (inside moves r ≡ true)
              × ((is_in (e.impact_id ∷ seen) r.impact_id
                    || covers (groups_from (e.impact_id ∷ seen) moves es) r.id)
                  ≡ true))
            (λ r.
              (is_in seen r.impact_id
                || (is_in (group_of e moves).evidence_ids r.id
                    || covers (groups_from (e.impact_id ∷ seen) moves es) r.id))
              ≡ true)
            es (λ r k. covered moves e r seen _ k.0 k.1)
            (All-both (λ r. inside moves r ≡ true)
              (λ r.
                (is_in (e.impact_id ∷ seen) r.impact_id
                  || covers (groups_from (e.impact_id ∷ seen) moves es) r.id)
                ≡ true)
              es a.1 rest),
      )
    ]

-- A row that moves is on its new target, or its group is still to come in the loop.
abbrev pub waits : ℕ → Option ℕ → ℕ → List Group → Evidence → Bool
waits source_id binding_id destination_id gs e =
    not (is_reassigned source_id binding_id e) || (e.target_id == destination_id || covers gs e.id)

module _ (t : Tables) (destination_id : ℕ) (g : Group) where
  destination_of-evidence :
      {d : Tables × ℕ} → destination_of t destination_id g ≡ ok d → d.0.evidence ≡ t.evidence
  unfolding destination_of insert_split
  destination_of-evidence {d = d} h =
      elim (Option-cases (
        find? (λ (i : Impact). i.incident_id == g.incident_id && i.target_id == destination_id)
          t.impacts)) [
            | inr (i, e) ↦ subst Same (ok_eq (rw (e, destination_of) at h)) refl
            | inl e ↦
                elim (Bool-cases (
                  count_where (λ (r : Evidence). r.impact_id == g.impact_id) t.evidence
                  == length g.evidence_ids)) [
                    | inl f ↦ subst Same (ok_eq (rw (e, f, destination_of) at h)) refl
                    | inr f ↦
                        let (i, made, same) =
                          >>=-eq-ok
                            (split_impact t g.incident_id destination_id
                              (select (λ r. is_in g.evidence_ids r.id) t.evidence))
                            _ (rw (e, f, destination_of) at h) in
                        subst Same (ok_eq same) refl
                  ]
          ]
    where
      Same : Tables × ℕ → Type 0
      Same p = p.0.evidence ≡ t.evidence

settle_original-evidence :
    (t u : Tables) (original destination now : ℕ)
    → settle_original t original destination now ≡ ok u
    → u.evidence ≡ t.evidence
unfolding settle_original
settle_original-evidence t u original destination now h =
    elim (Bool-cases (destination == original)) [
      | inl e ↦
          subst (λ (v : Tables). v.evidence ≡ t.evidence) (ok_eq (rw (e, settle_original) at h))
            refl
      | inr e ↦
          elim (Bool-cases
            (count_where (λ (r : Evidence). r.impact_id == original) t.evidence == 0)) [
              | inl f ↦
                  subst (λ (v : Tables). v.evidence ≡ t.evidence)
                    (ok_eq (rw (e, f, settle_original) at h)) refl
              | inr f ↦ recompute_impact-evidence t u original now (rw (e, f, settle_original) at h)
            ]
    ]

module _ (source_id : ℕ) (binding_id : Option ℕ) (destination_id : ℕ) where
  abbrev Wait : List Group → List Evidence → Type 0
  Wait gs rows = All (λ e. waits source_id binding_id destination_id gs e ≡ true) rows

  move_evidence-Wait :
      (t : Tables) (impact_id : ℕ) (g : Group) (gs : List Group)
      → Wait (g ∷ gs) t.evidence
      → Wait gs (move_evidence impact_id destination_id g t).evidence
  unfolding move_evidence is_reassigned
  move_evidence-Wait t impact_id g gs w =
      All-update_where_to (λ e. waits source_id binding_id destination_id (g ∷ gs) e ≡ true)
        (λ e. waits source_id binding_id destination_id gs e ≡ true)
        (λ e. is_in g.evidence_ids e.id) _ t.evidence
        (λ e h k. rw (==_refl destination_id) (or_true _)) (λ e h k. rw k at h) w

  reassign_one-Wait :
      (t u : Tables) (g : Group) (gs : List Group) (now : ℕ)
      → reassign_one t destination_id g now ≡ ok u
      → Wait (g ∷ gs) t.evidence
      → Wait gs u.evidence
  unfolding reassign_one
  reassign_one-Wait t u g gs now h w =
      let (d, chosen, after) = >>=-eq-ok (destination_of t destination_id g) _ h in
      let (v, settled, last) =
        >>=-eq-ok (settle_original (move_evidence d.1 destination_id g d.0) g.impact_id d.1 now) _
          after in
      subst (Wait gs)
        (sym (
          recompute_impact-evidence v u d.1 now last
          ∙ settle_original-evidence (move_evidence d.1 destination_id g d.0) v g.impact_id d.1 now
              settled))
        (move_evidence-Wait d.0 d.1 g gs
          (subst (Wait (g ∷ gs)) (sym (destination_of-evidence t destination_id g chosen)) w))

  reassign_each-Wait :
      (gs : List Group) (t u : Tables) (now : ℕ)
      → reassign_each t destination_id gs now ≡ ok u
      → Wait gs t.evidence
      → Wait [] u.evidence
  unfolding reassign_each
  reassign_each-Wait [] t u now h w = subst (λ (v : Tables). Wait [] v.evidence) (ok_eq h) w
  reassign_each-Wait (g ∷ gs) t u now h w =
      let (t', first, rest) = >>=-eq-ok (reassign_one t destination_id g now) _ h in
      reassign_each-Wait gs t' u now rest (reassign_one-Wait t t' g gs now first w)

  selected-Wait :
      (gs : List Group) (rows : List Evidence)
      → All (λ e. covers gs e.id ≡ true) (select (is_reassigned source_id binding_id) rows)
      → Wait gs rows
  selected-Wait gs [] a = tt
  selected-Wait gs (e ∷ rows) a = elim (Bool-cases (is_reassigned source_id binding_id e)) [
    | inl h ↦
        let b = rw h at a in
        (rw (h, b.0) (or_true (e.target_id == destination_id)), selected-Wait gs rows b.1)
    | inr h ↦ (rw h refl, selected-Wait gs rows (rw h at a))
  ]

  -- ReassignSource leaves every piece of evidence of the source, and of the binding where there is one,
  -- on the target that it was given.
  pub reassign_source-moves :
      (t u : Tables) (now incidents : ℕ)
      → reassign_source t destination_id source_id binding_id now ≡ ok (u, incidents)
      → All
          (λ e.
            (not (is_reassigned source_id binding_id e) || e.target_id == destination_id) ≡ true)
          u.evidence
  unfolding reassign_source
  reassign_source-moves t u now incidents h =
      let (v, moved, after) = >>=-eq-ok (reassign_each t destination_id groups now) _ h in
      let (w, revised, same) =
        >>=-eq-ok (revise_each v (group_incidents [] groups) _ _ now) _ after in
      subst (λ (p : Tables × ℕ). All Moved p.0.evidence) (ok_eq same)
        (subst (All Moved) (sym (revise_each-rows _ v _ _ now revised).1) (
          All-mono (λ e. waits source_id binding_id destination_id [] e ≡ true) Moved v.evidence
            (λ e k. arrived e k)
            (reassign_each-Wait groups t v now moved (
              selected-Wait groups t.evidence
                (groups_from-cover [] moves moves (inside-all moves))))))
    where
      moves : List Evidence
      moves = select (is_reassigned source_id binding_id) t.evidence

      groups : List Group
      groups = groups_from [] moves moves

      Moved : Evidence → Type 0
      Moved e = (not (is_reassigned source_id binding_id e) || e.target_id == destination_id) ≡ true

      arrived : (e : Evidence) → waits source_id binding_id destination_id [] e ≡ true → Moved e
      arrived e k = ground (arith, k)
