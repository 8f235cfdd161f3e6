-- ===== src/Incidents/Owned/Released.antt =====
-- What an owner leaves: after its removal none of its evidence is active.
use cairnops.Common.{
  ℕ, ◌≡◌, refl, sym, subst, ◌∙◌, Bool, true, false, ◌&&◌, ◌||◌, List, [], ◌∷◌, String, ◌==◌, arith,
  All, All-mono, All-update_where_to, select, exists, update_where, ==_refl,
}
use cairnops.Common.Result.{ok, >>=-eq-ok}
use cairnops.Incidents.Schema.{Evidence, Tables, ActivityKind, by_cairnops}
use cairnops.Incidents.Rows.{append_activity, resolve_evidence_row}
use cairnops.Incidents.Snapshot.{recompute_impacts}
use cairnops.Incidents.Snapshot.Scope.{
  resolved_row, update_where_or, update_where_ext, update_where_none,
}
use cairnops.Incidents.Snapshot.Accounted.{recompute_impacts-evidence, recompute_incidents-evidence}
use cairnops.Incidents.Recompute.{recompute_incidents}
use cairnops.Incidents.Owned.{resolve_each, ids_of, resolve_for_archived_target}

-- The loop is one update of the table.
resolve_each-evidence :
    (t : Tables) (es : List Evidence) (now : ℕ) (message : String)
    → (resolve_each t es now message).evidence
      ≡ update_where
          (λ r. r.active && exists (λ e. e.id == r.id) es)
          (resolved_row t.now now)
          t.evidence
unfolding resolve_each resolved_row resolve_evidence_row append_activity
resolve_each-evidence t [] now message = sym (
    update_where_none (λ r. r.active && false) (resolved_row t.now now) t.evidence
      (λ r. ground arith))
resolve_each-evidence t (e ∷ es) now message =
    resolve_each-evidence
      (append_activity (resolve_evidence_row t e.id e.incident_id e.impact_id e.name e.origin now)
        e.incident_id e.impact_id e.id ActivityKind.evidence_updated by_cairnops 0 message)
      es now message
    ∙ update_where_or here later (resolved_row t.now now) t.evidence (λ r. refl)
    ∙ update_where_ext (λ r. here r || later r)
        (λ r. r.active && exists (λ k. k.id == r.id) (e ∷ es)) (resolved_row t.now now) t.evidence
        (λ r. ground arith)
  where
    here : Evidence → Bool
    here r = r.id == e.id && r.active

    later : Evidence → Bool
    later r = r.active && exists (λ k. k.id == r.id) es

select-exists :
    (p : Evidence → Bool) (es : List Evidence)
    → All (λ r. p r ≡ true → exists (λ e. e.id == r.id) (select p es) ≡ true) es
select-exists p [] = tt
select-exists p (e ∷ es) = (
  λ h. rw h (rw (==_refl e.id) refl),
  All-mono _ (λ r. p r ≡ true → exists (λ k. k.id == r.id) (select p (e ∷ es)) ≡ true) es
      (λ r h k. ground (arith, h k)) (select-exists p es),
)

-- Once a target is archived, none of its evidence is active.
pub resolve_for_archived_target-releases :
    (t u : Tables) (target_id now : ℕ)
    → resolve_for_archived_target t target_id now ≡ ok u
    → All (λ e. e.target_id ≡ target_id → e.active ≡ false) u.evidence
unfolding resolve_for_archived_target resolved_row
resolve_for_archived_target-releases t u target_id now h =
    let (v, impacts, h1) =
      >>=-eq-ok (recompute_impacts t' (ids_of (λ e. e.impact_id) [] items) now)
        (λ v. recompute_incidents v (ids_of (λ e. e.incident_id) [] items) now) h in
    subst (All (λ e. e.target_id ≡ target_id → e.active ≡ false))
      (sym (
        recompute_incidents-evidence v u _ now h1
        ∙ recompute_impacts-evidence t' v _ now impacts
        ∙ resolve_each-evidence t items now "Cible archivée"))
      (All-update_where_to _ _ (λ r. r.active && exists (λ e. e.id == r.id) items)
        (resolved_row t.now now) t.evidence (λ r _ _ _. refl) keeps
        (select-exists (λ e. e.target_id == target_id && e.active) t.evidence))
  where
    items : List Evidence
    items = select (λ e. e.target_id == target_id && e.active) t.evidence

    t' : Tables
    t' = resolve_each t items now "Cible archivée"

    keeps :
        (r : Evidence)
        → ((r.target_id == target_id && r.active) ≡ true → exists (λ e. e.id == r.id) items ≡ true)
        → (r.active && exists (λ e. e.id == r.id) items) ≡ false
        → r.target_id ≡ target_id
        → r.active ≡ false
    keeps r k e same = ground (arith, k, e, same)
