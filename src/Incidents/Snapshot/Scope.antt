-- ===== src/Incidents/Snapshot/Scope.antt =====
-- What a snapshot of internal/incidents/cycle.go resolves: the active evidence that it observed and did
-- not mention, and no other.
use cairnops.Common.{
  ℕ, ◌≡◌, refl, sym, ap, ◌∙◌, Bool, true, false, not, ◌&&◌, ◌||◌, some, List, [], ◌∷◌, String, ◌==◌,
  arith, exists, update_where, Bool-cases, inl, inr,
}
use cairnops.Incidents.Schema.{Origin, Evidence}
use cairnops.Incidents.Rows.{resolve_evidence_row, append_activity}
use cairnops.Incidents.Snapshot.{Touched, evidence_identity, is_seen, resolve_absent, resolve_one}

-- The row that `resolveEvidenceRow` writes.
unfoldable pub resolved_row : ℕ → ℕ → Evidence → Evidence
resolved_row now at r = record r {
  active = false;
  resolved_at = some at;
  last_seen_at = at;
  updated_at = now;
}

-- A row that one of the items names, and that the snapshot did not mention.
abbrev pub is_absent : List String → List Evidence → Evidence → Bool
is_absent seen es r = exists (λ e. e.id == r.id && not (is_seen seen (evidence_identity e))) es

-- Two updates of which the first leaves no row that the second takes, but those it left alone.
pub update_where_or {ℓ} :
    {A : Type ℓ} (p q : A → Bool) (f : A → A) (xs : List A)
    → ((x : A) → q (f x) ≡ false)
    → update_where q f (update_where p f xs) ≡ update_where (λ x. p x || q x) f xs
update_where_or p q f [] h = refl
update_where_or p q f (x ∷ xs) h = ground (arith, h x, update_where_or p q f xs h)

pub update_where_ext {ℓ} :
    {A : Type ℓ} (p q : A → Bool) (f : A → A) (xs : List A)
    → ((x : A) → p x ≡ q x)
    → update_where p f xs ≡ update_where q f xs
update_where_ext p q f [] h = refl
update_where_ext p q f (x ∷ xs) h = ground (arith, h x, update_where_ext p q f xs h)

pub update_where_none {ℓ} :
    {A : Type ℓ} (p : A → Bool) (f : A → A) (xs : List A)
    → ((x : A) → p x ≡ false)
    → update_where p f xs ≡ xs
update_where_none p f [] h = refl
update_where_none p f (x ∷ xs) h = ground (arith, h x, update_where_none p f xs h)

-- The loop is one update of the table.
pub resolve_absent-evidence :
    (g : Touched) (es : List Evidence) (origin : Origin) (at : ℕ)
    → (resolve_absent g es origin at).tables.evidence
      ≡ update_where
          (λ r. r.active && is_absent g.seen es r)
          (resolved_row g.tables.now at)
          g.tables.evidence
unfolding resolve_absent resolved_row resolve_evidence_row append_activity
resolve_absent-evidence g [] origin at = sym (
    update_where_none (λ r. r.active && is_absent g.seen [] r) (resolved_row g.tables.now at)
      g.tables.evidence (λ r. ground arith))
resolve_absent-evidence g (e ∷ es) origin at =
    elim (Bool-cases (is_seen g.seen (evidence_identity e))) [
      | inl h ↦
          ap (λ u. u.tables.evidence) (skipped h)
          ∙ resolve_absent-evidence g es origin at
          ∙ update_where_ext absent_es absent write g.tables.evidence (λ r. rw h (ground arith))
      | inr h ↦
          ap (λ u. u.tables.evidence) (resolved h)
          ∙ resolve_absent-evidence g' es origin at
          ∙ update_where_or here absent_es write g.tables.evidence (λ r. refl)
          ∙ update_where_ext (λ r. here r || absent_es r) absent write g.tables.evidence
              (λ r. rw h (ground arith))
    ]
  where
    write : Evidence → Evidence
    write = resolved_row g.tables.now at

    here : Evidence → Bool
    here r = r.id == e.id && r.active

    absent_es : Evidence → Bool
    absent_es r = r.active && is_absent g.seen es r

    absent : Evidence → Bool
    absent r = r.active && is_absent g.seen (e ∷ es) r

    g' : Touched
    g' = resolve_one g e origin at

    skipped :
        is_seen g.seen (evidence_identity e) ≡ true
        → resolve_absent g (e ∷ es) origin at ≡ resolve_absent g es origin at
    skipped h = rw (h, resolve_absent) refl

    resolved :
        is_seen g.seen (evidence_identity e) ≡ false
        → resolve_absent g (e ∷ es) origin at ≡ resolve_absent g' es origin at
    resolved h = rw (h, resolve_absent) refl
