-- ===== src/Incidents/Snapshot/Seen.antt =====
-- The identities that the loop of `ApplyEvidenceSnapshot` has seen: those of the snapshot's facts.
use cairnops.Common.{
  ℕ, ◌≡◌, refl, ap, subst, ◌∙◌, Bool, true, ◌||◌, List, [], ◌∷◌, ◌++◌, String, map, arith, exists,
  str_eq, eq_iff, Bool-cases, inl, inr,
}
use cairnops.Common.Result.{Result, ok, >>=-eq-ok}
use cairnops.Incidents.Schema.{EvidenceFact, EvidenceSnapshot}
use cairnops.Incidents.Apply.{Applied, apply_evidence_fact}
use cairnops.Incidents.Snapshot.{
  Touched, fact_identity, is_seen, stamp, insert_fact, sort_facts, note_applied, apply_facts,
}

-- A fact of the list has the identity.
abbrev pub mentions : List EvidenceFact → String → Bool
mentions fs key = exists (λ f. str_eq (fact_identity f) key) fs

exists_snoc {ℓ} :
    {A : Type ℓ} (p : A → Bool) (xs : List A) (y : A)
    → exists p (xs ++ (y ∷ [])) ≡ (exists p xs || p y)
exists_snoc p [] y = ground arith
exists_snoc p (x ∷ xs) y = ground (arith, exists_snoc p xs y)

note_applied-seen :
    (g : Touched) (key : String) (a : Applied)
    → (note_applied g key a).seen ≡ (g.seen ++ (key ∷ []))
unfolding note_applied
note_applied-seen g key a = ground arith

is_seen_again :
    (seen : List String) (a b : String)
    → is_seen seen a ≡ true
    → str_eq a b ≡ true
    → is_seen seen b ≡ true
is_seen_again seen a b h e = subst (λ k. is_seen seen k ≡ true) ((eq_iff a b).0 e) h

insert_fact-mentions :
    (f : EvidenceFact) (fs : List EvidenceFact) (k : String)
    → mentions (insert_fact f fs) k ≡ mentions (f ∷ fs) k
unfolding insert_fact
insert_fact-mentions f [] k = refl
insert_fact-mentions f (g ∷ gs) k = ground (arith, insert_fact-mentions f gs k)

pub sort_facts-mentions :
    (fs : List EvidenceFact) (k : String) → mentions (sort_facts fs) k ≡ mentions fs k
unfolding sort_facts
sort_facts-mentions [] k = refl
sort_facts-mentions (f ∷ fs) k =
    insert_fact-mentions f (sort_facts fs) k
    ∙ ap (λ b. str_eq (fact_identity f) k || b) (sort_facts-mentions fs k)

pub stamp-mentions :
    (s : EvidenceSnapshot) (at : ℕ) (fs : List EvidenceFact) (k : String)
    → mentions (map (stamp s at) fs) k ≡ mentions fs k
stamp-mentions s at [] k = refl
stamp-mentions s at (f ∷ fs) k =
    ap (λ b. str_eq (fact_identity f) k || b) (stamp-mentions s at fs k)

pub apply_facts-seen :
    (g h : Touched) (fs : List EvidenceFact) (at : ℕ) (k : String)
    → apply_facts g fs at ≡ ok h
    → is_seen h.seen k ≡ (is_seen g.seen k || mentions fs k)
unfolding apply_facts
apply_facts-seen g h [] at k e = ground arith
apply_facts-seen g h (f ∷ fs) at k e = elim (Bool-cases (is_seen g.seen (fact_identity f))) [
  | inl d ↦
      apply_facts-seen g h fs at k (rw (d, apply_facts) at e)
      ∙ ground (arith, is_seen_again g.seen (fact_identity f) k d)
  | inr d ↦
      let (a, _, e') =
        >>=-eq-ok (apply_evidence_fact g.tables f at) (rest f fs) (rw (d, apply_facts) at e) in
      apply_facts-seen (note_applied g (fact_identity f) a) h fs at k e'
      ∙ rw (note_applied-seen g (fact_identity f) a)
          (rw (exists_snoc (λ j. str_eq j k) g.seen (fact_identity f)) (ground arith))
]
  where
    rest : (f : EvidenceFact) (fs : List EvidenceFact) → Applied → Result Touched
    rest f fs a = apply_facts (note_applied g (fact_identity f) a) fs at
