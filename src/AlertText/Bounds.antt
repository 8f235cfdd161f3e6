-- ===== src/AlertText/Bounds.antt =====
-- What a normalised fact can hold, and when facts share a presentation.
use cairnops.Common.{◌≤◌, ◌≡◌, ◌≢◌, ◌↔◌, some, List, [], ◌∷◌, arith, true, false, length, All}
use cairnops.Common.Int.{ℤ, pos, ◌≤ℤ◌}
use cairnops.Common.Text.{Text, length-take_runes, length-snoc, unwords, fields, take_runes}
use cairnops.AlertText.{
  Kind, none_known, security_updates, same_kind, Fact, no_fact, bounded, versioned, normalize,
  common, all_of_kind,
}

pub same_kind→eq : (a b : Kind) → same_kind a b ≡ true → a ≡ b
unfolding same_kind
same_kind→eq a b h = ground arith

pub eq→same_kind : (a b : Kind) → a ≡ b → same_kind a b ≡ true
unfolding same_kind
eq→same_kind a b h = ground arith

length-bounded : (v : Text) → length (bounded v) ≤ 160
unfolding bounded
length-bounded v = ground (
  arith,
  length-take_runes 159 (unwords (fields v)),
  length-snoc (take_runes 159 (unwords (fields v))) 8230,
)

-- A normalised fact of any source holds texts of at most 160 runes, a count only for security
-- updates and never a negative one, versions only for software updates, and nothing at all where
-- its kind is not in the catalogue.
normalize_bounds :
    (f : Fact)
    → let g = normalize f in
      (g.kind ≡ f.kind)
      × (length g.resource ≤ 160)
      × (length g.current_version ≤ 160)
      × (length g.available_version ≤ 160)
      × ((n : ℤ) → g.count ≡ some n → (f.kind ≡ security_updates) × (pos 0 ≤ℤ n))
      × (versioned f.kind ≡ false → (g.current_version ≡ []) × (g.available_version ≡ []))
      × (f.kind ≡ none_known → g ≡ no_fact)
unfolding normalize
normalize_bounds f = ground (
  arith,
  same_kind→eq f.kind none_known,
  eq→same_kind f.kind none_known,
  same_kind→eq f.kind security_updates,
  length-bounded f.resource,
  length-bounded f.current_version,
  length-bounded f.available_version,
)

normalize-kind : (f : Fact) → (normalize f).kind ≡ f.kind
unfolding normalize
normalize-kind f = ground (arith, same_kind→eq f.kind none_known)

all_of_kind_iff : (k : Kind) (fs : List Fact) → (all_of_kind k fs ≡ true) ↔ All (λ f. f.kind ≡ k) fs
all_of_kind_iff k [] = ground arith
all_of_kind_iff k (f ∷ fs) = ground (
  arith,
  all_of_kind_iff k fs,
  normalize-kind f,
  same_kind→eq (normalize f).kind k,
  eq→same_kind (normalize f).kind k,
)

-- Facts share the title of a kind in the catalogue exactly when there is at least one fact and
-- every one of them is of that kind.
common-kind_iff :
    (f : Fact) (fs : List Fact) (k : Kind)
    → k ≢ none_known
    → ((common (f ∷ fs)).kind ≡ k) ↔ All (λ g. g.kind ≡ k) (f ∷ fs)
unfolding common
common-kind_iff f fs k h = ground (
  arith,
  all_of_kind_iff (normalize f).kind fs,
  normalize-kind f,
  same_kind→eq (normalize f).kind none_known,
)
