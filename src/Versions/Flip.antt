-- ===== src/Versions/Flip.antt =====
-- Comparing two versions the other way round.
use cairnops.Common.{
  ℕ, ◌≡◌, refl, ◌∙◌, sym, Bool, false, ◌&&◌, not, Option, none, some, List, [], ◌∷◌, ◌==◌, arith,
  Bool-cases, inl, inr,
}
use cairnops.Common.Text.{Text}
use cairnops.Versions.Parse.{Parsed, parse_uint, split}
use cairnops.Versions.Order.{
  Ordering, less, same, greater, order_numbers, then_by, compare_numbers, same_text, runes_ltb,
  differing, compare_identifier, compare_identifiers, compare_prerelease, compare_parsed,
}

abbrev pub flip : Ordering → Ordering
flip less = greater
flip same = same
flip greater = less

then_by-flip : (o p : Ordering) → then_by (flip o) (flip p) ≡ flip (then_by o p)
then_by-flip less p = refl
then_by-flip same p = refl
then_by-flip greater p = refl

order_numbers-flip : (l r : ℕ) → order_numbers r l ≡ flip (order_numbers l r)
unfolding order_numbers
order_numbers-flip l r = ground arith

then_by_flips : (o p q s : Ordering) → q ≡ flip o → s ≡ flip p → then_by q s ≡ flip (then_by o p)
then_by_flips o p q s e f = rw (e, f) (then_by-flip o p)

pub compare_numbers-flip : (l r : List ℕ) → compare_numbers r l ≡ flip (compare_numbers l r)
unfolding compare_numbers
compare_numbers-flip [] [] = refl
compare_numbers-flip (l ∷ ls) [] =
    then_by_flips _ _ _ _ (order_numbers-flip l 0) (compare_numbers-flip ls [])
compare_numbers-flip [] (r ∷ rs) =
    then_by_flips _ _ _ _ (order_numbers-flip 0 r) (compare_numbers-flip [] rs)
compare_numbers-flip (l ∷ ls) (r ∷ rs) =
    then_by_flips _ _ _ _ (order_numbers-flip l r) (compare_numbers-flip ls rs)

-- Two identifiers with one value that are written in two ways, as 1 and 01 are.
abbrev pub same_value : Option ℕ → Option ℕ → Bool
same_value (some l) (some r) = l == r
same_value (some l) none = false
same_value none o = false

abbrev pub clashes : Text → Text → Bool
clashes a b = not (same_text a b) && same_value (parse_uint a) (parse_uint b)

-- No two identifiers at one place clash.
abbrev pub AreCanonical : List Text → List Text → Type 0
AreCanonical [] rs = Unit
AreCanonical (l ∷ ls) [] = Unit
AreCanonical (l ∷ ls) (r ∷ rs) = (clashes l r ≡ false) × AreCanonical ls rs

same_text_sym : (a b : Text) → same_text a b ≡ same_text b a
unfolding same_text
same_text_sym [] [] = refl
same_text_sym [] (d ∷ t) = refl
same_text_sym (c ∷ s) [] = refl
same_text_sym (c ∷ s) (d ∷ t) = ground (arith, same_text_sym s t)

runes_ltb_total : (a b : Text) → same_text a b ≡ false → runes_ltb b a ≡ not (runes_ltb a b)
unfolding runes_ltb same_text
runes_ltb_total [] [] h = cc
runes_ltb_total [] (d ∷ t) h = refl
runes_ltb_total (c ∷ s) [] h = refl
runes_ltb_total (c ∷ s) (d ∷ t) h = ground (arith, runes_ltb_total s t)

differing-flip :
    (m n : Option ℕ) (a b : Text)
    → same_text a b ≡ false
    → same_value m n ≡ false
    → differing n m b a ≡ flip (differing m n a b)
unfolding differing
differing-flip (some l) (some r) a b h k = ground arith
differing-flip (some l) none a b h k = refl
differing-flip none (some r) a b h k = refl
differing-flip none none a b h k = ground (arith, runes_ltb_total a b h)

compare_identifier-flip :
    (a b : Text) → clashes a b ≡ false → compare_identifier b a ≡ flip (compare_identifier a b)
unfolding compare_identifier
compare_identifier-flip a b h = elim (Bool-cases (same_text a b)) [
  | inl e ↦ rw (e, sym (same_text_sym a b) ∙ e)
  | inr e ↦
      rw (e, sym (same_text_sym a b) ∙ e)
        (differing-flip (parse_uint a) (parse_uint b) a b e (rw e at h))
]

compare_identifiers-flip :
    (ls rs : List Text)
    → AreCanonical ls rs
    → compare_identifiers rs ls ≡ flip (compare_identifiers ls rs)
unfolding compare_identifiers
compare_identifiers-flip [] [] h = refl
compare_identifiers-flip [] (r ∷ rs) h = refl
compare_identifiers-flip (l ∷ ls) [] h = refl
compare_identifiers-flip (l ∷ ls) (r ∷ rs) h =
    then_by_flips _ _ _ _ (compare_identifier-flip l r h.0) (compare_identifiers-flip ls rs h.1)

compare_prerelease-flip :
    (a b : Text)
    → AreCanonical (split 46 a) (split 46 b)
    → compare_prerelease b a ≡ flip (compare_prerelease a b)
unfolding compare_prerelease
compare_prerelease-flip [] [] h = refl
compare_prerelease-flip [] (d ∷ t) h = refl
compare_prerelease-flip (c ∷ s) [] h = refl
compare_prerelease-flip (c ∷ s) (d ∷ t) h = elim (Bool-cases (same_text (c ∷ s) (d ∷ t))) [
  | inl e ↦ rw (e, sym (same_text_sym (c ∷ s) (d ∷ t)) ∙ e)
  | inr e ↦
      rw (e, sym (same_text_sym (c ∷ s) (d ∷ t)) ∙ e)
        (compare_identifiers-flip (split 46 (c ∷ s)) (split 46 (d ∷ t)) h)
]

-- Where no two identifiers at one place of the prereleases have the same value and different texts,
-- comparing two versions the other way round gives the opposite order.
pub compare_parsed-flip :
    (a b : Parsed)
    → AreCanonical (split 46 a.prerelease) (split 46 b.prerelease)
    → compare_parsed b a ≡ flip (compare_parsed a b)
unfolding compare_parsed
compare_parsed-flip a b h =
    then_by_flips _ _ _ _ (compare_numbers-flip a.numbers b.numbers)
      (compare_prerelease-flip a.prerelease b.prerelease h)
