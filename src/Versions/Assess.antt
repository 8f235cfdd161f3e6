-- ===== src/Versions/Assess.antt =====
-- When Assess finds an update to apply, and what it finds the other way round.
use cairnops.Common.{
  ℕ, ◌≡◌, ◌↔◌, refl, ap, ◌∙◌, sym, subst, String, str_eq, eq_iff, Bool, true, false, ◌&&◌, not,
  Option, none, some, List, [], ◌∷◌, if◌then◌else◌, arith, Bool-cases, Option-cases, inl, inr,
  some_eq,
}
use cairnops.Common.Text.{Text, trim_space}
use cairnops.Versions.Parse.{Parsed, parse, split}
use cairnops.Versions.Order.{
  Ordering, less, same, greater, order_numbers, compare_numbers, same_text, compare_prerelease,
  compare_parsed,
}
use cairnops.Versions.Flip.{flip, compare_parsed-flip, AreCanonical}
use cairnops.Versions.{
  Situation, update, prerelease, current, target_older, unordered, compare, actionable,
  is_prerelease, assess, assess_trimmed,
}

order_numbers_refl : (n : ℕ) → order_numbers n n ≡ same
unfolding order_numbers
order_numbers_refl n = ground arith

compare_numbers_refl : (l : List ℕ) → compare_numbers l l ≡ same
unfolding compare_numbers
compare_numbers_refl [] = refl
compare_numbers_refl (x ∷ xs) = rw (order_numbers_refl x) (compare_numbers_refl xs)

same_text_refl : (s : Text) → same_text s s ≡ true
unfolding same_text
same_text_refl [] = refl
same_text_refl (c ∷ s) = ground (arith, same_text_refl s)

compare_prerelease_refl : (s : Text) → compare_prerelease s s ≡ same
unfolding compare_prerelease
compare_prerelease_refl [] = refl
compare_prerelease_refl (c ∷ s) = rw (same_text_refl (c ∷ s))

compare_parsed_refl : (a : Parsed) → compare_parsed a a ≡ same
unfolding compare_parsed
compare_parsed_refl a = rw (compare_numbers_refl a.numbers) (compare_prerelease_refl a.prerelease)

pub compare-some :
    (i t : String) (a b : Parsed)
    → parse i ≡ some a
    → parse t ≡ some b
    → compare i t ≡ some (compare_parsed a b)
unfolding compare
compare-some i t a b e f = rw (compare, e, f)

compare-none : (s : String) → parse s ≡ none → compare s s ≡ none
unfolding compare
compare-none s e = rw (compare, e)

compare_refl : (s : String) (o : Ordering) → compare s s ≡ some o → o ≡ same
compare_refl s o h = elim (Option-cases (parse s)) [
  | inl e ↦ cc (sym (compare-none s e) ∙ h)
  | inr (a, e) ↦ some_eq (sym h ∙ (compare-some s s a a e e ∙ ap some (compare_parsed_refl a)))
]

compare_equal : (i t : String) (o : Ordering) → str_eq i t ≡ true → compare i t ≡ some o → o ≡ same
compare_equal i t o e h =
    compare_refl i o (subst (λ x. compare i x ≡ some o) (sym ((eq_iff i t).0 e)) h)

-- What Assess answers where the texts differ, for each result of Compare.
abbrev pub situation_of : Bool → Option Ordering → Situation
situation_of staged none = unordered
situation_of staged (some same) = current
situation_of staged (some greater) = target_older
situation_of staged (some less) = if staged then prerelease else update

pub assess_trimmed-situation :
    (i t : String)
    → str_eq i t ≡ false
    → (assess_trimmed i t).situation
      ≡ situation_of (is_prerelease t && not (is_prerelease i)) (compare i t)
unfolding assess_trimmed
assess_trimmed-situation i t h = elim (Option-cases (compare i t)) [
  | inl e ↦ rw (assess_trimmed, h, e)
  | inr (less, e) ↦ rw (assess_trimmed, h, e)
  | inr (same, e) ↦ rw (assess_trimmed, h, e)
  | inr (greater, e) ↦ rw (assess_trimmed, h, e)
]

assess_trimmed-same :
    (i t : String)
    → str_eq i t ≡ true
    → assess_trimmed i t ≡ record { situation = current; level = none }
unfolding assess_trimmed
assess_trimmed-same i t h = rw (assess_trimmed, h)

abbrev is_update : Situation → Bool
is_update s = elim s [ update ↦ true | _ ↦ false ]

is_update_iff :
    (staged : Bool) (o : Option Ordering)
    → (is_update (situation_of staged o) ≡ true) ↔ ((o ≡ some less) × (staged ≡ false))
is_update_iff staged none = ((λ h. cc), (λ h. cc))
is_update_iff staged (some same) = ((λ h. cc), (λ h. cc))
is_update_iff staged (some greater) = ((λ h. cc), (λ h. cc))
is_update_iff true (some less) = ((λ h. cc), (λ h. cc))
is_update_iff false (some less) = ((λ h. (refl, refl)), (λ h. refl))

update_trimmed_iff :
    (i t : String)
    → (is_update (assess_trimmed i t).situation ≡ true)
      ↔ ((compare i t ≡ some less) × ((is_prerelease t && not (is_prerelease i)) ≡ false))
update_trimmed_iff i t = elim (Bool-cases (str_eq i t)) [
  | inl e ↦ (
    (λ h. cc (sym (ap (λ x. is_update x.situation) (assess_trimmed-same i t e)) ∙ h)),
    (λ h. cc (compare_equal i t less e (h.0))),
  )
  | inr e ↦
      subst
        (λ s.
          (is_update s ≡ true)
          ↔ ((compare i t ≡ some less) × ((is_prerelease t && not (is_prerelease i)) ≡ false)))
        (sym (assess_trimmed-situation i t e))
        (is_update_iff (is_prerelease t && not (is_prerelease i)) (compare i t))
]

-- An assessment is actionable exactly where Compare finds the trimmed installed version before the target,
-- and the target is not a prerelease proposed to a version that is none: a difference of texts alone,
-- an older target, versions that have no order and a prerelease over a stable version never are.
pub assess-actionable_iff :
    (i t : String)
    → (actionable (assess i t) ≡ true) ↔ (
        (compare (trim_space i) (trim_space t) ≡ some less)
        × ((is_prerelease (trim_space t) && not (is_prerelease (trim_space i))) ≡ false))
unfolding actionable assess
assess-actionable_iff i t = update_trimmed_iff (trim_space i) (trim_space t)

greater-older :
    (i t : String) → compare i t ≡ some greater → (assess_trimmed i t).situation ≡ target_older
greater-older i t h = elim (Bool-cases (str_eq i t)) [
  | inl e ↦ cc (compare_equal i t greater e h)
  | inr e ↦
      assess_trimmed-situation i t e
      ∙ ap (situation_of (is_prerelease t && not (is_prerelease i))) h
]

-- Where the target is an update to apply, and no two identifiers at one place of the two prereleases have the
-- same value and different texts, the installed version is an older target for it.
pub assess-reverse :
    (i t : String) (a b : Parsed)
    → parse (trim_space i) ≡ some a
    → parse (trim_space t) ≡ some b
    → AreCanonical (split 46 a.prerelease) (split 46 b.prerelease)
    → actionable (assess i t) ≡ true
    → (assess t i).situation ≡ target_older
unfolding assess
assess-reverse i t a b e f h k = greater-older (trim_space t) (trim_space i) (
    compare-some (trim_space t) (trim_space i) b a f e
    ∙ ap some (
        compare_parsed-flip a b h
        ∙ ap flip (
            some_eq (
              sym (compare-some (trim_space i) (trim_space t) a b e f)
              ∙ ((assess-actionable_iff i t).0 k).0))))
