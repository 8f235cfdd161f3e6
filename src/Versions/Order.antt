-- ===== src/Versions/Order.antt =====
-- compareNumbers and comparePrerelease.
use cairnops.Common.{
  ℕ, Bool, true, false, ◌&&◌, Option, none, some, List, [], ◌∷◌, ◌==◌, ltb, if◌then◌else◌,
}
use cairnops.Common.Text.{Text}
use cairnops.Versions.Parse.{Parsed, parse_uint, split}

-- The results -1, 0 and 1.
pub data Ordering : Type 0 where
  less same greater : Ordering

unfoldable pub order_numbers : ℕ → ℕ → Ordering
order_numbers l r = if l == r then same else if ltb l r then less else greater

-- The first result that is not zero.
abbrev pub then_by : Ordering → Ordering → Ordering
then_by less o = less
then_by same o = o
then_by greater o = greater

unfoldable pub compare_numbers : List ℕ → List ℕ → Ordering
unfolding order_numbers
compare_numbers [] [] = same
compare_numbers (l ∷ ls) [] = then_by (order_numbers l 0) (compare_numbers ls [])
compare_numbers [] (r ∷ rs) = then_by (order_numbers 0 r) (compare_numbers [] rs)
compare_numbers (l ∷ ls) (r ∷ rs) = then_by (order_numbers l r) (compare_numbers ls rs)

unfoldable pub same_text : Text → Text → Bool
same_text [] [] = true
same_text [] (d ∷ t) = false
same_text (c ∷ s) [] = false
same_text (c ∷ s) (d ∷ t) = c == d && same_text s t

-- Go's `<` on strings, by the order of runes.
unfoldable pub runes_ltb : Text → Text → Bool
runes_ltb s [] = false
runes_ltb [] (d ∷ t) = true
runes_ltb (c ∷ s) (d ∷ t) =
    let rest = runes_ltb s t in if ltb c d then true else if c == d then rest else false

-- The body of the loop, for two identifiers that differ.
unfoldable pub differing : Option ℕ → Option ℕ → Text → Text → Ordering
unfolding runes_ltb
differing (some l) (some r) a b = if ltb l r then less else greater
differing (some l) none a b = less
differing none (some r) a b = greater
differing none none a b = if runes_ltb a b then less else greater

unfoldable pub compare_identifier : Text → Text → Ordering
unfolding same_text differing
compare_identifier a b = if same_text a b then same else differing (parse_uint a) (parse_uint b) a b

-- The loop over the identifiers, and the lengths behind it.
unfoldable pub compare_identifiers : List Text → List Text → Ordering
unfolding compare_identifier
compare_identifiers [] [] = same
compare_identifiers [] (r ∷ rs) = less
compare_identifiers (l ∷ ls) [] = greater
compare_identifiers (l ∷ ls) (r ∷ rs) = then_by (compare_identifier l r) (compare_identifiers ls rs)

-- An empty prerelease is the greatest.
unfoldable pub compare_prerelease : Text → Text → Ordering
unfolding compare_identifiers
compare_prerelease [] [] = same
compare_prerelease [] (d ∷ t) = greater
compare_prerelease (c ∷ s) [] = less
compare_prerelease (c ∷ s) (d ∷ t) =
    let rest = compare_identifiers (split 46 (c ∷ s)) (split 46 (d ∷ t)) in
    if same_text (c ∷ s) (d ∷ t) then same else rest

unfoldable pub compare_parsed : Parsed → Parsed → Ordering
unfolding compare_numbers compare_prerelease
compare_parsed a b =
    then_by (compare_numbers a.numbers b.numbers) (compare_prerelease a.prerelease b.prerelease)
