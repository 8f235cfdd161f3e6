-- ===== src/Versions/Parse.antt =====
-- The formats of a version: the regular expressions of versions.go, read from the left.
use cairnops.Common.{
  ℕ, ◌+◌, ◌-◌, ◌*◌, String, Bool, true, false, ◌&&◌, ◌||◌, Option, none, some, List, [], ◌∷◌, ◌==◌,
  ltb, leb, if◌then◌else◌, length,
}
use cairnops.Common.Int.{u64_mod}
use cairnops.Common.Text.{Text, trim_space, runes}

pub record Parsed : Type 0 where
  pub numbers : List ℕ
  pub prerelease : Text

unfoldable pub is_digit : ℕ → Bool
is_digit c = leb 48 c && leb c 57

-- `[0-9A-Za-z.-]`.
unfoldable pub is_word : ℕ → Bool
unfolding is_digit
is_word c = is_digit c || (leb 65 c && leb c 90) || (leb 97 c && leb c 122) || c == 46 || c == 45

-- `[0-9a-f]`.
unfoldable pub is_hex : ℕ → Bool
unfolding is_digit
is_hex c = is_digit c || (leb 97 c && leb c 102)

unfoldable pub all_fit : (ℕ → Bool) → Text → Bool
all_fit p [] = true
all_fit p (c ∷ s) = p c && all_fit p s

unfoldable pub is_some_word : Text → Bool
unfolding is_word all_fit
is_some_word [] = false
is_some_word (c ∷ s) = all_fit is_word (c ∷ s)

unfoldable pub digits_value : ℕ → Text → ℕ
digits_value n [] = n
digits_value n (c ∷ s) = digits_value (n * 10 + (c - 48)) s

-- `strconv.ParseUint(s, 10, 64)`.
unfoldable pub parse_uint : Text → Option ℕ
unfolding all_fit is_digit digits_value
parse_uint [] = none
parse_uint (c ∷ s) =
    let value = digits_value 0 (c ∷ s) in
    if all_fit is_digit (c ∷ s) && ltb value u64_mod then some value else none

-- The text before the first `c`, and the text behind it where there is one.
unfoldable pub cut : ℕ → Text → Text × Option Text
cut c [] = ([], none)
cut c (d ∷ s) = let rest = cut c s in if d == c then ([], some s) else (d ∷ rest.0, rest.1)

-- `strings.Split`.
unfoldable pub split : ℕ → Text → List Text
split c [] = [] ∷ []
split c (d ∷ s) =
    let rest = split c s in
    if d == c
    then [] ∷ rest
    else elim rest [ [] ↦ (d ∷ []) ∷ [] | part ∷ parts ↦ (d ∷ part) ∷ parts ]

unfoldable pub parse_numbers : List Text → Option (List ℕ)
unfolding parse_uint
parse_numbers [] = some []
parse_numbers (part ∷ parts) =
    let rest = parse_numbers parts in
    elim (parse_uint part) [
      | none ↦ none
      | some n ↦ elim rest [ none ↦ none | some ns ↦ some (n ∷ ns) ]
    ]

-- `commitHash.MatchString`.
unfoldable pub is_commit_digits : Text → Bool
unfolding all_fit is_hex
is_commit_digits s = leb 7 (length s) && leb (length s) 40 && all_fit is_hex s

unfoldable pub is_commit_hash : Text → Bool
unfolding is_commit_digits
is_commit_hash [] = false
is_commit_hash (c ∷ s) = is_commit_digits (c ∷ s) || (c == 103 && is_commit_digits s)

unfoldable pub normalized_prerelease : Text → Text
unfolding is_commit_hash
normalized_prerelease value = if is_commit_hash value then [] else value

-- `(?:-(…))?` and `(?:\+…)?`: the part is absent, or a word that is not empty.
unfoldable pub fits : Option Text → Bool
unfolding is_some_word
fits none = true
fits (some s) = is_some_word s

unfoldable pub without_v : Text → Text
without_v [] = []
without_v (c ∷ s) = if c == 118 || c == 86 then s else c ∷ s

unfoldable pub text_of : Option Text → Text
text_of none = []
text_of (some s) = s

-- A version is cut at its first `+`, what stands before it at its first `-`, and that at each dot.
unfoldable pub parse_runes : Text → Option Parsed
unfolding without_v cut split fits parse_numbers normalized_prerelease text_of
parse_runes s =
    let outer = cut 43 (without_v s) in
    let inner = cut 45 outer.0 in
    let parts = split 46 inner.0 in
    if fits outer.1 && fits inner.1 && leb (length parts) 4
    then elim (parse_numbers parts) [
      | none ↦ none
      | some numbers ↦
          some (record { numbers = numbers; prerelease = normalized_prerelease (text_of inner.1) })
    ]
    else none

unfoldable pub parse : String → Option Parsed
unfolding runes parse_runes
parse raw = parse_runes (runes (trim_space raw))
