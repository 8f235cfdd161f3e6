-- ===== src/Common/Text.antt =====
-- Texts as lists of runes, with what package strings does to them.
use mathlib.Core.Option
use Prim.Native.Char.{code, len_utf8}
use cairnops.Common.{
  String, str_eq, Option, none, some, ℕ, zero, suc, ◌-◌, ◌≤◌, Bool, true, false, ◌||◌, ◌&&◌, ltb,
  leb, ◌==◌, if◌then◌else◌, List, [], ◌∷◌, ◌++◌, length, arith, ◌≡◌, refl,
}

abbrev pub Text : Type 0
Text = List ℕ

-- `unicode.IsSpace`.
unfoldable pub is_space : ℕ → Bool
is_space c =
    (leb 9 c && leb c 13)
    || c == 32
    || c == 133
    || c == 160
    || c == 5760
    || (leb 8192 c && leb c 8202)
    || c == 8232
    || c == 8233
    || c == 8239
    || c == 8287
    || c == 12288

unfoldable pub flush : Text → List Text
flush [] = []
flush (c ∷ w) = (c ∷ w) ∷ []

unfoldable pub fields_from : Text → Text → List Text
unfolding is_space flush
fields_from word [] = flush word
fields_from word (c ∷ s) =
    let space = is_space c in
    (if space then flush word else []) ++ fields_from (if space then [] else word ++ (c ∷ [])) s

-- `strings.Fields`.
unfoldable pub fields : Text → List Text
unfolding fields_from
fields s = fields_from [] s

-- `strings.Join(words, " ")`.
unfoldable pub unwords : List Text → Text
unwords [] = []
unwords (w ∷ []) = w
unwords (w ∷ v ∷ ws) = w ++ (32 ∷ unwords (v ∷ ws))

unfoldable pub take_runes : ℕ → Text → Text
take_runes zero s = []
take_runes (suc n) [] = []
take_runes (suc n) (c ∷ s) = c ∷ take_runes n s

pub length-take_runes : (n : ℕ) (s : Text) → length (take_runes n s) ≤ n
unfolding take_runes
length-take_runes zero s = omega arith
length-take_runes (suc n) [] = omega arith
length-take_runes (suc n) (c ∷ s) = omega (arith, length-take_runes n s)

pub length-snoc {ℓ} : {A : Type ℓ} (s : List A) (c : A) → length (s ++ (c ∷ [])) ≡ suc (length s)
length-snoc [] c = refl
length-snoc (d ∷ s) c = omega (arith, length-snoc s c)

-- `strings.TrimSpace(s) == ""`.
unfoldable pub is_blank : String → Bool
unfolding is_space
is_blank String.[] = true
is_blank (String.◌∷◌ c s) = is_space (code c) && is_blank s

-- Go's `<` on strings: the order of UTF-8 bytes is that of code points.
unfoldable pub text_ltb : String → String → Bool
text_ltb s String.[] = false
text_ltb String.[] (String.◌∷◌ d t) = true
text_ltb (String.◌∷◌ c s) (String.◌∷◌ d t) =
    let rest = text_ltb s t in
    if ltb (code c) (code d) then true else if code c == code d then rest else false

-- `strings.TrimSpace`.
unfoldable pub trim_left : String → String
trim_left String.[] = ""
trim_left (String.◌∷◌ c s) = if is_space (code c) then trim_left s else String.◌∷◌ c s

unfoldable pub trim_right : String → String
trim_right String.[] = ""
trim_right (String.◌∷◌ c s) =
    let rest = trim_right s in if is_space (code c) && str_eq rest "" then "" else String.◌∷◌ c rest

abbrev pub trim_space : String → String
trim_space s = trim_right (trim_left s)

-- `len([]rune(s))`.
unfoldable pub rune_count : String → ℕ
rune_count String.[] = 0
rune_count (String.◌∷◌ c s) = suc (rune_count s)

-- `s[:n]` where s is longer than n bytes, and s otherwise; `none` where the cut splits a rune, which
-- leaves a text that is not UTF-8.
unfoldable pub cut_bytes : ℕ → String → Option String
cut_bytes n String.[] = some ""
cut_bytes zero (String.◌∷◌ c s) = some ""
cut_bytes (suc n) (String.◌∷◌ c s) =
    let rest = cut_bytes (suc n - len_utf8 c) s in
    if leb (len_utf8 c) (suc n) then Option.map (String.◌∷◌ c) rest else none

-- `[]rune(s)`.
unfoldable pub runes : String → Text
runes String.[] = []
runes (String.◌∷◌ c s) = code c ∷ runes s
