-- ===== src/Identity/Input.antt =====
-- The checks of internal/identity on what a request carries.
use Prim.Native.Char.{code, len_utf8}
use cairnops.Common.{
  ℕ, ◌+◌, String, str_eq, Bool, true, false, ◌&&◌, ◌||◌, [], ◌∷◌, leb, ◌==◌, if◌then◌else◌, length,
  not,
}
use cairnops.Common.Result.{invalid_input, Result, err, ok}
use cairnops.Common.Text.{Text, trim_space, rune_count}

-- `unicode.ToLower` of the runes that it takes to ASCII; it takes no other rune there, so a username
-- test tells no difference.
unfoldable pub lower_rune : ℕ → ℕ
lower_rune c =
    if leb 65 c && leb c 90 then c + 32 else if c == 304 then 105 else if c == 8490 then 107 else c

unfoldable pub lower_runes : String → Text
unfolding lower_rune
lower_runes String.[] = []
lower_runes (String.◌∷◌ c s) = lower_rune (code c) ∷ lower_runes s

unfoldable pub normalize_username : String → Text
unfolding lower_runes
normalize_username s = lower_runes (trim_space s)

-- `[a-z0-9]` and `[a-z0-9._-]`.
unfoldable pub starts_username : ℕ → Bool
starts_username c = (leb 97 c && leb c 122) || (leb 48 c && leb c 57)

unfoldable pub continues_username : ℕ → Bool
unfolding starts_username
continues_username c = starts_username c || c == 46 || c == 95 || c == 45

unfoldable pub all_continue : Text → Bool
unfolding continues_username
all_continue [] = true
all_continue (c ∷ s) = continues_username c && all_continue s

-- `usernamePattern.MatchString`.
unfoldable pub matches_username : Text → Bool
unfolding starts_username all_continue
matches_username [] = false
matches_username (c ∷ s) =
    starts_username c && all_continue s && leb 2 (length s) && leb (length s) 63

unfoldable pub byte_count : String → ℕ
byte_count String.[] = 0
byte_count (String.◌∷◌ c s) = len_utf8 c + byte_count s

unfoldable pub validate_display_name : String → Result {0} Unit
validate_display_name s =
    if leb 1 (rune_count s) && leb (rune_count s) 100 then ok tt else err invalid_input

unfoldable pub validate_instance_name : String → Result {0} Unit
validate_instance_name s =
    if leb 1 (rune_count s) && leb (rune_count s) 80 then ok tt else err invalid_input

unfoldable pub validate_password : String → Result {0} Unit
unfolding byte_count
validate_password s =
    if leb 12 (byte_count s) && leb (byte_count s) 128 then ok tt else err invalid_input

unfoldable pub validate_role : String → Result {0} Unit
validate_role role =
    if str_eq role "administrator" || str_eq role "operator" || str_eq role "observer"
    then ok tt
    else err invalid_input

unfoldable pub validate_identity_input : Text → String → String → Result {0} Unit
unfolding matches_username validate_display_name validate_password
validate_identity_input username display_name password =
    if not (matches_username username)
    then err invalid_input
    else elim (validate_display_name display_name) [
      | err e ↦ err e
      | ok _ ↦ validate_password password
    ]

unfoldable pub text_equal : Text → Text → Bool
text_equal [] [] = true
text_equal [] (d ∷ t) = false
text_equal (c ∷ s) [] = false
text_equal (c ∷ s) (d ∷ t) = c == d && text_equal s t
