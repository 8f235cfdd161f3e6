-- ===== src/Tests/Releases.antt =====
-- The versions of internal/versions and the limiter of internal/pushrelay at concrete inputs.
use cairnops.Common.{◌≡◌, ◌↔◌, refl, true, false, ◌&&◌, not, some, [], ◌∷◌}
use cairnops.Common.Int.{pos, sub_time}
use cairnops.Common.Text.{is_space, trim_left, trim_right, trim_space, runes}
use cairnops.Versions.Parse.{
  Parsed, is_digit, is_word, is_hex, all_fit, is_some_word, digits_value, parse_uint, cut, split,
  parse_numbers, is_commit_digits, is_commit_hash, normalized_prerelease, fits, without_v, text_of,
  parse_runes, parse,
}
use cairnops.Versions.Order.{
  less, greater, order_numbers, compare_numbers, same_text, runes_ltb, differing,
  compare_identifier, compare_identifiers, compare_prerelease, compare_parsed,
}
use cairnops.Versions.{
  target_older, compare, has_prerelease, is_prerelease, numbers_of, level_of, assess_trimmed,
  assess, actionable, valid,
}
use cairnops.Versions.Laws.{IsOrder, compare_numbers-IsOrder}
use cairnops.Versions.Assess.{assess-actionable_iff, assess-reverse}
use cairnops.Limiter.{RateLimiter, lookup, put, is_over, prune, open_window, allow_bounded, allow}
use cairnops.Limiter.Rule.{IsRuled, allow-IsRuled}

compare_numbers-IsOrder_example :
    IsOrder (compare_numbers (1 ∷ 2 ∷ []) (1 ∷ 2 ∷ 0 ∷ 4 ∷ [])) (1 ∷ 2 ∷ []) (1 ∷ 2 ∷ 0 ∷ 4 ∷ [])
compare_numbers-IsOrder_example = compare_numbers-IsOrder (1 ∷ 2 ∷ []) (1 ∷ 2 ∷ 0 ∷ 4 ∷ [])

assess-actionable_iff_example : (actionable (assess " 1.2" "v1.2.1-rc.1") ≡ true) ↔ (
    (compare (trim_space " 1.2") (trim_space "v1.2.1-rc.1") ≡ some less)
    × ((is_prerelease (trim_space "v1.2.1-rc.1") && not (is_prerelease (trim_space " 1.2")))
        ≡ false))
assess-actionable_iff_example = assess-actionable_iff " 1.2" "v1.2.1-rc.1"

abbrev installed : Parsed
installed = record { numbers = 1 ∷ 2 ∷ []; prerelease = 114 ∷ 99 ∷ 46 ∷ 49 ∷ [] }

abbrev target : Parsed
target = record { numbers = 1 ∷ 2 ∷ 0 ∷ []; prerelease = 114 ∷ 99 ∷ 46 ∷ 50 ∷ [] }

record Read : Type 0 where
  installed_parses : parse (trim_space " 1.2-rc.1") ≡ some installed
  target_parses : parse (trim_space "v1.2.0-rc.2+b7") ≡ some target
  commit :
      parse "2024.10.22-7ca5933" ≡ some (record { numbers = 2024 ∷ 10 ∷ 22 ∷ []; prerelease = [] })
  five_numbers : valid "1.2.3.4.5" ≡ false
  acts : actionable (assess " 1.2-rc.1" "v1.2.0-rc.2+b7") ≡ true
  leading_zero : (compare "1-01" "1-1" ≡ some greater) × (compare "1-1" "1-01" ≡ some greater)

reads : Read
unfolding is_space trim_left trim_right runes is_digit is_word is_hex all_fit is_some_word
    digits_value parse_uint cut split parse_numbers is_commit_digits is_commit_hash
    normalized_prerelease fits without_v text_of parse_runes parse order_numbers compare_numbers
    same_text runes_ltb differing compare_identifier compare_identifiers compare_prerelease
    compare_parsed compare has_prerelease is_prerelease numbers_of level_of assess_trimmed assess
    actionable valid
reads = record {
  installed_parses = refl;
  target_parses = refl;
  commit = refl;
  five_numbers = refl;
  acts = refl;
  leading_zero = (refl, refl);
}

assess-reverse_example : (assess "v1.2.0-rc.2+b7" " 1.2-rc.1").situation ≡ target_older
unfolding split parse_uint all_fit is_digit digits_value same_text
assess-reverse_example =
    assess-reverse " 1.2-rc.1" "v1.2.0-rc.2+b7" installed target reads.installed_parses
      reads.target_parses (refl, (refl, tt)) reads.acts

abbrev limiter : RateLimiter
limiter = record {
  limit = pos 2;
  window = pos 60;
  items = record { key = "a"; value = record { started = 100; count = 2 } } ∷ [];
}

allow-IsRuled_example : IsRuled "a" 130 limiter (allow "a" 130 limiter)
unfolding lookup
allow-IsRuled_example = allow-IsRuled "a" 130 limiter refl refl (refl, tt)

third_is_refused : ((allow "a" 130 limiter).0 ≡ false) × ((allow "a" 160 limiter).0 ≡ true)
unfolding lookup put is_over prune open_window allow_bounded allow sub_time
third_is_refused = (refl, refl)
