-- ===== src/Maintenance/Input.antt =====
-- internal/maintenance/maintenance.go: what Create checks and normalises before it reaches the store.
use cairnops.Common.{
  ℕ, zero, suc, ◌+◌, ◌-◌, ◌*◌, String, str_eq, Bool, false, ◌||◌, ◌&&◌, not, ltb, leb, ◌==◌,
  if◌then◌else◌, is_some, Option, none, some, List, [], ◌∷◌, ◌++◌, length, exists, select,
}
use cairnops.Common.Text.{Text, trim_space, rune_count, runes}
use cairnops.Common.Result.{Result, ok, err, ◌>>=◌, invalid_input}
use cairnops.Maintenance.Recurrence.{day, zero_time, CreateInput}

unfoldable pub hex_value : ℕ → Option ℕ
hex_value c =
    if leb 48 c && leb c 57
    then some (c - 48)
    else if leb 65 c && leb c 70
    then some (c - 55)
    else if leb 97 c && leb c 102
    then some (c - 87)
    else none

unfoldable pub read_hex : ℕ → Text → Option ℕ
read_hex value [] = some value
read_hex value (c ∷ s) = elim (hex_value c) [ none ↦ none | some d ↦ read_hex (16 * value + d) s ]

abbrev pub has_dash : ℕ → Text → Bool
has_dash n [] = false
has_dash zero (c ∷ s) = c == 45
has_dash (suc n) (c ∷ s) = has_dash n s

-- The number that the digits of a uuid spell, where validUUID accepts it, which is also what the
-- cast to uuid reads. A text with a rune beyond ASCII is refused, so runes stand for bytes.
unfoldable pub read_uuid : Text → Option ℕ
read_uuid s =
    let digits = select (λ c. not (c == 45)) s in
    if length s == 36
      && has_dash 8 s
      && has_dash 13 s
      && has_dash 18 s
      && has_dash 23 s
      && length digits == 32
    then read_hex 0 digits
    else none

unfoldable pub valid_uuid : String → Bool
valid_uuid value = is_some (read_uuid (runes value))

-- The loop over the target identifiers, with those that it has kept.
unfoldable pub collect : List String → List String → Result (List String)
collect kept [] = ok kept
collect kept (target_id ∷ rest) =
    let trimmed = trim_space target_id in
    let next =
      collect (if exists (str_eq trimmed) kept then kept else kept ++ (trimmed ∷ [])) rest in
    if valid_uuid trimmed then next else err invalid_input

-- The checks of the times, on a start that defaults to now.
unfoldable pub check_times : ℕ → CreateInput → Result CreateInput
check_times now input =
    let starts_at = if input.starts_at == zero_time then now else input.starts_at in
    if input.ends_at == zero_time || leb input.ends_at starts_at
    then err invalid_input
    else if ltb (31 * day) (input.ends_at - starts_at)
    then err invalid_input
    else if ltb input.ends_at now
    then err invalid_input
    else ok (record input { starts_at = starts_at })

-- The checks of the texts and of the targets.
unfoldable pub check_texts : CreateInput → Result CreateInput
check_texts input =
    let name = trim_space input.name in
    let reason = trim_space input.reason in
    let count = length input.target_ids in
    if ltb (rune_count name) 3 || ltb 160 (rune_count name)
    then err invalid_input
    else if ltb (rune_count reason) 8 || ltb 500 (rune_count reason)
    then err invalid_input
    else if count == 0 || ltb 200 count
    then err invalid_input
    else collect [] input.target_ids >>= λ target_ids.
        ok (record input { name = name; reason = reason; target_ids = target_ids })

-- Create, up to the call of `occurrences`.
unfoldable pub checked : ℕ → CreateInput → Result CreateInput
checked now input = check_texts input >>= check_times now
