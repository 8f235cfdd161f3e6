-- ===== src/Incidents/Pages/Cursor.antt =====
-- resolved_page.go: the options of a page and its cursor. The fingerprint of the filters (JSON and
-- SHA-256), and the text of a cursor (JSON and base64) are parameters.
pub mod Again
use cairnops.Common.{
  ℕ, zero, suc, ◌≤◌, ◌≡◌, ◌≢◌, refl, sym, subst, ap, ◌∙◌, String, str_eq, eq_iff, Bool, true, false,
  not, ◌&&◌, ◌||◌, ltb, leb, ◌==◌, if◌then◌else◌, Bool-cases, Option-cases, inl, inr, Option, none,
  some, List, [], ◌∷◌, is_some, arith,
}
use cairnops.Common.Int.{ℤ, pos, ltb_ℤ}
use cairnops.Common.Text.{Text, runes, rune_count, trim_space}
use cairnops.Common.Result.{Result, ok, err, ok_eq, invalid_input}
use cairnops.Identity.Input.{byte_count}

pub record ResolvedPageOptions : Type 0 where
  pub limit : ℤ
  pub target_id : String
  pub nature_key : String
  pub severity : String
  pub query : String
  pub from : Option ℕ
  pub before : Option ℕ
  pub cursor : String

-- What the fingerprint is taken of.
pub record Filters : Type 0 where
  pub target : String
  pub nature : String
  pub severity : String
  pub query : String
  pub from : Option ℕ
  pub before : Option ℕ

-- The zero time is 0.
pub record ResolvedCursor : Type 0 where
  pub version : ℕ
  pub filter : String
  pub snapshot : ℕ
  pub at_time : ℕ
  pub id : String

unfoldable pub is_hex_digit : ℕ → Bool
is_hex_digit c = (leb 48 c && leb c 57) || (leb 65 c && leb c 70) || (leb 97 c && leb c 102)

-- n hexadecimal digits, and what is left behind them.
unfoldable pub after_hex : ℕ → Text → Option Text
after_hex zero s = some s
after_hex (suc n) [] = none
after_hex (suc n) (c ∷ s) = if is_hex_digit c then after_hex n s else none

unfoldable pub after_dash : Option Text → Option Text
after_dash (some (c ∷ s)) = if c == 45 then some s else none
after_dash _ = none

unfoldable pub hex_then : ℕ → Option Text → Option Text
hex_then n none = none
hex_then n (some s) = after_hex n s

-- `incidentUUID`.
unfoldable pub is_uuid : String → Bool
is_uuid s =
    let first = after_dash (after_hex 8 (runes s)) in
    let second = after_dash (hex_then 4 first) in
    let third = after_dash (hex_then 4 second) in
    let fourth = after_dash (hex_then 4 third) in
    elim (hex_then 12 fourth) [ some [] ↦ true | _ ↦ false ]

unfoldable pub is_severity_filter : String → Bool
is_severity_filter s =
    str_eq s ""
    || str_eq s "critical"
    || str_eq s "major"
    || str_eq s "warning"
    || str_eq s "information"

unfoldable pub is_ordered : Option ℕ → Option ℕ → Bool
is_ordered (some from) (some before) = ltb from before
is_ordered _ _ = true

unfoldable pub filters_of : ResolvedPageOptions → Filters
filters_of o = record {
  target = o.target_id;
  nature = o.nature_key;
  severity = o.severity;
  query = o.query;
  from = o.from;
  before = o.before;
}

-- The checks of the options, but for the cursor.
unfoldable pub valid_filters : ResolvedPageOptions → Bool
valid_filters o =
    not (ltb_ℤ o.limit (pos 1) || ltb_ℤ (pos 500) o.limit)
    && (str_eq o.target_id "" || is_uuid o.target_id)
    && is_severity_filter o.severity
    && not (ltb 200 (rune_count o.query) || ltb 500 (byte_count o.nature_key))
    && is_ordered o.from o.before

module _ (fingerprint : Filters → String) (decode : String → Option ResolvedCursor) where
  unfoldable pub valid_cursor : String → ResolvedCursor → Bool
  valid_cursor filter c =
      c.version == 1
      && str_eq c.filter filter
      && not (c.snapshot == 0)
      && not (c.at_time == 0)
      && not (ltb c.snapshot c.at_time)
      && is_uuid c.id

  unfoldable pub read_cursor : String → String → Result ResolvedCursor
  read_cursor filter text =
      if ltb 2048 (byte_count text) then err invalid_input else elim (decode text) [
        | none ↦ err invalid_input
        | some c ↦ if valid_cursor filter c then ok c else err invalid_input
      ]

  -- `ResolvedPageOptions.cursor`.
  unfoldable pub cursor_of : ResolvedPageOptions → ℕ → Result ResolvedCursor
  cursor_of o now =
      let filter = fingerprint (filters_of o) in
      if valid_filters o
      then if str_eq o.cursor ""
        then ok (record { version = 1; filter = filter; snapshot = now; at_time = 0; id = "" })
        else read_cursor filter o.cursor
      else err invalid_input

-- The cursor behind the last row of a page.
unfoldable pub next_cursor : ResolvedCursor → ℕ → String → ResolvedCursor
next_cursor c resolved_at id = record c { at_time = resolved_at; id = id }
