-- ===== src/Tests/Search.antt =====
-- The pages of resolved incidents at a concrete table.
use mathlib.Core.List.{Perm}
use cairnops.Common.{
  String, str_eq, Option, if◌then◌else◌, ◌↔◌, ℕ, ◌≡◌, refl, some, none, List, [], ◌∷◌, Bool, ltb,
  arith,
}
use cairnops.Common.Int.{pos}
use cairnops.Common.Text.{runes, rune_count}
use cairnops.Common.Result.{ok}
use cairnops.Identity.Input.{byte_count}
use cairnops.Incidents.Pages.Cursor.{
  ResolvedPageOptions, Filters, ResolvedCursor, is_hex_digit, after_hex, after_dash, hex_then,
  is_uuid, is_severity_filter, is_ordered, filters_of, valid_filters, valid_cursor, read_cursor,
  cursor_of, next_cursor,
}
use cairnops.Incidents.Pages.Cursor.Again.{cursor_of-next_cursor}
use cairnops.Incidents.Pages.{
  ResolvedRow, comes_after, is_behind, all_pages, list_resolved_page, order_resolved,
  insert_resolved, cut_page, last_of,
}
use cairnops.Incidents.Pages.Complete.{IsDescending}
use cairnops.Incidents.Pages.Ordered.{all_pages_complete}

abbrev row : ℕ → ℕ → ResolvedRow
row id resolved_at = record { id = id; resolved_at = resolved_at }

-- Two of them were resolved at one instant.
abbrev rows : List ResolvedRow
rows = row 2 30 ∷ row 1 10 ∷ row 4 50 ∷ row 3 30 ∷ []

abbrev recent : ResolvedRow → Bool
recent r = ltb 10 r.resolved_at

pages_in_order : all_pages 4 recent rows 2 none ≡ some (row 4 50 ∷ row 3 30 ∷ row 2 30 ∷ [])
unfolding all_pages list_resolved_page order_resolved insert_resolved cut_page comes_after is_behind
    last_of
pages_in_order = refl

all_pages_complete_example :
    (items : List ResolvedRow) × (all_pages 4 recent rows 2 none ≡ some items)
    × IsDescending none items
    × Perm items (row 2 30 ∷ row 4 50 ∷ row 3 30 ∷ [])
unfolding comes_after is_behind
all_pages_complete_example = all_pages_complete recent rows (omega arith) 4 1 none (omega arith)

-- A fingerprint that tells the searched texts apart, and the one text of a cursor.
abbrev fingerprint : Filters → String
fingerprint f = f.query

abbrev first_page : ResolvedCursor
first_page = record { version = 1; filter = "disk"; snapshot = 60; at_time = 0; id = "" }

abbrev last_id : String
last_id = "0f8fad5b-d9cb-469f-a165-70867728950E"

abbrev decode : String → Option ResolvedCursor
decode s = if str_eq s "page" then some (next_cursor first_page 30 last_id) else none

abbrev asked : ResolvedPageOptions
asked = record {
  limit = pos 50;
  target_id = "";
  nature_key = "";
  severity = "major";
  query = "disk";
  from = some 10;
  before = none;
  cursor = "";
}

abbrev asked_again : ResolvedPageOptions
asked_again = record asked { limit = pos 100; cursor = "page" }

cursor_of-next_cursor_example :
    (cursor_of fingerprint decode asked_again 75 ≡ ok (next_cursor first_page 30 last_id))
    ↔ (fingerprint (filters_of asked_again) ≡ fingerprint (filters_of asked))
unfolding cursor_of valid_filters is_severity_filter is_ordered rune_count byte_count filters_of
    is_uuid after_hex after_dash hex_then is_hex_digit runes
cursor_of-next_cursor_example =
    cursor_of-next_cursor fingerprint decode asked asked_again 60 75 30 last_id first_page
      (omega arith) refl (omega arith) (omega arith) refl refl
      (record { decodes = refl; not_empty = refl; short = refl })

reads_again : cursor_of fingerprint decode asked_again 75 ≡ ok (next_cursor first_page 30 last_id)
unfolding cursor_of valid_filters is_severity_filter is_ordered rune_count byte_count filters_of
    is_uuid after_hex after_dash hex_then is_hex_digit runes valid_cursor read_cursor next_cursor
reads_again = refl
