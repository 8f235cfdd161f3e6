-- ===== src/Incidents/Pages.antt =====
-- internal/incidents/resolved_page.go: the resolved incidents, page by page. `matches` stands for the filters
-- of the query, which are the same for each page of one search.
pub mod Complete
pub mod Search
pub mod Ordered
pub mod Cursor
use cairnops.Common.{
  ℕ, zero, suc, Bool, true, false, ◌&&◌, ◌||◌, Option, none, some, List, [], ◌∷◌, ◌++◌, ltb, ◌==◌,
  if◌then◌else◌, select, length,
}
use cairnops.Realtime.Table.{limit}

-- What the order of the pages reads of a resolved incident.
pub record ResolvedRow : Type 0 where
  pub id : ℕ
  pub resolved_at : ℕ

-- `(a.resolved_at, a.id) < (b.resolved_at, b.id)`.
unfoldable pub comes_after : ResolvedRow → ResolvedRow → Bool
comes_after a b =
    ltb a.resolved_at b.resolved_at || (a.resolved_at == b.resolved_at && ltb a.id b.id)

-- The row comparison with the cursor, which the first page has not.
unfoldable pub is_behind : Option ResolvedRow → ResolvedRow → Bool
unfolding comes_after
is_behind none r = true
is_behind (some cursor) r = comes_after r cursor

unfoldable pub insert_resolved : ResolvedRow → List ResolvedRow → List ResolvedRow
unfolding comes_after
insert_resolved r [] = r ∷ []
insert_resolved r (s ∷ rs) =
    let rest = insert_resolved r rs in if comes_after r s then s ∷ rest else r ∷ s ∷ rs

-- ORDER BY resolved_at DESC, id DESC.
unfoldable pub order_resolved : List ResolvedRow → List ResolvedRow
unfolding insert_resolved
order_resolved [] = []
order_resolved (r ∷ rs) = insert_resolved r (order_resolved rs)

unfoldable pub last_of : Option ResolvedRow → List ResolvedRow → Option ResolvedRow
last_of cursor [] = cursor
last_of cursor (r ∷ rs) = last_of (some r) rs

pub record Page : Type 0 where
  pub incidents : List ResolvedRow
  pub next_cursor : Option ResolvedRow

-- `items[:options.Limit]` and the cursor at the last of them, where the query returned one row more.
unfoldable pub cut_page : ℕ → List ResolvedRow → Page
unfolding last_of
cut_page n items =
    if ltb n (length items)
    then record { incidents = limit n items; next_cursor = last_of none (limit n items) }
    else record { incidents = items; next_cursor = none }

unfoldable pub list_resolved_page :
    (ResolvedRow → Bool) → List ResolvedRow → ℕ → Option ResolvedRow → Page
unfolding cut_page order_resolved is_behind
list_resolved_page matches table n cursor =
    cut_page n
      (limit (suc n) (order_resolved (select (λ r. matches r && is_behind cursor r) table)))

-- A page, and the pages behind it where it has a cursor.
abbrev pub glue : Page → Option (List ResolvedRow) → Option (List ResolvedRow)
glue page rest = elim page.next_cursor [
  | none ↦ some page.incidents
  | some _ ↦ elim rest [ none ↦ none | some items ↦ some (page.incidents ++ items) ]
]

-- A client that asks for page after page.
unfoldable pub all_pages :
    ℕ → (ResolvedRow → Bool) → List ResolvedRow → ℕ → Option ResolvedRow → Option (List ResolvedRow)
unfolding list_resolved_page
all_pages zero matches table n cursor = none
all_pages (suc fuel) matches table n cursor =
    let page = list_resolved_page matches table n cursor in
    glue page (all_pages fuel matches table n page.next_cursor)
