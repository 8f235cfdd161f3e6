-- ===== src/Incidents/Pages/Ordered.antt =====
-- A search over a table whose rows stand in any order.
use mathlib.Core.List.{Perm}
use mathlib.Core.List.Perm
use cairnops.Common.{
  ℕ, zero, suc, ◌<◌, ◌≡◌, ◌≢◌, refl, ap, ◌∙◌, sym, subst, Bool, true, false, ◌&&◌, Option, none,
  some, List, [], ◌∷◌, select, length, All, arith, Bool-cases, inl, inr,
}
use cairnops.Realtime.Table.{limit}
use cairnops.Incidents.Pages.{
  ResolvedRow, Page, comes_after, is_behind, insert_resolved, order_resolved, cut_page,
  list_resolved_page, all_pages, glue,
}
use cairnops.Incidents.Pages.Complete.{
  IsDescending, IsDescending-select, select_below, insert_resolved-first, order_resolved-descending,
}
use cairnops.Incidents.Pages.Search.{all_pages-found}

-- The ids of a table are a primary key.
abbrev pub IsDistinct : List ResolvedRow → Type 0
IsDistinct [] = Unit
IsDistinct (r ∷ rs) = All (λ s. s.id ≢ r.id) rs × IsDistinct rs

comes_after_total :
    (r s : ResolvedRow) → s.id ≢ r.id → comes_after r s ≡ false → comes_after s r ≡ true
unfolding comes_after
comes_after_total r s n h = ground (arith, n)

All-insert_resolved :
    (P : ResolvedRow → Type 0) (r : ResolvedRow) (rs : List ResolvedRow)
    → P r
    → All P rs
    → All P (insert_resolved r rs)
unfolding insert_resolved
All-insert_resolved P r [] h a = (h, tt)
All-insert_resolved P r (s ∷ rs) h a = elim (Bool-cases (comes_after r s)) [
  | inl e ↦ rw e (a.0, All-insert_resolved P r rs h a.1)
  | inr e ↦ rw e (h, a)
]

All-order_resolved :
    (P : ResolvedRow → Type 0) (rs : List ResolvedRow) → All P rs → All P (order_resolved rs)
unfolding order_resolved
All-order_resolved P [] a = tt
All-order_resolved P (r ∷ rs) a =
    All-insert_resolved P r (order_resolved rs) a.0 (All-order_resolved P rs a.1)

insert_resolved-IsDescending :
    (cursor : Option ResolvedRow) (r : ResolvedRow) (rs : List ResolvedRow)
    → is_behind cursor r ≡ true
    → All (λ s. s.id ≢ r.id) rs
    → IsDescending cursor rs
    → IsDescending cursor (insert_resolved r rs)
unfolding insert_resolved is_behind
insert_resolved-IsDescending cursor r [] b n h = (b, tt)
insert_resolved-IsDescending cursor r (s ∷ rs) b n h = elim (Bool-cases (comes_after r s)) [
  | inl e ↦ rw e (h.0, insert_resolved-IsDescending (some s) r rs e n.1 h.1)
  | inr e ↦ rw e (b, (comes_after_total r s n.0 e, h.1))
]

order_resolved-IsDescending :
    (rs : List ResolvedRow) → IsDistinct rs → IsDescending none (order_resolved rs)
unfolding order_resolved is_behind
order_resolved-IsDescending [] d = tt
order_resolved-IsDescending (r ∷ rs) d =
    insert_resolved-IsDescending none r (order_resolved rs) refl
      (All-order_resolved (λ s. s.id ≢ r.id) rs d.0) (order_resolved-IsDescending rs d.1)

module _ (p : ResolvedRow → Bool) where
  insert-skipped :
      (r : ResolvedRow) (rs : List ResolvedRow)
      → p r ≡ false
      → select p (insert_resolved r rs) ≡ select p rs
  unfolding insert_resolved
  insert-skipped r [] e = rw e
  insert-skipped r (s ∷ rs) e = ground (arith, e, insert-skipped r rs e)

  insert-selected :
      (cursor : Option ResolvedRow) (r : ResolvedRow) (rs : List ResolvedRow)
      → p r ≡ true
      → All (λ s. s.id ≢ r.id) rs
      → IsDescending cursor rs
      → select p (insert_resolved r rs) ≡ insert_resolved r (select p rs)
  unfolding insert_resolved is_behind
  insert-selected cursor r [] e n h = rw e refl
  insert-selected cursor r (s ∷ rs) e n h = elim (Bool-cases (comes_after r s)) [
    | inl a ↦
        let rest = insert-selected (some s) r rs e n.1 h.1 in
        elim (Bool-cases (p s)) [
          | inl k ↦ rw (a, k) (rw a (ap (λ xs. s ∷ xs) rest))
          | inr k ↦ rw (a, k) rest
        ]
    | inr a ↦
        let below : IsDescending (some r) (s ∷ rs) = (comes_after_total r s n.0 a, h.1) in
        rw (a, e)
          (sym (insert_resolved-first r (select p (s ∷ rs)) (select_below p r (s ∷ rs) below)))
  ]

  -- To order a selection is to select from the ordered table.
  select-order_resolved :
      (rs : List ResolvedRow)
      → IsDistinct rs
      → select p (order_resolved rs) ≡ order_resolved (select p rs)
  unfolding order_resolved
  select-order_resolved [] d = refl
  select-order_resolved (r ∷ rs) d =
      let rest = select-order_resolved rs d.1 in
      elim (Bool-cases (p r)) [
        | inl e ↦ rw e (
            insert-selected none r (order_resolved rs) e
              (All-order_resolved (λ s. s.id ≢ r.id) rs d.0) (order_resolved-IsDescending rs d.1)
            ∙ ap (insert_resolved r) rest)
        | inr e ↦ rw e (insert-skipped r (order_resolved rs) e ∙ rest)
      ]

length-insert_resolved :
    (r : ResolvedRow) (rs : List ResolvedRow) → length (insert_resolved r rs) ≡ suc (length rs)
unfolding insert_resolved
length-insert_resolved r [] = refl
length-insert_resolved r (s ∷ rs) = ground (arith, length-insert_resolved r rs)

length-order_resolved : (rs : List ResolvedRow) → length (order_resolved rs) ≡ length rs
unfolding order_resolved
length-order_resolved [] = refl
length-order_resolved (r ∷ rs) =
    omega (arith, length-insert_resolved r (order_resolved rs), length-order_resolved rs)

insert_resolved-Perm :
    (r : ResolvedRow) (rs : List ResolvedRow) → Perm (insert_resolved r rs) (r ∷ rs)
unfolding insert_resolved
insert_resolved-Perm r [] = Perm.refl (r ∷ [])
insert_resolved-Perm r (s ∷ rs) = elim (Bool-cases (comes_after r s)) [
  | inl e ↦ rw e (Perm.trans (Perm.cons s (insert_resolved-Perm r rs)) (Perm.swap r s rs))
  | inr e ↦ rw e (Perm.refl (r ∷ (s ∷ rs)))
]

order_resolved-Perm : (rs : List ResolvedRow) → Perm (order_resolved rs) rs
unfolding order_resolved
order_resolved-Perm [] = Perm.refl []
order_resolved-Perm (r ∷ rs) =
    Perm.trans (insert_resolved-Perm r (order_resolved rs)) (Perm.cons r (order_resolved-Perm rs))

module _ (matches : ResolvedRow → Bool) (table : List ResolvedRow)
    (distinct : IsDistinct table) where
  -- The rows of a search behind a cursor, as the table has them.
  abbrev pub rows_left : Option ResolvedRow → List ResolvedRow
  rows_left cursor = select (λ r. matches r && is_behind cursor r) table

  sorted : IsDescending none (order_resolved table)
  sorted = order_resolved-IsDescending table distinct

  selected :
      (cursor : Option ResolvedRow)
      → select (λ r. matches r && is_behind cursor r) (order_resolved table)
        ≡ order_resolved (rows_left cursor)
  selected cursor = select-order_resolved (λ r. matches r && is_behind cursor r) table distinct

  selected-IsDescending :
      (cursor : Option ResolvedRow) → IsDescending cursor (order_resolved (rows_left cursor))
  selected-IsDescending cursor = subst (IsDescending cursor) (selected cursor) (
      IsDescending-select (λ r. matches r && is_behind cursor r) none cursor (order_resolved table)
        (λ r h. ground (arith, h)) sorted)

  same_page :
      (n : ℕ) (cursor : Option ResolvedRow)
      → list_resolved_page matches (order_resolved table) n cursor
        ≡ list_resolved_page matches table n cursor
  unfolding list_resolved_page
  same_page n cursor =
      ap (λ xs. cut_page n (limit (suc n) xs))
        (ap order_resolved (selected cursor)
          ∙ order_resolved-descending cursor (order_resolved (rows_left cursor))
              (selected-IsDescending cursor))

  same_pages :
      (fuel n : ℕ) (cursor : Option ResolvedRow)
      → all_pages fuel matches (order_resolved table) n cursor
        ≡ all_pages fuel matches table n cursor
  unfolding all_pages
  same_pages zero n cursor = refl
  same_pages (suc fuel) n cursor =
      ap
        (λ (page : Page).
          glue page (all_pages fuel matches (order_resolved table) n page.next_cursor))
        (same_page n cursor)
      ∙ ap (glue (list_resolved_page matches table n cursor))
          (same_pages fuel n (list_resolved_page matches table n cursor).next_cursor)

  -- In a table with distinct ids, for a page size that is not zero, a client that asks for page after page
  -- from a cursor on, with fuel above the number of rows left, comes to a page without a cursor; what it
  -- was given is each row behind the cursor that the filters keep, once, in strictly descending order.
  pub all_pages_complete :
      (fuel m : ℕ) (cursor : Option ResolvedRow)
      → length (rows_left cursor) < fuel
      → (items : List ResolvedRow) × (all_pages fuel matches table (suc m) cursor ≡ some items)
        × IsDescending cursor items
        × Perm items (rows_left cursor)
  all_pages_complete fuel m cursor f = (
    order_resolved (rows_left cursor),
    sym (same_pages fuel (suc m) cursor)
        ∙ all_pages-found matches (order_resolved table) sorted fuel m cursor (
            omega (arith, f, ap length (selected cursor), length-order_resolved (rows_left cursor)))
        ∙ ap some (selected cursor),
    selected-IsDescending cursor,
    order_resolved-Perm (rows_left cursor),
  )
