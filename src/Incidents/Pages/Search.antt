-- ===== src/Incidents/Pages/Search.antt =====
-- A search asked for page after page.
use cairnops.Common.{
  ltb-false, ℕ, zero, suc, ◌≤◌, ◌<◌, ◌≡◌, refl, ap, ◌∙◌, sym, subst, Bool, true, false, ◌&&◌,
  Option, none, some, List, [], ◌∷◌, ◌++◌, ltb, ltb→lt, select, length, arith, Bool-cases, inl, inr,
}
use cairnops.Realtime.Table.{limit}
use cairnops.Incidents.Pages.{
  ResolvedRow, is_behind, last_of, cut_page, list_resolved_page, all_pages, glue,
}
use cairnops.Incidents.Pages.Complete.{
  IsDescending, IsDescending-select, is_behind_trans, order_resolved-descending, last_of_behind,
  select-select, drop, after_of,
}

limit-limit : (n : ℕ) (xs : List ResolvedRow) → limit n (limit (suc n) xs) ≡ limit n xs
limit-limit zero xs = refl
limit-limit (suc n) [] = refl
limit-limit (suc n) (x ∷ xs) = ap (λ y. x ∷ y) (limit-limit n xs)

limit_all : (n : ℕ) (xs : List ResolvedRow) → length xs ≤ n → limit (suc n) xs ≡ xs
limit_all n [] h = refl
limit_all zero (x ∷ xs) h = absurd (omega (arith, h))
limit_all (suc n) (x ∷ xs) h = ap (λ y. x ∷ y) (limit_all n xs (omega (arith, h)))

limit_more : (n : ℕ) (xs : List ResolvedRow) → n < length xs → n < length (limit (suc n) xs)
limit_more n [] h = absurd (omega (arith, h))
limit_more zero (x ∷ xs) h = omega arith
limit_more (suc n) (x ∷ xs) h = omega (arith, limit_more n xs (omega (arith, h)))

limit-drop : (n : ℕ) (xs : List ResolvedRow) → limit n xs ++ drop n xs ≡ xs
limit-drop zero xs = refl
limit-drop (suc n) [] = refl
limit-drop (suc n) (x ∷ xs) = ap (λ y. x ∷ y) (limit-drop n xs)

length-drop_less : (n : ℕ) (xs : List ResolvedRow) → length (drop n xs) ≤ length xs
length-drop_less zero xs = omega arith
length-drop_less (suc n) [] = omega arith
length-drop_less (suc n) (x ∷ xs) = omega (arith, length-drop_less n xs)

not_below : (a b : ℕ) → b ≤ a → ltb a b ≡ false
not_below a b h = ground arith

is_below : (a b : ℕ) → a < b → ltb a b ≡ true
is_below a b h = ground arith

cut_page_last :
    (n : ℕ) (xs : List ResolvedRow)
    → length xs ≤ n
    → cut_page n (limit (suc n) xs) ≡ record { incidents = xs; next_cursor = none }
unfolding cut_page
cut_page_last n xs h = rw (limit_all n xs h, not_below n (length xs) h)

cut_page_more :
    (n : ℕ) (xs : List ResolvedRow)
    → n < length xs
    → cut_page n (limit (suc n) xs)
      ≡ record { incidents = limit n xs; next_cursor = last_of none (limit n xs) }
unfolding cut_page
cut_page_more n xs h =
    rw (is_below n (length (limit (suc n) xs)) (limit_more n xs h), limit-limit n xs)

last_row : ResolvedRow → List ResolvedRow → ResolvedRow
last_row r [] = r
last_row r (s ∷ rs) = last_row s rs

last_of-some :
    (r : ResolvedRow) (rs : List ResolvedRow) → last_of (some r) rs ≡ some (last_row r rs)
unfolding last_of last_row
last_of-some r [] = refl
last_of-some r (s ∷ rs) = last_of-some s rs

first_row : (r : ResolvedRow) (rs : List ResolvedRow) → last_of none (r ∷ rs) ≡ last_of (some r) rs
unfolding last_of
first_row r rs = refl

last_row_behind :
    (cursor : Option ResolvedRow) (r : ResolvedRow) (n : ℕ) (rs : List ResolvedRow)
    → is_behind cursor r ≡ true
    → IsDescending (some r) rs
    → is_behind cursor (last_row r (limit n rs)) ≡ true
unfolding last_row
last_row_behind cursor r zero rs b h = b
last_row_behind cursor r (suc n) [] b h = b
last_row_behind cursor r (suc n) (s ∷ rs) b h =
    last_row_behind cursor s n rs (is_behind_trans cursor r s b (after_of r s (h.0))) h.1

module _ (matches : ResolvedRow → Bool) (table : List ResolvedRow)
    (ordered : IsDescending none table) where
  -- What is left of a search behind a cursor.
  abbrev pub found : Option ResolvedRow → List ResolvedRow
  found cursor = select (λ r. matches r && is_behind cursor r) table

  found-IsDescending : (cursor : Option ResolvedRow) → IsDescending cursor (found cursor)
  found-IsDescending cursor =
      IsDescending-select (λ r. matches r && is_behind cursor r) none cursor table
        (λ r h. second (matches r) (is_behind cursor r) h) ordered
    where
      second : (a b : Bool) → (a && b) ≡ true → b ≡ true
      second a b h = ground arith

  list_resolved_page-eq :
      (n : ℕ) (cursor : Option ResolvedRow)
      → list_resolved_page matches table n cursor ≡ cut_page n (limit (suc n) (found cursor))
  unfolding list_resolved_page
  list_resolved_page-eq n cursor =
      ap (λ xs. cut_page n (limit (suc n) xs))
        (order_resolved-descending cursor (found cursor) (found-IsDescending cursor))

  -- The search behind the last row of a page is the rest.
  found_next :
      (m : ℕ) (cursor : Option ResolvedRow) (r : ResolvedRow) (rs : List ResolvedRow)
      → found cursor ≡ r ∷ rs
      → IsDescending cursor (r ∷ rs)
      → found (last_of (some r) (limit m rs)) ≡ drop m rs
  found_next m cursor r rs e h =
      subst (λ o. found o ≡ drop m rs) (sym (last_of-some r (limit m rs)))
        (select-select matches (is_behind (some (last_row r (limit m rs)))) (is_behind cursor) table
            (λ s b.
              is_behind_trans cursor (last_row r (limit m rs)) s
                (last_row_behind cursor r m rs (h.0) h.1) (after_of (last_row r (limit m rs)) s b))
          ∙ ap (select (is_behind (some (last_row r (limit m rs))))) e
          ∙ ap (λ o. select (is_behind o) (r ∷ rs)) (sym (last_of-some r (limit m rs)))
          ∙ last_of_behind r m rs h.1)

  all_pages_last :
      (fuel n : ℕ) (cursor : Option ResolvedRow) (items : List ResolvedRow)
      → list_resolved_page matches table n cursor ≡ record { incidents = items; next_cursor = none }
      → all_pages (suc fuel) matches table n cursor ≡ some items
  unfolding all_pages
  all_pages_last fuel n cursor items e =
      subst (λ page. glue page (all_pages fuel matches table n page.next_cursor) ≡ some items)
        (sym e) refl

  all_pages_more :
      (fuel n : ℕ) (cursor : Option ResolvedRow) (next : ResolvedRow)
      (items more : List ResolvedRow)
      → list_resolved_page matches table n cursor
        ≡ record { incidents = items; next_cursor = some next }
      → all_pages fuel matches table n (some next) ≡ some more
      → all_pages (suc fuel) matches table n cursor ≡ some (items ++ more)
  unfolding all_pages
  all_pages_more fuel n cursor next items more e f =
      subst
        (λ page. glue page (all_pages fuel matches table n page.next_cursor) ≡ some (items ++ more))
        (sym e) (ap (glue (record { incidents = items; next_cursor = some next })) f)

  page_of :
      (n : ℕ) (cursor : Option ResolvedRow) (ys : List ResolvedRow)
      → found cursor ≡ ys
      → list_resolved_page matches table n cursor ≡ cut_page n (limit (suc n) ys)
  page_of n cursor ys e =
      list_resolved_page-eq n cursor ∙ ap (λ xs. cut_page n (limit (suc n) xs)) e

  all_pages_step :
      (fuel m : ℕ) (cursor : Option ResolvedRow) (ys : List ResolvedRow)
      → found cursor ≡ ys
      → IsDescending cursor ys
      → length ys < suc fuel
      → ((c : Option ResolvedRow)
          → length (found c) < fuel
          → all_pages fuel matches table (suc m) c ≡ some (found c))
      → all_pages (suc fuel) matches table (suc m) cursor ≡ some ys
  all_pages_step fuel m cursor [] e h f again =
      all_pages_last fuel (suc m) cursor []
        (page_of (suc m) cursor [] e ∙ cut_page_last (suc m) [] (omega arith))
  all_pages_step fuel m cursor (r ∷ rs) e h f again =
      elim (Bool-cases (ltb (suc m) (length (r ∷ rs)))) [
        | inr whole ↦ all_pages_last fuel (suc m) cursor (r ∷ rs) (
            page_of (suc m) cursor (r ∷ rs) e
            ∙ cut_page_last (suc m) (r ∷ rs) (ltb-false (suc m) (length (r ∷ rs)) whole))
        | inl long ↦
            let last : ResolvedRow = last_row r (limit m rs) in
            let left : found (some last) ≡ drop m rs =
              ap found (sym (last_of-some r (limit m rs))) ∙ found_next m cursor r rs e h in
            all_pages_more fuel (suc m) cursor last (r ∷ limit m rs) (drop m rs)
              (page_of (suc m) cursor (r ∷ rs) e
                ∙ cut_page_more (suc m) (r ∷ rs) (ltb→lt (suc m) (length (r ∷ rs)) long)
                ∙ ap (λ o. record { incidents = r ∷ limit m rs; next_cursor = o })
                    (first_row r (limit m rs) ∙ last_of-some r (limit m rs)))
              (again (some last) (omega (arith, ap length left, length-drop_less m rs, f))
                ∙ ap some left)
            ∙ ap (λ xs. some (r ∷ xs)) (limit-drop m rs)
      ]

  -- The pages of a table that is in order, where a page size is not zero.
  pub all_pages-found :
      (fuel m : ℕ) (cursor : Option ResolvedRow)
      → length (found cursor) < fuel
      → all_pages fuel matches table (suc m) cursor ≡ some (found cursor)
  all_pages-found zero m cursor f = absurd (omega (arith, f))
  all_pages-found (suc fuel) m cursor f =
      all_pages_step fuel m cursor (found cursor) refl (found-IsDescending cursor) f
        (λ c. all_pages-found fuel m c)
