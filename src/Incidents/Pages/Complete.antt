-- ===== src/Incidents/Pages/Complete.antt =====
-- All the pages of a search, one after the other, are the whole of it.
use cairnops.Common.{
  ℕ, zero, suc, ◌≡◌, refl, ap, ◌∙◌, Bool, true, false, ◌&&◌, Option, none, some, List, [], ◌∷◌,
  select, arith, Bool-cases, inl, inr,
}
use cairnops.Realtime.Table.{limit}
use cairnops.Incidents.Pages.{
  ResolvedRow, comes_after, is_behind, insert_resolved, order_resolved, last_of,
}

-- Rows that go down strictly, all of them behind the cursor.
abbrev pub IsDescending : Option ResolvedRow → List ResolvedRow → Type 0
IsDescending cursor [] = Unit
IsDescending cursor (r ∷ rs) = (is_behind cursor r ≡ true) × IsDescending (some r) rs

comes_after_trans :
    (a b c : ResolvedRow) → comes_after a b ≡ true → comes_after b c ≡ true → comes_after a c ≡ true
unfolding comes_after
comes_after_trans a b c h k = ground arith

pub is_behind_trans :
    (cursor : Option ResolvedRow) (r s : ResolvedRow)
    → is_behind cursor r ≡ true
    → comes_after s r ≡ true
    → is_behind cursor s ≡ true
unfolding is_behind
is_behind_trans none r s h k = refl
is_behind_trans (some c) r s h k = comes_after_trans s r c k h

comes_after_asym : (a b : ResolvedRow) → comes_after a b ≡ true → comes_after b a ≡ false
unfolding comes_after
comes_after_asym a b h = ground arith

-- Rows that are in order stay as they are.
pub insert_resolved-first :
    (r : ResolvedRow) (rs : List ResolvedRow)
    → IsDescending (some r) rs
    → insert_resolved r rs ≡ r ∷ rs
unfolding insert_resolved is_behind
insert_resolved-first r [] h = refl
insert_resolved-first r (s ∷ rs) h = rw (comes_after_asym s r (h.0))

pub order_resolved-descending :
    (cursor : Option ResolvedRow) (rs : List ResolvedRow)
    → IsDescending cursor rs
    → order_resolved rs ≡ rs
unfolding order_resolved
order_resolved-descending cursor [] h = refl
order_resolved-descending cursor (r ∷ rs) h =
    ap (insert_resolved r) (order_resolved-descending (some r) rs h.1)
    ∙ insert_resolved-first r rs h.1

pub IsDescending-raise :
    (cursor : Option ResolvedRow) (r : ResolvedRow) (rs : List ResolvedRow)
    → is_behind cursor r ≡ true
    → IsDescending (some r) rs
    → IsDescending cursor rs
unfolding is_behind
IsDescending-raise cursor r [] b h = tt
IsDescending-raise cursor r (s ∷ rs) b h = (is_behind_trans cursor r s b (h.0), h.1)

pub select_below :
    (p : ResolvedRow → Bool) (r : ResolvedRow) (rs : List ResolvedRow)
    → IsDescending (some r) rs
    → IsDescending (some r) (select p rs)
select_below p r [] h = tt
select_below p r (s ∷ rs) h = elim (Bool-cases (p s)) [
  | inl e ↦ rw e (h.0, select_below p s rs h.1)
  | inr e ↦ rw e (select_below p r rs (IsDescending-raise (some r) s rs (h.0) h.1))
]

-- A selection of rows in order is in order, behind each cursor that it tests.
pub IsDescending-select :
    (p : ResolvedRow → Bool) (above cursor : Option ResolvedRow) (rs : List ResolvedRow)
    → ((r : ResolvedRow) → p r ≡ true → is_behind cursor r ≡ true)
    → IsDescending above rs
    → IsDescending cursor (select p rs)
IsDescending-select p above cursor [] f h = tt
IsDescending-select p above cursor (r ∷ rs) f h = elim (Bool-cases (p r)) [
  | inl e ↦ rw e (f r e, select_below p r rs h.1)
  | inr e ↦ rw e (IsDescending-select p (some r) cursor rs f h.1)
]

select_none :
    (r : ResolvedRow) (rs : List ResolvedRow)
    → IsDescending (some r) rs
    → select (is_behind (some r)) rs ≡ rs
select_none r [] h = refl
select_none r (s ∷ rs) h =
    rw (h.0) (ap (λ x. s ∷ x) (select_none r rs (IsDescending-raise (some r) s rs (h.0) h.1)))

abbrev pub drop : ℕ → List ResolvedRow → List ResolvedRow
drop zero xs = xs
drop (suc n) [] = []
drop (suc n) (x ∷ xs) = drop n xs

comes_after_irrefl : (r : ResolvedRow) → comes_after r r ≡ false
unfolding comes_after
comes_after_irrefl r = ground arith

-- A row above the rows of a page is not behind the last of them.
above_last :
    (r s : ResolvedRow) (n : ℕ) (rs : List ResolvedRow)
    → comes_after s r ≡ true
    → IsDescending (some s) rs
    → is_behind (last_of (some s) (limit n rs)) r ≡ false
unfolding last_of is_behind
above_last r s zero rs k h = comes_after_asym s r k
above_last r s (suc n) [] k h = comes_after_asym s r k
above_last r s (suc n) (u ∷ rs) k h = above_last r u n rs (comes_after_trans u s r (h.0) k) h.1

pub after_of : (r s : ResolvedRow) → is_behind (some r) s ≡ true → comes_after s r ≡ true
unfolding is_behind
after_of r s h = h

behind_itself : (r : ResolvedRow) → is_behind (some r) r ≡ false
unfolding is_behind
behind_itself r = comes_after_irrefl r

pub last_of_behind :
    (r : ResolvedRow) (n : ℕ) (rs : List ResolvedRow)
    → IsDescending (some r) rs
    → select (is_behind (last_of (some r) (limit n rs))) (r ∷ rs) ≡ drop n rs
unfolding last_of
last_of_behind r zero rs h = rw (behind_itself r) (select_none r rs h)
last_of_behind r (suc n) [] h = rw (behind_itself r)
last_of_behind r (suc n) (s ∷ rs) h =
    rw (above_last r s n rs (after_of r s (h.0)) h.1) (last_of_behind s n rs h.1)

pub select-select :
    (p q w : ResolvedRow → Bool) (rs : List ResolvedRow)
    → ((r : ResolvedRow) → q r ≡ true → w r ≡ true)
    → select (λ r. p r && q r) rs ≡ select q (select (λ r. p r && w r) rs)
select-select p q w [] f = refl
select-select p q w (r ∷ rs) f = ground (arith, f r, select-select p q w rs f)
