-- ===== src/Limiter.antt =====
-- internal/pushrelay/limiter.go: how many requests of a key pass in a window.
pub mod View
pub mod Rule
use cairnops.Common.{
  ℕ, suc, String, str_eq, Bool, true, false, ◌||◌, Option, none, some, List, [], ◌∷◌, ltb, leb,
  if◌then◌else◌, length, select, not,
}
use cairnops.Common.Int.{ℤ, pos, leb_ℤ, sub_time}

pub record RateWindow : Type 0 where
  pub started : ℕ
  pub count : ℕ

pub record Item : Type 0 where
  pub key : String
  pub value : RateWindow

-- `items` is the map: one row for each key.
pub record RateLimiter : Type 0 where
  pub limit : ℤ
  pub window : ℤ
  pub items : List Item

unfoldable pub lookup : String → List Item → Option RateWindow
lookup key [] = none
lookup key (i ∷ is) = let rest = lookup key is in if str_eq i.key key then some i.value else rest

-- `items[key] = value`.
unfoldable pub put : String → RateWindow → List Item → List Item
put key value [] = record { key = key; value = value } ∷ []
put key value (i ∷ is) =
    let rest = put key value is in
    if str_eq i.key key then record { key = key; value = value } ∷ is else i ∷ rest

-- `now.Sub(item.started) >= limiter.window`.
unfoldable pub is_over : ℤ → ℕ → RateWindow → Bool
is_over window now w = leb_ℤ window (sub_time now w.started)

unfoldable pub prune : ℤ → ℕ → List Item → List Item
unfolding is_over
prune window now items =
    if ltb (length items) 1024 then items else select (λ i. not (is_over window now i.value)) items

unfoldable pub open_window : String → ℕ → RateLimiter → RateLimiter
unfolding put prune
open_window key now l = record l {
  items = prune l.window now (put key (record { started = now; count = 1 }) l.items);
}

-- Allow on a limiter whose limit and window are positive.
unfoldable pub allow_bounded : String → ℕ → RateLimiter → Bool × RateLimiter
unfolding lookup is_over open_window put
allow_bounded key now l = elim (lookup key l.items) [
  | none ↦ (true, open_window key now l)
  | some w ↦
      if is_over l.window now w
      then (true, open_window key now l)
      else if leb_ℤ l.limit (pos w.count)
      then (false, l)
      else (
        true,
        record l { items = put key (record { started = w.started; count = suc w.count }) l.items },
      )
]

unfoldable pub allow : String → ℕ → RateLimiter → Bool × RateLimiter
unfolding allow_bounded
allow key now l =
    let bounded = allow_bounded key now l in
    if leb_ℤ l.limit (pos 0) || leb_ℤ l.window (pos 0) then (true, l) else bounded
