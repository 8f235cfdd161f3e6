-- ===== src/Common/Order.antt =====
-- ORDER BY with LIMIT 1, on the rows of a table.
use Prim.Native.Nat.{ℕ}
use mathlib.Core.Option.{Option, none, some}
use mathlib.Core.List.{List, [], ◌∷◌}
use cairnops.Common.Tests.{ltb, if◌then◌else◌}

-- The first of the rows with the greatest key, and with the least: ORDER BY key DESC or ASC, LIMIT 1.
module _ {ℓ} {A : Type ℓ} (key : A → ℕ) where
  abbrev pub latest_from : A → List A → A
  latest_from x [] = x
  latest_from x (y ∷ ys) = latest_from (if ltb (key x) (key y) then y else x) ys

  abbrev pub latest : List A → Option A
  latest [] = none
  latest (x ∷ xs) = some (latest_from x xs)

  abbrev pub earliest_from : A → List A → A
  earliest_from x [] = x
  earliest_from x (y ∷ ys) = earliest_from (if ltb (key y) (key x) then y else x) ys

  abbrev pub earliest : List A → Option A
  earliest [] = none
  earliest (x ∷ xs) = some (earliest_from x xs)
