-- ===== src/Versions/Laws.antt =====
-- What Compare and Assess say of two versions.
use cairnops.Common.{ℕ, zero, suc, ◌<◌, ◌≡◌, ◌⊎◌, refl, ◌∙◌, sym, List, [], ◌∷◌, arith, inl, inr}
use cairnops.Versions.Order.{Ordering, less, same, greater, order_numbers, then_by, compare_numbers}
use cairnops.Versions.{component}

-- The first component in which two versions differ, and in which direction; a missing one is zero.
abbrev pub IsFirst : List ℕ → List ℕ → Type 0
IsFirst l r =
    (k : ℕ) × (component l k < component r k) × ((i : ℕ) → i < k → component l i ≡ component r i)

abbrev pub IsOrder : Ordering → List ℕ → List ℕ → Type 0
IsOrder less l r = IsFirst l r
IsOrder same l r = (i : ℕ) → component l i ≡ component r i
IsOrder greater l r = IsFirst r l

numbers_cases :
    (l r : ℕ)
    → ((order_numbers l r ≡ less) × (l < r))
      ⊎ (((order_numbers l r ≡ same) × (l ≡ r)) ⊎ ((order_numbers l r ≡ greater) × (r < l)))
unfolding order_numbers
numbers_cases l r = ground arith

-- The components behind the first are those of the rest.
abbrev rest : List ℕ → List ℕ
rest [] = []
rest (x ∷ xs) = xs

component-suc : (l : List ℕ) (i : ℕ) → component l (suc i) ≡ component (rest l) i
component-suc [] i = refl
component-suc (x ∷ xs) i = refl

below_zero : (l r : List ℕ) (i : ℕ) → i < 0 → component l i ≡ component r i
below_zero l r i h = absurd (omega (arith, h))

later-IsFirst :
    (l r : List ℕ) → component l 0 ≡ component r 0 → IsFirst (rest l) (rest r) → IsFirst l r
later-IsFirst l r e f = (suc f.0, rw (component-suc l f.0, component-suc r f.0) (f.1), equal)
  where
    equal : (i : ℕ) → i < suc f.0 → component l i ≡ component r i
    equal zero h = e
    equal (suc i) h = component-suc l i ∙ f.2 i (omega (arith, h)) ∙ sym (component-suc r i)

later_same :
    (l r : List ℕ)
    → component l 0 ≡ component r 0
    → ((i : ℕ) → component (rest l) i ≡ component (rest r) i)
    → (i : ℕ) → component l i ≡ component r i
later_same l r e f zero = e
later_same l r e f (suc i) = component-suc l i ∙ f i ∙ sym (component-suc r i)

later-IsOrder :
    (o : Ordering) (l r : List ℕ)
    → component l 0 ≡ component r 0
    → IsOrder o (rest l) (rest r)
    → IsOrder o l r
later-IsOrder less l r e h = later-IsFirst l r e h
later-IsOrder same l r e h = later_same l r e h
later-IsOrder greater l r e h = later-IsFirst r l (sym e) h

step-IsOrder :
    (o : Ordering) (l r : List ℕ)
    → IsOrder o (rest l) (rest r)
    → IsOrder (then_by (order_numbers (component l 0) (component r 0)) o) l r
step-IsOrder o l r h = elim (numbers_cases (component l 0) (component r 0)) [
  | inl (e, d) ↦ rw e (0, d, below_zero l r)
  | inr (inl (e, d)) ↦ rw e (later-IsOrder o l r d h)
  | inr (inr (e, d)) ↦ rw e (0, d, below_zero r l)
]

-- compareNumbers decides by the first component in which the two versions differ, where a component that
-- is missing counts as zero, and calls them equal exactly where every component is.
pub compare_numbers-IsOrder : (l r : List ℕ) → IsOrder (compare_numbers l r) l r
unfolding compare_numbers
compare_numbers-IsOrder [] [] = λ i. refl
compare_numbers-IsOrder (l ∷ ls) [] =
    step-IsOrder (compare_numbers ls []) (l ∷ ls) [] (compare_numbers-IsOrder ls [])
compare_numbers-IsOrder [] (r ∷ rs) =
    step-IsOrder (compare_numbers [] rs) [] (r ∷ rs) (compare_numbers-IsOrder [] rs)
compare_numbers-IsOrder (l ∷ ls) (r ∷ rs) =
    step-IsOrder (compare_numbers ls rs) (l ∷ ls) (r ∷ rs) (compare_numbers-IsOrder ls rs)
