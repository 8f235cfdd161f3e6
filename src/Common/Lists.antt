-- ===== src/Common/Lists.antt =====
-- Lists as the rows of a table: selection, update, the first row that fits, and their laws.
use Prim.Native.Nat.{ℕ, suc}
use mathlib.Core.Path.{◌≡◌, refl}
use mathlib.Core.Logic.{inl, inr}
use mathlib.Core.Bool.{Bool, true, false, ◌&&◌, ◌||◌}
use mathlib.Core.Option.{Option, none, some}
use mathlib.Core.List.{List, [], ◌∷◌, ◌++◌}
use native.Mathlib.Omega.{arith}
use mathlib.Core.Option
use mathlib.Core.Path.{subst, ◌∙◌, ap}
use cairnops.Common.Tests.{if◌then◌else◌, ◌==◌, Bool-cases, some_eq}

abbrev pub All {ℓ κ} : {A : Type ℓ} → (A → Type κ) → List A → Type κ
All P [] = Unit
All P (x ∷ xs) = P x × All P xs

pub All-mono {ℓ κ μ} :
    {A : Type ℓ} (P : A → Type κ) (Q : A → Type μ) (xs : List A)
    → ((x : A) → P x → Q x)
    → All P xs
    → All Q xs
All-mono P Q [] h a = tt
All-mono P Q (x ∷ xs) h a = (h x a.0, All-mono P Q xs h a.1)

pub All-both {ℓ κ μ} :
    {A : Type ℓ} (P : A → Type κ) (Q : A → Type μ) (xs : List A)
    → All P xs
    → All Q xs
    → All (λ x. P x × Q x) xs
All-both P Q [] a b = tt
All-both P Q (x ∷ xs) a b = ((a.0, b.0), All-both P Q xs a.1 b.1)

pub All-append {ℓ κ} :
    {A : Type ℓ} (P : A → Type κ) (xs ys : List A) → All P xs → All P ys → All P (xs ++ ys)
All-append P [] ys a b = b
All-append P (x ∷ xs) ys a b = (a.0, All-append P xs ys a.1 b)

module _ {ℓ} {A : Type ℓ} where
  abbrev pub length : List A → ℕ
  length [] = 0
  length (x ∷ xs) = suc (length xs)

  -- `SELECT … WHERE p`.
  abbrev pub select : (A → Bool) → List A → List A
  select p [] = []
  select p (x ∷ xs) = if p x then x ∷ select p xs else select p xs

  -- `count(*) FILTER (WHERE p)`.
  abbrev pub count_where : (A → Bool) → List A → ℕ
  count_where p [] = 0
  count_where p (x ∷ xs) = if p x then suc (count_where p xs) else count_where p xs

  -- `EXISTS (SELECT 1 … WHERE p)`.
  abbrev pub exists : (A → Bool) → List A → Bool
  exists p [] = false
  exists p (x ∷ xs) = p x || exists p xs

  -- `SELECT … WHERE p LIMIT 1`.
  abbrev pub find? : (A → Bool) → List A → Option A
  find? p [] = none
  find? p (x ∷ xs) = if p x then some x else find? p xs

  -- `UPDATE … SET f WHERE p`.
  abbrev pub update_where : (A → Bool) → (A → A) → List A → List A
  update_where p f [] = []
  update_where p f (x ∷ xs) = (if p x then f x else x) ∷ update_where p f xs

  pub All-update_where {κ} :
      (P : A → Type κ) (p : A → Bool) (f : A → A) (xs : List A)
      → ((x : A) → P x → p x ≡ true → P (f x))
      → All P xs
      → All P (update_where p f xs)
  All-update_where P p f [] h a = tt
  All-update_where P p f (x ∷ xs) h a = (head, All-update_where P p f xs h a.1)
    where
      head : P (if p x then f x else x)
      head = elim (Bool-cases (p x)) [ inl e ↦ rw e (h x a.0 e) | inr e ↦ rw e a.0 ]

  -- An update takes one property of the rows to another.
  pub All-update_where_to {κ μ} :
      (P : A → Type κ) (Q : A → Type μ) (p : A → Bool) (f : A → A) (xs : List A)
      → ((x : A) → P x → p x ≡ true → Q (f x))
      → ((x : A) → P x → p x ≡ false → Q x)
      → All P xs
      → All Q (update_where p f xs)
  All-update_where_to P Q p f [] h k a = tt
  All-update_where_to P Q p f (x ∷ xs) h k a = (head, All-update_where_to P Q p f xs h k a.1)
    where
      head : Q (if p x then f x else x)
      head = elim (Bool-cases (p x)) [ inl e ↦ rw e (h x a.0 e) | inr e ↦ rw e (k x a.0 e) ]

  pub All-select {κ} :
      (P : A → Type κ) (p : A → Bool) (xs : List A) → All P xs → All P (select p xs)
  All-select P p [] a = tt
  All-select P p (x ∷ xs) a = elim (Bool-cases (p x)) [
    | inl h ↦ rw h (a.0, All-select P p xs a.1)
    | inr h ↦ rw h (All-select P p xs a.1)
  ]

  pub select_fits : (p : A → Bool) (xs : List A) → All (λ x. p x ≡ true) (select p xs)
  select_fits p [] = tt
  select_fits p (x ∷ xs) = elim (Bool-cases (p x)) [
    | inl h ↦ rw h (h, select_fits p xs)
    | inr h ↦ rw h (select_fits p xs)
  ]

  pub All-find? {κ} :
      (P : A → Type κ) (p : A → Bool) (xs : List A) {x : A} → All P xs → find? p xs ≡ some x → P x
  All-find? P p [] a e = cc
  All-find? P p (y ∷ xs) {x} a e = elim (Bool-cases (p y)) [
    | inl h ↦ subst P (some_eq (rw h at e)) a.0
    | inr h ↦ All-find? P p xs a.1 (rw h at e)
  ]

  pub find?-fits : (p : A → Bool) (xs : List A) {x : A} → find? p xs ≡ some x → p x ≡ true
  find?-fits p [] e = cc
  find?-fits p (y ∷ xs) {x} e = elim (Bool-cases (p y)) [
    | inl h ↦ subst (λ z. p z ≡ true) (some_eq (rw h at e)) h
    | inr h ↦ find?-fits p xs (rw h at e)
  ]

  -- Two updates of the same rows are one.
  pub update_where_twice :
      (p : A → Bool) (f g : A → A) (xs : List A)
      → ((x : A) → p (f x) ≡ p x)
      → update_where p g (update_where p f xs) ≡ update_where p (λ x. g (f x)) xs
  update_where_twice p f g [] h = refl
  update_where_twice p f g (x ∷ xs) h = ground (arith, h x, update_where_twice p f g xs h)

  pub update_where-&& :
      (p q : A → Bool) (g : A → A) (xs : List A)
      → update_where (λ x. p x && q x) g xs ≡ update_where p (λ x. if q x then g x else x) xs
  update_where-&& p q g [] = refl
  update_where-&& p q g (x ∷ xs) = ground (arith, update_where-&& p q g xs)

  -- A lookup of a row that was updated, where the update leaves what the lookup tests.
  pub find?-update_where :
      (p q : A → Bool) (f : A → A) (xs : List A)
      → ((x : A) → p (f x) ≡ p x)
      → find? p (update_where q f xs) ≡ Option.map (λ x. if q x then f x else x) (find? p xs)
  find?-update_where p q f [] h = refl
  find?-update_where p q f (x ∷ xs) h = ground (arith, h x, find?-update_where p q f xs h)

  pub exists-update_where :
      (p q : A → Bool) (f : A → A) (xs : List A)
      → ((x : A) → p (f x) ≡ p x)
      → exists p (update_where q f xs) ≡ exists p xs
  exists-update_where p q f [] h = refl
  exists-update_where p q f (x ∷ xs) h = ground (arith, h x, exists-update_where p q f xs h)

  -- Each row is the one that its key finds: the key is primary.
  abbrev pub IsKeyed : (A → ℕ) → List A → Type ℓ
  IsKeyed key xs = All (λ x. find? (λ y. key y == key x) xs ≡ some x) xs

  All-update-IsKeyed :
      (key : A → ℕ) (q : A → Bool) (f : A → A) (all xs : List A)
      → ((x : A) → key (f x) ≡ key x)
      → All (λ x. find? (λ y. key y == key x) all ≡ some x) xs
      → All (λ x. find? (λ y. key y == key x) (update_where q f all) ≡ some x) (update_where q f xs)
  All-update-IsKeyed key q f all [] h a = tt
  All-update-IsKeyed key q f all (x ∷ xs) h a = (head, All-update-IsKeyed key q f all xs h a.1)
    where
      same : key (if q x then f x else x) ≡ key x
      same = elim (Bool-cases (q x)) [ inl e ↦ rw e (h x) | inr e ↦ rw e ]

      stays : (y : A) → (key (f y) == key x) ≡ (key y == key x)
      stays y = rw (h y)

      head :
          find? (λ y. key y == key (if q x then f x else x)) (update_where q f all)
          ≡ some (if q x then f x else x)
      head = rw same (
          find?-update_where (λ y. key y == key x) q f all stays
          ∙ ap (Option.map (λ y. if q y then f y else y)) a.0)

  pub update_where-IsKeyed :
      (key : A → ℕ) (q : A → Bool) (f : A → A) (xs : List A)
      → ((x : A) → key (f x) ≡ key x)
      → IsKeyed key xs
      → IsKeyed key (update_where q f xs)
  update_where-IsKeyed key q f xs h a = All-update-IsKeyed key q f xs xs h a
