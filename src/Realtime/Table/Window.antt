-- ===== src/Realtime/Table/Window.antt =====
-- The events of an ascending table between two versions, and what the queries return there.
use cairnops.Common.{
  ltb-false, ℕ, zero, suc, ◌≤◌, ◌<◌, ◌≡◌, refl, Bool, false, List, [], ◌∷◌, ◌++◌, ltb, leb, ltb→lt,
  subst, select, ◌&&◌, arith, ap, ◌∙◌, sym, Bool-cases, inl, inr,
}
use cairnops.Realtime.Table.{Event, limit, insert_version, order_by_version, list_after}
use cairnops.Realtime.Hub.{last_version}

-- Versions above `bound` that go up: the order in which a table's rows are committed.
abbrev pub IsAscending : ℕ → List Event → Type 0
IsAscending bound [] = Unit
IsAscending bound (e ∷ es) = (bound < e.version) × IsAscending e.version es

abbrev pub in_window : ℕ → ℕ → Event → Bool
in_window after until e = ltb after e.version && leb e.version until

-- The events after one version and up to another.
abbrev pub window : ℕ → ℕ → List Event → List Event
window after until table = select (in_window after until) table

IsAscending-lower :
    (a b : ℕ) (table : List Event) → a ≤ b → IsAscending b table → IsAscending a table
IsAscending-lower a b [] h s = tt
IsAscending-lower a b (e ∷ es) h s = (omega (arith, s.0), s.1)

pub insert_version-least :
    (e : Event) (es : List Event) → IsAscending e.version es → insert_version e es ≡ e ∷ es
unfolding insert_version
insert_version-least e [] s = refl
insert_version-least e (f ∷ fs) s = ground (arith, s.0)

pub order_by_version-ascending :
    (b : ℕ) (table : List Event) → IsAscending b table → order_by_version table ≡ table
unfolding order_by_version
order_by_version-ascending b [] s = refl
order_by_version-ascending b (e ∷ es) s =
    ap (insert_version e) (order_by_version-ascending e.version es s.1)
    ∙ insert_version-least e es s.1

IsAscending-select :
    (p : Event → Bool) (b : ℕ) (table : List Event)
    → IsAscending b table
    → IsAscending b (select p table)
IsAscending-select p b [] s = tt
IsAscending-select p b (e ∷ es) s = elim (Bool-cases (p e)) [
  | inl h ↦ rw h (s.0, IsAscending-select p e.version es s.1)
  | inr h ↦
      rw h (IsAscending-select p b es (IsAscending-lower b e.version es (omega (arith, s.0)) s.1))
]

-- What the code reads after a version of an ascending table.
pub list_after-ascending :
    (table : List Event) (version n : ℕ)
    → IsAscending 0 table
    → list_after table version n ≡ limit n (select (λ e. ltb version e.version) table)
unfolding list_after
list_after-ascending table version n s = ap (limit n) (
    order_by_version-ascending 0 (select (λ e. ltb version e.version) table)
      (IsAscending-select (λ e. ltb version e.version) 0 table s))

pub window_empty :
    (b a v : ℕ) (table : List Event) → v ≤ b → IsAscending b table → window a v table ≡ []
window_empty b a v [] h s = refl
window_empty b a v (e ∷ es) h s =
    ground (arith, s.0, window_empty e.version a v es (omega (arith, s.0)) s.1)

pub select_after :
    (b v : ℕ) (table : List Event)
    → v ≤ b
    → IsAscending b table
    → select (λ e. ltb v e.version) table ≡ table
select_after b v [] h s = refl
select_after b v (e ∷ es) h s =
    ground (arith, s.0, select_after e.version v es (omega (arith, s.0)) s.1)

limit_nil : (n : ℕ) → limit {A = Event} n [] ≡ []
limit_nil zero = refl
limit_nil (suc n) = refl

leb-false : (a b : ℕ) → leb a b ≡ false → b < a
leb-false a b h = ground arith

window_after :
    (b a v w : ℕ) (table : List Event)
    → a ≤ b
    → v ≤ b
    → IsAscending b table
    → window a w table ≡ window v w table
window_after b a v w [] h k s = refl
window_after b a v w (e ∷ es) h k s =
    ground
      (arith, s.0, window_after e.version a v w es (omega (arith, s.0)) (omega (arith, s.0)) s.1)

-- A window up to a version and the window from there on make one.
pub window_split :
    (b a v w : ℕ) (table : List Event)
    → a ≤ v
    → v ≤ w
    → IsAscending b table
    → window a w table ≡ window a v table ++ window v w table
window_split b a v w [] h k s = refl
window_split b a v w (e ∷ es) h k s = elim (Bool-cases (leb e.version v)) [
  | inl below ↦ ground (arith, window_split e.version a v w es h k s.1)
  | inr above ↦ ground (
    arith,
    window_empty e.version a v es (omega (arith, leb-false e.version v above)) s.1,
    window_after e.version a v w es (omega (arith, leb-false e.version v above))
        (omega (arith, leb-false e.version v above)) s.1,
  )
]

pub last_version-limit :
    (b n : ℕ) (table : List Event) → IsAscending b table → b ≤ last_version b (limit n table)
unfolding last_version
last_version-limit b zero table s = omega arith
last_version-limit b (suc n) [] s = omega arith
last_version-limit b (suc n) (e ∷ es) s = omega (arith, last_version-limit e.version n es s.1, s.0)

-- The first events of a table are those up to the last of them.
limit-window :
    (b v n : ℕ) (table : List Event)
    → v ≤ b
    → IsAscending b table
    → window v (last_version b (limit n table)) table ≡ limit n table
unfolding last_version
limit-window b v zero table h s = window_empty b v b table (omega arith) s
limit-window b v (suc n) [] h s = refl
limit-window b v (suc n) (e ∷ es) h s = ground (
  arith,
  s.0,
  last_version-limit e.version n es s.1,
  limit-window e.version v n es (omega (arith, s.0)) s.1,
)

-- A read after a version returns the events up to the version that the hub takes from it.
pub read-window :
    (b v n : ℕ) (table : List Event)
    → b ≤ v
    → IsAscending b table
    → window v (last_version v (limit n (select (λ e. ltb v e.version) table))) table
      ≡ limit n (select (λ e. ltb v e.version) table)
unfolding last_version
read-window b v n [] h s = sym (limit_nil n)
read-window b v n (e ∷ es) h s = elim (Bool-cases (ltb v e.version)) [
  | inl after ↦
      let above : IsAscending v (e ∷ es) = (ltb→lt v e.version after, s.1) in
      subst (λ xs. window v (last_version v (limit n xs)) (e ∷ es) ≡ limit n xs)
        (sym (select_after v v (e ∷ es) (omega arith) above))
        (limit-window v v n (e ∷ es) (omega arith) above)
  | inr before ↦
      let skipped : select (λ x. ltb v x.version) (e ∷ es) ≡ select (λ x. ltb v x.version) es =
        rw before in
      subst (λ xs. window v (last_version v (limit n xs)) (e ∷ es) ≡ limit n xs) (sym skipped)
        (rw before (read-window e.version v n es (ltb-false v e.version before) s.1))
]
