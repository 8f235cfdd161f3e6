-- ===== src/Realtime/Table/Rest.antt =====
-- What a read leaves to be read: the events behind the first of those after a version.
use cairnops.Common.{
  ltb-false, ℕ, zero, suc, ◌-◌, ◌≤◌, ◌<◌, ◌≡◌, refl, List, [], ◌∷◌, ltb, ltb→lt, select, arith,
  length, sym, subst, Bool-cases, inl, inr,
}
use cairnops.Realtime.Table.{Event, limit}
use cairnops.Realtime.Table.Window.{IsAscending, select_after, last_version-limit}
use cairnops.Realtime.Table.Last.{batch, last_version_up}
use cairnops.Realtime.Hub.{last_version}

abbrev pub drop {ℓ} : {A : Type ℓ} → ℕ → List A → List A
drop zero xs = xs
drop (suc n) [] = []
drop (suc n) (x ∷ xs) = drop n xs

pub length-drop : (n : ℕ) (xs : List Event) → length (drop n xs) ≡ length xs - n
length-drop zero xs = omega arith
length-drop (suc n) [] = omega arith
length-drop (suc n) (x ∷ xs) = omega (arith, length-drop n xs)

pub drop-short : (n : ℕ) (xs : List Event) → length (limit n xs) < n → drop n xs ≡ []
drop-short zero xs h = absurd (omega (arith, h))
drop-short (suc n) [] h = refl
drop-short (suc n) (x ∷ xs) h = drop-short n xs (omega (arith, h))

pub length-limit : (n : ℕ) (xs : List Event) → n ≤ length (limit n xs) → n ≤ length xs
length-limit zero xs h = omega arith
length-limit (suc n) [] h = h
length-limit (suc n) (x ∷ xs) h = omega (arith, length-limit n xs (omega (arith, h)))

drop_nil : (n : ℕ) → drop {A = Event} n [] ≡ []
drop_nil zero = refl
drop_nil (suc n) = refl

limit-rest :
    (b n : ℕ) (table : List Event)
    → IsAscending b table
    → select (λ e. ltb (last_version b (limit n table)) e.version) table ≡ drop n table
unfolding last_version
limit-rest b zero table s = select_after b b table (omega arith) s
limit-rest b (suc n) [] s = refl
limit-rest b (suc n) (e ∷ es) s =
    ground (arith, s.0, last_version-limit e.version n es s.1, limit-rest e.version n es s.1)

-- `v` stands before the first row of `table`, or behind it.
pub read-rest :
    (b v n : ℕ) (table : List Event)
    → b ≤ v
    → IsAscending b table
    → select
        (λ e. ltb (last_version v (limit n (select (λ x. ltb v x.version) table))) e.version)
        table
      ≡ drop n (select (λ x. ltb v x.version) table)
unfolding last_version batch
read-rest b v n [] h s = sym (drop_nil n)
read-rest b v n (e ∷ es) h s = elim (Bool-cases (ltb v e.version)) [
  | inl after ↦
      let above : IsAscending v (e ∷ es) = (ltb→lt v e.version after, s.1) in
      subst (λ xs. select (λ y. ltb (last_version v (limit n xs)) y.version) (e ∷ es) ≡ drop n xs)
        (sym (select_after v v (e ∷ es) (omega arith) above)) (limit-rest v n (e ∷ es) above)
  | inr before ↦
      let skipped : select (λ x. ltb v x.version) (e ∷ es) ≡ select (λ x. ltb v x.version) es =
        rw before in
      subst (λ xs. select (λ y. ltb (last_version v (limit n xs)) y.version) (e ∷ es) ≡ drop n xs)
        (sym skipped)
        (ground (
          arith,
          ltb-false v e.version before,
          last_version_up es v n,
          read-rest e.version v n es (ltb-false v e.version before) s.1,
        ))
]
