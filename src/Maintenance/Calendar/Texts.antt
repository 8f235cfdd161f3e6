-- ===== src/Maintenance/Calendar/Texts.antt =====
-- The text of a date.
use cairnops.Common.{
  ℕ, ◌/◌, ◌≡◌, true, ◌&&◌, ◌==◌, Bool-cases, inl, inr, Option, some, [], ◌∷◌, arith,
}
use cairnops.Common.Text.{Text}
use cairnops.Maintenance.Calendar.{
  Date, read_two, read_four, check_date, read_date, digit, write_date,
}

read_two-digits : (a b : ℕ) {n : ℕ} → read_two a b ≡ some n → (digit (n / 10) ≡ a) × (digit n ≡ b)
unfolding read_two
read_two-digits a b h = ground arith

read_four-digits :
    (a b c d : ℕ) {n : ℕ}
    → read_four a b c d ≡ some n
    → (digit (n / 1000) ≡ a) × (digit (n / 100) ≡ b) × (digit (n / 10) ≡ c) × (digit n ≡ d)
unfolding read_four
read_four-digits a b c d h = ground arith

check_date-eq :
    (y m d : Option ℕ) {t : Date}
    → check_date y m d ≡ some t
    → (y ≡ some t.year) × (m ≡ some t.month) × (d ≡ some t.day)
unfolding check_date
check_date-eq (some y) (some m) (some d) h = ground arith
check_date-eq _ _ _ h = cc

-- A date that was read is written as it was.
pub write_date-read_date : (s : Text) (t : Date) → read_date s ≡ some t → write_date t ≡ s
unfolding read_date write_date
write_date-read_date (y1 ∷ y2 ∷ y3 ∷ y4 ∷ dash ∷ m1 ∷ m2 ∷ hyphen ∷ d1 ∷ d2 ∷ []) t h =
    elim (Bool-cases (dash == 45 && hyphen == 45)) [
      | inl e ↦
          let dashes = split_dashes e in
          let parts =
            check_date-eq (read_four y1 y2 y3 y4) (read_two m1 m2) (read_two d1 d2) (rw e at h) in
          let year = read_four-digits y1 y2 y3 y4 parts.0 in
          let month = read_two-digits m1 m2 parts.1 in let day = read_two-digits d1 d2 parts.2 in cc
      | inr e ↦ cc (rw e at h)
    ]
  where
    split_dashes : (dash == 45 && hyphen == 45) ≡ true → (45 ≡ dash) × (45 ≡ hyphen)
    split_dashes e = ground arith
write_date-read_date _ t h = cc
