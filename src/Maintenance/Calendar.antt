-- ===== src/Maintenance/Calendar.antt =====
-- What recurrence.go uses of package time, on days counted from 0000-01-01 in the proleptic Gregorian
-- calendar that Go and PostgreSQL share, and the text of a date in the layout 2006-01-02.
pub mod Laws
pub mod Texts
use cairnops.Common.{
  ℕ, zero, suc, ◌+◌, ◌-◌, ◌*◌, ◌/◌, ◌%◌, ◌≤◌, ◌≡◌, ◌∙◌, refl, Bool, true, false, ◌||◌, ◌&&◌, not,
  ltb, leb, ◌==◌, if◌then◌else◌, ltb-false, Bool-cases, inl, inr, Option, none, some, [], ◌∷◌,
  arith,
}
use cairnops.Common.Text.{Text}

pub record Date : Type 0 where
  pub year : ℕ
  pub month : ℕ
  pub day : ℕ

unfoldable pub is_leap : ℕ → Bool
is_leap y = (y % 4 == 0) && (not (y % 100 == 0) || y % 400 == 0)

-- `daysIn`.
unfoldable pub days_in_month : ℕ → ℕ → ℕ
unfolding is_leap
days_in_month y m =
    if m == 2
    then (if is_leap y then 29 else 28)
    else if (m == 4) || (m == 6) || (m == 9) || (m == 11)
    then 30
    else 31

unfoldable pub days_in_year : ℕ → ℕ
unfolding is_leap
days_in_year y = if is_leap y then 366 else 365

unfoldable pub days_before_year : ℕ → ℕ
days_before_year y = 365 * y + (y + 3) / 4 + (y + 399) / 400 - (y + 99) / 100

-- The days of the first n months.
unfoldable pub months_before : ℕ → ℕ → ℕ
months_before y zero = 0
months_before y (suc n) = months_before y n + days_in_month y (suc n)

-- `time.Date(year, month, day, …)`, which carries a day beyond the month over to the next one.
unfoldable pub day_number : Date → ℕ
day_number t = days_before_year t.year + months_before t.year (t.month - 1) + (t.day - 1)

unfoldable pub find_month : ℕ → ℕ → ℕ → ℕ → Date
find_month y zero m r = record { year = y; month = m; day = r + 1 }
find_month y (suc left) m r =
    let later = find_month y left (suc m) (r - days_in_month y m) in
    if ltb r (days_in_month y m) then record { year = y; month = m; day = r + 1 } else later

unfoldable pub find_year : ℕ → ℕ → ℕ → Date
find_year zero y r = find_month y 11 1 r
find_year (suc left) y r =
    let later = find_year left (suc y) (r - days_in_year y) in
    if ltb r (days_in_year y) then find_month y 11 1 r else later

-- `Year`, `Month` and `Day` of a day. A cycle of 400 years has 146097 days.
unfoldable pub date_of : ℕ → Date
date_of n = find_year 400 (400 * (n / 146097)) (n % 146097)

-- `AddDate(1, 0, 0)`.
unfoldable pub add_year : ℕ → ℕ
add_year n = let t = date_of n in day_number (record t { year = suc t.year })

is_digit : ℕ → Bool
is_digit c = leb 48 c && leb c 57

-- A number in two digits, and in four.
unfoldable pub read_two : ℕ → ℕ → Option ℕ
unfolding is_digit
read_two a b = if is_digit a && is_digit b then some (10 * (a - 48) + (b - 48)) else none

unfoldable pub read_four : ℕ → ℕ → ℕ → ℕ → Option ℕ
unfolding is_digit
read_four a b c d =
    if is_digit a && is_digit b && is_digit c && is_digit d
    then some (1000 * (a - 48) + 100 * (b - 48) + 10 * (c - 48) + (d - 48))
    else none

-- The ranges, which `time.Parse` checks last.
unfoldable pub check_date : Option ℕ → Option ℕ → Option ℕ → Option Date
unfolding days_in_month
check_date (some y) (some m) (some d) =
    if leb 1 m && leb m 12 && leb 1 d && leb d (days_in_month y m)
    then some (record { year = y; month = m; day = d })
    else none
check_date _ _ _ = none

-- `time.Parse("2006-01-02", text)`.
unfoldable pub read_date : Text → Option Date
unfolding read_two read_four check_date
read_date (y1 ∷ y2 ∷ y3 ∷ y4 ∷ dash ∷ m1 ∷ m2 ∷ hyphen ∷ d1 ∷ d2 ∷ []) =
    if dash == 45 && hyphen == 45
    then check_date (read_four y1 y2 y3 y4) (read_two m1 m2) (read_two d1 d2)
    else none
read_date _ = none

abbrev pub digit : ℕ → ℕ
digit n = 48 + n % 10

-- `to_char(date, 'YYYY-MM-DD')`.
unfoldable pub write_date : Date → Text
write_date t =
    digit (t.year / 1000)
    ∷ digit (t.year / 100)
    ∷ digit (t.year / 10)
    ∷ digit t.year
    ∷ 45
    ∷ digit (t.month / 10)
    ∷ digit t.month
    ∷ 45
    ∷ digit (t.day / 10)
    ∷ digit t.day
    ∷ []
