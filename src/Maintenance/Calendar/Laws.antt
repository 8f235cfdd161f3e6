-- ===== src/Maintenance/Calendar/Laws.antt =====
-- The days of a year and the date of a day.
use cairnops.Common.{
  ℕ, zero, suc, ◌+◌, ◌-◌, ◌*◌, ◌/◌, ◌%◌, ◌≤◌, ◌≡◌, ◌∙◌, refl, ltb, if◌then◌else◌, ltb-false,
  Bool-cases, inl, inr, arith,
}
use cairnops.Maintenance.Calendar.{
  is_leap, days_in_month, days_in_year, days_before_year, months_before, day_number, find_month,
  find_year, date_of, add_year,
}

days_before_year-suc : (y : ℕ) → days_before_year (suc y) ≡ days_before_year y + days_in_year y
unfolding days_before_year days_in_year
days_before_year-suc y = ground arith

here :
    (y m r : ℕ)
    → day_number (record { year = y; month = suc m; day = r + 1 })
      ≡ days_before_year y + months_before y m + r
unfolding day_number
here y m r = let same : suc m - 1 ≡ m = omega arith in rw same (omega arith)

find_month-day_number :
    (y left m r : ℕ)
    → day_number (find_month y left (suc m) r) ≡ days_before_year y + months_before y m + r
unfolding find_month months_before
find_month-day_number y zero m r = here y m r
find_month-day_number y (suc left) m r = elim (Bool-cases (ltb r (days_in_month y (suc m)))) [
  | inl within ↦ rw within (here y m r)
  | inr beyond ↦ rw beyond (
      omega (
        arith,
        ltb-false r (days_in_month y (suc m)) beyond,
        find_month-day_number y left (suc m) (r - days_in_month y (suc m)),
      ))
]

in_year : (y r : ℕ) → day_number (find_month y 11 1 r) ≡ days_before_year y + r
unfolding months_before
in_year y r = find_month-day_number y 11 0 r ∙ omega arith

find_year-day_number : (left y r : ℕ) → day_number (find_year left y r) ≡ days_before_year y + r
unfolding find_year
find_year-day_number zero y r = in_year y r
find_year-day_number (suc left) y r = elim (Bool-cases (ltb r (days_in_year y))) [
  | inl within ↦ rw within (in_year y r)
  | inr beyond ↦ rw beyond (
      omega (
        arith,
        ltb-false r (days_in_year y) beyond,
        find_year-day_number left (suc y) (r - days_in_year y),
        days_before_year-suc y,
      ))
]

cycles : (k r : ℕ) → days_before_year (400 * k) + r ≡ 146097 * k + r
unfolding days_before_year
cycles k r = omega arith

-- The date of a day is that day.
pub day_number-date_of : (n : ℕ) → day_number (date_of n) ≡ n
unfolding date_of
day_number-date_of n =
    find_year-day_number 400 (400 * (n / 146097)) (n % 146097)
    ∙ cycles (n / 146097) (n % 146097)
    ∙ omega arith

leap_days : ℕ → ℕ
leap_days y = if is_leap y then 1 else 0

-- Two years differ in their months by the leap day alone, from March on.
later_months :
    (y z n : ℕ) → days_in_month y (suc (suc (suc n))) ≡ days_in_month z (suc (suc (suc n)))
unfolding days_in_month
later_months y z n = ground arith

january : (y z : ℕ) → days_in_month y 1 ≡ days_in_month z 1
unfolding days_in_month
january y z = refl

february : (y : ℕ) → days_in_month y 2 ≡ 28 + leap_days y
unfolding days_in_month leap_days
february y = ground arith

months_before-years :
    (y z n : ℕ)
    → months_before y (suc (suc n)) + leap_days z ≡ months_before z (suc (suc n)) + leap_days y
unfolding months_before
months_before-years y z zero = omega (arith, february y, february z, january y z)
months_before-years y z (suc n) = omega (arith, months_before-years y z n, later_months y z n)

days_in_year-leap : (y : ℕ) → days_in_year y ≡ 365 + leap_days y
unfolding days_in_year leap_days
days_in_year-leap y = ground arith

leap_bounds : (y : ℕ) → leap_days y ≤ 1
unfolding leap_days
leap_bounds y = ground arith

-- The same day of the next year is 365 or 366 days later, also for the 29th of February.
year_gap :
    (y n : ℕ)
    → (days_before_year y + months_before y n + 365
        ≤ days_before_year (suc y) + months_before (suc y) n)
      × (days_before_year (suc y) + months_before (suc y) n
          ≤ days_before_year y + months_before y n + 366)
unfolding months_before
year_gap y zero = omega (arith, days_before_year-suc y, days_in_year-leap y, leap_bounds y)
year_gap y (suc zero) =
    omega (arith, days_before_year-suc y, days_in_year-leap y, leap_bounds y, january y (suc y))
year_gap y (suc (suc n)) = omega (
  arith,
  days_before_year-suc y,
  days_in_year-leap y,
  leap_bounds y,
  leap_bounds (suc y),
  months_before-years y (suc y) n,
)

-- `AddDate(1, 0, 0)` goes on by 365 or 366 days.
pub add_year_bounds : (n : ℕ) → (n + 365 ≤ add_year n) × (add_year n ≤ n + 366)
unfolding add_year day_number
add_year_bounds n =
    let t = date_of n in omega (arith, year_gap t.year (t.month - 1), day_number-date_of n)
