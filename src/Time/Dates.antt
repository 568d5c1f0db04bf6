-- ===== src/Time/Dates.antt =====
-- `datetime_utc`: the date of a Modified Julian Date.
use libdvbtee.Base.{
  ℕ, zero, suc, ◌+◌, ◌-◌, ◌*◌, ◌/◌, ◌%◌, ◌≤◌, ◌<◌, ◌≡◌, refl, ap, subst, Bool, true, false, ◌&&◌,
  ◌||◌, not, arith, if◌then◌else◌, ltb, leb, ◌==◌, ==_iff, Bool-cases, inl, inr,
}
use libdvbtee.Time.{mjd_year, mjd_month, mjd_date, year_days, month_days}

-- The Gregorian calendar; a year counts from 1900.
unfoldable pub is_leap : ℕ → Bool
is_leap year =
    (year + 1900) % 4 == 0 && (not ((year + 1900) % 100 == 0) || (year + 1900) % 400 == 0)

-- The leap years from the year 1 up to before a year.
unfoldable pub leaps_before : ℕ → ℕ
leaps_before year = (year + 1899) / 4 + (year + 1899) / 400 - (year + 1899) / 100

unfoldable pub month_length : ℕ → ℕ → ℕ
month_length year month =
    if month == 2
    then (if is_leap year then 29 else 28)
    else if month == 4 || month == 6 || month == 9 || month == 11
    then 30
    else 31

unfoldable pub days_before : ℕ → ℕ → ℕ
unfolding month_length
days_before year zero = 0
days_before year (suc zero) = 0
days_before year (suc (suc month)) = days_before year (suc month) + month_length year (suc month)

-- The Modified Julian Date of a day: that of the 1st of January 1900 is 15020.
unfoldable pub mjd_of : ℕ → ℕ → ℕ → ℕ
unfolding days_before leaps_before
mjd_of year month day =
    15020 + year * 365 + (leaps_before year - leaps_before 0) + days_before year month + (day - 1)

-- A day that a month has.
unfoldable pub is_day : ℕ → ℕ → ℕ → Bool
unfolding month_length is_leap
is_day year month day =
    leb 1 month && leb month 12 && leb 1 day && leb day (month_length year month)

-- Whether a date is that of the day with the Modified Julian Date.
right : ℕ → ℕ × ℕ × ℕ → Bool
right mjd (y, m, d) = is_day y m d && mjd_of y m d == mjd

right_dates : (first count : ℕ) → Bool
right_dates first zero = true
right_dates first (suc count) =
    if right first (mjd_date first) then right_dates (suc first) count else false

-- The first eight years, by computation.
eight_years : right_dates 15079 2922 ≡ true
unfolding right_dates right mjd_date mjd_year mjd_month year_days month_days mjd_of is_day
eight_years = refl

right_dates_each :
    (first count mjd : ℕ)
    → right_dates first count ≡ true
    → first ≤ mjd
    → mjd < first + count
    → right mjd (mjd_date mjd) ≡ true
unfolding right_dates
right_dates_each first zero mjd all above below = absurd (omega arith)
right_dates_each first (suc count) mjd all above below = elim (Bool-cases (first == mjd)) [
  | inl here ↦
      subst (λ n. right n (mjd_date n) ≡ true) ((==_iff first mjd).0 here) (ground (arith, all))
  | inr later ↦
      right_dates_each (suc first) count mjd (ground (arith, all)) (ground arith) (omega arith)
]

-- Four years on, the date is the same in the year.
mjd_year_step : (mjd : ℕ) → 15079 ≤ mjd → mjd_year (mjd + 1461) ≡ mjd_year mjd + 4
unfolding mjd_year
mjd_year_step mjd h = omega arith

year_days_step : (y : ℕ) → year_days (y + 4) ≡ year_days y + 1461
unfolding year_days
year_days_step y = omega arith

mjd_month_step : (mjd : ℕ) → 15079 ≤ mjd → mjd_month (mjd + 1461) ≡ mjd_month mjd
unfolding mjd_month
mjd_month_step mjd h =
    rw (mjd_year_step mjd h, year_days_step (mjd_year mjd))
      (ap (λ n. (10000 * n - 149561000) / 306001) (omega arith))

later : ℕ × ℕ × ℕ → ℕ × ℕ × ℕ
later (y, m, d) = (y + 4, m, d)

mjd_date_step : (mjd : ℕ) → 15079 ≤ mjd → mjd_date (mjd + 1461) ≡ later (mjd_date mjd)
unfolding mjd_date later
mjd_date_step mjd h =
    rw (mjd_year_step mjd h, mjd_month_step mjd h, year_days_step (mjd_year mjd)) (ground arith)

is_leap_step : (y : ℕ) → 4 ≤ y → y + 4 < 200 → is_leap (y + 4) ≡ is_leap y
unfolding is_leap
is_leap_step y low high = ground arith

leaps_before_step :
    (y : ℕ)
    → 4 ≤ y
    → y + 4 < 200
    → leaps_before (y + 4) - leaps_before 0 ≡ (leaps_before y - leaps_before 0) + 1
unfolding leaps_before
leaps_before_step y low high = omega arith

month_length_same :
    (x y month : ℕ) → is_leap x ≡ is_leap y → month_length x month ≡ month_length y month
unfolding month_length
month_length_same x y month e = rw e refl

days_before_same :
    (x y month : ℕ) → is_leap x ≡ is_leap y → days_before x month ≡ days_before y month
unfolding days_before
days_before_same x y zero e = refl
days_before_same x y (suc zero) e = refl
days_before_same x y (suc (suc month)) e =
    omega (arith, days_before_same x y (suc month) e, month_length_same x y (suc month) e)

right_step :
    (mjd : ℕ) (date : ℕ × ℕ × ℕ)
    → 4 ≤ date.0
    → date.0 + 4 < 200
    → right mjd date ≡ true
    → right (mjd + 1461) (later date) ≡ true
unfolding right later mjd_of is_day
right_step mjd (y, m, d) low high h =
    let leap = is_leap_step y low high in
    ground (
      arith,
      h,
      month_length_same (y + 4) y m leap,
      days_before_same (y + 4) y m leap,
      leaps_before_step y low high,
    )

mjd_year_bounds : (mjd : ℕ) → 16540 ≤ mjd → mjd < 86608 → (4 ≤ mjd_year mjd) × (mjd_year mjd < 196)
unfolding mjd_year
mjd_year_bounds mjd low high = omega arith

-- In the last year before 2096 the month is never one of the next year.
no_carry : (mjd : ℕ) → mjd_year mjd ≡ 195 → mjd < 86608 → mjd_month mjd - 1 ≤ 12
unfolding mjd_month year_days
no_carry mjd year high = rw year (omega arith)

year_of :
    (mjd : ℕ)
    → (mjd_date mjd).0 ≡ (if ltb 12 (mjd_month mjd - 1) then mjd_year mjd + 1 else mjd_year mjd)
unfolding mjd_date
year_of mjd = elim (Bool-cases (ltb 12 (mjd_month mjd - 1))) [
  | inl e ↦ rw e refl
  | inr e ↦ rw e refl
]

year_bounds :
    (mjd : ℕ) → 16540 ≤ mjd → mjd < 86608 → (4 ≤ (mjd_date mjd).0) × ((mjd_date mjd).0 + 4 < 200)
year_bounds mjd low high =
    rw (year_of mjd) (ground (arith, mjd_year_bounds mjd low high, no_carry mjd))

right_after :
    (q r : ℕ)
    → 16540 ≤ r
    → r < 18001
    → r + 1461 * q < 88069
    → right (r + 1461 * q) (mjd_date (r + 1461 * q)) ≡ true
right_after zero r low high end =
    subst (λ n. right n (mjd_date n) ≡ true) {x = r} (omega arith)
      (right_dates_each 15079 2922 r eight_years (omega arith) (omega arith))
right_after (suc q) r low high end =
    let mjd : ℕ = r + 1461 * q in
    let (old, young) = year_bounds (r + 1461 * q) (omega arith) (omega arith) in
    let stepped =
      right_step (r + 1461 * q) (mjd_date (r + 1461 * q)) old young
        (right_after q r low high (omega arith)) in
    subst (λ n. right n (mjd_date n) ≡ true) {x = r + 1461 * q + 1461} {y = r + 1461 * suc q}
      (omega arith) (rw (mjd_date_step (r + 1461 * q) (omega arith)) stepped)

all_right : (mjd : ℕ) → 15079 ≤ mjd → mjd < 88069 → right mjd (mjd_date mjd) ≡ true
all_right mjd low high = elim (Bool-cases (ltb mjd 16540)) [
  | inl e ↦ right_dates_each 15079 2922 mjd eight_years low (ground arith)
  | inr e ↦
      subst (λ n. right n (mjd_date n) ≡ true)
        {x = 16540 + (mjd - 16540) % 1461 + 1461 * ((mjd - 16540) / 1461)} (ground arith)
        (right_after ((mjd - 16540) / 1461) (16540 + (mjd - 16540) % 1461) (omega arith)
          (omega arith) (ground arith))
]

-- From the 1st of March 1900 to the end of 2099, the date that the code computes of a Modified Julian Date
-- is a day of the Gregorian calendar, and the one that has this Modified Julian Date.
pub mjd_date_right :
    (mjd : ℕ)
    → 15079 ≤ mjd
    → mjd < 88069
    → let (year, month, day) = mjd_date mjd in
      (is_day year month day ≡ true) × (mjd_of year month day ≡ mjd)
mjd_date_right mjd low high = both (mjd_date mjd) (all_right mjd low high)
  where
    both :
        (date : ℕ × ℕ × ℕ)
        → right mjd date ≡ true
        → (is_day date.0 date.1 date.2 ≡ true) × (mjd_of date.0 date.1 date.2 ≡ mjd)
    both (y, m, d) h = unfold right in ground (arith, h)
