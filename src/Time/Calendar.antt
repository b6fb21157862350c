-- ===== src/Time/Calendar.antt =====
-- Dates counted day by day.
use infinity_os.Base.{
  ℕ, zero, suc, ◌+◌, ◌-◌, ◌*◌, ◌/◌, ◌%◌, ◌≡◌, Bool, true, false, ◌&&◌, ◌||◌, some, if◌then◌else◌,
  ltb, ◌==◌, get_elem?,
}
use infinity_os.Time.{days_before_month}

-- The lengths of the months, from January on, which is month 0 here.
abbrev pub month_length : Bool → ℕ → ℕ
month_length leap (suc zero) = if leap then 29 else 28
month_length leap m = if (m == 3) || ((m == 5) || ((m == 8) || (m == 10))) then 30 else 31

abbrev pub days_of_months : Bool → ℕ → ℕ
days_of_months leap zero = 0
days_of_months leap (suc m) = days_of_months leap m + month_length leap m

-- The leap years of the Gregorian calendar, and how many of the years from 1 to `y` are leap years:
-- every fourth year but three of four centuries.
abbrev pub is_gregorian_leap : ℕ → Bool
is_gregorian_leap y = if y % 400 == 0 then true else if y % 100 == 0 then false else y % 4 == 0

abbrev pub leap_years : ℕ → ℕ
leap_years y = y / 4 + y / 400 - y / 100

-- The days of the `n` years from 1970 on.
unfoldable pub days_of_years : ℕ → ℕ
days_of_years n = 365 * n + (leap_years (1969 + n) - leap_years 1969)

-- The seconds from the start of 1970 to a date.
abbrev pub seconds_to : (year month day hour min sec : ℕ) → ℕ
seconds_to year month day hour min sec =
    (days_of_years (year - 1970) + days_of_months (is_gregorian_leap year) (month - 1) + (day - 1))
      * 86400
    + hour * 3600
    + min * 60
    + sec

-- A month of the table.
abbrev pub IsMonth : Bool → ℕ → Type 0
IsMonth leap month =
    (days : ℕ) × (get_elem? days_before_month month ≡ some days)
    × (days + (if ltb 2 month && leap then 1 else 0) ≡ days_of_months leap (month - 1))

-- What holds of each number below a bound, one by one.
abbrev Each : (ℕ → Type 0) → ℕ → Type 0
Each P zero = Unit {0}
Each P (suc n) = Each P n × P n
