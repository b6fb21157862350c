-- ===== src/Time.antt =====
-- source/kernel/time.c: dates as seconds since the Epoch.
--
-- `none` is an access outside the table of the months.
pub mod Calendar
mod Examples
use infinity_os.Base.{
  ℕ, zero, suc, ◌+◌, ◌-◌, ◌*◌, ◌%◌, Bool, true, false, not, ◌&&◌, ◌||◌, Option, none, some, List,
  [], ◌∷◌, if◌then◌else◌, ltb, ◌==◌, get_elem?,
}

abbrev pub is_leap_year : ℕ → Bool
is_leap_year y = (y % 4 == 0) && (not (y % 100 == 0) || (y % 400 == 0))

abbrev pub days_in_year : ℕ → ℕ
days_in_year y = if is_leap_year y then 366 else 365

abbrev pub days_before_month : List ℕ
days_before_month = 0 ∷ 0 ∷ 31 ∷ 59 ∷ 90 ∷ 120 ∷ 151 ∷ 181 ∷ 212 ∷ 243 ∷ 273 ∷ 304 ∷ 334 ∷ []

-- An `unsigned` and a `uint32_t` have 32 bits. A product wraps around once, which is the same as
-- after each factor.
abbrev pub wrap : ℕ → ℕ
wrap n = n % 4294967296

abbrev pub plus : ℕ → ℕ → ℕ
plus seconds n = wrap (seconds + wrap n)

-- The years from 1970 on.
unfoldable pub add_years : ℕ → ℕ → ℕ
add_years zero seconds = seconds
add_years (suc n) seconds = plus (add_years n seconds) (days_in_year (1970 + n) * 24 * 60 * 60)

-- The sum of the time of day and the days of the month.
abbrev pub day_seconds : (day hour min sec : ℕ) → ℕ
day_seconds day hour min sec =
    plus (plus (plus (plus 0 sec) (min * 60)) (hour * 60 * 60))
      (wrap (day + 4294967295) * 24 * 60 * 60)

abbrev pub leap_day : ℕ → ℕ → ℕ → ℕ
leap_day year month seconds =
    if ltb 2 month && is_leap_year year then plus seconds (24 * 60 * 60) else seconds

unfoldable pub time_to_unix : (year month day hour min sec : ℕ) → Option ℕ
unfolding add_years
time_to_unix year month day hour min sec = elim (get_elem? days_before_month month) [
  | none ↦ none
  | some days ↦ some (
      add_years (year - 1970)
        (leap_day year month (plus (day_seconds day hour min sec) (days * 24 * 60 * 60)))
      * 1000000000)
]
