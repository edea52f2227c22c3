-- ===== src/Calendar.antt =====
-- src/lib/time.rs: UNIX time to calendar components.
-- A `u64` is a natural number: every value the functions compute is at most the input plus 1970, so
-- nothing wraps below 2 ^ 63. The two `while` loops take fuel, and `none` means that it ran out.
pub mod Spec
pub mod Convert
pub mod Unique
mod Tests
use mathlib.Core.Option
use esp_csi_rs.Base.{
  ℕ, zero, suc, ◌+◌, ◌-◌, ◌*◌, ◌/◌, ◌%◌, Bool, not, ◌&&◌, ◌||◌, Option, none, some, ◌==◌, leb,
  if◌then◌else◌,
}

-- `year.is_multiple_of(n)` at a divisor that is not 0.
abbrev pub is_multiple_of : ℕ → ℕ → Bool
is_multiple_of y n = y % n == 0

unfoldable pub is_leap_year : ℕ → Bool
is_leap_year y = is_multiple_of y 4 && not (is_multiple_of y 100) || is_multiple_of y 400

unfoldable pub days_in_year : ℕ → ℕ
unfolding is_leap_year
days_in_year y = if is_leap_year y then 366 else 365

unfoldable pub days_in_month : ℕ → ℕ → ℕ
unfolding is_leap_year
days_in_month y m =
    if m == 1
    then 31
    else if m == 2
    then if is_leap_year y then 29 else 28
    else if m == 3
    then 31
    else if m == 4
    then 30
    else if m == 5
    then 31
    else if m == 6
    then 30
    else if m == 7
    then 31
    else if m == 8
    then 31
    else if m == 9
    then 30
    else if m == 10
    then 31
    else if m == 11
    then 30
    else if m == 12
    then 31
    else 0

-- `while days >= days_in_year(year) { days -= ...; year += 1 }`: the year and the days left.
unfoldable pub year_loop : ℕ → ℕ → ℕ → Option (ℕ × ℕ)
year_loop zero days year = none
year_loop (suc fuel) days year =
    let rest = year_loop fuel (days - days_in_year year) (year + 1) in
    if leb (days_in_year year) days then rest else some (year, days)

unfoldable pub month_loop : ℕ → ℕ → ℕ → ℕ → Option (ℕ × ℕ)
month_loop zero year days month = none
month_loop (suc fuel) year days month =
    let rest = month_loop fuel year (days - days_in_month year month) (month + 1) in
    if leb (days_in_month year month) days then rest else some (month, days)

-- The tuple that the function returns, in its order.
pub record DateTime : Type 0 where
  pub year : ℕ
  pub month : ℕ
  pub day : ℕ
  pub hour : ℕ
  pub minute : ℕ
  pub second : ℕ
  pub millisecond : ℕ

-- The final tuple, from the seconds in the day, the year, and the month with the days left in it.
abbrev pub assemble : ℕ → ℕ → ℕ → ℕ × ℕ → DateTime
assemble seconds_in_day millis year m = record {
  year = year;
  month = m.0;
  day = m.1 + 1;
  hour = seconds_in_day / 3600;
  minute = seconds_in_day % 3600 / 60;
  second = seconds_in_day % 60;
  millisecond = millis;
}

unfoldable pub unix_to_date_time : ℕ → ℕ → Option DateTime
unix_to_date_time seconds millis = elim (year_loop (suc (seconds / 86400)) (seconds / 86400) 1970) [
  | none ↦ none
  | some (year, days) ↦
      Option.map (assemble (seconds % 86400) millis year) (month_loop 13 year days 1)
]
