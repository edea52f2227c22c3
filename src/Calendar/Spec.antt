-- ===== src/Calendar/Spec.antt =====
-- The Gregorian calendar by a closed formula, apart from the loops of the code.
use esp_csi_rs.Base.{
  ℕ, zero, suc, ◌+◌, ◌-◌, ◌*◌, ◌/◌, ◌≤◌, ◌<◌, ◌≡◌, refl, ap, List, [], ◌∷◌, get_or, if◌then◌else◌,
  arith,
}
use esp_csi_rs.Calendar.{is_leap_year, days_in_year, days_in_month, DateTime}

-- Leap years among 1, ..., y - 1.
abbrev pub leap_years_before : ℕ → ℕ
leap_years_before y = (y - 1) / 4 - (y - 1) / 100 + (y - 1) / 400

-- Days from 1970-01-01 to January 1 of `y`; 477 leap years precede 1970.
abbrev pub days_before_year : ℕ → ℕ
days_before_year y = 365 * (y - 1970) + leap_years_before y - 477

-- The days that a leap year adds: 0 or 1.
abbrev pub added_days : ℕ → ℕ
added_days y = leap_years_before (y + 1) - leap_years_before y

-- January to December.
abbrev pub month_lengths : ℕ → List ℕ
month_lengths y = 31 ∷ (28 + added_days y) ∷ 31 ∷ 30 ∷ 31 ∷ 30 ∷ 31 ∷ 31 ∷ 30 ∷ 31 ∷ 30 ∷ 31 ∷ []

-- The days of month `m`, from 1.
unfoldable pub month_days : ℕ → ℕ → ℕ
month_days y m = get_or (month_lengths y) (m - 1) 0

-- Days from January 1 of `y` to the first of month `k + 1`.
unfoldable pub days_before_month : ℕ → ℕ → ℕ
days_before_month y zero = 0
days_before_month y (suc k) = days_before_month y k + month_days y (suc k)

-- Seconds from the epoch to a date.
abbrev pub unix_seconds : DateTime → ℕ
unix_seconds d =
    (days_before_year d.year + days_before_month d.year (d.month - 1) + (d.day - 1)) * 86400
    + d.hour * 3600
    + d.minute * 60
    + d.second

-- A date of the Gregorian calendar that is not before the epoch.
pub record IsDate (d : DateTime) : Type 0 where
  pub since_epoch : 1970 ≤ d.year
  pub month_low : 1 ≤ d.month
  pub month_high : d.month ≤ 12
  pub day_low : 1 ≤ d.day
  pub day_high : d.day ≤ month_days d.year d.month
  pub hour_high : d.hour < 24
  pub minute_high : d.minute < 60
  pub second_high : d.second < 60

pub days_before_year_step :
    (y : ℕ) → 1970 ≤ y → days_before_year (y + 1) ≡ days_before_year y + days_in_year y
unfolding days_in_year
days_before_year_step y h = ground arith

february : (y : ℕ) → 1 ≤ y → (if is_leap_year y then 29 else 28) ≡ 28 + added_days y
unfolding is_leap_year
february y h = ground arith

-- The lengths that the code tests month by month.
pub days_in_month-month_days : (y m : ℕ) → 1 ≤ y → 1 ≤ m → days_in_month y m ≡ month_days y m
unfolding days_in_month month_days
days_in_month-month_days y zero h lo = absurd (omega arith)
days_in_month-month_days y (suc zero) h lo = refl
days_in_month-month_days y (suc (suc zero)) h lo = february y h
days_in_month-month_days y (suc (suc (suc zero))) h lo = refl
days_in_month-month_days y (suc (suc (suc (suc zero)))) h lo = refl
days_in_month-month_days y (suc (suc (suc (suc (suc zero))))) h lo = refl
days_in_month-month_days y (suc (suc (suc (suc (suc (suc zero)))))) h lo = refl
days_in_month-month_days y (suc (suc (suc (suc (suc (suc (suc zero))))))) h lo = refl
days_in_month-month_days y (suc (suc (suc (suc (suc (suc (suc (suc zero)))))))) h lo = refl
days_in_month-month_days y (suc (suc (suc (suc (suc (suc (suc (suc (suc zero))))))))) h lo = refl
days_in_month-month_days y (suc (suc (suc (suc (suc (suc (suc (suc (suc (suc zero)))))))))) h lo =
    refl
days_in_month-month_days y (suc (suc (suc (suc (suc (suc (suc (suc (suc (suc (suc zero))))))))))) h
      lo =
    refl
days_in_month-month_days y
      (suc (suc (suc (suc (suc (suc (suc (suc (suc (suc (suc (suc zero)))))))))))) h lo =
    refl
days_in_month-month_days y
      (suc (suc (suc (suc (suc (suc (suc (suc (suc (suc (suc (suc (suc m))))))))))))) h lo =
    ground arith

-- The twelve months make up the year.
pub days_before_month_year : (y : ℕ) → 1 ≤ y → days_before_month y 12 ≡ days_in_year y
unfolding days_before_month month_days days_in_year is_leap_year
days_before_month_year y h = ground arith

pub days_before_month_step :
    (y m : ℕ) → 1 ≤ m → days_before_month y m ≡ days_before_month y (m - 1) + month_days y m
unfolding days_before_month
days_before_month_step y zero h = absurd (omega arith)
days_before_month_step y (suc m) h =
    ap (λ k. days_before_month y k + month_days y (suc m)) (omega arith)
