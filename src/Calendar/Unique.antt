-- ===== src/Calendar/Unique.antt =====
-- The closed formula of a date's seconds, and its inverse.
use esp_csi_rs.Base.{ℕ, zero, suc, ◌+◌, ◌-◌, ◌≤◌, ◌<◌, ◌≡◌, sym, ap, ap₂, ◌∙◌, some, arith}
use native.Mathlib.Decide.{dec_lt}
use esp_csi_rs.Calendar.{days_in_year, DateTime, unix_to_date_time}
use esp_csi_rs.Calendar.Spec.{
  days_before_year, days_before_month, days_before_year_step, days_before_month_year, unix_seconds,
  IsDate, days_before_month_step,
}
use esp_csi_rs.Calendar.Convert.{unix_to_date_time_lem}

days_before_year_mono : (y y' : ℕ) → 1970 ≤ y → y ≤ y' → days_before_year y ≤ days_before_year y'
days_before_year_mono y y' h le = omega arith

days_before_month_mono : (y k n : ℕ) → k ≤ n → days_before_month y k ≤ days_before_month y n
unfolding days_before_month
days_before_month_mono y k zero h =
    let e : k ≡ 0 = omega arith in omega (arith, ap (days_before_month y) e)
days_before_month_mono y k (suc n) h = elim (dec_lt k (suc n)) [
  | yes below ↦ omega (arith, days_before_month_mono y k n (omega arith))
  | no same ↦ let e : k ≡ suc n = omega arith in omega (arith, ap (days_before_month y) e)
]

-- The day of the year, counted from 0.
abbrev day_of_year : DateTime → ℕ
day_of_year d = days_before_month d.year (d.month - 1) + (d.day - 1)

day_of_year-lt : (d : DateTime) → IsDate d → day_of_year d < days_in_year d.year
day_of_year-lt d v = omega (
  arith,
  days_before_month_step d.year d.month v.month_low,
  days_before_month_mono d.year d.month 12 v.month_high,
  days_before_month_year d.year (omega (arith, v.since_epoch)),
)

year_ordered :
    (d e : DateTime)
    → IsDate d
    → IsDate e
    → d.year < e.year
    → days_before_year d.year + day_of_year d < days_before_year e.year + day_of_year e
year_ordered d e v w h = omega (
  arith,
  day_of_year-lt d v,
  days_before_year_step d.year v.since_epoch,
  days_before_year_mono (d.year + 1) e.year (omega (arith, v.since_epoch)) h',
)
  where
    h' : d.year + 1 ≤ e.year
    h' = omega arith

month_ordered :
    (d e : DateTime)
    → IsDate d
    → IsDate e
    → d.year ≡ e.year
    → d.month < e.month
    → day_of_year d < day_of_year e
month_ordered d e v w same h = omega (
  arith,
  v.month_low,
  v.day_low,
  v.day_high,
  days_before_month_step d.year d.month v.month_low,
  days_before_month_mono d.year d.month (e.month - 1) (omega arith),
  ap (λ y. days_before_month y (e.month - 1)) same,
)

day_number : DateTime → ℕ
day_number d = days_before_year d.year + day_of_year d

day_number-injective :
    (d e : DateTime)
    → IsDate d
    → IsDate e
    → day_number d ≡ day_number e
    → (d.year ≡ e.year) × (d.month ≡ e.month) × (d.day ≡ e.day)
unfolding day_number
day_number-injective d e v w h = (years, months, days)
  where
    years : d.year ≡ e.year
    years = elim (dec_lt d.year e.year) [
      | yes p ↦ absurd (omega (arith, year_ordered d e v w p))
      | no p ↦ elim (dec_lt e.year d.year) [
        | yes q ↦ absurd (omega (arith, year_ordered e d w v q))
        | no q ↦ omega arith
      ]
    ]

    same_day : day_of_year d ≡ day_of_year e
    same_day = omega (arith, ap days_before_year years)

    months : d.month ≡ e.month
    months = elim (dec_lt d.month e.month) [
      | yes p ↦ absurd (omega (arith, same_day, month_ordered d e v w years p))
      | no p ↦ elim (dec_lt e.month d.month) [
        | yes q ↦ absurd (omega (arith, same_day, month_ordered e d w v (sym years) q))
        | no q ↦ omega arith
      ]
    ]

    days : d.day ≡ e.day
    days = omega (
      arith,
      v.day_low,
      w.day_low,
      ap₂ (λ y m. days_before_month y (m - 1)) years months,
      same_day,
    )

unix_seconds-injective :
    (d e : DateTime)
    → IsDate d
    → IsDate e
    → unix_seconds d ≡ unix_seconds e
    → d.millisecond ≡ e.millisecond
    → d ≡ e
unfolding day_number
unix_seconds-injective d e v w h ms =
    let n : day_number d ≡ day_number e = omega arith in
    let (years, months, days) = day_number-injective d e v w n in
    let hours : d.hour ≡ e.hour = omega arith in
    let minutes : d.minute ≡ e.minute = omega arith in
    let seconds : d.second ≡ e.second = omega arith in ground (arith, years, months, days)

-- A Gregorian date from 1970 on is what `unix_to_date_time` gives for its own UNIX time.
pub unix_to_date_time-unix_seconds :
    (d : DateTime) → IsDate d → unix_to_date_time (unix_seconds d) d.millisecond ≡ some d
unix_to_date_time-unix_seconds d v =
    let (e, run, w, same, ms) = unix_to_date_time_lem (unix_seconds d) d.millisecond in
    run ∙ ap some (unix_seconds-injective e d w v same ms)
