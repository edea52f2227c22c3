-- ===== src/Calendar/Convert.antt =====
-- `unix_to_date_time` against the closed formula.
use esp_csi_rs.Base.{
  ℕ, zero, suc, ◌+◌, ◌-◌, ◌/◌, ◌%◌, ◌≤◌, ◌<◌, ◌≡◌, refl, sym, ap, ◌∙◌, some, inl, inr, Bool-cases,
  leb, arith,
}
use native.Mathlib.Decide.{dec_le}
use esp_csi_rs.Calendar.{
  days_in_year, days_in_month, DateTime, year_loop, month_loop, assemble, unix_to_date_time,
}
use esp_csi_rs.Calendar.Spec.{
  days_before_year, days_before_month, days_before_year_step, days_before_month_step,
  days_before_month_year, days_in_month-month_days, unix_seconds, IsDate,
}

days_in_year-pos : (y : ℕ) → 0 < days_in_year y
unfolding days_in_year
days_in_year-pos y = ground arith

-- What the year loop hands on: a year, and fewer days than it has.
record YearFound (days year : ℕ) (r : ℕ × ℕ) : Type 0 where
  since : year ≤ r.0
  room : r.1 < days_in_year r.0
  same : days_before_year year + days ≡ days_before_year r.0 + r.1

year_loop_lem :
    (fuel days year : ℕ)
    → 1970 ≤ year
    → days < fuel
    → (r : ℕ × ℕ) × (year_loop fuel days year ≡ some r) × YearFound days year r
unfolding year_loop
year_loop_lem zero days year hy h = absurd (omega arith)
year_loop_lem (suc fuel) days year hy h = elim (Bool-cases (leb (days_in_year year) days)) [
  | inl more ↦
      let (r, e, found) =
        year_loop_lem fuel (days - days_in_year year) (year + 1) (omega arith)
          (ground (arith, days_in_year-pos year)) in
      (
        r,
        rw more e,
        ground (arith, found.since, found.room, found.same, days_before_year_step year),
      )
  | inr done ↦ ((year, days), rw done, ground arith)
]

-- `below` counts the days of the year before month `m`.
record MonthFound (year below days : ℕ) (r : ℕ × ℕ) : Type 0 where
  low : 1 ≤ r.0
  high : r.0 ≤ 12
  room : r.1 < days_in_month year r.0
  same : below + days ≡ days_before_month year (r.0 - 1) + r.1

month_in_year :
    (year m below days : ℕ)
    → m ≤ 13
    → below ≡ days_before_month year (m - 1)
    → below + days < days_before_month year 12
    → m ≤ 12
month_in_year year m below days hi e h = elim (dec_le m 12) [
  | yes p ↦ p
  | no p ↦
      let last : m - 1 ≡ 12 = omega arith in
      absurd (omega (arith, ap (days_before_month year) last))
]

month_loop_lem :
    (fuel year days m below : ℕ)
    → 1 ≤ year
    → 1 ≤ m
    → m ≤ 13
    → 13 < m + fuel
    → below ≡ days_before_month year (m - 1)
    → below + days < days_before_month year 12
    → (r : ℕ × ℕ) × (month_loop fuel year days m ≡ some r) × MonthFound year below days r
unfolding month_loop
month_loop_lem zero year days m below y lo hi hf e h = absurd (omega arith)
month_loop_lem (suc fuel) year days m below y lo hi hf e h =
    elim (Bool-cases (leb (days_in_month year m) days)) [
      | inl more ↦
          let bound : m ≤ 12 = month_in_year year m below days hi e h in
          let (r, run, found) =
            month_loop_lem fuel year (days - days_in_month year m) (m + 1)
              (below + days_in_month year m) y (omega arith) (omega arith) (omega arith)
              (ap (λ k. k + days_in_month year m) e
                ∙ ap (λ k. days_before_month year (m - 1) + k)
                    (days_in_month-month_days year m y lo)
                ∙ sym (days_before_month_step year m lo)
                ∙ ap (days_before_month year) (omega arith))
              (ground arith) in
          (r, rw more run, ground (arith, found.low, found.high, found.room, found.same))
      | inr done ↦ ((m, days), rw done, ground (arith, month_in_year year m below days hi e h))
    ]

assemble-IsDate :
    (seconds millis year left : ℕ) (m : ℕ × ℕ)
    → 1970 ≤ year
    → MonthFound year 0 left m
    → IsDate (assemble (seconds % 86400) millis year m)
assemble-IsDate seconds millis year left m h month = omega (
  arith,
  month.low,
  month.high,
  month.room,
  days_in_month-month_days year m.0 (omega arith) month.low,
)

unix_seconds-assemble :
    (seconds millis year left : ℕ) (m : ℕ × ℕ)
    → days_before_year year + left ≡ seconds / 86400
    → MonthFound year 0 left m
    → unix_seconds (assemble (seconds % 86400) millis year m) ≡ seconds
unix_seconds-assemble seconds millis year left m h month = omega (arith, month.same)

month_of_day :
    (year left : ℕ)
    → 1 ≤ year
    → left < days_in_year year
    → (m : ℕ × ℕ) × (month_loop 13 year left 1 ≡ some m) × MonthFound year 0 left m
unfolding days_before_month
month_of_day year left y h =
    month_loop_lem 13 year left 1 0 y (omega arith) (omega arith) (omega arith) refl
      (omega (arith, days_before_month_year year y))

-- On every UNIX time both loops end, and the result is the date of the Gregorian calendar that
-- lies that many seconds after the epoch, with the milliseconds passed on.
pub unix_to_date_time_lem :
    (seconds millis : ℕ)
    → (d : DateTime) × (unix_to_date_time seconds millis ≡ some d)
      × IsDate d
      × (unix_seconds d ≡ seconds)
      × (d.millisecond ≡ millis)
unfolding unix_to_date_time
unix_to_date_time_lem seconds millis =
    let (y, run, year) =
      year_loop_lem (suc (seconds / 86400)) (seconds / 86400) 1970 (omega arith) (omega arith) in
    let (m, run_m, month) = month_of_day y.0 y.1 (omega (arith, year.since)) year.room in
    (
      assemble (seconds % 86400) millis y.0 m,
      rw (run, unix_to_date_time) (rw run_m),
      assemble-IsDate seconds millis y.0 y.1 m year.since month,
      unix_seconds-assemble seconds millis y.0 y.1 m (omega (arith, year.same)) month,
      refl,
    )
