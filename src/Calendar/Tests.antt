-- ===== src/Calendar/Tests.antt =====
-- tests
use esp_csi_rs.Base.{◌≡◌, refl, some, arith}
use esp_csi_rs.Calendar.{
  DateTime, unix_to_date_time, days_in_year, days_in_month, year_loop, month_loop,
}
use esp_csi_rs.Calendar.Spec.{IsDate, unix_seconds, month_days}
use esp_csi_rs.Calendar.Convert.{unix_to_date_time_lem}

abbrev leap_date : DateTime
leap_date = record {
  year = 2024;
  month = 2;
  day = 29;
  hour = 12;
  minute = 34;
  second = 56;
  millisecond = 7;
}

leap_day : unix_to_date_time 1709210096 7 ≡ some leap_date
unfolding unix_to_date_time days_in_year days_in_month year_loop month_loop
leap_day = refl

leap_date-IsDate : IsDate leap_date
unfolding month_days
leap_date-IsDate = record {
  since_epoch = omega arith;
  month_low = omega arith;
  month_high = omega arith;
  day_low = omega arith;
  day_high = omega arith;
  hour_high = omega arith;
  minute_high = omega arith;
  second_high = omega arith;
}

unix_to_date_time_example :
    (d : DateTime) × (unix_to_date_time 1709210096 7 ≡ some d)
    × IsDate d
    × (unix_seconds d ≡ 1709210096)
    × (d.millisecond ≡ 7)
unix_to_date_time_example = unix_to_date_time_lem 1709210096 7
