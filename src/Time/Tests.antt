-- ===== src/Time/Tests.antt =====
-- Tests of the conversions of times, and examples of their theorems.
use libdvbtee.Base.{◌+◌, ◌-◌, ◌%◌, ◌^◌, ◌≡◌, refl, arith, true}
use libdvbtee.Time.{
  CTime, utc_tm, mjd_date, mjd_year, mjd_month, year_days, month_days, bcd, atsc_datetime_utc,
}
use libdvbtee.Time.Dates.{is_day, mjd_of, mjd_date_right}
use libdvbtee.Time.Clock.{coded, digit_sum, event_end, utc_tm-coded, atsc_datetime_utc_lem}

-- The example of the standard: MJD 45218 is the 6th of September 1982; 12:45:00.
september : mjd_date 45218 ≡ (82, 9, 6)
unfolding mjd_date mjd_year mjd_month year_days month_days
september = refl

leap_day : mjd_date 51603 ≡ (100, 2, 29)
unfolding mjd_date mjd_year mjd_month year_days month_days
leap_day = refl

september_noon :
    utc_tm 0xb0a2_1245_00
    ≡ record { tm_year = 82; tm_mon = 8; tm_mday = 6; tm_hour = 12; tm_min = 45; tm_sec = 0 }
unfolding utc_tm bcd mjd_date mjd_year mjd_month year_days month_days
september_noon = refl

-- A quarter past a quarter past is half past; 19 minutes past 19 minutes past is 32.
quarters : digit_sum 15 15 ≡ 30
unfolding digit_sum
quarters = refl

nineteens : digit_sum 19 19 ≡ 32
unfolding digit_sum
nineteens = refl

september_right :
    (is_day (mjd_date 45218).0 (mjd_date 45218).1 (mjd_date 45218).2 ≡ true)
    × (mjd_of (mjd_date 45218).0 (mjd_date 45218).1 (mjd_date 45218).2 ≡ 45218)
september_right = mjd_date_right 45218 (omega arith) (omega arith)

utc_tm-coded_example :
    let tm = utc_tm (coded 45218 12 45 0) in
    (is_day tm.tm_year (tm.tm_mon + 1) tm.tm_mday ≡ true)
    × (mjd_of tm.tm_year (tm.tm_mon + 1) tm.tm_mday ≡ 45218)
    × (tm.tm_hour ≡ 12)
    × (tm.tm_min ≡ 45)
    × (tm.tm_sec ≡ 0)
utc_tm-coded_example =
    utc_tm-coded 45218 12 45 0 (omega arith) (omega arith) (omega arith) (omega arith) (omega arith)

event_end_test : utc_tm (coded 45218 12 19 0 + coded 0 1 19 30) ≡ record {
  tm_year = (mjd_date 45218).0;
  tm_mon = (mjd_date 45218).1 - 1;
  tm_mday = (mjd_date 45218).2;
  tm_hour = digit_sum 12 1;
  tm_min = digit_sum 19 19;
  tm_sec = digit_sum 0 30;
}
event_end_test =
    event_end 45218 12 19 0 1 19 30 (omega arith) (omega arith) (omega arith) (omega arith)
      (omega arith) (omega arith) (omega arith)

-- A clock that keeps the seconds in one field.
abbrev seconds : CTime
seconds = record {
  gmtime =
      λ n. record { tm_year = 70; tm_mon = 0; tm_mday = 1; tm_hour = 0; tm_min = 0; tm_sec = n };
  timegm = λ tm. tm.tm_sec;
}

atsc_thousand : atsc_datetime_utc seconds 1000 ≡ (1000 + 315964786) % 2 ^ 32
atsc_thousand = atsc_datetime_utc_lem seconds 1000 (λ n. refl)
