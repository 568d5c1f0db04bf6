-- ===== src/Time.antt =====
-- The conversions of times in libdvbtee/functions.cpp. `gmtime` and `timegm` belong to the C library
-- and are parameters. `datetime_utc` computes with floating-point numbers; each quotient is taken here
-- over integers, scaled by 20 or by 10000, and its whole part is that of the exact quotient. Below the
-- 1st of March 1900 the numbers of the code are negative; they are 0 here.
pub mod Dates
pub mod Clock
mod Tests
use libdvbtee.Base.{ℕ, ◌+◌, ◌-◌, ◌*◌, ◌/◌, ◌%◌, ◌^◌, Bool, if◌then◌else◌, ltb}

-- `struct tm`: years from 1900 on, months from 0 on
pub record Tm : Type 0 where
  pub tm_year : ℕ
  pub tm_mon : ℕ
  pub tm_mday : ℕ
  pub tm_hour : ℕ
  pub tm_min : ℕ
  pub tm_sec : ℕ

-- `(mjd - 15078.2) / 365.25`, and the number of months from March on that the second line computes
unfoldable pub mjd_year : ℕ → ℕ
mjd_year mjd = (20 * mjd - 301564) / 7305

-- `(int)(Y * 365.25)` and `(int)(M * 30.6001)`
unfoldable pub year_days : ℕ → ℕ
year_days y = y * 1461 / 4

unfoldable pub month_days : ℕ → ℕ
month_days m = m * 306001 / 10000

unfoldable pub mjd_month : ℕ → ℕ
mjd_month mjd = (10000 * (mjd - year_days (mjd_year mjd)) - 149561000) / 306001

-- the year, the month from 1 on, and the day
unfoldable pub mjd_date : ℕ → ℕ × ℕ × ℕ
mjd_date mjd =
    let y = mjd_year mjd in
    let m = mjd_month mjd in
    let d = mjd - 14956 - year_days y - month_days m in
    if ltb 12 (m - 1) then (y + 1, m - 1 - 12, d) else (y, m - 1, d)

-- two digits, of which the lower stands at the bit `shift`
unfoldable pub bcd : ℕ → ℕ → ℕ
bcd time shift = time / 2 ^ (shift + 4) % 16 * 10 + time / 2 ^ shift % 16

-- `datetime_utc` up to the call of `timegm`
unfoldable pub utc_tm : ℕ → Tm
unfolding bcd
utc_tm time =
    let date = mjd_date (time / 2 ^ 24 % 2 ^ 32) in
    record {
      tm_year = date.0;
      tm_mon = date.1 - 1;
      tm_mday = date.2;
      tm_hour = bcd time 16;
      tm_min = bcd time 8;
      tm_sec = bcd time 0;
    }

-- The functions of the C library.
pub record CTime : Type 0 where
  pub gmtime : ℕ → Tm
  pub timegm : Tm → ℕ

-- `datetime_utc`
unfoldable pub datetime_utc : CTime → ℕ → ℕ
unfolding utc_tm
datetime_utc c time = c.timegm (utc_tm time)

-- `secs_to_tm`, with 14 leap seconds; the sum is an `uint32_t`
unfoldable pub secs_to_tm : CTime → ℕ → Tm
secs_to_tm c seconds = c.gmtime ((seconds + 315964800 - 14) % 2 ^ 32)

-- `atsc_datetime_utc`
unfoldable pub atsc_datetime_utc : CTime → ℕ → ℕ
unfolding secs_to_tm
atsc_datetime_utc c in_time = c.timegm (secs_to_tm c in_time)
