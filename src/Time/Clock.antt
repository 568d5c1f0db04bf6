-- ===== src/Time/Clock.antt =====
-- `datetime_utc`: the time of the day, and the end of an event.
use libdvbtee.Base.{
  ℕ, ◌+◌, ◌-◌, ◌*◌, ◌/◌, ◌%◌, ◌^◌, ◌≤◌, ◌<◌, ◌≡◌, ◌∙◌, refl, ap, arith, if◌then◌else◌, leb, true,
}
use libdvbtee.Time.Dates.{is_day, mjd_of, mjd_date_right}
use libdvbtee.Time.{CTime, bcd, utc_tm, mjd_date, secs_to_tm, atsc_datetime_utc}

-- Two decimal digits in a byte.
unfoldable pub to_bcd : ℕ → ℕ
to_bcd n = n / 10 * 16 + n % 10

unfoldable pub from_bcd : ℕ → ℕ
from_bcd byte = byte / 16 * 10 + byte % 16

-- The 40 bits of a time as a table has it, and the 24 of a duration.
unfoldable pub coded : ℕ → ℕ → ℕ → ℕ → ℕ
unfolding to_bcd
coded mjd h m s = mjd * 2 ^ 24 + to_bcd h * 2 ^ 16 + to_bcd m * 2 ^ 8 + to_bcd s

-- What comes of the digits of two numbers when their codes are added.
unfoldable pub digit_sum : ℕ → ℕ → ℕ
digit_sum x y = if leb 16 (x % 10 + y % 10) then x + y - 6 else x + y

-- A number with three given bytes at its end.
unfoldable bytes : ℕ → ℕ → ℕ → ℕ → ℕ
bytes mjd a b c = mjd * 2 ^ 24 + a * 2 ^ 16 + b * 2 ^ 8 + c

module _ (mjd a b c : ℕ) (ha : a < 256) (hb : b < 256) (hc : c < 256) where
  bcd_hour : bcd (bytes mjd a b c) 16 ≡ from_bcd a
  unfolding bcd from_bcd bytes
  bcd_hour = omega arith

  bcd_min : bcd (bytes mjd a b c) 8 ≡ from_bcd b
  unfolding bcd from_bcd bytes
  bcd_min = omega arith

  bcd_sec : bcd (bytes mjd a b c) 0 ≡ from_bcd c
  unfolding bcd from_bcd bytes
  bcd_sec = omega arith

  bytes_mjd : bytes mjd a b c / 2 ^ 24 ≡ mjd
  unfolding bytes
  bytes_mjd = omega arith

byte_sum : (x y : ℕ) → x < 60 → y < 60 → to_bcd x + to_bcd y < 256
unfolding to_bcd
byte_sum x y hx hy = omega arith

from_bcd-sum : (x y : ℕ) → x < 60 → y < 60 → from_bcd (to_bcd x + to_bcd y) ≡ digit_sum x y
unfolding to_bcd from_bcd digit_sum
from_bcd-sum x y hx hy = ground arith

sum_of_bytes :
    (mjd h m s h' m' s' : ℕ)
    → coded mjd h m s + coded 0 h' m' s'
      ≡ bytes mjd (to_bcd h + to_bcd h') (to_bcd m + to_bcd m') (to_bcd s + to_bcd s')
unfolding coded bytes
sum_of_bytes mjd h m s h' m' s' = omega arith

-- The time of the day that `datetime_utc` reads from three bytes below a date.
clock_of_bytes :
    (mjd a b c : ℕ)
    → mjd < 2 ^ 32
    → a < 256
    → b < 256
    → c < 256
    → utc_tm (bytes mjd a b c) ≡ record {
      tm_year = (mjd_date mjd).0;
      tm_mon = (mjd_date mjd).1 - 1;
      tm_mday = (mjd_date mjd).2;
      tm_hour = from_bcd a;
      tm_min = from_bcd b;
      tm_sec = from_bcd c;
    }
unfolding utc_tm
clock_of_bytes mjd a b c low ha hb hc =
    rw
      (
        bcd_hour mjd a b c ha hb hc,
        bcd_min mjd a b c ha hb hc,
        bcd_sec mjd a b c ha hb hc,
        bytes_mjd mjd a b c ha hb hc,
        small mjd low,
      )
      refl
  where
    small : (n : ℕ) → n < 2 ^ 32 → n % 2 ^ 32 ≡ n
    small n h = omega arith

-- What is read from the sum of two codes: the digits are added as the digits of a sum in base 16.
pub event_end :
    (mjd h m s h' m' s' : ℕ)
    → mjd < 2 ^ 32
    → h < 24
    → m < 60
    → s < 60
    → h' < 24
    → m' < 60
    → s' < 60
    → utc_tm (coded mjd h m s + coded 0 h' m' s') ≡ record {
      tm_year = (mjd_date mjd).0;
      tm_mon = (mjd_date mjd).1 - 1;
      tm_mday = (mjd_date mjd).2;
      tm_hour = digit_sum h h';
      tm_min = digit_sum m m';
      tm_sec = digit_sum s s';
    }
event_end mjd h m s h' m' s' low hh hm hs hh' hm' hs' =
    rw
      (
        sum_of_bytes mjd h m s h' m' s',
        clock_of_bytes mjd (to_bcd h + to_bcd h') (to_bcd m + to_bcd m') (to_bcd s + to_bcd s') low
            (byte_sum h h' (omega arith) (omega arith)) (byte_sum m m' hm hm')
            (byte_sum s s' hs hs'),
        from_bcd-sum h h' (omega arith) (omega arith),
        from_bcd-sum m m' hm hm',
        from_bcd-sum s s' hs hs',
      )
      refl

from_bcd-to_bcd : (n : ℕ) → from_bcd (to_bcd n) ≡ n
unfolding to_bcd from_bcd
from_bcd-to_bcd n = omega arith

coded_bytes : (mjd h m s : ℕ) → coded mjd h m s ≡ bytes mjd (to_bcd h) (to_bcd m) (to_bcd s)
unfolding coded bytes
coded_bytes mjd h m s = refl

byte : (n : ℕ) → n < 60 → to_bcd n < 256
unfolding to_bcd
byte n h = omega arith

-- The date, and the time of the day, that are read from a code.
pub event_start :
    (mjd h m s : ℕ)
    → mjd < 2 ^ 32
    → h < 24
    → m < 60
    → s < 60
    → utc_tm (coded mjd h m s) ≡ record {
      tm_year = (mjd_date mjd).0;
      tm_mon = (mjd_date mjd).1 - 1;
      tm_mday = (mjd_date mjd).2;
      tm_hour = h;
      tm_min = m;
      tm_sec = s;
    }
event_start mjd h m s low hh hm hs =
    rw
      (
        coded_bytes mjd h m s,
        clock_of_bytes mjd (to_bcd h) (to_bcd m) (to_bcd s) low (byte h (omega arith)) (byte m hm)
            (byte s hs),
        from_bcd-to_bcd h,
        from_bcd-to_bcd m,
        from_bcd-to_bcd s,
      )
      refl

pub coded_bound :
    (mjd h m s h' m' s' : ℕ)
    → mjd < 2 ^ 32
    → h < 24
    → m < 60
    → s < 60
    → h' < 24
    → m' < 60
    → s' < 60
    → coded mjd h m s + coded 0 h' m' s' < 2 ^ 64
unfolding coded to_bcd
coded_bound mjd h m s h' m' s' low hh hm hs hh' hm' hs' = omega arith

month_positive : (y m d : ℕ) → is_day y m d ≡ true → m - 1 + 1 ≡ m
unfolding is_day
month_positive y m d h = ground (arith, h)

month_back :
    (mjd : ℕ) (date : ℕ × ℕ × ℕ)
    → is_day date.0 date.1 date.2 ≡ true
    → mjd_of date.0 date.1 date.2 ≡ mjd
    → (is_day date.0 (date.1 - 1 + 1) date.2 ≡ true) × (mjd_of date.0 (date.1 - 1 + 1) date.2 ≡ mjd)
month_back mjd (y, m, d) day of =
    let one : m - 1 + 1 ≡ m = month_positive y m d day in rw one (day, of)

-- Of the code of a date and a time of the day, as an event has it for its start, `datetime_utc` hands to
-- `timegm` this time of the day and the day of the Gregorian calendar with this Modified Julian Date, its
-- month counted from 0 on: for every date from the 1st of March 1900 to the end of 2099.
pub utc_tm-coded :
    (mjd h m s : ℕ)
    → 15079 ≤ mjd
    → mjd < 88069
    → h < 24
    → m < 60
    → s < 60
    → let tm = utc_tm (coded mjd h m s) in
      (is_day tm.tm_year (tm.tm_mon + 1) tm.tm_mday ≡ true)
      × (mjd_of tm.tm_year (tm.tm_mon + 1) tm.tm_mday ≡ mjd)
      × (tm.tm_hour ≡ h)
      × (tm.tm_min ≡ m)
      × (tm.tm_sec ≡ s)
utc_tm-coded mjd h m s low high hh hm hs =
    let (day, of) = mjd_date_right mjd low high in
    let (a, b) = month_back mjd (mjd_date mjd) day of in
    rw
      (
        coded_bytes mjd h m s,
        clock_of_bytes mjd (to_bcd h) (to_bcd m) (to_bcd s) (omega arith) (byte h (omega arith))
            (byte m hm) (byte s hs),
      )
      (a, b, from_bcd-to_bcd h, from_bcd-to_bcd m, from_bcd-to_bcd s)

-- Where `timegm` undoes `gmtime`, `atsc_datetime_utc` gives the seconds since 1970 of a time counted from the
-- 6th of January 1980 on: 315964800 more, less 14 leap seconds, in 32 bits.
pub atsc_datetime_utc_lem :
    (c : CTime) (time : ℕ)
    → ((n : ℕ) → c.timegm (c.gmtime n) ≡ n)
    → atsc_datetime_utc c time ≡ (time + 315964786) % 2 ^ 32
unfolding atsc_datetime_utc secs_to_tm
atsc_datetime_utc_lem c time inverse =
    inverse ((time + 315964800 - 14) % 2 ^ 32) ∙ ap (λ n. n % 2 ^ 32) (omega arith)
