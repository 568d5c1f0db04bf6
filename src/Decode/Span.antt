-- ===== src/Decode/Span.antt =====
-- The start and the end of an event in a DVB table, as `get_epg_event` and `dump_epg` of libdvbtee/decode.cpp
-- compute them.
use libdvbtee.Base.{ℕ, ◌+◌, ◌-◌, ◌%◌, ◌^◌, ◌<◌, ◌≡◌, refl, arith}
use libdvbtee.Time.{Tm, datetime_utc, mjd_date}
use libdvbtee.Time.Clock.{coded, digit_sum, event_start, event_end, coded_bound}
use libdvbtee.Decode.Records.{EitEvent}
use libdvbtee.Decode.Epg.{Texts, dvb_span}

-- A time of the day on the date of a Modified Julian Date.
unfoldable pub clock_at : ℕ → ℕ → ℕ → ℕ → Tm
clock_at mjd h m s = record {
  tm_year = (mjd_date mjd).0;
  tm_mon = (mjd_date mjd).1 - 1;
  tm_mday = (mjd_date mjd).2;
  tm_hour = h;
  tm_min = m;
  tm_sec = s;
}

-- For an event whose table has the codes of its start and of its duration: the start is what `timegm` makes of
-- the coded time, and the end what it makes of the start's date with hours, minutes and seconds
-- added each for itself, without a carry from one to the next; where the last digits of two numbers make
-- 16 or more, their sum is 6 too small.
pub dvb_span_lem :
    (o : Texts) (e : EitEvent) (mjd h m s h' m' s' : ℕ)
    → e.start_time ≡ coded mjd h m s
    → e.length_sec ≡ coded 0 h' m' s'
    → mjd < 2 ^ 32
    → h < 24
    → m < 60
    → s < 60
    → h' < 24
    → m' < 60
    → s' < 60
    → dvb_span o e ≡ (
      o.times.timegm (clock_at mjd h m s),
      o.times.timegm (clock_at mjd (digit_sum h h') (digit_sum m m') (digit_sum s s')),
    )
unfolding dvb_span datetime_utc clock_at
dvb_span_lem o e mjd h m s h' m' s' starts lasts low hh hm hs hh' hm' hs' =
    rw
      (
        starts,
        lasts,
        small (coded mjd h m s + coded 0 h' m' s')
            (coded_bound mjd h m s h' m' s' low hh hm hs hh' hm' hs'),
        datetime_utc,
        event_start mjd h m s low hh hm hs,
        event_end mjd h m s h' m' s' low hh hm hs hh' hm' hs',
      )
      refl
  where
    small : (n : ℕ) → n < 2 ^ 64 → n % 2 ^ 64 ≡ n
    small n h = omega arith
