-- ===== src/Stats.antt =====
-- libdvbtee/stats.cpp and stats.h: the header of a transport packet, and the counters kept by pid.
-- A packet is the list of its bytes; a mask and a shift are written with `/` and `%`. The counters
-- are 64-bit and wrap. The stream time, which a callback gives, is the argument `now`; what
-- the statistics callback and interface are handed is kept in `reports`, the latest first.

pub mod Header
pub mod Pcr
pub mod Totals
pub mod Push
mod Tests
use libdvbtee.Base.{
  ℕ, ◌+◌, ◌*◌, ◌/◌, ◌%◌, ◌^◌, Bool, true, false, Option, none, some, List, [], ◌∷◌, ◌&&◌, ◌||◌, not,
  ltb, ◌==◌, if◌then◌else◌, take, drop,
}
use libdvbtee.Base
use libdvbtee.Base.Dict
use libdvbtee.Base.Dict.{Dict}

-- `pkt_stats_t`
pub record PktStats : Type 0 where
  pub tei : Bool
  pub sync_loss : Bool
  pub pid : ℕ

-- `pkt_hdr_t`
pub record PktHdr : Type 0 where
  pub sync_byte : ℕ
  pub tei : ℕ
  pub payload_unit_start : ℕ
  pub transport_priority : ℕ
  pub pid : ℕ
  pub scrambling : ℕ
  pub adaptation_flags : ℕ
  pub continuity_ctr : ℕ

-- `adaptation_field_t`; the countdown is the byte that a signed field is set to
pub record AdaptationField : Type 0 where
  pub field_length : ℕ
  pub discontinuity : ℕ
  pub random_access : ℕ
  pub es_priority : ℕ
  pub pcr : ℕ
  pub opcr : ℕ
  pub splicing_point : ℕ
  pub tp_priv_data : ℕ
  pub field_ext : ℕ
  pub pcr_bytes : List ℕ
  pub opcr_bytes : List ℕ
  pub splicing_countdown : ℕ

-- `p[i]`
abbrev pub byte : List ℕ → ℕ → ℕ
byte p i = Base.get_or p i 0

-- `(uint16_t)-1`, the pid of a packet without a sync byte
abbrev pub no_pid : ℕ
no_pid = 0xffff

-- the pid under which the totals are kept
abbrev pub all_pids : ℕ
all_pids = 0x2000

-- `(x & mask) >> lo`, for a mask of `n` ones from bit `lo` on
abbrev pub bits : ℕ → ℕ → ℕ → ℕ
bits x lo n = x / 2 ^ lo % 2 ^ n

-- the header fields of `parse`
unfoldable pub parse_hdr : List ℕ → PktHdr
parse_hdr q = record {
  sync_byte = byte q 0;
  tei = bits (byte q 1) 7 1;
  payload_unit_start = bits (byte q 1) 6 1;
  transport_priority = bits (byte q 1) 5 1;
  pid = bits (byte q 1) 0 5 * 2 ^ 8 + byte q 2;
  scrambling = bits (byte q 3) 6 2;
  adaptation_flags = bits (byte q 3) 4 2;
  continuity_ctr = bits (byte q 3) 0 4;
}

-- `memset(&adapt, 0, sizeof(adapt))`
abbrev pub no_adaptation : AdaptationField
no_adaptation = record {
  field_length = 0;
  discontinuity = 0;
  random_access = 0;
  es_priority = 0;
  pcr = 0;
  opcr = 0;
  splicing_point = 0;
  tp_priv_data = 0;
  field_ext = 0;
  pcr_bytes = 0 ∷ 0 ∷ 0 ∷ 0 ∷ 0 ∷ 0 ∷ [];
  opcr_bytes = 0 ∷ 0 ∷ 0 ∷ 0 ∷ 0 ∷ 0 ∷ [];
  splicing_countdown = 0;
}

-- The optional fields stand one behind the other: `at` is where `q` points.
unfoldable pub parse_splice : List ℕ → ℕ → AdaptationField → AdaptationField
parse_splice p at a =
    if a.splicing_point == 0 then a else record a { splicing_countdown = byte p at }

unfoldable pub parse_opcr : List ℕ → ℕ → AdaptationField → AdaptationField
unfolding parse_splice
parse_opcr p at a =
    if a.opcr == 0
    then parse_splice p at a
    else parse_splice p (at + 6) (record a { opcr_bytes = take 6 (drop at p) })

-- the adaptation field of `parse`, in a packet whose header has one
unfoldable pub parse_adaptation : List ℕ → AdaptationField
unfolding parse_opcr
parse_adaptation p =
    if a.pcr == 0
    then parse_opcr p 6 a
    else parse_opcr p 12 (record a { pcr_bytes = take 6 (drop 6 p) })
  where
    a : AdaptationField
    a = record no_adaptation {
      field_length = byte p 4;
      discontinuity = bits (byte p 5) 7 1;
      random_access = bits (byte p 5) 6 1;
      es_priority = bits (byte p 5) 5 1;
      pcr = bits (byte p 5) 4 1;
      opcr = bits (byte p 5) 3 1;
      splicing_point = bits (byte p 5) 2 1;
      tp_priv_data = bits (byte p 5) 1 1;
      field_ext = bits (byte p 5) 0 1;
    }

-- `adaptation_flags & 0x02` and `adaptation_flags & 0x01`
abbrev pub has_adaptation : PktHdr → Bool
has_adaptation h = bits h.adaptation_flags 1 1 == 1

abbrev pub has_payload : PktHdr → Bool
has_payload h = bits h.adaptation_flags 0 1 == 1

-- `parse(p, pkt_stats, hdr, adapt)` with a `pkt_stats` that is not NULL
unfoldable pub adaptation_of : List ℕ → AdaptationField
adaptation_of p = if has_adaptation (parse_hdr p) then parse_adaptation p else no_adaptation

unfoldable pub parse : List ℕ → PktStats
parse p =
    if hdr.sync_byte == 0x47
    then record { tei = not (hdr.tei == 0); sync_loss = false; pid = hdr.pid }
    else record { tei = false; sync_loss = true; pid = no_pid }
  where
    hdr : PktHdr
    hdr = parse_hdr p

-- `parse_pcr`
unfoldable pub parse_pcr : List ℕ → ℕ × ℕ
parse_pcr pcr = (
  byte pcr 0 * 0x2000000
      + byte pcr 1 * 0x20000
      + byte pcr 2 * 0x200
      + byte pcr 3 * 0x02
      + bits (byte pcr 4) 7 1,
  bits (byte pcr 4) 0 1 * 0x100 + byte pcr 5,
)

-- `compute_pcr_time`
unfoldable pub compute_pcr_time : ℕ → ℕ → ℕ
compute_pcr_time base ext = (base * 300 + ext) % 2 ^ 64

-- what `show` hands to a listener
pub record Report : Type 0 where
  pub bitrates : Dict ℕ
  pub discontinuities : Dict ℕ
  pub tei_count : ℕ
  pub per_sec : Bool

-- `class stats`
pub record Stats : Type 0 where
  pub statistics : Dict ℕ
  pub discontinuities : Dict ℕ
  pub continuity : Dict ℕ
  pub tei_count : ℕ
  pub time_now : ℕ
  pub last_pcr_base : Dict ℕ
  pub has_callback : Bool
  pub has_iface : Bool
  pub reports : List Report

-- `m[k] += c` on a map of 64-bit counters
unfoldable pub bump : ℕ → ℕ → Dict ℕ → Dict ℕ
bump k c m = Dict.insert k ((Dict.get_or k m 0 + c) % 2 ^ 64) m

-- `show`, but for what it prints where nobody listens
unfoldable pub show : Bool → Stats → Stats
show per_sec s = record s { reports = to s.has_iface (to s.has_callback s.reports) }
  where
    report : Report
    report = record {
      bitrates = s.statistics;
      discontinuities = s.discontinuities;
      tei_count = s.tei_count;
      per_sec = per_sec;
    }

    to : Bool → List Report → List Report
    to listening rs = if listening then report ∷ rs else rs

-- `clear_stats`
unfoldable pub clear_stats : Stats → Stats
clear_stats s = record s {
  statistics = [];
  discontinuities = [];
  last_pcr_base = [];
  tei_count = 0;
}

-- `__push_pid`
unfoldable pub count_bytes : ℕ → ℕ → Stats → Stats
count_bytes c pid s = record s { statistics = bump all_pids c (bump pid c s.statistics) }

-- `push_pid(c, pid)`
unfoldable pub push_pid : ℕ → ℕ → ℕ → Stats → Stats
push_pid now c pid s =
    if ltb s.time_now now
    then count_bytes c pid (record (clear_stats (show true s)) { time_now = now })
    else count_bytes c pid s

-- `push_discontinuity`
unfoldable pub push_discontinuity : ℕ → Stats → Stats
push_discontinuity pid s = record s {
  discontinuities = bump all_pids 1 (bump pid 1 s.discontinuities);
}

-- `push_stats`
unfoldable pub push_stats : ℕ → PktStats → Stats → Stats
push_stats now pkt s =
    if pkt.tei
    then push_pid now 188 no_pid (record s { tei_count = (s.tei_count + 1) % 2 ^ 64 })
    else push_pid now 188 pkt.pid s

-- `__push`, for a caller that wants no `pkt_stats`
unfoldable pub push_plain : ℕ → List ℕ → Stats → Stats
push_plain now p s =
    push_pid now 188 (if byte p 0 == 0x47 then bits (byte p 1) 0 5 * 2 ^ 8 + byte p 2 else no_pid) s

-- the continuity check of `push`, for a pid that was seen before
unfoldable pub check_continuity : PktHdr → AdaptationField → ℕ → Stats → Stats
check_continuity hdr adapt last s =
    let next = (last + 1) % 2 ^ 4 in
    if not (next == hdr.continuity_ctr) && ltb 0 (hdr.continuity_ctr + last)
    then if not (has_adaptation hdr) && not (adapt.discontinuity == 0)
      then push_discontinuity hdr.pid s
      else s
    else s

-- the first part of `push`: the continuity counter of a packet with a payload
unfoldable pub push_continuity : PktHdr → AdaptationField → Stats → Stats
push_continuity hdr adapt s =
    if has_payload hdr then note (check (Dict.find hdr.pid s.continuity)) else s
  where
    check : Option ℕ → Stats
    check none = s
    check (some last) = check_continuity hdr adapt last s

    note : Stats → Stats
    note t = record t { continuity = Dict.insert hdr.pid hdr.continuity_ctr t.continuity }

-- the second part of `push`: the clock reference (`parse_pcr` of the others is only printed)
unfoldable pub push_pcr : PktHdr → AdaptationField → Stats → Stats
push_pcr hdr adapt s =
    if has_adaptation hdr && not (adapt.pcr == 0)
    then record s {
      last_pcr_base = Dict.insert hdr.pid (parse_pcr adapt.pcr_bytes).0 s.last_pcr_base;
    }
    else s

-- `push` with a `pkt_stats`
unfoldable pub push : ℕ → List ℕ → Stats → Stats
push now p s = push_stats now (parse p) (push_pcr hdr adapt (push_continuity hdr adapt s))
  where
    hdr : PktHdr
    hdr = parse_hdr p

    adapt : AdaptationField
    adapt = adaptation_of p
