-- ===== src/Stats/Tests.antt =====
-- The statistics at concrete packets.
use libdvbtee.Base.{ℕ, ◌+◌, ◌*◌, ◌≡◌, refl, true, false, some, List, [], ◌∷◌, arith}
use libdvbtee.Base.Dict
use libdvbtee.Stats.{
  Stats, Report, PktHdr, parse, parse_hdr, adaptation_of, parse_adaptation, parse_pcr,
  compute_pcr_time, push, push_stats, push_pid, push_pcr, push_continuity, check_continuity,
  count_bytes, bump, show, clear_stats,
}
use libdvbtee.Stats.Header.{hdr_bytes, parse-hdr_bytes}
use libdvbtee.Stats.Pcr.{pcr_bytes, parse_pcr-pcr_bytes}
use libdvbtee.Stats.Totals.{IsTotal, total, push-IsTotal}
use libdvbtee.Stats.Push.{discontinuities-push, continuity-push, push_pid_reports, listeners}

program : ℕ
unfolding parse parse_hdr adaptation_of parse_adaptation parse_pcr compute_pcr_time push push_stats
    push_pid push_pcr push_continuity check_continuity count_bytes bump show clear_stats Dict.find
    Dict.has Dict.get_or Dict.insert total hdr_bytes pcr_bytes listeners
program = 0

-- pid 0x1ffb, payload and adaptation field with a clock, counter 5
abbrev header : PktHdr
header = record {
  sync_byte = 0x47;
  tei = 0;
  payload_unit_start = 1;
  transport_priority = 0;
  pid = 0x1ffb;
  scrambling = 0;
  adaptation_flags = 3;
  continuity_ctr = 5;
}

abbrev packet : List ℕ
packet = 0x47 ∷ 0x5f ∷ 0xfb ∷ 0x35 ∷ 7 ∷ 0x90 ∷ 0 ∷ 0 ∷ 0 ∷ 1 ∷ 0x80 ∷ 9 ∷ []

-- one second in, with a listener, after one packet of the same pid
abbrev before : Stats
before = record {
  statistics = (0x1ffb, 188) ∷ (0x2000, 188) ∷ [];
  discontinuities = [];
  continuity = (0x1ffb, 3) ∷ [];
  tei_count = 1;
  time_now = 1;
  last_pcr_base = [];
  has_callback = true;
  has_iface = false;
  reports = [];
}

push_same_second : push 1 packet before ≡ record before {
  statistics = (0x1ffb, 376) ∷ (0x2000, 376) ∷ [];
  continuity = (0x1ffb, 5) ∷ [];
  last_pcr_base = (0x1ffb, 3) ∷ [];
}
unfolding program
push_same_second = refl

parse-hdr_bytes_example :
    (parse_hdr (hdr_bytes header []) ≡ header)
    × (parse (hdr_bytes header []) ≡ record { tei = false; sync_loss = false; pid = 0x1ffb })
parse-hdr_bytes_example = parse-hdr_bytes header [] (record {
  sync_byte = omega arith;
  tei = omega arith;
  payload_unit_start = omega arith;
  transport_priority = omega arith;
  pid = omega arith;
  scrambling = omega arith;
  adaptation_flags = omega arith;
  continuity_ctr = omega arith;
})

parse_pcr-pcr_bytes_example :
    (parse_pcr (pcr_bytes 0x1_ffff_ffff 63 300) ≡ (0x1_ffff_ffff, 300))
    × (compute_pcr_time 0x1_ffff_ffff 300 ≡ 0x1_ffff_ffff * 300 + 300)
parse_pcr-pcr_bytes_example =
    parse_pcr-pcr_bytes 0x1_ffff_ffff 63 300 (omega arith) (omega arith) (omega arith)

before-IsTotal : IsTotal before
unfolding program
before-IsTotal = record { sorted = (((omega arith), tt), (tt, tt)); summed = refl }

push-IsTotal_example : IsTotal (push 1 packet before)
push-IsTotal_example = push-IsTotal 1 packet (omega arith) before-IsTotal

discontinuities-push_example : (push 1 packet before).discontinuities ≡ []
discontinuities-push_example = discontinuities-push 1 packet before

continuity-push_test : Dict.find 0x1ffb (push 1 packet before).continuity ≡ some 5
unfolding program
continuity-push_test = continuity-push 1 0x1ffb packet before

push_pid_reports_test :
    let s' = push_pid 2 188 5 before in
    let over : Report = record {
      bitrates = before.statistics;
      discontinuities = [];
      tei_count = 1;
      per_sec = true;
    } in
    (s'.reports ≡ over ∷ [])
    × (Dict.get_or 5 s'.statistics 0 ≡ 188)
    × (s'.tei_count ≡ 0)
    × (s'.time_now ≡ 2)
unfolding listeners
push_pid_reports_test = push_pid_reports 2 188 5 before (omega arith)
