-- ===== src/Parse/Tests.antt =====
-- The parser at concrete buffers and tables.
use libdvbtee.Base.{
  ℕ, ◌+◌, ◌*◌, ◌/◌, ◌%◌, ◌≡◌, refl, true, false, none, some, List, [], ◌∷◌, ◌++◌, arith, drop,
  replicate,
}
use libdvbtee.Base.Dict
use libdvbtee.Stats
use libdvbtee.Stats.{Stats, parse, parse_hdr}
use libdvbtee.WritePsi.{Section}
use libdvbtee.Decode.Records.{ElementaryStream}
use libdvbtee.Decode.Tables.{PsiPat, PsiPmt, PsiMgt, PsiVct, PsiNit, PsiSdt}
use libdvbtee.Decode.Stream.{new_decode}
use libdvbtee.Decode.Ready.{within, all_received}
use libdvbtee.Parse.State.{Parser, pes_audio, patpmt, get_decoder}
use libdvbtee.Parse.Psi.{wanted, process_pat, process_pmt, process_mgt, is_video, is_audio}
use libdvbtee.Parse.Ready.{is_pmt_ready, is_basic_psip_ready, is_psip_ready, is_epg_ready}
use libdvbtee.Parse.Services.{reset, add_chosen_pids}
use libdvbtee.Parse.Choose.{carries, found_on, any_service, has-add_chosen_pids}
use libdvbtee.Parse.Afresh.{reset_forgets, feed_pid-reset}
use libdvbtee.Parse.Handlers.{
  take_pat, take_pmt, take_vct, take_mgt, take_nit_actual, take_sdt_actual,
}
use libdvbtee.Parse.Feed.{next}
use libdvbtee.Parse.Feed.{
  tp_pkt_pid, unsynced, resync, send, feed_pat, feed_pid, feed_packet, out_push, feed, dump_eits,
}
use libdvbtee.Parse.Sync.{resync_lem}
use libdvbtee.Parse.Loop.{IsSynced, join, run_nil, run_next, feed_stops_at_tei, feed-Run}
use libdvbtee.Parse.Expect.{
  any_stream, any_table, is_eit, is_ett, rcvd_pmt-process_pat, process_pmt_sorts, process_mgt_pids,
}
use libdvbtee.Parse.Progress.{is_basic_psip_ready_lem, is_pmt_ready-take_pmt}

program : ℕ
unfolding parse parse_hdr tp_pkt_pid unsynced resync send feed_pat feed_pid feed_packet out_push
    Dict.find Dict.has Dict.get_or Dict.insert wanted within any_stream any_table is_eit is_ett
    is_video is_audio get_decoder
program = 0

abbrev pub stats : Stats
stats = record {
  statistics = [];
  discontinuities = [];
  continuity = [];
  tei_count = 0;
  time_now = 0;
  last_pcr_base = [];
  has_callback = false;
  has_iface = false;
  reports = [];
}

abbrev pub start : Parser
start = record {
  decoders = [];
  networks = [];
  statistics = stats;
  fed_pkt_count = 0;
  ts_id = 0;
  service_ids = [];
  epg_mode = false;
  scan_mode = false;
  dont_collect_ett = false;
  has_pat = false;
  has_mgt = false;
  has_vct = false;
  has_sdt = false;
  has_nit = false;
  expect_vct = true;
  rcvd_pmt = [];
  eit_pids = [];
  ett_pids = [];
  dumped_eit = 0;
  eit_collection_limit = none;
  process_err_pkts = false;
  tei_count = 0;
  payload_pids = [];
  audio_pids = [];
  video_pids = [];
  out_pids = [];
  enabled = true;
  pat_pkt = record { sync = 0; flags = 0; pid_low = 0; counter = 0; body = replicate 184 0 };
  rewritten_pat_ver_offset = 0;
  rewritten_pat_cont_ctr = 0;
  h_pmt = [];
  h_demux = [];
  channel_info = [];
  new_channel_info = record { channel = 0; frequency = 0 };
  filters = [];
  sent = [];
}

-- a library that counts the packets it gets
abbrev pub psi_push : ℕ → List ℕ → ℕ × Parser → ℕ × Parser
psi_push pid pkt (n, p) = (n + 1, p)

abbrev pub now : ℕ → ℕ
now n = n

-- a packet of the pid 0, one of no use, and one with the error flag
abbrev pat_packet : List ℕ
pat_packet = 0x47 ∷ 0x40 ∷ 0 ∷ 0x10 ∷ replicate 184 0xff

abbrev other : List ℕ
other = 0x47 ∷ 0x1f ∷ 0xff ∷ 0x10 ∷ replicate 184 0xff

abbrev broken : List ℕ
broken = 0x47 ∷ 0x80 ∷ 0 ∷ 0x10 ∷ replicate 184 0xff

-- two bytes that are no packet, and three packets behind them
resync_two :
    resync (188 * 3) 0 3 (1 ∷ 2 ∷ pat_packet ++ other ++ other) ≡ (pat_packet ++ other ++ other, 3)
unfolding program
resync_two = refl

resync_lem_example :
    let (at, left) = resync (188 * 3) 0 3 (1 ∷ 2 ∷ pat_packet ++ other ++ other) in
    (k : ℕ) × (at ≡ drop k (1 ∷ 2 ∷ pat_packet ++ other ++ other))
    × (unsynced left at ≡ false)
    × (left + k / 188 ≡ 3)
    × (k + 188 * left ≡ 188 * 3 + k % 188)
resync_lem_example = resync_lem 3 (1 ∷ 2 ∷ pat_packet ++ other ++ other)

synced : (p : List ℕ) → IsSynced (0x47 ∷ 0x40 ∷ 0 ∷ p)
synced p = record { sync = refl; pid_low = omega arith }

feed_stops_at_tei_example :
    feed psi_push now 564 (broken ++ pat_packet ++ other) (0, start)
    ≡ (0, dump_eits 128 (record start { tei_count = 3 }))
unfolding program
feed_stops_at_tei_example =
    feed_stops_at_tei psi_push now 564 (broken ++ pat_packet ++ other) 0 start (omega arith) refl
      (
        record { sync = refl; pid_low = omega arith },
        (
          record { sync = refl; pid_low = omega arith },
          (record { sync = refl; pid_low = omega arith }, tt),
        ),
      )
      refl refl (omega arith)

-- after the packet of pid 0, and after the other one
abbrev fed : Parser
fed = record start {
  sent = (pat_packet, patpmt) ∷ [];
  statistics = Stats.push 1 pat_packet stats;
  fed_pkt_count = 2;
}

feed-Run_example :
    feed psi_push now 377 (join (pat_packet ∷ other ∷ []) (0x47 ∷ [])) (0, start)
    ≡ (1, dump_eits 128 fed)
unfolding program
feed-Run_example =
    feed-Run psi_push now (pat_packet ∷ other ∷ []) (0x47 ∷ []) 0 1 start fed (omega arith)
      (omega arith)
      (
        refl,
        record { sync = refl; pid_low = omega arith },
        (refl, record { sync = refl; pid_low = omega arith }, tt),
      )
      refl (run_next refl (run_next refl run_nil))

abbrev scanned : Parser
scanned = record start { service_ids = (3, 0) ∷ [] }

rcvd_pmt-process_pat_test :
    Dict.find 3 (process_pat ((0, 0x10) ∷ (2, 0x20) ∷ (3, 0x30) ∷ []) scanned).rcvd_pmt ≡ some false
unfolding program
rcvd_pmt-process_pat_test = rcvd_pmt-process_pat 3 ((0, 0x10) ∷ (2, 0x20) ∷ (3, 0x30) ∷ []) scanned

abbrev streams : List (ℕ × ElementaryStream)
streams = (0x31, record { type = 2; pid = 0x31 }) ∷ (0x34, record { type = 0x81; pid = 0x34 }) ∷ []

process_pmt_sorts_test :
    let q = process_pmt streams start in
    (Dict.has 0x34 q.payload_pids ≡ true)
    × (Dict.has 0x34 q.video_pids ≡ false)
    × (Dict.has 0x34 q.audio_pids ≡ true)
unfolding program
process_pmt_sorts_test = process_pmt_sorts 0x34 streams start

-- a decoder with a guide that lists a channel table, EIT-0, EIT-1 and ETT-0, and a parser that collects
-- EIT-0 and its texts only
abbrev guided : Parser
guided = record start {
  eit_collection_limit = some 0;
  decoders =
      (
        0,
        record (new_decode []) {
          mgt = record {
            version = 1;
            tables =
                (0, record { type = 0; pid = 0x1ffb; version = 1; bytes = 9 })
                ∷ (0x100, record { type = 0x100; pid = 0x1d00; version = 1; bytes = 9 })
                ∷ (0x101, record { type = 0x101; pid = 0x1d01; version = 1; bytes = 9 })
                ∷ (0x200, record { type = 0x200; pid = 0x1d02; version = 1; bytes = 9 })
                ∷ [];
          };
        },
      )
      ∷ [];
}

process_mgt_pids_example :
    let q = process_mgt guided in
    (Dict.has 0x1d01 q.eit_pids ≡ false)
    × (Dict.has 0x1d01 q.ett_pids ≡ false)
    × (q.expect_vct ≡ true)
unfolding program
process_mgt_pids_example = process_mgt_pids 0x1d01 guided

-- the sections of a table: none, or one that is too short to be real
abbrev gen_pat : ℕ → ℕ → List (ℕ × ℕ) → List Section
gen_pat ts_id version programs = (0x00 ∷ 0xb0 ∷ 0x00 ∷ []) ∷ []

abbrev pat : PsiPat
pat = record { ts_id = 7; version = 1; programs = (0, 0x10) ∷ (3, 0x30) ∷ [] }

abbrev mgt : PsiMgt
mgt = record {
  version = 3;
  tables = record { type = 0x100; pid = 0x1d00; version = 1; bytes = 99 } ∷ [];
}

abbrev vct : PsiVct
vct = record { version = 2; extension = 7; cable_vct = false; channels = [] }

abbrev nit : PsiNit
nit = record {
  network_id = 1;
  version = 0;
  streams = record { ts_id = 7; orig_network_id = 2 } ∷ [];
}

abbrev sdt : PsiSdt
sdt = record { extension = 7; version = 0; network_id = 1; services = [] }

is_basic_psip_ready_lem_example :
    (is_basic_psip_ready (take_vct vct (take_mgt mgt (take_pat gen_pat pat scanned))) ≡ true)
    × (is_basic_psip_ready
          (take_sdt_actual sdt (take_nit_actual nit (take_pat gen_pat pat scanned)))
        ≡ true)
is_basic_psip_ready_lem_example = is_basic_psip_ready_lem gen_pat pat mgt vct nit sdt scanned

abbrev pmt : PsiPmt
pmt = record {
  program = 3;
  version = 4;
  pcr_pid = 0x31;
  streams = record { type = 2; pid = 0x31 } ∷ [];
}

is_pmt_ready-take_pmt_example :
    is_pmt_ready 3 (take_pmt pmt (record scanned { has_pat = true; rcvd_pmt = (3, false) ∷ [] }))
    ≡ true
is_pmt_ready-take_pmt_example =
    is_pmt_ready-take_pmt pmt (record scanned { has_pat = true; rcvd_pmt = (3, false) ∷ [] })
      (omega arith) refl

-- a parser of a program with sound, whose tables are all in
abbrev sounding : Parser
sounding = record start {
  has_pat = true;
  has_sdt = true;
  has_nit = true;
  audio_pids = (0x34, 0x81) ∷ [];
  rcvd_pmt = (3, true) ∷ [];
  decoders = (0, new_decode []) ∷ [];
}

sounding_ready : is_psip_ready sounding ≡ true
unfolding program is_psip_ready is_basic_psip_ready is_pmt_ready all_received
sounding_ready = refl

reset_forgets_example :
    let q = reset sounding in
    (is_pmt_ready 3 q ≡ false)
    × (is_basic_psip_ready q ≡ false)
    × (is_psip_ready q ≡ false)
    × (is_epg_ready q ≡ false)
    × (q.service_ids ≡ [])
    × (Dict.has 0x12 q.h_demux ≡ true)
reset_forgets_example = reset_forgets 3 0x12 sounding

feed_pid-reset_example :
    feed_pid psi_push now 0x34 other (0, reset sounding)
    ≡ next (send psi_push now 0x34 other pes_audio (0, reset sounding))
unfolding program
feed_pid-reset_example = feed_pid-reset psi_push now 0x34 other 0 sounding refl refl refl refl refl

-- a decoder of program 3, with its map table
abbrev playing : Parser
playing = record start {
  decoders =
      (
        0,
        record (new_decode []) {
          pat = record { ts_id = 0; version = 1; programs = (3, 0x30) ∷ [] };
          pmt = (3, record { program = 3; version = 4; pcr_pid = 0x31; es_streams = streams }) ∷ [];
        },
      )
      ∷ [];
}

has-add_chosen_pids_example : Dict.has 0x34 (add_chosen_pids ((3, 0) ∷ []) playing []) ≡ true
unfolding program carries found_on any_service
has-add_chosen_pids_example = has-add_chosen_pids 0x34 ((3, 0) ∷ []) playing []
