-- ===== src/Decode/Tests.antt =====
-- The decoder at concrete tables.
use libdvbtee.Base.{ℕ, ◌<◌, ◌≡◌, refl, true, false, [], ◌∷◌, arith, length, ◌==◌}
use libdvbtee.Base.Dict
use libdvbtee.Decode.Records.{AtscEtt, AtscEvent}
use libdvbtee.Decode.Tables.{
  PsiPat, PsiPmt, PsiMgt, PsiVct, PsiEit, collect, collect_programs, ingest, store_pat, store_pmt,
  store_mgt, store_vct, store_eit,
}
use libdvbtee.Decode.Service.{new_service, take_eit, table_id_to_eit_x}
use libdvbtee.Decode.Stream.{
  new_decode, take_pat, take_pmt, ingest_pmt, take_vct, take_mgt, expect_pmts,
}
use libdvbtee.Decode.Ready.{missing_events, complete_pmt, all_received}
use libdvbtee.Decode.Twice.{taken_twice}
use libdvbtee.Decode.Guide.{take_eit_drops, table_id_to_eit_x_slots, missing_events_any_source}

program : ℕ
unfolding collect collect_programs ingest store_pat store_pmt store_mgt store_vct store_eit take_eit
    take_pat take_pmt ingest_pmt take_vct take_mgt expect_pmts missing_events complete_pmt
    all_received table_id_to_eit_x Dict.find Dict.has Dict.get_or Dict.insert
program = 0

abbrev pat : PsiPat
pat = record { ts_id = 7; version = 1; programs = (0, 0x10) ∷ (3, 0x30) ∷ (2, 0x20) ∷ [] }

abbrev pmt : ℕ → PsiPmt
pmt n = record {
  program = n;
  version = 4;
  pcr_pid = 0x31;
  streams = record { type = 2; pid = 0x31 } ∷ record { type = 0x81; pid = 0x34 } ∷ [];
}

abbrev vct : PsiVct
vct = record { version = 2; extension = 7; cable_vct = false; channels = [] }

abbrev mgt : PsiMgt
mgt = record {
  version = 3;
  tables = record { type = 0x100; pid = 0x1d00; version = 1; bytes = 99 } ∷ [];
}

abbrev eit : ℕ → PsiEit
eit id = record {
  table_id = id;
  extension = 5;
  version = 6;
  ts_id = 7;
  network_id = 1;
  last_table_id = 0x50;
  events =
      record {
        event_id = id;
        start_time = 0;
        length_sec = 60;
        running_status = 4;
        f_free_ca = false;
      }
      ∷ [];
}

-- The programs 2 and 3 lack their map tables, then 2 alone, then none.
programs_complete :
    let d = (take_pat pat (new_decode [])).0 in
    (complete_pmt d ≡ false)
    × (complete_pmt (take_pmt (pmt 3) d).0 ≡ false)
    × (complete_pmt (take_pmt (pmt 2) (take_pmt (pmt 3) d).0).0 ≡ true)
unfolding program
programs_complete = (refl, refl, refl)

taken_twice_example :
    let d = (take_pat pat (new_decode [])).0 in
    (take_pat pat (take_pat pat d).0 ≡ ((take_pat pat d).0, false))
    × (take_pmt (pmt 3) (take_pmt (pmt 3) d).0 ≡ ((take_pmt (pmt 3) d).0, false))
    × (take_vct vct (take_vct vct d).0 ≡ ((take_vct vct d).0, false))
    × (take_mgt mgt (take_mgt mgt d).0
        ≡ ((take_mgt mgt d).0, length (take_mgt mgt d).0.mgt.tables == 0))
taken_twice_example = taken_twice pat (pmt 3) vct mgt (take_pat pat (new_decode [])).0

-- the schedule's table after that of the present and following events
take_eit_drops_example :
    take_eit (eit 0x50) 1 (take_eit (eit 0x4e) 0 new_service).0
    ≡ (record (take_eit (eit 0x4e) 0 new_service).0 { eit_x = 1 }, false)
take_eit_drops_example = take_eit_drops (eit 0x4e) (eit 0x50) 0 1 new_service refl refl

last_slots :
    (table_id_to_eit_x 0x6f < 17)
    × (table_id_to_eit_x 0x4e ≡ 0)
    × (table_id_to_eit_x 0x4f ≡ 0)
    × (table_id_to_eit_x 0x5f ≡ 16)
    × (table_id_to_eit_x 0x6f ≡ 16)
last_slots = table_id_to_eit_x_slots 0x6f 15 (omega arith)

abbrev event : AtscEvent
event = record {
  event_id = 9;
  start_time = 0;
  etm_location = 1;
  length_sec = 60;
  title_bytes = 0;
  title = [];
}

-- the text of event 9 of source 1, for the event 9 of source 2
abbrev text : AtscEtt
text = record { version = 1; etm_id = 0x1_0026; etm_length = 0; etm = [] }

other_channel_counts :
    missing_events 2 ((0x26, text) ∷ []) ((9, event) ∷ [])
    ≡ missing_events 1 ((0x26, text) ∷ []) ((9, event) ∷ [])
other_channel_counts = missing_events_any_source 2 1 ((0x26, text) ∷ []) ((9, event) ∷ [])
