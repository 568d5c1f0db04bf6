-- ===== src/Tune/Tests.antt =====
-- The scan on concrete values.
use libdvbtee.Base.{ℕ, ◌≡◌, refl, true, false, [], ◌∷◌, ◌++◌, ◌&&◌, leb}
use libdvbtee.Base.Dict
use libdvbtee.Base.Dict.{Dict}
use libdvbtee.Channels.{
  atsc_vsb_chan_to_freq, atsc_vsb_base_offset, atsc_qam_chan_to_freq, dvbt_chan_to_freq,
  dvbt_base_offset,
}
use libdvbtee.Tune.{
  Tune, Readings, new_tune, vsb_8, scan_vsb, scan_qam, poll, wait_for_lock_or_timeout, channel_info,
  scan_feed, scan_channel, scan_loop, scan_thread, close_fe, stop_feed, start_scan, list_channels,
  start_scan_range,
}
use libdvbtee.Tune.Scan.{AreDistinct, due, scan_thread_lem}
use libdvbtee.Tune.Range.{start_scan_range_lem}

program : ℕ
unfolding poll wait_for_lock_or_timeout channel_info scan_feed scan_channel scan_loop scan_thread
    close_fe stop_feed start_scan list_channels start_scan_range Dict.insert Dict.has due
    atsc_vsb_chan_to_freq atsc_vsb_base_offset atsc_qam_chan_to_freq dvbt_chan_to_freq
    dvbt_base_offset
program = 0

-- a lock at each channel, with the id 7 there
abbrev everywhere : ℕ → Readings
everywhere channel = record {
  stopped = false;
  tunes = true;
  statuses = 1 ∷ 3 ∷ [];
  more_statuses = 4 ∷ [];
  stopped_later = false;
  feed_starts = true;
  ts_id = 7;
}

late_lock : wait_for_lock_or_timeout (1 ∷ 3 ∷ []) (4 ∷ []) ≡ true
unfolding program
late_lock = refl

no_lock : wait_for_lock_or_timeout (1 ∷ []) (4 ∷ []) ≡ false
unfolding program
no_lock = refl

-- the scan for terrestrial channels 2 to 4, where 3 was found before
abbrev ready : Tune
ready = (start_scan_range scan_vsb 0 4 false true true (new_tune ((3, 5) ∷ []))).1

scanned : (scan_thread everywhere ready).tuned ≡ (vsb_8, 2) ∷ (vsb_8, 4) ∷ []
unfolding program
scanned = refl

-- The same channels are then passed over in the other mode.
cable_after_terrestrial :
    (scan_thread everywhere
      (start_scan_range scan_qam 2 4 false true true (scan_thread everywhere ready)).1).tuned
    ≡ (vsb_8, 2) ∷ (vsb_8, 4) ∷ []
unfolding program
cable_after_terrestrial = refl

scan_thread_lem_example :
    ((scan_thread everywhere ready).tuned
      ≡ [] ++ due vsb_8 ((3, 5) ∷ []) ((2, false) ∷ (3, false) ∷ (4, false) ∷ []))
    × ((scan_thread everywhere ready).scan_complete ≡ true)
    × ((scan_thread everywhere ready).is_scan ≡ false)
    × ((scan_thread everywhere ready).is_open ≡ false)
    × ((scan_thread everywhere ready).is_lock ≡ false)
unfolding program
scan_thread_lem_example =
    scan_thread_lem everywhere ready refl (refl, (refl, (refl, tt))) (λ channel. refl)
      (λ channel. refl)

start_scan_range_lem_test :
    (Dict.has 3 ready.scan_channel_list ≡ (leb 2 3 && leb 3 4))
    × AreDistinct ready.scan_channel_list
unfolding program
start_scan_range_lem_test =
    start_scan_range_lem scan_vsb 0 4 false true true (new_tune ((3, 5) ∷ [])) 3
