-- ===== src/Tune.antt =====
-- libdvbtee/tune.cpp: the scan of `class tune` over a list of channels.
-- The flags of `state` are four fields. What a device and the clock do while a channel is scanned is
-- a `Readings`; `channels`, a static variable of the file, is a field.
pub mod Scan
pub mod Range
mod Tests
use libdvbtee.Base.{
  ℕ, zero, suc, ◌+◌, ◌-◌, Bool, true, false, Option, none, some, List, [], ◌∷◌, ◌++◌, ◌&&◌, not,
  leb, ◌==◌, if◌then◌else◌,
}
use Prim.Native.Nat.{bit_and, bit_or}
use libdvbtee.Base.Dict
use libdvbtee.Base.Dict.{Dict}
use libdvbtee.Channels.{atsc_vsb_chan_to_freq, atsc_qam_chan_to_freq, dvbt_chan_to_freq}

-- `dvbtee_fe_modulation_t` and `dvbtee_fe_type_t`
pub data Modulation : Type 0 where
  qam_64 qam_256 vsb_8 vsb_16 : Modulation

pub data FeType : Type 0 where
  qpsk qam ofdm atsc : FeType

-- the texts that are handed to `set_channel_info`, by what they name
pub data Parameters : Type 0 where
  eight_vsb qam_256_text band_7_mhz band_8_mhz : Parameters

-- `SCAN_VSB` and `SCAN_QAM`
abbrev pub scan_vsb : ℕ
scan_vsb = 1

abbrev pub scan_qam : ℕ
scan_qam = 2

-- What happens at a channel: whether `stop_scan` was called before it and before its feed starts, what
-- `__tune_channel` and `start_feed` return, what `fe_status` returns before the time of each of the two
-- loops of `wait_for_lock_or_timeout` is over, and the id that the parser has in the end.
pub record Readings : Type 0 where
  pub stopped : Bool
  pub tunes : Bool
  pub statuses : List ℕ
  pub more_statuses : List ℕ
  pub stopped_later : Bool
  pub feed_starts : Bool
  pub ts_id : ℕ

-- `class tune`. `tuned` lists the calls of `tune_channel`, and `infos` those of `set_channel_info`.
pub record Tune : Type 0 where
  pub f_kill_thread : Bool
  pub is_open : Bool
  pub is_lock : Bool
  pub is_scan : Bool
  pub is_feed : Bool
  pub cur_chan : ℕ
  pub scan_mode : ℕ
  pub scan_channel_list : Dict Bool
  pub scan_epg : Bool
  pub scan_complete : Bool
  pub fe_type : FeType
  pub channels : Dict ℕ
  pub tuned : List (Modulation × ℕ)
  pub infos : List (ℕ × ℕ × Parameters)

-- the constructor; `channels` is what the variable of the file holds
abbrev pub new_tune : Dict ℕ → Tune
new_tune channels = record {
  f_kill_thread = false;
  is_open = false;
  is_lock = false;
  is_scan = false;
  is_feed = false;
  cur_chan = 0;
  scan_mode = 0;
  scan_channel_list = [];
  scan_epg = false;
  scan_complete = false;
  fe_type = ofdm;
  channels = channels;
  tuned = [];
  infos = [];
}

-- `close_fe`
unfoldable pub close_fe : Tune → Tune
close_fe t = record t { cur_chan = 0; is_open = false; is_lock = false }

-- `stop_feed`
unfoldable pub stop_feed : Tune → Tune
stop_feed t = record t { is_feed = false }

-- one loop of `wait_for_lock_or_timeout`, which gathers the bits of the status
unfoldable pub poll : ℕ → List ℕ → ℕ
poll status [] = status
poll status (s ∷ rest) =
    let later = poll (bit_or status s) rest in
    if bit_and (bit_or status s) 4 == 0 then later else bit_or status s

-- `wait_for_lock_or_timeout`
unfoldable pub wait_for_lock_or_timeout : List ℕ → List ℕ → Bool
unfolding poll
wait_for_lock_or_timeout statuses more_statuses =
    let status = poll 0 statuses in
    let last = if bit_and status 6 == 2 then poll status more_statuses else status in
    not (bit_and last 4 == 0)

-- the `switch` before `set_channel_info`
unfoldable pub channel_info : Tune → ℕ → ℕ × ℕ × Parameters
channel_info t channel = elim t.fe_type [
  | ofdm ↦ (channel, dvbt_chan_to_freq channel, if leb channel 12 then band_7_mhz else band_8_mhz)
  | _ ↦
      if t.scan_mode == scan_vsb
      then (channel, atsc_vsb_chan_to_freq channel, eight_vsb)
      else (channel, atsc_qam_chan_to_freq channel, qam_256_text)
]

abbrev pub modulation_of : ℕ → Modulation
modulation_of mode = if mode == scan_vsb then vsb_8 else qam_256

-- A channel that has a lock: the feed is started, runs for a while, and is stopped. The wait for tables
-- takes time only.
unfoldable pub scan_feed : Readings → ℕ → Tune → Tune
unfolding channel_info stop_feed
scan_feed r channel t =
    let told = record t { infos = t.infos ++ (channel_info t channel ∷ []) } in
    if r.feed_starts
    then (let fed = stop_feed (record told { is_feed = true }) in
        record fed { channels = Dict.insert channel r.ts_id fed.channels })
    else told

-- the body of the loop of `scan_thread`; false is a `break`
unfoldable pub scan_channel : Readings → ℕ → Tune → Bool × Tune
unfolding scan_feed wait_for_lock_or_timeout
scan_channel r channel t =
    let asked = record t { tuned = t.tuned ++ ((modulation_of t.scan_mode, channel) ∷ []) } in
    if r.stopped
    then (false, record t { f_kill_thread = true })
    else if Dict.has channel t.channels
    then (true, t)
    else if r.tunes && wait_for_lock_or_timeout r.statuses r.more_statuses
    then (if r.stopped_later
        then (false, record asked { f_kill_thread = true })
        else (true, scan_feed r channel asked))
    else (true, asked)

unfoldable pub scan_loop : (ℕ → Readings) → Dict Bool → Tune → Tune
scan_loop device [] t = t
scan_loop device ((channel, _) ∷ list) t =
    let step = scan_channel (device channel) channel t in
    let rest = scan_loop device list step.1 in if step.0 then rest else step.1

-- `scan_thread`
unfoldable pub scan_thread : (ℕ → Readings) → Tune → Tune
unfolding scan_loop close_fe
scan_thread device t =
    if t.is_scan
    then t
    else record (close_fe (scan_loop device t.scan_channel_list (record t { is_scan = true }))) {
      scan_complete = true;
      is_scan = false;
    }

-- The private `start_scan`: whether it returns 0. `opened` is whether `open_fe` succeeds, `created` whether
-- `pthread_create` does.
unfoldable pub start_scan : ℕ → Bool → Bool → Bool → Tune → Bool × Tune
unfolding close_fe
start_scan mode epg opened created t =
    let set = record t {
      scan_mode = if mode == scan_qam then scan_qam else scan_vsb;
      scan_epg = epg;
    } in
    let begun = record set { is_open = true; scan_complete = false; f_kill_thread = false } in
    if not opened then (false, set) else if created then (true, begun) else (false, close_fe begun)

-- the loop that lists the channels, from `first` on, `n` of them
unfoldable pub list_channels : ℕ → ℕ → Dict Bool → Dict Bool
list_channels zero first list = list
list_channels (suc n) first list = list_channels n (suc first) (Dict.insert first false list)

-- `start_scan` for a range of channels; 0 is the end that the table of the mode has
unfoldable pub start_scan_range : ℕ → ℕ → ℕ → Bool → Bool → Bool → Tune → Bool × Tune
unfolding list_channels start_scan
start_scan_range mode min max epg opened created t =
    let scan_min = if min == 0 then 2 else min in
    let scan_max = if max == 0 then (if mode == scan_qam then 133 else 69) else max in
    start_scan mode epg opened created
      (record t { scan_channel_list = list_channels (suc scan_max - scan_min) scan_min [] })
