-- ===== src/Parse/State.antt =====
-- The fields of `class parse`, and its access to the decoders.
use libdvbtee.Base.{ℕ, Bool, Option, List, [], ◌∷◌, ◌==◌, if◌then◌else◌}
use libdvbtee.Base.Dict
use libdvbtee.Base.Dict.{Dict}
use libdvbtee.Stats.{Stats}
use libdvbtee.WritePsi.{Packet}
use libdvbtee.Decode.Network.{Network}
use libdvbtee.Decode.Stream.{Decode, new_decode}

-- `channel_info_t`, without the name of the modulation
pub record ChannelInfo : Type 0 where
  pub channel : ℕ
  pub frequency : ℕ

-- the `output_options` that the parser uses
pub data OutType : Type 0 where
  none_type patpmt pes psip pes_audio pes_video : OutType

-- `class parse`. `h_pmt` maps a pid to the program whose map table is expected there, and
-- `h_demux` has the pids on which the tables are demultiplexed. `filters` are the calls of
-- `addfilter` and `sent` those of `out.push`, the latest first. A limit of -1 is `none`.
pub record Parser : Type 0 where
  pub decoders : Dict Decode
  pub networks : Dict Network
  pub statistics : Stats
  pub fed_pkt_count : ℕ
  pub ts_id : ℕ
  pub service_ids : Dict ℕ
  pub epg_mode : Bool
  pub scan_mode : Bool
  pub dont_collect_ett : Bool
  pub has_pat : Bool
  pub has_mgt : Bool
  pub has_vct : Bool
  pub has_sdt : Bool
  pub has_nit : Bool
  pub expect_vct : Bool
  pub rcvd_pmt : Dict Bool
  pub eit_pids : Dict ℕ
  pub ett_pids : Dict ℕ
  pub dumped_eit : ℕ
  pub eit_collection_limit : Option ℕ
  pub process_err_pkts : Bool
  pub tei_count : ℕ
  pub payload_pids : Dict ℕ
  pub audio_pids : Dict ℕ
  pub video_pids : Dict ℕ
  pub out_pids : Dict ℕ
  pub enabled : Bool
  pub pat_pkt : Packet
  pub rewritten_pat_ver_offset : ℕ
  pub rewritten_pat_cont_ctr : ℕ
  pub h_pmt : Dict ℕ
  pub h_demux : Dict Bool
  pub channel_info : Dict ChannelInfo
  pub new_channel_info : ChannelInfo
  pub filters : List ℕ
  pub sent : List (List ℕ × OutType)

-- the pids with a name in parse.cpp
abbrev pub pid_pat : ℕ
pid_pat = 0x00

abbrev pub pid_nit : ℕ
pid_nit = 0x10

abbrev pub pid_sdt : ℕ
pid_sdt = 0x11

abbrev pub pid_eit : ℕ
pid_eit = 0x12

abbrev pub pid_tot : ℕ
pid_tot = 0x14

abbrev pub pid_atsc : ℕ
pid_atsc = 0x1ffb

-- `add_filter`
unfoldable pub add_filter : ℕ → Parser → Parser
add_filter pid p = record p { filters = pid ∷ p.filters }

-- `get_decoder`: the decoder of a transport stream, a new one if need be. The networks of the
-- parser are those of each of its decoders.
unfoldable pub get_decoder : ℕ → Parser → Decode
get_decoder id p = record (Dict.get_or id p.decoders (new_decode [])) { networks = p.networks }

-- what is left of a decoder after a call of one of its methods
unfoldable pub put_decoder : ℕ → Decode → Parser → Parser
put_decoder id d p = record p { decoders = Dict.insert id d p.decoders; networks = d.networks }

-- a call `get_decoder(id).method(…)`
unfoldable pub on_decoder : ℕ → (Decode → Decode × Bool) → Parser → Parser × Bool
unfolding get_decoder put_decoder
on_decoder id method p = let (d, done) = method (get_decoder id p) in (put_decoder id d p, done)

-- `set_ts_id`
unfoldable pub set_ts_id : ℕ → Parser → Parser
unfolding get_decoder put_decoder
set_ts_id id p =
    put_decoder id (record (get_decoder id p) { physical_channel = p.new_channel_info.channel })
      (record p { ts_id = id; channel_info = Dict.insert id p.new_channel_info p.channel_info })

-- the loop of `get_ts_id(channel)`
unfoldable pub find_channel : ℕ → Dict ChannelInfo → ℕ
find_channel channel [] = 0
find_channel channel ((id, info) ∷ m) =
    if channel == info.channel then id else find_channel channel m

-- `get_ts_id(channel)`
unfoldable pub get_ts_id : ℕ → Parser → ℕ
unfolding find_channel
get_ts_id channel p = if channel == 0 then p.ts_id else find_channel channel p.channel_info
