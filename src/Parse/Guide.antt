-- ===== src/Parse/Guide.antt =====
-- What libdvbtee/parse.cpp tells of the streams it has met: the list of the channels (`xine_dump`,
-- `parse_channel_info`), the programme guide (`epg_dump`) and one service (`get_stream_info`). The printing is
-- left out, and so is the name of the modulation.
use libdvbtee.Base.{ℕ, ◌+◌, Option, none, some, List, [], ◌∷◌, ◌++◌, ◌==◌, if◌then◌else◌}
use libdvbtee.Base.Dict
use libdvbtee.Base.Dict.{Dict}
use libdvbtee.Text.Decimal.{padded}
use libdvbtee.Decode.Records.{ElementaryStream, DecodedPmt, DecodedVct}
use libdvbtee.Decode.Stream.{Decode}
use libdvbtee.Decode.Epg.{Texts, GuideEvent, short_text, stream_service, get_epg_event}
use libdvbtee.Decode.Dump.{Report, dump_epg}
use libdvbtee.Parse.State.{Parser, ChannelInfo, get_decoder, put_decoder, get_ts_id}
use libdvbtee.Parse.Psi.{is_video, is_audio}

-- `parsed_channel_info_t`
pub record ParsedChannel : Type 0 where
  pub lcn : ℕ
  pub major : ℕ
  pub minor : ℕ
  pub vpid : ℕ
  pub apid : ℕ
  pub program_number : ℕ
  pub physical_channel : ℕ
  pub freq : ℕ
  pub service_name : List ℕ

-- `get_decoder_if_exists`
unfoldable pub get_decoder_if_exists : ℕ → Parser → Option Decode
get_decoder_if_exists ts_id p = elim (Dict.find ts_id p.decoders) [
  | none ↦ none
  | some d ↦ some (record d { networks = p.networks })
]

-- the body and the loop of `parse_channel_info` over the streams
unfoldable pub parse_stream : ElementaryStream → ParsedChannel → ParsedChannel
unfolding is_video is_audio
parse_stream es c =
    if is_video es.type
    then (if c.vpid == 0 then record c { vpid = es.pid } else c)
    else if is_audio es.type
    then (if c.apid == 0 then record c { apid = es.pid } else c)
    else c

unfoldable pub parse_streams : Dict ElementaryStream → ParsedChannel → ParsedChannel
unfolding parse_stream
parse_streams [] c = c
parse_streams ((_, es) ∷ m) c = parse_streams m (parse_stream es c)

-- `"%04d_UNKNOWN"`
unfoldable pub unknown_name : ℕ → List ℕ
unfolding padded
unknown_name program =
    padded 4 program ++ (b'_' ∷ b'U' ∷ b'N' ∷ b'K' ∷ b'N' ∷ b'O' ∷ b'W' ∷ b'N' ∷ [])

-- the name that `parse_channel_info` takes from the service description table
unfoldable pub sdt_name : Texts → Decode → ℕ → List ℕ
unfolding unknown_name stream_service
sdt_name o d program = elim (stream_service d) [
  | none ↦ unknown_name program
  | some s ↦
      if Dict.has program s.sdt.services then o.service_name program else unknown_name program
]

-- the part of `parse_channel_info` behind the loop
unfoldable pub name_channel : Texts → ℕ → DecodedVct → Parser → ParsedChannel → ParsedChannel
unfolding short_text get_decoder_if_exists sdt_name
name_channel o ts_id vct p c =
    let unnumbered = record c { lcn = 0; major = 0; minor = 0 } in
    elim (Dict.find c.program_number vct.channels) [
      | some channel ↦ record unnumbered {
        major = channel.chan_major;
        minor = channel.chan_minor;
        service_name = short_text channel.short_name;
      }
      | none ↦ elim (get_decoder_if_exists ts_id p) [
        | none ↦ unnumbered
        | some d ↦ record unnumbered {
          lcn = o.lcn c.program_number;
          service_name = sdt_name o d c.program_number;
        }
      ]
    ]

-- `parse_channel_info`
unfoldable pub parse_channel_info :
    Texts → ℕ → DecodedPmt → DecodedVct → Parser → ParsedChannel → ParsedChannel
unfolding parse_streams name_channel
parse_channel_info o ts_id pmt vct p c = name_channel o ts_id vct p (parse_streams pmt.es_streams c)

-- the loop of `xine_dump` over the programs, with the calls of `chandump`
unfoldable pub dump_programs :
    Texts → ℕ → Decode → Parser → Dict ℕ → ParsedChannel → List ParsedChannel
unfolding parse_channel_info
dump_programs o ts_id d p [] c = []
dump_programs o ts_id d p ((number, _) ∷ m) c =
    let next = record c { program_number = number; apid = 0; vpid = 0 } in
    elim (Dict.find number d.pmt) [
      | none ↦ dump_programs o ts_id d p m next
      | some pmt ↦
          let told = parse_channel_info o ts_id pmt d.vct p next in
          told ∷ dump_programs o ts_id d p m told
    ]

-- the channel that `xine_dump` starts from; what it leaves unset is 0 here and is set before it is told
abbrev pub untold : ChannelInfo → ParsedChannel
untold info = record {
  lcn = 0;
  major = 0;
  minor = 0;
  vpid = 0;
  apid = 0;
  program_number = 0;
  physical_channel = info.channel;
  freq = info.frequency;
  service_name = [];
}

-- `xine_dump` of a stream, whose decoder is made if need be; it returns the number of the calls
unfoldable pub xine_dump_stream : Texts → ℕ → ChannelInfo → Parser → Parser × List ParsedChannel
unfolding dump_programs get_decoder put_decoder
xine_dump_stream o ts_id info p =
    let d = get_decoder ts_id p in
    let q = put_decoder ts_id d p in (q, dump_programs o ts_id d q d.pat.programs (untold info))

-- `channels[iter->second.channel] = iter->first`: the stream of each channel
unfoldable pub channels_of : Dict ChannelInfo → Dict ℕ → Dict ℕ
channels_of [] channels = channels
channels_of ((ts_id, info) ∷ m) channels = channels_of m (Dict.insert info.channel ts_id channels)

-- the loop of `xine_dump` over the channels
unfoldable pub dump_streams : Texts → Dict ℕ → Parser → Parser × List ParsedChannel
unfolding xine_dump_stream
dump_streams o [] p = (p, [])
dump_streams o ((_, ts_id) ∷ m) p =
    let (q, now) =
      xine_dump_stream o ts_id
        (Dict.get_or ts_id p.channel_info (record { channel = 0; frequency = 0 })) p in
    let (last, later) = dump_streams o m q in (last, now ++ later)

-- `xine_dump`
unfoldable pub xine_dump : Texts → Parser → Parser × List ParsedChannel
unfolding dump_streams channels_of
xine_dump o p = dump_streams o (channels_of p.channel_info []) p

-- the loop of `epg_dump`, and `epg_dump`
unfoldable pub dump_guides : Texts → Dict ℕ → Parser → Parser × List Report
unfolding get_decoder_if_exists dump_epg put_decoder
dump_guides o [] p = (p, [])
dump_guides o ((_, ts_id) ∷ m) p = elim (get_decoder_if_exists ts_id p) [
  | none ↦ dump_guides o m p
  | some d ↦ (
    (dump_guides o m (put_decoder ts_id (dump_epg o d).0 p)).0,
    (dump_epg o d).1 ++ (dump_guides o m (put_decoder ts_id (dump_epg o d).0 p)).1,
  )
]

unfoldable pub epg_dump : Texts → Parser → Parser × List Report
unfolding dump_guides channels_of
epg_dump o p = dump_guides o (channels_of p.channel_info []) p

-- What a call of `get_epg_event` leaves in the event that it is given.
unfoldable pub write_event : Texts → ℕ → ℕ → Decode → GuideEvent → GuideEvent
unfolding get_epg_event
write_event o service showtime d e = elim (get_epg_event o service showtime d).1 [
  | none ↦ e
  | some found ↦ found
]

-- the two events that `get_stream_info` asks for: what is on `now`, and at the second after its end
unfoldable pub two_events :
    Texts → ℕ → ℕ → Decode → GuideEvent → GuideEvent → GuideEvent × GuideEvent
unfolding write_event
two_events o service now d e0 e1 =
    let first = write_event o service now d e0 in
    (first, write_event o service (first.start_time + first.length_sec + 1) d e1)

-- `get_stream_info` with all its pointers set, as its callers call it: `none` where it returns false
unfoldable pub get_stream_info :
    Texts
    → ℕ
    → ℕ
    → ℕ
    → Parser
    → ParsedChannel
    → GuideEvent
    → GuideEvent
    → Option (ParsedChannel × GuideEvent × GuideEvent)
unfolding get_ts_id get_decoder_if_exists parse_channel_info two_events
get_stream_info o now channel service p c e0 e1 =
    let ts_id = get_ts_id channel p in
    if service == 0 then none else elim (Dict.find ts_id p.channel_info) [
      | none ↦ none
      | some info ↦ elim (get_decoder_if_exists ts_id p) [
        | none ↦ none
        | some d ↦ elim (Dict.find service d.pmt) [
          | none ↦ none
          | some pmt ↦ some (
            parse_channel_info o ts_id pmt d.vct p (record c {
              physical_channel = info.channel;
              freq = info.frequency;
              program_number = service;
              apid = 0;
              vpid = 0;
            }),
            (two_events o service now d e0 e1).0,
            (two_events o service now d e0 e1).1,
          )
        ]
      ]
    ]
