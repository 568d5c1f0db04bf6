-- ===== src/Decode/Epg.antt =====
-- The programme guide of libdvbtee/decode.cpp: the event that a service shows at a time, and the listing of
-- all events (`get_epg_event`, `dump_epg`). The texts of an event come from descriptors or, for ATSC,
-- from a decoder of compressed texts, which is another project's: both are parameters. What is only logged is
-- left out. Times before 1970 are left out too.
use libdvbtee.Base.{
  ℕ, zero, suc, ◌+◌, ◌-◌, ◌%◌, ◌^◌, Bool, true, false, Option, none, some, List, [], ◌∷◌, ◌&&◌,
  get_or, ltb, leb, ◌==◌, if◌then◌else◌,
}
use mathlib.Core.Option
use libdvbtee.Base.Dict
use libdvbtee.Base.Dict.{Dict}
use libdvbtee.Time.{CTime, datetime_utc, atsc_datetime_utc}
use libdvbtee.Decode.Records.{
  VctChannel, AtscEvent, AtscEit, SdtService, EitEvent, DecodedEit, no_atsc_eit, no_eit,
}
use libdvbtee.Decode.Service.{NetworkService}
use libdvbtee.Decode.Stream.{Decode, ett_key}
use libdvbtee.Decode.Ready.{etm_id_of}

-- `decoded_event_t`
pub record GuideEvent : Type 0 where
  pub channel_name : List ℕ
  pub chan_major : ℕ
  pub chan_minor : ℕ
  pub chan_physical : ℕ
  pub chan_svc_id : ℕ
  pub event_id : ℕ
  pub start_time : ℕ
  pub length_sec : ℕ
  pub name : List ℕ
  pub text : List ℕ

-- `multiple_string data bytes room` is what `decode_multiple_string` writes into a room. `lcn` and
-- `service_name` go by service id, `event_name` and `event_text` by the number of the table, service
-- id and event id.
pub record Texts : Type 0 where
  pub times : CTime
  pub multiple_string : List ℕ → ℕ → ℕ → List ℕ
  pub lcn : ℕ → ℕ
  pub service_name : ℕ → List ℕ
  pub event_name : ℕ → ℕ → ℕ → List ℕ
  pub event_text : ℕ → ℕ → ℕ → List ℕ

-- the text before the first zero of a buffer
unfoldable pub c_string : List ℕ → List ℕ
c_string [] = []
c_string (x ∷ xs) = let rest = c_string xs in if x == 0 then [] else x ∷ rest

-- `short_name[i*2+1]` for `i` below 7, as a text
unfoldable pub short_text : List ℕ → List ℕ
unfolding c_string
short_text s = c_string (
    get_or s 1 0
    ∷ get_or s 3 0
    ∷ get_or s 5 0
    ∷ get_or s 7 0
    ∷ get_or s 9 0
    ∷ get_or s 11 0
    ∷ get_or s 13 0
    ∷ [])

-- `get_decoded_ett`, of which the argument `etm_id` has 16 bits
unfoldable pub get_decoded_ett : Texts → Decode → ℕ → ℕ → List ℕ
get_decoded_ett o d x etm_id = elim (Dict.find (ett_key etm_id) (Dict.get_or x d.ett [])) [
  | none ↦ []
  | some t ↦ o.multiple_string t.etm t.etm_length 4096
]

-- `start` and `end` of an event
unfoldable pub atsc_span : Texts → AtscEvent → ℕ × ℕ
atsc_span o e = (
  atsc_datetime_utc o.times e.start_time,
  atsc_datetime_utc o.times ((e.start_time + e.length_sec) % 2 ^ 32),
)

unfoldable pub dvb_span : Texts → EitEvent → ℕ × ℕ
dvb_span o e = (
  datetime_utc o.times e.start_time,
  datetime_utc o.times ((e.start_time + e.length_sec) % 2 ^ 64),
)

-- `end - start` in 32 bits
unfoldable pub span_sec : ℕ × ℕ → ℕ
span_sec (start, end) = (end + (2 ^ 32 - start % 2 ^ 32)) % 2 ^ 32

-- `get_epg_event` for an event of an ATSC table; `length_sec` is the last argument here
unfoldable pub atsc_event : Texts → Decode → ℕ → VctChannel → AtscEvent → ℕ → GuideEvent
unfolding short_text get_decoded_ett atsc_span
atsc_event o d x channel e length_sec = record {
  channel_name = short_text channel.short_name;
  chan_major = channel.chan_major;
  chan_minor = channel.chan_minor;
  chan_physical = d.physical_channel;
  chan_svc_id = channel.program;
  event_id = e.event_id;
  start_time = (atsc_span o e).0;
  length_sec = length_sec;
  name = o.multiple_string e.title e.title_bytes 512;
  text = get_decoded_ett o d x (etm_id_of channel.source_id e.event_id);
}

-- `get_epg_event` for an event of a DVB table
unfoldable pub dvb_event : Texts → Decode → ℕ → SdtService → EitEvent → ℕ → GuideEvent
unfolding dvb_span
dvb_event o d x service e length_sec = record {
  channel_name = o.service_name service.service_id;
  chan_major = o.lcn service.service_id;
  chan_minor = 0;
  chan_physical = d.physical_channel;
  chan_svc_id = service.service_id;
  event_id = e.event_id;
  start_time = (dvb_span o e).0;
  length_sec = length_sec;
  name = o.event_name x service.service_id e.event_id;
  text = o.event_text x service.service_id e.event_id;
}

-- `(start <= showtime) && (end > showtime)`
unfoldable pub is_showing : ℕ × ℕ → ℕ → Bool
is_showing (start, end) showtime = leb start showtime && ltb showtime end

-- the loop over the events of a table: the first one that is showing
unfoldable pub first_showing {ℓ} : {E : Type ℓ} → (E → ℕ × ℕ) → ℕ → Dict E → Option E
unfolding is_showing
first_showing span showtime [] = none
first_showing span showtime ((_, e) ∷ m) =
    let rest = first_showing span showtime m in
    if is_showing (span e) showtime then some e else rest

-- what was found at once, or else what is found later
abbrev pub or_else {ℓ} : {A : Type ℓ} → Option A → Option A → Option A
or_else none b = b
or_else (some a) b = some a

-- the loop over the tables, of which `left` are left in the array: it ends at the first one that is not
-- there
unfoldable pub search_eits {ℓ} : {A : Type ℓ} → (ℕ → Bool) → (ℕ → Option A) → ℕ → ℕ → Option A
search_eits there found eit_num zero = none
search_eits there found eit_num (suc left) =
    let rest = or_else (found eit_num) (search_eits there found (eit_num + 1) left) in
    if there eit_num then rest else none

-- `decoded_atsc_eit[eit_num].count(source_id)`, and the table
unfoldable pub has_atsc_eit : Decode → ℕ → ℕ → Bool
has_atsc_eit d source_id x = Dict.has source_id (Dict.get_or x d.atsc_eit [])

unfoldable pub atsc_eit_of : Decode → ℕ → ℕ → AtscEit
atsc_eit_of d source_id x = Dict.get_or source_id (Dict.get_or x d.atsc_eit []) no_atsc_eit

-- the body of the loop of `get_epg_event_atsc` over the tables
unfoldable pub showing_atsc : Texts → Decode → VctChannel → ℕ → ℕ → Option GuideEvent
unfolding first_showing atsc_eit_of atsc_event
showing_atsc o d channel showtime x =
    Option.map (λ e. atsc_event o d x channel e e.length_sec)
      (first_showing (atsc_span o) showtime (atsc_eit_of d channel.source_id x).events)

-- the loop of `get_epg_event_atsc` over the channels
unfoldable pub search_channels : Texts → Decode → ℕ → ℕ → Dict VctChannel → Option GuideEvent
unfolding search_eits showing_atsc has_atsc_eit
search_channels o d source_id showtime [] = none
search_channels o d source_id showtime ((_, channel) ∷ m) =
    let rest = search_channels o d source_id showtime m in
    let here =
      or_else (search_eits (has_atsc_eit d source_id) (showing_atsc o d channel showtime) 0 128)
        rest in
    if source_id == channel.source_id then here else rest

-- `get_epg_event_atsc`: `none` where it returns false
unfoldable pub get_epg_event_atsc : Texts → ℕ → ℕ → Decode → Option GuideEvent
unfolding search_channels
get_epg_event_atsc o source_id showtime d =
    if source_id == 0 then none else search_channels o d source_id showtime d.vct.channels

-- `get_decoded_sdt` and `get_decoded_eit`
unfoldable pub stream_service : Decode → Option NetworkService
stream_service d = elim (Dict.find d.orig_network_id d.networks) [
  | none ↦ none
  | some nw ↦ Dict.find d.pat.ts_id nw.services
]

unfoldable pub dvb_eit_of : NetworkService → ℕ → ℕ → DecodedEit
dvb_eit_of s service_id x = Dict.get_or service_id (Dict.get_or x s.eit []) no_eit

-- the body of the loop of `get_epg_event_dvb` over the tables
unfoldable pub showing_dvb :
    Texts → Decode → NetworkService → SdtService → ℕ → ℕ → Option GuideEvent
unfolding first_showing dvb_eit_of dvb_event
showing_dvb o d s service showtime x =
    Option.map (λ e. dvb_event o d x service e e.length_sec)
      (first_showing (dvb_span o) showtime (dvb_eit_of s service.service_id x).events)

-- `get_epg_event_dvb`: `none` where it returns false
unfoldable pub get_epg_event_dvb : Texts → ℕ → ℕ → Decode → Option GuideEvent
unfolding search_eits showing_dvb stream_service
get_epg_event_dvb o service_id showtime d =
    if service_id == 0 then none else elim (stream_service d) [
      | none ↦ none
      | some s ↦ elim (Dict.find service_id s.sdt.services) [
        | none ↦ none
        | some service ↦
            if service.f_eit_present
            then search_eits (λ x. Dict.has service_id (Dict.get_or x s.eit []))
                (showing_dvb o d s service showtime) 0 17
            else none
      ]
    ]

-- `get_epg_event`: what it returns, and what it writes
unfoldable pub get_epg_event : Texts → ℕ → ℕ → Decode → Bool × Option GuideEvent
unfolding get_epg_event_atsc get_epg_event_dvb stream_service
get_epg_event o service_id showtime d = elim (Dict.find service_id d.vct.channels) [
  | some channel ↦ (true, get_epg_event_atsc o channel.source_id showtime d)
  | none ↦ elim (stream_service d) [
    | none ↦ (false, none)
    | some s ↦ elim (Dict.find service_id s.sdt.services) [
      | none ↦ (false, none)
      | some service ↦
          if service.f_eit_present
          then (true, get_epg_event_dvb o service.service_id showtime d)
          else (false, none)
    ]
  ]
]
