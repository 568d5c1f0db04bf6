-- ===== src/Decode/Dump.antt =====
-- The listing of the programme guide in libdvbtee/decode.cpp (`dump_epg`, `dump_eit_x`). The functions are `const`,
-- but they cast that away and read the tables by `operator[]`, which makes an empty table where there is
-- none: they take and give back the decoder. A call without a reporter is one whose reports are not used.
use libdvbtee.Base.{
  ℕ, zero, suc, ◌+◌, Bool, true, false, none, some, List, [], ◌∷◌, ◌++◌, ◌&&◌, ◌||◌, not, ◌==◌,
  if◌then◌else◌, length,
}
use libdvbtee.Base.Dict
use libdvbtee.Base.Dict.{Dict}
use libdvbtee.Decode.Records.{VctChannel, AtscEvent, SdtService, EitEvent}
use libdvbtee.Decode.Service.{NetworkService}
use libdvbtee.Decode.Stream.{Decode}
use libdvbtee.Decode.Epg.{
  Texts, GuideEvent, atsc_event, dvb_event, atsc_span, dvb_span, span_sec, atsc_eit_of, dvb_eit_of,
  has_atsc_eit, stream_service,
}

-- The calls of a `decode_report`.
pub data Report : Type 0 where
  epg_header_footer : Bool → Bool → Report
  epg_event : GuideEvent → Report

-- `dump_epg_event` for the events of an ATSC table, and for those of a DVB table
unfoldable pub dump_atsc_events : Texts → Decode → ℕ → VctChannel → Dict AtscEvent → List Report
unfolding atsc_event span_sec atsc_span
dump_atsc_events o d x channel [] = []
dump_atsc_events o d x channel ((_, e) ∷ m) =
    epg_event (atsc_event o d x channel e (span_sec (atsc_span o e)))
    ∷ dump_atsc_events o d x channel m

unfoldable pub dump_dvb_events : Texts → Decode → ℕ → SdtService → Dict EitEvent → List Report
unfolding dvb_event span_sec dvb_span
dump_dvb_events o d x service [] = []
dump_dvb_events o d x service ((_, e) ∷ m) =
    epg_event (dvb_event o d x service e (span_sec (dvb_span o e)))
    ∷ dump_dvb_events o d x service m

-- `decoded_atsc_eit[x][source_id]`, which is there from then on
unfoldable pub touch_atsc_eit : ℕ → ℕ → Decode → Decode
unfolding atsc_eit_of
touch_atsc_eit x source_id d = record d {
  atsc_eit =
      Dict.insert x
        (Dict.insert source_id (atsc_eit_of d source_id x) (Dict.get_or x d.atsc_eit []))
        d.atsc_eit;
}

-- the loop of `dump_eit_x_atsc` over the channels
unfoldable pub dump_channels : Texts → ℕ → ℕ → Dict VctChannel → Decode → Decode × List Report
unfolding dump_atsc_events touch_atsc_eit
dump_channels o x source_id [] d = (d, [])
dump_channels o x source_id ((_, channel) ∷ m) d =
    let touched = touch_atsc_eit x channel.source_id d in
    let (last, later) = dump_channels o x source_id m touched in
    let skipped = dump_channels o x source_id m d in
    if not (source_id == 0) && not (source_id == channel.source_id) then skipped else (
      last,
      dump_atsc_events o touched x channel (atsc_eit_of touched channel.source_id x).events
          ++ later,
    )

-- `dump_eit_x_atsc`
unfoldable pub dump_eit_x_atsc : Texts → ℕ → ℕ → Decode → Decode × List Report
unfolding dump_channels
dump_eit_x_atsc o x source_id d = dump_channels o x source_id d.vct.channels d

-- `decoded_eit[x][service_id]`, which is there from then on
unfoldable pub touch_eit : ℕ → ℕ → NetworkService → NetworkService
unfolding dvb_eit_of
touch_eit x service_id s = record s {
  eit =
      Dict.insert x (Dict.insert service_id (dvb_eit_of s service_id x) (Dict.get_or x s.eit []))
        s.eit;
}

-- the loop of `dump_eit_x_dvb` over the services
unfoldable pub dump_services :
    Texts → Decode → ℕ → ℕ → Dict SdtService → NetworkService → NetworkService × List Report
unfolding dump_dvb_events touch_eit
dump_services o d x service_id [] s = (s, [])
dump_services o d x service_id ((_, service) ∷ m) s =
    let touched = touch_eit x service.service_id s in
    let (last, later) = dump_services o d x service_id m touched in
    let skipped = dump_services o d x service_id m s in
    if not service.f_eit_present || not (service_id == 0) && not (service_id == service.service_id)
    then skipped
    else (
      last,
      dump_dvb_events o d x service (dvb_eit_of touched service.service_id x).events ++ later,
    )

-- the service of the stream, written back
unfoldable pub write_service : NetworkService → Decode → Decode
write_service s d = elim (Dict.find d.orig_network_id d.networks) [
  | none ↦ d
  | some nw ↦ record d {
    networks =
        Dict.insert d.orig_network_id
          (record nw { services = Dict.insert d.pat.ts_id s nw.services }) d.networks;
  }
]

-- `dump_eit_x_dvb`
unfoldable pub dump_eit_x_dvb : Texts → ℕ → ℕ → Decode → Decode × List Report
unfolding dump_services write_service stream_service
dump_eit_x_dvb o x service_id d = elim (stream_service d) [
  | none ↦ (d, [])
  | some s ↦ (
    write_service (dump_services o d x service_id s.sdt.services s).0 d,
    (dump_services o d x service_id s.sdt.services s).1,
  )
]

-- `dump_eit_x`
unfoldable pub dump_eit_x : Texts → ℕ → ℕ → Decode → Decode × List Report
unfolding dump_eit_x_atsc dump_eit_x_dvb
dump_eit_x o x id d =
    if length d.vct.channels == 0 then dump_eit_x_dvb o x id d else dump_eit_x_atsc o x id d

-- the loops of `dump_epg_atsc` and `dump_epg_dvb` over the tables, of which `left` are left in the array
unfoldable pub dump_tables :
    (Decode → ℕ → Bool)
    → (ℕ → Decode → Decode × List Report)
    → ℕ
    → ℕ
    → Decode
    → Decode × List Report
dump_tables there dump eit_num zero d = (d, [])
dump_tables there dump eit_num (suc left) d =
    let (next, now) = dump eit_num d in
    let (last, later) = dump_tables there dump (eit_num + 1) left next in
    if there d eit_num then (last, now ++ later) else (d, [])

-- `decoded_eit[eit_num].count(service_id)`
unfoldable pub has_dvb_eit : ℕ → Decode → ℕ → Bool
unfolding stream_service
has_dvb_eit service_id d x = elim (stream_service d) [
  | none ↦ false
  | some s ↦ Dict.has service_id (Dict.get_or x s.eit [])
]

unfoldable pub dump_epg_atsc : Texts → ℕ → Decode → Decode × List Report
unfolding dump_tables dump_eit_x_atsc has_atsc_eit
dump_epg_atsc o source_id d =
    dump_tables (λ t. has_atsc_eit t source_id) (λ x. dump_eit_x_atsc o x source_id) 0 128 d

unfoldable pub dump_epg_dvb : Texts → ℕ → Decode → Decode × List Report
unfolding dump_tables dump_eit_x_dvb has_dvb_eit
dump_epg_dvb o service_id d =
    dump_tables (has_dvb_eit service_id) (λ x. dump_eit_x_dvb o x service_id) 0 17 d

-- a header, what a part reports, and a footer
unfoldable pub framed : Bool → Decode × List Report → Decode × List Report
framed channel (d, reports) =
    (d, epg_header_footer true channel ∷ (reports ++ (epg_header_footer false channel ∷ [])))

-- one part after another
unfoldable pub in_turn {ℓ} :
    {A : Type ℓ} → (A → Decode → Decode × List Report) → List A → Decode → Decode × List Report
in_turn part [] d = (d, [])
in_turn part (a ∷ others) d =
    let (next, now) = part a d in
    let (last, later) = in_turn part others next in (last, now ++ later)

-- the parts of `dump_epg` for one channel, and for one service
unfoldable pub dump_channel : Texts → ℕ × VctChannel → Decode → Decode × List Report
unfolding framed dump_epg_atsc
dump_channel o (_, channel) d = framed true (dump_epg_atsc o channel.source_id d)

unfoldable pub dump_service : Texts → ℕ × SdtService → Decode → Decode × List Report
unfolding framed dump_epg_dvb
dump_service o (_, service) d =
    if service.f_eit_present then framed true (dump_epg_dvb o service.service_id d) else (d, [])

-- `dump_epg`
unfoldable pub dump_epg : Texts → Decode → Decode × List Report
unfolding framed in_turn dump_channel dump_service stream_service
dump_epg o d =
    let dvb : Decode × List Report = elim (stream_service d) [
      | none ↦ (d, [])
      | some s ↦ in_turn (dump_service o) s.sdt.services d
    ] in
    if length d.vct.channels == 0
    then framed false dvb
    else framed false (in_turn (dump_channel o) d.vct.channels d)
