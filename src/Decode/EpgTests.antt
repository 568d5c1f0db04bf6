-- ===== src/Decode/EpgTests.antt =====
-- The programme guide of a concrete stream.
use libdvbtee.Base.{
  ℕ, ◌⊎◌, ◌||◌, ◌==◌, if◌then◌else◌, ◌≡◌, refl, subst, true, false, none, some, [], ◌∷◌, ◌++◌,
  arith,
}
use libdvbtee.Base.Dict
use libdvbtee.Time.Clock.{coded, digit_sum}
use libdvbtee.Time.{CTime, secs_to_tm, atsc_datetime_utc}
use libdvbtee.Decode.Records.{VctChannel, AtscEvent, EitEvent}
use libdvbtee.Decode.Tables.{PsiAtscEit, collect, store_atsc_eit}
use libdvbtee.Decode.Stream.{Decode, new_decode, take_atsc_eit}
use libdvbtee.Decode.Epg.{
  Texts, GuideEvent, c_string, short_text, get_decoded_ett, atsc_span, atsc_event, is_showing,
  first_showing, search_eits, has_atsc_eit, atsc_eit_of, showing_atsc, search_channels,
  get_epg_event_atsc, get_epg_event, dvb_span,
}
use libdvbtee.Decode.Dump.{epg_header_footer, touch_atsc_eit, dump_epg}
use libdvbtee.Decode.Listing.{
  flat_map, first, source_events, get_epg_event_atsc_lem, is_announced, get_epg_event_lem,
}
use libdvbtee.Decode.Span.{clock_at, dvb_span_lem}
use libdvbtee.Decode.Quiet.{IsOrdered, channel_reports, dump_epg_lem, take_atsc_eit-IsOrdered}

-- A clock that keeps the seconds in one field, and texts that are their bytes.
abbrev seconds : CTime
seconds = record {
  gmtime =
      λ n. record { tm_year = 70; tm_mon = 0; tm_mday = 1; tm_hour = 0; tm_min = 0; tm_sec = n };
  timegm = λ tm. tm.tm_sec;
}

abbrev plain : Texts
plain = record {
  times = seconds;
  multiple_string = λ bytes count room. bytes;
  lcn = λ s. s;
  service_name = λ s. [];
  event_name = λ x s e. [];
  event_text = λ x s e. [];
}

abbrev channel : VctChannel
channel = record {
  short_name = 0 ∷ 65 ∷ 0 ∷ 66 ∷ [];
  chan_major = 4;
  chan_minor = 1;
  modulation = 4;
  carrier_freq = 0;
  chan_ts_id = 7;
  program = 3;
  etm_location = 0;
  access_controlled = false;
  path_select = false;
  out_of_band = false;
  hidden = false;
  hide_guide = false;
  service_type = 2;
  source_id = 11;
}

abbrev event : ℕ → ℕ → AtscEvent
event id start = record {
  event_id = id;
  start_time = start;
  etm_location = 0;
  length_sec = 100;
  title_bytes = 1;
  title = id ∷ [];
}

abbrev eit : PsiAtscEit
eit = record { version = 1; source_id = 11; events = event 8 1000 ∷ event 9 1100 ∷ [] }

-- A decoder with a channel that has taken EIT-0.
abbrev with_channel : Decode
with_channel = record (new_decode []) {
  vct = record { version = 1; ts_id = 7; cable_vct = false; channels = (3, channel) ∷ [] };
}

abbrev guide : Decode
guide = record with_channel {
  atsc_eit =
      (
        0,
        (
          11,
          record {
            version = 1;
            source_id = 11;
            events = (8, event 8 1000) ∷ (9, event 9 1100) ∷ [];
          },
        )
            ∷ [],
      )
      ∷ [];
}

taken : (take_atsc_eit eit with_channel).0 ≡ guide
unfolding take_atsc_eit store_atsc_eit collect Dict.get_or Dict.insert
taken = refl

-- What is on at the start of the second event.
abbrev second : GuideEvent
second = record {
  channel_name = 65 ∷ 66 ∷ [];
  chan_major = 4;
  chan_minor = 1;
  chan_physical = 0;
  chan_svc_id = 3;
  event_id = 9;
  start_time = 315965886;
  length_sec = 100;
  name = 9 ∷ [];
  text = [];
}

second_is_on : get_epg_event plain 3 315965886 guide ≡ (true, some second)
unfolding get_epg_event get_epg_event_atsc search_channels search_eits showing_atsc first_showing
    is_showing atsc_event atsc_span has_atsc_eit atsc_eit_of short_text c_string get_decoded_ett
    atsc_datetime_utc secs_to_tm Dict.find Dict.get_or Dict.has
second_is_on = refl

-- After the last event nothing is on, and `get_epg_event` returns true all the same.
nothing_is_on : get_epg_event plain 3 315965986 guide ≡ (true, none)
unfolding get_epg_event get_epg_event_atsc search_channels search_eits showing_atsc first_showing
    is_showing atsc_event atsc_span has_atsc_eit atsc_eit_of atsc_datetime_utc secs_to_tm Dict.find
    Dict.get_or Dict.has
nothing_is_on = refl

-- The dump of a stream with a channel of the source 0 makes an empty table for it.
dump_makes_table : Dict.has 0 (Dict.get_or 0 (touch_atsc_eit 0 0 guide).atsc_eit []) ≡ true
unfolding touch_atsc_eit atsc_eit_of Dict.has Dict.get_or Dict.insert
dump_makes_table = refl

guide-IsOrdered : IsOrdered guide
unfolding Dict.get_or
guide-IsOrdered = subst IsOrdered taken (take_atsc_eit-IsOrdered eit with_channel (tt, λ x. tt))

get_epg_event_atsc_lem_example :
    get_epg_event_atsc plain 11 315965886 guide
    ≡ first (source_events plain guide 11 315965886 ((3, channel) ∷ []))
get_epg_event_atsc_lem_example = get_epg_event_atsc_lem plain guide 11 315965886 (ground arith)

get_epg_event_lem_example :
    let found = get_epg_event plain 3 315965986 guide in
    (found.0 ≡ (Dict.has 3 guide.vct.channels || is_announced 3 guide))
    × ((Dict.find 3 guide.vct.channels ≡ none)
        ⊎ ((here : VctChannel) × (Dict.find 3 guide.vct.channels ≡ some here)
            × (found ≡ (
              true,
              if here.source_id == 0
                  then none
                  else first
                      (source_events plain guide here.source_id 315965986 guide.vct.channels),
            ))))
get_epg_event_lem_example = get_epg_event_lem plain guide 3 315965986

-- a start on the 6th of September 1982 at 12:19, and an hour and 19 minutes
abbrev dvb_show : EitEvent
dvb_show = record {
  event_id = 1;
  start_time = coded 45218 12 19 0;
  length_sec = coded 0 1 19 30;
  running_status = 0;
  f_free_ca = false;
}

dvb_span_lem_example : dvb_span plain dvb_show ≡ (
  seconds.timegm (clock_at 45218 12 19 0),
  seconds.timegm (clock_at 45218 (digit_sum 12 1) (digit_sum 19 19) (digit_sum 0 30)),
)
dvb_span_lem_example =
    dvb_span_lem plain dvb_show 45218 12 19 0 1 19 30 refl refl (omega arith) (omega arith)
      (omega arith) (omega arith) (omega arith) (omega arith) (omega arith)

-- 19 and 19 minutes are 32
minutes_lost : digit_sum 19 19 ≡ 32
unfolding digit_sum
minutes_lost = refl

dump_epg_lem_example : dump_epg plain guide ≡ (
  guide,
  epg_header_footer true false
      ∷ (flat_map (channel_reports plain guide) ((3, channel) ∷ [])
          ++ (epg_header_footer false false ∷ [])),
)
dump_epg_lem_example = dump_epg_lem plain guide guide-IsOrdered (ground arith, tt) (ground arith)
