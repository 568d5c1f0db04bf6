-- ===== src/Parse/GuideTests.antt =====
-- What a concrete parser tells of its channels.
use libdvbtee.Base.{◌≡◌, refl, [], ◌∷◌, map}
use libdvbtee.Base.Dict
use libdvbtee.Decode.Stream.{new_decode}
use libdvbtee.Decode.Epg.{Texts}
use libdvbtee.Parse.State.{Parser, ChannelInfo, get_decoder}
use libdvbtee.Parse.Psi.{is_video, is_audio}
use libdvbtee.Parse.Guide.{xine_dump_stream}
use libdvbtee.Parse.Told.{told, mapped, first_pid, xine_dump_stream_lem}
use libdvbtee.Parse.Tests.{start}

abbrev texts : Texts
texts = record {
  times = record {
    gmtime =
        λ n. record { tm_year = 70; tm_mon = 0; tm_mday = 1; tm_hour = 0; tm_min = 0; tm_sec = n };
    timegm = λ tm. tm.tm_sec;
  };
  multiple_string = λ bytes count room. bytes;
  lcn = λ s. s;
  service_name = λ s. [];
  event_name = λ x s e. [];
  event_text = λ x s e. [];
}

abbrev info : ChannelInfo
info = record { channel = 21; frequency = 474000000 }

-- A stream with two programs, of which one has its map table.
abbrev met : Parser
met = record start {
  decoders =
      (
        7,
        record (new_decode []) {
          pat = record { ts_id = 7; version = 1; programs = (2, 0x20) ∷ (3, 0x30) ∷ [] };
          pmt =
              (
                3,
                record {
                  program = 3;
                  version = 1;
                  pcr_pid = 0x31;
                  es_streams =
                      (0x31, record { type = 2; pid = 0x31 })
                      ∷ (0x34, record { type = 0x81; pid = 0x34 })
                      ∷ [];
                },
              )
              ∷ [];
        },
      )
      ∷ [];
}

told_of_met :
    mapped info (get_decoder 7 met) (get_decoder 7 met).pat.programs
    ≡ (3, 21, 474000000, 0x31, 0x34) ∷ []
unfolding mapped first_pid is_video is_audio get_decoder Dict.get_or Dict.find
told_of_met = refl

xine_dump_stream_lem_example :
    map told (xine_dump_stream texts 7 info met).1
    ≡ mapped info (get_decoder 7 met) (get_decoder 7 met).pat.programs
xine_dump_stream_lem_example = xine_dump_stream_lem texts 7 info met
