-- ===== src/Serve/Tests.antt =====
-- The answers of the server at concrete channels, events and commands.
use libdvbtee.Base.{
  ℕ, ◌≡◌, refl, true, false, none, some, List, [], ◌∷◌, ◌++◌, ◌||◌, not, ltb, ◌==◌, arith,
}
use libdvbtee.Time.{Tm}
use libdvbtee.Output.Setup.{contains, starts_with}
use libdvbtee.Text.Decimal.{digits, decimal}
use libdvbtee.Decode.Epg.{GuideEvent}
use libdvbtee.Decode.Dump.{epg_event, epg_header_footer}
use libdvbtee.Parse.Guide.{ParsedChannel}
use libdvbtee.Serve.Pages.{
  lit, sprintf, dotted, channelno, chan_major, chan_minor, channel_id, json_channel, json_event,
  json_header_footer,
}
use libdvbtee.Serve.Fits.{is_some, json_channel_fits}
use libdvbtee.Serve.Chunks.{send_all, read_chunks, http_chunk, hex_digits}
use libdvbtee.Serve.Answer.{join, send_all-read_chunks}
use libdvbtee.Serve.Client.{
  Client, of_tuner, tell_reports, tell_header_footer, tell_event, tell_new_channel, stream_text,
  streamback,
}
use libdvbtee.Serve.Words.{words, split, first_word, second_word, cut, cut_word}
use libdvbtee.Serve.Command.{
  World, set_service_ids, add_output, choose_device, with_tuners_feeder, with_first_tuner,
  with_first_feeder, select_services, cmd_tune, tuned_services,
}
use libdvbtee.Serve.Dispatch.{
  command, run_items, run_item, run_verb, on_feeder, perform, verb_of, verbs,
}
use libdvbtee.Serve.Services.{stream_first_service}

-- A channel of a network without channel numbers, with a service id of four digits.
abbrev numberless : ParsedChannel
numberless = record {
  lcn = 0;
  major = 0;
  minor = 0;
  vpid = 0x31;
  apid = 0x34;
  program_number = 4167;
  physical_channel = 21;
  freq = 474000000;
  service_name = lit "ONE";
}

four_digits : chan_minor numberless ≡ none
unfolding chan_minor sprintf decimal digits
four_digits = refl

numbered :
    json_channel (record numberless { major = 4; minor = 1 })
    ≡ some (
        lit
          "{\"Id\":\"21~4167\",\"DisplayName\":\"ONE\",\"MajorChannelNo\":\"4\",\"MinorChannelNo\":\"1\"},")
unfolding json_channel channelno chan_major chan_minor channel_id sprintf dotted decimal digits
numbered = refl

json_channel_fits_example :
    is_some (json_channel numberless) ≡ (ltb 1 0 || not (0 == 0) || ltb 4167 1000)
json_channel_fits_example =
    json_channel_fits numberless
      (ground arith, ground arith, ground arith, ground arith, ground arith)

two_chunks :
    send_all (lit "hello, " ∷ [] ∷ lit "world" ∷ [])
    ≡ some (lit "7\r\nhello, \r\n5\r\nworld\r\n0\r\n")
unfolding send_all http_chunk sprintf hex_digits
two_chunks = refl

send_all-read_chunks_example :
    (sent : List ℕ) × (send_all (lit "hello, " ∷ [] ∷ lit "world" ∷ []) ≡ some sent)
    × (read_chunks 4 (sent ++ lit "\r\n")
        ≡ some (join (lit "hello, " ∷ [] ∷ lit "world" ∷ []), lit "\r\n"))
send_all-read_chunks_example =
    send_all-read_chunks (lit "hello, " ∷ [] ∷ lit "world" ∷ []) (lit "\r\n")
      (omega arith, (omega arith, (omega arith, tt)))

abbrev client : Client
client = record {
  tuner = some 0;
  feeder = some (of_tuner 0);
  data_fmt = 2;
  services = [];
  streamback_started = false;
  streamback_newchannel = false;
  sent = [];
}

abbrev news : GuideEvent
news = record {
  channel_name = lit "ONE";
  chan_major = 4;
  chan_minor = 1;
  chan_physical = 21;
  chan_svc_id = 3;
  event_id = 9;
  start_time = 1000;
  length_sec = 60;
  name = lit "News";
  text = [];
}

abbrev noon : ℕ → Tm
noon n = record { tm_year = 70; tm_mon = 0; tm_mday = 1; tm_hour = 12; tm_min = 0; tm_sec = 0 }

guide_in_json :
    join
      (tell_reports noon
        (epg_header_footer true false
          ∷ epg_header_footer true true
          ∷ epg_event news
          ∷ epg_header_footer false true
          ∷ epg_header_footer false false
          ∷ [])
        client).sent
    ≡ lit
        "[{\"Entries\":\n[{\"StartTime\":1000,\"EndTime\":1060,\"Title\":\"News\",\"ShortDescription\":\"\"},{}]},{}]"
unfolding tell_reports tell_header_footer tell_event tell_new_channel stream_text streamback
    json_header_footer json_event decimal digits
guide_in_json = refl

-- A world with one tuner, which is tuned to channel 21.
abbrev world : World
world = record {
  has_tuner = λ id. id == 0;
  has_feeder = λ id. false;
  any_tuner = true;
  any_feeder = false;
  channel = 21;
  tunes = λ n. true;
  opens = λ name. false;
  starts = false;
  number = λ t. 21;
}

tune_and_stream :
    (command world (lit "/tune=21~3/stream") client).1
    ≡ set_service_ids (some (lit "3")) ∷ add_output none (lit "3") ∷ []
unfolding command words split run_items run_item run_verb on_feeder perform verb_of verbs contains
    starts_with first_word second_word choose_device with_tuners_feeder with_first_tuner
    with_first_feeder cmd_tune tuned_services select_services cut cut_word
tune_and_stream = refl

stream_first_service_example : run_items world (lit "service=3,4" ∷ lit "stream" ∷ []) client ≡ (
  record client { services = lit "3" },
  set_service_ids (some (lit "3,4")) ∷ add_output none (lit "3") ∷ [],
  true,
)
stream_first_service_example =
    stream_first_service world client (of_tuner 0) b'3' [] (b'4' ∷ []) refl (refl, tt)
      (refl, (refl, (refl, tt)))
