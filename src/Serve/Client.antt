-- ===== src/Serve/Client.antt =====
-- `class serve_client` of libdvbtee_server/serve.cpp: what a client is sent of the programme guide and of
-- the channels. What a command line is printed is left out.
use libdvbtee.Base.{
  ℕ, Bool, false, Option, some, List, [], ◌∷◌, ◌++◌, ◌&&◌, ◌||◌, not, ◌==◌, if◌then◌else◌,
}
use libdvbtee.Rbuf.{◌>>=◌}
use libdvbtee.Time.{Tm}
use libdvbtee.Decode.Epg.{GuideEvent}
use libdvbtee.Decode.Dump.{Report, epg_header_footer, epg_event}
use libdvbtee.Parse.Guide.{ParsedChannel}
use libdvbtee.Serve.Pages.{
  html_header_footer, json_header_footer, html_event, json_event, xml_event, html_channel,
  json_channel, xml_channel,
}

-- Where a client's data come from: a tuner's feeder, or one of the server's own.
pub data Feeder : Type 0 where
  of_tuner feeder_id : ℕ → Feeder

-- The fields of the class; `sent` are the texts given to `streamback`, in their order.
pub record Client : Type 0 where
  pub tuner : Option ℕ
  pub feeder : Option Feeder
  pub data_fmt : ℕ
  pub services : List ℕ
  pub streamback_started : Bool
  pub streamback_newchannel : Bool
  pub sent : List (List ℕ)

-- the values of `data_fmt`
abbrev pub fmt_none : ℕ
fmt_none = 0

abbrev pub fmt_html : ℕ
fmt_html = 1

abbrev pub fmt_json : ℕ
fmt_json = 2

abbrev pub fmt_xml : ℕ
fmt_xml = 4

abbrev pub fmt_cli : ℕ
fmt_cli = 16

-- `data_fmt & SERVE_DATA_FMT_TEXT`, for the values above
unfoldable pub is_text : ℕ → Bool
is_text fmt = fmt == fmt_html || fmt == fmt_json || fmt == fmt_xml

unfoldable pub streamback : List ℕ → Client → Client
streamback text c = record c { sent = c.sent ++ (text ∷ []) }

unfoldable pub stream_text : List ℕ → Client → Client
unfolding is_text streamback
stream_text text c = if is_text c.data_fmt then streamback text c else c

-- the text that each format has
abbrev pub by_format {ℓ} : {A : Type ℓ} → ℕ → A → A → A → A
by_format fmt html json xml = if fmt == fmt_json then json else if fmt == fmt_xml then xml else html

-- `epg_header_footer`
unfoldable pub tell_header_footer : Bool → Bool → Client → Client
unfolding stream_text
tell_header_footer header channel c =
    let started = c.streamback_started || header && not channel in
    let next = record c {
      streamback_started = started;
      streamback_newchannel = c.streamback_newchannel || header && channel;
    } in
    if started
    then stream_text
        (by_format c.data_fmt (html_header_footer header channel)
          (json_header_footer header channel) [])
        next
    else c

-- the first part of `epg_event`: a new channel has a cell of its own in HTML
unfoldable pub tell_new_channel : (ℕ → Tm) → GuideEvent → Client → Client
unfolding streamback
tell_new_channel localtime e c =
    let told = record c { streamback_newchannel = false } in
    if c.streamback_newchannel
    then (if c.data_fmt == fmt_html
        then streamback (html_event localtime (record e { name = []; text = [] })) told
        else told)
    else c

-- `epg_event`
unfoldable pub tell_event : (ℕ → Tm) → GuideEvent → Client → Client
unfolding tell_new_channel stream_text
tell_event localtime e c =
    let next = tell_new_channel localtime e c in
    let text =
      by_format c.data_fmt (html_event localtime (record e { channel_name = [] })) (json_event e)
        (xml_event localtime e) in
    if c.streamback_started then stream_text text next else c

-- the reports of `dump_epg`, one after the other
unfoldable pub tell_reports : (ℕ → Tm) → List Report → Client → Client
unfolding tell_header_footer tell_event
tell_reports localtime [] c = c
tell_reports localtime (epg_header_footer header channel ∷ reports) c =
    tell_reports localtime reports (tell_header_footer header channel c)
tell_reports localtime (epg_event e ∷ reports) c =
    tell_reports localtime reports (tell_event localtime e c)

-- `chandump`, where the channels are not written to disk; `none` is a text that does not fit its buffer
unfoldable pub chandump : ParsedChannel → Client → Option Client
unfolding is_text streamback
chandump channel c =
    if is_text c.data_fmt
    then (do
      text ←
          by_format c.data_fmt (html_channel channel) (json_channel channel) (xml_channel channel)
      some (streamback text c))
    else some c
