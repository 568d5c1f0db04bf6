-- ===== src/Serve/Pages.antt =====
-- libdvbtee_server/text.cpp: the guide and the channels as HTML, JSON and XML. What goes to the standard
-- output is left out. `localtime` belongs to the C library and is a parameter.
use libdvbtee.Base.{
  ℕ, ◌+◌, ◌-◌, Bool, Option, none, some, List, [], ◌∷◌, ◌++◌, ltb, ◌==◌, if◌then◌else◌, length,
  take,
}
use Prim.Native.Char.{code}
use Prim.Native.String.{String}
use libdvbtee.Time.{Tm}
use libdvbtee.Text.{url_encode}
use libdvbtee.Text.Decimal.{decimal, padded}
use libdvbtee.Rbuf.{◌>>=◌}
use libdvbtee.Decode.Epg.{GuideEvent}
use libdvbtee.Parse.Guide.{ParsedChannel}

-- a literal of the source
abbrev pub lit : String → List ℕ
lit String.[] = []
lit (String.◌∷◌ c s) = code c ∷ lit s

-- `LIBDVBTEE_VERSION`, which the build defines, is the argument of `xml_header_footer`.
unfoldable pub html_header_footer : Bool → Bool → List ℕ
html_header_footer header channel =
    if header
    then (if channel then lit "<tr>" else lit "<html><body><table border=1>")
    else if channel
    then lit "</tr>"
    else lit "</table></body></html>"

-- `json_dump_channels_header_footer_callback` and `json_dump_epg_header_footer_callback`
unfoldable pub json_channels_header_footer : Bool → Bool → List ℕ
json_channels_header_footer header channel =
    if header
    then (if channel then lit "{\"Entries\":\n[" else lit "[")
    else if channel
    then lit "]}"
    else lit "]"

unfoldable pub json_header_footer : Bool → Bool → List ℕ
json_header_footer header channel =
    if header
    then (if channel then lit "{\"Entries\":\n[" else lit "[")
    else if channel
    then lit "{}]},"
    else lit "{}]"

unfoldable pub xml_header_footer : List ℕ → Bool → Bool → List ℕ
xml_header_footer version header channel =
    if channel
    then []
    else if header
    then lit "<tv generator-info-name='dvbtee v" ++ version ++ lit "'>\n"
    else lit "</tv>\n"

-- `snprintf` cuts a text to its buffer; `sprintf` must not be called with a text that does not fit, which is
-- `none` here.
abbrev pub snprintf : ℕ → List ℕ → List ℕ
snprintf size text = take (size - 1) text

unfoldable pub sprintf : ℕ → List ℕ → Option (List ℕ)
sprintf size text = if ltb (length text) size then some text else none

-- `"%02d:%02d - %02d:%02d"`
unfoldable pub hours : Tm → Tm → List ℕ
unfolding padded
hours start end =
    padded 2 start.tm_hour
    ++ lit ":"
    ++ padded 2 start.tm_min
    ++ lit " - "
    ++ padded 2 end.tm_hour
    ++ lit ":"
    ++ padded 2 end.tm_min

-- the two parts of `html_dump_epg_event_callback`
unfoldable pub html_channel_name : GuideEvent → List ℕ
unfolding decimal
html_channel_name e =
    if length e.channel_name == 0
    then []
    else lit "<nobr>"
      ++ snprintf 12 (decimal e.chan_major ++ lit "." ++ decimal e.chan_minor ++ lit ": ")
      ++ e.channel_name
      ++ lit "</nobr>"

unfoldable pub html_show : (ℕ → Tm) → GuideEvent → List ℕ
unfolding hours
html_show localtime e =
    let text =
      if length e.text == 0 then [] else lit ": <br><font size=-3>" ++ e.text ++ lit "</font>" in
    if length e.name == 0
    then []
    else e.name
      ++ text
      ++ lit "<hr><nobr>"
      ++ snprintf 14 (hours (localtime e.start_time) (localtime (e.start_time + e.length_sec)))
      ++ lit "</nobr>"

unfoldable pub html_event : (ℕ → Tm) → GuideEvent → List ℕ
unfolding html_channel_name html_show
html_event localtime e = lit "<td>" ++ html_channel_name e ++ html_show localtime e ++ lit "</td>"

-- `json_dump_epg_event_callback`
unfoldable pub json_event : GuideEvent → List ℕ
unfolding decimal
json_event e =
    lit "{\"StartTime\":"
    ++ snprintf 15 (decimal e.start_time)
    ++ lit ",\"EndTime\":"
    ++ snprintf 15 (decimal (e.start_time + e.length_sec))
    ++ lit ",\"Title\":\""
    ++ e.name
    ++ lit "\",\"ShortDescription\":\""
    ++ e.text
    ++ lit "\"},"

-- `bcd_time_str`, for a buffer of 15 bytes
unfoldable pub bcd_time_str : Tm → List ℕ
unfolding padded
bcd_time_str tm = snprintf 15 (
    padded 4 (1900 + tm.tm_year)
    ++ padded 2 (1 + tm.tm_mon)
    ++ padded 2 tm.tm_mday
    ++ padded 2 tm.tm_hour
    ++ padded 2 tm.tm_min)

-- `xml_dump_epg_event_callback`
unfoldable pub xml_event : (ℕ → Tm) → GuideEvent → List ℕ
unfolding bcd_time_str decimal url_encode
xml_event localtime e =
    lit "<programme start='"
    ++ bcd_time_str (localtime e.start_time)
    ++ lit "' stop='"
    ++ bcd_time_str (localtime (e.start_time + e.length_sec))
    ++ lit "' channel='"
    ++ snprintf 12 (decimal e.chan_physical ++ lit "+" ++ decimal e.chan_svc_id)
    ++ lit "'>\n<title lang='en'>"
    ++ url_encode e.name
    ++ lit "</title>\n<desc lang='en'>"
    ++ url_encode e.text
    ++ lit "</desc>\n</programme>\n"

-- `"%d.%d"`
unfoldable pub dotted : ℕ → ℕ → List ℕ
dotted major minor = decimal major ++ lit "." ++ decimal minor

-- the text of `channelno`, in a buffer of so many bytes
unfoldable pub channelno : ℕ → ParsedChannel → Option (List ℕ)
unfolding sprintf dotted
channelno size c =
    if ltb 1 (c.major + c.minor)
    then sprintf size (dotted c.major c.minor)
    else if c.lcn == 0
    then sprintf size (decimal c.physical_channel)
    else sprintf size (decimal c.lcn)

-- `chan_major` and `chan_minor`, in 4 bytes each
unfoldable pub chan_major : ParsedChannel → Option (List ℕ)
unfolding sprintf
chan_major c =
    if ltb 1 (c.major + c.minor)
    then sprintf 4 (decimal c.major)
    else if c.lcn == 0
    then sprintf 4 (decimal c.physical_channel)
    else sprintf 4 (decimal c.lcn)

unfoldable pub chan_minor : ParsedChannel → Option (List ℕ)
unfolding sprintf
chan_minor c =
    if ltb 1 (c.major + c.minor)
    then sprintf 4 (decimal c.minor)
    else if c.lcn == 0
    then sprintf 4 (decimal c.program_number)
    else sprintf 4 (decimal 0)

-- `phy_chan` and `svc_id`, with what stands between them
unfoldable pub channel_id : ParsedChannel → Option (List ℕ)
unfolding sprintf
channel_id c = do
  phy_chan ← sprintf 4 (decimal c.physical_channel)
  svc_id ← sprintf 6 (decimal c.program_number)
  some (phy_chan ++ lit "~" ++ svc_id)

unfoldable pub html_channel : ParsedChannel → Option (List ℕ)
unfolding channelno channel_id
html_channel c = do
  number ← channelno 8 c
  id ← channel_id c
  some (
      lit "<table><tr><td><a href='/tune="
      ++ id
      ++ lit "&channels'>"
      ++ number
      ++ lit ": "
      ++ c.service_name
      ++ lit "</a></td></tr></table>")

unfoldable pub json_channel : ParsedChannel → Option (List ℕ)
unfolding channelno chan_major chan_minor channel_id
json_channel c = do
  number ← channelno 8 c
  major ← chan_major c
  minor ← chan_minor c
  id ← channel_id c
  some (
      lit "{\"Id\":\""
      ++ id
      ++ lit "\",\"DisplayName\":\""
      ++ c.service_name
      ++ lit "\",\"MajorChannelNo\":\""
      ++ major
      ++ lit "\",\"MinorChannelNo\":\""
      ++ minor
      ++ lit "\"},")

unfoldable pub xml_channel : ParsedChannel → Option (List ℕ)
unfolding channelno chan_major chan_minor channel_id url_encode
xml_channel c = do
  number ← channelno 8 c
  major ← chan_major c
  minor ← chan_minor c
  id ← channel_id c
  some (
      lit "<channel id='"
      ++ id
      ++ lit "'>\n<display-name>"
      ++ number
      ++ lit " "
      ++ url_encode c.service_name
      ++ lit "</display-name>\n<display-name>"
      ++ number
      ++ lit "</display-name>\n<display-name>"
      ++ url_encode c.service_name
      ++ lit "</display-name>\n</channel>\n")
