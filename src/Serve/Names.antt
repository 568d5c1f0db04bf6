-- ===== src/Serve/Names.antt =====
-- The names that libdvbtee_server prints for formats, months and days.
use libdvbtee.Base.{ℕ, Option, List, [], ◌∷◌, ◌==◌, if◌then◌else◌, get_elem?}
use libdvbtee.Serve.Pages.{lit}
use libdvbtee.Serve.Client.{fmt_html, fmt_json, fmt_xml, fmt_cli}

-- `data_fmt_str`; 8 is `SERVE_DATA_FMT_BIN`
unfoldable pub data_fmt_str : ℕ → List ℕ
data_fmt_str fmt =
    if fmt == fmt_html
    then lit "HTML"
    else if fmt == 8
    then lit "BIN"
    else if fmt == fmt_json
    then lit "JSON"
    else if fmt == fmt_cli
    then lit "CLI"
    else if fmt == fmt_xml
    then lit "XML"
    else lit "NONE"

-- `month` and `weekday`; `none` is NULL
unfoldable pub month : ℕ → Option (List ℕ)
month x =
    get_elem?
      (lit "Jan"
        ∷ lit "Feb"
        ∷ lit "Mar"
        ∷ lit "Apr"
        ∷ lit "May"
        ∷ lit "Jun"
        ∷ lit "Jul"
        ∷ lit "Aug"
        ∷ lit "Sep"
        ∷ lit "Oct"
        ∷ lit "Nov"
        ∷ lit "Dec"
        ∷ [])
      x

unfoldable pub weekday : ℕ → Option (List ℕ)
weekday x =
    get_elem?
      (lit "Sun" ∷ lit "Mon" ∷ lit "Tue" ∷ lit "Wed" ∷ lit "Thu" ∷ lit "Fri" ∷ lit "Sat" ∷ []) x
