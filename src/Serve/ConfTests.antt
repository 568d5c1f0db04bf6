-- ===== src/Serve/ConfTests.antt =====
-- Lines of the file of the channels.
use libdvbtee.Base.{
  ℕ, ◌+◌, ◌-◌, ◌*◌, ◌≡◌, refl, Bool, false, some, List, [], ◌∷◌, ◌&&◌, leb, if◌then◌else◌,
}
use libdvbtee.Output.Setup.{contains, starts_with}
use libdvbtee.Channels.{
  atsc_vsb_freq_to_chan, atsc_vsb_chan_to_freq, atsc_vsb_base_offset, find_chan,
}
use libdvbtee.Parse.Guide.{ParsedChannel}
use libdvbtee.Serve.Pages.{lit}
use libdvbtee.Serve.Words.{words, split, first_word, second_word}
use libdvbtee.Serve.Conf.{
  conf_line, conf_channel, derive_physical_channel, modulation_of, skip_words, number_or_0, name_of,
}
use libdvbtee.Serve.Names.{data_fmt_str, month}

-- `strtoul` on decimal digits.
abbrev digits_from : ℕ → List ℕ → ℕ
digits_from n [] = n
digits_from n (c ∷ text) =
    let more = digits_from (n * 10 + (c - b'0')) text in
    if leb b'0' c && leb c b'9' then more else n

abbrev decimal : List ℕ → ℕ
decimal text = digits_from 0 text

abbrev unknown : ℕ → Bool
unknown channel = false

abbrev one : ParsedChannel
one = record {
  lcn = 4;
  major = 4;
  minor = 1;
  vpid = 49;
  apid = 52;
  program_number = 3;
  physical_channel = 2;
  freq = 57000000;
  service_name = lit "ONE";
}

line_read : conf_line decimal unknown (lit "4.1-ONE:57000000:8VSB:49:52:3\n") ≡ some one
unfolding conf_line conf_channel derive_physical_channel modulation_of skip_words number_or_0
    name_of words split first_word second_word contains starts_with atsc_vsb_freq_to_chan
    atsc_vsb_chan_to_freq atsc_vsb_base_offset find_chan
line_read = refl

-- Of a name with a dash only the part before the dash is read back.
dash_cuts_name : conf_line decimal unknown (lit "4.1-ONE-HD:57000000:8VSB:49:52:3\n") ≡ some one
unfolding conf_line conf_channel derive_physical_channel modulation_of skip_words number_or_0
    name_of words split first_word second_word contains starts_with atsc_vsb_freq_to_chan
    atsc_vsb_chan_to_freq atsc_vsb_base_offset find_chan
dash_cuts_name = refl

json_name : data_fmt_str 2 ≡ lit "JSON"
unfolding data_fmt_str
json_name = refl

last_month : month 11 ≡ some (lit "Dec")
unfolding month
last_month = refl
