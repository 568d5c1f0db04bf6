-- ===== src/Serve/Conf.antt =====
-- The file of the channels in libdvbtee_server/serve.cpp: how `cmd_config_channels_conf_load` reads a line of it. `number` is
-- `strtoul`, and `known` says for which channels `get_ts_id` knows a stream. A line is cut by `fgets` at 255 bytes, which is
-- left out, as is the opening of the file.
use libdvbtee.Base.{ℕ, ◌%◌, ◌^◌, Bool, Option, none, some, List, [], ◌∷◌, ◌==◌, if◌then◌else◌}
use libdvbtee.Rbuf.{◌>>=◌}
use libdvbtee.Output.Setup.{contains}
use libdvbtee.Channels.{atsc_vsb_freq_to_chan, atsc_qam_freq_to_chan, dvbt_freq_to_chan}
use libdvbtee.Parse.Guide.{ParsedChannel}
use libdvbtee.Serve.Pages.{lit}
use libdvbtee.Serve.Words.{words, first_word, second_word, or_empty}

-- `derive_physical_channel`
unfoldable pub derive_physical_channel : ℕ → List ℕ → ℕ
unfolding contains
derive_physical_channel freq modulation =
    if contains (lit "VSB") modulation
    then atsc_vsb_freq_to_chan freq
    else if contains (lit "QAM_256") modulation
    then atsc_qam_freq_to_chan freq
    else dvbt_freq_to_chan freq

abbrev pub is_colon : ℕ → Bool
is_colon c = c == b':'

abbrev pub is_minus : ℕ → Bool
is_minus c = c == b'-'

abbrev pub is_dot : ℕ → Bool
is_dot c = c == b'.'

-- The words behind so many, of which each must be there.
unfoldable pub skip_words : List (List ℕ) → Option (List (List ℕ))
skip_words (_ ∷ _ ∷ _ ∷ _ ∷ _ ∷ _ ∷ ws) = some ws
skip_words _ = none

-- A number, or 0 where there is no word.
unfoldable pub number_or_0 : (List ℕ → ℕ) → Option (List ℕ) → ℕ
number_or_0 number none = 0
number_or_0 number (some w) = number w

-- The modulation, with the words that follow it: a line for DVB-T has eight words for it.
unfoldable pub modulation_of : List ℕ → List (List ℕ) → Option (List ℕ × List (List ℕ))
unfolding contains skip_words
modulation_of word ws =
    if contains (lit "INVERSION") word
    then (elim ws [
      | [] ↦ none
      | band ∷ more ↦ (do
        rest ← skip_words more
        some (
          if contains (lit "BANDWIDTH_7_MHZ") band
              then lit
                  "INVERSION_AUTO:BANDWIDTH_7_MHZ:FEC_AUTO:FEC_AUTO:QAM_AUTO:TRANSMISSION_MODE_AUTO:GUARD_INTERVAL_AUTO:HIERARCHY_AUTO"
              else lit
                  "INVERSION_AUTO:BANDWIDTH_8_MHZ:FEC_AUTO:FEC_AUTO:QAM_AUTO:TRANSMISSION_MODE_AUTO:GUARD_INTERVAL_AUTO:HIERARCHY_AUTO",
          rest,
        ))
    ])
    else some (word, ws)

-- The name of a service, and the number of its channel, from the first word of a line.
unfoldable pub name_of : List ℕ → List ℕ → List ℕ
unfolding words second_word
name_of name chan = elim (second_word (words is_minus name)) [ none ↦ chan | some w ↦ w ]

-- What is read of the numbers behind the modulation.
unfoldable pub conf_channel : (List ℕ → ℕ) → List ℕ → ℕ → ℕ → List (List ℕ) → ParsedChannel
unfolding name_of words first_word second_word number_or_0
conf_channel number name freq phy ws =
    let chan = or_empty (first_word (words is_minus name)) in
    let numbers = words is_dot chan in
    let major = number_or_0 number (first_word numbers) % 2 ^ 16 in
    record {
      lcn = major;
      major = major;
      minor = number_or_0 number (second_word numbers) % 2 ^ 16;
      vpid = number_or_0 number (first_word ws) % 2 ^ 16;
      apid = number_or_0 number (second_word ws) % 2 ^ 16;
      program_number = elim ws [
        | [] ↦ 0
        | a ∷ more ↦ number_or_0 number (second_word more) % 2 ^ 16
      ];
      physical_channel = phy;
      freq = freq;
      service_name = name_of name chan;
    }

-- a round of the loop of `cmd_config_channels_conf_load`: `none` where the line is passed over
unfoldable pub conf_line : (List ℕ → ℕ) → (ℕ → Bool) → List ℕ → Option ParsedChannel
unfolding words modulation_of derive_physical_channel conf_channel
conf_line number known line = elim (words is_colon line) [
  | name ∷ freq ∷ word ∷ ws ↦ (do
    (modulation, rest) ← modulation_of word ws
    let hz = number freq % 2 ^ 32
    let phy = derive_physical_channel hz modulation
    if known phy then none else some (conf_channel number name hz phy rest))
  | _ ↦ none
]
