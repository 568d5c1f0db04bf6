-- ===== src/Serve/Dispatch.antt =====
-- `command` and `__command` of libdvbtee_server/serve.cpp: from the line of a client to its commands.
use libdvbtee.Base.{ℕ, true, false, Option, none, some, List, [], ◌∷◌, ◌++◌, ◌==◌, if◌then◌else◌}
use libdvbtee.Output.Setup.{contains}
use libdvbtee.Serve.Pages.{lit}
use libdvbtee.Serve.Words.{words, first_word, second_word, is_set, is_sep}
use libdvbtee.Serve.Client.{Client, Feeder, fmt_html}
use libdvbtee.Serve.Command.{
  World, Done, needs_tuner, select_tuner, select_feeder, choose_device, cmd_scan, cmd_open,
  cmd_tune, cmd_channel, cmd_service, cmd_info, cmd_stop, cmd_check, cmd_debug, cmd_parser,
  cmd_listen, cmd_quit, dump_channels, epg_dump, playing_video, add_output, save_channels,
}

-- The command that a word stands for: the first of these that it contains.
pub data Verb : Type 0 where
  v_scan v_open v_tune v_channels v_channel v_service v_stream v_video v_epg v_xmltv : Verb
  v_info v_stop v_check v_debug v_parser v_listen v_save v_quit v_other : Verb

unfoldable pub verbs : List (List ℕ × Verb)
verbs =
    (lit "scan", v_scan)
    ∷ (lit "open", v_open)
    ∷ (lit "tune", v_tune)
    ∷ (lit "channels", v_channels)
    ∷ (lit "channel", v_channel)
    ∷ (lit "service", v_service)
    ∷ (lit "stream", v_stream)
    ∷ (lit "video", v_video)
    ∷ (lit "epg", v_epg)
    ∷ (lit "xmltv", v_xmltv)
    ∷ (lit "info", v_info)
    ∷ (lit "stop", v_stop)
    ∷ (lit "check", v_check)
    ∷ (lit "debug", v_debug)
    ∷ (lit "parser", v_parser)
    ∷ (lit "listen", v_listen)
    ∷ (lit "save", v_save)
    ∷ (lit "quit", v_quit)
    ∷ []

unfoldable pub verb_of : List ℕ → List (List ℕ × Verb) → Verb
unfolding contains
verb_of cmd [] = v_other
verb_of cmd ((name, verb) ∷ others) =
    let later = verb_of cmd others in if contains name cmd then verb else later

unfoldable pub perform : World → Verb → List ℕ → Option (List ℕ) → Client → Done
unfolding cmd_scan cmd_open cmd_tune cmd_channel cmd_service cmd_info cmd_stop cmd_check cmd_debug
    cmd_parser cmd_listen cmd_quit
perform w v_scan cmd arg c = needs_tuner c (cmd_scan cmd arg c)
perform w v_open cmd arg c = cmd_open w cmd arg c
perform w v_tune cmd arg c = needs_tuner c (cmd_tune w arg c)
perform w v_channels cmd arg c = needs_tuner c (c, dump_channels ∷ [], true)
perform w v_channel cmd arg c = needs_tuner c (cmd_channel w arg c)
perform w v_service cmd arg c = cmd_service arg c
perform w v_stream cmd arg c = (c, add_output arg c.services ∷ [], true)
perform w v_video cmd arg c = (c, if c.data_fmt == fmt_html then playing_video ∷ [] else [], true)
perform w v_epg cmd arg c = (c, epg_dump ∷ [], true)
perform w v_xmltv cmd arg c = needs_tuner c (c, dump_channels ∷ epg_dump ∷ [], true)
perform w v_info cmd arg c = cmd_info w arg c
perform w v_stop cmd arg c = cmd_stop w cmd arg c
perform w v_check cmd arg c = cmd_check c
perform w v_debug cmd arg c = cmd_debug w arg c
perform w v_parser cmd arg c = cmd_parser w arg c
perform w v_listen cmd arg c = cmd_listen w cmd arg c
perform w v_save cmd arg c = needs_tuner c (c, save_channels ∷ [], true)
perform w v_quit cmd arg c = cmd_quit c
perform w v_other cmd arg c = (c, [], true)

-- the part of `__command` behind the selection of a device
unfoldable pub on_feeder : World → List ℕ → Option (List ℕ) → Option Feeder → Client → Done
on_feeder w cmd arg none c = (c, [], false)
on_feeder w cmd arg (some f) c = perform w (verb_of cmd verbs) cmd arg c

unfoldable pub run_verb : World → List ℕ → Option (List ℕ) → Client → Done
run_verb w cmd arg c = let d = choose_device w c in on_feeder w cmd arg d.feeder d

-- `__command`
unfoldable pub run_item : World → List ℕ → Client → Done
unfolding first_word second_word contains select_tuner select_feeder
run_item w item c =
    let parts = words is_set item in
    let cmd : List ℕ = elim (first_word parts) [ none ↦ item | some word ↦ word ] in
    let arg = second_word parts in
    if contains (lit "tuner") cmd
    then select_tuner w arg c
    else if contains (lit "feeder") cmd
    then select_feeder w arg c
    else run_verb w cmd arg c

-- the loop of `command`, which ends at the first item that fails
unfoldable pub run_items : World → List (List ℕ) → Client → Done
run_items w [] c = (c, [], true)
run_items w (item ∷ items) c =
    let (d, calls, ok) = run_item w item c in
    let (last, later, done) = run_items w items d in
    if ok then (last, calls ++ later, done) else (d, calls, false)

-- `command`: a line of nothing but dividers is one item
unfoldable pub command : World → List ℕ → Client → Done
command w line c =
    let start = record c { streamback_newchannel = false; streamback_started = false } in
    elim (words is_sep line) [
      | [] ↦ run_item w line start
      | item ∷ items ↦ run_items w (item ∷ items) start
    ]
