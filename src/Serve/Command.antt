-- ===== src/Serve/Command.antt =====
-- The commands of a client: `command` and `__command` of libdvbtee_server/serve.cpp, in the build with
-- `TUNER_RESOURCE_SHARING` at 0. What the commands make other classes do is a list of calls, and what those return is
-- the `World`. What is printed, and the texts that are streamed between the calls, are left out.
use libdvbtee.Base.{
  ℕ, ◌%◌, ◌^◌, Bool, true, false, Option, none, some, List, [], ◌∷◌, ◌++◌, ◌&&◌, ◌||◌, not, ltb,
  ◌==◌, if◌then◌else◌,
}
use libdvbtee.Output.Setup.{contains}
use libdvbtee.Serve.Pages.{lit}
use libdvbtee.Serve.Words.{words, first_word, second_word, or_empty, cut, is_comma, is_dash}
use libdvbtee.Serve.Client.{Client, of_tuner, feeder_id, fmt_none, fmt_cli}

-- The calls of other classes, in the order of the commands.
pub data Call : Type 0 where
  list_tuners list_feeders list_clients : Call
  cmd_tuner_scan : Option (List ℕ) → Bool → Bool → Call
  open_file start_socket : List ℕ → Call
  start_feeder : Call
  cmd_tuner_stop reset_output_pids : Call
  cmd_tuner_channel : ℕ → Call
  set_service_ids : Option (List ℕ) → Call
  dump_channels epg_dump playing_video : Call
  add_output : Option (List ℕ) → List ℕ → Call
  get_stream_info : ℕ → ℕ → Call
  stop_feeder stop_outputs : Call
  stop_output : ℕ → Call
  check_server check_tuner check_feeder check_parser : Call
  set_debug_level : ℕ → Call
  enable_parser : Bool → Call
  start_listener : Bool → ℕ → Call
  save_channels stop_server : Call

-- What exists, and what the calls return: `channel` is that of `get_channel`, `tunes` says whether
-- `cmd_tuner_channel` succeeds on a number above 0. `number` is `strtoul`.
pub record World : Type 0 where
  pub has_tuner : ℕ → Bool
  pub has_feeder : ℕ → Bool
  pub any_tuner : Bool
  pub any_feeder : Bool
  pub channel : ℕ
  pub tunes : ℕ → Bool
  pub opens : List ℕ → Bool
  pub starts : Bool
  pub number : List ℕ → ℕ

-- A number as a positive `int`.
abbrev pub positive : ℕ → Bool
positive n = not (n % 2 ^ 32 == 0) && ltb (n % 2 ^ 32) (2 ^ 31)

-- A command's result: the client, the calls, and what it returns.
abbrev pub Done : Type 0
Done = Client × List Call × Bool

-- the commands `tuner` and `feeder`; a word of `strtok_r` has a byte at least
unfoldable pub select_tuner : World → Option (List ℕ) → Client → Done
select_tuner w none c = (c, list_tuners ∷ [], true)
select_tuner w (some arg) c =
    let id = w.number arg % 2 ^ 32 in
    let chosen =
      if w.has_tuner id
      then record c { tuner = some id; feeder = some (of_tuner id) }
      else record c { tuner = none } in
    (if ltb id (2 ^ 31) then chosen else c, [], true)

unfoldable pub select_feeder : World → Option (List ℕ) → Client → Done
select_feeder w none c = (c, list_feeders ∷ [], true)
select_feeder w (some arg) c =
    let id = w.number arg % 2 ^ 32 in
    let chosen =
      if w.has_feeder id
      then record c { tuner = none; feeder = some (feeder_id id) }
      else record c { feeder = none } in
    (if ltb id (2 ^ 31) then chosen else c, [], true)

-- the choice of a device where the client has none
unfoldable pub with_tuners_feeder : Client → Client
with_tuners_feeder c = elim c.feeder [
  | some f ↦ c
  | none ↦ elim c.tuner [ none ↦ c | some id ↦ record c { feeder = some (of_tuner id) } ]
]

unfoldable pub with_first_tuner : World → Client → Client
with_first_tuner w c = elim c.feeder [
  | some f ↦ c
  | none ↦
      let chosen =
        if w.has_tuner 0
        then record c { tuner = some 0; feeder = some (of_tuner 0) }
        else record c { tuner = none } in
      if w.any_tuner then chosen else c
]

unfoldable pub with_first_feeder : World → Client → Client
with_first_feeder w c = elim c.feeder [
  | some f ↦ c
  | none ↦
      if w.any_feeder && w.has_feeder 0
      then record c { tuner = none; feeder = some (feeder_id 0) }
      else c
]

unfoldable pub choose_device : World → Client → Client
unfolding with_tuners_feeder with_first_tuner with_first_feeder
choose_device w c = with_first_feeder w (with_first_tuner w (with_tuners_feeder c))

-- a branch that needs a tuner
abbrev pub needs_tuner : Client → Done → Done
needs_tuner c done = elim c.tuner [ none ↦ (c, [], false) | some id ↦ done ]

-- `set_service_ids(ids)` and `services.append(ids)`: the first cuts the text at its first comma
unfoldable pub select_services : List ℕ → Client → Client × List Call
unfolding cut
select_services ids c = (record c { services = cut is_comma ids }, set_service_ids (some ids) ∷ [])

-- the command `service`
unfoldable pub cmd_service : Option (List ℕ) → Client → Done
unfolding select_services
cmd_service none c = (record c { services = [] }, set_service_ids none ∷ [], true)
cmd_service (some arg) c = ((select_services arg c).0, (select_services arg c).1, true)

-- the part of `tune` behind the tuning
unfoldable pub tuned_services : Bool → Option (List ℕ) → Client → Client × List Call
unfolding select_services
tuned_services false ser c = (c, [])
tuned_services true none c = (record c { services = [] }, [])
tuned_services true (some ser) c = select_services ser c

-- the command `tune`, with an argument and without
unfoldable pub cmd_tune : World → Option (List ℕ) → Client → Done
unfolding words first_word second_word cut tuned_services
cmd_tune w none c =
    let left = if w.channel == 0 then [] else cmd_tuner_stop ∷ reset_output_pids ∷ [] in
    let (next, calls) = tuned_services (w.channel == 0) none c in (next, left ++ calls, true)
cmd_tune w (some arg) c =
    let parts = words is_dash arg in
    let phy = w.number (or_empty (first_word parts)) % 2 ^ 32 in
    let number = w.number (cut is_dash arg) in
    let left =
      if w.channel == 0 || w.channel == phy then [] else cmd_tuner_stop ∷ reset_output_pids ∷ [] in
    let moved = if w.channel == phy then [] else cmd_tuner_channel (number % 2 ^ 32) ∷ [] in
    let tuned = w.channel == phy || positive number && w.tunes (number % 2 ^ 32) in
    let (next, calls) = tuned_services tuned (second_word parts) c in
    (next, left ++ moved ++ calls, true)

-- the command `open`
unfoldable pub cmd_open : World → List ℕ → Option (List ℕ) → Client → Done
unfolding contains
cmd_open w cmd none c = (c, [], true)
cmd_open w cmd (some arg) c =
    let as_file : Done =
      if w.opens arg
      then (c, open_file arg ∷ start_feeder ∷ [], w.starts)
      else (c, open_file arg ∷ [], false) in
    if contains (lit "openfile") cmd
    then as_file
    else if contains (lit "opensock") cmd
    then (c, start_socket arg ∷ [], true)
    else (c, [], true)

-- the command `stop`: `-1` is no output
unfoldable pub cmd_stop : World → List ℕ → Option (List ℕ) → Client → Done
unfolding contains
cmd_stop w cmd arg c =
    let stop_data : List Call = elim c.tuner [
      | none ↦ stop_feeder ∷ []
      | some id ↦ cmd_tuner_stop ∷ []
    ] in
    let id : Option ℕ = elim arg [
      | none ↦ none
      | some t ↦ let n = w.number t % 2 ^ 32 in if n == 0xffff_ffff then none else some n
    ] in
    let outputs : List Call = elim id [
      | none ↦ stop_data ++ (stop_outputs ∷ [])
      | some n ↦ stop_output n ∷ []
    ] in
    (c, if contains (lit "stopoutput") cmd then outputs else stop_data, true)

-- the command `info`; without a service the code reads a text that is not there
unfoldable pub cmd_info : World → Option (List ℕ) → Client → Done
unfolding words first_word second_word
cmd_info w none c = (c, get_stream_info 0 0 ∷ [], true)
cmd_info w (some arg) c =
    let parts = words is_dash arg in
    (
      c,
      get_stream_info (w.number (or_empty (first_word parts)) % 2 ^ 32)
            (w.number (or_empty (second_word parts)) % 2 ^ 16)
          ∷ [],
      true,
    )

-- the command `check`
unfoldable pub cmd_check : Client → Done
cmd_check c =
    let tuner : List Call = elim c.tuner [ none ↦ [] | some id ↦ check_tuner ∷ [] ] in
    (
      c,
      check_server ∷ list_clients ∷ tuner
          ++ (list_tuners ∷ check_feeder ∷ list_feeders ∷ check_parser ∷ []),
      true,
    )

-- the commands that need a tuner: `scan`, `tune`, `channels`, `channel`, `xmltv` and `save`
unfoldable pub cmd_scan : List ℕ → Option (List ℕ) → Client → Done
unfolding contains
cmd_scan cmd arg c = (
  c,
  cmd_tuner_scan arg (contains (lit "scanepg") cmd) (not (contains (lit "startscan") cmd)) ∷ [],
  true,
)

unfoldable pub cmd_channel : World → Option (List ℕ) → Client → Done
cmd_channel w none c = (c, [], true)
cmd_channel w (some arg) c = (c, cmd_tuner_channel (w.number arg % 2 ^ 32) ∷ [], true)

-- the commands `debug`, `parser` and `listen`
unfoldable pub cmd_debug : World → Option (List ℕ) → Client → Done
cmd_debug w none c = (c, set_debug_level 255 ∷ [], true)
cmd_debug w (some arg) c = (c, set_debug_level (w.number arg % 2 ^ 32) ∷ [], true)

unfoldable pub cmd_parser : World → Option (List ℕ) → Client → Done
cmd_parser w none c = (c, [], true)
cmd_parser w (some arg) c = (c, enable_parser (not (w.number arg == 0)) ∷ [], true)

unfoldable pub cmd_listen : World → List ℕ → Option (List ℕ) → Client → Done
unfolding contains
cmd_listen w cmd none c = (c, [], true)
cmd_listen w cmd (some arg) c =
    (c, start_listener (contains (lit "udp") cmd) (w.number arg % 2 ^ 32) ∷ [], true)

-- the command `quit`
unfoldable pub cmd_quit : Client → Done
cmd_quit c =
    (if c.data_fmt == fmt_cli then record c { data_fmt = fmt_none } else c, stop_server ∷ [], true)
