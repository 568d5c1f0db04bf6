-- ===== src/Parse/Psi.antt =====
-- What the parser does with a table: the handlers that libdvbpsi calls, before and after the
-- decoder has seen the table, and the choice of a handler for a table id.
use libdvbtee.Base.{
  ℕ, ◌-◌, Bool, true, false, Option, none, some, [], ◌∷◌, ◌&&◌, ◌||◌, not, leb, ltb, ◌==◌,
  if◌then◌else◌, length,
}
use libdvbtee.Base.Dict
use libdvbtee.Base.Dict.{Dict}
use libdvbtee.Decode.Records.{ElementaryStream, MgtTable}
use libdvbtee.Decode.Stream.{Decode}
use libdvbtee.Decode.Ready.{within}
use libdvbtee.Parse.State.{Parser, pid_atsc, add_filter, get_decoder, on_decoder}

-- the test in the loop of `process_pat`
unfoldable pub wanted : Parser → ℕ → Bool
wanted p number = ltb 0 number && (length p.service_ids == 0 || Dict.has number p.service_ids)

-- its body: the map table of a wanted program is expected on its pid
unfoldable pub expect_program : ℕ → ℕ → Parser → Parser
unfolding wanted add_filter
expect_program number pid p =
    if wanted p number
    then add_filter pid (record p {
      h_pmt = Dict.insert pid number p.h_pmt;
      rcvd_pmt = Dict.insert number false p.rcvd_pmt;
    })
    else p

-- `process_pat`
unfoldable pub process_pat : Dict ℕ → Parser → Parser
unfolding expect_program
process_pat [] p = p
process_pat ((number, pid) ∷ programs) p = process_pat programs (expect_program number pid p)

-- the stream types of the two `switch` cases of `process_pmt`
unfoldable pub is_video : ℕ → Bool
is_video t = t == 0x01 || t == 0x10 || t == 0x1b || t == 0x80 || t == 0x02

unfoldable pub is_audio : ℕ → Bool
is_audio t = t == 0x03 || t == 0x04 || t == 0x0f || t == 0x11 || t == 0x87 || t == 0x81

-- the body of the loop of `process_pmt`
unfoldable pub process_es : ElementaryStream → Parser → Parser
unfolding is_video is_audio add_filter
process_es es p = add_filter es.pid (record p {
  payload_pids = Dict.insert es.pid es.type p.payload_pids;
  video_pids = if is_video es.type then Dict.insert es.pid es.type p.video_pids else p.video_pids;
  audio_pids =
      if is_video es.type
      then p.audio_pids
      else if is_audio es.type
      then Dict.insert es.pid es.type p.audio_pids
      else p.audio_pids;
})

-- `process_pmt`
unfoldable pub process_pmt : Dict ElementaryStream → Parser → Parser
unfolding process_es
process_pmt [] p = p
process_pmt ((_, es) ∷ m) p = process_pmt m (process_es es p)

-- the `switch` of `process_mgt` over the table type: whether its pid gets a demultiplexer
unfoldable pub wants_demux : Parser → ℕ → Bool
wants_demux p type =
    if leb type 0x0003
    then true
    else if leb 0x0100 type && leb type 0x017f
    then not (p.scan_mode && not p.epg_mode) && within p.eit_collection_limit (type - 0x0100)
    else if leb 0x0200 type && leb type 0x027f
    then not p.dont_collect_ett
    else type == 0x0004

-- and the pid that it notes for an event information or an extended text table
unfoldable pub note_pid : ℕ → ℕ → Parser → Parser
note_pid type pid p =
    if leb 0x0100 type && leb type 0x017f
    then if not (p.scan_mode && not p.epg_mode) && within p.eit_collection_limit (type - 0x0100)
      then record p { eit_pids = Dict.insert pid (type - 0x0100) p.eit_pids }
      else p
    else if leb 0x0200 type && leb type 0x027f
    then if not p.dont_collect_ett && within p.eit_collection_limit (type - 0x0200)
      then record p { ett_pids = Dict.insert pid (type - 0x0200) p.ett_pids }
      else p
    else p

-- the body of the loop of `process_mgt(true)`
unfoldable pub process_mgt_table : ℕ → MgtTable → Parser → Parser
unfolding wants_demux note_pid add_filter
process_mgt_table type t p =
    let noted = note_pid type t.pid p in
    if wants_demux p type && not (t.pid == pid_atsc)
    then add_filter t.pid (record noted { h_demux = Dict.insert t.pid true noted.h_demux })
    else noted

unfoldable pub process_mgt_tables : Dict MgtTable → Parser → Parser
unfolding process_mgt_table
process_mgt_tables [] p = p
process_mgt_tables ((type, t) ∷ m) p = process_mgt_tables m (process_mgt_table type t p)

-- `b_expecting_vct`
unfoldable pub lists_vct : Dict MgtTable → Bool
lists_vct [] = false
lists_vct ((type, t) ∷ m) = leb type 0x0003 || lists_vct m

-- `process_mgt(true)`
unfoldable pub process_mgt : Parser → Parser
unfolding process_mgt_tables lists_vct
process_mgt p =
    let tables = (get_decoder p.ts_id p).mgt.tables in
    record (process_mgt_tables tables (record p { eit_pids = []; ett_pids = [] })) {
      expect_vct = lists_vct tables;
    }

-- The handlers that a table id can be given to.
pub data Handler : Type 0 where
  take_eit take_nit_actual take_nit_other take_sdt_actual take_sdt_other take_tot : Handler
  take_vct take_atsc_eit take_ett take_stt take_mgt : Handler

-- the first `switch` of `attach_table`: what is left out in a scan for channels
unfoldable pub scan_wants : ℕ → Bool
scan_wants id =
    id == 0x40 || id == 0x41 || id == 0x42 || id == 0x46 || id == 0xc8 || id == 0xc9 || id == 0xc7

-- the second
unfoldable pub handler_of : ℕ → Option Handler
handler_of id =
    if leb 0x4e id && leb id 0x6f
    then some take_eit
    else if id == 0x40
    then some take_nit_actual
    else if id == 0x41
    then some take_nit_other
    else if id == 0x42
    then some take_sdt_actual
    else if id == 0x46
    then some take_sdt_other
    else if id == 0x70 || id == 0x73
    then some take_tot
    else if id == 0xc8 || id == 0xc9
    then some take_vct
    else if id == 0xcb
    then some take_atsc_eit
    else if id == 0xcc
    then some take_ett
    else if id == 0xcd
    then some take_stt
    else if id == 0xc7
    then some take_mgt
    else none

-- `attach_table`: the handler that a table is attached with
unfoldable pub attach_table : Parser → ℕ → Option Handler
unfolding scan_wants handler_of
attach_table p id =
    if p.scan_mode && not p.epg_mode && not (scan_wants id) then none else handler_of id

-- `define_table_wrapper`: the method before, the decoder's, and the method after it, which is
-- left out where the decoder had the table and the parser is `done` with it. All the methods
-- before return true.
unfoldable pub wrap :
    (Parser → Parser)
    → (Decode → Decode × Bool)
    → (Parser → Bool)
    → (Parser → Parser)
    → Parser
    → Parser
unfolding on_decoder
wrap before method done after p =
    let p₁ = before p in
    let (p₂, fresh) = on_decoder p₁.ts_id method p₁ in
    if fresh || not (done p₂) then after p₂ else p₂
