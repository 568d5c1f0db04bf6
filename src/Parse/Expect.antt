-- ===== src/Parse/Expect.antt =====
-- What the parser expects and notes once it has a table: the loops of `process_pat`, `process_pmt` and
-- `process_mgt`.
use libdvbtee.Base.{
  ℕ, ◌-◌, ◌≡◌, refl, ◌∙◌, ap, Bool, true, false, some, [], ◌∷◌, ◌&&◌, ◌||◌, not, arith, leb, ◌==◌,
  if◌then◌else◌,
}
use libdvbtee.Base.Dict
use libdvbtee.Base.Dict.{Dict}
use libdvbtee.Decode.Records.{ElementaryStream, MgtTable}
use libdvbtee.Decode.Ready.{within}
use libdvbtee.Parse.State.{Parser, add_filter, get_decoder}
use libdvbtee.Parse.Psi.{
  wanted, expect_program, process_pat, is_video, is_audio, process_es, process_pmt, note_pid,
  process_mgt_table, process_mgt_tables, lists_vct, process_mgt,
}

wanted-expect_program : (m n pid : ℕ) (p : Parser) → wanted (expect_program n pid p) m ≡ wanted p m
unfolding wanted expect_program add_filter
wanted-expect_program m n pid p = ground arith

rcvd_pmt-expect_program :
    (m n pid : ℕ) (p : Parser)
    → Dict.find m (expect_program n pid p).rcvd_pmt
      ≡ (if wanted p n && n == m then some false else Dict.find m p.rcvd_pmt)
unfolding expect_program add_filter
rcvd_pmt-expect_program m n pid p = ground (arith, Dict.find-insert m n false p.rcvd_pmt)

-- After `process_pat` exactly the wanted programs of the table wait for their map table; for any
-- other program what was noted before still holds.
pub rcvd_pmt-process_pat :
    (number : ℕ) (programs : Dict ℕ) (p : Parser)
    → Dict.find number (process_pat programs p).rcvd_pmt ≡ (
        if wanted p number && Dict.has number programs
        then some false
        else Dict.find number p.rcvd_pmt)
unfolding process_pat Dict.has
rcvd_pmt-process_pat number [] p = ground arith
rcvd_pmt-process_pat number ((n, pid) ∷ programs) p = ground (
  arith,
  rcvd_pmt-process_pat number programs (expect_program n pid p),
  rcvd_pmt-expect_program number n pid p,
  wanted-expect_program number n pid p,
  ap (wanted p) {x = n} {y = number},
)

-- one of the streams has the property
unfoldable pub any_stream : (ElementaryStream → Bool) → Dict ElementaryStream → Bool
any_stream test [] = false
any_stream test ((_, es) ∷ m) = test es || any_stream test m

is_audio-is_video : (t : ℕ) → (is_audio t && is_video t) ≡ false
unfolding is_audio is_video
is_audio-is_video t = ground arith

process_es_sorts :
    (pid : ℕ) (es : ElementaryStream) (p : Parser)
    → let q = process_es es p in
      let here = es.pid == pid in
      (Dict.has pid q.payload_pids ≡ (here || Dict.has pid p.payload_pids))
      × (Dict.has pid q.video_pids ≡ ((here && is_video es.type) || Dict.has pid p.video_pids))
      × (Dict.has pid q.audio_pids ≡ ((here && is_audio es.type) || Dict.has pid p.audio_pids))
unfolding process_es add_filter
process_es_sorts pid es p = (
  ground (arith, Dict.has-insert pid es.pid es.type p.payload_pids),
  ground (arith, Dict.has-insert pid es.pid es.type p.video_pids),
  ground (arith, Dict.has-insert pid es.pid es.type p.audio_pids, is_audio-is_video es.type),
)

-- After `process_pmt` a pid is among the pids of payload, of video or of audio if it was before, or if
-- the table has a stream on it: any stream, one of a video type, one of an audio type.
pub process_pmt_sorts :
    (pid : ℕ) (m : Dict ElementaryStream) (p : Parser)
    → let q = process_pmt m p in
      (Dict.has pid q.payload_pids
        ≡ (any_stream (λ es. es.pid == pid) m || Dict.has pid p.payload_pids))
      × (Dict.has pid q.video_pids
          ≡ (any_stream (λ es. es.pid == pid && is_video es.type) m || Dict.has pid p.video_pids))
      × (Dict.has pid q.audio_pids
          ≡ (any_stream (λ es. es.pid == pid && is_audio es.type) m || Dict.has pid p.audio_pids))
unfolding process_pmt any_stream
process_pmt_sorts pid [] p = (refl, refl, refl)
process_pmt_sorts pid ((k, es) ∷ m) p =
    let (pay, video, audio) = process_es_sorts pid es p in
    let (pays, videos, audios) = process_pmt_sorts pid m (process_es es p) in
    (ground (arith, pays, pay), ground (arith, videos, video), ground (arith, audios, audio))

-- one of the tables has the property
unfoldable pub any_table : (ℕ → MgtTable → Bool) → Dict MgtTable → Bool
any_table test [] = false
any_table test ((type, t) ∷ m) = test type t || any_table test m

-- the types whose pids are collected: EIT-x, not in a mere scan for channels, and ETT-x unless texts are
-- not asked for, both up to the limit
unfoldable pub is_eit : Parser → ℕ → Bool
is_eit p type =
    leb 0x0100 type
    && leb type 0x017f
    && not (p.scan_mode && not p.epg_mode)
    && within p.eit_collection_limit (type - 0x0100)

unfoldable pub is_ett : Parser → ℕ → Bool
is_ett p type =
    leb 0x0200 type
    && leb type 0x027f
    && not p.dont_collect_ett
    && within p.eit_collection_limit (type - 0x0200)

process_mgt_table_keeps :
    (x type : ℕ) (t : MgtTable) (p : Parser)
    → let q = process_mgt_table type t p in (is_eit q x ≡ is_eit p x) × (is_ett q x ≡ is_ett p x)
unfolding process_mgt_table add_filter note_pid is_eit is_ett
process_mgt_table_keeps x type t p = (ground arith, ground arith)

process_mgt_table_notes :
    (pid type : ℕ) (t : MgtTable) (p : Parser)
    → let q = process_mgt_table type t p in
      (Dict.has pid q.eit_pids ≡ ((t.pid == pid && is_eit p type) || Dict.has pid p.eit_pids))
      × (Dict.has pid q.ett_pids ≡ ((t.pid == pid && is_ett p type) || Dict.has pid p.ett_pids))
unfolding process_mgt_table add_filter note_pid is_eit is_ett
process_mgt_table_notes pid type t p = (
  ground (arith, Dict.has-insert pid t.pid (type - 0x0100) p.eit_pids),
  ground (arith, Dict.has-insert pid t.pid (type - 0x0200) p.ett_pids),
)

process_mgt_tables_note :
    (pid : ℕ) (c : Parser) (m : Dict MgtTable) (p : Parser)
    → ((x : ℕ) → (is_eit p x ≡ is_eit c x) × (is_ett p x ≡ is_ett c x))
    → let q = process_mgt_tables m p in
      (Dict.has pid q.eit_pids
        ≡ (any_table (λ type t. t.pid == pid && is_eit c type) m || Dict.has pid p.eit_pids))
      × (Dict.has pid q.ett_pids
          ≡ (any_table (λ type t. t.pid == pid && is_ett c type) m || Dict.has pid p.ett_pids))
unfolding process_mgt_tables any_table
process_mgt_tables_note pid c [] p e = (refl, refl)
process_mgt_tables_note pid c ((type, t) ∷ m) p e =
    let (eits, etts) =
      process_mgt_tables_note pid c m (process_mgt_table type t p)
        (λ x. (let (a, b) = process_mgt_table_keeps x type t p in (a ∙ (e x).0, b ∙ (e x).1))) in
    let (eit, ett) = process_mgt_table_notes pid type t p in
    (ground (arith, eits, eit, (e type).0), ground (arith, etts, ett, (e type).1))

or_false : (b : Bool) → (b || false) ≡ b
or_false true = refl
or_false false = refl

lists_vct-any_table : (m : Dict MgtTable) → lists_vct m ≡ any_table (λ type t. leb type 3) m
unfolding any_table lists_vct
lists_vct-any_table [] = refl
lists_vct-any_table ((type, t) ∷ m) = ap (λ b. leb type 3 || b) (lists_vct-any_table m)

-- After `process_mgt` a pid is looked at for event information, or for extended texts, exactly if the
-- current master guide table gives it to such a table and the parser collects that one; and a channel
-- table is expected exactly if the guide lists one.
pub process_mgt_pids :
    (pid : ℕ) (p : Parser)
    → let q = process_mgt p in
      let tables = (get_decoder p.ts_id p).mgt.tables in
      (Dict.has pid q.eit_pids ≡ any_table (λ type t. t.pid == pid && is_eit p type) tables)
      × (Dict.has pid q.ett_pids ≡ any_table (λ type t. t.pid == pid && is_ett p type) tables)
      × (q.expect_vct ≡ any_table (λ type t. leb type 3) tables)
unfolding process_mgt is_eit is_ett Dict.has
process_mgt_pids pid p =
    let tables = (get_decoder p.ts_id p).mgt.tables in
    let (eits, etts) =
      process_mgt_tables_note pid p tables (record p { eit_pids = []; ett_pids = [] })
        (λ x. (refl, refl)) in
    (eits ∙ or_false _, etts ∙ or_false _, lists_vct-any_table tables)
