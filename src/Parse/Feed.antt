-- ===== src/Parse/Feed.antt =====
-- `parse::feed`: the loop over the packets of a buffer. `buffer` is the memory from `p_data` on, of which
-- `count` bytes are the buffer. libdvbpsi is the type `S` of its state and the function `psi_push`: what
-- it does, with the handlers it calls, with a packet of a pid. `now` is the time that the
-- statistics read.
use libdvbtee.Base.{
  ℕ, zero, suc, ◌+◌, ◌-◌, ◌*◌, ◌/◌, ◌%◌, ◌^◌, Bool, none, some, List, ◌∷◌, ◌&&◌, ◌||◌, not, ltb,
  ◌==◌, if◌then◌else◌, length, take, drop,
}
use libdvbtee.Base.Dict
use libdvbtee.Base.Dict.{Dict}
use libdvbtee.Stats.{parse, byte, no_pid}
use libdvbtee.Stats
use libdvbtee.WritePsi.{packet_bytes}
use libdvbtee.Decode.Ready.{eit_x_complete, ett_x_complete}
use libdvbtee.Parse.State.{
  Parser, OutType, none_type, patpmt, pes, psip, pes_audio, pes_video, get_decoder, put_decoder,
  pid_pat, pid_nit, pid_sdt, pid_eit, pid_tot, pid_atsc,
}

-- `tp_pkt_pid`
unfoldable pub tp_pkt_pid : List ℕ → ℕ
tp_pkt_pid pkt = if byte pkt 0 == 0x47 then byte pkt 1 % 32 * 2 ^ 8 + byte pkt 2 else no_pid

-- the condition of the inner `while`: this packet, or the next one, lacks its sync byte
unfoldable pub unsynced : ℕ → List ℕ → Bool
unfolding parse tp_pkt_pid
unsynced i p =
    (ltb 0 i && (parse p).pid == no_pid) || (ltb 1 i && tp_pkt_pid (drop 188 p) == no_pid)

-- The inner `while`, on fuel: what is left of the buffer and of its packet count. Each 188 rounds
-- lower the count, so 188 * i - sync_offset rounds are enough.
unfoldable pub resync : ℕ → ℕ → ℕ → List ℕ → List ℕ × ℕ
unfolding unsynced
resync zero sync_offset i p = (p, i)
resync (suc fuel) sync_offset i p =
    let at_188 = sync_offset + 1 == 188 in
    let rest =
      resync fuel (if at_188 then 0 else sync_offset + 1) (if at_188 then i - 1 else i)
        (drop 1 p) in
    if unsynced i p then rest else (p, i)

-- `out.push`
unfoldable pub out_push : List ℕ → OutType → Parser → Parser
out_push bytes type p = record p { sent = (bytes, type) ∷ p.sent }

-- What the loop body does with a packet: the next round starts behind it, or, after `continue`,
-- at the same packet again.
pub data Round {ℓ} (A : Type ℓ) : Type ℓ where
  next again : A → Round A

-- `detach_demux` and `erase` for a pid whose tables are complete
unfoldable pub drop_demux : ℕ → Parser → Parser
drop_demux pid p = record p { h_demux = Dict.erase pid p.h_demux }

-- The loop over `dumped_eit`, on fuel: the arrays of the decoder end at EIT-127, so a run of
-- the code that stays within them takes 128 rounds at most. The empty tables that `dump_eit_x` makes where
-- a channel has none (`Decode/Dump`) are left out.
unfoldable pub dump_eits : ℕ → Parser → Parser
unfolding eit_x_complete ett_x_complete
dump_eits zero p = p
dump_eits (suc fuel) p =
    let rest = dump_eits fuel (record p { dumped_eit = p.dumped_eit + 1 }) in
    let d = get_decoder p.ts_id p in
    if Dict.has p.ts_id p.decoders
      && eit_x_complete p.dumped_eit d
      && (p.dont_collect_ett || ett_x_complete p.dumped_eit d)
    then rest
    else p

module _ {ℓ} {S : Type ℓ} (psi_push : ℕ → List ℕ → S × Parser → S × Parser) (now : S → ℕ) where
  -- the end of the body, where `send_pkt` is set
  unfoldable pub send : ℕ → List ℕ → OutType → S × Parser → S × Parser
  unfolding out_push Stats.push
  send pid pkt type (s, p) =
      let q = out_push pkt type p in
      (s, record q { statistics = Stats.push (now s) pkt q.statistics })

  -- the case `PID_PAT`
  unfoldable pub feed_pat : List ℕ → S × Parser → S × Parser
  unfolding out_push send
  feed_pat pkt sp =
      let (s, p) = psi_push pid_pat pkt sp in
      if length p.service_ids == 0
      then send pid_pat pkt patpmt (s, p)
      else (let ctr = (p.rewritten_pat_cont_ctr + 1) % 2 ^ 8 in
          let pat_pkt = record p.pat_pkt { counter = ctr % 16 + 16 } in
          (
            s,
            out_push (packet_bytes pat_pkt) patpmt
                (record p { rewritten_pat_cont_ctr = ctr; pat_pkt = pat_pkt }),
          ))

  -- the end of the `default` case, from the search of `h_demux` on
  unfoldable pub feed_payload : ℕ → List ℕ → Bool → OutType → S × Parser → S × Parser
  unfolding send
  feed_payload pid pkt send_pkt type (s, p) =
      if Dict.has pid p.h_demux
      then send pid pkt type (psi_push pid pkt (s, p))
      else if Dict.has pid p.audio_pids
      then send pid pkt pes_audio (s, p)
      else if Dict.has pid p.video_pids
      then send pid pkt pes_video (s, p)
      else if Dict.has pid p.payload_pids || Dict.has pid p.out_pids
      then send pid pkt pes (s, p)
      else if send_pkt
      then send pid pkt type (s, p)
      else (s, p)

  -- the search of `ett_pids`, and what follows
  unfoldable pub feed_ett : ℕ → List ℕ → Bool → OutType → S × Parser → Round (S × Parser)
  unfolding feed_payload drop_demux
  feed_ett pid pkt send_pkt type (s, p) = elim (Dict.find pid p.ett_pids) [
    | none ↦ next (feed_payload pid pkt send_pkt type (s, p))
    | some x ↦
        (let d = get_decoder p.ts_id p in
          if ett_x_complete x d
          then again (
            s,
            record (drop_demux pid (put_decoder p.ts_id d p)) {
              ett_pids = Dict.erase pid p.ett_pids;
            },
          )
          else next (
              feed_payload pid pkt send_pkt psip
                (s, put_decoder p.ts_id (record d { ett_x = x }) p)))
  ]

  -- the search of `eit_pids`, and what follows
  unfoldable pub feed_eit : ℕ → List ℕ → Bool → OutType → S × Parser → Round (S × Parser)
  unfolding feed_ett drop_demux
  feed_eit pid pkt send_pkt type (s, p) = elim (Dict.find pid p.eit_pids) [
    | none ↦ feed_ett pid pkt send_pkt type (s, p)
    | some x ↦
        (let d = get_decoder p.ts_id p in
          if eit_x_complete x d
          then again (
            s,
            record (drop_demux pid (put_decoder p.ts_id d p)) {
              eit_pids = Dict.erase pid p.eit_pids;
            },
          )
          else feed_ett pid pkt send_pkt psip (s, put_decoder p.ts_id (record d { eit_x = x }) p))
  ]

  -- the `switch` over the pid
  unfoldable pub feed_pid : ℕ → List ℕ → S × Parser → Round (S × Parser)
  unfolding feed_pat feed_eit send
  feed_pid pid pkt (s, p) =
      let named =
        pid == pid_atsc || pid == pid_nit || pid == pid_sdt || pid == pid_tot || pid == pid_eit in
      if pid == pid_pat
      then next (feed_pat pkt (s, p))
      else if Dict.has pid p.h_pmt
      then next (send pid pkt patpmt (psi_push pid pkt (s, p)))
      else feed_eit pid pkt named (if named then psip else none_type) (s, p)

  -- the body of the loop behind the inner `while`
  unfoldable pub feed_packet : List ℕ → S × Parser → Round (S × Parser)
  unfolding feed_pid
  feed_packet pkt (s, p) =
      let stats = parse pkt in
      let q = if stats.tei then record p { tei_count = (p.tei_count + 1) % 2 ^ 32 } else p in
      if stats.tei && not p.process_err_pkts then again (s, q) else feed_pid stats.pid pkt (s, q)

  -- `p += 188; fed_pkt_count++`, or neither
  unfoldable pub move_on : List ℕ → Round (S × Parser) → List ℕ × (S × Parser)
  move_on p (next (s, q)) =
      (drop 188 p, (s, record q { fed_pkt_count = (q.fed_pkt_count + 1) % 2 ^ 32 }))
  move_on p (again sq) = (p, sq)

  -- The loop over `i`. The inner `while` only lowers `i`, so the first value of `i` is fuel enough.
  unfoldable pub feed_packets : ℕ → ℕ → List ℕ → S × Parser → S × Parser
  unfolding resync feed_packet move_on
  feed_packets zero i p sp = sp
  feed_packets (suc fuel) i p sp =
      let (at, left) = resync (188 * i) 0 i p in
      let (rest, done) = move_on at (feed_packet (take 188 at) sp) in
      let after = feed_packets fuel (left - 1) rest done in if i == 0 then sp else after

  -- `feed` for a buffer that is there
  unfoldable pub feed : ℕ → List ℕ → S × Parser → S × Parser
  unfolding feed_packets dump_eits out_push
  feed count buffer (s, p) =
      if count == 0
      then (s, p)
      else if not p.enabled
      then (s, out_push (take count buffer) none_type p)
      else (let (t, q) = feed_packets (count / 188) (count / 188) buffer (s, p) in
          (t, dump_eits 128 q))
