-- ===== src/Parse/Sends.antt =====
-- A new socket, and the packets that the parser sends on for it.
use libdvbtee.Base.{
  ℕ, ◌+◌, ◌≡◌, ◌∙◌, ap, refl, sym, subst, Bool, true, false, if◌then◌else◌, Option, none, some, [],
  ◌∷◌, ◌||◌, ◌==◌, arith, inl, inr, Bool-cases, List,
}
use libdvbtee.Base.Dict
use libdvbtee.Base.Dict.{Dict, has-insert}
use libdvbtee.Rbuf.{◌>>=◌}
use libdvbtee.Rbuf
use libdvbtee.Rbuf.{Rbuf}
use libdvbtee.Output.Stream
use libdvbtee.Output.Stream.{Stream, Method, new_stream, set_pids, merge_pids}
use libdvbtee.Output.Setup.{add_socket, socket_name, verify_socket}
use libdvbtee.Output.Targets.{
  Output, start, get_pids, succeeds, search_by, register, register_once, output_add_socket,
}
use libdvbtee.Stats.{parse}
use libdvbtee.Parse.State.{
  Parser, OutType, none_type, psip, pes, pes_audio, pes_video, pid_pat, pid_atsc, pid_nit, pid_sdt,
  pid_tot, pid_eit,
}
use libdvbtee.Parse.Feed.{next, send, out_push, feed_payload, feed_eit, feed_pid, feed_packet}
use libdvbtee.Parse.Afresh.{feed_eit-none}
use libdvbtee.Parse.Outputs.{Threads, to_socket, start_added, add_output}
use libdvbtee.Parse.Reach.{any_stream, has-merge_pids, has-get_pids}

any_stream-insert :
    (pid id : ℕ) (s : Stream) (m : Dict Stream)
    → Dict.has pid s.pids ≡ true
    → any_stream pid (Dict.insert id s m) ≡ true
unfolding any_stream Dict.insert
any_stream-insert pid id s [] e = rw e refl
any_stream-insert pid id s ((j, u) ∷ m) e = ground (arith, e, any_stream-insert pid id s m e)

-- What is said of what sets up a stream for a target, and of what places it.
unfoldable Gives : ℕ → Option (Bool × Stream) → Type 0
Gives pid none = Unit
Gives pid (some (ok, s)) = Dict.has pid s.pids ≡ true

unfoldable Placed : ℕ → Option (Option ℕ × Output) → Type 0
Placed pid none = Unit
Placed pid (some (none, o)) = Unit
Placed pid (some (some id, o)) = any_stream pid o.streams ≡ true

reset-Gives :
    (pid : ℕ) (ring : Option Rbuf) (f : Rbuf → Stream)
    → ((b : Rbuf) → Dict.has pid (f b).pids ≡ true)
    → Gives pid (do t ← (do b ← ring; some (f b)); some (true, t))
unfolding Gives
reset-Gives pid none f h = tt
reset-Gives pid (some b) f h = h b

add_socket-Gives :
    (pid socket : ℕ) (method : Method) (pids : Dict ℕ) (s : Stream)
    → Dict.has pid pids ≡ true
    → Gives pid (succeeds (add_socket socket method pids) s)
unfolding add_socket set_pids
add_socket-Gives pid socket method pids s e =
    reset-Gives pid (Rbuf.reset s.ring)
      (λ b.
        set_pids pids
          (record s { sock = some socket; ring = b; method = method; name = socket_name }))
      (λ b. has-merge_pids pid pids s.pids ∙ ap (λ x. x || Dict.has pid s.pids) e)

set_up-Placed :
    (pid : ℕ) (o : Output) (x : Option (Bool × Stream))
    → Gives pid x
    → Placed pid (
        x >>= (λ (r : Bool × Stream).
          let placed : Output = record o { streams = Dict.insert o.num_targets r.1 o.streams } in
          if r.0
          then some (some o.num_targets, record placed { num_targets = o.num_targets + 1 })
          else some (none, placed)))
unfolding Gives Placed
set_up-Placed pid o none g = tt
set_up-Placed pid o (some (true, s)) g = any_stream-insert pid o.num_targets s o.streams g
set_up-Placed pid o (some (false, s)) g = tt

register_once-new :
    (verify : Stream → Bool) (setup : Stream → Option (Bool × Stream)) (o : Output)
    → search_by verify o.streams ≡ none
    → register_once verify setup o ≡ register setup o
unfolding register_once
register_once-new verify setup o new = rw (new, register_once) refl

register-Placed :
    (pid : ℕ) (setup : Stream → Option (Bool × Stream)) (o : Output)
    → Gives pid (setup (Dict.get_or o.num_targets o.streams new_stream))
    → Placed pid (register setup o)
unfolding register
register-Placed pid setup o g =
    set_up-Placed pid o (setup (Dict.get_or o.num_targets o.streams new_stream)) g

socket-Placed :
    (pid socket : ℕ) (method : Method) (pids : Dict ℕ) (o : Output)
    → search_by (verify_socket socket method) o.streams ≡ none
    → Dict.has pid pids ≡ true
    → Placed pid (to_socket socket method pids o)
unfolding output_add_socket
socket-Placed pid socket method pids o new e =
    subst (Placed pid)
      (sym (
        register_once-new (verify_socket socket method) (succeeds (add_socket socket method pids)) o
          new))
      (register-Placed pid (succeeds (add_socket socket method pids)) o (
        add_socket-Gives pid socket method pids (Dict.get_or o.num_targets o.streams new_stream) e))

-- The streams that come of a step have a pid just where one of those before has it.
unfoldable Keeps : ℕ → Dict Stream → Option (Dict Stream) → Type 0
Keeps pid m none = Unit
Keeps pid m (some m') = any_stream pid m' ≡ any_stream pid m

start-any_stream :
    (t : Threads) (pid : ℕ) (m : Dict Stream) → Keeps pid m (start t.created t.fresh m)
unfolding start Stream.start any_stream Keeps
start-any_stream t pid [] = refl
start-any_stream t pid ((id, s) ∷ m) = ground (arith, start-any_stream t pid m)

-- What is said of a result of `add_output` for a target that was placed.
unfoldable Sends : ℕ → Option (Option ℕ × Parser × Output) → Type 0
Sends pid none = Unit
Sends pid (some (none, q, last)) = Unit
Sends pid (some (some id, q, last)) = Dict.has pid q.out_pids ≡ true

started-Sends :
    (pid id : ℕ) (p : Parser) (o : Output) (m : Option (Dict Stream))
    → any_stream pid o.streams ≡ true
    → Keeps pid o.streams m
    → Sends pid (
        m >>= (λ m.
          some (some id, record p { out_pids = get_pids m p.out_pids }, record o { streams = m })))
unfolding Sends Keeps
started-Sends pid id p o none there keeps = tt
started-Sends pid id p o (some m) there keeps =
    has-get_pids pid m p.out_pids
    ∙ ap (λ x. x || Dict.has pid p.out_pids) {x = any_stream pid m} (keeps ∙ there)

start_added-Sends :
    (t : Threads) (p : Parser) (pid : ℕ) (result : Option (Option ℕ × Output))
    → Placed pid result
    → Sends pid (result >>= (λ r. start_added t p r.0 r.1))
unfolding Placed start_added
start_added-Sends t p pid none placed = unfold Sends in tt
start_added-Sends t p pid (some (none, o)) placed = unfold Sends in tt
start_added-Sends t p pid (some (some id, o)) placed =
    started-Sends pid id p o (start t.created t.fresh o.streams) placed
      (start-any_stream t pid o.streams)

socket-Sends :
    (t : Threads) (socket : ℕ) (method : Method) (pids : Dict ℕ) (p q : Parser) (o last : Output)
    (id pid : ℕ)
    → search_by (verify_socket socket method) o.streams ≡ none
    → Dict.has pid pids ≡ true
    → add_output t (to_socket socket method) pids (p, o) ≡ some (some id, q, last)
    → Dict.has pid q.out_pids ≡ true
unfolding add_output Sends
socket-Sends t socket method pids p q o last id pid new e ran = subst (Sends pid) ran (
    start_added-Sends t p pid (to_socket socket method pids o)
      (socket-Placed pid socket method pids o new e))

module _ {ℓ} {S : Type ℓ} (psi_push : ℕ → List ℕ → S × Parser → S × Parser) (now : S → ℕ) where
  feed_payload-sends :
      (pid : ℕ) (pkt : List ℕ) (b : Bool) (type : OutType) (s : S) (q : Parser)
      → Dict.has pid q.h_demux ≡ false
      → Dict.has pid q.out_pids ≡ true
      → (kind : OutType) × (feed_payload psi_push now pid pkt b type (s, q)
          ≡ send psi_push now pid pkt kind (s, q))
  unfolding feed_payload
  feed_payload-sends pid pkt b type s q d out = elim (Bool-cases (Dict.has pid q.audio_pids)) [
    | inl a ↦ (pes_audio, rw (d, a) refl)
    | inr a ↦ elim (Bool-cases (Dict.has pid q.video_pids)) [
      | inl v ↦ (pes_video, rw (d, a, v) refl)
      | inr v ↦ (pes, rw (d, a, v, out) (payload (Dict.has pid q.payload_pids)))
    ]
  ]
    where
      payload :
          (x : Bool)
          → (if x || true
              then send psi_push now pid pkt pes (s, q)
              else if b
              then send psi_push now pid pkt type (s, q)
              else (s, q))
            ≡ send psi_push now pid pkt pes (s, q)
      payload true = refl
      payload false = refl

  feed_packet-default :
      (pkt : List ℕ) (s : S) (q : Parser)
      → (parse pkt).tei ≡ false
      → ((parse pkt).pid == pid_pat) ≡ false
      → Dict.has (parse pkt).pid q.h_pmt ≡ false
      → (named : Bool) × (type : OutType) × (feed_packet psi_push now pkt (s, q)
          ≡ feed_eit psi_push now (parse pkt).pid pkt named type (s, q))
  unfolding feed_packet feed_pid
  feed_packet-default pkt s q tei pat pmt =
      let pid = (parse pkt).pid in
      let named =
        pid == pid_atsc || pid == pid_nit || pid == pid_sdt || pid == pid_tot || pid == pid_eit in
      (named, (if named then psip else none_type), simp (tei, pat, pmt) refl)

  -- A new socket is added for some pids, and the call succeeds: the parser then pushes each packet of one of
  -- these pids on to its outputs, and goes on behind it. The pid is none on which tables are expected, and the
  -- packet has no error flag.
  pub add_output_sends :
      (t : Threads) (socket : ℕ) (method : Method) (pids : Dict ℕ) (p q : Parser) (o last : Output)
      (id : ℕ) (pkt : List ℕ) (s : S)
      → search_by (verify_socket socket method) o.streams ≡ none
      → add_output t (to_socket socket method) pids (p, o) ≡ some (some id, q, last)
      → Dict.has (parse pkt).pid pids ≡ true
      → (parse pkt).tei ≡ false
      → ((parse pkt).pid == pid_pat) ≡ false
      → Dict.has (parse pkt).pid q.h_pmt ≡ false
      → Dict.find (parse pkt).pid q.eit_pids ≡ none
      → Dict.find (parse pkt).pid q.ett_pids ≡ none
      → Dict.has (parse pkt).pid q.h_demux ≡ false
      → (kind : OutType) × (r : Parser) × (feed_packet psi_push now pkt (s, q) ≡ next (s, r))
        × (r.sent ≡ (pkt, kind) ∷ q.sent)
  unfolding send out_push
  add_output_sends t socket method pids p q o last id pkt s new ran e tei pat pmt eit ett d =
      let pid = (parse pkt).pid in
      let out = socket-Sends t socket method pids p q o last id pid new e ran in
      let (named, type, default) = feed_packet-default pkt s q tei pat pmt in
      let (kind, sends) = feed_payload-sends pid pkt named type s q d out in
      (
        kind,
        (send psi_push now pid pkt kind (s, q)).1,
        default ∙ feed_eit-none psi_push now pid pkt named type s q eit ett ∙ ap next sends,
        refl,
      )
