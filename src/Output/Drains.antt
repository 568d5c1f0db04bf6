-- ===== src/Output/Drains.antt =====
-- The thread of a stream whose ring holds whole packets: its rounds come to an end of what they can send.
use libdvbtee.Base.{
  subst, ℕ, zero, suc, ◌+◌, ◌-◌, ◌*◌, ◌/◌, ◌%◌, ◌≤◌, ◌<◌, ◌≡◌, ◌∙◌, refl, sym, ap, subst, true,
  false, Option, some, List, ◌++◌, if◌then◌else◌, arith, inl, inr, ltb, length, take, drop,
  length-take, length-drop, length-append, Bool-cases, ltb→lt,
}
use libdvbtee.Rbuf
use libdvbtee.Rbuf.{Rbuf, size_of, read_room, advance_read, ◌>>=◌}
use libdvbtee.Rbuf.Contents.{IsValid, contents, length-contents}
use libdvbtee.Rbuf.Read.{read_room_bounds}
use libdvbtee.Output.Stream.{Stream, Method, udp, Answer, packet_size, send_round, goes_on}
use libdvbtee.Output.Round.{
  after, sent, sent_stream, stream-runs, sent_size, held, ltb-ge, in_order, put_read_ptr_lem,
  send_round-waits, after-contents, after-flow, send_round-sends, flow,
}

-- A ring of whole packets: its storage, the place of the reader and what it holds are multiples of 188.
pub record IsWhole (b : Rbuf) : Type 0 where
  pub valid : IsValid b
  pub unlocked : b.locked ≡ false
  pub storage : b.capacity % 188 ≡ 0
  pub reader : b.idx_read % 188 ≡ 0
  pub held : size_of b % 188 ≡ 0

packet_size_bound : (m : Method) → 188 ≤ packet_size m
packet_size_bound udp = omega arith
packet_size_bound _ = omega arith

reader_inside : (b : Rbuf) → IsValid b → 188 ≤ size_of b → b.idx_read < b.capacity
unfolding size_of
reader_inside b v some_held = ground (arith, v.read_in, v.write_in)

tail_whole : (c i : ℕ) → c % 188 ≡ 0 → i % 188 ≡ 0 → i < c → 188 ≤ c - i
tail_whole c i hc hi inside = omega arith

-- A ring of whole packets that holds a packet gives out one or more of them.
whole_room : (b : Rbuf) (n : ℕ) → IsWhole b → 188 ≤ n → 188 ≤ size_of b → 188 ≤ read_room b n
unfolding read_room
whole_room b n w enough some_held =
    let inside = reader_inside b w.valid some_held in
    ground (arith, inside, tail_whole b.capacity b.idx_read w.storage w.reader inside)

put-size :
    (b : Rbuf) (n : ℕ)
    → IsValid b
    → n ≤ size_of b
    → b.idx_read + n ≤ b.capacity
    → size_of (Rbuf.put_read_ptr (record b { locked = true }) n) + n ≡ size_of b
put-size b n v small inside =
    let (same, kept, _) = after-contents b n v small inside in
    let total = sym (length-contents v) ∙ ap length same in
    omega (
      arith,
      total,
      length-contents kept,
      length-append (take n (drop b.idx_read b.bytes))
          (contents (Rbuf.put_read_ptr (record b { locked = true }) n)),
      length-take n (drop b.idx_read b.bytes),
      length-drop b.idx_read b.bytes,
      v.storage,
    )

put-IsWhole :
    (b : Rbuf) (k : ℕ)
    → IsWhole b
    → k * 188 ≤ size_of b
    → b.idx_read + k * 188 ≤ b.capacity
    → IsWhole (Rbuf.put_read_ptr (record b { locked = true }) (k * 188))
put-IsWhole b k w small inside =
    let (_, kept, unlocked) = after-contents b (k * 188) w.valid small inside in
    record {
      valid = kept;
      unlocked = unlocked;
      storage = rw put_read_ptr_lem (unfold advance_read in ground (arith, w.storage));
      reader = rw put_read_ptr_lem (unfold advance_read in ground (arith, w.reader));
      held = omega (arith, put-size b (k * 188) w.valid small inside, w.held);
    }

-- A round that finds enough sends a packet at least, and whole packets are left.
pub after-sends :
    (sends : List ℕ → Answer) (s : Stream)
    → IsWhole s.ring
    → packet_size s.method ≤ size_of s.ring
    → goes_on s.method (length (sent sends s)) (sends (sent sends s)).ret ≡ true
    → IsWhole (after sends s).ring
      × ((after sends s).method ≡ s.method)
      × ((after sends s).f_kill_thread ≡ s.f_kill_thread)
      × (flow (after sends s) ≡ flow s)
      × (size_of (after sends s).ring + 188 ≤ size_of s.ring)
unfolding after sent_stream sent_size held
after-sends sends s w enough takes =
    let (small, held_too, inside) = read_room_bounds s.ring (packet_size s.method) w.valid in
    let pos =
      whole_room s.ring (packet_size s.method) w (packet_size_bound s.method)
        (omega (arith, packet_size_bound s.method)) in
    let (same, _, method, _, _) =
      after-flow sends s (record { valid = w.valid; unlocked = w.unlocked }) in
    let k = read_room s.ring (packet_size s.method) / 188 in
    (
      put-IsWhole s.ring k w (omega arith) (omega arith),
      method,
      stream-runs sends (sent sends s) (record s { ring = held sends s }) takes,
      same,
      omega (arith, put-size s.ring (k * 188) w.valid (omega arith) (omega arith)),
    )

-- The loop of `output_stream_thread`, `n` rounds of it.
unfoldable pub rounds : (List ℕ → Answer) → ℕ → Stream → Option Stream
unfolding send_round
rounds sends zero s = some s
rounds sends (suc n) s =
    if s.f_kill_thread then some s else do t ← send_round sends s; rounds sends n t

rounds_step :
    (sends : List ℕ → Answer) (n : ℕ) (s t : Stream) {o : Option Stream}
    → s.f_kill_thread ≡ false
    → send_round sends s ≡ some t
    → rounds sends n t ≡ o
    → rounds sends (suc n) s ≡ o
unfolding rounds
rounds_step sends n s t on ran rest = rw (ran, on) rest

-- Rounds that find too little change nothing.
rounds_idle :
    (sends : List ℕ → Answer) (n : ℕ) (s : Stream)
    → s.f_kill_thread ≡ false
    → s.ring.locked ≡ false
    → size_of s.ring < packet_size s.method
    → rounds sends n s ≡ some s
rounds_idle sends zero s on unlocked short = unfold rounds in refl
rounds_idle sends (suc n) s on unlocked short =
    rounds_step sends n s s on (send_round-waits sends s unlocked short)
      (rounds_idle sends n s on unlocked short)

-- From a ring of whole packets, the rounds of a thread that is not told to end come to an end of what they
-- can send, where no answer of the target is one that stops the stream; for an UDP target, none is. A
-- number of rounds that is at least the number of the packets held is enough: the ring then holds less than
-- one sending takes, and all else was handed to the calls for the target, in order.
pub rounds_drain :
    (sends : List ℕ → Answer) (n : ℕ) (s : Stream)
    → IsWhole s.ring
    → s.f_kill_thread ≡ false
    → ((src : List ℕ) → goes_on s.method (length src) (sends src).ret ≡ true)
    → size_of s.ring ≤ n * 188
    → (t : Stream) × (rounds sends n s ≡ some t)
      × (size_of t.ring < packet_size s.method)
      × (in_order t.handed ++ contents t.ring ≡ in_order s.handed ++ contents s.ring)
      × IsWhole t.ring
unfolding flow
rounds_drain sends zero s w on takes bound =
    (s, unfold rounds in refl, omega (arith, packet_size_bound s.method), refl, w)
rounds_drain sends (suc n) s w on takes bound =
    elim (Bool-cases (ltb (size_of s.ring) (packet_size s.method))) [
      | inl e ↦
          let short = ltb→lt (size_of s.ring) (packet_size s.method) e in
          (s, rounds_idle sends (suc n) s on w.unlocked short, short, refl, w)
      | inr e ↦
          let enough = ltb-ge (size_of s.ring) (packet_size s.method) e in
          let (whole, method, still_on, same, less) =
            after-sends sends s w enough (takes (sent sends s)) in
          let t = after sends s in
          let ran = send_round-sends sends s w.unlocked enough in
          let (u, ran_on, rest, all, still) =
            rounds_drain sends n t whole (still_on ∙ on) (rw (method) takes) (omega arith) in
          (
            u,
            rounds_step sends n s t on ran ran_on,
            subst (λ m. size_of u.ring < packet_size m) method rest,
            all ∙ same,
            still,
          )
    ]
