-- ===== src/Output/Round.antt =====
-- What `push` and a round of the thread do with the bytes of a stream.
use libdvbtee.Base.{
  ℕ, zero, suc, ◌+◌, ◌*◌, ◌/◌, ◌%◌, ◌^◌, ◌≤◌, ◌<◌, ◌≡◌, refl, sym, true, false, some, List, [], ◌∷◌,
  ◌++◌, arith, ≢→==, ltb, ltb→lt, leb, lt→ltb, length, take, drop, Bool-cases, inl, inr,
}
use mathlib.Core.List.{append-nil, append_assoc}
use libdvbtee.Rbuf
use libdvbtee.Rbuf.{Rbuf, size_of, read_room, advance_read}
use libdvbtee.Rbuf.Contents.{IsValid, contents}
use libdvbtee.Rbuf.Write.{write_grows}
use libdvbtee.Rbuf.Read.{read_room_bounds, advance_read-IsValid, advance_read-contents}
use libdvbtee.Output.Stream.{
  Stream, Answer, packet_size, push, stream, stop_without_wait, send_round, goes_on,
}

-- All the texts of a list whose latest is first, in order.
unfoldable pub in_order : List (List ℕ) → List ℕ
in_order [] = []
in_order (src ∷ earlier) = in_order earlier ++ src

-- A ring whose contents are well formed and whose mutex is free.
pub record IsReady (s : Stream) : Type 0 where
  pub valid : IsValid s.ring
  pub unlocked : s.ring.locked ≡ false

ge→ltb : (a b : ℕ) → b ≤ a → ltb a b ≡ false
ge→ltb a b enough = ground arith

get_size_lem : (b : Rbuf) → b.locked ≡ false → Rbuf.get_size b ≡ some (size_of b, b)
unfolding Rbuf.get_size Rbuf.lock Rbuf.unlock size_of
get_size_lem b unlocked = rw unlocked refl

-- A round that finds too little changes nothing.
pub send_round-waits :
    (sends : List ℕ → Answer) (s : Stream)
    → s.ring.locked ≡ false
    → size_of s.ring < packet_size s.method
    → send_round sends s ≡ some s
unfolding send_round
send_round-waits sends s unlocked short =
    rw (get_size_lem s.ring unlocked, lt→ltb (size_of s.ring) (packet_size s.method) short) refl

take-none : (n : ℕ) → take {A = ℕ} n [] ≡ []
take-none zero = refl
take-none (suc n) = refl

stream-handed :
    (sends : List ℕ → Answer) (src : List ℕ) (s : Stream)
    → (in_order (stream sends src s).handed ≡ in_order s.handed ++ src)
      × (in_order (stream sends src s).taken ≡ in_order s.taken ++ take (sends src).accepted src)
      × ((stream sends src s).ring ≡ s.ring)
      × ((stream sends src s).method ≡ s.method)
unfolding stream stop_without_wait in_order
stream-handed sends [] s = (
  sym (append-nil (in_order s.handed)),
  rw take-none (sym (append-nil (in_order s.taken))),
  refl,
  refl,
)
stream-handed sends (x ∷ src) s =
    elim (Bool-cases (goes_on s.method (length (x ∷ src)) (sends (x ∷ src)).ret)) [
      | inl e ↦ rw (≢→== (length (x ∷ src)) 0 (ground arith), e) (refl, refl, refl, refl)
      | inr e ↦ rw (≢→== (length (x ∷ src)) 0 (ground arith), e) (refl, refl, refl, refl)
    ]

pub stream-runs :
    (sends : List ℕ → Answer) (src : List ℕ) (s : Stream)
    → goes_on s.method (length src) (sends src).ret ≡ true
    → (stream sends src s).f_kill_thread ≡ s.f_kill_thread
unfolding stream
stream-runs sends [] s takes = refl
stream-runs sends (x ∷ src) s takes = rw (≢→== (length (x ∷ src)) 0 (ground arith), takes) refl

-- What a round that finds enough does.
module _ (sends : List ℕ → Answer) (s : Stream) where
  unfoldable pub held : Rbuf
  held = record s.ring { locked = true }

  unfoldable pub sent_size : ℕ
  sent_size = read_room s.ring (packet_size s.method) / 188 * 188

  unfoldable pub sent : List ℕ
  sent = take sent_size (drop s.ring.idx_read s.ring.bytes)

  unfoldable pub sent_stream : Stream
  sent_stream = stream sends sent (record s { ring = held })

  unfoldable pub after : Stream
  after = record sent_stream {
    ring = Rbuf.put_read_ptr held sent_size;
    count_out = (sent_stream.count_out + sent_size) % 2 ^ 64;
  }

  room-held : read_room held (packet_size s.method) ≡ read_room s.ring (packet_size s.method)
  unfolding read_room size_of held
  room-held = refl

  pub send_round-sends :
      s.ring.locked ≡ false
      → packet_size s.method ≤ size_of s.ring
      → send_round sends s ≡ some after
  unfolding send_round Rbuf.get_read_ptr Rbuf.put_read_ptr Rbuf.lock Rbuf.unlock after sent
      sent_stream sent_size held read_room size_of
  send_round-sends unlocked enough = ground (arith, unlocked, get_size_lem s.ring unlocked)

-- What the calls of a stream were handed, and what its ring holds, in order.
unfoldable pub flow : Stream → List ℕ
flow s = in_order s.handed ++ contents s.ring

whole_part : (n : ℕ) → n / 188 * 188 ≤ n
whole_part n = omega arith

pub put_read_ptr_lem :
    (b : Rbuf) (n : ℕ)
    → Rbuf.put_read_ptr (record b { locked = true }) n
      ≡ record (advance_read b n) { locked = false }
unfolding Rbuf.put_read_ptr Rbuf.unlock advance_read
put_read_ptr_lem b n = elim (Bool-cases (leb b.capacity (b.idx_read + n))) [
  | inl e ↦ rw e refl
  | inr e ↦ rw e refl
]

pub after-contents :
    (b : Rbuf) (n : ℕ)
    → IsValid b
    → n ≤ size_of b
    → b.idx_read + n ≤ b.capacity
    → (contents b
        ≡ take n (drop b.idx_read b.bytes)
          ++ contents (Rbuf.put_read_ptr (record b { locked = true }) n))
      × IsValid (Rbuf.put_read_ptr (record b { locked = true }) n)
      × ((Rbuf.put_read_ptr (record b { locked = true }) n).locked ≡ false)
after-contents b n v small inside =
    let v' = advance_read-IsValid n v in
    rw put_read_ptr_lem (
      advance_read-contents n v small inside,
      record { storage = v'.storage; read_in = v'.read_in; write_in = v'.write_in },
      refl,
    )

pub after-flow :
    (sends : List ℕ → Answer) (s : Stream)
    → IsReady s
    → (flow (after sends s) ≡ flow s)
      × IsReady (after sends s)
      × ((after sends s).method ≡ s.method)
      × (contents s.ring ≡ sent sends s ++ contents (after sends s).ring)
      × (in_order (after sends s).taken
          ≡ in_order s.taken ++ take (sends (sent sends s)).accepted (sent sends s))
unfolding after sent_stream flow held sent sent_size
after-flow sends s ready =
    let (handed, taken, _, method) =
      stream-handed sends (sent sends s) (record s { ring = held sends s }) in
    let (_, small, inside) = read_room_bounds s.ring (packet_size s.method) ready.valid in
    let fits : sent_size sends s ≤ read_room s.ring (packet_size s.method) =
      whole_part (read_room s.ring (packet_size s.method)) in
    let (same, valid, unlocked) =
      after-contents s.ring (sent_size sends s) ready.valid (omega arith) (omega arith) in
    (
      rw (handed, same, append_assoc) refl,
      record { valid = valid; unlocked = unlocked },
      method,
      same,
      taken,
    )

pub ltb-ge : (a b : ℕ) → ltb a b ≡ false → b ≤ a
ltb-ge a b e = ground arith

-- A round of the thread on a stream whose ring is well formed returns. It keeps the ring well formed, and takes
-- from its front what it hands to the call; the target takes of that what it accepts.
pub send_round-flow :
    (sends : List ℕ → Answer) (s : Stream)
    → IsReady s
    → (t : Stream) × (send_round sends s ≡ some t)
      × IsReady t
      × ((src : List ℕ) × (contents s.ring ≡ src ++ contents t.ring)
          × (in_order t.taken ≡ in_order s.taken ++ take (sends src).accepted src))
send_round-flow sends s ready = elim (Bool-cases (ltb (size_of s.ring) (packet_size s.method))) [
  | inl e ↦ (
    s,
    send_round-waits sends s ready.unlocked (ltb→lt (size_of s.ring) (packet_size s.method) e),
    ready,
    ([], refl, rw take-none (sym (append-nil (in_order s.taken)))),
  )
  | inr e ↦
      let (_, kept, _, front, taken) = after-flow sends s ready in
      (
        after sends s,
        send_round-sends sends s ready.unlocked (ltb-ge (size_of s.ring) (packet_size s.method) e),
        kept,
        (sent sends s, front, taken),
      )
]

-- A text that leaves a byte free is behind what the ring held, and no call is made.
pub push-flow :
    (src : List ℕ) (s : Stream)
    → IsReady s
    → size_of s.ring + length src < s.ring.capacity
    → (t : Stream) × (push src s ≡ some (true, t))
      × (flow t ≡ flow s ++ src)
      × IsReady t
      × (contents t.ring ≡ contents s.ring ++ src)
      × (t.taken ≡ s.taken)
unfolding push flow
push-flow src s ready free =
    let (b, ran, grown, valid, unlocked, _, _) = write_grows src ready.valid ready.unlocked free in
    (
      record s { ring = b; count_in = (s.count_in + length src) % 2 ^ 64 },
      rw ran refl,
      rw grown (sym (append_assoc (in_order s.handed) (contents s.ring) src)),
      record { valid = valid; unlocked = unlocked },
      grown,
      refl,
    )
