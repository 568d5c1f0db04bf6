-- ===== src/Output/Loses.antt =====
-- What becomes of bytes that a call does not take.
use libdvbtee.Base.{
  ℕ, ◌+◌, ◌≤◌, ◌≡◌, ◌∙◌, sym, ap, true, some, List, ◌++◌, arith, length, take, length-append,
}
use libdvbtee.Rbuf.{size_of}
use libdvbtee.Rbuf.Contents.{contents, length-contents}
use libdvbtee.Output.Stream.{Stream, Answer, packet_size, send_round, goes_on}
use libdvbtee.Output.Round.{in_order, send_round-sends, after, sent, after-flow}
use libdvbtee.Output.Drains.{IsWhole, after-sends}

-- A round that finds enough in a ring of whole packets, and gets an answer that does not stop the stream: what it
-- hands to the call, a packet at least, leaves the ring, but the target gets only what the call takes of
-- it. The rest is in neither, and the stream goes on.
pub short_send_loses :
    (sends : List ℕ → Answer) (s : Stream)
    → IsWhole s.ring
    → packet_size s.method ≤ size_of s.ring
    → ((src : List ℕ) → goes_on s.method (length src) (sends src).ret ≡ true)
    → (src : List ℕ) × (t : Stream) × (send_round sends s ≡ some t)
      × (188 ≤ length src)
      × (contents s.ring ≡ src ++ contents t.ring)
      × (in_order t.taken ≡ in_order s.taken ++ take (sends src).accepted src)
      × (t.f_kill_thread ≡ s.f_kill_thread)
short_send_loses sends s w enough goes =
    let (_, _, _, front, taken) =
      after-flow sends s (record { valid = w.valid; unlocked = w.unlocked }) in
    let (whole, _, on, _, less) = after-sends sends s w enough (goes (sent sends s)) in
    let total : size_of s.ring ≡ length (sent sends s) + size_of (after sends s).ring =
      sym (length-contents w.valid)
      ∙ ap length front
      ∙ length-append (sent sends s) (contents (after sends s).ring)
      ∙ ap (λ n. length (sent sends s) + n) (length-contents whole.valid) in
    (
      sent sends s,
      after sends s,
      send_round-sends sends s w.unlocked enough,
      omega (arith, total, less),
      front,
      taken,
      on,
    )
