-- ===== src/Output/Full.antt =====
-- What a stream does with a packet while its target stalls.
use libdvbtee.Base.{
  ℕ, ◌+◌, ◌%◌, ◌^◌, ◌≤◌, ◌<◌, ◌≡◌, ◌⊎◌, inl, inr, refl, true, some, List, [], ◌++◌, arith, length,
  Bool-cases, ltb, ltb→lt,
}
use libdvbtee.Rbuf.{Rbuf, size_of}
use libdvbtee.Rbuf.Contents.{IsValid, contents}
use libdvbtee.Rbuf.Write.{write_grows, write_fills}
use libdvbtee.Output.Stream.{Stream, push}
use libdvbtee.Output.Round.{ltb-ge}
use libdvbtee.Output.Drains.{IsWhole}

size_inside : (b : Rbuf) → IsValid b → 0 < b.capacity → size_of b < b.capacity
unfolding size_of
size_inside b v some_room = ground (arith, v.read_in, v.write_in)

free_whole : (c n : ℕ) → c % 188 ≡ 0 → n % 188 ≡ 0 → n < c → n + 188 ≤ c
free_whole c n hc hn inside = omega arith

-- A stream whose ring holds whole packets, and has a capacity, never refuses one more: `push` returns true.
-- The packet is behind what the ring held where that leaves a packet's room, and where it takes the last
-- room, the ring then reads as empty: all that it held is lost, and the packet as well.
pub push_whole :
    (src : List ℕ) (s : Stream)
    → IsWhole s.ring
    → 0 < s.ring.capacity
    → length src ≡ 188
    → (t : Stream) × (push src s ≡ some (true, t))
      × (t.handed ≡ s.handed)
      × (((size_of s.ring + 188 < s.ring.capacity) × (contents t.ring ≡ contents s.ring ++ src))
          ⊎ ((size_of s.ring + 188 ≡ s.ring.capacity)
              × (size_of t.ring ≡ 0)
              × (contents t.ring ≡ [])))
unfolding push
push_whole src s w some_room packet =
    elim (Bool-cases (ltb (size_of s.ring + 188) s.ring.capacity)) [
      | inl e ↦
          let free = ltb→lt (size_of s.ring + 188) s.ring.capacity e in
          let (b, ran, grown, _, _, _, _) = write_grows src w.valid w.unlocked (omega arith) in
          (
            record s { ring = b; count_in = (s.count_in + length src) % 2 ^ 64 },
            rw ran refl,
            refl,
            inl (free, grown),
          )
      | inr e ↦
          let room =
            free_whole s.ring.capacity (size_of s.ring) w.storage w.held
              (size_inside s.ring w.valid some_room) in
          let full : size_of s.ring + 188 ≡ s.ring.capacity =
            omega (arith, room, ltb-ge (size_of s.ring + 188) s.ring.capacity e) in
          let (b, ran, (empty, lost)) =
            write_fills src w.valid w.unlocked (omega arith) (omega arith) in
          (
            record s { ring = b; count_in = (s.count_in + length src) % 2 ^ 64 },
            rw ran refl,
            refl,
            inr (full, empty, lost),
          )
    ]
