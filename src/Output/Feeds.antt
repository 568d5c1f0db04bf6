-- ===== src/Output/Feeds.antt =====
-- `output::push`: what each stream of an output gets.
use libdvbtee.Base.{
  ℕ, ◌+◌, ◌%◌, ◌^◌, ◌<◌, ◌≡◌, ◌⊎◌, refl, true, false, some, List, [], ◌∷◌, ◌++◌, arith, inl, inr,
  length, Bool-cases,
}
use libdvbtee.Base.Dict.{Dict}
use libdvbtee.Rbuf
use libdvbtee.Rbuf.{◌>>=◌, size_of}
use libdvbtee.Rbuf.Contents.{contents}
use libdvbtee.Output.Stream.{Stream, is_streaming}
use libdvbtee.Output.Targets.{Output, push, push_streams}
use libdvbtee.Output.Round.{IsReady, in_order, flow, push-flow}

-- Each stream that is streaming has its ring in order, and room for the text and a byte more.
abbrev pub HaveRoom : List ℕ → Dict Stream → Type 0
HaveRoom src [] = Unit
HaveRoom src ((_, s) ∷ m) =
    ((is_streaming s ≡ false) ⊎ (IsReady s × (size_of s.ring + length src < s.ring.capacity)))
    × HaveRoom src m

-- The streams before and after: one that is streaming has got the text behind all that it had, and
-- any other is as it was.
pub data Fed (src : List ℕ) : Dict Stream → Dict Stream → Type 0 where
  nobody : Fed src [] []
  is_fed :
      {id : ℕ} {s t : Stream} {m m' : Dict Stream}
      → is_streaming s ≡ true
      → in_order t.handed ++ contents t.ring ≡ (in_order s.handed ++ contents s.ring) ++ src
      → Fed src m m'
      → Fed src ((id, s) ∷ m) ((id, t) ∷ m')
  is_passed :
      {id : ℕ} {s : Stream} {m m' : Dict Stream}
      → is_streaming s ≡ false
      → Fed src m m'
      → Fed src ((id, s) ∷ m) ((id, s) ∷ m')

push_streams-Fed :
    (src : List ℕ) (m : Dict Stream)
    → HaveRoom src m
    → (m' : Dict Stream) × (push_streams src m ≡ some m') × Fed src m m'
unfolding push_streams flow
push_streams-Fed src [] room = ([], refl, nobody)
push_streams-Fed src ((id, s) ∷ m) room = elim (Bool-cases (is_streaming s)) [
  | inr off ↦
      let (m', ran, fed) = push_streams-Fed src m room.1 in
      ((id, s) ∷ m', rw (off, ran) refl, is_passed off fed)
  | inl on ↦ elim room.0 [
    | inl off ↦ absurd (ground (arith, on, off))
    | inr (ready, free) ↦
        let (m', ran, fed) = push_streams-Fed src m room.1 in
        let (t, pushed, more, _, _, _) = push-flow src s ready free in
        ((id, t) ∷ m', rw (on, pushed, ran) refl, is_fed on more fed)
  ]
]

-- Where the class has no ring of its own and each stream that is streaming has room, `push` returns true
-- and hands the text to each of these streams, behind all that it had got before; the others stay as
-- they are, and the bytes are counted once.
pub push_feeds :
    (src : List ℕ) (o : Output)
    → o.ring.capacity ≡ 0
    → HaveRoom src o.streams
    → (o' : Output) × (push src o ≡ some (true, o'))
      × Fed src o.streams o'.streams
      × (o'.count_in ≡ (o.count_in + length src) % 2 ^ 64)
unfolding push Rbuf.get_capacity
push_feeds src o unbuffered room =
    let (m', ran, fed) = push_streams-Fed src o.streams room in
    (
      record o { streams = m'; count_in = (o.count_in + length src) % 2 ^ 64 },
      rw (ran, unbuffered) refl,
      fed,
      refl,
    )
