-- ===== src/Output/Delivers.antt =====
-- What a stream's target takes: the texts that were pushed, in order, or less.
use libdvbtee.Base.{
  ℕ, ◌+◌, ◌≤◌, ◌<◌, ◌≡◌, ◌∙◌, refl, sym, ap, subst, Bool, true, false, some, List, [], ◌∷◌, ◌++◌,
  zero, suc, arith, length, take,
}
use mathlib.Core.List.{append-nil, append_assoc}
use mathlib.Core.Option.{some-injective}
use libdvbtee.Rbuf.{size_of}
use libdvbtee.Rbuf.Contents.{contents}
use libdvbtee.Output.Stream.{Stream, Answer, push, send_round}
use libdvbtee.Output.Round.{IsReady, in_order, push-flow, send_round-flow, sent}

-- The steps of a stream: what was pushed, and what the stream is then. Its thread makes rounds until it is
-- told to end.
pub data Run (sends : List ℕ → Answer) (s : Stream) : List ℕ → Stream → Type 0 where
  begins : Run sends s [] s
  pushes :
      {xs : List ℕ} {t u : Stream} (src : List ℕ)
      → Run sends s xs t
      → size_of t.ring + length src < t.ring.capacity
      → push src t ≡ some (true, u)
      → Run sends s (xs ++ src) u
  sends_on :
      {xs : List ℕ} {t u : Stream}
      → Run sends s xs t
      → t.f_kill_thread ≡ false
      → send_round sends t ≡ some u
      → Run sends s xs u

take_all : {A : Type 0} (n : ℕ) (xs : List A) → length xs ≤ n → take n xs ≡ xs
take_all zero [] enough = refl
take_all (suc n) [] enough = refl
take_all zero (x ∷ xs) enough = absurd (ground arith)
take_all (suc n) (x ∷ xs) enough = ap (λ ys. x ∷ ys) (take_all n xs (ground arith))

-- What the target took, and what is still to be sent.
unfoldable pub reached : Stream → List ℕ
reached s = in_order s.taken ++ contents s.ring

reached-more :
    (s t : Stream) (src : List ℕ)
    → contents t.ring ≡ contents s.ring ++ src
    → t.taken ≡ s.taken
    → reached t ≡ reached s ++ src
unfolding reached
reached-more s t src grown taken = rw (taken, grown, append_assoc) refl

module _ (sends : List ℕ → Answer) (all : (src : List ℕ) → length src ≤ (sends src).accepted) where
  send_round-reached :
      (s : Stream)
      → IsReady s
      → (t : Stream) × (send_round sends s ≡ some t) × (reached t ≡ reached s) × IsReady t
  unfolding reached
  send_round-reached s ready =
      let (t, ran, kept, (src, front, taken)) = send_round-flow sends s ready in
      (
        t,
        ran,
        rw (taken, take_all (sends src).accepted src (all src), front)
            (append_assoc (in_order s.taken) src (contents t.ring)),
        kept,
      )

  run-reached :
      (s : Stream) {xs : List ℕ} {u : Stream}
      → IsReady s
      → Run sends s xs u
      → (reached u ≡ reached s ++ xs) × IsReady u
  run-reached s ready begins = (sym (append-nil (reached s)), ready)
  run-reached s ready (pushes {xs = xs} {t = t} {u = u} src run free ran) =
      let (same, kept) = run-reached s ready run in
      let (v, pushed, _, still, grown, taken) = push-flow src t kept free in
      let v≡u : v ≡ u = ap proj (some-injective (true, v) (true, u) (sym pushed ∙ ran)) in
      subst (λ w. (reached w ≡ reached s ++ (xs ++ src)) × IsReady w) v≡u
        (reached-more t v src grown taken ∙ rw (same, append_assoc) refl, still)
    where
      proj : Bool × Stream → Stream
      proj p = p.1
  run-reached s ready (sends_on {xs = xs} {t = t} {u = u} run on ran) =
      let (same, kept) = run-reached s ready run in
      let (v, sent, more, still) = send_round-reached t kept in
      let v≡u : v ≡ u = some-injective v u (sym sent ∙ ran) in
      subst (λ w. (reached w ≡ reached s ++ xs) × IsReady w) v≡u (more ∙ same, still)

-- From a stream whose ring is well formed, where each call takes all that it is handed, whatever texts are
-- pushed, each leaving a byte of the ring free, and whenever the thread makes its rounds between them: the
-- bytes that the target took, followed by those that the ring still holds, are what they were at
-- first and then all that was pushed, in order.
pub run_delivers :
    (sends : List ℕ → Answer) (s : Stream) {xs : List ℕ} {u : Stream}
    → ((src : List ℕ) → length src ≤ (sends src).accepted)
    → IsReady s
    → Run sends s xs u
    → in_order u.taken ++ contents u.ring ≡ (in_order s.taken ++ contents s.ring) ++ xs
unfolding reached
run_delivers sends s all ready run = (run-reached sends all s ready run).0
