-- ===== src/Output/Reclaim.antt =====
-- `output::check` and `output::reclaim_resources`: which streams stay.
use libdvbtee.Base.{
  ℕ, zero, suc, ◌≤◌, ◌≡◌, ◌∙◌, refl, sym, none, some, [], ◌∷◌, not, subst, arith, inl, inr, ◌==◌,
  if◌then◌else◌, length, Bool-cases, Option-cases,
}
use mathlib.Core.Option.{some-injective}
use libdvbtee.Base.Dict.{Dict}
use libdvbtee.Output.Stream
use libdvbtee.Output.Stream.{Stream}
use libdvbtee.Output.Targets.{Output, erase_dead, reclaim, some_alive, check}

-- The streams of which `check` is true, in the order of their ids.
unfoldable pub alive : Dict Stream → Dict Stream
alive [] = []
alive ((id, s) ∷ m) = if Stream.check s then (id, s) ∷ alive m else alive m

erase_dead-none : (m : Dict Stream) → erase_dead m ≡ none → alive m ≡ m
unfolding erase_dead alive
erase_dead-none [] e = refl
erase_dead-none ((id, s) ∷ m) e = ground (arith, erase_dead-none m)

erase_dead-some :
    (m rest : Dict Stream)
    → erase_dead m ≡ some rest
    → (alive rest ≡ alive m) × (length m ≡ suc (length rest))
unfolding erase_dead alive
erase_dead-some [] rest e = absurd (ground (arith, e))
erase_dead-some ((id, s) ∷ m) rest e = elim (Bool-cases (Stream.check s)) [
  | inl on ↦ elim (Option-cases (erase_dead m)) [
    | inl nil ↦ absurd (ground (arith, e, on, nil))
    | inr (more, found) ↦
        let (same, shorter) = erase_dead-some m more found in
        let front : (id, s) ∷ more ≡ rest =
          some-injective ((id, s) ∷ more) rest (ground (arith, e, on, found)) in
        subst (λ r. (alive r ≡ alive ((id, s) ∷ m)) × (length ((id, s) ∷ m) ≡ suc (length r))) front
          (rw (on, same) refl, omega (arith, shorter))
  ]
  | inr off ↦
      let tail : m ≡ rest = some-injective m rest (ground (arith, e, off)) in
      subst (λ r. (alive r ≡ alive ((id, s) ∷ m)) × (length ((id, s) ∷ m) ≡ suc (length r))) tail
        (rw off refl, refl)
]

reclaim-alive : (n : ℕ) (m : Dict Stream) → length m ≤ n → reclaim n m ≡ alive m
unfolding reclaim
reclaim-alive zero [] enough = unfold alive in refl
reclaim-alive zero (e ∷ m) enough = absurd (omega arith)
reclaim-alive (suc n) m enough = elim (Option-cases (erase_dead m)) [
  | inl e ↦ rw (e, reclaim) (sym (erase_dead-none m e))
  | inr (rest, e) ↦
      let (same, shorter) = erase_dead-some m rest e in
      rw (e, reclaim) (reclaim-alive n rest (omega arith) ∙ same)
]

some_alive_lem : (m : Dict Stream) → some_alive m ≡ not (length (alive m) == 0)
unfolding some_alive alive
some_alive_lem [] = refl
some_alive_lem ((id, s) ∷ m) = ground (arith, some_alive_lem m)

-- `check` keeps the streams that stream, or over which nothing has come or gone, in their order, and no
-- other: the calls of `reclaim_resources` by itself end, and the fuel is enough. It returns whether one is kept.
pub check_lem :
    (o : Output)
    → check o ≡ (not (length (alive o.streams) == 0), record o { streams = alive o.streams })
unfolding check
check_lem o =
    rw (some_alive_lem o.streams, reclaim-alive (length o.streams) o.streams (omega arith)) refl
