-- ===== src/Output/Register.antt =====
-- `output::add` and `search` for any way of naming a target: the stream that was added is found.
use libdvbtee.Base.{
  ℕ, ◌+◌, ◌≡◌, ◌∙◌, refl, sym, ap, Bool, true, false, Option, none, some, [], ◌∷◌, arith, inl, inr,
  if◌then◌else◌, Bool-cases, Option-cases,
}
use mathlib.Core.Option.{some-injective}
use libdvbtee.Base.Dict
use libdvbtee.Base.Dict.{Dict}
use libdvbtee.Output.Stream.{Stream, new_stream}
use libdvbtee.Output.Targets.{Output, search_by, register, register_once}

-- A stream that `verify` accepts, put among streams that it does not, is the one found.
pub search_by-insert :
    (verify : Stream → Bool) (id : ℕ) (s : Stream) (m : Dict Stream)
    → search_by verify m ≡ none
    → verify s ≡ true
    → search_by verify (Dict.insert id s m) ≡ some id
unfolding search_by Dict.insert
search_by-insert verify id s [] nothing ok = rw ok refl
search_by-insert verify id s ((j, t) ∷ m) nothing ok = elim (Bool-cases (verify t)) [
  | inl on ↦ absurd (ground (arith, nothing, on))
  | inr off ↦
      let rest : search_by verify m ≡ none = ground (arith, nothing, off) in
      ground (arith, ok, off, search_by-insert verify id s m rest ok)
]

-- What `register` leaves, by what `setup` does.
pub register-set :
    (setup : Stream → Option (Bool × Stream)) (o : Output) (ok : Bool) (s : Stream)
    → setup (Dict.get_or o.num_targets o.streams new_stream) ≡ some (ok, s)
    → register setup o ≡ (
        let placed : Output = record o { streams = Dict.insert o.num_targets s o.streams } in
        if ok
        then some (some o.num_targets, record placed { num_targets = o.num_targets + 1 })
        else some (none, placed))
unfolding register
register-set setup o ok s ran = rw ran refl

pub register-found :
    (verify : Stream → Bool) (setup : Stream → Option (Bool × Stream)) (o o' : Output) (id : ℕ)
    → ((s t : Stream) → setup s ≡ some (true, t) → verify t ≡ true)
    → search_by verify o.streams ≡ none
    → register setup o ≡ some (some id, o')
    → search_by verify o'.streams ≡ some id
unfolding register
register-found verify setup o o' id kept nothing ran =
    elim (Option-cases (setup (Dict.get_or o.num_targets o.streams new_stream))) [
      | inl stuck ↦ absurd (ground (arith, ran, stuck))
      | inr ((false, s), fails) ↦ absurd (ground (arith, ran, fails))
      | inr ((true, s), works) ↦
          let same = sym (register-set setup o true s works) ∙ ran in
          let pair =
            some-injective
              (
                some o.num_targets,
                record o {
                  streams = Dict.insert o.num_targets s o.streams;
                  num_targets = o.num_targets + 1;
                },
              )
              (some id, o') same in
          let ids : o.num_targets ≡ id = some-injective o.num_targets id (ap (λ p. p.0) pair) in
          let kept_all : Dict.insert o.num_targets s o.streams ≡ o'.streams =
            ap (λ p. Output.streams p.1) pair in
          ap (search_by verify) (sym kept_all)
          ∙ search_by-insert verify o.num_targets s o.streams nothing
              (kept (Dict.get_or o.num_targets o.streams new_stream) s works)
          ∙ ap some ids
    ]

-- A `register` that gives no id leaves the stream on which `setup` failed.
pub register-failed :
    (setup : Stream → Option (Bool × Stream)) (o o' : Output)
    → register setup o ≡ some (none, o')
    → (t : Stream) × (setup (Dict.get_or o.num_targets o.streams new_stream) ≡ some (false, t))
      × (record o { streams = Dict.insert o.num_targets t o.streams } ≡ o')
unfolding register
register-failed setup o o' ran =
    elim (Option-cases (setup (Dict.get_or o.num_targets o.streams new_stream))) [
      | inl stuck ↦ absurd (ground (arith, ran, stuck))
      | inr ((true, t), works) ↦ absurd (ground (arith, ran, works))
      | inr ((false, t), fails) ↦ (
        t,
        fails,
        ap (λ (p : Option ℕ × Output). p.1)
            (some-injective (none, record o { streams = Dict.insert o.num_targets t o.streams })
              (none, o') (sym (register-set setup o false t fails) ∙ ran)),
      )
    ]

pub once-found :
    (verify : Stream → Bool) (setup : Stream → Option (Bool × Stream)) (o : Output) (id : ℕ)
    → search_by verify o.streams ≡ some id
    → register_once verify setup o ≡ some (some id, o)
unfolding register_once
once-found verify setup o id found = rw (found, register_once) refl

pub once-register :
    (verify : Stream → Bool) (setup : Stream → Option (Bool × Stream)) (o : Output)
    → search_by verify o.streams ≡ none
    → register_once verify setup o ≡ register setup o
unfolding register_once
once-register verify setup o nothing = rw (nothing, register_once) refl

-- What a call with its own search does when another follows that looks for the same.
pub again :
    (verify : Stream → Bool) (setup setup' : Stream → Option (Bool × Stream)) (o o' : Output)
    (id : ℕ)
    → ((s t : Stream) → setup s ≡ some (true, t) → verify t ≡ true)
    → register_once verify setup o ≡ some (some id, o')
    → register_once verify setup' o' ≡ some (some id, o')
again verify setup setup' o o' id kept ran = elim (Option-cases (search_by verify o.streams)) [
  | inl nothing ↦ once-found verify setup' o' id (
      register-found verify setup o o' id kept nothing
        (sym (once-register verify setup o nothing) ∙ ran))
  | inr (there, found) ↦
      let same =
        some-injective (some there, o) (some id, o')
          (sym (once-found verify setup o there found) ∙ ran) in
      once-found verify setup' o' id
        (sym (ap (λ p. search_by verify (Output.streams p.1)) same) ∙ found ∙ ap (λ p. p.0) same)
]
