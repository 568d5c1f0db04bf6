-- ===== src/Output/Kept.antt =====
-- What `add` of a stream leaves is found by what it was added by.
use libdvbtee.Base.{
  ℕ, ◌≤◌, ◌≡◌, ◌∙◌, refl, ap, subst, Bool, true, false, Option, none, some, List, [], ◌∷◌, arith,
  inl, inr, length, take, take_of_length-le, Option-cases,
}
use mathlib.Core.Option.{some-injective, none-ne-some}
use libdvbtee.Base.Dict.{Dict}
use libdvbtee.Rbuf
use libdvbtee.Rbuf.{Rbuf, ◌>>=◌}
use libdvbtee.Output.Stream.{Stream, Method, set_pids}
use libdvbtee.Output.Setup.{
  System, Place, to_file, to_socket, open_place, parse_target, is_stdout, add_func, add_intf,
  add_socket, add_target, verify_func, verify_intf, verify_socket, verify_target, same_bytes,
}
use libdvbtee.Output.Targets.{succeeds}

same_bytes_refl : (xs : List ℕ) → same_bytes xs xs ≡ true
unfolding same_bytes
same_bytes_refl [] = refl
same_bytes_refl (x ∷ xs) = ground (arith, same_bytes_refl xs)

bind-some :
    {A B : Type 0} (o : Option A) (f : A → Option B) {b : B}
    → (o >>= f) ≡ some b
    → (a : A) × (f a ≡ some b)
bind-some none f e = absurd (none-ne-some _ e)
bind-some (some a) f e = (a, e)

-- What `add` for a callback leaves is found by that callback, and so on.
succeeds_inv :
    (f : Stream → Option Stream) (s t : Stream) → succeeds f s ≡ some (true, t) → f s ≡ some t
succeeds_inv f s t ran = elim (Option-cases (f s)) [
  | inl stuck ↦ absurd (ground (arith, ran, stuck))
  | inr (u, works) ↦
      works ∙ ap some (ap snd (some-injective (true, u) (true, t) (ground (arith, ran, works))))
]
  where
    snd : Bool × Stream → Stream
    snd p = p.1

pub func_kept :
    (priv callback : ℕ) (pids : Dict ℕ) (s t : Stream)
    → succeeds (add_func priv callback pids) s ≡ some (true, t)
    → verify_func priv callback t ≡ true
unfolding add_func verify_func set_pids
func_kept priv callback pids s t ran =
    let (ring, e) =
      bind-some (Rbuf.reset s.ring) (λ ring. some _)
        (succeeds_inv (add_func priv callback pids) s t ran) in
    subst (λ u. verify_func priv callback u ≡ true) (some-injective _ t e) (ground arith)

pub intf_kept :
    (iface : ℕ) (pids : Dict ℕ) (s t : Stream)
    → succeeds (add_intf iface pids) s ≡ some (true, t)
    → verify_intf iface t ≡ true
unfolding add_intf verify_intf set_pids
intf_kept iface pids s t ran =
    let (ring, e) =
      bind-some (Rbuf.reset s.ring) (λ ring. some _) (succeeds_inv (add_intf iface pids) s t ran) in
    subst (λ u. verify_intf iface u ≡ true) (some-injective _ t e) (ground arith)

pub socket_kept :
    (socket : ℕ) (method : Method) (pids : Dict ℕ) (s t : Stream)
    → succeeds (add_socket socket method pids) s ≡ some (true, t)
    → verify_socket socket method t ≡ true
unfolding add_socket verify_socket set_pids
socket_kept socket method pids s t ran =
    let (ring, e) =
      bind-some (Rbuf.reset s.ring) (λ ring. some _)
        (succeeds_inv (add_socket socket method pids) s t ran) in
    subst (λ u. verify_socket socket method u ≡ true) (some-injective _ t e) (ground arith)

place_name :
    (sys : System) (place : Place) (pids : Dict ℕ) (s t : Stream) (ok : Bool)
    → open_place sys place pids s ≡ some (ok, t)
    → t.name ≡ s.name
unfolding open_place set_pids Rbuf.reset Rbuf.lock
place_name sys (to_file path) pids s t ok ran = ground (arith, ran)
place_name sys (to_socket b_tcp ip port) pids s t ok ran = ground (arith, ran)

name_of :
    (sys : System) (target : List ℕ) (pids : Dict ℕ) (s t : Stream) (ok : Bool)
    → is_stdout target ≡ false
    → add_target sys target pids s ≡ some (ok, t)
    → t.name ≡ take 20 target
unfolding add_target
name_of sys target pids s t ok other ran =
    let named : Stream = record s { name = take 20 target } in
    let opens : parse_target target >>= (λ place. open_place sys place pids named) ≡ some (ok, t) =
      rw⁻¹ ran (rw other refl) in
    let (place, e) =
      bind-some (parse_target target) (λ place. open_place sys place pids named) opens in
    place_name sys place pids named t ok e

-- A name of 20 bytes at most that is none of the standard output's is found by itself, opened or not.
pub name_kept :
    (sys : System) (target : List ℕ) (pids : Dict ℕ) (s t : Stream) (ok : Bool)
    → length target ≤ 20
    → is_stdout target ≡ false
    → add_target sys target pids s ≡ some (ok, t)
    → verify_target target t ≡ true
unfolding verify_target
name_kept sys target pids s t ok short other ran =
    rw (name_of sys target pids s t ok other ran, take_of_length-le 20 target short)
      (same_bytes_refl target)
