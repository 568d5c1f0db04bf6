-- ===== src/Output/Kill.antt =====
-- No operation of a stream clears `f_kill_thread`.
use libdvbtee.Base.{
  ℕ, zero, suc, ◌+◌, ◌/◌, ◌%◌, ◌^◌, ◌≡◌, refl, subst, Bool, true, false, Option, none, some, List,
  arith, inl, inr, Bool-cases, if◌then◌else◌, length, take, drop,
}
use mathlib.Core.Option.{some-injective, none-ne-some}
use libdvbtee.Base.Dict.{Dict}
use libdvbtee.Rbuf
use libdvbtee.Rbuf.{Rbuf, ◌>>=◌}
use libdvbtee.Output.Stream
use libdvbtee.Output.Stream.{
  Stream, Method, needs_sock, is_none, is_streaming, stop_without_wait, push_packets, stream,
  send_round, begin_thread, end_thread, close_file, set_pids, packet_size, Answer, goes_on,
}
use libdvbtee.Output.Setup.{
  System, Place, to_file, to_socket, add_func, add_intf, add_socket, add_stdout, add_target,
  open_place, parse_target, is_stdout,
}
use libdvbtee.Output.Targets.{stop_stream}

module _ {A : Type 0} where
  -- A result of a chain is a result of its last step.
  bind_from :
      {B : Type 0} (P : B → Type 0) (o : Option A) (f : A → Option B) {b : B}
      → ((a : A) (b : B) → o ≡ some a → f a ≡ some b → P b)
      → (o >>= f) ≡ some b
      → P b
  bind_from P none f each e = absurd (none-ne-some _ e)
  bind_from P (some a) f {b = b} each e = each a b refl e

  bind_keeps :
      {B : Type 0} (P : B → Type 0) (o : Option A) (f : A → Option B) {b : B}
      → ((a : A) (b : B) → f a ≡ some b → P b)
      → (o >>= f) ≡ some b
      → P b
  bind_keeps P o f each e = bind_from P o f (λ a b _. each a b) e

pub start-killed :
    (created ok : Bool) (fresh : List ℕ) (s u : Stream)
    → s.f_kill_thread ≡ true
    → Stream.start created fresh s ≡ some (ok, u)
    → u.f_kill_thread ≡ true
unfolding Stream.start Rbuf.set_capacity Rbuf.lock
start-killed created ok fresh s u k e = ground (arith, k, e)

pub stdout-killed :
    (pids : Dict ℕ) (s u : Stream)
    → s.f_kill_thread ≡ true
    → add_stdout pids s ≡ some u
    → u.f_kill_thread ≡ true
unfolding add_stdout Rbuf.reset Rbuf.lock set_pids
stdout-killed pids s u k e = ground (arith, k, e)

pub place-killed :
    (sys : System) (place : Place) (pids : Dict ℕ) (s : Stream) (p : Bool × Stream)
    → s.f_kill_thread ≡ true
    → open_place sys place pids s ≡ some p
    → p.1.f_kill_thread ≡ true
unfolding open_place set_pids Rbuf.reset Rbuf.lock
place-killed sys (to_file path) pids s (ok, u) k e = ground (arith, k, e)
place-killed sys (to_socket b_tcp ip port) pids s (ok, u) k e = ground (arith, k, e)

pub target-killed :
    (sys : System) (target : List ℕ) (pids : Dict ℕ) (s : Stream) (p : Bool × Stream)
    → s.f_kill_thread ≡ true
    → add_target sys target pids s ≡ some p
    → p.1.f_kill_thread ≡ true
unfolding add_target
target-killed sys target pids s p k e = elim (Bool-cases (is_stdout target)) [
  | inl own ↦
      let out : add_stdout pids named >>= (λ t. some (true, t)) ≡ some p = rw⁻¹ e (rw own refl) in
      bind_from (λ (p : Bool × Stream). p.1.f_kill_thread ≡ true) (add_stdout pids named) _ printed
        out
  | inr other ↦
      let opens : parse_target target >>= (λ place. open_place sys place pids named) ≡ some p =
        rw⁻¹ e (rw other refl) in
      bind_keeps (λ (p : Bool × Stream). p.1.f_kill_thread ≡ true) (parse_target target) _
        (λ place p. place-killed sys place pids named p k) opens
]
  where
    named : Stream
    named = record s { name = take 20 target }

    printed :
        (t : Stream) (p : Bool × Stream)
        → add_stdout pids named ≡ some t
        → some (true, t) ≡ some p
        → p.1.f_kill_thread ≡ true
    printed t p out same =
        subst (λ (p : Bool × Stream). p.1.f_kill_thread ≡ true) (some-injective (true, t) p same)
          (stdout-killed pids named t k out)

pub func-killed :
    (priv callback : ℕ) (pids : Dict ℕ) (s u : Stream)
    → s.f_kill_thread ≡ true
    → add_func priv callback pids s ≡ some u
    → u.f_kill_thread ≡ true
unfolding add_func Rbuf.reset Rbuf.lock set_pids
func-killed priv callback pids s u k e = ground (arith, k, e)

pub push_packets-killed :
    (n : ℕ) (src : List ℕ) (s : Stream) (p : Bool × Stream)
    → s.f_kill_thread ≡ true
    → push_packets n src s ≡ some p
    → p.1.f_kill_thread ≡ true
unfolding push_packets
push_packets-killed zero src s p k e =
    subst (λ (p : Bool × Stream). p.1.f_kill_thread ≡ true) (some-injective (true, s) p e) k
push_packets-killed (suc n) src s p k e =
    bind_keeps (λ (p : Bool × Stream). p.1.f_kill_thread ≡ true) (Rbuf.write s.ring (take 188 src))
      _
      (each (λ ring p.
        push_packets-killed n (drop 188 src)
          (record s { ring = ring; count_in = (s.count_in + 188) % 2 ^ 64 }) p k))
      e
  where
    goes : Rbuf → Option (Bool × Stream)
    goes ring =
        push_packets n (drop 188 src)
          (record s { ring = ring; count_in = (s.count_in + 188) % 2 ^ 64 })

    each :
        ((ring : Rbuf) (p : Bool × Stream) → goes ring ≡ some p → p.1.f_kill_thread ≡ true)
        → (r : Bool × Rbuf) (p : Bool × Stream)
        → (if r.0 then goes r.1 else some (false, record s { ring = r.1 })) ≡ some p
        → p.1.f_kill_thread ≡ true
    each on (true, ring) p e = on ring p e
    each on (false, ring) p e =
        subst (λ (p : Bool × Stream). p.1.f_kill_thread ≡ true)
          (some-injective (false, record s { ring = ring }) p e) k

pub push-killed :
    (src : List ℕ) (s : Stream) (p : Bool × Stream)
    → s.f_kill_thread ≡ true
    → Stream.push src s ≡ some p
    → p.1.f_kill_thread ≡ true
unfolding Stream.push
push-killed src s p k e =
    bind_keeps (λ (p : Bool × Stream). p.1.f_kill_thread ≡ true) (Rbuf.write s.ring src) _ each e
  where
    each :
        (r : Bool × Rbuf) (p : Bool × Stream)
        → (if r.0
            then some (true, record s { ring = r.1; count_in = (s.count_in + length src) % 2 ^ 64 })
            else push_packets (length src / 188) src (record s { ring = r.1 }))
          ≡ some p
        → p.1.f_kill_thread ≡ true
    each (true, ring) p e =
        subst (λ (p : Bool × Stream). p.1.f_kill_thread ≡ true)
          (some-injective
            (true, record s { ring = ring; count_in = (s.count_in + length src) % 2 ^ 64 }) p e)
          k
    each (false, ring) p e =
        push_packets-killed (length src / 188) src (record s { ring = ring }) p k e

pub send_round-killed :
    (sends : List ℕ → Answer) (s u : Stream)
    → s.f_kill_thread ≡ true
    → send_round sends s ≡ some u
    → u.f_kill_thread ≡ true
unfolding send_round stream goes_on stop_without_wait Rbuf.get_size Rbuf.get_read_ptr Rbuf.lock
send_round-killed sends s u k e = ground (arith, k, e)

pub intf-killed :
    (iface : ℕ) (pids : Dict ℕ) (s u : Stream)
    → s.f_kill_thread ≡ true
    → add_intf iface pids s ≡ some u
    → u.f_kill_thread ≡ true
unfolding add_intf Rbuf.reset Rbuf.lock set_pids
intf-killed iface pids s u k e = ground (arith, k, e)

pub socket-killed :
    (socket : ℕ) (method : Method) (pids : Dict ℕ) (s u : Stream)
    → s.f_kill_thread ≡ true
    → add_socket socket method pids s ≡ some u
    → u.f_kill_thread ≡ true
unfolding add_socket Rbuf.reset Rbuf.lock set_pids
socket-killed socket method pids s u k e = ground (arith, k, e)

pub stop_stream-killed : (s : Stream) → (stop_stream s).f_kill_thread ≡ true
unfolding stop_stream stop_without_wait end_thread close_file
stop_stream-killed s = ground arith
