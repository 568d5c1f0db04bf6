-- ===== src/Output/Stopped.antt =====
-- `output_stream`: what may happen to a stream after it was stopped.
use libdvbtee.Base.{ℕ, ◌≡◌, refl, Bool, true, false, some, List}
use libdvbtee.Base.Dict.{Dict}
use libdvbtee.Output.Stream
use libdvbtee.Output.Stream.{
  Stream, Method, needs_sock, is_none, is_streaming, stop_without_wait, push_packets, stream,
  send_round, begin_thread, end_thread, close_file, set_pids, packet_size, Answer,
}
use libdvbtee.Output.Setup.{System, add_func, add_intf, add_socket, add_stdout, add_target}
use libdvbtee.Output.Targets.{stop_stream}
use libdvbtee.Output.Kill.{
  start-killed, stdout-killed, target-killed, func-killed, push-killed, send_round-killed,
  intf-killed, socket-killed, stop_stream-killed,
}

-- What can be done to a stream, by whoever holds it and by its thread.
pub data Later (sends : List ℕ → Answer) (s : Stream) : Stream → Type 0 where
  at_once : Later sends s s
  starts :
      {t u : Stream} (created ok : Bool) (fresh : List ℕ)
      → Later sends s t
      → Stream.start created fresh t ≡ some (ok, u)
      → Later sends s u
  thread_begins :
      {t : Stream} (header : Bool) → Later sends s t → Later sends s (begin_thread header t)
  thread_ends : {t : Stream} → Later sends s t → Later sends s (end_thread t)
  sends_on : {t u : Stream} → Later sends s t → send_round sends t ≡ some u → Later sends s u
  is_pushed :
      {t u : Stream} (src : List ℕ) (ok : Bool)
      → Later sends s t
      → Stream.push src t ≡ some (ok, u)
      → Later sends s u
  gets_pids : {t : Stream} (pids : Dict ℕ) → Later sends s t → Later sends s (set_pids pids t)
  is_func :
      {t u : Stream} (priv callback : ℕ) (pids : Dict ℕ)
      → Later sends s t
      → add_func priv callback pids t ≡ some u
      → Later sends s u
  is_intf :
      {t u : Stream} (iface : ℕ) (pids : Dict ℕ)
      → Later sends s t
      → add_intf iface pids t ≡ some u
      → Later sends s u
  is_socket :
      {t u : Stream} (socket : ℕ) (method : Method) (pids : Dict ℕ)
      → Later sends s t
      → add_socket socket method pids t ≡ some u
      → Later sends s u
  goes_to_stdout :
      {t u : Stream} (pids : Dict ℕ)
      → Later sends s t
      → add_stdout pids t ≡ some u
      → Later sends s u
  is_target :
      {t u : Stream} (ok : Bool) (sys : System) (target : List ℕ) (pids : Dict ℕ)
      → Later sends s t
      → add_target sys target pids t ≡ some (ok, u)
      → Later sends s u

Later-killed :
    (sends : List ℕ → Answer) {s u : Stream}
    → s.f_kill_thread ≡ true
    → Later sends s u
    → u.f_kill_thread ≡ true
unfolding begin_thread end_thread close_file set_pids
Later-killed sends k at_once = k
Later-killed sends k (starts {t = t} {u = u} created ok fresh run e) =
    start-killed created ok fresh t u (Later-killed sends k run) e
Later-killed sends k (thread_begins {t = t} header run) = begun header (Later-killed sends k run)
  where
    begun : (header : Bool) → t.f_kill_thread ≡ true → (begin_thread header t).f_kill_thread ≡ true
    begun true k = k
    begun false k = k
Later-killed sends k (thread_ends run) = Later-killed sends k run
Later-killed sends k (sends_on {t = t} {u = u} run e) =
    send_round-killed sends t u (Later-killed sends k run) e
Later-killed sends k (is_pushed {t = t} {u = u} src ok run e) =
    push-killed src t (ok, u) (Later-killed sends k run) e
Later-killed sends k (gets_pids pids run) = Later-killed sends k run
Later-killed sends k (is_func {t = t} {u = u} priv callback pids run e) =
    func-killed priv callback pids t u (Later-killed sends k run) e
Later-killed sends k (is_intf {t = t} {u = u} iface pids run e) =
    intf-killed iface pids t u (Later-killed sends k run) e
Later-killed sends k (is_socket {t = t} {u = u} socket method pids run e) =
    socket-killed socket method pids t u (Later-killed sends k run) e
Later-killed sends k (goes_to_stdout {t = t} {u = u} pids run e) =
    stdout-killed pids t u (Later-killed sends k run) e
Later-killed sends k (is_target {t = t} {u = u} ok sys target pids run e) =
    target-killed sys target pids t (ok, u) (Later-killed sends k run) e

-- A stream that was stopped never streams again: whatever its holder and its thread do afterwards, a new
-- `start` or `add` and the begin of a new thread included, `is_streaming` is false, so that `output::push`
-- passes it by.
pub stopped_for_ever :
    (sends : List ℕ → Answer) (s : Stream) {u : Stream}
    → Later sends (stop_stream s) u
    → is_streaming u ≡ false
unfolding is_streaming
stopped_for_ever sends s later = rw (Later-killed sends (stop_stream-killed s) later) refl
