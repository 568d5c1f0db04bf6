-- ===== src/Output/Stream.antt =====
-- `class output_stream`. What the operating system does is an argument: `sends` tells of the bytes
-- handed to a call what the call returns and how many of them the target takes, which for a socket that does
-- not block may be fewer than all. `handed` lists what each call was handed, the latest first, and
-- `taken` what the target took of it. A method that has no callback, interface or address to call counts as
-- a call that fails.
-- `none` is a lock of the ring that never returns. The build has `TUNER_RESOURCE_SHARING` and
-- `PREVENT_RBUF_DEADLOCK` at 0, so every packet is wanted.
use libdvbtee.Base.{
  ℕ, zero, suc, ◌+◌, ◌*◌, ◌/◌, ◌%◌, ◌^◌, Bool, true, false, Option, none, some, List, [], ◌∷◌, ◌&&◌,
  ◌||◌, not, ltb, ◌==◌, if◌then◌else◌, length, take, drop,
}
use libdvbtee.Base.Dict
use libdvbtee.Base.Dict.{Dict}
use libdvbtee.Rbuf
use libdvbtee.Rbuf.{Rbuf, ◌>>=◌}

-- `stream_method`
pub data Method : Type 0 where
  udp tcp file func http stdout intf : Method

-- A pointer is a number, 0 for NULL, and `sock` is `none` below 0.
pub record Stream : Type 0 where
  pub f_kill_thread : Bool
  pub f_streaming : Bool
  pub sock : Option ℕ
  pub method : Method
  pub name : List ℕ
  pub ring : Rbuf
  pub count_in : ℕ
  pub count_out : ℕ
  pub iface : ℕ
  pub stream_cb : ℕ
  pub stream_cb_priv : ℕ
  pub pids : Dict ℕ
  pub handed : List (List ℕ)
  pub taken : List (List ℕ)

-- the constructor
abbrev pub new_stream : Stream
new_stream = record {
  f_kill_thread = false;
  f_streaming = false;
  sock = none;
  method = udp;
  name = [];
  ring = record { locked = false; capacity = 0; bytes = []; idx_read = 0; idx_write = 0 };
  count_in = 0;
  count_out = 0;
  iface = 0;
  stream_cb = 0;
  stream_cb_priv = 0;
  pids = [];
  handed = [];
  taken = [];
}

-- `is_streaming` and `stop_without_wait`
unfoldable pub is_streaming : Stream → Bool
is_streaming s = not s.f_kill_thread && s.f_streaming

unfoldable pub stop_without_wait : Stream → Stream
stop_without_wait s = record s { f_kill_thread = true }

-- the loop of `push` for a ring that refuses the whole: packet by packet, `n` whole ones
unfoldable pub push_packets : ℕ → List ℕ → Stream → Option (Bool × Stream)
push_packets zero src s = some (true, s)
push_packets (suc n) src s = do
  (ok, ring) ← Rbuf.write s.ring (take 188 src)
  let rest =
      push_packets n (drop 188 src)
        (record s { ring = ring; count_in = (s.count_in + 188) % 2 ^ 64 })
  if ok then rest else some (false, record s { ring = ring })

-- `push`
unfoldable pub push : List ℕ → Stream → Option (Bool × Stream)
unfolding push_packets
push src s = do
  (ok, ring) ← Rbuf.write s.ring src
  let whole : Stream = record s { ring = ring; count_in = (s.count_in + length src) % 2 ^ 64 }
  if ok then some (true, whole) else push_packets (length src / 188) src (record s { ring = ring })

-- `OUTPUT_STREAM_PACKET_SIZE` and `OUTPUT_STREAM_BUF_SIZE`
abbrev pub packet_size : Method → ℕ
packet_size udp = 188 * 7
packet_size _ = 188 * 21

abbrev pub buf_size : ℕ
buf_size = 188 * 7 * 198

abbrev pub is_none : Option ℕ → Bool
is_none none = true
is_none (some _) = false

-- What a call for some bytes comes to: what it returns, `none` for a negative number, and how many of the bytes,
-- from the first on, the target takes.
pub record Answer : Type 0 where
  pub ret : Option ℕ
  pub accepted : ℕ

-- The tests of `ret` behind the calls of `stream`, `size` being what was to be sent: a datagram is not
-- asked after, the standard output has to take all, and for any other target a number below `size` is as
-- good as `size`.
unfoldable pub goes_on : Method → ℕ → Option ℕ → Bool
goes_on udp size ret = true
goes_on stdout size none = false
goes_on stdout size (some n) = n == size
goes_on tcp size ret = not (is_none ret)
goes_on file size ret = not (is_none ret)
goes_on http size ret = not (is_none ret)
goes_on func size ret = not (is_none ret)
goes_on intf size ret = not (is_none ret)

-- `close_file`
unfoldable pub close_file : Stream → Stream
close_file s = record s { sock = none }

module _ (sends : List ℕ → Answer) where
  -- `stream`
  unfoldable pub stream : List ℕ → Stream → Stream
  unfolding stop_without_wait goes_on
  stream src s =
      if length src == 0
      then s
      else (let t = record s {
        handed = src ∷ s.handed;
        taken = take (sends src).accepted src ∷ s.taken;
      } in
          if goes_on s.method (length src) (sends src).ret then t else stop_without_wait t)

  -- one round of the loop of `output_stream_thread`; `n` is a whole number of packets
  unfoldable pub send_round : Stream → Option Stream
  unfolding stream
  send_round s = do
    (held, ring) ← Rbuf.get_size s.ring
    if ltb held (packet_size s.method) then some (record s { ring = ring }) else do
      (room, ring) ← Rbuf.get_read_ptr ring (packet_size s.method)
      let n = room / 188 * 188
      let t = stream (take n (drop ring.idx_read ring.bytes)) (record s { ring = ring })
      some (record t { ring = Rbuf.put_read_ptr ring n; count_out = (t.count_out + n) % 2 ^ 64 })

-- The start of the thread, where the HTTP header could be sent or not, and its end.
unfoldable pub begin_thread : Bool → Stream → Stream
unfolding close_file
begin_thread header s = if header then record s { f_streaming = true } else close_file s

unfoldable pub end_thread : Stream → Stream
unfolding close_file
end_thread s = close_file (record s { f_streaming = false })

-- the methods that need no socket
abbrev pub needs_sock : Method → Bool
needs_sock func = false
needs_sock intf = false
needs_sock stdout = false
needs_sock _ = true

-- `start`: true where it returns 0. `created` is what `pthread_create` returned, and `fresh` the
-- memory of the ring.
unfoldable pub start : Bool → List ℕ → Stream → Option (Bool × Stream)
start created fresh s =
    if s.f_streaming
    then some (true, s)
    else if is_none s.sock && needs_sock s.method
    then some (false, s)
    else do ring ← Rbuf.set_capacity s.ring fresh; some (created, record s { ring = ring })

-- the test of the loop in `drain` that waits
unfoldable pub drain_waits : Stream → Bool
drain_waits s = s.f_streaming && not (Rbuf.get_capacity s.ring == 0)

-- `check`
unfoldable pub check : Stream → Bool
check s = s.f_streaming || (s.count_in + s.count_out) % 2 ^ 64 == 0

-- `set_pids`, and `get_pids` with its arguments in the other order
unfoldable pub merge_pids : Dict ℕ → Dict ℕ → Dict ℕ
merge_pids [] pids = pids
merge_pids ((pid, type) ∷ new_pids) pids = merge_pids new_pids (Dict.insert pid type pids)

unfoldable pub set_pids : Dict ℕ → Stream → Stream
unfolding merge_pids
set_pids new_pids s = record s { pids = merge_pids new_pids s.pids }
