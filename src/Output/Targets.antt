-- ===== src/Output/Targets.antt =====
-- `class output`: the streams by their id. The build has `DOUBLE_BUFFER` at 0, so the ring of the class gets
-- no capacity, and `push` goes to each stream.
use libdvbtee.Base.{
  ℕ, zero, suc, ◌+◌, ◌%◌, ◌^◌, Bool, true, false, Option, none, some, List, [], ◌∷◌, ◌||◌, not,
  ◌==◌, if◌then◌else◌, length,
}
use mathlib.Core.Option
use Prim.Native.Nat.{bit_and}
use libdvbtee.Base.Dict
use libdvbtee.Base.Dict.{Dict}
use libdvbtee.Rbuf
use libdvbtee.Rbuf.{Rbuf, ◌>>=◌}
use libdvbtee.Output.Stream
use libdvbtee.Output.Stream.{
  Stream, Method, new_stream, is_streaming, stop_without_wait, end_thread, merge_pids,
}
use libdvbtee.Output.Setup.{
  System, add_func, add_intf, add_socket, add_stdout, add_target, verify_func, verify_intf,
  verify_socket, verify_target,
}

pub record Output : Type 0 where
  pub streams : Dict Stream
  pub ring : Rbuf
  pub num_targets : ℕ
  pub options : ℕ
  pub count_in : ℕ

-- the loop of `push` over the streams; what a stream's `push` returns is not read
unfoldable pub push_streams : List ℕ → Dict Stream → Option (Dict Stream)
unfolding is_streaming
push_streams src [] = some []
push_streams src ((id, s) ∷ m) = do
  (_, t) ← if is_streaming s then Stream.push src s else some (false, s)
  rest ← push_streams src m
  some ((id, t) ∷ rest)

-- `push(p_data, size)`
unfoldable pub push : List ℕ → Output → Option (Bool × Output)
unfolding push_streams
push src o =
    let counted = record o { count_in = (o.count_in + length src) % 2 ^ 64 } in
    if Rbuf.get_capacity o.ring == 0
    then (do
      streams ← push_streams src o.streams
      some (true, record counted { streams = streams }))
    else do (ok, ring) ← Rbuf.write o.ring src; some (ok, record counted { ring = ring })

-- `push(p_data, opt)`; both sides are masks of `output_options`
unfoldable pub push_option : List ℕ → ℕ → Output → Option (Bool × Output)
unfolding push
push_option src opt o =
    if o.options == 0 || opt == 0 || not (bit_and opt o.options == 0)
    then push src o
    else some (false, o)

-- `search`: the id of the first stream that `verify` accepts
unfoldable pub search_by : (Stream → Bool) → Dict Stream → Option ℕ
search_by verify [] = none
search_by verify ((id, s) ∷ m) =
    let later = search_by verify m in if verify s then some id else later

-- what the `add` methods do with a stream that `setup` fills: it gets the next id, which is used up if
-- `setup` returns 0. The id is the result, or `none` for a negative one.
unfoldable pub register : (Stream → Option (Bool × Stream)) → Output → Option (Option ℕ × Output)
register setup o =
    let id = o.num_targets in
    do
      (ok, s) ← setup (Dict.get_or id o.streams new_stream)
      let placed = record o { streams = Dict.insert id s o.streams }
      if ok then some (some id, record placed { num_targets = id + 1 }) else some (none, placed)

-- the same behind a search for a stream that is already there
unfoldable pub register_once :
    (Stream → Bool) → (Stream → Option (Bool × Stream)) → Output → Option (Option ℕ × Output)
unfolding search_by register
register_once verify setup o = elim (search_by verify o.streams) [
  | some id ↦ some (some id, o)
  | none ↦ register setup o
]

-- a method of a stream that returns 0
abbrev pub succeeds : (Stream → Option Stream) → Stream → Option (Bool × Stream)
succeeds f s = do t ← f s; some (true, t)

-- `add` for a callback, an interface, a socket, and the name of a target, and `add_stdout`
unfoldable pub output_add_func : ℕ → ℕ → Dict ℕ → Output → Option (Option ℕ × Output)
unfolding register_once
output_add_func priv callback pids o =
    if callback == 0 || priv == 0
    then some (none, o)
    else register_once (verify_func priv callback) (succeeds (add_func priv callback pids)) o

unfoldable pub output_add_intf : ℕ → Dict ℕ → Output → Option (Option ℕ × Output)
unfolding register_once
output_add_intf iface pids o =
    if iface == 0
    then some (none, o)
    else register_once (verify_intf iface) (succeeds (add_intf iface pids)) o

unfoldable pub output_add_socket : ℕ → Method → Dict ℕ → Output → Option (Option ℕ × Output)
unfolding register_once
output_add_socket socket method pids =
    register_once (verify_socket socket method) (succeeds (add_socket socket method pids))

unfoldable pub output_add_target : System → List ℕ → Dict ℕ → Output → Option (Option ℕ × Output)
unfolding register_once
output_add_target sys target pids =
    register_once (verify_target target) (add_target sys target pids)

-- `add` for a text that commas divide: its items in turn, up to the first that fails; the text itself is
-- added where there is none.
unfoldable pub add_items :
    System → Option ℕ → List (List ℕ) → Dict ℕ → Output → Option (Option ℕ × Output)
unfolding output_add_target
add_items sys ret [] pids o = some (ret, o)
add_items sys ret (item ∷ items) pids o = do
  (added, p) ← output_add_target sys item pids o
  elim added [ none ↦ some (none, p) | some id ↦ add_items sys (some id) items pids p ]

unfoldable pub output_add_list :
    System → List ℕ → List (List ℕ) → Dict ℕ → Output → Option (Option ℕ × Output)
unfolding add_items
output_add_list sys target [] pids o = output_add_target sys target pids o
output_add_list sys target items pids o = add_items sys none items pids o

unfoldable pub output_add_stdout : Dict ℕ → Output → Option (Option ℕ × Output)
unfolding register
output_add_stdout pids = register (succeeds (add_stdout pids))

-- `start`; what each stream's `start` returns is not read
unfoldable pub start : (ℕ → Bool) → (ℕ → List ℕ) → Dict Stream → Option (Dict Stream)
start created fresh [] = some []
start created fresh ((id, s) ∷ m) = do
  (_, t) ← Stream.start (created id) (fresh id) s
  rest ← start created fresh m
  some ((id, t) ∷ rest)

-- the first stream of which `check` is false is erased
unfoldable pub erase_dead : Dict Stream → Option (Dict Stream)
erase_dead [] = none
erase_dead ((id, s) ∷ m) =
    let later = Option.map (λ rest. (id, s) ∷ rest) (erase_dead m) in
    if Stream.check s then later else some m

-- `reclaim_resources`, which calls itself again as long as a stream was erased, on fuel: each call but
-- the last erases one, so their number is enough
unfoldable pub reclaim : ℕ → Dict Stream → Dict Stream
unfolding erase_dead
reclaim zero m = m
reclaim (suc n) m = elim (erase_dead m) [ none ↦ m | some rest ↦ reclaim n rest ]

-- `check`
unfoldable pub some_alive : Dict Stream → Bool
some_alive [] = false
some_alive ((_, s) ∷ m) = Stream.check s || some_alive m

unfoldable pub check : Output → Bool × Output
unfolding some_alive reclaim
check o = (some_alive o.streams, record o { streams = reclaim (length o.streams) o.streams })

-- `get_pids`
unfoldable pub get_pids : Dict Stream → Dict ℕ → Dict ℕ
unfolding merge_pids
get_pids [] result = result
get_pids ((_, s) ∷ m) result = get_pids m (merge_pids s.pids result)

-- `reset_pids`; `none` is the id -1, of all of them
abbrev pub map_streams : (ℕ → Stream → Stream) → Dict Stream → Dict Stream
map_streams f [] = []
map_streams f ((id, s) ∷ m) = (id, f id s) ∷ map_streams f m

unfoldable pub reset_pids : Option ℕ → Dict Stream → Dict Stream
reset_pids none m = map_streams (λ _ s. record s { pids = [] }) m
reset_pids (some target) m =
    map_streams (λ id s. if id == target then record s { pids = [] } else s) m

-- `stop`, after which each thread has ended, and `stop(id)`
unfoldable pub stop_stream : Stream → Stream
unfolding stop_without_wait end_thread
stop_stream s = let t = stop_without_wait s in if t.f_streaming then end_thread t else t

unfoldable pub stop : Dict Stream → Dict Stream
unfolding stop_stream
stop m = map_streams (λ _ s. stop_stream s) m

unfoldable pub stop_id : ℕ → Dict Stream → Dict Stream
unfolding stop_stream
stop_id target m = map_streams (λ id s. if id == target then stop_stream s else s) m
