-- ===== src/Output/Tests.antt =====
-- The outputs on concrete values, and the theorems there.
use libdvbtee.Base.{
  ℕ, ◌+◌, ◌≡◌, refl, true, false, none, some, List, [], ◌∷◌, ◌++◌, ◌<◌, ◌≤◌, ◌⊎◌, inl, inr, arith,
  replicate, length, take,
}
use libdvbtee.Base.Dict.{Dict}
use libdvbtee.Rbuf
use libdvbtee.Rbuf.{Rbuf}
use libdvbtee.Rbuf.Contents.{contents}
use libdvbtee.Output.Stream
use libdvbtee.Output.Stream.{
  Stream, Method, new_stream, udp, send_round, stream, is_streaming, Answer, goes_on,
}
use libdvbtee.Output.Setup.{
  System, to_file, to_socket, starts_with, contains, tokens, end_word, skip_slashes, with_port,
  with_protocol, parse_words, parse_target, open_place, add_func, add_target, verify_func,
  verify_target, same_bytes, is_stdout,
}
use libdvbtee.Output.Round.{IsReady, in_order}
use libdvbtee.Output.Delivers.{begins, pushes, sends_on, run_delivers}
use libdvbtee.Output.Loses.{short_send_loses}
use libdvbtee.Output.Drains.{IsWhole, rounds, rounds_drain}
use libdvbtee.Output.Feeds.{Fed, push_feeds}
use libdvbtee.Output.Full.{push_whole}
use libdvbtee.Output.Reclaim.{alive, check_lem}
use libdvbtee.Output.Again.{add, by_name, keeps_name, add_twice, add_fails_once}
use libdvbtee.Output.Stopped.{at_once, starts, thread_begins, stopped_for_ever}
use libdvbtee.Output.Targets
use libdvbtee.Output.Targets.{
  Output, check, some_alive, reclaim, erase_dead, stop_stream, register, register_once, search_by,
  output_add_func, output_add_intf, output_add_socket, output_add_target, push_streams,
}
use libdvbtee.Base.Dict

-- seven packets in a ring for eight
abbrev seven : Stream
seven = record new_stream {
  f_streaming = true;
  ring = record {
    locked = false;
    capacity = 1504;
    bytes = replicate 1504 7;
    idx_read = 0;
    idx_write = 1316;
  };
}

abbrev seven_pushed : Stream
seven_pushed = record seven {
  count_in = 2;
  ring = record {
    locked = false;
    capacity = 1504;
    bytes = replicate 1316 7 ++ (1 ∷ 2 ∷ []) ++ replicate 186 7;
    idx_read = 0;
    idx_write = 1318;
  };
}

-- the same after the thread has sent the seven packets
abbrev seven_sent : Stream
seven_sent = record seven_pushed {
  count_out = 1316;
  handed = replicate 1316 7 ∷ [];
  taken = replicate 1316 7 ∷ [];
  ring = record {
    locked = false;
    capacity = 1504;
    bytes = replicate 1316 7 ++ (1 ∷ 2 ∷ []) ++ replicate 186 7;
    idx_read = 1316;
    idx_write = 1318;
  };
}

-- a target that takes all, one for which each call fails, and one that takes 100 bytes at most
abbrev accepting : List ℕ → Answer
accepting src = record { ret = some (length src); accepted = length src }

abbrev failing : List ℕ → Answer
failing src = record { ret = none; accepted = 0 }

abbrev slow : List ℕ → Answer
slow src = record { ret = some 100; accepted = 100 }

program : ℕ
unfolding Stream.push Rbuf.write Rbuf.write_loop Rbuf.lock Rbuf.unlock Rbuf.size_of Rbuf.write_room
    Rbuf.put_chunk Rbuf.copy_in Rbuf.advance_write send_round stream Rbuf.get_size Rbuf.get_read_ptr
    Rbuf.put_read_ptr Rbuf.read_room Rbuf.advance_read in_order goes_on rounds add output_add_func
    output_add_intf output_add_socket output_add_target register_once register search_by add_func
    add_target verify_target verify_func Stream.set_pids Stream.merge_pids same_bytes is_stdout
    Dict.insert Dict.get_or Rbuf.reset Rbuf.rewind keeps_name starts_with contains tokens end_word
    skip_slashes with_port with_protocol parse_words parse_target open_place stop_stream
    is_streaming Stream.start Rbuf.set_capacity Stream.begin_thread Stream.end_thread
    Stream.close_file Stream.stop_without_wait check some_alive reclaim erase_dead alive
    Stream.check push_streams Targets.push Stream.drain_waits Rbuf.get_capacity
program = 0

two_pushed : Stream.push (1 ∷ 2 ∷ []) seven ≡ some (true, seven_pushed)
unfolding program
two_pushed = refl

round_sent : send_round accepting seven_pushed ≡ some seven_sent
unfolding program
round_sent = refl

seven-IsReady : IsReady seven
seven-IsReady = record {
  valid = record { storage = refl; read_in = omega arith; write_in = omega arith };
  unlocked = refl;
}

run_delivers_example :
    in_order seven_sent.taken ++ contents seven_sent.ring
    ≡ (in_order seven.taken ++ contents seven.ring) ++ (1 ∷ 2 ∷ [])
unfolding program
run_delivers_example =
    run_delivers accepting seven (λ src. omega arith) seven-IsReady
      (sends_on {t = seven_pushed}
        (pushes {t = seven} {u = seven_pushed} (1 ∷ 2 ∷ []) begins (omega arith) two_pushed) refl
        round_sent)

-- 21 packets in a ring for 22, to be sent over TCP
abbrev many : Stream
many = record new_stream {
  f_streaming = true;
  method = Method.tcp;
  ring = record {
    locked = false;
    capacity = 4136;
    bytes = replicate 4136 7;
    idx_read = 0;
    idx_write = 3948;
  };
}

short_send_loses_test :
    (src : List ℕ) × (t : Stream) × (send_round slow many ≡ some t)
    × (188 ≤ length src)
    × (contents many.ring ≡ src ++ contents t.ring)
    × (in_order t.taken ≡ in_order many.taken ++ take (slow src).accepted src)
    × (t.f_kill_thread ≡ false)
unfolding program
short_send_loses_test =
    short_send_loses slow many
      (record {
        valid = record { storage = refl; read_in = omega arith; write_in = omega arith };
        unlocked = refl;
        storage = refl;
        reader = refl;
        held = refl;
      })
      (omega arith) (λ src. refl)

seven-IsWhole : IsWhole seven.ring
unfolding program
seven-IsWhole = record {
  valid = record { storage = refl; read_in = omega arith; write_in = omega arith };
  unlocked = refl;
  storage = refl;
  reader = refl;
  held = refl;
}

rounds_drain_example :
    (t : Stream) × (rounds failing 7 seven ≡ some t)
    × (Rbuf.size_of t.ring < Stream.packet_size seven.method)
    × (in_order t.handed ++ contents t.ring ≡ in_order seven.handed ++ contents seven.ring)
    × IsWhole t.ring
unfolding program
rounds_drain_example = rounds_drain failing 7 seven seven-IsWhole refl (λ src. refl) (omega arith)

-- the packet that fills the ring
push_whole_example :
    (t : Stream) × (Stream.push (replicate 188 1) seven ≡ some (true, t))
    × (t.handed ≡ seven.handed)
    × (((Rbuf.size_of seven.ring + 188 < seven.ring.capacity)
          × (contents t.ring ≡ contents seven.ring ++ replicate 188 1))
        ⊎ ((Rbuf.size_of seven.ring + 188 ≡ seven.ring.capacity)
            × (Rbuf.size_of t.ring ≡ 0)
            × (contents t.ring ≡ [])))
push_whole_example = push_whole (replicate 188 1) seven seven-IsWhole (omega arith) refl

-- an output with that stream, one that has ended and one that has not begun
abbrev three : Output
three = record {
  streams = (0, seven) ∷ (1, record new_stream { count_in = 188 }) ∷ (2, new_stream) ∷ [];
  ring = new_stream.ring;
  num_targets = 3;
  options = 0;
  count_in = 0;
}

push_feeds_example :
    (o : Output) × (Targets.push (1 ∷ 2 ∷ []) three ≡ some (true, o))
    × Fed (1 ∷ 2 ∷ []) three.streams o.streams
    × (o.count_in ≡ 2)
unfolding program
push_feeds_example =
    push_feeds (1 ∷ 2 ∷ []) three refl
      (inr (seven-IsReady, omega arith), (inl refl, (inl refl, tt)))

check_lem_example :
    check three ≡ (true, record three { streams = (0, seven) ∷ (2, new_stream) ∷ [] })
unfolding program
check_lem_example = check_lem three

-- what a name leaves that is opened, and one that is not
abbrev named : Output
named = record three {
  num_targets = 4;
  streams =
      (0, seven)
      ∷ (1, record new_stream { count_in = 188 })
      ∷ (2, new_stream)
      ∷ (
        3,
        record new_stream {
          name = b'f' ∷ b'i' ∷ b'l' ∷ b'e' ∷ b':' ∷ b'/' ∷ b'/' ∷ b'a' ∷ [];
          sock = some 5;
          method = Method.file;
        },
      )
      ∷ [];
}

abbrev not_named : Output
not_named = record three {
  streams =
      (0, seven)
      ∷ (1, record new_stream { count_in = 188 })
      ∷ (2, new_stream)
      ∷ (3, record new_stream { name = b'f' ∷ b'i' ∷ b'l' ∷ b'e' ∷ b':' ∷ b'/' ∷ b'/' ∷ b'a' ∷ [] })
      ∷ [];
}

-- a system in which files can be written, and one in which nothing can be opened
abbrev works : System
works = record {
  open_file = λ path. some 5;
  socket = λ b_tcp. some 6;
  translates = λ ip. true;
  connects = λ ip port. true;
}

abbrev broken : System
broken = record {
  open_file = λ path. none;
  socket = λ b_tcp. none;
  translates = λ ip. false;
  connects = λ ip port. false;
}

abbrev file_a : List ℕ
file_a = b'f' ∷ b'i' ∷ b'l' ∷ b'e' ∷ b':' ∷ b'/' ∷ b'/' ∷ b'a' ∷ []

parsed_file : parse_target file_a ≡ some (to_file (b'a' ∷ []))
unfolding program
parsed_file = refl

parsed_tcp :
    parse_target (b't' ∷ b'c' ∷ b'p' ∷ b':' ∷ b'a' ∷ b':' ∷ b'8' ∷ [])
    ≡ some (to_socket true (b'a' ∷ []) (some (b'8' ∷ [])))
unfolding program
parsed_tcp = refl

opened_once : add (by_name file_a) works [] three ≡ some (some 3, named)
unfolding program
opened_once = refl

add_twice_test : add (by_name file_a) broken [] named ≡ some (some 3, named)
unfolding program
add_twice_test = add_twice (by_name file_a) works broken [] [] three named 3 refl opened_once

refused : add (by_name file_a) broken [] three ≡ some (none, not_named)
unfolding program
refused = refl

add_fails_once_test : add (by_name file_a) works [] not_named ≡ some (some 3, not_named)
unfolding program
add_fails_once_test = add_fails_once file_a broken works [] [] three not_named refl refused

-- a callback's stream, which needs no socket: stopped, and then started again
abbrev by_callback : Stream
by_callback = record seven { method = Method.func; stream_cb = 1; stream_cb_priv = 1 }

abbrev restarted : Stream
restarted = record by_callback {
  f_kill_thread = true;
  f_streaming = true;
  ring = record { locked = false; capacity = 2; bytes = 0 ∷ 0 ∷ []; idx_read = 0; idx_write = 0 };
}

start_works :
    Stream.start true (0 ∷ 0 ∷ []) (stop_stream by_callback)
    ≡ some (true, record restarted { f_streaming = false })
unfolding program
start_works = refl

stopped_for_ever_example : is_streaming restarted ≡ false
unfolding program
stopped_for_ever_example =
    stopped_for_ever failing by_callback
      (thread_begins true (starts true true (0 ∷ 0 ∷ []) at_once start_works))
