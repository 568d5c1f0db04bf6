-- ===== src/Parse/OutputTests.antt =====
-- An output that a concrete parser adds.
use libdvbtee.Base.{ℕ, ◌≡◌, refl, true, List, replicate, Option, none, some, [], ◌∷◌}
use libdvbtee.Base.Dict
use libdvbtee.Base.Dict.{Dict}
use libdvbtee.Rbuf
use libdvbtee.Output.Stream
use libdvbtee.Output.Stream.{http, new_stream}
use libdvbtee.Output.Setup.{add_socket, verify_socket}
use libdvbtee.Output.Targets
use libdvbtee.Output.Targets.{Output}
use libdvbtee.Parse.State.{Parser, OutType}
use libdvbtee.Parse.Outputs.{Threads, to_socket, start_added, add_output}
use libdvbtee.Parse.Sends.{add_output_sends}
use libdvbtee.Parse.Tests.{start, psi_push, now}
use libdvbtee.Parse.Feed.{next, feed_packet}
use libdvbtee.Stats.{parse, parse_hdr}

abbrev empty : Output
empty = record { streams = []; ring = new_stream.ring; num_targets = 0; options = 0; count_in = 0 }

abbrev threads : Threads
threads = record { created = λ id. true; fresh = λ id. [] }

abbrev pids : Dict ℕ
pids = (0x31, 2) ∷ []

abbrev parser_of : Option (Option ℕ × Parser × Output) → Parser
parser_of none = start
parser_of (some (id, p, o)) = p

abbrev output_of : Option (Option ℕ × Parser × Output) → Output
output_of none = empty
output_of (some (id, p, o)) = o

-- What comes of adding a socket for one pid.
abbrev added : Option (Option ℕ × Parser × Output)
added =
    add_output threads (to_socket 5 http) pids (record start { out_pids = (0x20, 0) ∷ [] }, empty)

socket_added : added ≡ some (some 0, parser_of added, output_of added)
unfolding add_output start_added Targets.output_add_socket Targets.register_once Targets.register
    Targets.search_by Targets.start verify_socket add_socket Stream.set_pids Stream.merge_pids
    Stream.start Rbuf.reset Rbuf.set_capacity Rbuf.rewind Rbuf.lock Rbuf.unlock Dict.get_or
    Dict.insert
socket_added = refl

-- a packet of the pid that the socket was added for
abbrev chosen_packet : List ℕ
chosen_packet = 0x47 ∷ 0 ∷ 0x31 ∷ 0x10 ∷ replicate 184 0xff

add_output_sends_example :
    (kind : OutType) × (r : Parser) × (feed_packet psi_push now chosen_packet (0, parser_of added)
      ≡ next (0, r))
    × (r.sent ≡ (chosen_packet, kind) ∷ (parser_of added).sent)
unfolding parse parse_hdr add_output start_added Targets.output_add_socket Targets.register_once
    Targets.register Targets.search_by Targets.start verify_socket add_socket Stream.set_pids
    Stream.merge_pids Stream.start Rbuf.reset Rbuf.set_capacity Rbuf.rewind Rbuf.lock Rbuf.unlock
    Dict.get_or Dict.insert Dict.has Dict.find
add_output_sends_example =
    add_output_sends psi_push now threads 5 http pids (record start { out_pids = (0x20, 0) ∷ [] })
      (parser_of added) empty (output_of added) 0 chosen_packet 0 refl socket_added refl refl refl
      refl refl refl refl
