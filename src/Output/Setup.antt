-- ===== src/Output/Setup.antt =====
-- How a stream of `class output_stream` gets its target, and is recognised by it.
use libdvbtee.Base.{
  ℕ, Bool, true, false, Option, none, some, List, [], ◌∷◌, ◌&&◌, ◌||◌, not, ◌==◌, if◌then◌else◌,
  take, drop,
}
use libdvbtee.Base.Dict.{Dict}
use libdvbtee.Rbuf
use libdvbtee.Rbuf.{Rbuf, ◌>>=◌}
use libdvbtee.Output.Stream.{Stream, Method, udp, tcp, file, func, http, stdout, intf, set_pids}

-- the names that `add` gives
abbrev pub func_name : List ℕ
func_name = b'F' ∷ b'U' ∷ b'N' ∷ b'C' ∷ []

abbrev pub intf_name : List ℕ
intf_name = b'I' ∷ b'N' ∷ b'T' ∷ b'F' ∷ []

abbrev pub socket_name : List ℕ
socket_name = b'S' ∷ b'O' ∷ b'C' ∷ b'K' ∷ b'E' ∷ b'T' ∷ []

abbrev pub stdout_name : List ℕ
stdout_name = b'S' ∷ b'T' ∷ b'D' ∷ b'O' ∷ b'U' ∷ b'T' ∷ []

-- `add` for a callback, an interface, a socket and the standard output; all return 0
unfoldable pub add_func : ℕ → ℕ → Dict ℕ → Stream → Option Stream
unfolding set_pids
add_func priv callback pids s = do
  ring ← Rbuf.reset s.ring
  some (
      set_pids pids (record s {
        stream_cb = callback;
        stream_cb_priv = priv;
        ring = ring;
        method = func;
        name = func_name;
      }))

unfoldable pub add_intf : ℕ → Dict ℕ → Stream → Option Stream
unfolding set_pids
add_intf iface pids s = do
  ring ← Rbuf.reset s.ring
  some (set_pids pids (record s { iface = iface; ring = ring; method = intf; name = intf_name }))

unfoldable pub add_socket : ℕ → Method → Dict ℕ → Stream → Option Stream
unfolding set_pids
add_socket socket method pids s = do
  ring ← Rbuf.reset s.ring
  some (
      set_pids pids
        (record s { sock = some socket; ring = ring; method = method; name = socket_name }))

unfoldable pub add_stdout : Dict ℕ → Stream → Option Stream
unfolding set_pids
add_stdout pids s = do
  ring ← Rbuf.reset s.ring
  some (set_pids pids (record s { ring = ring; method = stdout; name = stdout_name }))

-- `strcmp`
unfoldable pub same_bytes : List ℕ → List ℕ → Bool
same_bytes [] [] = true
same_bytes (x ∷ xs) (y ∷ ys) = x == y && same_bytes xs ys
same_bytes [] (y ∷ ys) = false
same_bytes (x ∷ xs) [] = false

-- the three names of the standard output
unfoldable pub is_stdout : List ℕ → Bool
unfolding same_bytes
is_stdout target =
    same_bytes target (b'-' ∷ [])
    || same_bytes target (b'f' ∷ b'd' ∷ b':' ∷ b'/' ∷ b'/' ∷ b'0' ∷ [])
    || same_bytes target (b'f' ∷ b'd' ∷ b':' ∷ b'/' ∷ b'0' ∷ [])

-- `strstr(text, part)` is not NULL
unfoldable pub starts_with : List ℕ → List ℕ → Bool
starts_with [] text = true
starts_with (x ∷ part) [] = false
starts_with (x ∷ part) (y ∷ text) = x == y && starts_with part text

unfoldable pub contains : List ℕ → List ℕ → Bool
unfolding starts_with
contains part [] = starts_with part []
contains part (y ∷ text) = starts_with part (y ∷ text) || contains part text

-- The texts that `strtok_r` with ":" gives, one after the other; `word` is the one begun, in reverse.
unfoldable pub end_word : List ℕ → List (List ℕ) → List (List ℕ)
end_word [] words = words
end_word (x ∷ word) words = rev (x ∷ word) [] ∷ words
  where
    rev : List ℕ → List ℕ → List ℕ
    rev [] ys = ys
    rev (x ∷ xs) ys = rev xs (x ∷ ys)

unfoldable pub tokens : List ℕ → List ℕ → List (List ℕ)
unfolding end_word
tokens word [] = end_word word []
tokens word (c ∷ text) =
    if c == b':' then end_word word (tokens [] text) else tokens (c ∷ word) text

-- `ip += 2` where `ip` begins with two slashes
unfoldable pub skip_slashes : List ℕ → List ℕ
unfolding starts_with
skip_slashes ip = if starts_with (b'/' ∷ b'/' ∷ []) ip then drop 2 ip else ip

-- What a name says: a file, or a socket, with the text that `atoi` makes the port of (1234 for `none`).
pub data Place : Type 0 where
  to_file : (path : List ℕ) → Place
  to_socket : (b_tcp : Bool) (ip : List ℕ) (port : Option (List ℕ)) → Place

-- `port = atoi(strtok_r(...))`, from the texts that are left; `none` is a NULL that `atoi` reads
unfoldable pub with_port : Bool → List ℕ → List (List ℕ) → Option Place
with_port b_tcp ip [] = none
with_port b_tcp ip (port ∷ rest) = some (to_socket b_tcp ip (some port))

-- behind the name of a protocol
unfoldable pub with_protocol : Bool → Bool → List (List ℕ) → Option Place
unfolding skip_slashes with_port
with_protocol b_tcp b_file [] = none
with_protocol b_tcp b_file (ip ∷ rest) =
    if b_file then some (to_file (skip_slashes ip)) else with_port b_tcp (skip_slashes ip) rest

unfoldable pub parse_words : List (List ℕ) → Option Place
unfolding with_protocol contains
parse_words [] = none
parse_words (ip ∷ rest) =
    let b_tcp = contains (b't' ∷ b'c' ∷ b'p' ∷ []) ip in
    let b_udp = contains (b'u' ∷ b'd' ∷ b'p' ∷ []) ip in
    let b_file = contains (b'f' ∷ b'i' ∷ b'l' ∷ b'e' ∷ []) ip in
    if b_tcp
    then with_protocol true false rest
    else if b_udp
    then with_protocol false false rest
    else if b_file
    then with_protocol false true rest
    else with_port false ip rest

unfoldable pub parse_target : List ℕ → Option Place
unfolding contains tokens parse_words
parse_target target =
    if contains (b':' ∷ []) target
    then parse_words (tokens [] target)
    else some (to_socket false target none)

-- What the system does: `open` for writing, `socket`, the translation of a name to an address, and `connect`.
pub record System : Type 0 where
  pub open_file : List ℕ → Option ℕ
  pub socket : Bool → Option ℕ
  pub translates : List ℕ → Bool
  pub connects : List ℕ → Option (List ℕ) → Bool

-- the part of `add` behind the parsing
unfoldable pub open_place : System → Place → Dict ℕ → Stream → Option (Bool × Stream)
unfolding set_pids
open_place sys (to_file path) pids s = elim (sys.open_file path) [
  | none ↦ some (false, record s { sock = none })
  | some fd ↦ do
    ring ← Rbuf.reset s.ring
    some (true, set_pids pids (record s { sock = some fd; ring = ring; method = file }))
]
open_place sys (to_socket b_tcp ip port) pids s = elim (sys.socket b_tcp) [
  | none ↦ some (false, record s { sock = none })
  | some fd ↦
      if sys.translates ip
      then (do
        ring ← Rbuf.reset s.ring
        let t : Stream = record s { sock = some fd; ring = ring }
        if not b_tcp
            then some (true, set_pids pids (record t { method = udp }))
            else if sys.connects ip port
            then some (true, set_pids pids (record t { method = tcp }))
            else some (false, t))
      else some (false, record s { sock = some fd })
]

-- `add` for the name of a target; false is the result -1
unfoldable pub add_target : System → List ℕ → Dict ℕ → Stream → Option (Bool × Stream)
unfolding add_stdout is_stdout parse_target open_place
add_target sys target pids s =
    let named = record s { name = take 20 target } in
    if is_stdout target
    then (do t ← add_stdout pids named; some (true, t))
    else (do place ← parse_target target; open_place sys place pids named)

-- `verify`
abbrev pub method_code : Method → ℕ
method_code udp = 0
method_code tcp = 1
method_code file = 2
method_code func = 3
method_code http = 4
method_code stdout = 5
method_code intf = 6

unfoldable pub verify_func : ℕ → ℕ → Stream → Bool
verify_func priv callback s = priv == s.stream_cb_priv && callback == s.stream_cb

unfoldable pub verify_intf : ℕ → Stream → Bool
verify_intf iface s = s.iface == iface

unfoldable pub verify_socket : ℕ → Method → Stream → Bool
verify_socket socket method s =
    elim s.sock [ none ↦ false | some fd ↦ socket == fd ]
    && method_code method == method_code s.method

unfoldable pub verify_target : List ℕ → Stream → Bool
unfolding same_bytes
verify_target target s = same_bytes target s.name
