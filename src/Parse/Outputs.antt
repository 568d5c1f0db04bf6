-- ===== src/Parse/Outputs.antt =====
-- The outputs of the parser: the methods `add_output` and `add_stdout` of libdvbtee/parse.cpp, which give an output
-- the pids of the chosen services. `out` of the parser stands beside it here. The result is `none` where a
-- call blocks; the id of the target is `none` for a negative one.
use libdvbtee.Base.{ℕ, Bool, Option, none, some, List, [], ◌∷◌, ◌==◌, if◌then◌else◌}
use libdvbtee.Base.Dict.{Dict}
use libdvbtee.Rbuf.{◌>>=◌}
use libdvbtee.Output.Stream.{Method}
use libdvbtee.Output.Setup.{System}
use libdvbtee.Output.Targets.{
  Output, output_add_func, output_add_socket, output_add_list, output_add_stdout, start, get_pids,
}
use libdvbtee.Parse.State.{Parser}
use libdvbtee.Parse.Services.{add_service_pids, add_chosen_pids}

-- A way to add a target, with its pids.
abbrev pub Adds : Type 0
Adds = Dict ℕ → Output → Option (Option ℕ × Output)

-- The four targets: `target` in `add_target` is a text with the items that its commas divide.
abbrev pub to_callback : ℕ → ℕ → Adds
to_callback priv callback = output_add_func priv callback

abbrev pub to_socket : ℕ → Method → Adds
to_socket socket method = output_add_socket socket method

abbrev pub to_target : System → List ℕ → List (List ℕ) → Adds
to_target sys target items = output_add_list sys target items

abbrev pub to_stdout : Adds
to_stdout = output_add_stdout

-- What of the system the start of the threads needs.
pub record Threads : Type 0 where
  pub created : ℕ → Bool
  pub fresh : ℕ → List ℕ

-- what follows `out.add` in `add_output(…, pids)` and `add_stdout(pids)`
unfoldable pub start_added :
    Threads → Parser → Option ℕ → Output → Option (Option ℕ × Parser × Output)
unfolding start get_pids
start_added t p none o = some (none, p, o)
start_added t p (some id) o = do
  streams ← start t.created t.fresh o.streams
  some
      (some id, record p { out_pids = get_pids streams p.out_pids }, record o { streams = streams })

unfoldable pub add_output :
    Threads → Adds → Dict ℕ → Parser × Output → Option (Option ℕ × Parser × Output)
add_output t adds pids (p, o) = do (added, next) ← adds pids o; start_added t p added next

-- `add_output(…)` and `add_stdout()`, for the services that the parser has chosen
unfoldable pub add_output_chosen :
    Threads → Adds → Parser × Output → Option (Option ℕ × Parser × Output)
unfolding add_output add_chosen_pids
add_output_chosen t adds (p, o) = add_output t adds (add_chosen_pids p.service_ids p []) (p, o)

-- `add_output(…, service)` and `add_stdout(service)`
unfoldable pub add_output_service :
    Threads → Adds → ℕ → Parser × Output → Option (Option ℕ × Parser × Output)
unfolding add_output add_service_pids
add_output_service t adds service (p, o) =
    let pids = if service == 0 then [] else add_service_pids service p [] in
    add_output t adds pids (p, o)

-- `add_service_pids(service_ids, pids)`, on the numbers that the text holds
unfoldable pub add_listed_pids : List ℕ → Parser → Dict ℕ → Dict ℕ
unfolding add_service_pids
add_listed_pids [] p pids = pids
add_listed_pids (id ∷ ids) p pids = add_listed_pids ids p (add_service_pids id p pids)

-- `add_output(…, services)` and `add_stdout(services)`; `none` is a NULL
unfoldable pub add_output_services :
    Threads → Adds → Option (List ℕ) → Parser × Output → Option (Option ℕ × Parser × Output)
unfolding add_output add_listed_pids
add_output_services t adds none (p, o) = add_output t adds [] (p, o)
add_output_services t adds (some ids) (p, o) = add_output t adds (add_listed_pids ids p []) (p, o)
