-- ===== src/Parse/Choose.antt =====
-- The pids of the chosen services.
use libdvbtee.Base.{ℕ, ◌≡◌, refl, Bool, false, Option, none, some, [], ◌∷◌, ◌||◌, arith, ◌==◌}
use libdvbtee.Base.Dict
use libdvbtee.Base.Dict.{Dict}
use libdvbtee.Decode.Records.{ElementaryStream, DecodedPmt}
use libdvbtee.Parse.State.{Parser, get_decoder}
use libdvbtee.Parse.Expect.{any_stream}
use libdvbtee.Parse.Services.{add_streams, add_found, add_service_pids, add_chosen_pids}

has-add_streams :
    (pid : ℕ) (m : Dict ElementaryStream) (pids : Dict ℕ)
    → Dict.has pid (add_streams m pids) ≡ (any_stream (λ es. es.pid == pid) m || Dict.has pid pids)
unfolding add_streams any_stream
has-add_streams pid [] pids = refl
has-add_streams pid ((_, es) ∷ m) pids = ground (
  arith,
  has-add_streams pid m (Dict.insert es.pid es.type pids),
  Dict.has-insert pid es.pid es.type pids,
)

-- the pid is that of the map table, or of one of its streams
unfoldable pub found_on : ℕ → Option ℕ → Option DecodedPmt → Bool
found_on pid none none = false
found_on pid (some at) none = at == pid
found_on pid none (some pmt) = any_stream (λ es. es.pid == pid) pmt.es_streams
found_on pid (some at) (some pmt) = at == pid || any_stream (λ es. es.pid == pid) pmt.es_streams

-- so for a program of the parser's current stream
unfoldable pub carries : ℕ → Parser → ℕ → Bool
unfolding found_on
carries pid p id =
    let d = get_decoder p.ts_id p in found_on pid (Dict.find id d.pat.programs) (Dict.find id d.pmt)

has-add_found :
    (pid : ℕ) (at : Option ℕ) (pmt : Option DecodedPmt) (pids : Dict ℕ)
    → Dict.has pid (add_found at pmt pids) ≡ (found_on pid at pmt || Dict.has pid pids)
unfolding add_found found_on
has-add_found pid none none pids = refl
has-add_found pid (some at) none pids = ground (arith, Dict.has-insert pid at 0 pids)
has-add_found pid none (some pmt) pids = has-add_streams pid pmt.es_streams pids
has-add_found pid (some at) (some pmt) pids = ground (
  arith,
  has-add_streams pid pmt.es_streams (Dict.insert at 0 pids),
  Dict.has-insert pid at 0 pids,
)

has-add_service_pids :
    (pid id : ℕ) (p : Parser) (pids : Dict ℕ)
    → Dict.has pid (add_service_pids id p pids) ≡ (carries pid p id || Dict.has pid pids)
unfolding add_service_pids carries
has-add_service_pids pid id p pids =
    let d = get_decoder p.ts_id p in
    has-add_found pid (Dict.find id d.pat.programs) (Dict.find id d.pmt) pids

-- one of the chosen services has the property
unfoldable pub any_service : (ℕ → Bool) → Dict ℕ → Bool
any_service test [] = false
any_service test ((id, _) ∷ ids) = test id || any_service test ids

-- The pids given for the chosen services are, beside those given before, exactly the pids of their map tables,
-- as the association table has them, and of the streams that their map tables list.
pub has-add_chosen_pids :
    (pid : ℕ) (ids : Dict ℕ) (p : Parser) (pids : Dict ℕ)
    → Dict.has pid (add_chosen_pids ids p pids)
      ≡ (any_service (carries pid p) ids || Dict.has pid pids)
unfolding add_chosen_pids any_service
has-add_chosen_pids pid [] p pids = refl
has-add_chosen_pids pid ((id, _) ∷ ids) p pids = ground (
  arith,
  has-add_chosen_pids pid ids p (add_service_pids id p pids),
  has-add_service_pids pid id p pids,
)
