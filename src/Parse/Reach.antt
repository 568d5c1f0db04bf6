-- ===== src/Parse/Reach.antt =====
-- The pids of the streams of an output, as `get_pids` gathers them.
use libdvbtee.Base.{ℕ, ◌≡◌, refl, Bool, false, [], ◌∷◌, ◌||◌, arith}
use libdvbtee.Base.Dict
use libdvbtee.Base.Dict.{Dict, has-insert}
use libdvbtee.Output.Stream.{Stream, merge_pids}
use libdvbtee.Output.Targets.{get_pids}

pub has-merge_pids :
    (pid : ℕ) (new pids : Dict ℕ)
    → Dict.has pid (merge_pids new pids) ≡ (Dict.has pid new || Dict.has pid pids)
unfolding merge_pids Dict.has
has-merge_pids pid [] pids = refl
has-merge_pids pid ((k, v) ∷ new) pids =
    ground (arith, has-merge_pids pid new (Dict.insert k v pids), has-insert pid k v pids)

-- One of the streams has the pid.
unfoldable pub any_stream : ℕ → Dict Stream → Bool
any_stream pid [] = false
any_stream pid ((_, s) ∷ m) = Dict.has pid s.pids || any_stream pid m

pub has-get_pids :
    (pid : ℕ) (m : Dict Stream) (pids : Dict ℕ)
    → Dict.has pid (get_pids m pids) ≡ (any_stream pid m || Dict.has pid pids)
unfolding get_pids any_stream
has-get_pids pid [] pids = refl
has-get_pids pid ((_, s) ∷ m) pids =
    ground (arith, has-get_pids pid m (merge_pids s.pids pids), has-merge_pids pid s.pids pids)
