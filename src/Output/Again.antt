-- ===== src/Output/Again.antt =====
-- `output::add`: what a second call for the same target does.
use libdvbtee.Base.{
  ℕ, ◌≤◌, ◌≡◌, ◌∙◌, sym, ap, Bool, true, false, Option, none, some, List, ◌&&◌, ◌||◌, not, arith,
  inl, inr, ◌==◌, leb, length, Bool-cases, Option-cases,
}
use libdvbtee.Base.Dict
use libdvbtee.Base.Dict.{Dict}
use libdvbtee.Output.Stream.{Method, new_stream}
use libdvbtee.Output.Setup.{
  System, is_stdout, add_func, add_intf, add_socket, add_target, verify_func, verify_intf,
  verify_socket, verify_target,
}
use libdvbtee.Output.Targets.{
  Output, search_by, succeeds, output_add_func, output_add_intf, output_add_socket,
  output_add_target,
}
use libdvbtee.Output.Register.{register-failed, once-found, once-register, again, search_by-insert}
use libdvbtee.Output.Kept.{func_kept, intf_kept, socket_kept, name_kept}

-- A target as the caller of `add` names it.
pub data Target : Type 0 where
  by_func : (priv callback : ℕ) → Target
  by_intf : (iface : ℕ) → Target
  by_socket : (socket : ℕ) (method : Method) → Target
  by_name : (target : List ℕ) → Target

-- the overloads of `add`
unfoldable pub add : Target → System → Dict ℕ → Output → Option (Option ℕ × Output)
unfolding output_add_func output_add_intf output_add_socket output_add_target
add (by_func priv callback) sys pids o = output_add_func priv callback pids o
add (by_intf iface) sys pids o = output_add_intf iface pids o
add (by_socket socket method) sys pids o = output_add_socket socket method pids o
add (by_name target) sys pids o = output_add_target sys target pids o

-- Whether a stream keeps what it was added by: a name has 20 bytes at most and is not the standard output.
unfoldable pub keeps_name : Target → Bool
keeps_name (by_name target) = leb (length target) 20 && not (is_stdout target)
keeps_name _ = true

name_short : (target : List ℕ) → keeps_name (by_name target) ≡ true → length target ≤ 20
unfolding keeps_name
name_short target kept = ground (arith, kept)

name_other : (target : List ℕ) → keeps_name (by_name target) ≡ true → is_stdout target ≡ false
unfolding keeps_name
name_other target kept = ground (arith, kept)

-- A call of `add` that returns an id can be made again, with whatever pids and whatever the system does:
-- it returns the same id and changes nothing, so no target gets two streams. This is for a callback, an
-- interface, a socket, and a name of 20 bytes at most that is none of the standard output's.
pub add_twice :
    (target : Target) (sys sys' : System) (pids pids' : Dict ℕ) (o o' : Output) (id : ℕ)
    → keeps_name target ≡ true
    → add target sys pids o ≡ some (some id, o')
    → add target sys' pids' o' ≡ some (some id, o')
unfolding add output_add_func output_add_intf output_add_socket output_add_target
add_twice (by_func priv callback) sys sys' pids pids' o o' id kept ran =
    elim (Bool-cases (callback == 0 || priv == 0)) [
      | inl null ↦ absurd (ground (arith, ran, null))
      | inr set ↦ rw set (
          again (verify_func priv callback) (succeeds (add_func priv callback pids))
            (succeeds (add_func priv callback pids')) o o' id (func_kept priv callback pids)
            (ground (arith, ran, set)))
    ]
add_twice (by_intf iface) sys sys' pids pids' o o' id kept ran = elim (Bool-cases (iface == 0)) [
  | inl null ↦ absurd (ground (arith, ran, null))
  | inr set ↦ rw set (
      again (verify_intf iface) (succeeds (add_intf iface pids)) (succeeds (add_intf iface pids')) o
        o' id (intf_kept iface pids) (ground (arith, ran, set)))
]
add_twice (by_socket socket method) sys sys' pids pids' o o' id kept ran =
    again (verify_socket socket method) (succeeds (add_socket socket method pids))
      (succeeds (add_socket socket method pids')) o o' id (socket_kept socket method pids) ran
add_twice (by_name target) sys sys' pids pids' o o' id kept ran =
    again (verify_target target) (add_target sys target pids) (add_target sys' target pids') o o' id
      (λ s t e.
        name_kept sys target pids s t true (name_short target kept) (name_other target kept) e)
      ran

-- Where `add` for such a name fails, the same call made again returns the id that the failed stream stands
-- at, as if it were added, and changes nothing: it does not try to open the target, whatever the system
-- would do now.
pub add_fails_once :
    (target : List ℕ) (sys sys' : System) (pids pids' : Dict ℕ) (o o' : Output)
    → keeps_name (by_name target) ≡ true
    → add (by_name target) sys pids o ≡ some (none, o')
    → add (by_name target) sys' pids' o' ≡ some (some o.num_targets, o')
unfolding add output_add_target
add_fails_once target sys sys' pids pids' o o' kept ran =
    elim (Option-cases (search_by (verify_target target) o.streams)) [
      | inr (there, found) ↦ absurd (
          ground (
            arith,
            ran,
            once-found (verify_target target) (add_target sys target pids) o there found,
          ))
      | inl nothing ↦
          let failed =
            sym (once-register (verify_target target) (add_target sys target pids) o nothing)
            ∙ ran in
          let (t, fails, placed) = register-failed (add_target sys target pids) o o' failed in
          let found = search_by-insert (verify_target target) o.num_targets t o.streams nothing (
            name_kept sys target pids (Dict.get_or o.num_targets o.streams new_stream) t false
              (name_short target kept) (name_other target kept) fails) in
          once-found (verify_target target) (add_target sys' target pids') o' o.num_targets
            (ap (λ (p : Output). search_by (verify_target target) p.streams) (sym placed) ∙ found)
    ]
