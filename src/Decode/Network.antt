-- ===== src/Decode/Network.antt =====
-- `class decode_network`: one network's information table and its transport streams.
use libdvbtee.Base.{ℕ, Bool, true, false, Option, none, some, List, [], ◌==◌}
use libdvbtee.Base.Dict
use libdvbtee.Base.Dict.{Dict}
use libdvbtee.Decode.Records.{DecodedNit, no_nit}
use libdvbtee.Decode.Tables.{PsiNit, PsiSdt, PsiEit, ingest, store_nit}
use libdvbtee.Decode.Service
use libdvbtee.Decode.Service.{NetworkService, new_service, eit_x_complete_pf, eit_x_complete_sched}

pub record Network : Type 0 where
  pub orig_network_id : ℕ
  pub nit : DecodedNit
  pub services : Dict NetworkService
  pub nit_store : List DecodedNit

-- the constructor
abbrev pub new_network : Network
new_network = record { orig_network_id = 0; nit = no_nit; services = []; nit_store = [] }

-- `fetch_network_service`: the service, a new one if need be
unfoldable pub fetch_service : ℕ → Network → NetworkService
fetch_service ts_id nw = Dict.get_or ts_id nw.services new_service

-- a call of a method on the service that `fetch_network_service` returns
unfoldable pub on_service : ℕ → (NetworkService → NetworkService × Bool) → Network → Network × Bool
on_service ts_id method nw =
    let (s, done) = method (fetch_service ts_id nw) in
    (record nw { services = Dict.insert ts_id s nw.services }, done)

-- `take_sdt` and `take_eit` of decode.h
unfoldable pub take_sdt : PsiSdt → Network → Network × Bool
take_sdt p = on_service p.extension (Service.take_sdt p)

unfoldable pub take_eit : PsiEit → ℕ → Network → Network × Bool
take_eit p eit_x = on_service p.ts_id (Service.take_eit p eit_x)

-- `take_nit`, `nit::ingest` and `updateNIT`
unfoldable pub take_nit : PsiNit → Network → Network × Bool
take_nit p nw = update (
    ingest (λ t. t.network_id == p.network_id) (λ t. t.version == p.version) (store_nit p)
      nw.nit_store)
  where
    update : Option (List DecodedNit) → Network × Bool
    update none = (nw, false)
    update (some tables) = (record nw { nit_store = tables; nit = store_nit p }, true)

-- `eit_x_complete_dvb_pf` and `eit_x_complete_dvb_sched` of decode.h
unfoldable pub network_eit_complete_pf : ℕ → Network → Bool
network_eit_complete_pf ts_id nw = elim (Dict.find ts_id nw.services) [
  | none ↦ false
  | some s ↦ eit_x_complete_pf s
]

unfoldable pub network_eit_complete_sched : ℕ → ℕ → Network → Bool
network_eit_complete_sched ts_id eit_x nw = elim (Dict.find ts_id nw.services) [
  | none ↦ false
  | some s ↦ eit_x_complete_sched eit_x s
]
