-- ===== src/Decode/Service.antt =====
-- `class decode_network_service`: the services and the programme guide of one transport stream.
use libdvbtee.Base.{
  ℕ, ◌+◌, ◌-◌, Bool, true, false, Option, none, some, List, [], ◌&&◌, ◌||◌, not, leb, ◌==◌,
  if◌then◌else◌, length,
}
use libdvbtee.Base.Dict
use libdvbtee.Base.Dict.{Dict}
use libdvbtee.Decode.Records.{DecodedSdt, DecodedEit, no_sdt}
use libdvbtee.Decode.Tables.{PsiSdt, PsiEit, ingest, store_sdt, store_eit, count_entries}

-- The array `decoded_eit[NUM_EIT]` is a map from the index; one not yet written is empty, and so is one
-- behind the array, which `eit_x_complete` of an ATSC guide can ask for unchecked. The two
-- lists are the tables in `store`.
pub record NetworkService : Type 0 where
  pub sdt : DecodedSdt
  pub eit : Dict (Dict DecodedEit)
  pub services_w_eit_pf : ℕ
  pub services_w_eit_sched : ℕ
  pub eit_x : ℕ
  pub sdt_store : List DecodedSdt
  pub eit_store : List DecodedEit

-- the constructor
abbrev pub new_service : NetworkService
new_service = record {
  sdt = no_sdt;
  eit = [];
  services_w_eit_pf = 0;
  services_w_eit_sched = 0;
  eit_x = 0;
  sdt_store = [];
  eit_store = [];
}

-- `take_sdt`, `sdt::ingest` and `updateSDT`
unfoldable pub take_sdt : PsiSdt → NetworkService → NetworkService × Bool
take_sdt p s = update (
    ingest (λ t. t.network_id == p.network_id) (λ t. t.version == p.version) (store_sdt p)
      s.sdt_store)
  where
    update : Option (List DecodedSdt) → NetworkService × Bool
    update none = (s, false)
    update (some tables) = (
      record s {
        sdt_store = tables;
        sdt = store_sdt p;
        services_w_eit_pf = count_entries (λ v. v.f_eit_present) p.services;
        services_w_eit_sched = count_entries (λ v. v.f_eit_sched) p.services;
      },
      true,
    )

-- `take_eit`, `eit::ingest` and `updateEIT`
unfoldable pub take_eit : PsiEit → ℕ → NetworkService → NetworkService × Bool
take_eit p eit_x s = update (
    ingest (λ t. t.service_id == p.extension) (λ t. t.version == p.version) (store_eit p)
      s.eit_store)
  where
    update : Option (List DecodedEit) → NetworkService × Bool
    update none = (record s { eit_x = eit_x }, false)
    update (some tables) = (
      record s {
        eit_x = eit_x;
        eit_store = tables;
        eit =
            Dict.insert eit_x (Dict.insert p.extension (store_eit p) (Dict.get_or eit_x s.eit []))
              s.eit;
      },
      true,
    )

-- `table_id_to_eit_x`, on the 0 that its callers start from
unfoldable pub table_id_to_eit_x : ℕ → ℕ
table_id_to_eit_x table_id =
    if table_id == 0x4f || table_id == 0x4e
    then 0
    else if leb 0x60 table_id && leb table_id 0x6f
    then table_id - 0x60 + 1
    else if leb 0x50 table_id && leb table_id 0x5f
    then table_id - 0x50 + 1
    else 0

-- `eit_x_complete_dvb_pf` and `eit_x_complete_dvb_sched`
unfoldable pub eit_complete : ℕ → ℕ → NetworkService → Bool
eit_complete eit_x expected s =
    if length s.sdt.services == 0
    then false
    else let n = length (Dict.get_or eit_x s.eit []) in not (n == 0) && n == expected

unfoldable pub eit_x_complete_pf : NetworkService → Bool
eit_x_complete_pf s = eit_complete 0 s.services_w_eit_pf s

unfoldable pub eit_x_complete_sched : ℕ → NetworkService → Bool
eit_x_complete_sched eit_x s = eit_complete eit_x s.services_w_eit_sched s
