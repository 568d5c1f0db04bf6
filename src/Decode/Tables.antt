-- ===== src/Decode/Tables.antt =====
-- The `store` and `ingest` methods of libdvbtee/decode/table/: a table that libdvbpsi assembled is
-- copied into its record, and kept beside the earlier ones.
use libdvbtee.Base.{
  ℕ, ◌+◌, Bool, true, false, Option, none, some, List, [], ◌∷◌, ◌++◌, ◌==◌, ◌&&◌, if◌then◌else◌,
  take,
}
use libdvbtee.Base
use libdvbtee.Base.Dict
use libdvbtee.Base.Dict.{Dict}
use mathlib.Core.Option
use libdvbtee.Decode.Records.{
  DecodedPat, ElementaryStream, DecodedPmt, MgtTable, DecodedMgt, VctChannel, DecodedVct, AtscEvent,
  AtscEit, AtscEtt, NitTs, DecodedNit, SdtService, DecodedSdt, EitEvent, DecodedEit,
}

-- A table as libdvbpsi hands it over: its header and the list of its entries. The entries of a
-- `PsiPat` are program number and pid.
pub record PsiPat : Type 0 where
  pub ts_id : ℕ
  pub version : ℕ
  pub programs : List (ℕ × ℕ)

pub record PsiPmt : Type 0 where
  pub program : ℕ
  pub version : ℕ
  pub pcr_pid : ℕ
  pub streams : List ElementaryStream

pub record PsiMgt : Type 0 where
  pub version : ℕ
  pub tables : List MgtTable

pub record PsiVct : Type 0 where
  pub version : ℕ
  pub extension : ℕ
  pub cable_vct : Bool
  pub channels : List VctChannel

pub record PsiAtscEit : Type 0 where
  pub version : ℕ
  pub source_id : ℕ
  pub events : List AtscEvent

pub record PsiNit : Type 0 where
  pub network_id : ℕ
  pub version : ℕ
  pub streams : List NitTs

pub record PsiSdt : Type 0 where
  pub extension : ℕ
  pub version : ℕ
  pub network_id : ℕ
  pub services : List SdtService

pub record PsiEit : Type 0 where
  pub table_id : ℕ
  pub extension : ℕ
  pub version : ℕ
  pub ts_id : ℕ
  pub network_id : ℕ
  pub last_table_id : ℕ
  pub events : List EitEvent

module _ {ℓ} {A : Type ℓ} where
  -- `while (p) { map[key(p)] = *p; p = p->p_next; }`
  unfoldable pub collect : (A → ℕ) → List A → Dict A → Dict A
  collect key [] m = m
  collect key (x ∷ xs) m = collect key xs (Dict.insert (key x) x m)

  -- The `ingest` methods that look for an earlier table of the same subject: one of the same
  -- version keeps its place and the new table is dropped (`none`), one of another version is
  -- overwritten, and where there is none the table is added.
  unfoldable pub ingest : (A → Bool) → (A → Bool) → A → List A → Option (List A)
  ingest same_subject same_version t [] = some (t ∷ [])
  ingest same_subject same_version t (x ∷ xs) =
      if same_subject x
      then if same_version x then none else some (t ∷ xs)
      else Option.map (λ ys. x ∷ ys) (ingest same_subject same_version t xs)

unfoldable pub collect_programs : List (ℕ × ℕ) → Dict ℕ → Dict ℕ
collect_programs [] m = m
collect_programs ((number, pid) ∷ ps) m = collect_programs ps (Dict.insert number pid m)

-- `pat::store`
unfoldable pub store_pat : PsiPat → DecodedPat
store_pat p = record {
  ts_id = p.ts_id;
  version = p.version;
  programs = collect_programs p.programs [];
}

-- `pmt::store` and `pmtES::pmtES`
unfoldable pub store_pmt : PsiPmt → DecodedPmt
store_pmt p = record {
  program = p.program;
  version = p.version;
  pcr_pid = p.pcr_pid;
  es_streams = collect (λ es. es.pid) p.streams [];
}

-- `mgt::store` and `mgtTb::mgtTb`
unfoldable pub store_mgt : PsiMgt → DecodedMgt
store_mgt p = record { version = p.version; tables = collect (λ t. t.type) p.tables [] }

-- `vct::store` and `vctCh::vctCh`
unfoldable pub store_vct : PsiVct → DecodedVct
store_vct p = record {
  version = p.version;
  ts_id = p.extension;
  cable_vct = p.cable_vct;
  channels = collect (λ c. c.program) p.channels [];
}

-- `atsc_eit::store` and `atsc_eitEV::atsc_eitEV`
unfoldable pub store_atsc_eit : PsiAtscEit → AtscEit
store_atsc_eit p = record {
  version = p.version;
  source_id = p.source_id;
  events = collect (λ e. e.event_id) p.events [];
}

-- `atsc_ett::store`: the text is cut at ETM_MAX_LENGTH, its length is not
unfoldable pub store_ett : AtscEtt → AtscEtt
store_ett p = record p {
  etm = take (if Base.leb p.etm_length 4096 then p.etm_length else 4096) p.etm;
}

-- `nit::store` and `nitTS::nitTS`
unfoldable pub store_nit : PsiNit → DecodedNit
store_nit p = record {
  network_id = p.network_id;
  version = p.version;
  ts_list = collect (λ t. t.ts_id) p.streams [];
}

-- `sdt::store` and `sdtSVC::sdtSVC`
unfoldable pub store_sdt : PsiSdt → DecodedSdt
store_sdt p = record {
  ts_id = p.extension;
  version = p.version;
  network_id = p.network_id;
  services = collect (λ s. s.service_id) p.services [];
}

-- the counters of `sdt::store`: the entries with the flag, one by one
unfoldable pub count_entries {ℓ} : {A : Type ℓ} → (A → Bool) → List A → ℕ
count_entries flag [] = 0
count_entries flag (x ∷ xs) = (if flag x then 1 else 0) + count_entries flag xs

-- `eit::store` and `eitEV::eitEV`
unfoldable pub store_eit : PsiEit → DecodedEit
store_eit p = record {
  service_id = p.extension;
  version = p.version;
  ts_id = p.ts_id;
  network_id = p.network_id;
  last_table_id = p.last_table_id;
  events = collect (λ e. e.event_id) p.events [];
}
