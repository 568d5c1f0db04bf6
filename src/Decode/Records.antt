-- ===== src/Decode/Records.antt =====
-- The records of libdvbtee/decode.h. What descriptors add to a record (names, languages) is left
-- out.
use libdvbtee.Base.{ℕ, Bool, false, List, []}
use libdvbtee.Base.Dict.{Dict}

-- `decoded_pat_t`: program number to pid
pub record DecodedPat : Type 0 where
  pub ts_id : ℕ
  pub version : ℕ
  pub programs : Dict ℕ

-- `ts_elementary_stream_t`
pub record ElementaryStream : Type 0 where
  pub type : ℕ
  pub pid : ℕ

-- `decoded_pmt_t`: the streams by pid
pub record DecodedPmt : Type 0 where
  pub program : ℕ
  pub version : ℕ
  pub pcr_pid : ℕ
  pub es_streams : Dict ElementaryStream

-- `decoded_mgt_table_t` and `decoded_mgt_t`: the tables by type
pub record MgtTable : Type 0 where
  pub type : ℕ
  pub pid : ℕ
  pub version : ℕ
  pub bytes : ℕ

pub record DecodedMgt : Type 0 where
  pub version : ℕ
  pub tables : Dict MgtTable

-- `decoded_vct_channel_t` and `decoded_vct_t`: the channels by program
pub record VctChannel : Type 0 where
  pub short_name : List ℕ
  pub chan_major : ℕ
  pub chan_minor : ℕ
  pub modulation : ℕ
  pub carrier_freq : ℕ
  pub chan_ts_id : ℕ
  pub program : ℕ
  pub etm_location : ℕ
  pub access_controlled : Bool
  pub path_select : Bool
  pub out_of_band : Bool
  pub hidden : Bool
  pub hide_guide : Bool
  pub service_type : ℕ
  pub source_id : ℕ

pub record DecodedVct : Type 0 where
  pub version : ℕ
  pub ts_id : ℕ
  pub cable_vct : Bool
  pub channels : Dict VctChannel

-- `decoded_atsc_eit_event_t` and `decoded_atsc_eit_t`: the events by id
pub record AtscEvent : Type 0 where
  pub event_id : ℕ
  pub start_time : ℕ
  pub etm_location : ℕ
  pub length_sec : ℕ
  pub title_bytes : ℕ
  pub title : List ℕ

pub record AtscEit : Type 0 where
  pub version : ℕ
  pub source_id : ℕ
  pub events : Dict AtscEvent

-- `decoded_atsc_ett_t`
pub record AtscEtt : Type 0 where
  pub version : ℕ
  pub etm_id : ℕ
  pub etm_length : ℕ
  pub etm : List ℕ

-- `decoded_nit_ts_t` and `decoded_nit_t`: the transport streams by id
pub record NitTs : Type 0 where
  pub ts_id : ℕ
  pub orig_network_id : ℕ

pub record DecodedNit : Type 0 where
  pub network_id : ℕ
  pub version : ℕ
  pub ts_list : Dict NitTs

-- `decoded_sdt_service_t` and `decoded_sdt_t`: the services by id
pub record SdtService : Type 0 where
  pub service_id : ℕ
  pub f_eit_sched : Bool
  pub f_eit_present : Bool
  pub running_status : ℕ
  pub f_free_ca : Bool

pub record DecodedSdt : Type 0 where
  pub ts_id : ℕ
  pub version : ℕ
  pub network_id : ℕ
  pub services : Dict SdtService

-- `decoded_eit_event_t` and `decoded_eit_t`: the events by id
pub record EitEvent : Type 0 where
  pub event_id : ℕ
  pub start_time : ℕ
  pub length_sec : ℕ
  pub running_status : ℕ
  pub f_free_ca : Bool

pub record DecodedEit : Type 0 where
  pub service_id : ℕ
  pub version : ℕ
  pub ts_id : ℕ
  pub network_id : ℕ
  pub last_table_id : ℕ
  pub events : Dict EitEvent

-- The constructors of the `decoded_*_s` structures: no version that a table can have.
abbrev pub no_pat : DecodedPat
no_pat = record { ts_id = 0xffff; version = 0xff; programs = [] }

abbrev pub no_pmt : DecodedPmt
no_pmt = record { program = 0xffff; version = 0xff; pcr_pid = 0xffff; es_streams = [] }

abbrev pub no_mgt : DecodedMgt
no_mgt = record { version = 0xff; tables = [] }

abbrev pub no_vct : DecodedVct
no_vct = record { version = 0xff; ts_id = 0xffff; cable_vct = false; channels = [] }

abbrev pub no_atsc_eit : AtscEit
no_atsc_eit = record { version = 0xff; source_id = 0xffff; events = [] }

abbrev pub no_ett : AtscEtt
no_ett = record { version = 0xff; etm_id = 0xffff_ffff; etm_length = 0; etm = [] }

abbrev pub no_nit : DecodedNit
no_nit = record { network_id = 0xffff; version = 0xff; ts_list = [] }

abbrev pub no_sdt : DecodedSdt
no_sdt = record { ts_id = 0xffff; version = 0xff; network_id = 0xffff; services = [] }

abbrev pub no_eit : DecodedEit
no_eit = record {
  service_id = 0xffff;
  version = 0xff;
  ts_id = 0xffff;
  network_id = 0xffff;
  last_table_id = 0xff;
  events = [];
}
