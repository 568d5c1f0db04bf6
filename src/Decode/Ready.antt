-- ===== src/Decode/Ready.antt =====
-- The tests of `class decode` on how much of the programme guide has come in.
use libdvbtee.Base.{
  ℕ, ◌+◌, ◌-◌, ◌*◌, ◌%◌, ◌^◌, Bool, true, false, Option, none, some, [], ◌∷◌, ◌&&◌, ◌||◌, not, leb,
  ◌==◌, if◌then◌else◌, length,
}
use libdvbtee.Base.Dict
use libdvbtee.Base.Dict.{Dict}
use libdvbtee.Decode.Records.{AtscEvent, AtscEit, AtscEtt, MgtTable}
use libdvbtee.Decode.Network.{Network, network_eit_complete_pf, network_eit_complete_sched}
use libdvbtee.Decode.Stream.{Decode, ett_key}

-- the loop of `complete_pmt`: no program but 0 lacks its map table
unfoldable pub all_received : Dict Bool → Bool
all_received [] = true
all_received ((number, got) ∷ m) = (number == 0 || got) && all_received m

-- `complete_pmt`
unfoldable pub complete_pmt : Decode → Bool
unfolding all_received
complete_pmt d = if length d.rcvd_pmt == 0 then false else all_received d.rcvd_pmt

-- `eit_x_complete_atsc`
unfoldable pub eit_x_complete_atsc : ℕ → Decode → Bool
eit_x_complete_atsc x d =
    if length d.vct.channels == 0
    then false
    else let n = length (Dict.get_or x d.atsc_eit []) in not (n == 0) && n == length d.vct.channels

-- `eit_x_complete_dvb_pf` and `eit_x_complete_dvb_sched`
unfoldable pub eit_x_complete_dvb_pf : Decode → Bool
eit_x_complete_dvb_pf d = elim (Dict.find d.orig_network_id d.networks) [
  | none ↦ false
  | some nw ↦ network_eit_complete_pf d.pat.ts_id nw
]

unfoldable pub eit_x_complete_dvb_sched : ℕ → Decode → Bool
eit_x_complete_dvb_sched x d = elim (Dict.find d.orig_network_id d.networks) [
  | none ↦ false
  | some nw ↦ network_eit_complete_sched d.pat.ts_id x nw
]

-- `eit_x_complete`
unfoldable pub eit_x_complete : ℕ → Decode → Bool
unfolding eit_x_complete_atsc eit_x_complete_dvb_pf eit_x_complete_dvb_sched
eit_x_complete x d =
    eit_x_complete_atsc x d
    || (if x == 0 then eit_x_complete_dvb_pf d else eit_x_complete_dvb_sched x d)

-- `(source_id << 16) | (event_id << 2) | 0x02`, 32 bits wide: the fields of the sum do not overlap
-- for the ids of a table, which have 16 and 14 bits
abbrev pub etm_id_of : ℕ → ℕ → ℕ
etm_id_of source_id event_id = (source_id * 2 ^ 16 + event_id * 2 ^ 2 + 2) % 2 ^ 32

-- the inner loop of `ett_x_complete`: the events of one source whose text is missing
unfoldable pub missing_events : ℕ → Dict AtscEtt → Dict AtscEvent → ℕ
missing_events source_id etts [] = 0
missing_events source_id etts ((_, e) ∷ m) =
    (if e.etm_location == 1 && not (Dict.has (ett_key (etm_id_of source_id e.event_id)) etts)
      then 1
      else 0)
    + missing_events source_id etts m

-- its outer loop
unfoldable pub missing_texts : Dict AtscEtt → Dict AtscEit → ℕ
unfolding missing_events
missing_texts etts [] = 0
missing_texts etts ((_, eit) ∷ m) =
    missing_events eit.source_id etts eit.events + missing_texts etts m

-- `ett_x_complete`
unfoldable pub ett_x_complete : ℕ → Decode → Bool
unfolding eit_x_complete_atsc missing_texts
ett_x_complete x d =
    eit_x_complete_atsc x d
    && missing_texts (Dict.get_or x d.ett []) (Dict.get_or x d.atsc_eit []) == 0

-- `(limit == -1) || (limit >= x)`; `none` is -1
unfoldable pub within : Option ℕ → ℕ → Bool
within none x = true
within (some limit) x = leb x limit

-- the loops of `got_all_eit` and `got_all_ett` over the table types from `first` on
unfoldable pub all_complete : ℕ → (ℕ → Bool) → Option ℕ → Dict MgtTable → Bool
unfolding within
all_complete first complete limit [] = true
all_complete first complete limit ((type, _) ∷ m) =
    (if leb first type && leb type (first + 0x7f) && within limit (type - first)
      then complete (type - first)
      else true)
    && all_complete first complete limit m

-- `got_all_eit`
unfoldable pub got_all_eit : Option ℕ → Decode → Bool
unfolding all_complete eit_x_complete
got_all_eit limit d =
    if length d.mgt.tables == 0
    then dvb
    else all_complete 0x0100 (λ x. eit_x_complete x d) limit d.mgt.tables
  where
    services : Network → Bool
    services nw = elim (Dict.find d.pat.ts_id nw.services) [
      | none ↦ false
      | some s ↦ not (length s.sdt.services == 0)
    ]

    dvb : Bool
    dvb = elim (Dict.find d.network_id d.networks) [
      | none ↦ false
      | some nw ↦ elim (Dict.find d.orig_network_id d.networks) [
        | none ↦ false
        | some orig ↦
            if services orig && not (length nw.nit.ts_list == 0)
            then eit_x_complete_dvb_pf d && eit_x_complete_dvb_sched 1 d
            else false
      ]
    ]

-- `got_all_ett`
unfoldable pub got_all_ett : Option ℕ → Decode → Bool
unfolding all_complete ett_x_complete
got_all_ett limit d =
    if length d.mgt.tables == 0
    then true
    else all_complete 0x0200 (λ x. ett_x_complete x d) limit d.mgt.tables
