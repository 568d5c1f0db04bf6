-- ===== src/Decode/Stream.antt =====
-- `class decode`: everything decoded from one transport stream. Its reference `networks`, which
-- all the decoders of a parser share, is the field of that name. The conversion of the stream time
-- is left out, and so is what a subscribed table watcher is told.
use libdvbtee.Base.{
  ℕ, ◌%◌, ◌^◌, Bool, true, false, Option, none, some, List, [], ◌∷◌, ◌&&◌, not, ◌==◌, if◌then◌else◌,
  length,
}
use libdvbtee.Base.Dict
use libdvbtee.Base.Dict.{Dict}
use libdvbtee.Decode.Records.{
  DecodedPat, DecodedPmt, DecodedMgt, DecodedVct, AtscEit, AtscEtt, no_pat, no_pmt, no_mgt, no_vct,
  no_atsc_eit, no_ett,
}
use libdvbtee.Decode.Tables.{
  PsiPat, PsiPmt, PsiMgt, PsiVct, PsiAtscEit, PsiNit, PsiSdt, PsiEit, ingest, store_pat, store_pmt,
  store_mgt, store_vct, store_atsc_eit, store_ett,
}
use libdvbtee.Decode.Service.{table_id_to_eit_x}
use libdvbtee.Decode.Network
use libdvbtee.Decode.Network.{
  Network, new_network, network_eit_complete_pf, network_eit_complete_sched,
}

-- The arrays over EIT-0 to EIT-127 are maps from the index; one not yet written is empty.
pub record Decode : Type 0 where
  pub orig_network_id : ℕ
  pub network_id : ℕ
  pub networks : Dict Network
  pub pat : DecodedPat
  pub pmt : Dict DecodedPmt
  pub vct : DecodedVct
  pub mgt : DecodedMgt
  pub rcvd_pmt : Dict Bool
  pub eit_x : ℕ
  pub ett_x : ℕ
  pub atsc_eit : Dict (Dict AtscEit)
  pub ett : Dict (Dict AtscEtt)
  pub physical_channel : ℕ
  pub pmt_store : List DecodedPmt
  pub ett_store : List AtscEtt

-- the constructor, on the networks of the parser
abbrev pub new_decode : Dict Network → Decode
new_decode networks = record {
  orig_network_id = 0;
  network_id = 0;
  networks = networks;
  pat = no_pat;
  pmt = [];
  vct = no_vct;
  mgt = no_mgt;
  rcvd_pmt = [];
  eit_x = 0;
  ett_x = 0;
  atsc_eit = [];
  ett = [];
  physical_channel = 0;
  pmt_store = [];
  ett_store = [];
}

-- the loop of `updatePAT`: each program waits for its map table
unfoldable pub expect_pmts : Dict ℕ → Dict Bool → Dict Bool
expect_pmts [] m = m
expect_pmts ((number, pid) ∷ ps) m = expect_pmts ps (Dict.insert number false m)

-- `take_pat` and `updatePAT`; the one table in the store is replaced
unfoldable pub take_pat : PsiPat → Decode → Decode × Bool
take_pat p d = if d.pat.version == p.version && d.pat.ts_id == p.ts_id then (d, false) else (
  record d { pat = store_pat p; rcvd_pmt = expect_pmts (store_pat p).programs d.rcvd_pmt },
  true,
)

-- `pmt::ingest` and `updatePMT`
unfoldable pub ingest_pmt : PsiPmt → Decode → Decode × Bool
ingest_pmt p d =
    update
      (ingest (λ t. t.program == p.program) (λ t. t.version == p.version) (store_pmt p) d.pmt_store)
  where
    update : Option (List DecodedPmt) → Decode × Bool
    update none = (d, false)
    update (some tables) = (
      record d {
        pmt_store = tables;
        pmt = Dict.insert p.program (store_pmt p) d.pmt;
        rcvd_pmt = Dict.insert p.program true d.rcvd_pmt;
      },
      true,
    )

-- `take_pmt`; its `operator[]` makes an entry for a program that has none
unfoldable pub take_pmt : PsiPmt → Decode → Decode × Bool
take_pmt p d =
    let cur = Dict.get_or p.program d.pmt no_pmt in
    let seen = record d { pmt = Dict.insert p.program cur d.pmt } in
    if cur.version == p.version && cur.program == p.program
    then (seen, false)
    else ingest_pmt p seen

-- `take_vct` and `updateVCT`
unfoldable pub take_vct : PsiVct → Decode → Decode × Bool
take_vct p d =
    if d.vct.version == p.version && d.vct.ts_id == p.extension
    then (d, false)
    else (record d { vct = store_vct p }, true)

-- `take_mgt` and `updateMGT`
unfoldable pub take_mgt : PsiMgt → Decode → Decode × Bool
take_mgt p d =
    if d.mgt.version == p.version && not (length d.mgt.tables == 0)
    then (d, false)
    else (record d { mgt = store_mgt p }, true)

-- `take_eit` for an ATSC table, and `updateEIT`; the table is always added to the store
unfoldable pub take_atsc_eit : PsiAtscEit → Decode → Decode × Bool
take_atsc_eit p d =
    let eits = Dict.get_or d.eit_x d.atsc_eit [] in
    let cur = Dict.get_or p.source_id eits no_atsc_eit in
    let write = λ (e : AtscEit). record d {
      atsc_eit = Dict.insert d.eit_x (Dict.insert p.source_id e eits) d.atsc_eit;
    } in
    if cur.version == p.version && cur.source_id == p.source_id
    then (write cur, false)
    else (write (store_atsc_eit p), true)

-- the key of `map_decoded_atsc_ett`, which is 16 bits wide
abbrev pub ett_key : ℕ → ℕ
ett_key etm_id = etm_id % 2 ^ 16

unfoldable pub write_ett : ℕ → AtscEtt → Decode → Decode
write_ett etm_id t d = record d {
  ett = Dict.insert d.ett_x (Dict.insert (ett_key etm_id) t (Dict.get_or d.ett_x d.ett [])) d.ett;
}

-- `atsc_ett::ingest` and `updateETT`
unfoldable pub ingest_ett : AtscEtt → Decode → Decode × Bool
unfolding write_ett
ingest_ett p d =
    update
      (ingest (λ t. t.etm_id == p.etm_id) (λ t. t.version == p.version) (store_ett p) d.ett_store)
  where
    update : Option (List AtscEtt) → Decode × Bool
    update none = (d, false)
    update (some tables) =
        (write_ett p.etm_id (store_ett p) (record d { ett_store = tables }), true)

-- `take_ett`; its `operator[]` makes an entry for a text that has none
unfoldable pub take_ett : AtscEtt → Decode → Decode × Bool
unfolding write_ett
take_ett p d =
    let cur = Dict.get_or (ett_key p.etm_id) (Dict.get_or d.ett_x d.ett []) no_ett in
    let seen = write_ett p.etm_id cur d in
    if cur.version == p.version && cur.etm_id == p.etm_id then (seen, false) else ingest_ett p seen

-- `fetch_network`: the network, a new one if need be
unfoldable pub fetch_network : ℕ → Decode → Network
fetch_network id d = Dict.get_or id d.networks new_network

unfoldable pub write_network : ℕ → Network → Decode → Decode
write_network id nw d = record d { networks = Dict.insert id nw d.networks }

-- the original network that a network information table gives for this transport stream
unfoldable pub nit_orig_network : Decode → Option ℕ
nit_orig_network d = elim (Dict.find d.network_id d.networks) [
  | none ↦ none
  | some nw ↦ elim (Dict.find d.pat.ts_id nw.nit.ts_list) [
    | none ↦ none
    | some t ↦ some t.orig_network_id
  ]
]

-- `take_nit_actual`
unfoldable pub take_nit_actual : PsiNit → Decode → Decode × Bool
unfolding fetch_network write_network nit_orig_network
take_nit_actual p d =
    let (nw, done) = Network.take_nit p (fetch_network p.network_id d) in
    let taken = write_network p.network_id nw (record d { network_id = p.network_id }) in
    elim (nit_orig_network taken) [
      | none ↦ (taken, done)
      | some id ↦ (
        record (write_network p.network_id (record nw { orig_network_id = id }) taken) {
          orig_network_id = id;
        },
        done,
      )
    ]

-- `take_nit_other`, which leaves the ids of this stream alone
unfoldable pub take_nit_other : PsiNit → Decode → Decode × Bool
unfolding fetch_network write_network nit_orig_network
take_nit_other p d =
    let (nw, done) = Network.take_nit p (fetch_network p.network_id d) in
    let taken = write_network p.network_id nw d in
    elim (nit_orig_network taken) [
      | none ↦ (taken, done)
      | some id ↦ (write_network p.network_id (record nw { orig_network_id = id }) taken, done)
    ]

-- `take_sdt_actual` and `take_sdt_other`
unfoldable pub take_sdt_other : PsiSdt → Decode → Decode × Bool
unfolding fetch_network write_network
take_sdt_other p d =
    let (nw, done) =
      Network.take_sdt p
        (record (fetch_network p.network_id d) { orig_network_id = p.network_id }) in
    (write_network p.network_id nw d, done)

unfoldable pub take_sdt_actual : PsiSdt → Decode → Decode × Bool
unfolding take_sdt_other
take_sdt_actual p d = take_sdt_other p (record d { orig_network_id = p.network_id })

-- `take_eit` for a DVB table
unfoldable pub take_eit : PsiEit → Decode → Decode × Bool
unfolding fetch_network write_network
take_eit p d =
    let (nw, done) =
      Network.take_eit p (table_id_to_eit_x p.table_id) (fetch_network p.network_id d) in
    (write_network p.network_id nw d, done)
