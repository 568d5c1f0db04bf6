-- ===== src/Parse/Ready.antt =====
-- What the parser reports to have received of the tables it waits for.
use libdvbtee.Base.{ℕ, Bool, false, ◌&&◌, ◌||◌, not, ◌==◌, if◌then◌else◌, length}
use libdvbtee.Base.Dict
use libdvbtee.Decode.Ready.{all_received, got_all_eit, got_all_ett}
use libdvbtee.Parse.State.{Parser, get_decoder}

-- `is_pmt_ready`; the id 0 asks for all programs
unfoldable pub is_pmt_ready : ℕ → Parser → Bool
unfolding all_received
is_pmt_ready id p =
    if not p.has_pat || length p.rcvd_pmt == 0
    then false
    else if id == 0
    then all_received p.rcvd_pmt
    else Dict.get_or id p.rcvd_pmt false

-- `is_basic_psip_ready`
unfoldable pub is_basic_psip_ready : Parser → Bool
is_basic_psip_ready p =
    p.has_pat && ((p.has_mgt && (p.has_vct || not p.expect_vct)) || (p.has_sdt && p.has_nit))

-- `is_psip_ready`
unfoldable pub is_psip_ready : Parser → Bool
unfolding is_basic_psip_ready is_pmt_ready
is_psip_ready p = is_basic_psip_ready p && Dict.has p.ts_id p.decoders && is_pmt_ready 0 p

-- `is_epg_ready`
unfoldable pub is_epg_ready : Parser → Bool
unfolding is_psip_ready
is_epg_ready p =
    if not (Dict.has p.ts_id p.decoders)
    then false
    else is_psip_ready p
      && got_all_eit p.eit_collection_limit (get_decoder p.ts_id p)
      && (p.dont_collect_ett || got_all_ett p.eit_collection_limit (get_decoder p.ts_id p))
