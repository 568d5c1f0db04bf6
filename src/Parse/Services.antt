-- ===== src/Parse/Services.antt =====
-- The choice of services, and what starts the parser afresh.
use libdvbtee.Base.{Option}
use libdvbtee.Base.{ℕ, true, false, none, some, List, [], ◌∷◌, if◌then◌else◌}
use libdvbtee.Base.Dict
use libdvbtee.Base.Dict.{Dict}
use libdvbtee.WritePsi.{Section}
use libdvbtee.Decode.Records.{DecodedPmt, ElementaryStream}
use libdvbtee.Parse.State.{
  Parser, add_filter, get_decoder, put_decoder, pid_pat, pid_nit, pid_sdt, pid_eit, pid_tot,
  pid_atsc,
}
use libdvbtee.Parse.Psi.{process_pat, process_pmt}
use libdvbtee.Parse.Handlers.{rewrite_pat}

-- the loop over the streams of a program
unfoldable pub add_streams : Dict ElementaryStream → Dict ℕ → Dict ℕ
add_streams [] pids = pids
add_streams ((_, es) ∷ m) pids = add_streams m (Dict.insert es.pid es.type pids)

-- the two parts of `add_service_pids`, on what the searches of its maps found
unfoldable pub add_found : Option ℕ → Option DecodedPmt → Dict ℕ → Dict ℕ
unfolding add_streams
add_found none none pids = pids
add_found (some pid) none pids = Dict.insert pid 0 pids
add_found none (some pmt) pids = add_streams pmt.es_streams pids
add_found (some pid) (some pmt) pids = add_streams pmt.es_streams (Dict.insert pid 0 pids)

-- `add_service_pids(service_id, pids)`, on the decoder of the current stream
unfoldable pub add_service_pids : ℕ → Parser → Dict ℕ → Dict ℕ
unfolding add_found
add_service_pids service_id p pids =
    let d = get_decoder p.ts_id p in
    add_found (Dict.find service_id d.pat.programs) (Dict.find service_id d.pmt) pids

-- `add_service_pids(pids)`, over the chosen services
unfoldable pub add_chosen_pids : Dict ℕ → Parser → Dict ℕ → Dict ℕ
unfolding add_service_pids
add_chosen_pids [] p pids = pids
add_chosen_pids ((id, _) ∷ ids) p pids = add_chosen_pids ids p (add_service_pids id p pids)

-- `set_service_id` for each of the ids
unfoldable pub choose : List ℕ → Dict ℕ → Dict ℕ
choose [] m = m
choose (id ∷ ids) m = choose ids (Dict.insert id 0 m)

-- the loop of `set_service_ids` over the map tables already decoded
unfoldable pub process_pmts : Dict ℕ → Dict DecodedPmt → Parser → Parser
unfolding process_pmt
process_pmts [] pmts p = p
process_pmts ((id, _) ∷ ids) pmts p =
    process_pmts ids pmts
      (elim (Dict.find id pmts) [ none ↦ p | some pmt ↦ process_pmt pmt.es_streams p ])

module _ (gen_pat : ℕ → ℕ → List (ℕ × ℕ) → List Section) where
  -- `set_service_ids`, on the numbers that its string holds
  unfoldable pub set_service_ids : List ℕ → Parser → Parser
  unfolding choose rewrite_pat process_pmts
  set_service_ids ids p =
      let q = record p { service_ids = choose ids []; payload_pids = [] } in
      if q.has_pat
      then (let r = rewrite_pat gen_pat q in
          let d = get_decoder r.ts_id r in
          process_pmts r.service_ids d.pmt (process_pat d.pat.programs (put_decoder r.ts_id d r)))
      else q

-- `detach_demux`
unfoldable pub detach_demux : Parser → Parser
detach_demux p = record p {
  h_demux = [];
  h_pmt = [];
  filters = 0xffff ∷ p.filters;
  service_ids = [];
  rcvd_pmt = [];
  payload_pids = [];
  out_pids = [];
}

-- `cleanup`
unfoldable pub cleanup : Parser → Parser
unfolding detach_demux
cleanup p = record (detach_demux p) { networks = []; decoders = []; channel_info = [] }

-- `reset_filters`
unfoldable pub reset_filters : Parser → Parser
unfolding add_filter
reset_filters p = add_filter pid_eit (
    add_filter pid_tot
      (add_filter pid_sdt (add_filter pid_nit (add_filter pid_pat (add_filter pid_atsc p)))))

-- `reset`
unfoldable pub reset : Parser → Parser
unfolding detach_demux reset_filters
reset p = reset_filters (record (detach_demux p) {
  new_channel_info = record { channel = 0; frequency = 0 };
  ts_id = 0;
  dumped_eit = 0;
  tei_count = 0;
  has_pat = false;
  has_mgt = false;
  has_vct = false;
  has_sdt = false;
  has_nit = false;
  expect_vct = true;
  h_demux = (pid_nit, true) ∷ (pid_sdt, true) ∷ (pid_eit, true) ∷ (pid_tot, true) ∷ [];
})
