-- ===== src/Parse/Handlers.antt =====
-- The handlers of libdvbtee/parse.cpp that libdvbpsi calls with a table, and the rewritten program
-- association table. The handlers of the time tables are left out: their decoder methods only
-- report.
use libdvbtee.Base.{ℕ, ◌+◌, ◌%◌, true, none, some, List, [], ◌∷◌, ◌==◌, if◌then◌else◌, length}
use libdvbtee.Base.Dict
use libdvbtee.Base.Dict.{Dict}
use libdvbtee.WritePsi.{Section, write_psi}
use libdvbtee.Decode.Records.{AtscEtt}
use libdvbtee.Decode.Tables.{PsiPat, PsiPmt, PsiMgt, PsiVct, PsiAtscEit, PsiNit, PsiSdt, PsiEit}
use libdvbtee.Decode.Stream
use libdvbtee.Decode.Stream.{Decode}
use libdvbtee.Parse.State.{Parser, pid_atsc, get_decoder, put_decoder, set_ts_id}
use libdvbtee.Parse.Psi.{process_pat, process_pmt, process_mgt, wrap}
use libdvbtee.Parse.Ready.{is_pmt_ready}

-- `programs[number]`, which makes an entry of pid 0 for a program that has none
unfoldable pub touch : Dict ℕ → Dict ℕ → Dict ℕ
touch [] programs = programs
touch ((number, _) ∷ ids) programs =
    touch ids (Dict.insert number (Dict.get_or number programs 0) programs)

-- the programs of the new table: those of the chosen services
unfoldable pub chosen : Dict ℕ → Dict ℕ → List (ℕ × ℕ)
chosen [] programs = []
chosen ((number, _) ∷ ids) programs = (number, Dict.get_or number programs 0) ∷ chosen ids programs

-- `take_pat` for a table that the decoder has not yet seen
unfoldable pub before_pat : PsiPat → Parser → Parser
unfolding set_ts_id
before_pat t p =
    let q = set_ts_id t.ts_id p in record q { h_demux = Dict.insert pid_atsc true q.h_demux }

-- `gen_pat` is libdvbpsi's: the sections of a table of this stream id, version and programs.
module _ (gen_pat : ℕ → ℕ → List (ℕ × ℕ) → List Section) where
  -- `rewrite_pat`
  unfoldable pub rewrite_pat : Parser → Parser
  unfolding touch chosen write_psi
  rewrite_pat p =
      if length p.service_ids == 0
      then p
      else let d = get_decoder p.ts_id p in
        let offset =
          (if p.rewritten_pat_ver_offset == 0x1e then 0 else p.rewritten_pat_ver_offset) + 1 in
        record (put_decoder p.ts_id
          (record d { pat = record d.pat { programs = touch p.service_ids d.pat.programs } }) p) {
            rewritten_pat_ver_offset = offset;
            pat_pkt =
                write_psi (record p.pat_pkt { sync = 0x47; flags = 0; pid_low = 0; counter = 0 })
                  (gen_pat p.ts_id ((offset + d.pat.version) % 32)
                    (chosen p.service_ids d.pat.programs));
          }

  -- for one that it has
  unfoldable pub after_pat : PsiPat → Parser → Parser
  unfolding rewrite_pat process_pat
  after_pat t p = record (rewrite_pat (process_pat (get_decoder t.ts_id p).pat.programs p)) {
    has_pat = true;
  }

  unfoldable pub take_pat : PsiPat → Parser → Parser
  unfolding before_pat after_pat wrap
  take_pat t = wrap (before_pat t) (Stream.take_pat t) (λ p. p.has_pat) (after_pat t)

-- `take_pmt`
unfoldable pub after_pmt : PsiPmt → Parser → Parser
unfolding process_pmt
after_pmt t p =
    let q : Parser = elim (Dict.find t.program (get_decoder p.ts_id p).pmt) [
      | none ↦ p
      | some pmt ↦ process_pmt pmt.es_streams p
    ] in
    record q { rcvd_pmt = Dict.insert t.program true q.rcvd_pmt }

unfoldable pub take_pmt : PsiPmt → Parser → Parser
unfolding after_pmt wrap
take_pmt t = wrap (λ p. p) (Stream.take_pmt t) (is_pmt_ready t.program) (after_pmt t)

-- `take_vct`
unfoldable pub take_vct : PsiVct → Parser → Parser
unfolding wrap
take_vct t =
    wrap (set_ts_id t.extension) (Stream.take_vct t) (λ p. p.has_vct)
      (λ p. record p { has_vct = true })

-- `take_mgt`
unfoldable pub take_mgt : PsiMgt → Parser → Parser
unfolding wrap
take_mgt t =
    wrap (λ p. p) (Stream.take_mgt t) (λ p. p.has_mgt)
      (λ p. record (process_mgt p) { has_mgt = true })

-- `take_nit_actual`
unfoldable pub take_nit_actual : PsiNit → Parser → Parser
unfolding wrap
take_nit_actual t =
    wrap (λ p. record p { has_nit = true }) (Stream.take_nit_actual t) (λ p. p.has_nit) (λ p. p)

-- `take_nit_other`
unfoldable pub take_nit_other : PsiNit → Parser → Parser
unfolding wrap
take_nit_other t = wrap (λ p. p) (Stream.take_nit_other t) (λ p. p.enabled) (λ p. p)

-- `take_sdt_actual`
unfoldable pub take_sdt_actual : PsiSdt → Parser → Parser
unfolding wrap
take_sdt_actual t =
    wrap (set_ts_id t.extension) (Stream.take_sdt_actual t) (λ p. p.has_sdt)
      (λ p. record p { has_sdt = true })

-- `take_sdt_other`
unfoldable pub take_sdt_other : PsiSdt → Parser → Parser
unfolding wrap
take_sdt_other t = wrap (λ p. p) (Stream.take_sdt_other t) (λ p. p.enabled) (λ p. p)

-- `take_eit` for the two kinds of table, and `take_ett`
unfoldable pub take_eit : PsiEit → Parser → Parser
unfolding wrap
take_eit t = wrap (λ p. p) (Stream.take_eit t) (λ p. p.enabled) (λ p. p)

unfoldable pub take_atsc_eit : PsiAtscEit → Parser → Parser
unfolding wrap
take_atsc_eit t = wrap (λ p. p) (Stream.take_atsc_eit t) (λ p. p.enabled) (λ p. p)

unfoldable pub take_ett : AtscEtt → Parser → Parser
unfolding wrap
take_ett t = wrap (λ p. p) (Stream.take_ett t) (λ p. p.enabled) (λ p. p)
