-- ===== src/Parse/Afresh.antt =====
-- What `reset` forgets, and what it does not.
use libdvbtee.Base.{ℕ, ◌≡◌, refl, ap, ◌∙◌, Bool, true, false, none, List, [], ◌||◌, arith, ◌==◌}
use libdvbtee.Base.Dict
use libdvbtee.Parse.State.{
  Parser, OutType, pes_audio, add_filter, pid_pat, pid_nit, pid_sdt, pid_eit, pid_tot,
}
use libdvbtee.Parse.Ready.{is_pmt_ready, is_basic_psip_ready, is_psip_ready, is_epg_ready}
use libdvbtee.Parse.Services.{reset, detach_demux, reset_filters}
use libdvbtee.Parse.Feed.{next, send, feed_payload, feed_ett, feed_eit, feed_pid}

reset_keeps :
    (pid : ℕ) (p : Parser)
    → (Dict.has pid (reset p).h_pmt ≡ false)
      × (Dict.find pid (reset p).eit_pids ≡ Dict.find pid p.eit_pids)
      × (Dict.find pid (reset p).ett_pids ≡ Dict.find pid p.ett_pids)
      × (Dict.has pid (reset p).audio_pids ≡ Dict.has pid p.audio_pids)
unfolding reset detach_demux reset_filters add_filter Dict.has
reset_keeps pid p = (refl, refl, refl, refl)

demuxed :
    (pid : ℕ) (p : Parser)
    → Dict.has pid (reset p).h_demux
      ≡ (pid == pid_nit || pid == pid_sdt || pid == pid_eit || pid == pid_tot)
unfolding reset detach_demux reset_filters add_filter Dict.has
demuxed pid p = ground arith

-- After `reset` nothing is ready, no service is chosen, and tables are demultiplexed on the four pids of DVB
-- only.
pub reset_forgets :
    (id pid : ℕ) (p : Parser)
    → let q = reset p in
      (is_pmt_ready id q ≡ false)
      × (is_basic_psip_ready q ≡ false)
      × (is_psip_ready q ≡ false)
      × (is_epg_ready q ≡ false)
      × (q.service_ids ≡ [])
      × (Dict.has pid q.h_demux
          ≡ (pid == pid_nit || pid == pid_sdt || pid == pid_eit || pid == pid_tot))
unfolding reset detach_demux reset_filters add_filter is_pmt_ready is_basic_psip_ready is_psip_ready
    is_epg_ready Dict.has
reset_forgets id pid p = (refl, refl, refl, ground arith, refl, ground arith)

module _ {ℓ} {S : Type ℓ} (psi_push : ℕ → List ℕ → S × Parser → S × Parser) (now : S → ℕ) where
  feed_payload-audio :
      (pid : ℕ) (pkt : List ℕ) (b : Bool) (type : OutType) (s : S) (q : Parser)
      → Dict.has pid q.h_demux ≡ false
      → Dict.has pid q.audio_pids ≡ true
      → feed_payload psi_push now pid pkt b type (s, q) ≡ send psi_push now pid pkt pes_audio (s, q)
  unfolding feed_payload
  feed_payload-audio pid pkt b type s q d a = simp (d, a) refl

  pub feed_eit-none :
      (pid : ℕ) (pkt : List ℕ) (b : Bool) (type : OutType) (s : S) (q : Parser)
      → Dict.find pid q.eit_pids ≡ none
      → Dict.find pid q.ett_pids ≡ none
      → feed_eit psi_push now pid pkt b type (s, q)
        ≡ next (feed_payload psi_push now pid pkt b type (s, q))
  unfolding feed_eit feed_ett
  feed_eit-none pid pkt b type s q e t = rw (e, feed_eit) (rw (t, feed_ett) refl)

  feed_pid-audio :
      (pid : ℕ) (pkt : List ℕ) (s : S) (q : Parser)
      → (pid == pid_pat) ≡ false
      → Dict.has pid q.h_pmt ≡ false
      → Dict.find pid q.eit_pids ≡ none
      → Dict.find pid q.ett_pids ≡ none
      → Dict.has pid q.h_demux ≡ false
      → Dict.has pid q.audio_pids ≡ true
      → feed_pid psi_push now pid pkt (s, q) ≡ next (send psi_push now pid pkt pes_audio (s, q))
  unfolding feed_pid
  feed_pid-audio pid pkt s q n m e t d a =
      simp (n, m)
        (feed_eit-none pid pkt _ _ s q e t ∙ ap next (feed_payload-audio pid pkt _ _ s q d a))

  -- A pid that carried audio before `reset` is sent on as audio after it, unless it is the pid of the associations or one of the four of DVB's tables, or one that
  -- event information or texts were collected from.
  pub feed_pid-reset :
      (pid : ℕ) (pkt : List ℕ) (s : S) (p : Parser)
      → Dict.has pid p.audio_pids ≡ true
      → Dict.find pid p.eit_pids ≡ none
      → Dict.find pid p.ett_pids ≡ none
      → (pid == pid_pat) ≡ false
      → (pid == pid_nit || pid == pid_sdt || pid == pid_eit || pid == pid_tot) ≡ false
      → feed_pid psi_push now pid pkt (s, reset p)
        ≡ next (send psi_push now pid pkt pes_audio (s, reset p))
  feed_pid-reset pid pkt s p a e t n m =
      let (h_pmt, eits, etts, audio) = reset_keeps pid p in
      feed_pid-audio pid pkt s (reset p) n h_pmt (eits ∙ e) (etts ∙ t) (demuxed pid p ∙ m)
        (audio ∙ a)
