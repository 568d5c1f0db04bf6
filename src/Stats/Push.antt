-- ===== src/Stats/Push.antt =====
-- What one `push` does to the other counters: continuity, discontinuities, clocks, reports.
use libdvbtee.Base.{
  ℕ, ◌+◌, ◌%◌, ◌^◌, ◌≡◌, ◌≢◌, ◌∙◌, true, some, List, [], ◌&&◌, arith, ltb, ◌==◌, if◌then◌else◌,
  ◌++◌, replicate,
}
use libdvbtee.Base.Dict
use libdvbtee.Base.Dict.{Dict}
use libdvbtee.Stats.{
  Stats, Report, PktStats, all_pids, bump, has_payload, count_bytes, push_pid, push_stats,
  push_continuity, check_continuity, push_pcr, push, parse, parse_hdr, adaptation_of, show,
  clear_stats,
}

-- Without an adaptation field no discontinuity flag is read, and with one none is looked at.
check_continuity-adaptation_of :
    (p : List ℕ) (last : ℕ) (s : Stats)
    → check_continuity (parse_hdr p) (adaptation_of p) last s ≡ s
unfolding check_continuity adaptation_of
check_continuity-adaptation_of p last s = ground arith

-- So the continuity check of `push` only notes the counter.
push_continuity-parsed :
    (p : List ℕ) (s : Stats)
    → push_continuity (parse_hdr p) (adaptation_of p) s ≡ (
        if has_payload (parse_hdr p)
        then record s {
          continuity = Dict.insert (parse_hdr p).pid (parse_hdr p).continuity_ctr s.continuity;
        }
        else s)
unfolding push_continuity
push_continuity-parsed p s = grind (arith, check_continuity-adaptation_of p)

discontinuities-push_stats :
    (now : ℕ) (pkt : PktStats) (s : Stats)
    → (push_stats now pkt s).discontinuities
      ≡ (if ltb s.time_now now then [] else s.discontinuities)
unfolding push_stats push_pid count_bytes show clear_stats
discontinuities-push_stats now pkt s = ground arith

-- No packet is ever counted as a discontinuity, whatever its continuity counter and flags: `push`
-- leaves that map as it is, or clears it at the start of a new second.
pub discontinuities-push :
    (now : ℕ) (p : List ℕ) (s : Stats)
    → (push now p s).discontinuities ≡ (if ltb s.time_now now then [] else s.discontinuities)
unfolding push push_pcr
discontinuities-push now p s =
    discontinuities-push_stats now (parse p) _ ∙ ground (arith, push_continuity-parsed p s)

continuity-push_stats :
    (now : ℕ) (pkt : PktStats) (s : Stats) → (push_stats now pkt s).continuity ≡ s.continuity
unfolding push_stats push_pid count_bytes show clear_stats
continuity-push_stats now pkt s = ground arith

-- After `push` of a packet with a payload its pid has the packet's counter, and every other pid
-- the counter it had; a packet without a payload changes none. A new second clears none.
pub continuity-push :
    (now pid : ℕ) (p : List ℕ) (s : Stats)
    → Dict.find pid (push now p s).continuity ≡ (
        if has_payload (parse_hdr p) && (parse_hdr p).pid == pid
        then some (parse_hdr p).continuity_ctr
        else Dict.find pid s.continuity)
unfolding push push_pcr
continuity-push now pid p s = ground (
  arith,
  continuity-push_stats now (parse p) (
      push_pcr (parse_hdr p) (adaptation_of p) (push_continuity (parse_hdr p) (adaptation_of p) s)),
  push_continuity-parsed p s,
  Dict.find-insert pid (parse_hdr p).pid (parse_hdr p).continuity_ctr s.continuity,
)

-- how many ask to be told of the counters
unfoldable pub listeners : Stats → ℕ
listeners s = (if s.has_callback then 1 else 0) + (if s.has_iface then 1 else 0)

-- The first `push_pid` in a later second hands the counters of the second that is over to each
-- listener once, and counts its own bytes from nothing with no error count; any other hands over
-- nothing, adds its bytes to those of its pid, and keeps the error count.
pub push_pid_reports :
    (now c pid : ℕ) (s : Stats)
    → pid ≢ all_pids
    → let s' = push_pid now c pid s in
      let over : Report = record {
        bitrates = s.statistics;
        discontinuities = s.discontinuities;
        tei_count = s.tei_count;
        per_sec = true;
      } in
      let later = ltb s.time_now now in
      (s'.reports ≡ replicate (if later then listeners s else 0) over ++ s.reports)
      × (Dict.get_or pid s'.statistics 0
          ≡ ((if later then 0 else Dict.get_or pid s.statistics 0) + c) % 2 ^ 64)
      × (s'.tei_count ≡ (if later then 0 else s.tei_count))
      × (s'.time_now ≡ (if later then now else s.time_now))
unfolding push_pid show clear_stats count_bytes bump listeners
push_pid_reports now c pid s ne = (
  ground arith,
  ground (arith, counted s.statistics, counted [], Dict.get_or-nil {V = ℕ} pid 0),
  ground arith,
  ground arith,
)
  where
    counted :
        (m : Dict ℕ)
        → Dict.get_or pid (bump all_pids c (bump pid c m)) 0 ≡ (Dict.get_or pid m 0 + c) % 2 ^ 64
    counted m = ground (
      arith,
      Dict.get_or-insert pid all_pids ((Dict.get_or all_pids (bump pid c m) 0 + c) % 2 ^ 64) 0
          (bump pid c m),
      Dict.get_or-insert pid pid ((Dict.get_or pid m 0 + c) % 2 ^ 64) 0 m,
    )
