-- ===== src/Parse/Loop.antt =====
-- The loop of `feed` over a buffer whose packets all have their sync byte.
use libdvbtee.Base.{
  ℕ, zero, suc, ◌+◌, ◌-◌, ◌*◌, ◌/◌, ◌%◌, ◌^◌, ◌<◌, ◌≡◌, ◌≢◌, refl, ap, subst, sym, ◌∙◌, Bool, true,
  false, ≢→==, List, [], ◌∷◌, ◌++◌, ◌&&◌, ◌||◌, arith, ltb, length, drop, take, take-append_eq,
  drop-append_ge,
}
use libdvbtee.Stats.{parse, parse_hdr, byte, no_pid}
use libdvbtee.Parse.State.{Parser}
use libdvbtee.Parse.Feed.{
  tp_pkt_pid, unsynced, resync, next, again, feed_packet, move_on, feed_packets, feed, dump_eits,
}

-- the sync byte, and a byte where the pid ends
pub record IsSynced (p : List ℕ) : Type 0 where
  pub sync : byte p 0 ≡ 0x47
  pub pid_low : byte p 2 < 256

-- The first `n` packets from `p` on have their sync byte.
abbrev pub IsAligned : ℕ → List ℕ → Type 0
IsAligned zero p = Unit
IsAligned (suc n) p = IsSynced p × IsAligned n (drop 188 p)

IsAligned-less : (n : ℕ) (p : List ℕ) → IsAligned (suc n) p → IsAligned n p
IsAligned-less zero p a = tt
IsAligned-less (suc n) p a = (a.0, IsAligned-less n (drop 188 p) a.1)

tp_pkt_pid-IsSynced : (p : List ℕ) → IsSynced p → tp_pkt_pid p ≢ no_pid
unfolding tp_pkt_pid
tp_pkt_pid-IsSynced p a = ground (arith, a.sync, a.pid_low)

parse-IsSynced : (p : List ℕ) → IsSynced p → (parse p).pid ≢ no_pid
unfolding parse parse_hdr
parse-IsSynced p a = ground (arith, a.sync, a.pid_low)

no_test : (b c : Bool) → (b && false || c && false) ≡ false
no_test true true = refl
no_test true false = refl
no_test false true = refl
no_test false false = refl

unsynced-IsAligned : (n : ℕ) (p : List ℕ) → IsAligned n p → unsynced n p ≡ false
unfolding unsynced
unsynced-IsAligned zero p a = refl
unsynced-IsAligned (suc zero) p a = rw (≢→== (parse p).pid no_pid (parse-IsSynced p a.0)) refl
unsynced-IsAligned (suc (suc n)) p a = rw (≢→== (parse p).pid no_pid (parse-IsSynced p a.0)) (
    rw (≢→== (tp_pkt_pid (drop 188 p)) no_pid (tp_pkt_pid-IsSynced (drop 188 p) a.1.0))
      (no_test (ltb 0 (suc (suc n))) (ltb 1 (suc (suc n)))))

-- so the inner loop does nothing
resync-IsAligned : (fuel n : ℕ) (p : List ℕ) → IsAligned n p → resync fuel 0 n p ≡ (p, n)
unfolding resync
resync-IsAligned zero n p a = refl
resync-IsAligned (suc fuel) n p a = rw (unsynced-IsAligned n p a) refl

one_less : (n : ℕ) → suc n - 1 ≡ n
one_less n = omega arith

-- packets one behind the other, and what follows them
abbrev pub join : List (List ℕ) → List ℕ → List ℕ
join [] rest = rest
join (pkt ∷ pkts) rest = pkt ++ join pkts rest

-- Each is 188 bytes long and starts with the sync byte.
abbrev pub IsStream : List (List ℕ) → Type 0
IsStream [] = Unit
IsStream (pkt ∷ pkts) = (length pkt ≡ 188) × IsSynced pkt × IsStream pkts

IsSynced-append : (p rest : List ℕ) → length p ≡ 188 → IsSynced p → IsSynced (p ++ rest)
IsSynced-append [] rest l a = ground arith
IsSynced-append (x ∷ []) rest l a = ground arith
IsSynced-append (x ∷ y ∷ []) rest l a = ground arith
IsSynced-append (x ∷ y ∷ z ∷ p) rest l a = record { sync = a.sync; pid_low = a.pid_low }

drop_packet : (p rest : List ℕ) → length p ≡ 188 → drop 188 (p ++ rest) ≡ rest
drop_packet p rest l =
    ap (λ n. drop n (p ++ rest)) {x = 188} {y = length p + 0} (omega arith)
    ∙ drop-append_ge 0 p rest

join-IsAligned :
    (pkts : List (List ℕ)) (rest : List ℕ)
    → IsStream pkts
    → IsAligned (length pkts) (join pkts rest)
join-IsAligned [] rest a = tt
join-IsAligned (pkt ∷ pkts) rest a = (
  IsSynced-append pkt (join pkts rest) a.0 a.1,
  subst (IsAligned (length pkts)) {x = join pkts rest} {y = drop 188 (pkt ++ join pkts rest)}
      (sym (drop_packet pkt (join pkts rest) a.0)) (join-IsAligned pkts rest a.2),
)

module _ {ℓ} {S : Type ℓ} (psi_push : ℕ → List ℕ → S × Parser → S × Parser) (now : S → ℕ) where
  -- A run over whole packets: the loop body takes each of them and goes on to the next.
  pub data Run : List (List ℕ) → S × Parser → S × Parser → Type ℓ where
    run_nil : {sp : S × Parser} → Run [] sp sp
    run_next :
        {pkt : List ℕ} {pkts : List (List ℕ)} {sp sp' : S × Parser} {s : S} {q : Parser}
        → feed_packet psi_push now pkt sp ≡ next (s, q)
        → Run pkts (s, record q { fed_pkt_count = (q.fed_pkt_count + 1) % 2 ^ 32 }) sp'
        → Run (pkt ∷ pkts) sp sp'

  -- One round on an aligned buffer.
  feed_packets-IsAligned :
      (n : ℕ) (p : List ℕ) (sp : S × Parser)
      → IsAligned (suc n) p
      → feed_packets psi_push now (suc n) (suc n) p sp ≡ (
          let (rest, done) = move_on psi_push now p (feed_packet psi_push now (take 188 p) sp) in
          feed_packets psi_push now n n rest done)
  unfolding feed_packets
  feed_packets-IsAligned n p sp a =
      rw (resync-IsAligned (188 * suc n) (suc n) p a)
        (rw (≢→== (suc n) 0 (omega arith)) (rw (one_less n) refl))

  feed_packet_tei :
      (pkt : List ℕ) (s : S) (q : Parser)
      → (parse pkt).tei ≡ true
      → q.process_err_pkts ≡ false
      → feed_packet psi_push now pkt (s, q)
        ≡ again (s, record q { tei_count = (q.tei_count + 1) % 2 ^ 32 })
  unfolding feed_packet
  feed_packet_tei pkt s q t e = simp (t, e) refl

  stalls :
      (n : ℕ) (p : List ℕ) (s : S) (q : Parser)
      → IsAligned n p
      → (parse (take 188 p)).tei ≡ true
      → q.process_err_pkts ≡ false
      → q.tei_count < 2 ^ 32
      → feed_packets psi_push now n n p (s, q)
        ≡ (s, record q { tei_count = (q.tei_count + n) % 2 ^ 32 })
  unfolding move_on
  stalls zero p s q a t e fits =
      unfold feed_packets in ap (λ k. (s, record q { tei_count = k })) (omega (arith, fits))
  stalls (suc n) p s q a t e fits =
      feed_packets-IsAligned n p (s, q) a
      ∙ ap
          (λ r.
            feed_packets psi_push now n n (move_on psi_push now p r).0 (move_on psi_push now p r).1)
          (feed_packet_tei (take 188 p) s q t e)
      ∙ stalls n p s (record q { tei_count = (q.tei_count + 1) % 2 ^ 32 }) (IsAligned-less n p a) t
          e (omega arith)
      ∙ ap (λ k. (s, record q { tei_count = k })) {x = ((q.tei_count + 1) % 2 ^ 32 + n) % 2 ^ 32}
          {y = (q.tei_count + suc n) % 2 ^ 32} (omega arith)

  runs :
      (pkts : List (List ℕ)) (rest : List ℕ) {sp sp' : S × Parser}
      → Run pkts sp sp'
      → IsStream pkts
      → feed_packets psi_push now (length pkts) (length pkts) (join pkts rest) sp ≡ sp'
  unfolding move_on
  runs [] rest run_nil a = unfold feed_packets in refl
  runs (pkt ∷ pkts) rest {sp} (run_next {s = s} {q = q} e r) a =
      feed_packets-IsAligned (length pkts) (pkt ++ join pkts rest) sp
        (join-IsAligned (pkt ∷ pkts) rest a)
      ∙ ap
          (λ x.
            feed_packets psi_push now (length pkts) (length pkts)
              (move_on psi_push now (pkt ++ join pkts rest) x).0
              (move_on psi_push now (pkt ++ join pkts rest) x).1)
          (ap (λ x. feed_packet psi_push now x sp) (take-append_eq 188 pkt (join pkts rest) a.0)
            ∙ e)
      ∙ ap
          (λ x.
            feed_packets psi_push now (length pkts) (length pkts) x
              (s, record q { fed_pkt_count = (q.fed_pkt_count + 1) % 2 ^ 32 }))
          (drop_packet pkt (join pkts rest) a.0)
      ∙ runs pkts rest r a.2

  feed_enabled :
      (count : ℕ) (buffer : List ℕ) (s : S) (q : Parser) (done : S × Parser)
      → 0 < count
      → q.enabled ≡ true
      → feed_packets psi_push now (count / 188) (count / 188) buffer (s, q) ≡ done
      → feed psi_push now count buffer (s, q) ≡ (done.0, dump_eits 128 done.1)
  unfolding feed
  feed_enabled count buffer s q done c on e =
      simp (≢→== count 0 (omega arith), on) (ap (λ sp. (sp.0, dump_eits 128 sp.1)) {y = done} e)

  -- A packet with the error flag at the start of a buffer whose packets all have their sync byte,
  -- where the parser is enabled and does not process such packets, ends the call: the loop meets
  -- the same packet once for every packet of the buffer, each time counts it as an error, in 32 bits,
  -- and looks at none of the packets behind it.
  pub feed_stops_at_tei :
      (count : ℕ) (buffer : List ℕ) (s : S) (q : Parser)
      → 0 < count
      → q.enabled ≡ true
      → IsAligned (count / 188) buffer
      → (parse (take 188 buffer)).tei ≡ true
      → q.process_err_pkts ≡ false
      → q.tei_count < 2 ^ 32
      → feed psi_push now count buffer (s, q)
        ≡ (s, dump_eits 128 (record q { tei_count = (q.tei_count + count / 188) % 2 ^ 32 }))
  feed_stops_at_tei count buffer s q c on a t e fits =
      feed_enabled count buffer s q _ c on (stalls (count / 188) buffer s q a t e fits)

  -- Given to an enabled parser, a buffer of at least one packet, each with its sync byte, and of
  -- less than a packet behind them: where the loop body goes on behind each packet, `feed` has
  -- handled each of them once and in their order, as it ends, whatever the bytes behind them are.
  pub feed-Run :
      (pkts : List (List ℕ)) (rest : List ℕ) (s t : S) (q r : Parser)
      → 0 < length pkts
      → length rest < 188
      → IsStream pkts
      → q.enabled ≡ true
      → Run pkts (s, q) (t, r)
      → feed psi_push now (length pkts * 188 + length rest) (join pkts rest) (s, q)
        ≡ (t, dump_eits 128 r)
  feed-Run pkts rest s t q r c l a on run =
      feed_enabled (length pkts * 188 + length rest) (join pkts rest) s q (t, r) (omega arith) on
        (ap (λ n. feed_packets psi_push now n n (join pkts rest) (s, q)) {y = length pkts}
            (omega arith)
          ∙ runs pkts rest run a)
