-- ===== src/Stats/Totals.antt =====
-- The byte counter under pid 0x2000 is the sum of the byte counters of all pids.
use libdvbtee.Base.{
  ℕ, ◌+◌, ◌%◌, ◌^◌, ◌<◌, ◌≡◌, ◌≢◌, refl, ◌∙◌, List, [], ◌∷◌, arith, ltb, ◌==◌, if◌then◌else◌, inl,
  inr, Bool-cases,
}
use libdvbtee.Base.Dict
use libdvbtee.Base.Dict.{Dict}
use libdvbtee.Stats.{
  Stats, PktStats, PktHdr, AdaptationField, byte, all_pids, no_pid, bump, count_bytes, push_pid,
  push_stats, push_continuity, check_continuity, push_discontinuity, push_pcr, push, parse, show,
  clear_stats,
}
use libdvbtee.Stats.Header.{pid-parse}

-- the sum of the counters under all keys but that of the totals
unfoldable pub total : Dict ℕ → ℕ
total [] = 0
total ((k, v) ∷ m) = if k == all_pids then total m else v + total m

-- The map is in order, and the counter of the totals is the sum of the others, modulo 2^64 as
-- each of them is.
pub record IsTotal (s : Stats) : Type 0 where
  pub sorted : Dict.IsSorted s.statistics
  pub summed : Dict.get_or all_pids s.statistics 0 ≡ total s.statistics % 2 ^ 64

total-insert :
    (k v : ℕ) (m : Dict ℕ)
    → k ≢ all_pids
    → Dict.IsSorted m
    → total (Dict.insert k v m) + Dict.get_or k m 0 ≡ total m + v
unfolding total Dict.insert Dict.get_or
total-insert k v [] ne s = ground arith
total-insert k v ((j, w) ∷ m) ne s =
    ground (arith, total-insert k v m ne s.1, Dict.get_or-Above k m 0, Dict.Above-mono k j m)

total-insert_all : (v : ℕ) (m : Dict ℕ) → total (Dict.insert all_pids v m) ≡ total m
unfolding total Dict.insert
total-insert_all v [] = refl
total-insert_all v ((j, w) ∷ m) = ground (arith, total-insert_all v m)

-- One packet's bytes, under a pid of its own and under the totals.
count_bytes-IsTotal :
    (c pid : ℕ) {s : Stats} → pid ≢ all_pids → IsTotal s → IsTotal (count_bytes c pid s)
unfolding count_bytes bump
count_bytes-IsTotal c pid {s} ne t = record {
  sorted = Dict.insert-IsSorted all_pids _ _ (Dict.insert-IsSorted pid _ s.statistics t.sorted);
  summed = ground (
    arith,
    t.summed,
    total-insert pid one s.statistics ne t.sorted,
    total-insert_all ((Dict.get_or all_pids under_pid 0 + c) % 2 ^ 64) under_pid,
    Dict.get_or-insert all_pids all_pids ((Dict.get_or all_pids under_pid 0 + c) % 2 ^ 64) 0
        under_pid,
    Dict.get_or-insert all_pids pid one 0 s.statistics,
  );
}
  where
    one : ℕ
    one = (Dict.get_or pid s.statistics 0 + c) % 2 ^ 64

    under_pid : Dict ℕ
    under_pid = Dict.insert pid one s.statistics

push_pid-IsTotal :
    (now c pid : ℕ) {s : Stats} → pid ≢ all_pids → IsTotal s → IsTotal (push_pid now c pid s)
unfolding push_pid show clear_stats
push_pid-IsTotal now c pid {s} ne t = elim (Bool-cases (ltb s.time_now now)) [
  | inl later ↦ rw later (
      count_bytes-IsTotal c pid ne
        (record { sorted = tt; summed = unfold total Dict.get_or in refl }))
  | inr same ↦ rw same (count_bytes-IsTotal c pid ne t)
]

-- What comes before the counting leaves the byte counters alone.
statistics-push_continuity :
    (h : PktHdr) (a : AdaptationField) (s : Stats)
    → (push_continuity h a s).statistics ≡ s.statistics
unfolding push_continuity check_continuity push_discontinuity
statistics-push_continuity h a s = ground arith

statistics-push_pcr :
    (h : PktHdr) (a : AdaptationField) (s : Stats) → (push_pcr h a s).statistics ≡ s.statistics
unfolding push_pcr
statistics-push_pcr h a s = ground arith

IsTotal-same : {s t : Stats} → t.statistics ≡ s.statistics → IsTotal s → IsTotal t
IsTotal-same e t = record { sorted = rw e t.sorted; summed = rw e t.summed }

push_stats-IsTotal :
    (now : ℕ) (pkt : PktStats) {s : Stats}
    → pkt.pid ≢ all_pids
    → IsTotal s
    → IsTotal (push_stats now pkt s)
unfolding push_stats
push_stats-IsTotal now pkt {s} ne t = elim (Bool-cases pkt.tei) [
  | inl bad ↦ rw bad (push_pid-IsTotal now 188 no_pid (omega arith) (IsTotal-same refl t))
  | inr good ↦ rw good (push_pid-IsTotal now 188 pkt.pid ne t)
]

-- Every packet that `push` counts keeps the byte counter under 0x2000 equal to the sum of the
-- counters of all pids, modulo 2^64, in every second and also across a change of the second.
pub push-IsTotal :
    (now : ℕ) (p : List ℕ) {s : Stats} → byte p 2 < 256 → IsTotal s → IsTotal (push now p s)
unfolding push
push-IsTotal now p {s} h t =
    push_stats-IsTotal now (parse p) (pid-parse p h).1
      (IsTotal-same (statistics-push_pcr _ _ _ ∙ statistics-push_continuity _ _ s) t)
