-- ===== src/Parse/Sync.antt =====
-- The inner loop of `feed`, which looks for the next packet after a loss of sync.
use libdvbtee.Base.{
  ℕ, zero, suc, ◌+◌, ◌-◌, ◌*◌, ◌/◌, ◌%◌, ◌⊎◌, ◌≤◌, ◌<◌, ◌≡◌, refl, ap, ◌∙◌, true, false, List,
  arith, ◌==◌, drop, drop-drop, Bool-cases, inl, inr, subst,
}
use libdvbtee.Parse.Feed.{unsynced, resync}

unsynced-zero : (p : List ℕ) → unsynced 0 p ≡ false
unfolding unsynced
unsynced-zero p = refl

unsynced-some : (i : ℕ) (p : List ℕ) → unsynced i p ≡ true → 0 < i
unfolding unsynced
unsynced-some zero p u = ground (arith)
unsynced-some (suc i) p u = omega arith

offset-cases :
    (n : ℕ) → n < 188 → ((n + 1 == 188) ≡ true × n ≡ 187) ⊎ ((n + 1 == 188) ≡ false × n + 1 < 188)
offset-cases n h = elim (Bool-cases (n + 1 == 188)) [
  | inl e ↦ inl (e, ground arith)
  | inr e ↦ inr (e, ground arith)
]

-- From the `sync_offset` and the count that the code starts the loop with, or comes by in it, the
-- loop ends by its own condition and not for lack of fuel: there is a sync byte at the packet it
-- stops at and behind it, or no packet is left.
resync_ends :
    (fuel sync_offset i : ℕ) (p : List ℕ)
    → sync_offset < 188
    → 188 * i ≤ fuel + sync_offset
    → let (at, left) = resync fuel sync_offset i p in unsynced left at ≡ false
unfolding resync
resync_ends zero sync_offset i p h f =
    subst (λ n. unsynced n p ≡ false) {x = 0} {y = i} (omega arith) (unsynced-zero p)
resync_ends (suc fuel) sync_offset i p h f = elim (Bool-cases (unsynced i p)) [
  | inr ends ↦ rw ends ends
  | inl goes ↦ elim (offset-cases sync_offset h) [
    | inl (e, last) ↦
        rw goes (rw e (resync_ends fuel 0 (i - 1) (drop 1 p) (omega arith) (omega arith)))
    | inr (e, more) ↦
        rw goes (rw e (resync_ends fuel (sync_offset + 1) i (drop 1 p) more (omega arith)))
  ]
]

-- The loop stops a whole number of bytes further on, and lowers the count by one for every 188 of
-- them, those already skipped included.
resync_skips :
    (fuel sync_offset i : ℕ) (p : List ℕ)
    → sync_offset < 188
    → let (at, left) = resync fuel sync_offset i p in
      (k : ℕ) × (at ≡ drop k p)
      × (left ≡ i - (k + sync_offset) / 188)
      × ((k + sync_offset) / 188 ≤ i)
unfolding resync unsynced
resync_skips zero sync_offset i p h = (0, refl, omega arith, omega arith)
resync_skips (suc fuel) sync_offset i p h = elim (Bool-cases (unsynced i p)) [
  | inr ends ↦ rw ends (0, refl, omega arith, omega arith)
  | inl goes ↦ elim (offset-cases sync_offset h) [
    | inl (e, last) ↦
        (let (k, at, left, le) = resync_skips fuel 0 (i - 1) (drop 1 p) (omega arith) in
          rw goes (
            rw e (
              k + 1,
              at ∙ drop-drop 1 k p ∙ ap (λ n. drop n p) {x = 1 + k} {y = k + 1} (omega arith),
              omega arith,
              omega (arith, unsynced-some i p goes),
            )))
    | inr (e, more) ↦
        (let (k, at, left, le) = resync_skips fuel (sync_offset + 1) i (drop 1 p) more in
          rw goes (
            rw e (
              k + 1,
              at ∙ drop-drop 1 k p ∙ ap (λ n. drop n p) {x = 1 + k} {y = k + 1} (omega arith),
              omega (arith, left),
              omega (arith, le),
            )))
  ]
]

-- Started on a packet and a count of packets, the loop skips some k bytes, and lowers the count by
-- one for every 188 of them. It ends by its own condition: the packet has its sync byte and so has
-- the next one, if more than one is counted, or none is left. The packets it still counts end
-- k % 188 bytes behind the bytes that were counted before, so behind the buffer if that held whole
-- packets only.
pub resync_lem :
    (i : ℕ) (p : List ℕ)
    → let (at, left) = resync (188 * i) 0 i p in
      (k : ℕ) × (at ≡ drop k p)
      × (unsynced left at ≡ false)
      × (left + k / 188 ≡ i)
      × (k + 188 * left ≡ 188 * i + k % 188)
resync_lem i p =
    let (k, at, left, le) = resync_skips (188 * i) 0 i p (omega arith) in
    (k, at, resync_ends (188 * i) 0 i p (omega arith) (omega arith), omega arith, omega arith)
