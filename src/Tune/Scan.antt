-- ===== src/Tune/Scan.antt =====
-- Which channels a scan tunes to.
use libdvbtee.Base.{
  ℕ, ◌≡◌, ◌∙◌, refl, sym, ap, Bool, true, false, List, [], ◌∷◌, ◌++◌, ◌&&◌, arith, inl, inr,
  Bool-cases, ◌==◌, if◌then◌else◌,
}
use mathlib.Core.List.{append-nil, append_assoc}
use libdvbtee.Base.Dict
use libdvbtee.Base.Dict.{Dict, has-insert}
use libdvbtee.Tune.{
  Tune, Readings, Modulation, modulation_of, scan_feed, scan_channel, scan_loop, scan_thread,
  close_fe, stop_feed, wait_for_lock_or_timeout,
}

-- No channel is listed twice, as in a map.
abbrev pub AreDistinct : Dict Bool → Type 0
AreDistinct [] = Unit
AreDistinct ((channel, _) ∷ list) = (Dict.has channel list ≡ false) × AreDistinct list

-- The calls of `tune_channel` that are due: the channels of the list that are none of those already found.
unfoldable pub due : Modulation → Dict ℕ → Dict Bool → List (Modulation × ℕ)
due modulation found [] = []
due modulation found ((channel, _) ∷ list) =
    if Dict.has channel found
    then due modulation found list
    else (modulation, channel) ∷ due modulation found list

due-insert :
    (modulation : Modulation) (channel id : ℕ) (found : Dict ℕ) (list : Dict Bool)
    → Dict.has channel list ≡ false
    → due modulation (Dict.insert channel id found) list ≡ due modulation found list
unfolding due Dict.has
due-insert modulation channel id found [] apart = refl
due-insert modulation channel id found ((c, b) ∷ list) apart =
    let tail : Dict.has channel list ≡ false = ground (arith, apart) in
    let other : (channel == c) ≡ false = ground (arith, apart) in
    rw (has-insert c channel id found, other, due-insert modulation channel id found list tail) refl

-- What a channel leaves in the state where the scan is not stopped.
scan_channel-due :
    (r : Readings) (channel : ℕ) (b : Bool) (list : Dict Bool) (t : Tune)
    → Dict.has channel list ≡ false
    → r.stopped ≡ false
    → r.stopped_later ≡ false
    → let step = scan_channel r channel t in
      (step.0 ≡ true)
      × (step.1.scan_mode ≡ t.scan_mode)
      × (step.1.tuned ++ due (modulation_of t.scan_mode) step.1.channels list
          ≡ t.tuned ++ due (modulation_of t.scan_mode) t.channels ((channel, b) ∷ list))
unfolding scan_channel scan_feed stop_feed due
scan_channel-due r channel b list t apart on on_later =
    elim (Bool-cases (Dict.has channel t.channels)) [
      | inl found ↦ rw (on, found) (refl, refl, refl)
      | inr new ↦
          elim (Bool-cases (r.tunes && wait_for_lock_or_timeout r.statuses r.more_statuses)) [
            | inr silent ↦ rw (on, new, silent) (refl, refl, append_assoc t.tuned _ _)
            | inl locked ↦ elim (Bool-cases r.feed_starts) [
              | inl feeds ↦
                  rw
                    (
                      on,
                      on_later,
                      new,
                      locked,
                      feeds,
                      due-insert (modulation_of t.scan_mode) channel r.ts_id t.channels list apart,
                    )
                    (refl, refl, append_assoc t.tuned _ _)
              | inr stuck ↦
                  rw (on, on_later, new, locked, stuck) (refl, refl, append_assoc t.tuned _ _)
            ]
          ]
    ]

scan_loop-due :
    (device : ℕ → Readings) (list : Dict Bool) (t : Tune)
    → AreDistinct list
    → ((channel : ℕ) → (device channel).stopped ≡ false)
    → ((channel : ℕ) → (device channel).stopped_later ≡ false)
    → (scan_loop device list t).tuned ≡ t.tuned ++ due (modulation_of t.scan_mode) t.channels list
unfolding scan_loop
scan_loop-due device [] t apart on on_later = unfold due in sym (append-nil t.tuned)
scan_loop-due device ((channel, b) ∷ list) t apart on on_later =
    let step = scan_channel (device channel) channel t in
    let (goes, mode, asked) =
      scan_channel-due (device channel) channel b list t apart.0 (on channel) (on_later channel) in
    let rest = scan_loop-due device list step.1 apart.1 on on_later in
    rw goes
      (rest ∙ ap (λ m. step.1.tuned ++ due (modulation_of m) step.1.channels list) mode ∙ asked)

-- A scan that is not stopped, by a tuner that does not scan already, calls `tune_channel` for each channel
-- of its list that no scan has found before, in their order, once each and in the modulation of the mode,
-- whatever the device does; it ends with the front end closed and the scan complete.
pub scan_thread_lem :
    (device : ℕ → Readings) (t : Tune)
    → t.is_scan ≡ false
    → AreDistinct t.scan_channel_list
    → ((channel : ℕ) → (device channel).stopped ≡ false)
    → ((channel : ℕ) → (device channel).stopped_later ≡ false)
    → ((scan_thread device t).tuned
        ≡ t.tuned ++ due (modulation_of t.scan_mode) t.channels t.scan_channel_list)
      × ((scan_thread device t).scan_complete ≡ true)
      × ((scan_thread device t).is_scan ≡ false)
      × ((scan_thread device t).is_open ≡ false)
      × ((scan_thread device t).is_lock ≡ false)
unfolding scan_thread close_fe
scan_thread_lem device t idle apart on on_later = rw idle (
  scan_loop-due device t.scan_channel_list (record t { is_scan = true }) apart on on_later,
  refl,
  refl,
  refl,
  refl,
)
