-- ===== src/Channels.antt =====
-- libdvbtee/channels.cpp: the frequency of a channel, in Hz, and the channel of a frequency. The frequencies
-- are all below 2^31, so an `int` holds them; where the offset of the base is negative it is subtracted.
pub mod Search
mod Tests
use libdvbtee.Base.{
  ℕ, zero, suc, ◌+◌, ◌-◌, ◌*◌, ◌≤◌, ◌<◌, ◌≡◌, refl, Bool, true, false, List, [], ◌∷◌, arith, ltb,
  leb, ◌==◌, ◌&&◌, if◌then◌else◌,
}

unfoldable pub atsc_vsb_base_offset : ℕ → ℕ
atsc_vsb_base_offset channel =
    if ltb channel 5
    then 45000000
    else if ltb channel 7
    then 49000000
    else if ltb channel 14
    then 135000000
    else 389000000

unfoldable pub dvbt_base_offset : ℕ → ℕ
dvbt_base_offset channel =
    if ltb channel 13 then 142500000 else if ltb channel 70 then 306000000 else 0

unfoldable pub atsc_vsb_chan_to_freq : ℕ → ℕ
unfolding atsc_vsb_base_offset
atsc_vsb_chan_to_freq channel = channel * 6000000 + atsc_vsb_base_offset channel

-- `atsc_qam_base_offset`, added
unfoldable pub atsc_qam_chan_to_freq : ℕ → ℕ
atsc_qam_chan_to_freq channel =
    if ltb channel 5
    then channel * 6000000 + 45000000
    else if ltb channel 7
    then channel * 6000000 + 49000000
    else if ltb channel 14
    then channel * 6000000 + 135000000
    else if ltb channel 17
    then channel * 6000000 + 39012500
    else if ltb channel 23
    then channel * 6000000 + 39000000
    else if ltb channel 25
    then channel * 6000000 + 81000000
    else if ltb channel 54
    then channel * 6000000 + 81012500
    else if ltb channel 95
    then channel * 6000000 + 81000000
    else if ltb channel 98
    then channel * 6000000 - 477000000
    else if ltb channel 100
    then channel * 6000000 - 476987500
    else channel * 6000000 + 51000000

unfoldable pub dvbt_chan_to_freq : ℕ → ℕ
unfolding dvbt_base_offset
dvbt_chan_to_freq channel =
    channel * (if leb channel 12 then 7000000 else 8000000) + dvbt_base_offset channel

-- `abs(a - b) < 1000000`
abbrev pub near : ℕ → ℕ → Bool
near a b = ltb (a - b + (b - a)) 1000000

-- The loop of `*_freq_to_chan` over `n` channels from `channel` on.
unfoldable pub find_chan : (ℕ → ℕ) → ℕ → ℕ → ℕ → ℕ
find_chan to_freq zero channel frequency = 0
find_chan to_freq (suc n) channel frequency =
    let later = find_chan to_freq n (channel + 1) frequency in
    if near (to_freq channel) frequency then channel else later

-- from 2 to 69
unfoldable pub atsc_vsb_freq_to_chan : ℕ → ℕ
unfolding find_chan atsc_vsb_chan_to_freq
atsc_vsb_freq_to_chan = find_chan atsc_vsb_chan_to_freq 68 2

-- from 2 to 133
unfoldable pub atsc_qam_freq_to_chan : ℕ → ℕ
unfolding find_chan atsc_qam_chan_to_freq
atsc_qam_freq_to_chan = find_chan atsc_qam_chan_to_freq 132 2

-- from 5 to 69
unfoldable pub dvbt_freq_to_chan : ℕ → ℕ
unfolding find_chan dvbt_chan_to_freq
dvbt_freq_to_chan = find_chan dvbt_chan_to_freq 65 5
