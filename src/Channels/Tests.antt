-- ===== src/Channels/Tests.antt =====
-- The channel of a frequency of channel 14 over the air, half a MHz off.
use libdvbtee.Base.{ℕ, ◌≡◌}
use libdvbtee.Channels.{
  atsc_vsb_base_offset, atsc_vsb_chan_to_freq, atsc_qam_chan_to_freq, dvbt_base_offset,
  dvbt_chan_to_freq, atsc_vsb_freq_to_chan,
}
use libdvbtee.Channels.Search.{freq_to_chan_near}

program : ℕ
unfolding atsc_vsb_base_offset atsc_vsb_chan_to_freq atsc_qam_chan_to_freq dvbt_base_offset
    dvbt_chan_to_freq
program = 0

freq_to_chan_near_example :
    (atsc_vsb_freq_to_chan 473500000 ≡ 14) × (◌≡◌ {A = ℕ} 14 14) × (◌≡◌ {A = ℕ} 14 14)
unfolding program
freq_to_chan_near_example = freq_to_chan_near 14 473500000
