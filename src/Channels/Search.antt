-- ===== src/Channels/Search.antt =====
-- The channel that the searches of channels.cpp find for a frequency.
use libdvbtee.Base.{
  ℕ, zero, suc, ◌+◌, ◌-◌, ◌*◌, ◌≤◌, ◌<◌, ◌≡◌, ◌≢◌, ◌⊎◌, refl, sym, ap, subst, ◌∙◌, Bool, true,
  false, arith, ltb, leb, ◌&&◌, if◌then◌else◌, inl, inr,
}
use libdvbtee.Channels.{
  near, find_chan, atsc_vsb_base_offset, atsc_vsb_chan_to_freq, atsc_qam_chan_to_freq,
  dvbt_base_offset, dvbt_chan_to_freq, atsc_vsb_freq_to_chan, atsc_qam_freq_to_chan,
  dvbt_freq_to_chan,
}

eq-or-lt : (m n : ℕ) → m ≤ n → (m ≡ n) ⊎ (m < n)
eq-or-lt m n h = ground arith

-- The search finds a channel in its range that is near, if no earlier one is.
find_chan_first :
    (to_freq : ℕ → ℕ) (n lo c f : ℕ)
    → lo ≤ c
    → c < lo + n
    → near (to_freq c) f ≡ true
    → ((j : ℕ) → lo ≤ j → j < c → near (to_freq j) f ≡ false)
    → find_chan to_freq n lo f ≡ c
unfolding find_chan
find_chan_first to_freq zero lo c f l u h e = absurd (omega arith)
find_chan_first to_freq (suc n) lo c f l u h e = elim (eq-or-lt lo c l) [
  | inl same ↦
      subst (λ j. (if near (to_freq j) f then j else find_chan to_freq n (j + 1) f) ≡ c) {x = c}
        {y = lo} (sym same) (rw h refl)
  | inr less ↦ rw (e lo (omega arith) less) (
      find_chan_first to_freq n (lo + 1) c f (omega arith) (omega arith) h
        (λ j a b. e j (omega arith) b))
]

vsb_apart :
    (j c f : ℕ)
    → j < c
    → c < 70
    → near (atsc_vsb_chan_to_freq c) f ≡ true
    → near (atsc_vsb_chan_to_freq j) f ≡ false
unfolding atsc_vsb_chan_to_freq atsc_vsb_base_offset
vsb_apart j c f l u h = ground arith

dvbt_apart :
    (j c f : ℕ)
    → j < c
    → c < 70
    → near (dvbt_chan_to_freq c) f ≡ true
    → near (dvbt_chan_to_freq j) f ≡ false
unfolding dvbt_chan_to_freq dvbt_base_offset
dvbt_apart j c f l u h = ground arith

-- the number of the 6 MHz slot that a channel of a cable system lies in, and back
unfoldable slot : ℕ → ℕ
slot c =
    if ltb c 5
    then c + 7
    else if ltb c 7
    then c + 8
    else if ltb c 14
    then c + 22
    else if ltb c 23
    then c + 6
    else if ltb c 95
    then c + 13
    else if ltb c 100
    then c - 80
    else c + 8

unfoldable unslot : ℕ → ℕ
unslot s =
    if ltb s 12
    then s - 7
    else if ltb s 15
    then s - 8
    else if ltb s 20
    then s + 80
    else if ltb s 29
    then s - 6
    else if ltb s 36
    then s - 22
    else if ltb s 108
    then s - 13
    else s - 8

unslot-slot : (c : ℕ) → unslot (slot c) ≡ c
unfolding slot unslot
unslot-slot c = ground arith

qam_slot :
    (c : ℕ)
    → (slot c * 6000000 + 1000000 ≤ atsc_qam_chan_to_freq c)
      × (atsc_qam_chan_to_freq c ≤ slot c * 6000000 + 3012500)
unfolding slot atsc_qam_chan_to_freq
qam_slot c = (ground arith, ground arith)

near_apart :
    (a b f s t : ℕ)
    → s ≢ t
    → s * 6000000 + 1000000 ≤ a
    → a ≤ s * 6000000 + 3012500
    → t * 6000000 + 1000000 ≤ b
    → b ≤ t * 6000000 + 3012500
    → near a f ≡ true
    → near b f ≡ false
near_apart a b f s t n al ah bl bh h = ground arith

qam_apart :
    (j c f : ℕ)
    → j < c
    → near (atsc_qam_chan_to_freq c) f ≡ true
    → near (atsc_qam_chan_to_freq j) f ≡ false
qam_apart j c f l h =
    near_apart (atsc_qam_chan_to_freq c) (atsc_qam_chan_to_freq j) f (slot c) (slot j)
      (λ e. (omega (arith, sym (unslot-slot c) ∙ ap unslot e ∙ unslot-slot j))) (qam_slot c).0
      (qam_slot c).1 (qam_slot j).0 (qam_slot j).1 h

-- A frequency less than 1 MHz from that of a channel is found to be that channel's, for the 68 channels of
-- ATSC over the air, the 132 of cable and the 65 of DVB-T: no two channels lie so close that another
-- could be found.
pub freq_to_chan_near :
    (c f : ℕ)
    → ((if leb 2 c && leb c 69 && near (atsc_vsb_chan_to_freq c) f
          then atsc_vsb_freq_to_chan f
          else c)
        ≡ c)
      × ((if leb 2 c && leb c 133 && near (atsc_qam_chan_to_freq c) f
            then atsc_qam_freq_to_chan f
            else c)
          ≡ c)
      × ((if leb 5 c && leb c 69 && near (dvbt_chan_to_freq c) f then dvbt_freq_to_chan f else c)
          ≡ c)
unfolding atsc_vsb_freq_to_chan atsc_qam_freq_to_chan dvbt_freq_to_chan
freq_to_chan_near c f = (
  found (leb 2 c) (leb c 69) (near (atsc_vsb_chan_to_freq c) f) (λ a b h.
      (find_chan_first atsc_vsb_chan_to_freq 68 2 c f (ground arith) (ground arith) h
        (λ j a l. vsb_apart j c f l (ground arith) h))),
  found (leb 2 c) (leb c 133) (near (atsc_qam_chan_to_freq c) f) (λ a b h.
      (find_chan_first atsc_qam_chan_to_freq 132 2 c f (ground arith) (ground arith) h
        (λ j a l. qam_apart j c f l h))),
  found (leb 5 c) (leb c 69) (near (dvbt_chan_to_freq c) f) (λ a b h.
      (find_chan_first dvbt_chan_to_freq 65 5 c f (ground arith) (ground arith) h
        (λ j a l. dvbt_apart j c f l (ground arith) h))),
)
  where
    found :
        (x y z : Bool) {r : ℕ}
        → (x ≡ true → y ≡ true → z ≡ true → r ≡ c)
        → (if x && y && z then r else c) ≡ c
    found true true true h = h refl refl refl
    found true true false h = refl
    found true false z h = refl
    found false y z h = refl
