-- ===== src/WritePsi.antt =====
-- `writePSI` of libdvbtee/functions.cpp: sections copied into one transport packet of 188 bytes.

pub mod Carries
mod Tests
use libdvbtee.Base.{
  ℕ, zero, suc, ◌+◌, ◌-◌, ◌*◌, ◌/◌, ◌%◌, Bool, true, false, List, [], ◌∷◌, ◌++◌, ◌==◌,
  if◌then◌else◌, length, take, drop, replicate,
}

-- `dvbpsi_psi_section_t`: the bytes up to `p_payload_end`, with the four of the checksum where
-- the section has the long syntax
abbrev pub Section : Type 0
Section = List ℕ

-- The four header bytes of the packet, and the bytes behind them.
pub record Packet : Type 0 where
  pub sync : ℕ
  pub flags : ℕ
  pub pid_low : ℕ
  pub counter : ℕ
  pub body : List ℕ

-- the bytes in order
abbrev pub packet_bytes : Packet → List ℕ
packet_bytes p = p.sync ∷ p.flags ∷ p.pid_low ∷ p.counter ∷ p.body

-- the bytes of `src` that fit into `n`, and 0xff behind them
unfoldable pub pad : ℕ → List ℕ → List ℕ
pad n src = take n src ++ replicate (n - length src) 0xff

-- The part of the section loop that starts a section: a payload unit, a pointer field of 0, and
-- 183 bytes. `| 0x40` sets bit 6 of the flags, `& 0x0f | 0x10` gives the counter its payload
-- mark, and `(x + 1) & 0x0f` counts on.
unfoldable pub first_packet : Section → Packet → Packet
unfolding pad
first_packet s p = record p {
  flags = if p.flags / 64 % 2 == 0 then p.flags + 64 else p.flags;
  counter = (p.counter % 16 + 16 + 1) % 16;
  body = 0 ∷ pad 183 s;
}

-- One round of the inner loop: 184 more bytes of the section, over those of the round before.
-- `& 0xbf` clears bit 6.
unfoldable pub next_packet : List ℕ → Packet → Packet
unfolding pad
next_packet rest p = record p {
  flags = if p.flags / 64 % 2 == 0 then p.flags else p.flags - 64;
  counter = (p.counter % 16 + 16 + 1) % 16;
  body = pad 184 rest;
}

-- The inner loop, on fuel; each round takes 184 bytes of the section, so its length is enough.
unfoldable pub next_packets : ℕ → List ℕ → Packet → Packet
unfolding next_packet
next_packets fuel [] p = p
next_packets zero (x ∷ rest) p = p
next_packets (suc fuel) (x ∷ rest) p =
    next_packets fuel (drop 184 (x ∷ rest)) (next_packet (x ∷ rest) p)

unfoldable pub write_section : Section → Packet → Packet
unfolding next_packets first_packet
write_section s p = next_packets (length s) (drop 183 s) (first_packet s p)

-- the loop over the sections
unfoldable pub write_sections : List Section → Packet → Packet
unfolding write_section
write_sections [] p = p
write_sections (s ∷ ss) p = write_sections ss (write_section s p)

-- `writePSI`
unfoldable pub write_psi : Packet → List Section → Packet
unfolding write_sections
write_psi p ss = write_sections ss (record p { sync = 0x47 })
