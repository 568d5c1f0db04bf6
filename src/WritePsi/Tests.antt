-- ===== src/WritePsi/Tests.antt =====
-- `writePSI` on a short and on a long section.
use libdvbtee.Base.{
  ℕ, ◌+◌, ◌*◌, ◌/◌, ◌%◌, ◌≤◌, ◌<◌, ◌≡◌, refl, [], ◌∷◌, ◌++◌, arith, length, drop, replicate,
}
use libdvbtee.WritePsi.{
  Section, Packet, pad, first_packet, next_packet, next_packets, write_section, write_sections,
  write_psi, packet_bytes,
}
use libdvbtee.WritePsi.Carries.{write_psi_carries, write_psi_loses}

program : ℕ
unfolding pad first_packet next_packet next_packets write_section write_sections write_psi
program = 0

abbrev blank : Packet
blank = record { sync = 0; flags = 0; pid_low = 0; counter = 15; body = replicate 184 0 }

abbrev short : Section
short = 0x00 ∷ 0xb0 ∷ 0x0d ∷ 0x12 ∷ 0x34 ∷ []

abbrev long : Section
long = replicate 200 7

short_bytes :
    packet_bytes (write_psi blank (short ∷ []))
    ≡ 0x47 ∷ 0x40 ∷ 0 ∷ 0 ∷ 0 ∷ 0x00 ∷ 0xb0 ∷ 0x0d ∷ 0x12 ∷ 0x34 ∷ replicate 178 0xff
unfolding program
short_bytes = refl

write_psi_carries_example :
    let q = write_psi blank (short ∷ []) in
    (q.sync ≡ 0x47)
    × (q.body ≡ 0 ∷ short ++ replicate 178 0xff)
    × (length q.body ≡ 184)
    × (q.flags / 64 % 2 ≡ 1)
    × (q.counter ≡ 0)
write_psi_carries_example = write_psi_carries blank short (omega arith)

write_psi_loses_example :
    let q = write_psi blank (long ∷ []) in
    (k : ℕ) × (q.body ≡ pad 184 (drop (183 + 184 * k) long))
    × (183 + 184 * k < 200)
    × (200 ≤ 183 + 184 * k + 184)
    × (q.flags / 64 % 2 ≡ 0)
write_psi_loses_example = write_psi_loses blank long (omega arith)
