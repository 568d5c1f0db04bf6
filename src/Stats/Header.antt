-- ===== src/Stats/Header.antt =====
-- The four header bytes of a transport packet against their fields.
use libdvbtee.Base.{
  ℕ, ◌+◌, ◌*◌, ◌/◌, ◌%◌, ◌<◌, ◌≡◌, ◌≢◌, ◌⊎◌, List, ◌∷◌, arith, ◌==◌, ◌&&◌, not, if◌then◌else◌,
}
use libdvbtee.Stats.{PktHdr, parse_hdr, parse, byte, no_pid, all_pids}

-- The fields fit their bits (ISO/IEC 13818-1, 2.4.3.2).
pub record Fits (h : PktHdr) : Type 0 where
  pub sync_byte : h.sync_byte < 256
  pub tei : h.tei < 2
  pub payload_unit_start : h.payload_unit_start < 2
  pub transport_priority : h.transport_priority < 2
  pub pid : h.pid < 8192
  pub scrambling : h.scrambling < 4
  pub adaptation_flags : h.adaptation_flags < 4
  pub continuity_ctr : h.continuity_ctr < 16

-- The bytes that carry a header, most significant bit first.
unfoldable pub hdr_bytes : PktHdr → List ℕ → List ℕ
hdr_bytes h rest =
    h.sync_byte
    ∷ (h.tei * 128 + h.payload_unit_start * 64 + h.transport_priority * 32 + h.pid / 256)
    ∷ (h.pid % 256)
    ∷ (h.scrambling * 64 + h.adaptation_flags * 16 + h.continuity_ctr)
    ∷ rest

-- The header that `parse` reads from the bytes that carry a header is that header, whatever
-- follows; with the sync byte its pid and error flag are those that `parse` reports, without it
-- `parse` reports lost sync, no error, and no pid.
pub parse-hdr_bytes :
    (h : PktHdr) (rest : List ℕ)
    → Fits h
    → let synced = h.sync_byte == 0x47 in
      (parse_hdr (hdr_bytes h rest) ≡ h)
      × (parse (hdr_bytes h rest) ≡ record {
        tei = synced && h.tei == 1;
        sync_loss = not synced;
        pid = if synced then h.pid else no_pid;
      })
unfolding parse_hdr parse hdr_bytes
parse-hdr_bytes h rest f = (ground arith, ground arith)

-- The pid of any packet of bytes is a 13-bit number or the mark of a lost sync, so it is never the
-- pid of the totals.
pub pid-parse :
    (p : List ℕ)
    → byte p 2 < 256
    → ((parse p).pid < all_pids ⊎ (parse p).pid ≡ no_pid) × ((parse p).pid ≢ all_pids)
unfolding parse parse_hdr
pid-parse p h = (ground arith, ground arith)
