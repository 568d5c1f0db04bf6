-- ===== src/Stats/Pcr.antt =====
-- The program clock reference: six bytes, a 33-bit base at 90 kHz and a 9-bit extension at 27 MHz.
use libdvbtee.Base.{ℕ, ◌+◌, ◌*◌, ◌/◌, ◌%◌, ◌^◌, ◌<◌, ◌≡◌, List, [], ◌∷◌, arith}
use libdvbtee.Stats.{parse_pcr, compute_pcr_time}

-- The bytes of a clock reference; the six bits between base and extension are reserved.
unfoldable pub pcr_bytes : ℕ → ℕ → ℕ → List ℕ
pcr_bytes base reserved ext =
    (base / 0x2000000)
    ∷ (base / 0x20000 % 256)
    ∷ (base / 0x200 % 256)
    ∷ (base / 2 % 256)
    ∷ (base % 2 * 128 + reserved * 2 + ext / 256)
    ∷ (ext % 256)
    ∷ []

-- `parse_pcr` reads back the base and the extension of every clock reference, whatever the
-- reserved bits say, and the time in 27 MHz ticks that is computed from them does not wrap.
pub parse_pcr-pcr_bytes :
    (base reserved ext : ℕ)
    → base < 2 ^ 33
    → reserved < 64
    → ext < 512
    → (parse_pcr (pcr_bytes base reserved ext) ≡ (base, ext))
      × (compute_pcr_time base ext ≡ base * 300 + ext)
unfolding parse_pcr pcr_bytes compute_pcr_time
parse_pcr-pcr_bytes base reserved ext b r e = (ground arith, omega arith)
