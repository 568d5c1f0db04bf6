-- ===== src/Text/Tests.antt =====
-- The text functions on concrete strings.
use libdvbtee.Base.{ℕ, ◌≡◌, refl, some, none, List, [], ◌∷◌, arith}
use libdvbtee.Text.{
  encode_byte, url_encode, url_decode, decode_pair, to_hex, escape_quotes, encoding_of,
  detect_encoding, iso_8859, utf_8,
}
use libdvbtee.Text.Url.{url_decode-url_encode}

program : ℕ
unfolding encode_byte url_encode url_decode decode_pair to_hex escape_quotes encoding_of
    detect_encoding
program = 0

-- a letter, a plus, a space and a byte above 127
abbrev sample : List ℕ
sample = b'a' ∷ b'+' ∷ b' ' ∷ 0xe4 ∷ []

encoded : url_encode sample ≡ b'a' ∷ b'%' ∷ b'2' ∷ b'b' ∷ b' ' ∷ b'%' ∷ b'e' ∷ b'4' ∷ []
unfolding program
encoded = refl

-- a percent sign that nothing stands behind
decoded : url_decode (b'%' ∷ b'4' ∷ []) ≡ b'4' ∷ []
unfolding program
decoded = refl

quoted : escape_quotes (b'a' ∷ b'"' ∷ []) ≡ b'a' ∷ b'\\' ∷ b'"' ∷ []
unfolding program
quoted = refl

encodings :
    (detect_encoding 0x10 0x00 0x0f ≡ (some (iso_8859 15), 3))
    × (detect_encoding 0x15 b'a' b'b' ≡ (some utf_8, 1))
    × (detect_encoding b'a' b'b' b'c' ≡ (none, 0))
unfolding program
encodings = (refl, refl, refl)

url_decode-url_encode_example : url_decode (url_encode sample) ≡ sample
url_decode-url_encode_example =
    url_decode-url_encode sample (omega arith, (omega arith, (omega arith, (omega arith, tt))))
