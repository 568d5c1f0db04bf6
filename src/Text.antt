-- ===== src/Text.antt =====
-- The text functions of libdvbtee/functions.cpp. A string is the list of its bytes before the one of
-- value 0 that ends it.

pub mod Url
pub mod Decimal
mod Tests
use libdvbtee.Base.{
  ℕ, ◌+◌, ◌-◌, ◌*◌, ◌/◌, ◌%◌, ◌^◌, Bool, true, false, Option, none, some, List, [], ◌∷◌, ◌++◌, ◌&&◌,
  ◌||◌, leb, ◌==◌, if◌then◌else◌,
}
use Prim.Native.Nat.{bit_or}

-- `isdigit`, `isalnum` and `tolower` on a byte
abbrev pub is_digit : ℕ → Bool
is_digit c = leb b'0' c && leb c b'9'

abbrev pub is_alnum : ℕ → Bool
is_alnum c = is_digit c || (leb b'A' c && leb c b'Z') || (leb b'a' c && leb c b'z')

abbrev pub to_lower : ℕ → ℕ
to_lower c = if leb b'A' c && leb c b'Z' then c + 32 else c

-- `from_hex`: a `char`, so modulo 2^8
unfoldable pub from_hex : ℕ → ℕ
from_hex c = (if is_digit c then c + 2 ^ 8 - b'0' else to_lower c + 2 ^ 8 - b'a' + 10) % 2 ^ 8

-- `to_hex`, for `code & 15`
unfoldable pub to_hex : ℕ → ℕ
to_hex code = let n = code % 16 in if leb n 9 then b'0' + n else b'a' + (n - 10)

-- the bytes that stay as they are, the space among them
abbrev pub is_plain : ℕ → Bool
is_plain c = is_alnum c || c == b'-' || c == b'_' || c == b'.' || c == b'~' || c == b' '

-- one round of the loop of `url_encode`
unfoldable pub encode_byte : ℕ → List ℕ
unfolding to_hex
encode_byte c = if is_plain c then c ∷ [] else b'%' ∷ to_hex (c / 16) ∷ to_hex (c % 16) ∷ []

-- `url_encode`
unfoldable pub url_encode : List ℕ → List ℕ
unfolding encode_byte
url_encode [] = []
url_encode (c ∷ str) = encode_byte c ++ url_encode str

-- the byte of two digits, `from_hex(a) << 4 | from_hex(b)` cut to a `char`
unfoldable pub decode_pair : ℕ → ℕ → ℕ
unfolding from_hex
decode_pair a b = bit_or (from_hex a * 2 ^ 4 % 2 ^ 8) (from_hex b)

-- the byte that stands for another one than itself
abbrev pub decode_byte : ℕ → ℕ
decode_byte c = if c == b'+' then b' ' else c

-- `url_decode`; a percent sign without two bytes behind it is dropped
unfoldable pub url_decode : List ℕ → List ℕ
unfolding decode_pair
url_decode [] = []
url_decode (c ∷ []) = if c == b'%' then [] else decode_byte c ∷ []
url_decode (c ∷ a ∷ []) =
    let rest = url_decode (a ∷ []) in if c == b'%' then rest else decode_byte c ∷ rest
url_decode (c ∷ a ∷ b ∷ str) =
    let pair = decode_pair a b ∷ url_decode str in
    let plain = decode_byte c ∷ url_decode (a ∷ b ∷ str) in if c == b'%' then pair else plain

-- `escape_quotes`
unfoldable pub escape_quotes : List ℕ → List ℕ
escape_quotes [] = []
escape_quotes (c ∷ str) =
    let rest = c ∷ escape_quotes str in if c == b'"' then b'\\' ∷ rest else rest

-- The encodings that `detect_encoding` names: `iso_8859 n` is "iso-8859-n".
pub data Encoding : Type 0 where
  iso_8859 : ℕ → Encoding
  ucs_2 ksc_5601 gb2312 iso_10646_1 utf_8 : Encoding

-- its second `switch`
unfoldable pub encoding_of : ℕ → Option Encoding
encoding_of c =
    if leb 0x01 c && leb c 0x0b
    then some (iso_8859 (c + 4))
    else if c == 0x11
    then some ucs_2
    else if c == 0x12
    then some ksc_5601
    else if c == 0x13
    then some gb2312
    else if c == 0x14
    then some iso_10646_1
    else if c == 0x15
    then some utf_8
    else none

-- `detect_encoding`: the encoding and the length of the mark before the text
unfoldable pub detect_encoding : ℕ → ℕ → ℕ → Option Encoding × ℕ
unfolding encoding_of
detect_encoding a b c =
    if leb 0x20 a
    then (none, 0)
    else if a == 0x10 && b == 0x00 && leb 0x01 c && leb c 0x0f
    then (some (iso_8859 c), 3)
    else mark (encoding_of a)
  where
    mark : Option Encoding → Option Encoding × ℕ
    mark none = (none, 0)
    mark (some e) = (some e, 1)
