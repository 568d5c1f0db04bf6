-- ===== src/Serve/Chunks.antt =====
-- `stream_http_chunk` of libdvbtee/output.cpp, on a socket that takes all it is given, and what the bytes on the
-- socket mean by the rules of HTTP.
use libdvbtee.Base.{
  ℕ, zero, suc, ◌+◌, ◌-◌, ◌*◌, ◌/◌, ◌%◌, ◌^◌, ◌≤◌, ◌<◌, ◌≡◌, ◌∙◌, refl, ap, Bool, true, false,
  Option, none, some, List, [], ◌∷◌, ◌++◌, ◌&&◌, ◌||◌, ltb, leb, ◌==◌, if◌then◌else◌, length, take,
  drop, arith, Bool-cases, inl, inr, ≢→==,
}
use libdvbtee.Rbuf.{◌>>=◌}
use libdvbtee.Serve.Pages.{lit, sprintf}

-- `"%x"`; the number has 32 bits, so 8 digits at most
unfoldable pub hex_digit : ℕ → ℕ
hex_digit d = if ltb d 10 then b'0' + d else b'a' + (d - 10)

unfoldable pub hex_digits : ℕ → ℕ → List ℕ → List ℕ
unfolding hex_digit
hex_digits zero n text = text
hex_digits (suc left) n text =
    let longer = hex_digits left (n / 16) (hex_digit (n % 16) ∷ text) in
    if leb n 15 then hex_digit n ∷ text else longer

-- `stream_http_chunk`: what it sends; its first text has a buffer of 8 bytes
unfoldable pub http_chunk : List ℕ → Bool → Option (List ℕ)
unfolding sprintf hex_digits
http_chunk buf send_zero_length =
    if length buf == 0
    then (if send_zero_length then sprintf 8 (hex_digits 8 0 (lit "\r\n")) else some [])
    else do
      sz ← sprintf 8 (hex_digits 8 (length buf) (lit "\r\n"))
      some (sz ++ (buf ++ lit "\r\n"))

-- The value of a digit.
unfoldable hex_value : ℕ → Option ℕ
hex_value c =
    if leb b'0' c && leb c b'9'
    then some (c - b'0')
    else if leb b'a' c && leb c b'f'
    then some (c - b'a' + 10)
    else none

-- The number at the start of a text, and what follows it.
unfoldable read_hex : ℕ → List ℕ → ℕ × List ℕ
unfolding hex_value
read_hex acc [] = (acc, [])
read_hex acc (c ∷ text) = elim (hex_value c) [
  | none ↦ (acc, c ∷ text)
  | some d ↦ read_hex (acc * 16 + d) text
]

-- A text without the end of a line that it starts with.
unfoldable pub skip_crlf : List ℕ → Option (List ℕ)
skip_crlf [] = none
skip_crlf (c ∷ []) = none
skip_crlf (c ∷ d ∷ text) = if c == 13 && d == 10 then some text else none

-- The size of a chunk, and what follows its line.
unfoldable pub read_size : List ℕ → Option (ℕ × List ℕ)
unfolding read_hex skip_crlf
read_size text = do start ← skip_crlf (read_hex 0 text).1; some ((read_hex 0 text).0, start)

-- The text of a message in so many chunks at most, up to the one of length 0, and what follows it.
unfoldable pub read_chunks : ℕ → List ℕ → Option (List ℕ × List ℕ)
unfolding read_size skip_crlf
read_chunks zero text = none
read_chunks (suc left) text = do
  (size, start) ← read_size text
  let last : Option (List ℕ × List ℕ) = some ([], start)
  let more : Option (List ℕ × List ℕ) = do
    next ← skip_crlf (drop size start)
    (body, rest) ← read_chunks left next
    some (take size start ++ body, rest)
  if size == 0 then last else more

-- A number has so many digits at most.
unfoldable pub has_digits : ℕ → ℕ → Bool
has_digits zero n = false
has_digits (suc left) n = leb n 15 || has_digits left (n / 16)

has_digits-suc : (l n : ℕ) → has_digits l (n / 16) ≡ true → has_digits (suc l) n ≡ true
unfolding has_digits
has_digits-suc l n h = ground (arith, h)

has_digits_1 : (l n : ℕ) → n < 16 → has_digits (suc l) n ≡ true
unfolding has_digits
has_digits_1 l n h = ground arith

has_digits_8 : (n : ℕ) → n < 2 ^ 20 → has_digits 8 n ≡ true
has_digits_8 n h = has_digits-suc 7 n (
    has_digits-suc 6 (n / 16) (
      has_digits-suc 5 (n / 16 / 16) (
        has_digits-suc 4 (n / 16 / 16 / 16)
          (has_digits_1 3 (n / 16 / 16 / 16 / 16) (omega arith)))))

hex_value-hex_digit : (d : ℕ) → d < 16 → hex_value (hex_digit d) ≡ some d
unfolding hex_value hex_digit
hex_value-hex_digit d h = ground arith

read_hex-hex_digit :
    (acc d : ℕ) (text : List ℕ)
    → d < 16
    → read_hex acc (hex_digit d ∷ text) ≡ read_hex (acc * 16 + d) text
unfolding read_hex
read_hex-hex_digit acc d text h = rw (hex_value-hex_digit d h, read_hex) refl

read_hex-hex_digits :
    (left n : ℕ) (text : List ℕ)
    → has_digits left n ≡ true
    → read_hex 0 (hex_digits left n text) ≡ read_hex n text
unfolding hex_digits has_digits
read_hex-hex_digits zero n text h = absurd (ground (arith, h))
read_hex-hex_digits (suc left) n text h = elim (Bool-cases (leb n 15)) [
  | inl e ↦ rw e (
      read_hex-hex_digit 0 n text (ground arith)
      ∙ ap (λ k. read_hex k text) {x = 0 * 16 + n} (omega arith))
  | inr e ↦
      let fewer : has_digits left (n / 16) ≡ true = ground (arith, h, e) in
      rw e (
        read_hex-hex_digits left (n / 16) (hex_digit (n % 16) ∷ text) fewer
        ∙ read_hex-hex_digit (n / 16) (n % 16) text (omega arith)
        ∙ ap (λ k. read_hex k text) (omega arith))
]

pub hex_digits-append :
    (left n : ℕ) (text more : List ℕ)
    → hex_digits left n text ++ more ≡ hex_digits left n (text ++ more)
unfolding hex_digits
hex_digits-append zero n text more = refl
hex_digits-append (suc left) n text more = elim (Bool-cases (leb n 15)) [
  | inl e ↦ rw e refl
  | inr e ↦ rw e (hex_digits-append left (n / 16) (hex_digit (n % 16) ∷ text) more)
]

-- A number that so many digits less one make up is printed in so many at most.
length-hex_digits_1 :
    (left n : ℕ) (text : List ℕ)
    → n < 16
    → length (hex_digits (suc left) n text) ≡ suc (length text)
unfolding hex_digits
length-hex_digits_1 left n text h = ground arith

length-hex_digits-suc :
    (left n k : ℕ)
    → ((text : List ℕ) → length (hex_digits left (n / 16) text) ≤ length text + k)
    → (text : List ℕ) → length (hex_digits (suc left) n text) ≤ length text + suc k
unfolding hex_digits
length-hex_digits-suc left n k fewer text = ground (arith, fewer (hex_digit (n % 16) ∷ text))

length-hex_digits :
    (n : ℕ) → n < 2 ^ 20 → (text : List ℕ) → length (hex_digits 8 n text) ≤ length text + 5
length-hex_digits n h = length-hex_digits-suc 7 n 4 (
    length-hex_digits-suc 6 (n / 16) 3 (
      length-hex_digits-suc 5 (n / 16 / 16) 2 (
        length-hex_digits-suc 4 (n / 16 / 16 / 16) 1 (λ text.
          omega (arith, length-hex_digits_1 3 (n / 16 / 16 / 16 / 16) text (omega arith))))))

sprintf-fits : (size : ℕ) (text : List ℕ) → length text < size → sprintf size text ≡ some text
unfolding sprintf
sprintf-fits size text h = ground arith

pub http_chunk-some :
    (buf : List ℕ)
    → 0 < length buf
    → length buf < 2 ^ 20
    → http_chunk buf false ≡ some (hex_digits 8 (length buf) (lit "\r\n") ++ (buf ++ lit "\r\n"))
unfolding http_chunk
http_chunk-some buf some_byte small =
    rw
      (
        ≢→== (length buf) 0 (omega arith),
        sprintf-fits 8 (hex_digits 8 (length buf) (lit "\r\n"))
            (omega (arith, length-hex_digits (length buf) small (lit "\r\n"))),
      )
      refl

pub read_size-hex_digits :
    (n : ℕ) (rest : List ℕ)
    → n < 2 ^ 20
    → read_size (hex_digits 8 n (lit "\r\n" ++ rest)) ≡ some (n, rest)
unfolding read_size
read_size-hex_digits n rest small =
    ap (λ (p : ℕ × List ℕ). skip_crlf p.1 >>= (λ start. some (p.0, start)))
      (read_hex-hex_digits 8 n (lit "\r\n" ++ rest) (has_digits_8 n small) ∙ ends n)
  where
    ends : (k : ℕ) → read_hex k (lit "\r\n" ++ rest) ≡ (k, lit "\r\n" ++ rest)
    ends k = unfold read_hex in refl

-- What the server sends for some texts and the end of the answer.
unfoldable pub send_all : List (List ℕ) → Option (List ℕ)
unfolding http_chunk
send_all [] = http_chunk [] true
send_all (text ∷ texts) = do
  chunk ← http_chunk text false
  rest ← send_all texts
  some (chunk ++ rest)
