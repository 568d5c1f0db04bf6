-- ===== src/Serve/Answer.antt =====
-- The chunks of an answer, read back.
use libdvbtee.Base.{
  ℕ, zero, suc, ◌^◌, ◌≤◌, ◌<◌, ◌≡◌, ◌∙◌, refl, ap, false, some, List, [], ◌∷◌, ◌++◌, length, drop,
  arith, ≢→==, take-append_eq, drop-append_ge,
}
use mathlib.Core.List.{append_assoc}
use libdvbtee.Serve.Pages.{lit}
use libdvbtee.Serve.Chunks.{
  hex_digits, http_chunk, skip_crlf, read_size, read_chunks, send_all, hex_digits-append,
  http_chunk-some, read_size-hex_digits,
}

abbrev pub join : List (List ℕ) → List ℕ
join [] = []
join (text ∷ texts) = text ++ join texts

-- Each text is shorter than a mebibyte.
abbrev pub AreShort : List (List ℕ) → Type 0
AreShort [] = Unit
AreShort (text ∷ texts) = (length text < 2 ^ 20) × AreShort texts

drop_all : (xs ys : List ℕ) → drop (length xs) (xs ++ ys) ≡ ys
drop_all xs ys = ap (λ n. drop n (xs ++ ys)) {x = length xs} (omega arith) ∙ drop-append_ge 0 xs ys

-- One chunk, whatever follows.
read_chunk :
    (left : ℕ) (text rest body after : List ℕ)
    → 0 < length text
    → length text < 2 ^ 20
    → read_chunks left rest ≡ some (body, after)
    → read_chunks
        (suc left)
        (hex_digits 8 (length text) (lit "\r\n" ++ (text ++ (lit "\r\n" ++ rest))))
      ≡ some (text ++ body, after)
unfolding read_chunks
read_chunk left text rest body after some_byte small h =
    rw
      (
        read_size-hex_digits (length text) (text ++ (lit "\r\n" ++ rest)) small,
        ≢→== (length text) 0 (omega arith),
        drop_all text (lit "\r\n" ++ rest),
        take-append_eq (length text) text (lit "\r\n" ++ rest) refl,
      )
      (unfold skip_crlf in rw h refl)

-- The bytes of a chunk before others, with the digits outermost.
chunk_before :
    (n : ℕ) (text rest : List ℕ)
    → hex_digits 8 n (lit "\r\n") ++ (text ++ lit "\r\n") ++ rest
      ≡ hex_digits 8 n (lit "\r\n" ++ (text ++ (lit "\r\n" ++ rest)))
chunk_before n text rest =
    append_assoc (hex_digits 8 n (lit "\r\n")) (text ++ lit "\r\n") rest
    ∙ ap (◌++◌ (hex_digits 8 n (lit "\r\n"))) (append_assoc text (lit "\r\n") rest)
    ∙ hex_digits-append 8 n (lit "\r\n") (text ++ (lit "\r\n" ++ rest))

-- What is sent, and that it is read back.
abbrev Answers : ℕ → List (List ℕ) → Type 0
Answers left texts =
    (sent : List ℕ) × (send_all texts ≡ some sent)
    × ((after : List ℕ) → read_chunks (suc left) (sent ++ after) ≡ some (join texts, after))

Answers-nil : (left : ℕ) → Answers left []
unfolding send_all read_chunks read_size
Answers-nil left = (b'0' ∷ lit "\r\n", refl, λ after. refl)

sends_cons :
    (text : List ℕ) (texts : List (List ℕ)) (chunk sent : List ℕ)
    → http_chunk text false ≡ some chunk
    → send_all texts ≡ some sent
    → send_all (text ∷ texts) ≡ some (chunk ++ sent)
unfolding send_all
sends_cons text texts chunk sent one others = rw (one, others) refl

Answers-cons :
    (left : ℕ) (text : List ℕ) (texts : List (List ℕ))
    → 0 < length text
    → length text < 2 ^ 20
    → Answers left texts
    → Answers (suc left) (text ∷ texts)
Answers-cons left text texts some_byte small (sent, sends, reads) = (
  hex_digits 8 (length text) (lit "\r\n") ++ (text ++ lit "\r\n") ++ sent,
  sends_cons text texts _ sent (http_chunk-some text some_byte small) sends,
  λ after.
      ap (read_chunks (suc (suc left))) (
        append_assoc (hex_digits 8 (length text) (lit "\r\n") ++ (text ++ lit "\r\n")) sent after
        ∙ chunk_before (length text) text (sent ++ after))
      ∙ read_chunk (suc left) text (sent ++ after) (join texts) after some_byte small (reads after),
)

-- Also an empty text: nothing is sent for it.
Answers-empty : (left : ℕ) (texts : List (List ℕ)) → Answers left texts → Answers left ([] ∷ texts)
Answers-empty left texts (sent, sends, reads) =
    (sent, sends_cons [] texts [] sent (unfold http_chunk in refl) sends, reads)

answers :
    (left : ℕ) (texts : List (List ℕ)) → AreShort texts → length texts ≤ left → Answers left texts
answers left [] short fuel = Answers-nil left
answers left ([] ∷ texts) (small, short) fuel =
    Answers-empty left texts (answers left texts short (omega arith))
answers zero ((x ∷ text) ∷ texts) (small, short) fuel = absurd (omega arith)
answers (suc left) ((x ∷ text) ∷ texts) (small, short) fuel =
    Answers-cons left (x ∷ text) texts (omega arith) small (answers left texts short (omega arith))

-- An answer of texts that are shorter than a mebibyte is sent whole, also where some are empty: by the rules of
-- HTTP its chunks make up the texts one after the other, and end where `stream_http_chunk` is called for the last
-- time; what follows are the lines behind the last chunk.
pub send_all-read_chunks :
    (texts : List (List ℕ)) (after : List ℕ)
    → AreShort texts
    → (sent : List ℕ) × (send_all texts ≡ some sent)
      × (read_chunks (suc (length texts)) (sent ++ after) ≡ some (join texts, after))
send_all-read_chunks texts after short =
    let (sent, sends, reads) = answers (length texts) texts short (omega arith) in
    (sent, sends, reads after)
