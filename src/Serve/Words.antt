-- ===== src/Serve/Words.antt =====
-- `strtok_r`, as the commands of libdvbtee_server/serve.cpp use it, and the bytes that divide their words.
use libdvbtee.Base.{ℕ, Bool, Option, none, some, List, [], ◌∷◌, ◌||◌, ◌==◌, if◌then◌else◌}

-- `strtok_r` over a whole text: the word that it starts with, which may be empty, and the words after it
abbrev pub before_words : List ℕ → List (List ℕ) → List (List ℕ)
before_words [] ws = ws
before_words (c ∷ w) ws = (c ∷ w) ∷ ws

unfoldable pub split : (ℕ → Bool) → List ℕ → List ℕ × List (List ℕ)
split sep [] = ([], [])
split sep (c ∷ text) =
    let (w, ws) = split sep text in if sep c then ([], before_words w ws) else (c ∷ w, ws)

unfoldable pub words : (ℕ → Bool) → List ℕ → List (List ℕ)
words sep text = let (w, ws) = split sep text in before_words w ws

-- What is left of a text of which `strtok_r` has cut the first word off.
unfoldable pub cut_word : (ℕ → Bool) → List ℕ → List ℕ
cut_word sep [] = []
cut_word sep (c ∷ text) = let rest = cut_word sep text in if sep c then [] else c ∷ rest

unfoldable pub cut : (ℕ → Bool) → List ℕ → List ℕ
unfolding cut_word
cut sep [] = []
cut sep (c ∷ text) =
    let later = cut sep text in
    let word = cut_word sep text in if sep c then c ∷ later else c ∷ word

-- `CHAR_CMD_SEP`, `CHAR_CMD_SET`, `CHAR_CMD_COMMA`, and what divides a channel from a service
abbrev pub is_sep : ℕ → Bool
is_sep c = c == b'&' || c == b'/'

abbrev pub is_set : ℕ → Bool
is_set c = c == b'='

abbrev pub is_comma : ℕ → Bool
is_comma c = c == b','

abbrev pub is_dash : ℕ → Bool
is_dash c = c == b'.' || c == b'-' || c == b'+' || c == b'~'

unfoldable pub first_word : List (List ℕ) → Option (List ℕ)
first_word [] = none
first_word (w ∷ ws) = some w

unfoldable pub second_word : List (List ℕ) → Option (List ℕ)
second_word [] = none
second_word (w ∷ []) = none
second_word (w ∷ v ∷ ws) = some v

abbrev pub or_empty : Option (List ℕ) → List ℕ
or_empty none = []
or_empty (some t) = t
