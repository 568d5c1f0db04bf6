-- ===== src/Text/Decimal.antt =====
-- `printf` with `%d` and with `%04d` on a number that is not negative, as the code uses it.
use libdvbtee.Base.{
  ℕ, zero, suc, ◌+◌, ◌-◌, ◌/◌, ◌%◌, List, [], ◌∷◌, ◌++◌, leb, if◌then◌else◌, length, replicate,
}

-- The digits before a text; a number below 2 ^ 64 has 20 at most.
unfoldable pub digits : ℕ → ℕ → List ℕ → List ℕ
digits zero n text = text
digits (suc left) n text =
    let longer = digits left (n / 10) ((b'0' + n % 10) ∷ text) in
    if leb n 9 then (b'0' + n) ∷ text else longer

unfoldable pub decimal : ℕ → List ℕ
unfolding digits
decimal n = digits 20 n []

-- with at least so many digits
unfoldable pub padded : ℕ → ℕ → List ℕ
unfolding decimal
padded width n = replicate (width - length (decimal n)) b'0' ++ decimal n
