-- ===== src/Text/Url.antt =====
-- `url_decode` takes back what `url_encode` does.
use libdvbtee.Base.{
  ℕ, zero, suc, ◌/◌, ◌%◌, ◌+◌, ◌≤◌, ◌<◌, subst, if◌then◌else◌, ◌≡◌, refl, ◌∙◌, ap, Bool, true,
  false, List, [], ◌∷◌, ◌++◌, arith, ◌==◌, ==_iff, Bool-cases, inl, inr,
}
use libdvbtee.Text.{is_plain, to_hex, decode_pair, decode_byte, encode_byte, url_encode, url_decode}

abbrev pub AreBytes : List ℕ → Type 0
AreBytes [] = Unit
AreBytes (c ∷ str) = (c < 256) × AreBytes str

-- Whether the two digits of a byte stand for it, for one byte and for the next `count` from `first`.
survives : ℕ → Bool
survives c = decode_pair (to_hex (c / 16)) (to_hex (c % 16)) == c

survive_from : (first count : ℕ) → Bool
survive_from first zero = true
survive_from first (suc count) = if survives first then survive_from (suc first) count else false

survive_from_each :
    (first count c : ℕ)
    → survive_from first count ≡ true
    → first ≤ c
    → c < first + count
    → survives c ≡ true
unfolding survive_from
survive_from_each first zero c all above below = absurd (omega arith)
survive_from_each first (suc count) c all above below = elim (Bool-cases (first == c)) [
  | inl here ↦ subst (λ n. survives n ≡ true) ((==_iff first c).0 here) (ground (arith, all))
  | inr later ↦
      survive_from_each (suc first) count c (ground (arith, all)) (ground arith) (omega arith)
]

bytes_survive : survive_from 0 256 ≡ true
unfolding survive_from survives decode_pair to_hex
bytes_survive = refl

decode_pair-to_hex : (c : ℕ) → c < 256 → decode_pair (to_hex (c / 16)) (to_hex (c % 16)) ≡ c
unfolding survives
decode_pair-to_hex c h =
    (==_iff (decode_pair (to_hex (c / 16)) (to_hex (c % 16))) c).0
      (survive_from_each 0 256 c bytes_survive (omega arith) h)

plain_apart : (c : ℕ) → is_plain c ≡ true → ((c == b'%') ≡ false) × (decode_byte c ≡ c)
plain_apart c h = (ground arith, ground arith)

url_decode-plain :
    (c : ℕ) (str : List ℕ) → is_plain c ≡ true → url_decode (c ∷ str) ≡ c ∷ url_decode str
unfolding url_decode
url_decode-plain c [] h = simp ((plain_apart c h).0, (plain_apart c h).1) refl
url_decode-plain c (a ∷ []) h = simp ((plain_apart c h).0, (plain_apart c h).1) refl
url_decode-plain c (a ∷ b ∷ str) h = simp ((plain_apart c h).0, (plain_apart c h).1) refl

url_decode-percent :
    (a b : ℕ) (str : List ℕ) → url_decode (b'%' ∷ a ∷ b ∷ str) ≡ decode_pair a b ∷ url_decode str
unfolding url_decode
url_decode-percent a b str = refl

url_decode-encode_byte :
    (c : ℕ) (str : List ℕ) → c < 256 → url_decode (encode_byte c ++ str) ≡ c ∷ url_decode str
unfolding encode_byte
url_decode-encode_byte c str h = elim (Bool-cases (is_plain c)) [
  | inl p ↦ rw p (url_decode-plain c str p)
  | inr n ↦ rw n (
      url_decode-percent (to_hex (c / 16)) (to_hex (c % 16)) str
      ∙ ap (λ x. x ∷ url_decode str) (decode_pair-to_hex c h))
]

-- Every string of bytes is read back by `url_decode` from what `url_encode` makes of it.
pub url_decode-url_encode : (str : List ℕ) → AreBytes str → url_decode (url_encode str) ≡ str
unfolding url_encode
url_decode-url_encode [] t = unfold url_decode in refl
url_decode-url_encode (c ∷ str) t =
    url_decode-encode_byte c (url_encode str) t.0 ∙ ap (◌∷◌ c) (url_decode-url_encode str t.1)
