-- ===== src/Serve/Fits.antt =====
-- The buffers that the functions of libdvbtee_server/text.cpp print numbers into.
use libdvbtee.Base.{
  ℕ, zero, suc, ◌+◌, ◌/◌, ◌%◌, ◌^◌, ◌≤◌, ◌<◌, ◌≡◌, ◌∙◌, refl, sym, subst, ap, Bool, true, false,
  Option, none, some, List, [], ◌∷◌, ◌++◌, ◌||◌, not, ltb, leb, ◌==◌, if◌then◌else◌, length,
  length-append, arith, Bool-cases, inl, inr, lt→ltb,
}
use libdvbtee.Rbuf.{◌>>=◌}
use libdvbtee.Text.Decimal.{digits, decimal}
use libdvbtee.Parse.Guide.{ParsedChannel}
use libdvbtee.Serve.Pages.{
  lit, sprintf, dotted, channelno, chan_major, chan_minor, channel_id, json_channel,
}

-- How many digits a number has.
unfoldable width : ℕ → ℕ → ℕ
width zero n = 0
width (suc left) n = let rest = width left (n / 10) in if leb n 9 then 1 else suc rest

length-digits :
    (left n : ℕ) (text : List ℕ) → length (digits left n text) ≡ length text + width left n
unfolding digits width
length-digits zero n text = omega arith
length-digits (suc left) n text =
    ground (arith, length-digits left (n / 10) ((b'0' + n % 10) ∷ text))

width_1 : (l n : ℕ) → n < 10 → width (suc l) n ≡ 1
unfolding width
width_1 l n h = ground arith

width_pos : (l n : ℕ) → 1 ≤ width (suc l) n
unfolding width
width_pos l n = ground arith

width-suc : (l n k : ℕ) → width l (n / 10) ≤ k → width (suc l) n ≤ suc k
unfolding width
width-suc l n k h = ground (arith, h)

width-suc_ge : (l n k : ℕ) → 10 ≤ n → k ≤ width l (n / 10) → suc k ≤ width (suc l) n
unfolding width
width-suc_ge l n k big h = ground (arith, h)

width_3 : (l n : ℕ) → n < 1000 → width (suc (suc (suc l))) n ≤ 3
width_3 l n h =
    width-suc (suc (suc l)) n 2
      (width-suc (suc l) (n / 10) 1 (omega (arith, width_1 l (n / 10 / 10))))

width_5 : (l n : ℕ) → n < 100000 → width (suc (suc (suc (suc (suc l))))) n ≤ 5
width_5 l n h =
    width-suc (suc (suc (suc (suc l)))) n 4
      (width-suc (suc (suc (suc l))) (n / 10) 3 (width_3 l (n / 10 / 10) (omega arith)))

decimal-small : (n : ℕ) → n < 1000 → length (decimal n) ≤ 3
unfolding decimal
decimal-small n h = omega (arith, length-digits 20 n [], width_3 17 n h)

decimal-16_bits : (n : ℕ) → n < 2 ^ 16 → length (decimal n) ≤ 5
unfolding decimal
decimal-16_bits n h = omega (arith, length-digits 20 n [], width_5 15 n (omega arith))

decimal-large : (n : ℕ) → 1000 ≤ n → 4 ≤ length (decimal n)
unfolding decimal
decimal-large n h = omega (
  arith,
  length-digits 20 n [],
  width-suc_ge 19 n 3 (omega arith) (
      width-suc_ge 18 (n / 10) 2 (omega arith)
        (width-suc_ge 17 (n / 10 / 10) 1 (omega arith) (width_pos 16 (n / 10 / 10 / 10)))),
)

length-joined : (xs ys zs : List ℕ) → length (xs ++ ys ++ zs) ≡ length xs + length ys + length zs
length-joined xs ys zs = length-append (xs ++ ys) zs ∙ ap (λ n. n + length zs) (length-append xs ys)

dotted-small : (a b : ℕ) → a < 1000 → b < 1000 → length (dotted a b) < 8
unfolding dotted
dotted-small a b ha hb =
    let sum : length (decimal a) + 1 + length (decimal b) < 8 =
      omega (arith, decimal-small a ha, decimal-small b hb) in
    subst (λ n. n < 8) (sym (length-joined (decimal a) (lit ".") (decimal b))) sum

unfoldable pub is_some {ℓ} : {A : Type ℓ} → Option A → Bool
is_some none = false
is_some (some a) = true

is_some-some : {A : Type 0} (a : A) → is_some (some a) ≡ true
unfolding is_some
is_some-some a = refl

is_some-sprintf : (size : ℕ) (text : List ℕ) → is_some (sprintf size text) ≡ ltb (length text) size
unfolding sprintf is_some
is_some-sprintf size text = elim (Bool-cases (ltb (length text) size)) [
  | inl e ↦ rw e refl
  | inr e ↦ rw e refl
]

is_some-fits : (size : ℕ) (text : List ℕ) → length text < size → is_some (sprintf size text) ≡ true
is_some-fits size text h = is_some-sprintf size text ∙ lt→ltb (length text) size h

is_some-small : (n : ℕ) → n < 1000 → is_some (sprintf 4 (decimal n)) ≡ true
is_some-small n h = is_some-fits 4 (decimal n) (omega (arith, decimal-small n h))

is_some-thousands : (n : ℕ) → is_some (sprintf 4 (decimal n)) ≡ ltb n 1000
is_some-thousands n =
    is_some-sprintf 4 (decimal n) ∙ ground (arith, decimal-small n, decimal-large n)

-- A channel with a number, whose numbers have three digits at most.
abbrev pub IsNumbered : ParsedChannel → Type 0
IsNumbered c =
    (c.physical_channel < 1000)
    × (c.program_number < 2 ^ 16)
    × (c.major < 1000)
    × (c.minor < 1000)
    × (c.lcn < 1000)

is_some-channelno : (c : ParsedChannel) → IsNumbered c → is_some (channelno 8 c) ≡ true
unfolding channelno
is_some-channelno c (phy, svc, major, minor, lcn) = elim (Bool-cases (ltb 1 (c.major + c.minor))) [
  | inl e ↦
      rw e (is_some-fits 8 (dotted c.major c.minor) (dotted-small c.major c.minor major minor))
  | inr e ↦ rw e (elim (Bool-cases (c.lcn == 0)) [
    | inl z ↦ rw z (
        is_some-fits 8 (decimal c.physical_channel)
          (omega (arith, decimal-small c.physical_channel phy)))
    | inr z ↦ rw z (is_some-fits 8 (decimal c.lcn) (omega (arith, decimal-small c.lcn lcn)))
  ])
]

is_some-chan_major : (c : ParsedChannel) → IsNumbered c → is_some (chan_major c) ≡ true
unfolding chan_major
is_some-chan_major c (phy, svc, major, minor, lcn) = elim (Bool-cases (ltb 1 (c.major + c.minor))) [
  | inl e ↦ rw e (is_some-small c.major major)
  | inr e ↦ rw e (elim (Bool-cases (c.lcn == 0)) [
    | inl z ↦ rw z (is_some-small c.physical_channel phy)
    | inr z ↦ rw z (is_some-small c.lcn lcn)
  ])
]

is_some-chan_minor :
    (c : ParsedChannel)
    → IsNumbered c
    → is_some (chan_minor c)
      ≡ (ltb 1 (c.major + c.minor) || not (c.lcn == 0) || ltb c.program_number 1000)
unfolding chan_minor
is_some-chan_minor c (phy, svc, major, minor, lcn) = elim (Bool-cases (ltb 1 (c.major + c.minor))) [
  | inl e ↦ rw e (is_some-small c.minor minor)
  | inr e ↦ rw e (elim (Bool-cases (c.lcn == 0)) [
    | inl z ↦ rw z (is_some-thousands c.program_number)
    | inr z ↦ rw z (is_some-small 0 (omega arith))
  ])
]

is_some-bind :
    {A B : Type 0} (o : Option A) (f : A → Option B)
    → is_some o ≡ true
    → (b : Bool) → ((a : A) → is_some (f a) ≡ b)
    → is_some (o >>= f) ≡ b
is_some-bind none f there b each = absurd (unfold is_some in ground (arith, there))
is_some-bind (some a) f there b each = each a

is_some-bind_all :
    {A B : Type 0} (o : Option A) (f : A → Option B)
    → ((a : A) → is_some (f a) ≡ true)
    → is_some (o >>= f) ≡ is_some o
unfolding is_some
is_some-bind_all none f each = refl
is_some-bind_all (some a) f each = each a

is_some-channel_id : (c : ParsedChannel) → IsNumbered c → is_some (channel_id c) ≡ true
unfolding channel_id
is_some-channel_id c (phy, svc, major, minor, lcn) =
    is_some-bind (sprintf 4 (decimal c.physical_channel)) _ (is_some-small c.physical_channel phy)
      true
      (λ a.
        is_some-bind (sprintf 6 (decimal c.program_number)) _
          (is_some-fits 6 (decimal c.program_number)
            (omega (arith, decimal-16_bits c.program_number svc)))
          true (λ b. is_some-some (a ++ lit "~" ++ b)))

-- For a channel whose numbers have three digits at most, and a program number of 16 bits, `json_dump_channels` keeps
-- within its buffers just where the channel has a major and a minor number, or a logical number, or a program number
-- below 1000: else it prints the program number into 4 bytes, and writes behind them.
pub json_channel_fits :
    (c : ParsedChannel)
    → IsNumbered c
    → is_some (json_channel c)
      ≡ (ltb 1 (c.major + c.minor) || not (c.lcn == 0) || ltb c.program_number 1000)
unfolding json_channel
json_channel_fits c numbered =
    is_some-bind (channelno 8 c) _ (is_some-channelno c numbered) _ (λ number.
      is_some-bind (chan_major c) _ (is_some-chan_major c numbered) _ (λ major.
        is_some-bind_all (chan_minor c) _ (λ minor.
          is_some-bind (channel_id c) _ (is_some-channel_id c numbered) true (λ id. is_some-some _))
        ∙ is_some-chan_minor c numbered))
