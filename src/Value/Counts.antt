-- ===== src/Value/Counts.antt =====
-- The counts of the values are the references to them.
use libdvbtee.Base.{
  ℕ, zero, suc, ◌+◌, ◌≤◌, ◌<◌, ◌≡◌, ◌∙◌, refl, sym, ap, subst, true, false, Option, none, some,
  List, [], ◌∷◌, arith, inl, inr, Bool-cases, Option-cases, ◌==◌, if◌then◌else◌, ≢→==, ==_iff,
}
use mathlib.Core.Option.{some-injective, none-ne-some}
use libdvbtee.Base.Dict
use libdvbtee.Base.Dict.{Dict, find-insert, find-erase}
use libdvbtee.Value.{Heap, retain, retain_all, put, total}

-- How often a value stands in a vector.
unfoldable pub refs : ℕ → List ℕ → ℕ
refs a [] = 0
refs a (b ∷ values) = (if a == b then 1 else 0) + refs a values

-- How often a value stands in the values of the heap.
unfoldable pub held : Heap → ℕ → ℕ
unfolding total
held h a = total (λ b. refs a (h.holds b)) h.next

-- What the heap has of a value with that many references.
unfoldable pub live : ℕ → Option ℕ
live zero = none
live (suc n) = some (suc n)

-- The values that exist are those to which there are references, from other values or from outside, `out`, and
-- their counts are the numbers of these; the next address is that of no value, and a value that does not
-- exist holds none.
pub record IsCounted (out : ℕ → ℕ) (h : Heap) : Type 0 where
  pub counted : (a : ℕ) → Dict.find a h.counts ≡ live (out a + held h a)
  pub fresh : (a : ℕ) → h.next ≤ a → out a + held h a ≡ 0
  pub dead : (a : ℕ) → out a + held h a ≡ 0 → h.holds a ≡ []

pub ==_self : (a : ℕ) → (a == a) ≡ true
==_self a = ground arith

pub total-put-out :
    (g : List ℕ → ℕ) (f : ℕ → List ℕ) (a : ℕ) (values : List ℕ) (n : ℕ)
    → n ≤ a
    → total (λ b. g (put a values f b)) n ≡ total (λ b. g (f b)) n
unfolding total put
total-put-out g f a values zero out = refl
total-put-out g f a values (suc n) out =
    rw (≢→== n a (omega arith)) (ap (λ k. g (f n) + k) (total-put-out g f a values n (omega arith)))

-- One entry is exchanged for another.
pub total-put :
    (g : List ℕ → ℕ) (f : ℕ → List ℕ) (a : ℕ) (values : List ℕ) (n : ℕ)
    → a < n
    → total (λ b. g (put a values f b)) n + g (f a) ≡ total (λ b. g (f b)) n + g values
unfolding total put
total-put g f a values zero inside = absurd (omega arith)
total-put g f a values (suc n) inside = elim (Bool-cases (n == a)) [
  | inl e ↦
      let same : n ≡ a = (==_iff n a).0 e in
      rw (e, total-put-out g f a values n (omega (arith, same)))
        (omega (arith, ap (λ k. g (f k)) same))
  | inr e ↦ rw e (omega (arith, total-put g f a values n (ground (arith, e, inside))))
]

pub live-pos : (n : ℕ) → 0 < n → live n ≡ some n
unfolding live
live-pos zero pos = absurd (omega arith)
live-pos (suc n) pos = refl

pub live-some : (n m : ℕ) → live n ≡ some m → (n ≡ m) × (0 < n)
unfolding live
live-some zero m e = absurd (none-ne-some _ e)
live-some (suc n) m e = (some-injective (suc n) m e, omega arith)

pub ==_flip : (a b : ℕ) → (a == b) ≡ false → (b == a) ≡ false
==_flip a b e = ground arith

-- What the heap has after the count `n` of `a` was raised.
pub raise_live :
    (x : ℕ → ℕ) (a b n : ℕ)
    → x a ≡ n
    → (if a == b then some (n + 1) else live (x b)) ≡ live ((if b == a then 1 else 0) + x b)
raise_live x a b n at = elim (Bool-cases (a == b)) [
  | inr e ↦ rw (e, ==_flip a b e) (ap live {x = x b} (omega arith))
  | inl e ↦ rw e (
      subst (λ c. some (n + 1) ≡ live ((if c == a then 1 else 0) + x c)) ((==_iff a b).0 e)
        (rw (==_self a) (sym (live-pos (1 + x a) (omega arith) ∙ ap some (omega (arith, at))))))
]

pub IsCounted-same :
    (out out' : ℕ → ℕ) (h : Heap) → ((a : ℕ) → out a ≡ out' a) → IsCounted out h → IsCounted out' h
IsCounted-same out out' h same c = record {
  counted = λ a. c.counted a ∙ ap (λ k. live (k + held h a)) (same a);
  fresh = λ a old. omega (arith, same a, c.fresh a old);
  dead = λ a gone. c.dead a (omega (arith, same a, gone));
}

-- A reference more is the count of one value raised by 1.
pub retain-IsCounted :
    (out : ℕ → ℕ) (h h' : Heap) (a : ℕ)
    → IsCounted out h
    → retain a h ≡ some h'
    → IsCounted (λ b. (if b == a then 1 else 0) + out b) h'
unfolding retain held
retain-IsCounted out h h' a c ran = elim (Option-cases (Dict.find a h.counts)) [
  | inl e ↦ absurd (none-ne-some h' (retain_none e))
  | inr (n, e) ↦
      let (is, pos) = live-some (out a + held h a) n (sym (c.counted a) ∙ e) in
      subst (IsCounted (λ b. (if b == a then 1 else 0) + out b))
        (some-injective (record h { counts = Dict.insert a (n + 1) h.counts }) h' (retain_some n e))
        (raised n is pos)
]
  where
    retain_none : Dict.find a h.counts ≡ none → none ≡ some h'
    retain_none e = rw⁻¹ ran (rw (e, retain) refl)

    retain_some :
        (n : ℕ)
        → Dict.find a h.counts ≡ some n
        → some (record h { counts = Dict.insert a (n + 1) h.counts }) ≡ some h'
    retain_some n e = rw⁻¹ ran (rw (e, retain) refl)

    raised :
        (n : ℕ)
        → out a + held h a ≡ n
        → 0 < out a + held h a
        → IsCounted
            (λ b. (if b == a then 1 else 0) + out b)
            (record h { counts = Dict.insert a (n + 1) h.counts })
    raised n is pos = record {
      counted = λ b.
          find-insert b a (n + 1) h.counts
          ∙ ap (λ o. if a == b then some (n + 1) else o) (c.counted b)
          ∙ raise_live (λ b. out b + held h b) a b n is
          ∙ ap live (omega arith);
      fresh = λ b old. elim (Bool-cases (b == a)) [
        | inl e ↦
            absurd (omega (arith, pos, c.fresh a (subst (λ x. h.next ≤ x) ((==_iff b a).0 e) old)))
        | inr e ↦ rw e (omega (arith, c.fresh b old))
      ];
      dead = λ b none_left. c.dead b (omega (arith, none_left));
    }

-- The same for each of a list.
pub retain_all-IsCounted :
    (values : List ℕ) (out : ℕ → ℕ) (h h' : Heap)
    → IsCounted out h
    → retain_all values h ≡ some h'
    → IsCounted (λ b. refs b values + out b) h'
unfolding retain_all refs
retain_all-IsCounted [] out h h' c ran =
    IsCounted-same out (λ b. 0 + out b) h' (λ b. omega arith)
      (subst (IsCounted out) (some-injective h h' ran) c)
retain_all-IsCounted (a ∷ values) out h h' c ran = elim (Option-cases (retain a h)) [
  | inl e ↦ absurd (none-ne-some h' (bind_none e))
  | inr (h₁, e) ↦
      IsCounted-same (λ b. refs b values + ((if b == a then 1 else 0) + out b))
        (λ b. ((if b == a then 1 else 0) + refs b values) + out b) h' (λ b. omega arith)
        (retain_all-IsCounted values (λ b. (if b == a then 1 else 0) + out b) h₁ h'
          (retain-IsCounted out h h₁ a c e) (bind_some h₁ e))
]
  where
    bind_none : retain a h ≡ none → none ≡ some h'
    bind_none e = rw⁻¹ ran (rw e refl)

    bind_some : (h₁ : Heap) → retain a h ≡ some h₁ → retain_all values h₁ ≡ some h'
    bind_some h₁ e = rw⁻¹ ran (rw e refl)
