-- ===== src/Value/Lower.antt =====
-- A reference less: the count is lowered, and the value is deleted at 0.
use libdvbtee.Base.{
  ℕ, ◌+◌, ◌-◌, ◌≤◌, ◌<◌, ◌≡◌, ◌∙◌, refl, sym, ap, subst, true, false, none, some, List, [], arith,
  inl, inr, Bool-cases, ◌==◌, if◌then◌else◌, ==_iff, length, ltb, ltb→lt,
}
use libdvbtee.Base.Dict
use libdvbtee.Base.Dict.{Dict, find-insert, find-erase}
use libdvbtee.Value.{Heap, lower, put, total, weight}
use libdvbtee.Value.Counts.{
  refs, held, live, IsCounted, total-put, live-pos, live-some, ==_self, ==_flip,
}

inside_heap :
    (out : ℕ → ℕ) (h : Heap) (a : ℕ)
    → IsCounted (λ b. (if b == a then 1 else 0) + out b) h
    → a < h.next
inside_heap out h a c = elim (Bool-cases (ltb a h.next)) [
  | inl e ↦ ltb→lt a h.next e
  | inr e ↦ absurd (one_more (==_self a) (c.fresh a (ground (arith, e))))
]
  where
    one_more : (a == a) ≡ true → (if a == a then 1 else 0) + out a + held h a ≡ 0 → ⊥
    one_more s z = ground (arith, s, z)

-- What the heap has after the count of `a` was lowered, and is gone at 0.
lower_live :
    (x : ℕ → ℕ) (a b n : ℕ)
    → x a + 1 ≡ n
    → (if a == b
        then if n == 1 then none else some (n - 1)
        else live ((if b == a then 1 else 0) + x b))
      ≡ live (x b)
unfolding live
lower_live x a b n at = elim (Bool-cases (a == b)) [
  | inr e ↦ rw (e, ==_flip a b e) (ap live {y = x b} (omega arith))
  | inl e ↦ rw e (
      subst (λ c. (if n == 1 then none else some (n - 1)) ≡ live (x c)) ((==_iff a b).0 e)
        (own (x a) n at))
]
  where
    own : (k n : ℕ) → k + 1 ≡ n → (if n == 1 then none else some (n - 1)) ≡ live k
    own k n e = elim (Bool-cases (n == 1)) [
      | inl z ↦ rw z (ap live {x = 0} {y = k} (ground (arith, z, e)))
      | inr z ↦
          rw z (
            ap some {x = n - 1} {y = k} (omega (arith, e))
            ∙ sym (live-pos k (ground (arith, z, e))))
    ]

find-lower :
    (h : Heap) (a b n : ℕ)
    → Dict.find b (lower n a h).counts
      ≡ (if a == b then if n == 1 then none else some (n - 1) else Dict.find b h.counts)
unfolding lower
find-lower h a b n = elim (Bool-cases (n == 1)) [
  | inl z ↦ rw z (find-erase b a h.counts)
  | inr z ↦ rw z (find-insert b a (n - 1) h.counts)
]

-- What the values hold after one was lowered, and what it held itself if it is gone.
lower-total :
    (g : List ℕ → ℕ) (h : Heap) (a n : ℕ)
    → g [] ≡ 0
    → a < h.next
    → total (λ b. g ((lower n a h).holds b)) (lower n a h).next
        + g (if n == 1 then h.holds a else [])
      ≡ total (λ b. g (h.holds b)) h.next
unfolding lower
lower-total g h a n zero_left inside = elim (Bool-cases (n == 1)) [
  | inl z ↦ rw z (omega (arith, zero_left, total-put g h.holds a [] h.next inside))
  | inr z ↦ rw z (omega (arith, zero_left))
]

lower_dead : (h : Heap) (a b n : ℕ) → h.holds b ≡ [] → (lower n a h).holds b ≡ []
unfolding lower put
lower_dead h a b n e = elim (Bool-cases (n == 1)) [
  | inr z ↦ rw z e
  | inl z ↦ elim (Bool-cases (b == a)) [ inl s ↦ rw (z, s) refl | inr s ↦ rw (z, s) e ]
]

lower-next : (h : Heap) (a n : ℕ) → (lower n a h).next ≡ h.next
unfolding lower
lower-next h a n = elim (Bool-cases (n == 1)) [ inl z ↦ rw z refl | inr z ↦ rw z refl ]

lower_self : (h : Heap) (a : ℕ) → (lower 1 a h).holds a ≡ []
unfolding lower put
lower_self h a = rw (==_self a) refl

pub lower-IsCounted :
    (out : ℕ → ℕ) (h : Heap) (a n : ℕ)
    → IsCounted (λ b. (if b == a then 1 else 0) + out b) h
    → Dict.find a h.counts ≡ some n
    → IsCounted (λ b. refs b (if n == 1 then h.holds a else []) + out b) (lower n a h)
      × (weight (lower n a h) + length (if n == 1 then h.holds a else []) ≡ weight h)
unfolding held weight refs
lower-IsCounted out h a n c e = (
  record {
    counted = λ b.
        find-lower h a b n
        ∙ ap (λ o. if a == b then if n == 1 then none else some (n - 1) else o) (c.counted b)
        ∙ ap (λ k. if a == b then if n == 1 then none else some (n - 1) else live k) (omega arith)
        ∙ lower_live left a b n one_less
        ∙ ap live (sym (same b));
    fresh = λ b old. same b ∙ omega (arith, c.fresh b (subst (λ k. k ≤ b) (lower-next h a n) old));
    dead = λ b gone. holds_none b (sym (same b) ∙ gone);
  },
  lower-total length h a n refl (inside_heap out h a c),
)
  where
    left : ℕ → ℕ
    left b = out b + held h b

    counted_one :
        (a == a) ≡ true → (if a == a then 1 else 0) + out a + held h a ≡ n → left a + 1 ≡ n
    counted_one s m = ground (arith, s, m)

    one_less : left a + 1 ≡ n
    one_less = counted_one (==_self a) (live-some _ n (sym (c.counted a) ∙ e)).0

    same :
        (b : ℕ) → refs b (if n == 1 then h.holds a else []) + out b + held (lower n a h) b ≡ left b
    same b = omega (arith, lower-total (refs b) h a n refl (inside_heap out h a c))

    other :
        (b : ℕ) → (b == a) ≡ false → left b ≡ 0 → (if b == a then 1 else 0) + out b + held h b ≡ 0
    other b s z = rw s (omega (arith, z))

    itself : (b : ℕ) → b ≡ a → left b ≡ 0 → (lower n a h).holds b ≡ []
    itself b s z =
        subst (λ k. (lower k a h).holds b ≡ []) {x = 1} {y = n}
          (omega (arith, one_less, ap left s, z))
          (subst (λ c. (lower 1 a h).holds c ≡ []) (sym s) (lower_self h a))

    holds_none : (b : ℕ) → left b ≡ 0 → (lower n a h).holds b ≡ []
    holds_none b z = elim (Bool-cases (b == a)) [
      | inr s ↦ lower_dead h a b n (c.dead b (other b s z))
      | inl s ↦ itself b ((==_iff b a).0 s) z
    ]
