-- ===== src/Value/Release.antt =====
-- `clear` and `pushByRef` keep the counts right.
use libdvbtee.Base.{
  ℕ, zero, suc, ◌+◌, ◌≤◌, ◌<◌, ◌≡◌, ◌∙◌, refl, ap, subst, Option, none, some, List, [], ◌∷◌, ◌++◌,
  arith, inl, inr, Bool-cases, Option-cases, ◌==◌, if◌then◌else◌, ≢→==, length,
}
use mathlib.Core.Option.{some-injective, none-ne-some}
use libdvbtee.Base.Dict
use libdvbtee.Base.Dict.{find-insert}
use libdvbtee.Value.{
  Heap, Array, allocate, retain, retain_all, lower, put, total, weight, release_all, push_by_ref,
}
use libdvbtee.Value.Lower.{lower-IsCounted}
use libdvbtee.Value.Counts.{
  refs, held, live, IsCounted, IsCounted-same, retain_all-IsCounted, total-put-out, live-pos,
  ==_self, raise_live,
}

-- A counted reference is one to a value that exists.
find-counted :
    (out : ℕ → ℕ) (h : Heap) (a : ℕ)
    → IsCounted (λ b. (if b == a then 1 else 0) + out b) h
    → (n : ℕ) × (Dict.find a h.counts ≡ some n)
find-counted out h a c = (
  1 + out a + held h a,
  c.counted a ∙ rw (==_self a) (live-pos (1 + out a + held h a) (omega arith)),
)

-- With fuel for each reference that is left, the references of a list are released, and those of all that is
-- deleted.
pub release_all-IsCounted :
    (fuel : ℕ) (values : List ℕ) (out : ℕ → ℕ) (h : Heap)
    → IsCounted (λ b. refs b values + out b) h
    → weight h + length values < fuel
    → (h' : Heap) × (release_all fuel values h ≡ some h')
      × IsCounted out h'
      × (weight h' ≤ weight h)
unfolding release_all refs
release_all-IsCounted zero values out h c enough = absurd (omega arith)
release_all-IsCounted (suc fuel) [] out h c enough =
    (h, refl, IsCounted-same (λ b. 0 + out b) out h (λ b. omega arith) c, omega arith)
release_all-IsCounted (suc fuel) (a ∷ values) out h c enough =
    let here : IsCounted (λ b. (if b == a then 1 else 0) + (refs b values + out b)) h =
      IsCounted-same (λ b. ((if b == a then 1 else 0) + refs b values) + out b)
        (λ b. (if b == a then 1 else 0) + (refs b values + out b)) h (λ b. omega arith) c in
    let (n, found) = find-counted (λ b. refs b values + out b) h a here in
    let (lowered, less) = lower-IsCounted (λ b. refs b values + out b) h a n here found in
    let (h₁, ran, c₁, w₁) =
      release_all-IsCounted fuel (if n == 1 then h.holds a else []) (λ b. refs b values + out b)
        (lower n a h) lowered (ground (arith, less, enough)) in
    let (h₂, ran_on, c₂, w₂) =
      release_all-IsCounted fuel values out h₁ c₁ (ground (arith, less, enough, w₁)) in
    (h₂, rw (found, ran) ran_on, c₂, omega (arith, less, w₁, w₂))

pub refs-push :
    (b a : ℕ) (values : List ℕ)
    → refs b (values ++ (a ∷ [])) ≡ refs b values + (if b == a then 1 else 0)
unfolding refs
refs-push b a [] = omega arith
refs-push b a (x ∷ values) = omega (arith, refs-push b a values)

-- `new` of a value that holds others, which were counted for it, and its first reference.
new_value :
    (values : List ℕ) (out : ℕ → ℕ) (h : Heap)
    → IsCounted (λ b. refs b values + out b) h
    → (h' : Heap) × (retain h.next (allocate values h).1 ≡ some h')
      × IsCounted (λ b. (if b == h.next then 1 else 0) + out b) h'
unfolding allocate retain held total put
new_value values out h c = (
  record h {
    counts = Dict.insert h.next 1 (Dict.insert h.next 0 h.counts);
    holds = put h.next values h.holds;
    next = suc h.next;
  },
  rw (find-insert h.next h.next 0 h.counts, ==_self h.next) refl,
  record { counted = counts; fresh = λ b old. fresh b old; dead = λ b gone. dead b gone },
)
  where
    before : ℕ → ℕ
    before b = refs b values + out b + held h b

    now : ℕ → ℕ
    now b =
        refs b (put h.next values h.holds h.next)
        + total (λ x. refs b (put h.next values h.holds x)) h.next

    sums : (b : ℕ) → now b ≡ refs b values + held h b
    sums b = rw (==_self h.next) (
        ap (λ k. refs b values + k)
          (total-put-out (refs b) h.holds h.next values h.next (omega arith)))

    second :
        (b : ℕ)
        → (if h.next == b then some 1 else Dict.find b (Dict.insert h.next 0 h.counts))
          ≡ (if h.next == b then some 1 else live (before b))
    second b = elim (Bool-cases (h.next == b)) [
      | inl e ↦ rw e refl
      | inr e ↦ rw (e, find-insert b h.next 0 h.counts, e) (c.counted b)
    ]

    counts :
        (b : ℕ)
        → Dict.find b (Dict.insert h.next 1 (Dict.insert h.next 0 h.counts))
          ≡ live (((if b == h.next then 1 else 0) + out b) + now b)
    counts b =
        find-insert b h.next 1 (Dict.insert h.next 0 h.counts)
        ∙ second b
        ∙ raise_live before h.next b 0 (c.fresh h.next (omega arith))
        ∙ ap live (omega (arith, sums b))

    fresh : (b : ℕ) → suc h.next ≤ b → ((if b == h.next then 1 else 0) + out b) + now b ≡ 0
    fresh b old =
        rw (≢→== b h.next (omega (arith, old)))
          (omega (arith, sums b, c.fresh b (omega (arith, old))))

    dead :
        (b : ℕ)
        → ((if b == h.next then 1 else 0) + out b) + now b ≡ 0
        → put h.next values h.holds b ≡ []
    dead b gone = elim (Bool-cases (b == h.next)) [
      | inl e ↦ absurd (ground (arith, e, gone))
      | inr e ↦ rw e (c.dead b (omega (arith, sums b, gone)))
    ]

-- A copy takes a reference to each of the values that it holds, and is itself counted once.
pub push_by_ref-IsCounted :
    (values : List ℕ) (out : ℕ → ℕ) (h h' : Heap) (arr arr' : Array) (a : ℕ)
    → IsCounted (λ b. refs b arr.values + out b) h
    → push_by_ref values h arr ≡ some (a, h', arr')
    → IsCounted (λ b. refs b arr'.values + out b) h'
unfolding push_by_ref
push_by_ref-IsCounted values out h h' arr arr' a c ran = elim (Option-cases (retain_all values h)) [
  | inl e ↦ absurd (none-ne-some (a, h', arr') (refused e))
  | inr (h₁, e) ↦
      let (h₂, kept, c₂) =
        new_value values (λ b. refs b arr.values + out b) h₁
          (retain_all-IsCounted values (λ b. refs b arr.values + out b) h h₁ c e) in
      let same =
        some-injective (h₁.next, h₂, record arr { values = arr.values ++ (h₁.next ∷ []) })
          (a, h', arr') (done h₁ h₂ e kept) in
      subst (λ (p : ℕ × Heap × Array). IsCounted (λ b. refs b p.2.values + out b) p.1) same
        (IsCounted-same (λ b. (if b == h₁.next then 1 else 0) + (refs b arr.values + out b))
          (λ b. refs b (arr.values ++ (h₁.next ∷ [])) + out b) h₂
          (λ b. omega (arith, refs-push b h₁.next arr.values)) c₂)
]
  where
    refused :
        retain_all values h ≡ none → ◌≡◌ {A = Option (ℕ × Heap × Array)} none (some (a, h', arr'))
    refused e = rw⁻¹ ran (rw e refl)

    done :
        (h₁ h₂ : Heap)
        → retain_all values h ≡ some h₁
        → retain h₁.next (allocate values h₁).1 ≡ some h₂
        → ◌≡◌ {A = Option (ℕ × Heap × Array)}
            (some (h₁.next, h₂, record arr { values = arr.values ++ (h₁.next ∷ []) }))
            (some (a, h', arr'))
    done h₁ h₂ e kept = rw⁻¹ ran (rw (e, kept) refl)
