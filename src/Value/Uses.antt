-- ===== src/Value/Uses.antt =====
-- What the uses of an array do to the counts of its values.
use libdvbtee.Base.{
  ℕ, ◌+◌, ◌≡◌, ◌∙◌, refl, sym, subst, none, some, Option, List, [], ◌∷◌, ◌++◌, arith, suc, length,
  inl, inr, Option-cases, ◌==◌, if◌then◌else◌,
}
use mathlib.Core.Option.{some-injective, none-ne-some}
use libdvbtee.Value.{Heap, Array, retain, push_value, push_by_ref, weight, clear}
use libdvbtee.Value.Counts.{refs, IsCounted, IsCounted-same, retain-IsCounted}
use libdvbtee.Value.Release.{release_all-IsCounted, push_by_ref-IsCounted, refs-push}

-- What is done with an array: new values, that may hold others, values that exist, and `clear`.
pub data Use (h : Heap) (arr : Array) : Heap → Array → Type 0 where
  at_first : Use h arr h arr
  pushes_new :
      {h₁ h₂ : Heap} {arr₁ arr₂ : Array} {a : ℕ} (values : List ℕ)
      → Use h arr h₁ arr₁
      → push_by_ref values h₁ arr₁ ≡ some (a, h₂, arr₂)
      → Use h arr h₂ arr₂
  pushes_value :
      {h₁ h₂ : Heap} {arr₁ arr₂ : Array} (a : ℕ)
      → Use h arr h₁ arr₁
      → push_value a h₁ arr₁ ≡ some (h₂, arr₂)
      → Use h arr h₂ arr₂
  clears :
      {h₁ h₂ : Heap} {arr₁ arr₂ : Array}
      → Use h arr h₁ arr₁
      → clear h₁ arr₁ ≡ some (h₂, arr₂)
      → Use h arr h₂ arr₂

-- The counts are right for an array with other references to its values.
abbrev pub Fits : (ℕ → ℕ) → Heap → Array → Type 0
Fits others h arr = IsCounted (λ b. refs b arr.values + others b) h

push_value-Fits :
    (others : ℕ → ℕ) (h h' : Heap) (arr arr' : Array) (a : ℕ)
    → Fits others h arr
    → push_value a h arr ≡ some (h', arr')
    → Fits others h' arr'
unfolding push_value
push_value-Fits others h h' arr arr' a c ran = elim (Option-cases (retain a h)) [
  | inl e ↦ absurd (none-ne-some (h', arr') (refused e))
  | inr (h₁, e) ↦
      subst (λ (p : Heap × Array). Fits others p.0 p.1)
        (some-injective (h₁, record arr { values = arr.values ++ (a ∷ []) }) (h', arr') (done h₁ e))
        (IsCounted-same (λ b. (if b == a then 1 else 0) + (refs b arr.values + others b))
          (λ b. refs b (arr.values ++ (a ∷ [])) + others b) h₁
          (λ b. omega (arith, refs-push b a arr.values))
          (retain-IsCounted (λ b. refs b arr.values + others b) h h₁ a c e))
]
  where
    refused : retain a h ≡ none → ◌≡◌ {A = Option (Heap × Array)} none (some (h', arr'))
    refused e = rw⁻¹ ran (rw e refl)

    done :
        (h₁ : Heap)
        → retain a h ≡ some h₁
        → ◌≡◌ {A = Option (Heap × Array)}
            (some (h₁, record arr { values = arr.values ++ (a ∷ []) }))
            (some (h', arr'))
    done h₁ e = rw⁻¹ ran (rw e refl)

-- `clear` on an array whose values are counted right returns, with the counts of the other references.
clear_lem :
    (others : ℕ → ℕ) (h : Heap) (arr : Array)
    → Fits others h arr
    → (h' : Heap) × (clear h arr ≡ some (h', record arr { values = []; indices = [] }))
      × IsCounted others h'
unfolding clear
clear_lem others h arr c =
    let (h', ran, c', _) =
      release_all-IsCounted (suc (weight h + length arr.values)) arr.values others h c
        (omega arith) in
    (h', rw ran refl, c')

nothing_held :
    (others : ℕ → ℕ) (h : Heap) → IsCounted others h → IsCounted (λ b. refs b [] + others b) h
unfolding refs
nothing_held others h c = IsCounted-same others (λ b. 0 + others b) h (λ b. omega arith) c

Use-keeps :
    (others : ℕ → ℕ) (h : Heap) (arr : Array) {h' : Heap} {arr' : Array}
    → Fits others h arr
    → Use h arr h' arr'
    → Fits others h' arr'
Use-keeps others h arr c at_first = c
Use-keeps others h arr c
      (pushes_new {h₁ = h₁} {h₂ = h₂} {arr₁ = arr₁} {arr₂ = arr₂} {a = a} values run ran) =
    push_by_ref-IsCounted values others h₁ h₂ arr₁ arr₂ a (Use-keeps others h arr c run) ran
Use-keeps others h arr c (pushes_value {h₁ = h₁} {h₂ = h₂} {arr₁ = arr₁} {arr₂ = arr₂} a run ran) =
    push_value-Fits others h₁ h₂ arr₁ arr₂ a (Use-keeps others h arr c run) ran
Use-keeps others h arr c (clears {h₁ = h₁} {h₂ = h₂} {arr₁ = arr₁} {arr₂ = arr₂} run ran) =
    let (h₃, cleared, c₃) = clear_lem others h₁ arr₁ (Use-keeps others h arr c run) in
    let same =
      some-injective (h₃, record arr₁ { values = []; indices = [] }) (h₂, arr₂)
        (sym cleared ∙ ran) in
    subst (λ (p : Heap × Array). Fits others p.0 p.1) same (nothing_held others h₃ c₃)

-- An array, of which each value may hold other values, is used by pushing new values, copies of arrays and objects
-- among them, by pushing values that exist, and by `clear`. The values that exist stay those to which there
-- are references, from the array, from values and from elsewhere, with the number of these as their counts.
-- From any such state `clear` returns, and leaves just the values to which others still refer, with their
-- counts: also of those that a deleted value held.
pub Use-IsCounted :
    (others : ℕ → ℕ) (h : Heap) (arr : Array) {h' : Heap} {arr' : Array}
    → IsCounted (λ b. refs b arr.values + others b) h
    → Use h arr h' arr'
    → IsCounted (λ b. refs b arr'.values + others b) h'
      × ((h'' : Heap) × (clear h' arr' ≡ some (h'', record arr' { values = []; indices = [] }))
          × IsCounted others h'')
Use-IsCounted others h arr {h' = h'} {arr' = arr'} c run =
    let kept = Use-keeps others h arr c run in (kept, clear_lem others h' arr' kept)
