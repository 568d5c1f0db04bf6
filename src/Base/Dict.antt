-- ===== src/Base/Dict.antt =====
-- `std::map` with an integer key: its entries in the order of the keys, as an iterator meets them.
use Prim.Native.Nat.{ℕ, ◌<◌, ◌≤◌}
use mathlib.Core.Path.{◌≡◌, refl, subst, ap, ◌∙◌}
use mathlib.Core.Bool.{Bool, true, false}
use mathlib.Core.List.{List, [], ◌∷◌}
use mathlib.Core.Option.{Option, none, some}
use native.Mathlib.Omega.{arith}
use libdvbtee.Base.Tests.{ltb, ◌==◌, if◌then◌else◌, ==_iff, Bool-cases}
use mathlib.Core.Logic.{inl, inr}

module _ {ℓ} where
  abbrev pub Dict : Type ℓ → Type ℓ
  Dict V = List (ℕ × V)

module _ {ℓ} {V : Type ℓ} where
  -- `find`
  unfoldable pub find : ℕ → Dict V → Option V
  find k [] = none
  find k ((j, v) ∷ m) = if j == k then some v else find k m

  -- `count(k) != 0`
  unfoldable pub has : ℕ → Dict V → Bool
  has k [] = false
  has k ((j, v) ∷ m) = if j == k then true else has k m

  -- the value that `operator[]` refers to: `d` stands for a new entry
  unfoldable pub get_or : ℕ → Dict V → V → V
  get_or k [] d = d
  get_or k ((j, v) ∷ m) d = if j == k then v else get_or k m d

  -- `m[k] = v`
  unfoldable pub insert : ℕ → V → Dict V → Dict V
  insert k v [] = (k, v) ∷ []
  insert k v ((j, w) ∷ m) =
      if k == j then (k, v) ∷ m else if ltb k j then (k, v) ∷ (j, w) ∷ m else (j, w) ∷ insert k v m

  -- `erase`
  unfoldable pub erase : ℕ → Dict V → Dict V
  erase k [] = []
  erase k ((j, v) ∷ m) = if j == k then erase k m else (j, v) ∷ erase k m

  pub get_or-nil : (k : ℕ) (d : V) → get_or k [] d ≡ d
  unfolding get_or
  get_or-nil k d = refl

  pub find-insert :
      (j k : ℕ) (v : V) (m : Dict V) → find j (insert k v m) ≡ (if k == j then some v else find j m)
  unfolding find insert
  find-insert j k v [] = refl
  find-insert j k v ((i, w) ∷ m) = ground (arith, find-insert j k v m)

  pub has-insert :
      (j k : ℕ) (v : V) (m : Dict V) → has j (insert k v m) ≡ (if k == j then true else has j m)
  unfolding has insert
  has-insert j k v [] = refl
  has-insert j k v ((i, w) ∷ m) = ground (arith, has-insert j k v m)

  pub get_or-insert :
      (j k : ℕ) (v d : V) (m : Dict V)
      → get_or j (insert k v m) d ≡ (if k == j then v else get_or j m d)
  unfolding get_or insert
  get_or-insert j k v d [] = refl
  get_or-insert j k v d ((i, w) ∷ m) = ground (arith, get_or-insert j k v d m)

  pub has-erase : (j k : ℕ) (m : Dict V) → has j (erase k m) ≡ (if k == j then false else has j m)
  unfolding has erase
  has-erase j k [] = ground arith
  has-erase j k ((i, w) ∷ m) = ground (arith, has-erase j k m)

  pub find-erase : (j k : ℕ) (m : Dict V) → find j (erase k m) ≡ (if k == j then none else find j m)
  unfolding find erase
  find-erase j k [] = ground arith
  find-erase j k ((i, w) ∷ m) = ground (arith, find-erase j k m)

  -- Every key of `m` lies above `k`.
  abbrev pub Above : ℕ → Dict V → Type 0
  Above k [] = Unit
  Above k ((j, v) ∷ m) = (k < j) × Above k m

  abbrev pub IsSorted : Dict V → Type 0
  IsSorted [] = Unit
  IsSorted ((k, v) ∷ m) = Above k m × IsSorted m

  pub Above-mono : (j k : ℕ) (m : Dict V) → j < k → Above k m → Above j m
  Above-mono j k [] h a = tt
  Above-mono j k ((i, v) ∷ m) h a = (omega arith, Above-mono j k m h a.1)

  Above-insert : (j k : ℕ) (v : V) (m : Dict V) → j < k → Above j m → Above j (insert k v m)
  unfolding insert
  Above-insert j k v [] h a = (h, tt)
  Above-insert j k v ((i, w) ∷ m) h a = ground (arith, Above-insert j k v m h a.1)

  pub insert-IsSorted : (k : ℕ) (v : V) (m : Dict V) → IsSorted m → IsSorted (insert k v m)
  unfolding insert
  insert-IsSorted k v [] s = (tt, tt)
  insert-IsSorted k v ((j, w) ∷ m) s = ground (
    arith,
    Above-mono k j m,
    Above-insert j k v m,
    insert-IsSorted k v m s.1,
    subst (λ n. Above n m) {x = j} {y = k},
  )

  pub get_or-Above : (k : ℕ) (m : Dict V) (d : V) → Above k m → get_or k m d ≡ d
  unfolding get_or
  get_or-Above k [] d a = refl
  get_or-Above k ((j, v) ∷ m) d a = ground (arith, get_or-Above k m d a.1)

  has-Above : (k j : ℕ) (m : Dict V) → k ≤ j → Above j m → has k m ≡ false
  unfolding has
  has-Above k j [] h a = refl
  has-Above k j ((i, w) ∷ m) h a = ground (arith, has-Above k j m h a.1)

  find-get_or : (k : ℕ) (d v : V) (m : Dict V) → find k m ≡ some v → get_or k m d ≡ v
  unfolding find get_or
  find-get_or k d v [] e = ground (arith, e)
  find-get_or k d v ((i, w) ∷ m) e = ground (arith, e, find-get_or k d v m)

  pub has-find : (k : ℕ) (v : V) (m : Dict V) → find k m ≡ some v → has k m ≡ true
  unfolding find has
  has-find k v [] e = ground (arith, e)
  has-find k v ((i, w) ∷ m) e = ground (arith, e, has-find k v m)

  pub has-none : (k : ℕ) (m : Dict V) → find k m ≡ none → has k m ≡ false
  unfolding find has
  has-none k [] e = refl
  has-none k ((i, w) ∷ m) e = ground (arith, e, has-none k m)

  -- Writing back what was read changes nothing.
  pub insert-get_or :
      (k : ℕ) (d : V) (m : Dict V) → IsSorted m → has k m ≡ true → insert k (get_or k m d) m ≡ m
  unfolding insert get_or has
  insert-get_or k d [] s h = ground (arith, h)
  insert-get_or k d ((j, w) ∷ m) s h = elim (Bool-cases (k == j)) [
    | inl e ↦ same e
    | inr e ↦
        let there : has k m ≡ true = ground (arith, h) in
        ap (λ v. insert k v ((j, w) ∷ m)) (read e)
        ∙ behind e there (get_or k m d)
        ∙ ap (◌∷◌ (j, w)) (insert-get_or k d m s.1 there)
  ]
    where
      flipped : (k == j) ≡ true → (j == k) ≡ true
      flipped e = ground arith

      same : (k == j) ≡ true → insert k (get_or k ((j, w) ∷ m) d) ((j, w) ∷ m) ≡ (j, w) ∷ m
      same e = rw (e, flipped e) (ap (λ i. (i, w) ∷ m) ((==_iff k j).0 e))

      other : (k == j) ≡ false → (j == k) ≡ false
      other e = ground arith

      read : (k == j) ≡ false → get_or k ((j, w) ∷ m) d ≡ get_or k m d
      read e = rw (other e) refl

      above : (k == j) ≡ false → has k m ≡ true → ltb k j ≡ false
      above e there = ground (arith, has-Above k j m)

      behind :
          (k == j) ≡ false
          → has k m ≡ true
          → (v : V) → insert k v ((j, w) ∷ m) ≡ (j, w) ∷ insert k v m
      behind e there v = rw (e, above e there) refl

  pub insert-find : (k : ℕ) (v : V) (m : Dict V) → IsSorted m → find k m ≡ some v → insert k v m ≡ m
  insert-find k v m s e =
      subst (λ w. insert k w m ≡ m) (find-get_or k v v m e)
        (insert-get_or k v m s (has-find k v m e))
