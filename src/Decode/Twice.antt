-- ===== src/Decode/Twice.antt =====
-- A table that the decoder has already taken.
use libdvbtee.Base.{
  ℕ, ◌≡◌, refl, ◌∙◌, ap, sym, Bool, true, false, Option, none, some, List, [], ◌∷◌, ◌&&◌, not,
  arith, ◌==◌, if◌then◌else◌, length, Bool-cases, Option-cases, inl, inr,
}
use libdvbtee.Base.Dict
use libdvbtee.Base.Dict.{Dict}
use libdvbtee.Decode.Records.{DecodedPmt, no_pmt}
use libdvbtee.Decode.Tables.{
  PsiPat, PsiPmt, PsiMgt, PsiVct, ingest, store_pat, store_pmt, store_mgt, store_vct,
}
use libdvbtee.Decode.Stream.{Decode, take_pat, take_pmt, ingest_pmt, take_vct, take_mgt}
use mathlib.Core.Option

pub ==-refl : (n : ℕ) → (n == n) ≡ true
==-refl n = ground arith

insert-insert :
    {V : Type 0} (k : ℕ) (v w : V) (m : Dict V)
    → Dict.insert k w (Dict.insert k v m) ≡ Dict.insert k w m
unfolding Dict.insert
insert-insert k v w [] = ground arith
insert-insert k v w ((j, x) ∷ m) = ground (arith, insert-insert k v w m)

get_or-insert_same :
    {V : Type 0} (k : ℕ) (v d : V) (m : Dict V) → Dict.get_or k (Dict.insert k v m) d ≡ v
get_or-insert_same k v d m = Dict.get_or-insert k k v d m ∙ rw (==-refl k) refl

-- the tables after `ingest` gave the new ones, or none
unfoldable pub kept : {A : Type 0} → Option (List A) → List A → List A
kept none xs = xs
kept (some ys) xs = ys

kept-map :
    {A : Type 0} (x : A) (o : Option (List A)) (xs : List A)
    → kept (Option.map (λ ys. x ∷ ys) o) (x ∷ xs) ≡ x ∷ kept o xs
unfolding kept
kept-map x none xs = refl
kept-map x (some ys) xs = refl

module _ {A : Type 0} (subject version : A → Bool) where
  ingest-head :
      (t x : A) (xs : List A)
      → subject x ≡ true
      → ingest subject version t (x ∷ xs) ≡ (if version x then none else some (t ∷ xs))
  unfolding ingest
  ingest-head t x xs s = rw s refl

  ingest-tail :
      (t x : A) (xs : List A)
      → subject x ≡ false
      → ingest subject version t (x ∷ xs) ≡ Option.map (λ ys. x ∷ ys) (ingest subject version t xs)
  unfolding ingest
  ingest-tail t x xs s = rw s refl

  -- After `ingest` of a table, one of the same subject and version is turned down.
  pub ingest_again :
      (t u : A) (xs : List A)
      → subject t ≡ true
      → version t ≡ true
      → ingest subject version u (kept (ingest subject version t xs) xs) ≡ none
  unfolding kept
  ingest_again t u [] s v = unfold ingest in simp (s, v) refl
  ingest_again t u (x ∷ xs) s v = elim (Bool-cases (subject x)) [
    | inr other ↦ rw (ingest-tail t x xs other) (
        rw (kept-map x (ingest subject version t xs) xs)
          (ingest-tail u x _ other ∙ ap (Option.map (λ ys. x ∷ ys)) (ingest_again t u xs s v)))
    | inl same ↦ elim (Bool-cases (version x)) [
      | inl known ↦
          rw (ingest-head t x xs same) (rw known (ingest-head u x xs same ∙ rw known refl))
      | inr new ↦ rw (ingest-head t x xs same) (rw new (ingest-head u t xs s ∙ rw v refl))
    ]
  ]

take_pat_twice : (t : PsiPat) (d : Decode) → take_pat t (take_pat t d).0 ≡ ((take_pat t d).0, false)
unfolding take_pat store_pat
take_pat_twice t d = elim (Bool-cases (d.pat.version == t.version && d.pat.ts_id == t.ts_id)) [
  | inl e ↦ simp e refl
  | inr e ↦ simp (e, ==-refl t.version, ==-refl t.ts_id) refl
]

take_vct_twice : (t : PsiVct) (d : Decode) → take_vct t (take_vct t d).0 ≡ ((take_vct t d).0, false)
unfolding take_vct store_vct
take_vct_twice t d = elim (Bool-cases (d.vct.version == t.version && d.vct.ts_id == t.extension)) [
  | inl e ↦ simp e refl
  | inr e ↦ simp (e, ==-refl t.version, ==-refl t.extension) refl
]

take_mgt_twice :
    (t : PsiMgt) (d : Decode)
    → take_mgt t (take_mgt t d).0 ≡ ((take_mgt t d).0, length (take_mgt t d).0.mgt.tables == 0)
unfolding take_mgt store_mgt
take_mgt_twice t d =
    elim (Bool-cases (d.mgt.version == t.version && not (length d.mgt.tables == 0))) [
      | inl e ↦
          simp e
            (ap (λ b. (d, b)) (other (d.mgt.version == t.version) (length d.mgt.tables == 0) e))
      | inr e ↦
          simp (e, ==-refl t.version)
            (elim (Bool-cases (length (store_mgt t).tables == 0)) [
              | inl z ↦ simp z refl
              | inr z ↦ simp z refl
            ])
    ]
  where
    other : (b c : Bool) → (b && not c) ≡ true → false ≡ c
    other b c e = ground arith

insert_found :
    {V : Type 0} (k : ℕ) (v d : V) (m : Dict V)
    → Dict.insert k (Dict.get_or k (Dict.insert k v m) d) (Dict.insert k v m) ≡ Dict.insert k v m
insert_found k v d m =
    ap (λ c. Dict.insert k c (Dict.insert k v m)) (get_or-insert_same k v d m)
    ∙ insert-insert k v v m

-- The decoder has the map table under its program: then `take_pmt` does nothing.
take_pmt_known :
    (t : PsiPmt) (d : Decode) (v : DecodedPmt) (m : Dict DecodedPmt)
    → d.pmt ≡ Dict.insert t.program v m
    → (v.version == t.version && v.program == t.program) ≡ true
    → take_pmt t d ≡ (d, false)
unfolding take_pmt
take_pmt_known t d v m e k =
    simp (e, get_or-insert_same t.program v no_pmt m, k, insert-insert t.program v v m)
      (ap (λ p. (record d { pmt = p }, false)) (sym e))

-- The decoder has it in its store only: then `take_pmt` makes an entry of the map, if any.
take_pmt_stored :
    (t : PsiPmt) (d : Decode) (v : DecodedPmt) (m : Dict DecodedPmt)
    → d.pmt ≡ Dict.insert t.program v m
    → ingest (λ x. x.program == t.program) (λ x. x.version == t.version) (store_pmt t) d.pmt_store
      ≡ none
    → take_pmt t d ≡ (d, false)
unfolding take_pmt ingest_pmt
take_pmt_stored t d v m e k =
    simp (e, get_or-insert_same t.program v no_pmt m, k, insert-insert t.program v v m)
      (elim (Bool-cases (v.version == t.version && v.program == t.program)) [
        | inl b ↦ simp b (ap (λ p. (record d { pmt = p }, false)) (sym e))
        | inr b ↦ simp b (ap (λ p. (record d { pmt = p }, false)) (sym e))
      ])

stays :
    (f : Decode → Decode × Bool) (d e : Decode) (b : Bool)
    → f d ≡ (e, b)
    → f e ≡ (e, false)
    → f (f d).0 ≡ ((f d).0, false)
stays f d e b r k = rw r k

take_pmt_twice : (t : PsiPmt) (d : Decode) → take_pmt t (take_pmt t d).0 ≡ ((take_pmt t d).0, false)
unfolding take_pmt ingest_pmt store_pmt
take_pmt_twice t d =
    let cur = Dict.get_or t.program d.pmt no_pmt in
    elim (Bool-cases (cur.version == t.version && cur.program == t.program)) [
      | inl e ↦
          stays (take_pmt t) d (seen cur) false (simp e refl)
            (take_pmt_known t (seen cur) cur d.pmt refl e)
      | inr e ↦
          elim (Option-cases (
            ingest (λ x. x.program == t.program) (λ x. x.version == t.version) (store_pmt t)
              d.pmt_store)) [
                | inl n ↦
                    stays (take_pmt t) d (seen cur) false (simp (e, n) refl)
                      (take_pmt_stored t (seen cur) cur d.pmt refl n)
                | inr (ys, n) ↦ stays (take_pmt t) d (taken cur ys) true (simp (e, n) refl) (
                    take_pmt_known t (taken cur ys) (store_pmt t) (seen cur).pmt refl
                      (simp (==-refl t.version, ==-refl t.program) refl))
              ]
    ]
  where
    seen : DecodedPmt → Decode
    seen cur = record d { pmt = Dict.insert t.program cur d.pmt }

    taken : DecodedPmt → List DecodedPmt → Decode
    taken cur ys = record (seen cur) {
      pmt_store = ys;
      pmt = Dict.insert t.program (store_pmt t) (seen cur).pmt;
      rcvd_pmt = Dict.insert t.program true d.rcvd_pmt;
    }

-- A table that the decoder has just been given is not new to it when it comes again: the association,
-- a map and a channel table then change nothing and are reported as known. So is the master guide table,
-- unless it lists no table: such a one is reported as new each time.
pub taken_twice :
    (a : PsiPat) (t : PsiPmt) (v : PsiVct) (m : PsiMgt) (d : Decode)
    → (take_pat a (take_pat a d).0 ≡ ((take_pat a d).0, false))
      × (take_pmt t (take_pmt t d).0 ≡ ((take_pmt t d).0, false))
      × (take_vct v (take_vct v d).0 ≡ ((take_vct v d).0, false))
      × (take_mgt m (take_mgt m d).0 ≡ ((take_mgt m d).0, length (take_mgt m d).0.mgt.tables == 0))
taken_twice a t v m d =
    (take_pat_twice a d, take_pmt_twice t d, take_vct_twice v d, take_mgt_twice m d)
