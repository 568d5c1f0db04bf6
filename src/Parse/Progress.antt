-- ===== src/Parse/Progress.antt =====
-- The handlers make the parser ready: what `Ready` reports once the tables have come in, whether the
-- decoder had them before or not.
use libdvbtee.Base.{
  ℕ, ◌≡◌, ◌≢◌, refl, ◌∙◌, ap, Bool, true, false, List, [], ◌∷◌, arith, ◌==◌, length, ≢→==,
  Bool-cases, Option-cases, inl, inr,
}
use libdvbtee.Base.Dict
use libdvbtee.Base.Dict.{Dict}
use libdvbtee.WritePsi.{Section}
use libdvbtee.Decode.Records.{ElementaryStream, MgtTable}
use libdvbtee.Decode.Tables.{PsiPat, PsiPmt, PsiMgt, PsiVct, PsiNit, PsiSdt}
use libdvbtee.Decode.Stream
use libdvbtee.Decode.Stream.{Decode}
use libdvbtee.Parse.State.{Parser, add_filter, on_decoder, set_ts_id, put_decoder, get_decoder}
use libdvbtee.Parse.Psi.{
  process_pmt, process_es, process_mgt, process_mgt_tables, process_mgt_table, note_pid, wrap,
  expect_program, process_pat, wanted,
}
use libdvbtee.Parse.Ready.{is_pmt_ready, is_basic_psip_ready}
use libdvbtee.Parse.Handlers.{
  rewrite_pat, before_pat, after_pat, take_pat, take_pmt, take_vct, take_mgt, take_nit_actual,
  take_sdt_actual, after_pmt,
}

-- the flags of the tables that have come in
pub record Flags : Type 0 where
  pub pat : Bool
  pub mgt : Bool
  pub vct : Bool
  pub sdt : Bool
  pub nit : Bool

abbrev pub flags : Parser → Flags
flags p = record {
  pat = p.has_pat;
  mgt = p.has_mgt;
  vct = p.has_vct;
  sdt = p.has_sdt;
  nit = p.has_nit;
}

flags-on_decoder :
    (id : ℕ) (method : Decode → Decode × Bool) (p : Parser)
    → flags (on_decoder id method p).0 ≡ flags p
unfolding on_decoder put_decoder
flags-on_decoder id method p = refl

rcvd_pmt-on_decoder :
    (id : ℕ) (method : Decode → Decode × Bool) (p : Parser)
    → (on_decoder id method p).0.rcvd_pmt ≡ p.rcvd_pmt
unfolding on_decoder put_decoder
rcvd_pmt-on_decoder id method p = refl

flags-set_ts_id : (id : ℕ) (p : Parser) → flags (set_ts_id id p) ≡ flags p
unfolding set_ts_id put_decoder
flags-set_ts_id id p = refl

flags-expect_program : (n pid : ℕ) (p : Parser) → flags (expect_program n pid p) ≡ flags p
unfolding expect_program add_filter
flags-expect_program n pid p = elim (Bool-cases (wanted p n)) [
  | inl e ↦ rw e refl
  | inr e ↦ rw e refl
]

flags-process_mgt_table :
    (type : ℕ) (t : MgtTable) (p : Parser) → flags (process_mgt_table type t p) ≡ flags p
unfolding process_mgt_table note_pid add_filter
flags-process_mgt_table type t p = ground arith

-- The handler gives the flags `g` if both of its ends do.
flags-wrap :
    (before : Parser → Parser) (method : Decode → Decode × Bool) (done : Parser → Bool)
    (after : Parser → Parser) (p : Parser) (g : Flags)
    → ((q : Parser) → flags q ≡ flags (before p) → flags (after q) ≡ g)
    → ((q : Parser) → flags q ≡ flags (before p) → done q ≡ true → flags q ≡ g)
    → flags (wrap before method done after p) ≡ g
unfolding wrap
flags-wrap before method done after p g run skip =
    let p₁ = before p in
    let p₂ = (on_decoder p₁.ts_id method p₁).0 in
    let fresh = (on_decoder p₁.ts_id method p₁).1 in
    elim (Bool-cases fresh) [
      | inl e ↦ rw e (run p₂ (flags-on_decoder p₁.ts_id method p₁))
      | inr e ↦ elim (Bool-cases (done p₂)) [
        | inl d ↦ rw e (rw d (skip p₂ (flags-on_decoder p₁.ts_id method p₁) d))
        | inr d ↦ rw e (rw d (run p₂ (flags-on_decoder p₁.ts_id method p₁)))
      ]
    ]

flags-process_mgt_tables :
    (m : Dict MgtTable) (p : Parser) → flags (process_mgt_tables m p) ≡ flags p
unfolding process_mgt_tables
flags-process_mgt_tables [] p = refl
flags-process_mgt_tables ((type, t) ∷ m) p =
    flags-process_mgt_tables m (process_mgt_table type t p) ∙ flags-process_mgt_table type t p

flags-process_mgt : (p : Parser) → flags (process_mgt p) ≡ flags p
unfolding process_mgt
flags-process_mgt p =
    flags-process_mgt_tables (get_decoder p.ts_id p).mgt.tables
      (record p { eit_pids = []; ett_pids = [] })

flags-process_pat : (m : Dict ℕ) (p : Parser) → flags (process_pat m p) ≡ flags p
unfolding process_pat
flags-process_pat [] p = refl
flags-process_pat ((n, pid) ∷ m) p =
    flags-process_pat m (expect_program n pid p) ∙ flags-expect_program n pid p

flags-take_mgt : (t : PsiMgt) (p : Parser) → flags (take_mgt t p) ≡ record (flags p) { mgt = true }
unfolding take_mgt
flags-take_mgt t p =
    flags-wrap (λ p. p) (Stream.take_mgt t) (λ p. p.has_mgt)
      (λ p. record (process_mgt p) { has_mgt = true }) p (record (flags p) { mgt = true })
      (λ q e. ap (λ (f : Flags). record f { mgt = true }) (flags-process_mgt q ∙ e))
      (λ q e d.
        ap (λ b. record (flags q) { mgt = b }) d ∙ ap (λ (f : Flags). record f { mgt = true }) e)

flags-take_vct : (t : PsiVct) (p : Parser) → flags (take_vct t p) ≡ record (flags p) { vct = true }
unfolding take_vct
flags-take_vct t p =
    flags-wrap (set_ts_id t.extension) (Stream.take_vct t) (λ p. p.has_vct)
      (λ p. record p { has_vct = true }) p (record (flags p) { vct = true })
      (λ q e. ap (λ (f : Flags). record f { vct = true }) (e ∙ flags-set_ts_id t.extension p))
      (λ q e d.
        ap (λ b. record (flags q) { vct = b }) d
        ∙ ap (λ (f : Flags). record f { vct = true }) (e ∙ flags-set_ts_id t.extension p))

flags-take_sdt_actual :
    (t : PsiSdt) (p : Parser) → flags (take_sdt_actual t p) ≡ record (flags p) { sdt = true }
unfolding take_sdt_actual
flags-take_sdt_actual t p =
    flags-wrap (set_ts_id t.extension) (Stream.take_sdt_actual t) (λ p. p.has_sdt)
      (λ p. record p { has_sdt = true }) p (record (flags p) { sdt = true })
      (λ q e. ap (λ (f : Flags). record f { sdt = true }) (e ∙ flags-set_ts_id t.extension p))
      (λ q e d.
        ap (λ b. record (flags q) { sdt = b }) d
        ∙ ap (λ (f : Flags). record f { sdt = true }) (e ∙ flags-set_ts_id t.extension p))

flags-take_nit_actual :
    (t : PsiNit) (p : Parser) → flags (take_nit_actual t p) ≡ record (flags p) { nit = true }
unfolding take_nit_actual
flags-take_nit_actual t p =
    flags-wrap (λ p. record p { has_nit = true }) (Stream.take_nit_actual t) (λ p. p.has_nit)
      (λ p. p) p (record (flags p) { nit = true }) (λ q e. e) (λ q e d. e)

ready_atsc :
    (p : Parser)
    → p.has_pat ≡ true
    → p.has_mgt ≡ true
    → p.has_vct ≡ true
    → is_basic_psip_ready p ≡ true
unfolding is_basic_psip_ready
ready_atsc p a m v = simp (a, m, v) refl

ready_dvb :
    (p : Parser)
    → p.has_pat ≡ true
    → p.has_sdt ≡ true
    → p.has_nit ≡ true
    → is_basic_psip_ready p ≡ true
unfolding is_basic_psip_ready
ready_dvb p a s n = ground arith

module _ (gen_pat : ℕ → ℕ → List (ℕ × ℕ) → List Section) where
  flags-rewrite_pat : (p : Parser) → flags (rewrite_pat gen_pat p) ≡ flags p
  unfolding rewrite_pat put_decoder
  flags-rewrite_pat p = elim (Bool-cases (length p.service_ids == 0)) [
    | inl e ↦ rw e refl
    | inr e ↦ rw e refl
  ]

  flags-take_pat :
      (t : PsiPat) (p : Parser) → flags (take_pat gen_pat t p) ≡ record (flags p) { pat = true }
  unfolding take_pat after_pat before_pat
  flags-take_pat t p =
      flags-wrap (before_pat t) (Stream.take_pat t) (λ p. p.has_pat) (after_pat gen_pat t) p
        (record (flags p) { pat = true })
        (λ q e.
          ap (λ (f : Flags). record f { pat = true })
            (flags-rewrite_pat (process_pat (get_decoder t.ts_id q).pat.programs q)
              ∙ flags-process_pat (get_decoder t.ts_id q).pat.programs q
              ∙ e
              ∙ flags-set_ts_id t.ts_id p))
        (λ q e d.
          ap (λ b. record (flags q) { pat = b }) d
          ∙ ap (λ (f : Flags). record f { pat = true }) (e ∙ flags-set_ts_id t.ts_id p))

  -- Whatever has come in before, the parser has the basic tables of its stream once it has taken an
  -- association table and a master guide table with a channel table, as ATSC has it, or with a network
  -- and a service table, as DVB has it, also if the decoder had those tables before.
  pub is_basic_psip_ready_lem :
      (a : PsiPat) (m : PsiMgt) (v : PsiVct) (n : PsiNit) (s : PsiSdt) (p : Parser)
      → (is_basic_psip_ready (take_vct v (take_mgt m (take_pat gen_pat a p))) ≡ true)
        × (is_basic_psip_ready (take_sdt_actual s (take_nit_actual n (take_pat gen_pat a p)))
            ≡ true)
  is_basic_psip_ready_lem a m v n s p =
      let q = take_pat gen_pat a p in
      let atsc : flags (take_vct v (take_mgt m q))
          ≡ record (flags p) { pat = true; mgt = true; vct = true } =
        flags-take_vct v (take_mgt m q)
        ∙ ap (λ (f : Flags). record f { vct = true }) (flags-take_mgt m q)
        ∙ ap (λ (f : Flags). record f { mgt = true; vct = true }) (flags-take_pat a p) in
      let dvb : flags (take_sdt_actual s (take_nit_actual n q))
          ≡ record (flags p) { pat = true; sdt = true; nit = true } =
        flags-take_sdt_actual s (take_nit_actual n q)
        ∙ ap (λ (f : Flags). record f { sdt = true }) (flags-take_nit_actual n q)
        ∙ ap (λ (f : Flags). record f { nit = true; sdt = true }) (flags-take_pat a p) in
      (
        ready_atsc (take_vct v (take_mgt m q)) (ap (λ f. f.pat) atsc) (ap (λ f. f.mgt) atsc)
            (ap (λ f. f.vct) atsc),
        ready_dvb (take_sdt_actual s (take_nit_actual n q)) (ap (λ f. f.pat) dvb)
            (ap (λ f. f.sdt) dvb) (ap (λ f. f.nit) dvb),
      )

process_pmt_keeps :
    (m : Dict ElementaryStream) (p : Parser)
    → ((process_pmt m p).rcvd_pmt ≡ p.rcvd_pmt) × ((process_pmt m p).has_pat ≡ p.has_pat)
unfolding process_pmt process_es add_filter
process_pmt_keeps [] p = (refl, refl)
process_pmt_keeps ((_, es) ∷ m) p = process_pmt_keeps m (process_es es p)

length-insert : {V : Type 0} (k : ℕ) (v : V) (m : Dict V) → length (Dict.insert k v m) ≢ 0
unfolding Dict.insert
length-insert k v [] = ground arith
length-insert k v ((j, w) ∷ m) = ground arith

pmt_ready_insert :
    (id : ℕ) (p : Parser)
    → id ≢ 0
    → p.has_pat ≡ true
    → is_pmt_ready id (record p { rcvd_pmt = Dict.insert id true p.rcvd_pmt }) ≡ true
unfolding is_pmt_ready
pmt_ready_insert id p n h =
    simp
      (
        h,
        ≢→== id 0 n,
        ≢→== (length (Dict.insert id true p.rcvd_pmt)) 0 (length-insert id true p.rcvd_pmt),
      )
      (Dict.get_or-insert id id true false p.rcvd_pmt ∙ ground arith)

after_pmt-ready :
    (t : PsiPmt) (p : Parser)
    → t.program ≢ 0
    → p.has_pat ≡ true
    → is_pmt_ready t.program (after_pmt t p) ≡ true
unfolding after_pmt
after_pmt-ready t p n h = elim (Option-cases (Dict.find t.program (get_decoder p.ts_id p).pmt)) [
  | inl e ↦ rw e (pmt_ready_insert t.program p n h)
  | inr (pmt, e) ↦ rw e (
      pmt_ready_insert t.program (process_pmt pmt.es_streams p) n
        ((process_pmt_keeps pmt.es_streams p).1 ∙ h))
]

-- Once the parser has an association table, the map table of a program other than 0 is ready as soon as
-- `take_pmt` was called with it, whether it was new to the decoder or not.
pub is_pmt_ready-take_pmt :
    (t : PsiPmt) (p : Parser)
    → t.program ≢ 0
    → p.has_pat ≡ true
    → is_pmt_ready t.program (take_pmt t p) ≡ true
unfolding take_pmt wrap
is_pmt_ready-take_pmt t p n h =
    let p₂ = (on_decoder p.ts_id (Stream.take_pmt t) p).0 in
    let fresh = (on_decoder p.ts_id (Stream.take_pmt t) p).1 in
    let pat : p₂.has_pat ≡ true =
      ap (λ f. f.pat) (flags-on_decoder p.ts_id (Stream.take_pmt t) p) ∙ h in
    elim (Bool-cases fresh) [
      | inl e ↦ rw e (after_pmt-ready t p₂ n pat)
      | inr e ↦ elim (Bool-cases (is_pmt_ready t.program p₂)) [
        | inl d ↦ rw e (rw d d)
        | inr d ↦ rw e (rw d (after_pmt-ready t p₂ n pat))
      ]
    ]
