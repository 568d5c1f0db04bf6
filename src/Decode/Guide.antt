-- ===== src/Decode/Guide.antt =====
-- The programme guide: where the tables with event information and the texts are kept.
use libdvbtee.Base.{
  ℕ, ◌+◌, ◌≡◌, ◌<◌, refl, ◌∙◌, ap, ap₂, true, false, none, [], ◌∷◌, arith, ◌==◌, Option-cases, inl,
  inr,
}
use libdvbtee.Base.Dict.{Dict}
use libdvbtee.Decode.Records.{AtscEtt, AtscEvent}
use libdvbtee.Decode.Tables.{PsiEit, ingest, store_eit}
use libdvbtee.Decode.Service.{NetworkService, take_eit, table_id_to_eit_x}
use libdvbtee.Decode.Stream.{ett_key}
use libdvbtee.Decode.Ready.{etm_id_of, missing_events}
use libdvbtee.Decode.Twice.{==-refl, kept, ingest_again}

eit_store-take_eit :
    (p : PsiEit) (x : ℕ) (s : NetworkService)
    → (take_eit p x s).0.eit_store
      ≡ kept
          (ingest
            (λ t. t.service_id == p.extension)
            (λ t. t.version == p.version)
            (store_eit p)
            s.eit_store)
          s.eit_store
unfolding take_eit kept
eit_store-take_eit p x s =
    elim (Option-cases (
      ingest (λ t. t.service_id == p.extension) (λ t. t.version == p.version) (store_eit p)
        s.eit_store)) [ inl e ↦ rw e refl | inr (ys, e) ↦ rw e refl ]

store_eit_matches :
    (p : PsiEit)
    → (((store_eit p).service_id == p.extension) ≡ true)
      × (((store_eit p).version == p.version) ≡ true)
unfolding store_eit
store_eit_matches p = (==-refl p.extension, ==-refl p.version)

take_eit-none :
    (q : PsiEit) (y : ℕ) (s : NetworkService)
    → ingest
        (λ t. t.service_id == q.extension)
        (λ t. t.version == q.version)
        (store_eit q)
        s.eit_store
      ≡ none
    → take_eit q y s ≡ (record s { eit_x = y }, false)
unfolding take_eit
take_eit-none q y s e = simp e refl

-- Of the event information tables of a service only the first of a version is kept: once one was taken, any
-- other of the same service and version is dropped, also where it is for another time or for the
-- schedule instead of the present and the following event.
pub take_eit_drops :
    (p q : PsiEit) (x y : ℕ) (s : NetworkService)
    → q.extension ≡ p.extension
    → q.version ≡ p.version
    → take_eit q y (take_eit p x s).0 ≡ (record (take_eit p x s).0 { eit_x = y }, false)
take_eit_drops p q x y s e v = take_eit-none q y (take_eit p x s).0 (
    ap₂
      (λ a b.
        ingest (λ t. t.service_id == a) (λ t. t.version == b) (store_eit q)
          (take_eit p x s).0.eit_store)
      e v
    ∙ ap (ingest (λ t. t.service_id == p.extension) (λ t. t.version == p.version) (store_eit q))
        (eit_store-take_eit p x s)
    ∙ ingest_again (λ t. t.service_id == p.extension) (λ t. t.version == p.version) (store_eit p)
        (store_eit q) s.eit_store (store_eit_matches p).0 (store_eit_matches p).1)

-- The slot of a table id is one of the seventeen of the array; the present and following events have slot
-- 0, and the schedule's slots are those from 1 on, the same for this stream and for others.
pub table_id_to_eit_x_slots :
    (id k : ℕ)
    → k < 16
    → (table_id_to_eit_x id < 17)
      × (table_id_to_eit_x 0x4e ≡ 0)
      × (table_id_to_eit_x 0x4f ≡ 0)
      × (table_id_to_eit_x (0x50 + k) ≡ k + 1)
      × (table_id_to_eit_x (0x60 + k) ≡ k + 1)
unfolding table_id_to_eit_x
table_id_to_eit_x_slots id k h = (ground arith, refl, refl, ground arith, ground arith)

ett_key-etm_id_of : (s r e : ℕ) → ett_key (etm_id_of s e) ≡ ett_key (etm_id_of r e)
ett_key-etm_id_of s r e = omega arith

-- Which extended texts of a channel's events count as missing does not depend on the channel: a text that
-- came for another one, with the same event id, counts as this one's.
pub missing_events_any_source :
    (s r : ℕ) (etts : Dict AtscEtt) (events : Dict AtscEvent)
    → missing_events s etts events ≡ missing_events r etts events
unfolding missing_events
missing_events_any_source s r etts [] = refl
missing_events_any_source s r etts ((_, e) ∷ m) =
    rw (ett_key-etm_id_of s r e.event_id) (ap (◌+◌ _) (missing_events_any_source s r etts m))
