-- ===== src/Decode/Quiet.antt =====
-- `dump_epg` and `dump_eit_x` for ATSC: what they report, and that they change nothing.
use libdvbtee.Base.{
  ℕ, zero, suc, ◌+◌, ◌≡◌, ◌≢◌, ◌∙◌, refl, sym, ap, subst, Bool, true, false, List, [], ◌∷◌, ◌++◌,
  ◌&&◌, ==_iff, ≢→==, arith, ◌==◌, if◌then◌else◌, length, Bool-cases, inl, inr,
}
use libdvbtee.Base.Dict
use libdvbtee.Base.Dict.{Dict, IsSorted, insert-IsSorted, insert-get_or, get_or-insert}
use libdvbtee.Decode.Records.{VctChannel, AtscEit, no_atsc_eit}
use libdvbtee.Decode.Tables.{PsiAtscEit, store_atsc_eit}
use libdvbtee.Decode.Stream.{Decode, take_atsc_eit}
use libdvbtee.Decode.Epg.{Texts, atsc_eit_of, has_atsc_eit}
use libdvbtee.Decode.Dump.{
  Report, epg_header_footer, dump_atsc_events, touch_atsc_eit, dump_channels, dump_eit_x_atsc,
  dump_tables, dump_epg_atsc, framed, in_turn, dump_channel, dump_epg,
}
use libdvbtee.Decode.Listing.{flat_map, there_from}

-- The maps of the event information tables are in the order of their keys, as every `std::map` is.
abbrev pub IsOrdered : Decode → Type 0
IsOrdered d = IsSorted d.atsc_eit × ((x : ℕ) → IsSorted (Dict.get_or x d.atsc_eit []))

-- Taking a table keeps the order.
pub take_atsc_eit-IsOrdered :
    (p : PsiAtscEit) (d : Decode) → IsOrdered d → IsOrdered (take_atsc_eit p d).0
unfolding take_atsc_eit
take_atsc_eit-IsOrdered p d (outer, inner) =
    elim (Bool-cases (cur.version == p.version && cur.source_id == p.source_id)) [
      | inl e ↦ rw e (written cur)
      | inr e ↦ rw e (written (store_atsc_eit p))
    ]
  where
    eits : Dict AtscEit
    eits = Dict.get_or d.eit_x d.atsc_eit []

    cur : AtscEit
    cur = Dict.get_or p.source_id eits no_atsc_eit

    table : (e : AtscEit) → IsSorted (Dict.insert p.source_id e eits)
    table e = insert-IsSorted p.source_id e eits (inner d.eit_x)

    chosen :
        (e : AtscEit) (x : ℕ) (b : Bool)
        → IsSorted (if b then Dict.insert p.source_id e eits else Dict.get_or x d.atsc_eit [])
    chosen e x true = table e
    chosen e x false = inner x

    written :
        (e : AtscEit)
        → IsOrdered (record d {
          atsc_eit = Dict.insert d.eit_x (Dict.insert p.source_id e eits) d.atsc_eit;
        })
    written e = (
      insert-IsSorted d.eit_x (Dict.insert p.source_id e eits) d.atsc_eit outer,
      λ x.
          subst IsSorted
            (sym (get_or-insert x d.eit_x (Dict.insert p.source_id e eits) [] d.atsc_eit))
            (chosen e x (d.eit_x == x)),
    )

touch_outer :
    (x source_id : ℕ) (m : Dict (Dict AtscEit))
    → Dict.has source_id (Dict.get_or x m []) ≡ true
    → Dict.has x m ≡ true
unfolding Dict.has Dict.get_or
touch_outer x s [] h = ground (arith, h)
touch_outer x s ((k, v) ∷ m) h = ground (arith, h, touch_outer x s m)

-- Where the table is there, reading it by `operator[]` changes nothing.
touch_atsc_eit-there :
    (x source_id : ℕ) (d : Decode)
    → IsOrdered d
    → has_atsc_eit d source_id x ≡ true
    → touch_atsc_eit x source_id d ≡ d
unfolding touch_atsc_eit has_atsc_eit atsc_eit_of
touch_atsc_eit-there x s d (outer, inner) h =
    ap (λ m. record d { atsc_eit = m })
      (ap (λ v. Dict.insert x v d.atsc_eit)
          (insert-get_or s _ (Dict.get_or x d.atsc_eit []) (inner x) h)
        ∙ insert-get_or x [] d.atsc_eit outer (touch_outer x s d.atsc_eit h))

-- The events of one table on all channels of a source.
unfoldable pub table_reports : Texts → Decode → ℕ → Dict VctChannel → ℕ → List Report
table_reports o d source_id [] x = []
table_reports o d source_id ((_, channel) ∷ m) x =
    let rest = table_reports o d source_id m x in
    if source_id == channel.source_id
    then dump_atsc_events o d x channel (atsc_eit_of d channel.source_id x).events ++ rest
    else rest

-- The events of all tables of a source, up to the first that lacks it.
unfoldable pub source_reports : Texts → Decode → ℕ → List Report
unfolding flat_map there_from table_reports
source_reports o d source_id =
    flat_map (table_reports o d source_id d.vct.channels)
      (there_from (has_atsc_eit d source_id) 0 128)

-- What `dump_epg` reports of a channel.
unfoldable pub channel_reports : Texts → Decode → ℕ × VctChannel → List Report
unfolding source_reports
channel_reports o d (_, channel) =
    epg_header_footer true true
    ∷ (source_reports o d channel.source_id ++ (epg_header_footer false true ∷ []))

-- No channel has the source 0.
abbrev pub HasSources : Dict VctChannel → Type 0
HasSources [] = Unit
HasSources ((_, channel) ∷ m) = (channel.source_id ≢ 0) × HasSources m

module _ (o : Texts) (d : Decode) (ordered : IsOrdered d) where
  dump_channels-there :
      (x source_id : ℕ) (m : Dict VctChannel)
      → source_id ≢ 0
      → has_atsc_eit d source_id x ≡ true
      → dump_channels o x source_id m d ≡ (d, table_reports o d source_id m x)
  unfolding dump_channels table_reports
  dump_channels-there x s [] nonzero h = refl
  dump_channels-there x s ((_, channel) ∷ m) nonzero h =
      elim (Bool-cases (s == channel.source_id)) [
        | inr e ↦ rw (≢→== s 0 nonzero, e) (dump_channels-there x s m nonzero h)
        | inl e ↦
            let there : has_atsc_eit d channel.source_id x ≡ true =
              subst (λ n. has_atsc_eit d n x ≡ true) ((==_iff s channel.source_id).0 e) h in
            rw
              (
                ≢→== s 0 nonzero,
                e,
                touch_atsc_eit-there x channel.source_id d ordered there,
                dump_channels-there x s m nonzero h,
              )
              (ap
                (λ t. (
                  d,
                  dump_atsc_events o d x channel (atsc_eit_of t channel.source_id x).events
                      ++ table_reports o d s m x,
                ))
                (touch_atsc_eit-there x channel.source_id d ordered there))
      ]

  dump_tables-there :
      (source_id n left : ℕ)
      → source_id ≢ 0
      → dump_tables (λ t. has_atsc_eit t source_id) (λ x. dump_eit_x_atsc o x source_id) n left d
        ≡ (
          d,
          flat_map
              (table_reports o d source_id d.vct.channels)
              (there_from (has_atsc_eit d source_id) n left),
        )
  unfolding dump_tables flat_map there_from dump_eit_x_atsc
  dump_tables-there s n zero nonzero = refl
  dump_tables-there s n (suc left) nonzero = elim (Bool-cases (has_atsc_eit d s n)) [
    | inr e ↦ rw e refl
    | inl e ↦
        rw
          (
            e,
            dump_channels-there n s d.vct.channels nonzero e,
            dump_tables-there s (n + 1) left nonzero,
          )
          refl
  ]

  dump_channel-there :
      (entry : ℕ × VctChannel)
      → entry.1.source_id ≢ 0
      → dump_channel o entry d ≡ (d, channel_reports o d entry)
  unfolding dump_channel dump_epg_atsc framed channel_reports
  dump_channel-there (number, channel) nonzero =
      rw (dump_tables-there channel.source_id 0 128 nonzero) refl

  in_turn-there :
      (m : Dict VctChannel)
      → HasSources m
      → in_turn (dump_channel o) m d ≡ (d, flat_map (channel_reports o d) m)
  unfolding in_turn flat_map
  in_turn-there [] h = refl
  in_turn-there ((k, channel) ∷ m) (nonzero, h) =
      rw (dump_channel-there (k, channel) nonzero, in_turn-there m h) refl

-- On a stream with channels none of which has the source 0, `dump_epg` leaves the decoder as it is, though it
-- reads the tables by `operator[]`, and reports, between a header and a footer, channel by channel the events of the
-- channel's source, from EIT-0 on up to the first table that has nothing of it.
pub dump_epg_lem :
    (o : Texts) (d : Decode)
    → IsOrdered d
    → HasSources d.vct.channels
    → length d.vct.channels ≢ 0
    → dump_epg o d ≡ (
      d,
      epg_header_footer true false
          ∷ (flat_map (channel_reports o d) d.vct.channels ++ (epg_header_footer false false ∷ [])),
    )
unfolding dump_epg framed
dump_epg_lem o d ordered sources some_channel =
    rw
      (
        ≢→== (length d.vct.channels) 0 some_channel,
        in_turn-there o d ordered d.vct.channels sources,
      )
      refl
