-- ===== src/Tune/Range.antt =====
-- Which channels `start_scan` lists for a range.
use libdvbtee.Base.{
  ℕ, zero, suc, ◌+◌, ◌-◌, ◌≤◌, ◌≡◌, ◌∙◌, refl, Bool, true, false, [], ◌∷◌, ◌&&◌, ◌||◌, arith, inl,
  inr, Bool-cases, ◌==◌, leb, ltb, if◌then◌else◌, ≢→==,
}
use libdvbtee.Base.Dict
use libdvbtee.Base.Dict.{Dict, has-insert}
use libdvbtee.Tune.{Tune, scan_qam, list_channels, start_scan, start_scan_range, close_fe}
use libdvbtee.Tune.Scan.{AreDistinct}

insert-AreDistinct :
    (k : ℕ) (v : Bool) (list : Dict Bool)
    → Dict.has k list ≡ false
    → AreDistinct list
    → AreDistinct (Dict.insert k v list)
unfolding Dict.insert Dict.has
insert-AreDistinct k v [] apart list_apart = (refl, list_apart)
insert-AreDistinct k v ((j, w) ∷ list) apart list_apart =
    let tail : Dict.has k list ≡ false = ground (arith, apart) in
    let differs : (k == j) ≡ false = ground (arith, apart) in
    elim (Bool-cases (ltb k j)) [
      | inl before ↦ rw (differs, before) (apart, list_apart)
      | inr behind ↦
          rw (differs, behind)
            (
              has-insert j k v list ∙ rw (differs) list_apart.0,
              insert-AreDistinct k v list tail list_apart.1,
            )
    ]

has-list_channels :
    (n first c : ℕ) (list : Dict Bool)
    → Dict.has c (list_channels n first list)
      ≡ ((leb first c && ltb c (first + n)) || Dict.has c list)
unfolding list_channels
has-list_channels zero first c list = ground arith
has-list_channels (suc n) first c list = ground (
  arith,
  has-list_channels n (suc first) c (Dict.insert first false list),
  has-insert c first false list,
)

list_channels-AreDistinct :
    (n first : ℕ) (list : Dict Bool)
    → ((c : ℕ) → first ≤ c → Dict.has c list ≡ false)
    → AreDistinct list
    → AreDistinct (list_channels n first list)
unfolding list_channels
list_channels-AreDistinct zero first list below apart = apart
list_channels-AreDistinct (suc n) first list below apart =
    list_channels-AreDistinct n (suc first) (Dict.insert first false list)
      (λ c h.
        has-insert c first false list ∙ rw (≢→== first c (omega arith)) (below c (omega arith)))
      (insert-AreDistinct first false list (below first (omega arith)) apart)

start_scan-list :
    (mode : ℕ) (epg opened created : Bool) (t : Tune)
    → (start_scan mode epg opened created t).1.scan_channel_list ≡ t.scan_channel_list
unfolding start_scan close_fe
start_scan-list mode epg false created t = refl
start_scan-list mode epg true false t = refl
start_scan-list mode epg true true t = refl

range_bounds :
    (first last c : ℕ)
    → ((leb first c && ltb c (first + (suc last - first))) || false) ≡ (leb first c && leb c last)
range_bounds first last c = ground arith

has-range :
    (first last c : ℕ)
    → Dict.has c (list_channels (suc last - first) first []) ≡ (leb first c && leb c last)
unfolding Dict.has
has-range first last c = has-list_channels (suc last - first) first c [] ∙ range_bounds first last c

range-AreDistinct : (first last : ℕ) → AreDistinct (list_channels (suc last - first) first [])
unfolding Dict.has
range-AreDistinct first last =
    list_channels-AreDistinct (suc last - first) first [] (λ c h. refl) tt

-- A call of `start_scan` for a range, whatever comes of it, lists each channel from the first to the last of
-- the range, no other, and none twice; a 0 stands for 2 as the first, and as the last for 133 in the mode
-- for cable and for 69 in any other.
pub start_scan_range_lem :
    (mode min max : ℕ) (epg opened created : Bool) (t : Tune) (c : ℕ)
    → let list = (start_scan_range mode min max epg opened created t).1.scan_channel_list in
      let first = if min == 0 then 2 else min in
      let last = if max == 0 then (if mode == scan_qam then 133 else 69) else max in
      (Dict.has c list ≡ (leb first c && leb c last)) × AreDistinct list
unfolding start_scan_range
start_scan_range_lem mode min max epg opened created t c =
    let first = if min == 0 then 2 else min in
    let last = if max == 0 then (if mode == scan_qam then 133 else 69) else max in
    let set = record t { scan_channel_list = list_channels (suc last - first) first [] } in
    rw (start_scan-list mode epg opened created set)
      (has-range first last c, range-AreDistinct first last)
