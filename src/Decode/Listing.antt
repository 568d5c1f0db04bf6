-- ===== src/Decode/Listing.antt =====
-- `get_epg_event_atsc` and `dump_epg` against lists of the events in the guide.
use libdvbtee.Base.{
  ℕ, zero, suc, ◌+◌, ◌≡◌, ◌≢◌, ◌⊎◌, refl, sym, ap, Bool, true, false, ◌||◌, Option, none, some,
  List, [], ◌∷◌, ◌++◌, ≢→==, ◌==◌, if◌then◌else◌, Bool-cases, Option-cases, inl, inr,
}
use mathlib.Core.Option
use libdvbtee.Base.Dict
use libdvbtee.Base.Dict.{Dict, has-find, has-none}
use libdvbtee.Decode.Records.{VctChannel, AtscEvent}
use libdvbtee.Decode.Stream.{Decode}
use libdvbtee.Decode.Epg.{
  Texts, GuideEvent, atsc_event, atsc_span, is_showing, first_showing, search_eits, or_else,
  atsc_eit_of, has_atsc_eit, showing_atsc, search_channels, get_epg_event_atsc, get_epg_event,
  stream_service,
}

-- For each element a list, one after another.
unfoldable pub flat_map {ℓ m} : {A : Type ℓ} {B : Type m} → (A → List B) → List A → List B
flat_map f [] = []
flat_map f (a ∷ others) = f a ++ flat_map f others

unfoldable pub first {ℓ} : {A : Type ℓ} → List A → Option A
first [] = none
first (a ∷ rest) = some a

-- The numbers from one on up to the first that is not there.
unfoldable pub there_from : (ℕ → Bool) → ℕ → ℕ → List ℕ
there_from there n zero = []
there_from there n (suc left) =
    let rest = there_from there (n + 1) left in if there n then n ∷ rest else []

-- The events of a table that are showing.
unfoldable pub showing_events :
    Texts → Decode → VctChannel → ℕ → ℕ → Dict AtscEvent → List GuideEvent
showing_events o d channel showtime x [] = []
showing_events o d channel showtime x ((_, e) ∷ m) =
    let rest = showing_events o d channel showtime x m in
    if is_showing (atsc_span o e) showtime
    then atsc_event o d x channel e e.length_sec ∷ rest
    else rest

-- The events that are showing on the channels of a source, in the tables up to the first that lacks it.
unfoldable pub source_events : Texts → Decode → ℕ → ℕ → Dict VctChannel → List GuideEvent
unfolding flat_map there_from showing_events
source_events o d source_id showtime [] = []
source_events o d source_id showtime ((_, channel) ∷ m) =
    let rest = source_events o d source_id showtime m in
    let here =
      flat_map
        (λ x. showing_events o d channel showtime x (atsc_eit_of d channel.source_id x).events)
        (there_from (has_atsc_eit d source_id) 0 128) in
    if source_id == channel.source_id then here ++ rest else rest

first-append : {A : Type 0} (xs ys : List A) → first (xs ++ ys) ≡ or_else (first xs) (first ys)
unfolding first
first-append [] ys = refl
first-append (x ∷ xs) ys = refl

search_eits-first :
    {A : Type 0} (there : ℕ → Bool) (found : ℕ → Option A) (all : ℕ → List A) (n left : ℕ)
    → ((x : ℕ) → found x ≡ first (all x))
    → search_eits there found n left ≡ first (flat_map all (there_from there n left))
unfolding search_eits flat_map there_from first
search_eits-first there found all n zero h = refl
search_eits-first there found all n (suc left) h = elim (Bool-cases (there n)) [
  | inl e ↦
      rw (e, h n, search_eits-first there found all (n + 1) left h)
        (sym (first-append (all n) (flat_map all (there_from there (n + 1) left))))
  | inr e ↦ rw e refl
]

module _ (o : Texts) (d : Decode) (showtime : ℕ) where
  first_showing-first :
      (channel : VctChannel) (x : ℕ) (m : Dict AtscEvent)
      → Option.map
          (λ e. atsc_event o d x channel e e.length_sec)
          (first_showing (atsc_span o) showtime m)
        ≡ first (showing_events o d channel showtime x m)
  unfolding first_showing showing_events first
  first_showing-first channel x [] = refl
  first_showing-first channel x ((_, e) ∷ m) =
      elim (Bool-cases (is_showing (atsc_span o e) showtime)) [
        | inl s ↦ rw s refl
        | inr s ↦ rw s (first_showing-first channel x m)
      ]

  showing_atsc-first :
      (channel : VctChannel) (x : ℕ)
      → showing_atsc o d channel showtime x
        ≡ first (showing_events o d channel showtime x (atsc_eit_of d channel.source_id x).events)
  unfolding showing_atsc
  showing_atsc-first channel x =
      first_showing-first channel x (atsc_eit_of d channel.source_id x).events

  search_channels-first :
      (source_id : ℕ) (m : Dict VctChannel)
      → search_channels o d source_id showtime m ≡ first (source_events o d source_id showtime m)
  unfolding search_channels source_events first
  search_channels-first source_id [] = refl
  search_channels-first source_id ((_, channel) ∷ m) =
      elim (Bool-cases (source_id == channel.source_id)) [
        | inr e ↦ rw e (search_channels-first source_id m)
        | inl e ↦
            rw
              (
                e,
                search_eits-first (has_atsc_eit d source_id) (showing_atsc o d channel showtime)
                    (λ x.
                      showing_events o d channel showtime x
                        (atsc_eit_of d channel.source_id x).events)
                    0 128 (showing_atsc-first channel),
                search_channels-first source_id m,
              )
              (sym (
                first-append
                  (flat_map
                    (λ x.
                      showing_events o d channel showtime x
                        (atsc_eit_of d channel.source_id x).events)
                    (there_from (has_atsc_eit d source_id) 0 128))
                  (source_events o d source_id showtime m)))
      ]

-- For a source other than 0, `get_epg_event_atsc` gives the first of the events that are showing at the time
-- asked for: channel by channel of the source, and table by table from EIT-0 on up to the first that has
-- nothing of the source. It gives none just where there is no such event.
pub get_epg_event_atsc_lem :
    (o : Texts) (d : Decode) (source_id showtime : ℕ)
    → source_id ≢ 0
    → get_epg_event_atsc o source_id showtime d
      ≡ first (source_events o d source_id showtime d.vct.channels)
unfolding get_epg_event_atsc
get_epg_event_atsc_lem o d source_id showtime h =
    rw (≢→== source_id 0 h) (search_channels-first o d showtime source_id d.vct.channels)

-- A service that the description table of the stream announces with events.
unfoldable pub is_announced : ℕ → Decode → Bool
unfolding stream_service
is_announced service_id d = elim (stream_service d) [
  | none ↦ false
  | some s ↦ elim (Dict.find service_id s.sdt.services) [
    | none ↦ false
    | some service ↦ service.f_eit_present
  ]
]

-- `get_epg_event` returns true for each service that is on a channel and for each that is announced with events,
-- and for no other, also where nothing was found: for a service on a channel, the event that it writes is
-- the first of those of the channel's source that are showing at the time asked for, and there is none
-- where none is showing or the source is 0, while it still returns true.
pub get_epg_event_lem :
    (o : Texts) (d : Decode) (service_id showtime : ℕ)
    → let found = get_epg_event o service_id showtime d in
      (found.0 ≡ (Dict.has service_id d.vct.channels || is_announced service_id d))
      × ((Dict.find service_id d.vct.channels ≡ none)
          ⊎ ((channel : VctChannel) × (Dict.find service_id d.vct.channels ≡ some channel)
              × (found ≡ (
                true,
                if channel.source_id == 0
                    then none
                    else first (source_events o d channel.source_id showtime d.vct.channels),
              ))))
unfolding get_epg_event is_announced
get_epg_event_lem o d service_id showtime =
    elim (Option-cases (Dict.find service_id d.vct.channels)) [
      | inr (channel, e) ↦
          rw (e, get_epg_event, has-find service_id channel d.vct.channels e)
            (
              refl,
              inr (
                channel,
                refl,
                elim (Bool-cases (channel.source_id == 0)) [
                  | inl z ↦ rw z refl
                  | inr z ↦ rw z (
                      ap (λ x. (true, x))
                        (search_channels-first o d showtime channel.source_id d.vct.channels))
                ],
              ),
            )
      | inl e ↦ elim (Option-cases (stream_service d)) [
        | inl absent ↦
            rw (e, absent, get_epg_event, is_announced, has-none service_id d.vct.channels e)
              (refl, inl refl)
        | inr (s, f) ↦ elim (Option-cases (Dict.find service_id s.sdt.services)) [
          | inl g ↦
              rw (e, f, g, get_epg_event, is_announced, has-none service_id d.vct.channels e)
                (refl, inl refl)
          | inr (service, g) ↦ elim (Bool-cases service.f_eit_present) [
            | inl p ↦
                rw (e, f, g, p, get_epg_event, is_announced, has-none service_id d.vct.channels e)
                  (refl, inl refl)
            | inr p ↦
                rw (e, f, g, p, get_epg_event, is_announced, has-none service_id d.vct.channels e)
                  (refl, inl refl)
          ]
        ]
      ]
    ]
