-- ===== src/Parse/Told.antt =====
-- `xine_dump`: the programs that it tells of.
use libdvbtee.Base.{
  ℕ, ◌≡◌, ◌∙◌, refl, sym, ap, ap₂, Bool, true, false, none, some, List, [], ◌∷◌, ◌==◌, map,
  if◌then◌else◌, arith, Bool-cases, Option-cases, inl, inr,
}
use libdvbtee.Base.Dict
use libdvbtee.Base.Dict.{Dict}
use libdvbtee.Decode.Records.{ElementaryStream, DecodedVct}
use libdvbtee.Decode.Stream.{Decode}
use libdvbtee.Decode.Epg.{Texts}
use libdvbtee.Parse.State.{Parser, ChannelInfo, get_decoder, put_decoder}
use libdvbtee.Parse.Psi.{is_video, is_audio}
use libdvbtee.Parse.Guide.{
  ParsedChannel, get_decoder_if_exists, parse_stream, parse_streams, name_channel,
  parse_channel_info, dump_programs, xine_dump_stream, untold,
}

-- The first pid but 0 of a kind of streams, or 0.
unfoldable pub first_pid : (ℕ → Bool) → Dict ElementaryStream → ℕ
first_pid kind [] = 0
first_pid kind ((_, es) ∷ m) =
    let rest = first_pid kind m in
    if kind es.type then (if es.pid == 0 then rest else es.pid) else rest

-- What is told of a program: its number, its channel, and the pids of its video and its audio.
abbrev pub Told : Type 0
Told = ℕ × ℕ × ℕ × ℕ × ℕ

abbrev pub told : ParsedChannel → Told
told c = (c.program_number, c.physical_channel, c.freq, c.vpid, c.apid)

-- The programs of an association table whose map tables have come in.
unfoldable pub mapped : ChannelInfo → Decode → Dict ℕ → List Told
unfolding first_pid
mapped info d [] = []
mapped info d ((number, _) ∷ m) = elim (Dict.find number d.pmt) [
  | none ↦ mapped info d m
  | some pmt ↦
      (
        number,
        info.channel,
        info.frequency,
        first_pid is_video pmt.es_streams,
        first_pid is_audio pmt.es_streams,
      )
      ∷ mapped info d m
]

-- Audio is not video.
audio_or_video : (t : ℕ) → is_video t ≡ true → is_audio t ≡ false
unfolding is_video is_audio
audio_or_video t h = ground (arith, h)

-- A pid that was found stays; else the first of the streams is it.
abbrev or_pid : ℕ → ℕ → ℕ
or_pid pid other = if pid == 0 then other else pid

or_pid-zero : (pid : ℕ) → or_pid pid 0 ≡ pid
or_pid-zero pid = ground arith

or_pid-or_pid : (a b c : ℕ) → or_pid (or_pid a b) c ≡ or_pid a (or_pid b c)
or_pid-or_pid a b c = ground arith

-- what is told with other pids
abbrev with_pids : ParsedChannel → ℕ → ℕ → Told
with_pids c vpid apid = (c.program_number, c.physical_channel, c.freq, vpid, apid)

told-parse_stream :
    (es : ElementaryStream) (c : ParsedChannel)
    → told (parse_stream es c)
      ≡ with_pids c
          (or_pid c.vpid (if is_video es.type then es.pid else 0))
          (or_pid c.apid (if is_audio es.type then es.pid else 0))
unfolding parse_stream
told-parse_stream es c = elim (Bool-cases (is_video es.type)) [
  | inl v ↦
      rw (v, audio_or_video es.type v)
        (set_video (c.vpid == 0) ∙ ap (with_pids c _) (sym (or_pid-zero c.apid)))
  | inr v ↦ rw v (elim (Bool-cases (is_audio es.type)) [
    | inl a ↦ rw a (
        set_audio (c.apid == 0)
        ∙ ap (λ n. with_pids c n (or_pid c.apid es.pid)) (sym (or_pid-zero c.vpid)))
    | inr a ↦ rw a (ap₂ (with_pids c) (sym (or_pid-zero c.vpid)) (sym (or_pid-zero c.apid)))
  ])
]
  where
    set_video :
        (b : Bool)
        → told (if b then record c { vpid = es.pid } else c)
          ≡ with_pids c (if b then es.pid else c.vpid) c.apid
    set_video true = refl
    set_video false = refl

    set_audio :
        (b : Bool)
        → told (if b then record c { apid = es.pid } else c)
          ≡ with_pids c c.vpid (if b then es.pid else c.apid)
    set_audio true = refl
    set_audio false = refl

first_pid-cons :
    (kind : ℕ → Bool) (k : ℕ) (es : ElementaryStream) (m : Dict ElementaryStream)
    → first_pid kind ((k, es) ∷ m) ≡ or_pid (if kind es.type then es.pid else 0) (first_pid kind m)
unfolding first_pid
first_pid-cons kind k es m = elim (Bool-cases (kind es.type)) [
  | inl e ↦ rw e refl
  | inr e ↦ rw e refl
]

told-parse_streams :
    (m : Dict ElementaryStream) (c : ParsedChannel)
    → told (parse_streams m c)
      ≡ with_pids c (or_pid c.vpid (first_pid is_video m)) (or_pid c.apid (first_pid is_audio m))
unfolding parse_streams
told-parse_streams [] c =
    unfold first_pid in ap₂ (with_pids c) (sym (or_pid-zero c.vpid)) (sym (or_pid-zero c.apid))
told-parse_streams ((k, es) ∷ m) c =
    told-parse_streams m (parse_stream es c)
    ∙ ap
        (λ (t : Told).
          (t.0, t.1, t.2, or_pid t.3 (first_pid is_video m), or_pid t.4 (first_pid is_audio m)))
        (told-parse_stream es c)
    ∙ ap₂ (with_pids c)
        (or_pid-or_pid c.vpid _ (first_pid is_video m)
          ∙ ap (or_pid c.vpid) (sym (first_pid-cons is_video k es m)))
        (or_pid-or_pid c.apid _ (first_pid is_audio m)
          ∙ ap (or_pid c.apid) (sym (first_pid-cons is_audio k es m)))

told-name_channel :
    (o : Texts) (ts_id : ℕ) (vct : DecodedVct) (p : Parser) (c : ParsedChannel)
    → told (name_channel o ts_id vct p c) ≡ told c
unfolding name_channel
told-name_channel o ts_id vct p c = elim (Option-cases (Dict.find c.program_number vct.channels)) [
  | inr (channel, e) ↦ rw (e, name_channel) refl
  | inl e ↦ elim (Option-cases (get_decoder_if_exists ts_id p)) [
    | inl f ↦ rw (e, f, name_channel) refl
    | inr (d, f) ↦ rw (e, f, name_channel) refl
  ]
]

dump_programs-mapped :
    (o : Texts) (ts_id : ℕ) (info : ChannelInfo) (d : Decode) (p : Parser) (m : Dict ℕ)
    (c : ParsedChannel)
    → c.physical_channel ≡ info.channel
    → c.freq ≡ info.frequency
    → map told (dump_programs o ts_id d p m c) ≡ mapped info d m
unfolding dump_programs mapped parse_channel_info
dump_programs-mapped o ts_id info d p [] c ch fr = refl
dump_programs-mapped o ts_id info d p ((number, at) ∷ m) c ch fr =
    elim (Option-cases (Dict.find number d.pmt)) [
      | inl e ↦
          ap (map told) (rw (e, dump_programs) refl)
          ∙ dump_programs-mapped o ts_id info d p m next ch fr
          ∙ rw (e, mapped) refl
      | inr (pmt, e) ↦
          let streams = parse_streams pmt.es_streams next in
          let here = parse_channel_info o ts_id pmt d.vct p next in
          let one =
            told-name_channel o ts_id d.vct p streams ∙ told-parse_streams pmt.es_streams next in
          ap (map told) {y = here ∷ dump_programs o ts_id d p m here} (rw (e, dump_programs) refl)
          ∙ ap₂ (◌∷◌)
              (one
                ∙ ap₂
                    (λ a b. (
                      number,
                      a,
                      b,
                      first_pid is_video pmt.es_streams,
                      first_pid is_audio pmt.es_streams,
                    ))
                    ch fr)
              (dump_programs-mapped o ts_id info d p m (parse_channel_info o ts_id pmt d.vct p next)
                (ap (λ (t : Told). t.1) one ∙ ch) (ap (λ (t : Told). t.2) one ∙ fr))
          ∙ rw (e, mapped) refl
    ]
  where
    next : ParsedChannel
    next = record c { program_number = number; apid = 0; vpid = 0 }

-- Of a stream `xine_dump` tells each program of its association table whose map table has come in, once and in their
-- order: with the channel and the frequency of the stream, and with the first pid but 0 of a video stream of
-- the program and of an audio stream, or 0 where it has none.
pub xine_dump_stream_lem :
    (o : Texts) (ts_id : ℕ) (info : ChannelInfo) (p : Parser)
    → map told (xine_dump_stream o ts_id info p).1
      ≡ mapped info (get_decoder ts_id p) (get_decoder ts_id p).pat.programs
unfolding xine_dump_stream
xine_dump_stream_lem o ts_id info p =
    dump_programs-mapped o ts_id info (get_decoder ts_id p)
      (put_decoder ts_id (get_decoder ts_id p) p) (get_decoder ts_id p).pat.programs (untold info)
      refl refl
