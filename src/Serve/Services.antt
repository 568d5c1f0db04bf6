-- ===== src/Serve/Services.antt =====
-- The services that a client has chosen, and those that are streamed to it.
use libdvbtee.Base.{
  ℕ, ◌≡◌, ◌∙◌, refl, ap, Bool, true, false, Option, none, some, List, [], ◌∷◌, ◌++◌,
}
use libdvbtee.Output.Setup.{contains}
use libdvbtee.Serve.Pages.{lit}
use libdvbtee.Serve.Words.{
  split, words, cut_word, cut, first_word, second_word, is_set, is_comma, before_words,
}
use libdvbtee.Serve.Client.{Client, Feeder}
use libdvbtee.Serve.Command.{
  Call, World, set_service_ids, add_output, with_tuners_feeder, with_first_tuner, with_first_feeder,
  choose_device, select_services, cmd_service,
}
use libdvbtee.Serve.Dispatch.{verbs, verb_of, perform, on_feeder, run_verb, run_item, run_items}

-- No byte of a text divides it.
abbrev pub IsWhole : (ℕ → Bool) → List ℕ → Type 0
IsWhole sep [] = Unit
IsWhole sep (c ∷ text) = (sep c ≡ false) × IsWhole sep text

split-IsWhole : (sep : ℕ → Bool) (text : List ℕ) → IsWhole sep text → split sep text ≡ (text, [])
unfolding split
split-IsWhole sep [] h = refl
split-IsWhole sep (c ∷ text) (one, h) = rw (one, split-IsWhole sep text h) refl

cut_word-append :
    (sep : ℕ → Bool) (word : List ℕ) (c : ℕ) (rest : List ℕ)
    → IsWhole sep word
    → sep c ≡ true
    → cut_word sep (word ++ (c ∷ rest)) ≡ word
unfolding cut_word
cut_word-append sep [] c rest h e = rw e refl
cut_word-append sep (x ∷ word) c rest (one, h) e =
    rw one (ap (◌∷◌ x) (cut_word-append sep word c rest h e))

-- A client with a feeder keeps it.
choose_device-feeder :
    (w : World) (c : Client) (f : Feeder) → c.feeder ≡ some f → choose_device w c ≡ c
unfolding choose_device with_first_feeder with_first_tuner with_tuners_feeder
choose_device-feeder w c f e = rw e refl

run_verb-feeder :
    (w : World) (cmd : List ℕ) (arg : Option (List ℕ)) (c : Client) (f : Feeder)
    → c.feeder ≡ some f
    → run_verb w cmd arg c ≡ perform w (verb_of cmd verbs) cmd arg c
unfolding run_verb on_feeder
run_verb-feeder w cmd arg c f e =
    ap (λ (d : Client). on_feeder w cmd arg d.feeder d) (choose_device-feeder w c f e)
    ∙ ap (λ o. on_feeder w cmd arg o c) e

split-append :
    (sep : ℕ → Bool) (word : List ℕ) (c : ℕ) (text : List ℕ)
    → IsWhole sep word
    → sep c ≡ true
    → IsWhole sep text
    → split sep (word ++ (c ∷ text)) ≡ (word, before_words text [])
unfolding split
split-append sep [] c text h e whole = rw (e, split-IsWhole sep text whole) refl
split-append sep (x ∷ word) c text (one, h) e whole =
    rw (one, split-append sep word c text h e whole) refl

words-setting :
    (name : List ℕ) (x : ℕ) (text : List ℕ)
    → IsWhole is_set name
    → IsWhole is_set (x ∷ text)
    → words is_set (name ++ (b'=' ∷ x ∷ text)) ≡ before_words name ((x ∷ text) ∷ [])
unfolding words
words-setting name x text h whole = rw (split-append is_set name b'=' (x ∷ text) h refl whole) refl

words-name : (name : List ℕ) → IsWhole is_set name → words is_set name ≡ before_words name []
unfolding words
words-name name h = rw (split-IsWhole is_set name h) refl

run_service :
    (w : World) (c : Client) (f : Feeder) (x : ℕ) (text : List ℕ)
    → c.feeder ≡ some f
    → IsWhole is_set (x ∷ text)
    → run_item w (lit "service=" ++ (x ∷ text)) c ≡ cmd_service (some (x ∷ text)) c
unfolding run_item perform verb_of verbs contains first_word second_word
run_service w c f x text e h =
    rw
      (words-setting (lit "service") x text
        (refl, (refl, (refl, (refl, (refl, (refl, (refl, tt))))))) h)
      (run_verb-feeder w (lit "service") (some (x ∷ text)) c f e)

run_stream :
    (w : World) (c : Client) (f : Feeder)
    → c.feeder ≡ some f
    → run_item w (lit "stream") c ≡ (c, add_output none c.services ∷ [], true)
unfolding run_item perform verb_of verbs contains first_word second_word
run_stream w c f e =
    rw (words-name (lit "stream") (refl, (refl, (refl, (refl, (refl, (refl, tt)))))))
      (run_verb-feeder w (lit "stream") none c f e)

run_two :
    (w : World) (a b : List ℕ) (c d last : Client) (now later : List Call)
    → run_item w a c ≡ (d, now, true)
    → run_item w b d ≡ (last, later, true)
    → run_items w (a ∷ b ∷ []) c ≡ (last, now ++ (later ++ []), true)
unfolding run_items
run_two w a b c d last now later one two = rw (one, two) refl

-- Of the services that `service=` chooses only the first is streamed: the parser is given them all, but the
-- client keeps the text up to its first comma, since the parser has cut it there when the client copies it, and
-- `stream` adds an output for what the client keeps.
pub stream_first_service :
    (w : World) (c : Client) (f : Feeder) (x : ℕ) (word rest : List ℕ)
    → c.feeder ≡ some f
    → IsWhole is_comma (x ∷ word)
    → IsWhole is_set (x ∷ word ++ (b',' ∷ rest))
    → run_items w ((lit "service=" ++ (x ∷ word ++ (b',' ∷ rest))) ∷ lit "stream" ∷ []) c ≡ (
      record c { services = x ∷ word },
      set_service_ids (some (x ∷ word ++ (b',' ∷ rest))) ∷ add_output none (x ∷ word) ∷ [],
      true,
    )
stream_first_service w c f x word rest e (one, h) whole =
    run_two w _ (lit "stream") c next next _ _
      (run_service w c f x (word ++ (b',' ∷ rest)) e whole ∙ chosen) (run_stream w next f e)
  where
    next : Client
    next = record c { services = x ∷ word }

    chosen :
        cmd_service (some (x ∷ word ++ (b',' ∷ rest))) c
        ≡ (next, set_service_ids (some (x ∷ word ++ (b',' ∷ rest))) ∷ [], true)
    chosen =
        unfold cmd_service select_services cut in
        rw (one, cut_word-append is_comma word b',' rest h refl) refl
