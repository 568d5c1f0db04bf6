-- ===== src/Rbuf/Fifo.antt =====
-- `rbuf` as its callers use it: a writer and a reader that take turns see a first-in, first-out
-- queue, as long as no accepted write fills the ring to the last byte.
use libdvbtee.Base.{
  ℕ, ◌+◌, ◌<◌, ◌≡◌, ◌∙◌, ap, sym, subst, true, false, some, List, [], ◌++◌, length,
}
use mathlib.Core.Path.{subst₂}
use mathlib.Core.List.{append-nil, append_assoc}
use libdvbtee.Rbuf.{Rbuf, size_of, write, read}
use libdvbtee.Rbuf.Contents.{IsValid, contents}
use libdvbtee.Rbuf.Write.{write_appends, write_refuses}
use libdvbtee.Rbuf.Read.{read_takes}

-- The calls that a reader and a writer make in turn, with what went in and what came out.
pub data Call (b : Rbuf) : List ℕ → List ℕ → Rbuf → Type 0 where
  accepted :
      (src : List ℕ) {b' : Rbuf}
      → size_of b + length src < b.capacity
      → write b src ≡ some (true, b')
      → Call b src [] b'
  refused :
      (src : List ℕ) {b' : Rbuf}
      → b.capacity < size_of b + length src
      → write b src ≡ some (false, b')
      → Call b [] [] b'
  taken : (size : ℕ) {out : List ℕ} {b' : Rbuf} → read b size ≡ some (out, b') → Call b [] out b'

pub data Run (b : Rbuf) : List ℕ → List ℕ → Rbuf → Type 0 where
  start : Run b [] [] b
  next :
      {ins outs src out ins' outs' : List ℕ} {b' b'' : Rbuf}
      → Run b ins outs b'
      → Call b' src out b''
      → ins' ≡ ins ++ src
      → outs' ≡ outs ++ out
      → Run b ins' outs' b''

record Agrees (b : Rbuf) (ins outs : List ℕ) (b' : Rbuf) : Type 0 where
  valid : IsValid b'
  unlocked : b'.locked ≡ false
  fifo : contents b ++ ins ≡ outs ++ contents b'

Call-Agrees :
    {b : Rbuf} {src out : List ℕ} {b' : Rbuf}
    → IsValid b
    → b.locked ≡ false
    → Call b src out b'
    → Agrees b src out b'
Call-Agrees {b} v free_lock (accepted src free ran) =
    let (b₁, ran₁, grown, v₁, open₁) = write_appends src v free_lock free in
    let same : b₁ ≡ _ = cc in
    subst (Agrees b src []) same (record { valid = v₁; unlocked = open₁; fifo = sym grown })
Call-Agrees {b} v free_lock (refused src over ran) =
    let same : b ≡ _ = cc (write_refuses b src free_lock over) in
    subst (Agrees b [] []) same (record { valid = v; unlocked = free_lock; fifo = append-nil _ })
Call-Agrees {b} v free_lock (taken size {out} {b'} ran) =
    let (out₁, b₁, ran₁, cut, _, _, v₁, open₁, _) = read_takes size v free_lock in
    let same : b₁ ≡ b' = cc in
    let same_out : out₁ ≡ out = cc in
    subst₂ (Agrees b []) same_out same
      (record { valid = v₁; unlocked = open₁; fifo = append-nil _ ∙ cut })

Run-Agrees :
    {b : Rbuf} {ins outs : List ℕ} {b' : Rbuf}
    → IsValid b
    → b.locked ≡ false
    → Run b ins outs b'
    → Agrees b ins outs b'
Run-Agrees v free_lock start = record { valid = v; unlocked = free_lock; fifo = append-nil _ }
Run-Agrees {b} v free_lock (next {ins} {outs} {src} {out} {b' = b₁} {b''} r c e f) =
    let before = Run-Agrees v free_lock r in
    let after = Call-Agrees before.valid before.unlocked c in
    record {
      valid = after.valid;
      unlocked = after.unlocked;
      fifo =
          rw (e, f)
            (sym (append_assoc (contents b) ins src)
              ∙ ap (λ t. t ++ src) before.fifo
              ∙ append_assoc outs (contents b₁) src
              ∙ ap (λ t. outs ++ t) after.fifo
              ∙ sym (append_assoc outs out (contents b'')));
    }

-- Over any sequence of calls on a valid ring in which no accepted write fills it to the last byte,
-- what the ring held at the start followed by all that was accepted is what was read, in order,
-- followed by what the ring holds at the end.
pub Run-fifo :
    {b : Rbuf} {ins outs : List ℕ} {b' : Rbuf}
    → IsValid b
    → b.locked ≡ false
    → Run b ins outs b'
    → contents b ++ ins ≡ outs ++ contents b'
Run-fifo v free_lock r = (Run-Agrees v free_lock r).fifo
