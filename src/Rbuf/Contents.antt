-- ===== src/Rbuf/Contents.antt =====
-- What an `rbuf` holds: its invariant, the bytes between the two indices, and what one chunk of a
-- write or of a read does to them.
use libdvbtee.Base.{
  ℕ, ◌+◌, ◌-◌, ◌≤◌, ◌<◌, ◌≡◌, ◌∙◌, ap, sym, inl, inr, List, ◌++◌, arith, ltb, if◌then◌else◌,
  Bool-cases, length, take, drop, length-append, length-take, length-drop, take-append_eq,
  drop-append_le, drop-append_ge, drop-drop, take_of_length-le,
}
use mathlib.Core.List.{append-nil, append_assoc}
use libdvbtee.Rbuf.{Rbuf, copy_in, size_of, write_room, advance_write, put_chunk}

-- The storage is as long as the capacity says, and both indices lie inside it (at 0 where there
-- is none).
pub record IsValid (b : Rbuf) : Type 0 where
  pub storage : length b.bytes ≡ b.capacity
  pub read_in : b.idx_read ≤ b.capacity - 1
  pub write_in : b.idx_write ≤ b.capacity - 1

-- The bytes written and not yet read, oldest first.
abbrev pub contents : Rbuf → List ℕ
contents b =
    if ltb b.idx_write b.idx_read
    then drop b.idx_read b.bytes ++ take b.idx_write b.bytes
    else drop b.idx_read (take b.idx_write b.bytes)

pub length-contents : {b : Rbuf} → IsValid b → length (contents b) ≡ size_of b
unfolding size_of
length-contents {b} v = elim (Bool-cases (ltb b.idx_write b.idx_read)) [
  | inl wrapped ↦ rw (wrapped, length-append, length-drop, length-take, v.storage) (ground arith)
  | inr straight ↦ rw (straight, length-drop, length-take, v.storage) (ground arith)
]

pub length-copy_in :
    (buf : List ℕ) (at : ℕ) (src : List ℕ)
    → at + length src ≤ length buf
    → length (copy_in buf at src) ≡ length buf
unfolding copy_in
length-copy_in buf at src h =
    rw (length-append, length-append, length-drop, length-take) (omega arith)

-- The three cuts of a buffer that a chunk was copied into: up to its end, from an index before
-- it, and from an index behind it.
take-copy_in :
    (buf : List ℕ) (at : ℕ) (src : List ℕ)
    → at ≤ length buf
    → take (at + length src) (copy_in buf at src) ≡ take at buf ++ src
unfolding copy_in
take-copy_in buf at src h = rw (← append_assoc) (
    take-append_eq (at + length src) (take at buf ++ src) _
      (length-append (take at buf) src ∙ omega (arith, length-take at buf)))

drop-copy_in_before :
    (buf : List ℕ) (at i : ℕ) (src : List ℕ)
    → at + length src ≡ length buf
    → i ≤ at
    → drop i (copy_in buf at src) ≡ drop i (take at buf) ++ src
drop-copy_in_before buf at i src full h =
    ap (drop i) whole ∙ drop-append_le i (take at buf) src (omega (arith, length-take at buf))
  where
    whole : copy_in buf at src ≡ take at buf ++ src
    whole =
        sym (
          take_of_length-le (at + length src) (copy_in buf at src)
            (omega (arith, length-copy_in buf at src (omega arith))))
        ∙ take-copy_in buf at src (omega arith)

drop-copy_in_behind :
    (buf : List ℕ) (at i : ℕ) (src : List ℕ)
    → at ≤ length buf
    → at + length src ≤ i
    → drop i (copy_in buf at src) ≡ drop i buf
unfolding copy_in
drop-copy_in_behind buf at i src h k =
    ap (λ n. drop n (copy_in buf at src)) at_index
    ∙ drop-append_ge (length src + rest) (take at buf) (src ++ tail)
    ∙ drop-append_ge rest src tail
    ∙ drop-drop (at + length src) rest buf
    ∙ ap (λ n. drop n buf) (omega arith)
  where
    rest : ℕ
    rest = i - (at + length src)

    tail : List ℕ
    tail = drop (at + length src) buf

    at_index : i ≡ length (take at buf) + (length src + rest)
    at_index = omega (arith, length-take at buf)

pub put_chunk-IsValid :
    {b : Rbuf} (src : List ℕ)
    → IsValid b
    → b.idx_write + length src ≤ b.capacity
    → IsValid (put_chunk b src)
unfolding put_chunk advance_write
put_chunk-IsValid {b} src v h =
    ground (arith, v.storage, v.read_in, v.write_in, length-copy_in b.bytes b.idx_write src)

-- A chunk that fits in one piece and leaves a byte free extends the contents by itself.
pub put_chunk-contents :
    {b : Rbuf} (src : List ℕ)
    → IsValid b
    → length src ≤ write_room b
    → size_of b + length src < b.capacity
    → contents (put_chunk b src) ≡ contents b ++ src
unfolding put_chunk advance_write write_room size_of
put_chunk-contents {b} src v fits free = ground (
  arith,
  v.storage,
  v.read_in,
  v.write_in,
  length-take idx_write bytes,
  take-copy_in bytes idx_write src,
  drop-copy_in_before bytes idx_write idx_read src,
  drop-copy_in_behind bytes idx_write idx_read src,
  drop-append_le idx_read (take idx_write bytes) src,
  append-nil (drop idx_read (take idx_write bytes) ++ src),
  append_assoc (drop idx_read bytes) (take idx_write bytes) src,
)
  where
    open b use {bytes, idx_read, idx_write}
