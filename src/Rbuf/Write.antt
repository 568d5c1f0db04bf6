-- ===== src/Rbuf/Write.antt =====
-- `rbuf::write`: when it accepts a text, that its loop ends, and what the ring holds afterwards.
use libdvbtee.Base.{
  ℕ, zero, suc, ◌+◌, ◌%◌, ◌≤◌, ◌<◌, ◌≡◌, ◌∙◌, ap, sym, refl, true, false, inl, inr, some, List, [],
  ◌∷◌, ◌++◌, arith, ltb, leb, leb→le, lt→ltb, subst, if◌then◌else◌, Bool-cases, length, take, drop,
  length-take, length-drop, take-append-drop, drop-take, length-append,
}
use mathlib.Core.List.{append-nil, append_assoc}
use native.Mathlib.Nat.{add_assoc, add-mod_left, mod-eq_of_lt, mod_self, mod-add-mod}
use libdvbtee.Rbuf.{Rbuf, size_of, write_room, advance_write, put_chunk, write_loop, write}
use libdvbtee.Rbuf.Contents.{IsValid, contents, put_chunk-IsValid, put_chunk-contents}

-- What the loop has done to `b` when it stops at `b'`.
record Wrote (b : Rbuf) (src : List ℕ) (b' : Rbuf) : Type 0 where
  valid : IsValid b'
  same_read : b'.idx_read ≡ b.idx_read
  same_capacity : b'.capacity ≡ b.capacity
  same_lock : b'.locked ≡ b.locked
  moved : b'.idx_write ≡ (b.idx_write + length src) % b.capacity
  appended : size_of b + length src < b.capacity → contents b' ≡ contents b ++ src

-- An index that is set back to 0 at the end of the storage is taken modulo the capacity.
pub wrap_at_end : (n c : ℕ) → 0 < c → n ≤ c → (if leb c n then 0 else n) ≡ n % c
wrap_at_end n c pos h = elim (Bool-cases (leb c n)) [
  | inl e ↦ rw (e) (omega (arith, at_end (omega (arith, leb→le c n e))))
  | inr e ↦ rw (e) (sym (mod-eq_of_lt (ground arith)))
]
  where
    at_end : n ≡ c → n % c ≡ 0
    at_end same = rw same (mod_self c)

put_chunk-Wrote :
    {b : Rbuf} (src : List ℕ)
    → IsValid b
    → 0 < length src
    → length src ≤ write_room b
    → size_of b + length src ≤ b.capacity
    → Wrote b src (put_chunk b src)
put_chunk-Wrote {b} src v some_bytes fits free = record {
  valid = put_chunk-IsValid src v in_storage;
  same_read = unfold put_chunk advance_write in ground arith;
  same_capacity = unfold put_chunk advance_write in ground arith;
  same_lock = unfold put_chunk advance_write in ground arith;
  moved =
      idx_write-put_chunk
      ∙ wrap_at_end (b.idx_write + length src) b.capacity (omega arith) in_storage;
  appended = put_chunk-contents src v fits;
}
  where
    in_storage : b.idx_write + length src ≤ b.capacity
    in_storage = unfold write_room size_of in ground (arith, v.write_in)

    idx_write-put_chunk :
        (put_chunk b src).idx_write
        ≡ (if leb b.capacity (b.idx_write + length src) then 0 else b.idx_write + length src)
    idx_write-put_chunk = unfold put_chunk advance_write in ground arith

-- A chunk that fills the room and leaves bytes to write ends at the end of the storage; the room
-- at its start is then enough for the rest.
size_of-put_part :
    {b : Rbuf} (src : List ℕ)
    → IsValid b
    → write_room b < length src
    → size_of b + length src ≤ b.capacity
    → size_of (put_chunk b (take (write_room b) src)) ≡ size_of b + write_room b
unfolding put_chunk advance_write write_room size_of
size_of-put_part {b} src v more free =
    ground (arith, v.read_in, v.write_in, length-take (write_room b) src)

room_pos : {b : Rbuf} (n : ℕ) → IsValid b → 0 < n → size_of b + n ≤ b.capacity → 0 < write_room b
unfolding write_room size_of
room_pos n v some_bytes free = ground (arith, v.read_in, v.write_in)

-- Two pieces one after the other are the whole.
Wrote-append :
    {b b₁ b₂ : Rbuf} (xs ys : List ℕ)
    → size_of b₁ ≡ size_of b + length xs
    → Wrote b xs b₁
    → Wrote b₁ ys b₂
    → Wrote b (xs ++ ys) b₂
Wrote-append {b} {b₁} {b₂} xs ys grown p q = record {
  valid = q.valid;
  same_read = q.same_read ∙ p.same_read;
  same_capacity = q.same_capacity ∙ p.same_capacity;
  same_lock = q.same_lock ∙ p.same_lock;
  moved = rw (q.moved, p.same_capacity, p.moved, length-append, mod-add-mod, add_assoc) refl;
  appended = λ h.
      q.appended (omega (arith, length-append xs ys, p.same_capacity, grown))
      ∙ ap (λ c. c ++ ys) (p.appended (omega (arith, length-append xs ys)))
      ∙ append_assoc (contents b) xs ys;
}

Wrote-nil : {b : Rbuf} → IsValid b → Wrote b [] b
Wrote-nil {b} v = record {
  valid = v;
  same_read = refl;
  same_capacity = refl;
  same_lock = refl;
  moved = grind arith;
  appended = λ _. sym (append-nil (contents b));
}

-- Within the free space the loop ends, on any fuel that is at least the length of the text.
write_loop-Wrote :
    (fuel : ℕ) {b : Rbuf} (src : List ℕ)
    → IsValid b
    → length src ≤ fuel
    → size_of b + length src ≤ b.capacity
    → (b' : Rbuf) × (write_loop fuel b src ≡ some b') × Wrote b src b'
unfolding write_loop
write_loop-Wrote fuel {b} [] v enough free = (b, refl, Wrote-nil v)
write_loop-Wrote zero (x ∷ src) v enough free = absurd (omega arith)
write_loop-Wrote (suc fuel) {b} (x ∷ src) v enough free =
    elim (Bool-cases (leb (length (x ∷ src)) (write_room b))) [
      | inl all ↦ (
        put_chunk b (x ∷ src),
        rw all,
        put_chunk-Wrote (x ∷ src) v (omega arith) (leb→le _ _ all) free,
      )
      | inr part ↦
          let more : room < length (x ∷ src) = ground arith in
          let pos : 0 < room = room_pos (length (x ∷ src)) v (omega arith) free in
          let piece : length (take room (x ∷ src)) ≡ room =
            omega (arith, length-take room (x ∷ src)) in
          let first =
            put_chunk-Wrote (take room (x ∷ src)) v (omega arith) (omega arith) (omega arith) in
          let grown = size_of-put_part (x ∷ src) v more free in
          let (b', ran, w) =
            write_loop-Wrote fuel (drop room (x ∷ src)) first.valid
              (omega (arith, length-drop room (x ∷ src)))
              (omega (arith, length-drop room (x ∷ src), first.same_capacity)) in
          (
            b',
            rw (part, lt→ltb 0 room pos) ran,
            subst (λ t. Wrote b t b') (take-append-drop room (x ∷ src))
                (Wrote-append {b₂ = b'} (take room (x ∷ src)) (drop room (x ∷ src)) (rw piece grown)
                  first w),
          )
    ]
  where
    room : ℕ
    room = write_room b

-- The loop inside `write`, where the mutex is held.
write-loops :
    {b : Rbuf} (src : List ℕ)
    → IsValid b
    → b.locked ≡ false
    → size_of b + length src ≤ b.capacity
    → (b' : Rbuf) × (write b src ≡ some (true, record b' { locked = false }))
      × Wrote (record b { locked = true }) src b'
unfolding write size_of
write-loops {b} src v free_lock free =
    let (b', ran, w) =
      write_loop-Wrote (length src) {b = record b { locked = true }} src
        (record { storage = v.storage; read_in = v.read_in; write_in = v.write_in }) (omega arith)
        free in
    (b', ground (arith, ran), w)

-- What such a `write` adds is behind what the ring held, and nothing else of the ring changes.
pub write_grows :
    {b : Rbuf} (src : List ℕ)
    → IsValid b
    → b.locked ≡ false
    → size_of b + length src < b.capacity
    → (b' : Rbuf) × (write b src ≡ some (true, b'))
      × (contents b' ≡ contents b ++ src)
      × IsValid b'
      × (b'.locked ≡ false)
      × (b'.idx_read ≡ b.idx_read)
      × (b'.capacity ≡ b.capacity)
unfolding size_of
write_grows {b} src v free_lock free =
    let (b', ran, w) = write-loops src v free_lock (omega arith) in
    (
      record b' { locked = false },
      ran,
      w.appended free,
      record { storage = w.valid.storage; read_in = w.valid.read_in; write_in = w.valid.write_in },
      refl,
      w.same_read,
      w.same_capacity,
    )

-- A `write` on a valid ring that leaves a byte free or more returns true, with the text behind
-- what the ring held; it keeps the invariant and releases the mutex.
pub write_appends :
    {b : Rbuf} (src : List ℕ)
    → IsValid b
    → b.locked ≡ false
    → size_of b + length src < b.capacity
    → (b' : Rbuf) × (write b src ≡ some (true, b'))
      × (contents b' ≡ contents b ++ src)
      × IsValid b'
      × (b'.locked ≡ false)
write_appends src v free_lock free =
    let (b', ran, held, valid, unlocked, _, _) = write_grows src v free_lock free in
    (b', ran, held, valid, unlocked)

indices_meet :
    {b : Rbuf} (src : List ℕ)
    → IsValid b
    → 0 < length src
    → size_of b + length src ≡ b.capacity
    → (b.idx_write + length src) % b.capacity ≡ b.idx_read
unfolding size_of
indices_meet {b} src v some_bytes full = elim (Bool-cases (ltb b.idx_write b.idx_read)) [
  | inl wrapped ↦ ap (λ n. n % b.capacity) (ground (arith, v.read_in)) ∙ mod-eq_of_lt (omega arith)
  | inr straight ↦
      ap (λ n. n % b.capacity) {y = b.capacity + b.idx_read} (ground (arith, v.read_in))
      ∙ rw add-mod_left (mod-eq_of_lt (omega arith))
]

empty_of_met : (b : Rbuf) → b.idx_write ≡ b.idx_read → (size_of b ≡ 0) × (contents b ≡ [])
unfolding size_of
empty_of_met b met = (ground arith, ground (arith, drop-take b.idx_read b.idx_write b.bytes))

-- A `write` of a text that fills the last free byte of a valid ring also returns true, but the
-- indices meet: the ring then reads as empty, and all it held is lost with the text.
pub write_fills :
    {b : Rbuf} (src : List ℕ)
    → IsValid b
    → b.locked ≡ false
    → 0 < length src
    → size_of b + length src ≡ b.capacity
    → (b' : Rbuf) × (write b src ≡ some (true, b')) × ((size_of b' ≡ 0) × (contents b' ≡ []))
write_fills {b} src v free_lock some_bytes full =
    let (b', ran, w) = write-loops src v free_lock (omega arith) in
    let met : b'.idx_write ≡ b'.idx_read =
      w.moved ∙ indices_meet src v some_bytes full ∙ sym w.same_read in
    (record b' { locked = false }, ran, empty_of_met (record b' { locked = false }) met)

-- A `write` of more than the free space returns false and changes nothing.
pub write_refuses :
    (b : Rbuf) (src : List ℕ)
    → b.locked ≡ false
    → b.capacity < size_of b + length src
    → write b src ≡ some (false, b)
unfolding write size_of
write_refuses b src free_lock over = ground arith
