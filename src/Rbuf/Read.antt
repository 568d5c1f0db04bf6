-- ===== src/Rbuf/Read.antt =====
-- `rbuf::read`: what comes out, in which order, and what stays; and that reading again and again
-- empties the ring.
use libdvbtee.Base.{
  ℕ, ◌+◌, ◌-◌, ◌≤◌, ◌<◌, ◌≡◌, ◌⊎◌, refl, false, some, List, ◌++◌, arith, length, take, drop,
  length-take, length-drop, take-append-drop, drop-take, drop-drop, take-add, take_of_length-le,
}
use mathlib.Core.List.{append_assoc}
use libdvbtee.Rbuf.{Rbuf, size_of, read_room, advance_read, get_read_ptr, put_read_ptr, read}
use libdvbtee.Rbuf.Contents.{IsValid, contents}

-- The bytes in one piece are no more than the ring holds or the caller asks for, and end at the
-- end of the storage at the latest.
pub read_room_bounds :
    (b : Rbuf) (size : ℕ)
    → IsValid b
    → (read_room b size ≤ size)
      × (read_room b size ≤ size_of b)
      × (b.idx_read + read_room b size ≤ b.capacity)
unfolding read_room size_of
read_room_bounds b size v = ground (arith, v.read_in, v.write_in)

pub advance_read-IsValid : {b : Rbuf} (n : ℕ) → IsValid b → IsValid (advance_read b n)
unfolding advance_read
advance_read-IsValid n v = ground (arith, v.storage, v.read_in, v.write_in)

-- Taking a piece of `n` bytes off the ring takes them off the front of its contents.
pub advance_read-contents :
    {b : Rbuf} (n : ℕ)
    → IsValid b
    → n ≤ size_of b
    → b.idx_read + n ≤ b.capacity
    → contents b ≡ take n (drop b.idx_read b.bytes) ++ contents (advance_read b n)
unfolding advance_read size_of
advance_read-contents {b} n v held inside = ground (
  arith,
  v.storage,
  v.read_in,
  v.write_in,
  drop-take b.idx_read b.idx_write b.bytes,
  drop-take (b.idx_read + n) b.idx_write b.bytes,
  take-append-drop n (drop b.idx_read b.bytes),
  drop-drop b.idx_read n b.bytes,
  take-add n (b.idx_write - b.idx_read - n) (drop b.idx_read b.bytes),
  take_of_length-le n (drop b.idx_read b.bytes),
  length-drop b.idx_read b.bytes,
  append_assoc (take n (drop b.idx_read b.bytes)) (drop (b.idx_read + n) b.bytes)
      (take b.idx_write b.bytes),
)

read_room_pos : (b : Rbuf) (size : ℕ) → IsValid b → 0 < size → 0 < size_of b → 0 < read_room b size
unfolding read_room size_of
read_room_pos b size v = ground (arith, v.read_in, v.write_in)

read_as_parts :
    (b : Rbuf) (size : ℕ)
    → b.locked ≡ false
    → let n = read_room b size in
      read b size
      ≡ some (take n (drop b.idx_read b.bytes), record (advance_read b n) { locked = false })
unfolding read get_read_ptr put_read_ptr read_room size_of advance_read
read_as_parts b size free_lock = ground arith

-- A `read` on a valid ring takes its oldest bytes: what it returns, followed by what the ring
-- still holds, is what it held. It returns `size` bytes at most, and one at least where `size` is
-- not 0 and the ring not empty; it keeps the invariant and releases the mutex.
pub read_takes :
    {b : Rbuf} (size : ℕ)
    → IsValid b
    → b.locked ≡ false
    → (out : List ℕ) × (b' : Rbuf) × (read b size ≡ some (out, b'))
      × (contents b ≡ out ++ contents b')
      × (length out ≤ size)
      × ((0 < length out) ⊎ (size ≡ 0) ⊎ (size_of b ≡ 0))
      × IsValid b'
      × (b'.locked ≡ false)
      × (b'.capacity ≡ b.capacity)
unfolding read get_read_ptr put_read_ptr
read_takes {b} size v free_lock =
    let n = read_room b size in
    let (small, held, inside) = read_room_bounds b size v in
    let v' = advance_read-IsValid n v in
    (
      take n (drop b.idx_read b.bytes),
      record (advance_read b n) { locked = false },
      read_as_parts b size free_lock,
      advance_read-contents n v held inside,
      omega (arith, length-take n (drop b.idx_read b.bytes)),
      ground (
        arith,
        read_room_pos b size v,
        length-take n (drop b.idx_read b.bytes),
        length-drop b.idx_read b.bytes,
        v.storage,
      ),
      record { storage = v'.storage; read_in = v'.read_in; write_in = v'.write_in },
      refl,
      unfold advance_read in ground arith,
    )
