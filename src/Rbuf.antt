-- ===== src/Rbuf.antt =====
-- libdvbtee/rbuf.cpp: the byte ring between a feed's reader and its parser.
-- A position is an `int` that the code keeps at 0 or above, so it is a number here; `memcpy` is
-- `copy_in` for a write and a cut of the buffer for a read. The mutex is the field `locked`:
-- `none` is a `pthread_mutex_lock` that never returns, as nobody is left to unlock.
pub mod Contents
pub mod Write
pub mod Read
pub mod Fifo
pub mod Setup
mod Tests
use libdvbtee.Base.{
  ℕ, zero, suc, ◌+◌, ◌-◌, Bool, true, false, Option, none, some, List, [], ◌∷◌, ◌++◌, ltb, leb,
  ◌==◌, if◌then◌else◌, length, take, drop,
}

-- `class rbuf`; `data` holds what `p_data` points to, `[]` for NULL.
pub record Rbuf : Type 0 where
  pub locked : Bool
  pub capacity : ℕ
  pub bytes : List ℕ
  pub idx_read : ℕ
  pub idx_write : ℕ

-- the constructor
unfoldable pub init : Rbuf
init = record { locked = false; capacity = 0; bytes = []; idx_read = 0; idx_write = 0 }

-- `memcpy(p_data + at, src, n)` with `n` the length of `src`
unfoldable pub copy_in : List ℕ → ℕ → List ℕ → List ℕ
copy_in buf at src = take at buf ++ (src ++ drop (at + length src) buf)

-- `__get_size`: `idx_write - idx_read`, and the capacity added where that is negative
unfoldable pub size_of : Rbuf → ℕ
size_of b =
    if ltb b.idx_write b.idx_read
    then b.idx_write + b.capacity - b.idx_read
    else b.idx_write - b.idx_read

-- `__reset`
unfoldable pub rewind : Rbuf → Rbuf
rewind b = record b { idx_read = 0; idx_write = 0 }

-- `__get_write_ptr`: the bytes that can be written at `idx_write` in one piece
unfoldable pub write_room : Rbuf → ℕ
write_room b =
    if leb b.idx_read b.idx_write then b.capacity - b.idx_write else b.idx_read - b.idx_write

-- `__put_write_ptr`
unfoldable pub advance_write : Rbuf → ℕ → Rbuf
advance_write b size =
    if leb b.capacity (b.idx_write + size)
    then record b { idx_write = 0 }
    else record b { idx_write = b.idx_write + size }

-- `__get_read_ptr`: the bytes that can be read at `idx_read` in one piece, `size` at most
unfoldable pub read_room : Rbuf → ℕ → ℕ
read_room b size =
    if leb (size_of b) 0 then 0 else clip (if ltb (size_of b) size then size_of b else size)
  where
    clip : ℕ → ℕ
    clip n = if leb b.capacity (b.idx_read + n) then b.capacity - b.idx_read else n

-- `__put_read_ptr`
unfoldable pub advance_read : Rbuf → ℕ → Rbuf
advance_read b size =
    if leb b.capacity (b.idx_read + size)
    then record b { idx_read = 0 }
    else record b { idx_read = b.idx_read + size }

-- `pthread_mutex_lock` and `pthread_mutex_unlock`
unfoldable pub lock : Rbuf → Option Rbuf
lock b = if b.locked then none else some (record b { locked = true })

unfoldable pub unlock : Rbuf → Rbuf
unlock b = record b { locked = false }

infixl 5 ◌>>=◌
abbrev pub ◌>>=◌ : {A B : Type 0} → Option A → (A → Option B) → Option B
none >>= f = none
some a >>= f = f a

-- `dealloc`
unfoldable pub dealloc : Rbuf → Option Rbuf
unfolding lock unlock rewind
dealloc b = do b ← lock b; some (unlock (rewind (record b { bytes = []; capacity = 0 })))

-- `set_capacity`; `fresh` is what `new char[cap]` returns, whose bytes are not initialised
unfoldable pub set_capacity : Rbuf → List ℕ → Option Rbuf
unfolding lock unlock rewind
set_capacity b fresh = do
  b ← lock b
  some (unlock (rewind (record b { bytes = fresh; capacity = length fresh })))

-- `get_capacity`, which takes no lock
unfoldable pub get_capacity : Rbuf → ℕ
get_capacity b = b.capacity

-- `get_size`
unfoldable pub get_size : Rbuf → Option (ℕ × Rbuf)
unfolding lock unlock
get_size b = do b ← lock b; some (size_of b, unlock b)

-- `reset`
unfoldable pub reset : Rbuf → Option Rbuf
unfolding lock unlock rewind
reset b = do b ← lock b; some (unlock (rewind b))

-- `check`: false while no capacity is set; it only prints otherwise
unfoldable pub check : Rbuf → Option (Bool × Rbuf)
check b = if b.capacity == 0 then some (false, b) else do (_, b) ← get_size b; some (true, b)

-- `get_write_ptr` returns with the mutex held, `put_write_ptr` releases it.
unfoldable pub get_write_ptr : Rbuf → Option (ℕ × Rbuf)
unfolding lock
get_write_ptr b = do b ← lock b; some (write_room b, b)

unfoldable pub put_write_ptr : Rbuf → ℕ → Rbuf
unfolding unlock
put_write_ptr b size = unlock (advance_write b size)

-- One chunk of `write`: the `memcpy` to `idx_write`, and `__put_write_ptr`.
unfoldable pub put_chunk : Rbuf → List ℕ → Rbuf
put_chunk b src = advance_write (record b { bytes = copy_in b.bytes b.idx_write src }) (length src)

-- The loop of `write`, on fuel; `none` is a loop that goes on. A round with no room changes
-- nothing and is repeated for ever.
unfoldable pub write_loop : ℕ → Rbuf → List ℕ → Option Rbuf
write_loop fuel b [] = some b
write_loop zero b (x ∷ src) = none
write_loop (suc fuel) b (x ∷ src) =
    let available = write_room b in
    let all = some (put_chunk b (x ∷ src)) in
    let part =
      write_loop fuel (put_chunk b (take available (x ∷ src))) (drop available (x ∷ src)) in
    let stuck = write_loop fuel b (x ∷ src) in
    if leb (length (x ∷ src)) available then all else if ltb 0 available then part else stuck

-- `write`; each round takes a byte at least, so the length of the text is fuel enough
unfoldable pub write : Rbuf → List ℕ → Option (Bool × Rbuf)
unfolding lock unlock
write b src = do
  b ← lock b
  if ltb b.capacity (size_of b + length src)
      then some (false, unlock b)
      else do b ← write_loop (length src) b src; some (true, unlock b)

-- `get_read_ptr` returns with the mutex held, `put_read_ptr` releases it.
unfoldable pub get_read_ptr : Rbuf → ℕ → Option (ℕ × Rbuf)
unfolding lock
get_read_ptr b size = do b ← lock b; some (read_room b size, b)

unfoldable pub put_read_ptr : Rbuf → ℕ → Rbuf
unfolding unlock
put_read_ptr b size = unlock (advance_read b size)

-- `read`: the bytes copied out, and the ring
unfoldable pub read : Rbuf → ℕ → Option (List ℕ × Rbuf)
read b size = do
  (n, b) ← get_read_ptr b size
  some (take n (drop b.idx_read b.bytes), put_read_ptr b n)
