-- ===== src/Rbuf/Setup.antt =====
-- The life of an `rbuf` around its reads and writes: set up, emptied, freed, and held.
use libdvbtee.Base.{ℕ, ◌≡◌, refl, false, none, some, List, [], arith, length}
use libdvbtee.Rbuf.{
  Rbuf, init, write, read, set_capacity, dealloc, reset, get_size, get_write_ptr, put_write_ptr,
  get_read_ptr,
}
use libdvbtee.Rbuf.Contents.{IsValid, contents}

-- A ring that is valid, empty, and not held.
pub record IsFresh (b : Rbuf) : Type 0 where
  pub valid : IsValid b
  pub empty : contents b ≡ []
  pub unlocked : b.locked ≡ false

-- The constructor gives a fresh ring of capacity 0. On a ring that nobody holds, `set_capacity`
-- gives a fresh ring on the new storage, `dealloc` one of capacity 0, and `reset` one that keeps
-- its storage if that was valid.
pub setup-IsFresh :
    (b : Rbuf) (storage : List ℕ)
    → b.locked ≡ false
    → length b.bytes ≡ b.capacity
    → IsFresh init
      × ((b₁ : Rbuf) × (set_capacity b storage ≡ some b₁)
          × IsFresh b₁
          × (b₁.capacity ≡ length storage))
      × ((b₂ : Rbuf) × (dealloc b ≡ some b₂) × IsFresh b₂ × (b₂.capacity ≡ 0))
      × ((b₃ : Rbuf) × (reset b ≡ some b₃) × IsFresh b₃ × (b₃.bytes ≡ b.bytes))
unfolding init set_capacity dealloc reset
setup-IsFresh b storage free_lock stored = (
  fresh 0 [] refl,
  (_, ground arith, fresh (length storage) storage refl, refl),
  (_, ground arith, fresh 0 [] refl, refl),
  (_, ground arith, fresh b.capacity b.bytes stored, refl),
)
  where
    fresh :
        (cap : ℕ) (bytes : List ℕ)
        → length bytes ≡ cap
        → IsFresh
            (record { locked = false; capacity = cap; bytes = bytes; idx_read = 0; idx_write = 0 })
    fresh cap bytes h = record {
      valid = record { storage = h; read_in = omega arith; write_in = omega arith };
      empty = refl;
      unlocked = refl;
    }

-- Once `get_write_ptr` has returned, every other call blocks until `put_write_ptr`, which frees
-- the ring whatever size it is given.
pub get_write_ptr_holds :
    (b : Rbuf) {b' : Rbuf} {n : ℕ} (src storage : List ℕ) (size : ℕ)
    → get_write_ptr b ≡ some (n, b')
    → (write b' src ≡ none)
      × (read b' size ≡ none)
      × (get_size b' ≡ none)
      × (reset b' ≡ none)
      × (dealloc b' ≡ none)
      × (set_capacity b' storage ≡ none)
      × (get_write_ptr b' ≡ none)
      × (get_read_ptr b' size ≡ none)
      × ((put_write_ptr b' size).locked ≡ false)
unfolding write read get_size reset dealloc set_capacity get_write_ptr get_read_ptr put_write_ptr
get_write_ptr_holds b src storage size got = (
  ground arith,
  ground arith,
  ground arith,
  ground arith,
  ground arith,
  ground arith,
  ground arith,
  ground arith,
  refl,
)
