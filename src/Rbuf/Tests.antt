-- ===== src/Rbuf/Tests.antt =====
-- The ring at concrete inputs.
use libdvbtee.Base.{
  ℕ, ◌≡◌, ◌⊎◌, refl, true, false, none, some, List, [], ◌∷◌, ◌++◌, arith, length, ◌≤◌, ◌<◌,
}
use libdvbtee.Rbuf.{
  Rbuf, init, size_of, write_room, put_chunk, write_loop, write, read_room, advance_write, copy_in,
  read, get_read_ptr, put_read_ptr, advance_read, set_capacity, dealloc, reset, get_size,
  get_write_ptr, put_write_ptr, get_read_ptr,
}
use libdvbtee.Rbuf.Contents.{IsValid, contents}
use libdvbtee.Rbuf.Write.{write_appends, write_fills, write_refuses}
use libdvbtee.Rbuf.Read.{read_takes}
use libdvbtee.Rbuf.Fifo.{Run, Call, Run-fifo}
use libdvbtee.Rbuf.Setup.{IsFresh, setup-IsFresh, get_write_ptr_holds}

-- Two bytes, 8 at index 3 and 9 round the end at index 0, in a ring of four.
abbrev wrapped : Rbuf
wrapped = record {
  locked = false;
  capacity = 4;
  bytes = 9 ∷ 0 ∷ 0 ∷ 8 ∷ [];
  idx_read = 3;
  idx_write = 1;
}

-- Three bytes behind index 1: a write of one byte fills the ring to the last.
abbrev nearly_full : Rbuf
nearly_full = record wrapped { idx_read = 0; idx_write = 3 }

program : ℕ
unfolding write write_loop write_room put_chunk copy_in advance_write size_of read get_read_ptr
    put_read_ptr read_room advance_read set_capacity dealloc reset get_size get_write_ptr
    put_write_ptr init
program = 0

wrapped-IsValid : IsValid wrapped
wrapped-IsValid = record { storage = refl; read_in = omega arith; write_in = omega arith }

nearly_full-IsValid : IsValid nearly_full
nearly_full-IsValid = record { storage = refl; read_in = omega arith; write_in = omega arith }

read_in_two_pieces : read wrapped 5 ≡ some (8 ∷ [], record wrapped { idx_read = 0 })
unfolding program
read_in_two_pieces = refl

write_appends_example :
    (b : Rbuf) × (write wrapped (7 ∷ []) ≡ some (true, b))
    × (contents b ≡ 8 ∷ 9 ∷ 7 ∷ [])
    × IsValid b
    × (b.locked ≡ false)
unfolding program
write_appends_example = write_appends (7 ∷ []) wrapped-IsValid refl (omega arith)

write_fills_test :
    (b : Rbuf) × (write nearly_full (7 ∷ []) ≡ some (true, b))
    × ((size_of b ≡ 0) × (contents b ≡ []))
unfolding program
write_fills_test = write_fills (7 ∷ []) nearly_full-IsValid refl (omega arith) refl

too_long : write wrapped (1 ∷ 2 ∷ 3 ∷ []) ≡ some (false, wrapped)
unfolding program
too_long = write_refuses wrapped (1 ∷ 2 ∷ 3 ∷ []) refl (omega arith)

read_takes_example :
    (out : List ℕ) × (b : Rbuf) × (read wrapped 5 ≡ some (out, b))
    × (8 ∷ 9 ∷ [] ≡ out ++ contents b)
    × (length out ≤ 5)
    × ((0 < length out) ⊎ ◌≡◌ {A = ℕ} 5 0 ⊎ (size_of wrapped ≡ 0))
    × IsValid b
    × (b.locked ≡ false)
    × (b.capacity ≡ 4)
read_takes_example = read_takes 5 wrapped-IsValid refl

turns : Run wrapped (7 ∷ []) (8 ∷ []) (record {
  locked = false;
  capacity = 4;
  bytes = 9 ∷ 7 ∷ 0 ∷ 8 ∷ [];
  idx_read = 0;
  idx_write = 2;
})
unfolding program
turns =
    Run.next (Run.next Run.start (Call.accepted (7 ∷ []) (omega arith) refl) refl refl)
      (Call.taken 5 refl) refl refl

Run-fifo_example : contents wrapped ++ (7 ∷ []) ≡ (8 ∷ []) ++ (9 ∷ 7 ∷ [])
Run-fifo_example = Run-fifo wrapped-IsValid refl turns

setup-IsFresh_test :
    IsFresh init
    × ((b₁ : Rbuf) × (set_capacity wrapped (0 ∷ []) ≡ some b₁) × IsFresh b₁ × (b₁.capacity ≡ 1))
    × ((b₂ : Rbuf) × (dealloc wrapped ≡ some b₂) × IsFresh b₂ × (b₂.capacity ≡ 0))
    × ((b₃ : Rbuf) × (reset wrapped ≡ some b₃) × IsFresh b₃ × (b₃.bytes ≡ wrapped.bytes))
setup-IsFresh_test = setup-IsFresh wrapped (0 ∷ []) refl refl

get_write_ptr_holds_test :
    let b = record wrapped { locked = true } in
    (write b (1 ∷ []) ≡ none)
    × (read b 2 ≡ none)
    × (get_size b ≡ none)
    × (reset b ≡ none)
    × (dealloc b ≡ none)
    × (set_capacity b [] ≡ none)
    × (get_write_ptr b ≡ none)
    × (get_read_ptr b 2 ≡ none)
    × ((put_write_ptr b 2).locked ≡ false)
unfolding program
get_write_ptr_holds_test = get_write_ptr_holds wrapped {n = 2} (1 ∷ []) [] 2 refl
