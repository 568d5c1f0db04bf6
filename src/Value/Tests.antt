-- ===== src/Value/Tests.antt =====
-- The array on concrete values.
use libdvbtee.Base.{ℕ, ◌+◌, ◌≡◌, refl, none, some, List, [], ◌∷◌}
use libdvbtee.Base.Dict
use libdvbtee.Value.{
  Heap, Array, new_array, allocate, put, retain, retain_all, lower, push_value, push_by_ref,
  update_index, set, get, element, value, value_undefined, total, weight, release_all, clear,
}
use libdvbtee.Value.Counts.{refs, held, live, IsCounted}
use libdvbtee.Value.Uses.{at_first, pushes_new, Use-IsCounted}

program : ℕ
unfolding allocate put retain retain_all lower push_value push_by_ref update_index set get element
    total weight release_all clear refs held live Dict.find Dict.insert Dict.erase
program = 0

abbrev holds_none : ℕ → List ℕ
holds_none a = []

abbrev empty_heap : Heap
empty_heap = record { counts = []; holds = holds_none; next = 0 }

abbrev nobody : ℕ → ℕ
nobody a = 0

-- a value that stands in the vector, and in a second one, that holds it
abbrev nested_heap : Heap
nested_heap = record {
  counts = (0, 2) ∷ (1, 1) ∷ [];
  holds = put 1 (0 ∷ []) (put 0 [] holds_none);
  next = 2;
}

abbrev nested : Array
nested = record (new_array []) { values = 0 ∷ 1 ∷ [] }

nested_read : get 1 nested ≡ some (value 1)
unfolding program
nested_read = refl

-- The index that is the size passes the test, and the vector is read behind its end.
read_behind : get 2 nested ≡ none
unfolding program
read_behind = refl

read_far_behind : get 3 nested ≡ some value_undefined
unfolding program
read_far_behind = refl

empty-IsCounted : IsCounted (λ b. refs b [] + nobody b) empty_heap
unfolding program
empty-IsCounted = record { counted = λ a. refl; fresh = λ a old. refl; dead = λ a gone. refl }

-- A value is pushed, and then an array in which it stands.
Use-IsCounted_example :
    IsCounted (λ b. refs b nested.values + nobody b) nested_heap
    × ((h : Heap) × (clear nested_heap nested ≡ some (h, new_array [])) × IsCounted nobody h)
unfolding program
Use-IsCounted_example = Use-IsCounted nobody empty_heap (new_array []) empty-IsCounted (
    pushes_new {h₁ = record { counts = (0, 1) ∷ []; holds = put 0 [] holds_none; next = 1 }}
      {arr₁ = record (new_array []) { values = 0 ∷ [] }} {a = 1} (0 ∷ [])
      (pushes_new {h₁ = empty_heap} {arr₁ = new_array []} {a = 0} [] at_first refl) refl)

-- An array that nothing else refers to is deleted, with the value that it alone holds.
deletes_nested :
    release_all 4 (1 ∷ []) (record {
      counts = (0, 1) ∷ (1, 1) ∷ [];
      holds = put 1 (0 ∷ []) (put 0 [] holds_none);
      next = 2;
    })
    ≡ some (record {
      counts = [];
      holds = put 0 [] (put 1 [] (put 1 (0 ∷ []) (put 0 [] holds_none)));
      next = 2;
    })
unfolding program
deletes_nested = refl
