-- ===== src/Value.antt =====
-- libdvbtee/value/array.cpp and value.h: `class Array` and the counts of the references to its values.
-- A value is its address; `Heap` is the values that exist, with their counts and with the values that stand in
-- each that is itself an array or an object, and `none` is an access to a value that was deleted, or to
-- memory behind the end of a vector. A count is a number here: that of the code is an `int`,
-- which 2^31 references to one value would overflow.
pub mod Counts
pub mod Lower
pub mod Release
pub mod Uses
mod Tests
use libdvbtee.Base.{
  ℕ, zero, suc, ◌+◌, ◌-◌, Bool, true, false, Option, none, some, List, [], ◌∷◌, ◌++◌, leb, ◌==◌,
  if◌then◌else◌, length,
}
use libdvbtee.Base.Dict
use libdvbtee.Base.Dict.{Dict}
use libdvbtee.Rbuf.{◌>>=◌}

pub record Heap : Type 0 where
  pub counts : Dict ℕ
  pub holds : ℕ → List ℕ
  pub next : ℕ

-- `class Array`: the field that names its objects, the values, and the names, the latest first
pub record Array : Type 0 where
  pub idx_field : List ℕ
  pub values : List ℕ
  pub indices : List (List ℕ × ℕ)

-- the constructor
abbrev pub new_array : List ℕ → Array
new_array idx = record { idx_field = idx; values = []; indices = [] }

-- one entry of `holds` set
unfoldable pub put : ℕ → List ℕ → (ℕ → List ℕ) → ℕ → List ℕ
put a values f b = if b == a then values else f b

-- `new Value<T>(idx, val)` behind the copy of `val`, which holds `values`; its count is 0
unfoldable pub allocate : List ℕ → Heap → ℕ × Heap
unfolding put
allocate values h = (
  h.next,
  record h {
    counts = Dict.insert h.next 0 h.counts;
    holds = put h.next values h.holds;
    next = suc h.next;
  },
)

-- `++(*v)`
unfoldable pub retain : ℕ → Heap → Option Heap
retain a h = do
  n ← Dict.find a h.counts
  some (record h { counts = Dict.insert a (n + 1) h.counts })

-- the values of a copied array or object, each pushed into the copy
unfoldable pub retain_all : List ℕ → Heap → Option Heap
unfolding retain
retain_all [] h = some h
retain_all (a ∷ values) h = do h ← retain a h; retain_all values h

-- `--(*v)` for a value of count `n`, which is above 0; the value is gone if that makes 0
unfoldable pub lower : ℕ → ℕ → Heap → Heap
unfolding put
lower n a h =
    if n == 1
    then record h { counts = Dict.erase a h.counts; holds = put a [] h.holds }
    else record h { counts = Dict.insert a (n - 1) h.counts }

-- The loop of `clear`: `if (0 == (--(**it)).getRefCnt()) delete *it`. What is deleted calls `clear` on the values
-- that it holds; here it is gone before they are released, which is the same, since it does not hold itself. On
-- fuel, of which a reference takes one.
unfoldable pub release_all : ℕ → List ℕ → Heap → Option Heap
unfolding lower
release_all zero values h = none
release_all (suc fuel) [] h = some h
release_all (suc fuel) (a ∷ values) h = do
  n ← Dict.find a h.counts
  h ← release_all fuel (if n == 1 then h.holds a else []) (lower n a h)
  release_all fuel values h

-- `push(ValueBase *val)`
unfoldable pub push_value : ℕ → Heap → Array → Option (Heap × Array)
unfolding retain
push_value a h arr = do h ← retain a h; some (h, record arr { values = arr.values ++ (a ∷ []) })

-- `pushByRef` of what holds `values`
unfoldable pub push_by_ref : List ℕ → Heap → Array → Option (ℕ × Heap × Array)
unfolding allocate retain retain_all
push_by_ref values h arr = do
  copied ← retain_all values h
  h' ← retain copied.next (allocate values copied).1
  some (copied.next, h', record arr { values = arr.values ++ (copied.next ∷ []) })

-- `updateIndex`
unfoldable pub update_index : List ℕ → ℕ → Array → Array
update_index [] a arr = arr
update_index (c ∷ key) a arr = record arr { indices = (c ∷ key, a) ∷ arr.indices }

-- `set(key, val)` of what holds `values`, where `none` in the result is NULL
unfoldable pub set : List ℕ → List ℕ → Heap → Array → Option (Option ℕ × Heap × Array)
unfolding push_by_ref update_index
set [] values h arr = some (none, h, arr)
set (c ∷ key) values h arr = do
  (a, h, arr) ← push_by_ref values h arr
  some (some a, h, update_index (c ∷ key) a arr)

-- What `get` returns: a value or `valueUndefined`.
pub data Found : Type 0 where
  value : ℕ → Found
  value_undefined : Found

-- `vector[idx]`
unfoldable pub element : ℕ → List ℕ → Option ℕ
element idx [] = none
element zero (a ∷ values) = some a
element (suc idx) (a ∷ values) = element idx values

-- `get(idx)`
unfoldable pub get : ℕ → Array → Option Found
unfolding element
get idx arr =
    if leb idx (length arr.values)
    then (do a ← element idx arr.values; some (value a))
    else some value_undefined

-- how many references the values hold
unfoldable pub total : (ℕ → ℕ) → ℕ → ℕ
total f zero = 0
total f (suc n) = f n + total f n

unfoldable pub weight : Heap → ℕ
unfolding total
weight h = total (λ a. length (h.holds a)) h.next

-- `clear`
unfoldable pub clear : Heap → Array → Option (Heap × Array)
unfolding release_all weight
clear h arr = do
  h ← release_all (suc (weight h + length arr.values)) arr.values h
  some (h, record arr { values = []; indices = [] })
