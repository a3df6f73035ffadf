-- ===== src/RcString.antt =====
-- RCString/src/rc_string.cpp and rc_string.h: strings that share their data until one of them is
-- changed.
-- The heap holds the blocks of `new StringData`, none for a deleted one; a string is the index of its
-- block, and none when it was destroyed. `size_t` sums are below 2 ^ 64 while a string fits in memory,
-- so they are plain numbers here. The bytes of a new array are read as 0; the source leaves them open.
pub mod Data
pub mod Owners
pub mod Shown
pub mod Owned
pub mod Calls
pub mod Modified
pub mod Constructed
pub mod Follows
pub mod Refined
mod Tests
use eureka.Common.{
  ℕ, zero, suc, ◌+◌, ◌-◌, ◌*◌, ◌/◌, ◌%◌, ◌^◌, max, List, [], ◌∷◌, ◌++◌, length, get_elem?, take,
  set, replicate, copy_at, Option, none, some, Result, ok, err, undefined, check_failed, ◌>>=◌,
  ◌>>◌, ensure, at, Bool, true, false, not, ◌||◌, leb, ltb, ◌==◌, if◌then◌else◌,
}

abbrev pub base_size : ℕ
base_size = 4

abbrev pub unshared_ref_mark : ℕ
unshared_ref_mark = 2 ^ 32 - 1

-- It is called with a number above 0.
unfoldable pub round_to_multiple : ℕ → ℕ → ℕ
round_to_multiple num factor = if factor == 0 then 0 else num - 1 - (num - 1) % factor + factor

-- `buffer` is none for the null pointer.
pub record StringData : Type 0 where
  pub buffer : Option (List ℕ)
  pub capacity : ℕ
  pub size : ℕ
  pub ref_count : ℕ

abbrev pub bytes : Option (List ℕ) → List ℕ
bytes none = []
bytes (some b) = b

unfoldable pub unique : StringData → Bool
unique d = (d.ref_count == 1) || (d.ref_count == unshared_ref_mark)

abbrev pub unsharedable : StringData → Bool
unsharedable d = d.ref_count == unshared_ref_mark

unfoldable pub make_unsharedable : StringData → Result StringData
make_unsharedable d = do
  ensure (unique d) check_failed
  ok (record d { ref_count = unshared_ref_mark })

unfoldable pub reset_sharedable : StringData → Result StringData
reset_sharedable d = do ensure (unique d) check_failed; ok (record d { ref_count = 1 })

unfoldable pub add_ref : StringData → Result StringData
add_ref d = do
  ensure (ltb 0 d.ref_count) check_failed
  ok (record d { ref_count = (d.ref_count + 1) % 2 ^ 32 })

-- `Release`, with its answer.
unfoldable pub release : StringData → Result (Bool × StringData)
release d = do
  ensure (ltb 0 d.ref_count) check_failed
  if unsharedable d
      then ok (true, d)
      else ok (d.ref_count - 1 == 0, record d { ref_count = d.ref_count - 1 })

unfoldable pub reserve : StringData → ℕ → StringData
reserve d required_capacity =
    let new_base = max (d.capacity * 3 / 2) required_capacity in
    let new_capacity = round_to_multiple new_base base_size in
    let new_buf = copy_at (replicate new_capacity 0) 0 (take d.size (bytes d.buffer)) in
    if leb required_capacity d.capacity
    then d
    else record d { buffer = some new_buf; capacity = new_capacity }

-- `memcpy_s` checks its destination: it refuses the null pointer, unless there is nothing to copy. What
-- it then calls ends the program.
unfoldable pub copy_to : Option (List ℕ) → ℕ → List ℕ → Result (Option (List ℕ))
copy_to none pos [] = ok none
copy_to none pos (c ∷ str) = err check_failed
copy_to (some b) pos str = ok (some (copy_at b pos str))

unfoldable pub copy_data : StringData → List ℕ → ℕ → Result StringData
copy_data d str pos = do
  ensure (unique d) check_failed
  ensure (leb pos d.size) check_failed
  ensure (leb (pos + length str) d.capacity) check_failed
  buffer ← copy_to d.buffer pos str
  ok (record d { buffer = buffer; size = max (pos + length str) d.size })

-- The constructor. It reads `capacity_`, which it does not initialise: `stale` is what stands there.
unfoldable pub make_data : ℕ → ℕ → StringData
make_data stale capacity =
    reserve (record { buffer = none; capacity = stale; size = 0; ref_count = 1 }) capacity

unfoldable pub clone : ℕ → StringData → ℕ → Result StringData
clone stale d new_capacity =
    copy_data (make_data stale (max new_capacity d.capacity)) (take d.size (bytes d.buffer)) 0

-- `delete`, with the assertion of the destructor.
unfoldable pub delete_data : StringData → Result (Option StringData)
delete_data d = do ensure (d.ref_count == 0 || unsharedable d) check_failed; ok none

-- Through a pointer; it must not dangle.
unfoldable pub deref {ℓ} : {A : Type ℓ} → List (Option A) → ℕ → Result A
deref xs p = do target ← at xs p; elim target [ none ↦ err undefined | some x ↦ ok x ]

pub record World : Type 0 where
  pub heap : List (Option StringData)
  pub strings : List (Option ℕ)

-- The block that the string points to.
unfoldable pub data_of : World → ℕ → Result (ℕ × StringData)
data_of w v = do p ← deref w.strings v; d ← deref w.heap p; ok (p, d)

abbrev pub store : World → ℕ → StringData → World
store w p d = record w { heap = set w.heap p (some d) }

-- A constructed string points to a new block.
abbrev pub hold : World → StringData → World
hold w d = record { heap = w.heap ++ some d ∷ []; strings = w.strings ++ some (length w.heap) ∷ [] }

unfoldable pub destroy : World → ℕ → Result World
destroy w v = do
  (p, d) ← data_of w v
  (last, e) ← release d
  left ← (if last then delete_data e else ok (some e))
  ok (record { heap = set w.heap p left; strings = set w.strings v none })

-- The bytes that a string shows.
unfoldable pub text : World → ℕ → Result (List ℕ)
text w v = do (p, d) ← data_of w v; ok (take d.size (bytes d.buffer))

-- What is written through the reference that `operator[]` has returned.
unfoldable pub put_char : World → ℕ → ℕ → ℕ → Result World
put_char w v pos c = do
  (p, d) ← data_of w v
  ensure (ltb pos (length (bytes d.buffer))) undefined
  ok (store w p (record d { buffer = some (set (bytes d.buffer) pos c) }))

-- `stale p` stands in the member `capacity_` of the block p before it is made.
module _ (stale : ℕ → ℕ) where
  unfoldable pub create_empty : World → Result World
  create_empty w = ok (hold w (make_data (stale (length w.heap)) base_size))

  unfoldable pub create : World → List ℕ → Result World
  create w str = do
    d ← copy_data (make_data (stale (length w.heap)) (length str)) str 0
    ok (hold w d)

  unfoldable pub copy : World → ℕ → Result World
  copy w other = do
    (p, d) ← data_of w other
    if not (unsharedable d)
        then (do e ← add_ref d; ok (record (store w p e) { strings = w.strings ++ some p ∷ [] }))
        else (do e ← clone (stale (length w.heap)) d d.size; ok (hold w e))

  -- The answer of `Release` is not used: the data have another owner.
  unfoldable pub make_unique : World → ℕ → ℕ → Result World
  make_unique w v required_capacity = do
    (p, d) ← data_of w v
    if not (unique d)
        then (do
          new_data ← clone (stale (length w.heap)) d required_capacity
          (last, e) ← release d
          ok (record {
            heap = set w.heap p (some e) ++ some new_data ∷ [];
            strings = set w.strings v (some (length w.heap));
          }))
        else ok (store w p (reserve d required_capacity))

  unfoldable pub prepare_to_modify : World → ℕ → ℕ → Bool → Result World
  prepare_to_modify w v required_capacity unshare = do
    prepared ← make_unique w v required_capacity
    (p, d) ← data_of prepared v
    e ← (if unshare then make_unsharedable d else reset_sharedable d)
    ok (store prepared p e)

  unfoldable pub append : World → ℕ → List ℕ → Result World
  append w v str = do
    (old, d) ← data_of w v
    prepared ← prepare_to_modify w v (d.size + length str) false
    (p, e) ← data_of prepared v
    changed ← copy_data e str e.size
    ok (store prepared p changed)

  -- The `operator[]` that returns a reference to change the string by.
  unfoldable pub refer : World → ℕ → Result World
  refer w v = do (p, d) ← data_of w v; prepare_to_modify w v d.size true
