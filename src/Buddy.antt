-- ===== src/Buddy.antt =====
-- BuddyAllocator/src: buddy_util.h and bin_manager.cpp, the tree of bins that hands out runs of
-- slots.
-- The vector is a list, `size_t` has 64 bits, and an access past the end is undefined behaviour.
-- The assertions are compiled out, as in a release build: each stands before a test that returns.
pub mod Tree
pub mod Nodes
pub mod Rebuilding
pub mod Descending
pub mod Placing
pub mod Climbing
pub mod Releasing
pub mod Blocks
pub mod Digits
pub mod Powers
pub mod Rounding
pub mod Refusing
pub mod Fresh
pub mod Manager
pub mod Allocation
pub mod Deallocation
pub mod Unused
pub mod Allocator
pub mod Table
pub mod Bytes
mod Tests
use eureka.Common.{
  ltb, leb, ◌==◌, if◌then◌else◌, ltb→lt, ltb→ge, lt→ltb, le→leb, leb→le, leb→gt, not_ltb, not_leb,
  ==_iff, ==_refl, ==_ne, Bool-cases, Option-cases, length, get_elem?, get_or, set, take, drop,
  replicate, length-append, length-set, length-take, length-drop, length-replicate, length-reverse,
  take-append-drop, take_all, drop_all, take-append_exact, drop-append_exact, drop-nil, take-nil,
  drop-drop, drop-take, take-take, take-append_le, take-add, copy_at, length-copy_at, take-copy_at,
  take-copy_at_before, drop-copy_at_behind, resize, length-resize, one_if, count, count-append,
  codes, get_elem?-lt, get_elem?-set_self, get_elem?-set_ne, length-get_elem?, Fault, check_failed,
  invalid_argument, undefined, Result, ok, err, ◌>>=◌, ◌>>◌, ok-injective, ensure, bind_chain,
  bind_follow, at, at-some, ℕ, zero, suc, ◌+◌, ◌-◌, ◌*◌, ◌/◌, ◌%◌, ◌^◌, ◌≤◌, ◌<◌, min, max, ◌≡◌,
  refl, sym, ap, subst, ◌∙◌, ◌≡⟨◌⟩◌, ◌∎, ◌≢◌, ◌↔◌, ◌⊎◌, inl, inr, Bool, true, false, not, ◌&&◌,
  ◌||◌, Option, none, some, List, [], ◌∷◌, ◌++◌, map, reverse, append_assoc, append-nil, arith,
}
use Prim.Native.Nat.{bit_and, bit_or}

abbrev pub word : ℕ
word = 2 ^ 64

-- buddy_util.h
unfoldable pub is_power_of_2 : ℕ → Bool
is_power_of_2 number = not (number == 0) && bit_and number (number - 1) == 0

-- The loop shifts by 1, 2, 4, 8 and 16: it ends at 32, half the bits of a `size_t`.
unfoldable pub spread : ℕ → ℕ → ℕ
spread i number = bit_or number (number / 2 ^ i)

unfoldable pub smear : ℕ → ℕ
smear number = spread 16 (spread 8 (spread 4 (spread 2 (spread 1 number))))

unfoldable pub nearest_upper_power_of_2 : ℕ → ℕ
nearest_upper_power_of_2 number = (smear ((number + (word - 1)) % word) + 1) % word

unfoldable pub parent : ℕ → ℕ
parent i = ((i + 1) % word / 2 + (word - 1)) % word

unfoldable pub left_child : ℕ → ℕ
left_child i = ((i + 1) * 2 + (word - 1)) % word

unfoldable pub right_child : ℕ → ℕ
right_child i = (i + 1) * 2 % word

-- bin_manager.cpp
abbrev pub noffset : ℕ
noffset = word - 1

pub record BinManager : Type 0 where
  pub total_slot_count : ℕ
  pub max_consecutive_slot : List ℕ

-- The loop of the constructor, with the number of nodes that are left.
unfoldable pub fill : ℕ → ℕ → ℕ → List ℕ
fill zero i node_slot_count = []
fill (suc n) i node_slot_count =
    let here = (if is_power_of_2 (i + 1) then node_slot_count / 2 else node_slot_count) in
    here ∷ fill n (i + 1) here

unfoldable pub make_bins : ℕ → Result BinManager
make_bins total =
    ensure (is_power_of_2 total) check_failed
    >> ok (record {
      total_slot_count = total;
      max_consecutive_slot = fill ((total * 2 + (word - 1)) % word) 0 (total * 2 % word);
    })

-- `v[i] = x`
unfoldable pub write : List ℕ → ℕ → ℕ → Result (List ℕ)
write v i x = if ltb i (length v) then ok (set v i x) else err undefined

-- The loops run on fuel: an index has 64 bits, and each step halves it or the size.
abbrev pub steps : ℕ
steps = 65

unfoldable pub descend : ℕ → List ℕ → ℕ → ℕ → ℕ → Result ℕ
descend zero v slots_needed node_slots index = err undefined
descend (suc n) v slots_needed node_slots index = elim (node_slots == slots_needed) [
  | true ↦ ok index
  | false ↦ do
    left ← at v (left_child index)
    descend n v slots_needed (node_slots / 2)
        (if leb slots_needed left then left_child index else right_child index)
]

unfoldable pub update_up : ℕ → List ℕ → ℕ → Result (List ℕ)
update_up zero v index = err undefined
update_up (suc n) v index = elim (index == 0) [
  | true ↦ ok v
  | false ↦ do
    left ← at v (left_child (parent index))
    right ← at v (right_child (parent index))
    w ← write v (parent index) (max left right)
    update_up n w (parent index)
]

-- `Allocate` behind its tests.
unfoldable pub take_bin : ℕ → BinManager → Result (ℕ × BinManager)
take_bin slots_needed m = do
  index ← descend steps m.max_consecutive_slot slots_needed m.total_slot_count 0
  cleared ← write m.max_consecutive_slot index 0
  updated ← update_up steps cleared index
  ok (
    ((index + 1) * slots_needed + (word - m.total_slot_count)) % word,
    record m { max_consecutive_slot = updated },
  )

unfoldable pub allocate : ℕ → BinManager → Result (ℕ × BinManager)
allocate slots_required m =
    let slots_needed = nearest_upper_power_of_2 slots_required in
    if slots_required == 0 then ok (noffset, m) else do
      top ← at m.max_consecutive_slot 0
      if ltb top slots_needed then ok (noffset, m) else take_bin slots_needed m

-- The loop of `Free` that looks for the bin: `none` when it reaches the root.
unfoldable pub climb : ℕ → List ℕ → ℕ → ℕ → Result (Option (ℕ × ℕ))
climb zero v node_slot_count index = err undefined
climb (suc n) v node_slot_count index = do
  x ← at v index
  elim (x == 0) [
    | true ↦ ok (some (node_slot_count, index))
    | false ↦ elim (index == 0) [
      | true ↦ ok none
      | false ↦ climb n v (node_slot_count * 2 % word) (parent index)
    ]
  ]

unfoldable pub merge_up : ℕ → List ℕ → ℕ → ℕ → Result (List ℕ)
merge_up zero v node_slot_count index = err undefined
merge_up (suc n) v node_slot_count index = elim (index == 0) [
  | true ↦ ok v
  | false ↦ do
    left ← at v (left_child (parent index))
    right ← at v (right_child (parent index))
    let count = node_slot_count * 2 % word
    w ← write v (parent index) (if (left + right) % word == count then count else max left right)
    merge_up n w count (parent index)
]

-- The first node of both climbs.
abbrev pub leaf_index : BinManager → ℕ → ℕ
leaf_index m offset = (offset + m.total_slot_count + (word - 1)) % word

-- `Free` behind its test.
unfoldable pub free_bin : ℕ → BinManager → Result BinManager
free_bin offset m = do
  found ← climb steps m.max_consecutive_slot 1 (leaf_index m offset)
  elim found [
    | none ↦ ok m
    | some (count, index) ↦ do
      marked ← write m.max_consecutive_slot index count
      merged ← merge_up steps marked count index
      ok (record m { max_consecutive_slot = merged })
  ]

unfoldable pub free : ℕ → BinManager → Result BinManager
free offset m = if leb m.total_slot_count offset then ok m else free_bin offset m

-- The loop of `SlotCountFor`, which does not stop at the root: the parent of 0 is 2 ^ 64 - 1.
unfoldable pub count_up : ℕ → List ℕ → ℕ → ℕ → Result ℕ
count_up zero v node_slot_count i = err undefined
count_up (suc n) v node_slot_count i = do
  x ← at v i
  elim (x == 0) [
    | true ↦ ok node_slot_count
    | false ↦ count_up n v (node_slot_count * 2 % word) (parent i)
  ]

unfoldable pub slot_count_for : ℕ → BinManager → Result ℕ
slot_count_for offset m =
    if leb m.total_slot_count offset
    then ok 0
    else count_up steps m.max_consecutive_slot 1 (leaf_index m offset)
