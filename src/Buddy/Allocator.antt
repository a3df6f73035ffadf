-- ===== src/Buddy/Allocator.antt =====
-- BuddyAllocator/src: buddy_allocator.cpp and memory_bin.h, the allocator over addresses.
-- What `make_unique` gives for the slots is a parameter: their address, or none if it throws, and the table is an association list
-- by addresses. A null pointer is 0.
use eureka.Common.{
  ltb, ◌==◌, if◌then◌else◌, check_failed, bad_alloc, Result, ok, err, ◌>>=◌, ◌>>◌, ensure, ℕ, ◌+◌,
  ◌-◌, ◌*◌, ◌/◌, ◌%◌, Option, none, some, List, [], ◌∷◌,
}
use eureka.Buddy.{
  word, is_power_of_2, noffset, BinManager, make_bins, allocate, free, slot_count_for,
}

abbrev pub granularity : ℕ
granularity = 4096

-- `BytesToSlots`; `false` is the strict mode's failure.
unfoldable pub bytes_to_slots : ℕ → ℕ
bytes_to_slots size_in_bytes = (size_in_bytes + granularity + (word - 1)) % word / granularity

unfoldable pub bytes_to_slots_strict : ℕ → Result ℕ
bytes_to_slots_strict size_in_bytes =
    ensure (size_in_bytes % granularity == 0) check_failed >> ok (bytes_to_slots size_in_bytes)

pub record MemoryBin : Type 0 where
  pub slots : ℕ
  pub slot_count : ℕ

unfoldable pub make_memory_bin : Option ℕ → ℕ → Result MemoryBin
make_memory_bin (some address) slot_count =
    ensure (is_power_of_2 slot_count) check_failed
    >> ok (record { slots = address; slot_count = slot_count })
make_memory_bin none slot_count = ensure (is_power_of_2 slot_count) check_failed >> err bad_alloc

unfoldable pub map_slot : MemoryBin → ℕ → Result ℕ
map_slot bin offset =
    ensure (ltb offset bin.slot_count) check_failed >> ok (bin.slots + offset * granularity)

-- What the table holds of an address: the size of its bin and the offset.
abbrev pub Tracker : Type 0
Tracker = List (ℕ × (ℕ × ℕ))

unfoldable pub find_record : Tracker → ℕ → Option (ℕ × ℕ)
find_record [] ptr = none
find_record (r ∷ rs) ptr = let rest = find_record rs ptr in if r.0 == ptr then some (r.1) else rest

unfoldable pub erase_record : Tracker → ℕ → Tracker
erase_record [] ptr = []
erase_record (r ∷ rs) ptr = let rest = erase_record rs ptr in if r.0 == ptr then rest else r ∷ rest

-- `table[ptr] = info`
abbrev pub put_record : Tracker → ℕ → ℕ × ℕ → Tracker
put_record table ptr info = (ptr, info) ∷ erase_record table ptr

pub record BuddyAllocator : Type 0 where
  pub bin_manager : BinManager
  pub memory_bin : MemoryBin
  pub allocation_table : Tracker
  pub capacity : ℕ

unfoldable pub make_allocator : Option ℕ → ℕ → Result BuddyAllocator
make_allocator new_slots max_byte = do
  manager_slots ← bytes_to_slots_strict max_byte
  manager ← make_bins manager_slots
  bin_slots ← bytes_to_slots_strict max_byte
  bin ← make_memory_bin new_slots bin_slots
  ok (record {
    bin_manager = manager;
    memory_bin = bin;
    allocation_table = [];
    capacity = max_byte;
  })

unfoldable pub add_allocation_record : BuddyAllocator → ℕ → ℕ → Result BuddyAllocator
add_allocation_record a ptr offset = do
  slot_count ← slot_count_for offset a.bin_manager
  ok (record a { allocation_table = put_record a.allocation_table ptr (slot_count, offset) })

-- `Allocate` behind its test: the address, and what `bytes_allocated` is set to.
unfoldable pub hand_out : BuddyAllocator → ℕ → Result (ℕ × ℕ × BuddyAllocator)
hand_out a offset = do
  slot_count ← slot_count_for offset a.bin_manager
  addr ← map_slot a.memory_bin offset
  b ← add_allocation_record a addr offset
  ok (addr, slot_count * granularity % word, b)

unfoldable pub allocate_bytes : ℕ → BuddyAllocator → Result (ℕ × ℕ × BuddyAllocator)
allocate_bytes number_of_bytes a = do
  (offset, manager) ← allocate (bytes_to_slots number_of_bytes) a.bin_manager
  let b = record a { bin_manager = manager }
  if offset == noffset then ok (0, 0, b) else hand_out b offset

-- The pointer and the allocator afterwards.
unfoldable pub deallocate : ℕ → BuddyAllocator → Result (ℕ × BuddyAllocator)
deallocate ptr a = elim (find_record a.allocation_table ptr) [
  | none ↦ ok (ptr, a)
  | some info ↦ do
    manager ← free (info.1) a.bin_manager
    ok (
      0,
      record a { bin_manager = manager; allocation_table = erase_record a.allocation_table ptr },
    )
]

unfoldable pub query_allocated_size : ℕ → BuddyAllocator → ℕ
query_allocated_size ptr a = elim (find_record a.allocation_table ptr) [
  | none ↦ 0
  | some info ↦ info.0 * granularity % word
]
