-- ===== src/Buddy/Tests.antt =====
-- Runs of the buddy allocator with four slots.
use eureka.Common.{
  ==_iff, ==_ne, check_failed, undefined, ok, err, ◌>>=◌, at, ℕ, ◌+◌, ◌-◌, ◌*◌, ◌^◌, ◌≡◌, refl, sym,
  ap, ◌⊎◌, none, some, [], ◌∷◌, arith,
}
use mathlib.Core.List.{Memᴰ}
use native.Mathlib.Decide.{ℕ_discrete}
use eureka.Buddy.{
  is_power_of_2, spread, smear, nearest_upper_power_of_2, parent, left_child, right_child, noffset,
  BinManager, fill, make_bins, write, descend, update_up, take_bin, allocate, climb, merge_up,
  free_bin, free, count_up, slot_count_for,
}
use eureka.Buddy.Tree.{width, Tree, idle, taken, split, blocks}
use eureka.Buddy.Nodes.{Full, Represents}
use eureka.Buddy.Climbing.{bin_size}
use eureka.Buddy.Rounding.{LeastPower, nearest_upper_power_of_2-LeastPower}
use eureka.Buddy.Manager.{Stands}
use eureka.Buddy.Unused.{unused_slot}
use eureka.Buddy.Allocator.{
  granularity, bytes_to_slots, bytes_to_slots_strict, make_memory_bin, map_slot, find_record,
  erase_record, BuddyAllocator, make_allocator, add_allocation_record, hand_out, allocate_bytes,
  deallocate, query_allocated_size,
}
use eureka.Buddy.Table.{Tracks, make_allocator-Tracks}
use eureka.Buddy.Bytes.{
  HandedOut, Declined, allocate_bytes-outcome, GivenBack, deallocate-GivenBack,
}

program : Unit {0}
unfolding is_power_of_2 spread smear nearest_upper_power_of_2 parent left_child right_child fill
    make_bins write descend update_up take_bin allocate climb merge_up free_bin free count_up
    slot_count_for at bytes_to_slots bytes_to_slots_strict make_memory_bin map_slot find_record
    erase_record make_allocator add_allocation_record hand_out allocate_bytes deallocate
    query_allocated_size blocks Represents Full bin_size
program = tt

abbrev four_slots : BinManager
four_slots = record { total_slot_count = 4; max_consecutive_slot = 4 ∷ 2 ∷ 2 ∷ 1 ∷ 1 ∷ 1 ∷ 1 ∷ [] }

made : make_bins 4 ≡ ok four_slots
unfolding program
made = refl

not_a_power : make_bins 6 ≡ err check_failed
unfolding program
not_a_power = refl

abbrev one_taken : BinManager
one_taken = record { total_slot_count = 4; max_consecutive_slot = 2 ∷ 1 ∷ 2 ∷ 0 ∷ 1 ∷ 1 ∷ 1 ∷ [] }

first_slot : allocate 1 four_slots ≡ ok (0, one_taken)
unfolding program
first_slot = refl

first_pair : (allocate 2 one_taken >>= λ r. ok (r.0)) ≡ ok 2
unfolding program
first_pair = refl

no_room : allocate 3 one_taken ≡ ok (noffset, one_taken)
unfolding program
no_room = refl

merged_again : free 0 one_taken ≡ ok four_slots
unfolding program
merged_again = refl

-- Past 2 ^ 32 the ones do not reach the last digit.
no_power_past_half : nearest_upper_power_of_2 (2 ^ 33 + 2 ^ 0) ≡ 2 ^ 34 - 3
unfolding program
no_power_past_half = refl

fresh :
    (a : BuddyAllocator) × (make_allocator (some 65536) (4 * granularity) ≡ ok a) × Tracks 2 a idle
fresh = make_allocator-Tracks 2 65536 (omega arith)

abbrev one_block : BuddyAllocator
one_block = record {
  bin_manager = one_taken;
  memory_bin = record { slots = 65536; slot_count = 4 };
  allocation_table = (65536, (1, 0)) ∷ [];
  capacity = 16384;
}

abbrev one_tree : Tree
one_tree = split (split taken idle) idle

one_taken-Stands : Stands 2 one_taken one_tree
unfolding program
one_taken-Stands = record {
  total = refl;
  nodes = (refl, λ e. omega arith, (refl, λ e. omega arith, refl, refl), (refl, refl, refl));
  measured = refl;
  small = omega arith;
}

one_record :
    (ptr n q : ℕ)
    → find_record ((65536, (1, 0)) ∷ []) ptr ≡ some (n, q)
    → Memᴰ {A = ℕ × ℕ} (q, n) ((0, 1) ∷ []) × (ptr ≡ 65536 + q * granularity)
unfolding find_record
one_record ptr n q found = elim (ℕ_discrete 65536 ptr) [
  | yes same ↦
      let first : ℕ × ℕ = (1, 0) in
      let second : ℕ × ℕ = (n, q) in
      let e : some first ≡ some second = rw ((==_iff 65536 ptr).1 same, find_record) at found in
      let e' : first ≡ second = cc e in
      let swap : ℕ × ℕ → ℕ × ℕ = λ x. (x.1, x.0) in
      (Memᴰ.head (sym (ap swap e')), omega (arith, ap (λ x. x.1) e'))
  | no other ↦
      let second : ℕ × ℕ = (n, q) in
      let e : none ≡ some second = rw (==_ne 65536 ptr other, find_record) at found in absurd (cc e)
]

one_block-Tracks : Tracks 2 one_block one_tree
unfolding program
one_block-Tracks = record {
  stands = one_taken-Stands;
  slots_match = refl;
  tracked = λ ptr n q found. one_record ptr n q found;
}

nearest_upper_power_of_2-LeastPower_example : LeastPower 5 (nearest_upper_power_of_2 5)
nearest_upper_power_of_2-LeastPower_example =
    nearest_upper_power_of_2-LeastPower 5 (omega arith) (omega arith)

make_allocator-Tracks_example :
    (a : BuddyAllocator) × (make_allocator (some 65536) (width 4 * granularity) ≡ ok a)
    × Tracks 4 a idle
make_allocator-Tracks_example = make_allocator-Tracks 4 65536 (omega arith)

allocate_bytes-outcome_example :
    HandedOut 2 5000 one_block one_tree ⊎ Declined 2 5000 one_block one_tree
allocate_bytes-outcome_example =
    allocate_bytes-outcome 2 5000 one_block one_tree one_block-Tracks (omega arith) (omega arith)

deallocate-GivenBack_example : GivenBack 2 65536 1 0 one_block one_tree
unfolding program
deallocate-GivenBack_example =
    deallocate-GivenBack 2 65536 1 0 one_block one_tree one_block-Tracks refl

unused_slot_example :
    (free 3 one_taken ≡ ok one_taken) × (slot_count_for 3 one_taken ≡ err undefined)
unfolding program
unused_slot_example = unused_slot 2 3 one_taken one_tree one_taken-Stands (omega arith) refl
