-- ===== src/Buddy/Bytes.antt =====
-- BuddyAllocator/src/buddy_allocator.cpp, `Allocate`, `Deallocate` and `QueryAllocatedSize`: the
-- table, the blocks and the addresses.
use eureka.Common.{
  ◌==◌, if◌then◌else◌, lt→ltb, ==_ne, ok, ◌>>=◌, ℕ, ◌+◌, ◌*◌, ◌%◌, ◌^◌, ◌≤◌, ◌<◌, ◌≡◌, refl, sym,
  ap, ◌∙◌, ◌≢◌, ◌⊎◌, inl, inr, some, arith,
}
use mathlib.Core.List.{Memᴰ}
use native.Mathlib.Decide.{ℕ_discrete}
use eureka.Buddy.{word, nearest_upper_power_of_2, noffset}
use eureka.Buddy.Tree.{width, Tree, blocks}
use eureka.Buddy.Blocks.{Inserted, blocks-within}
use eureka.Buddy.Rounding.{nearest_upper_power_of_2-LeastPower}
use eureka.Buddy.Refusing.{Touched}
use eureka.Buddy.Manager.{Stands}
use eureka.Buddy.Allocation.{Served, allocate-outcome}
use eureka.Buddy.Deallocation.{free-Returned, slot_count_for-block}
use eureka.Buddy.Allocator.{
  granularity, bytes_to_slots, map_slot, find_record, erase_record, put_record, BuddyAllocator,
  add_allocation_record, hand_out, allocate_bytes, deallocate, query_allocated_size,
}
use eureka.Buddy.Table.{
  find_record-erase_self, find_record-erase_ne, find_record-put, query-found, Tracks, inserted_mem,
  inserted_other, tracked_new,
}

bytes-slots :
    (bytes : ℕ)
    → 1 ≤ bytes
    → bytes ≤ 2 ^ 44
    → (1 ≤ bytes_to_slots bytes)
      × (bytes_to_slots bytes ≤ 2 ^ 32)
      × (bytes ≤ bytes_to_slots bytes * granularity)
unfolding bytes_to_slots
bytes-slots bytes lo hi = (omega arith, omega arith, omega arith)

-- What an allocation that succeeds leaves: the block, its address and its record.
pub record HandedOut (k bytes : ℕ) (a : BuddyAllocator) (t : Tree) : Type 0 where
  pub offset : ℕ
  pub slots : ℕ
  pub next : BuddyAllocator
  pub tree : Tree
  pub returned :
      allocate_bytes bytes a
      ≡ ok (a.memory_bin.slots + offset * granularity, slots * granularity, next)
  pub tracks : Tracks k next tree
  pub added : Inserted (offset, slots) (blocks k 0 t) (blocks k 0 tree)
  pub enough : bytes ≤ slots * granularity
  pub queried :
      query_allocated_size (a.memory_bin.slots + offset * granularity) next ≡ slots * granularity

hand_out-record :
    (k q n : ℕ) (a : BuddyAllocator) (u : Tree)
    → Stands k (a.bin_manager) u
    → a.memory_bin.slot_count ≡ width k
    → Memᴰ (q, n) (blocks k 0 u)
    → q < width k
    → n * granularity < word
    → hand_out a q
      ≡ ok (
        a.memory_bin.slots + q * granularity,
        n * granularity,
        record a {
          allocation_table =
              put_record (a.allocation_table) (a.memory_bin.slots + q * granularity) (n, q);
        },
      )
unfolding hand_out map_slot add_allocation_record
hand_out-record k q n a u stands same live lt small =
    let sized : n * granularity % word ≡ n * granularity = omega arith in
    rw
      (
        slot_count_for-block k q n (a.bin_manager) u stands live,
        same,
        lt→ltb q (width k) lt,
        sized,
        hand_out,
        map_slot,
        add_allocation_record,
      )
      refl

allocate_bytes-Served :
    (k bytes : ℕ) (a : BuddyAllocator) (t : Tree)
    → Tracks k a t
    → 1 ≤ bytes
    → bytes ≤ 2 ^ 44
    → Served k
        (nearest_upper_power_of_2 (bytes_to_slots bytes))
        (a.bin_manager)
        t
        (bytes_to_slots bytes)
    → HandedOut k bytes a t
unfolding allocate_bytes query_allocated_size find_record
allocate_bytes-Served k bytes a t h lo hi s =
    let n = nearest_upper_power_of_2 (bytes_to_slots bytes) in
    let ptr = a.memory_bin.slots + s.offset * granularity in
    let (one, limit, covers) = bytes-slots bytes lo hi in
    let power = nearest_upper_power_of_2-LeastPower (bytes_to_slots bytes) one limit in
    let live = inserted_mem (s.offset, n) _ _ (s.added) in
    let (z, top, pos) = blocks-within k 0 (s.offset) n s.tree live in
    let b = record a { bin_manager = s.next } in
    let next : BuddyAllocator = record b {
      allocation_table = put_record (a.allocation_table) ptr (n, s.offset);
    } in
    let most : n ≤ 2 ^ 33 = omega (arith, power.least) in
    let sized : n * granularity % word ≡ n * granularity = omega arith in
    record {
      offset = s.offset;
      slots = n;
      next = next;
      tree = s.tree;
      returned =
          ap
            (λ r. r >>= λ o.
              if o.0 == noffset
              then ok (0, 0, record a { bin_manager = o.1 })
              else hand_out (record a { bin_manager = o.1 }) (o.0))
            s.returned
          ∙ ap (λ c. if c then ok (0, 0, b) else hand_out b s.offset)
              (==_ne s.offset noffset (λ e. omega (arith, s.stands.small)))
          ∙ hand_out-record k s.offset n b s.tree s.stands h.slots_match live (omega arith)
              (omega arith);
      tracks = record {
        stands = s.stands;
        slots_match = h.slots_match;
        tracked = tracked_new k ptr n s.offset a b t s.tree h s.added refl;
      };
      added = s.added;
      enough = omega (arith, power.enough);
      queried =
          query-found ptr (n, s.offset) next
            (find_record-put ptr (n, s.offset) (a.allocation_table))
          ∙ sized;
    }

-- An allocation of up to 16 TiB that is refused: the null pointer, and nothing changes.
pub record Declined (k bytes : ℕ) (a : BuddyAllocator) (t : Tree) : Type 0 where
  pub returned : allocate_bytes bytes a ≡ ok (0, 0, a)
  pub in_use :
      (c : ℕ)
      → c * nearest_upper_power_of_2 (bytes_to_slots bytes)
          + nearest_upper_power_of_2 (bytes_to_slots bytes)
        ≤ width k
      → Touched
          (blocks k 0 t)
          (c * nearest_upper_power_of_2 (bytes_to_slots bytes))
          (nearest_upper_power_of_2 (bytes_to_slots bytes))

pub allocate_bytes-outcome :
    (k bytes : ℕ) (a : BuddyAllocator) (t : Tree)
    → Tracks k a t
    → 1 ≤ bytes
    → bytes ≤ 2 ^ 44
    → HandedOut k bytes a t ⊎ Declined k bytes a t
unfolding allocate_bytes
allocate_bytes-outcome k bytes a t h lo hi =
    let (one, limit, covers) = bytes-slots bytes lo hi in
    let outcome = allocate-outcome k (bytes_to_slots bytes) (a.bin_manager) t h.stands one limit in
    elim outcome [
      | inl s ↦ inl (allocate_bytes-Served k bytes a t h lo hi s)
      | inr r ↦ inr record {
        returned =
            ap
              (λ x. x >>= λ o.
                if o.0 == noffset
                then ok (0, 0, record a { bin_manager = o.1 })
                else hand_out (record a { bin_manager = o.1 }) (o.0))
              r.returned;
        in_use = r.in_use;
      }
    ]

-- What giving an address back leaves.
pub record GivenBack (k ptr n q : ℕ) (a : BuddyAllocator) (t : Tree) : Type 0 where
  pub next : BuddyAllocator
  pub tree : Tree
  pub returned : deallocate ptr a ≡ ok (0, next)
  pub tracks : Tracks k next tree
  pub removed : Inserted (q, n) (blocks k 0 tree) (blocks k 0 t)
  pub forgotten : query_allocated_size ptr next ≡ 0

tracked_rest :
    (k ptr n q : ℕ) (a : BuddyAllocator) (t u : Tree)
    → Tracks k a t
    → find_record (a.allocation_table) ptr ≡ some (n, q)
    → Inserted (q, n) (blocks k 0 u) (blocks k 0 t)
    → (p n' q' : ℕ) → find_record (erase_record (a.allocation_table) ptr) p ≡ some (n', q')
    → Memᴰ (q', n') (blocks k 0 u) × (p ≡ a.memory_bin.slots + q' * granularity)
tracked_rest k ptr n q a t u h known gone p n' q' found = elim (ℕ_discrete ptr p) [
  | yes same ↦
      let none_left = find_record-erase_self (a.allocation_table) ptr in
      let found' : find_record (erase_record (a.allocation_table) ptr) ptr ≡ some (n', q') =
        ap (find_record (erase_record (a.allocation_table) ptr)) same ∙ found in
      let clash : ⊥ = cc (sym none_left ∙ found') in absurd clash
  | no other ↦
      let e = sym (find_record-erase_ne (a.allocation_table) ptr p other) ∙ found in
      let (m, here) = h.tracked p n' q' e in
      let (m', there) = h.tracked ptr n q known in
      let apart : q' ≢ q =
        λ z. other (there ∙ ap (λ x. a.memory_bin.slots + x * granularity) (sym z) ∙ sym here) in
      (inserted_other (q, n) (q', n') _ _ gone (λ z. apart (ap (λ x. x.0) z)) m, here)
]

pub deallocate-GivenBack :
    (k ptr n q : ℕ) (a : BuddyAllocator) (t : Tree)
    → Tracks k a t
    → find_record (a.allocation_table) ptr ≡ some (n, q)
    → GivenBack k ptr n q a t
unfolding deallocate query_allocated_size
deallocate-GivenBack k ptr n q a t h known =
    let (live, here) = h.tracked ptr n q known in
    let r = free-Returned k q n (a.bin_manager) t h.stands live in
    record {
      next = record a {
        bin_manager = r.next;
        allocation_table = erase_record (a.allocation_table) ptr;
      };
      tree = r.tree;
      returned = rw (known, r.returned, deallocate) refl;
      tracks = record {
        stands = r.stands;
        slots_match = h.slots_match;
        tracked = tracked_rest k ptr n q a t r.tree h known r.removed;
      };
      removed = r.removed;
      forgotten = rw (find_record-erase_self (a.allocation_table) ptr, query_allocated_size) refl;
    }
