-- ===== src/Buddy/Table.antt =====
-- BuddyAllocator/src/buddy_allocator.cpp: the table of allocations against the blocks.
use eureka.Common.{
  ◌==◌, ==_iff, ==_refl, ==_ne, Bool-cases, ok, at, ℕ, ◌+◌, ◌-◌, ◌*◌, ◌/◌, ◌%◌, ◌^◌, ◌≤◌, ◌≡◌, refl,
  sym, ap, subst, ◌∙◌, ◌≢◌, inl, inr, none, some, List, [], ◌∷◌, ◌++◌, arith,
}
use mathlib.Core.List.{Memᴰ}
use native.Mathlib.Decide.{ℕ_discrete}
use eureka.Buddy.{word}
use eureka.Buddy.Tree.{width, Tree, idle, blocks}
use eureka.Buddy.Blocks.{Inserted}
use eureka.Buddy.Powers.{is_power_of_2-width}
use eureka.Buddy.Manager.{Stands, make_bins-Stands}
use eureka.Buddy.Allocator.{
  granularity, bytes_to_slots, bytes_to_slots_strict, make_memory_bin, Tracker, find_record,
  erase_record, put_record, BuddyAllocator, make_allocator, query_allocated_size,
}

pub find_record-erase_self : (t : Tracker) (p : ℕ) → find_record (erase_record t p) p ≡ none
unfolding find_record erase_record
find_record-erase_self [] p = refl
find_record-erase_self (r ∷ rs) p = elim (Bool-cases (r.0 == p)) [
  | inl e ↦ rw e (find_record-erase_self rs p)
  | inr e ↦ rw (e, e) (find_record-erase_self rs p)
]

pub find_record-erase_ne :
    (t : Tracker) (p q : ℕ) → p ≢ q → find_record (erase_record t p) q ≡ find_record t q
unfolding find_record erase_record
find_record-erase_ne [] p q ne = refl
find_record-erase_ne (r ∷ rs) p q ne = elim (Bool-cases (r.0 == p)) [
  | inl e ↦
      let same = (==_iff (r.0) p).0 e in
      rw (e, ==_ne (r.0) q (λ z. ne (sym same ∙ z))) (find_record-erase_ne rs p q ne)
  | inr e ↦ rw (e, find_record-erase_ne rs p q ne) refl
]

pub find_record-put :
    (p : ℕ) (info : ℕ × ℕ) (t : Tracker) → find_record (put_record t p info) p ≡ some info
unfolding find_record
find_record-put p info t = rw (==_refl p, find_record) refl

pub query-found :
    (p : ℕ) (info : ℕ × ℕ) (a : BuddyAllocator)
    → find_record (a.allocation_table) p ≡ some info
    → query_allocated_size p a ≡ info.0 * granularity % word
unfolding query_allocated_size
query-found p info a e = rw (e, query_allocated_size) refl

-- The table against the blocks: each record is a block at the address of its first slot.
pub record Tracks (k : ℕ) (a : BuddyAllocator) (t : Tree) : Type 0 where
  pub stands : Stands k (a.bin_manager) t
  pub slots_match : a.memory_bin.slot_count ≡ width k
  pub tracked :
      (ptr n q : ℕ)
      → find_record (a.allocation_table) ptr ≡ some (n, q)
      → Memᴰ (q, n) (blocks k 0 t) × (ptr ≡ a.memory_bin.slots + q * granularity)

pub inserted_mem : (b : ℕ × ℕ) (xs ys : List (ℕ × ℕ)) → Inserted b xs ys → Memᴰ b ys
inserted_mem b xs ys h = subst (Memᴰ b) (sym h.with_it) (middle h.before h.after)
  where
    middle : (us vs : List (ℕ × ℕ)) → Memᴰ b (us ++ (b ∷ vs))
    middle [] vs = Memᴰ.head refl
    middle (u ∷ us) vs = Memᴰ.tail (middle us vs)

inserted_old : (b c : ℕ × ℕ) (xs ys : List (ℕ × ℕ)) → Inserted b xs ys → Memᴰ c xs → Memᴰ c ys
inserted_old b c xs ys h m =
    subst (Memᴰ c) (sym h.with_it) (widen h.before h.after (subst (Memᴰ c) h.without m))
  where
    widen : (us vs : List (ℕ × ℕ)) → Memᴰ c (us ++ vs) → Memᴰ c (us ++ (b ∷ vs))
    widen [] vs m = Memᴰ.tail m
    widen (u ∷ us) vs (Memᴰ.head e) = Memᴰ.head e
    widen (u ∷ us) vs (Memᴰ.tail m) = Memᴰ.tail (widen us vs m)

pub inserted_other :
    (b c : ℕ × ℕ) (xs ys : List (ℕ × ℕ)) → Inserted b xs ys → c ≢ b → Memᴰ c ys → Memᴰ c xs
inserted_other b c xs ys h ne m =
    subst (Memᴰ c) (sym h.without) (narrow h.before h.after (subst (Memᴰ c) h.with_it m))
  where
    narrow : (us vs : List (ℕ × ℕ)) → Memᴰ c (us ++ (b ∷ vs)) → Memᴰ c (us ++ vs)
    narrow [] vs (Memᴰ.head e) = absurd (ne e)
    narrow [] vs (Memᴰ.tail m) = m
    narrow (u ∷ us) vs (Memᴰ.head e) = Memᴰ.head e
    narrow (u ∷ us) vs (Memᴰ.tail m) = Memᴰ.tail (narrow us vs m)

-- The record of a new block, and the records of the blocks that were there.
pub tracked_new :
    (k ptr n q : ℕ) (a b : BuddyAllocator) (t u : Tree)
    → Tracks k a t
    → Inserted (q, n) (blocks k 0 t) (blocks k 0 u)
    → ptr ≡ a.memory_bin.slots + q * granularity
    → (p n' q' : ℕ) → find_record (put_record (a.allocation_table) ptr (n, q)) p ≡ some (n', q')
    → Memᴰ (q', n') (blocks k 0 u) × (p ≡ a.memory_bin.slots + q' * granularity)
unfolding find_record
tracked_new k ptr n q a b t u h ins here p n' q' found = elim (ℕ_discrete ptr p) [
  | yes same ↦
      let first : ℕ × ℕ = (n, q) in
      let second : ℕ × ℕ = (n', q') in
      let e : some first ≡ some second = rw ((==_iff ptr p).1 same, find_record) at found in
      let e' : first ≡ second = cc e in
      (
        subst (λ x. Memᴰ (x.1, x.0) (blocks k 0 u)) e' (inserted_mem (q, n) _ _ ins),
        sym same ∙ here ∙ ap (λ x. a.memory_bin.slots + x.1 * granularity) e',
      )
  | no other ↦
      let e : find_record (a.allocation_table) p ≡ some (n', q') =
        sym (find_record-erase_ne (a.allocation_table) ptr p other)
        ∙ (rw (==_ne ptr p other) at found) in
      let (m, at) = h.tracked p n' q' e in (inserted_old (q, n) (q', n') _ _ ins m, at)
]

-- With an address for its slots, a fresh allocator of 2 ^ k of them stands for an idle bin, and its
-- table is empty.
pub make_allocator-Tracks :
    (k address : ℕ)
    → width k ≤ 2 ^ 51
    → (a : BuddyAllocator) × (make_allocator (some address) (width k * granularity) ≡ ok a)
      × Tracks k a idle
unfolding make_allocator bytes_to_slots_strict bytes_to_slots make_memory_bin find_record
make_allocator-Tracks k address small =
    let (m, made, stands) = make_bins-Stands k (omega arith) in
    let whole : width k * granularity % granularity ≡ 0 = omega arith in
    let slots : (width k * granularity + granularity + (word - 1)) % word / granularity ≡ width k =
      omega arith in
    (
      record {
        bin_manager = m;
        memory_bin = record { slots = address; slot_count = width k };
        allocation_table = [];
        capacity = width k * granularity;
      },
      rw
          (
            whole,
            slots,
            made,
            is_power_of_2-width k,
            make_allocator,
            bytes_to_slots_strict,
            bytes_to_slots,
            make_memory_bin,
          )
          refl,
      record { stands = stands; slots_match = refl; tracked = λ ptr n q found. absurd (cc found) },
    )
