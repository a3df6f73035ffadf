-- ===== src/Bloom/Filters.antt =====
-- The filters that the constructor of bloom-filter/bloom-filter/bloom_filter.cpp makes.
use native.Mathlib.Nat.{pow-succ', one-le-pow}
use eureka.Common.{
  not_ltb, length, get_elem?, replicate, length-replicate, ok, ok-injective, ℕ, zero, suc, ◌+◌, ◌*◌,
  ◌/◌, ◌%◌, ◌^◌, ◌≤◌, ◌≡◌, refl, sym, ap, ◌∙◌, Bool, true, false, not, List, arith,
}
use eureka.Bloom.{Filter, calc_capacity, make, test_bit, bit_place, add, may_contain}
use eureka.Bloom.Bits.{bit_in, bit, IsValid}
use eureka.Bloom.Members.{
  all_set, member, may_contain-member, add_lem, add_all, AllHaveBytes, AllMembers, add_all-AddsAll,
}

-- The capacity is a multiple of 8, and not 0.
calc_capacity_lem :
    (bit_num : ℕ)
    → bit_num ≤ 52
    → (bits : ℕ) × (calc_capacity bit_num ≡ ok bits) × (8 ≤ bits) × (bits / 8 * 8 ≡ bits)
unfolding calc_capacity
calc_capacity_lem zero h = (8, refl, omega arith, refl)
calc_capacity_lem (suc zero) h = (8, refl, omega arith, refl)
calc_capacity_lem (suc (suc c)) h =
    let bits = 2 ^ (suc (suc c) + 1) in
    let shape : suc (suc c) + 1 ≡ suc (suc (suc c)) = omega arith in
    let one : 1 ≤ 2 ^ c = one-le-pow c 2 (omega arith) in
    let eight : bits ≡ 2 ^ c * 8 = omega (
      arith,
      ap (λ k. 2 ^ k) shape,
      pow-succ' 2 (suc (suc c)),
      pow-succ' 2 (suc c),
      pow-succ' 2 c,
    ) in
    (
      bits,
      rw (not_ltb 52 (suc (suc c)) h, not_ltb bits 8 (omega (arith, eight, one))) refl,
      omega (arith, eight, one),
      omega (arith, eight),
    )

test_bit-zero : (k : ℕ) → test_bit 0 k ≡ false
unfolding test_bit
test_bit-zero zero = refl
test_bit-zero (suc k) = test_bit-zero k

bit-replicate : (n i : ℕ) → bit (replicate n 0) i ≡ false
bit-replicate n i = go n (i / 8)
  where
    go : (n k : ℕ) → bit_in (get_elem? (replicate n 0) k) (i % 8) ≡ false
    go zero k = refl
    go (suc n) zero = test_bit-zero (i % 8)
    go (suc n) (suc k) = go n k

-- The constructor, with a capacity that it accepts.
make-IsValid :
    (hashes bit_num max_entries : ℕ)
    → bit_num ≤ 52
    → (f : Filter) × (make hashes bit_num max_entries ≡ ok f)
      × IsValid f
      × (f.hashes ≡ hashes)
      × ((i : ℕ) → bit f.bytes i ≡ false)
unfolding make
make-IsValid hashes bit_num max_entries h =
    let (bits, done, some_bits, whole) = calc_capacity_lem bit_num h in
    let f : Filter = record {
      hashes = hashes;
      num_bits = bits;
      max_entries = max_entries;
      size = 0;
      bytes = replicate (bits / 8) 0;
    } in
    (
      f,
      rw done refl,
      record {
        some_bits = some_bits;
        row = ap (λ n. n * 8) (length-replicate (bits / 8) 0) ∙ whole;
      },
      refl,
      bit-replicate (bits / 8),
    )

all_set-none :
    (bytes : List ℕ) (m a b n i : ℕ)
    → ((j : ℕ) → bit bytes j ≡ false)
    → 1 ≤ n
    → all_set bytes m a b n i ≡ false
all_set-none bytes m a b zero i none_set h = absurd (omega arith)
all_set-none bytes m a b (suc n) i none_set h = rw (none_set (bit_place m a b i)) refl

-- In a filter that was made with some hashes and a capacity of at most 2 ^ 53 bits: whatever was
-- added, of blocks that are not empty, `may_contain` answers true for it; before, it answers false
-- for each block.
pub may_contain-add_all :
    (murmur_hash : List ℕ → ℕ → ℕ) (hashes bit_num max_entries : ℕ) (contents : List (List ℕ))
    → 1 ≤ hashes
    → bit_num ≤ 52
    → AllHaveBytes murmur_hash contents
    → (f g : Filter) × (make hashes bit_num max_entries ≡ ok f)
      × ((content : List ℕ) → 1 ≤ length content → may_contain murmur_hash f content ≡ ok false)
      × (add_all murmur_hash f contents ≡ ok g)
      × AllMembers murmur_hash g contents
may_contain-add_all murmur_hash hashes bit_num max_entries contents some_hashes h bytes =
    let (f, done, valid, same, none_set) = make-IsValid hashes bit_num max_entries h in
    let (g, added, valid', all, keeps) = add_all-AddsAll murmur_hash f contents valid bytes in
    (
      f,
      g,
      done,
      λ content nonempty.
          may_contain-member murmur_hash f content valid nonempty
          ∙ ap ok (
              all_set-none f.bytes f.num_bits _ _ f.hashes 0 none_set
                (omega (arith, same, some_hashes))),
      added,
      all,
    )

-- `add` of a block to a valid filter tells whether `may_contain` would have denied it; afterwards
-- `may_contain` affirms it, and all that it affirmed before.
pub may_contain-add :
    (murmur_hash : List ℕ → ℕ → ℕ) (f : Filter) (content : List ℕ)
    → IsValid f
    → 1 ≤ length content
    → (present : Bool) × (g : Filter) × (may_contain murmur_hash f content ≡ ok present)
      × (add murmur_hash f content ≡ ok (not present, g))
      × (may_contain murmur_hash g content ≡ ok true)
      × ((other : List ℕ)
          → 1 ≤ length other
          → may_contain murmur_hash f other ≡ ok true
          → may_contain murmur_hash g other ≡ ok true)
may_contain-add murmur_hash f content valid h =
    let (g, done, valid', present, keeps) = add_lem murmur_hash f content valid h in
    (
      member murmur_hash f content,
      g,
      may_contain-member murmur_hash f content valid h,
      done,
      may_contain-member murmur_hash g content valid' h ∙ ap ok present,
      λ other nonempty affirmed.
          may_contain-member murmur_hash g other valid' nonempty
          ∙ ap ok (
              keeps other (
                ok-injective
                  (sym (may_contain-member murmur_hash f other valid nonempty) ∙ affirmed))),
    )
