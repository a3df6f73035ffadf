-- ===== src/Bloom/Tests.antt =====
-- Runs of the bloom filter with a sum for its hash.
use eureka.Common.{
  length, replicate, codes, invalid_argument, length_error, ok, err, ◌>>=◌, ℕ, ◌+◌, ◌*◌, ◌%◌, ◌^◌,
  ◌≤◌, ◌≡◌, refl, Bool, true, false, not, List, [], ◌∷◌, arith,
}
use eureka.Bloom.{
  Filter, calc_capacity, make, test_bit, or_bit, test_set_bit, check_from, check_add_hash, add,
  may_contain,
}
use eureka.Bloom.Bits.{IsValid}
use eureka.Bloom.Members.{add_all, AllMembers}
use eureka.Bloom.Filters.{may_contain-add_all, may_contain-add}

abbrev sum_hash : List ℕ → ℕ → ℕ
sum_hash [] seed = seed % 2 ^ 32
sum_hash (c ∷ content) seed = sum_hash content (seed * 31 + c)

program : Unit {0}
unfolding calc_capacity make test_bit or_bit test_set_bit check_from check_add_hash add may_contain
    add_all
program = tt

abbrev small : Filter
small = record { hashes = 3; num_bits = 16; max_entries = 4; size = 0; bytes = replicate 2 0 }

made : make 3 3 4 ≡ ok small
unfolding program
made = refl

too_large : make 3 53 4 ≡ err length_error
unfolding program
too_large = refl

added :
    (add sum_hash small (codes "Alfa") >>= (λ r. may_contain sum_hash r.1 (codes "Alfa"))) ≡ ok true
unfolding program
added = refl

empty_block : add sum_hash small [] ≡ err invalid_argument
unfolding program
empty_block = refl

small-IsValid : IsValid small
small-IsValid = record { some_bits = omega arith; row = refl }

may_contain-add_all_example :
    (f g : Filter) × (make 3 3 4 ≡ ok f)
    × ((content : List ℕ) → 1 ≤ length content → may_contain sum_hash f content ≡ ok false)
    × (add_all sum_hash f (codes "Alfa" ∷ codes "Bravo" ∷ []) ≡ ok g)
    × AllMembers sum_hash g (codes "Alfa" ∷ codes "Bravo" ∷ [])
may_contain-add_all_example =
    may_contain-add_all sum_hash 3 3 4 (codes "Alfa" ∷ codes "Bravo" ∷ []) (omega arith)
      (omega arith) (omega arith, (omega arith, tt))

may_contain-add_example :
    (present : Bool) × (g : Filter) × (may_contain sum_hash small (codes "Alfa") ≡ ok present)
    × (add sum_hash small (codes "Alfa") ≡ ok (not present, g))
    × (may_contain sum_hash g (codes "Alfa") ≡ ok true)
    × ((other : List ℕ)
        → 1 ≤ length other
        → may_contain sum_hash small other ≡ ok true
        → may_contain sum_hash g other ≡ ok true)
may_contain-add_example = may_contain-add sum_hash small (codes "Alfa") small-IsValid (omega arith)
