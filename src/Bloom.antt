-- ===== src/Bloom.antt =====
-- bloom-filter/bloom-filter/bloom_filter.h and bloom_filter.cpp: a set that forgets which of its bits
-- stands for which entry.
-- `MurmurHash2` is a parameter. The `double`s of the constructor only choose the number of hashes,
-- the exponent of the capacity and the estimate of the entries, which are given here; the data are
-- the bytes of a block, shorter than 2 ^ 31.
pub mod Bits
pub mod Members
pub mod Filters
mod Tests
use eureka.Common.{
  ltb, leb, ◌==◌, if◌then◌else◌, ltb→lt, ltb→ge, lt→ltb, le→leb, leb→le, leb→gt, not_ltb, not_leb,
  ==_iff, ==_refl, ==_ne, Bool-cases, Option-cases, length, get_elem?, get_or, set, take, drop,
  replicate, length-append, length-set, length-take, length-drop, length-replicate, length-reverse,
  take-append-drop, take_all, drop_all, take-append_exact, drop-append_exact, drop-nil, take-nil,
  drop-drop, drop-take, take-take, take-append_le, take-add, one_if, count, count-append, codes,
  get_elem?-lt, get_elem?-set_self, get_elem?-set_ne, length-get_elem?, get_elem?-ge, Fault,
  check_failed, invalid_argument, length_error, bad_alloc, undefined, Result, ok, err, ◌>>=◌, ◌>>◌,
  ok-injective, ensure, bind-ok, bind_chain, bind_follow, at, at-some, at-none, ℕ, zero, suc, ◌+◌,
  ◌-◌, ◌*◌, ◌/◌, ◌%◌, ◌^◌, ◌≤◌, ◌<◌, min, max, ◌≡◌, refl, sym, ap, subst, ◌∙◌, ◌≡⟨◌⟩◌, ◌∎, ◌≢◌, ◌↔◌,
  ◌⊎◌, inl, inr, Bool, true, false, not, ◌&&◌, ◌||◌, Option, none, some, List, [], ◌∷◌, ◌++◌, map,
  reverse, append_assoc, append-nil, arith,
}

pub data AccessMode : Type 0 where
  read write : AccessMode

pub record Filter : Type 0 where
  pub hashes : ℕ
  pub num_bits : ℕ
  pub max_entries : ℕ
  pub size : ℕ
  pub bytes : List ℕ

-- `calc_capacity`, from the exponent that `logb` gives.
unfoldable pub calc_capacity : ℕ → Result ℕ
calc_capacity bit_num =
    let bits = 2 ^ (bit_num + 1) in
    if ltb 52 bit_num then err length_error else ok (if ltb bits 8 then 8 else bits)

-- The constructor, behind its checks of the error rate.
unfoldable pub make : ℕ → ℕ → ℕ → Result Filter
make hashes bit_num max_entries = do
  bits ← calc_capacity bit_num
  ok (record {
    hashes = hashes;
    num_bits = bits;
    max_entries = max_entries;
    size = 0;
    bytes = replicate (bits / 8) 0;
  })

-- `(byte & 1 << k) != 0` and `byte | 1 << k`.
unfoldable pub test_bit : ℕ → ℕ → Bool
test_bit byte zero = byte % 2 == 1
test_bit byte (suc k) = test_bit (byte / 2) k

unfoldable pub or_bit : ℕ → ℕ → ℕ
or_bit byte zero = byte / 2 * 2 + 1
or_bit byte (suc k) = or_bit (byte / 2) k * 2 + byte % 2

abbrev pub mark_byte : AccessMode → Filter → ℕ → ℕ → Filter
mark_byte read f i byte = f
mark_byte write f i byte = record f { bytes = set f.bytes i byte }

unfoldable pub test_set_bit : Filter → ℕ → AccessMode → Result (Bool × Filter)
test_set_bit f bit_index mode = elim (get_elem? f.bytes (bit_index / 8)) [
  | none ↦ err undefined
  | some byte ↦
      if test_bit byte (bit_index % 8)
      then ok (true, f)
      else ok (false, mark_byte mode f (bit_index / 8) (or_bit byte (bit_index % 8)))
]

abbrev pub bit_place : ℕ → ℕ → ℕ → ℕ → ℕ
bit_place num_bits hv_a hv_b i = (hv_a + i * hv_b) % 2 ^ 64 % num_bits

-- The loop of `check_add_hash` and what it returns, with the number of hashes that are left.
unfoldable pub check_from : ℕ → ℕ → AccessMode → ℕ → ℕ → Bool → Filter → Result (Bool × Filter)
check_from hv_a hv_b read zero i unset_found f = ok (true, f)
check_from hv_a hv_b write zero i unset_found f = ok (unset_found, f)
check_from hv_a hv_b read (suc n) i unset_found f = do
  (was_set, g) ← test_set_bit f (bit_place f.num_bits hv_a hv_b i) read
  let further = check_from hv_a hv_b read n (suc i) unset_found g
  if was_set then further else ok (false, g)
check_from hv_a hv_b write (suc n) i unset_found f = do
  (was_set, g) ← test_set_bit f (bit_place f.num_bits hv_a hv_b i) write
  check_from hv_a hv_b write n (suc i) (if was_set then unset_found else true) g

module _ (murmur_hash : List ℕ → ℕ → ℕ) where
  unfoldable pub check_add_hash : Filter → List ℕ → AccessMode → Result (Bool × Filter)
  check_add_hash f content mode =
      let a = murmur_hash content 0x9747b28c in
      let b = murmur_hash content a in
      if f.num_bits == 0 then err undefined else check_from a b mode f.hashes 0 false f

  unfoldable pub add : Filter → List ℕ → Result (Bool × Filter)
  add f [] = err invalid_argument
  add f (c ∷ content) = do
    (added, g) ← check_add_hash f (c ∷ content) write
    ok (added, if added then record g { size = (g.size + 1) % 2 ^ 64 } else g)

  unfoldable pub may_contain : Filter → List ℕ → Result Bool
  may_contain f [] = err invalid_argument
  may_contain f (c ∷ content) = do (present, g) ← check_add_hash f (c ∷ content) read; ok present
