-- ===== src/Bloom/Bits.antt =====
-- The bits of bloom-filter/bloom-filter/bloom_filter.cpp, and what the two loops of `check_add_hash`
-- do with them.
use native.Mathlib.Decide.{ℕ_discrete}
use eureka.Common.{
  ℕ, zero, suc, ◌+◌, ◌*◌, ◌/◌, ◌%◌, ◌≤◌, ◌<◌, ◌≡◌, ◌≢◌, refl, sym, ap, ◌∙◌, Bool, true, false, List,
  length, get_elem?, get_elem?-lt, get_elem?-set_self, get_elem?-set_ne, set, length-set, Option,
  none, some, ok, ◌==◌, arith, Bool-cases, inl, inr,
}
use eureka.Bloom.{read, write, Filter, test_bit, or_bit, test_set_bit}

half : (x byte : ℕ) → (x * 2 + byte % 2) / 2 ≡ x
half x byte = omega arith

test_bit-or_bit_self : (byte k : ℕ) → test_bit (or_bit byte k) k ≡ true
unfolding test_bit or_bit
test_bit-or_bit_self byte zero = ground arith
test_bit-or_bit_self byte (suc k) =
    ap (λ b. test_bit b k) (half (or_bit (byte / 2) k) byte) ∙ test_bit-or_bit_self (byte / 2) k

test_bit-or_bit_ne : (byte k j : ℕ) → k ≢ j → test_bit (or_bit byte k) j ≡ test_bit byte j
unfolding test_bit or_bit
test_bit-or_bit_ne byte zero zero h = absurd (h refl)
test_bit-or_bit_ne byte zero (suc j) h = ap (λ b. test_bit b j) (omega arith)
test_bit-or_bit_ne byte (suc k) zero h = ap (λ b. b == 1) (omega arith)
test_bit-or_bit_ne byte (suc k) (suc j) h =
    ap (λ b. test_bit b j) (half (or_bit (byte / 2) k) byte)
    ∙ test_bit-or_bit_ne (byte / 2) k j (λ e. h (ap suc e))

-- The bits as one row.
abbrev pub bit_in : Option ℕ → ℕ → Bool
bit_in none k = false
bit_in (some byte) k = test_bit byte k

abbrev pub bit : List ℕ → ℕ → Bool
bit bytes i = bit_in (get_elem? bytes (i / 8)) (i % 8)

abbrev pub Grows : List ℕ → List ℕ → Type 0
Grows before after = (j : ℕ) → bit before j ≡ true → bit after j ≡ true

module _ (bytes : List ℕ) (i byte : ℕ) (there : get_elem? bytes (i / 8) ≡ some byte)
    (within : i / 8 < length bytes) where
  abbrev marked : List ℕ
  marked = set bytes (i / 8) (or_bit byte (i % 8))

  bit-marked_self : bit marked i ≡ true
  bit-marked_self =
      ap (λ o. bit_in o (i % 8)) (get_elem?-set_self bytes (i / 8) (or_bit byte (i % 8)) within)
      ∙ test_bit-or_bit_self byte (i % 8)

  bit-marked_ne : (j : ℕ) → i ≢ j → bit marked j ≡ bit bytes j
  bit-marked_ne j h = elim (ℕ_discrete (i / 8) (j / 8)) [
    | no ne ↦
        ap (λ o. bit_in o (j % 8)) (get_elem?-set_ne bytes (i / 8) (j / 8) (or_bit byte (i % 8)) ne)
    | yes e ↦
        let other : i % 8 ≢ j % 8 = λ f. h (omega (arith, e, f)) in
        let new =
          ap (get_elem? marked) (sym e)
          ∙ get_elem?-set_self bytes (i / 8) (or_bit byte (i % 8)) within in
        let old = ap (get_elem? bytes) (sym e) ∙ there in
        ap (λ o. bit_in o (j % 8)) new
        ∙ test_bit-or_bit_ne byte (i % 8) (j % 8) other
        ∙ ap (λ o. bit_in o (j % 8)) (sym old)
  ]

  marked-Grows : Grows bytes marked
  marked-Grows j e = elim (ℕ_discrete i j) [
    | yes same ↦ ap (bit marked) (sym same) ∙ bit-marked_self
    | no ne ↦ bit-marked_ne j ne ∙ e
  ]

-- The row has as many bits as the filter says.
pub record IsValid (f : Filter) : Type 0 where
  pub some_bits : 8 ≤ f.num_bits
  pub row : length f.bytes * 8 ≡ f.num_bits

abbrev pub with_bytes : Filter → List ℕ → Filter
with_bytes f bytes = record f { bytes = bytes }

module _ (f : Filter) (valid : IsValid f) (i : ℕ) (h : i < f.num_bits) where
  inside : i / 8 < length f.bytes
  inside = omega (arith, h, valid.row)

  pub test_set_bit-read : test_set_bit f i read ≡ ok (bit f.bytes i, f)
  unfolding test_set_bit
  test_set_bit-read =
      let (byte, there) = get_elem?-lt f.bytes (i / 8) inside in
      elim (Bool-cases (test_bit byte (i % 8))) [
        | inl e ↦ rw (there, e, test_set_bit) refl
        | inr e ↦ rw (there, e, test_set_bit) refl
      ]

  -- Behind a write the bit is set, and no bit is lost.
  pub test_set_bit-write :
      (bytes : List ℕ) × (test_set_bit f i write ≡ ok (bit f.bytes i, with_bytes f bytes))
      × (length bytes ≡ length f.bytes)
      × Grows f.bytes bytes
      × (bit bytes i ≡ true)
      × (bit f.bytes i ≡ true → bytes ≡ f.bytes)
  unfolding test_set_bit
  test_set_bit-write =
      let (byte, there) = get_elem?-lt f.bytes (i / 8) inside in
      elim (Bool-cases (test_bit byte (i % 8))) [
        | inl e ↦ (
          f.bytes,
          rw (there, e, test_set_bit) refl,
          refl,
          λ j set_before. set_before,
          rw (there, e) refl,
          λ set_before. refl,
        )
        | inr e ↦ (
          marked f.bytes i byte there inside,
          rw (there, e, test_set_bit) refl,
          length-set f.bytes (i / 8) (or_bit byte (i % 8)),
          marked-Grows f.bytes i byte there inside,
          bit-marked_self f.bytes i byte there inside,
          λ set_before. absurd (was_unset byte there e set_before),
        )
      ]
    where
      was_unset :
          (byte : ℕ)
          → get_elem? f.bytes (i / 8) ≡ some byte
          → test_bit byte (i % 8) ≡ false
          → bit f.bytes i ≡ true
          → ⊥
      was_unset byte there e set_before =
          cc (sym e ∙ sym (ap (λ o. bit_in o (i % 8)) there) ∙ set_before)
