-- ===== src/Hashids/Tests.antt =====
-- Runs of hashids, with the values of hashids/tests/hashids_test.cpp, and a split as `esl` documents
-- it.
use eureka.Common.{
  at, ℕ, ◌+◌, ◌≤◌, ◌<◌, ◌≡◌, refl, ◌⊎◌, inl, inr, List, [], ◌∷◌, ◌++◌, length, count, codes, Result,
  ok, err, undefined, invalid_argument, ◌>>=◌, if◌then◌else◌, arith, Bool-cases,
}
use eureka.Hashids.{
  find, rem, reorder_from, reorder, make_alphabet_salt, hash_digits, hash_number, unhash_from,
  unhash, Hashids, pad, ensure_minimum_length, hash_values, encode_from, pop_back, encode,
  decode_parts, guarded_part, decode_encoded, decode,
}
use eureka.Hashids.Options.{make, has}
use eureka.Hashids.Frames.{Apart}
use eureka.Hashids.Decode.{decode-encode}
use eureka.Hashids.Text.{IsSplit, IsWellFormed}
use eureka.Hashids.Selected.{has_lem}
use eureka.Hashids.WellFormed.{make-undefined, make-IsWellFormed, make-cases, chosen, others}

-- A character before the first part.
abbrev attach : ℕ → List (List ℕ) → List (List ℕ)
attach c [] = (c ∷ []) ∷ []
attach c (part ∷ parts) = (c ∷ part) ∷ parts

abbrev pub split_any : List ℕ → List ℕ → List (List ℕ)
split_any [] chars = [] ∷ []
split_any (c ∷ s) chars =
    let parts = split_any s chars in if has c chars then [] ∷ parts else attach c parts

program : Unit {0}
unfolding find at rem reorder_from reorder make_alphabet_salt hash_digits hash_number unhash_from
    unhash pad ensure_minimum_length hash_values encode_from pop_back encode decode_parts
    guarded_part decode_encoded decode make
program = tt

abbrev encoded_with : ℕ → List ℕ → List ℕ → List ℕ → Result (List ℕ)
encoded_with min_len salt custom values = make min_len salt custom >>= (λ h. encode h values)

salted : encoded_with 0 (codes "Arbitrary string") [] (1 ∷ 2 ∷ 3 ∷ []) ≡ ok (codes "neHrCa")
unfolding program
salted = refl

short_alphabet :
    encoded_with 0 [] (codes "ABcfhistuCFHISTU") (99 ∷ 25 ∷ []) ≡ ok (codes "AAABBBAAHBBAAB")
unfolding program
short_alphabet = refl

minimum_length : encoded_with 25 [] [] (1 ∷ 2 ∷ 3 ∷ []) ≡ ok (codes "gyOwl4B97bo2fXhVaDR0Znjrq")
unfolding program
minimum_length = refl

all_options :
    encoded_with 16
      (codes "arbitrary salt")
      (codes "abcdefghijklmnopqrstuvwxyz")
      (7452 ∷ 2967 ∷ 21401 ∷ [])
    ≡ ok (codes "wygqxeunkatjgkrw")
unfolding program
all_options = refl

-- An alphabet without base separators, and a salt.
no_separators : make 0 (codes "salt") (codes "abdegjklmnopqrvwxyz") ≡ err undefined
unfolding program
no_separators = refl

abbrev decoded_with : ℕ → List ℕ → List ℕ → List ℕ → Result (List ℕ)
decoded_with min_len salt custom hashid =
    make min_len salt custom >>= (λ h. decode split_any h hashid)

decoded : decoded_with 25 [] [] (codes "gyOwl4B97bo2fXhVaDR0Znjrq") ≡ ok (1 ∷ 2 ∷ 3 ∷ [])
unfolding program
decoded = refl

mismatched :
    decoded_with 0 [] (codes "abcdefghijklmnop") (codes "qrstuvwxyz") ≡ err invalid_argument
unfolding program
mismatched = refl

split_any-whole : (s chars : List ℕ) → Apart s chars → split_any s chars ≡ s ∷ []
split_any-whole [] chars apart = refl
split_any-whole (c ∷ s) chars apart = elim (Bool-cases (has c chars)) [
  | inl e ↦ absurd (present c s (apart c ((has_lem c chars).0 e)))
  | inr e ↦ rw (e, split_any-whole s chars (λ q there. omega (arith, apart q there))) refl
]
  where
    present : (c : ℕ) (s : List ℕ) → count c (c ∷ s) ≡ 0 → ⊥
    present c s e = ground arith

split_any-first :
    (s t chars : List ℕ) (c : ℕ)
    → Apart s chars
    → 1 ≤ count c chars
    → split_any (s ++ c ∷ t) chars ≡ s ∷ split_any t chars
split_any-first [] t chars c apart there = elim (Bool-cases (has c chars)) [
  | inl e ↦ rw e refl
  | inr e ↦ absurd (omega (arith, (has_lem c chars).1 e, there))
]
split_any-first (d ∷ s) t chars c apart there = elim (Bool-cases (has d chars)) [
  | inl e ↦ absurd (present d s (apart d ((has_lem d chars).0 e)))
  | inr e ↦ rw (e, split_any-first s t chars c (λ q among. omega (arith, apart q among)) there) refl
]
  where
    present : (d : ℕ) (s : List ℕ) → count d (d ∷ s) ≡ 0 → ⊥
    present d s e = ground arith

pub split_any-IsSplit : IsSplit split_any
split_any-IsSplit = record { whole = split_any-whole; first = split_any-first }

-- Two digits, and a minimum length.
abbrev pub two_digits : Hashids
two_digits = record {
  min_len = 25;
  salt = [];
  alphabet = codes "AB";
  separators = codes "fhistuCFHISTU";
  guards = codes "c";
}

two_digits-made : make 25 [] (codes "ABcfhistuCFHISTU") ≡ ok two_digits
unfolding program
two_digits-made = refl

pub two_digits-IsWellFormed : IsWellFormed two_digits
two_digits-IsWellFormed =
    make-IsWellFormed 25 [] (codes "ABcfhistuCFHISTU") two_digits two_digits-made

decode-encode_example :
    (hashid : List ℕ) × (encode two_digits (99 ∷ 25 ∷ []) ≡ ok hashid)
    × (25 ≤ length hashid)
    × (decode split_any two_digits hashid ≡ ok (99 ∷ 25 ∷ []))
decode-encode_example =
    decode-encode split_any two_digits 99 (25 ∷ []) split_any-IsSplit two_digits-IsWellFormed refl
      (omega arith, (omega arith, tt))

make-cases_example :
    ((make 0 (codes "salt") (codes "abc") ≡ err invalid_argument)
      × (length (chosen (codes "abc")) + length (others (codes "abc")) < 16))
    ⊎ ((16 ≤ length (chosen (codes "abc")) + length (others (codes "abc")))
        × (((make 0 (codes "salt") (codes "abc") ≡ err undefined)
              × (1 ≤ length (codes "salt"))
              × (chosen (codes "abc") ≡ []))
            ⊎ ((h : Hashids) × (make 0 (codes "salt") (codes "abc") ≡ ok h) × IsWellFormed h)))
make-cases_example = make-cases 0 (codes "salt") (codes "abc")

abbrev no_base : List ℕ
no_base = codes "abdegjklmnopqrvwxyz"

no_base-chosen : chosen no_base ≡ []
unfolding find
no_base-chosen = refl

no_base-others : length (others no_base) ≡ 19
unfolding find
no_base-others = refl

make-undefined_example : make 0 (codes "salt") no_base ≡ err undefined
make-undefined_example =
    make-undefined 0 (codes "salt") no_base (omega arith) no_base-chosen
      (omega (arith, no_base-others))
