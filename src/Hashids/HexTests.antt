-- ===== src/Hashids/HexTests.antt =====
-- Runs of encode_hex and decode_hex, with a split and a format as documented.
use eureka.Hashids.{
  rem, reorder_from, reorder, make_alphabet_salt, hash_digits, hash_number, find, unhash_from,
  unhash, Hashids, pad, ensure_minimum_length, hash_values, encode_from, pop_back, encode,
  decode_parts, guarded_part, decode_encoded, decode,
}
use eureka.Hashids.Options.{make}
use eureka.Hashids.Hex.{hex_digit, stoull_from, hex_nums, encode_hex, hex_of, decode_hex}
use eureka.Hashids.HexRoundTrip.{encode_hex-outcome}
use eureka.Hashids.Tests.{split_any, split_any-IsSplit, two_digits, two_digits-IsWellFormed}
use eureka.Common.{
  ltb, lt→ltb, not_ltb, length, take, drop, length-take, length-drop, take-append-drop, codes,
  invalid_argument, Result, ok, err, ◌>>=◌, at, ℕ, zero, suc, ◌+◌, ◌-◌, ◌*◌, ◌/◌, ◌%◌, ◌≤◌, ◌<◌,
  ◌≡◌, refl, ap, ◌∙◌, ◌⊎◌, true, false, List, [], ◌∷◌, ◌++◌, append-nil, arith,
}
use eureka.Hashids.Text.{AllBelow}
use eureka.Hashids.HexGroups.{
  is_hex, digit_char, lower_case, of_digits, digit_chars, IsHexFormat, concat, NoneLonger, IsChunks,
}

abbrev chunks : ℕ → List ℕ → List (List ℕ)
chunks fuel [] = []
chunks zero (c ∷ s) = []
chunks (suc fuel) (c ∷ s) = take 12 (c ∷ s) ∷ chunks fuel (drop 12 (c ∷ s))

abbrev split_by_12 : List ℕ → List (List ℕ)
split_by_12 s = chunks (length s) s

chunks_whole :
    (fuel : ℕ) (s : List ℕ)
    → length s ≤ fuel
    → (concat (chunks fuel s) ≡ s) × NoneLonger 12 (chunks fuel s)
chunks_whole fuel [] h = (refl, tt)
chunks_whole zero (c ∷ s) h = absurd (omega arith)
chunks_whole (suc fuel) (c ∷ s) h =
    let (p, q) = chunks_whole fuel (drop 12 (c ∷ s)) (omega (arith, length-drop 12 (c ∷ s))) in
    (
      ap (λ t. take 12 (c ∷ s) ++ t) p ∙ take-append-drop 12 (c ∷ s),
      (omega (arith, length-take 12 (c ∷ s)), q),
    )

split_by_12-IsChunks : IsChunks split_by_12
unfolding IsChunks
split_by_12-IsChunks s = chunks_whole (length s) s (omega arith)

-- The digits of a number in front of what is behind them.
print : ℕ → ℕ → List ℕ → List ℕ
print zero n behind = behind
print (suc fuel) n behind = elim (ltb n 16) [
  | true ↦ digit_char n ∷ behind
  | false ↦ print fuel (n / 16) (digit_char (n % 16) ∷ behind)
]

format_hex : ℕ → List ℕ
format_hex n = print (suc n) n []

print_step :
    (fuel n : ℕ) (behind : List ℕ)
    → 16 ≤ n
    → print (suc fuel) n behind ≡ print fuel (n / 16) (digit_char (n % 16) ∷ behind)
unfolding print
print_step fuel n behind h = rw (not_ltb n 16 h, print) refl

print_last :
    (fuel n : ℕ) (behind : List ℕ) → n < 16 → print (suc fuel) n behind ≡ digit_char n ∷ behind
unfolding print
print_last fuel n behind h = rw (lt→ltb n 16 h, print) refl

print-of_digits :
    (ds : List ℕ) (num fuel : ℕ) (behind : List ℕ)
    → 0 < num
    → AllBelow 16 ds
    → of_digits num ds < fuel
    → (left : ℕ) × (num < left)
      × (print fuel (of_digits num ds) behind ≡ print left num (digit_chars ds ++ behind))
print-of_digits [] num fuel behind pos a lt = (fuel, lt, refl)
print-of_digits (d ∷ ds) num fuel behind pos (p, a) lt =
    let (left, enough, e) = print-of_digits ds (num * 16 + d) fuel behind (omega arith) a lt in
    let f = left - 1 in
    let more : left ≡ suc f = omega arith in
    let Rest = digit_chars ds ++ behind in
    let up : (num * 16 + d) / 16 ≡ num = omega arith in
    let low : (num * 16 + d) % 16 ≡ d = omega arith in
    let step : print (suc f) (num * 16 + d) Rest ≡ print f num (digit_char d ∷ Rest) =
      print_step f (num * 16 + d) Rest (omega arith)
      ∙ ap (λ n. print f n (digit_char ((num * 16 + d) % 16) ∷ Rest)) up
      ∙ ap (λ x. print f num (digit_char x ∷ Rest)) low in
    (f, omega arith, e ∙ ap (λ l. print l (num * 16 + d) Rest) more ∙ step)

format_hex-IsHexFormat : IsHexFormat format_hex
unfolding IsHexFormat format_hex print
format_hex-IsHexFormat d ds pos (p, a) =
    let (left, enough, e) = print-of_digits ds d (suc (of_digits d ds)) [] pos a (omega arith) in
    let f = left - 1 in
    let more : left ≡ suc f = omega arith in
    e
    ∙ ap (λ l. print l d (digit_chars ds ++ [])) more
    ∙ print_last f d (digit_chars ds ++ []) p
    ∙ ap (λ t. digit_char d ∷ t) (append-nil (digit_chars ds))

program : Unit {0}
unfolding at find rem reorder_from reorder make_alphabet_salt hash_digits hash_number unhash_from
    unhash pad ensure_minimum_length hash_values encode_from pop_back encode decode_parts
    guarded_part decode_encoded decode make hex_digit stoull_from hex_nums encode_hex hex_of
    decode_hex print format_hex
program = tt

abbrev plain : Result Hashids
plain = make 0 [] []

encoded_hex :
    (plain >>= λ h.
    encode_hex split_any split_by_12 format_hex h (codes "507f1f77bcf86cd799439011"))
    ≡ ok (codes "y42LW46J9luq3Xq9XMly")
unfolding program
encoded_hex = refl

not_hex :
    (plain >>= λ h. encode_hex split_any split_by_12 format_hex h (codes "12SG"))
    ≡ err invalid_argument
unfolding program
not_hex = refl

encode_hex-outcome_example :
    ((is_hex (codes "12aF") ≡ false)
      × (encode_hex split_any split_by_12 format_hex two_digits (codes "12aF")
          ≡ err invalid_argument))
    ⊎ ((is_hex (codes "12aF") ≡ true)
        × ((hashid : List ℕ) × (encode_hex split_any split_by_12 format_hex two_digits
                (codes "12aF")
              ≡ ok hashid)
            × (25 ≤ length hashid)
            × (decode_hex split_any split_by_12 format_hex two_digits hashid
                ≡ ok (lower_case (codes "12aF")))))
encode_hex-outcome_example =
    encode_hex-outcome split_any split_by_12 format_hex two_digits 49 (codes "2aF")
      split_any-IsSplit split_by_12-IsChunks format_hex-IsHexFormat two_digits-IsWellFormed refl
