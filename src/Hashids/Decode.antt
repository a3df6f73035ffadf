-- ===== src/Hashids/Decode.antt =====
-- `encode` and `decode` of hashids/hashids/hashids.cpp: a round trip.
use native.Mathlib.Nat.{mod-lt}
use native.Mathlib.Decide.{dec_le}
use eureka.Common.{
  ℕ, ◌%◌, ◌^◌, ◌≤◌, ◌<◌, ◌≡◌, refl, List, [], ◌∷◌, ◌++◌, append_assoc, length, get_or, count,
  Result, ok, arith, lt→ltb, not_ltb, inl, inr,
}
use eureka.Hashids.{Hashids, hash_values, pop_back, encode, guarded_part, decode_encoded, decode}
use eureka.Hashids.Numbers.{at-get_or, rem_lem, count-get_or}
use eureka.Hashids.Frames.{Apart, Apart-append, Frames}
use eureka.Hashids.Padding.{Guarded, ensure_minimum_length_lem}
use eureka.Hashids.Text.{
  IsWellFormed, IsSplit, AllBelow, pop_back-append, count-pop_back, length-pop_back, eq_string_refl,
  Apart-one, encode_from-Reads,
}

module _ (split : List ℕ → List ℕ → List (List ℕ)) (is_split : IsSplit split) (h : Hashids)
    (wf : IsWellFormed h) (no_zero : count 0 h.alphabet ≡ 0) where
  -- What `decode` does with a string of one part between its guards.
  decodes :
      (hashid encoded values : List ℕ)
      → 1 ≤ length hashid
      → guarded_part (split hashid h.guards) ≡ ok encoded
      → decode_encoded split h encoded ≡ ok values
      → encode h values ≡ ok hashid
      → decode split h hashid ≡ ok values
  unfolding decode
  decodes [] encoded values nonempty part nums again = absurd (omega arith)
  decodes (c ∷ hashid) encoded values nonempty part nums again =
      rw (part, nums, again, eq_string_refl (c ∷ hashid)) refl

  -- The part between the guards is the encoded string.
  guarded_part-whole : (s : List ℕ) → Apart s h.guards → guarded_part (split s h.guards) ≡ ok s
  unfolding guarded_part
  guarded_part-whole s clean = rw (is_split.whole s h.guards clean) refl

  guarded_part-head :
      (s : List ℕ) (g : ℕ)
      → Apart s h.guards
      → 1 ≤ count g h.guards
      → guarded_part (split (g ∷ s) h.guards) ≡ ok s
  unfolding guarded_part
  guarded_part-head s g clean there =
      rw (is_split.first [] s h.guards g (λ q among. refl) there, is_split.whole s h.guards clean)
        refl

  guarded_part-Frames :
      (s hashid : List ℕ) (g g' : ℕ)
      → Apart s h.guards
      → 1 ≤ count g h.guards
      → 1 ≤ count g' h.guards
      → Frames h.guards (g ∷ s ++ g' ∷ []) hashid
      → guarded_part (split hashid h.guards) ≡ ok s
  unfolding guarded_part
  guarded_part-Frames s hashid g g' clean there there' (before, after, same, b, a) =
      rw
        (
          same,
          append_assoc s (g' ∷ []) after,
          is_split.first before (s ++ g' ∷ after) h.guards g b there,
          is_split.first s after h.guards g' clean there',
          is_split.whole after h.guards a,
        )
        refl

  guarded_part-Guarded :
      (s : List ℕ) (min_len : ℕ) (result : Result (List ℕ))
      → Apart s h.guards
      → (guarded : Guarded h.guards s min_len result)
      → guarded_part (split guarded.0 h.guards) ≡ ok s
  guarded_part-Guarded s min_len result clean (hashid, done, size, (g, there, inl same)) =
      rw same (guarded_part-head s g clean there)
  guarded_part-Guarded s min_len result clean
        (hashid, done, size, (g, there, inr (g', there', framed))) =
      guarded_part-Frames s hashid g g' clean there there' framed

  -- What `encode` returns for some values.
  abbrev RoundTrip : List ℕ → Type 0
  RoundTrip values =
      (hashid : List ℕ) × (encode h values ≡ ok hashid)
      × (h.min_len ≤ length hashid)
      × (decode split h hashid ≡ ok values)

  encode-RoundTrip :
      (v : ℕ) (values : List ℕ) → AllBelow (2 ^ 64) (v ∷ values) → RoundTrip (v ∷ values)
  unfolding encode decode_encoded
  encode-RoundTrip v values bounds =
      let n = length h.alphabet in
      let value_hash = hash_values 0 (v ∷ values) in
      let below : value_hash % n < n = mod-lt value_hash (omega (arith, wf.several)) in
      let lottery = get_or h.alphabet (value_hash % n) 0 in
      let place = rem_lem value_hash n (omega (arith, wf.several)) in
      let got = at-get_or h.alphabet (value_hash % n) below in
      let (text, last, done, p, two, clean, reads) =
        encode_from-Reads split is_split h wf no_zero lottery 0 v h.alphabet values
          (refl, λ q. refl) bounds in
      let body = pop_back text in
      let encoded = lottery ∷ body in
      let popped : pop_back (lottery ∷ text) ≡ encoded =
        pop_back-append (lottery ∷ []) text (omega (arith, two)) in
      let long : 2 ≤ length encoded =
        omega (arith, two, length-pop_back text (omega (arith, two))) in
      let apart : Apart encoded h.guards =
        Apart-append (lottery ∷ []) body h.guards
          (Apart-one split is_split h wf no_zero lottery h.alphabet h.guards
            (count-get_or h.alphabet (value_hash % n) below) (λ q. omega (arith, wf.distinct q)))
          (λ q among. omega (arith, clean q among, count-pop_back q text)) in
      elim (dec_le h.min_len (length encoded)) [
        | yes k ↦
            let again : encode h (v ∷ values) ≡ ok encoded =
              rw (place, got, done, popped, not_ltb (length encoded) h.min_len k) refl in
            (
              encoded,
              again,
              k,
              decodes encoded encoded (v ∷ values) (omega (arith, long))
                  (guarded_part-whole encoded apart) reads again,
            )
        | no k ↦
            let short : length encoded < h.min_len = omega arith in
            let guarded =
              ensure_minimum_length_lem value_hash h.min_len last h.guards encoded
                (omega (arith, p.0, wf.several)) wf.guarded
                (λ q among. omega (arith, p.1 q, wf.distinct q, among)) long short in
            let again : encode h (v ∷ values) ≡ ok guarded.0 =
              rw (place, got, done, popped, lt→ltb (length encoded) h.min_len short) guarded.1 in
            (
              guarded.0,
              again,
              omega (arith, guarded.2),
              decodes guarded.0 encoded (v ∷ values) (omega (arith, guarded.2, long, short))
                  (guarded_part-Guarded encoded h.min_len _ apart guarded) reads again,
            )
      ]

-- With strings as the constructor makes them, without a zero byte in the alphabet, and a split as
-- documented: some numbers below 2 ^ 64 are encoded, in at least the minimum length, and the result
-- is decoded to them.
pub decode-encode :
    (split : List ℕ → List ℕ → List (List ℕ)) (h : Hashids) (v : ℕ) (values : List ℕ)
    → IsSplit split
    → IsWellFormed h
    → count 0 h.alphabet ≡ 0
    → AllBelow (2 ^ 64) (v ∷ values)
    → (hashid : List ℕ) × (encode h (v ∷ values) ≡ ok hashid)
      × (h.min_len ≤ length hashid)
      × (decode split h hashid ≡ ok (v ∷ values))
decode-encode split h v values is_split wf no_zero =
    encode-RoundTrip split is_split h wf no_zero v values
