-- ===== src/Hashids/HexRoundTrip.antt =====
-- hashids/hashids/hashids.cpp, `encode_hex` and `decode_hex`: the digits come back in lower case.
use eureka.Common.{
  Bool-cases, length, count, invalid_argument, ok, err, ◌>>=◌, ℕ, ◌≤◌, ◌≡◌, refl, sym, ap, ◌∙◌, ◌⊎◌,
  inl, inr, true, false, List, [], ◌∷◌, arith,
}
use eureka.Hashids.{Hashids, encode, decode}
use eureka.Hashids.Text.{IsWellFormed, IsSplit}
use eureka.Hashids.Decode.{decode-encode}
use eureka.Hashids.Hex.{hex_nums, encode_hex, hex_of, decode_hex}
use eureka.Hashids.HexGroups.{
  is_hex, lower_case, IsHexFormat, concat, NoneLonger, IsChunks, digits_of, digits-below,
  digit_chars-digits, group_num, group_nums, hex_nums-groups, hex_nums-invalid, group_nums-below,
  lower_case-append,
}

module _ (split : List ℕ → List ℕ → List (List ℕ)) (by_length : List ℕ → List (List ℕ))
    (format_hex : ℕ → List ℕ) (is_split : IsSplit split) (chunks : IsChunks by_length)
    (formats : IsHexFormat format_hex) where
  hex_of-groups :
      (parts : List (List ℕ))
      → hex_of split by_length format_hex (group_nums parts) ≡ lower_case (concat parts)
  unfolding hex_of IsHexFormat
  hex_of-groups [] = refl
  hex_of-groups (part ∷ parts) =
      let printed = formats 1 (digits_of part) (omega arith) (omega arith, digits-below part) in
      rw (printed, digit_chars-digits part, hex_of-groups parts)
        (sym (lower_case-append part (concat parts)))

  decode_hex-nums :
      (h : Hashids) (hashid : List ℕ) (v : ℕ) (nums : List ℕ)
      → decode split h hashid ≡ ok (v ∷ nums)
      → decode_hex split by_length format_hex h hashid
        ≡ ok (hex_of split by_length format_hex (v ∷ nums))
  unfolding decode_hex decode
  decode_hex-nums h [] v nums e = absurd (cc e)
  decode_hex-nums h (c ∷ hashid) v nums e =
      ap (λ r. r >>= λ ns. ok (hex_of split by_length format_hex ns)) e

  encoded_groups :
      (h : Hashids) (parts : List (List ℕ))
      → IsWellFormed h
      → count 0 h.alphabet ≡ 0
      → NoneLonger 12 parts
      → is_hex (concat parts) ≡ true
      → 1 ≤ length (concat parts)
      → (hashid : List ℕ) × ((hex_nums parts >>= encode h) ≡ ok hashid)
        × (h.min_len ≤ length hashid)
        × (decode_hex split by_length format_hex h hashid ≡ ok (lower_case (concat parts)))
  encoded_groups h [] wf no_zero short digits some_text = absurd (omega arith)
  encoded_groups h (part ∷ parts) wf no_zero short digits some_text =
      let below = group_nums-below (part ∷ parts) short in
      let (hashid, e, long, d) =
        decode-encode split h (group_num part) (group_nums parts) is_split wf no_zero below in
      (
        hashid,
        ap (λ r. r >>= encode h) (hex_nums-groups (part ∷ parts) digits) ∙ e,
        long,
        decode_hex-nums h hashid (group_num part) (group_nums parts) d
            ∙ ap ok (hex_of-groups (part ∷ parts)),
      )

-- A text that is not empty: with a character that is no hexadecimal digit encode_hex throws;
-- otherwise it is encoded, in at least the minimum length, and decode_hex gives it back in lower
-- case.
pub encode_hex-outcome :
    (split : List ℕ → List ℕ → List (List ℕ)) (by_length : List ℕ → List (List ℕ))
    (format_hex : ℕ → List ℕ) (h : Hashids) (c : ℕ) (hex : List ℕ)
    → IsSplit split
    → IsChunks by_length
    → IsHexFormat format_hex
    → IsWellFormed h
    → count 0 h.alphabet ≡ 0
    → ((is_hex (c ∷ hex) ≡ false)
        × (encode_hex split by_length format_hex h (c ∷ hex) ≡ err invalid_argument))
      ⊎ ((is_hex (c ∷ hex) ≡ true)
          × ((hashid : List ℕ) × (encode_hex split by_length format_hex h (c ∷ hex) ≡ ok hashid)
              × (h.min_len ≤ length hashid)
              × (decode_hex split by_length format_hex h hashid ≡ ok (lower_case (c ∷ hex)))))
unfolding encode_hex IsChunks
encode_hex-outcome split by_length format_hex h c hex is_split chunks formats wf no_zero =
    let parts = by_length (c ∷ hex) in
    let (whole, short) = chunks (c ∷ hex) in
    elim (Bool-cases (is_hex (c ∷ hex))) [
      | inl e ↦
          let digits : is_hex (concat parts) ≡ true = ap is_hex whole ∙ e in
          let (hashid, made, long, back) =
            encoded_groups split by_length format_hex is_split chunks formats h parts wf no_zero
              short digits (omega (arith, ap length whole)) in
          inr (e, (hashid, made, long, back ∙ ap (λ s. ok (lower_case s)) whole))
      | inr e ↦
          let bad : is_hex (concat parts) ≡ false = ap is_hex whole ∙ e in
          inl (e, ap (λ r. r >>= encode h) (hex_nums-invalid parts bad))
    ]
