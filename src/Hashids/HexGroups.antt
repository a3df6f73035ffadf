-- ===== src/Hashids/HexGroups.antt =====
-- hashids/hashids/hashids.cpp, the loop of `encode_hex`: the numbers that stand for groups of digits.
use eureka.Common.{
  ltb, ◌==◌, if◌then◌else◌, ==_iff, ==_ne, Bool-cases, Option-cases, length, invalid_argument,
  Result, ok, err, ◌>>=◌, ◌>>◌, ensure, ℕ, zero, suc, ◌+◌, ◌*◌, ◌^◌, ◌≤◌, ◌<◌, ◌≡◌, refl, sym, ap,
  ◌∙◌, inl, inr, Bool, true, false, ◌&&◌, Option, none, some, List, [], ◌∷◌, ◌++◌, arith,
}
use native.Mathlib.Nat.{mul-le-mul_left, mul-le-mul_right}
use eureka.Hashids.Text.{AllBelow}
use eureka.Hashids.Hex.{hex_digit, stoull_from, hex_nums}

-- All characters are hexadecimal digits.
abbrev some_digit : Option ℕ → Bool
some_digit none = false
some_digit (some d) = true

abbrev or_zero : Option ℕ → ℕ
or_zero none = 0
or_zero (some d) = d

unfoldable pub is_hex : List ℕ → Bool
is_hex [] = true
is_hex (c ∷ s) = some_digit (hex_digit c) && is_hex s

abbrev pub digit_of : ℕ → ℕ
digit_of c = or_zero (hex_digit c)

abbrev pub digit_char : ℕ → ℕ
digit_char d = if ltb d 10 then 48 + d else 87 + d

-- The digits in lower case.
abbrev pub lower_case : List ℕ → List ℕ
lower_case [] = []
lower_case (c ∷ s) = digit_char (digit_of c) ∷ lower_case s

abbrev pub of_digits : ℕ → List ℕ → ℕ
of_digits num [] = num
of_digits num (d ∷ ds) = of_digits (num * 16 + d) ds

abbrev pub digit_chars : List ℕ → List ℕ
digit_chars [] = []
digit_chars (d ∷ ds) = digit_char d ∷ digit_chars ds

-- The format `{:x}`: the digits in lower case, without a zero in front.
unfoldable pub IsHexFormat : (ℕ → List ℕ) → Type 0
IsHexFormat format_hex =
    (d : ℕ) (ds : List ℕ)
    → 0 < d
    → AllBelow 16 (d ∷ ds)
    → format_hex (of_digits d ds) ≡ digit_chars (d ∷ ds)

-- The split by a length of 12: the parts together are the string, and none is longer.
abbrev pub concat : List (List ℕ) → List ℕ
concat [] = []
concat (part ∷ parts) = part ++ concat parts

abbrev pub NoneLonger : ℕ → List (List ℕ) → Type 0
NoneLonger n [] = Unit {0}
NoneLonger n (part ∷ parts) = (length part ≤ n) × NoneLonger n parts

unfoldable pub IsChunks : (List ℕ → List (List ℕ)) → Type 0
IsChunks by_length = (s : List ℕ) → (concat (by_length s) ≡ s) × NoneLonger 12 (by_length s)

abbrev pub digits_of : List ℕ → List ℕ
digits_of [] = []
digits_of (c ∷ s) = digit_of c ∷ digits_of s

digit-below : (c : ℕ) → digit_of c < 16
unfolding hex_digit
digit-below c = ground arith

pub digits-below : (s : List ℕ) → AllBelow 16 (digits_of s)
digits-below [] = tt
digits-below (c ∷ s) = (digit-below c, digits-below s)

length-digits : (s : List ℕ) → length (digits_of s) ≡ length s
length-digits [] = refl
length-digits (c ∷ s) = ap suc (length-digits s)

pub digit_chars-digits : (s : List ℕ) → digit_chars (digits_of s) ≡ lower_case s
digit_chars-digits [] = refl
digit_chars-digits (c ∷ s) = ap (λ t. digit_char (digit_of c) ∷ t) (digit_chars-digits s)

stoull_from-hex :
    (s : List ℕ) (num cvt_len : ℕ)
    → is_hex s ≡ true
    → ((stoull_from num cvt_len s).0 ≡ of_digits num (digits_of s))
      × ((stoull_from num cvt_len s).1 ≡ cvt_len + length s)
unfolding stoull_from is_hex
stoull_from-hex [] num cvt_len h = (refl, omega arith)
stoull_from-hex (c ∷ s) num cvt_len h = elim (Option-cases (hex_digit c)) [
  | inl e ↦ absurd (cc (rw e at h))
  | inr (d, e) ↦
      let rest : is_hex s ≡ true = rw (e, is_hex) at h in
      let (p, q) = stoull_from-hex s (num * 16 + d) (suc cvt_len) rest in
      rw (e, stoull_from) (p, omega arith)
]

stoull_from-le : (s : List ℕ) (num cvt_len : ℕ) → (stoull_from num cvt_len s).1 ≤ cvt_len + length s
unfolding stoull_from
stoull_from-le [] num cvt_len = omega arith
stoull_from-le (c ∷ s) num cvt_len = elim (Option-cases (hex_digit c)) [
  | inl e ↦ rw (e, stoull_from) (omega arith)
  | inr (d, e) ↦ rw (e, stoull_from) (omega (arith, stoull_from-le s (num * 16 + d) (suc cvt_len)))
]

stoull_from-stops :
    (s : List ℕ) (num cvt_len : ℕ)
    → is_hex s ≡ false
    → (stoull_from num cvt_len s).1 < cvt_len + length s
unfolding stoull_from is_hex
stoull_from-stops [] num cvt_len h = absurd (cc h)
stoull_from-stops (c ∷ s) num cvt_len h = elim (Option-cases (hex_digit c)) [
  | inl e ↦ rw (e, stoull_from) (omega arith)
  | inr (d, e) ↦
      let rest : is_hex s ≡ false = rw (e, is_hex) at h in
      rw (e, stoull_from) (omega (arith, stoull_from-stops s (num * 16 + d) (suc cvt_len) rest))
]

-- A number of at most 13 digits, of which the first is 1, fits.
abbrev power_of_16 : ℕ → ℕ
power_of_16 zero = 1
power_of_16 (suc k) = power_of_16 k * 16

one-le-power : (k : ℕ) → 1 ≤ power_of_16 k
one-le-power zero = omega arith
one-le-power (suc k) = omega (arith, one-le-power k)

of_digits-below :
    (k : ℕ) (ds : List ℕ) (num : ℕ)
    → length ds ≤ k
    → AllBelow 16 ds
    → of_digits num ds < (num + 1) * power_of_16 k
of_digits-below k [] num h a =
    omega (arith, mul-le-mul_left {m = 1} {n = power_of_16 k} (num + 1) (one-le-power k))
of_digits-below zero (d ∷ ds) num h a = absurd (omega arith)
of_digits-below (suc k) (d ∷ ds) num h (p, a) =
    let rest = of_digits-below k ds (num * 16 + d) (omega arith) a in
    let room : num * 16 + d + 1 ≤ (num + 1) * 16 = omega arith in
    let regroup : (num + 1) * 16 * power_of_16 k ≡ (num + 1) * (power_of_16 k * 16) = grind arith in
    omega (arith, rest, mul-le-mul_right (power_of_16 k) room, regroup)

-- The number that stands for a group.
abbrev pub group_num : List ℕ → ℕ
group_num part = of_digits 1 (digits_of part)

abbrev pub group_nums : List (List ℕ) → List ℕ
group_nums [] = []
group_nums (part ∷ parts) = group_num part ∷ group_nums parts

is_hex-append : (s t : List ℕ) → is_hex (s ++ t) ≡ (is_hex s && is_hex t)
unfolding is_hex
is_hex-append [] t = refl
is_hex-append (c ∷ s) t = elim (Option-cases (hex_digit c)) [
  | inl e ↦ rw (e, is_hex) refl
  | inr (d, e) ↦ rw (e, is_hex) (is_hex-append s t)
]

stoull_from-one : (part : List ℕ) → stoull_from 0 0 (49 ∷ part) ≡ stoull_from 1 1 part
unfolding stoull_from hex_digit
stoull_from-one part = refl

-- One round of the loop.
abbrev round : List (List ℕ) → Bool → ℕ → Result (List ℕ)
round parts whole num =
    ensure whole invalid_argument >> (hex_nums parts >>= λ nums. ok (num ∷ nums))

hex_nums-round :
    (part : List ℕ) (parts : List (List ℕ))
    → hex_nums (part ∷ parts)
      ≡ round parts ((stoull_from 1 1 part).1 == suc (length part)) ((stoull_from 1 1 part).0)
unfolding hex_nums
hex_nums-round part parts =
    ap (λ r. round parts (r.1 == suc (length part)) (r.0)) (stoull_from-one part)

hex_nums-whole :
    (part : List ℕ) (parts : List (List ℕ))
    → is_hex part ≡ true
    → hex_nums (part ∷ parts) ≡ (hex_nums parts >>= λ nums. ok (group_num part ∷ nums))
hex_nums-whole part parts h =
    let (p, q) = stoull_from-hex part 1 1 h in
    let same : (stoull_from 1 1 part).1 ≡ suc (length part) = omega arith in
    hex_nums-round part parts
    ∙ ap (λ b. round parts b ((stoull_from 1 1 part).0)) ((==_iff _ _).1 same)
    ∙ ap (round parts true) p

pub hex_nums-groups :
    (parts : List (List ℕ)) → is_hex (concat parts) ≡ true → hex_nums parts ≡ ok (group_nums parts)
unfolding hex_nums
hex_nums-groups [] h = refl
hex_nums-groups (part ∷ parts) h =
    let both = sym (is_hex-append part (concat parts)) ∙ h in
    elim (Bool-cases (is_hex part)) [
      | inl e ↦
          let rest : is_hex (concat parts) ≡ true = rw e at both in
          hex_nums-whole part parts e
          ∙ ap (λ r. r >>= λ nums. ok (group_num part ∷ nums)) (hex_nums-groups parts rest)
      | inr e ↦ absurd (cc (rw e at both))
    ]

pub hex_nums-invalid :
    (parts : List (List ℕ)) → is_hex (concat parts) ≡ false → hex_nums parts ≡ err invalid_argument
unfolding hex_nums is_hex
hex_nums-invalid [] h = absurd (cc h)
hex_nums-invalid (part ∷ parts) h =
    let both = sym (is_hex-append part (concat parts)) ∙ h in
    elim (Bool-cases (is_hex part)) [
      | inl e ↦
          let rest : is_hex (concat parts) ≡ false = rw e at both in
          hex_nums-whole part parts e
          ∙ ap (λ r. r >>= λ nums. ok (group_num part ∷ nums)) (hex_nums-invalid parts rest)
      | inr e ↦
          hex_nums-round part parts
          ∙ ap (λ b. round parts b ((stoull_from 1 1 part).0))
              (==_ne _ _ (λ z. omega (arith, stoull_from-stops part 1 1 e)))
    ]

pub group_nums-below :
    (parts : List (List ℕ)) → NoneLonger 12 parts → AllBelow (2 ^ 64) (group_nums parts)
group_nums-below [] h = tt
group_nums-below (part ∷ parts) (p, h) = (
  omega (
    arith,
    of_digits-below 12 (digits_of part) 1 (omega (arith, length-digits part)) (digits-below part),
  ),
  group_nums-below parts h,
)

pub lower_case-append : (s t : List ℕ) → lower_case (s ++ t) ≡ lower_case s ++ lower_case t
lower_case-append [] t = refl
lower_case-append (c ∷ s) t = ap (λ u. digit_char (digit_of c) ∷ u) (lower_case-append s t)
