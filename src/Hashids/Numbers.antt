-- ===== src/Hashids/Numbers.antt =====
-- `hash_number` and `unhash` of hashids/hashids/hashids.cpp: a number in the digits of an alphabet.
use native.Mathlib.Nat.{
  mod-lt, mod-eq_of_lt, div-add-mod', mul-le-mul_left, le-mul_of_pos_right, two-pow-succ,
}
use mathlib.Core.List.{reverse-cons}
use native.Mathlib.Decide.{ℕ_discrete}
use eureka.Common.{
  at, ℕ, zero, suc, ◌+◌, ◌*◌, ◌/◌, ◌%◌, ◌^◌, ◌≤◌, ◌<◌, ◌≡◌, ◌≢◌, refl, sym, ap, ◌∙◌, ◌-◌,
  length-reverse, List, [], ◌∷◌, ◌++◌, reverse, length, get_or, count, count-append, none, some, ok,
  arith, ◌==◌, ==_refl, ==_ne, true, false, Bool-cases, inl, inr,
}
use eureka.Hashids.{rem, hash_digits, hash_number, find, position, unhash_from, unhash}

abbrev pub AllDistinct : List ℕ → Type 0
AllDistinct xs = (q : ℕ) → count q xs ≤ 1

-- The first list has no character that the second one lacks.
abbrev pub Within : List ℕ → List ℕ → Type 0
Within xs ys = (q : ℕ) → count q ys ≡ 0 → count q xs ≡ 0

pub count-get_or : (xs : List ℕ) (k : ℕ) → k < length xs → 1 ≤ count (get_or xs k 0) xs
count-get_or [] k h = absurd (omega arith)
count-get_or (x ∷ xs) zero h = rw (==_refl x) (omega arith)
count-get_or (x ∷ xs) (suc k) h = omega (arith, count-get_or xs k (omega arith))

pub at-get_or : (xs : List ℕ) (k : ℕ) → k < length xs → at xs k ≡ ok (get_or xs k 0)
unfolding at
at-get_or [] k h = absurd (omega arith)
at-get_or (x ∷ xs) zero h = refl
at-get_or (x ∷ xs) (suc k) h = at-get_or xs k (omega arith)

pub rem_lem : (a b : ℕ) → 1 ≤ b → rem a b ≡ ok (a % b)
unfolding rem
rem_lem a zero h = absurd (omega arith)
rem_lem a (suc b) h = refl

-- A character is found at its only place.
find-get_or :
    (xs : List ℕ) (k : ℕ) → AllDistinct xs → k < length xs → find (get_or xs k 0) xs ≡ some k
unfolding find
find-get_or [] k d h = absurd (omega arith)
find-get_or (x ∷ xs) zero d h = rw (==_refl x) refl
find-get_or (x ∷ xs) (suc k) d h =
    let c = get_or xs k 0 in
    let there = count-get_or xs k (omega arith) in
    let apart : (c == x) ≡ false = elim (Bool-cases (c == x)) [
      | inl e ↦ absurd (once c (d c) there e)
      | inr e ↦ e
    ] in
    let rest = find-get_or xs k (λ q. omega (arith, d q)) (omega arith) in
    rw (apart, rest, find) refl
  where
    once : (c : ℕ) → count c (x ∷ xs) ≤ 1 → 1 ≤ count c xs → (c == x) ≡ true → ⊥
    once c one there e = ground arith

abbrev value : List ℕ → List ℕ → ℕ
value alphabet [] = 0
value alphabet (d ∷ digits) = value alphabet digits * length alphabet + position d alphabet

unhash_from-append :
    (num c : ℕ) (hashed alphabet : List ℕ)
    → unhash_from num (hashed ++ c ∷ []) alphabet
      ≡ (unhash_from num hashed alphabet * length alphabet % 2 ^ 64 + position c alphabet) % 2 ^ 64
unfolding unhash_from
unhash_from-append num c [] alphabet = refl
unhash_from-append num c (d ∷ hashed) alphabet =
    unhash_from-append ((num * length alphabet % 2 ^ 64 + position d alphabet) % 2 ^ 64) c hashed
      alphabet

value_step : (v n : ℕ) → 1 ≤ n → v ≤ v * n
value_step v n h = le-mul_of_pos_right v h

unhash-reverse :
    (alphabet digits : List ℕ)
    → 1 ≤ length alphabet
    → value alphabet digits < 2 ^ 64
    → unhash (reverse digits) alphabet ≡ value alphabet digits
unfolding unhash unhash_from
unhash-reverse alphabet [] n h = refl
unhash-reverse alphabet (d ∷ digits) n h =
    let v = value alphabet digits in
    let rest = unhash-reverse alphabet digits n (omega (arith, value_step v (length alphabet) n)) in
    ap (λ s. unhash s alphabet) (reverse-cons d digits)
    ∙ unhash_from-append 0 d (reverse digits) alphabet
    ∙ ap (λ x. (x * length alphabet % 2 ^ 64 + position d alphabet) % 2 ^ 64) rest
    ∙ ap (λ x. (x + position d alphabet) % 2 ^ 64) (mod-eq_of_lt (omega (arith, h)))
    ∙ mod-eq_of_lt h

pub count-reverse : (q : ℕ) (xs : List ℕ) → count q (reverse xs) ≡ count q xs
count-reverse q [] = refl
count-reverse q (x ∷ xs) =
    ap (count q) (reverse-cons x xs)
    ∙ count-append q (reverse xs) (x ∷ [])
    ∙ omega (arith, count-reverse q xs)

abbrev WrittenIn : List ℕ → ℕ → ℕ → Type 0
WrittenIn alphabet number fuel =
    (digits : List ℕ) × (hash_digits fuel number alphabet ≡ ok digits)
    × (1 ≤ length digits)
    × Within digits alphabet
    × (value alphabet digits ≡ number)

Within-cons :
    (xs digits : List ℕ) (k : ℕ)
    → k < length xs
    → Within digits xs
    → Within (get_or xs k 0 ∷ digits) xs
Within-cons xs digits k h w q lacking = elim (Bool-cases (q == get_or xs k 0)) [
  | inl e ↦ absurd (lacks q (get_or xs k 0) lacking (count-get_or xs k h) e)
  | inr e ↦ rw e (omega (arith, w q lacking))
]
  where
    lacks : (q c : ℕ) → count q xs ≡ 0 → 1 ≤ count c xs → (q == c) ≡ true → ⊥
    lacks q c lacking there e = ground arith

module _ (alphabet : List ℕ) (distinct : AllDistinct alphabet) (several : 2 ≤ length alphabet) where
  division : (number : ℕ) → number / length alphabet + number / length alphabet ≤ number
  division number =
      let q = number / length alphabet in
      let twice : q * 2 ≤ q * length alphabet = mul-le-mul_left q several in
      omega (arith, twice, div-add-mod' number (length alphabet))

  position-get_or : (k : ℕ) → k < length alphabet → position (get_or alphabet k 0) alphabet ≡ k
  position-get_or k h =
      ap (λ o. elim o [ none ↦ 2 ^ 64 - 1 | some i ↦ i ]) (find-get_or alphabet k distinct h)

  digit : (number : ℕ) → number % length alphabet < length alphabet
  digit number = mod-lt number (omega arith)

  value-digit :
      (number rest : ℕ)
      → rest ≡ number / length alphabet
      → rest * length alphabet + position (get_or alphabet (number % length alphabet) 0) alphabet
        ≡ number
  value-digit number rest e =
      ap (λ p. rest * length alphabet + p)
        (position-get_or (number % length alphabet) (digit number))
      ∙ ap (λ q. q * length alphabet + number % length alphabet) e
      ∙ div-add-mod' number (length alphabet)

  hash_digits-last :
      (fuel number : ℕ) → number / length alphabet ≡ 0 → WrittenIn alphabet number (suc fuel)
  unfolding hash_digits
  hash_digits-last fuel number e =
      let k = number % length alphabet in
      (
        get_or alphabet k 0 ∷ [],
        rw (rem_lem number (length alphabet) (omega arith), at-get_or alphabet k (digit number), e)
            refl,
        omega arith,
        Within-cons alphabet [] k (digit number) (λ q lacking. refl),
        value-digit number 0 (sym e),
      )

  hash_digits-more :
      (fuel number : ℕ)
      → number / length alphabet ≢ 0
      → WrittenIn alphabet (number / length alphabet) fuel
      → WrittenIn alphabet number (suc fuel)
  unfolding hash_digits
  hash_digits-more fuel number ne (digits, done, nonempty, within, same) =
      let k = number % length alphabet in
      (
        get_or alphabet k 0 ∷ digits,
        rw
            (
              rem_lem number (length alphabet) (omega arith),
              at-get_or alphabet k (digit number),
              ==_ne (number / length alphabet) 0 ne,
              done,
            )
            refl,
        omega arith,
        Within-cons alphabet digits k (digit number) within,
        value-digit number (value alphabet digits) same,
      )

  hash_digits_lem : (fuel number : ℕ) → number < 2 ^ suc fuel → WrittenIn alphabet number (suc fuel)
  hash_digits_lem zero number h = hash_digits-last zero number (omega (arith, division number))
  hash_digits_lem (suc fuel) number h = elim (ℕ_discrete (number / length alphabet) 0) [
    | yes e ↦ hash_digits-last (suc fuel) number e
    | no ne ↦
        let smaller : number / length alphabet < 2 ^ suc fuel =
          omega (arith, division number, two-pow-succ (suc fuel)) in
        hash_digits-more (suc fuel) number ne
          (hash_digits_lem fuel (number / length alphabet) smaller)
  ]

  -- With at least two characters, none of them twice, a number below 2 ^ 64 is written in some of
  -- them, and read back.
  pub unhash-hash_number :
      (number : ℕ)
      → number < 2 ^ 64
      → (hashed : List ℕ) × (hash_number number alphabet ≡ ok hashed)
        × (1 ≤ length hashed)
        × Within hashed alphabet
        × (unhash hashed alphabet ≡ number)
  unfolding hash_number
  unhash-hash_number number h =
      let (digits, done, nonempty, within, same) = hash_digits_lem 63 number h in
      (
        reverse digits,
        rw done refl,
        omega (arith, length-reverse digits, nonempty),
        λ q lacking. count-reverse q digits ∙ within q lacking,
        unhash-reverse alphabet digits (omega arith) (omega (arith, same, h)) ∙ same,
      )
