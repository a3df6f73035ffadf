-- ===== src/Hashids/Selected.antt =====
-- The strings of the constructor of hashids/hashids/hashids.cpp before they are reordered.
use eureka.Common.{
  ℕ, ◌+◌, ◌≤◌, ◌≡◌, refl, ap, ◌∙◌, inl, inr, Bool, true, false, ◌||◌, List, [], ◌∷◌, length, count,
  ◌==◌, ==_iff, arith, Bool-cases,
}
use native.Mathlib.Decide.{dec_le}
use eureka.Hashids.{find}
use eureka.Hashids.Options.{base_separators, has, select, unique}
use eureka.Hashids.Numbers.{AllDistinct}

-- A search finds what is there.
pub has_lem :
    (c : ℕ) (xs : List ℕ) → (has c xs ≡ true → 1 ≤ count c xs) × (has c xs ≡ false → count c xs ≡ 0)
unfolding find
has_lem c [] = (λ e. absurd (ground arith), λ e. refl)
has_lem c (x ∷ xs) = ground (arith, has_lem c xs)

pub length-select : (chars alphabet : List ℕ) → length (select chars alphabet) ≤ length chars
length-select [] alphabet = omega arith
length-select (c ∷ chars) alphabet = ground (arith, length-select chars alphabet)

count-select : (q : ℕ) (chars alphabet : List ℕ) → count q (select chars alphabet) ≤ count q chars
count-select q [] alphabet = omega arith
count-select q (c ∷ chars) alphabet = ground (arith, count-select q chars alphabet)

or-false : (a b : Bool) → (a || b) ≡ false → (a ≡ false) × (b ≡ false)
or-false a b e = (ground arith, ground arith)

-- A character that was kept is not among those seen, nor a separator.
count_fresh :
    (q c : ℕ) (seen separators : List ℕ)
    → (has c seen || has c separators) ≡ false
    → (q == c) ≡ true
    → count q seen + count q separators ≡ 0
count_fresh q c seen separators e k =
    let (e1, e2) = or-false (has c seen) (has c separators) e in
    let same = (==_iff q c).0 k in
    let none_seen : count q seen ≡ 0 = ap (λ x. count x seen) same ∙ (has_lem c seen).1 e1 in
    let none_separating : count q separators ≡ 0 =
      ap (λ x. count x separators) same ∙ (has_lem c separators).1 e2 in
    omega (arith, none_seen, none_separating)

count-unique :
    (q : ℕ) (seen separators chars : List ℕ)
    → (count q (unique seen separators chars) ≤ 1)
      × (1 ≤ count q seen + count q separators → count q (unique seen separators chars) ≡ 0)
count-unique q seen separators [] = (omega arith, λ h. refl)
count-unique q seen separators (c ∷ chars) =
    let rest = count-unique q (c ∷ seen) separators chars in
    elim (Bool-cases (has c seen || has c separators)) [
      | inl e ↦ rw e (rest.0, λ h. rest.1 (omega (arith, h)))
      | inr e ↦ elim (Bool-cases (q == c)) [
        | inl k ↦
            let first : 1 ≤ count q (c ∷ seen) + count q separators = rw k (omega arith) in
            let absent = rest.1 first in
            let neither = count_fresh q c seen separators e k in
            rw (e, k) (omega (arith, absent), λ h. absurd (omega (arith, h, neither)))
        | inr k ↦ rw (e, k) (omega (arith, rest.0), λ h. omega (arith, rest.1 (omega (arith, h))))
      ]
    ]

base_separators-AllDistinct : AllDistinct base_separators
unfolding find
base_separators-AllDistinct q = (count-unique q [] [] base_separators).0

pub chosen-Distinct :
    (q : ℕ) (given : List ℕ)
    → count q (select base_separators given)
        + count q (unique [] (select base_separators given) given)
      ≤ 1
chosen-Distinct q given =
    let chosen = select base_separators given in
    let (once, apart) = count-unique q [] chosen given in
    let few = count-select q base_separators given in
    elim (dec_le 1 (count q chosen)) [
      | yes h ↦ omega (arith, few, base_separators-AllDistinct q, apart (omega (arith, h)), h)
      | no h ↦ omega (arith, once, h)
    ]
