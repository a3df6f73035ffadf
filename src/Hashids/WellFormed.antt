-- ===== src/Hashids/WellFormed.antt =====
-- The constructor of hashids/hashids/hashids.cpp: what it makes, and when.
use eureka.Common.{
  subst, ok-injective, ℕ, ◌+◌, ◌-◌, ◌≤◌, ◌<◌, ◌≡◌, refl, sym, ap, ◌∙◌, ◌⊎◌, inl, inr, List, [], ◌∷◌,
  length, take, drop, count, count-append, length-append, length-take, length-drop,
  take-append-drop, Result, ok, err, undefined, invalid_argument, ◌>>=◌, ltb, ltb→lt, ltb→ge,
  le→leb, not_leb, arith, Bool-cases,
}
use native.Mathlib.Decide.{dec_le}
use eureka.Hashids.{reorder, Hashids}
use eureka.Hashids.Options.{
  base_separators, given_alphabet, select, unique, min_seps_cnt, guards_cnt, balance, with_guards,
  make,
}
use eureka.Hashids.Reorder.{Permuted, reorder-Permuted}
use eureka.Hashids.Text.{IsWellFormed}
use eureka.Hashids.Selected.{length-select, chosen-Distinct}

-- The separators and the alphabet, when the separators have been filled up.
balance_lem :
    (separators alphabet : List ℕ)
    → length separators ≤ 14
    → 16 ≤ length separators + length alphabet
    → let (enough, rest) = balance separators alphabet in
      (1 ≤ length enough)
      × (2 ≤ length rest)
      × (16 ≤ length enough + length rest)
      × ((q : ℕ) → count q enough + count q rest ≡ count q separators + count q alphabet)
balance_lem separators alphabet few many =
    let delta = min_seps_cnt alphabet - length separators in
    elim (Bool-cases (ltb (length separators) (min_seps_cnt alphabet))) [
      | inl e ↦
          let lacking = ltb→lt (length separators) (min_seps_cnt alphabet) e in
          let size = length-append separators (take delta alphabet) in
          let begin = length-take delta alphabet in
          let end = length-drop delta alphabet in
          rw e (
            omega (arith, lacking, size, begin, few, many),
            omega (arith, lacking, end, few, many),
            omega (arith, lacking, size, begin, end, few, many),
            λ q. omega (
              arith,
              count-append q separators (take delta alphabet),
              count-append q (take delta alphabet) (drop delta alphabet),
              ap (count q) (take-append-drop delta alphabet),
            ),
          )
      | inr e ↦
          let plenty = ltb→ge (length separators) (min_seps_cnt alphabet) e in
          rw e (omega (arith, plenty, few, many), omega (arith, few, many), many, λ q. refl)
    ]

with_guards-IsWellFormed :
    (min_len : ℕ) (salt separators alphabet : List ℕ)
    → 1 ≤ length separators
    → 2 ≤ length alphabet
    → 16 ≤ length separators + length alphabet
    → ((q : ℕ) → count q separators + count q alphabet ≤ 1)
    → IsWellFormed (with_guards min_len salt separators alphabet)
with_guards-IsWellFormed min_len salt separators alphabet some_separators several many distinct =
    let n = guards_cnt alphabet in
    elim (Bool-cases (ltb (length alphabet) 3)) [
      | inl e ↦
          let few = ltb→lt (length alphabet) 3 e in
          rw e record {
            several = several;
            separated = omega (arith, length-drop n separators, few, many);
            guarded = omega (arith, length-take n separators, few, many);
            distinct = λ q. omega (
              arith,
              distinct q,
              count-append q (take n separators) (drop n separators),
              ap (count q) (take-append-drop n separators),
            );
          }
      | inr e ↦
          let plenty = ltb→ge (length alphabet) 3 e in
          rw e record {
            several = omega (arith, length-drop n alphabet, plenty);
            separated = some_separators;
            guarded = omega (arith, length-take n alphabet, plenty);
            distinct = λ q. omega (
              arith,
              distinct q,
              count-append q (take n alphabet) (drop n alphabet),
              ap (count q) (take-append-drop n alphabet),
            );
          }
    ]

reorder-cases :
    (salt str : List ℕ)
    → ((1 ≤ length salt) × (str ≡ []) × (reorder salt str ≡ err undefined))
      ⊎ ((reordered : List ℕ) × (reorder salt str ≡ ok reordered) × Permuted str reordered)
unfolding reorder
reorder-cases [] str = inr (str, refl, (refl, λ q. refl))
reorder-cases (s ∷ salt) [] = inl (omega arith, refl, refl)
reorder-cases (s ∷ salt) (c ∷ str) = inr (reorder-Permuted (s ∷ salt) (c ∷ str) (omega arith))

abbrev pub chosen : List ℕ → List ℕ
chosen custom = select base_separators (given_alphabet custom)

abbrev pub others : List ℕ → List ℕ
others custom = unique [] (chosen custom) (given_alphabet custom)

module _ (min_len : ℕ) (salt custom : List ℕ) where
  -- The constructor throws, fails on the salt, or makes an instance.
  abbrev Makes : Result Hashids → Type 0
  Makes result =
      ((result ≡ err invalid_argument) × (length (chosen custom) + length (others custom) < 16))
      ⊎ ((16 ≤ length (chosen custom) + length (others custom))
          × (((result ≡ err undefined) × (1 ≤ length salt) × (chosen custom ≡ []))
              ⊎ ((h : Hashids) × (result ≡ ok h) × IsWellFormed h)))

  balance-Makes :
      (separators : List ℕ)
      → 16 ≤ length (chosen custom) + length (others custom)
      → Permuted (chosen custom) separators
      → let (enough, rest) = balance separators (others custom) in
        Makes (reorder salt rest >>= (λ alphabet. ok (with_guards min_len salt enough alphabet)))
  balance-Makes separators many p =
      let (enough, rest) = balance separators (others custom) in
      let (a, b, c, d) =
        balance_lem separators (others custom)
          (omega (arith, p.0, length-select base_separators (given_alphabet custom)))
          (omega (arith, p.0, many)) in
      let (alphabet, done, p') = reorder-Permuted salt rest (omega (arith, b)) in
      inr (
        many,
        inr (
          with_guards min_len salt enough alphabet,
          rw done refl,
          with_guards-IsWellFormed min_len salt enough alphabet a (omega (arith, b, p'.0))
              (omega (arith, c, p'.0))
              (λ q. omega (arith, d q, p.1 q, p'.1 q, chosen-Distinct q (given_alphabet custom))),
        ),
      )

  make-Makes : Makes (make min_len salt custom)
  unfolding make
  make-Makes = elim (dec_le 16 (length (chosen custom) + length (others custom))) [
    | no h ↦ inl (
      rw (not_leb 16 (length (chosen custom) + length (others custom)) (omega arith)) refl,
      omega arith,
    )
    | yes h ↦ elim (reorder-cases salt (chosen custom)) [
      | inl (some_salt, nothing, undef) ↦ inr (
        h,
        inl (
          rw (le→leb 16 (length (chosen custom) + length (others custom)) h, undef) refl,
          some_salt,
          nothing,
        ),
      )
      | inr (separators, done, p) ↦
          rw (le→leb 16 (length (chosen custom) + length (others custom)) h, done)
            (balance-Makes separators h p)
    ]
  ]

-- For each alphabet: with fewer than 16 characters the constructor throws; otherwise it makes a
-- well-formed instance, unless there is a salt and the alphabet has none of the base separators.
pub make-cases :
    (min_len : ℕ) (salt custom : List ℕ)
    → ((make min_len salt custom ≡ err invalid_argument)
        × (length (chosen custom) + length (others custom) < 16))
      ⊎ ((16 ≤ length (chosen custom) + length (others custom))
          × (((make min_len salt custom ≡ err undefined) × (1 ≤ length salt) × (chosen custom ≡ []))
              ⊎ ((h : Hashids) × (make min_len salt custom ≡ ok h) × IsWellFormed h)))
make-cases min_len salt custom = make-Makes min_len salt custom

pub make-IsWellFormed :
    (min_len : ℕ) (salt custom : List ℕ) (h : Hashids)
    → make min_len salt custom ≡ ok h
    → IsWellFormed h
make-IsWellFormed min_len salt custom h e = elim (make-cases min_len salt custom) [
  | inl (q, _) ↦ absurd (cc (sym q ∙ e))
  | inr (_, inl (q, _, _)) ↦ absurd (cc (sym q ∙ e))
  | inr (_, inr (made, q, wf)) ↦ subst IsWellFormed (ok-injective (sym q ∙ e)) wf
]

-- With a salt, an alphabet of at least 16 characters that has none of the base separators makes the
-- constructor reorder an empty string, which reads and writes out of its bounds.
pub make-undefined :
    (min_len : ℕ) (salt custom : List ℕ)
    → 1 ≤ length salt
    → chosen custom ≡ []
    → 16 ≤ length (others custom)
    → make min_len salt custom ≡ err undefined
unfolding make reorder
make-undefined min_len [] custom some_salt nothing many = absurd (omega arith)
make-undefined min_len (s ∷ salt) custom some_salt nothing many =
    rw (le→leb 16 (length (chosen custom) + length (others custom)) (omega (arith, many)), nothing)
      refl
