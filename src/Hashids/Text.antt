-- ===== src/Hashids/Text.antt =====
-- The loops of `encode` and `decode` of hashids/hashids/hashids.cpp: what one writes, the other reads.
use native.Mathlib.Nat.{mod-lt}
use native.Mathlib.Decide.{dec_le}
use eureka.Common.{
  at, ℕ, suc, ◌+◌, ◌%◌, ◌^◌, ◌≤◌, ◌<◌, ◌≡◌, refl, ap, subst, ◌∙◌, List, [], ◌∷◌, ◌++◌, append-nil,
  length, get_or, count, length-append, Result, ok, arith, true, ◌==◌, ==_refl, Bool-cases, inl,
  inr,
}
use eureka.Hashids.{
  rem, reorder, make_alphabet_salt, hash_number, unhash, Hashids, encode_from, pop_back,
  decode_parts, eq_string,
}
use eureka.Hashids.Reorder.{Permuted, reorder-Permuted}
use eureka.Hashids.Numbers.{
  AllDistinct, Within, at-get_or, rem_lem, count-get_or, unhash-hash_number,
}
use eureka.Hashids.Frames.{Apart, Apart-append}

-- What the constructor makes: no character is in two of the three strings, or twice in one.
pub record IsWellFormed (h : Hashids) : Type 0 where
  pub several : 2 ≤ length h.alphabet
  pub separated : 1 ≤ length h.separators
  pub guarded : 1 ≤ length h.guards
  pub distinct : (q : ℕ) → count q h.alphabet + count q h.separators + count q h.guards ≤ 1

-- How `esl::strings::split` is documented: a string without a separator is one part, and the first
-- part ends at the first separator.
pub record IsSplit (split : List ℕ → List ℕ → List (List ℕ)) : Type 0 where
  pub whole : (s chars : List ℕ) → Apart s chars → split s chars ≡ s ∷ []
  pub first :
      (s t chars : List ℕ) (c : ℕ)
      → Apart s chars
      → 1 ≤ count c chars
      → split (s ++ c ∷ t) chars ≡ s ∷ split t chars

abbrev pub AllBelow : ℕ → List ℕ → Type 0
AllBelow bound [] = Unit {0}
AllBelow bound (v ∷ values) = (v < bound) × AllBelow bound values

pub pop_back-append : (xs ys : List ℕ) → 1 ≤ length ys → pop_back (xs ++ ys) ≡ xs ++ pop_back ys
unfolding pop_back
pop_back-append [] ys h = refl
pop_back-append (x ∷ []) [] h = absurd (omega arith)
pop_back-append (x ∷ []) (y ∷ ys) h = refl
pop_back-append (x ∷ z ∷ xs) ys h = ap (◌∷◌ x) (pop_back-append (z ∷ xs) ys h)

pop_back-snoc : (xs : List ℕ) (c : ℕ) → pop_back (xs ++ c ∷ []) ≡ xs
unfolding pop_back
pop_back-snoc xs c = pop_back-append xs (c ∷ []) (omega arith) ∙ append-nil xs

pub count-pop_back : (q : ℕ) (xs : List ℕ) → count q (pop_back xs) ≤ count q xs
unfolding pop_back
count-pop_back q [] = omega arith
count-pop_back q (x ∷ []) = omega arith
count-pop_back q (x ∷ y ∷ xs) = omega (arith, count-pop_back q (y ∷ xs))

pub length-pop_back : (xs : List ℕ) → 1 ≤ length xs → suc (length (pop_back xs)) ≡ length xs
unfolding pop_back
length-pop_back [] h = absurd (omega arith)
length-pop_back (x ∷ []) h = refl
length-pop_back (x ∷ y ∷ xs) h = ap suc (length-pop_back (y ∷ xs) (omega arith))

pub eq_string_refl : (s : List ℕ) → eq_string s s ≡ true
eq_string_refl [] = refl
eq_string_refl (c ∷ s) = rw (==_refl c) (eq_string_refl s)

module _ (split : List ℕ → List ℕ → List (List ℕ)) (is_split : IsSplit split) (h : Hashids)
    (wf : IsWellFormed h) (no_zero : count 0 h.alphabet ≡ 0) where
  Permuted-AllDistinct : (alphabet : List ℕ) → Permuted h.alphabet alphabet → AllDistinct alphabet
  Permuted-AllDistinct alphabet p q = omega (arith, p.1 q, wf.distinct q)

  Within-Apart :
      (s alphabet chars : List ℕ)
      → Permuted h.alphabet alphabet
      → ((q : ℕ) → count q h.alphabet + count q chars ≤ 1)
      → Within s alphabet
      → Apart s chars
  Within-Apart s alphabet chars p apart within q there =
      within q (omega (arith, p.1 q, apart q, there))

  -- The remainder by the first digit is defined.
  digit_positive :
      (hashed alphabet : List ℕ) (i : ℕ)
      → Permuted h.alphabet alphabet
      → 1 ≤ length hashed
      → Within hashed alphabet
      → 1 ≤ get_or hashed 0 0 + i
  digit_positive hashed alphabet i p nonempty within = elim (dec_le 1 (get_or hashed 0 0)) [
    | yes k ↦ omega (arith, k)
    | no k ↦
        let zero_digit : get_or hashed 0 0 ≡ 0 = omega (arith, k) in
        let there = count-get_or hashed 0 nonempty in
        let there' = subst (λ c. 1 ≤ count c hashed) zero_digit there in
        absurd (omega (arith, there', within 0 (p.1 0 ∙ no_zero)))
  ]

  -- What the loop of `encode` makes, and the loop of `decode` reads.
  abbrev Reads : ℕ → List ℕ → List ℕ → Result (List ℕ × List ℕ) → Type 0
  Reads lottery alphabet values result =
      (text : List ℕ) × (last : List ℕ) × (result ≡ ok (text, last))
      × Permuted h.alphabet last
      × (2 ≤ length text)
      × Apart text h.guards
      × (decode_parts h.salt lottery alphabet (split (pop_back text) h.separators) ≡ ok values)

  pub Apart-one :
      (c : ℕ) (xs chars : List ℕ)
      → 1 ≤ count c xs
      → ((q : ℕ) → count q xs + count q chars ≤ 1)
      → Apart (c ∷ []) chars
  Apart-one c xs chars there apart q among = elim (Bool-cases (q == c)) [
    | inl e ↦ absurd (twice q (apart q) among e)
    | inr e ↦ rw e refl
  ]
    where
      twice : (q : ℕ) → count q xs + count q chars ≤ 1 → 1 ≤ count q chars → (q == c) ≡ true → ⊥
      twice q one also e = ground arith

  -- One value and its separator.
  abbrev Writes : ℕ → List ℕ → ℕ → ℕ → Type 0
  Writes lottery alphabet i v =
      (reordered : List ℕ) × (hashed : List ℕ) × (separator : ℕ) × (reorder
          (make_alphabet_salt lottery h.salt alphabet) alphabet
        ≡ ok reordered)
      × (hash_number v reordered ≡ ok hashed)
      × (rem v (get_or hashed 0 0 + i) ≡ ok (v % (get_or hashed 0 0 + i)))
      × (rem (v % (get_or hashed 0 0 + i)) (length h.separators)
          ≡ ok (v % (get_or hashed 0 0 + i) % length h.separators))
      × (at h.separators (v % (get_or hashed 0 0 + i) % length h.separators) ≡ ok separator)
      × (unhash hashed reordered ≡ v)
      × Permuted h.alphabet reordered
      × (1 ≤ length hashed)
      × Apart hashed h.separators
      × Apart hashed h.guards
      × Apart (separator ∷ []) h.guards
      × (1 ≤ count separator h.separators)

  writes :
      (lottery i v : ℕ) (alphabet : List ℕ)
      → Permuted h.alphabet alphabet
      → v < 2 ^ 64
      → Writes lottery alphabet i v
  writes lottery i v alphabet p bound =
      let (reordered, done, p') =
        reorder-Permuted (make_alphabet_salt lottery h.salt alphabet) alphabet
          (omega (arith, p.0, wf.several)) in
      let q : Permuted h.alphabet reordered = (p'.0 ∙ p.0, λ c. p'.1 c ∙ p.1 c) in
      let (hashed, written, nonempty, within, back) =
        unhash-hash_number reordered (Permuted-AllDistinct reordered q)
          (omega (arith, q.0, wf.several)) v bound in
      let number = v % (get_or hashed 0 0 + i) in
      let place = number % length h.separators in
      let below : place < length h.separators = mod-lt number (omega (arith, wf.separated)) in
      let there = count-get_or h.separators place below in
      (
        reordered,
        hashed,
        get_or h.separators place 0,
        done,
        written,
        rem_lem v (get_or hashed 0 0 + i) (digit_positive hashed reordered i q nonempty within),
        rem_lem number (length h.separators) wf.separated,
        at-get_or h.separators place below,
        back,
        q,
        nonempty,
        Within-Apart hashed reordered h.separators q (λ c. omega (arith, wf.distinct c)) within,
        Within-Apart hashed reordered h.guards q (λ c. omega (arith, wf.distinct c)) within,
        Apart-one (get_or h.separators place 0) h.separators h.guards there
            (λ c. omega (arith, wf.distinct c)),
        there,
      )

  pub encode_from-Reads :
      (lottery i v : ℕ) (alphabet values : List ℕ)
      → Permuted h.alphabet alphabet
      → AllBelow (2 ^ 64) (v ∷ values)
      → Reads lottery alphabet (v ∷ values) (encode_from h lottery alphabet i (v ∷ values))
  unfolding encode_from decode_parts
  encode_from-Reads lottery i v alphabet [] p bounds =
      let (
        reordered, hashed, separator, done, written, r, r', got, back, q, nonempty, apart, clean,
        clean', there,
      ) =
        writes lottery i v alphabet p bounds.0 in
      (
        hashed ++ separator ∷ [],
        reordered,
        rw (done, written, r, r', got) refl,
        q,
        omega (arith, length-append hashed (separator ∷ []), nonempty),
        Apart-append hashed (separator ∷ []) h.guards clean clean',
        rw (pop_back-snoc hashed separator, is_split.whole hashed h.separators apart, done, back)
            refl,
      )
  encode_from-Reads lottery i v alphabet (w ∷ values) p bounds =
      let (
        reordered, hashed, separator, done, written, r, r', got, back, q, nonempty, apart, clean,
        clean', there,
      ) =
        writes lottery i v alphabet p bounds.0 in
      let (text, last, more, q', two, clean'', reads) =
        encode_from-Reads lottery (suc i) w reordered values q bounds.1 in
      let popped : pop_back (hashed ++ separator ∷ text) ≡ hashed ++ separator ∷ pop_back text =
        pop_back-append hashed (separator ∷ text) (omega arith)
        ∙ ap (◌++◌ hashed) (pop_back-append (separator ∷ []) text (omega (arith, two))) in
      (
        hashed ++ separator ∷ text,
        last,
        rw (done, written, r, r', got, more) refl,
        q',
        omega (arith, length-append hashed (separator ∷ text), two),
        Apart-append hashed (separator ∷ text) h.guards clean
            (Apart-append (separator ∷ []) text h.guards clean' clean''),
        rw
            (
              popped,
              is_split.first hashed (pop_back text) h.separators separator apart there,
              done,
              back,
              reads,
            )
            refl,
      )
