-- ===== src/Hashids/Frames.antt =====
-- A string between others that have none of some characters, and cuts of them.
use eureka.Common.{
  ℕ, zero, suc, ◌+◌, ◌-◌, ◌≤◌, ◌≡◌, refl, sym, ap, ◌∙◌, List, [], ◌∷◌, ◌++◌, append_assoc, length,
  take, drop, count, count-append, length-append, length-drop, take-append-drop, arith,
}

-- A string has none of the characters.
abbrev pub Apart : List ℕ → List ℕ → Type 0
Apart s chars = (q : ℕ) → 1 ≤ count q chars → count q s ≡ 0

pub drop-append_le : (k : ℕ) (xs ys : List ℕ) → k ≤ length xs → drop k (xs ++ ys) ≡ drop k xs ++ ys
drop-append_le zero xs ys h = refl
drop-append_le (suc k) [] ys h = absurd (omega arith)
drop-append_le (suc k) (x ∷ xs) ys h = drop-append_le k xs ys (omega arith)

pub take-append_add : (k : ℕ) (xs ys : List ℕ) → take (length xs + k) (xs ++ ys) ≡ xs ++ take k ys
take-append_add k [] ys = ap (λ n. take n ys) (omega arith)
take-append_add k (x ∷ xs) ys =
    let same : length (x ∷ xs) + k ≡ suc (length xs + k) = omega arith in
    ap (λ n. take n (x ∷ xs ++ ys)) same ∙ ap (◌∷◌ x) (take-append_add k xs ys)

pub count-split : (q k : ℕ) (xs : List ℕ) → count q (take k xs) + count q (drop k xs) ≡ count q xs
count-split q k xs =
    sym (count-append q (take k xs) (drop k xs)) ∙ ap (count q) (take-append-drop k xs)

pub Apart-take : (k : ℕ) (xs chars : List ℕ) → Apart xs chars → Apart (take k xs) chars
Apart-take k xs chars h q there = omega (arith, h q there, count-split q k xs)

pub Apart-drop : (k : ℕ) (xs chars : List ℕ) → Apart xs chars → Apart (drop k xs) chars
Apart-drop k xs chars h q there = omega (arith, h q there, count-split q k xs)

pub Apart-append : (xs ys chars : List ℕ) → Apart xs chars → Apart ys chars → Apart (xs ++ ys) chars
Apart-append xs ys chars h k q there = omega (arith, h q there, k q there, count-append q xs ys)

-- The string stands in the longer one, between characters that are not guards.
abbrev pub Frames : List ℕ → List ℕ → List ℕ → Type 0
Frames guards middle s =
    (before : List ℕ) × (after : List ℕ) × (s ≡ before ++ (middle ++ after))
    × Apart before guards
    × Apart after guards

module _ (guards middle : List ℕ) where
  pub wrapped :
      (begin end s : List ℕ)
      → Apart begin guards
      → Apart end guards
      → Frames guards middle s
      → Frames guards middle (begin ++ (s ++ end))
  wrapped begin end s b e (before, after, same, clean, clean') = (
    begin ++ before,
    after ++ end,
    ap (λ x. begin ++ (x ++ end)) same
        ∙ ap (◌++◌ begin) (
            append_assoc before (middle ++ after) end
            ∙ ap (◌++◌ before) (append_assoc middle after end))
        ∙ sym (append_assoc begin before (middle ++ (after ++ end))),
    Apart-append begin before guards b clean,
    Apart-append after end guards clean' e,
  )

  -- A cut that leaves the string whole.
  pub cut :
      (begin s end : List ℕ) (idx n : ℕ)
      → idx ≤ length begin
      → (length begin - idx) + length s ≤ n
      → take n (drop idx (begin ++ (s ++ end)))
        ≡ drop idx begin ++ (s ++ take (n - ((length begin - idx) + length s)) end)
  cut begin s end idx n h k =
      let b = drop idx begin in
      let rest = n - ((length begin - idx) + length s) in
      let size : n ≡ length (b ++ s) + rest =
        omega (arith, k, length-append b s, length-drop idx begin) in
      ap (take n) (drop-append_le idx begin (s ++ end) h ∙ sym (append_assoc b s end))
      ∙ ap (λ m. take m ((b ++ s) ++ end)) size
      ∙ take-append_add rest (b ++ s) end
      ∙ append_assoc b s (take rest end)
