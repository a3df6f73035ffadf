-- ===== src/Ternary/Rests.antt =====
-- Words with a common beginning, and lists of words.
use eureka.Common.{
  ℕ, ◌≡◌, refl, sym, ap, ◌∙◌, Bool, false, true, ◌&&◌, ◌||◌, List, [], ◌∷◌, ◌++◌, ◌==◌,
  if◌then◌else◌, arith,
}
use eureka.Ternary.Words.{eq_word}

abbrev pub elem : List ℕ → List (List ℕ) → Bool
elem u [] = false
elem u (w ∷ ws) = eq_word u w || elem u ws

-- The rest behind a prefix has the property.
abbrev pub stripped : List ℕ → List ℕ → (List ℕ → Bool) → Bool
stripped [] u f = f u
stripped (c ∷ p) [] f = false
stripped (c ∷ p) (d ∷ u) f = d == c && stripped p u f

abbrev pub is_nil : List ℕ → Bool
is_nil [] = true
is_nil (c ∷ u) = false

abbrev pub behind : ℕ → (List ℕ → Bool) → List ℕ → Bool
behind c f [] = false
behind c f (d ∷ u) = d == c && f u

pub or_assoc : (a b c : Bool) → ((a || b) || c) ≡ (a || (b || c))
or_assoc a b c = ground arith

pub elem-append :
    (u : List ℕ) (xs ys : List (List ℕ)) → elem u (xs ++ ys) ≡ (elem u xs || elem u ys)
elem-append u [] ys = refl
elem-append u (x ∷ xs) ys =
    ap (λ b. eq_word u x || b) (elem-append u xs ys)
    ∙ sym (or_assoc (eq_word u x) (elem u xs) (elem u ys))

pub stripped-or :
    (p u : List ℕ) (f g : List ℕ → Bool)
    → (stripped p u f || stripped p u g) ≡ stripped p u (λ v. f v || g v)
stripped-or [] u f g = refl
stripped-or (c ∷ p) [] f g = refl
stripped-or (c ∷ p) (d ∷ u) f g = ground (arith, stripped-or p u f g)

pub stripped_ext :
    (p u : List ℕ) (f g : List ℕ → Bool)
    → ((v : List ℕ) → f v ≡ g v)
    → stripped p u f ≡ stripped p u g
stripped_ext [] u f g h = h u
stripped_ext (c ∷ p) [] f g h = refl
stripped_ext (c ∷ p) (d ∷ u) f g h = ap (λ b. d == c && b) (stripped_ext p u f g h)

pub stripped_snoc :
    (p u : List ℕ) (c : ℕ) (f : List ℕ → Bool)
    → stripped (p ++ c ∷ []) u f ≡ stripped p u (behind c f)
stripped_snoc [] [] c f = refl
stripped_snoc [] (d ∷ u) c f = refl
stripped_snoc (b ∷ p) [] c f = refl
stripped_snoc (b ∷ p) (d ∷ u) c f = ap (λ x. d == b && x) (stripped_snoc p u c f)

pub eq_word-stripped : (u p : List ℕ) → eq_word u p ≡ stripped p u is_nil
eq_word-stripped [] [] = refl
eq_word-stripped [] (c ∷ p) = refl
eq_word-stripped (d ∷ u) [] = refl
eq_word-stripped (d ∷ u) (c ∷ p) = ap (λ b. d == c && b) (eq_word-stripped u p)

pub or_false : (a : Bool) → (a || false) ≡ a
or_false a = ground arith

pub stripped-and :
    (p u : List ℕ) (e : Bool) (f : List ℕ → Bool)
    → (e && stripped p u f) ≡ stripped p u (λ v. e && f v)
stripped-and [] u e f = refl
stripped-and (c ∷ p) [] e f = ground arith
stripped-and (c ∷ p) (d ∷ u) e f = ground (arith, stripped-and p u e f)

pub stripped-false : (p u : List ℕ) → stripped p u (λ v. false) ≡ false
stripped-false [] u = refl
stripped-false (c ∷ p) [] = refl
stripped-false (c ∷ p) (d ∷ u) = ground (arith, stripped-false p u)

abbrev pub with_word : Bool → List (List ℕ) → List ℕ → List (List ℕ)
with_word e words w = if e then words ++ w ∷ [] else words

pub elem-with_word :
    (e : Bool) (words : List (List ℕ)) (w u : List ℕ)
    → elem u (with_word e words w) ≡ (elem u words || (e && eq_word u w))
elem-with_word true words w u =
    elem-append u words (w ∷ []) ∙ ap (λ b. elem u words || b) (or_false (eq_word u w))
elem-with_word false words w u = sym (or_false (elem u words))

pub or_three : (a b c d : Bool) → (((a || b) || c) || d) ≡ (a || ((b || c) || d))
or_three a b c d = ground arith
