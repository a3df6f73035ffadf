-- ===== src/RcString/Owners.antt =====
-- RCString/src/rc_string.cpp: how many strings point to a block.
use eureka.Common.{
  ℕ, zero, suc, ◌+◌, ◌≤◌, ◌<◌, ◌≡◌, refl, sym, ap, ◌≢◌, List, [], ◌∷◌, ◌++◌, length, get_elem?, set,
  one_if, Option, none, some, ◌==◌, arith, ◌⊎◌, inl, inr, Bool-cases, ==_refl, ==_iff,
}

abbrev pub has : ℕ → Option ℕ → ℕ
has p none = 0
has p (some q) = one_if (p == q)

abbrev pub owners : ℕ → List (Option ℕ) → ℕ
owners p [] = 0
owners p (x ∷ s) = has p x + owners p s

pub owners-append_none : (p : ℕ) (s : List (Option ℕ)) → owners p (s ++ none ∷ []) ≡ owners p s
owners-append_none p [] = refl
owners-append_none p (x ∷ s) = omega (arith, owners-append_none p s)

pub owners-set :
    (p v : ℕ) (s : List (Option ℕ)) (x y : Option ℕ)
    → get_elem? s v ≡ some x
    → owners p (set s v y) + has p x ≡ owners p s + has p y
owners-set p v [] x y e = absurd (cc e)
owners-set p zero (z ∷ s) x y e = ground (arith, e)
owners-set p (suc v) (z ∷ s) x y e = omega (arith, owners-set p v s x y e)

pub owners-le_length : (p : ℕ) (s : List (Option ℕ)) → owners p s ≤ length s
owners-le_length p [] = omega arith
owners-le_length p (none ∷ s) = omega (arith, owners-le_length p s)
owners-le_length p (some q ∷ s) = ground (arith, owners-le_length p s)

pub owners-one : (p v : ℕ) (s : List (Option ℕ)) → get_elem? s v ≡ some (some p) → 1 ≤ owners p s
owners-one p v [] e = absurd (cc e)
owners-one p zero (x ∷ s) e = ground (arith, e, ==_refl p)
owners-one p (suc v) (x ∷ s) e = omega (arith, owners-one p v s e)

pub owners-two :
    (p u v : ℕ) (s : List (Option ℕ))
    → u ≢ v
    → get_elem? s u ≡ some (some p)
    → get_elem? s v ≡ some (some p)
    → 2 ≤ owners p s
owners-two p u v [] ne e f = absurd (cc e)
owners-two p zero zero (x ∷ s) ne e f = absurd (ne refl)
owners-two p zero (suc v) (x ∷ s) ne e f = ground (arith, owners-one p v s f, e)
owners-two p (suc u) zero (x ∷ s) ne e f = ground (arith, owners-one p u s e, f)
owners-two p (suc u) (suc v) (x ∷ s) ne e f =
    omega (arith, owners-two p u v s (λ q. ne (ap suc q)) e f)

-- An owner of a block that has some.
pub owners-found :
    (p : ℕ) (s : List (Option ℕ)) → 0 < owners p s → (v : ℕ) × (get_elem? s v ≡ some (some p))
owners-found p [] h = absurd (omega arith)
owners-found p (none ∷ s) h = let (v, e) = owners-found p s (omega arith) in (suc v, e)
owners-found p (some q ∷ s) h = elim (Bool-cases (p == q)) [
  | inl same ↦ (0, let e : p ≡ q = (==_iff p q).0 same in ap (λ r. some (some r)) (sym e))
  | inr other ↦ let (v, e) = owners-found p s (ground (arith, h, other)) in (suc v, e)
]

module _ {ℓ} {A : Type ℓ} where
  pub set-set : (xs : List A) (i : ℕ) (x y : A) → set (set xs i x) i y ≡ set xs i y
  set-set [] i x y = refl
  set-set (z ∷ xs) zero x y = refl
  set-set (z ∷ xs) (suc i) x y = ap (◌∷◌ z) (set-set xs i x y)

  pub set_same : (xs : List A) (i : ℕ) (x : A) → get_elem? xs i ≡ some x → set xs i x ≡ xs
  set_same [] i x e = refl
  set_same (z ∷ xs) zero x e = ap (λ y. y ∷ xs) (cc e)
  set_same (z ∷ xs) (suc i) x e = ap (◌∷◌ z) (set_same xs i x e)

  pub set-append_last : (xs : List A) (x y : A) → set (xs ++ x ∷ []) (length xs) y ≡ xs ++ y ∷ []
  set-append_last [] x y = refl
  set-append_last (z ∷ xs) x y = ap (◌∷◌ z) (set-append_last xs x y)

  pub get_elem?-append :
      (xs : List A) (y : A) (i : ℕ) → i < length xs → get_elem? (xs ++ y ∷ []) i ≡ get_elem? xs i
  get_elem?-append [] y i h = absurd (omega arith)
  get_elem?-append (x ∷ xs) y zero h = refl
  get_elem?-append (x ∷ xs) y (suc i) h = get_elem?-append xs y i (omega arith)

  pub get_elem?-append_last : (xs : List A) (y : A) → get_elem? (xs ++ y ∷ []) (length xs) ≡ some y
  get_elem?-append_last [] y = refl
  get_elem?-append_last (x ∷ xs) y = get_elem?-append_last xs y

  -- What stands in a list that was extended by one.
  pub get_elem?-append_cases :
      (xs : List A) (y z : A) (i : ℕ)
      → get_elem? (xs ++ y ∷ []) i ≡ some z
      → (get_elem? xs i ≡ some z) ⊎ ((i ≡ length xs) × (y ≡ z))
  get_elem?-append_cases [] y z zero e = inr (refl, (cc e))
  get_elem?-append_cases [] y z (suc i) e = absurd (cc e)
  get_elem?-append_cases (x ∷ xs) y z zero e = inl e
  get_elem?-append_cases (x ∷ xs) y z (suc i) e = elim (get_elem?-append_cases xs y z i e) [
    | inl there ↦ inl there
    | inr (l, q) ↦ inr (ap suc l, q)
  ]
