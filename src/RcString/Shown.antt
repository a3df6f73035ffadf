-- ===== src/RcString/Shown.antt =====
-- RCString/src/rc_string.cpp: the strings and their blocks against a list of values, and the counts of
-- the blocks against the strings that point to them.
use eureka.Common.{
  ℕ, zero, suc, ◌<◌, ◌≡◌, refl, ap, ◌∙◌, ◌≢◌, ◌⊎◌, List, [], ◌∷◌, ◌++◌, length, get_elem?, set,
  Option, none, some, Bool, arith,
}
use eureka.RcString.{StringData, World, unsharedable, unshared_ref_mark}
use eureka.RcString.Data.{content, Fits}
use eureka.RcString.Owners.{owners}

-- What a string is to its user: its bytes, and whether a reference into it may be out; none when it
-- was destroyed.
abbrev pub Value : Type 0
Value = Option (List ℕ × Bool)

abbrev pub Shows : List (Option StringData) → Option ℕ → Value → Type 0
Shows h none y = y ≡ none
Shows h (some p) y =
    (d : StringData) × (get_elem? h p ≡ some (some d)) × (y ≡ some (content d, unsharedable d))

abbrev pub Each : List (Option StringData) → List (Option ℕ) → List Value → Type 0
Each h [] [] = Unit
Each h [] (y ∷ vs) = ⊥
Each h (x ∷ s) [] = ⊥
Each h (x ∷ s) (y ∷ vs) = Shows h x y × Each h s vs

-- A count of a block with c owners.
abbrev pub Counted : StringData → ℕ → Type 0
Counted d c =
    ((d.ref_count ≡ unshared_ref_mark) × (c ≡ 1))
    ⊎ ((d.ref_count ≡ c) × (0 < c) × (c < unshared_ref_mark))

abbrev pub Sound : List (Option StringData) → List (Option ℕ) → Type 0
Sound h s =
    (p : ℕ) (d : StringData) → get_elem? h p ≡ some (some d) → Fits d × Counted d (owners p s)

pub record Stands (w : World) (vs : List Value) : Type 0 where
  pub each : Each w.heap w.strings vs
  pub sound : Sound w.heap w.strings

pub Each-append_none :
    (h : List (Option StringData)) (s : List (Option ℕ)) (vs : List Value)
    → Each h s vs
    → Each h (s ++ none ∷ []) (vs ++ none ∷ [])
Each-append_none h [] [] a = (refl, tt)
Each-append_none h [] (y ∷ vs) a = absurd a
Each-append_none h (x ∷ s) [] a = absurd a
Each-append_none h (x ∷ s) (y ∷ vs) a = (a.0, Each-append_none h s vs a.1)

pub Each-length :
    (h : List (Option StringData)) (s : List (Option ℕ)) (vs : List Value)
    → Each h s vs
    → length s ≡ length vs
Each-length h [] [] a = refl
Each-length h [] (y ∷ vs) a = absurd a
Each-length h (x ∷ s) [] a = absurd a
Each-length h (x ∷ s) (y ∷ vs) a = ap suc (Each-length h s vs a.1)

-- The block of a string that has a value.
pub Each-value :
    (h : List (Option StringData)) (s : List (Option ℕ)) (vs : List Value) (v : ℕ) (t : List ℕ)
    (m : Bool)
    → Each h s vs
    → get_elem? vs v ≡ some (some (t, m))
    → (p : ℕ) × (d : StringData) × (get_elem? s v ≡ some (some p))
      × (get_elem? h p ≡ some (some d))
      × (t ≡ content d)
      × (m ≡ unsharedable d)
Each-value h [] [] v t m a e = absurd (cc e)
Each-value h [] (y ∷ vs) v t m a e = absurd a
Each-value h (x ∷ s) [] v t m a e = absurd a
Each-value h (none ∷ s) (y ∷ vs) zero t m a e = absurd (cc (e, a.0))
Each-value h (some p ∷ s) (y ∷ vs) zero t m a e =
    (p, a.0.0, refl, a.0.1, (cc (e, a.0.2)), (cc (e, a.0.2)))
Each-value h (x ∷ s) (y ∷ vs) (suc v) t m a e = Each-value h s vs v t m a.1 e

-- A pointer leads to a block.
pub Each-live :
    (h : List (Option StringData)) (s : List (Option ℕ)) (vs : List Value) (v p : ℕ)
    → Each h s vs
    → get_elem? s v ≡ some (some p)
    → (d : StringData) × (get_elem? h p ≡ some (some d))
Each-live h [] vs v p a e = absurd (cc e)
Each-live h (x ∷ s) [] v p a e = absurd a
Each-live h (none ∷ s) (y ∷ vs) zero p a e = absurd (cc e)
Each-live h (some q ∷ s) (y ∷ vs) zero p a e =
    let same : p ≡ q = cc e in (a.0.0, ap (get_elem? h) same ∙ a.0.1)
Each-live h (x ∷ s) (y ∷ vs) (suc v) p a e = Each-live h s vs v p a.1 e

-- A string is pointed elsewhere and the heap is changed, so that the other strings show the same.
abbrev pub Kept : List (Option StringData) → List (Option StringData) → ℕ → Type 0
Kept h k p =
    (d : StringData)
    → get_elem? h p ≡ some (some d)
    → (e : StringData) × (get_elem? k p ≡ some (some e))
      × (content e ≡ content d)
      × (unsharedable e ≡ unsharedable d)

Shows-Kept :
    (h k : List (Option StringData)) (x : Option ℕ) (y : Value)
    → ((p : ℕ) → x ≡ some p → Kept h k p)
    → Shows h x y
    → Shows k x y
Shows-Kept h k none y kept a = a
Shows-Kept h k (some p) y kept (d, e, f) =
    let (d', e', c, u) = kept p refl d e in (d', e', f ∙ rw (c, u) refl)

Each-Kept :
    (h k : List (Option StringData)) (s : List (Option ℕ)) (vs : List Value)
    → ((u p : ℕ) → get_elem? s u ≡ some (some p) → Kept h k p)
    → Each h s vs
    → Each k s vs
Each-Kept h k [] [] kept a = tt
Each-Kept h k [] (y ∷ vs) kept a = absurd a
Each-Kept h k (x ∷ s) [] kept a = absurd a
Each-Kept h k (x ∷ s) (y ∷ vs) kept a = (
  Shows-Kept h k x y (λ p e. kept 0 p (ap some e)) a.0,
  Each-Kept h k s vs (λ u p e. kept (suc u) p e) a.1,
)

pub Each-set :
    (h k : List (Option StringData)) (s : List (Option ℕ)) (vs : List Value) (v : ℕ) (x : Option ℕ)
    (y : Value)
    → ((u p : ℕ) → u ≢ v → get_elem? s u ≡ some (some p) → Kept h k p)
    → Shows k x y
    → Each h s vs
    → Each k (set s v x) (set vs v y)
Each-set h k [] [] v x y kept sh a = tt
Each-set h k [] (z ∷ vs) v x y kept sh a = absurd a
Each-set h k (z ∷ s) [] v x y kept sh a = absurd a
Each-set h k (z ∷ s) (t ∷ vs) zero x y kept sh a =
    (sh, Each-Kept h k s vs (λ u p e. kept (suc u) p (omega arith) e) a.1)
Each-set h k (z ∷ s) (t ∷ vs) (suc v) x y kept sh a = (
  Shows-Kept h k z t (λ p e. kept 0 p (omega arith) (ap some e)) a.0,
  Each-set h k s vs v x y (λ u p ne e. kept (suc u) p (omega arith) e) sh a.1,
)
