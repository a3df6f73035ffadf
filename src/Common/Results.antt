-- ===== src/Common/Results.antt =====
-- Runs that end in a value or in a fault.
use mathlib.Core.Path.{◌≡◌, refl}
use Prim.Native.Nat.{ℕ}
use mathlib.Core.Bool.{Bool, true, false}
use mathlib.Core.Option.{none, some}
use mathlib.Core.List.{List}
use eureka.Common.Lists.{get_elem?}

-- `check_failed` is a failed `ENSURE` or `assert`, `invalid_argument`, `length_error` and `bad_alloc`
-- are the C++ exceptions, `undefined` is undefined behaviour, such as an access out of bounds.
-- `negative_delay` is a delay below 0, which the model of the backoff does not follow.
pub data Fault : Type 0 where
  check_failed invalid_argument length_error bad_alloc undefined negative_delay : Fault

pub data Result {ℓ} (A : Type ℓ) : Type ℓ where
  ok : A → Result A
  err : Fault → Result A

-- The step behind a fault is not made.
infixl 5 ◌>>=◌ ◌>>◌
abbrev pub ◌>>=◌ {ℓ κ} : {A : Type ℓ} {B : Type κ} → Result A → (A → Result B) → Result B
◌>>=◌ (err fault) step = err fault
◌>>=◌ (ok value) step = step value

abbrev pub ◌>>◌ {ℓ} : {B : Type ℓ} → Result (Unit {0}) → Result B → Result B
check >> rest = check >>= λ passed. rest

pub ok-injective {ℓ} : {A : Type ℓ} {a b : A} → ok a ≡ ok b → a ≡ b
ok-injective e = cc

abbrev pub ensure : Bool → Fault → Result (Unit {0})
ensure true e = ok tt
ensure false e = err e

-- The parts of a success.
pub bind-ok {ℓ κ} :
    {A : Type ℓ} {B : Type κ} (r : Result A) (f : A → Result B) (b : B)
    → (r >>= f) ≡ ok b
    → (a : A) × (r ≡ ok a) × (f a ≡ ok b)
bind-ok (err fault) f b e = absurd (cc e)
bind-ok (ok a) f b e = (a, refl, e)

-- A step whose outcome is that of two steps.
pub bind_chain {ℓ κ μ} :
    {A : Type ℓ} {B : Type κ} {C : Type μ} (r : Result A) (f : A → Result B) (g : A → Result C)
    (k : B → Result C)
    → ((x : A) → g x ≡ (f x >>= k))
    → (r >>= g) ≡ ((r >>= f) >>= k)
bind_chain (err fault) f g k h = refl
bind_chain (ok x) f g k h = h x

-- Two continuations of one step, of which the second has the outcome s where the first succeeds.
pub bind_follow {ℓ κ μ} :
    {A : Type ℓ} {B : Type κ} {C : Type μ} (r : Result A) (f : A → Result B) (g : A → Result C)
    (b : B) (s : Result C)
    → ((x : A) → f x ≡ ok b → g x ≡ s)
    → (r >>= f) ≡ ok b
    → (r >>= g) ≡ s
bind_follow (err fault) f g b s h e = absurd (cc e)
bind_follow (ok x) f g b s h e = h x e

-- An access past the end is undefined.
unfoldable pub at {ℓ} : {A : Type ℓ} → List A → ℕ → Result A
at xs i = elim (get_elem? xs i) [ none ↦ err undefined | some x ↦ ok x ]

pub at-some {ℓ} :
    {A : Type ℓ} (xs : List A) (i : ℕ) (x : A) → get_elem? xs i ≡ some x → at xs i ≡ ok x
unfolding at
at-some xs i x e = rw (e, at) refl

pub at-none {ℓ} :
    {A : Type ℓ} (xs : List A) (i : ℕ) → get_elem? xs i ≡ none → at xs i ≡ err undefined
unfolding at
at-none xs i e = rw (e, at) refl
