-- ===== src/Timers/Sorted.antt =====
-- NetworkInfra/src/timer_queue.cpp: the order of the multimap, and what its operations keep of it.
use eureka.Common.{
  ltb, ◌==◌, if◌then◌else◌, ltb→lt, ltb→ge, lt→ltb, not_ltb, ==_iff, ==_ne, Bool-cases, one_if, ℕ,
  ◌+◌, ◌≤◌, ◌<◌, ◌≡◌, refl, sym, ap, ◌≢◌, inl, inr, Bool, false, not, ◌||◌, List, [], ◌∷◌, ◌++◌,
  arith,
}
use eureka.Timers.{Timer, emplace, before_sentry, from_sentry, is_behind}

-- The keys ascend, from lo on.
unfoldable pub Ascending : ℕ → List Timer → Type 0
Ascending lo [] = Unit {0}
Ascending lo (x ∷ xs) = (lo ≤ x.expiration) × Ascending (x.expiration) xs

pub Ascending-from : (xs : List Timer) (lo lo' : ℕ) → lo' ≤ lo → Ascending lo xs → Ascending lo' xs
unfolding Ascending
Ascending-from [] lo lo' h a = tt
Ascending-from (x ∷ xs) lo lo' h (p, a) = (omega arith, a)

pub emplace-Ascending :
    (xs : List Timer) (t : Timer) (lo : ℕ)
    → lo ≤ t.expiration
    → Ascending lo xs
    → Ascending lo (emplace t xs)
unfolding Ascending emplace
emplace-Ascending [] t lo h a = (h, tt)
emplace-Ascending (x ∷ xs) t lo h (p, a) = elim (Bool-cases (ltb t.expiration x.expiration)) [
  | inl e ↦ rw (e, Ascending) (h, (omega (arith, ltb→lt _ _ e), a))
  | inr e ↦ rw (e, Ascending) (p, emplace-Ascending xs t (x.expiration) (ltb→ge _ _ e) a)
]

-- The number of timers that pass a test.
abbrev pub tally : (Timer → Bool) → List Timer → ℕ
tally p [] = 0
tally p (x ∷ xs) = one_if (p x) + tally p xs

pub tally-emplace :
    (p : Timer → Bool) (t : Timer) (xs : List Timer)
    → tally p (emplace t xs) ≡ one_if (p t) + tally p xs
unfolding emplace
tally-emplace p t [] = refl
tally-emplace p t (x ∷ xs) = elim (Bool-cases (ltb t.expiration x.expiration)) [
  | inl e ↦ rw e refl
  | inr e ↦ rw e (omega (arith, tally-emplace p t xs))
]

pub tally-append :
    (p : Timer → Bool) (xs ys : List Timer) → tally p (xs ++ ys) ≡ tally p xs + tally p ys
tally-append p [] ys = omega arith
tally-append p (x ∷ xs) ys = omega (arith, tally-append p xs ys)

-- Those that pass a test, in order.
abbrev pub keep : (Timer → Bool) → List Timer → List Timer
keep p [] = []
keep p (x ∷ xs) = let rest = keep p xs in if p x then x ∷ rest else rest

-- A timer is due when it expires before the sentry.
abbrev pub is_due : ℕ → Timer → Bool
is_due sentry t = ltb t.expiration sentry

none_due :
    (xs : List Timer) (sentry lo : ℕ) → sentry ≤ lo → Ascending lo xs → keep (is_due sentry) xs ≡ []
unfolding Ascending
none_due [] sentry lo h a = refl
none_due (x ∷ xs) sentry lo h (p, a) =
    rw (not_ltb (x.expiration) sentry (omega arith))
      (none_due xs sentry (x.expiration) (omega arith) a)

pub before_sentry-keep :
    (xs : List Timer) (sentry lo : ℕ)
    → Ascending lo xs
    → before_sentry sentry xs ≡ keep (is_due sentry) xs
unfolding Ascending before_sentry
before_sentry-keep [] sentry lo a = refl
before_sentry-keep (x ∷ xs) sentry lo (p, a) = elim (Bool-cases (ltb x.expiration sentry)) [
  | inl e ↦ rw (e, before_sentry-keep xs sentry (x.expiration) a) refl
  | inr e ↦ rw e (sym (none_due xs sentry (x.expiration) (ltb→ge _ _ e) a))
]

all_late :
    (xs : List Timer) (sentry lo : ℕ)
    → sentry ≤ lo
    → Ascending lo xs
    → keep (λ t. not (is_due sentry t)) xs ≡ xs
unfolding Ascending
all_late [] sentry lo h a = refl
all_late (x ∷ xs) sentry lo h (p, a) =
    rw (not_ltb (x.expiration) sentry (omega arith))
      (ap (λ ys. x ∷ ys) (all_late xs sentry (x.expiration) (omega arith) a))

pub from_sentry-keep :
    (xs : List Timer) (sentry lo : ℕ)
    → Ascending lo xs
    → from_sentry sentry xs ≡ keep (λ t. not (is_due sentry t)) xs
unfolding Ascending from_sentry
from_sentry-keep [] sentry lo a = refl
from_sentry-keep (x ∷ xs) sentry lo (p, a) = elim (Bool-cases (ltb x.expiration sentry)) [
  | inl e ↦ rw e (from_sentry-keep xs sentry (x.expiration) a)
  | inr e ↦ rw e (ap (λ ys. x ∷ ys) (sym (all_late xs sentry (x.expiration) (ltb→ge _ _ e) a)))
]

pub from_sentry-Ascending :
    (xs : List Timer) (sentry lo : ℕ) → Ascending lo xs → Ascending lo (from_sentry sentry xs)
unfolding Ascending from_sentry
from_sentry-Ascending [] sentry lo a = tt
from_sentry-Ascending (x ∷ xs) sentry lo (p, a) = elim (Bool-cases (ltb x.expiration sentry)) [
  | inl e ↦
      rw e (Ascending-from _ (x.expiration) lo p (from_sentry-Ascending xs sentry (x.expiration) a))
  | inr e ↦ rw (e, Ascending) (p, a)
]

-- A timer expires at the sentry itself.
abbrev pub any_at : ℕ → List Timer → Bool
any_at sentry [] = false
any_at sentry (x ∷ xs) = let rest = any_at sentry xs in x.expiration == sentry || rest

none_at :
    (xs : List Timer) (sentry lo : ℕ) → sentry < lo → Ascending lo xs → any_at sentry xs ≡ false
unfolding Ascending
none_at [] sentry lo h a = refl
none_at (x ∷ xs) sentry lo h (p, a) =
    rw (==_ne (x.expiration) sentry (λ z. omega arith))
      (none_at xs sentry (x.expiration) (omega arith) a)

-- The check behind `lower_bound` fails exactly when a timer expires at the sentry.
pub is_behind-from_sentry :
    (xs : List Timer) (sentry lo : ℕ)
    → Ascending lo xs
    → is_behind sentry (from_sentry sentry xs) ≡ not (any_at sentry xs)
unfolding Ascending from_sentry is_behind
is_behind-from_sentry [] sentry lo a = refl
is_behind-from_sentry (x ∷ xs) sentry lo (p, a) = elim (Bool-cases (ltb x.expiration sentry)) [
  | inl e ↦
      rw (e, ==_ne (x.expiration) sentry (λ z. omega (arith, ltb→lt _ _ e)))
        (is_behind-from_sentry xs sentry (x.expiration) a)
  | inr e ↦ elim (Bool-cases (x.expiration == sentry)) [
    | inl s ↦
        let same = (==_iff (x.expiration) sentry).0 s in
        rw (e, s, not_ltb sentry (x.expiration) (omega arith), is_behind) refl
    | inr s ↦
        let ne : x.expiration ≢ sentry = λ z. ground (arith, (==_iff (x.expiration) sentry).1 z) in
        let ge = ltb→ge _ _ e in
        let lt : sentry < x.expiration = omega arith in
        rw (e, s, lt→ltb sentry (x.expiration) lt, none_at xs sentry (x.expiration) lt a, is_behind)
          refl
  ]
]
