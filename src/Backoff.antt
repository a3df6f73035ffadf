-- ===== src/Backoff.antt =====
-- backoff-retry/backoff/backoff_policy.h, backoff.h and backoff_attempt.h: delays between retries,
-- and the loop that retries.
-- A duration is a number of milliseconds, at least 0, of which `duration_type::max()` is the
-- greatest. `1 << n` on an `int` is its least value at 31 and undefined from 32 on (C++17), and a
-- product or a sum past the range of the duration's `int64_t` is undefined; both are written out. A
-- delay below 0, which the least value gives, ends a run of the model in a fault of its own. The random engine is a parameter: a
-- draw is a function of the range and of the engine's state.
pub mod Delays
pub mod Attempts
pub mod Jitter
mod Tests
use eureka.Common.{
  ℕ, zero, suc, ◌+◌, ◌-◌, ◌*◌, ◌^◌, ◌≤◌, min, Option, none, some, Result, ok, err, undefined, ◌>>=◌,
  ltb, leb, ◌==◌, if◌then◌else◌, List, [], ◌∷◌, Fault, negative_delay,
}
use eureka.Common.Int.{ℤ, pos, negsuc}

abbrev pub duration_max : ℕ
duration_max = 2 ^ 63 - 1

-- A duration that was computed in `int64_t`.
abbrev pub checked : ℕ → Result ℕ
checked n = if leb n duration_max then ok n else err undefined

-- `1 << n`: at 31 the value does not fit an `int` and is converted to the least one.
abbrev pub shift_one : ℕ → Result ℤ
shift_one n =
    if ltb n 31
    then ok (pos (2 ^ n))
    else if n == 31
    then ok (negsuc (2 ^ 31 - 1))
    else err undefined

-- The policies and their members. The last one remembers the delay before.
pub data Policy : Type 0 where
  constant : Policy
  linear : ℕ → ℕ → Policy
  exponential : ℕ → Policy
  exponential_full_jitter : ℕ → Policy
  exponential_decorrelated_jitter : ℕ → ℕ → Policy

-- The constructors that set no bound.
abbrev pub linear_unbounded : ℕ → Policy
linear_unbounded increment = linear increment duration_max

abbrev pub exponential_unbounded : Policy
exponential_unbounded = exponential duration_max

abbrev pub exponential_full_jitter_unbounded : Policy
exponential_full_jitter_unbounded = exponential_full_jitter duration_max

abbrev pub exponential_decorrelated_jitter_unbounded : Policy
exponential_decorrelated_jitter_unbounded = exponential_decorrelated_jitter duration_max 0

-- `std::default_random_engine` with `std::uniform_int_distribution`: a draw between two bounds.
-- A draw lies between its bounds, the bounds included.
pub record Random : Type 1 where
  pub Engine : Type 0
  pub draw : Engine → ℕ → ℕ → ℕ × Engine
  pub draw_in_range :
      (e : Engine) (lo hi : ℕ) → lo ≤ hi → (lo ≤ (draw e lo hi).0) × ((draw e lo hi).0 ≤ hi)

-- `base` times a factor, cut at the greatest delay. A negative factor gives a delay below 0, or 0,
-- which is not cut.
abbrev pub cut_delay : ℕ → ℤ → ℕ → Result ℤ
cut_delay base (pos factor) max_dur = do dur ← checked (base * factor); ok (pos (min dur max_dur))
cut_delay base (negsuc n) max_dur = do
  dur ← checked (base * suc n)
  ok (if dur == 0 then pos 0 else negsuc (dur - 1))

-- `std::min(base * (1 << done_retries), max_dur)`.
unfoldable pub exponential_delay : ℕ → ℕ → ℕ → Result ℤ
exponential_delay base done_retries max_dur = do
  factor ← shift_one done_retries
  cut_delay base factor max_dur

-- A delay of the model is not below 0.
abbrev pub at_least_0 : ℤ → Fault → Result ℕ
at_least_0 (pos n) e = ok n
at_least_0 (negsuc n) e = err e

module _ (random : Random) where
  open random use {Engine, draw}

  -- A distribution over a range that is upside down is undefined, with a bound below 0 too.
  abbrev pub draw_between : Engine → ℕ → ℕ → Result (ℕ × Engine)
  draw_between e lo hi = if leb lo hi then ok (draw e lo hi) else err undefined

  -- `apply`, with the policy and the engine behind it.
  unfoldable pub apply : Policy → Engine → ℕ → ℕ → Result (ℕ × Policy × Engine)
  unfolding exponential_delay
  apply constant e base done_retries = ok (base, constant, e)
  apply (linear increment max_dur) e base done_retries = do
    step ← checked (done_retries * increment)
    dur ← checked (base + step)
    ok (min dur max_dur, linear increment max_dur, e)
  apply (exponential max_dur) e base done_retries = do
    planned ← exponential_delay base done_retries max_dur
    dur ← at_least_0 planned negative_delay
    ok (dur, exponential max_dur, e)
  apply (exponential_full_jitter max_dur) e base done_retries = do
    planned ← exponential_delay base done_retries max_dur
    dur ← at_least_0 planned undefined
    (drawn, e') ← draw_between e 0 dur
    ok (drawn, exponential_full_jitter max_dur, e')
  apply (exponential_decorrelated_jitter max_dur last_dur) e base done_retries = do
    let last = if last_dur == 0 then base else last_dur
    bound ← checked (last * 3)
    (drawn, e') ← draw_between e base bound
    let final = min drawn max_dur
    ok (final, exponential_decorrelated_jitter max_dur final, e')

  -- The class `backoff`: a policy, and how many retries are done.
  pub record Backoff : Type 0 where
    pub policy : Policy
    pub engine : Engine
    pub base : ℕ
    pub max_retries : ℕ
    pub done_retries : ℕ

  unfoldable pub make : Policy → Engine → ℕ → ℕ → Backoff
  make policy engine base max_retries = record {
    policy = policy;
    engine = engine;
    base = base;
    max_retries = max_retries;
    done_retries = 0;
  }

  unfoldable pub next_delay : Backoff → Result (Option ℕ × Backoff)
  unfolding apply
  next_delay b =
      if b.done_retries == b.max_retries
      then ok (none, b)
      else apply b.policy b.engine b.base b.done_retries >>= (λ r.
        ok (some r.0, record b { policy = r.1; engine = r.2; done_retries = (b.done_retries + 1) }))

  unfoldable pub make_constant : Engine → ℕ → ℕ → Backoff
  unfolding make
  make_constant e delay max_retries = make constant e delay max_retries

  unfoldable pub make_linear : Engine → ℕ → ℕ → ℕ → ℕ → Backoff
  unfolding make
  make_linear e base max_retries increment max_delay =
      make (linear increment max_delay) e base max_retries

  unfoldable pub make_exponential : Engine → ℕ → ℕ → ℕ → Backoff
  unfolding make
  make_exponential e base max_retries max_delay = make (exponential max_delay) e base max_retries

  unfoldable pub make_exponential_full_jitter : Engine → ℕ → ℕ → ℕ → Backoff
  unfolding make
  make_exponential_full_jitter e base max_retries max_delay =
      make (exponential_full_jitter max_delay) e base max_retries

  unfoldable pub make_exponential_decorrelated_jitter : Engine → ℕ → ℕ → ℕ → Backoff
  unfolding make
  make_exponential_decorrelated_jitter e base max_retries max_delay =
      make (exponential_decorrelated_jitter max_delay 0) e base max_retries

  unfoldable pub reset : Backoff → Backoff
  reset b = record b { done_retries = 0 }
