-- ===== src/Backoff/Tests.antt =====
-- Runs of the backoff, with an engine that draws one of the bounds in turn.
use eureka.Common.{
  ℕ, suc, ◌+◌, ◌-◌, ◌*◌, ◌^◌, ◌≡◌, ◌≤◌, refl, min, [], ◌∷◌, some, ok, err, undefined,
  negative_delay, arith, ◌>>=◌, if◌then◌else◌, Bool, true, false, not,
}
use eureka.Common.Int.{negsuc}
use eureka.Backoff.{
  Random, Backoff, apply, next_delay, exponential, exponential_decorrelated_jitter, make_constant,
  make_linear, make_exponential, make_exponential_decorrelated_jitter, exponential_delay,
}
use eureka.Backoff.Delays.{
  delays, delays_after, planned, delays-make_constant, delays-make_linear, delays-make_exponential,
}
use eureka.Backoff.Attempts.{
  Code, success, attempt_failure, attempt, attempt_ends, attempt_gives_up,
}
use eureka.Backoff.Jitter.{
  Plans, apply_twice-undefined, delays-make_exponential_decorrelated_jitter,
}

abbrev alternate : Bool → ℕ → ℕ → ℕ × Bool
alternate high lo hi = ((if high then hi else lo), not high)

alternate-in_range :
    (high : Bool) (lo hi : ℕ)
    → lo ≤ hi
    → (lo ≤ (alternate high lo hi).0) × ((alternate high lo hi).0 ≤ hi)
alternate-in_range true lo hi h = omega arith
alternate-in_range false lo hi h = omega arith

abbrev random : Random
random = record { Engine = Bool; draw = alternate; draw_in_range = alternate-in_range }

program : Unit {0}
unfolding delays delays_after planned next_delay apply make_constant make_linear make_exponential
    make_exponential_decorrelated_jitter attempt exponential_delay
program = tt

doubling_delays :
    delays random 5 (make_exponential random true 100 4 500) ≡ ok (100 ∷ 200 ∷ 400 ∷ 500 ∷ [])
unfolding program
doubling_delays = refl

delays-make_constant_example :
    delays random 4 (make_constant random true 50 3) ≡ ok (planned (λ n. 50) 3 0)
delays-make_constant_example = delays-make_constant random true 50 3 4 (omega arith)

delays-make_linear_example :
    delays random 4 (make_linear random true 50 3 20 80)
    ≡ ok (planned (λ n. min (50 + n * 20) 80) 3 0)
delays-make_linear_example = delays-make_linear random true 50 3 20 80 4 (omega arith) (omega arith)

delays-make_exponential_example :
    delays random 5 (make_exponential random true 100 4 500)
    ≡ ok (planned (λ n. min (100 * 2 ^ n) 500) 4 0)
delays-make_exponential_example =
    delays-make_exponential random true 100 4 500 5 (omega arith) (omega arith) (omega arith)

-- The shift reaches the sign at 31, and is undefined behind it.
abbrev after : ℕ → Backoff random
after done = record {
  policy = exponential 500;
  engine = true;
  base = 100;
  max_retries = 40;
  done_retries = done;
}

late :
    (exponential_delay 100 31 500 ≡ ok (negsuc (100 * 2 ^ 31 - 1)))
    × (next_delay random (after 31) ≡ err negative_delay)
    × (next_delay random (after 32) ≡ err undefined)
unfolding program
late = (refl, refl, refl)

abbrev third_time : ℕ → Code
third_time (suc (suc n)) = success
third_time _ = attempt_failure

abbrev never : ℕ → Code
never n = attempt_failure

attempt_ends_example :
    attempt random third_time 5 0 (make_exponential random true 100 4 500) 0
    ≡ some (ok (success, 3, 300))
unfolding program
attempt_ends_example =
    attempt_ends random third_time 2 5 (make_exponential random true 100 4 500)
      (100 ∷ 200 ∷ 400 ∷ 500 ∷ []) doubling_delays (omega arith) (omega arith) (refl, (refl, tt))
      (λ e. cc)

attempt_gives_up_example :
    attempt random never 5 0 (make_exponential random true 100 4 500) 0
    ≡ some (ok (attempt_failure, 5, 1200))
unfolding program
attempt_gives_up_example =
    attempt_gives_up random never 5 (make_exponential random true 100 4 500)
      (100 ∷ 200 ∷ 400 ∷ 500 ∷ []) doubling_delays (omega arith)
      (refl, (refl, (refl, (refl, (refl, tt)))))

apply_twice-undefined_example :
    (apply random (exponential_decorrelated_jitter 10 0) true 100 0
      >>= (λ r. apply random r.1 r.2 100 1))
    ≡ err undefined
apply_twice-undefined_example =
    apply_twice-undefined random true 100 0 10 (omega arith) (omega arith) (omega arith)

delays-make_exponential_decorrelated_jitter_example :
    Plans random 100 900 3
      (delays random 4 (make_exponential_decorrelated_jitter random true 100 3 900))
delays-make_exponential_decorrelated_jitter_example =
    delays-make_exponential_decorrelated_jitter random true 100 3 900 4 (omega arith) (omega arith)
      (omega arith)
