-- ===== src/Limiter/Tests.antt =====
-- Runs of the token bucket.
use eureka.Common.{
  ℕ, ◌≡◌, refl, List, [], ◌∷◌, ok, err, check_failed, invalid_argument, undefined, arith, ◌>>=◌,
}
use eureka.Common.Int.{pos, negsuc, ◌+ℤ◌, ◌-ℤ◌}
use eureka.Limiter.{
  Bucket, new, adjust, do_take, do_take_available, take, take_available, wait_for, int64_max,
}
use eureka.Limiter.Budget.{Budget}
use eureka.Limiter.Rate.{Takes, do_take_lem, Request, takes, takes_available}
use eureka.Limiter.Available.{TakesAvailable, do_take_available_lem}
use eureka.Limiter.Race.{do_take_overtaken}

program : Unit {0}
unfolding new adjust do_take do_take_available take take_available wait_for ◌+ℤ◌ ◌-ℤ◌
program = tt

abbrev bucket : Bucket
bucket = record { capacity = 20; available = pos 20; fill_tick = 5; quantum = 10; latest_tick = 0 }

refused :
    (new (pos 20) 5 (pos 21) ≡ err invalid_argument)
    × (new (negsuc 0) 5 (pos 1) ≡ err invalid_argument)
unfolding program
refused = (refl, refl)

-- The loop of `main.cpp`: 64 tokens of a bucket of 20 are a debt of 44, which is five ticks.
waits : (take bucket 0 (pos 64) >>= (λ r. ok r.0)) ≡ ok 25
unfolding program
waits = refl

-- The second of two calls for all that an `int64_t` holds leaves its range.
overflows : (do_take bucket 0 int64_max >>= (λ r. do_take r.1 0 int64_max)) ≡ err undefined
unfolding program
overflows = refl

bucket-Budget : Budget bucket 0
bucket-Budget = record {
  full = omega arith;
  spent = omega arith;
  flows = omega arith;
  debt = omega arith;
}

do_take_lem_example : (r : ℕ × Bucket) × Takes bucket 1 64 0 r
do_take_lem_example = do_take_lem bucket 1 64 0 (omega arith) (omega arith) bucket-Budget

do_take_available_lem_example : (r : ℕ × Bucket) × TakesAvailable bucket 1 64 0 r
do_take_available_lem_example =
    do_take_available_lem bucket 1 64 0 (omega arith) (omega arith) bucket-Budget

abbrev requests : List (ℕ × Request)
requests = (0, takes 64) ∷ (3, takes_available 7) ∷ (9, takes_available 50) ∷ []

do_take_overtaken_example : (do_take bucket 4 1 >>= (λ r. do_take r.1 3 1)) ≡ err check_failed
do_take_overtaken_example =
    do_take_overtaken bucket 3 4 1 1 0 bucket-Budget (omega arith) (omega arith) (omega arith)
