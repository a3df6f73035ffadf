-- ===== src/Backoff/Delays.antt =====
-- The delays of the policies that draw nothing, in closed form, and how many there are.
use native.Mathlib.Nat.{pow-suc}
use eureka.Common.{
  ℕ, zero, suc, ◌+◌, ◌*◌, ◌^◌, ◌≤◌, ◌<◌, ◌≡◌, refl, min, Option, none, some, List, [], ◌∷◌, Result,
  ok, err, ◌>>=◌, ◌==◌, arith, le→leb, lt→ltb, true, false,
}
use eureka.Backoff.{
  Random, constant, linear, exponential, Backoff, next_delay, apply, duration_max, make_constant,
  make_linear, make_exponential, make,
}

module _ (random : Random) where
  unfoldable pub delays_after :
      (Backoff random → Result (List ℕ)) → Result (Option ℕ × Backoff random) → Result (List ℕ)
  delays_after rest (err e) = err e
  delays_after rest (ok (none, c)) = ok []
  delays_after rest (ok (some d, c)) = rest c >>= (λ ds. ok (d ∷ ds))

  -- The delays until there is none, with a bound on the calls.
  unfoldable pub delays : ℕ → Backoff random → Result (List ℕ)
  unfolding delays_after
  delays zero b = ok []
  delays (suc fuel) b = delays_after (delays fuel) (next_delay random b)

-- The delays that the retries `from`, `from + 1`, … of `count` rounds should have.
unfoldable pub planned : (ℕ → ℕ) → ℕ → ℕ → List ℕ
planned plan zero from = []
planned plan (suc count) from = plan from ∷ planned plan count (from + 1)

pow_mono : (n m : ℕ) → n ≤ m → 2 ^ n ≤ 2 ^ m
pow_mono zero zero h = omega arith
pow_mono zero (suc m) h = omega (arith, pow-suc 2 m, pow_mono zero m (omega arith))
pow_mono (suc n) zero h = absurd (omega arith)
pow_mono (suc n) (suc m) h = omega (arith, pow-suc 2 n, pow-suc 2 m, pow_mono n m (omega arith))

product_fits : (a b : ℕ) → a ≤ 2 ^ 32 → b ≤ 2 ^ 30 → a * b ≤ duration_max
product_fits a b h k = let left : a * b ≤ 2 ^ 32 * b = grind arith in omega arith

module _ (random : Random) where
  open random use {Engine}

  delays_by :
      (plan : ℕ → ℕ) (left fuel : ℕ) (b : Backoff random)
      → left < fuel
      → b.done_retries + left ≡ b.max_retries
      → ((n : ℕ)
          → n < b.max_retries
          → apply random b.policy b.engine b.base n ≡ ok (plan n, b.policy, b.engine))
      → delays random fuel b ≡ ok (planned plan left b.done_retries)
  unfolding delays planned next_delay
  delays_by plan left zero b enough rounds plans = absurd (omega arith)
  delays_by plan zero (suc fuel) b enough rounds plans =
      let over : (b.done_retries == b.max_retries) ≡ true = ground arith in rw over
  delays_by plan (suc left) (suc fuel) b enough rounds plans =
      let more : (b.done_retries == b.max_retries) ≡ false = ground arith in
      let ih =
        delays_by plan left fuel (record b { done_retries = b.done_retries + 1 }) (omega arith)
          (omega arith) plans in
      rw (more, plans b.done_retries (omega arith), ih)

  -- Every retry of the constant policy waits the same.
  pub delays-make_constant :
      (e : Engine) (delay max_retries fuel : ℕ)
      → max_retries < fuel
      → delays random fuel (make_constant random e delay max_retries)
        ≡ ok (planned (λ n. delay) max_retries 0)
  unfolding make_constant apply
  delays-make_constant e delay max_retries fuel enough =
      delays_by (λ n. delay) max_retries fuel (make random constant e delay max_retries) enough
        (omega arith) (λ n h. refl)

  -- The linear policy grows by its increment up to the bound, while the sums fit a duration.
  pub delays-make_linear :
      (e : Engine) (base max_retries increment max_delay fuel : ℕ)
      → max_retries < fuel
      → base + max_retries * increment ≤ duration_max
      → delays random fuel (make_linear random e base max_retries increment max_delay)
        ≡ ok (planned (λ n. min (base + n * increment) max_delay) max_retries 0)
  unfolding make_linear apply
  delays-make_linear e base max_retries increment max_delay fuel enough fits =
      delays_by (λ n. min (base + n * increment) max_delay) max_retries fuel
        (make random (linear increment max_delay) e base max_retries) enough (omega arith) step
    where
      step :
          (n : ℕ)
          → n < max_retries
          → apply random (linear increment max_delay) e base n
            ≡ ok (min (base + n * increment) max_delay, linear increment max_delay, e)
      step n h =
          let mono : n * increment ≤ max_retries * increment = grind arith in
          rw (
            le→leb (n * increment) duration_max (omega arith),
            le→leb (base + n * increment) duration_max (omega arith),
          )

  -- The exponential policy doubles up to the bound, for at most 31 retries whose products fit.
  pub delays-make_exponential :
      (e : Engine) (base max_retries max_delay fuel : ℕ)
      → max_retries < fuel
      → max_retries ≤ 31
      → base ≤ 2 ^ 32
      → delays random fuel (make_exponential random e base max_retries max_delay)
        ≡ ok (planned (λ n. min (base * 2 ^ n) max_delay) max_retries 0)
  unfolding make_exponential apply
  delays-make_exponential e base max_retries max_delay fuel enough few small =
      delays_by (λ n. min (base * 2 ^ n) max_delay) max_retries fuel
        (make random (exponential max_delay) e base max_retries) enough (omega arith) step
    where
      step :
          (n : ℕ)
          → n < max_retries
          → apply random (exponential max_delay) e base n
            ≡ ok (min (base * 2 ^ n) max_delay, exponential max_delay, e)
      step n h =
          let power : 2 ^ n ≤ 2 ^ 30 = pow_mono n 30 (omega arith) in
          let fits : base * 2 ^ n ≤ duration_max = product_fits base (2 ^ n) small power in
          rw (lt→ltb n 31 (omega arith), le→leb (base * 2 ^ n) duration_max fits)
