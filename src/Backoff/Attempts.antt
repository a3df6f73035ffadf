-- ===== src/Backoff/Attempts.antt =====
-- `attempt` of backoff-retry/backoff/backoff_attempt.h: the loop that calls until a call succeeds,
-- fails hard, or the retries are used up. What the calls answer is a parameter.
use eureka.Common.{
  ℕ, zero, suc, ◌+◌, ◌≤◌, ◌<◌, ◌≡◌, ◌≢◌, refl, sym, ap, subst, Option, none, some, List, [], ◌∷◌,
  Result, ok, err, arith, length, take,
}
use eureka.Backoff.{Random, Backoff, next_delay}
use eureka.Backoff.Delays.{delays, delays_after}

pub data Code : Type 0 where
  success attempt_failure hard_error : Code

-- What the loop returns: the code, and how long it has slept in all.
module _ (random : Random) where
  open random use {Engine}

  -- `answer n` is what the call number `n` of `fn` returns. `none` means that the fuel ran out.
  unfoldable pub attempt : (ℕ → Code) → ℕ → ℕ → Backoff random → ℕ → Option (Result (Code × ℕ × ℕ))
  attempt answer zero n b slept = none
  attempt answer (suc fuel) n b slept =
      let again : Option ℕ × Backoff random → Option (Result (Code × ℕ × ℕ)) = λ r. elim r.0 [
        | none ↦ some (ok (attempt_failure, n + 1, slept))
        | some delay ↦ attempt answer fuel (n + 1) r.1 (slept + delay)
      ] in
      let retry : Option (Result (Code × ℕ × ℕ)) = elim (next_delay random b) [
        | err e ↦ some (err e)
        | ok r ↦ again r
      ] in
      elim (answer n) [
        | success ↦ some (ok (success, n + 1, slept))
        | hard_error ↦ some (ok (hard_error, n + 1, slept))
        | attempt_failure ↦ retry
      ]

abbrev pub sum : List ℕ → ℕ
sum [] = 0
sum (d ∷ ds) = d + sum ds

-- The first `k` calls from the call number `n` on fail in a way that allows a retry.
abbrev pub AllFail : (ℕ → Code) → ℕ → ℕ → Type 0
AllFail answer n zero = Unit {0}
AllFail answer n (suc k) = (answer n ≡ attempt_failure) × AllFail answer (n + 1) k

module _ (random : Random) where
  open random use {Engine}

  -- The delays of a backoff, one call of `next_delay` each, and then none.
  abbrev Schedule : List ℕ → Backoff random → Type 0
  Schedule [] b = (c : Backoff random) × (next_delay random b ≡ ok (none, c))
  Schedule (d ∷ ds) b =
      (c : Backoff random) × (next_delay random b ≡ ok (some d, c)) × Schedule ds c

  none_after :
      (rest : Backoff random → Result (List ℕ)) (b : Backoff random)
      → (r : Result (Option ℕ × Backoff random)) → next_delay random b ≡ r
      → delays_after random rest r ≡ ok []
      → Schedule [] b
  unfolding delays_after
  none_after rest b (err e) q k = ground arith
  none_after rest b (ok (none, c)) q k = (c, q)
  none_after rest b (ok (some d, c)) q k = ground arith

  some_after :
      (rest : Backoff random → Result (List ℕ)) (b : Backoff random) (d : ℕ) (ds : List ℕ)
      → (r : Result (Option ℕ × Backoff random)) → next_delay random b ≡ r
      → delays_after random rest r ≡ ok (d ∷ ds)
      → (c : Backoff random) × (next_delay random b ≡ ok (some d, c)) × (rest c ≡ ok ds)
  unfolding delays_after
  some_after rest b d ds (err e) q k = ground arith
  some_after rest b d ds (ok (none, c)) q k = ground arith
  some_after rest b d ds (ok (some d', c)) q k = (c, ground arith, ground arith)

  Schedule-delays :
      (fuel : ℕ) (b : Backoff random) (ds : List ℕ)
      → length ds < fuel
      → delays random fuel b ≡ ok ds
      → Schedule ds b
  unfolding delays
  Schedule-delays zero b ds h k = absurd (omega arith)
  Schedule-delays (suc fuel) b [] h k =
      none_after (delays random fuel) b (next_delay random b) refl k
  Schedule-delays (suc fuel) b (d ∷ ds) h k =
      let (c, now, later) = some_after (delays random fuel) b d ds (next_delay random b) refl k in
      (c, now, Schedule-delays fuel c ds (omega arith) later)

  ends_by :
      (answer : ℕ → Code) (k fuel n slept : ℕ) (b : Backoff random) (ds : List ℕ)
      → Schedule ds b
      → k ≤ length ds
      → k < fuel
      → AllFail answer n k
      → answer (n + k) ≢ attempt_failure
      → attempt random answer fuel n b slept
        ≡ some (ok (answer (n + k), n + k + 1, slept + sum (take k ds)))
  unfolding attempt
  ends_by answer k zero n slept b ds plan h enough fail last = absurd (omega arith)
  ends_by answer zero (suc fuel) n slept b ds plan h enough fail last =
      let here : n + 0 ≡ n = omega arith in ground (arith, ap answer here)
  ends_by answer (suc k) (suc fuel) n slept b [] plan h enough fail last = absurd (omega arith)
  ends_by answer (suc k) (suc fuel) n slept b (d ∷ ds) (c, delay, plan) h enough fail last =
      let there : n + 1 + k ≡ n + suc k = omega arith in
      ground (
        arith,
        fail.0,
        delay,
        ap answer there,
        ends_by answer k fuel (n + 1) (slept + d) c ds plan (omega arith) (omega arith) fail.1
            (subst (λ m. answer m ≢ attempt_failure) (sym there) last),
      )

  gives_up :
      (answer : ℕ → Code) (fuel n slept : ℕ) (b : Backoff random) (ds : List ℕ)
      → Schedule ds b
      → length ds < fuel
      → AllFail answer n (length ds + 1)
      → attempt random answer fuel n b slept
        ≡ some (ok (attempt_failure, n + length ds + 1, slept + sum ds))
  unfolding attempt
  gives_up answer zero n slept b ds plan enough fail = absurd (omega arith)
  gives_up answer (suc fuel) n slept b [] (c, over) enough fail = ground (arith, fail.0)
  gives_up answer (suc fuel) n slept b (d ∷ ds) (c, delay, plan) enough fail =
      let count : length (d ∷ ds) + 1 ≡ suc (length ds + 1) = omega arith in
      let fail' : AllFail answer n (suc (length ds + 1)) = subst (AllFail answer n) count fail in
      ground
        (arith, fail'.0, gives_up answer fuel (n + 1) (slept + d) c ds plan (omega arith) fail'.1)

  -- A retry loop over a backoff with the delays `ds`: if the first answer that is not a retryable
  -- failure is the call number `k`, and `k` is at most the number of delays, the loop returns it, after
  -- `k + 1` calls and the first `k` delays.
  pub attempt_ends :
      (answer : ℕ → Code) (k fuel : ℕ) (b : Backoff random) (ds : List ℕ)
      → delays random fuel b ≡ ok ds
      → length ds < fuel
      → k ≤ length ds
      → AllFail answer 0 k
      → answer k ≢ attempt_failure
      → attempt random answer fuel 0 b 0 ≡ some (ok (answer k, k + 1, sum (take k ds)))
  attempt_ends answer k fuel b ds plan enough h fail last =
      let start : 0 + k ≡ k = omega arith in
      let run =
        ends_by answer k fuel 0 0 b ds (Schedule-delays fuel b ds enough plan) h (omega arith) fail
          (subst (λ m. answer m ≢ attempt_failure) (sym start) last) in
      ground (arith, run, ap answer start)

  -- If the answers up to the last retry are all retryable failures, the loop gives up after one call
  -- more than there are delays, and has slept them all.
  pub attempt_gives_up :
      (answer : ℕ → Code) (fuel : ℕ) (b : Backoff random) (ds : List ℕ)
      → delays random fuel b ≡ ok ds
      → length ds < fuel
      → AllFail answer 0 (length ds + 1)
      → attempt random answer fuel 0 b 0 ≡ some (ok (attempt_failure, length ds + 1, sum ds))
  attempt_gives_up answer fuel b ds plan enough fail =
      ground
        (arith, gives_up answer fuel 0 0 b ds (Schedule-delays fuel b ds enough plan) enough fail)
