-- ===== src/Limiter.antt =====
-- token-bucket-rate-limit/ratelimit/bucket_limiter.h and bucket_limiter.cpp: a bucket of tokens that
-- fills by `quantum` on each tick.
-- `available` may fall below zero. What leaves the range of `int64_t` is undefined, and each sum,
-- difference and product that may do so is checked. Time enters as what has passed since the bucket
-- was made; it and the length of a tick are at least 0.
pub mod Budget
pub mod Waiting
pub mod Available
pub mod Rate
pub mod Race
mod Tests
use eureka.Common.{
  ℕ, zero, suc, ◌+◌, ◌-◌, ◌*◌, ◌/◌, ◌^◌, Result, ok, err, check_failed, invalid_argument, undefined,
  ◌>>=◌, ◌>>◌, ensure, not, ◌||◌, leb, ltb, ◌==◌, if◌then◌else◌,
}
use eureka.Common.Int.{ℤ, pos, negsuc, pos_part, neg_part, ◌+ℤ◌, ◌-ℤ◌, ltb_ℤ}

pub record Bucket : Type 0 where
  pub capacity : ℕ
  pub available : ℤ
  pub fill_tick : ℕ
  pub quantum : ℕ
  pub latest_tick : ℕ

abbrev pub min_ℤ : ℤ → ℤ → ℤ
min_ℤ a b = if ltb_ℤ b a then b else a

-- The constructor. Past its checks the two numbers are positive.
unfoldable pub new : ℤ → ℕ → ℤ → Result Bucket
new cap fill_tick quantum =
    if not (ltb_ℤ (pos 0) cap)
    then err invalid_argument
    else if not (ltb_ℤ (pos 0) quantum) || ltb_ℤ cap quantum
    then err invalid_argument
    else ok (record {
      capacity = pos_part cap;
      available = cap;
      fill_tick = fill_tick;
      quantum = pos_part quantum;
      latest_tick = 0;
    })

abbrev pub int64_max : ℕ
int64_max = 2 ^ 63 - 1

-- A result in `int64_t`.
abbrev pub in_int64 : ℤ → Result ℤ
in_int64 (pos n) = if leb n int64_max then ok (pos n) else err undefined
in_int64 (negsuc n) = if leb n int64_max then ok (negsuc n) else err undefined

-- `AdjustAvailableTokens`.
unfoldable pub adjust : Bucket → ℕ → Result Bucket
adjust b current_tick = do
  ensure (leb b.latest_tick current_tick) check_failed
  let last_tick = b.latest_tick
  let ticked : Bucket = record b { latest_tick = current_tick }
  if ltb_ℤ b.available (pos b.capacity)
      then (do
        filled_tokens ← in_int64 (pos ((current_tick - last_tick) * b.quantum))
        filled ← in_int64 (b.available +ℤ filled_tokens)
        ok (record ticked { available = min_ℤ filled (pos b.capacity) }))
      else ok ticked

-- `(-remain + quantum_ - 1) / quantum_ * fill_tick_`, for a remainder below zero.
unfoldable pub wait_for : Bucket → ℤ → Result ℕ
wait_for b remain = do
  owed ← in_int64 (pos (neg_part remain))
  rounded ← in_int64 (owed +ℤ pos b.quantum)
  let wait_ticks = (pos_part rounded - 1) / b.quantum
  wait ← in_int64 (pos (wait_ticks * b.fill_tick))
  ok (pos_part wait)

-- `DoTake`, with the duration to wait.
unfoldable pub do_take : Bucket → ℕ → ℕ → Result (ℕ × Bucket)
do_take b current_ticks count = do
  c ← adjust b current_ticks
  remain ← in_int64 (c.available -ℤ pos count)
  let charged : Bucket = record c { available = remain }
  if ltb_ℤ remain (pos 0)
      then wait_for c remain >>= (λ wait. ok (wait, charged))
      else ok (0, charged)

-- `DoTakeAvailable`.
unfoldable pub do_take_available : Bucket → ℕ → ℕ → Result (ℕ × Bucket)
do_take_available b current_ticks count = do
  c ← adjust b current_ticks
  let taken = pos_part (min_ℤ (pos count) c.available)
  if ltb_ℤ (pos 0) c.available
      then (do
        left ← in_int64 (c.available -ℤ pos taken)
        ok (taken, record c { available = left }))
      else ok (0, c)

-- `(Clock::now() - start_time_) / fill_tick_`; the constructor does not check the length of a tick.
unfoldable pub ticks_since_start : Bucket → ℕ → Result ℕ
ticks_since_start b elapsed = if b.fill_tick == 0 then err undefined else ok (elapsed / b.fill_tick)

-- `Take`, with the duration to wait.
unfoldable pub take : Bucket → ℕ → ℤ → Result (ℕ × Bucket)
unfolding ticks_since_start
take b elapsed (negsuc n) = err check_failed
take b elapsed (pos zero) = ok (0, b)
take b elapsed (pos (suc n)) = do ticks ← ticks_since_start b elapsed; do_take b ticks (suc n)

-- `TakeAvailable`.
unfoldable pub take_available : Bucket → ℕ → ℤ → Result (ℕ × Bucket)
unfolding ticks_since_start
take_available b elapsed (negsuc n) = err check_failed
take_available b elapsed (pos zero) = ok (0, b)
take_available b elapsed (pos (suc n)) = do
  ticks ← ticks_since_start b elapsed
  do_take_available b ticks (suc n)
