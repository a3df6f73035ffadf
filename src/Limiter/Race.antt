-- ===== src/Limiter/Race.antt =====
-- `Take` reads the clock before it takes the lock, so two calls can meet the bucket in the order
-- that is not that of their ticks.
use eureka.Common.{ℕ, ◌+◌, ◌≤◌, ◌<◌, ◌≡◌, err, check_failed, ◌>>=◌, not_leb, arith}
use eureka.Limiter.{Bucket, adjust, do_take}
use eureka.Limiter.Budget.{Budget, InRange}
use eureka.Limiter.Rate.{do_take_lem}

pub adjust_late : (b : Bucket) (t : ℕ) → t < b.latest_tick → adjust b t ≡ err check_failed
unfolding adjust
adjust_late b t h = rw (not_leb b.latest_tick t h)

-- The call with the later tick is served first, while the numbers stay in the range of `int64_t`: the
-- other one ends in the failed assertion of `AdjustAvailableTokens`.
pub do_take_overtaken :
    (b : Bucket) (t u m n total : ℕ)
    → Budget b total
    → b.latest_tick ≤ u
    → InRange b u (total + m)
    → t < u
    → (do_take b u m >>= (λ r. do_take r.1 t n)) ≡ err check_failed
unfolding do_take
do_take_overtaken b t u m n total v h fits k =
    let ((wait, c), (done, adj, _, _, _, _)) = do_take_lem b u m total h fits v in
    rw (done, adjust_late c t (omega arith))
