-- ===== src/Timers.antt =====
-- NetworkInfra/src: timer.h, timer.cpp and timer_queue.cpp, the timers of an event loop.
-- A time point is in nanoseconds, an interval in microseconds, and a negative interval counts as 0. A
-- clock reading is an argument. A handler is a number, an empty one `none`; what handlers add to the
-- queue is a parameter. `timerfd_settime` and the thread's test succeed.
pub mod Sorted
pub mod Armed
pub mod Ticks
mod Tests
use eureka.Common.{
  ℕ, zero, suc, ◌+◌, ◌-◌, ◌*◌, ◌/◌, ◌%◌, Bool, true, false, List, [], ◌∷◌, ◌++◌, Option, none, some,
  Result, ok, err, check_failed, ◌>>=◌, ◌>>◌, ensure, ltb, leb, ◌==◌, ◌||◌, if◌then◌else◌,
}

pub record Timer : Type 0 where
  pub handler : ℕ
  pub expiration : ℕ
  pub interval : ℕ

unfoldable pub make_timer : Option ℕ → ℕ → ℕ → Result Timer
make_timer none when interval = err check_failed
make_timer (some h) when interval =
    ok (record { handler = h; expiration = when; interval = interval })

unfoldable pub is_repeating : Timer → Bool
is_repeating t = ltb 0 t.interval

unfoldable pub restart : ℕ → Timer → Result Timer
restart now t =
    ensure (is_repeating t) check_failed >> ok (record t { expiration = now + t.interval * 1000 })

-- timer_queue.cpp
pub record Timespec : Type 0 where
  pub tv_sec : ℕ
  pub tv_nsec : ℕ

abbrev pub min_duration : ℕ
min_duration = 100

unfoldable pub convert_duration_to_timespec : ℕ → Timespec
convert_duration_to_timespec duration =
    let d = (if ltb duration min_duration then min_duration else duration) in
    record { tv_sec = d / 1000000; tv_nsec = (d - d / 1000000 * 1000000) * 1000 }

-- What `ResetTimerFD` sets the descriptor to; a duration below 0 is below the least one.
unfoldable pub reset_timer_fd : ℕ → ℕ → Timespec
reset_timer_fd now expiration = convert_duration_to_timespec ((expiration - now) / 1000)

-- The multimap is a list in the order of the keys, and `timer_fd` is its last setting.
pub record TimerQueue : Type 0 where
  pub timers : List Timer
  pub timer_fd : Option Timespec

-- `emplace` puts a new element behind those with an equal key.
unfoldable pub emplace : Timer → List Timer → List Timer
emplace t [] = t ∷ []
emplace t (x ∷ xs) =
    let rest = emplace t xs in if ltb t.expiration x.expiration then t ∷ x ∷ xs else x ∷ rest

unfoldable pub earliest_changed : ℕ → List Timer → Bool
earliest_changed when [] = true
earliest_changed when (x ∷ xs) = ltb when x.expiration

unfoldable pub insert_timer : Timer → TimerQueue → Bool × TimerQueue
insert_timer t q =
    (earliest_changed t.expiration q.timers, record q { timers = emplace t q.timers })

unfoldable pub add_timer : ℕ → Option ℕ → ℕ → ℕ → TimerQueue → Result TimerQueue
add_timer now handler when interval q = do
  t ← make_timer handler when interval
  let (new_earliest, r) = insert_timer t q
  ok (if new_earliest then record r { timer_fd = some (reset_timer_fd now when) } else r)

-- The elements before and from `lower_bound(sentry)`.
unfoldable pub before_sentry : ℕ → List Timer → List Timer
before_sentry sentry [] = []
before_sentry sentry (x ∷ xs) =
    let rest = before_sentry sentry xs in if ltb x.expiration sentry then x ∷ rest else []

unfoldable pub from_sentry : ℕ → List Timer → List Timer
from_sentry sentry [] = []
from_sentry sentry (x ∷ xs) =
    let rest = from_sentry sentry xs in if ltb x.expiration sentry then rest else x ∷ xs

-- `end == timers_.end() || sentry_time < end->first`
unfoldable pub is_behind : ℕ → List Timer → Bool
is_behind sentry [] = true
is_behind sentry (x ∷ xs) = ltb sentry x.expiration

unfoldable pub extract_expired : ℕ → TimerQueue → Result (List Timer × TimerQueue)
extract_expired sentry q =
    let rest = from_sentry sentry q.timers in
    ensure (is_behind sentry rest) check_failed
    >> ok (before_sentry sentry q.timers, record q { timers = rest })

-- A call of `AddTimer` by a handler, with the reading of the clock in it.
pub record Request : Type 0 where
  pub now : ℕ
  pub handler : ℕ
  pub when : ℕ
  pub interval : ℕ

module _ (requests : ℕ → List Request) where
  unfoldable pub add_all : List Request → TimerQueue → Result TimerQueue
  add_all [] q = ok q
  add_all (r ∷ rs) q = do
    next ← add_timer r.now (some r.handler) r.when r.interval q
    add_all rs next

  -- The loop of `OnTick`, with the handlers in the order of their calls.
  unfoldable pub tick_all : ℕ → List Timer → TimerQueue → Result (List ℕ × TimerQueue)
  tick_all sentry [] q = ok ([], q)
  tick_all sentry (t ∷ ts) q = do
    ticked ← add_all (requests t.handler) q
    next ←
        if is_repeating t
        then (restart sentry t >>= λ again. ok ((insert_timer again ticked).1))
        else ok ticked
    (called, last) ← tick_all sentry ts next
    ok (t.handler ∷ called, last)

  -- `last_now` is the clock when the descriptor is set again.
  unfoldable pub on_tick : ℕ → ℕ → TimerQueue → Result (List ℕ × TimerQueue)
  on_tick sentry last_now q = do
    (expired, left) ← extract_expired sentry q
    (called, r) ← tick_all sentry expired left
    ok (
      called,
      elim r.timers [
        | [] ↦ r
        | x ∷ xs ↦ record r { timer_fd = some (reset_timer_fd last_now x.expiration) }
      ],
    )
