-- ===== src/Timers/Armed.antt =====
-- NetworkInfra/src/timer_queue.cpp, `AddTimer`: the descriptor wakes the loop for the first timer.
use eureka.Common.{
  leb, ltb, max, ◌*◌, ◌/◌, ◌-◌, ◌<◌, ◌==◌, sym, ltb→lt, ltb→ge, le→leb, not_leb, ==_ne,
  if◌then◌else◌, Bool-cases, one_if, check_failed, ok, err, ℕ, ◌+◌, ◌≡◌, refl, ap, inl, inr, Bool,
  true, false, Option, none, some, List, [], ◌∷◌, arith,
}
use eureka.Timers.{
  Timer, make_timer, Timespec, min_duration, convert_duration_to_timespec, reset_timer_fd,
  TimerQueue, emplace, earliest_changed, insert_timer, add_timer,
}
use eureka.Timers.Sorted.{Ascending, emplace-Ascending, tally, tally-emplace}

-- What a descriptor waits from a reading of the clock up to an expiration: the whole microseconds
-- between them, but at least 100, as seconds and nanoseconds.
pub record Waits (now expiration : ℕ) (spec : Timespec) : Type 0 where
  pub total : spec.tv_sec * 1000000000 + spec.tv_nsec ≡ max 100 ((expiration - now) / 1000) * 1000
  pub below : spec.tv_nsec < 1000000000

-- The descriptor was set for the first timer at the reading of the clock.
unfoldable pub IsArmed : ℕ → List Timer → Option Timespec → Type 0
IsArmed reading [] fd = Unit {0}
IsArmed reading (x ∷ xs) fd =
    (spec : Timespec) × (fd ≡ some spec) × Waits reading (x.expiration) spec

pub record IsReady (reading : ℕ) (q : TimerQueue) : Type 0 where
  pub ascending : Ascending 0 (q.timers)
  pub armed : IsArmed reading (q.timers) (q.timer_fd)

convert_lem :
    (d : ℕ)
    → let spec = convert_duration_to_timespec d in
      (spec.tv_sec * 1000000000 + spec.tv_nsec ≡ max 100 d * 1000) × (spec.tv_nsec < 1000000000)
unfolding convert_duration_to_timespec
convert_lem d = elim (Bool-cases (ltb d min_duration)) [
  | inl e ↦ rw e (omega (arith, ltb→lt _ _ e), omega arith)
  | inr e ↦ rw e (omega (arith, ltb→ge _ _ e), omega arith)
]

pub reset_timer_fd-Waits :
    (now expiration : ℕ) → Waits now expiration (reset_timer_fd now expiration)
unfolding reset_timer_fd
reset_timer_fd-Waits now expiration =
    let (t, b) = convert_lem ((expiration - now) / 1000) in record { total = t; below = b }

-- No timer of the list expires by that time.
abbrev pub is_earliest : ℕ → List Timer → Bool
is_earliest when ts = tally (λ x. leb x.expiration when) ts == 0

tally_later :
    (ts : List Timer) (a when : ℕ)
    → Ascending a ts
    → when < a
    → tally (λ x. leb x.expiration when) ts ≡ 0
unfolding Ascending
tally_later [] a when asc lt = refl
tally_later (x ∷ xs) a when (p, asc) lt =
    let ih = tally_later xs x.expiration when asc (omega arith) in
    rw (not_leb x.expiration when (omega arith)) (omega (arith, ih))

earliest_changed-eq :
    (ts : List Timer) (a when : ℕ) → Ascending a ts → earliest_changed when ts ≡ is_earliest when ts
unfolding earliest_changed Ascending
earliest_changed-eq [] a when asc = refl
earliest_changed-eq (x ∷ xs) a when (p, asc) = elim (Bool-cases (ltb when x.expiration)) [
  | inl e ↦
      let later = tally_later xs x.expiration when asc (ltb→lt _ _ e) in
      rw (e, not_leb x.expiration when (ltb→lt _ _ e), later) refl
  | inr e ↦
      rw (e, le→leb x.expiration when (ltb→ge _ _ e))
        (sym (==_ne (1 + tally (λ y. leb y.expiration when) xs) 0 (omega arith)))
]

abbrev pub new_timer : ℕ → ℕ → ℕ → Timer
new_timer h when interval = record { handler = h; expiration = when; interval = interval }

-- The queue behind an addition.
abbrev pub added : ℕ → ℕ → ℕ → ℕ → TimerQueue → TimerQueue
added now h when interval q = record {
  timers = emplace (new_timer h when interval) (q.timers);
  timer_fd =
      if earliest_changed when (q.timers) then some (reset_timer_fd now when) else q.timer_fd;
}

set_by :
    (b : Bool) (r : TimerQueue) (spec : Timespec)
    → (if b then record r { timer_fd = some spec } else r)
      ≡ record r { timer_fd = if b then some spec else r.timer_fd }
set_by true r spec = refl
set_by false r spec = refl

pub add_timer-added :
    (now h when interval : ℕ) (q : TimerQueue)
    → add_timer now (some h) when interval q ≡ ok (added now h when interval q)
unfolding add_timer make_timer insert_timer
add_timer-added now h when interval q = ap ok (
    set_by (earliest_changed when (q.timers))
      (record q { timers = emplace (new_timer h when interval) (q.timers) })
      (reset_timer_fd now when))

emplace-IsArmed :
    (xs : List Timer) (t : Timer) (now reading : ℕ) (fd : Option Timespec)
    → IsArmed reading xs fd
    → IsArmed (if earliest_changed (t.expiration) xs then now else reading) (emplace t xs) (
        if earliest_changed (t.expiration) xs then some (reset_timer_fd now (t.expiration)) else fd)
unfolding IsArmed emplace earliest_changed
emplace-IsArmed [] t now reading fd h =
    (reset_timer_fd now t.expiration, refl, reset_timer_fd-Waits now t.expiration)
emplace-IsArmed (x ∷ xs) t now reading fd h = elim (Bool-cases (ltb t.expiration x.expiration)) [
  | inl e ↦
      let first : earliest_changed t.expiration (x ∷ xs) ≡ true = e in
      rw (first, e, IsArmed)
        (reset_timer_fd now t.expiration, refl, reset_timer_fd-Waits now t.expiration)
  | inr e ↦
      let later : earliest_changed t.expiration (x ∷ xs) ≡ false = e in rw (later, e, IsArmed) h
]

-- What a successful addition leaves.
pub record Extended (now h when interval reading : ℕ) (q : TimerQueue) : Type 0 where
  pub next : TimerQueue
  pub returned : add_timer now (some h) when interval q ≡ ok next
  pub ready : IsReady (if is_earliest when (q.timers) then now else reading) next
  pub tallied :
      (p : Timer → Bool)
      → tally p (next.timers) ≡ one_if (p (new_timer h when interval)) + tally p (q.timers)

-- AddTimer with an empty handler fails. Otherwise, from a queue in order whose descriptor was set for
-- the first timer at a reading of the clock, it leaves such a queue, with the new timer besides those
-- that were there; the reading is that of the call if no timer was to expire as early, and else the
-- one before. A descriptor waits the whole microseconds from the reading to the expiration, but at
-- least 100.
pub add_timer-Extended :
    (now h when interval reading : ℕ) (q : TimerQueue)
    → IsReady reading q
    → (add_timer now none when interval q ≡ err check_failed)
      × Extended now h when interval reading q
unfolding add_timer make_timer
add_timer-Extended now h when interval reading q ready = (
  refl,
  record {
    next = added now h when interval q;
    returned = add_timer-added now h when interval q;
    ready = record {
      ascending =
          emplace-Ascending (q.timers) (new_timer h when interval) 0 (omega arith) ready.ascending;
      armed = rw (sym (earliest_changed-eq (q.timers) 0 when ready.ascending)) (
          emplace-IsArmed (q.timers) (new_timer h when interval) now reading (q.timer_fd)
            ready.armed);
    };
    tallied = λ p. tally-emplace p (new_timer h when interval) (q.timers);
  },
)
