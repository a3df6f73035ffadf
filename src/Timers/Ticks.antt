-- ===== src/Timers/Ticks.antt =====
-- NetworkInfra/src/timer_queue.cpp, `OnTick`: the handlers that are called, and the timers afterwards.
use eureka.Common.{
  if◌then◌else◌, Bool-cases, check_failed, ok, err, ◌>>=◌, ℕ, ◌+◌, ◌*◌, ◌≡◌, refl, ap, ◌∙◌, ◌⊎◌,
  inl, inr, Bool, true, false, not, Option, some, List, [], ◌∷◌, ◌++◌, arith,
}
use eureka.Timers.{
  Timer, is_repeating, restart, Timespec, reset_timer_fd, TimerQueue, emplace, insert_timer,
  from_sentry, is_behind, extract_expired, Request, add_all, tick_all, on_tick,
}
use eureka.Timers.Sorted.{
  Ascending, emplace-Ascending, tally, tally-emplace, tally-append, keep, is_due,
  before_sentry-keep, from_sentry-keep, from_sentry-Ascending, any_at, is_behind-from_sentry,
}
use eureka.Timers.Armed.{IsArmed, IsReady, new_timer, added, add_timer-added, reset_timer_fd-Waits}

module _ (requests : ℕ → List Request) where
  -- The timers that handlers ask for.
  abbrev pub asked : List Request → List Timer
  asked [] = []
  asked (r ∷ rs) = new_timer r.handler r.when r.interval ∷ asked rs

  -- The timers that a call of each handler leaves behind, a repeating one first.
  abbrev pub again : ℕ → Timer → Timer
  again sentry t = record t { expiration = sentry + t.interval * 1000 }

  abbrev pub left_by : ℕ → List Timer → List Timer
  left_by sentry [] = []
  left_by sentry (t ∷ ts) =
      (if is_repeating t then again sentry t ∷ [] else [])
      ++ (asked (requests t.handler) ++ left_by sentry ts)

  -- A run leaves the order, and the given timers besides those there were.
  pub record Leaves (q r : TimerQueue) (extra : List Timer) : Type 0 where
    pub ascending : Ascending 0 (r.timers)
    pub tallied : (p : Timer → Bool) → tally p (r.timers) ≡ tally p extra + tally p (q.timers)

  add_all-Leaves :
      (rs : List Request) (q : TimerQueue)
      → Ascending 0 (q.timers)
      → (r : TimerQueue) × (add_all requests rs q ≡ ok r) × Leaves q r (asked rs)
  unfolding add_all
  add_all-Leaves [] q a = (q, refl, record { ascending = a; tallied = λ p. omega arith })
  add_all-Leaves (r ∷ rs) q a =
      let t = new_timer (r.handler) (r.when) (r.interval) in
      let next = added (r.now) (r.handler) (r.when) (r.interval) q in
      let (last, e, l) =
        add_all-Leaves rs next (emplace-Ascending (q.timers) t 0 (omega arith) a) in
      (
        last,
        rw (add_timer-added (r.now) (r.handler) (r.when) (r.interval) q, add_all) e,
        record {
          ascending = l.ascending;
          tallied = λ p. omega (arith, l.tallied p, tally-emplace p t (q.timers));
        },
      )

  abbrev pub handlers_of : List Timer → List ℕ
  handlers_of [] = []
  handlers_of (t ∷ ts) = t.handler ∷ handlers_of ts

  -- The queue after a handler's call, and after the timer's return.
  abbrev renewed : Bool → ℕ → Timer → TimerQueue → TimerQueue
  renewed true sentry t q = record q { timers = emplace (again sentry t) (q.timers) }
  renewed false sentry t q = q

  renew :
      (b : Bool) (sentry : ℕ) (t : Timer) (q : TimerQueue)
      → is_repeating t ≡ b
      → (if b then (restart sentry t >>= λ a. ok ((insert_timer a q).1)) else ok q)
        ≡ ok (renewed b sentry t q)
  unfolding restart insert_timer
  renew true sentry t q e = rw (e, restart) refl
  renew false sentry t q e = refl

  renewed-Leaves :
      (b : Bool) (sentry : ℕ) (t : Timer) (q : TimerQueue)
      → Ascending 0 (q.timers)
      → Leaves q (renewed b sentry t q) (if b then again sentry t ∷ [] else [])
  renewed-Leaves true sentry t q a = record {
    ascending = emplace-Ascending (q.timers) (again sentry t) 0 (omega arith) a;
    tallied = λ p. omega (arith, tally-emplace p (again sentry t) (q.timers));
  }
  renewed-Leaves false sentry t q a = record { ascending = a; tallied = λ p. omega arith }

  tick_all-Leaves :
      (sentry : ℕ) (ts : List Timer) (q : TimerQueue)
      → Ascending 0 (q.timers)
      → (r : TimerQueue) × (tick_all requests sentry ts q ≡ ok (handlers_of ts, r))
        × Leaves q r (left_by sentry ts)
  unfolding tick_all
  tick_all-Leaves sentry [] q a = (q, refl, record { ascending = a; tallied = λ p. omega arith })
  tick_all-Leaves sentry (t ∷ ts) q a =
      let (ticked, e, l) = add_all-Leaves (requests t.handler) q a in
      let next = renewed (is_repeating t) sentry t ticked in
      let n = renewed-Leaves (is_repeating t) sentry t ticked l.ascending in
      let (last, f, m) = tick_all-Leaves sentry ts next n.ascending in
      (
        last,
        rw (e, renew (is_repeating t) sentry t ticked refl, f, tick_all) refl,
        record {
          ascending = m.ascending;
          tallied = λ p. omega (
            arith,
            m.tallied p,
            n.tallied p,
            l.tallied p,
            tally-append p (if is_repeating t then again sentry t ∷ [] else []) _,
            tally-append p (asked (requests t.handler)) (left_by sentry ts),
          );
        },
      )

  -- What a tick leaves: the handlers of the timers that are due are called in order, and those
  -- timers make room for the ones their calls leave behind.
  pub record Ticked (sentry last_now : ℕ) (q : TimerQueue) : Type 0 where
    pub next : TimerQueue
    pub returned :
        on_tick requests sentry last_now q
        ≡ ok (handlers_of (keep (is_due sentry) (q.timers)), next)
    pub ready : IsReady last_now next
    pub tallied :
        (p : Timer → Bool)
        → tally p (next.timers)
          ≡ tally p (left_by sentry (keep (is_due sentry) (q.timers)))
            + tally p (keep (λ t. not (is_due sentry t)) (q.timers))

  set_again : ℕ → TimerQueue → TimerQueue
  set_again last_now r = elim r.timers [
    | [] ↦ r
    | x ∷ xs ↦ record r { timer_fd = some (reset_timer_fd last_now x.expiration) }
  ]

  set_again-IsReady :
      (last_now : ℕ) (ts : List Timer) (fd : Option Timespec)
      → Ascending 0 ts
      → IsReady last_now (set_again last_now (record { timers = ts; timer_fd = fd }))
        × ((set_again last_now (record { timers = ts; timer_fd = fd })).timers ≡ ts)
  unfolding set_again IsArmed
  set_again-IsReady last_now [] fd a = (record { ascending = a; armed = tt }, refl)
  set_again-IsReady last_now (x ∷ xs) fd a =
      let armed : IsArmed last_now (x ∷ xs) (some (reset_timer_fd last_now x.expiration)) =
        (reset_timer_fd last_now x.expiration, refl, reset_timer_fd-Waits last_now x.expiration) in
      (record { ascending = a; armed = armed }, refl)

  on_tick-Ticked :
      (sentry last_now : ℕ) (q : TimerQueue)
      → Ascending 0 (q.timers)
      → any_at sentry (q.timers) ≡ false
      → Ticked sentry last_now q
  unfolding on_tick extract_expired set_again
  on_tick-Ticked sentry last_now q a h =
      let due = keep (is_due sentry) (q.timers) in
      let left = record q { timers = from_sentry sentry (q.timers) } in
      let (r, e, l) =
        tick_all-Leaves sentry due left (from_sentry-Ascending (q.timers) sentry 0 a) in
      let (ready, same) = set_again-IsReady last_now (r.timers) (r.timer_fd) l.ascending in
      let late = from_sentry-keep (q.timers) sentry 0 a in
      let clear : is_behind sentry (from_sentry sentry (q.timers)) ≡ true =
        is_behind-from_sentry (q.timers) sentry 0 a ∙ ap not h in
      record {
        next = set_again last_now r;
        returned =
            rw (clear, before_sentry-keep (q.timers) sentry 0 a, e, on_tick, extract_expired) refl;
        ready = ready;
        tallied = λ p.
            ap (tally p) same
            ∙ l.tallied p
            ∙ ap (λ ts. tally p (left_by sentry due) + tally p ts) late;
      }

-- A tick aborts exactly when a timer expires at the reading of the clock; otherwise the timers that
-- are due are called in order, and the queue is ordered, armed and holds what it should.
pub on_tick-outcome :
    (requests : ℕ → List Request) (sentry last_now reading : ℕ) (q : TimerQueue)
    → IsReady reading q
    → ((any_at sentry (q.timers) ≡ true) × (on_tick requests sentry last_now q ≡ err check_failed))
      ⊎ ((any_at sentry (q.timers) ≡ false) × Ticked requests sentry last_now q)
unfolding on_tick extract_expired
on_tick-outcome requests sentry last_now reading q ready =
    let a = ready.ascending in
    elim (Bool-cases (any_at sentry (q.timers))) [
      | inl h ↦
          let clear : is_behind sentry (from_sentry sentry (q.timers)) ≡ false =
            is_behind-from_sentry (q.timers) sentry 0 a ∙ ap not h in
          inl (h, rw (clear, on_tick, extract_expired) refl)
      | inr h ↦ inr (h, on_tick-Ticked requests sentry last_now q a h)
    ]
