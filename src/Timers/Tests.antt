-- ===== src/Timers/Tests.antt =====
-- Runs of the timers of an event loop.
use eureka.Common.{
  ◌==◌, if◌then◌else◌, check_failed, ok, err, ◌>>=◌, ℕ, ◌≡◌, refl, ◌⊎◌, true, false, none, some,
  List, [], ◌∷◌, arith,
}
use eureka.Timers.{
  Timer, make_timer, is_repeating, restart, convert_duration_to_timespec, reset_timer_fd,
  TimerQueue, emplace, earliest_changed, insert_timer, add_timer, before_sentry, from_sentry,
  is_behind, extract_expired, Request, add_all, tick_all, on_tick,
}
use eureka.Timers.Sorted.{Ascending, any_at}
use eureka.Timers.Armed.{IsArmed, IsReady, Extended, add_timer-Extended, reset_timer_fd-Waits}
use eureka.Timers.Ticks.{Ticked, on_tick-outcome}

program : Unit {0}
unfolding make_timer is_repeating restart convert_duration_to_timespec reset_timer_fd emplace
    earliest_changed insert_timer add_timer before_sentry from_sentry is_behind extract_expired
    add_all tick_all on_tick Ascending IsArmed
program = tt

-- The handler 1 asks for a timer at 900, handled by 2; the others ask for none.
abbrev one_asks : ℕ → List Request
one_asks h = if h == 1 then record { now = 500; handler = 2; when = 900; interval = 0 } ∷ [] else []

abbrev two_timers : TimerQueue
two_timers = record {
  timers =
      record { handler = 1; expiration = 400; interval = 3 }
      ∷ record { handler = 7; expiration = 5000000; interval = 0 }
      ∷ [];
  timer_fd = some (reset_timer_fd 100 400);
}

two_timers-IsReady : IsReady 100 two_timers
unfolding program
two_timers-IsReady = record {
  ascending = (omega arith, (omega arith, tt));
  armed = (_, refl, reset_timer_fd-Waits 100 400);
}

abbrev timers_of : List ℕ × TimerQueue → List ℕ × List Timer
timers_of r = (r.0, r.1.timers)

ticked :
    (on_tick one_asks 450 600 two_timers >>= λ r. ok (timers_of r))
    ≡ ok (
        timers_of (
          1 ∷ [],
          record {
            timers =
                record { handler = 2; expiration = 900; interval = 0 }
                ∷ record { handler = 1; expiration = 3450; interval = 3 }
                ∷ record { handler = 7; expiration = 5000000; interval = 0 }
                ∷ [];
            timer_fd = none;
          },
        ))
unfolding program
ticked = refl

-- A timer that expires at the reading of the clock stops the program.
on_the_dot : on_tick one_asks 400 600 two_timers ≡ err check_failed
unfolding program
on_the_dot = refl

least_duration : reset_timer_fd 300 5000 ≡ record { tv_sec = 0; tv_nsec = 100000 }
unfolding program
least_duration = refl

whole_seconds : reset_timer_fd 0 2500000999 ≡ record { tv_sec = 2; tv_nsec = 500000000 }
unfolding program
whole_seconds = refl

add_timer-Extended_example :
    (add_timer 200 none 300 0 two_timers ≡ err check_failed) × Extended 200 5 300 0 100 two_timers
add_timer-Extended_example = add_timer-Extended 200 5 300 0 100 two_timers two_timers-IsReady

on_tick-outcome_example :
    ((any_at 450 (two_timers.timers) ≡ true)
      × (on_tick one_asks 450 600 two_timers ≡ err check_failed))
    ⊎ ((any_at 450 (two_timers.timers) ≡ false) × Ticked one_asks 450 600 two_timers)
on_tick-outcome_example = on_tick-outcome one_asks 450 600 100 two_timers two_timers-IsReady
