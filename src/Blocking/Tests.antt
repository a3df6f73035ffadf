-- ===== src/Blocking/Tests.antt =====
-- Runs of the queue between two threads.
use eureka.Common.{ℕ, ◌≡◌, refl, List, [], ◌∷◌, ◌++◌, none, some}
use eureka.Blocking.{
  BlockingQueue, push, pop, try_pop, size, copy, Call, pushed, popped, tried, Run, done, step,
  push_moves, pop_moves, try_moves,
}
use eureka.Blocking.Order.{inputs, outputs, outputs-inputs}

abbrev holding : List ℕ → BlockingQueue ℕ
holding items = record { queue = items }

waits : pop (holding []) ≡ none
unfolding pop
waits = refl

copied : size (copy (push (holding (1 ∷ [])) 2)) ≡ 2
unfolding size copy push
copied = refl

abbrev calls : List (Call ℕ)
calls = tried 2 none ∷ pushed 1 5 ∷ pushed 1 6 ∷ popped 2 5 ∷ tried 1 (some 6) ∷ []

-- Thread 2 finds nothing, and then takes the first of what thread 1 puts in.
calls-Run : Run (holding []) calls (holding [])
unfolding push pop try_pop
calls-Run = step (try_moves (holding []) 2) (
    step (push_moves (holding []) 1 5) (
      step (push_moves (holding (5 ∷ [])) 1 6) (
        step (pop_moves (holding (5 ∷ 6 ∷ [])) (holding (6 ∷ [])) 2 5 refl)
          (step (try_moves (holding (6 ∷ [])) 1) (done (holding []))))))

outputs-inputs_example : outputs calls ++ [] ≡ [] ++ inputs calls
outputs-inputs_example = outputs-inputs (holding []) (holding []) calls calls-Run
