-- ===== src/Blocking/Order.antt =====
-- What comes out of the queue of BlockingQueue/src/blocking_queue.h, and in which order.
use eureka.Common.{
  ℕ, ◌≡◌, refl, sym, ap, ◌∙◌, List, [], ◌∷◌, ◌++◌, append_assoc, append-nil, Option, none, some,
}
use eureka.Blocking.{
  BlockingQueue, push, pop, try_pop, Call, pushed, popped, tried, Moves, push_moves, pop_moves,
  try_moves, Run, done, step,
}

module _ {ℓ} {A : Type ℓ} where
  -- What a call puts in, and what it takes out.
  abbrev in_of : Call A → List A
  in_of (pushed t ele) = ele ∷ []
  in_of (popped t ele) = []
  in_of (tried t o) = []

  abbrev out_of : Call A → List A
  out_of (pushed t ele) = []
  out_of (popped t ele) = ele ∷ []
  out_of (tried t none) = []
  out_of (tried t (some ele)) = ele ∷ []

  abbrev pub inputs : List (Call A) → List A
  inputs [] = []
  inputs (call ∷ calls) = in_of call ++ inputs calls

  abbrev pub outputs : List (Call A) → List A
  outputs [] = []
  outputs (call ∷ calls) = out_of call ++ outputs calls

  restored : Option (A × BlockingQueue A) → List A
  restored none = []
  restored (some (ele, r)) = ele ∷ r.queue

  pop-cons :
      (items : List A) (r : BlockingQueue A) (ele : A)
      → pop (record { queue = items }) ≡ some (ele, r)
      → ele ∷ r.queue ≡ items
  unfolding pop restored
  pop-cons [] r ele e = absurd (cc e)
  pop-cons (x ∷ items) r ele e = sym (ap restored e)

  try_pop-moves :
      (t : ℕ) (items : List A)
      → let r = try_pop (record { queue = items }) in
        out_of (tried t r.0) ++ r.1.queue ≡ items ++ []
  unfolding try_pop
  try_pop-moves t [] = refl
  try_pop-moves t (x ∷ items) = sym (append-nil (x ∷ items))

  Moves-queue :
      {q r : BlockingQueue A} {call : Call A}
      → Moves q call r
      → out_of call ++ r.queue ≡ q.queue ++ in_of call
  unfolding push
  Moves-queue (push_moves q t ele) = refl
  Moves-queue (pop_moves q r t ele e) = pop-cons q.queue r ele e ∙ sym (append-nil q.queue)
  Moves-queue (try_moves q t) = try_pop-moves t q.queue

  Run-queue :
      {q s : BlockingQueue A} {calls : List (Call A)}
      → Run q calls s
      → outputs calls ++ s.queue ≡ q.queue ++ inputs calls
  Run-queue (done q) = sym (append-nil q.queue)
  Run-queue (step {q} {r} {s} {call} {calls} m run) =
      append_assoc (out_of call) (outputs calls) s.queue
      ∙ ap (◌++◌ (out_of call)) (Run-queue run)
      ∙ sym (append_assoc (out_of call) r.queue (inputs calls))
      ∙ ap (λ x. x ++ inputs calls) (Moves-queue m)
      ∙ append_assoc q.queue (in_of call) (inputs calls)

-- In whatever order the threads take the lock: what came out, and then what is left in the queue, is
-- what was in it and then what went in, each element once and in this order.
pub outputs-inputs {ℓ} :
    {A : Type ℓ} (q s : BlockingQueue A) (calls : List (Call A))
    → Run q calls s
    → outputs calls ++ s.queue ≡ q.queue ++ inputs calls
outputs-inputs q s calls run = Run-queue run
