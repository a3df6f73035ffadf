-- ===== src/Blocking.antt =====
-- BlockingQueue/src/blocking_queue.h: a queue behind a lock, on which `Pop` waits.
-- Each call is one section under the lock, apart from the wait of `Pop`, which gives the lock up
-- until the queue has an element: a step of `Pop` is made only then. The threads take their steps
-- in any order.
pub mod Order
mod Tests
use eureka.Common.{◌≡◌, ℕ, Bool, true, false, List, [], ◌∷◌, ◌++◌, length, Option, none, some}

-- `queue_`; the head of the list is the front.
pub record BlockingQueue {ℓ} (A : Type ℓ) : Type ℓ where
  pub queue : List A

module _ {ℓ} {A : Type ℓ} where
  unfoldable pub push : BlockingQueue A → A → BlockingQueue A
  push q ele = record { queue = q.queue ++ ele ∷ [] }

  -- `Pop` behind its wait; while the queue is empty it does not get there.
  unfoldable pub pop : BlockingQueue A → Option (A × BlockingQueue A)
  pop q = elim q.queue [ [] ↦ none | ele ∷ rest ↦ some (ele, record { queue = rest }) ]

  -- Both overloads: the element, if there was one, and the queue.
  unfoldable pub try_pop : BlockingQueue A → Option A × BlockingQueue A
  try_pop q = elim q.queue [ [] ↦ (none, q) | ele ∷ rest ↦ (some ele, record { queue = rest }) ]

  unfoldable pub size : BlockingQueue A → ℕ
  size q = length q.queue

  unfoldable pub copy : BlockingQueue A → BlockingQueue A
  copy other = record { queue = other.queue }

-- A call that has got the lock, by the number of its thread.
pub data Call {ℓ} (A : Type ℓ) : Type ℓ where
  pushed : ℕ → A → Call A
  popped : ℕ → A → Call A
  tried : ℕ → Option A → Call A

-- The queue moves by a call.
pub data Moves {ℓ} {A : Type ℓ} : BlockingQueue A → Call A → BlockingQueue A → Type ℓ where
  push_moves :
      (q : BlockingQueue A) (thread : ℕ) (ele : A) → Moves q (pushed thread ele) (push q ele)
  pop_moves :
      (q r : BlockingQueue A) (thread : ℕ) (ele : A)
      → pop q ≡ some (ele, r)
      → Moves q (popped thread ele) r
  try_moves :
      (q : BlockingQueue A) (thread : ℕ) → Moves q (tried thread (try_pop q).0) (try_pop q).1

pub data Run {ℓ} {A : Type ℓ} : BlockingQueue A → List (Call A) → BlockingQueue A → Type ℓ where
  done : (q : BlockingQueue A) → Run q [] q
  step :
      {q r s : BlockingQueue A} {call : Call A} {calls : List (Call A)}
      → Moves q call r
      → Run r calls s
      → Run q (call ∷ calls) s
