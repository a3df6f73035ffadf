-- ===== src/ConnPool.antt =====
-- conn-pool/conn_pool/pool.h: a pool of connections with a bound on the idle ones and a time limit
-- for them. Each function here is one section of the code under the pool's lock; `World` says how
-- the calls of `Get` and `Put` are made of them.
-- A raw connection is its number. Times are microseconds, and `size_` wraps at 2 ^ 64. A timeout
-- below zero is off, as is 0.
pub mod World
pub mod Putting
pub mod Invariant
pub mod NoneKept
pub mod Idle
pub mod Owned
mod Tests
use eureka.Common.{
  ℕ, ◌+◌, ◌-◌, ◌%◌, ◌^◌, List, [], ◌∷◌, ◌++◌, length, Option, none, some, Result, ok, err,
  undefined, leb, ltb, ◌==◌, ◌>>=◌, if◌then◌else◌,
}

pub record IdleConn : Type 0 where
  pub conn : ℕ
  pub created : ℕ
  pub last_active : ℕ

-- `Conn`, the handle of a user; the pool that it is bound to is the only one.
pub record Conn : Type 0 where
  pub raw_conn : ℕ
  pub raw_conn_creation : ℕ

-- The head of the list is the front of the deque.
pub record Pool : Type 0 where
  pub capacity : ℕ
  pub max_idle : ℕ
  pub idle_timeout : ℕ
  pub size : ℕ
  pub idle_list : List IdleConn

unfoldable pub make : ℕ → ℕ → ℕ → Pool
make capacity max_reused idle_timeout = record {
  capacity = capacity;
  max_idle = max_reused;
  idle_timeout = idle_timeout;
  size = 0;
  idle_list = [];
}

-- `++size_` and `--size_` on a `size_t`.
abbrev pub increment : ℕ → ℕ
increment n = (n + 1) % 2 ^ 64

abbrev pub decrement : ℕ → ℕ
decrement n = (n + 2 ^ 64 - 1) % 2 ^ 64

-- `back` and `pop_back`.
unfoldable pub split_last : List IdleConn → Option (List IdleConn × IdleConn)
split_last [] = none
split_last (c ∷ []) = some ([], c)
split_last (c ∷ d ∷ cs) = elim (split_last (d ∷ cs)) [
  | none ↦ none
  | some (rest, last) ↦ some (c ∷ rest, last)
]

-- The loop of `RetireTimeoutIdleConnections`: the connections retired, the new size and the others.
unfoldable pub retire_from : ℕ → ℕ → ℕ → List IdleConn → List IdleConn × ℕ × List IdleConn
retire_from now timeout size [] = ([], size, [])
retire_from now timeout size (c ∷ cs) =
    let later = retire_from now timeout (decrement size) cs in
    if leb timeout (now - c.last_active)
    then (c ∷ later.0, later.1, later.2)
    else ([], size, c ∷ cs)

-- The first section of `Get`.
unfoldable pub retire : Pool → ℕ → List IdleConn × Pool
unfolding retire_from
retire p now =
    let (to_retire, size, rest) = retire_from now p.idle_timeout p.size p.idle_list in
    if ltb 0 p.idle_timeout
    then (to_retire, record p { size = size; idle_list = rest })
    else ([], p)

-- What the second section of `Get` ends in: a connection to reuse, `PoolExhausted`, or a slot that
-- was reserved for a new connection.
pub data Admission : Type 0 where
  reused : Conn → Admission
  exhausted reserved : Admission

unfoldable pub admit_from : Pool → Option (List IdleConn × IdleConn) → Admission × Pool
admit_from p (some (rest, last)) = (
  reused (record { raw_conn = last.conn; raw_conn_creation = last.created }),
  record p { idle_list = rest },
)
admit_from p none =
    if leb p.capacity p.size
    then (exhausted, p)
    else (reserved, record p { size = increment p.size })

unfoldable pub admit : Pool → Admission × Pool
unfolding admit_from split_last
admit p = admit_from p (split_last p.idle_list)

-- The handler of `Get`, when `Traits::NewConn` has thrown.
unfoldable pub release_slot : Pool → Pool
release_slot p = record p { size = decrement p.size }

-- `Put`: the connection to retire, if there is one, and the pool. `front` of an empty deque is
-- undefined.
unfoldable pub evict : Pool → List IdleConn → Result (Option IdleConn × Pool)
evict p [] = err undefined
evict p (c ∷ cs) = ok (some c, record p { size = decrement p.size; idle_list = cs })

abbrev pub idle_conn : Conn → ℕ → IdleConn
idle_conn c now = record { conn = c.raw_conn; created = c.raw_conn_creation; last_active = now }

unfoldable pub put : Pool → Conn → ℕ → Result (Option IdleConn × Pool)
put p c now = do
  (to_retire, q) ← (if length p.idle_list == p.max_idle then evict p p.idle_list else ok (none, p))
  ok (to_retire, record q { idle_list = q.idle_list ++ idle_conn c now ∷ [] })
