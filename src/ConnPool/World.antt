-- ===== src/ConnPool/World.antt =====
-- The threads that use the pool of conn-pool/conn_pool/pool.h, as sections under the lock in any
-- order: a call of `Get` is `retires`, with a reading of the clock that may be older than the lock,
-- then one of `reuses`, `refuses` and `reserves`; behind `reserves` stand, after any steps of others,
-- `creates`, `fails` for a `std::exception` of `NewConn`, or `escapes` for another one. A handle that
-- dies calls `Put`; one that is `assigned` to gives its connection up without it. Handles that were
-- moved from do nothing more, and are left out.
use eureka.Common.{ℕ, ◌+◌, ◌≤◌, ◌≡◌, List, [], ◌∷◌, ◌++◌, Option, none, some, ok}
use eureka.ConnPool.{
  IdleConn, Conn, Pool, retire, reused, exhausted, reserved, admit, release_slot, put,
}

-- `pending` counts the calls of `NewConn` that have not returned; `closed` and `made` are the raw
-- connections that were retired or given up, and all that `NewConn` has returned. `lost` counts the
-- slots that are reserved for nothing.
pub record World : Type 0 where
  pub pool : Pool
  pub live : List Conn
  pub pending : ℕ
  pub now : ℕ
  pub closed : List ℕ
  pub made : List ℕ
  pub lost : ℕ

unfoldable pub start : Pool → ℕ → World
start p now = record {
  pool = p;
  live = [];
  pending = 0;
  now = now;
  closed = [];
  made = [];
  lost = 0;
}

abbrev pub conns : List IdleConn → List ℕ
conns [] = []
conns (c ∷ cs) = c.conn ∷ conns cs

abbrev pub raw_conns : List Conn → List ℕ
raw_conns [] = []
raw_conns (c ∷ cs) = c.raw_conn ∷ raw_conns cs

abbrev pub closed_by : Option IdleConn → List ℕ
closed_by none = []
closed_by (some c) = c.conn ∷ []

pub data Step (w : World) : World → Type 0 where
  waits : (d : ℕ) → Step w (record w { now = w.now + d })
  retires :
      (reading : ℕ) (gone : List IdleConn) (p : Pool)
      → reading ≤ w.now
      → retire w.pool reading ≡ (gone, p)
      → Step w (record w { pool = p; closed = conns gone ++ w.closed })
  reuses :
      (c : Conn) (p : Pool)
      → admit w.pool ≡ (reused c, p)
      → Step w (record w { pool = p; live = c ∷ w.live })
  refuses : (p : Pool) → admit w.pool ≡ (exhausted, p) → Step w (record w { pool = p })
  reserves :
      (p : Pool)
      → admit w.pool ≡ (reserved, p)
      → Step w (record w { pool = p; pending = w.pending + 1 })
  creates :
      (raw n : ℕ)
      → w.pending ≡ n + 1
      → Step w (record w {
        pending = n;
        live = record { raw_conn = raw; raw_conn_creation = w.now } ∷ w.live;
        made = raw ∷ w.made;
      })
  fails :
      (n : ℕ) → w.pending ≡ n + 1 → Step w (record w { pending = n; pool = release_slot w.pool })
  escapes : (n : ℕ) → w.pending ≡ n + 1 → Step w (record w { pending = n; lost = w.lost + 1 })
  assigned :
      (before after : List Conn) (c : Conn)
      → w.live ≡ before ++ c ∷ after
      → Step w
          (record w { live = before ++ after; closed = c.raw_conn ∷ w.closed; lost = w.lost + 1 })
  dies :
      (before after : List Conn) (c : Conn) (out : Option IdleConn) (p : Pool)
      → w.live ≡ before ++ c ∷ after
      → put w.pool c w.now ≡ ok (out, p)
      → Step w (record w { pool = p; live = before ++ after; closed = closed_by out ++ w.closed })

pub data Reach (w : World) : World → Type 0 where
  here : Reach w w
  next : {u v : World} → Reach w u → Step u v → Reach w v
