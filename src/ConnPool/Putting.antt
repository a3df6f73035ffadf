-- ===== src/ConnPool/Putting.antt =====
-- conn-pool/conn_pool/pool.h, `Put`: the pool at each of its two ends.
use native.Mathlib.Decide.{ℕ_discrete}
use eureka.Common.{
  ℕ, ◌<◌, ◌≡◌, ◌≢◌, refl, true, false, List, [], ◌∷◌, ◌++◌, length, Option, none, some, ok, ◌==◌,
  arith, ==_iff, ==_ne,
}
use eureka.ConnPool.{IdleConn, Conn, Pool, decrement, put, idle_conn, evict}

-- What is left of the configuration and the size by a section, and how many are idle.
abbrev pub Changes : Pool → Pool → Type 0
Changes p q =
    (q.capacity ≡ p.capacity) × (q.max_idle ≡ p.max_idle) × (q.idle_timeout ≡ p.idle_timeout)

-- The two ends of `Put`: the connection is parked at the back, and if the deque was full its front
-- is retired.
abbrev pub Puts : Pool → Conn → ℕ → Option IdleConn → Pool → Type 0
Puts p c now none q =
    Changes p q
    × (q.size ≡ p.size)
    × (length p.idle_list ≢ p.max_idle)
    × (q.idle_list ≡ p.idle_list ++ idle_conn c now ∷ [])
Puts p c now (some old) q =
    Changes p q
    × (q.size ≡ decrement p.size)
    × (length p.idle_list ≡ p.max_idle)
    × ((rest : List IdleConn) × (p.idle_list ≡ old ∷ rest)
        × (q.idle_list ≡ rest ++ idle_conn c now ∷ []))

evict-cons :
    (p : Pool) (all cs : List IdleConn) (d : IdleConn)
    → all ≡ d ∷ cs
    → evict p all ≡ ok (some d, record p { size = decrement p.size; idle_list = cs })
unfolding evict
evict-cons p all cs d e = rw e

pub put_by :
    (p : Pool) (c : Conn) (now : ℕ) (cs : List IdleConn)
    → p.idle_list ≡ cs
    → 0 < p.max_idle
    → (out : Option IdleConn) × (q : Pool) × (put p c now ≡ ok (out, q)) × Puts p c now out q
unfolding put
put_by p c now [] e h =
    let other : (length p.idle_list == p.max_idle) ≡ false = rw e (ground arith) in
    (
      none,
      record p { idle_list = p.idle_list ++ idle_conn c now ∷ [] },
      rw other,
      ((refl, refl, refl), refl, rw e (omega arith), refl),
    )
put_by p c now (d ∷ cs) e h = elim (ℕ_discrete (length p.idle_list) p.max_idle) [
  | yes full ↦
      let test : (length p.idle_list == p.max_idle) ≡ true = (==_iff _ _).1 full in
      (
        some d,
        record p { size = decrement p.size; idle_list = cs ++ idle_conn c now ∷ [] },
        rw (test, evict-cons p p.idle_list cs d e),
        ((refl, refl, refl), refl, full, (cs, e, refl)),
      )
  | no room ↦
      let test : (length p.idle_list == p.max_idle) ≡ false = ==_ne _ _ room in
      (
        none,
        record p { idle_list = p.idle_list ++ idle_conn c now ∷ [] },
        rw test,
        ((refl, refl, refl), refl, room, refl),
      )
]
