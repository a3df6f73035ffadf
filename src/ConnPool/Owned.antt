-- ===== src/ConnPool/Owned.antt =====
-- Every raw connection that was made is idle, in use or closed, and none is so twice.
use eureka.Common.{
  ℕ, ◌+◌, ◌<◌, ◌≡◌, refl, ap, subst, List, [], ◌∷◌, ◌++◌, Option, none, some, arith, count,
  count-append, ◌==◌, if◌then◌else◌,
}
use eureka.ConnPool.{
  IdleConn, Conn, Pool, make, decrement, retire_from, retire, reused, exhausted, reserved,
  release_slot, idle_conn,
}
use eureka.ConnPool.World.{
  World, start, Step, Reach, waits, retires, reuses, refuses, reserves, creates, fails, escapes,
  assigned, dies, here, next, conns, raw_conns, closed_by,
}
use eureka.ConnPool.Putting.{Puts}
use eureka.ConnPool.Invariant.{admitted, put-ok, keeps_max_idle}

abbrev pub owned : ℕ → World → ℕ
owned a w = count a (conns w.pool.idle_list) + count a (raw_conns w.live) + count a w.closed

count-conns-append :
    (a : ℕ) (cs ds : List IdleConn)
    → count a (conns (cs ++ ds)) ≡ count a (conns cs) + count a (conns ds)
count-conns-append a [] ds = omega arith
count-conns-append a (c ∷ cs) ds = omega (arith, count-conns-append a cs ds)

count-raw_conns-append :
    (a : ℕ) (cs ds : List Conn)
    → count a (raw_conns (cs ++ ds)) ≡ count a (raw_conns cs) + count a (raw_conns ds)
count-raw_conns-append a [] ds = omega arith
count-raw_conns-append a (c ∷ cs) ds = omega (arith, count-raw_conns-append a cs ds)

retire_from-count :
    (a now t size : ℕ) (cs : List IdleConn)
    → count a (conns (retire_from now t size cs).0) + count a (conns (retire_from now t size cs).2)
      ≡ count a (conns cs)
unfolding retire_from
retire_from-count a now t size [] = omega arith
retire_from-count a now t size (c ∷ cs) =
    ground (arith, retire_from-count a now t (decrement size) cs)

retire-count :
    (a now : ℕ) (p : Pool)
    → count a (conns (retire p now).0) + count a (conns (retire p now).1.idle_list)
      ≡ count a (conns p.idle_list)
unfolding retire
retire-count a now p = ground (arith, retire_from-count a now p.idle_timeout p.size p.idle_list)

put-count :
    (a now : ℕ) (p q : Pool) (c : Conn) (out : Option IdleConn)
    → Puts p c now out q
    → count a (conns q.idle_list) + count a (closed_by out)
      ≡ count a (conns p.idle_list) + (if a == c.raw_conn then 1 else 0)
put-count a now p q c none (_, _, _, parked) =
    let added = count-conns-append a p.idle_list (idle_conn c now ∷ []) in
    omega (arith, ap (λ cs. count a (conns cs)) parked)
put-count a now p q c (some old) (_, _, _, (rest, front, parked)) =
    let added = count-conns-append a rest (idle_conn c now ∷ []) in
    omega (arith, ap (λ cs. count a (conns cs)) parked, ap (λ cs. count a (conns cs)) front)

-- One section of a thread keeps the account of each raw connection.
Step-owned :
    (a : ℕ) {w v : World}
    → 0 < w.pool.max_idle
    → Step w v
    → owned a v + count a w.made ≡ owned a w + count a v.made
unfolding release_slot
Step-owned a {w} pos (waits d) = refl
Step-owned a {w} pos (retires t gone p h e) =
    let kept =
      subst
        (λ (r : List IdleConn × Pool).
          count a (conns r.0) + count a (conns r.1.idle_list) ≡ count a (conns w.pool.idle_list))
        e (retire-count a t w.pool) in
    omega (arith, count-append a (conns gone) w.closed)
Step-owned a {w} pos (reuses c p e) =
    let (last, cut, same, _) = (admitted w.pool p (reused c) e).2 in
    let added = count-conns-append a p.idle_list (last ∷ []) in
    omega (arith, ap (λ cs. count a (conns cs)) cut, ap (λ n. count a (n ∷ [])) same)
Step-owned a {w} pos (refuses p e) =
    omega (arith, ap (λ (q : Pool). count a (conns q.idle_list)) (admitted w.pool p exhausted e).0)
Step-owned a {w} pos (reserves p e) =
    let ends = admitted w.pool p reserved e in
    omega (arith, ap (λ cs. count a (conns cs)) ends.1, ap (λ cs. count a (conns cs)) ends.2)
Step-owned a {w} pos (creates raw n e) = omega arith
Step-owned a {w} pos (fails n e) = refl
Step-owned a {w} pos (escapes n e) = refl
Step-owned a {w} pos (assigned before after c e) = omega (
  arith,
  ap (λ cs. count a (raw_conns cs)) e,
  count-raw_conns-append a before (c ∷ after),
  count-raw_conns-append a before after,
)
Step-owned a {w} pos (dies before after c out p e f) =
    let ends = put-count a w.now w.pool p c out (put-ok w.pool p c w.now out pos f) in
    omega (
      arith,
      ap (λ cs. count a (raw_conns cs)) e,
      count-raw_conns-append a before (c ∷ after),
      count-raw_conns-append a before after,
      count-append a (closed_by out) w.closed,
    )

Reach-owned :
    (a : ℕ) {w v : World}
    → 0 < w.pool.max_idle
    → Reach w v
    → (owned a v + count a w.made ≡ owned a w + count a v.made) × (0 < v.pool.max_idle)
Reach-owned a pos here = (refl, pos)
Reach-owned a pos (next r s) =
    let (ih, pos') = Reach-owned a pos r in
    (omega (arith, Step-owned a pos' s), keeps_max_idle pos' s)

-- From a new pool that keeps idle connections, in whatever order the threads take their turns: a raw
-- connection stands among the idle ones, in the users' handles and among the closed ones, taken
-- together, just as often as it was made.
pub owned-Reach :
    (a capacity max_reused timeout now : ℕ) {v : World}
    → 0 < max_reused
    → Reach (start (make capacity max_reused timeout) now) v
    → owned a v ≡ count a v.made
unfolding start make
owned-Reach a capacity max_reused timeout now pos r = omega (arith, (Reach-owned a pos r).0)
