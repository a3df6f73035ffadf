-- ===== src/ConnPool/Idle.antt =====
-- The idle connections: the longest inactive one is in front, so that a retirement reaches all that
-- have timed out; and no raw connection is lost or duplicated.
use native.Mathlib.Decide.{dec_le}
use eureka.Common.{not_leb, lt→ltb}
use eureka.Common.{
  ℕ, ◌-◌, ◌≤◌, ◌<◌, ◌≡◌, refl, sym, ap, subst, List, [], ◌∷◌, ◌++◌, Option, none, some, arith,
  le→leb,
}
use eureka.ConnPool.{
  IdleConn, Conn, Pool, make, decrement, retire_from, retire, reused, exhausted, reserved,
  release_slot, idle_conn,
}
use eureka.ConnPool.World.{
  World, start, Step, Reach, waits, retires, reuses, refuses, reserves, creates, fails, escapes,
  assigned, dies, here, next,
}
use eureka.ConnPool.Putting.{Puts}
use eureka.ConnPool.Invariant.{admitted, put-ok, keeps_max_idle}

-- Each time of last activity is at least `from`, they do not fall along the list, and none is
-- after `now`.
abbrev pub Ordered : ℕ → ℕ → List IdleConn → Type 0
Ordered from now [] = Unit {0}
Ordered from now (c ∷ cs) =
    (from ≤ c.last_active) × (c.last_active ≤ now) × Ordered c.last_active now cs

Ordered-mono : {a b m n : ℕ} (cs : List IdleConn) → b ≤ a → m ≤ n → Ordered a m cs → Ordered b n cs
Ordered-mono [] h k o = tt
Ordered-mono (c ∷ cs) h k o = (omega arith, omega arith, Ordered-mono cs (omega arith) k o.2)

Ordered-park :
    (a now : ℕ) (cs : List IdleConn) (c : Conn)
    → a ≤ now
    → Ordered a now cs
    → Ordered a now (cs ++ idle_conn c now ∷ [])
Ordered-park a now [] c h o = (h, omega arith, tt)
Ordered-park a now (d ∷ cs) c h o = (o.0, o.1, Ordered-park d.last_active now cs c o.1 o.2)

Ordered-prefix : (a now : ℕ) (cs ds : List IdleConn) → Ordered a now (cs ++ ds) → Ordered a now cs
Ordered-prefix a now [] ds o = tt
Ordered-prefix a now (c ∷ cs) ds o = (o.0, o.1, Ordered-prefix c.last_active now cs ds o.2)

Ordered-retire_from :
    (a now reading t size : ℕ) (cs : List IdleConn)
    → Ordered a now cs
    → Ordered a now (retire_from reading t size cs).2
unfolding retire_from
Ordered-retire_from a now reading t size [] o = tt
Ordered-retire_from a now reading t size (c ∷ cs) o = ground (
  arith,
  Ordered-retire_from a now reading t (decrement size) cs (Ordered-mono cs o.0 (omega arith) o.2),
)

abbrev IdleOrdered : World → Type 0
IdleOrdered w = Ordered 0 w.now w.pool.idle_list

retire-Ordered :
    (p : Pool) (now reading : ℕ)
    → Ordered 0 now p.idle_list
    → Ordered 0 now (retire p reading).1.idle_list
unfolding retire
retire-Ordered p now reading o =
    ground (arith, Ordered-retire_from 0 now reading p.idle_timeout p.size p.idle_list o)

Step-IdleOrdered : {w v : World} → 0 < w.pool.max_idle → IdleOrdered w → Step w v → IdleOrdered v
unfolding release_slot
Step-IdleOrdered {w} pos o (waits d) = Ordered-mono w.pool.idle_list (omega arith) (omega arith) o
Step-IdleOrdered {w} pos o (retires t gone p h e) =
    subst (λ (r : List IdleConn × Pool). Ordered 0 w.now r.1.idle_list) e
      (retire-Ordered w.pool w.now t o)
Step-IdleOrdered {w} pos o (reuses c p e) =
    let (last, cut, _, _) = (admitted w.pool p (reused c) e).2 in
    Ordered-prefix 0 w.now p.idle_list (last ∷ []) (subst (Ordered 0 w.now) cut o)
Step-IdleOrdered {w} pos o (refuses p e) =
    subst (λ (q : Pool). Ordered 0 w.now q.idle_list) (sym (admitted w.pool p exhausted e).0) o
Step-IdleOrdered {w} pos o (reserves p e) =
    subst (Ordered 0 w.now) (sym (admitted w.pool p reserved e).2) tt
Step-IdleOrdered {w} pos o (creates raw n e) = o
Step-IdleOrdered {w} pos o (fails n e) = o
Step-IdleOrdered {w} pos o (escapes n e) = o
Step-IdleOrdered {w} pos o (assigned before after c e) = o
Step-IdleOrdered {w} pos o (dies before after c out p e f) =
    parked out (put-ok w.pool p c w.now out pos f)
  where
    parked : (r : Option IdleConn) → Puts w.pool c w.now r p → Ordered 0 w.now p.idle_list
    parked none ends =
        subst (Ordered 0 w.now) (sym ends.3)
          (Ordered-park 0 w.now w.pool.idle_list c (omega arith) o)
    parked (some old) (_, _, _, (rest, front, back)) =
        let o' : Ordered 0 w.now (old ∷ rest) = subst (Ordered 0 w.now) front o in
        subst (Ordered 0 w.now) (sym back) (
          Ordered-park 0 w.now rest c (omega arith)
            (Ordered-mono rest (omega arith) (omega arith) o'.2))

abbrev pub AllStale : ℕ → ℕ → List IdleConn → Type 0
AllStale now t [] = Unit {0}
AllStale now t (c ∷ cs) = (t ≤ now - c.last_active) × AllStale now t cs

abbrev pub AllFresh : ℕ → ℕ → List IdleConn → Type 0
AllFresh now t [] = Unit {0}
AllFresh now t (c ∷ cs) = (now - c.last_active < t) × AllFresh now t cs

Ordered-AllFresh :
    (a now t : ℕ) (cs : List IdleConn) → now - a < t → Ordered a now cs → AllFresh now t cs
Ordered-AllFresh a now t [] h o = tt
Ordered-AllFresh a now t (c ∷ cs) h o =
    (omega arith, Ordered-AllFresh c.last_active now t cs (omega arith) o.2)

abbrev pub SplitsByAge : ℕ → ℕ → List IdleConn → List IdleConn → List IdleConn → Type 0
SplitsByAge now t cs gone kept = (cs ≡ gone ++ kept) × AllStale now t gone × AllFresh now t kept

retire_from-SplitsByAge :
    (a now t size : ℕ) (cs : List IdleConn)
    → Ordered a now cs
    → SplitsByAge now t cs (retire_from now t size cs).0 (retire_from now t size cs).2
unfolding retire_from
retire_from-SplitsByAge a now t size [] o = (refl, tt, tt)
retire_from-SplitsByAge a now t size (c ∷ cs) o = elim (dec_le t (now - c.last_active)) [
  | yes stale ↦
      let ih = retire_from-SplitsByAge c.last_active now t (decrement size) cs o.2 in
      rw (le→leb t (now - c.last_active) stale) (ap (◌∷◌ c) ih.0, (stale, ih.1), ih.2)
  | no fresh ↦
      rw (not_leb t (now - c.last_active) (omega arith))
        (refl, tt, (omega arith, Ordered-AllFresh c.last_active now t cs (omega arith) o.2))
]

Reach-IdleOrdered :
    {w v : World}
    → 0 < w.pool.max_idle
    → IdleOrdered w
    → Reach w v
    → IdleOrdered v × (0 < v.pool.max_idle)
Reach-IdleOrdered pos o here = (o, pos)
Reach-IdleOrdered pos o (next r s) =
    let (o', pos') = Reach-IdleOrdered pos o r in
    (Step-IdleOrdered pos' o' s, keeps_max_idle pos' s)

-- After any history of a new pool that keeps idle connections, on a clock that does not go back, a
-- retirement with a time limit takes the idle connections that have timed out, each of them, and
-- keeps the others in their order.
pub retire-SplitsByAge :
    (capacity max_reused timeout now : ℕ) {v : World}
    → 0 < max_reused
    → 0 < v.pool.idle_timeout
    → Reach (start (make capacity max_reused timeout) now) v
    → SplitsByAge v.now v.pool.idle_timeout v.pool.idle_list
        (retire v.pool v.now).0
        (retire v.pool v.now).1.idle_list
unfolding retire start make
retire-SplitsByAge capacity max_reused timeout now {v} pos on r =
    let (o, _) = Reach-IdleOrdered pos tt r in
    let split =
      retire_from-SplitsByAge 0 v.now v.pool.idle_timeout v.pool.size v.pool.idle_list o in
    rw (lt→ltb 0 v.pool.idle_timeout on) split
