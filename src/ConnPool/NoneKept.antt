-- ===== src/ConnPool/NoneKept.antt =====
-- conn-pool/conn_pool/pool.h: a pool that is made to keep no idle connection.
use eureka.Common.{
  ℕ, ◌≡◌, refl, sym, ap, subst, ◌∙◌, List, [], ◌∷◌, length, length-append, err, undefined, arith,
  ◌==◌, ==_iff, true,
}
use eureka.ConnPool.{
  IdleConn, Conn, Pool, make, retire_from, retire, reused, exhausted, reserved, release_slot, put,
  evict,
}
use eureka.ConnPool.World.{
  World, start, Step, Reach, waits, retires, reuses, refuses, reserves, creates, fails, escapes,
  assigned, dies, here, next,
}
use eureka.ConnPool.Invariant.{admitted, retire-Changes}

-- What holds of a pool that keeps no idle connection.
abbrev KeepsNone : World → Type 0
KeepsNone w = (w.pool.max_idle ≡ 0) × (w.pool.idle_list ≡ [])

put-KeepsNone :
    (p : Pool) (c : Conn) (now : ℕ)
    → p.max_idle ≡ 0
    → p.idle_list ≡ []
    → put p c now ≡ err undefined
unfolding put evict
put-KeepsNone p c now none_kept empty =
    let full : (length p.idle_list == p.max_idle) ≡ true =
      (==_iff _ _).1 (ap length empty ∙ sym none_kept) in
    let gone : evict p p.idle_list ≡ err undefined = ap (evict p) empty in rw (full, gone) refl

retire-empty : (p : Pool) (t : ℕ) → p.idle_list ≡ [] → (retire p t).1.idle_list ≡ []
unfolding retire retire_from
retire-empty p t empty =
    let rest = ap (λ cs. (retire_from t p.idle_timeout p.size cs).2) empty in
    ground (arith, rest, empty)

Step-KeepsNone : {w v : World} → KeepsNone w → Step w v → KeepsNone v
unfolding release_slot
Step-KeepsNone {w} k (waits d) = k
Step-KeepsNone {w} k (retires t gone p h e) =
    let gone_max = (retire-Changes w.pool t).1 ∙ k.0 in
    subst (λ (r : List IdleConn × Pool). (r.1.max_idle ≡ 0) × (r.1.idle_list ≡ [])) e
      (gone_max, retire-empty w.pool t k.1)
Step-KeepsNone {w} k (reuses c p e) =
    let (last, cut, _, _) = (admitted w.pool p (reused c) e).2 in
    let lengths = ap length (sym k.1 ∙ cut) ∙ length-append p.idle_list (last ∷ []) in
    absurd (omega (arith, lengths))
Step-KeepsNone {w} k (refuses p e) =
    subst (λ (q : Pool). (q.max_idle ≡ 0) × (q.idle_list ≡ []))
      (sym (admitted w.pool p exhausted e).0) k
Step-KeepsNone {w} k (reserves p e) =
    let (changes, empty, empty', room, size) = admitted w.pool p reserved e in
    (changes.1 ∙ k.0, empty')
Step-KeepsNone {w} k (creates raw n e) = k
Step-KeepsNone {w} k (fails n e) = k
Step-KeepsNone {w} k (escapes n e) = k
Step-KeepsNone {w} k (assigned before after c e) = k
Step-KeepsNone {w} k (dies before after c out p e f) =
    absurd (cc (f, put-KeepsNone w.pool c w.now k.0 k.1))

Reach-KeepsNone : {w v : World} → KeepsNone w → Reach w v → KeepsNone v
Reach-KeepsNone k here = k
Reach-KeepsNone k (next r s) = Step-KeepsNone (Reach-KeepsNone k r) s

-- In a new pool that is made to keep no idle connection, in whatever order the threads have taken
-- their turns, a connection that comes back takes the front of an empty deque.
pub put-Reach-undefined :
    (capacity timeout now at_put : ℕ) (c : Conn) {v : World}
    → Reach (start (make capacity 0 timeout) now) v
    → put v.pool c at_put ≡ err undefined
unfolding start make
put-Reach-undefined capacity timeout now at_put c r =
    let (none_kept, empty) = Reach-KeepsNone (refl, refl) r in
    put-KeepsNone _ c at_put none_kept empty
