-- ===== src/ConnPool/Invariant.antt =====
-- The size of the pool counts its connections, and stays within the capacity.
use eureka.Common.{
  ℕ, ◌+◌, ◌^◌, ◌≤◌, ◌<◌, ◌≡◌, ◌≢◌, refl, sym, ap, subst, ◌∙◌, ok-injective, inl, inr, List, [], ◌∷◌,
  ◌++◌, length, length-append, Option, none, some, ok, leb, arith, leb→le, Bool-cases,
}
use eureka.ConnPool.{
  IdleConn, Conn, Pool, make, increment, decrement, split_last, retire_from, retire, Admission,
  reused, exhausted, reserved, admit, release_slot, put, admit_from, idle_conn,
}
use eureka.ConnPool.World.{
  World, start, Step, Reach, waits, retires, reuses, refuses, reserves, creates, fails, escapes,
  assigned, dies, here, next,
}
use eureka.ConnPool.Putting.{Changes, Puts, put_by}

-- Each connection that counts is idle, held by a user, being made, or lost.
pub record Inv (w : World) : Type 0 where
  pub counted : w.pool.size ≡ length w.pool.idle_list + length w.live + w.pending + w.lost
  pub bounded : w.pool.size ≤ w.pool.capacity
  pub word : w.pool.capacity < 2 ^ 64
  pub few_idle : length w.pool.idle_list ≤ w.pool.max_idle

-- `split_last` cuts off the back of the deque.
abbrev IsCut : List IdleConn → Option (List IdleConn × IdleConn) → Type 0
IsCut cs none = cs ≡ []
IsCut cs (some (rest, last)) = cs ≡ rest ++ last ∷ []

IsCut-cons :
    (c : IdleConn) (cs : List IdleConn) (o : Option (List IdleConn × IdleConn))
    → cs ≢ []
    → IsCut cs o
    → IsCut (c ∷ cs) (elim o [ none ↦ none | some (rest, last) ↦ some (c ∷ rest, last) ])
IsCut-cons c cs none h e = absurd (h e)
IsCut-cons c cs (some (rest, last)) h e = ap (◌∷◌ c) e

split_last-IsCut : (cs : List IdleConn) → IsCut cs (split_last cs)
unfolding split_last
split_last-IsCut [] = refl
split_last-IsCut (c ∷ []) = refl
split_last-IsCut (c ∷ d ∷ cs) =
    IsCut-cons c (d ∷ cs) (split_last (d ∷ cs)) (λ e. cc) (split_last-IsCut (d ∷ cs))

-- The three ends of the second section of `Get`.
abbrev pub Admits : Pool → Admission → Pool → Type 0
Admits p (reused c) q =
    Changes p q
    × (q.size ≡ p.size)
    × ((last : IdleConn) × (p.idle_list ≡ q.idle_list ++ last ∷ [])
        × (c.raw_conn ≡ last.conn)
        × (c.raw_conn_creation ≡ last.created))
Admits p exhausted q = (q ≡ p) × (p.idle_list ≡ []) × (p.capacity ≤ p.size)
Admits p reserved q =
    Changes p q
    × (p.idle_list ≡ [])
    × (q.idle_list ≡ [])
    × (p.size < p.capacity)
    × (q.size ≡ increment p.size)

admit_from-Admits :
    (p : Pool) (o : Option (List IdleConn × IdleConn))
    → IsCut p.idle_list o
    → Admits p (admit_from p o).0 (admit_from p o).1
unfolding admit_from
admit_from-Admits p none cut = elim (Bool-cases (leb p.capacity p.size)) [
  | inl full ↦ rw full (refl, cut, leb→le p.capacity p.size full)
  | inr room ↦ rw room ((refl, refl, refl), cut, cut, ground arith, refl)
]
admit_from-Admits p (some (rest, last)) cut = ((refl, refl, refl), refl, (last, cut, refl, refl))

-- A connection is reused from the back of the deque if there is one; otherwise a slot is reserved
-- if the pool is below its capacity, and only then is it exhausted.
pub admit-Admits : (p : Pool) → Admits p (admit p).0 (admit p).1
unfolding admit
admit-Admits p = admit_from-Admits p (split_last p.idle_list) (split_last-IsCut p.idle_list)

abbrev RetireCounts : ℕ → ℕ → List IdleConn → Type 0
RetireCounts now t cs =
    (size : ℕ)
    → length cs ≤ size
    → size < 2 ^ 64
    → let r = retire_from now t size cs in
      (length r.0 + length r.2 ≡ length cs) × (r.1 + length r.0 ≡ size)

retire_from_counts : (now t : ℕ) (cs : List IdleConn) → RetireCounts now t cs
unfolding retire_from
retire_from_counts now t [] size h k = (refl, omega arith)
retire_from_counts now t (c ∷ cs) size h k =
    ground (arith, retire_from_counts now t cs (decrement size))

-- With room for an idle connection `Put` has no undefined step.
pub put_lem :
    (p : Pool) (c : Conn) (now : ℕ)
    → 0 < p.max_idle
    → (out : Option IdleConn) × (q : Pool) × (put p c now ≡ ok (out, q)) × Puts p c now out q
put_lem p c now h = put_by p c now p.idle_list refl h

start-Inv :
    (capacity max_reused timeout now : ℕ)
    → capacity < 2 ^ 64
    → Inv (start (make capacity max_reused timeout) now)
unfolding start make
start-Inv capacity max_reused timeout now h = record {
  counted = omega arith;
  bounded = omega arith;
  word = h;
  few_idle = omega arith;
}

pub retire-Changes : (p : Pool) (now : ℕ) → Changes p (retire p now).1
unfolding retire
retire-Changes p now = ground arith

retire_counts :
    (p : Pool) (now : ℕ)
    → length p.idle_list ≤ p.size
    → p.size < 2 ^ 64
    → (length (retire p now).0 + length (retire p now).1.idle_list ≡ length p.idle_list)
      × ((retire p now).1.size + length (retire p now).0 ≡ p.size)
unfolding retire
retire_counts p now h k =
    ground (arith, retire_from_counts now p.idle_timeout p.idle_list p.size h k)

pub admitted : (p q : Pool) (a : Admission) → admit p ≡ (a, q) → Admits p a q
admitted p q a e = subst (λ r. Admits p r.0 r.1) e (admit-Admits p)

pub put-ok :
    (p q : Pool) (c : Conn) (now : ℕ) (out : Option IdleConn)
    → 0 < p.max_idle
    → put p c now ≡ ok (out, q)
    → Puts p c now out q
put-ok p q c now out h e =
    let (out', q', done, ends) = put_lem p c now h in
    let same : ◌≡◌ {A = Option IdleConn × Pool} (out', q') (out, q) = ok-injective (sym done ∙ e) in
    subst (λ (r : Option IdleConn × Pool). Puts p c now r.0 r.1) same ends

-- The count and the bounds, apart from the world they stand in.
abbrev Counts : Pool → ℕ → Type 0
Counts p others =
    (p.size ≡ length p.idle_list + others)
    × (p.size ≤ p.capacity)
    × (p.capacity < 2 ^ 64)
    × (length p.idle_list ≤ p.max_idle)

retire-Counts : (p : Pool) (now others : ℕ) → Counts p others → Counts (retire p now).1 others
retire-Counts p now others c =
    let changes = retire-Changes p now in
    let counts = retire_counts p now (omega arith) (omega arith) in omega arith

admit-Counts :
    (p q : Pool) (a : Admission) (others : ℕ)
    → Admits p a q
    → Counts p others
    → Counts q (elim a [ reused c ↦ others + 1 | exhausted ↦ others | reserved ↦ others + 1 ])
admit-Counts p q (reused c) others (changes, size, (last, cut, _, _)) counts =
    let lengths = ap length cut ∙ length-append q.idle_list (last ∷ []) in omega arith
admit-Counts p q exhausted others (same, _, _) counts =
    subst (λ r. Counts r others) (sym same) counts
admit-Counts p q reserved others (changes, empty, empty', room, size) counts =
    let lengths = ap length empty in let lengths' = ap length empty' in omega arith

put-Counts :
    (p q : Pool) (c : Conn) (now : ℕ) (out : Option IdleConn) (others : ℕ)
    → Puts p c now out q
    → Counts p (others + 1)
    → Counts q others
put-Counts p q c now none others (changes, size, room, parked) counts =
    let lengths = ap length parked ∙ length-append p.idle_list (idle_conn c now ∷ []) in omega arith
put-Counts p q c now (some old) others (changes, size, full, (rest, front, parked)) counts =
    let lengths = ap length parked ∙ length-append rest (idle_conn c now ∷ []) in
    let lengths' = ap length front in omega arith

Counts-Inv : (w : World) → Inv w → Counts w.pool (length w.live + w.pending + w.lost)
Counts-Inv w inv = omega (arith, inv.counted, inv.bounded, inv.word, inv.few_idle)

Inv-Counts :
    (w : World) (others : ℕ)
    → others ≡ length w.live + w.pending + w.lost
    → Counts w.pool others
    → Inv w
Inv-Counts w others e c = omega arith

-- No section of any thread breaks the count of the pool or passes its bounds.
pub Step-Inv : {w v : World} → 0 < w.pool.max_idle → Inv w → Step w v → Inv v
unfolding release_slot
Step-Inv {w} pos inv (waits d) = Inv-Counts _ _ refl (Counts-Inv w inv)
Step-Inv {w} pos inv (retires t gone p h e) = Inv-Counts _ _ refl (
    subst (λ (r : List IdleConn × Pool). Counts r.1 (length w.live + w.pending + w.lost)) e
      (retire-Counts w.pool t _ (Counts-Inv w inv)))
Step-Inv {w} pos inv (reuses c p e) =
    Inv-Counts _ _ (omega arith)
      (admit-Counts w.pool p (reused c) _ (admitted w.pool p (reused c) e) (Counts-Inv w inv))
Step-Inv {w} pos inv (refuses p e) =
    Inv-Counts _ _ refl
      (admit-Counts w.pool p exhausted _ (admitted w.pool p exhausted e) (Counts-Inv w inv))
Step-Inv {w} pos inv (reserves p e) =
    Inv-Counts _ _ (omega arith)
      (admit-Counts w.pool p reserved _ (admitted w.pool p reserved e) (Counts-Inv w inv))
Step-Inv {w} pos inv (creates raw n e) = Inv-Counts _ _ (omega arith) (Counts-Inv w inv)
Step-Inv {w} pos inv (fails n e) = omega (arith, inv.counted, inv.bounded, inv.word, inv.few_idle)
Step-Inv {w} pos inv (escapes n e) = Inv-Counts _ _ (omega arith) (Counts-Inv w inv)
Step-Inv {w} pos inv (assigned before after c e) =
    let held = ap length e ∙ length-append before (c ∷ after) in
    let left = length-append before after in Inv-Counts _ _ (omega arith) (Counts-Inv w inv)
Step-Inv {w} pos inv (dies before after c out p e f) =
    let held = ap length e ∙ length-append before (c ∷ after) in
    let left = length-append before after in
    Inv-Counts _ (length before + length after + w.pending + w.lost) (omega arith) (
      put-Counts w.pool p c w.now out _ (put-ok w.pool p c w.now out pos f)
        (subst (Counts w.pool) (omega arith) (Counts-Inv w inv)))

pub keeps_max_idle : {w v : World} → 0 < w.pool.max_idle → Step w v → 0 < v.pool.max_idle
unfolding release_slot
keeps_max_idle {w} pos (waits d) = pos
keeps_max_idle {w} pos (retires t gone p h e) =
    let kept =
      subst (λ (r : List IdleConn × Pool). Changes w.pool r.1) e (retire-Changes w.pool t) in
    omega arith
keeps_max_idle {w} pos (reuses c p e) = let kept = (admitted w.pool p (reused c) e).0 in omega arith
keeps_max_idle {w} pos (refuses p e) =
    subst (λ (q : Pool). 0 < q.max_idle) (sym (admitted w.pool p exhausted e).0) pos
keeps_max_idle {w} pos (reserves p e) = let kept = (admitted w.pool p reserved e).0 in omega arith
keeps_max_idle {w} pos (creates raw n e) = pos
keeps_max_idle {w} pos (fails n e) = pos
keeps_max_idle {w} pos (escapes n e) = pos
keeps_max_idle {w} pos (assigned before after c e) = pos
keeps_max_idle {w} pos (dies before after c out p e f) =
    put_keeps out (put-ok w.pool p c w.now out pos f)
  where
    put_keeps : (o : Option IdleConn) → Puts w.pool c w.now o p → 0 < p.max_idle
    put_keeps none ends = let kept = ends.0 in omega arith
    put_keeps (some old) ends = let kept = ends.0 in omega arith

Reach-both : {w v : World} → 0 < w.pool.max_idle → Inv w → Reach w v → Inv v × (0 < v.pool.max_idle)
Reach-both pos inv here = (inv, pos)
Reach-both pos inv (next r s) =
    let (inv', pos') = Reach-both pos inv r in (Step-Inv pos' inv' s, keeps_max_idle pos' s)

-- From a new pool that keeps at least one idle connection, with a capacity below 2 ^ 64, in whatever
-- order the threads take their turns: the size is the number of the connections that are idle, in use
-- or being made, and of the slots that were lost, one by each handle that was assigned to while it
-- held a connection and by each exception of NewConn that is no std::exception; it never passes the
-- capacity, and no more than max_idle are idle.
pub Reach-Inv :
    (capacity max_reused timeout now : ℕ) {v : World}
    → capacity < 2 ^ 64
    → 0 < max_reused
    → Reach (start (make capacity max_reused timeout) now) v
    → Inv v
unfolding start make
Reach-Inv capacity max_reused timeout now word pos r =
    (Reach-both pos (start-Inv capacity max_reused timeout now word) r).0
