-- ===== src/RcString/Refined.antt =====
-- RCString/src/rc_string.cpp: a run of calls on strings that share their data, against one on values.
use mathlib.Core.Path.{fun_ext}
use eureka.RcString.Follows.{
  Follows, creates-Follows, creates_empty-Follows, reads-Follows, copies-Follows, refers-Follows,
  appends-Follows, puts-Follows, destroys-Follows,
}
use eureka.Common.{
  at, ℕ, zero, suc, ◌+◌, ◌≤◌, ◌<◌, ◌≡◌, refl, sym, ap, subst, ◌∙◌, ◌≢◌, List, [], ◌∷◌, ◌++◌, length,
  get_elem?, set, Option, none, some, Bool, true, false, ok, undefined, ensure, ◌>>◌, bind-ok,
  ok-injective, ◌>>=◌, Result, arith, length-append, length-set, ltb→lt,
}
use eureka.RcString.{StringData, World, deref, unsharedable, unshared_ref_mark}
use eureka.RcString.Data.{content}
use eureka.RcString.Shown.{Value, Stands, Each, Each-value, Each-length}
use eureka.RcString.Owners.{owners}
use eureka.RcString.Calls.{
  Call, creates, creates_empty, copies, destroys, refers, reads, appends, puts, call, call_spec,
  run, no_strings,
}

-- What a spec's access to a value says.
deref-ok {ℓ} :
    {A B : Type ℓ} (xs : List (Option A)) (v : ℕ) (f : A → Result B) (b : B)
    → (deref xs v >>= f) ≡ ok b
    → (x : A) × (get_elem? xs v ≡ some (some x)) × (f x ≡ ok b)
unfolding deref at
deref-ok [] v f b e = absurd (cc e)
deref-ok (none ∷ xs) zero f b e = absurd (cc e)
deref-ok (some x ∷ xs) zero f b e = (x, refl, e)
deref-ok (o ∷ xs) (suc v) f b e = deref-ok xs v f b e

guarded {ℓ} :
    {A : Type ℓ} (m b : Bool) (rest : Result A) (r : A)
    → (ensure m undefined >> (ensure b undefined >> rest)) ≡ ok r
    → (m ≡ true) × (b ≡ true) × (rest ≡ ok r)
guarded false b rest r e = absurd (cc e)
guarded true false rest r e = absurd (cc e)
guarded true true rest r e = (refl, refl, e)

module _ (w : World) (vs : List Value) (st : Stands w vs) where
  -- A call on a value is one on the block that the string of the value points to.
  at_value :
      {G : Type 0} (v : ℕ) (f : List ℕ × Bool → Result (List ℕ × List Value))
      (b : List ℕ × List Value)
      → (deref vs v >>= f) ≡ ok b
      → ((p : ℕ) (d : StringData)
          → get_elem? w.strings v ≡ some (some p)
          → get_elem? w.heap p ≡ some (some d)
          → f (content d, unsharedable d) ≡ ok b
          → G)
      → G
  at_value v f b e k =
      let (x, there, g) = deref-ok vs v f b e in
      let (p, d, points, here, shows, marked) =
        Each-value w.heap w.strings vs v x.0 x.1 st.each there in
      let same : x ≡ (content d, unsharedable d) = λ i. (shows i, marked i) in
      k p d points here (ap f (sym same) ∙ g)

  -- The list of values grows by one at most.
  abbrev Grows : Call → List ℕ × List Value → Type 0
  Grows c q = Follows w c q.0 q.1 × (length q.1 ≤ length vs + 1)

  settled :
      (c : Call) (q r : List ℕ × List Value)
      → Follows w c q.0 q.1
      → length q.1 ≤ length vs + 1
      → ◌≡◌ {A = Result (List ℕ × List Value)} (ok q) (ok r)
      → Grows c r
  settled c q r follows grows e = subst (Grows c) (ok-injective e) (follows, grows)

  one_more : (y : Value) → length (vs ++ y ∷ []) ≤ length vs + 1
  one_more y = omega (arith, length-append vs (y ∷ []))

  none_more : (v : ℕ) (y : Value) → length (set vs v y) ≤ length vs + 1
  none_more v y = omega (arith, length-set vs v y)

  -- What the call on values gives is what the call on strings gives.
  call-Follows :
      (c : Call) (r : List ℕ × List Value)
      → length vs + 1 < unshared_ref_mark
      → call_spec vs c ≡ ok r
      → Grows c r
  unfolding call_spec
  call-Follows creates_empty r few e =
      settled creates_empty _ r (creates_empty-Follows w vs st) (one_more _) e
  call-Follows (creates str) r few e =
      settled (creates str) _ r (creates-Follows w vs st str) (one_more _) e
  call-Follows (copies v) r few e = at_value v _ r e λ p d points here f.
      let same = Each-length w.heap w.strings vs st.each in
      settled (copies v) _ r (copies-Follows w vs st v p d points here (omega (arith, same)))
        (one_more _) f
  call-Follows (destroys v) r few e = at_value v _ r e λ p d points here f.
      settled (destroys v) _ r (destroys-Follows w vs st v p d points here) (none_more v _) f
  call-Follows (refers v) r few e = at_value v _ r e λ p d points here f.
      settled (refers v) _ r (refers-Follows w vs st v p d points here) (none_more v _) f
  call-Follows (reads v) r few e = at_value v _ r e λ p d points here f.
      settled (reads v) _ r (reads-Follows w vs st v p d points here) (omega arith) f
  call-Follows (appends v str) r few e = at_value v _ r e λ p d points here f.
      settled (appends v str) _ r (appends-Follows w vs st v p d points here str) (none_more v _) f
  call-Follows (puts v pos c) r few e = at_value v _ r e λ p d points here f.
      let (marked, inside, g) = guarded _ _ _ r f in
      settled (puts v pos c) _ r
        (puts-Follows w vs st v p d points here pos c marked (ltb→lt _ _ inside)) (none_more v _) g

run-Follows :
    (w : World) (vs : List Value) (cs : List Call) (r : List (List ℕ) × List Value)
    → Stands w vs
    → length vs + length cs < unshared_ref_mark
    → run call_spec vs cs ≡ ok r
    → (w' : World) × (run (call (λ q. 0)) w cs ≡ ok (r.0, w')) × Stands w' r.1
unfolding run
run-Follows w vs [] r st few e =
    let same = ok-injective e in
    (
      w,
      ap (λ q. ok (q.0, w)) same,
      subst (λ (q : List (List ℕ) × List Value). Stands w q.1) same st,
    )
run-Follows w vs (c ∷ cs) r st few e =
    let (q, called, rest) = bind-ok (call_spec vs c) _ r e in
    let ((w', done, st'), grows) = call-Follows w vs st c q (omega arith) called in
    let (q', ran, last) = bind-ok (run call_spec q.1 cs) _ r rest in
    let (w'', run_done, st'') = run-Follows w' q.1 cs q' st' (omega arith) ran in
    let same = ok-injective last in
    (
      w'',
      rw (done, run_done) (ap (λ k. ok (k.0, w'')) same),
      subst (λ (k : List (List ℕ) × List Value). Stands w'' k.1) same st'',
    )

nothing-Stands : Stands no_strings []
nothing-Stands = record { each = tt; sound = λ p d e. absurd (cc e) }

-- If `new` finds 0 where the member `capacity_` will stand: fewer than 2 ^ 32 - 1 calls, that are in
-- order on values which each string has for itself, succeed on the strings that share their data,
-- with the same outputs.
pub run-refines :
    (stale : ℕ → ℕ) (cs : List Call) (outs : List (List ℕ)) (us : List Value)
    → ((p : ℕ) → stale p ≡ 0)
    → length cs < unshared_ref_mark
    → run call_spec [] cs ≡ ok (outs, us)
    → (w : World) × (run (call stale) no_strings cs ≡ ok (outs, w))
run-refines stale cs outs us zeros few e =
    let (w, done, st) = run-Follows no_strings [] cs (outs, us) nothing-Stands (omega arith) e in
    (w, rw (fun_ext zeros) done)

abbrev pub AllGone : List Value → Type 0
AllGone [] = Unit
AllGone (y ∷ us) = (y ≡ none) × AllGone us

owners-gone :
    (h : List (Option StringData)) (s : List (Option ℕ)) (us : List Value) (p : ℕ)
    → Each h s us
    → AllGone us
    → owners p s ≡ 0
owners-gone h [] us p a g = refl
owners-gone h (x ∷ s) [] p a g = absurd a
owners-gone h (none ∷ s) (y ∷ us) p a g = omega (arith, owners-gone h s us p a.1 g.1)
owners-gone h (some q ∷ s) (y ∷ us) p a g = absurd (cc (a.0.2, g.0))

-- The blocks of the heap that are not deleted.
unfoldable pub allocated : List (Option StringData) → ℕ
allocated [] = 0
allocated (none ∷ h) = allocated h
allocated (some d ∷ h) = suc (allocated h)

allocated-none :
    (h : List (Option StringData))
    → ((p : ℕ) (d : StringData) → get_elem? h p ≢ some (some d))
    → allocated h ≡ 0
unfolding allocated
allocated-none [] gone = refl
allocated-none (none ∷ h) gone = allocated-none h (λ p d. gone (suc p) d)
allocated-none (some d ∷ h) gone = absurd (gone 0 d refl)

-- Behind such calls, when each string was destroyed, each block was deleted.
pub run-frees :
    (stale : ℕ → ℕ) (cs : List Call) (outs : List (List ℕ)) (us : List Value)
    → ((p : ℕ) → stale p ≡ 0)
    → length cs < unshared_ref_mark
    → run call_spec [] cs ≡ ok (outs, us)
    → AllGone us
    → (w : World) × (run (call stale) no_strings cs ≡ ok (outs, w)) × (allocated w.heap ≡ 0)
run-frees stale cs outs us zeros few e gone =
    let (w, done, st) = run-Follows no_strings [] cs (outs, us) nothing-Stands (omega arith) e in
    let unowned = λ (p : ℕ). owners-gone w.heap w.strings us p st.each gone in
    (
      w,
      rw (fun_ext zeros) done,
      allocated-none w.heap
          (λ p d here. let (f, counted) = st.sound p d here in ground (arith, counted, unowned p)),
    )
