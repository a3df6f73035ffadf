-- ===== src/RcString/Modified.antt =====
-- RCString/src/rc_string.cpp, `PrepareToModify`: a string gets data that it does not share.
use eureka.Common.{
  ℕ, ◌-◌, ◌≤◌, ◌<◌, ◌≡◌, refl, sym, ap, subst, ◌∙◌, ◌⊎◌, inl, inr, List, [], ◌∷◌, ◌++◌, length,
  get_elem?, set, Option, none, some, Bool, true, false, ◌==◌, ok, if◌then◌else◌, arith, at-some,
  Bool-cases, ==_iff, length-get_elem?, get_elem?-set_self, length-set,
}
use eureka.RcString.{
  StringData, World, unsharedable, unshared_ref_mark, unique, release, reserve, deref, data_of,
  store, make_unique, prepare_to_modify, make_unsharedable, reset_sharedable,
}
use eureka.RcString.Data.{content, Fits, reserve-Grown, clone-Made, Made}
use eureka.RcString.Shown.{Value, Counted, Stands}
use eureka.RcString.Owners.{owners, owners-one, set-set, get_elem?-append_last}
use eureka.RcString.Owned.{place_new, modify, leave}

pub deref-some {ℓ} :
    {A : Type ℓ} (xs : List (Option A)) (i : ℕ) (x : A)
    → get_elem? xs i ≡ some (some x)
    → deref xs i ≡ ok x
unfolding deref
deref-some xs i x e = rw (at-some xs i (some x) e) refl

pub data_of-ok :
    (w : World) (v p : ℕ) (d : StringData)
    → get_elem? w.strings v ≡ some (some p)
    → get_elem? w.heap p ≡ some (some d)
    → data_of w v ≡ ok (p, d)
unfolding data_of
data_of-ok w v p d e f = rw (deref-some w.strings v p e, deref-some w.heap p d f) refl

-- A block has one owner, and its count says so, or it has more, which the count gives.
pub Counted-cases :
    (d : StringData) (c : ℕ)
    → 1 ≤ c
    → Counted d c
    → ((unique d ≡ true) × (c ≡ 1) × ((d.ref_count ≡ 1) ⊎ (d.ref_count ≡ unshared_ref_mark)))
      ⊎ ((unique d ≡ false) × (d.ref_count ≡ c) × (2 ≤ c) × (c < unshared_ref_mark))
unfolding unique
Counted-cases d c h (inl (mark, one)) = inl (ground (arith, mark), one, inr mark)
Counted-cases d c h (inr (count, pos, lt)) = elim (Bool-cases (c == 1)) [
  | inl one ↦ inl (ground (arith, count, one), (==_iff c 1).0 one, inl (count ∙ (==_iff c 1).0 one))
  | inr more ↦ inr (ground (arith, count, more, lt), count, ground (arith, more, pos), lt)
]

-- The string v has the text t in data of its own, with room for n bytes.
pub record Prepared (w : World) (vs : List Value) (v : ℕ) (t : List ℕ) (m : Bool) (n : ℕ)
    : Type 0 where
  pub pointer : ℕ
  pub block : StringData
  pub points : get_elem? w.strings v ≡ some (some pointer)
  pub here : get_elem? w.heap pointer ≡ some (some block)
  pub single : owners pointer w.strings ≡ 1
  pub shows : content block ≡ t
  pub marked : unsharedable block ≡ m
  pub room : n ≤ block.capacity
  pub count : (block.ref_count ≡ 1) ⊎ (block.ref_count ≡ unshared_ref_mark)
  pub stands : Stands w (set vs v (some (t, m)))

-- A block of its own is changed once more.
pub changed :
    (w : World) (vs : List Value) (v n k : ℕ) (t u : List ℕ) (m o : Bool) (e : StringData)
    → (pr : Prepared w vs v t m n) → Fits e
    → content e ≡ u
    → unsharedable e ≡ o
    → (e.ref_count ≡ 1) ⊎ (e.ref_count ≡ unshared_ref_mark)
    → k ≤ e.capacity
    → Prepared (store w pr.pointer e) vs v u o k
changed w vs v n k t u m o e pr f shows marked count room = record {
  pointer = pr.pointer;
  block = e;
  points = pr.points;
  here = get_elem?-set_self w.heap pr.pointer (some e) (length-get_elem? w.heap _ _ pr.here);
  single = pr.single;
  shows = shows;
  marked = marked;
  room = room;
  count = count;
  stands =
      let next = modify w _ pr.stands v pr.pointer pr.points pr.block pr.here e pr.single f count in
      subst (λ us. Stands (store w pr.pointer e) us)
        (set-set vs v (some (t, m)) (some (content e, unsharedable e)) ∙ rw (shows, marked) refl)
        next;
}

pub release-shared :
    (d : StringData) (c : ℕ)
    → d.ref_count ≡ c
    → 2 ≤ c
    → c < unshared_ref_mark
    → release d ≡ ok (false, record d { ref_count = d.ref_count - 1 })
unfolding release
release-shared d c e h b = ground (arith, e)

pub unique-count :
    (d : StringData) → (d.ref_count ≡ 1) ⊎ (d.ref_count ≡ unshared_ref_mark) → unique d ≡ true
unfolding unique
unique-count d (inl one) = rw one refl
unique-count d (inr mark) = rw mark refl

abbrev mark_of : Bool → ℕ
mark_of m = if m then unshared_ref_mark else 1

mark_of-count : (m : Bool) → (mark_of m ≡ 1) ⊎ (mark_of m ≡ unshared_ref_mark)
mark_of-count true = inr refl
mark_of-count false = inl refl

mark_of-test : (m : Bool) → (mark_of m == unshared_ref_mark) ≡ m
mark_of-test true = refl
mark_of-test false = refl

marks :
    (m : Bool) (d : StringData)
    → unique d ≡ true
    → (if m then make_unsharedable d else reset_sharedable d)
      ≡ ok (record d { ref_count = mark_of m })
unfolding make_unsharedable reset_sharedable
marks true d u = rw u refl
marks false d u = rw u refl

module _ (w : World) (vs : List Value) (st : Stands w vs) (v n p : ℕ) (d : StringData)
    (points : get_elem? w.strings v ≡ some (some p))
    (here : get_elem? w.heap p ≡ some (some d)) where
  reserved :
      Fits d
      → owners p w.strings ≡ 1
      → (d.ref_count ≡ 1) ⊎ (d.ref_count ≡ unshared_ref_mark)
      → Prepared (store w p (reserve d n)) vs v (content d) (unsharedable (reserve d n)) n
  reserved f one count =
      let e = reserve d n in
      let g = reserve-Grown d n f in
      let count' : (e.ref_count ≡ 1) ⊎ (e.ref_count ≡ unshared_ref_mark) =
        subst (λ (r : ℕ). (r ≡ 1) ⊎ (r ≡ unshared_ref_mark)) (sym g.ref_count) count in
      record {
        pointer = p;
        block = e;
        points = points;
        here = get_elem?-set_self w.heap p (some e) (length-get_elem? w.heap _ _ here);
        single = one;
        shows = g.content_eq;
        marked = refl;
        room = g.room;
        count = count';
        stands =
            subst (λ t. Stands (store w p e) (set vs v (some (t, unsharedable e)))) g.content_eq
              (modify w vs st v p points d here e one g.fits count');
      }

  module _ (e : StringData) (made : Made n (content d) e) (count : d.ref_count ≡ owners p w.strings)
      (more : 2 ≤ owners p w.strings) (lt : owners p w.strings < unshared_ref_mark) where
    abbrev left_heap : List (Option StringData)
    left_heap = set w.heap p (some (record d { ref_count = d.ref_count - 1 }))

    -- The string leaves its block and points to a clone.
    abbrev parted_world : World
    parted_world = record {
      heap = left_heap ++ some e ∷ [];
      strings = set w.strings v (some (length w.heap));
    }

    at_v : v < length w.strings
    at_v = length-get_elem? w.strings v _ points

    parted-Stands : Stands parted_world (set vs v (some (content d, false)))
    parted-Stands =
        let left = leave w vs st v p points d here _ (inr (count, more, lt, refl)) in
        let empty = get_elem?-set_self w.strings v none at_v in
        let placed = place_new _ _ left v empty e made.fits made.ref_count in
        let moved : List (Option ℕ) → World =
          λ s. record { heap = left_heap ++ some e ∷ []; strings = s } in
        subst (λ us. Stands parted_world us)
          (set-set vs v none _ ∙ ap (λ t. set vs v (some (t, false))) made.content_eq)
          (subst (λ s. Stands (moved s) (set (set vs v none) v (some (content e, false))))
            (set-set w.strings v none _
              ∙ ap (λ k. set w.strings v (some k)) (length-set w.heap p _))
            placed)

    parted : Prepared parted_world vs v (content d) false n
    parted =
        let here' : get_elem? parted_world.heap (length w.heap) ≡ some (some e) =
          ap (get_elem? parted_world.heap) (sym (length-set w.heap p _))
          ∙ get_elem?-append_last left_heap (some e) in
        let (f, counted) = parted-Stands.sound (length w.heap) e here' in
        record {
          pointer = length w.heap;
          block = e;
          points = get_elem?-set_self w.strings v (some (length w.heap)) at_v;
          here = here';
          single = ground (arith, counted, made.ref_count);
          shows = made.content_eq;
          marked = rw made.ref_count refl;
          room = made.room;
          count = inl made.ref_count;
          stands = parted-Stands;
        }

  pub made_unique :
      (m : Bool) × (w' : World) × (make_unique (λ q. 0) w v n ≡ ok w')
      × Prepared w' vs v (content d) m n
  unfolding make_unique
  made_unique =
      let (f, c) = st.sound p d here in
      elim (Counted-cases d _ (owners-one p v w.strings points) c) [
        | inl (alone, one, count) ↦
            (_, _, rw (data_of-ok w v p d points here, alone) refl, reserved f one count)
        | inr (shared, count, more, lt) ↦
            let (e, cloned, made) = clone-Made d n f in
            (
              false,
              _,
              rw (data_of-ok w v p d points here, shared, cloned, release-shared d _ count more lt)
                  refl,
              parted e made count more lt,
            )
      ]

  pub prepared :
      (m : Bool)
      → (w' : World) × (prepare_to_modify (λ q. 0) w v n m ≡ ok w')
        × Prepared w' vs v (content d) m n
  unfolding prepare_to_modify
  prepared m =
      let (k, w', done, pr) = made_unique in
      let (fits, counted) = pr.stands.sound pr.pointer pr.block pr.here in
      let e : StringData = record pr.block { ref_count = mark_of m } in
      (
        store w' pr.pointer e,
        rw
            (
              done,
              data_of-ok w' v pr.pointer pr.block pr.points pr.here,
              marks m pr.block (unique-count pr.block pr.count),
            )
            refl,
        changed w' vs v n n (content d) (content d) k m e pr
            (record { used = fits.used; whole = fits.whole }) pr.shows (mark_of-test m)
            (mark_of-count m) pr.room,
      )
