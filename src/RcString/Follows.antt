-- ===== src/RcString/Follows.antt =====
-- RCString/src/rc_string.cpp, each call on strings that share their data, against that on values.
use eureka.RcString.Constructed.{hold-Stands, join-Stands}
use eureka.Common.{
  ==_iff, ℕ, ◌+◌, ◌<◌, ◌≡◌, refl, sym, ap, subst, ◌∙◌, ◌⊎◌, inl, inr, List, [], ◌∷◌, ◌++◌, length,
  get_elem?, set, none, some, true, false, ok, arith, Bool-cases, lt→ltb, ltb,
}
use eureka.RcString.{
  StringData, World, create, create_empty, copy, destroy, append, refer, put_char, text, bytes,
  unsharedable, unshared_ref_mark, release, store, hold, delete_data, add_ref, base_size,
}
use eureka.RcString.Data.{
  content, length-content, make_data-Made, copy_data-Made, clone-Made, copy_data-Copied, put-Fits,
  content-put,
}
use eureka.RcString.Shown.{Value, Stands}
use eureka.RcString.Owners.{owners, owners-one}
use eureka.RcString.Owned.{leave, modify}
use eureka.RcString.Modified.{
  prepared, changed, data_of-ok, Counted-cases, release-shared, unique-count,
}
use eureka.RcString.Calls.{
  Call, creates, creates_empty, copies, destroys, refers, reads, appends, puts, call,
}

release-last :
    (d : StringData)
    → (d.ref_count ≡ 1) ⊎ (d.ref_count ≡ unshared_ref_mark)
    → (e : StringData) × (release d ≡ ok (true, e)) × (delete_data e ≡ ok none)
unfolding release delete_data
release-last d (inl one) = (record d { ref_count = 0 }, rw one refl, refl)
release-last d (inr mark) = (d, rw mark refl, rw mark refl)

-- The call gives the output, and leaves strings that show the values.
abbrev pub Follows : World → Call → List ℕ → List Value → Type 0
Follows w c out us = (w' : World) × (call (λ q. 0) w c ≡ ok (out, w')) × Stands w' us

module _ (w : World) (vs : List Value) (st : Stands w vs) where
  pub creates-Follows : (str : List ℕ) → Follows w (creates str) [] (vs ++ some (str, false) ∷ [])
  unfolding call create
  creates-Follows str =
      let (d, copied, made) = copy_data-Made (length str) str (omega arith) in
      (hold w d, rw copied refl, hold-Stands w vs st d str made.fits made.ref_count made.content_eq)

  pub creates_empty-Follows : Follows w creates_empty [] (vs ++ some ([], false) ∷ [])
  unfolding call create_empty
  creates_empty-Follows =
      let made = make_data-Made base_size in
      (_, refl, hold-Stands w vs st _ [] made.fits made.ref_count made.content_eq)

  module _ (v p : ℕ) (d : StringData) (points : get_elem? w.strings v ≡ some (some p))
      (here : get_elem? w.heap p ≡ some (some d)) where
    pub reads-Follows : Follows w (reads v) (content d) vs
    unfolding call text
    reads-Follows = (w, rw (data_of-ok w v p d points here) refl, st)

    pub copies-Follows :
        length w.strings + 1 < unshared_ref_mark
        → Follows w (copies v) [] (vs ++ some (content d, false) ∷ [])
    unfolding call copy add_ref
    copies-Follows few = elim (Bool-cases (unsharedable d)) [
      | inl marked ↦
          let (f, counted) = st.sound p d here in
          let (e, cloned, made) = clone-Made d d.size f in
          (
            hold w e,
            rw (data_of-ok w v p d points here, marked, cloned) refl,
            hold-Stands w vs st e (content d) made.fits made.ref_count made.content_eq,
          )
      | inr shared ↦
          let (f, counted) = st.sound p d here in
          let positive : ltb 0 d.ref_count ≡ true =
            (let many = owners-one p v w.strings points in ground (arith, counted, many)) in
          (
            _,
            rw (data_of-ok w v p d points here, shared, positive) refl,
            join-Stands w vs st p d here shared few,
          )
    ]

    pub refers-Follows : Follows w (refers v) [] (set vs v (some (content d, true)))
    unfolding call refer
    refers-Follows =
        let (w', done, pr) = prepared w vs st v d.size p d points here true in
        (w', rw (data_of-ok w v p d points here, done) refl, pr.stands)

    pub appends-Follows :
        (str : List ℕ) → Follows w (appends v str) [] (set vs v (some (content d ++ str, false)))
    unfolding call append
    appends-Follows str =
        let (f, counted) = st.sound p d here in
        let (w', done, pr) = prepared w vs st v (d.size + length str) p d points here false in
        let (g, counted') = pr.stands.sound pr.pointer pr.block pr.here in
        let same_size : pr.block.size ≡ d.size =
          omega (arith, ap length pr.shows, length-content d f, length-content pr.block g) in
        let (e, copied, c) =
          copy_data-Copied pr.block str g (unique-count pr.block pr.count)
            (omega (arith, same_size, pr.room)) in
        let next =
          changed w' vs v _ 0 (content d) (content d ++ str) false false e pr c.fits
            (c.content_eq ∙ ap (λ t. t ++ str) pr.shows) (rw c.ref_count pr.marked)
            (subst (λ (r : ℕ). (r ≡ 1) ⊎ (r ≡ unshared_ref_mark)) (sym c.ref_count) pr.count)
            (omega arith) in
        (
          store w' pr.pointer e,
          rw
              (
                data_of-ok w v p d points here,
                done,
                data_of-ok w' v pr.pointer pr.block pr.points pr.here,
                copied,
              )
              refl,
          next.stands,
        )

    pub puts-Follows :
        (pos c : ℕ)
        → unsharedable d ≡ true
        → pos < length (content d)
        → Follows w (puts v pos c) [] (set vs v (some (set (content d) pos c, true)))
    unfolding call put_char
    puts-Follows pos c marked h =
        let (f, counted) = st.sound p d here in
        let single : owners p w.strings ≡ 1 = ground (arith, counted, marked) in
        let size = length-content d f in
        let inside = lt→ltb pos (length (bytes d.buffer)) (omega (arith, size, f.used, f.whole)) in
        let e : StringData = record d { buffer = some (set (bytes d.buffer) pos c) } in
        let count : (e.ref_count ≡ 1) ⊎ (e.ref_count ≡ unshared_ref_mark) =
          inr ((==_iff d.ref_count unshared_ref_mark).0 marked) in
        let next = modify w vs st v p points d here e single (put-Fits d pos c f) count in
        (
          store w p e,
          rw (data_of-ok w v p d points here, inside) refl,
          subst (λ y. Stands (store w p e) (set vs v (some y)))
              (rw (content-put d pos c (omega (arith, size)), marked) refl) next,
        )

    pub destroys-Follows : Follows w (destroys v) [] (set vs v none)
    unfolding call destroy
    destroys-Follows =
        let (f, counted) = st.sound p d here in
        elim (Counted-cases d _ (owners-one p v w.strings points) counted) [
          | inl (alone, one, count) ↦
              let (e, released, deleted) = release-last d count in
              (
                _,
                rw (data_of-ok w v p d points here, released, deleted) refl,
                leave w vs st v p points d here none (inl (one, refl)),
              )
          | inr (shared, count, more, lt) ↦ (
            _,
            rw (data_of-ok w v p d points here, release-shared d _ count more lt) refl,
            leave w vs st v p points d here _ (inr (count, more, lt, refl)),
          )
        ]
