-- ===== src/RcString/Owned.antt =====
-- RCString/src/rc_string.cpp: the changes of a string and of its block that keep the counts right.
use native.Mathlib.Decide.{ℕ_discrete}
use eureka.Common.{
  ℕ, ◌+◌, ◌-◌, ◌%◌, ◌^◌, ◌≤◌, ◌<◌, ◌≡◌, refl, sym, ap, subst, ◌∙◌, ◌≢◌, ◌⊎◌, inl, inr, List, [],
  ◌∷◌, ◌++◌, length, get_elem?, set, Option, none, some, false, arith, length-get_elem?,
  get_elem?-set_self, get_elem?-set_ne, ==_ne, ==_refl, length-set,
}
use eureka.RcString.{StringData, World, unsharedable, unshared_ref_mark}
use eureka.RcString.Data.{content, Fits}
use eureka.RcString.Shown.{
  Value, Each, Counted, Sound, Stands, Each-append_none, Each-live, Each-set, Kept,
}
use eureka.RcString.Owners.{
  owners, has, owners-set, owners-append_none, get_elem?-append, owners-found,
  get_elem?-append_cases, get_elem?-append_last, owners-two, owners-le_length, set_same,
}

Sound-set :
    (h : List (Option StringData)) (s : List (Option ℕ)) (p v : ℕ) (o was : Option StringData)
    (x old : Option ℕ)
    → get_elem? h p ≡ some was
    → get_elem? s v ≡ some old
    → ((q : ℕ) → q ≢ p → has q x ≡ has q old)
    → ((e : StringData) → o ≡ some e → Fits e × Counted e (owners p (set s v x)))
    → Sound h s
    → Sound (set h p o) (set s v x)
Sound-set h s p v o was x old e f others new sound q d g = elim (ℕ_discrete q p) [
  | yes same ↦
      let self = get_elem?-set_self h p o (length-get_elem? h p was e) in
      let g' : get_elem? (set h p o) p ≡ some (some d) =
        ap (get_elem? (set h p o)) (sym same) ∙ g in
      rw same (new d (cc (self, g')))
  | no other ↦
      let kept : owners q (set s v x) ≡ owners q s =
        omega (arith, owners-set q v s old x f, others q other) in
      rw kept (sound q d (sym (get_elem?-set_ne h p q o (λ r. other (sym r))) ∙ g))
]

Kept-set :
    (h : List (Option StringData)) (p : ℕ) (d e : StringData)
    → get_elem? h p ≡ some (some d)
    → content e ≡ content d
    → unsharedable e ≡ unsharedable d
    → (q : ℕ) → Kept h (set h p (some e)) q
Kept-set h p d e f c u q d' g = elim (ℕ_discrete q p) [
  | yes same ↦
      let at_p : get_elem? h p ≡ some (some d') = ap (get_elem? h) (sym same) ∙ g in
      let same_data : d' ≡ d = cc (at_p, f) in
      (
        e,
        ap (get_elem? (set h p (some e))) same
            ∙ get_elem?-set_self h p (some e) (length-get_elem? h p _ f),
        c ∙ ap content (sym same_data),
        u ∙ ap (λ x. unsharedable x) (sym same_data),
      )
  | no other ↦ (d', get_elem?-set_ne h p q (some e) (λ r. other (sym r)) ∙ g, refl, refl)
]

Kept-set_ne :
    (h : List (Option StringData)) (p : ℕ) (o : Option StringData) (q : ℕ)
    → q ≢ p
    → Kept h (set h p o) q
Kept-set_ne h p o q other d' g = (d', get_elem?-set_ne h p q o (λ r. other (sym r)) ∙ g, refl, refl)

module _ (w : World) (vs : List Value) (st : Stands w vs) where
  pub add_empty : Stands (record w { strings = w.strings ++ none ∷ [] }) (vs ++ none ∷ [])
  add_empty = record {
    each = Each-append_none w.heap w.strings vs st.each;
    sound = λ p d e. rw (owners-append_none p w.strings) (st.sound p d e);
  }

  fresh : owners (length w.heap) w.strings ≡ 0
  fresh = elim (ℕ_discrete (owners (length w.heap) w.strings) 0) [
    | yes e ↦ e
    | no some_owner ↦
        let (v, e) = owners-found (length w.heap) w.strings (omega arith) in
        let (d, f) = Each-live w.heap w.strings vs v (length w.heap) st.each e in
        absurd (omega (arith, length-get_elem? w.heap _ _ f))
  ]

  module _ (v : ℕ) (empty : get_elem? w.strings v ≡ some none) (d : StringData) where
    pub place_new :
        Fits d
        → d.ref_count ≡ 1
        → Stands
            (record {
              heap = w.heap ++ some d ∷ [];
              strings = set w.strings v (some (length w.heap));
            })
            (set vs v (some (content d, false)))
    place_new f one = record {
      each =
          Each-set w.heap (w.heap ++ some d ∷ []) w.strings vs v _ _
            (λ u p ne e d' g.
              (d', get_elem?-append w.heap _ p (length-get_elem? w.heap _ _ g) ∙ g, refl, refl))
            (d, get_elem?-append_last w.heap (some d), rw one refl) st.each;
      sound = λ q e g. elim (get_elem?-append_cases w.heap (some d) (some e) q g) [
        | inl there ↦
            let lt = length-get_elem? w.heap q _ there in
            let set_owners = owners-set q v w.strings none (some (length w.heap)) empty in
            let kept : owners q (set w.strings v (some (length w.heap))) ≡ owners q w.strings =
              ground (arith, set_owners, lt) in
            rw kept (st.sound q e there)
        | inr (last, same) ↦
            let set_owners =
              owners-set (length w.heap) v w.strings none (some (length w.heap)) empty in
            let single : owners (length w.heap) (set w.strings v (some (length w.heap))) ≡ 1 =
              ground (arith, set_owners, fresh, ==_refl (length w.heap)) in
            let same_data : d ≡ e = cc same in
            rw (last, single)
              (subst (λ x. Fits x × Counted x 1) same_data (f, inr (one, omega arith, omega arith)))
      ];
    }

    pub share :
        (p : ℕ)
        → get_elem? w.heap p ≡ some (some d)
        → unsharedable d ≡ false
        → length w.strings < unshared_ref_mark
        → Stands
            (record {
              heap = set w.heap p (some (record d { ref_count = (d.ref_count + 1) % 2 ^ 32 }));
              strings = set w.strings v (some p);
            })
            (set vs v (some (content d, false)))
    share p here shared few =
        let e : StringData = record d { ref_count = (d.ref_count + 1) % 2 ^ 32 } in
        let set_owners = owners-set p v w.strings none (some p) empty in
        let more : owners p (set w.strings v (some p)) ≡ owners p w.strings + 1 =
          ground (arith, set_owners, ==_refl p) in
        let all = owners-le_length p (set w.strings v (some p)) in
        let bound = length-set w.strings v (some p) in
        let (f, c) = st.sound p d here in
        let counted : Counted e (owners p (set w.strings v (some p))) =
          rw more (ground (arith, more, all, bound, c, shared, few)) in
        let still : unsharedable e ≡ false = ground (arith, c, shared, few, more, all, bound) in
        record {
          each =
              Each-set w.heap (set w.heap p (some e)) w.strings vs v (some p) _
                (λ u q ne at_q. Kept-set w.heap p d e here refl (still ∙ sym shared) q)
                (
                  e,
                  get_elem?-set_self w.heap p (some e) (length-get_elem? w.heap p _ here),
                  rw still refl,
                )
                st.each;
          sound =
              Sound-set w.heap w.strings p v (some e) (some d) (some p) none here empty
                (λ q ne. rw (==_ne q p ne) refl)
                (λ e' same.
                  subst (λ x. Fits x × Counted x (owners p (set w.strings v (some p)))) {x = e}
                    (cc same) (record { used = f.used; whole = f.whole }, counted))
                st.sound;
        }

  module _ (v p : ℕ) (points : get_elem? w.strings v ≡ some (some p)) (d : StringData)
      (here : get_elem? w.heap p ≡ some (some d)) where
    alone :
        owners p w.strings ≡ 1 → (u q : ℕ) → u ≢ v → get_elem? w.strings u ≡ some (some q) → q ≢ p
    alone single u q ne at_q same =
        let at_p : get_elem? w.strings u ≡ some (some p) = at_q ∙ ap (λ x. some (some x)) same in
        absurd (omega (arith, single, owners-two p u v w.strings ne at_p points))

    -- The data of a single owner are changed.
    pub modify :
        (e : StringData)
        → owners p w.strings ≡ 1
        → Fits e
        → (e.ref_count ≡ 1) ⊎ (e.ref_count ≡ unshared_ref_mark)
        → Stands
            (record w { heap = set w.heap p (some e) })
            (set vs v (some (content e, unsharedable e)))
    modify e single f count =
        let same = set_same w.strings v (some p) points in
        let counted : Counted e (owners p (set w.strings v (some p))) =
          rw (same, single) (ground (arith, count)) in
        let each =
          Each-set w.heap (set w.heap p (some e)) w.strings vs v (some p)
            (some (content e, unsharedable e))
            (λ u q ne at_q. Kept-set_ne w.heap p (some e) q (alone single u q ne at_q))
            (e, get_elem?-set_self w.heap p (some e) (length-get_elem? w.heap p _ here), refl)
            st.each in
        let sound =
          Sound-set w.heap w.strings p v (some e) (some d) (some p) (some p) here points
            (λ q ne. refl)
            (λ e' is.
              subst (λ x. Fits x × Counted x (owners p (set w.strings v (some p)))) {x = e} (cc is)
                (f, counted))
            st.sound in
        record {
          each =
              subst
                (λ s. Each (set w.heap p (some e)) s (set vs v (some (content e, unsharedable e))))
                same each;
          sound = subst (λ s. Sound (set w.heap p (some e)) s) same sound;
        }

    -- An owner leaves: the block goes with the last one, and else its count falls.
    pub leave :
        (left : Option StringData)
        → ((owners p w.strings ≡ 1) × (left ≡ none))
          ⊎ ((d.ref_count ≡ owners p w.strings)
              × (2 ≤ owners p w.strings)
              × (owners p w.strings < unshared_ref_mark)
              × (left ≡ some (record d { ref_count = d.ref_count - 1 })))
        → Stands
            (record { heap = set w.heap p left; strings = set w.strings v none })
            (set vs v none)
    leave left (inl (single, gone)) = record {
      each =
          Each-set w.heap (set w.heap p left) w.strings vs v none none
            (λ u q ne at_q. Kept-set_ne w.heap p left q (alone single u q ne at_q)) refl st.each;
      sound =
          Sound-set w.heap w.strings p v left (some d) none (some p) here points
            (λ q ne. rw (==_ne q p ne) refl) (λ e is. absurd (cc (is, gone))) st.sound;
    }
    leave left (inr (count, more, bound, falls)) =
        let e : StringData = record d { ref_count = d.ref_count - 1 } in
        let set_owners = owners-set p v w.strings (some p) none points in
        let less : owners p (set w.strings v none) + 1 ≡ owners p w.strings =
          ground (arith, set_owners, ==_refl p) in
        let counted : Counted e (owners p (set w.strings v none)) =
          inr (omega arith, omega arith, omega arith) in
        let unmarked : unsharedable e ≡ unsharedable d = ground (arith, count, more, bound) in
        let (f, c) = st.sound p d here in
        rw falls (record {
          each =
              Each-set w.heap (set w.heap p (some e)) w.strings vs v none none
                (λ u q ne at_q. Kept-set w.heap p d e here refl unmarked q) refl st.each;
          sound =
              Sound-set w.heap w.strings p v (some e) (some d) none (some p) here points
                (λ q ne. rw (==_ne q p ne) refl)
                (λ e' is.
                  subst (λ x. Fits x × Counted x (owners p (set w.strings v none))) {x = e} (cc is)
                    (record { used = f.used; whole = f.whole }, counted))
                st.sound;
        })
