-- ===== src/RcString/Constructed.antt =====
-- RCString/src/rc_string.cpp, the constructors: a string that is added to those that are there.
use eureka.Common.{
  ℕ, ◌+◌, ◌%◌, ◌^◌, ◌<◌, ◌≡◌, ap, subst, ◌∙◌, List, [], ◌∷◌, ◌++◌, length, get_elem?, set, Option,
  none, some, false, arith, length-append,
}
use eureka.RcString.{StringData, World, unsharedable, unshared_ref_mark, hold}
use eureka.RcString.Data.{content, Fits}
use eureka.RcString.Shown.{Value, Stands, Each-length}
use eureka.RcString.Owners.{set-append_last, get_elem?-append_last}
use eureka.RcString.Owned.{add_empty, place_new, share}

-- A string in the empty place behind the others.
extended :
    (h : List (Option StringData)) (s : List (Option ℕ)) (vs : List Value) (x : Option ℕ)
    (y : Value)
    → length s ≡ length vs
    → Stands
        (record { heap = h; strings = set (s ++ none ∷ []) (length s) x })
        (set (vs ++ none ∷ []) (length s) y)
    → Stands (record { heap = h; strings = s ++ x ∷ [] }) (vs ++ y ∷ [])
extended h s vs x y same placed =
    let moved : List (Option ℕ) → World = λ t. record { heap = h; strings = t } in
    subst (λ t. Stands (moved t) (vs ++ y ∷ [])) (set-append_last s none x)
      (subst (λ us. Stands (moved (set (s ++ none ∷ []) (length s) x)) us)
        (ap (λ k. set (vs ++ none ∷ []) k y) same ∙ set-append_last vs none y) placed)

module _ (w : World) (vs : List Value) (st : Stands w vs) where
  -- A string is constructed with data of its own.
  pub hold-Stands :
      (d : StringData) (t : List ℕ)
      → Fits d
      → d.ref_count ≡ 1
      → content d ≡ t
      → Stands (hold w d) (vs ++ some (t, false) ∷ [])
  hold-Stands d t f one c =
      let same = Each-length w.heap w.strings vs st.each in
      let empty = get_elem?-append_last w.strings none in
      let placed = place_new _ _ (add_empty w vs st) (length w.strings) empty d f one in
      subst (λ u. Stands (hold w d) (vs ++ some (u, false) ∷ [])) c
        (extended (w.heap ++ some d ∷ []) w.strings vs (some (length w.heap))
          (some (content d, false)) same placed)

  -- A string is constructed that shares the data.
  pub join-Stands :
      (p : ℕ) (d : StringData)
      → get_elem? w.heap p ≡ some (some d)
      → unsharedable d ≡ false
      → length w.strings + 1 < unshared_ref_mark
      → Stands
          (record {
            heap = set w.heap p (some (record d { ref_count = (d.ref_count + 1) % 2 ^ 32 }));
            strings = w.strings ++ some p ∷ [];
          })
          (vs ++ some (content d, false) ∷ [])
  join-Stands p d here shared few =
      let same = Each-length w.heap w.strings vs st.each in
      let empty = get_elem?-append_last w.strings none in
      let longer = length-append w.strings (none ∷ []) in
      let shares =
        share _ _ (add_empty w vs st) (length w.strings) empty d p here shared
          (omega (arith, longer, few)) in
      extended _ w.strings vs (some p) (some (content d, false)) same shares
