-- ===== src/Hashids/Padding.antt =====
-- `ensure_minimum_length` of hashids/hashids/hashids.cpp: guards around a string, and characters of
-- the alphabet outside them.
use native.Mathlib.Nat.{mod-lt}
use eureka.Common.{
  ℕ, zero, suc, ◌+◌, ◌-◌, ◌/◌, ◌%◌, ◌^◌, ◌≤◌, ◌<◌, ◌≡◌, refl, sym, ap, subst, ◌∙◌, List, [], ◌∷◌,
  ◌++◌, append-nil, ◌⊎◌, length, take, drop, get_or, count, length-append, length-take, length-drop,
  take-append-drop, Result, ok, arith, if◌then◌else◌, ltb, lt→ltb, ltb→lt, ltb→ge, true, not_ltb,
  le→leb, not_leb, Bool-cases, inl, inr,
}
use native.Mathlib.Decide.{dec_le}
use eureka.Hashids.{pad, ensure_minimum_length}
use eureka.Hashids.Reorder.{Permuted, reorder-Permuted}
use eureka.Hashids.Numbers.{at-get_or, rem_lem, count-get_or}
use eureka.Hashids.Frames.{Apart, Apart-take, Apart-drop, Frames, wrapped, cut}

module _ (guards middle : List ℕ) where
  -- A round of the loop, behind which the string is not longer than the minimum.
  abbrev padded : ℕ → ℕ → List ℕ → List ℕ → List ℕ
  padded mid min_len r s =
      let longer = drop mid r ++ (s ++ take mid r) in
      if ltb min_len (length longer)
      then take min_len (drop ((length longer - min_len) / 2) longer)
      else longer

  length-longer :
      (mid : ℕ) (r s : List ℕ) → length (drop mid r ++ (s ++ take mid r)) ≡ length s + length r
  length-longer mid r s = omega (
    arith,
    length-append (drop mid r) (s ++ take mid r),
    length-append s (take mid r),
    length-append (take mid r) (drop mid r),
    ap length (take-append-drop mid r),
  )

  abbrev Pads : ℕ → ℕ → List ℕ → List ℕ → Type 0
  Pads mid min_len r s =
      Frames guards middle (padded mid min_len r s)
      × (length s < length (padded mid min_len r s))
      × (length (padded mid min_len r s) ≤ min_len)

  module _ (mid min_len : ℕ) (r s : List ℕ) (half : mid ≡ length r / 2) (several : 2 ≤ length r)
      (short : length s < min_len) (clean : Apart r guards) (framed : Frames guards middle s) where
    cut-Pads : ltb min_len (length (drop mid r ++ (s ++ take mid r))) ≡ true → Pads mid min_len r s
    cut-Pads e =
        let longer = drop mid r ++ (s ++ take mid r) in
        let size = length-longer mid r s in
        let over : min_len < length longer = ltb→lt min_len (length longer) e in
        let idx = (length longer - min_len) / 2 in
        let begins = length-drop mid r in
        let kept =
          cut guards middle (drop mid r) s (take mid r) idx min_len
            (omega (arith, half, size, begins, over, short))
            (omega (arith, half, size, begins, over, short)) in
        let exact : length (take min_len (drop idx longer)) ≡ min_len =
          omega (arith, length-take min_len (drop idx longer), length-drop idx longer, over) in
        let rest = min_len - ((length (drop mid r) - idx) + length s) in
        rw e (
          subst (Frames guards middle) (sym kept) (
              wrapped guards middle (drop idx (drop mid r)) (take rest (take mid r)) s
                (Apart-drop idx (drop mid r) guards (Apart-drop mid r guards clean))
                (Apart-take rest (take mid r) guards (Apart-take mid r guards clean)) framed),
          omega (arith, exact, short),
          omega (arith, exact),
        )

    padded-Pads : Pads mid min_len r s
    padded-Pads =
        let longer = drop mid r ++ (s ++ take mid r) in
        let size = length-longer mid r s in
        elim (Bool-cases (ltb min_len (length longer))) [
          | inl e ↦ cut-Pads e
          | inr e ↦ rw e (
            wrapped guards middle (drop mid r) (take mid r) s (Apart-drop mid r guards clean)
                (Apart-take mid r guards clean) framed,
            omega (arith, size, several),
            ltb→ge min_len (length longer) e,
          )
        ]

  Permuted-Apart : (r r' : List ℕ) → Permuted r r' → Apart r guards → Apart r' guards
  Permuted-Apart r r' p clean q there = p.1 q ∙ clean q there

  abbrev PadsTo : ℕ → Result (List ℕ) → Type 0
  PadsTo min_len result =
      (out : List ℕ) × (result ≡ ok out) × Frames guards middle out × (length out ≡ min_len)

  pad_lem :
      (fuel min_len mid : ℕ) (r s : List ℕ)
      → mid ≡ length r / 2
      → 2 ≤ length r
      → Apart r guards
      → Frames guards middle s
      → length s ≤ min_len
      → min_len ≤ length s + fuel
      → PadsTo min_len (pad fuel min_len mid r s)
  unfolding pad
  pad_lem zero min_len mid r s half several clean framed h enough =
      (s, rw (not_ltb (length s) min_len (omega arith)) refl, framed, omega arith)
  pad_lem (suc fuel) min_len mid r s half several clean framed h enough =
      elim (dec_le min_len (length s)) [
        | yes k ↦ (s, rw (not_ltb (length s) min_len k) refl, framed, omega arith)
        | no k ↦
            let (r', done, p) = reorder-Permuted r r (omega (arith, several)) in
            let clean' = Permuted-Apart r r' p clean in
            let half' : mid ≡ length r' / 2 = omega (arith, half, p.0) in
            let (framed', longer, within) =
              padded-Pads mid min_len r' s half' (omega (arith, several, p.0)) (omega arith) clean'
                framed in
            let (out, finished, framed'', exact) =
              pad_lem fuel min_len mid r' (padded mid min_len r' s) half'
                (omega (arith, several, p.0)) clean' framed' within
                (omega (arith, longer, enough)) in
            (out, rw (lt→ltb (length s) min_len (omega arith), done) finished, framed'', exact)
      ]

-- What a string that is too short becomes.
abbrev pub Guarded : List ℕ → List ℕ → ℕ → Result (List ℕ) → Type 0
Guarded guards encoded min_len result =
    (hashid : List ℕ) × (result ≡ ok hashid)
    × (length hashid ≡ min_len)
    × ((g : ℕ) × (1 ≤ count g guards)
        × ((hashid ≡ g ∷ encoded)
            ⊎ ((g' : ℕ) × (1 ≤ count g' guards) × Frames guards (g ∷ encoded ++ g' ∷ []) hashid)))

pub ensure_minimum_length_lem :
    (value_hash min_len : ℕ) (alphabet guards encoded : List ℕ)
    → 2 ≤ length alphabet
    → 1 ≤ length guards
    → Apart alphabet guards
    → 2 ≤ length encoded
    → length encoded < min_len
    → Guarded guards encoded min_len
        (ensure_minimum_length value_hash min_len alphabet guards encoded)
unfolding ensure_minimum_length
ensure_minimum_length_lem value_hash min_len alphabet guards encoded several some_guards clean two
      short =
    let n = length guards in
    let i = (value_hash + get_or encoded 0 0) % 2 ^ 64 in
    let g = get_or guards (i % n) 0 in
    let guarded = g ∷ encoded in
    let j = (value_hash + get_or guarded 2 0) % 2 ^ 64 in
    let g' = get_or guards (j % n) 0 in
    let below : (k : ℕ) → k % n < n = λ k. mod-lt k (omega (arith, some_guards)) in
    let long = le→leb 2 (length encoded) two in
    let place = rem_lem i n some_guards in
    let head = at-get_or guards (i % n) (below i) in
    elim (dec_le min_len (length guarded)) [
      | yes h ↦ (
        guarded,
        rw (long, place, head, le→leb min_len (length guarded) h) refl,
        omega (arith, h, short),
        (g, count-get_or guards (i % n) (below i), inl refl),
      )
      | no h ↦
          let middle = g ∷ encoded ++ g' ∷ [] in
          let (out, done, framed, size) =
            pad_lem guards middle min_len min_len (length alphabet / 2) alphabet middle refl several
              clean ([], [], sym (append-nil middle), λ q there. refl, λ q there. refl)
              (omega (arith, h, length-append guarded (g' ∷ []))) (omega arith) in
          (
            out,
            rw
                (
                  long,
                  place,
                  head,
                  not_leb min_len (length guarded) (omega arith),
                  rem_lem j n some_guards,
                  at-get_or guards (j % n) (below j),
                )
                done,
            size,
            (
              g,
              count-get_or guards (i % n) (below i),
              inr (g', count-get_or guards (j % n) (below j), framed),
            ),
          )
    ]
