-- ===== src/Buddy/Fresh.antt =====
-- BuddyAllocator/src/bin_manager.cpp, the constructor: the loop that halves the width at each new
-- level of the tree.
use eureka.Common.{
  ◌==◌, if◌then◌else◌, ==_iff, ==_ne, length, get_elem?, ℕ, zero, suc, ◌+◌, ◌-◌, ◌*◌, ◌/◌, ◌≤◌, ◌<◌,
  ◌≡◌, refl, sym, ap, subst, ◌∙◌, true, Option, some, List, arith,
}
use native.Mathlib.Decide.{dec_le, ℕ_discrete}
use eureka.Buddy.{is_power_of_2, fill}
use eureka.Buddy.Tree.{width, one-le-width}
use eureka.Buddy.Nodes.{Full}
use eureka.Buddy.Powers.{is_power_of_2-width, is_power_of_2_between}

pub width_mono : (k n : ℕ) → k ≤ n → width k ≤ width n
width_mono zero n h = one-le-width n
width_mono (suc k) zero h = absurd (omega arith)
width_mono (suc k) (suc n) h = omega (arith, width_mono k n (omega arith))

same_depth : (c d x : ℕ) → width c ≤ x → x < width (suc c) → width d ≤ x → x < width (suc d) → c ≡ d
same_depth c d x p q r s = elim (dec_le c d) [
  | yes h ↦ elim (dec_le d c) [
    | yes g ↦ omega arith
    | no g ↦ absurd (omega (arith, width_mono (suc c) d (omega arith)))
  ]
  | no h ↦ absurd (omega (arith, width_mono (suc d) c (omega arith)))
]

-- The node at depth c of a tree of K levels holds its width.
abbrev HoldsWidth : ℕ → ℕ → Option ℕ → Type 0
HoldsWidth total x o =
    (c g : ℕ) → width c ≤ x + 1 → x + 1 < width (suc c) → c + g ≡ total → o ≡ some (width g)

fill_here :
    (i d e s : ℕ)
    → width d ≤ i + 1
    → i + 1 < width (suc d)
    → s ≡ (if i + 1 == width d then width (suc e) else width e)
    → (if is_power_of_2 (i + 1) then s / 2 else s) ≡ width e
fill_here i d e s p q h = elim (ℕ_discrete (i + 1) (width d)) [
  | yes same ↦
      let power : is_power_of_2 (i + 1) ≡ true =
        subst (λ x. is_power_of_2 x ≡ true) (sym same) (is_power_of_2-width d) in
      let test : (i + 1 == width d) ≡ true = (==_iff _ _).1 same in
      let s' : s ≡ width (suc e) = rw test at h in rw power (omega arith)
  | no other ↦
      let s' : s ≡ width e = rw (==_ne _ _ other) at h in
      rw (is_power_of_2_between d (i + 1) (omega arith) q) s'
]

-- A node that another one follows is above the last level.
level_left :
    (n i d e : ℕ)
    → width (suc d) ≤ i + 2
    → i + suc n + 1 ≤ width (suc (d + e))
    → 0 < n
    → (e' : ℕ) × (e ≡ suc e')
level_left n i d zero far b lt =
    let same : d + 0 ≡ d = omega arith in absurd (omega (arith, ap (λ k. width (suc k)) same))
level_left n i d (suc e) far b lt = (e, refl)

fill-HoldsWidth :
    (n i d e s x : ℕ)
    → width d ≤ i + 1
    → i + 1 < width (suc d)
    → s ≡ (if i + 1 == width d then width (suc e) else width e)
    → i + n + 1 ≤ width (suc (d + e))
    → x < n
    → HoldsWidth (d + e) (i + x) (get_elem? (fill n i s) x)
unfolding fill
fill-HoldsWidth zero i d e s x p q h b lt c g r t u = absurd (omega arith)
fill-HoldsWidth (suc n) i d e s zero p q h b lt c g r t u =
    let here = fill_here i d e s p q h in
    let depth = same_depth c d (i + 1) (omega arith) (omega arith) p q in
    let level : e ≡ g = omega arith in ap some here ∙ ap (λ l. some (width l)) level
fill-HoldsWidth (suc n) i d e s (suc x) p q h b lt c g r t u =
    let here = fill_here i d e s p q h in
    let At : ℕ → Type 0 = λ w. get_elem? (fill n (i + 1) w) x ≡ some (width g) in
    subst At (sym here) (elim (dec_le (width (suc d)) (i + 2)) as (λ z. At (width e)) [
      | no near ↦
          fill-HoldsWidth n (i + 1) d e (width e) x (omega arith) (omega arith)
            (rw (==_ne (i + 1 + 1) (width d) (λ z. omega arith)) refl) (omega arith) (omega arith) c
            g (omega arith) (omega arith) u
      | yes far ↦
          let (e', q') = level_left n i d e far b (omega arith) in
          let same : suc (d + e) ≡ suc (suc d + e') = omega arith in
          let w : width e ≡ width (suc e') = ap width q' in
          let full : i + 1 + 1 ≡ width (suc d) = omega arith in
          fill-HoldsWidth n (i + 1) (suc d) e' (width e) x (omega arith)
            (omega (arith, one-le-width d)) (rw ((==_iff _ _).1 full) w)
            (omega (arith, ap width same)) (omega arith) c g (omega arith) (omega arith)
            (omega arith)
    ])

pub length-fill : (n i s : ℕ) → length (fill n i s) ≡ n
unfolding fill
length-fill zero i s = refl
length-fill (suc n) i s = ap suc (length-fill n (i + 1) _)

Full-fill :
    (k c i total : ℕ) (v : List ℕ)
    → ((x : ℕ) → x + 1 < width (suc total) → HoldsWidth total x (get_elem? v x))
    → width c ≤ i + 1
    → i + 1 < width (suc c)
    → c + k ≡ total
    → Full k i v
unfolding Full
Full-fill zero c i total v h p q e =
    h i (omega (arith, width_mono (suc c) (suc total) (omega arith))) c zero p q e
Full-fill (suc k) c i total v h p q e =
    let top = width_mono (suc c) (suc total) (omega arith) in
    (
      h i (omega arith) c (suc k) p q e,
      Full-fill k (suc c) (i * 2 + 1) total v h (omega arith) (omega arith) (omega arith),
      Full-fill k (suc c) (i * 2 + 2) total v h (omega arith) (omega arith) (omega arith),
    )

-- The loop of the constructor leaves a tree without a slot in use.
pub fill-Full : (k : ℕ) → Full k 0 (fill (width (suc k) - 1) 0 (width (suc k)))
fill-Full k =
    let n = width (suc k) - 1 in
    let same : 0 + k ≡ k = omega arith in
    Full-fill k 0 0 k (fill n 0 (width (suc k)))
      (λ x lt c g p q e.
        fill-HoldsWidth n 0 0 k (width (suc k)) x (omega arith) (omega arith) refl
          (omega (arith, ap width same, one-le-width k)) (omega arith) c g (omega arith)
          (omega arith) (omega arith))
      (omega arith) (omega arith) (omega arith)
