-- ===== src/Buddy/Refusing.antt =====
-- BuddyAllocator/src/bin_manager.cpp: where a bin has no room, each aligned run of its slots is in use.
use eureka.Common.{
  ℕ, zero, suc, ◌+◌, ◌-◌, ◌*◌, ◌≤◌, ◌<◌, ◌≡◌, refl, ap, ◌∙◌, List, [], ◌∷◌, ◌++◌, arith,
}
use mathlib.Core.List.{Memᴰ}
use native.Mathlib.Decide.{dec_le}
use native.Mathlib.Nat.{add-mul, mul-le-mul_right}
use eureka.Buddy.Tree.{
  width, raise, one-le-width, Tree, idle, taken, split, largest, largest-le_width, blocks,
  width-raise_lt, width-raise,
}
use eureka.Buddy.Nodes.{Represents}
use eureka.Buddy.Blocks.{blocks-within}

append_left : {b : ℕ × ℕ} (xs ys : List (ℕ × ℕ)) → Memᴰ b xs → Memᴰ b (xs ++ ys)
append_left [] ys h = elim h [ ]
append_left (x ∷ xs) ys (Memᴰ.head e) = Memᴰ.head e
append_left (x ∷ xs) ys (Memᴰ.tail h) = Memᴰ.tail (append_left xs ys h)

append_right : {b : ℕ × ℕ} (xs ys : List (ℕ × ℕ)) → Memᴰ b ys → Memᴰ b (xs ++ ys)
append_right [] ys h = h
append_right (x ∷ xs) ys h = Memᴰ.tail (append_right xs ys h)

-- A bin that is not idle has a block in it.
some_block :
    (k o i : ℕ) (v : List ℕ) (t : Tree)
    → Represents k i v t
    → largest k t < width k
    → (b : ℕ × ℕ) × Memᴰ b (blocks k o t)
unfolding Represents blocks
some_block k o i v idle r h = absurd (omega arith)
some_block k o i v taken r h = ((o, width k), Memᴰ.head refl)
some_block zero o i v (split a b) r h = absurd r
some_block (suc k) o i v (split a b) (e, ne, l, r) h = elim (dec_le (width k) (largest k a)) [
  | no g ↦ let (x, m) = some_block k o (i * 2 + 1) v a l (omega arith) in (x, append_left _ _ m)
  | yes g ↦
      let le = largest-le_width k b in
      let less : largest k b < width k = elim (dec_le (width k) (largest k b)) [
        | no f ↦ omega arith
        | yes f ↦ absurd (ne (omega (arith, largest-le_width k a, largest-le_width k b)))
      ] in
      let (x, m) = some_block k (o + width k) (i * 2 + 2) v b r less in
      (x, append_right (blocks k o a) _ m)
]

run_fits : (d e c : ℕ) → c < width d → c * width e + width e ≤ width (raise d e)
run_fits d e c h = omega (
  arith,
  width-raise d e,
  add-mul c 1 (width e),
  mul-le-mul_right {m = c + 1} {n = width d} (width e) (omega arith),
)

-- A block shares a slot with the run of n slots from the slot p.
pub Touched : List (ℕ × ℕ) → ℕ → ℕ → Type 0
Touched bs p n = (b : ℕ × ℕ) × Memᴰ b bs × (b.0 < p + n) × (p < b.0 + b.1)

pub run-Touched :
    (d e o i c : ℕ) (v : List ℕ) (t : Tree)
    → Represents (raise d e) i v t
    → largest (raise d e) t < width e
    → c < width d
    → Touched (blocks (raise d e) o t) (o + c * width e) (width e)
unfolding Touched Represents blocks
run-Touched zero e o i c v t r h lt =
    let ((q, n), m) = some_block e o i v t r h in
    let (lo, hi, pos) = blocks-within e o q n t m in
    let z : c ≡ 0 = omega arith in ((q, n), m, omega arith, omega (arith, ap (λ x. x * width e) z))
run-Touched (suc d) e o i c v idle r h lt = absurd (omega (arith, width-raise_lt d e))
run-Touched (suc d) e o i c v taken r h lt = (
  (o, width (raise (suc d) e)),
  Memᴰ.head refl,
  omega (arith, one-le-width e),
  omega (arith, run_fits (suc d) e c lt, one-le-width e),
)
run-Touched (suc d) e o i c v (split a b) (x, ne, l, r) h lt =
    let k = raise d e in
    elim (dec_le (c + 1) (width d)) [
      | yes g ↦
          let (x, m, p, q) = run-Touched d e o (i * 2 + 1) c v a l (omega arith) (omega arith) in
          (x, append_left _ _ m, p, q)
      | no g ↦
          let c' = c - width d in
          let (x, m, p, q) =
            run-Touched d e (o + width k) (i * 2 + 2) c' v b r (omega arith) (omega arith) in
          let split_c : c ≡ c' + width d = omega arith in
          let run : c * width e ≡ c' * width e + width k =
            ap (λ n. n * width e) split_c
            ∙ omega (arith, add-mul c' (width d) (width e), width-raise d e) in
          (x, append_right (blocks k o a) _ m, omega arith, omega arith)
    ]
