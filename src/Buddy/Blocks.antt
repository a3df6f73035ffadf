-- ===== src/Buddy/Blocks.antt =====
-- BuddyAllocator/src/bin_manager.cpp: the blocks that are handed out, before and after `Allocate` and
-- `Free`.
use mathlib.Core.List.{Memᴰ}
use eureka.Common.{
  ◌==◌, lt→ltb, leb→le, leb→gt, not_ltb, ==_iff, Bool-cases, ℕ, zero, suc, ◌+◌, ◌-◌, ◌*◌, ◌≤◌, ◌<◌,
  ◌≡◌, refl, sym, ap, subst, ◌∙◌, ◌⊎◌, inl, inr, List, [], ◌∷◌, ◌++◌, append_assoc, arith,
}
use eureka.Buddy.Tree.{
  width, raise, one-le-width, Tree, idle, taken, split, largest, largest-le_width, left_half,
  right_half, place, join, release, blocks, largest-right,
}
use eureka.Buddy.Climbing.{bin_size}
use eureka.Buddy.Releasing.{release-left, release-right}
use eureka.Buddy.Placing.{leftwards, place-left, place-right}

append_cases :
    {b : ℕ × ℕ} (xs : List (ℕ × ℕ)) {ys : List (ℕ × ℕ)} → Memᴰ b (xs ++ ys) → Memᴰ b xs ⊎ Memᴰ b ys
append_cases [] h = inr h
append_cases (x ∷ xs) (Memᴰ.head e) = inl (Memᴰ.head e)
append_cases (x ∷ xs) (Memᴰ.tail h) = elim (append_cases xs h) [
  | inl m ↦ inl (Memᴰ.tail m)
  | inr m ↦ inr m
]

-- One block is in the second list and not in the first; all others are in both, in the same order.
pub record Inserted (b : ℕ × ℕ) (xs ys : List (ℕ × ℕ)) : Type 0 where
  pub before : List (ℕ × ℕ)
  pub after : List (ℕ × ℕ)
  pub without : xs ≡ before ++ after
  pub with_it : ys ≡ before ++ (b ∷ after)

pub inserted_left :
    (b : ℕ × ℕ) (xs ys zs : List (ℕ × ℕ)) → Inserted b xs ys → Inserted b (xs ++ zs) (ys ++ zs)
inserted_left b xs ys zs h = record {
  before = h.before;
  after = h.after ++ zs;
  without = ap (λ l. l ++ zs) h.without ∙ append_assoc h.before h.after zs;
  with_it = ap (λ l. l ++ zs) h.with_it ∙ append_assoc h.before (b ∷ h.after) zs;
}

pub inserted_right :
    (b : ℕ × ℕ) (xs ys zs : List (ℕ × ℕ)) → Inserted b xs ys → Inserted b (zs ++ xs) (zs ++ ys)
inserted_right b xs ys zs h = record {
  before = zs ++ h.before;
  after = h.after;
  without = ap (λ l. zs ++ l) h.without ∙ sym (append_assoc zs h.before h.after);
  with_it = ap (λ l. zs ++ l) h.with_it ∙ sym (append_assoc zs h.before (b ∷ h.after));
}

-- The two halves' blocks, also of a bin that is not split.
blocks-halves :
    (d m o : ℕ) (t : Tree)
    → width m ≤ largest (raise (suc d) m) t
    → blocks (raise (suc d) m) o t
      ≡ blocks (raise d m) o (left_half t)
        ++ blocks (raise d m) (o + width (raise d m)) (right_half t)
unfolding blocks
blocks-halves d m o idle h = refl
blocks-halves d m o taken h = absurd (omega (arith, one-le-width m))
blocks-halves d m o (split a b) h = refl

placed_whole :
    (m o : ℕ) (t : Tree)
    → width m ≤ largest m t
    → Inserted (o + 0, width m) (blocks m o t) ((o, width m) ∷ [])
unfolding blocks
placed_whole m o idle h = record {
  before = [];
  after = [];
  without = refl;
  with_it = ap (λ p. (p, width m) ∷ []) (omega arith);
}
placed_whole m o taken h = absurd (omega (arith, one-le-width m))
placed_whole zero o (split a b) h = absurd (omega arith)
placed_whole (suc m) o (split a b) h =
    absurd (omega (arith, one-le-width m, largest-le_width m a, largest-le_width m b))

-- A placement adds a block, and no other changes.
pub place-Inserted :
    (d m o : ℕ) (t : Tree)
    → width m ≤ largest (raise d m) t
    → Inserted
        (o + (place d m t).0, width m)
        (blocks (raise d m) o t)
        (blocks (raise d m) o ((place d m t).1))
unfolding place blocks
place-Inserted zero m o t h = placed_whole m o t h
place-Inserted (suc d) m o t h =
    let k = raise d m in
    let l = blocks k o (left_half t) in
    let r = blocks k (o + width k) (right_half t) in
    let Goal : ℕ × Tree → List (ℕ × ℕ) → Type 0 =
      λ pl bs. Inserted (o + pl.0, width m) bs (blocks (suc k) o (pl.1)) in
    subst (Goal (place (suc d) m t)) (sym (blocks-halves d m o t h))
      (elim (Bool-cases (leftwards d m t)) [
        | inl e ↦
            subst (λ pl. Goal pl (l ++ r)) (sym (place-left d m t e))
              (inserted_left _ _ _ r (place-Inserted d m o (left_half t) (leb→le _ _ e)))
        | inr e ↦
            subst (λ pl. Goal pl (l ++ r)) (sym (place-right d m t e))
              (subst
                (λ p.
                  Inserted (p, width m) (l ++ r)
                    (blocks (suc k) o (split (left_half t) ((place d m (right_half t)).1))))
                (omega arith)
                (inserted_right _ _ _ l (
                  place-Inserted d m (o + width k) (right_half t)
                    (largest-right d m t h (leb→gt _ _ e)))))
      ])

-- Every block lies in its bin.
pub blocks-within :
    (k o q n : ℕ) (t : Tree)
    → Memᴰ (q, n) (blocks k o t)
    → (o ≤ q) × (q + n ≤ o + width k) × (0 < n)
unfolding blocks
blocks-within k o q n idle h = absurd (elim h [ ])
blocks-within k o q n taken (Memᴰ.head e) =
    let p = ap (λ b. b.0) e in
    let s = ap (λ b. b.1) e in (omega arith, omega arith, omega (arith, one-le-width k))
blocks-within k o q n taken (Memᴰ.tail h) = absurd (elim h [ ])
blocks-within zero o q n (split a b) h = absurd (elim h [ ])
blocks-within (suc k) o q n (split a b) h = elim (append_cases (blocks k o a) h) [
  | inl m ↦ let (lo, hi, pos) = blocks-within k o q n a m in (omega arith, omega arith, omega arith)
  | inr m ↦
      let (lo, hi, pos) = blocks-within k (o + width k) q n b m in
      (omega arith, omega arith, omega arith)
]

no_blocks : (k o : ℕ) (t : Tree) → largest k t ≡ width k → blocks k o t ≡ []
unfolding blocks
no_blocks k o idle h = refl
no_blocks k o taken h = absurd (omega (arith, one-le-width k))
no_blocks zero o (split a b) h = absurd (omega arith)
no_blocks (suc k) o (split a b) h =
    absurd (omega (arith, one-le-width k, largest-le_width k a, largest-le_width k b))

-- Merging the halves changes no block.
blocks-join :
    (k o : ℕ) (a b : Tree)
    → blocks (suc k) o (join k a b) ≡ blocks k o a ++ blocks k (o + width k) b
unfolding blocks
blocks-join k o a b = elim (Bool-cases (largest k a + largest k b == width (suc k))) [
  | inl e ↦
      let sum = (==_iff _ _).0 e in
      let l = largest-le_width k a in
      let r = largest-le_width k b in
      rw (e, no_blocks k o a (omega arith), no_blocks k (o + width k) b (omega arith)) refl
  | inr e ↦ rw e refl
]

-- A release takes the block away, and no other changes.
pub release-Inserted :
    (k o q n : ℕ) (t : Tree)
    → Memᴰ (q, n) (blocks k o t)
    → Inserted (q, n) (blocks k o (release k (q - o) t)) (blocks k o t)
unfolding release blocks
release-Inserted k o q n idle h = absurd (elim h [ ])
release-Inserted k o q n taken (Memᴰ.head e) = record {
  before = [];
  after = [];
  without = refl;
  with_it = ap (λ b. b ∷ []) (sym e);
}
release-Inserted k o q n taken (Memᴰ.tail h) = absurd (elim h [ ])
release-Inserted zero o q n (split a b) h = absurd (elim h [ ])
release-Inserted (suc k) o q n (split a b) h =
    let l = blocks k o a in
    let r = blocks k (o + width k) b in
    let Goal : List (ℕ × ℕ) → Type 0 = λ bs. Inserted (q, n) bs (l ++ r) in
    elim (append_cases l h) [
      | inl m ↦
          let (lo, hi, pos) = blocks-within k o q n a m in
          subst (λ t'. Goal (blocks (suc k) o t'))
            (sym (release-left k (q - o) a b (lt→ltb _ _ (omega arith))))
            (subst Goal (sym (blocks-join k o (release k (q - o) a) b))
              (inserted_left _ _ l r (release-Inserted k o q n a m)))
      | inr m ↦
          let (lo, hi, pos) = blocks-within k (o + width k) q n b m in
          let p : q - o - width k ≡ q - (o + width k) = omega arith in
          subst (λ t'. Goal (blocks (suc k) o t'))
            (sym (release-right k (q - o) a b (not_ltb _ _ (omega arith))))
            (subst Goal (sym (blocks-join k o a (release k (q - o - width k) b))) (
              inserted_right _ _ r l (
                subst (λ p'. Inserted (q, n) (blocks k (o + width k) (release k p' b)) r) (sym p)
                  (release-Inserted k (o + width k) q n b m))))
    ]

-- The size of the bin that a block's first slot is in is the block's.
pub bin_size-block :
    (k o q n : ℕ) (t : Tree) → Memᴰ (q, n) (blocks k o t) → bin_size k (q - o) t ≡ n
unfolding bin_size blocks
bin_size-block k o q n idle h = absurd (elim h [ ])
bin_size-block k o q n taken (Memᴰ.head e) = sym (ap (λ b. b.1) e)
bin_size-block k o q n taken (Memᴰ.tail h) = absurd (elim h [ ])
bin_size-block zero o q n (split a b) h = absurd (elim h [ ])
bin_size-block (suc k) o q n (split a b) h = elim (append_cases (blocks k o a) h) [
  | inl m ↦
      let (lo, hi, pos) = blocks-within k o q n a m in
      rw (lt→ltb (q - o) (width k) (omega arith), bin_size) (bin_size-block k o q n a m)
  | inr m ↦
      let (lo, hi, pos) = blocks-within k (o + width k) q n b m in
      let p : q - o - width k ≡ q - (o + width k) = omega arith in
      rw (not_ltb (q - o) (width k) (omega arith), bin_size)
        (ap (λ p'. bin_size k p' b) p ∙ bin_size-block k (o + width k) q n b m)
]

-- The blocks are in the order of their offsets, and each ends before the next one begins.
pub Ordered : ℕ → List (ℕ × ℕ) → ℕ → Type 0
Ordered lo [] hi = lo ≤ hi
Ordered lo ((q, n) ∷ bs) hi = (lo ≤ q) × Ordered (q + n) bs hi

Ordered-append :
    (xs ys : List (ℕ × ℕ)) (lo mid hi : ℕ)
    → Ordered lo xs mid
    → Ordered mid ys hi
    → Ordered lo (xs ++ ys) hi
unfolding Ordered
Ordered-append [] [] lo mid hi p q = omega arith
Ordered-append [] (y ∷ ys) lo mid hi p (q, r) = (omega arith, r)
Ordered-append (x ∷ xs) ys lo mid hi (p, r) q = (p, Ordered-append xs ys (x.0 + x.1) mid hi r q)

pub blocks-Ordered : (k o : ℕ) (t : Tree) → Ordered o (blocks k o t) (o + width k)
unfolding Ordered blocks
blocks-Ordered k o idle = omega arith
blocks-Ordered k o taken = (omega arith, omega arith)
blocks-Ordered zero o (split a b) = omega arith
blocks-Ordered (suc k) o (split a b) =
    Ordered-append (blocks k o a) (blocks k (o + width k) b) o (o + width k) (o + width k * 2)
      (blocks-Ordered k o a)
      (subst (Ordered (o + width k) (blocks k (o + width k) b)) (omega arith)
        (blocks-Ordered k (o + width k) b))
