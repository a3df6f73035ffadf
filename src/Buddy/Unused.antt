-- ===== src/Buddy/Unused.antt =====
-- BuddyAllocator/src/bin_manager.cpp: `Free` and `SlotCountFor` at a slot that is in no block.
use eureka.Common.{
  ltb, ◌==◌, if◌then◌else◌, ltb→lt, ltb→ge, not_leb, ==_iff, ==_ne, Bool-cases, length, get_elem?,
  length-get_elem?, get_elem?-ge, undefined, Result, ok, err, ◌>>=◌, bind_follow, at, at-some,
  at-none, ℕ, zero, suc, ◌+◌, ◌-◌, ◌*◌, ◌%◌, ◌^◌, ◌≤◌, ◌<◌, ◌≡◌, refl, sym, ap, ◌∙◌, inl, inr, Bool,
  true, false, Option, none, some, List, arith,
}
use eureka.Buddy.{
  word, parent, BinManager, steps, climb, leaf_index, free_bin, free, count_up, slot_count_for,
}
use eureka.Buddy.Tree.{
  width, raise, raise-add, one-le-width, Tree, idle, taken, split, largest, raise-suc,
}
use eureka.Buddy.Nodes.{parent-left, parent-right, Full, Represents, Represents-top}
use eureka.Buddy.Climbing.{bin_size, leaf, leaf-place, climb_step, climb_halves, climb-Full}
use eureka.Buddy.Manager.{Stands, level-le}

climb_unused :
    (k i p f : ℕ) (v : List ℕ) (t : Tree)
    → length v ≤ 2 ^ 62
    → width k ≤ 2 ^ 62
    → p < width k
    → Represents k i v t
    → bin_size k p t ≡ 0
    → (climb (raise k (suc f)) v 1 (leaf k i p) ≡ climb (suc f) v (width k) i) × (0 < largest k t)
unfolding bin_size Represents Full
climb_unused zero i p f v idle small w lt r e = (refl, omega arith)
climb_unused (suc k) i p f v idle small w lt (x, l, r) e =
    let bound = length-get_elem? v i _ x in
    (
      climb_halves k i p f v (omega arith) lt
          (climb-Full k (i * 2 + 1) v small (omega arith) (λ z. omega arith) l)
          (climb-Full k (i * 2 + 2) v small (omega arith) (λ z. omega arith) r),
      one-le-width (suc k),
    )
climb_unused k i p f v taken small w lt r e = absurd (omega (arith, one-le-width k))
climb_unused zero i p f v (split a b) small w lt r e = absurd r
climb_unused (suc k) i p f v (split a b) small w lt (x, ne, l, r) e =
    let bound = length-get_elem? v i _ x in
    elim (Bool-cases (ltb p (width k))) [
      | inl c ↦
          let free_half : bin_size k p a ≡ 0 = rw (c, bin_size) at e in
          let (up, pos) =
            climb_unused k (i * 2 + 1) p (suc f) v a small (omega arith) (ltb→lt _ _ c) l
              free_half in
          let step =
            climb_step (suc f) (i * 2 + 1) v small (width k) (largest k a)
              (Represents-top k (i * 2 + 1) v a l) pos (λ z. omega arith) (omega arith) in
          (
            rw c (
                ap (λ n. climb n v 1 (leaf k (i * 2 + 1) p)) (sym (raise-suc k (suc f)))
                ∙ up
                ∙ step
                ∙ ap (climb (suc f) v (width k * 2)) (parent-left i (omega arith))),
            omega arith,
          )
      | inr c ↦
          let free_half : bin_size k (p - width k) b ≡ 0 = rw (c, bin_size) at e in
          let ge = ltb→ge _ _ c in
          let (up, pos) =
            climb_unused k (i * 2 + 2) (p - width k) (suc f) v b small (omega arith) (omega arith) r
              free_half in
          let step =
            climb_step (suc f) (i * 2 + 2) v small (width k) (largest k b)
              (Represents-top k (i * 2 + 2) v b r) pos (λ z. omega arith) (omega arith) in
          (
            rw c (
                ap (λ n. climb n v 1 (leaf k (i * 2 + 2) (p - width k))) (sym (raise-suc k (suc f)))
                ∙ up
                ∙ step
                ∙ ap (climb (suc f) v (width k * 2)) (parent-right i (omega arith))),
            omega arith,
          )
    ]

-- Above the root the climb of `SlotCountFor` is out of bounds.
count_up-above :
    (f n : ℕ) (v : List ℕ) → length v ≤ 2 ^ 62 → count_up f v n (parent 0) ≡ err undefined
unfolding count_up parent at
count_up-above zero n v small = refl
count_up-above (suc f) n v small =
    let on : ℕ → Result ℕ = λ x. elim (x == 0) [
      | true ↦ ok n
      | false ↦ count_up f v (n * 2 % word) (parent (parent 0))
    ] in
    ap (λ r. r >>= on) (at-none v (parent 0) (get_elem?-ge v (word - 1) (omega arith)))

count_off :
    (b z : Bool) (n i : ℕ) (more : Result (Option (ℕ × ℕ))) (rest : Result ℕ)
    → (z ≡ true → rest ≡ err undefined)
    → (more ≡ ok none → rest ≡ err undefined)
    → elim b as (λ x. Result (Option (ℕ × ℕ))) [
      | true ↦ ok (some (n, i))
      | false ↦ elim z as (λ x. Result (Option (ℕ × ℕ))) [ true ↦ ok none | false ↦ more ]
    ]
      ≡ ok none
    → elim b as (λ x. Result ℕ) [ true ↦ ok n | false ↦ rest ] ≡ err undefined
count_off true z n i more rest top ih h = absurd (cc h)
count_off false true n i more rest top ih h = top refl
count_off false false n i more rest top ih h = ih h

count_up-none :
    (f n i : ℕ) (v : List ℕ)
    → length v ≤ 2 ^ 62
    → climb f v n i ≡ ok none
    → count_up f v n i ≡ err undefined
unfolding climb count_up
count_up-none zero n i v small h = refl
count_up-none (suc f) n i v small h =
    bind_follow (at v i) _ _ _ _
      (λ x.
        count_off (x == 0) (i == 0) n i _ _
          (λ z.
            ap (λ j. count_up f v (n * 2 % word) (parent j)) ((==_iff i 0).0 z)
            ∙ count_up-above f (n * 2 % word) v small)
          (count_up-none f (n * 2 % word) (parent i) v small))
      h

climb_root :
    (f n x : ℕ) (v : List ℕ) → get_elem? v 0 ≡ some x → 0 < x → climb (suc f) v n 0 ≡ ok none
unfolding climb
climb_root f n x v e p =
    let at_zero : Bool → Result (Option (ℕ × ℕ)) =
      λ b. elim b [ true ↦ ok (some (n, 0)) | false ↦ ok none ] in
    ap (λ r. r >>= λ y. at_zero (y == 0)) (at-some v 0 x e)
    ∙ ap at_zero (==_ne x 0 (λ z. omega arith))

-- At a slot that is in no block `Free` changes nothing, and `SlotCountFor` reads out of bounds.
pub unused_slot :
    (k q : ℕ) (m : BinManager) (t : Tree)
    → Stands k m t
    → q < width k
    → bin_size k q t ≡ 0
    → (free q m ≡ ok m) × (slot_count_for q m ≡ err undefined)
unfolding free slot_count_for free_bin
unused_slot k q m t stands lt unused =
    let v = m.max_consecutive_slot in
    let f = 64 - k in
    let small : length v ≤ 2 ^ 62 = omega (arith, stands.measured, stands.small) in
    let fuel : raise k (suc f) ≡ steps =
      omega (arith, raise-add k (suc f), level-le k stands.small) in
    let first : leaf_index m q ≡ leaf k 0 q =
      omega (arith, stands.total, stands.small, leaf-place k 0 q lt) in
    let (up, pos) =
      climb_unused k 0 q f v t small (omega (arith, stands.small)) lt stands.nodes unused in
    let lost : climb steps v 1 (leaf_index m q) ≡ ok none =
      ap (climb steps v 1) first
      ∙ ap (λ n. climb n v 1 (leaf k 0 q)) (sym fuel)
      ∙ up
      ∙ climb_root f (width k) (largest k t) v (Represents-top k 0 v t stands.nodes) pos in
    let inside = not_leb m.total_slot_count q (omega (arith, stands.total)) in
    (
      ap (λ b. if b then ok m else free_bin q m) inside ∙ rw (lost, free_bin) refl,
      ap (λ b. if b then ok 0 else count_up steps v 1 (leaf_index m q)) inside
          ∙ count_up-none steps 1 (leaf_index m q) v small lost,
    )
