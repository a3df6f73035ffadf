-- ===== src/Buddy/Placing.antt =====
-- BuddyAllocator/src/bin_manager.cpp, `BinManager::Allocate`: the loop that goes down to a bin and
-- the one that comes back, against the placement in the tree.
use eureka.Common.{
  leb, leb→le, leb→gt, ==_refl, Bool-cases, length, set, length-set, get_elem?-set_self,
  length-get_elem?, ok, ℕ, zero, suc, ◌+◌, ◌*◌, ◌^◌, ◌≤◌, ◌<◌, max, ◌≡◌, refl, sym, ap, subst, ◌∙◌,
  ◌≢◌, inl, inr, Bool, true, false, List, arith,
}
use eureka.Buddy.{parent, descend, update_up}
use eureka.Buddy.Tree.{
  width, raise, one-le-width, Tree, idle, taken, split, largest, largest-le_width, left_half,
  right_half, place, raise-suc, width-raise_lt, largest-place, largest-right, width-raise,
}
use eureka.Buddy.Nodes.{
  parent-left, parent-right, Full, Represents, Represents-top, Full-Agree, set-Agree, set-Apart,
}
use eureka.Buddy.Rebuilding.{
  Represents-halves, Rebuilt, Halves, Rebuilt-left, Rebuilt-right, Rebuilt-split,
}
use eureka.Buddy.Descending.{update_step, descend_left, descend_right}

-- `Allocate` in the bin of node i, of level m + d: the loops find the node and leave the vector with
-- the placement in it.
pub record Placed (d m i : ℕ) (v : List ℕ) (t : Tree) : Type 0 where
  pub index : ℕ
  pub vector : List ℕ
  pub found : (f : ℕ) → descend (raise (suc d) f) v (width m) (width (raise d m)) i ≡ ok index
  pub at_offset : (index + 1) * width m ≡ (i + 1) * width (raise d m) + (place d m t).0
  pub in_range : index < length v
  pub updated : (f : ℕ) → update_up (raise d f) (set v index 0) index ≡ update_up f vector i
  pub rebuilt : Rebuilt (raise d m) i v vector (place d m t).1

Represents-taken :
    (m i : ℕ) (v : List ℕ) (t : Tree)
    → i < length v
    → width m ≤ largest m t
    → Represents m i v t
    → Represents m i (set v i 0) taken
unfolding Represents Full
Represents-taken zero i v t lt h r = get_elem?-set_self v i 0 lt
Represents-taken (suc m) i v idle lt h r = (
  get_elem?-set_self v i 0 lt,
  Full-Agree m (i * 2 + 1) v _ (set-Agree i (i * 2 + 1) 0 v (omega arith)) r.1,
  Full-Agree m (i * 2 + 2) v _ (set-Agree i (i * 2 + 2) 0 v (omega arith)) r.2,
)
Represents-taken (suc m) i v taken lt h r = absurd (omega (arith, one-le-width m))
Represents-taken (suc m) i v (split a b) lt h r =
    absurd (r.1 (omega (arith, largest-le_width m a, largest-le_width m b)))

-- What the halves of a bin owe it when the placement goes into one of them.
abbrev pub leftwards : ℕ → ℕ → Tree → Bool
leftwards d m t = leb (width m) (largest (raise d m) (left_half t))

pub place-left :
    (d m : ℕ) (t : Tree)
    → leftwards d m t ≡ true
    → place (suc d) m t
      ≡ ((place d m (left_half t)).0, split (place d m (left_half t)).1 (right_half t))
unfolding place
place-left d m t h = rw (h, place) refl

pub place-right :
    (d m : ℕ) (t : Tree)
    → leftwards d m t ≡ false
    → place (suc d) m t ≡ (
      width (raise d m) + (place d m (right_half t)).0,
      split (left_half t) (place d m (right_half t)).1,
    )
unfolding place
place-right d m t h = rw (h, place) refl

placed_here :
    (m i : ℕ) (v : List ℕ) (t : Tree)
    → width m ≤ largest m t
    → Represents m i v t
    → Placed zero m i v t
unfolding descend place
placed_here m i v t h r =
    let lt = length-get_elem? v i _ (Represents-top m i v t r) in
    record {
      index = i;
      vector = set v i 0;
      found = λ f. rw (==_refl (width m), descend) refl;
      at_offset = omega arith;
      in_range = lt;
      updated = λ f. refl;
      rebuilt = record {
        represents = Represents-taken m i v t lt h r;
        apart = set-Apart i 0 v;
        same_length = length-set v i 0;
      };
    }

distribute : (i n : ℕ) → (i + 1) * (n * 2) ≡ (i * 2 + 2) * n
distribute i n = grind arith

next_one : (i n : ℕ) → (i + 1) * n ≡ i * n + n
next_one i n = grind arith

module _ (d m i : ℕ) (v : List ℕ) (t : Tree) (small : length v ≤ 2 ^ 62)
    (room : width m ≤ largest (raise (suc d) m) t) (lt : i < length v)
    (halves : Represents (raise d m) (i * 2 + 1) v (left_half t)
      × Represents (raise d m) (i * 2 + 2) v (right_half t)) where
  updated_above :
      (f j c : ℕ) (w : List ℕ) (a b : Tree)
      → Halves (raise d m) i v w a b
      → c ≢ 0
      → parent c ≡ i
      → update_up (raise d (suc f)) (set v j 0) j ≡ update_up (suc f) w c
      → update_up (raise (suc d) f) (set v j 0) j
        ≡ update_up f (set w i (max (largest (raise d m) a) (largest (raise d m) b))) i
  updated_above f j c w a b h ne e p =
      ap (λ n. update_up n (set v j 0) j) (sym (raise-suc d f))
      ∙ p
      ∙ update_step f i w (omega (arith, h.measured)) (omega (arith, h.measured)) c _ _ ne e
          (Represents-top (raise d m) (i * 2 + 1) w a h.left)
          (Represents-top (raise d m) (i * 2 + 2) w b h.right)

  placed_left :
      leftwards d m t ≡ true → Placed d m (i * 2 + 1) v (left_half t) → Placed (suc d) m i v t
  placed_left h p =
      let k = raise d m in
      let a = (place d m (left_half t)).1 in
      let b = right_half t in
      let both = Rebuilt-left k i v p.vector a b (halves.1) p.rebuilt in
      record {
        index = p.index;
        vector = set p.vector i (max (largest k a) (largest k b));
        found = λ f.
            descend_left (raise (suc d) f) i v small lt (width m) (width k * 2)
              (largest k (left_half t)) (λ e. omega (arith, width-raise_lt d m))
              (Represents-top k (i * 2 + 1) v (left_half t) (halves.0)) h
            ∙ ap (λ n. descend (raise (suc d) f) v (width m) n (i * 2 + 1)) (omega arith)
            ∙ p.found f;
        at_offset =
            omega (arith, p.at_offset, ap (λ o. o.0) (place-left d m t h), distribute i (width k));
        in_range = p.in_range;
        updated = λ f.
            updated_above f p.index (i * 2 + 1) p.vector a b both (λ e. omega arith)
              (parent-left i (omega arith)) (p.updated (suc f));
        rebuilt =
            subst
              (λ o. Rebuilt (suc k) i v (set p.vector i (max (largest k a) (largest k b))) (o.1))
              (sym (place-left d m t h))
              (Rebuilt-split k i v p.vector a b (omega (arith, both.measured))
                (λ e. omega (arith, largest-place d m (left_half t), largest-le_width k b)) both);
      }

  placed_right :
      leftwards d m t ≡ false → Placed d m (i * 2 + 2) v (right_half t) → Placed (suc d) m i v t
  placed_right h p =
      let k = raise d m in
      let a = left_half t in
      let b = (place d m (right_half t)).1 in
      let both = Rebuilt-right k i v p.vector a b (halves.0) p.rebuilt in
      record {
        index = p.index;
        vector = set p.vector i (max (largest k a) (largest k b));
        found = λ f.
            descend_right (raise (suc d) f) i v small lt (width m) (width k * 2)
              (largest k (left_half t)) (λ e. omega (arith, width-raise_lt d m))
              (Represents-top k (i * 2 + 1) v (left_half t) (halves.0)) h
            ∙ ap (λ n. descend (raise (suc d) f) v (width m) n (i * 2 + 2)) (omega arith)
            ∙ p.found f;
        at_offset = omega (
          arith,
          p.at_offset,
          ap (λ o. o.0) (place-right d m t h),
          distribute i (width k),
          next_one (i * 2 + 2) (width k),
        );
        in_range = p.in_range;
        updated = λ f.
            updated_above f p.index (i * 2 + 2) p.vector a b both (λ e. omega arith)
              (parent-right i (omega arith)) (p.updated (suc f));
        rebuilt =
            subst
              (λ o. Rebuilt (suc k) i v (set p.vector i (max (largest k a) (largest k b))) (o.1))
              (sym (place-right d m t h))
              (Rebuilt-split k i v p.vector a b (omega (arith, both.measured))
                (λ e. omega (arith, largest-place d m (right_half t), largest-le_width k a)) both);
      }

-- In a bin with room the loops find a node and leave the placement.
pub place_loops :
    (d m i : ℕ) (v : List ℕ) (t : Tree)
    → length v ≤ 2 ^ 62
    → width m ≤ largest (raise d m) t
    → Represents (raise d m) i v t
    → Placed d m i v t
place_loops zero m i v t small room r = placed_here m i v t room r
place_loops (suc d) m i v t small room r =
    let lt = length-get_elem? v i _ (Represents-top (raise (suc d) m) i v t r) in
    let halves = Represents-halves (raise d m) i (width m) v t room (one-le-width m) r in
    elim (Bool-cases (leftwards d m t)) [
      | inl e ↦
          placed_left d m i v t small room lt halves e
            (place_loops d m (i * 2 + 1) v (left_half t) small (leb→le _ _ e) (halves.0))
      | inr e ↦ placed_right d m i v t small room lt halves e (
          place_loops d m (i * 2 + 2) v (right_half t) small
            (largest-right d m t room (leb→gt _ _ e)) (halves.1))
    ]

pub place-fits : (d m : ℕ) (t : Tree) → (place d m t).0 + width m ≤ width (raise d m)
unfolding place
place-fits zero m t = omega arith
place-fits (suc d) m t = elim (Bool-cases (leftwards d m t)) [
  | inl e ↦ rw (e, place) (omega (arith, place-fits d m (left_half t)))
  | inr e ↦ rw (e, place) (omega (arith, place-fits d m (right_half t)))
]

-- A placed block begins at a multiple of its size.
pub place-aligned : (d m : ℕ) (t : Tree) → (c : ℕ) × ((place d m t).0 ≡ c * width m)
unfolding place
place-aligned zero m t = (0, omega arith)
place-aligned (suc d) m t = elim (Bool-cases (leftwards d m t)) [
  | inl e ↦ rw (e, place) (place-aligned d m (left_half t))
  | inr e ↦
      let (c, h) = place-aligned d m (right_half t) in
      let w = width-raise d m in rw (e, place) (width d + c, grind arith)
]
