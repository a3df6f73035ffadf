-- ===== src/Buddy/Releasing.antt =====
-- BuddyAllocator/src/bin_manager.cpp, `BinManager::Free` and `SlotCountFor`: the climb from a slot to
-- the bin that is handed out, and the merges above it, against the release in the tree.
use eureka.Common.{
  ltb, ◌==◌, if◌then◌else◌, ltb→lt, ltb→ge, ==_iff, Bool-cases, length, set, length-set,
  get_elem?-set_self, length-get_elem?, ok, ℕ, zero, suc, ◌+◌, ◌-◌, ◌*◌, ◌^◌, ◌≤◌, ◌<◌, max, ◌≡◌,
  refl, sym, ap, subst, ◌∙◌, ◌≢◌, inl, inr, Bool, true, false, some, List, arith,
}
use eureka.Buddy.{parent, climb, merge_up}
use eureka.Buddy.Tree.{
  width, raise, one-le-width, Tree, idle, taken, split, largest, largest-le_width, join, release,
  raise-suc,
}
use eureka.Buddy.Nodes.{
  parent-left, parent-right, Full, Represents, Represents-top, set-Apart, Apart-trans,
}
use eureka.Buddy.Rebuilding.{
  Rebuilt, rejoin_idle, Halves, Rebuilt-left, Rebuilt-right, Rebuilt-split,
}
use eureka.Buddy.Climbing.{bin_size, leaf, climb_stop, merge_step, climb_halves, climb-Full}

largest-Full :
    (k i : ℕ) (v : List ℕ) (t : Tree) → Represents k i v t → largest k t ≡ width k → Full k i v
unfolding Represents
largest-Full k i v idle r e = r
largest-Full k i v taken r e = absurd (omega (arith, one-le-width k))
largest-Full zero i v (split a b) r e = absurd r
largest-Full (suc k) i v (split a b) r e =
    absurd (r.1 (omega (arith, largest-le_width k a, largest-le_width k b)))

-- What the node above two halves becomes when a bin under one of them is given back.
abbrev merged : ℕ → Tree → Tree → ℕ
merged k a b =
    if largest k a + largest k b == width (suc k)
    then width (suc k)
    else max (largest k a) (largest k b)

Rebuilt-by :
    (k i : ℕ) (v w : List ℕ) (a b : Tree) (same : Bool)
    → i < length w
    → Halves k i v w a b
    → (largest k a + largest k b == width (suc k)) ≡ same
    → Rebuilt
        (suc k)
        i
        v
        (set w i (if same then width (suc k) else max (largest k a) (largest k b)))
        (if same then idle else split a b)
unfolding Represents
Rebuilt-by k i v w a b true lt h e =
    let sum = (==_iff _ _).0 e in
    let l = largest-le_width k a in
    let r = largest-le_width k b in
    record {
      represents =
          rejoin_idle k i w lt (largest-Full k (i * 2 + 1) w a h.left (omega arith))
            (largest-Full k (i * 2 + 2) w b h.right (omega arith));
      apart = Apart-trans i v w _ h.beyond (set-Apart i _ w);
      same_length = length-set w i _ ∙ h.measured;
    }
Rebuilt-by k i v w a b false lt h e =
    Rebuilt-split k i v w a b lt (λ s. ground (arith, (==_iff _ _).1 s)) h

-- `Free` at the slot p of the bin of node i, of level k: the climb finds the bin, and the merges
-- leave the vector with the release in it.
pub record Freed (k i : ℕ) (v : List ℕ) (t : Tree) (p : ℕ) : Type 0 where
  pub above : ℕ
  pub level : ℕ
  pub index : ℕ
  pub vector : List ℕ
  pub levels : raise above level ≡ k
  pub sized : bin_size k p t ≡ width level
  pub found :
      (f : ℕ) → climb (raise level (suc f)) v 1 (leaf k i p) ≡ ok (some (width level, index))
  pub in_range : index < length v
  pub updated :
      (f : ℕ)
      → merge_up (raise above f) (set v index (width level)) (width level) index
        ≡ merge_up f vector (width k) i
  pub rebuilt : Rebuilt k i v vector (release k p t)

freed_here :
    (k i p : ℕ) (v : List ℕ)
    → length v ≤ 2 ^ 62
    → width k ≤ 2 ^ 62
    → p < width k
    → Represents k i v taken
    → Freed k i v taken p
unfolding Represents release Full bin_size
freed_here zero i p v small w lt r = record {
  above = zero;
  level = zero;
  index = i;
  vector = set v i 1;
  levels = refl;
  sized = refl;
  found = λ f. climb_stop f i v small 1 r;
  in_range = length-get_elem? v i 0 r;
  updated = λ f. refl;
  rebuilt = record {
    represents = get_elem?-set_self v i 1 (length-get_elem? v i 0 r);
    apart = set-Apart i 1 v;
    same_length = length-set v i 1;
  };
}
freed_here (suc k) i p v small w lt (e, l, r) =
    let bound = length-get_elem? v i 0 e in
    record {
      above = zero;
      level = suc k;
      index = i;
      vector = set v i (width (suc k));
      levels = refl;
      sized = refl;
      found = λ f.
          climb_halves k i p f v (omega arith) lt
            (climb-Full k (i * 2 + 1) v small (omega arith) (λ z. omega arith) l)
            (climb-Full k (i * 2 + 2) v small (omega arith) (λ z. omega arith) r)
          ∙ climb_stop f i v small (width (suc k)) e;
      in_range = bound;
      updated = λ f. refl;
      rebuilt = record {
        represents = rejoin_idle k i v bound l r;
        apart = set-Apart i _ v;
        same_length = length-set v i _;
      };
    }

pub release-left :
    (k p : ℕ) (a b : Tree)
    → ltb p (width k) ≡ true
    → release (suc k) p (split a b) ≡ join k (release k p a) b
unfolding release
release-left k p a b h = rw (h, release) refl

pub release-right :
    (k p : ℕ) (a b : Tree)
    → ltb p (width k) ≡ false
    → release (suc k) p (split a b) ≡ join k a (release k (p - width k) b)
unfolding release
release-right k p a b h = rw (h, release) refl

module _ (k i p : ℕ) (v : List ℕ) (a b : Tree) (small : length v ≤ 2 ^ 62)
    (fits : width (suc k) ≤ 2 ^ 62) (lt : i < length v) where
  updated_above :
      (f n j c : ℕ) (w : List ℕ) (l r : Tree) (d : ℕ)
      → Halves k i v w l r
      → c ≢ 0
      → parent c ≡ i
      → merge_up (raise d (suc f)) (set v j n) n j ≡ merge_up (suc f) w (width k) c
      → merge_up (raise (suc d) f) (set v j n) n j
        ≡ merge_up f (set w i (merged k l r)) (width (suc k)) i
  updated_above f n j c w l r d h ne e p =
      ap (λ n'. merge_up n' (set v j n) n j) (sym (raise-suc d f))
      ∙ p
      ∙ merge_step f i w (omega (arith, h.measured)) (width k) c _ _ (omega (arith, h.measured)) ne
          e (omega arith) (largest-le_width k l) (largest-le_width k r)
          (Represents-top k (i * 2 + 1) w l h.left) (Represents-top k (i * 2 + 2) w r h.right)

  freed_left :
      ltb p (width k) ≡ true
      → Represents k (i * 2 + 2) v b
      → Freed k (i * 2 + 1) v a p
      → Freed (suc k) i v (split a b) p
  unfolding bin_size
  freed_left h rest q =
      let l = release k p a in
      let both = Rebuilt-left k i v q.vector l b rest q.rebuilt in
      record {
        above = suc q.above;
        level = q.level;
        index = q.index;
        vector = set q.vector i (merged k l b);
        levels = ap suc q.levels;
        sized = rw (h, bin_size) (q.sized);
        found = λ f. rw h (q.found f);
        in_range = q.in_range;
        updated = λ f.
            updated_above f (width q.level) q.index (i * 2 + 1) q.vector l b q.above both
              (λ z. omega arith) (parent-left i (omega arith)) (q.updated (suc f));
        rebuilt =
            subst (Rebuilt (suc k) i v (set q.vector i (merged k l b)))
              (sym (release-left k p a b h))
              (Rebuilt-by k i v q.vector l b _ (omega (arith, both.measured)) both refl);
      }

  freed_right :
      ltb p (width k) ≡ false
      → Represents k (i * 2 + 1) v a
      → Freed k (i * 2 + 2) v b (p - width k)
      → Freed (suc k) i v (split a b) p
  unfolding bin_size
  freed_right h rest q =
      let r = release k (p - width k) b in
      let both = Rebuilt-right k i v q.vector a r rest q.rebuilt in
      record {
        above = suc q.above;
        level = q.level;
        index = q.index;
        vector = set q.vector i (merged k a r);
        levels = ap suc q.levels;
        sized = rw (h, bin_size) (q.sized);
        found = λ f. rw h (q.found f);
        in_range = q.in_range;
        updated = λ f.
            updated_above f (width q.level) q.index (i * 2 + 2) q.vector a r q.above both
              (λ z. omega arith) (parent-right i (omega arith)) (q.updated (suc f));
        rebuilt =
            subst (Rebuilt (suc k) i v (set q.vector i (merged k a r)))
              (sym (release-right k p a b h))
              (Rebuilt-by k i v q.vector a r _ (omega (arith, both.measured)) both refl);
      }

-- At a slot that is handed out the loops find its bin and leave the release.
pub free_loops :
    (k i p : ℕ) (v : List ℕ) (t : Tree)
    → length v ≤ 2 ^ 62
    → width k ≤ 2 ^ 62
    → p < width k
    → Represents k i v t
    → 0 < bin_size k p t
    → Freed k i v t p
unfolding bin_size Represents
free_loops k i p v idle small w lt r c = absurd (omega arith)
free_loops k i p v taken small w lt r c = freed_here k i p v small w lt r
free_loops zero i p v (split a b) small w lt r c = absurd r
free_loops (suc k) i p v (split a b) small w lt (e, ne, l, r) c =
    let bound = length-get_elem? v i _ e in
    elim (Bool-cases (ltb p (width k))) [
      | inl h ↦
          let inside : 0 < bin_size k p a = rw (h, bin_size) at c in
          freed_left k i p v a b small w bound h r
            (free_loops k (i * 2 + 1) p v a small (omega arith) (ltb→lt _ _ h) l inside)
      | inr h ↦
          let inside : 0 < bin_size k (p - width k) b = rw (h, bin_size) at c in
          freed_right k i p v a b small w bound h l (
            free_loops k (i * 2 + 2) (p - width k) v b small (omega arith)
              (omega (arith, ltb→ge _ _ h)) r inside)
    ]
