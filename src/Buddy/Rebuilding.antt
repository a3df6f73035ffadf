-- ===== src/Buddy/Rebuilding.antt =====
-- BuddyAllocator/src/bin_manager.cpp: what the loops that go up make of the node above two halves.
use eureka.Common.{
  lt→ltb, length, set, length-set, get_elem?-set_self, ok, ℕ, suc, ◌+◌, ◌*◌, ◌≤◌, ◌<◌, max, ◌≡◌,
  refl, ◌∙◌, ◌≢◌, List, arith,
}
use eureka.Buddy.{write}
use eureka.Buddy.Tree.{width, Tree, idle, taken, split, largest, left_half, right_half}
use eureka.Buddy.Nodes.{
  Under, Under-left, Under-right, Under-apart, Agree, Apart, Full, Represents, Full-Agree,
  Represents-Agree, set-Agree, set-Apart, Apart-trans,
}

pub write-below : (v : List ℕ) (i x : ℕ) → i < length v → write v i x ≡ ok (set v i x)
unfolding write
write-below v i x h = rw (lt→ltb i (length v) h) refl

pub Represents-halves :
    (k i n : ℕ) (v : List ℕ) (t : Tree)
    → n ≤ largest (suc k) t
    → 0 < n
    → Represents (suc k) i v t
    → Represents k (i * 2 + 1) v (left_half t) × Represents k (i * 2 + 2) v (right_half t)
unfolding Represents Full
Represents-halves k i n v idle h p r = (r.1, r.2)
Represents-halves k i n v taken h p r = absurd (omega arith)
Represents-halves k i n v (split a b) h p r = (r.2, r.3)

-- Nothing outside of node i is changed, and under it the vector holds a tree.
pub record Rebuilt (k i : ℕ) (v w : List ℕ) (t : Tree) : Type 0 where
  pub represents : Represents k i w t
  pub apart : Apart i v w
  pub same_length : length w ≡ length v

Apart-right : (i : ℕ) (v w : List ℕ) → Apart (i * 2 + 1) v w → Agree (i * 2 + 2) v w
unfolding Apart Agree
Apart-right i v w h x u = h x (λ l. Under-apart i x l u)

Apart-left : (i : ℕ) (v w : List ℕ) → Apart (i * 2 + 2) v w → Agree (i * 2 + 1) v w
unfolding Apart Agree
Apart-left i v w h x u = h x (λ r. Under-apart i x u r)

Apart-widen :
    (i c : ℕ) (v w : List ℕ) → ((y : ℕ) → Under c y → Under i y) → Apart c v w → Apart i v w
unfolding Apart
Apart-widen i c v w wider h y out = h y (λ u. out (wider y u))

-- The node above two halves, written anew: not both halves are idle.
pub rejoin_split :
    (k i : ℕ) (w : List ℕ) (a b : Tree)
    → i < length w
    → largest k a + largest k b ≢ width (suc k)
    → Represents k (i * 2 + 1) w a
    → Represents k (i * 2 + 2) w b
    → Represents (suc k) i (set w i (max (largest k a) (largest k b))) (split a b)
unfolding Represents
rejoin_split k i w a b lt ne l r = (
  get_elem?-set_self w i _ lt,
  ne,
  Represents-Agree k (i * 2 + 1) w _ a (set-Agree i (i * 2 + 1) _ w (omega arith)) l,
  Represents-Agree k (i * 2 + 2) w _ b (set-Agree i (i * 2 + 2) _ w (omega arith)) r,
)

pub rejoin_idle :
    (k i : ℕ) (w : List ℕ)
    → i < length w
    → Full k (i * 2 + 1) w
    → Full k (i * 2 + 2) w
    → Full (suc k) i (set w i (width (suc k)))
unfolding Full
rejoin_idle k i w lt l r = (
  get_elem?-set_self w i _ lt,
  Full-Agree k (i * 2 + 1) w _ (set-Agree i (i * 2 + 1) _ w (omega arith)) l,
  Full-Agree k (i * 2 + 2) w _ (set-Agree i (i * 2 + 2) _ w (omega arith)) r,
)

-- A half was rebuilt: what the node above may count on.
pub record Halves (k i : ℕ) (v w : List ℕ) (a b : Tree) : Type 0 where
  pub left : Represents k (i * 2 + 1) w a
  pub right : Represents k (i * 2 + 2) w b
  pub beyond : Apart i v w
  pub measured : length w ≡ length v

pub Rebuilt-left :
    (k i : ℕ) (v w : List ℕ) (a b : Tree)
    → Represents k (i * 2 + 2) v b
    → Rebuilt k (i * 2 + 1) v w a
    → Halves k i v w a b
Rebuilt-left k i v w a b r h = record {
  left = h.represents;
  right = Represents-Agree k (i * 2 + 2) v w b (Apart-right i v w h.apart) r;
  beyond = Apart-widen i (i * 2 + 1) v w (Under-left i) h.apart;
  measured = h.same_length;
}

pub Rebuilt-right :
    (k i : ℕ) (v w : List ℕ) (a b : Tree)
    → Represents k (i * 2 + 1) v a
    → Rebuilt k (i * 2 + 2) v w b
    → Halves k i v w a b
Rebuilt-right k i v w a b l h = record {
  left = Represents-Agree k (i * 2 + 1) v w a (Apart-left i v w h.apart) l;
  right = h.represents;
  beyond = Apart-widen i (i * 2 + 2) v w (Under-right i) h.apart;
  measured = h.same_length;
}

pub Rebuilt-split :
    (k i : ℕ) (v w : List ℕ) (a b : Tree)
    → i < length w
    → largest k a + largest k b ≢ width (suc k)
    → Halves k i v w a b
    → Rebuilt (suc k) i v (set w i (max (largest k a) (largest k b))) (split a b)
Rebuilt-split k i v w a b lt ne h = record {
  represents = rejoin_split k i w a b lt ne h.left h.right;
  apart = Apart-trans i v w _ h.beyond (set-Apart i _ w);
  same_length = length-set w i _ ∙ h.measured;
}
