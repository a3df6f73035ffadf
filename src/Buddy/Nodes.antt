-- ===== src/Buddy/Nodes.antt =====
-- BuddyAllocator/src/buddy_util.h: the nodes under a node, and what the vector holds of them.
use eureka.Common.{
  ℕ, zero, suc, ◌+◌, ◌*◌, ◌/◌, ◌^◌, ◌≤◌, ◌<◌, max, List, get_elem?, set, some, ◌≡◌, ◌≢◌, refl, sym,
  subst, ◌∙◌, arith, get_elem?-set_ne,
}
use eureka.Buddy.{left_child, right_child, parent}
use eureka.Buddy.Tree.{width, Tree, idle, taken, split, largest}

pub left_child-below : (i : ℕ) → i < 2 ^ 62 → left_child i ≡ i * 2 + 1
unfolding left_child
left_child-below i h = omega arith

pub right_child-below : (i : ℕ) → i < 2 ^ 62 → right_child i ≡ i * 2 + 2
unfolding right_child
right_child-below i h = omega arith

pub parent-left : (i : ℕ) → i < 2 ^ 62 → parent (i * 2 + 1) ≡ i
unfolding parent
parent-left i h = omega arith

pub parent-right : (i : ℕ) → i < 2 ^ 62 → parent (i * 2 + 2) ≡ i
unfolding parent
parent-right i h = omega arith

-- Halved d times.
abbrev pub half : ℕ → ℕ → ℕ
half zero s = s
half (suc d) s = half d (s / 2)

half-le : (d s : ℕ) → half d s ≤ s
half-le zero s = omega arith
half-le (suc d) s = omega (arith, half-le d (s / 2))

half-suc : (d s : ℕ) → half (suc d) s ≡ half d s / 2
half-suc zero s = refl
half-suc (suc d) s = half-suc d (s / 2)

-- Node x is under node i.
unfoldable pub Under : ℕ → ℕ → Type 0
Under i x = (d : ℕ) × (half d (x + 1) ≡ i + 1)

pub Under-left : (i x : ℕ) → Under (i * 2 + 1) x → Under i x
unfolding Under
Under-left i x (d, e) = (suc d, omega (arith, half-suc d (x + 1)))

pub Under-right : (i x : ℕ) → Under (i * 2 + 2) x → Under i x
unfolding Under
Under-right i x (d, e) = (suc d, omega (arith, half-suc d (x + 1)))

pub Under-self : (i : ℕ) → Under i i
unfolding Under
Under-self i = (zero, refl)

pub Under-ge : (i x : ℕ) → Under i x → i ≤ x
unfolding Under
Under-ge i x (d, e) = omega (arith, half-le d (x + 1))

-- The halves of a bin have no node in common.
halves_apart : (d e s i : ℕ) → half d s ≡ i * 2 + 2 → half e s ≡ i * 2 + 3 → ⊥
halves_apart zero zero s i p q = omega arith
halves_apart zero (suc e) s i p q = omega (arith, half-le e (s / 2))
halves_apart (suc d) zero s i p q = omega (arith, half-le d (s / 2))
halves_apart (suc d) (suc e) s i p q = halves_apart d e (s / 2) i p q

pub Under-apart : (i x : ℕ) → Under (i * 2 + 1) x → Under (i * 2 + 2) x → ⊥
unfolding Under
Under-apart i x (d, p) (e, q) = halves_apart d e (x + 1) i (omega arith) (omega arith)

-- The vectors agree under a node, and everywhere else.
unfoldable pub Agree : ℕ → List ℕ → List ℕ → Type 0
Agree i v w = (x : ℕ) → Under i x → get_elem? v x ≡ get_elem? w x

unfoldable pub Apart : ℕ → List ℕ → List ℕ → Type 0
Apart i v w = (x : ℕ) → (Under i x → ⊥) → get_elem? v x ≡ get_elem? w x

-- A bin without a slot in use: each node holds its width.
unfoldable pub Full : ℕ → ℕ → List ℕ → Type 0
Full zero i v = get_elem? v i ≡ some 1
Full (suc k) i v =
    (get_elem? v i ≡ some (width (suc k))) × Full k (i * 2 + 1) v × Full k (i * 2 + 2) v

-- The nodes under node i, of level k, hold the sizes of the tree. The nodes under a bin that is
-- handed out keep the widths they had. The halves of a split bin are not both idle.
unfoldable pub Represents : ℕ → ℕ → List ℕ → Tree → Type 0
Represents k i v idle = Full k i v
Represents zero i v taken = get_elem? v i ≡ some 0
Represents (suc k) i v taken =
    (get_elem? v i ≡ some 0) × Full k (i * 2 + 1) v × Full k (i * 2 + 2) v
Represents zero i v (split a b) = ⊥
Represents (suc k) i v (split a b) =
    (get_elem? v i ≡ some (max (largest k a) (largest k b)))
    × (largest k a + largest k b ≢ width (suc k))
    × Represents k (i * 2 + 1) v a
    × Represents k (i * 2 + 2) v b

Full-top : (k i : ℕ) (v : List ℕ) → Full k i v → get_elem? v i ≡ some (width k)
unfolding Full
Full-top zero i v h = h
Full-top (suc k) i v h = h.0

pub Represents-top :
    (k i : ℕ) (v : List ℕ) (t : Tree) → Represents k i v t → get_elem? v i ≡ some (largest k t)
unfolding Represents
Represents-top k i v idle h = Full-top k i v h
Represents-top zero i v taken h = h
Represents-top (suc k) i v taken h = h.0
Represents-top zero i v (split a b) h = absurd h
Represents-top (suc k) i v (split a b) h = h.0

pub Agree-left : (i : ℕ) (v w : List ℕ) → Agree i v w → Agree (i * 2 + 1) v w
unfolding Agree
Agree-left i v w h x u = h x (Under-left i x u)

pub Agree-right : (i : ℕ) (v w : List ℕ) → Agree i v w → Agree (i * 2 + 2) v w
unfolding Agree
Agree-right i v w h x u = h x (Under-right i x u)

pub Agree-top : (i : ℕ) (v w : List ℕ) → Agree i v w → get_elem? w i ≡ get_elem? v i
unfolding Agree
Agree-top i v w h = sym (h i (Under-self i))

pub Full-Agree : (k i : ℕ) (v w : List ℕ) → Agree i v w → Full k i v → Full k i w
unfolding Full
Full-Agree zero i v w h f = Agree-top i v w h ∙ f
Full-Agree (suc k) i v w h (e, l, r) = (
  Agree-top i v w h ∙ e,
  Full-Agree k (i * 2 + 1) v w (Agree-left i v w h) l,
  Full-Agree k (i * 2 + 2) v w (Agree-right i v w h) r,
)

pub Represents-Agree :
    (k i : ℕ) (v w : List ℕ) (t : Tree) → Agree i v w → Represents k i v t → Represents k i w t
unfolding Represents
Represents-Agree k i v w idle h f = Full-Agree k i v w h f
Represents-Agree zero i v w taken h e = Agree-top i v w h ∙ e
Represents-Agree (suc k) i v w taken h (e, l, r) = (
  Agree-top i v w h ∙ e,
  Full-Agree k (i * 2 + 1) v w (Agree-left i v w h) l,
  Full-Agree k (i * 2 + 2) v w (Agree-right i v w h) r,
)
Represents-Agree zero i v w (split a b) h f = absurd f
Represents-Agree (suc k) i v w (split a b) h (e, n, l, r) = (
  Agree-top i v w h ∙ e,
  n,
  Represents-Agree k (i * 2 + 1) v w a (Agree-left i v w h) l,
  Represents-Agree k (i * 2 + 2) v w b (Agree-right i v w h) r,
)

-- A write to a node is seen neither under the halves nor outside of the bin.
pub set-Agree : (i j x : ℕ) (v : List ℕ) → i < j → Agree j v (set v i x)
unfolding Agree
set-Agree i j x v lt y u = sym (get_elem?-set_ne v i y x (λ e. omega (arith, Under-ge j y u)))

pub set-Apart : (i x : ℕ) (v : List ℕ) → Apart i v (set v i x)
unfolding Apart
set-Apart i x v y out = sym (get_elem?-set_ne v i y x (λ e. out (subst (Under i) e (Under-self i))))

pub Apart-trans : (i : ℕ) (u v w : List ℕ) → Apart i u v → Apart i v w → Apart i u w
unfolding Apart
Apart-trans i u v w h g x out = h x out ∙ g x out
