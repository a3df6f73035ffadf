-- ===== src/Ternary/Ordered.antt =====
-- The order of the tree: an index stands left of the greater ones and right of the smaller ones.
use Prim.Native.Nat.{compare, Ordering}
use eureka.Common.{◌⊎◌}
use eureka.Common.{
  ℕ, suc, ◌≤◌, ◌<◌, ◌≡◌, ◌≢◌, refl, Bool, List, [], ◌∷◌, arith, Option-cases, inl, inr,
}
use eureka.Ternary.Alphabet.{get_character_index, alphabet_length, get_character_index-lt}
use eureka.Ternary.{
  Tree, null, node, TernaryTree, touch, mark_after, middle_after, find_node, insert, empty,
}

-- The indices of the tree are from `lo` on and below `hi`.
abbrev pub Ordered : ℕ → ℕ → Tree → Type 0
Ordered lo hi null = Unit {0}
Ordered lo hi (node i e l m r) =
    (lo ≤ i) × (i < hi) × Ordered lo i l × Ordered (suc i) hi r × Ordered 0 alphabet_length m

abbrev pub IsOrdered : TernaryTree → Type 0
IsOrdered t = Ordered 0 alphabet_length t.middle

abbrev pub HasNoTerminator : List ℕ → Type 0
HasNoTerminator [] = Unit {0}
HasNoTerminator (c ∷ w) = (c ≢ 0) × HasNoTerminator w

pub find_node_outside :
    (lo hi k : ℕ) (t : Tree) → Ordered lo hi t → (k < lo) ⊎ (hi ≤ k) → find_node t k ≡ null
unfolding find_node
find_node_outside lo hi k null o h = refl
find_node_outside lo hi k (node i e l m r) (lower, upper, on_left, on_right, _) (inl h) =
    ground (arith, find_node_outside lo i k l on_left (inl h))
find_node_outside lo hi k (node i e l m r) (lower, upper, on_left, on_right, _) (inr h) =
    ground (arith, find_node_outside (suc i) hi k r on_right (inr h))

touch-Ordered :
    (mark : Bool → Bool) (grow : Tree → Tree) (lo hi i : ℕ) (t : Tree)
    → ((m : Tree) → Ordered 0 alphabet_length m → Ordered 0 alphabet_length (grow m))
    → lo ≤ i
    → i < hi
    → Ordered lo hi t
    → Ordered lo hi (touch mark grow t i)
unfolding touch
touch-Ordered mark grow lo hi i null keep h k o = (h, k, tt, tt, keep null tt)
touch-Ordered mark grow lo hi i (node j e l m r) keep h k (lower, upper, on_left, on_right, below) =
    elim (compare i j)
        as (λ c.
          compare i j ≡ c
          → Ordered lo hi (elim c [
            | Ordering.eq ↦ node j (mark e) l (grow m) r
            | Ordering.lt ↦ node j e (touch mark grow l i) m r
            | Ordering.gt ↦ node j e l m (touch mark grow r i)
          ])) [
            | Ordering.eq ↦ λ q. (lower, upper, on_left, on_right, keep m below)
            | Ordering.lt ↦ λ q. (
              lower,
              upper,
              touch-Ordered mark grow lo j i l keep h (ground arith) on_left,
              on_right,
              below,
            )
            | Ordering.gt ↦ λ q. (
              lower,
              upper,
              on_left,
              touch-Ordered mark grow (suc j) hi i r keep (ground arith) k on_right,
              below,
            )
          ]
      refl

middle_after-Ordered :
    (w : List ℕ) (m : Tree)
    → HasNoTerminator w
    → Ordered 0 alphabet_length m
    → Ordered 0 alphabet_length (middle_after w m)
unfolding middle_after
middle_after-Ordered [] m plain o = o
middle_after-Ordered (c ∷ w) m plain o = elim (Option-cases (get_character_index c)) [
  | inl q ↦ rw (q, middle_after) o
  | inr (i, q) ↦
      rw (q, middle_after)
        (touch-Ordered (mark_after w) (middle_after w) 0 alphabet_length i m
          (λ m'. middle_after-Ordered w m' plain.1) (omega arith)
          (get_character_index-lt c i plain.0 q) o)
]

pub insert-IsOrdered :
    (t : TernaryTree) (w : List ℕ) → HasNoTerminator w → IsOrdered t → IsOrdered (insert t w).0
unfolding insert
insert-IsOrdered t w plain o = middle_after-Ordered w t.middle plain o

-- The trees that a program can make, from words that contain no zero byte.
unfoldable pub build : List (List ℕ) → TernaryTree
build [] = empty
build (w ∷ ws) = (insert (build ws) w).0

abbrev pub AllPlain : List (List ℕ) → Type 0
AllPlain [] = Unit {0}
AllPlain (w ∷ ws) = HasNoTerminator w × AllPlain ws

pub build-IsOrdered : (ws : List (List ℕ)) → AllPlain ws → IsOrdered (build ws)
unfolding build empty
build-IsOrdered [] plain = tt
build-IsOrdered (w ∷ ws) plain = insert-IsOrdered (build ws) w plain.0 (build-IsOrdered ws plain.1)
