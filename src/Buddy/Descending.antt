-- ===== src/Buddy/Descending.antt =====
-- BuddyAllocator/src/bin_manager.cpp, `BinManager::Allocate`: one round of each of its loops at a node.
use eureka.Common.{
  leb, ==_ne, length, get_elem?, set, at-some, ℕ, suc, ◌+◌, ◌*◌, ◌/◌, ◌^◌, ◌≤◌, ◌<◌, max, ◌≡◌, refl,
  ◌≢◌, true, false, some, List, arith,
}
use eureka.Buddy.{parent, descend, update_up}
use eureka.Buddy.Nodes.{left_child-below, right_child-below}
use eureka.Buddy.Rebuilding.{write-below}

module _ (f i : ℕ) (v : List ℕ) (small : length v ≤ 2 ^ 62) (lt : i < length v) where
  pub update_step :
      (c l r : ℕ)
      → c ≢ 0
      → parent c ≡ i
      → get_elem? v (i * 2 + 1) ≡ some l
      → get_elem? v (i * 2 + 2) ≡ some r
      → update_up (suc f) v c ≡ update_up f (set v i (max l r)) i
  unfolding update_up
  update_step c l r ne e p q =
      rw
        (
          ==_ne c 0 ne,
          e,
          left_child-below i (omega arith),
          right_child-below i (omega arith),
          at-some v (i * 2 + 1) l p,
          at-some v (i * 2 + 2) r q,
          write-below v i (max l r) lt,
          update_up,
        )
        refl

  pub descend_left :
      (needed slots left : ℕ)
      → slots ≢ needed
      → get_elem? v (i * 2 + 1) ≡ some left
      → leb needed left ≡ true
      → descend (suc f) v needed slots i ≡ descend f v needed (slots / 2) (i * 2 + 1)
  unfolding descend
  descend_left needed slots left ne e h =
      rw
        (
          ==_ne slots needed ne,
          left_child-below i (omega arith),
          at-some v (i * 2 + 1) left e,
          h,
          descend,
        )
        refl

  pub descend_right :
      (needed slots left : ℕ)
      → slots ≢ needed
      → get_elem? v (i * 2 + 1) ≡ some left
      → leb needed left ≡ false
      → descend (suc f) v needed slots i ≡ descend f v needed (slots / 2) (i * 2 + 2)
  unfolding descend
  descend_right needed slots left ne e h =
      rw
        (
          ==_ne slots needed ne,
          left_child-below i (omega arith),
          right_child-below i (omega arith),
          at-some v (i * 2 + 1) left e,
          h,
          descend,
        )
        refl
