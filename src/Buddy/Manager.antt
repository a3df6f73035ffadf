-- ===== src/Buddy/Manager.antt =====
-- BuddyAllocator/src/bin_manager.cpp: the manager, the tree it stands for, and its constructor.
use eureka.Common.{length, ok, ℕ, suc, ◌+◌, ◌-◌, ◌*◌, ◌%◌, ◌^◌, ◌≤◌, ◌≡◌, refl, arith}
use native.Mathlib.Decide.{dec_le}
use eureka.Buddy.{word, BinManager, fill, make_bins}
use eureka.Buddy.Tree.{width, one-le-width, Tree, idle}
use eureka.Buddy.Nodes.{Represents}
use eureka.Buddy.Powers.{is_power_of_2-width}
use eureka.Buddy.Fresh.{width_mono, length-fill, fill-Full}

-- The manager's vector holds the tree, over width k slots.
pub record Stands (k : ℕ) (m : BinManager) (t : Tree) : Type 0 where
  pub total : m.total_slot_count ≡ width k
  pub nodes : Represents k 0 (m.max_consecutive_slot) t
  pub measured : length (m.max_consecutive_slot) + 1 ≡ width (suc k)
  pub small : width k ≤ 2 ^ 60

pub make_bins-Stands :
    (k : ℕ) → width k ≤ 2 ^ 60 → (m : BinManager) × (make_bins (width k) ≡ ok m) × Stands k m idle
unfolding make_bins Represents
make_bins-Stands k small =
    let n : (width k * 2 + (word - 1)) % word ≡ width (suc k) - 1 = omega (arith, one-le-width k) in
    let s : width k * 2 % word ≡ width (suc k) = omega arith in
    let v = fill (width (suc k) - 1) 0 (width (suc k)) in
    (
      record { total_slot_count = width k; max_consecutive_slot = v },
      rw (is_power_of_2-width k, n, s, make_bins) refl,
      record {
        total = refl;
        nodes = fill-Full k;
        measured = omega (arith, length-fill (width (suc k) - 1) 0 (width (suc k)), one-le-width k);
        small = small;
      },
    )

pub level-le : (k : ℕ) → width k ≤ 2 ^ 60 → k ≤ 60
level-le k h = elim (dec_le k 60) [
  | yes g ↦ g
  | no g ↦ absurd (omega (arith, width_mono 61 k (omega arith)))
]
