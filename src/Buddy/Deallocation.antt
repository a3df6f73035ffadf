-- ===== src/Buddy/Deallocation.antt =====
-- BuddyAllocator/src/bin_manager.cpp, `BinManager::Free` and `SlotCountFor`: the blocks before and
-- after.
use eureka.Common.{
  if◌then◌else◌, not_leb, set, ok, ℕ, suc, ◌+◌, ◌-◌, ◌≤◌, ◌<◌, ◌≡◌, refl, sym, ap, subst, ◌∙◌, some,
  arith,
}
use mathlib.Core.List.{Memᴰ}
use eureka.Buddy.{
  BinManager, steps, climb, merge_up, leaf_index, free_bin, free, count_up, slot_count_for,
}
use eureka.Buddy.Tree.{width, raise, raise-add, Tree, release, blocks}
use eureka.Buddy.Rebuilding.{write-below}
use eureka.Buddy.Climbing.{bin_size, leaf, leaf-place, count_up-climb}
use eureka.Buddy.Releasing.{Freed, free_loops}
use eureka.Buddy.Blocks.{Inserted, blocks-within, release-Inserted, bin_size-block}
use eureka.Buddy.Manager.{Stands, level-le}

-- `Free` and `SlotCountFor` at a block that is handed out.
module _ (k q n : ℕ) (m : BinManager) (t : Tree) (stands : Stands k m t)
    (live : Memᴰ (q, n) (blocks k 0 t)) where
  within : (0 ≤ q) × (q + n ≤ 0 + width k) × (0 < n)
  within = blocks-within k 0 q n t live

  size_found : bin_size k q t ≡ n
  size_found =
      let p : q ≡ q - 0 = omega arith in
      ap (λ p'. bin_size k p' t) p ∙ bin_size-block k 0 q n t live

  freed : Freed k 0 (m.max_consecutive_slot) t q
  freed =
      free_loops k 0 q (m.max_consecutive_slot) t (omega (arith, stands.measured, stands.small))
        (omega (arith, stands.small)) (omega (arith, within.1, within.2)) (stands.nodes)
        (omega (arith, size_found, within.2))

  -- The two counts of levels add up to that of the tree.
  levels : freed.above + freed.level ≡ k
  levels = omega (arith, raise-add freed.above freed.level, freed.levels)

  first_node : leaf_index m q ≡ leaf k 0 q
  first_node = omega (
    arith,
    stands.total,
    stands.small,
    leaf-place k 0 q (omega (arith, within.1, within.2)),
    within.1,
    within.2,
  )

  bin_found :
      climb steps (m.max_consecutive_slot) 1 (leaf_index m q)
      ≡ ok (some (width freed.level, freed.index))
  bin_found =
      let f = 64 - freed.level in
      let fuel : raise freed.level (suc f) ≡ steps =
        omega (arith, raise-add freed.level (suc f), level-le k stands.small, levels) in
      ap (climb steps (m.max_consecutive_slot) 1) first_node
      ∙ ap (λ n. climb n (m.max_consecutive_slot) 1 (leaf k 0 q)) (sym fuel)
      ∙ freed.found f

  path_merged :
      merge_up steps
        (set (m.max_consecutive_slot) freed.index (width freed.level))
        (width freed.level)
        freed.index
      ≡ ok freed.vector
  unfolding merge_up
  path_merged =
      let f = 64 - freed.above in
      let marked = set (m.max_consecutive_slot) freed.index (width freed.level) in
      let fuel : raise freed.above (suc f) ≡ steps =
        omega (arith, raise-add freed.above (suc f), level-le k stands.small, levels) in
      ap (λ n. merge_up n marked (width freed.level) freed.index) (sym fuel) ∙ freed.updated (suc f)

  free_bin-release : free_bin q m ≡ ok (record m { max_consecutive_slot = freed.vector })
  unfolding free_bin
  free_bin-release =
      rw
        (
          bin_found,
          write-below (m.max_consecutive_slot) freed.index (width freed.level) (freed.in_range),
          path_merged,
          free_bin,
        )
        refl

-- What is left when the block at the offset q is given back.
pub record Returned (k : ℕ) (b : ℕ × ℕ) (m : BinManager) (t : Tree) : Type 0 where
  pub next : BinManager
  pub tree : Tree
  pub returned : free (b.0) m ≡ ok next
  pub stands : Stands k next tree
  pub removed : Inserted b (blocks k 0 tree) (blocks k 0 t)

-- `Free` at the offset of a block takes that block away, and no other block changes.
pub free-Returned :
    (k q n : ℕ) (m : BinManager) (t : Tree)
    → Stands k m t
    → Memᴰ (q, n) (blocks k 0 t)
    → Returned k (q, n) m t
unfolding free
free-Returned k q n m t stands live =
    let f = freed k q n m t stands live in
    let inside = within k q n m t stands live in
    let p : q - 0 ≡ q = omega arith in
    record {
      next = record m { max_consecutive_slot = f.vector };
      tree = release k q t;
      returned =
          ap (λ b. if b then ok m else free_bin q m)
            (not_leb m.total_slot_count q (omega (arith, stands.total, inside.1, inside.2)))
          ∙ free_bin-release k q n m t stands live;
      stands = record {
        total = stands.total;
        nodes = f.rebuilt.represents;
        measured = omega (arith, f.rebuilt.same_length, stands.measured);
        small = stands.small;
      };
      removed =
          subst (λ p'. Inserted (q, n) (blocks k 0 (release k p' t)) (blocks k 0 t)) p
            (release-Inserted k 0 q n t live);
    }

-- `SlotCountFor` at the offset of a block is the size of the block.
pub slot_count_for-block :
    (k q n : ℕ) (m : BinManager) (t : Tree)
    → Stands k m t
    → Memᴰ (q, n) (blocks k 0 t)
    → slot_count_for q m ≡ ok n
unfolding slot_count_for
slot_count_for-block k q n m t stands live =
    let f = freed k q n m t stands live in
    let inside = within k q n m t stands live in
    let v = m.max_consecutive_slot in
    ap (λ b. if b then ok 0 else count_up steps v 1 (leaf_index m q))
      (not_leb m.total_slot_count q (omega (arith, stands.total, inside.1, inside.2)))
    ∙ count_up-climb steps 1 (leaf_index m q) (width f.level) f.index v
        (bin_found k q n m t stands live)
    ∙ ap ok (sym f.sized ∙ size_found k q n m t stands live)
