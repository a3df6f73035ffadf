-- ===== src/Buddy/Allocation.antt =====
-- BuddyAllocator/src/bin_manager.cpp, `BinManager::Allocate`: the blocks before and after.
use eureka.Common.{
  ltb, if◌then◌else◌, lt→ltb, not_ltb, ==_ne, get_elem?, set, Result, ok, ◌>>=◌, at, at-some, ℕ,
  suc, ◌+◌, ◌-◌, ◌*◌, ◌%◌, ◌^◌, ◌≤◌, ◌<◌, ◌≡◌, refl, sym, ap, subst, ◌∙◌, ◌⊎◌, inl, inr, some,
  arith,
}
use native.Mathlib.Decide.{dec_le}
use native.Mathlib.Nat.{mul-le-mul_right}
use eureka.Buddy.{
  word, nearest_upper_power_of_2, noffset, BinManager, steps, descend, update_up, take_bin,
  allocate,
}
use eureka.Buddy.Tree.{
  width, raise, raise-add, one-le-width, Tree, largest, largest-le_width, place, blocks,
  width-raise,
}
use eureka.Buddy.Nodes.{Represents-top}
use eureka.Buddy.Rebuilding.{write-below}
use eureka.Buddy.Placing.{Placed, place_loops, place-fits, place-aligned}
use eureka.Buddy.Blocks.{Inserted, place-Inserted}
use eureka.Buddy.Rounding.{nearest_upper_power_of_2-LeastPower}
use eureka.Buddy.Refusing.{Touched, run-Touched}
use eureka.Buddy.Fresh.{width_mono}
use eureka.Buddy.Manager.{Stands, level-le}

-- A request that there is room for.
module _ (d e slots : ℕ) (m : BinManager) (t : Tree)
    (needed : nearest_upper_power_of_2 slots ≡ width e) (asked : 0 < slots)
    (stands : Stands (raise d e) m t) (room : width e ≤ largest (raise d e) t) where
  placed : Placed d e 0 (m.max_consecutive_slot) t
  placed =
      place_loops d e 0 (m.max_consecutive_slot) t (omega (arith, stands.measured, stands.small))
        room (stands.nodes)

  slots_found :
      descend steps (m.max_consecutive_slot) (width e) (width (raise d e)) 0 ≡ ok placed.index
  slots_found =
      let f = 64 - d in
      let fuel : raise (suc d) f ≡ steps =
        omega (arith, raise-add d f, level-le (raise d e) stands.small, raise-add d e) in
      ap (λ n. descend n (m.max_consecutive_slot) (width e) (width (raise d e)) 0) (sym fuel)
      ∙ placed.found f

  path_updated :
      update_up steps (set (m.max_consecutive_slot) placed.index 0) placed.index ≡ ok placed.vector
  unfolding update_up
  path_updated =
      let f = 64 - d in
      let fuel : raise d (suc f) ≡ steps =
        omega (arith, raise-add d (suc f), level-le (raise d e) stands.small, raise-add d e) in
      ap (λ n. update_up n (set (m.max_consecutive_slot) placed.index 0) placed.index) (sym fuel)
      ∙ placed.updated (suc f)

  offset_computed :
      ((placed.index + 1) * width e + (word - width (raise d e))) % word ≡ (place d e t).0
  offset_computed = omega (arith, placed.at_offset, place-fits d e t, one-le-width e, stands.small)

  take_bin-place :
      take_bin (width e) m ≡ ok ((place d e t).0, record m { max_consecutive_slot = placed.vector })
  unfolding take_bin
  take_bin-place =
      rw
        (
          stands.total,
          slots_found,
          write-below (m.max_consecutive_slot) placed.index 0 (placed.in_range),
          path_updated,
          offset_computed,
          take_bin,
        )
        refl

-- `Allocate` past its tests.
allocate_tests :
    (slots top : ℕ) (m : BinManager)
    → 0 < slots
    → get_elem? (m.max_consecutive_slot) 0 ≡ some top
    → allocate slots m ≡ (
        if ltb top (nearest_upper_power_of_2 slots)
        then ok (noffset, m)
        else take_bin (nearest_upper_power_of_2 slots) m)
unfolding allocate
allocate_tests slots top m asked e =
    let Run : Type 0 = Result (ℕ × BinManager) in
    let needed = nearest_upper_power_of_2 slots in
    let sized : ℕ → Run = λ x. if ltb x needed then ok (noffset, m) else take_bin needed m in
    let rest : Run = at (m.max_consecutive_slot) 0 >>= sized in
    ap (λ b. if b then ok (noffset, m) else rest) (==_ne slots 0 (λ z. omega arith))
    ∙ ap (λ r. r >>= sized) (at-some (m.max_consecutive_slot) 0 top e)

-- What a request that is served leaves.
pub record Served (k n : ℕ) (m : BinManager) (t : Tree) (slots : ℕ) : Type 0 where
  pub offset : ℕ
  pub next : BinManager
  pub tree : Tree
  pub returned : allocate slots m ≡ ok (offset, next)
  pub stands : Stands k next tree
  pub added : Inserted (offset, n) (blocks k 0 t) (blocks k 0 tree)
  pub inside : offset + n ≤ width k
  pub aligned : (c : ℕ) × (offset ≡ c * n)

pub allocate-Served :
    (d e slots : ℕ) (m : BinManager) (t : Tree)
    → nearest_upper_power_of_2 slots ≡ width e
    → 0 < slots
    → Stands (raise d e) m t
    → width e ≤ largest (raise d e) t
    → Served (raise d e) (width e) m t slots
allocate-Served d e slots m t needed asked stands room =
    let k = raise d e in
    let p = placed d e slots m t needed asked stands room in
    let top = Represents-top k 0 (m.max_consecutive_slot) t (stands.nodes) in
    record {
      offset = (place d e t).0;
      next = record m { max_consecutive_slot = p.vector };
      tree = (place d e t).1;
      returned =
          allocate_tests slots (largest k t) m asked top
          ∙ ap (λ n. if ltb (largest k t) n then ok (noffset, m) else take_bin n m) needed
          ∙ ap (λ b. if b then ok (noffset, m) else take_bin (width e) m) (not_ltb _ _ room)
          ∙ take_bin-place d e slots m t needed asked stands room;
      stands = record {
        total = stands.total;
        nodes = p.rebuilt.represents;
        measured = omega (arith, p.rebuilt.same_length, stands.measured);
        small = stands.small;
      };
      added =
          subst (λ o. Inserted (o, width e) (blocks k 0 t) (blocks k 0 ((place d e t).1)))
            (omega arith) (place-Inserted d e 0 t room);
      inside = place-fits d e t;
      aligned = place-aligned d e t;
    }

-- A request that there is no room for changes nothing.
allocate-refused :
    (k e slots : ℕ) (m : BinManager) (t : Tree)
    → nearest_upper_power_of_2 slots ≡ width e
    → 0 < slots
    → Stands k m t
    → largest k t < width e
    → allocate slots m ≡ ok (noffset, m)
allocate-refused k e slots m t needed asked stands full =
    allocate_tests slots (largest k t) m asked
      (Represents-top k 0 (m.max_consecutive_slot) t (stands.nodes))
    ∙ ap (λ n. if ltb (largest k t) n then ok (noffset, m) else take_bin n m) needed
    ∙ ap (λ b. if b then ok (noffset, m) else take_bin (width e) m) (lt→ltb _ _ full)

-- A request that is refused: the manager is unchanged, and each run of the size that begins at a
-- multiple of it is in use.
pub record Refused (k n : ℕ) (m : BinManager) (t : Tree) (slots : ℕ) : Type 0 where
  pub returned : allocate slots m ≡ ok (noffset, m)
  pub in_use : (c : ℕ) → c * n + n ≤ width k → Touched (blocks k 0 t) (c * n) n

level_order : (e k : ℕ) → width e ≤ width k → e ≤ k
level_order e k h = elim (dec_le e k) [
  | yes g ↦ g
  | no g ↦ absurd (omega (arith, width_mono (suc k) e (omega arith), one-le-width k))
]

run_inside : (d e c : ℕ) → c * width e + width e ≤ width (raise d e) → c < width d
run_inside d e c h = elim (dec_le (width d) c) [
  | no g ↦ omega arith
  | yes g ↦ absurd (
      omega (
        arith,
        one-le-width e,
        width-raise d e,
        mul-le-mul_right {m = width d} {n = c} (width e) g,
      ))
]

runs_in_use :
    (d e c : ℕ) (m : BinManager) (t : Tree)
    → Stands (raise d e) m t
    → largest (raise d e) t < width e
    → c * width e + width e ≤ width (raise d e)
    → Touched (blocks (raise d e) 0 t) (c * width e) (width e)
runs_in_use d e c m t stands full fits =
    let start : 0 + c * width e ≡ c * width e = omega arith in
    subst (λ p. Touched (blocks (raise d e) 0 t) p (width e)) start
      (run-Touched d e 0 0 c (m.max_consecutive_slot) t stands.nodes full (run_inside d e c fits))

-- An allocation of up to 2 ^ 32 slots takes the least power of 2 that is enough: the new block
-- begins at a multiple of its size and the others stay as they are, or each such run is in use.
pub allocate-outcome :
    (k slots : ℕ) (m : BinManager) (t : Tree)
    → Stands k m t
    → 1 ≤ slots
    → slots ≤ 2 ^ 32
    → Served k (nearest_upper_power_of_2 slots) m t slots
      ⊎ Refused k (nearest_upper_power_of_2 slots) m t slots
allocate-outcome k slots m t stands lo hi =
    let n = nearest_upper_power_of_2 slots in
    let power = nearest_upper_power_of_2-LeastPower slots lo hi in
    let e = power.level in
    let w : n ≡ width e = power.is_width in
    elim (dec_le (width e) (largest k t)) [
      | yes room ↦
          let le = level_order e k (omega (arith, largest-le_width k t)) in
          let same : raise (k - e) e ≡ k = omega (arith, raise-add (k - e) e) in
          inl (
            subst (λ n'. Served k n' m t slots) (sym w)
              (subst (λ k'. Stands k' m t → width e ≤ largest k' t → Served k' (width e) m t slots)
                same (allocate-Served (k - e) e slots m t w (omega arith)) stands room))
      | no full ↦ inr record {
        returned = allocate-refused k e slots m t w (omega arith) stands (omega arith);
        in_use = λ c fits.
            let small : c * width e + width e ≤ width k = subst (λ x. c * x + x ≤ width k) w fits in
            let le = level_order e k (omega arith) in
            let same : raise (k - e) e ≡ k = omega (arith, raise-add (k - e) e) in
            subst (λ x. Touched (blocks k 0 t) (c * x) x) (sym w)
              (subst
                (λ k'.
                  Stands k' m t
                  → largest k' t < width e
                  → c * width e + width e ≤ width k'
                  → Touched (blocks k' 0 t) (c * width e) (width e))
                same (runs_in_use (k - e) e c m t) stands (omega arith) small);
      }
    ]
