-- ===== src/Buddy/Tree.antt =====
-- BuddyAllocator/src/bin_manager.cpp: the bins as a tree, what `Allocate` and `Free` do to it, and
-- the blocks that are handed out.
use eureka.Common.{
  ltb, leb, ◌==◌, if◌then◌else◌, Bool-cases, ℕ, zero, suc, ◌+◌, ◌-◌, ◌*◌, ◌≤◌, ◌<◌, max, ◌≡◌, refl,
  ap, inl, inr, List, [], ◌∷◌, ◌++◌, arith,
}

-- The slots of a bin of level k, and the level d above m.
abbrev pub width : ℕ → ℕ
width zero = 1
width (suc k) = width k * 2

abbrev pub raise : ℕ → ℕ → ℕ
raise zero m = m
raise (suc d) m = suc (raise d m)

pub raise-add : (d m : ℕ) → raise d m ≡ d + m
raise-add zero m = omega arith
raise-add (suc d) m = omega (arith, raise-add d m)

pub one-le-width : (k : ℕ) → 1 ≤ width k
one-le-width zero = omega arith
one-le-width (suc k) = omega (arith, one-le-width k)

-- A bin none of whose slots is in use, one that is handed out whole, and one in two halves.
pub data Tree : Type 0 where
  idle taken : Tree
  split : Tree → Tree → Tree

-- The largest idle bin under a bin of level k.
abbrev pub largest : ℕ → Tree → ℕ
largest k idle = width k
largest k taken = 0
largest zero (split a b) = 0
largest (suc k) (split a b) = max (largest k a) (largest k b)

pub largest-le_width : (k : ℕ) (t : Tree) → largest k t ≤ width k
largest-le_width k idle = omega arith
largest-le_width k taken = omega arith
largest-le_width zero (split a b) = omega arith
largest-le_width (suc k) (split a b) = omega (arith, largest-le_width k a, largest-le_width k b)

abbrev pub left_half : Tree → Tree
left_half idle = idle
left_half taken = taken
left_half (split a b) = a

abbrev pub right_half : Tree → Tree
right_half idle = idle
right_half taken = taken
right_half (split a b) = b

-- Takes a bin of level m from one of level m + d, in the left half when that has room: the offset in
-- the larger bin, and what becomes of it.
unfoldable pub place : ℕ → ℕ → Tree → ℕ × Tree
place zero m t = (0, taken)
place (suc d) m t =
    let (o, a) = place d m (left_half t) in
    let (p, b) = place d m (right_half t) in
    if leb (width m) (largest (raise d m) (left_half t))
    then (o, split a (right_half t))
    else (width (raise d m) + p, split (left_half t) b)

-- Two idle halves make an idle bin.
abbrev pub join : ℕ → Tree → Tree → Tree
join k a b = if largest k a + largest k b == width (suc k) then idle else split a b

-- Gives back the bin handed out that covers the slot o.
unfoldable pub release : ℕ → ℕ → Tree → Tree
release k o idle = idle
release k o taken = idle
release zero o (split a b) = split a b
release (suc k) o (split a b) =
    let c = release k o a in
    let d = release k (o - width k) b in if ltb o (width k) then join k c b else join k a d

-- The blocks that are handed out, offset and size, where the bin begins at the slot o.
unfoldable pub blocks : ℕ → ℕ → Tree → List (ℕ × ℕ)
blocks k o idle = []
blocks k o taken = (o, width k) ∷ []
blocks zero o (split a b) = []
blocks (suc k) o (split a b) = blocks k o a ++ blocks k (o + width k) b

pub raise-suc : (d m : ℕ) → raise d (suc m) ≡ suc (raise d m)
raise-suc zero m = refl
raise-suc (suc d) m = ap suc (raise-suc d m)

pub width-raise_lt : (d m : ℕ) → width m < width (raise (suc d) m)
width-raise_lt zero m = omega (arith, one-le-width m)
width-raise_lt (suc d) m = omega (arith, width-raise_lt d m)

width-raise_le : (d m : ℕ) → width m ≤ width (raise d m)
width-raise_le zero m = omega arith
width-raise_le (suc d) m = omega (arith, width-raise_lt d m)

-- A bin that something was placed in is no longer idle.
pub largest-place : (d m : ℕ) (t : Tree) → largest (raise d m) (place d m t).1 < width (raise d m)
unfolding place
largest-place zero m t = omega (arith, one-le-width m)
largest-place (suc d) m t = elim (Bool-cases (leb (width m) (largest (raise d m) (left_half t)))) [
  | inl e ↦
      rw e omega
        (arith, largest-place d m (left_half t), largest-le_width (raise d m) (right_half t))
  | inr e ↦
      rw e omega
        (arith, largest-place d m (right_half t), largest-le_width (raise d m) (left_half t))
]

-- A bin with room has room in its right half when its left half has none.
pub largest-right :
    (d m : ℕ) (t : Tree)
    → width m ≤ largest (raise (suc d) m) t
    → largest (raise d m) (left_half t) < width m
    → width m ≤ largest (raise d m) (right_half t)
largest-right d m idle h q = width-raise_le d m
largest-right d m taken h q = omega arith
largest-right d m (split a b) h q = omega arith

pub width-raise : (d m : ℕ) → width (raise d m) ≡ width d * width m
width-raise zero m = omega arith
width-raise (suc d) m = grind (arith, width-raise d m)
