-- ===== src/Common/Memory.antt =====
-- Blocks of memory: a copy into a block, and a vector's resize.
use Prim.Native.Nat.{ℕ, zero, suc, ◌+◌, ◌-◌, ◌≤◌}
use mathlib.Core.Path.{◌≡◌, refl, ap, sym, ◌∙◌}
use mathlib.Core.List.{List, [], ◌∷◌, ◌++◌}
use native.Mathlib.Omega.{arith}
use eureka.Common.Lists.{
  length, take, drop, replicate, length-append, length-take, length-replicate,
}

module _ {ℓ} {A : Type ℓ} where
  -- `memcpy` of `ys` to the position `i` of the block `xs`; what would fall outside is lost.
  abbrev pub copy_at : List A → ℕ → List A → List A
  copy_at [] i ys = []
  copy_at (x ∷ xs) (suc i) ys = x ∷ copy_at xs i ys
  copy_at (x ∷ xs) zero [] = x ∷ xs
  copy_at (x ∷ xs) zero (y ∷ ys) = y ∷ copy_at xs zero ys

  pub length-copy_at : (xs : List A) (i : ℕ) (ys : List A) → length (copy_at xs i ys) ≡ length xs
  length-copy_at [] i ys = refl
  length-copy_at (x ∷ xs) (suc i) ys = ap suc (length-copy_at xs i ys)
  length-copy_at (x ∷ xs) zero [] = refl
  length-copy_at (x ∷ xs) zero (y ∷ ys) = ap suc (length-copy_at xs zero ys)

  -- The copied block stands at its place.
  pub take-copy_at :
      (xs : List A) (i : ℕ) (ys : List A)
      → i + length ys ≤ length xs
      → take (length ys) (drop i (copy_at xs i ys)) ≡ ys
  take-copy_at [] zero [] h = refl
  take-copy_at [] (suc i) [] h = refl
  take-copy_at [] zero (y ∷ ys) h = absurd (omega arith)
  take-copy_at [] (suc i) (y ∷ ys) h = absurd (omega arith)
  take-copy_at (x ∷ xs) (suc i) ys h = take-copy_at xs i ys (omega arith)
  take-copy_at (x ∷ xs) zero [] h = refl
  take-copy_at (x ∷ xs) zero (y ∷ ys) h = ap (◌∷◌ y) (take-copy_at xs zero ys (omega arith))

  -- What stands before it is unchanged.
  pub take-copy_at_before :
      (xs : List A) (i : ℕ) (ys : List A) → take i (copy_at xs i ys) ≡ take i xs
  take-copy_at_before [] zero ys = refl
  take-copy_at_before [] (suc i) ys = refl
  take-copy_at_before (x ∷ xs) (suc i) ys = ap (◌∷◌ x) (take-copy_at_before xs i ys)
  take-copy_at_before (x ∷ xs) zero ys = refl

  -- So is what stands behind it.
  pub drop-copy_at_behind :
      (xs : List A) (i : ℕ) (ys : List A)
      → drop (i + length ys) (copy_at xs i ys) ≡ drop (i + length ys) xs
  drop-copy_at_behind [] i ys = refl
  drop-copy_at_behind (x ∷ xs) (suc i) ys =
      let same : suc (i + length ys) ≡ suc i + length ys = omega arith in
      ap (λ k. drop k (x ∷ copy_at xs i ys)) (sym same)
      ∙ drop-copy_at_behind xs i ys
      ∙ ap (λ k. drop k (x ∷ xs)) same
  drop-copy_at_behind (x ∷ xs) zero [] = refl
  drop-copy_at_behind (x ∷ xs) zero (y ∷ ys) =
      let same : suc (0 + length ys) ≡ 0 + suc (length ys) = omega arith in
      ap (λ k. drop k (y ∷ copy_at xs 0 ys)) (sym same)
      ∙ drop-copy_at_behind xs 0 ys
      ∙ ap (λ k. drop k (x ∷ xs)) same

  -- `std::vector::resize`.
  abbrev pub resize : ℕ → A → List A → List A
  resize n a xs = take n xs ++ replicate (n - length xs) a

  pub length-resize : (n : ℕ) (a : A) (xs : List A) → length (resize n a xs) ≡ n
  length-resize n a xs = omega (
    arith,
    length-append (take n xs) (replicate (n - length xs) a),
    length-take n xs,
    length-replicate (n - length xs) a,
  )
