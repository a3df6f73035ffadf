-- ===== src/Hashids/Reorder.antt =====
-- `reorder` of hashids/hashids/hashids.cpp only moves characters.
use native.Mathlib.Nat.{mod-lt}
use eureka.Common.{
  ℕ, zero, suc, ◌+◌, ◌≤◌, ◌<◌, ◌≡◌, ◌≢◌, refl, ap, ◌∙◌, List, [], ◌∷◌, length, length-set, count,
  one_if, set, get_or, ok, arith, ◌%◌, ◌==◌,
}
use eureka.Hashids.{swap, reorder_from, reorder}

count-set :
    (q v i : ℕ) (xs : List ℕ)
    → i < length xs
    → count q (set xs i v) + one_if (q == get_or xs i 0) ≡ count q xs + one_if (q == v)
count-set q v i [] h = absurd (omega arith)
count-set q v zero (x ∷ xs) h = omega arith
count-set q v (suc i) (x ∷ xs) h = omega (arith, count-set q v i xs (omega arith))

get_or-set_ne : (v i j : ℕ) (xs : List ℕ) → i ≢ j → get_or (set xs i v) j 0 ≡ get_or xs j 0
get_or-set_ne v i j [] h = refl
get_or-set_ne v zero zero (x ∷ xs) h = absurd (h refl)
get_or-set_ne v zero (suc j) (x ∷ xs) h = refl
get_or-set_ne v (suc i) zero (x ∷ xs) h = refl
get_or-set_ne v (suc i) (suc j) (x ∷ xs) h = get_or-set_ne v i j xs (λ e. h (ap suc e))

count-swap : (q i j : ℕ) (xs : List ℕ) → i < length xs → j < i → count q (swap xs i j) ≡ count q xs
count-swap q i j xs h k =
    let a = get_or xs i 0 in
    let b = get_or xs j 0 in
    let first = count-set q b i xs h in
    let second = count-set q a j (set xs i b) (omega (arith, length-set xs i b)) in
    let apart = ap (λ x. one_if (q == x)) (get_or-set_ne b i j xs (λ e. omega (arith, e))) in
    omega (arith, first, second, apart)

length-swap : (i j : ℕ) (xs : List ℕ) → length (swap xs i j) ≡ length xs
length-swap i j xs =
    length-set (set xs i (get_or xs j 0)) j (get_or xs i 0) ∙ length-set xs i (get_or xs j 0)

pub length-reorder_from :
    (salt : List ℕ) (i k sum : ℕ) (str : List ℕ)
    → length (reorder_from salt i k sum str) ≡ length str
unfolding reorder_from
length-reorder_from salt zero k sum str = refl
length-reorder_from salt (suc i) k sum str =
    let j = (k + (get_or salt k 0 + (sum + get_or salt k 0))) % suc i in
    length-reorder_from salt i ((k + 1) % length salt) (sum + get_or salt k 0) (swap str (suc i) j)
    ∙ length-swap (suc i) j str

count-reorder_from :
    (q : ℕ) (salt : List ℕ) (i k sum : ℕ) (str : List ℕ)
    → i < length str
    → count q (reorder_from salt i k sum str) ≡ count q str
unfolding reorder_from
count-reorder_from q salt zero k sum str h = refl
count-reorder_from q salt (suc i) k sum str h =
    let n = k + (get_or salt k 0 + (sum + get_or salt k 0)) in
    let j = n % suc i in
    count-reorder_from q salt i ((k + 1) % length salt) (sum + get_or salt k 0) (swap str (suc i) j)
      (omega (arith, length-swap (suc i) j str))
    ∙ count-swap q (suc i) j str h (mod-lt n (omega arith))

-- The same characters, as often.
abbrev pub Permuted : List ℕ → List ℕ → Type 0
Permuted xs ys = (length ys ≡ length xs) × ((q : ℕ) → count q ys ≡ count q xs)

-- A string that is not empty is reordered by every salt.
pub reorder-Permuted :
    (salt str : List ℕ)
    → 1 ≤ length str
    → (reordered : List ℕ) × (reorder salt str ≡ ok reordered) × Permuted str reordered
unfolding reorder
reorder-Permuted [] str h = (str, refl, (refl, λ q. refl))
reorder-Permuted (s ∷ salt) [] h = absurd (omega arith)
reorder-Permuted (s ∷ salt) (c ∷ str) h = (
  reorder_from (s ∷ salt) (length str) 0 0 (c ∷ str),
  refl,
  (
    length-reorder_from (s ∷ salt) (length str) 0 0 (c ∷ str),
    λ q. count-reorder_from q (s ∷ salt) (length str) 0 0 (c ∷ str) (omega arith),
  ),
)
