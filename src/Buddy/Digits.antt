-- ===== src/Buddy/Digits.antt =====
-- The law of the lowest digit for the operations on binary digits.
use eureka.Common.{ℕ, zero, suc, ◌+◌, ◌*◌, ◌/◌, ◌%◌, ◌≤◌, min, max, ◌≡◌, refl, ap, arith}
use Prim.Native.Nat.{digits, bit_and, bit_or, bit_and-bitwise, bit_or-bitwise}

-- The fuel of the native digit loop does not matter, so both operations obey the law of the lowest
-- digit.
fuel_free :
    (rest : ℕ → ℕ) (op : ℕ → ℕ → ℕ) (n m a b : ℕ)
    → a ≤ n
    → a ≤ m
    → digits rest op n a b ≡ digits rest op m a b
fuel_free rest op zero zero a b p q = refl
fuel_free rest op zero (suc m) zero b p q = refl
fuel_free rest op zero (suc m) (suc a) b p q = absurd (omega arith)
fuel_free rest op (suc n) zero zero b p q = refl
fuel_free rest op (suc n) zero (suc a) b p q = absurd (omega arith)
fuel_free rest op (suc n) (suc m) zero b p q = refl
fuel_free rest op (suc n) (suc m) (suc a) b p q =
    ap (λ h. h * 2 + op (suc a % 2) (b % 2))
      (fuel_free rest op n m (suc a / 2) (b / 2) (omega arith) (omega arith))

pub bit_and_step : (a b : ℕ) → bit_and a b ≡ bit_and (a / 2) (b / 2) * 2 + min (a % 2) (b % 2)
bit_and_step zero b = omega (arith, bit_and-bitwise 0 b, bit_and-bitwise 0 (b / 2))
bit_and_step (suc a) b = omega (
  arith,
  bit_and-bitwise (suc a) b,
  bit_and-bitwise (suc a / 2) (b / 2),
  fuel_free (λ x. zero) min a (suc a / 2) (suc a / 2) (b / 2) (omega arith) (omega arith),
)

pub bit_or_step : (a b : ℕ) → bit_or a b ≡ bit_or (a / 2) (b / 2) * 2 + max (a % 2) (b % 2)
bit_or_step zero b = omega (arith, bit_or-bitwise 0 b, bit_or-bitwise 0 (b / 2))
bit_or_step (suc a) b = omega (
  arith,
  bit_or-bitwise (suc a) b,
  bit_or-bitwise (suc a / 2) (b / 2),
  fuel_free (λ x. x) max a (suc a / 2) (suc a / 2) (b / 2) (omega arith) (omega arith),
)
