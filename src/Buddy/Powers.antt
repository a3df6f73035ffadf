-- ===== src/Buddy/Powers.antt =====
-- BuddyAllocator/src/buddy_util.h: the tests on powers of 2, digit by digit.
use eureka.Common.{
  ==_ne, ℕ, zero, suc, ◌+◌, ◌-◌, ◌*◌, ◌/◌, ◌%◌, ◌≤◌, ◌<◌, ◌≡◌, refl, sym, subst, ◌∙◌, true, false,
  arith,
}
use native.Mathlib.Decide.{dec_le}
use Prim.Native.Nat.{bit_and}
use eureka.Buddy.{is_power_of_2}
use eureka.Buddy.Tree.{width, one-le-width}
use eureka.Buddy.Digits.{bit_and_step}

bit_and_self_fuel : (n a : ℕ) → a ≤ n → bit_and a a ≡ a
bit_and_self_fuel n zero h = refl
bit_and_self_fuel zero (suc a) h = absurd (omega arith)
bit_and_self_fuel (suc n) (suc a) h =
    omega (arith, bit_and_step (suc a) (suc a), bit_and_self_fuel n (suc a / 2) (omega arith))

-- A number and the one before it: an even number passes the test on to its half.
bit_and_even : (n : ℕ) → 0 < n → bit_and (n * 2) (n * 2 - 1) ≡ bit_and n (n - 1) * 2
bit_and_even n h =
    let p : n * 2 / 2 ≡ n = omega arith in
    let q : (n * 2 - 1) / 2 ≡ n - 1 = omega arith in
    bit_and_step (n * 2) (n * 2 - 1) ∙ rw (p, q) omega arith

bit_and_odd : (n : ℕ) → bit_and (n * 2 + 1) (n * 2) ≡ n * 2
bit_and_odd n =
    let p : (n * 2 + 1) / 2 ≡ n = omega arith in
    let q : n * 2 / 2 ≡ n = omega arith in
    bit_and_step (n * 2 + 1) (n * 2) ∙ rw (p, q, bit_and_self_fuel n n (omega arith)) omega arith

bit_and-width : (k : ℕ) → bit_and (width k) (width k - 1) ≡ 0
bit_and-width zero = refl
bit_and-width (suc k) = omega (arith, bit_and_even (width k) (one-le-width k), bit_and-width k)

pub is_power_of_2-width : (k : ℕ) → is_power_of_2 (width k) ≡ true
unfolding is_power_of_2
is_power_of_2-width k =
    rw (==_ne (width k) 0 (λ e. omega (arith, one-le-width k)), bit_and-width k) refl

bit_and_between : (k n : ℕ) → width k < n → n < width (suc k) → 0 < bit_and n (n - 1)
bit_and_between zero n p q = absurd (omega arith)
bit_and_between (suc k) n p q =
    let m = n / 2 in
    elim (dec_le (n % 2) 0) [
      | yes h ↦
          let e : n ≡ m * 2 = omega arith in
          subst (λ x. 0 < bit_and x (x - 1)) (sym e)
            (omega (
              arith,
              bit_and_even m (omega arith),
              bit_and_between k m (omega arith) (omega arith),
            ))
      | no h ↦
          let e : n ≡ m * 2 + 1 = omega arith in
          let s : m * 2 + 1 - 1 ≡ m * 2 = omega arith in
          subst (λ x. 0 < bit_and x (x - 1)) (sym e)
            (rw s (omega (arith, bit_and_odd m, one-le-width k)))
    ]

pub is_power_of_2_between : (k n : ℕ) → width k < n → n < width (suc k) → is_power_of_2 n ≡ false
unfolding is_power_of_2
is_power_of_2_between k n p q =
    rw
      (
        ==_ne n 0 (λ e. omega arith),
        ==_ne (bit_and n (n - 1)) 0 (λ e. omega (arith, bit_and_between k n p q)),
      )
      refl
