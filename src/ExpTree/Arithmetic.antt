-- ===== src/ExpTree/Arithmetic.antt =====
-- Expression Tree/exptree.cpp, `Calculate`, against the arithmetic of the integers.
use eureka.Common.{ℕ, suc, ◌+◌, ◌/◌, ◌≡◌, refl, ok, check_failed, ensure, ◌>>=◌, ◌>>◌, ==_ne, arith}
use eureka.Common.Int.{ℤ, pos, negsuc, sub_ℕ, ◌+ℤ◌, ◌-ℤ◌, ◌*ℤ◌, ltb_ℤ}
use eureka.ExpTree.{calculate, in_int, int_min}
use eureka.ExpTree.Grammar.{
  AddOp, add, subtract, MulOp, multiply, divide, add_code, mul_code, as_int, sum_of, product_of,
}

returned : (r : ℤ) → (in_int r >>= (λ x. ensure (ltb_ℤ int_min x) check_failed >> ok x)) ≡ as_int r
returned (pos n) = ground arith
returned (negsuc n) = ground arith

pub calculate-add : (op : AddOp) (a b : ℤ) → calculate a b (add_code op) ≡ as_int (sum_of op a b)
unfolding calculate
calculate-add add a b = returned (a +ℤ b)
calculate-add subtract a b = returned (a -ℤ b)

pub calculate-mul : (op : MulOp) (a b : ℤ) → calculate a b (mul_code op) ≡ product_of op a b
unfolding calculate
calculate-mul multiply a b = returned (a *ℤ b)
calculate-mul divide a (pos ℕ.zero) = refl
calculate-mul divide (pos n) (pos (suc m)) =
    let e : n + 0 ≡ n = omega arith in
    let f : suc m + 0 ≡ suc m = omega arith in
    rw (e, f, ==_ne (suc m) 0 (omega arith)) (returned (pos (n / suc m)))
calculate-mul divide (pos n) (negsuc m) =
    let e : n + 0 ≡ n = omega arith in
    let f : 0 + suc m ≡ suc m = omega arith in
    rw (e, f, ==_ne (suc m) 0 (omega arith)) (returned (sub_ℕ 0 (n / suc m)))
calculate-mul divide (negsuc n) (pos (suc m)) =
    let e : 0 + suc n ≡ suc n = omega arith in
    let f : suc m + 0 ≡ suc m = omega arith in
    rw (e, f, ==_ne (suc m) 0 (omega arith)) (returned (sub_ℕ 0 (suc n / suc m)))
calculate-mul divide (negsuc n) (negsuc m) =
    let e : 0 + suc n ≡ suc n = omega arith in
    let f : 0 + suc m ≡ suc m = omega arith in
    rw (e, f, ==_ne (suc m) 0 (omega arith)) (returned (pos (suc n / suc m)))
