-- ===== src/Limiter/Waiting.antt =====
-- The duration that `DoTake` computes for a debt: how long the debt takes to flow in.
use native.Mathlib.Decide.{dec_le}
use eureka.Common.{ℕ, suc, ◌+◌, ◌-◌, ◌*◌, ◌/◌, ◌≤◌, ◌<◌, ◌≡◌, refl, ok, arith}
use eureka.Common.Int.{ℤ, pos, pos_part, neg_part, ◌+ℤ◌}
use eureka.Limiter.{Bucket, int64_max, wait_for}
use eureka.Limiter.Budget.{mul_mono, in_int64_lem, ceil_bounds}

pub paid_by :
    (r : ℤ) (cap t q total wait : ℕ)
    → pos_part r + total ≤ cap + t * q + neg_part r
    → neg_part r ≤ wait * q
    → total ≤ cap + (t + wait) * q
paid_by r cap t q total wait h k =
    let split : (t + wait) * q ≡ t * q + wait * q = omega arith in omega arith

abbrev pub Waits : ℕ → ℤ → ℕ → Type 0
Waits q remain wait = (neg_part remain ≤ wait * q) × (wait * q < neg_part remain + q)

-- No more ticks than tokens that are owed.
few_ticks : (n q : ℕ) → 0 < n → 0 < q → (n + q - 1) / q ≤ n
few_ticks n q h k =
    let wait = (n + q - 1) / q in
    let bounds = ceil_bounds n q k in
    let over : suc n ≤ wait → suc n * q ≤ wait * q = λ m. grind arith in
    elim (dec_le wait n) [
      | yes few ↦ few
      | no many ↦
          let step : suc n * q ≡ n * q + q = omega arith in
          let least : n ≤ n * q = grind arith in
          absurd (omega (arith, bounds, over (omega arith), step, least))
    ]

pos_sum : (m n : ℕ) → pos m +ℤ pos n ≡ pos (m + n)
unfolding ◌+ℤ◌
pos_sum m n = ground arith

pub wait_for_lem :
    (b : Bucket) (remain : ℤ)
    → 0 < neg_part remain
    → 0 < b.quantum
    → neg_part remain + b.quantum ≤ int64_max
    → neg_part remain * b.fill_tick ≤ int64_max
    → wait_for b remain ≡ ok (((neg_part remain + b.quantum - 1) / b.quantum) * b.fill_tick)
unfolding wait_for
wait_for_lem b remain owes flows few short =
    let owed = neg_part remain in
    let wait = (owed + b.quantum - 1) / b.quantum in
    let ticks : wait ≤ owed = few_ticks owed b.quantum owes flows in
    let product = mul_mono wait owed b.fill_tick ticks in
    rw
      (
        in_int64_lem (pos owed) (omega arith) (omega arith),
        pos_sum owed b.quantum,
        in_int64_lem (pos (owed + b.quantum)) few (omega arith),
        in_int64_lem (pos (wait * b.fill_tick)) (omega arith) (omega arith),
      )
      refl
