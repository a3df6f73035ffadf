-- ===== src/Limiter/Available.antt =====
-- `DoTakeAvailable` of token-bucket-rate-limit/ratelimit/bucket_limiter.cpp: what it hands out.
use native.Mathlib.Decide.{dec_le}
use eureka.Common.{ℕ, ◌+◌, ◌≤◌, ◌≡◌, refl, subst, true, ok, arith, Bool-cases, ◌⊎◌, inl, inr}
use eureka.Common.Int.{ℤ, pos, negsuc, pos_part, neg_part, ◌-ℤ◌, ltb_ℤ}
use eureka.Limiter.{Bucket, min_ℤ, adjust, do_take_available}
use eureka.Limiter.Budget.{
  Budget, Adjusted, InRange, InRange-le, Fills, in_int64_lem, sub_parts, adjust-Budget,
  charged-Budget,
}

abbrev pub TakesAvailable : Bucket → ℕ → ℕ → ℕ → ℕ × Bucket → Type 0
TakesAvailable b t count total (taken, c) =
    (do_take_available b t count ≡ ok (taken, c))
    × Adjusted b t c
    × Budget c (total + taken)
    × (taken ≤ count)
    × ((taken ≡ count) ⊎ (pos_part c.available ≡ 0))
    × ((filled : Bucket) × Fills b t filled
        × (taken + pos_part c.available ≡ pos_part filled.available)
        × (neg_part c.available ≡ neg_part filled.available))

taken_parts :
    (a : ℤ) (count : ℕ)
    → ltb_ℤ (pos 0) a ≡ true
    → let taken = pos_part (min_ℤ (pos count) a) in
      (taken + pos_part (a -ℤ pos taken) ≡ pos_part a) × (neg_part (a -ℤ pos taken) ≡ neg_part a)
unfolding ◌-ℤ◌
taken_parts (pos n) count h = elim (dec_le count n) [
  | yes enough ↦ (ground arith, ground arith)
  | no short ↦ (ground arith, ground arith)
]
taken_parts (negsuc n) count h = absurd (ground arith)

drained :
    (a : ℤ) (count : ℕ)
    → ltb_ℤ (pos 0) a ≡ true
    → let taken = pos_part (min_ℤ (pos count) a) in
      (taken ≡ count) ⊎ (pos_part (a -ℤ pos taken) ≡ 0)
unfolding ◌-ℤ◌
drained (pos n) count h = elim (dec_le count n) [
  | yes enough ↦ inl (ground arith)
  | no short ↦ inr (ground arith)
]
drained (negsuc n) count h = absurd (ground arith)

hand_out :
    (b c : Bucket) (t count total : ℕ)
    → InRange b t (total + count)
    → adjust b t ≡ ok c
    → Adjusted b t c
    → Budget c total
    → Fills b t c
    → (r : ℕ × Bucket) × TakesAvailable b t count total r
unfolding do_take_available
hand_out b c t count total fits done adj bud flow = elim (Bool-cases (ltb_ℤ (pos 0) c.available)) [
  | inl some_left ↦
      let taken = pos_part (min_ℤ (pos count) c.available) in
      let parts = sub_parts c.available taken in
      let few : taken ≤ count = ground arith in
      let left =
        in_int64_lem (c.available -ℤ pos taken) (omega (arith, parts, bud.full, fits, adj.0))
          (omega (arith, parts, bud.debt, few, fits)) in
      (
        (taken, record c { available = c.available -ℤ pos taken }),
        (
          rw (done, some_left, left) refl,
          adj,
          charged-Budget c taken total bud,
          few,
          drained c.available count some_left,
          (
            c,
            flow,
            (taken_parts c.available count some_left).0,
            (taken_parts c.available count some_left).1,
          ),
        ),
      )
  | inr none_left ↦ (
    (0, c),
    (
      rw (done, none_left),
      adj,
      subst (Budget c) (omega arith) bud,
      omega arith,
      inr (ground arith),
      (c, flow, omega arith, refl),
    ),
  )
]

-- While the numbers stay in the range of `int64_t`, `DoTakeAvailable` at a tick not before the latest
-- one succeeds and keeps the budget. It hands out the count or leaves nothing, and what it hands out and
-- what it leaves are together what was there with what has flowed in by the tick, or the capacity if
-- that is less.
pub do_take_available_lem :
    (b : Bucket) (t count total : ℕ)
    → b.latest_tick ≤ t
    → InRange b t (total + count)
    → Budget b total
    → (r : ℕ × Bucket) × TakesAvailable b t count total r
do_take_available_lem b t count total h fits v =
    let before = InRange-le b t t total (total + count) (omega arith) (omega arith) fits in
    let (c, done, adj, bud, flow) = adjust-Budget b t total h before v in
    hand_out b c t count total fits done adj bud flow
