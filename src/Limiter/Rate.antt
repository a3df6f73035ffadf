-- ===== src/Limiter/Rate.antt =====
-- The rate that a bucket keeps: what all calls together have taken is bounded by what the bucket
-- held and what has flowed in.
use eureka.Common.{
  ℕ, ◌+◌, ◌-◌, ◌*◌, ◌/◌, ◌≤◌, ◌<◌, ◌≡◌, refl, sym, ap, List, [], ◌∷◌, Result, ok, ◌>>=◌, arith,
  Bool-cases, inl, inr,
}
use eureka.Common.Int.{pos, neg_part, ◌-ℤ◌, ltb_ℤ}
use eureka.Limiter.{Bucket, adjust, do_take, do_take_available}
use eureka.Limiter.Budget.{
  Budget, Adjusted, InRange, InRange-le, Fills, InRange-Adjusted, mul_mono, in_int64_lem, sub_parts,
  adjust-Budget, ceil_bounds, charged-Budget,
}
use eureka.Limiter.Waiting.{paid_by, Waits, wait_for_lem}

-- The duration is that of the ticks to wait.
abbrev pub Takes : Bucket → ℕ → ℕ → ℕ → ℕ × Bucket → Type 0
Takes b t count total (wait, c) =
    (do_take b t count ≡ ok (wait * b.fill_tick, c))
    × Adjusted b t c
    × Budget c (total + count)
    × (total + count ≤ b.capacity + (t + wait) * b.quantum)
    × Waits b.quantum c.available wait
    × ((filled : Bucket) × Fills b t filled × (c.available ≡ filled.available -ℤ pos count))

charge_by :
    (b c : Bucket) (t count total : ℕ)
    → InRange b t (total + count)
    → adjust b t ≡ ok c
    → Adjusted b t c
    → Budget c total
    → Fills b t c
    → (r : ℕ × Bucket) × Takes b t count total r
unfolding do_take
charge_by b c t count total fits done adj bud flow =
    let remain = c.available -ℤ pos count in
    let charged = charged-Budget c count total bud in
    let parts = sub_parts c.available count in
    let difference =
      in_int64_lem remain (omega (arith, parts, bud.full, fits, adj.0))
        (omega (arith, parts, bud.debt, fits)) in
    elim (Bool-cases (ltb_ℤ remain (pos 0))) [
      | inl debt ↦
          let owed = neg_part remain in
          let wait = (owed + c.quantum - 1) / c.quantum in
          let bounds = ceil_bounds owed c.quantum bud.flows in
          let few : owed ≤ total + count = omega (arith, parts, bud.debt) in
          let product = mul_mono owed (total + count) c.fill_tick few in
          let ranged = InRange-Adjusted b c t t (total + count) adj fits in
          let owes : 0 < owed = ground arith in
          let waited =
            wait_for_lem c remain owes bud.flows (omega (arith, few, ranged))
              (omega (arith, product, ranged)) in
          (
            (wait, record c { available = remain }),
            (
              rw (done, difference, debt, waited, adj.2) refl,
              adj,
              charged,
              rw (sym adj.0, sym adj.1, sym adj.3)
                  (paid_by remain c.capacity c.latest_tick c.quantum (total + count) wait
                    charged.spent bounds.0),
              rw (sym adj.1) bounds,
              (c, flow, refl),
            ),
          )
      | inr paid ↦
          let none_owed : neg_part remain ≡ 0 = ground arith in
          (
            (0, record c { available = remain }),
            (
              rw (done, difference, paid)
                  (ap (λ n. ok (n, record c { available = remain })) (omega arith)),
              adj,
              charged,
              rw (sym adj.0, sym adj.1, sym adj.3)
                  (paid_by remain c.capacity c.latest_tick c.quantum (total + count) 0 charged.spent
                    (omega arith)),
              (omega arith, omega (arith, bud.flows, adj.1)),
              (c, flow, refl),
            ),
          )
    ]

-- While the numbers stay in the range of `int64_t`, `DoTake` at a tick not before the latest one
-- succeeds. It leaves what was there with what has flowed in by the tick, or the capacity if that is
-- less, without the count. All that was handed out, this call's count included, is at most the
-- capacity and what has flowed in by the tick that the caller is told to wait for, and that tick is
-- the first at which the debt is covered.
pub do_take_lem :
    (b : Bucket) (t count total : ℕ)
    → b.latest_tick ≤ t
    → InRange b t (total + count)
    → Budget b total
    → (r : ℕ × Bucket) × Takes b t count total r
do_take_lem b t count total h fits v =
    let before = InRange-le b t t total (total + count) (omega arith) (omega arith) fits in
    let (c, done, adj, bud, flow) = adjust-Budget b t total h before v in
    charge_by b c t count total fits done adj bud flow

pub data Request : Type 0 where
  takes takes_available : ℕ → Request

-- What the calls at the given ticks hand out together, and the bucket behind them.
pub run : Bucket → ℕ → List (ℕ × Request) → Result (ℕ × Bucket)
run b total [] = ok (total, b)
run b total ((t, takes count) ∷ rs) = do (_, c) ← do_take b t count; run c (total + count) rs
run b total ((t, takes_available count) ∷ rs) = do
  (taken, c) ← do_take_available b t count
  run c (total + taken) rs

-- The ticks do not fall, from the first one given up to the last.
abbrev pub InOrder : ℕ → ℕ → List (ℕ × Request) → Type 0
InOrder t last [] = t ≤ last
InOrder t last ((u, r) ∷ rs) = (t ≤ u) × InOrder u last rs

-- What the calls ask for together.
abbrev pub requested : List (ℕ × Request) → ℕ
requested [] = 0
requested ((t, takes count) ∷ rs) = count + requested rs
requested ((t, takes_available count) ∷ rs) = count + requested rs

abbrev pub Keeps : Result (ℕ × Bucket) → Type 0
Keeps r = (p : ℕ × Bucket) × (r ≡ ok p) × Budget p.1 p.0
