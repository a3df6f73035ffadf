-- ===== src/Limiter/Budget.antt =====
-- What a bucket has handed out, against what it held and what has flowed in.
use native.Mathlib.Nat.{div-add-mod', mod-lt}
use eureka.Common.{
  ℕ, ◌+◌, ◌-◌, ◌*◌, ◌/◌, ◌≤◌, ◌<◌, ◌≡◌, refl, ap, ◌∙◌, ok, arith, le→leb, Bool-cases, inl, inr, ◌⊎◌,
  ltb→lt, ltb→ge,
}
use eureka.Common.Int.{ℤ, pos, negsuc, pos_part, neg_part, ◌+ℤ◌, ◌-ℤ◌, ltb_ℤ, +ℤ_parts, eq_of_parts}
use eureka.Limiter.{Bucket, min_ℤ, adjust, int64_max, in_int64}

-- `total` tokens were handed out up to the bucket's latest tick.
pub record Budget (b : Bucket) (total : ℕ) : Type 0 where
  pub full : pos_part b.available ≤ b.capacity
  pub spent :
      pos_part b.available + total ≤ b.capacity + b.latest_tick * b.quantum + neg_part b.available
  pub flows : 0 < b.quantum
  pub debt : neg_part b.available ≤ total

-- What stays in the range of `int64_t`: all that flows in up to the tick, and what is handed out, as
-- tokens and as ticks to wait for them.
abbrev pub InRange : Bucket → ℕ → ℕ → Type 0
InRange b t given =
    (b.capacity + t * b.quantum ≤ int64_max)
    × (given + b.quantum ≤ int64_max)
    × (given * b.fill_tick ≤ int64_max)

pub mul_mono : (a b k : ℕ) → a ≤ b → a * k ≤ b * k
mul_mono a b k h = grind arith

-- It holds at an earlier tick, and of less, for a bucket with the same capacity and flow.
pub InRange-le :
    (b : Bucket) (t u less more : ℕ) → t ≤ u → less ≤ more → InRange b u more → InRange b t less
InRange-le b t u less more h k fits =
    omega (arith, mul_mono t u b.quantum h, mul_mono less more b.fill_tick k, fits)

pub in_int64_lem : (a : ℤ) → pos_part a ≤ int64_max → neg_part a ≤ int64_max → in_int64 a ≡ ok a
in_int64_lem (pos n) h k = rw (le→leb n int64_max h) refl
in_int64_lem (negsuc n) h k = rw (le→leb n int64_max (omega arith)) refl

flow_split : (a t q : ℕ) → a ≤ t → t * q ≡ a * q + (t - a) * q
flow_split a t q h =
    let e : t ≡ a + (t - a) = omega arith in
    let f : (a + (t - a)) * q ≡ a * q + (t - a) * q = omega arith in ap (λ n. n * q) e ∙ f

-- What a tick does: the bucket fills up to its capacity, and the rest stays.
abbrev pub Adjusted : Bucket → ℕ → Bucket → Type 0
Adjusted b t c =
    (c.capacity ≡ b.capacity)
    × (c.quantum ≡ b.quantum)
    × (c.fill_tick ≡ b.fill_tick)
    × (c.latest_tick ≡ t)

pub InRange-Adjusted :
    (b c : Bucket) (t u given : ℕ) → Adjusted b t c → InRange b u given → InRange c u given
InRange-Adjusted b c t u given adj fits = rw (adj.0, adj.1, adj.2) fits

-- Filling by `f` up to the capacity.
fill_parts :
    (a : ℤ) (f cap : ℕ)
    → pos_part a ≤ cap
    → let m = min_ℤ (a +ℤ pos f) (pos cap) in
      (pos_part m ≤ cap)
      × (pos_part m + neg_part a ≤ pos_part a + f + neg_part m)
      × (neg_part m ≤ neg_part a)
      × (pos_part (a +ℤ pos f) ≤ pos_part a + f)
      × (neg_part (a +ℤ pos f) ≤ neg_part a)
unfolding ◌+ℤ◌
fill_parts (pos n) f cap h = ground arith
fill_parts (negsuc n) f cap h = ground arith

-- All that has flowed in by the tick is there, or the bucket is full.
abbrev pub Fills : Bucket → ℕ → Bucket → Type 0
Fills b t c =
    let flow = (t - b.latest_tick) * b.quantum in
    (pos_part c.available ≤ b.capacity)
    × ((c.available ≡ b.available +ℤ pos flow)
        ⊎ ((c.available ≡ pos b.capacity)
            × (b.capacity + neg_part b.available ≤ pos_part b.available + flow)))

min-Fills :
    (a : ℤ) (f cap : ℕ)
    → (min_ℤ (a +ℤ pos f) (pos cap) ≡ a +ℤ pos f)
      ⊎ ((min_ℤ (a +ℤ pos f) (pos cap) ≡ pos cap) × (cap + neg_part a ≤ pos_part a + f))
min-Fills a f cap = elim (Bool-cases (ltb_ℤ (pos cap) (a +ℤ pos f))) [
  | inl over ↦
      let more = ltb→lt _ _ over in inr (rw over refl, omega (arith, more, +ℤ_parts a (pos f)))
  | inr under ↦ inl (rw under refl)
]

pub adjust-Budget :
    (b : Bucket) (t total : ℕ)
    → b.latest_tick ≤ t
    → InRange b t total
    → Budget b total
    → (c : Bucket) × (adjust b t ≡ ok c) × Adjusted b t c × Budget c total × Fills b t c
unfolding adjust
adjust-Budget b t total h fits v = elim (Bool-cases (ltb_ℤ b.available (pos b.capacity))) [
  | inl below ↦
      let filled = (t - b.latest_tick) * b.quantum in
      let split = flow_split b.latest_tick t b.quantum h in
      let parts = fill_parts b.available filled b.capacity v.full in
      let few = in_int64_lem (pos filled) (omega (arith, split, fits)) (omega arith) in
      let sum =
        in_int64_lem (b.available +ℤ pos filled) (omega (arith, split, parts, fits, v.full))
          (omega (arith, parts, fits, v.debt)) in
      (
        record b {
          latest_tick = t;
          available = min_ℤ (b.available +ℤ pos filled) (pos b.capacity);
        },
        rw (le→leb b.latest_tick t h, below, few, sum) refl,
        (refl, refl, refl, refl),
        record {
          full = parts.0;
          spent = omega (arith, parts, split, v.spent);
          flows = v.flows;
          debt = omega (arith, parts, v.debt);
        },
        (parts.0, min-Fills b.available filled b.capacity),
      )
  | inr above ↦ (
    record b { latest_tick = t },
    rw (le→leb b.latest_tick t h, above),
    (refl, refl, refl, refl),
    record {
      full = v.full;
      spent = omega (arith, flow_split b.latest_tick t b.quantum h, v.spent);
      flows = v.flows;
      debt = v.debt;
    },
    (
      v.full,
      inr (
        eq_of_parts b.available (pos b.capacity) (omega (arith, ltb→ge _ _ above, v.full)),
        omega (arith, ltb→ge _ _ above),
      ),
    ),
  )
]

-- The ticks to wait cover the debt, and one tick less would not.
pub ceil_bounds : (n q : ℕ) → 0 < q → (n ≤ ((n + q - 1) / q) * q) × (((n + q - 1) / q) * q < n + q)
ceil_bounds n q h = let m = n + q - 1 in omega (arith, div-add-mod' m q, mod-lt m h)

pub sub_parts :
    (a : ℤ) (n : ℕ)
    → let r = a -ℤ pos n in
      (pos_part r ≤ pos_part a)
      × (pos_part r + neg_part a + n ≡ neg_part r + pos_part a)
      × (neg_part r ≤ neg_part a + n)
unfolding ◌-ℤ◌
sub_parts (pos m) n = ground arith
sub_parts (negsuc m) n = ground arith

pub charged-Budget :
    (c : Bucket) (count total : ℕ)
    → Budget c total
    → Budget (record c { available = c.available -ℤ pos count }) (total + count)
charged-Budget c count total v =
    let parts = sub_parts c.available count in
    record {
      full = omega (arith, parts, v.full);
      spent = omega (arith, parts, v.spent);
      flows = v.flows;
      debt = omega (arith, parts, v.debt);
    }
