-- ===== src/Backoff/Jitter.antt =====
-- The policies that draw their delays.
use eureka.Common.{
  ℕ, zero, suc, ◌+◌, ◌*◌, ◌≤◌, ◌<◌, ◌≡◌, refl, ap, ◌⊎◌, inl, inr, min, List, [], ◌∷◌, Result, ok,
  err, undefined, ◌>>=◌, ◌==◌, if◌then◌else◌, arith, le→leb, not_leb, ==_ne, true, false, length,
}
use eureka.Backoff.{
  Random, Policy, exponential_full_jitter, exponential_decorrelated_jitter, Backoff, next_delay,
  apply, exponential_delay, duration_max, make_exponential_decorrelated_jitter, make,
}
use eureka.Backoff.Delays.{delays, delays_after}
use eureka.Common.Int.{pos}

module _ (random : Random) where
  open random use {Engine, draw, draw_in_range}

  -- A delay with full jitter lies between 0 and the delay of the exponential policy, and the bound.
  pub apply-exponential_full_jitter_bounds :
      (e : Engine) (base done_retries max_dur dur delay : ℕ) (policy : Policy) (e' : Engine)
      → exponential_delay base done_retries max_dur ≡ ok (pos dur)
      → apply random (exponential_full_jitter max_dur) e base done_retries ≡ ok (delay, policy, e')
      → (delay ≤ dur) × (dur ≤ max_dur) × (policy ≡ exponential_full_jitter max_dur)
  unfolding apply
  apply-exponential_full_jitter_bounds e base done_retries max_dur dur delay policy e' plan drawn =
      ground (arith, draw_in_range e 0 dur (omega arith))

  -- What the policy with decorrelated jitter remembers, while it is used with a base in range.
  abbrev pub Remembers : ℕ → ℕ → ℕ → Type 0
  Remembers base max_dur last = (last ≡ 0) ⊎ ((base ≤ last) × (last ≤ max_dur))

  -- One delay: it stays between the base and the bound, and the policy can go on.
  abbrev pub Drawn : ℕ → ℕ → ℕ × Policy × Engine → Type 0
  Drawn base max_dur (delay, policy, e) =
      (base ≤ delay)
      × (delay ≤ max_dur)
      × ((last : ℕ) × (policy ≡ exponential_decorrelated_jitter max_dur last)
          × Remembers base max_dur last)

  pub apply-exponential_decorrelated_jitter_lem :
      (e : Engine) (base done_retries max_dur last : ℕ)
      → base ≤ max_dur
      → max_dur * 3 ≤ duration_max
      → Remembers base max_dur last
      → (r : ℕ × Policy × Engine) × (apply random
            (exponential_decorrelated_jitter max_dur last)
            e
            base
            done_retries
          ≡ ok r)
        × Drawn base max_dur r
  unfolding apply
  apply-exponential_decorrelated_jitter_lem e base done_retries max_dur last h fits memory =
      let from : ℕ = if last == 0 then base else last in
      let low : base ≤ from = ground arith in
      let high : from ≤ max_dur = ground arith in
      let bound = from * 3 in
      let range = draw_in_range e base bound (omega arith) in
      let (drawn, e') = draw e base bound in
      (
        (min drawn max_dur, exponential_decorrelated_jitter max_dur (min drawn max_dur), e'),
        rw (le→leb bound duration_max (omega arith), le→leb base bound (omega arith)),
        (omega arith, omega arith, (min drawn max_dur, refl, inr (omega arith, omega arith))),
      )

  -- A bound below a third of the base: the first delay is the bound, and the second draw is from a
  -- range that is upside down.
  pub apply_twice-undefined :
      (e : Engine) (base done_retries max_dur : ℕ)
      → 0 < max_dur
      → max_dur * 3 < base
      → base * 3 ≤ duration_max
      → (apply random (exponential_decorrelated_jitter max_dur 0) e base done_retries
          >>= (λ r. apply random r.1 r.2 base (done_retries + 1)))
        ≡ err undefined
  unfolding apply
  apply_twice-undefined e base done_retries max_dur some_room h fits =
      let range = draw_in_range e base (base * 3) (omega arith) in
      let cut : min (draw e base (base * 3)).0 max_dur ≡ max_dur = omega arith in
      rw (
        le→leb (base * 3) duration_max fits,
        le→leb base (base * 3) (omega arith),
        cut,
        ==_ne max_dur 0 (omega arith),
        le→leb (max_dur * 3) duration_max (omega arith),
        not_leb base (max_dur * 3) h,
      )

  abbrev pub AllWithin : ℕ → ℕ → List ℕ → Type 0
  AllWithin lo hi [] = Unit {0}
  AllWithin lo hi (d ∷ ds) = (lo ≤ d) × (d ≤ hi) × AllWithin lo hi ds

  abbrev pub Plans : ℕ → ℕ → ℕ → Result (List ℕ) → Type 0
  Plans lo hi n r = (ds : List ℕ) × (r ≡ ok ds) × (length ds ≡ n) × AllWithin lo hi ds

  decorrelated_delays :
      (left fuel last : ℕ) (b : Backoff random)
      → left < fuel
      → b.done_retries + left ≡ b.max_retries
      → (max_dur : ℕ) → b.base ≤ max_dur
      → max_dur * 3 ≤ duration_max
      → b.policy ≡ exponential_decorrelated_jitter max_dur last
      → Remembers b.base max_dur last
      → Plans b.base max_dur left (delays random fuel b)
  unfolding delays next_delay delays_after
  decorrelated_delays left zero last b enough rounds max_dur h fits same memory =
      absurd (omega arith)
  decorrelated_delays zero (suc fuel) last b enough rounds max_dur h fits same memory =
      let over : (b.done_retries == b.max_retries) ≡ true = ground arith in ([], rw over, refl, tt)
  decorrelated_delays (suc left) (suc fuel) last b enough rounds max_dur h fits same memory =
      let more : (b.done_retries == b.max_retries) ≡ false = ground arith in
      let ((delay, policy, e'), done, (low, high, (last', same', memory'))) =
        apply-exponential_decorrelated_jitter_lem b.engine b.base b.done_retries max_dur last h fits
          memory in
      let b' : Backoff random = record b {
        policy = policy;
        engine = e';
        done_retries = b.done_retries + 1;
      } in
      let (ds, rest, size, within) =
        decorrelated_delays left fuel last' b' (omega arith) (omega arith) max_dur h fits same'
          memory' in
      (delay ∷ ds, rw (more, same, done, rest), ap suc size, (low, high, within))

  -- With a base within the bound the policy never fails: each retry has a delay from the base up to
  -- the bound.
  pub delays-make_exponential_decorrelated_jitter :
      (e : Engine) (base max_retries max_delay fuel : ℕ)
      → max_retries < fuel
      → base ≤ max_delay
      → max_delay * 3 ≤ duration_max
      → Plans base max_delay max_retries (
          delays random fuel
            (make_exponential_decorrelated_jitter random e base max_retries max_delay))
  unfolding make_exponential_decorrelated_jitter
  delays-make_exponential_decorrelated_jitter e base max_retries max_delay fuel enough h fits =
      decorrelated_delays max_retries fuel 0
        (make random (exponential_decorrelated_jitter max_delay 0) e base max_retries) enough
        (omega arith) max_delay h fits refl (inl refl)
