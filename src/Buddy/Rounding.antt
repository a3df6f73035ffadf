-- ===== src/Buddy/Rounding.antt =====
-- BuddyAllocator/src/buddy_util.h, `NearestUpperPowerOf2`: the loop that fills a number with ones.
use eureka.Common.{
  ℕ, zero, suc, ◌+◌, ◌-◌, ◌*◌, ◌/◌, ◌%◌, ◌^◌, ◌≤◌, ◌<◌, max, ◌≡◌, refl, sym, ap, subst, ◌∙◌, arith,
}
use native.Mathlib.Decide.{dec_le}
use Prim.Native.Nat.{bit_or, bit_or-bitwise}
use eureka.Buddy.{word, spread, smear, nearest_upper_power_of_2}
use eureka.Buddy.Tree.{width, raise, raise-add, one-le-width}
use eureka.Buddy.Digits.{bit_or_step}

-- Digit j of a number.
abbrev digit : ℕ → ℕ → ℕ
digit zero x = x % 2
digit (suc j) x = digit j (x / 2)

digit-bit_or : (j a b : ℕ) → digit j (bit_or a b) ≡ max (digit j a) (digit j b)
digit-bit_or zero a b = omega (arith, bit_or_step a b)
digit-bit_or (suc j) a b =
    let h : bit_or a b / 2 ≡ bit_or (a / 2) (b / 2) = omega (arith, bit_or_step a b) in
    ap (digit j) h ∙ digit-bit_or j (a / 2) (b / 2)

bit_or-below : (k a b : ℕ) → a < width k → b < width k → bit_or a b < width k
bit_or-below zero a b p q =
    let e : 0 ≡ a = omega arith in subst (λ x. bit_or x b < 1) e (omega (arith, bit_or-bitwise 0 b))
bit_or-below (suc k) a b p q =
    omega (arith, bit_or_step a b, bit_or-below k (a / 2) (b / 2) (omega arith) (omega arith))

-- Halved s times.
abbrev shifted : ℕ → ℕ → ℕ
shifted zero x = x
shifted (suc s) x = shifted s (x / 2)

shifted-le : (s x : ℕ) → shifted s x ≤ x
shifted-le zero x = omega arith
shifted-le (suc s) x = omega (arith, shifted-le s (x / 2))

digit-shifted : (s j x : ℕ) → digit j (shifted s x) ≡ digit (raise s j) x
digit-shifted zero j x = refl
digit-shifted (suc s) j x = digit-shifted s j (x / 2)

digit-le : (j x : ℕ) → digit j x ≤ 1
digit-le zero x = omega arith
digit-le (suc j) x = digit-le j (x / 2)

-- A number of k + 1 digits whose first w digits are ones.
Ones : ℕ → ℕ → ℕ → Type 0
Ones w k x = (x < width (suc k)) × ((j : ℕ) → j ≤ k → k < j + w → digit j x ≡ 1)

doubled :
    (w k x j : ℕ)
    → j ≤ k
    → k < j + (w + w)
    → ((j : ℕ) → j ≤ k → k < j + w → digit j x ≡ 1)
    → digit j (bit_or x (shifted w x)) ≡ 1
doubled w k x j le lt ones =
    let d = digit-bit_or j x (shifted w x) in
    let e = digit-shifted w j x in
    let p = digit-le j x in
    let q = digit-le j (shifted w x) in
    elim (dec_le (raise w j) k) [
      | yes h ↦ let one = ones (raise w j) h (omega (arith, raise-add w j)) in omega arith
      | no h ↦ let one = ones j le (omega (arith, raise-add w j)) in omega arith
    ]

-- One step of the loop doubles the ones.
Ones-double : (w k x : ℕ) → x / 2 ^ w ≡ shifted w x → Ones w k x → Ones (w + w) k (spread w x)
unfolding Ones spread
Ones-double w k x e (small, ones) =
    rw (e, spread)
      (
        bit_or-below (suc k) x (shifted w x) small (omega (arith, shifted-le w x)),
        λ j le lt. doubled w k x j le lt ones,
      )

top_digit : (k x : ℕ) → width k ≤ x → x < width (suc k) → digit k x ≡ 1
top_digit zero x p q = omega arith
top_digit (suc k) x p q = top_digit k (x / 2) (omega arith) (omega arith)

all_ones : (k x : ℕ) → x < width (suc k) → ((j : ℕ) → j ≤ k → digit j x ≡ 1) → x + 1 ≡ width (suc k)
all_ones zero x small h = omega (arith, h 0 (omega arith))
all_ones (suc k) x small h =
    omega
      (arith, h 0 (omega arith), all_ones k (x / 2) (omega arith) (λ j le. h (suc j) (omega arith)))

top_of : (n x : ℕ) → 1 ≤ x → x < width n → (k : ℕ) × (k < n) × (width k ≤ x) × (x < width (suc k))
top_of zero x p q = absurd (omega arith)
top_of (suc n) x p q = elim (dec_le (width n) x) [
  | yes h ↦ (n, omega arith, h, q)
  | no h ↦ let (k, lt, lo, hi) = top_of n x p (omega arith) in (k, omega arith, lo, hi)
]

smear-ones : (k x : ℕ) → k < 32 → width k ≤ x → x < width (suc k) → smear x + 1 ≡ width (suc k)
unfolding smear Ones
smear-ones k x lt lo hi =
    let a : Ones 1 k x = (
      hi,
      λ j le h. let e : k ≡ j = omega arith in subst (λ j'. digit j' x ≡ 1) e (top_digit k x lo hi),
    ) in
    let b = Ones-double 1 k x (omega arith) a in
    let c = Ones-double 2 k (spread 1 x) (omega arith) b in
    let d = Ones-double 4 k (spread 2 (spread 1 x)) (omega arith) c in
    let e = Ones-double 8 k (spread 4 (spread 2 (spread 1 x))) (omega arith) d in
    let f = Ones-double 16 k (spread 8 (spread 4 (spread 2 (spread 1 x)))) (omega arith) e in
    all_ones k (smear x) (f.0) (λ j le. f.1 j le (omega arith))

width_le : (k n : ℕ) → k ≤ n → width k ≤ width n
width_le zero n h = one-le-width n
width_le (suc k) zero h = absurd (omega arith)
width_le (suc k) (suc n) h = omega (arith, width_le k n (omega arith))

-- For 1 up to 2 ^ 32 slots the result is the least power of 2 that is large enough.
pub record LeastPower (number power : ℕ) : Type 0 where
  pub level : ℕ
  pub is_width : power ≡ width level
  pub enough : number ≤ power
  pub least : power < number * 2
  pub level_le : level ≤ 32

LeastPower-one : LeastPower 1 (nearest_upper_power_of_2 1)
unfolding nearest_upper_power_of_2 smear spread
LeastPower-one = record {
  level = 0;
  is_width = refl;
  enough = omega arith;
  least = omega arith;
  level_le = omega arith;
}

pub nearest_upper_power_of_2-LeastPower :
    (number : ℕ)
    → 1 ≤ number
    → number ≤ 2 ^ 32
    → LeastPower number (nearest_upper_power_of_2 number)
unfolding nearest_upper_power_of_2
nearest_upper_power_of_2-LeastPower number lo hi =
    let x = number - 1 in
    let e : (number + (word - 1)) % word ≡ x = omega arith in
    elim (dec_le number 1) [
      | yes h ↦
          let one : number ≡ 1 = omega arith in
          subst (λ n. LeastPower n ((smear ((n + (word - 1)) % word) + 1) % word)) (sym one)
            LeastPower-one
      | no h ↦
          let (k, lt, p, q) = top_of 32 x (omega arith) (omega arith) in
          let s = smear-ones k x lt p q in
          let w = width_le k 31 (omega arith) in
          let f : (smear x + 1) % word ≡ width (suc k) = omega arith in
          rw e record {
            level = suc k;
            is_width = f;
            enough = omega arith;
            least = omega arith;
            level_le = omega arith;
          }
    ]
