-- ===== src/Buffer/Iterator.antt =====
-- The random-access iterator of NetworkInfra/src/buffer.h: a place in a block of bytes, as an offset,
-- with the compound and the free operators. A distance has a sign; a place outside the block, the
-- one behind its last byte excepted, is undefined.
use eureka.Common.{
  ℕ, ◌+◌, ◌-◌, ◌≤◌, ◌≡◌, ◌≢◌, refl, Bool, not, leb, if◌then◌else◌, Result, ok, err, undefined,
  ◌>>=◌, arith, le→leb,
}
use eureka.Common.Int.{
  ℤ, pos, negsuc, pos_part, neg_part, ◌+ℤ◌, ◌-ℤ◌, ltb_ℤ, +ℤ_parts, -ℤ_parts, eq_of_parts,
}

pub record Iterator : Type 0 where
  pub ptr : ℕ

-- A place in a block of `size` bytes.
abbrev pub place : ℕ → ℤ → Result Iterator
place size (pos p) = if leb p size then ok (record { ptr = p }) else err undefined
place size (negsuc p) = err undefined

-- `it += n` and `it -= n`.
abbrev pub advance : ℕ → Iterator → ℤ → Result Iterator
advance size it n = place size (pos it.ptr +ℤ n)

abbrev pub retreat : ℕ → Iterator → ℤ → Result Iterator
retreat size it n = place size (pos it.ptr -ℤ n)

-- `it + n`: the copy is advanced, and returned.
unfoldable pub plus : ℕ → Iterator → ℤ → Result Iterator
plus size it n = do let temp = it; advanced ← advance size temp n; ok advanced

-- `it - n`: the copy is returned, and the parameter is moved back.
unfoldable pub minus : ℕ → Iterator → ℤ → Result Iterator
minus size it n = do let temp = it; moved ← retreat size it n; ok temp

-- `lhs - rhs` of two iterators, and the tests made from it.
abbrev pub difference : Iterator → Iterator → ℤ
difference lhs rhs = pos lhs.ptr -ℤ pos rhs.ptr

unfoldable pub less : Iterator → Iterator → Bool
less lhs rhs = ltb_ℤ (pos 0) (difference rhs lhs)

unfoldable pub greater : Iterator → Iterator → Bool
unfolding less
greater lhs rhs = less rhs lhs

unfoldable pub less_equal : Iterator → Iterator → Bool
unfolding greater
less_equal lhs rhs = not (greater lhs rhs)

place_lem : (size p : ℕ) (z : ℤ) → z ≡ pos p → p ≤ size → place size z ≡ ok (record { ptr = p })
place_lem size p z e h = rw (e, le→leb p size h) refl

-- A distance that leads from one place of the block to another.
Leads : Iterator → ℤ → Iterator → Type 0
Leads a n b = a.ptr + pos_part n ≡ b.ptr + neg_part n

advance-Leads :
    (size : ℕ) (a b : Iterator) (n : ℤ) → Leads a n b → b.ptr ≤ size → advance size a n ≡ ok b
unfolding Leads
advance-Leads size a b n to h =
    let at_b =
      eq_of_parts (pos a.ptr +ℤ n) (pos b.ptr) (omega (arith, +ℤ_parts (pos a.ptr) n, to)) in
    place_lem size b.ptr (pos a.ptr +ℤ n) at_b h

retreat-Leads :
    (size : ℕ) (a b : Iterator) (n : ℤ) → Leads a n b → a.ptr ≤ size → retreat size b n ≡ ok a
unfolding Leads
retreat-Leads size a b n to h =
    let at_a =
      eq_of_parts (pos b.ptr -ℤ n) (pos a.ptr) (omega (arith, -ℤ_parts (pos b.ptr) n, to)) in
    place_lem size a.ptr (pos b.ptr -ℤ n) at_a h

tests-Leads :
    (a b : Iterator) (n : ℤ)
    → Leads a n b
    → (greater b a ≡ ltb_ℤ (pos 0) n) × (less b a ≡ ltb_ℤ n (pos 0))
unfolding greater less ◌-ℤ◌ Leads
tests-Leads a b (pos n) to = (ground arith, ground arith)
tests-Leads a b (negsuc n) to = (ground arith, ground arith)

target : (a : Iterator) (n : ℤ) → neg_part n ≤ a.ptr → (b : Iterator) × Leads a n b
unfolding Leads
target a n h = (record { ptr = a.ptr + pos_part n - neg_part n }, omega arith)

-- For a place in the block and a distance but 0 that leads to a place in the block: moving back by the
-- free operator does not undo moving on by it. The result of `(it + n) - n` is the place `it + n`,
-- which is behind `it` for a positive distance, before it for a negative one, and never `it`.
pub minus-plus-greater :
    (size : ℕ) (it : Iterator) (n : ℤ)
    → it.ptr ≤ size
    → neg_part n ≤ it.ptr
    → it.ptr + pos_part n ≤ size + neg_part n
    → n ≢ pos 0
    → (there : Iterator) × ((plus size it n >>= (λ moved. minus size moved n)) ≡ ok there)
      × (plus size it n ≡ ok there)
      × (greater there it ≡ ltb_ℤ (pos 0) n)
      × (less there it ≡ ltb_ℤ n (pos 0))
      × (there.ptr ≢ it.ptr)
unfolding plus minus Leads
minus-plus-greater size it n here low high some_way =
    let (there, to) = target it n low in
    let moved = advance-Leads size it there n to (omega (arith, to, high)) in
    (
      there,
      rw (moved, retreat-Leads size it there n to here) refl,
      rw moved refl,
      (tests-Leads it there n to).0,
      (tests-Leads it there n to).1,
      λ e. some_way (eq_of_parts n (pos 0) (omega (arith, to, e))),
    )
