-- ===== src/RcString/Data.antt =====
-- RCString/src/rc_string.cpp, the class StringData: what its operations leave in the block.
use eureka.Common.{
  ℕ, zero, suc, ◌+◌, ◌*◌, ◌/◌, ◌≤◌, ◌<◌, max, ◌≡◌, refl, sym, ap, ◌∙◌, inl, inr, List, [], ◌∷◌,
  ◌++◌, length, take, set, replicate, copy_at, Option, none, some, ok, true, leb, arith, leb→le,
  Bool-cases, le→leb, leb→gt, length-take, length-copy_at, length-replicate, take-copy_at,
  take-copy_at_before, take-add, take-nil, append-nil, length-set,
}
use eureka.RcString.{
  StringData, bytes, unique, reserve, round_to_multiple, base_size, copy_to, copy_data, make_data,
  clone,
}

abbrev pub content : StringData → List ℕ
content d = take d.size (bytes d.buffer)

-- The bytes in use lie in the block, which is as large as the capacity says.
pub record Fits (d : StringData) : Type 0 where
  pub used : d.size ≤ d.capacity
  pub whole : length (bytes d.buffer) ≡ d.capacity

pub length-content : (d : StringData) → Fits d → length (content d) ≡ d.size
length-content d f = omega (arith, length-take d.size (bytes d.buffer), f.used, f.whole)

round_to_multiple-ge : (n : ℕ) → 0 < n → n ≤ round_to_multiple n base_size
unfolding round_to_multiple
round_to_multiple-ge n h = omega arith

-- A block with the count, which is at least as large as needed.
pub record Grown (d e : StringData) (n : ℕ) : Type 0 where
  pub fits : Fits e
  pub room : n ≤ e.capacity
  pub size : e.size ≡ d.size
  pub content_eq : content e ≡ content d
  pub ref_count : e.ref_count ≡ d.ref_count

-- The first bytes of a block that `str` was copied into behind n of them.
take-copy_at_behind :
    (b : List ℕ) (n : ℕ) (str : List ℕ)
    → n + length str ≤ length b
    → take (n + length str) (copy_at b n str) ≡ take n b ++ str
take-copy_at_behind b n str h =
    take-add n (length str) (copy_at b n str)
    ∙ rw (take-copy_at_before b n str, take-copy_at b n str h) refl

-- A new array that takes over what the old one has in use.
moved :
    (d : StringData) (m : ℕ)
    → Fits d
    → d.size ≤ m
    → take d.size (copy_at (replicate m 0) 0 (content d)) ≡ content d
moved d m f h =
    let e : length (content d) ≡ d.size = length-content d f in
    let r : length {A = ℕ} (replicate m 0) ≡ m = length-replicate m 0 in
    let whole = take-copy_at_behind (replicate m 0) 0 (content d) (omega (arith, e, r)) in
    ap (λ k. take k (copy_at (replicate m 0) 0 (content d))) (omega (arith, e)) ∙ whole

pub reserve-Grown : (d : StringData) (n : ℕ) → Fits d → Grown d (reserve d n) n
unfolding reserve
reserve-Grown d n f = elim (Bool-cases (leb n d.capacity)) [
  | inl enough ↦ rw enough (record {
    fits = f;
    room = leb→le _ _ enough;
    size = refl;
    content_eq = refl;
    ref_count = refl;
  })
  | inr less ↦
      let base = max (d.capacity * 3 / 2) n in
      let large : n ≤ round_to_multiple base base_size =
        let positive : 0 < base = omega (arith, leb→gt _ _ less) in
        omega (arith, round_to_multiple-ge base positive) in
      let m = round_to_multiple base base_size in
      rw less (record {
        fits = record {
          used = omega (arith, leb→gt _ _ less, f.used);
          whole = length-copy_at (replicate m 0) 0 (content d) ∙ length-replicate m 0;
        };
        room = large;
        size = refl;
        content_eq = moved d m f (omega (arith, leb→gt _ _ less, f.used));
        ref_count = refl;
      })
]

-- `CopyData` behind what is in use.
pub record Copied (d : StringData) (str : List ℕ) (e : StringData) : Type 0 where
  pub fits : Fits e
  pub content_eq : content e ≡ content d ++ str
  pub ref_count : e.ref_count ≡ d.ref_count
  pub capacity : e.capacity ≡ d.capacity

copied :
    (d : StringData) (b : Option (List ℕ)) (str : List ℕ)
    → Fits d
    → d.buffer ≡ b
    → d.size + length str ≤ d.capacity
    → (c : Option (List ℕ)) × (copy_to d.buffer d.size str ≡ ok c)
      × Copied d str (record d { buffer = c; size = max (d.size + length str) d.size })
unfolding copy_to
copied d none [] f e h = (
  none,
  rw e refl,
  record {
    fits = record {
      used = omega (arith, f.used);
      whole = ap (λ o. length (bytes o)) (sym e) ∙ f.whole;
    };
    content_eq =
        take-nil _
        ∙ sym (take-nil d.size)
        ∙ sym (append-nil _)
        ∙ ap (λ o. take d.size (bytes o) ++ []) (sym e);
    ref_count = refl;
    capacity = refl;
  },
)
copied d none (c ∷ str) f e h = absurd (omega (arith, f.whole, ap (λ o. length (bytes o)) e))
copied d (some b) str f e h =
    let whole : length b ≡ d.capacity = ap (λ o. length (bytes o)) (sym e) ∙ f.whole in
    (
      some (copy_at b d.size str),
      rw e refl,
      record {
        fits = record { used = omega (arith, f.used); whole = length-copy_at b d.size str ∙ whole };
        content_eq =
            ap (λ k. take k (copy_at b d.size str)) (omega arith)
            ∙ take-copy_at_behind b d.size str (omega (arith, whole))
            ∙ ap (λ o. take d.size (bytes o) ++ str) (sym e);
        ref_count = refl;
        capacity = refl;
      },
    )

pub copy_data-Copied :
    (d : StringData) (str : List ℕ)
    → Fits d
    → unique d ≡ true
    → d.size + length str ≤ d.capacity
    → (e : StringData) × (copy_data d str d.size ≡ ok e) × Copied d str e
unfolding copy_data
copy_data-Copied d str f u h =
    let (c, e, done) = copied d d.buffer str f refl h in
    (_, rw (u, le→leb d.size d.size (omega arith), le→leb _ _ h, e) refl, done)

pub make_data-Grown :
    (n : ℕ)
    → Grown (record { buffer = none; capacity = 0; size = 0; ref_count = 1 }) (make_data 0 n) n
unfolding make_data
make_data-Grown n = reserve-Grown _ n (record { used = omega arith; whole = refl })

pub unique-one : (d : StringData) → d.ref_count ≡ 1 → unique d ≡ true
unfolding unique
unique-one d e = rw e refl

-- A new block that was made for n bytes and has the bytes `str`.
pub record Made (n : ℕ) (str : List ℕ) (e : StringData) : Type 0 where
  pub fits : Fits e
  pub content_eq : content e ≡ str
  pub ref_count : e.ref_count ≡ 1
  pub room : n ≤ e.capacity

pub make_data-Made : (n : ℕ) → Made n [] (make_data 0 n)
make_data-Made n =
    let g = make_data-Grown n in
    record { fits = g.fits; content_eq = g.content_eq; ref_count = g.ref_count; room = g.room }

pub copy_data-Made :
    (n : ℕ) (str : List ℕ)
    → length str ≤ n
    → (e : StringData) × (copy_data (make_data 0 n) str 0 ≡ ok e) × Made n str e
copy_data-Made n str h =
    let g = make_data-Grown n in
    let new_data = make_data 0 n in
    let (e, made, c) =
      copy_data-Copied new_data str g.fits (unique-one new_data g.ref_count)
        (omega (arith, g.room, g.size)) in
    (
      e,
      ap (copy_data new_data str) (sym g.size) ∙ made,
      record {
        fits = c.fits;
        content_eq = c.content_eq ∙ ap (λ t. t ++ str) g.content_eq;
        ref_count = c.ref_count ∙ g.ref_count;
        room = omega (arith, c.capacity, g.room);
      },
    )

pub clone-Made :
    (d : StringData) (n : ℕ)
    → Fits d
    → (e : StringData) × (clone 0 d n ≡ ok e) × Made n (content d) e
unfolding clone
clone-Made d n f =
    let (e, made, c) =
      copy_data-Made (max n d.capacity) (content d) (omega (arith, length-content d f, f.used)) in
    (
      e,
      made,
      record {
        fits = c.fits;
        content_eq = c.content_eq;
        ref_count = c.ref_count;
        room = omega (arith, c.room);
      },
    )

take-set : (xs : List ℕ) (n i c : ℕ) → i < n → take n (set xs i c) ≡ set (take n xs) i c
take-set xs zero i c h = absurd (omega arith)
take-set [] (suc n) i c h = refl
take-set (x ∷ xs) (suc n) zero c h = refl
take-set (x ∷ xs) (suc n) (suc i) c h = ap (◌∷◌ x) (take-set xs n i c (omega arith))

-- A byte of the block that is in use is written.
pub put-Fits :
    (d : StringData) (pos c : ℕ)
    → Fits d
    → Fits (record d { buffer = some (set (bytes d.buffer) pos c) })
put-Fits d pos c f = record { used = f.used; whole = length-set (bytes d.buffer) pos c ∙ f.whole }

pub content-put :
    (d : StringData) (pos c : ℕ)
    → pos < d.size
    → content (record d { buffer = some (set (bytes d.buffer) pos c) }) ≡ set (content d) pos c
content-put d pos c h = take-set (bytes d.buffer) d.size pos c h
