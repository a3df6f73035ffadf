-- ===== src/Buddy/Climbing.antt =====
-- BuddyAllocator/src/bin_manager.cpp: the climbs of `Free` and `SlotCountFor`, one step at a time and
-- through a bin without a slot in use.
use eureka.Common.{
  ltb, ◌==◌, if◌then◌else◌, ltb→lt, ltb→ge, ==_ne, Bool-cases, length, get_elem?, set,
  length-get_elem?, Result, ok, ◌>>=◌, bind_follow, at, at-some, ℕ, zero, suc, ◌+◌, ◌-◌, ◌*◌, ◌%◌,
  ◌^◌, ◌≤◌, ◌<◌, max, ◌≡◌, refl, sym, ap, ◌∙◌, ◌≢◌, inl, inr, Bool, true, false, Option, none, some,
  List, arith,
}
use eureka.Buddy.{word, parent, climb, merge_up, count_up}
use eureka.Buddy.Tree.{width, raise, one-le-width, Tree, idle, taken, split, raise-suc}
use eureka.Buddy.Nodes.{left_child-below, right_child-below, parent-left, parent-right, Full}
use eureka.Buddy.Rebuilding.{write-below}

-- The size of the bin handed out that the slot p is in, or 0.
unfoldable pub bin_size : ℕ → ℕ → Tree → ℕ
bin_size k p idle = 0
bin_size k p taken = width k
bin_size zero p (split a b) = 0
bin_size (suc k) p (split a b) =
    let l = bin_size k p a in let r = bin_size k (p - width k) b in if ltb p (width k) then l else r

-- The node of the slot p of a bin.
abbrev pub leaf : ℕ → ℕ → ℕ → ℕ
leaf zero i p = i
leaf (suc k) i p =
    let l = leaf k (i * 2 + 1) p in
    let r = leaf k (i * 2 + 2) (p - width k) in if ltb p (width k) then l else r

pub leaf-place : (k i p : ℕ) → p < width k → leaf k i p + 1 ≡ (i + 1) * width k + p
leaf-place zero i p h = omega arith
leaf-place (suc k) i p h = elim (Bool-cases (ltb p (width k))) [
  | inl c ↦ rw c (grind (arith, leaf-place k (i * 2 + 1) p (ltb→lt _ _ c)))
  | inr c ↦
      let ge = ltb→ge _ _ c in
      rw c (grind (arith, leaf-place k (i * 2 + 2) (p - width k) (omega arith)))
]

word-double : (n : ℕ) → n ≤ 2 ^ 62 → n * 2 % word ≡ n * 2
word-double n h = omega arith

word-sum : (n l r : ℕ) → n ≤ 2 ^ 62 → l ≤ n → r ≤ n → (l + r) % word ≡ l + r
word-sum n l r h p q = omega arith

module _ (f i : ℕ) (v : List ℕ) (small : length v ≤ 2 ^ 62) where
  pub climb_step :
      (n x : ℕ)
      → get_elem? v i ≡ some x
      → 0 < x
      → i ≢ 0
      → n ≤ 2 ^ 62
      → climb (suc f) v n i ≡ climb f v (n * 2) (parent i)
  unfolding climb
  climb_step n x e p ne le =
      let Found : Type 0 = Result (Option (ℕ × ℕ)) in
      let further = climb f v (n * 2 % word) (parent i) in
      let at_root : Bool → Found = λ b. elim b [ true ↦ ok none | false ↦ further ] in
      let at_zero : Bool → Found =
        λ b. elim b [ true ↦ ok (some (n, i)) | false ↦ at_root (i == 0) ] in
      ap (λ r. r >>= λ y. at_zero (y == 0)) (at-some v i x e)
      ∙ ap at_zero (==_ne x 0 (λ z. omega arith))
      ∙ ap at_root (==_ne i 0 ne)
      ∙ ap (λ c. climb f v c (parent i)) (word-double n le)

  pub climb_stop : (n : ℕ) → get_elem? v i ≡ some 0 → climb (suc f) v n i ≡ ok (some (n, i))
  unfolding climb
  climb_stop n e = rw (at-some v i 0 e, climb) refl

  pub merge_step :
      (n c l r : ℕ)
      → i < length v
      → c ≢ 0
      → parent c ≡ i
      → n ≤ 2 ^ 62
      → l ≤ n
      → r ≤ n
      → get_elem? v (i * 2 + 1) ≡ some l
      → get_elem? v (i * 2 + 2) ≡ some r
      → merge_up (suc f) v n c
        ≡ merge_up f (set v i (if l + r == n * 2 then n * 2 else max l r)) (n * 2) i
  unfolding merge_up
  merge_step n c l r lt ne e le p q el er =
      rw
        (
          ==_ne c 0 ne,
          e,
          left_child-below i (omega arith),
          right_child-below i (omega arith),
          at-some v (i * 2 + 1) l el,
          at-some v (i * 2 + 2) r er,
          word-double n le,
          word-sum n l r le p q,
          write-below v i (if l + r == n * 2 then n * 2 else max l r) lt,
          merge_up,
        )
        refl

-- The climb from a slot of a bin reaches the node above the bin.
abbrev Through : ℕ → ℕ → List ℕ → Type 0
Through k i v =
    (p f : ℕ)
    → p < width k
    → climb (raise (suc k) f) v 1 (leaf k i p) ≡ climb f v (width k * 2) (parent i)

pub climb_halves :
    (k i p f : ℕ) (v : List ℕ)
    → i < 2 ^ 62
    → p < width (suc k)
    → Through k (i * 2 + 1) v
    → Through k (i * 2 + 2) v
    → climb (raise (suc k) (suc f)) v 1 (leaf (suc k) i p) ≡ climb (suc f) v (width (suc k)) i
climb_halves k i p f v bound lt l r = elim (Bool-cases (ltb p (width k))) [
  | inl c ↦
      rw c (l p (suc f) (ltb→lt _ _ c) ∙ ap (climb (suc f) v (width k * 2)) (parent-left i bound))
  | inr c ↦ rw c (
      r (p - width k) (suc f) (omega (arith, ltb→ge _ _ c))
      ∙ ap (climb (suc f) v (width k * 2)) (parent-right i bound))
]

-- A bin without a slot in use is climbed through.
pub climb-Full :
    (k i : ℕ) (v : List ℕ)
    → length v ≤ 2 ^ 62
    → width k ≤ 2 ^ 62
    → i ≢ 0
    → Full k i v
    → Through k i v
unfolding Full
climb-Full zero i v small w ne h p f lt =
    climb_step f i v small 1 1 h (omega arith) ne (omega arith)
climb-Full (suc k) i v small w ne (e, l, r) p f lt =
    ap (λ n. climb n v 1 (leaf (suc k) i p)) (sym (raise-suc (suc k) f))
    ∙ climb_halves k i p f v (omega (arith, length-get_elem? v i _ e)) lt
        (climb-Full k (i * 2 + 1) v small (omega arith) (λ z. omega arith) l)
        (climb-Full k (i * 2 + 2) v small (omega arith) (λ z. omega arith) r)
    ∙ climb_step f i v small (width (suc k)) _ e (one-le-width (suc k)) ne w

count_on :
    (b z : Bool) (n i c j : ℕ) (more : Result (Option (ℕ × ℕ))) (rest : Result ℕ)
    → (more ≡ ok (some (c, j)) → rest ≡ ok c)
    → elim b as (λ x. Result (Option (ℕ × ℕ))) [
      | true ↦ ok (some (n, i))
      | false ↦ elim z as (λ x. Result (Option (ℕ × ℕ))) [ true ↦ ok none | false ↦ more ]
    ]
      ≡ ok (some (c, j))
    → elim b as (λ x. Result ℕ) [ true ↦ ok n | false ↦ rest ] ≡ ok c
count_on true z n i c j more rest ih h = cc h
count_on false true n i c j more rest ih h = absurd (cc h)
count_on false false n i c j more rest ih h = ih h

-- The climb of `SlotCountFor` ends where that of `Free` finds a bin.
pub count_up-climb :
    (f n i c j : ℕ) (v : List ℕ) → climb f v n i ≡ ok (some (c, j)) → count_up f v n i ≡ ok c
unfolding climb count_up
count_up-climb zero n i c j v h = absurd (cc h)
count_up-climb (suc f) n i c j v h =
    bind_follow (at v i) _ _ _ _
      (λ x.
        count_on (x == 0) (i == 0) n i c j _ _ (count_up-climb f (n * 2 % word) (parent i) c j v))
      h
