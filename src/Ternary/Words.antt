-- ===== src/Ternary/Words.antt =====
-- The tree as a set of words: what `Contains` answers after an `Insert`.
use native.Mathlib.Decide.{ℕ_discrete}
use eureka.Common.{==_ne}
use eureka.Common.{
  ℕ, ◌≡◌, ◌≢◌, refl, sym, ap, ◌∙◌, ◌⊎◌, inl, inr, Bool, true, false, ◌&&◌, ◌||◌, List, [], ◌∷◌,
  Option, none, some, ok, err, invalid_argument, ◌==◌, if◌then◌else◌, arith, ==_iff, Option-cases,
  leb, Bool-cases,
}
use eureka.Ternary.Alphabet.{
  get_character_index, get_character_index-injective, get_character_index-meant,
  get_character_index-other,
}
use eureka.Ternary.{
  Tree, null, node, TernaryTree, touch, mark_after, middle_after, is_valid, insert, find_node,
  contains, empty,
}

abbrev pub eq_word : List ℕ → List ℕ → Bool
eq_word [] [] = true
eq_word [] (d ∷ v) = false
eq_word (c ∷ w) [] = false
eq_word (c ∷ w) (d ∷ v) = c == d && eq_word w v

abbrev pub if_some : Option ℕ → (ℕ → Bool) → Bool
if_some none f = false
if_some (some i) f = f i

-- What a walk goes on with at a node.
abbrev pub content : Tree → Option (Bool × Tree)
content null = none
content (node i e l m r) = some (e, m)

abbrev pub if_found : Option (Bool × Tree) → (Bool → Tree → Bool) → Bool
if_found none f = false
if_found (some (e, m)) f = f e m

-- `Contains` from a node on, given by its mark and its middle child.
unfoldable pub holds : List ℕ → Bool → Tree → Bool
holds [] e m = e
holds (c ∷ v) e m =
    if_some (get_character_index c) (λ i. if_found (content (find_node m i)) (holds v))

pub Tree-cases :
    (t : Tree)
    → (t ≡ null)
      ⊎ ((i : ℕ) × (e : Bool) × (l : Tree) × (m : Tree) × (r : Tree) × (t ≡ node i e l m r))
Tree-cases null = inl refl
Tree-cases (node i e l m r) = inr (i, e, l, m, r, refl)

pub contains-holds :
    (v : List ℕ) (e : Bool) (m : Tree)
    → contains (record { end_word = e; middle = m }) v ≡ holds v e m
unfolding contains holds
contains-holds [] e m = refl
contains-holds (c ∷ v) e m = elim (Option-cases (get_character_index c)) [
  | inl q ↦ rw (q, contains)
  | inr (i, q) ↦ elim (Tree-cases (find_node m i)) [
    | inl f ↦ rw (q, f, contains)
    | inr (j, e', l, m', r, f) ↦ rw (q, f, contains) (contains-holds v e' m')
  ]
]

pub holds_nothing : (v : List ℕ) → holds v false null ≡ false
unfolding holds find_node
holds_nothing [] = refl
holds_nothing (c ∷ v) = ground arith

-- A node that is not there is created without a mark and without children.
abbrev or_new : Option (Bool × Tree) → Bool × Tree
or_new none = (false, null)
or_new (some c) = c

-- What the loop finds after a change is what was changed, at its index, and what it found before,
-- at every other.
content-touch_self :
    (mark : Bool → Bool) (grow : Tree → Tree) (t : Tree) (i : ℕ)
    → content (find_node (touch mark grow t i) i)
      ≡ some (mark (or_new (content (find_node t i))).0, grow (or_new (content (find_node t i))).1)
unfolding find_node touch
content-touch_self mark grow null i = ground arith
content-touch_self mark grow (node j e l m r) i =
    ground (arith, content-touch_self mark grow l i, content-touch_self mark grow r i)

content-touch_ne :
    (mark : Bool → Bool) (grow : Tree → Tree) (t : Tree) (i k : ℕ)
    → i ≢ k
    → content (find_node (touch mark grow t i) k) ≡ content (find_node t k)
unfolding find_node touch
content-touch_ne mark grow null i k h = ground arith
content-touch_ne mark grow (node j e l m r) i k h =
    ground (arith, content-touch_ne mark grow l i k, content-touch_ne mark grow r i k)

middle_after-none :
    (c : ℕ) (w : List ℕ) (m : Tree) → get_character_index c ≡ none → middle_after (c ∷ w) m ≡ m
unfolding middle_after
middle_after-none c w m q = rw (q, middle_after)

middle_after-some :
    (c i : ℕ) (w : List ℕ) (m : Tree)
    → get_character_index c ≡ some i
    → middle_after (c ∷ w) m ≡ touch (mark_after w) (middle_after w) m i
unfolding middle_after
middle_after-some c i w m q = rw (q, middle_after)

is_valid-none : (c : ℕ) (w : List ℕ) → get_character_index c ≡ none → is_valid (c ∷ w) ≡ false
unfolding is_valid
is_valid-none c w q = rw (q, is_valid)

is_valid-some :
    (c i : ℕ) (w : List ℕ) → get_character_index c ≡ some i → is_valid (c ∷ w) ≡ is_valid w
unfolding is_valid
is_valid-some c i w q = rw (q, is_valid)

holds-or_new :
    (o : Option (Bool × Tree)) (v : List ℕ)
    → holds v (or_new o).0 (or_new o).1 ≡ if_found o (holds v)
holds-or_new none v = holds_nothing v
holds-or_new (some (e, m)) v = refl

other_head : (valid here rest old : Bool) → here ≡ false → old ≡ ((valid && (here && rest)) || old)
other_head valid here rest old h = ground arith

-- The case of two first characters with places, the insertion's and the question's.
module _ (c d i k : ℕ) (w v : List ℕ) (m : Tree) (q : get_character_index c ≡ some i)
    (f : get_character_index d ≡ some k) where
  differ : i ≢ k → (d == c) ≡ false
  differ h = ==_ne d c (λ e. h (cc (ap get_character_index e)))

  agree : i ≡ k → (d == c) ≡ true
  agree h =
      let same = get_character_index-injective d c i (f ∙ ap some (sym h)) q in (==_iff d c).1 same

  holds-inserted_heads :
      ((e' : Bool) (m' : Tree)
        → holds v (mark_after w e') (middle_after w m')
          ≡ ((is_valid w && eq_word v w) || holds v e' m'))
      → if_found (content (find_node (touch (mark_after w) (middle_after w) m i) k)) (holds v)
        ≡ ((is_valid w && (d == c && eq_word v w)) || if_found (content (find_node m k)) (holds v))
  holds-inserted_heads ih = elim (ℕ_discrete i k) [
    | yes h ↦
        let o = content (find_node m i) in
        let after = content-touch_self (mark_after w) (middle_after w) m i in
        rw (← h, after, agree h)
          (ih (or_new o).0 (or_new o).1
            ∙ ap (λ b. (is_valid w && eq_word v w) || b) (holds-or_new o v))
    | no h ↦
        rw (content-touch_ne (mark_after w) (middle_after w) m i k h)
          (other_head (is_valid w) (d == c) (eq_word v w) _ (differ h))
  ]

-- The words from a node on after an insertion there.
holds-inserted :
    (w v : List ℕ) (e : Bool) (m : Tree)
    → holds v (mark_after w e) (middle_after w m) ≡ ((is_valid w && eq_word v w) || holds v e m)
unfolding holds mark_after
holds-inserted [] [] e m = unfold is_valid in refl
holds-inserted [] (d ∷ v) e m = unfold is_valid middle_after in refl
holds-inserted (c ∷ w) [] e m = ground (arith, other_head (is_valid (c ∷ w)) false false e refl)
holds-inserted (c ∷ w) (d ∷ v) e m = elim (Option-cases (get_character_index c)) [
  | inl q ↦ rw (middle_after-none c w m q, is_valid-none c w q)
  | inr (i, q) ↦ elim (Option-cases (get_character_index d)) [
    | inl f ↦
        let apart : (d == c) ≡ false = ==_ne d c (λ same. cc (ap get_character_index same)) in
        rw (is_valid-some c i w q, f, apart)
          (other_head (is_valid w) false (eq_word v w) false refl)
    | inr (k, f) ↦
        rw (middle_after-some c i w m q, is_valid-some c i w q, f)
          (holds-inserted_heads c d i k w v m q f (holds-inserted w v))
  ]
]

-- The characters that words are meant to have: the letters from a to z, and the dash.
abbrev pub is_meant : ℕ → Bool
is_meant c = (leb 97 c && leb c 122) || c == 45

abbrev pub all_meant : List ℕ → Bool
all_meant [] = true
all_meant (c ∷ w) = is_meant c && all_meant w

abbrev pub WithoutZero : List ℕ → Type 0
WithoutZero [] = Unit {0}
WithoutZero (c ∷ w) = (c ≢ 0) × WithoutZero w

is_valid-all_meant : (w : List ℕ) → WithoutZero w → is_valid w ≡ all_meant w
is_valid-all_meant [] h = unfold is_valid in refl
is_valid-all_meant (c ∷ w) h = elim (Bool-cases (is_meant c)) [
  | inl e ↦
      let (i, f) = get_character_index-meant c e in
      is_valid-some c i w f ∙ is_valid-all_meant w h.1 ∙ ap (λ b. b && all_meant w) (sym e)
  | inr e ↦
      is_valid-none c w (get_character_index-other c h.0 e) ∙ ap (λ b. b && all_meant w) (sym e)
]

-- For a word without a zero byte: after an insertion the tree has the word, if all its characters are
-- letters from a to z or dashes, and the words that it had before; if not, the call throws, and the
-- words are those from before.
pub contains-insert :
    (t : TernaryTree) (w v : List ℕ)
    → WithoutZero w
    → (contains (insert t w).0 v ≡ ((all_meant w && eq_word v w) || contains t v))
      × ((insert t w).1 ≡ (if all_meant w then ok tt else err invalid_argument))
unfolding insert
contains-insert t w v h =
    let same = is_valid-all_meant w h in
    (
      contains-holds v (mark_after w t.end_word) (middle_after w t.middle)
          ∙ holds-inserted w v t.end_word t.middle
          ∙ ap (λ b. (is_valid w && eq_word v w) || b) (sym (contains-holds v t.end_word t.middle))
          ∙ ap (λ b. (b && eq_word v w) || contains t v) same,
      ap (λ b. if b then ok tt else err invalid_argument) same,
    )

-- A new tree has no word.
pub contains-empty : (v : List ℕ) → contains empty v ≡ false
unfolding empty
contains-empty v = contains-holds v false null ∙ holds_nothing v
