-- ===== src/Ternary/Search.antt =====
-- What `Search` returns: the words of the tree that begin with the prefix, and no others.
use eureka.Common.{
  ℕ, zero, suc, ◌≤◌, ◌<◌, ◌≡◌, ◌≢◌, refl, sym, ap, ◌∙◌, ◌⊎◌, inl, inr, Bool, false, true, ◌&&◌,
  ◌||◌, List, [], ◌∷◌, ◌++◌, some, ok, ◌==◌, arith, Option-cases, append_assoc, ==_ne, ==_iff,
}
use eureka.Ternary.Alphabet.{
  get_character_index, alphabet_length, get_character_lem, get_character_index-injective,
}
use eureka.Ternary.{Tree, null, node, find_node, search_word}
use eureka.Ternary.Words.{holds, holds_nothing}
use eureka.Ternary.Rests.{
  elem, stripped, is_nil, behind, or_assoc, stripped-or, stripped_ext, stripped_snoc,
  eq_word-stripped, or_false, stripped-and, stripped-false, with_word, elem-with_word, or_three,
}
use eureka.Ternary.Ordered.{Ordered, find_node_outside}

-- The words of a subtree, as rests behind its parent.
abbrev pub within : Tree → List ℕ → Bool
within t v = holds v false t

pub holds-mark :
    (v : List ℕ) (e : Bool) (m : Tree) → ((e && is_nil v) || holds v false m) ≡ holds v e m
unfolding holds
holds-mark [] e m = ground arith
holds-mark (d ∷ v) e m = ground arith

pub find_node-own :
    (j k : ℕ) (e : Bool) (l m r : Tree)
    → (k ≡ j → find_node (node j e l m r) k ≡ node j e l m r)
      × (k < j → find_node (node j e l m r) k ≡ find_node l k)
      × (j < k → find_node (node j e l m r) k ≡ find_node r k)
unfolding find_node
find_node-own j k e l m r = (λ h. ground arith, λ h. ground arith, λ h. ground arith)

pub trichotomy : (k j : ℕ) → (k ≡ j) ⊎ ((k < j) ⊎ (j < k))
trichotomy zero zero = inl refl
trichotomy zero (suc j) = inr (inl (omega arith))
trichotomy (suc k) zero = inr (inr (omega arith))
trichotomy (suc k) (suc j) = ground (arith, trichotomy k j)

apart_ne : (k j : ℕ) → (k < j) ⊎ (j < k) → k ≢ j
apart_ne k j (inl h) e = omega arith
apart_ne k j (inr h) e = omega arith

-- A word of a subtree begins with the node's character, or stands on the left or on the right.
within_node :
    (lo hi j ch : ℕ) (e : Bool) (l m r : Tree)
    → Ordered lo hi (node j e l m r)
    → get_character_index ch ≡ some j
    → (v : List ℕ)
    → (((behind ch (λ u. (e && is_nil u) || within m u) v) || within l v) || within r v)
      ≡ within (node j e l m r) v
unfolding holds
within_node lo hi j ch e l m r o q [] = refl
within_node lo hi j ch e l m r (lower, upper, on_left, on_right, below) q (d ∷ v) =
    elim (Option-cases (get_character_index d)) [
      | inl f ↦
          let apart : (d == ch) ≡ false = ==_ne d ch (λ h. cc (ap get_character_index h)) in
          rw (f, apart) refl
      | inr (k, f) ↦
          let own = find_node-own j k e l m r in
          let no_left = λ (h : j ≤ k). find_node_outside lo j k l on_left (inr h) in
          let no_right = λ (h : k < suc j). find_node_outside (suc j) hi k r on_right (inl h) in
          elim (trichotomy k j) [
            | inl h ↦
                let same : (d == ch) ≡ true =
                  (==_iff d ch).1 (get_character_index-injective d ch j (f ∙ ap some h) q) in
                rw (f, same, own.0 h, no_left (omega arith), no_right (omega arith))
                  (or_false _ ∙ or_false _ ∙ holds-mark v e m)
            | inr h ↦
                let ne : k ≢ j = apart_ne k j h in
                let apart : (d == ch) ≡ false =
                  ==_ne d ch (λ same. ne (cc (sym f ∙ ap get_character_index same ∙ q))) in
                elim h [
                  | inl h ↦ rw (f, apart, own.1 h, no_right (omega arith)) (or_false _)
                  | inr h ↦ rw (f, apart, own.2 h, no_left (omega arith)) refl
                ]
          ]
    ]

stripped-null : (p u : List ℕ) → stripped p u (within null) ≡ false
stripped-null p u = stripped_ext p u (within null) (λ v. false) holds_nothing ∙ stripped-false p u

-- The words that are found at a node and below it.
elem-middle :
    (e : Bool) (m : Tree) (words : List (List ℕ)) (p : List ℕ) (ch : ℕ) (u : List ℕ)
    → (elem u (with_word e words (p ++ ch ∷ [])) || stripped (p ++ ch ∷ []) u (within m))
      ≡ (elem u words || stripped p u (behind ch (λ v. (e && is_nil v) || within m v)))
elem-middle e m words p ch u =
    let q = p ++ ch ∷ [] in
    ap (λ b. b || stripped q u (within m))
      (elem-with_word e words q u
        ∙ ap (λ b. elem u words || (e && b)) (eq_word-stripped u q)
        ∙ ap (λ b. elem u words || b) (stripped-and q u e is_nil))
    ∙ or_assoc (elem u words) (stripped q u (λ v. e && is_nil v)) (stripped q u (within m))
    ∙ ap (λ b. elem u words || b)
        (stripped-or q u (λ v. e && is_nil v) (within m)
          ∙ stripped_snoc p u ch (λ v. (e && is_nil v) || within m v))

stripped-node :
    (lo hi j ch : ℕ) (e : Bool) (l m r : Tree)
    → Ordered lo hi (node j e l m r)
    → get_character_index ch ≡ some j
    → (p u : List ℕ)
    → ((stripped p u (behind ch (λ v. (e && is_nil v) || within m v)) || stripped p u (within l))
        || stripped p u (within r))
      ≡ stripped p u (within (node j e l m r))
stripped-node lo hi j ch e l m r o q p u =
    let f = behind ch (λ v. (e && is_nil v) || within m v) in
    ap (λ b. b || stripped p u (within r)) (stripped-or p u f (within l))
    ∙ stripped-or p u (λ v. f v || within l v) (within r)
    ∙ stripped_ext p u (λ v. (f v || within l v) || within r v) (within (node j e l m r))
        (within_node lo hi j ch e l m r o q)

abbrev pub Finds : Tree → List (List ℕ) → List ℕ → List ℕ → List (List ℕ) → Type 0
Finds t words seq prefix found =
    (search_word t words seq prefix ≡ ok found)
    × ((u : List ℕ) → elem u found ≡ (elem u words || stripped (prefix ++ seq) u (within t)))

pub search_word_lem :
    (lo hi : ℕ) (t : Tree) (words : List (List ℕ)) (seq prefix : List ℕ)
    → hi ≤ alphabet_length
    → Ordered lo hi t
    → (found : List (List ℕ)) × Finds t words seq prefix found
unfolding search_word
search_word_lem lo hi null words seq prefix h o = (
  words,
  (
    refl,
    λ u.
        sym
          (ap (λ b. elem u words || b) (stripped-null (prefix ++ seq) u) ∙ or_false (elem u words)),
  ),
)
search_word_lem lo hi (node j e l m r) words seq prefix h o =
    let (ch, got, back) = get_character_lem j (omega (arith, o.1)) in
    let p = prefix ++ seq in
    let path = seq ++ ch ∷ [] in
    let (w1, (q1, h1)) =
      search_word_lem 0 alphabet_length m (with_word e words (prefix ++ path)) path prefix
        (omega arith) o.4 in
    let (w2, (q2, h2)) = search_word_lem lo j l w1 seq prefix (omega (arith, o.1)) o.2 in
    let (w3, (q3, h3)) = search_word_lem (suc j) hi r w2 seq prefix h o.3 in
    let first = λ (u : List ℕ).
      h1 u
      ∙ ap (λ v. elem u (with_word e words v) || stripped v u (within m))
          (sym (append_assoc prefix seq (ch ∷ [])))
      ∙ elem-middle e m words p ch u in
    (
      w3,
      (
        rw (got, q1, q2) q3,
        λ u.
            h3 u
            ∙ ap (λ b. b || stripped p u (within r)) (h2 u)
            ∙ ap (λ b. (b || stripped p u (within l)) || stripped p u (within r)) (first u)
            ∙ or_three (elem u words) _ (stripped p u (within l)) (stripped p u (within r))
            ∙ ap (λ b. elem u words || b) (stripped-node lo hi j ch e l m r o back p u),
      ),
    )
