-- ===== src/Trie/Walk.antt =====
-- TrieFoDict/src/trie.cpp, the loop of `Search`: the stack against a listing by recursion.
use eureka.Common.{
  if◌then◌else◌, Result, ℕ, zero, suc, ◌+◌, ◌≡◌, refl, sym, ap, ◌∙◌, Bool, true, false, none, some,
  List, [], ◌∷◌, ◌++◌, append_assoc, append-nil, arith,
}
use eureka.Trie.{
  TrieNode, node, Children, end, null, child, last_char_of_word, children, Entry, next_child,
  characters_of, process, rounds_of,
}

-- Words behind a common beginning.
abbrev pub under : List ℕ → List (List ℕ) → List (List ℕ)
under w [] = []
under w (s ∷ ss) = (w ++ s) ∷ under w ss

abbrev pub own : Bool → List ℕ → List (List ℕ)
own true w = w ∷ []
own false w = []

-- What the nodes among the children, and below them, spell.
unfoldable mutual
  pub spelled : TrieNode → List (List ℕ)
  spelled (node ch e cs) = under (ch ∷ []) (suffixes cs) ++ own e (ch ∷ [])

  pub suffixes : Children → List (List ℕ)
  suffixes end = []
  suffixes (null cs) = suffixes cs
  suffixes (child c cs) = spelled c ++ suffixes cs

pub under-append :
    (w : List ℕ) (xs ys : List (List ℕ)) → under w (xs ++ ys) ≡ under w xs ++ under w ys
under-append w [] ys = refl
under-append w (x ∷ xs) ys = ap (λ l. (w ++ x) ∷ l) (under-append w xs ys)

under-under : (v w : List ℕ) (xs : List (List ℕ)) → under v (under w xs) ≡ under (v ++ w) xs
under-under v w [] = refl
under-under v w (x ∷ xs) =
    ap (λ y. y ∷ under v (under w xs)) (sym (append_assoc v w x))
    ∙ ap (λ l. ((v ++ w) ++ x) ∷ l) (under-under v w xs)

pub under-own : (v w : List ℕ) (e : Bool) → under v (own e w) ≡ own e (v ++ w)
under-own v w true = refl
under-own v w false = refl

-- The word of a stack does not depend on the place in the children of its back.
characters_of-back :
    (n : TrieNode) (cs ds : Children) (below : List Entry)
    → characters_of ((n, cs) ∷ below) ≡ characters_of ((n, ds) ∷ below)
unfolding characters_of
characters_of-back n cs ds [] = refl
characters_of-back n cs ds (e ∷ below) = refl

marked_or_not :
    (b : Bool) (w : List ℕ) (words : List (List ℕ))
    → (if b then words ++ (w ∷ []) else words) ≡ words ++ own b w
marked_or_not true w words = refl
marked_or_not false w words = sym (append-nil words)

module _ (prefix : List ℕ) where
  process-null :
      (fuel : ℕ) (n : TrieNode) (cs : Children) (below : List Entry) (words : List (List ℕ))
      → process fuel prefix ((n, null cs) ∷ below) words
        ≡ process fuel prefix ((n, cs) ∷ below) words
  unfolding process next_child
  process-null zero n cs below words = refl
  process-null (suc fuel) n cs below words =
      let go : List ℕ → Result (List (List ℕ)) = λ x. elim (next_child cs) [
        | some (c, later) ↦ process fuel prefix ((c, children c) ∷ (n, later) ∷ below) words
        | none ↦
            process fuel prefix below
              (if last_char_of_word n then words ++ ((prefix ++ x) ∷ []) else words)
      ] in
      ap go (characters_of-back n (null cs) cs below)

  process-end :
      (fuel : ℕ) (n : TrieNode) (below : List Entry) (words : List (List ℕ))
      → process (suc fuel) prefix ((n, end) ∷ below) words
        ≡ process fuel prefix below
            (words ++ own (last_char_of_word n) (prefix ++ characters_of ((n, end) ∷ below)))
  unfolding process next_child
  process-end fuel n below words =
      ap (process fuel prefix below)
        (marked_or_not (last_char_of_word n) (prefix ++ characters_of ((n, end) ∷ below)) words)

  -- What is found from the children on, for a node on the back of the stack.
  abbrev pub found : TrieNode → Children → List Entry → List (List ℕ)
  found n cs below =
      let w = prefix ++ characters_of ((n, end) ∷ below) in
      under w (suffixes cs) ++ own (last_char_of_word n) w

  process-push :
      (fuel : ℕ) (n c : TrieNode) (cs : Children) (below : List Entry) (words : List (List ℕ))
      → process (suc fuel) prefix ((n, child c cs) ∷ below) words
        ≡ process fuel prefix ((c, children c) ∷ (n, cs) ∷ below) words
  unfolding process next_child
  process-push fuel n c cs below words = refl

  -- The words of a child, and then those of the children behind it.
  found-child :
      (n : TrieNode) (ch : ℕ) (e : Bool) (ds cs : Children) (below : List Entry)
      → found (node ch e ds) ds ((n, cs) ∷ below) ++ found n cs below
        ≡ found n (child (node ch e ds) cs) below
  unfolding characters_of spelled suffixes
  found-child n ch e ds cs below =
      let w = prefix ++ characters_of ((n, end) ∷ below) in
      let inner = under (ch ∷ []) (suffixes ds) in
      let c : Entry = (node ch e ds, end) in
      let longer : prefix ++ characters_of (c ∷ (n, cs) ∷ below) ≡ w ++ (ch ∷ []) =
        sym (append_assoc prefix (characters_of ((n, cs) ∷ below)) (ch ∷ []))
        ∙ ap (λ x. (prefix ++ x) ++ (ch ∷ [])) (characters_of-back n cs end below) in
      let rest = own (last_char_of_word n) w in
      let spelt : under w (spelled (node ch e ds))
          ≡ under (w ++ (ch ∷ [])) (suffixes ds) ++ own e (w ++ (ch ∷ [])) =
        under-append w inner (own e (ch ∷ []))
        ∙ ap (λ l. l ++ under w (own e (ch ∷ []))) (under-under w (ch ∷ []) (suffixes ds))
        ∙ ap (λ l. under (w ++ (ch ∷ [])) (suffixes ds) ++ l) (under-own w (ch ∷ []) e) in
      ap (λ x. (under x (suffixes ds) ++ own e x) ++ (under w (suffixes cs) ++ rest)) longer
      ∙ ap (λ l. l ++ (under w (suffixes cs) ++ rest)) (sym spelt)
      ∙ sym (append_assoc (under w (spelled (node ch e ds))) (under w (suffixes cs)) rest)
      ∙ ap (λ l. l ++ rest) (sym (under-append w (spelled (node ch e ds)) (suffixes cs)))

  -- The loop lists what is found below the back of the stack, and pops it.
  pub process-found :
      (cs : Children) (fuel : ℕ) (n : TrieNode) (below : List Entry) (words : List (List ℕ))
      → process (rounds_of cs + suc fuel) prefix ((n, cs) ∷ below) words
        ≡ process fuel prefix below (words ++ found n cs below)
  unfolding rounds_of suffixes
  process-found end fuel n below words =
      let f : 0 + suc fuel ≡ suc fuel = omega arith in
      ap (λ k. process k prefix ((n, end) ∷ below) words) f ∙ process-end fuel n below words
  process-found (null cs) fuel n below words =
      process-null (rounds_of cs + suc fuel) n cs below words ∙ process-found cs fuel n below words
  process-found (child (node ch e ds) cs) fuel n below words =
      let f : suc (suc (rounds_of ds) + rounds_of cs) + suc fuel
          ≡ suc (rounds_of ds + suc (rounds_of cs + suc fuel)) =
        omega arith in
      let c = node ch e ds in
      ap (λ k. process k prefix ((n, child c cs) ∷ below) words) f
      ∙ process-push (rounds_of ds + suc (rounds_of cs + suc fuel)) n c cs below words
      ∙ process-found ds (rounds_of cs + suc fuel) c ((n, cs) ∷ below) words
      ∙ process-found cs fuel n below (words ++ found c ds ((n, cs) ∷ below))
      ∙ ap (process fuel prefix below) (
          append_assoc words (found c ds ((n, cs) ∷ below)) (found n cs below)
          ∙ ap (λ l. words ++ l) (found-child n ch e ds cs below))
