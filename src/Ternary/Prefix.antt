-- ===== src/Ternary/Prefix.antt =====
-- `Search`: the walk along the prefix, and what is below the node that it ends at.
use eureka.Common.{
  ℕ, suc, ◌≡◌, refl, sym, ap, subst, ◌∙◌, ◌⊎◌, inl, inr, Bool, false, true, ◌&&◌, ◌||◌, List, [],
  ◌∷◌, none, some, ok, ◌==◌, arith, Option-cases, Bool-cases, append-nil, ==_iff,
}
use eureka.Ternary.Alphabet.{get_character_index, alphabet_length}
use eureka.Ternary.{Tree, null, node, TernaryTree, find_node, walk, contains, search}
use eureka.Ternary.Words.{holds, Tree-cases, contains-holds}
use eureka.Ternary.Ordered.{Ordered, IsOrdered, AllPlain, build, build-IsOrdered}
use eureka.Ternary.Rests.{
  elem, stripped, stripped-or, stripped_ext, stripped-and, eq_word-stripped, is_nil, with_word,
  elem-with_word,
}
use eureka.Ternary.Search.{within, holds-mark, find_node-own, trichotomy, search_word_lem}

abbrev pub starts_with : List ℕ → List ℕ → Bool
starts_with [] u = true
starts_with (c ∷ p) [] = false
starts_with (c ∷ p) (d ∷ u) = d == c && starts_with p u

-- The words of a tree.
abbrev words_of : TernaryTree → List ℕ → Bool
words_of t v = holds v t.end_word t.middle

-- Where the walk along a prefix ends.
abbrev Ends : TernaryTree → List ℕ → Type 0
Ends t p =
    ((walk p t ≡ none) × ((u : List ℕ) → (starts_with p u && words_of t u) ≡ false))
    ⊎ ((found : TernaryTree) × (walk p t ≡ some found)
        × IsOrdered found
        × ((u : List ℕ) → (starts_with p u && words_of t u) ≡ stripped p u (words_of found)))

abbrev IsOrderedBelow : Tree → Type 0
IsOrderedBelow null = Unit {0}
IsOrderedBelow (node i e l m r) = Ordered 0 alphabet_length m

find_node-IsOrderedBelow :
    (lo hi k : ℕ) (t : Tree) → Ordered lo hi t → IsOrderedBelow (find_node t k)
unfolding find_node
find_node-IsOrderedBelow lo hi k null o = tt
find_node-IsOrderedBelow lo hi k (node j e l m r) (_, _, on_left, on_right, below) =
    let own = find_node-own j k e l m r in
    elim (trichotomy k j) [
      | inl h ↦ subst IsOrderedBelow (sym (own.0 h)) below
      | inr (inl h) ↦
          subst IsOrderedBelow (sym (own.1 h)) (find_node-IsOrderedBelow lo j k l on_left)
      | inr (inr h) ↦
          subst IsOrderedBelow (sym (own.2 h)) (find_node-IsOrderedBelow (suc j) hi k r on_right)
    ]

and_false : (a : Bool) → (a && false) ≡ false
and_false a = ground arith

module _ (c : ℕ) (p : List ℕ) (t : TernaryTree) where
  -- No word begins with a character that leads nowhere.
  Ends-nowhere :
      walk (c ∷ p) t ≡ none → ((u : List ℕ) → words_of t (c ∷ u) ≡ false) → Ends t (c ∷ p)
  Ends-nowhere q h = inl (q, nothing)
    where
      nothing : (u : List ℕ) → (starts_with (c ∷ p) u && words_of t u) ≡ false
      nothing [] = refl
      nothing (d ∷ u) = elim (Bool-cases (d == c)) [
        | inl e ↦ rw ((==_iff d c).0 e, h u) (and_false _)
        | inr e ↦ rw e refl
      ]

  Ends-below :
      (below : TernaryTree)
      → walk (c ∷ p) t ≡ walk p below
      → ((u : List ℕ) → words_of t (c ∷ u) ≡ words_of below u)
      → Ends below p
      → Ends t (c ∷ p)
  Ends-below below q h (inl (none_found, nothing)) = inl (q ∙ none_found, none_here)
    where
      none_here : (u : List ℕ) → (starts_with (c ∷ p) u && words_of t u) ≡ false
      none_here [] = refl
      none_here (d ∷ u) = elim (Bool-cases (d == c)) [
        | inl e ↦ rw (e, (==_iff d c).0 e, h u) (nothing u)
        | inr e ↦ rw e refl
      ]
  Ends-below below q h (inr (found, at, o, some_words)) = inr (found, q ∙ at, o, words_here)
    where
      words_here :
          (u : List ℕ)
          → (starts_with (c ∷ p) u && words_of t u) ≡ stripped (c ∷ p) u (words_of found)
      words_here [] = refl
      words_here (d ∷ u) = elim (Bool-cases (d == c)) [
        | inl e ↦ rw (e, (==_iff d c).0 e, h u) (some_words u)
        | inr e ↦ rw e refl
      ]

walk-Ends : (p : List ℕ) (t : TernaryTree) → IsOrdered t → Ends t p
unfolding walk holds
walk-Ends [] t o = inr (t, refl, o, λ u. refl)
walk-Ends (c ∷ p) t o = elim (Option-cases (get_character_index c)) [
  | inl q ↦ Ends-nowhere c p t (rw (q, walk) refl) (λ u. rw (q, holds) refl)
  | inr (i, q) ↦ elim (Tree-cases (find_node t.middle i)) [
    | inl f ↦ Ends-nowhere c p t (rw (q, f, walk) refl) (λ u. rw (q, f, holds) refl)
    | inr (j, e, l, m, r, f) ↦
        let below : TernaryTree = record { end_word = e; middle = m } in
        Ends-below c p t below (rw (q, f, walk) refl) (λ u. rw (q, f, holds) refl)
          (walk-Ends p below
            (subst IsOrderedBelow f (find_node-IsOrderedBelow 0 alphabet_length i t.middle o)))
  ]
]

-- What a search returns, if it returns words.
abbrev FindsAll : TernaryTree → List ℕ → Type 0
FindsAll t p =
    (words : List (List ℕ)) × (search t p ≡ ok words)
    × ((u : List ℕ) → elem u words ≡ (starts_with p u && contains t u))

starts-contains :
    (t : TernaryTree) (p u : List ℕ)
    → (starts_with p u && words_of t u) ≡ (starts_with p u && contains t u)
starts-contains t p u = ap (λ b. starts_with p u && b) (sym (contains-holds u t.end_word t.middle))

-- The words below the node that the walk ends at.
elem-found :
    (found : TernaryTree) (p u : List ℕ)
    → (elem u (with_word found.end_word [] p) || stripped p u (within found.middle))
      ≡ stripped p u (words_of found)
elem-found found p u =
    let e = found.end_word in
    let m = found.middle in
    ap (λ b. b || stripped p u (within m))
      (elem-with_word e [] p u
        ∙ ap (λ b. e && b) (eq_word-stripped u p)
        ∙ stripped-and p u e is_nil)
    ∙ stripped-or p u (λ v. e && is_nil v) (within m)
    ∙ stripped_ext p u (λ v. (e && is_nil v) || within m v) (words_of found) (λ v. holds-mark v e m)

search-FindsAll : (t : TernaryTree) (p : List ℕ) → IsOrdered t → FindsAll t p
unfolding search
search-FindsAll t p o = elim (walk-Ends p t o) [
  | inl (q, nothing) ↦ ([], rw (q, search) refl, λ u. sym (nothing u) ∙ starts-contains t p u)
  | inr (found, q, ordered, some_words) ↦
      let start = with_word found.end_word [] p in
      let (words, (r, h)) =
        search_word_lem 0 alphabet_length found.middle start [] p (omega arith) ordered in
      (
        words,
        rw (q, search) r,
        λ u.
            h u
            ∙ ap (λ v. elem u start || stripped v u (within found.middle)) (append-nil p)
            ∙ elem-found found p u
            ∙ sym (some_words u)
            ∙ starts-contains t p u,
      )
]

-- In a tree made by insertions of words without a zero byte, a search for a prefix returns, and the
-- words that it returns are those that begin with the prefix and that `Contains` has.
pub search-build :
    (ws : List (List ℕ)) (p : List ℕ)
    → AllPlain ws
    → (words : List (List ℕ)) × (search (build ws) p ≡ ok words)
      × ((u : List ℕ) → elem u words ≡ (starts_with p u && contains (build ws) u))
search-build ws p plain = search-FindsAll (build ws) p (build-IsOrdered ws plain)
