-- ===== src/Trie/Words.antt =====
-- TrieFoDict/src/trie.cpp, `Search` and `Contains`: the words that are listed are those that are in
-- the trie, each once.
use eureka.Common.{
  Option-cases, one_if, ok, ok-injective, at, ℕ, zero, suc, ◌+◌, ◌≤◌, ◌≡◌, refl, sym, ap, ◌∙◌, ◌≢◌,
  ◌⊎◌, inl, inr, Bool, true, false, Option, none, some, List, [], ◌∷◌, ◌++◌, arith,
}
use eureka.Ternary.Alphabet.{
  get_character_index, get_character_index-injective, get_character_index-lt,
}
use eureka.Trie.{
  TrieNode, Children, end, null, child, character, last_char_of_word, children, child_at,
  contains_below, locate,
}
use eureka.Trie.Nodes.{AreSlots, NoZero, child_at-AreSlots, IsNode-parts}
use eureka.Trie.Walk.{own, spelled, suffixes}
use eureka.Trie.Listed.{
  times, times-append, times-nil, listed, times-spelled, times-spelled_other, times-absent, only_at,
  listed_at,
}

-- The words that begin with a character are those of the child at its place.
times-child :
    (cs : Children) (i pos c : ℕ) (s : List ℕ) (o : Option TrieNode)
    → AreSlots i cs
    → get_character_index c ≡ some (i + pos)
    → child_at cs pos ≡ ok o
    → times (c ∷ s) (suffixes cs) ≡ listed_at s o
unfolding AreSlots suffixes child_at
times-child end i pos c s o h e at = absurd (cc at)
times-child (null cs) i zero c s o h e at =
    let e' : get_character_index c ≡ some i = e ∙ ap some (omega arith) in
    let same : none ≡ o = ok-injective at in
    times-absent cs (suc i) c s h (λ k le. only_at c i k e' (omega arith)) ∙ ap (listed_at s) same
times-child (child n cs) i zero c s o (m, h) e at =
    let e' : get_character_index c ≡ some i = e ∙ ap some (omega arith) in
    let same : some n ≡ o = ok-injective at in
    let this = get_character_index-injective c (character n) i e' ((IsNode-parts i n m).0) in
    omega (
      arith,
      times-append (c ∷ s) (spelled n) (suffixes cs),
      times-spelled c s n this,
      times-absent cs (suc i) c s h (λ k le. only_at c i k e' (omega arith)),
      ap (listed_at s) same,
    )
times-child (null cs) i (suc pos) c s o h e at =
    times-child cs (suc i) pos c s o h (e ∙ ap some (omega arith)) at
times-child (child n cs) i (suc pos) c s o (m, h) e at =
    let e' : get_character_index c ≡ some (suc i + pos) = e ∙ ap some (omega arith) in
    let other : c ≢ character n = λ z.
      only_at (character n) i (suc i + pos) ((IsNode-parts i n m).0) (omega arith)
        (ap get_character_index (sym z) ∙ e') in
    omega (
      arith,
      times-append (c ∷ s) (spelled n) (suffixes cs),
      times-spelled_other c s n other,
      times-child cs (suc i) pos c s o h e' at,
    )

times-nil_own : (e : Bool) → times [] (own e []) ≡ one_if e
times-nil_own true = refl
times-nil_own false = refl

times-cons_own : (c : ℕ) (s : List ℕ) (e : Bool) → times (c ∷ s) (own e []) ≡ 0
times-cons_own c s true = refl
times-cons_own c s false = refl

-- A word is listed below a node once if `Contains` finds it there, and else not at all.
pub listed-contains_below :
    (s : List ℕ) (n : TrieNode)
    → NoZero s
    → AreSlots 0 (children n)
    → (b : Bool) × (contains_below s n ≡ ok b) × (listed s n ≡ one_if b)
unfolding NoZero contains_below
listed-contains_below [] n z h = (
  last_char_of_word n,
  refl,
  omega (arith, times-nil (children n), times-nil_own (last_char_of_word n)),
)
listed-contains_below (c ∷ s) n (nz, z) h =
    let not_here = times-cons_own c s (last_char_of_word n) in
    elim (Option-cases (get_character_index c)) [
      | inl missing ↦
          let nowhere : (k : ℕ) → 0 ≤ k → get_character_index c ≢ some k =
            λ k le e. let clash : none ≡ some k = sym missing ∙ e in absurd (cc clash) in
          (
            false,
            rw (missing, contains_below) refl,
            omega (arith, times-absent (children n) 0 c s h nowhere, not_here),
          )
      | inr (pos, there) ↦
          let lt = get_character_index-lt c pos nz there in
          let there' : get_character_index c ≡ some (0 + pos) = there ∙ ap some (omega arith) in
          elim (child_at-AreSlots (children n) 0 pos h (omega arith)) [
            | inl at ↦ (
              false,
              rw (there, at, contains_below) refl,
              omega (arith, times-child (children n) 0 pos c s none h there' at, not_here),
            )
            | inr (d, at, m) ↦
                let (b, e, l) = listed-contains_below s d z ((IsNode-parts (0 + pos) d m).1) in
                (
                  b,
                  rw (there, at, contains_below) e,
                  omega
                      (arith, times-child (children n) 0 pos c s (some d) h there' at, not_here, l),
                )
          ]
    ]

-- The node of a prefix, if there is one: it has the words that go on from the prefix.
pub locate-contains_below :
    (p : List ℕ) (n : TrieNode)
    → NoZero p
    → AreSlots 0 (children n)
    → ((locate p n ≡ ok none) × ((s : List ℕ) → contains_below (p ++ s) n ≡ ok false))
      ⊎ ((m : TrieNode) × (locate p n ≡ ok (some m))
          × AreSlots 0 (children m)
          × ((s : List ℕ) → contains_below (p ++ s) n ≡ contains_below s m))
unfolding NoZero contains_below locate
locate-contains_below [] n z h = inr (n, refl, h, λ s. refl)
locate-contains_below (c ∷ p) n (nz, z) h = elim (Option-cases (get_character_index c)) [
  | inl missing ↦ inl (rw (missing, locate) refl, λ s. rw (missing, contains_below) refl)
  | inr (pos, there) ↦
      let lt = get_character_index-lt c pos nz there in
      elim (child_at-AreSlots (children n) 0 pos h (omega arith)) [
        | inl at ↦ inl (rw (there, at, locate) refl, λ s. rw (there, at, contains_below) refl)
        | inr (d, at, m) ↦ elim (locate-contains_below p d z ((IsNode-parts (0 + pos) d m).1)) [
          | inl (e, f) ↦ inl (rw (there, at, locate) e, λ s. rw (there, at, contains_below) (f s))
          | inr (m', e, g, f) ↦
              inr (m', rw (there, at, locate) e, g, λ s. rw (there, at, contains_below) (f s))
        ]
      ]
]
