-- ===== src/Trie/Listed.antt =====
-- How often a word is among the words that the nodes of a dictionary spell.
use eureka.Common.{
  ==_refl, ==_ne, one_if, ℕ, suc, ◌+◌, ◌≤◌, ◌<◌, ◌≡◌, refl, sym, ap, subst, ◌∙◌, ◌≢◌, Bool, true,
  false, Option, none, some, List, [], ◌∷◌, ◌++◌, arith,
}
use eureka.Hashids.{eq_string}
use eureka.Ternary.Alphabet.{get_character_index}
use eureka.Trie.{TrieNode, node, Children, end, null, child, character, last_char_of_word, children}
use eureka.Trie.Nodes.{AreSlots, IsNode-parts}
use eureka.Trie.Walk.{under, own, spelled, suffixes}

-- The number of times that a word is listed.
abbrev pub times : List ℕ → List (List ℕ) → ℕ
times w [] = 0
times w (x ∷ xs) = one_if (eq_string w x) + times w xs

pub times-append :
    (w : List ℕ) (xs ys : List (List ℕ)) → times w (xs ++ ys) ≡ times w xs + times w ys
times-append w [] ys = omega arith
times-append w (x ∷ xs) ys = omega (arith, times-append w xs ys)

eq_string-append : (p s t : List ℕ) → eq_string (p ++ s) (p ++ t) ≡ eq_string s t
eq_string-append [] s t = refl
eq_string-append (c ∷ p) s t = rw (==_refl c) (eq_string-append p s t)

pub times-under : (p s : List ℕ) (xs : List (List ℕ)) → times (p ++ s) (under p xs) ≡ times s xs
times-under p s [] = refl
times-under p s (x ∷ xs) = rw (eq_string-append p s x, times-under p s xs) refl

-- Behind another first character nothing is found.
times-other :
    (c d : ℕ) (s : List ℕ) (xs : List (List ℕ)) → c ≢ d → times (c ∷ s) (under (d ∷ []) xs) ≡ 0
times-other c d s [] ne = refl
times-other c d s (x ∷ xs) ne = rw (==_ne c d ne) (omega (arith, times-other c d s xs ne))

times-nil_under : (d : ℕ) (xs : List (List ℕ)) → times [] (under (d ∷ []) xs) ≡ 0
times-nil_under d [] = refl
times-nil_under d (x ∷ xs) = omega (arith, times-nil_under d xs)

pub times-nil : (cs : Children) → times [] (suffixes cs) ≡ 0
unfolding suffixes spelled
times-nil end = refl
times-nil (null cs) = times-nil cs
times-nil (child (node ch true ds) cs) =
    let w = under (ch ∷ []) (suffixes ds) in
    omega (
      arith,
      times-append [] (w ++ own true (ch ∷ [])) (suffixes cs),
      times-append [] w (own true (ch ∷ [])),
      times-nil_under ch (suffixes ds),
      times-nil cs,
    )
times-nil (child (node ch false ds) cs) =
    let w = under (ch ∷ []) (suffixes ds) in
    omega (
      arith,
      times-append [] (w ++ own false (ch ∷ [])) (suffixes cs),
      times-append [] w (own false (ch ∷ [])),
      times-nil_under ch (suffixes ds),
      times-nil cs,
    )

-- How often a word is listed for a node, behind the node's own character.
abbrev pub listed : List ℕ → TrieNode → ℕ
listed s n = times s (suffixes (children n)) + times s (own (last_char_of_word n) [])

times-own : (c : ℕ) (s : List ℕ) (e : Bool) → times (c ∷ s) (own e (c ∷ [])) ≡ times s (own e [])
times-own c s true = rw (==_refl c) refl
times-own c s false = refl

pub times-spelled :
    (c : ℕ) (s : List ℕ) (n : TrieNode) → c ≡ character n → times (c ∷ s) (spelled n) ≡ listed s n
unfolding spelled
times-spelled c s (node ch e ds) same =
    subst
      (λ d.
        times (c ∷ s) (under (d ∷ []) (suffixes ds) ++ own e (d ∷ []))
        ≡ times s (suffixes ds) + times s (own e []))
      same
      (omega (
        arith,
        times-append (c ∷ s) (under (c ∷ []) (suffixes ds)) (own e (c ∷ [])),
        times-under (c ∷ []) s (suffixes ds),
        times-own c s e,
      ))

times-own_other : (c d : ℕ) (s : List ℕ) (e : Bool) → c ≢ d → times (c ∷ s) (own e (d ∷ [])) ≡ 0
times-own_other c d s true ne = rw (==_ne c d ne) refl
times-own_other c d s false ne = refl

pub times-spelled_other :
    (c : ℕ) (s : List ℕ) (n : TrieNode) → c ≢ character n → times (c ∷ s) (spelled n) ≡ 0
unfolding spelled
times-spelled_other c s (node ch e ds) ne = omega (
  arith,
  times-append (c ∷ s) (under (ch ∷ []) (suffixes ds)) (own e (ch ∷ [])),
  times-other c ch s (suffixes ds) ne,
  times-own_other c ch s e ne,
)

-- A character without a place from i on begins no word of the children.
pub times-absent :
    (cs : Children) (i c : ℕ) (s : List ℕ)
    → AreSlots i cs
    → ((k : ℕ) → i ≤ k → get_character_index c ≢ some k)
    → times (c ∷ s) (suffixes cs) ≡ 0
unfolding AreSlots suffixes
times-absent end i c s h none_there = refl
times-absent (null cs) i c s h none_there =
    times-absent cs (suc i) c s h (λ k le. none_there k (omega arith))
times-absent (child n cs) i c s (m, h) none_there =
    let index = (IsNode-parts i n m).0 in
    let other : c ≢ character n =
      λ z. none_there i (omega arith) (ap get_character_index z ∙ index) in
    omega (
      arith,
      times-append (c ∷ s) (spelled n) (suffixes cs),
      times-spelled_other c s n other,
      times-absent cs (suc i) c s h (λ k le. none_there k (omega arith)),
    )

pub only_at : (c i k : ℕ) → get_character_index c ≡ some i → i < k → get_character_index c ≢ some k
only_at c i k e lt f =
    let same : some i ≡ some k = sym e ∙ f in let same' : i ≡ k = cc same in omega arith

abbrev pub listed_at : List ℕ → Option TrieNode → ℕ
listed_at s none = 0
listed_at s (some n) = listed s n
