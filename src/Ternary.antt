-- ===== src/Ternary.antt =====
-- TernarySearchTree/src/ternary_search_tree.cpp and alphabet.cpp: a set of words as a ternary search
-- tree. A node is rebuilt where the source changes it in place: no node has two parents. Words are
-- lists of bytes.
pub mod Alphabet
pub mod Words
pub mod Ordered
pub mod Rests
pub mod Search
pub mod Prefix
mod Tests
use Prim.Native.Nat.{compare, Ordering}
use eureka.Common.{
  ℕ, Bool, true, false, List, [], ◌∷◌, ◌++◌, Option, none, some, Result, ok, err, invalid_argument,
  ◌>>=◌, if◌then◌else◌,
}
use Alphabet.{get_character_index, get_character}

-- The children of a node are the left, the middle and the right one.
pub data Tree : Type 0 where
  null : Tree
  node : ℕ → Bool → Tree → Tree → Tree → Tree

-- The sentinel: only its mark and its middle child are used.
pub record TernaryTree : Type 0 where
  pub end_word : Bool
  pub middle : Tree

unfoldable pub empty : TernaryTree
empty = record { end_word = false; middle = null }

-- From a child on, go to the node with the index, which is created if it is not there, and change
-- its mark and its middle child.
unfoldable pub touch : (Bool → Bool) → (Tree → Tree) → Tree → ℕ → Tree
touch mark grow null index = node index (mark false) null (grow null) null
touch mark grow (node here e l m r) index = elim (compare index here) [
  | Ordering.eq ↦ node here (mark e) l (grow m) r
  | Ordering.lt ↦ node here e (touch mark grow l index) m r
  | Ordering.gt ↦ node here e l m (touch mark grow r index)
]

unfoldable pub mark_after : List ℕ → Bool → Bool
mark_after [] e = true
mark_after (ch ∷ word) e = e

-- The middle child of a node behind the rest of the word; a character outside the alphabet ends the
-- loop by an exception.
unfoldable pub middle_after : List ℕ → Tree → Tree
middle_after [] m = m
middle_after (ch ∷ word) m = elim (get_character_index ch) [
  | none ↦ m
  | some index ↦ touch (mark_after word) (middle_after word) m index
]

-- Each character has a place, also a zero byte: the loop of `Insert` does not throw.
unfoldable pub is_valid : List ℕ → Bool
is_valid [] = true
is_valid (ch ∷ word) = elim (get_character_index ch) [ none ↦ false | some index ↦ is_valid word ]

-- `Insert`: the tree, also behind an exception. The mark is set behind the loop.
unfoldable pub insert : TernaryTree → List ℕ → TernaryTree × Result (Unit {0})
insert t word = (
  record { end_word = mark_after word t.end_word; middle = middle_after word t.middle },
  if is_valid word then ok tt else err invalid_argument,
)

-- The loop that looks for the node of an index; `null` is left by it where it ends at no node.
unfoldable pub find_node : Tree → ℕ → Tree
find_node null index = null
find_node (node here e l m r) index = elim (compare index here) [
  | Ordering.eq ↦ node here e l m r
  | Ordering.lt ↦ find_node l index
  | Ordering.gt ↦ find_node r index
]

-- The walk of `Contains` and `Search` along a word: the mark and the middle child that it ends at.
unfoldable pub walk : List ℕ → TernaryTree → Option TernaryTree
walk [] t = some t
walk (ch ∷ word) t = elim (get_character_index ch) [
  | none ↦ none
  | some index ↦ elim (find_node t.middle index) [
    | null ↦ none
    | node here e l m r ↦ walk word (record { end_word = e; middle = m })
  ]
]

unfoldable pub contains : TernaryTree → List ℕ → Bool
unfolding walk
contains t word = elim (walk word t) [ none ↦ false | some found ↦ found.end_word ]

-- `SearchWord`, with the words found before and the characters of the path.
unfoldable pub search_word : Tree → List (List ℕ) → List ℕ → List ℕ → Result (List (List ℕ))
search_word null words seq prefix = ok words
search_word (node index e l m r) words seq prefix = do
  ch ← get_character index
  let path = seq ++ ch ∷ []
  with_middle ← search_word m (if e then words ++ (prefix ++ path) ∷ [] else words) path prefix
  with_left ← search_word l with_middle seq prefix
  search_word r with_left seq prefix

unfoldable pub search : TernaryTree → List ℕ → Result (List (List ℕ))
unfolding walk
search t prefix = elim (walk prefix t) [
  | none ↦ ok []
  | some found ↦ search_word found.middle (if found.end_word then prefix ∷ [] else []) [] prefix
]
