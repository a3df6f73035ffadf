-- ===== src/Trie.antt =====
-- TrieFoDict/src/trie.cpp: a set of words as a tree of characters. Its alphabet.cpp is that of
-- TernarySearchTree. A node is rebuilt where the source changes it in place: no node has two parents.
pub mod Nodes
pub mod Walk
pub mod Listed
pub mod Words
pub mod Inserted
pub mod Search
mod Tests
use eureka.Common.{
  ℕ, zero, suc, ◌+◌, ◌*◌, Bool, true, false, List, [], ◌∷◌, ◌++◌, Option, none, some, Result, ok,
  err, invalid_argument, undefined, ◌>>=◌, if◌then◌else◌,
}
use eureka.Ternary.Alphabet.{get_character_index, alphabet_length}

-- A node with its character, its mark and its children; a child may be null.
mutual
  pub data TrieNode : Type 0 where
    node : ℕ → Bool → Children → TrieNode

  pub data Children : Type 0 where
    end : Children
    null : Children → Children
    child : TrieNode → Children → Children

abbrev pub character : TrieNode → ℕ
character (node ch e cs) = ch

abbrev pub last_char_of_word : TrieNode → Bool
last_char_of_word (node ch e cs) = e

abbrev pub children : TrieNode → Children
children (node ch e cs) = cs

abbrev pub all_null : ℕ → Children
all_null zero = end
all_null (suc n) = null (all_null n)

unfoldable pub new_node : ℕ → TrieNode
new_node ch = node ch false (all_null alphabet_length)

-- `node->children[pos]`
unfoldable pub child_at : Children → ℕ → Result (Option TrieNode)
child_at end pos = err undefined
child_at (null cs) zero = ok none
child_at (child c cs) zero = ok (some c)
child_at (null cs) (suc pos) = child_at cs pos
child_at (child c cs) (suc pos) = child_at cs pos

unfoldable pub set_child : Children → ℕ → TrieNode → Children
set_child end pos d = end
set_child (null cs) zero d = child d cs
set_child (child c cs) zero d = child d cs
set_child (null cs) (suc pos) d = null (set_child cs pos d)
set_child (child c cs) (suc pos) d = child c (set_child cs pos d)

-- The child that the loop of `Insert` goes to.
abbrev pub or_new : ℕ → Option TrieNode → TrieNode
or_new ch none = new_node ch
or_new ch (some c) = c

-- `Insert` below a node: the node, also behind an exception.
unfoldable pub insert_below : List ℕ → TrieNode → TrieNode × Result (Unit {0})
insert_below [] (node here e cs) = (node here true cs, ok tt)
insert_below (ch ∷ word) (node here e cs) = elim (get_character_index ch) [
  | none ↦ (node here e cs, err invalid_argument)
  | some pos ↦ elim (child_at cs pos) [
    | err fault ↦ (node here e cs, err fault)
    | ok found ↦
        let (c, outcome) = insert_below word (or_new ch found) in
        (node here e (set_child cs pos c), outcome)
  ]
]

-- `Contains` below a node.
unfoldable pub contains_below : List ℕ → TrieNode → Result Bool
contains_below [] n = ok (last_char_of_word n)
contains_below (ch ∷ word) n = elim (get_character_index ch) [
  | none ↦ ok false
  | some pos ↦ do
    found ← child_at (children n) pos
    elim found [ none ↦ ok false | some c ↦ contains_below word c ]
]

-- The loop of `Search` that locates the node of the prefix.
unfoldable pub locate : List ℕ → TrieNode → Result (Option TrieNode)
locate [] n = ok (some n)
locate (ch ∷ prefix) n = elim (get_character_index ch) [
  | none ↦ ok none
  | some pos ↦ do
    found ← child_at (children n) pos
    elim found [ none ↦ ok none | some c ↦ locate prefix c ]
]

-- An entry of the stack is a node and its children from the index on.
abbrev pub Entry : Type 0
Entry = TrieNode × Children

-- The inner loop: the next child that is not null, and the children behind it.
unfoldable pub next_child : Children → Option (TrieNode × Children)
next_child end = none
next_child (null cs) = next_child cs
next_child (child c cs) = some (c, cs)

-- The characters of the nodes on the stack, but for the lowest one; the back comes first.
unfoldable pub characters_of : List Entry → List ℕ
characters_of [] = []
characters_of ((n, cs) ∷ []) = []
characters_of ((n, cs) ∷ e ∷ below) = characters_of (e ∷ below) ++ (character n ∷ [])

-- The loop over the stack, on fuel.
unfoldable pub process : ℕ → List ℕ → List Entry → List (List ℕ) → Result (List (List ℕ))
process zero prefix stack words = err undefined
process (suc fuel) prefix [] words = ok words
process (suc fuel) prefix ((n, cs) ∷ below) words = elim (next_child cs) [
  | some (c, later) ↦ process fuel prefix ((c, children c) ∷ (n, later) ∷ below) words
  | none ↦ process fuel prefix below (
      if last_char_of_word n
      then words ++ ((prefix ++ characters_of ((n, cs) ∷ below)) ∷ [])
      else words)
]

-- A round pushes a node or pops one.
mutual
  pub rounds : TrieNode → ℕ
  rounds (node ch e cs) = suc (rounds_of cs)

  pub rounds_of : Children → ℕ
  rounds_of end = 0
  rounds_of (null cs) = rounds_of cs
  rounds_of (child c cs) = suc (rounds c + rounds_of cs)

pub record Trie : Type 0 where
  pub header : TrieNode

unfoldable pub make_trie : Trie
make_trie = record { header = new_node 0 }

unfoldable pub insert : Trie → List ℕ → Trie × Result (Unit {0})
insert t word = let (n, outcome) = insert_below word t.header in (record { header = n }, outcome)

unfoldable pub contains : Trie → List ℕ → Result Bool
contains t word = contains_below word t.header

unfoldable pub search : Trie → List ℕ → Result (List (List ℕ))
search t prefix = do
  found ← locate prefix t.header
  elim found [ none ↦ ok [] | some n ↦ process (suc (rounds n)) prefix ((n, children n) ∷ []) [] ]
