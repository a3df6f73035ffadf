-- ===== src/Trie/Tests.antt =====
-- Runs of the trie, with the words of TrieFoDict/src/main.cpp.
use eureka.Common.{
  codes, invalid_argument, undefined, ok, err, ℕ, ◌≡◌, refl, false, List, [], ◌∷◌, arith,
}
use eureka.Ternary.Alphabet.{index_of, get_character_index}
use eureka.Trie.{
  new_node, child_at, set_child, insert_below, contains_below, locate, next_child, characters_of,
  process, rounds, make_trie, insert, contains, search,
}
use eureka.Trie.Nodes.{NoZero, build}
use eureka.Trie.Search.{Found, search-Found}

program : Unit {0}
unfolding index_of get_character_index new_node child_at set_child insert_below contains_below
    locate next_child characters_of process rounds make_trie insert contains search build NoZero
program = tt

abbrev main_words : List (List ℕ)
main_words = codes "hello" ∷ codes "hell" ∷ codes "here" ∷ []

searched :
    search (build make_trie main_words) (codes "he")
    ≡ ok (codes "hello" ∷ codes "hell" ∷ codes "here" ∷ [])
unfolding program
searched = refl

contained : contains (build make_trie main_words) (codes "hel") ≡ ok false
unfolding program
contained = refl

illegal : (insert make_trie (codes "go ahead")).1 ≡ err invalid_argument
unfolding program
illegal = refl

-- A zero byte has the place behind the last child.
zero_byte : (insert make_trie (0 ∷ [])).1 ≡ err undefined
unfolding program
zero_byte = refl

no_zero : NoZero (codes "hello")
unfolding program
no_zero = (
  λ e. omega arith,
  (λ e. omega arith, (λ e. omega arith, (λ e. omega arith, (λ e. omega arith, tt)))),
)

prefix-NoZero : NoZero (codes "he")
unfolding program
prefix-NoZero = (λ e. omega arith, (λ e. omega arith, tt))

search-Found_example : Found (codes "hello" ∷ []) (codes "he")
search-Found_example = search-Found (codes "hello" ∷ []) (codes "he") (no_zero, tt) prefix-NoZero
