-- ===== src/Ternary/Tests.antt =====
-- Runs of the ternary search tree.
use eureka.Common.{
  codes, ℕ, ◌≡◌, refl, List, [], ◌∷◌, ◌&&◌, ◌||◌, true, false, ok, err, check_failed,
  invalid_argument, if◌then◌else◌, arith,
}
use eureka.Ternary.Alphabet.{get_character_index, get_character}
use eureka.Ternary.{
  empty, touch, mark_after, middle_after, is_valid, insert, find_node, walk, contains, search_word,
  search,
}
use eureka.Ternary.Words.{contains-insert, eq_word, all_meant}
use eureka.Ternary.Ordered.{build}
use eureka.Ternary.Rests.{elem}
use eureka.Ternary.Prefix.{starts_with, search-build}

program : Unit {0}
unfolding empty touch mark_after middle_after is_valid insert find_node walk contains search_word
    search build get_character_index get_character
program = tt

abbrev words : List (List ℕ)
words = codes "tea" ∷ codes "ten" ∷ codes "to" ∷ codes "a-z" ∷ codes "te" ∷ []

-- The words come with a node's own before those of its left and its right.
finds : search (build words) (codes "te") ≡ ok (codes "te" ∷ codes "ten" ∷ codes "tea" ∷ [])
unfolding program
finds = refl

holds_words :
    (contains (build words) (codes "to") ≡ true)
    × (contains (build words) (codes "t") ≡ false)
    × (search (build words) (codes "T") ≡ ok [])
unfolding program
holds_words = (refl, refl, refl)

-- A word with a character outside the alphabet leaves its beginning, without a mark.
refused :
    ((insert empty (codes "a1")).1 ≡ err invalid_argument)
    × (search (insert empty (codes "a1")).0 [] ≡ ok [])
unfolding program
refused = (refl, refl)

-- The terminator passes as a character, and the search then fails.
terminator :
    ((insert empty (0 ∷ [])).1 ≡ ok tt) × (search (insert empty (0 ∷ [])).0 [] ≡ err check_failed)
unfolding program
terminator = (refl, refl)

contains-insert_example :
    (contains (insert (build words) (codes "ab")).0 (codes "ab") ≡ (
      (all_meant (codes "ab") && eq_word (codes "ab") (codes "ab"))
      || contains (build words) (codes "ab")))
    × ((insert (build words) (codes "ab")).1
        ≡ (if all_meant (codes "ab") then ok tt else err invalid_argument))
contains-insert_example =
    contains-insert (build words) (codes "ab") (codes "ab")
      (λ e. omega (arith, e), (λ e. omega (arith, e), tt))

search-build_example :
    (found : List (List ℕ)) × (search (build (codes "ab" ∷ [])) (codes "a") ≡ ok found)
    × ((u : List ℕ)
        → elem u found ≡ (starts_with (codes "a") u && contains (build (codes "ab" ∷ [])) u))
search-build_example =
    search-build (codes "ab" ∷ []) (codes "a")
      ((λ e. omega (arith, e), (λ e. omega (arith, e), tt)), tt)
