-- ===== src/Ternary/Alphabet.antt =====
-- TernarySearchTree/src/alphabet.cpp (TrieFoDict/src/alphabet.cpp is the same file): the characters
-- that words are made of, and their places. `strchr` finds the terminator of the string too.
use eureka.Common.{
  codes, ℕ, zero, suc, ◌<◌, ◌≡◌, ◌≢◌, refl, sym, ◌∙◌, Bool, true, false, List, [], ◌∷◌, ◌++◌,
  Option, none, some, Result, ok, err, check_failed, ◌==◌, if◌then◌else◌, ◌&&◌, ◌||◌, leb,
  Option-cases, inl, inr, arith, length, get_elem?,
}

abbrev k_alphabet : List ℕ
k_alphabet = codes "abcdefghijklmnopqrstuvwxyz-"

abbrev pub alphabet_length : ℕ
alphabet_length = 27

abbrev shift : Option ℕ → Option ℕ
shift none = none
shift (some i) = some (suc i)

-- The place of the first occurrence.
unfoldable pub index_of : ℕ → List ℕ → Option ℕ
index_of ch [] = none
index_of ch (c ∷ cs) = if ch == c then some 0 else shift (index_of ch cs)

unfoldable pub get_character_index : ℕ → Option ℕ
unfolding index_of
get_character_index ch = index_of ch (k_alphabet ++ 0 ∷ [])

nth : List ℕ → ℕ → Result ℕ
nth [] i = err check_failed
nth (c ∷ cs) zero = ok c
nth (c ∷ cs) (suc i) = nth cs i

-- The assertion refuses an index that is not below the length.
unfoldable pub get_character : ℕ → Result ℕ
unfolding nth
get_character index = nth k_alphabet index

index_of-get : (ch i : ℕ) (cs : List ℕ) → index_of ch cs ≡ some i → get_elem? cs i ≡ some ch
unfolding index_of
index_of-get ch i [] e = cc
index_of-get ch zero (c ∷ cs) e = ground arith
index_of-get ch (suc i) (c ∷ cs) e = ground (arith, index_of-get ch i cs)

-- Two characters of one place are the same.
pub get_character_index-injective :
    (c d i : ℕ) → get_character_index c ≡ some i → get_character_index d ≡ some i → c ≡ d
unfolding get_character_index
get_character_index-injective c d i e f =
    let all = k_alphabet ++ 0 ∷ [] in
    let same = sym (index_of-get c i all e) ∙ index_of-get d i all f in cc same

nth-append :
    (ch i : ℕ) (cs ds : List ℕ)
    → i < length cs
    → get_elem? (cs ++ ds) i ≡ some ch
    → nth cs i ≡ ok ch
unfolding nth
nth-append ch i [] ds h e = absurd (omega arith)
nth-append ch zero (c ∷ cs) ds h e = ground arith
nth-append ch (suc i) (c ∷ cs) ds h e = nth-append ch i cs ds (omega arith) e

-- The character of a place is the one that the place was looked up for, for all but the terminator.
pub get_character-of_index :
    (ch i : ℕ) → get_character_index ch ≡ some i → i < alphabet_length → get_character i ≡ ok ch
unfolding get_character_index get_character
get_character-of_index ch i e h =
    nth-append ch i k_alphabet (0 ∷ []) h (index_of-get ch i (k_alphabet ++ 0 ∷ []) e)

-- Over the places of the alphabet, by evaluation.
place_is : Option ℕ → ℕ → Bool
place_is none i = false
place_is (some j) i = j == i

comes_back_by : Result ℕ → ℕ → Bool
unfolding place_is
comes_back_by (err e) i = false
comes_back_by (ok ch) i = place_is (get_character_index ch) i

comes_back : ℕ → Bool
comes_back i = comes_back_by (get_character i) i

all_below : ℕ → (ℕ → Bool) → Bool
all_below zero test = true
all_below (suc n) test = if test n then all_below n test else false

all_below-holds :
    (n : ℕ) (test : ℕ → Bool) (i : ℕ) → all_below n test ≡ true → i < n → test i ≡ true
unfolding all_below
all_below-holds zero test i e h = absurd (omega arith)
all_below-holds (suc n) test i e h = ground (arith, all_below-holds n test i)

all_come_back : all_below alphabet_length comes_back ≡ true
unfolding all_below comes_back comes_back_by get_character get_character_index
all_come_back = refl

place_is_lem : (o : Option ℕ) (i : ℕ) → place_is o i ≡ true → o ≡ some i
unfolding place_is
place_is_lem none i e = cc
place_is_lem (some j) i e = ground arith

comes_back_lem :
    (i : ℕ) (r : Result ℕ)
    → get_character i ≡ r
    → comes_back_by r i ≡ true
    → (ch : ℕ) × (get_character i ≡ ok ch) × (get_character_index ch ≡ some i)
unfolding comes_back_by
comes_back_lem i (err e) q t = absurd (ground arith)
comes_back_lem i (ok ch) q t = (ch, q, place_is_lem (get_character_index ch) i t)

-- Each place has a character, and it is the place of that character.
pub get_character_lem :
    (i : ℕ)
    → i < alphabet_length
    → (ch : ℕ) × (get_character i ≡ ok ch) × (get_character_index ch ≡ some i)
unfolding comes_back
get_character_lem i h =
    comes_back_lem i (get_character i) refl (all_below-holds 27 comes_back i all_come_back h)

index_of-before :
    (ch i : ℕ) (cs : List ℕ) → ch ≢ 0 → index_of ch (cs ++ 0 ∷ []) ≡ some i → i < length cs
unfolding index_of
index_of-before ch i [] h e = absurd (ground arith)
index_of-before ch zero (c ∷ cs) h e = omega arith
index_of-before ch (suc i) (c ∷ cs) h e =
    let ih : index_of ch (cs ++ 0 ∷ []) ≡ some i = ground arith in
    omega (arith, index_of-before ch i cs h ih)

-- Only the terminator has the place behind the alphabet.
pub get_character_index-lt :
    (ch i : ℕ) → ch ≢ 0 → get_character_index ch ≡ some i → i < alphabet_length
unfolding get_character_index
get_character_index-lt ch i h e = index_of-before ch i k_alphabet h e

-- The characters from a to z and the dash have a place, and of the others only the zero byte.
pub get_character_index-meant :
    (c : ℕ)
    → ((leb 97 c && leb c 122) || c == 45) ≡ true
    → (i : ℕ) × (get_character_index c ≡ some i)
unfolding get_character_index index_of
get_character_index-meant c e = elim (Option-cases (get_character_index c)) [
  | inl q ↦ absurd (ground (arith, q, e))
  | inr found ↦ found
]

pub get_character_index-other :
    (c : ℕ) → c ≢ 0 → ((leb 97 c && leb c 122) || c == 45) ≡ false → get_character_index c ≡ none
unfolding get_character_index
get_character_index-other c ne e = ground arith
