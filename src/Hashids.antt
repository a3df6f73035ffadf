-- ===== src/Hashids.antt =====
-- hashids/hashids/hashids.h and hashids.cpp: numbers as short strings, and back.
-- Strings are lists of bytes. `std::size_t` and `std::uint64_t` wrap at 2 ^ 64 where a sum or a
-- difference can leave them. `esl::strings::split` by any of some characters is a parameter.
pub mod Options
pub mod Reorder
pub mod Numbers
pub mod Frames
pub mod Padding
pub mod Text
pub mod Decode
pub mod Selected
pub mod WellFormed
pub mod Hex
pub mod HexGroups
pub mod HexRoundTrip
mod Tests
mod HexTests
use eureka.Common.{
  at, ℕ, zero, suc, ◌+◌, ◌-◌, ◌*◌, ◌/◌, ◌%◌, ◌^◌, min, Bool, true, false, ◌&&◌, List, [], ◌∷◌, ◌++◌,
  reverse, length, take, drop, get_elem?, get_or, set, Option, none, some, Result, ok, err,
  undefined, invalid_argument, check_failed, ensure, ◌>>=◌, ◌>>◌, leb, ltb, ◌==◌, if◌then◌else◌,
}

-- The remainder by zero is undefined.
unfoldable pub rem : ℕ → ℕ → Result ℕ
rem a zero = err undefined
rem a (suc b) = ok (a % suc b)

abbrev pub swap : List ℕ → ℕ → ℕ → List ℕ
swap str i j = set (set str i (get_or str j 0)) j (get_or str i 0)

-- The loop of `reorder` down from the place `i`. The strings have no character twice, so that the
-- `int` holds the sum of at most 256 bytes.
unfoldable pub reorder_from : List ℕ → ℕ → ℕ → ℕ → List ℕ → List ℕ
reorder_from salt zero salt_idx sum str = str
reorder_from salt (suc i) salt_idx sum str =
    let n = get_or salt salt_idx 0 in
    let j = (salt_idx + (n + (sum + n))) % suc i in
    reorder_from salt i ((salt_idx + 1) % length salt) (sum + n) (swap str (suc i) j)

-- With an empty string the index starts at `size() - 1`, which is the largest `size_t`.
unfoldable pub reorder : List ℕ → List ℕ → Result (List ℕ)
unfolding reorder_from
reorder [] str = ok str
reorder (s ∷ salt) [] = err undefined
reorder (s ∷ salt) (c ∷ str) = ok (reorder_from (s ∷ salt) (length str) 0 0 (c ∷ str))

abbrev sub_size : ℕ → ℕ → ℕ
sub_size a b = (a + (2 ^ 64 - b)) % 2 ^ 64

unfoldable pub make_alphabet_salt : ℕ → List ℕ → List ℕ → List ℕ
make_alphabet_salt lottery salt alphabet =
    let begin = lottery ∷ take (min (sub_size (length alphabet) 1) (length salt)) salt in
    begin ++ take (sub_size (length alphabet) (length begin)) alphabet

-- The loop of `hash_number`: its digits, the last one first. The fuel counts the binary digits of
-- the number.
unfoldable pub hash_digits : ℕ → ℕ → List ℕ → Result (List ℕ)
unfolding at rem
hash_digits zero number alphabet = err undefined
hash_digits (suc fuel) number alphabet = do
  digit ← rem number (length alphabet)
  ch ← at alphabet digit
  let next = number / length alphabet
  let further = hash_digits fuel next alphabet
  more ← (if next == 0 then ok [] else further)
  ok (ch ∷ more)

unfoldable pub hash_number : ℕ → List ℕ → Result (List ℕ)
hash_number number alphabet = do digits ← hash_digits 64 number alphabet; ok (reverse digits)

-- `npos`, where the character is not there.
unfoldable pub find : ℕ → List ℕ → Option ℕ
find c [] = none
find c (a ∷ alphabet) =
    if c == a then some 0 else elim (find c alphabet) [ none ↦ none | some i ↦ some (suc i) ]

abbrev pub position : ℕ → List ℕ → ℕ
position c alphabet = elim (find c alphabet) [ none ↦ 2 ^ 64 - 1 | some i ↦ i ]

unfoldable pub unhash_from : ℕ → List ℕ → List ℕ → ℕ
unhash_from num [] alphabet = num
unhash_from num (c ∷ hashed) alphabet =
    unhash_from ((num * length alphabet % 2 ^ 64 + position c alphabet) % 2 ^ 64) hashed alphabet

unfoldable pub unhash : List ℕ → List ℕ → ℕ
unhash hashed alphabet = unhash_from 0 hashed alphabet

pub record Hashids : Type 0 where
  pub min_len : ℕ
  pub salt : List ℕ
  pub alphabet : List ℕ
  pub separators : List ℕ
  pub guards : List ℕ

-- The loop of `ensure_minimum_length`. A round adds the whole alphabet, so that `min_len` rounds are
-- enough.
unfoldable pub pad : ℕ → ℕ → ℕ → List ℕ → List ℕ → Result (List ℕ)
pad zero min_len mid alphabet encoded =
    if ltb (length encoded) min_len then err undefined else ok encoded
pad (suc fuel) min_len mid alphabet encoded =
    let next = reorder alphabet alphabet >>= (λ reordered.
      let longer = drop mid reordered ++ (encoded ++ take mid reordered) in
      let idx = (length longer - min_len) / 2 in
      pad fuel min_len mid reordered
        (if ltb min_len (length longer) then take min_len (drop idx longer) else longer)) in
    if ltb (length encoded) min_len then next else ok encoded

unfoldable pub ensure_minimum_length : ℕ → ℕ → List ℕ → List ℕ → List ℕ → Result (List ℕ)
ensure_minimum_length value_hash min_len prev_alphabet guards encoded = do
  ensure (leb 2 (length encoded)) check_failed
  head_guard_idx ← rem ((value_hash + get_or encoded 0 0) % 2 ^ 64) (length guards)
  head ← at guards head_guard_idx
  let guarded = head ∷ encoded
  let tailed = (do
    tail_guard_idx ← rem ((value_hash + get_or guarded 2 0) % 2 ^ 64) (length guards)
    tail ← at guards tail_guard_idx
    pad min_len min_len (length prev_alphabet / 2) prev_alphabet (guarded ++ tail ∷ []))
  if leb min_len (length guarded) then ok guarded else tailed

unfoldable pub hash_values : ℕ → List ℕ → ℕ
hash_values i [] = 0
hash_values i (v ∷ values) = (v % (i + 100) + hash_values (suc i) values) % 2 ^ 64

-- The loop of `encode`: what it appends, and the last alphabet.
unfoldable pub encode_from : Hashids → ℕ → List ℕ → ℕ → List ℕ → Result (List ℕ × List ℕ)
encode_from h lottery alphabet i [] = ok ([], alphabet)
encode_from h lottery alphabet i (v ∷ values) = do
  reordered ← reorder (make_alphabet_salt lottery h.salt alphabet) alphabet
  hashed ← hash_number v reordered
  number ← rem v (get_or hashed 0 0 + i)
  place ← rem number (length h.separators)
  separator ← at h.separators place
  (rest, last) ← encode_from h lottery reordered (suc i) values
  ok (hashed ++ separator ∷ rest, last)

unfoldable pub pop_back : List ℕ → List ℕ
pop_back [] = []
pop_back (c ∷ []) = []
pop_back (c ∷ d ∷ str) = c ∷ pop_back (d ∷ str)

unfoldable pub encode : Hashids → List ℕ → Result (List ℕ)
encode h [] = ok []
encode h (v ∷ values) = do
  let value_hash = hash_values 0 (v ∷ values)
  place ← rem value_hash (length h.alphabet)
  lottery ← at h.alphabet place
  (text, alphabet) ← encode_from h lottery h.alphabet 0 (v ∷ values)
  let result = pop_back (lottery ∷ text)
  if ltb (length result) h.min_len
      then ensure_minimum_length value_hash h.min_len alphabet h.guards result
      else ok result

-- The loop of `decode`.
unfoldable pub decode_parts : List ℕ → ℕ → List ℕ → List (List ℕ) → Result (List ℕ)
decode_parts salt lottery alphabet [] = ok []
decode_parts salt lottery alphabet (hashed ∷ parts) = do
  reordered ← reorder (make_alphabet_salt lottery salt alphabet) alphabet
  nums ← decode_parts salt lottery reordered parts
  ok (unhash hashed reordered ∷ nums)

abbrev pub eq_string : List ℕ → List ℕ → Bool
eq_string [] [] = true
eq_string [] (d ∷ t) = false
eq_string (c ∷ s) [] = false
eq_string (c ∷ s) (d ∷ t) = c == d && eq_string s t

-- The part between the guards.
unfoldable pub guarded_part : List (List ℕ) → Result (List ℕ)
guarded_part (a ∷ []) = ok a
guarded_part (a ∷ b ∷ []) = ok b
guarded_part (a ∷ b ∷ c ∷ []) = ok b
guarded_part parts = err invalid_argument

module _ (split : List ℕ → List ℕ → List (List ℕ)) where
  unfoldable pub decode_encoded : Hashids → List ℕ → Result (List ℕ)
  decode_encoded h [] = err invalid_argument
  decode_encoded h (lottery ∷ encoded) =
      decode_parts h.salt lottery h.alphabet (split encoded h.separators)

  unfoldable pub decode : Hashids → List ℕ → Result (List ℕ)
  unfolding guarded_part decode_encoded
  decode h [] = ok []
  decode h (c ∷ hashid) = do
    encoded ← guarded_part (split (c ∷ hashid) h.guards)
    nums ← decode_encoded h encoded
    again ← encode h nums
    if eq_string again (c ∷ hashid) then ok nums else err invalid_argument
