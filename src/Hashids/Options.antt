-- ===== src/Hashids/Options.antt =====
-- The constructor of hashids/hashids/hashids.cpp: the alphabet is cut into digits, separators and
-- guards.
-- The quotients by 3.5 and 12 are `double`s, which round up as the exact ones do: an alphabet
-- without repetitions has at most 256 characters.
use eureka.Common.{
  ℕ, ◌+◌, ◌-◌, ◌*◌, ◌/◌, Bool, true, false, ◌||◌, List, [], ◌∷◌, ◌++◌, length, take, drop, codes,
  none, some, Result, ok, invalid_argument, ensure, ◌>>=◌, ◌>>◌, leb, ltb, if◌then◌else◌,
}
use eureka.Hashids.{find, reorder, Hashids}

abbrev pub default_alphabet : List ℕ
default_alphabet = codes "abcdefghijklmnopqrstuvwxyzABCDEFGHIJKLMNOPQRSTUVWXYZ1234567890"

abbrev pub base_separators : List ℕ
base_separators = codes "cfhistuCFHISTU"

abbrev pub given_alphabet : List ℕ → List ℕ
given_alphabet [] = default_alphabet
given_alphabet (c ∷ custom) = c ∷ custom

abbrev pub has : ℕ → List ℕ → Bool
has c chars = elim (find c chars) [ none ↦ false | some i ↦ true ]

-- `copy_if`.
abbrev pub select : List ℕ → List ℕ → List ℕ
select [] alphabet = []
select (c ∷ chars) alphabet =
    let rest = select chars alphabet in if has c alphabet then c ∷ rest else rest

-- `remove_if`, with the characters seen.
abbrev pub unique : List ℕ → List ℕ → List ℕ → List ℕ
unique seen separators [] = []
unique seen separators (c ∷ chars) =
    let rest = unique (c ∷ seen) separators chars in
    if has c seen || has c separators then rest else c ∷ rest

-- What the separators lack for a ratio of 3.5, and the guards for one of 12.
abbrev pub min_seps_cnt : List ℕ → ℕ
min_seps_cnt alphabet = (2 * length alphabet + 6) / 7

abbrev pub guards_cnt : List ℕ → ℕ
guards_cnt alphabet = (length alphabet + 11) / 12

abbrev pub balance : List ℕ → List ℕ → List ℕ × List ℕ
balance separators alphabet =
    let delta = min_seps_cnt alphabet - length separators in
    if ltb (length separators) (min_seps_cnt alphabet)
    then (separators ++ take delta alphabet, drop delta alphabet)
    else (separators, alphabet)

abbrev pub with_guards : ℕ → List ℕ → List ℕ → List ℕ → Hashids
with_guards min_len salt separators alphabet =
    let n = guards_cnt alphabet in
    if ltb (length alphabet) 3
    then record {
      min_len = min_len;
      salt = salt;
      alphabet = alphabet;
      separators = drop n separators;
      guards = take n separators;
    }
    else record {
      min_len = min_len;
      salt = salt;
      alphabet = drop n alphabet;
      separators = separators;
      guards = take n alphabet;
    }

unfoldable pub make : ℕ → List ℕ → List ℕ → Result Hashids
make minimum_length salt custom_alphabet = do
  let given = given_alphabet custom_alphabet
  let chosen = select base_separators given
  let others = unique [] chosen given
  ensure (leb 16 (length chosen + length others)) invalid_argument
  separators ← reorder salt chosen
  let (enough, rest) = balance separators others
  alphabet ← reorder salt rest
  ok (with_guards minimum_length salt enough alphabet)
