-- ===== src/Hashids/Hex.antt =====
-- hashids/hashids/hashids.cpp, `encode_hex` and `decode_hex`.
-- esl::strings::split by length and fmt::format are parameters. A group has at most 13 digits, so that
-- `std::stoull` is never out of range; characters are bytes.
use eureka.Common.{
  leb, ◌==◌, if◌then◌else◌, length, drop, invalid_argument, Result, ok, ◌>>=◌, ◌>>◌, ensure, ℕ, suc,
  ◌+◌, ◌-◌, ◌*◌, ◌&&◌, Option, none, some, List, [], ◌∷◌, ◌++◌,
}
use eureka.Hashids.{Hashids, encode, decode}

unfoldable pub hex_digit : ℕ → Option ℕ
hex_digit c =
    if leb 48 c && leb c 57
    then some (c - 48)
    else if leb 97 c && leb c 102
    then some (c - 87)
    else if leb 65 c && leb c 70
    then some (c - 55)
    else none

-- `std::stoull` with the base 16, behind a first digit: the number and the characters read.
unfoldable pub stoull_from : ℕ → ℕ → List ℕ → ℕ × ℕ
stoull_from num cvt_len [] = (num, cvt_len)
stoull_from num cvt_len (c ∷ buf) = elim (hex_digit c) [
  | none ↦ (num, cvt_len)
  | some d ↦ stoull_from (num * 16 + d) (suc cvt_len) buf
]

-- The loop of `encode_hex`.
unfoldable pub hex_nums : List (List ℕ) → Result (List ℕ)
hex_nums [] = ok []
hex_nums (part ∷ parts) = do
  let (num, cvt_len) = stoull_from 0 0 (49 ∷ part)
  ensure (cvt_len == suc (length part)) invalid_argument
  nums ← hex_nums parts
  ok (num ∷ nums)

module _ (split : List ℕ → List ℕ → List (List ℕ)) (by_length : List ℕ → List (List ℕ))
    (format_hex : ℕ → List ℕ) where
  unfoldable pub encode_hex : Hashids → List ℕ → Result (List ℕ)
  encode_hex h [] = ok []
  encode_hex h (c ∷ hex) = do nums ← hex_nums (by_length (c ∷ hex)); encode h nums

  -- The loop of `decode_hex`.
  unfoldable pub hex_of : List ℕ → List ℕ
  hex_of [] = []
  hex_of (n ∷ nums) = drop 1 (format_hex n) ++ hex_of nums

  unfoldable pub decode_hex : Hashids → List ℕ → Result (List ℕ)
  decode_hex h [] = ok []
  decode_hex h (c ∷ hashid) = do nums ← decode split h (c ∷ hashid); ok (hex_of nums)
