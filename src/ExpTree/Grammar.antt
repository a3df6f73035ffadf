-- ===== src/ExpTree/Grammar.antt =====
-- The arithmetic that Expression Tree/exptree.cpp reads: sums of products of digits and of sums in
-- parentheses. Each operator binds to the left.
use eureka.Common.{
  ℕ, ◌+◌, ◌/◌, ◌≤◌, Bool, true, false, List, [], ◌∷◌, ◌++◌, Result, ok, err, undefined,
  check_failed, ◌>>=◌, ltb, ◌==◌, if◌then◌else◌,
}
use eureka.Common.Int.{ℤ, pos, negsuc, pos_part, neg_part, sub_ℕ, ◌+ℤ◌, ◌-ℤ◌, ◌*ℤ◌}
use eureka.ExpTree.{left_paren, right_paren, asterisk, plus, minus, slash, Node, null, node}

pub data AddOp : Type 0 where
  add subtract : AddOp

pub data MulOp : Type 0 where
  multiply divide : MulOp

abbrev pub add_code : AddOp → ℕ
add_code add = plus
add_code subtract = minus

abbrev pub mul_code : MulOp → ℕ
mul_code multiply = asterisk
mul_code divide = slash

mutual
  pub data Sum : Type 0 where
    one : Product → Sum
    more : Sum → AddOp → Product → Sum

  pub data Product : Type 0 where
    single : Factor → Product
    times : Product → MulOp → Factor → Product

  pub data Factor : Type 0 where
    digit : (d : ℕ) → d ≤ 9 → Factor
    paren : Sum → Factor

-- The string of an expression.
abbrev mutual
  pub print : Sum → List ℕ
  print (one p) = print_product p
  print (more s op p) = print s ++ add_code op ∷ print_product p

  pub print_product : Product → List ℕ
  print_product (single f) = print_factor f
  print_product (times p op f) = print_product p ++ mul_code op ∷ print_factor f

  pub print_factor : Factor → List ℕ
  print_factor (digit d h) = (48 + d) ∷ []
  print_factor (paren s) = left_paren ∷ print s ++ right_paren ∷ []

-- Its tree.
abbrev mutual
  pub tree : Sum → Node
  tree (one p) = tree_product p
  tree (more s op p) = node (add_code op) (tree s) (tree_product p)

  pub tree_product : Product → Node
  tree_product (single f) = tree_factor f
  tree_product (times p op f) = node (mul_code op) (tree_product p) (tree_factor f)

  pub tree_factor : Factor → Node
  tree_factor (digit d h) = node d null null
  tree_factor (paren s) = tree s

-- Its postfix string.
abbrev mutual
  pub post : Sum → List ℕ
  post (one p) = post_product p
  post (more s op p) = post s ++ post_product p ++ add_code op ∷ []

  pub post_product : Product → List ℕ
  post_product (single f) = post_factor f
  post_product (times p op f) = post_product p ++ post_factor f ++ mul_code op ∷ []

  pub post_factor : Factor → List ℕ
  post_factor (digit d h) = (48 + d) ∷ []
  post_factor (paren s) = post s

-- What is left of an integer as the result of an operator: itself in the range of `int` but for the
-- least one, which is reported as a failure.
abbrev pub as_int : ℤ → Result ℤ
as_int (pos n) = if ltb n 2147483648 then ok (pos n) else err undefined
as_int (negsuc n) =
    if ltb n 2147483647
    then ok (negsuc n)
    else if n == 2147483647
    then err check_failed
    else err undefined

abbrev pub sum_of : AddOp → ℤ → ℤ → ℤ
sum_of add a b = a +ℤ b
sum_of subtract a b = a -ℤ b

abbrev pub magnitude : ℤ → ℕ
magnitude a = pos_part a + neg_part a

abbrev pub is_negative : ℤ → Bool
is_negative (pos n) = false
is_negative (negsuc n) = true

-- The sizes are divided, and the sign is minus if one of the two is below zero.
abbrev pub quotient : ℤ → ℤ → ℤ
quotient a b =
    let n = magnitude a / magnitude b in
    if is_negative a
    then (if is_negative b then pos n else sub_ℕ 0 n)
    else if is_negative b
    then sub_ℕ 0 n
    else pos n

abbrev pub product_of : MulOp → ℤ → ℤ → Result ℤ
product_of multiply a b = as_int (a *ℤ b)
product_of divide a b = if magnitude b == 0 then err undefined else as_int (quotient a b)

-- Its value, by the arithmetic of the integers.
abbrev mutual
  pub value : Sum → Result ℤ
  value (one p) = value_product p
  value (more s op p) = value s >>= (λ a. value_product p >>= (λ b. as_int (sum_of op a b)))

  pub value_product : Product → Result ℤ
  value_product (single f) = value_factor f
  value_product (times p op f) =
      value_product p >>= (λ a. value_factor f >>= (λ b. product_of op a b))

  pub value_factor : Factor → Result ℤ
  value_factor (digit d h) = ok (pos d)
  value_factor (paren s) = value s
