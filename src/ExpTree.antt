-- ===== src/ExpTree.antt =====
-- Expression Tree/exptree.cpp and `ExpEval` of Expression Tree.cpp: arithmetic on digits by a postfix
-- string and an expression tree.
-- Strings are lists of characters; the head of a list of trees or of operators is the back of the
-- source's stack. `back` and `pop_back` of an empty stack are undefined, and so is a result outside
-- of `int`.
pub mod Grammar
pub mod Arithmetic
pub mod Evaluate
pub mod Pending
pub mod Postfix
mod Tests
use eureka.Common.{
  ℕ, ◌+◌, ◌-◌, ◌/◌, ◌%◌, ◌^◌, Bool, true, false, ◌&&◌, ◌||◌, not, List, [], ◌∷◌, ◌++◌, Result, ok,
  err, undefined, check_failed, ensure, ◌>>=◌, ◌>>◌, leb, ltb, ◌==◌, if◌then◌else◌,
}
use eureka.Common.Int.{ℤ, pos, negsuc, pos_part, neg_part, sub_ℕ, ◌+ℤ◌, ◌-ℤ◌, ◌*ℤ◌, ltb_ℤ}

-- The characters that the source compares with.
abbrev pub left_paren : ℕ
left_paren = 40

abbrev pub right_paren : ℕ
right_paren = 41

abbrev pub asterisk : ℕ
asterisk = 42

abbrev pub plus : ℕ
plus = 43

abbrev pub minus : ℕ
minus = 45

abbrev pub slash : ℕ
slash = 47

abbrev pub is_digit : ℕ → Bool
is_digit c = leb 48 c && leb c 57

-- `node`, with a null pointer for a missing child.
pub data Node : Type 0 where
  null : Node
  node : ℕ → Node → Node → Node

-- A step of the loop of `ConstructExpTree`.
abbrev pub join : ℕ → List Node → Result (List Node)
join c (right ∷ left ∷ rest) = ok (node c left right ∷ rest)
join c (right ∷ []) = err undefined
join c [] = err undefined

unfoldable pub construct_step : ℕ → List Node → Result (List Node)
construct_step c stack = if is_digit c then ok (node (c - 48) null null ∷ stack) else join c stack

unfoldable pub construct_from : List ℕ → List Node → Result (List Node)
construct_from [] stack = ok stack
construct_from (c ∷ postfix) stack = construct_step c stack >>= construct_from postfix

unfoldable pub root_of : List Node → Result Node
root_of [] = err undefined
root_of (root ∷ rest) = ok root

unfoldable pub construct : List ℕ → Result Node
unfolding root_of
construct postfix = construct_from postfix [] >>= root_of

-- `INT_MIN`.
abbrev int_min : ℤ
int_min = negsuc (2 ^ 31 - 1)

abbrev in_int : ℤ → Result ℤ
in_int (pos n) = if ltb n (2 ^ 31) then ok (pos n) else err undefined
in_int (negsuc n) = if ltb n (2 ^ 31) then ok (negsuc n) else err undefined

-- The quotient goes towards zero.
abbrev divide : ℤ → ℤ → Result ℤ
divide a (pos ℕ.zero) = err undefined
divide (pos n) (pos (ℕ.suc m)) = in_int (pos (n / ℕ.suc m))
divide (pos n) (negsuc m) = in_int (sub_ℕ 0 (n / ℕ.suc m))
divide (negsuc n) (pos (ℕ.suc m)) = in_int (sub_ℕ 0 (ℕ.suc n / ℕ.suc m))
divide (negsuc n) (negsuc m) = in_int (pos (ℕ.suc n / ℕ.suc m))

-- The switch of `Calculate`.
abbrev computed : ℤ → ℤ → ℕ → Result ℤ
computed num num2 op =
    if op == plus
    then in_int (num +ℤ num2)
    else if op == minus
    then in_int (num -ℤ num2)
    else if op == asterisk
    then in_int (num *ℤ num2)
    else if op == slash
    then divide num num2
    else ok int_min

unfoldable pub calculate : ℤ → ℤ → ℕ → Result ℤ
calculate num num2 op = do
  ret ← computed num num2 op
  ensure (ltb_ℤ int_min ret) check_failed
  ok ret

abbrev pub is_leaf : Node → Node → Bool
is_leaf null null = true
is_leaf null (node d l r) = false
is_leaf (node d l r) right = false

-- `Eval`: a node with one child reads through the null pointer of the other.
unfoldable pub eval : Node → Result ℤ
eval null = err undefined
eval (node item left right) =
    let num1 = eval left in
    let num2 = eval right in
    let both = num1 >>= (λ a. num2 >>= (λ b. calculate a b item)) in
    if is_leaf left right then ok (pos item) else both

-- `GetPriority`.
abbrev pub get_priority : ℕ → Result ℕ
get_priority op =
    if op == plus || op == minus
    then ok 1
    else if op == asterisk || op == slash
    then ok 2
    else if op == left_paren || op == right_paren
    then ok 3
    else err check_failed

-- The postfix string and the stack of operators.
abbrev pub Postfix : Type 0
Postfix = List ℕ × List ℕ

-- The loop for a right parenthesis.
unfoldable pub close : List ℕ → List ℕ → Result Postfix
close postfix [] = err undefined
close postfix (op ∷ ops) =
    let further = close (postfix ++ op ∷ []) ops in
    if op == left_paren then ok (postfix, ops) else further

-- The loop for an operator.
unfoldable pub push_operator : ℕ → List ℕ → List ℕ → Result Postfix
push_operator c postfix [] = ok (postfix, c ∷ [])
push_operator c postfix (op ∷ ops) =
    let further = push_operator c (postfix ++ op ∷ []) ops in
    let by_priority = (do
      p ← get_priority c
      q ← get_priority op
      if ltb q p then ok (postfix, c ∷ op ∷ ops) else further) in
    if op == left_paren then ok (postfix, c ∷ op ∷ ops) else by_priority

unfoldable pub infix_step : ℕ → Postfix → Result Postfix
unfolding close push_operator
infix_step c (postfix, ops) =
    if is_digit c
    then ok (postfix ++ c ∷ [], ops)
    else if c == left_paren
    then ok (postfix, c ∷ ops)
    else if c == right_paren
    then close postfix ops
    else push_operator c postfix ops

unfoldable pub infix_from : List ℕ → Postfix → Result Postfix
infix_from [] state = ok state
infix_from (c ∷ exp) state = infix_step c state >>= infix_from exp

-- The operators that are left come last, the back of the stack first.
unfoldable pub infix_to_postfix : List ℕ → Result (List ℕ)
infix_to_postfix exp = do (postfix, ops) ← infix_from exp ([], []); ok (postfix ++ ops)

unfoldable pub exp_eval : List ℕ → Result ℤ
exp_eval exp = do pexp ← infix_to_postfix exp; root ← construct pexp; eval root
