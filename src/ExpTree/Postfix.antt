-- ===== src/ExpTree/Postfix.antt =====
-- `InfixToPostfix` of Expression Tree/exptree.cpp on the string of an expression, and `ExpEval`.
use eureka.Common.{
  ℕ, ◌+◌, ◌≤◌, ◌≡◌, refl, sym, ap, ◌∙◌, inr, List, [], ◌∷◌, ◌++◌, append_assoc, append-nil, ok,
  ◌>>=◌, bind_chain,
}
use eureka.ExpTree.{
  left_paren, right_paren, Postfix, close, push_operator, infix_step, infix_from, infix_to_postfix,
  exp_eval,
}
use eureka.ExpTree.Grammar.{
  AddOp, add, subtract, MulOp, multiply, divide, add_code, mul_code, Sum, one, more, Product,
  single, times, Factor, digit, paren, print, print_product, print_factor, post, post_product,
  post_factor, value,
}
use eureka.ExpTree.Evaluate.{construct-post, eval-tree, is_digit_lem}
use eureka.ExpTree.Pending.{
  out_product, pending_product, out, pending, out-pending, written, moves, close-add, close-mul,
  push_operator-add_add, push_operator-add_mul, push_operator-mul_mul, IsBase, IsLow, IsBase-IsLow,
  push_operator-base, push_operator-low,
}

infix_from-append :
    (xs ys : List ℕ) (state : Postfix)
    → infix_from (xs ++ ys) state ≡ (infix_from xs state >>= infix_from ys)
unfolding infix_from
infix_from-append [] ys state = refl
infix_from-append (c ∷ xs) ys state =
    bind_chain (infix_step c state) (infix_from xs) (infix_from (xs ++ ys)) (infix_from ys)
      (infix_from-append xs ys)

infix_from-binary :
    (xs ys : List ℕ) (c : ℕ) (s0 s1 s2 s3 : Postfix)
    → infix_from xs s0 ≡ ok s1
    → infix_step c s1 ≡ ok s2
    → infix_from ys s2 ≡ ok s3
    → infix_from (xs ++ c ∷ ys) s0 ≡ ok s3
unfolding infix_from
infix_from-binary xs ys c s0 s1 s2 s3 left step right =
    infix_from-append xs (c ∷ ys) s0 ∙ rw (left, step) right

infix_from-digit :
    (d : ℕ) (x ops : List ℕ)
    → d ≤ 9
    → infix_from ((48 + d) ∷ []) (x, ops) ≡ ok (x ++ (48 + d) ∷ [], ops)
unfolding infix_from infix_step
infix_from-digit d x ops h = rw (is_digit_lem d h) refl

infix_from-left :
    (exp x ops : List ℕ)
    → infix_from (left_paren ∷ exp) (x, ops) ≡ infix_from exp (x, left_paren ∷ ops)
unfolding infix_from infix_step
infix_from-left exp x ops = refl

infix_from-nil : (state : Postfix) → infix_from [] state ≡ ok state
unfolding infix_from
infix_from-nil state = refl

infix_step-right :
    (s : Sum) (x ops : List ℕ)
    → infix_step right_paren (x ++ out s, pending s ++ left_paren ∷ ops) ≡ ok (x ++ post s, ops)
unfolding infix_step close
infix_step-right s x ops =
    moves close close-add close-mul s (x ++ out s) (left_paren ∷ ops)
    ∙ ap (λ y. ok (y, ops)) (written x s)

infix_step-add :
    (op : AddOp) (s : Sum) (x ops : List ℕ)
    → IsBase ops
    → infix_step (add_code op) (x ++ out s, pending s ++ ops) ≡ ok (x ++ post s, add_code op ∷ ops)
unfolding infix_step
infix_step-add op s x ops b =
    pushes op
    ∙ moves (push_operator (add_code op)) (push_operator-add_add op) (push_operator-add_mul op) s
        (x ++ out s) ops
    ∙ push_operator-base (add_code op) ((x ++ out s) ++ pending s) ops b
    ∙ ap (λ y. ok (y, add_code op ∷ ops)) (written x s)
  where
    pushes :
        (op : AddOp)
        → infix_step (add_code op) (x ++ out s, pending s ++ ops)
          ≡ push_operator (add_code op) (x ++ out s) (pending s ++ ops)
    pushes add = refl
    pushes subtract = refl

infix_step-mul :
    (op : MulOp) (p : Product) (x ops : List ℕ)
    → IsLow ops
    → infix_step (mul_code op) (x ++ out_product p, pending_product p ++ ops)
      ≡ ok (x ++ post_product p, mul_code op ∷ ops)
unfolding infix_step
infix_step-mul op p x ops b = pushes op ∙ popped p
  where
    pushes :
        (op : MulOp)
        → infix_step (mul_code op) (x ++ out_product p, pending_product p ++ ops)
          ≡ push_operator (mul_code op) (x ++ out_product p) (pending_product p ++ ops)
    pushes multiply = refl
    pushes divide = refl

    popped :
        (p : Product)
        → push_operator (mul_code op) (x ++ out_product p) (pending_product p ++ ops)
          ≡ ok (x ++ post_product p, mul_code op ∷ ops)
    popped (single f) = push_operator-low op (x ++ post_factor f) ops b
    popped (times q op' f) =
        push_operator-mul_mul op op' (x ++ out_product (times q op' f)) ops
        ∙ push_operator-low op ((x ++ out_product (times q op' f)) ++ mul_code op' ∷ []) ops b
        ∙ ap (λ y. ok (y, mul_code op ∷ ops))
            (append_assoc x (out_product (times q op' f)) (mul_code op' ∷ []))

mutual
  infix_from-print :
      (s : Sum) (x ops : List ℕ)
      → IsBase ops
      → infix_from (print s) (x, ops) ≡ ok (x ++ out s, pending s ++ ops)
  infix_from-print (one p) x ops b = infix_from-print_product p x ops (IsBase-IsLow ops b)
  infix_from-print (more s op p) x ops b =
      infix_from-binary (print s) (print_product p) (add_code op) (x, ops)
        (x ++ out s, pending s ++ ops) (x ++ post s, add_code op ∷ ops)
        ((x ++ post s) ++ out_product p, pending_product p ++ add_code op ∷ ops)
        (infix_from-print s x ops b) (infix_step-add op s x ops b)
        (infix_from-print_product p (x ++ post s) (add_code op ∷ ops) (inr (op, refl)))
      ∙ ap (λ y. ok (y, pending_product p ++ add_code op ∷ ops))
          (append_assoc x (post s) (out_product p))
      ∙ ap (λ y. ok (x ++ (post s ++ out_product p), y))
          (sym (append_assoc (pending_product p) (add_code op ∷ []) ops))

  infix_from-print_product :
      (p : Product) (x ops : List ℕ)
      → IsLow ops
      → infix_from (print_product p) (x, ops) ≡ ok (x ++ out_product p, pending_product p ++ ops)
  infix_from-print_product (single f) x ops b = infix_from-print_factor f x ops
  infix_from-print_product (times p op f) x ops b =
      infix_from-binary (print_product p) (print_factor f) (mul_code op) (x, ops)
        (x ++ out_product p, pending_product p ++ ops) (x ++ post_product p, mul_code op ∷ ops)
        ((x ++ post_product p) ++ post_factor f, mul_code op ∷ ops)
        (infix_from-print_product p x ops b) (infix_step-mul op p x ops b)
        (infix_from-print_factor f (x ++ post_product p) (mul_code op ∷ ops))
      ∙ ap (λ y. ok (y, mul_code op ∷ ops)) (append_assoc x (post_product p) (post_factor f))

  infix_from-print_factor :
      (f : Factor) (x ops : List ℕ)
      → infix_from (print_factor f) (x, ops) ≡ ok (x ++ post_factor f, ops)
  infix_from-print_factor (digit d h) x ops = infix_from-digit d x ops h
  infix_from-print_factor (paren s) x ops =
      infix_from-left (print s ++ right_paren ∷ []) x ops
      ∙ infix_from-binary (print s) [] right_paren (x, left_paren ∷ ops)
          (x ++ out s, pending s ++ left_paren ∷ ops) (x ++ post s, ops) (x ++ post s, ops)
          (infix_from-print s x (left_paren ∷ ops) refl) (infix_step-right s x ops)
          (infix_from-nil (x ++ post s, ops))

-- The string of an expression of the grammar becomes its postfix string, in which each operator
-- follows its two operands.
pub infix_to_postfix-print : (s : Sum) → infix_to_postfix (print s) ≡ ok (post s)
unfolding infix_to_postfix
infix_to_postfix-print s =
    rw (infix_from-print s [] [] tt)
      (ap (λ y. ok (out s ++ y)) (append-nil (pending s)) ∙ ap ok (out-pending s))

-- `ExpEval` of the string of an expression is the value of the expression: the results of its
-- operators, each binding to the left and a product before a sum, or the first fault among them.
pub exp_eval-print : (s : Sum) → exp_eval (print s) ≡ value s
unfolding exp_eval
exp_eval-print s = rw (infix_to_postfix-print s, construct-post s) (eval-tree s)
