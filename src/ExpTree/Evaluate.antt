-- ===== src/ExpTree/Evaluate.antt =====
-- `ConstructExpTree` and `Eval` of Expression Tree/exptree.cpp on the postfix string of an expression.
use eureka.Common.{
  bind_chain, ℕ, ◌+◌, ◌≤◌, ◌≡◌, refl, ap, ◌∙◌, true, false, List, [], ◌∷◌, ◌++◌, Result, ok, ◌>>=◌,
  arith,
}
use eureka.Common.Int.{ℤ, pos}
use mathlib.Core.Path.{fun_ext}
use eureka.ExpTree.Arithmetic.{calculate-add, calculate-mul}
use eureka.ExpTree.{
  is_digit, Node, null, node, construct_step, construct_from, root_of, construct, is_leaf, eval,
  calculate,
}
use eureka.ExpTree.Grammar.{
  AddOp, add, subtract, MulOp, multiply, divide, add_code, mul_code, Sum, one, more, Product,
  single, times, Factor, digit, paren, tree, tree_product, tree_factor, post, post_product,
  post_factor, value, value_product, value_factor,
}

construct_from-append :
    (xs ys : List ℕ) (stack : List Node)
    → construct_from (xs ++ ys) stack ≡ (construct_from xs stack >>= construct_from ys)
unfolding construct_from
construct_from-append [] ys stack = refl
construct_from-append (c ∷ xs) ys stack =
    bind_chain (construct_step c stack) (construct_from xs) (construct_from (xs ++ ys))
      (construct_from ys) (construct_from-append xs ys)

pub is_digit_lem : (d : ℕ) → d ≤ 9 → is_digit (48 + d) ≡ true
is_digit_lem d h = ground arith

construct_step-digit :
    (d : ℕ) (stack : List Node)
    → d ≤ 9
    → construct_step (48 + d) stack ≡ ok (node d null null ∷ stack)
unfolding construct_step
construct_step-digit d stack h =
    rw (is_digit_lem d h) (ap (λ n. ok (node n null null ∷ stack)) (omega arith))

construct_step-add :
    (op : AddOp) (a b : Node) (stack : List Node)
    → construct_step (add_code op) (b ∷ a ∷ stack) ≡ ok (node (add_code op) a b ∷ stack)
unfolding construct_step
construct_step-add add a b stack = refl
construct_step-add subtract a b stack = refl

construct_step-mul :
    (op : MulOp) (a b : Node) (stack : List Node)
    → construct_step (mul_code op) (b ∷ a ∷ stack) ≡ ok (node (mul_code op) a b ∷ stack)
unfolding construct_step
construct_step-mul multiply a b stack = refl
construct_step-mul divide a b stack = refl

construct_from-binary :
    (xs ys : List ℕ) (c : ℕ) (a b r : Node) (stack : List Node)
    → construct_from xs stack ≡ ok (a ∷ stack)
    → construct_from ys (a ∷ stack) ≡ ok (b ∷ a ∷ stack)
    → construct_step c (b ∷ a ∷ stack) ≡ ok (r ∷ stack)
    → construct_from (xs ++ ys ++ c ∷ []) stack ≡ ok (r ∷ stack)
unfolding construct_from
construct_from-binary xs ys c a b r stack left right joined =
    construct_from-append (xs ++ ys) (c ∷ []) stack
    ∙ ap (λ x. x >>= construct_from (c ∷ [])) (construct_from-append xs ys stack)
    ∙ rw (left, right, joined) refl

construct_from-digit :
    (d : ℕ) (stack : List Node)
    → d ≤ 9
    → construct_from ((48 + d) ∷ []) stack ≡ ok (node d null null ∷ stack)
unfolding construct_from
construct_from-digit d stack h = rw (construct_step-digit d stack h) refl

mutual
  construct_from-post :
      (s : Sum) (stack : List Node) → construct_from (post s) stack ≡ ok (tree s ∷ stack)
  construct_from-post (one p) stack = construct_from-post_product p stack
  construct_from-post (more s op p) stack =
      construct_from-binary (post s) (post_product p) (add_code op) (tree s) (tree_product p)
        (tree (more s op p)) stack (construct_from-post s stack)
        (construct_from-post_product p (tree s ∷ stack))
        (construct_step-add op (tree s) (tree_product p) stack)

  construct_from-post_product :
      (p : Product) (stack : List Node)
      → construct_from (post_product p) stack ≡ ok (tree_product p ∷ stack)
  construct_from-post_product (single f) stack = construct_from-post_factor f stack
  construct_from-post_product (times p op f) stack =
      construct_from-binary (post_product p) (post_factor f) (mul_code op) (tree_product p)
        (tree_factor f) (tree_product (times p op f)) stack (construct_from-post_product p stack)
        (construct_from-post_factor f (tree_product p ∷ stack))
        (construct_step-mul op (tree_product p) (tree_factor f) stack)

  construct_from-post_factor :
      (f : Factor) (stack : List Node)
      → construct_from (post_factor f) stack ≡ ok (tree_factor f ∷ stack)
  construct_from-post_factor (digit d h) stack = construct_from-digit d stack h
  construct_from-post_factor (paren s) stack = construct_from-post s stack

-- The tree of the postfix string of an expression is the expression's.
pub construct-post : (s : Sum) → construct (post s) ≡ ok (tree s)
unfolding construct root_of
construct-post s = rw (construct_from-post s []) refl

-- A tree has a node.
mutual
  not_leaf : (s : Sum) (r : Node) → is_leaf (tree s) r ≡ false
  not_leaf (one p) r = not_leaf_product p r
  not_leaf (more s op p) r = refl

  not_leaf_product : (p : Product) (r : Node) → is_leaf (tree_product p) r ≡ false
  not_leaf_product (single f) r = not_leaf_factor f r
  not_leaf_product (times p op f) r = refl

  not_leaf_factor : (f : Factor) (r : Node) → is_leaf (tree_factor f) r ≡ false
  not_leaf_factor (digit d h) r = refl
  not_leaf_factor (paren s) r = not_leaf s r

eval-node :
    (c : ℕ) (l r : Node) (x y : Result ℤ)
    → is_leaf l r ≡ false
    → eval l ≡ x
    → eval r ≡ y
    → eval (node c l r) ≡ (x >>= (λ a. y >>= (λ b. calculate a b c)))
unfolding eval
eval-node c l r x y inner left right = rw (inner, left, right) refl

eval-digit : (d : ℕ) → eval (node d null null) ≡ ok (pos d)
unfolding eval
eval-digit d = refl

mutual
  pub eval-tree : (s : Sum) → eval (tree s) ≡ value s
  eval-tree (one p) = eval-tree_product p
  eval-tree (more s op p) =
      eval-node (add_code op) (tree s) (tree_product p) (value s) (value_product p)
        (not_leaf s (tree_product p)) (eval-tree s) (eval-tree_product p)
      ∙ ap (λ f. value s >>= (λ a. value_product p >>= (λ b. f a b)))
          (fun_ext λ a. fun_ext λ b. calculate-add op a b)

  eval-tree_product : (p : Product) → eval (tree_product p) ≡ value_product p
  eval-tree_product (single f) = eval-tree_factor f
  eval-tree_product (times p op f) =
      eval-node (mul_code op) (tree_product p) (tree_factor f) (value_product p) (value_factor f)
        (not_leaf_product p (tree_factor f)) (eval-tree_product p) (eval-tree_factor f)
      ∙ ap (λ g. value_product p >>= (λ a. value_factor f >>= (λ b. g a b)))
          (fun_ext λ a. fun_ext λ b. calculate-mul op a b)

  eval-tree_factor : (f : Factor) → eval (tree_factor f) ≡ value_factor f
  eval-tree_factor (digit d h) = eval-digit d
  eval-tree_factor (paren s) = eval-tree s
