-- ===== src/ExpTree/Pending.antt =====
-- The stack of operators of `InfixToPostfix` in Expression Tree/exptree.cpp, while it reads an
-- expression.
use eureka.Common.{
  ℕ, ◌≡◌, refl, sym, ap, ◌∙◌, ◌⊎◌, inl, inr, List, [], ◌∷◌, ◌++◌, append_assoc, append-nil, Result,
  ok,
}
use eureka.ExpTree.{left_paren, Postfix, close, push_operator}
use eureka.ExpTree.Grammar.{
  AddOp, add, subtract, MulOp, multiply, divide, add_code, mul_code, Sum, one, more, Product,
  single, times, post, post_product, post_factor,
}

-- What is written behind an expression, and the operators that are still on the stack.
abbrev pub out_product : Product → List ℕ
out_product (single f) = post_factor f
out_product (times p op f) = post_product p ++ post_factor f

abbrev pub pending_product : Product → List ℕ
pending_product (single f) = []
pending_product (times p op f) = mul_code op ∷ []

abbrev pub out : Sum → List ℕ
out (one p) = out_product p
out (more s op p) = post s ++ out_product p

abbrev pub pending : Sum → List ℕ
pending (one p) = pending_product p
pending (more s op p) = pending_product p ++ add_code op ∷ []

pub out-pending_product : (p : Product) → out_product p ++ pending_product p ≡ post_product p
out-pending_product (single f) = append-nil (post_factor f)
out-pending_product (times p op f) = refl

pub out-pending : (s : Sum) → out s ++ pending s ≡ post s
out-pending (one p) = out-pending_product p
out-pending (more s op p) =
    sym (append_assoc (post s ++ out_product p) (pending_product p) (add_code op ∷ []))
    ∙ ap (λ x. x ++ add_code op ∷ [])
        (append_assoc (post s) (out_product p) (pending_product p)
          ∙ ap (◌++◌ (post s)) (out-pending_product p))

pub written : (x : List ℕ) (s : Sum) → (x ++ out s) ++ pending s ≡ x ++ post s
written x s = append_assoc x (out s) (pending s) ∙ ap (◌++◌ x) (out-pending s)

-- A loop that moves operators to the postfix string.
module _ (loop : List ℕ → List ℕ → Result Postfix)
    (moves_add : (op : AddOp) (x ops : List ℕ)
      → loop x (add_code op ∷ ops) ≡ loop (x ++ add_code op ∷ []) ops)
    (moves_mul : (op : MulOp) (x ops : List ℕ)
      → loop x (mul_code op ∷ ops) ≡ loop (x ++ mul_code op ∷ []) ops) where
  moves_product :
      (p : Product) (x ops : List ℕ)
      → loop x (pending_product p ++ ops) ≡ loop (x ++ pending_product p) ops
  moves_product (single f) x ops = ap (λ y. loop y ops) (sym (append-nil x))
  moves_product (times p op f) x ops = moves_mul op x ops

  pub moves : (s : Sum) (x ops : List ℕ) → loop x (pending s ++ ops) ≡ loop (x ++ pending s) ops
  moves (one p) x ops = moves_product p x ops
  moves (more s op p) x ops =
      ap (loop x) (append_assoc (pending_product p) (add_code op ∷ []) ops)
      ∙ moves_product p x (add_code op ∷ ops)
      ∙ moves_add op (x ++ pending_product p) ops
      ∙ ap (λ y. loop y ops) (append_assoc x (pending_product p) (add_code op ∷ []))

pub close-add :
    (op : AddOp) (x ops : List ℕ) → close x (add_code op ∷ ops) ≡ close (x ++ add_code op ∷ []) ops
unfolding close
close-add add x ops = refl
close-add subtract x ops = refl

pub close-mul :
    (op : MulOp) (x ops : List ℕ) → close x (mul_code op ∷ ops) ≡ close (x ++ mul_code op ∷ []) ops
unfolding close
close-mul multiply x ops = refl
close-mul divide x ops = refl

pub push_operator-add_add :
    (c op : AddOp) (x ops : List ℕ)
    → push_operator (add_code c) x (add_code op ∷ ops)
      ≡ push_operator (add_code c) (x ++ add_code op ∷ []) ops
unfolding push_operator
push_operator-add_add add add x ops = refl
push_operator-add_add add subtract x ops = refl
push_operator-add_add subtract add x ops = refl
push_operator-add_add subtract subtract x ops = refl

pub push_operator-add_mul :
    (c : AddOp) (op : MulOp) (x ops : List ℕ)
    → push_operator (add_code c) x (mul_code op ∷ ops)
      ≡ push_operator (add_code c) (x ++ mul_code op ∷ []) ops
unfolding push_operator
push_operator-add_mul add multiply x ops = refl
push_operator-add_mul add divide x ops = refl
push_operator-add_mul subtract multiply x ops = refl
push_operator-add_mul subtract divide x ops = refl

pub push_operator-mul_mul :
    (c op : MulOp) (x ops : List ℕ)
    → push_operator (mul_code c) x (mul_code op ∷ ops)
      ≡ push_operator (mul_code c) (x ++ mul_code op ∷ []) ops
unfolding push_operator
push_operator-mul_mul multiply multiply x ops = refl
push_operator-mul_mul multiply divide x ops = refl
push_operator-mul_mul divide multiply x ops = refl
push_operator-mul_mul divide divide x ops = refl

-- The stack begins with a parenthesis, or also with a weak operator, or is empty.
abbrev pub IsBase : List ℕ → Type 0
IsBase [] = Unit {0}
IsBase (o ∷ ops) = o ≡ left_paren

abbrev pub IsLow : List ℕ → Type 0
IsLow [] = Unit {0}
IsLow (o ∷ ops) = (o ≡ left_paren) ⊎ ((op : AddOp) × (o ≡ add_code op))

pub IsBase-IsLow : (ops : List ℕ) → IsBase ops → IsLow ops
IsBase-IsLow [] b = tt
IsBase-IsLow (o ∷ ops) b = inl b

pub push_operator-base :
    (c : ℕ) (x ops : List ℕ) → IsBase ops → push_operator c x ops ≡ ok (x, c ∷ ops)
unfolding push_operator
push_operator-base c x [] b = refl
push_operator-base c x (o ∷ ops) b = rw b refl

pub push_operator-low :
    (c : MulOp) (x ops : List ℕ)
    → IsLow ops
    → push_operator (mul_code c) x ops ≡ ok (x, mul_code c ∷ ops)
unfolding push_operator
push_operator-low c x [] b = refl
push_operator-low c x (o ∷ ops) (inl b) = rw b refl
push_operator-low multiply x (o ∷ ops) (inr (add, b)) = rw b refl
push_operator-low multiply x (o ∷ ops) (inr (subtract, b)) = rw b refl
push_operator-low divide x (o ∷ ops) (inr (add, b)) = rw b refl
push_operator-low divide x (o ∷ ops) (inr (subtract, b)) = rw b refl
