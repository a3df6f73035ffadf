-- ===== src/ExpTree/Tests.antt =====
-- Runs of the expression evaluator.
use eureka.Common.{◌≡◌, refl, codes, ok, err, undefined, check_failed, arith}
use eureka.Common.Int.{pos, negsuc, ◌+ℤ◌, ◌-ℤ◌, ◌*ℤ◌}
use eureka.ExpTree.{
  construct_step, construct_from, root_of, construct, calculate, eval, close, push_operator,
  infix_step, infix_from, infix_to_postfix, exp_eval,
}
use eureka.ExpTree.Grammar.{
  Sum, one, more, single, times, digit, paren, add, subtract, multiply, print, value,
}
use eureka.ExpTree.Postfix.{exp_eval-print}

program : Unit {0}
unfolding construct_step construct_from root_of construct calculate eval close push_operator
    infix_step infix_from infix_to_postfix exp_eval ◌+ℤ◌ ◌-ℤ◌ ◌*ℤ◌
program = tt

precedence : exp_eval (codes "1-2*3+4") ≡ ok (negsuc 0)
unfolding program
precedence = refl

quotient : exp_eval (codes "(1-8)/2") ≡ ok (negsuc 2)
unfolding program
quotient = refl

by_zero : exp_eval (codes "1/(2-2)") ≡ err undefined
unfolding program
by_zero = refl

unmatched : exp_eval (codes "1)") ≡ err undefined
unfolding program
unmatched = refl

unknown : exp_eval (codes "1+2^3") ≡ err check_failed
unfolding program
unknown = refl

-- 8 - 2 * (1 + 3)
abbrev sample : Sum
sample = more (one (single (digit 8 (omega arith)))) subtract (
    times (single (digit 2 (omega arith))) multiply
      (paren (more (one (single (digit 1 (omega arith)))) add (single (digit 3 (omega arith))))))

text_of_sample : print sample ≡ codes "8-2*(1+3)"
text_of_sample = refl

value_of_sample : value sample ≡ ok (pos 0)
unfolding program
value_of_sample = refl

exp_eval-print_example : exp_eval (print sample) ≡ value sample
exp_eval-print_example = exp_eval-print sample
