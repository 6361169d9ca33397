-- ===== src/Parse/Balance/Operators.antt =====
-- The operators leave the numbers of scopes as they are.
use cript.Parse.Balance.{
  IsBalanced, both, either, pure-IsBalanced, out_of_fuel-IsBalanced, function_stack_top-IsBalanced,
  set_current_bb-IsBalanced, build-IsBalanced, change-IsBalanced, fueled-IsBalanced,
  peak-IsBalanced, next-IsBalanced,
}
use cript.Parse.Balance.Scopes.{allocate_register-IsBalanced}
use cript.Lex.{tok_le, tok_ge, tok_eq}
use cript.Parse.Balance.Postfix.{postfix_expr-IsBalanced}
use cript.Parse.Operators.{
  is_mul, is_add, is_compare, new_basic_block, new_block_here, mul_step, add_step, compare_step,
  logic_branch, binary_loop, binary_expr, logic_loop, logic_rest, logic_expr, prefix_not,
  prefix_minus, prefix_loop, prefix_expr, mul_expr, add_expr, compare_expr, logic_and_expr,
  logic_or_expr, right_hand_expr,
}
use cript.Parse.{Services, Parser}
use cript.Prelude.{ℕ, zero, suc, Bool, Option, ◌==◌}
use cript.Table.{TableOps}

module _ {T P : Type 0} ⦃ops : TableOps T⦄ where
  pub new_basic_block-IsBalanced :
      (dominator : Option ℕ) → IsBalanced {T = T} {P = P} (new_basic_block dominator)
  unfolding new_basic_block
  new_basic_block-IsBalanced dominator = (build-IsBalanced _)

  new_block_here-IsBalanced : IsBalanced {T = T} {P = P} new_block_here
  unfolding new_block_here
  new_block_here-IsBalanced = both function_stack_top-IsBalanced (λ f. new_basic_block-IsBalanced _)

  mul_step-IsBalanced : (tok l r : ℕ) → IsBalanced {T = T} {P = P} (mul_step tok l r)
  unfolding mul_step
  mul_step-IsBalanced tok l r =
      either (tok == b'*') (build-IsBalanced _)
        (either (tok == b'/') (build-IsBalanced _) (build-IsBalanced _))

  add_step-IsBalanced : (tok l r : ℕ) → IsBalanced {T = T} {P = P} (add_step tok l r)
  unfolding add_step
  add_step-IsBalanced tok l r = either _ (build-IsBalanced _) (build-IsBalanced _)

  compare_step-IsBalanced : (tok l r : ℕ) → IsBalanced {T = T} {P = P} (compare_step tok l r)
  unfolding compare_step
  compare_step-IsBalanced tok l r = either (tok == b'<') (build-IsBalanced _) (
      either (tok == b'>') (build-IsBalanced _) (
        either (tok == tok_le) (build-IsBalanced _) (
          either (tok == tok_ge) (build-IsBalanced _) (
            either (tok == tok_eq) (build-IsBalanced _)
              (both (build-IsBalanced _) (λ reg. build-IsBalanced _))))))

  logic_branch-IsBalanced :
      (token temp next end : ℕ) → IsBalanced {T = T} {P = P} (logic_branch token temp next end)
  unfolding logic_branch
  logic_branch-IsBalanced token temp next end = either _ (change-IsBalanced _) (change-IsBalanced _)

module _ {T P : Type 0} ⦃ops : TableOps T⦄ (env : Services T P) where
  module _ {operand : Parser T P ℕ} (even : IsBalanced operand) where
    binary_loop-IsBalanced :
        (is_op : ℕ → Bool) (op : ℕ → ℕ → ℕ → Parser T P ℕ)
        → ((tok l r : ℕ) → IsBalanced (op tok l r))
        → (n tok ret : ℕ) → IsBalanced (binary_loop env is_op operand op n tok ret)
    unfolding binary_loop
    binary_loop-IsBalanced is_op op h zero tok ret = out_of_fuel-IsBalanced
    binary_loop-IsBalanced is_op op h (suc n) tok ret =
        either (is_op tok)
          (both (next-IsBalanced env) (λ token. both even (λ reg. both (h tok ret reg) (λ temp.
            both (peak-IsBalanced env) (λ tok'. binary_loop-IsBalanced is_op op h n tok' temp)))))
          (pure-IsBalanced _)

    binary_expr-IsBalanced :
        (is_op : ℕ → Bool) (op : ℕ → ℕ → ℕ → Parser T P ℕ)
        → ((tok l r : ℕ) → IsBalanced (op tok l r))
        → IsBalanced (binary_expr env is_op operand op)
    unfolding binary_expr
    binary_expr-IsBalanced is_op op h = both even (λ ret.
        both (peak-IsBalanced env)
          (λ tok. fueled-IsBalanced (λ n. binary_loop-IsBalanced is_op op h n tok ret)))

    logic_loop-IsBalanced :
        (token n temp end tok ret : ℕ)
        → IsBalanced (logic_loop env token operand n temp end tok ret)
    unfolding logic_loop
    logic_loop-IsBalanced token zero temp end tok ret = out_of_fuel-IsBalanced
    logic_loop-IsBalanced token (suc n) temp end tok ret =
        either _
          (both (next-IsBalanced env) (λ taken. both (change-IsBalanced _) (λ _.
            both new_block_here-IsBalanced (λ next.
              both (logic_branch-IsBalanced token temp next end) (λ _.
                both (set_current_bb-IsBalanced next) (λ _. both even (λ ret'.
                  both (peak-IsBalanced env)
                    (λ tok'. logic_loop-IsBalanced token n temp end tok' ret'))))))))
          (pure-IsBalanced _)

    logic_expr-IsBalanced : (token : ℕ) → IsBalanced (logic_expr env token operand)
    unfolding logic_expr logic_rest
    logic_expr-IsBalanced token = both even (λ ret. both (peak-IsBalanced env) (λ tok.
        either _
          (both allocate_register-IsBalanced (λ temp. both new_block_here-IsBalanced (λ end.
            both (fueled-IsBalanced (λ n. logic_loop-IsBalanced token n temp end tok ret)) (λ last.
              both (change-IsBalanced _) (λ _.
                both (change-IsBalanced _)
                  (λ _. both (set_current_bb-IsBalanced end) (λ _. (pure-IsBalanced _))))))))
          (pure-IsBalanced _)))

  module _ {expr : Parser T P ℕ} {statement : Parser T P (Unit {0})} (even : IsBalanced expr)
      (level : IsBalanced statement) where
    prefix_loop-IsBalanced : (n : ℕ) → IsBalanced (prefix_loop env expr statement n)
    unfolding prefix_loop prefix_not prefix_minus
    prefix_loop-IsBalanced zero = out_of_fuel-IsBalanced
    prefix_loop-IsBalanced (suc n) = both (peak-IsBalanced env) (λ tok.
        either _
          (both (next-IsBalanced env)
            (λ token. both (prefix_loop-IsBalanced n) (λ ret. (build-IsBalanced _))))
          (either _
            (both (next-IsBalanced env) (λ token.
              both (prefix_loop-IsBalanced n)
                (λ ret. both (build-IsBalanced _) (λ zero_reg. (build-IsBalanced _)))))
            (postfix_expr-IsBalanced env even level)))

    pub right_hand_expr-IsBalanced : IsBalanced (right_hand_expr env expr statement)
    unfolding right_hand_expr logic_or_expr logic_and_expr compare_expr add_expr mul_expr
        prefix_expr
    right_hand_expr-IsBalanced =
        logic_expr-IsBalanced
          (logic_expr-IsBalanced
            (binary_expr-IsBalanced
              (binary_expr-IsBalanced
                (binary_expr-IsBalanced (fueled-IsBalanced prefix_loop-IsBalanced) is_mul _
                  mul_step-IsBalanced)
                is_add _ add_step-IsBalanced)
              is_compare _ compare_step-IsBalanced)
            _)
          _
