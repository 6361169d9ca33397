-- ===== src/Parse/Termination/Operators.antt =====
-- The operators of src/parse.c come to an end, and take a token or more.
use cript.Lex.{tok_and, tok_or}
use cript.Parse.Emits.{
  stops, ir_builder_li-Stops, ir_builder_add-Stops, ir_builder_sub-Stops, ir_builder_mul-Stops,
  ir_builder_div-Stops, ir_builder_mod-Stops, ir_builder_seq-Stops, ir_builder_slt-Stops,
  ir_builder_sle-Stops, ir_builder_lnot-Stops, ir_builder_mov_upper-Stops, ir_builder_br-Stops,
  ir_builder_j-Stops,
}
use cript.Parse.Keeps.{
  >>=-Keeps, if_Keeps, function_stack_top-Keeps, set_current_bb-Keeps, build-Keeps, change-Keeps,
}
use cript.Parse.Operators.{
  is_mul, is_add, is_compare, new_basic_block, new_block_here, mul_step, add_step, compare_step,
  logic_branch, binary_loop, binary_expr, logic_loop, logic_rest, logic_expr, prefix_not,
  prefix_minus, prefix_loop, prefix_expr, mul_expr, add_expr, compare_expr, logic_and_expr,
  logic_or_expr, right_hand_expr,
}
use cript.Parse.Rules.{
  Keeps, Runs, Taking, bind, keep, kept, anywhere, weaken, never, branch, branch_at, done,
  fueled-Runs, fueled_take, smaller,
}
use cript.Parse.Termination.Postfix.{postfix_expr-Runs}
use cript.Parse.Termination.Scopes.{allocate_register-Keeps}
use cript.Parse.Tokens.{EndsAll, skip, take_at, look, look_past}
use cript.Parse.{Services, Parser}
use cript.Prelude.{ℕ, zero, suc, ◌≤◌, ◌<◌, Bool, ◌==◌, Option, some, arith}
use cript.Table.{TableOps}

module _ {T P : Type 0} ⦃ops : TableOps T⦄ where
  pub new_basic_block-Keeps :
      (dominator : Option ℕ) → Keeps {T = T} {P = P} (new_basic_block dominator)
  unfolding new_basic_block
  new_basic_block-Keeps dominator = build-Keeps (λ b bb. stops)

  pub new_block_here-Keeps : Keeps {T = T} {P = P} new_block_here
  unfolding new_block_here
  new_block_here-Keeps = >>=-Keeps function_stack_top-Keeps (λ f. new_basic_block-Keeps _)

  mul_step-Keeps : (tok l r : ℕ) → Keeps {T = T} {P = P} (mul_step tok l r)
  unfolding mul_step
  mul_step-Keeps tok l r = if_Keeps _ (build-Keeps (λ b bb. ir_builder_mul-Stops b bb l r)) (
      if_Keeps _ (build-Keeps (λ b bb. ir_builder_div-Stops b bb l r))
        (build-Keeps (λ b bb. ir_builder_mod-Stops b bb l r)))

  add_step-Keeps : (tok l r : ℕ) → Keeps {T = T} {P = P} (add_step tok l r)
  unfolding add_step
  add_step-Keeps tok l r =
      if_Keeps _ (build-Keeps (λ b bb. ir_builder_add-Stops b bb l r))
        (build-Keeps (λ b bb. ir_builder_sub-Stops b bb l r))

  compare_step-Keeps : (tok l r : ℕ) → Keeps {T = T} {P = P} (compare_step tok l r)
  unfolding compare_step
  compare_step-Keeps tok l r = if_Keeps _ (build-Keeps (λ b bb. ir_builder_slt-Stops b bb l r)) (
      if_Keeps _ (build-Keeps (λ b bb. ir_builder_slt-Stops b bb r l)) (
        if_Keeps _ (build-Keeps (λ b bb. ir_builder_sle-Stops b bb l r)) (
          if_Keeps _ (build-Keeps (λ b bb. ir_builder_sle-Stops b bb r l)) (
            if_Keeps _ (build-Keeps (λ b bb. ir_builder_seq-Stops b bb l r)) (
              >>=-Keeps (build-Keeps (λ b bb. ir_builder_seq-Stops b bb l r))
                (λ reg. build-Keeps (λ b bb. ir_builder_lnot-Stops b bb reg)))))))

  logic_branch-Keeps :
      (token temp next end : ℕ) → Keeps {T = T} {P = P} (logic_branch token temp next end)
  unfolding logic_branch
  logic_branch-Keeps token temp next end =
      if_Keeps _ (change-Keeps (λ b bb. ir_builder_br-Stops b bb temp _ _))
        (change-Keeps (λ b bb. ir_builder_br-Stops b bb temp _ _))

module _ {T P : Type 0} ⦃ops : TableOps T⦄ {Fine : P → Type 0} {env : Services T P}
    (all : EndsAll Fine env) where
  module _ {d : ℕ} {operand : Parser T P ℕ} (takes : Taking Fine d operand) where
    module _ (is_op : ℕ → Bool) {op : ℕ → ℕ → ℕ → Parser T P ℕ}
        (keeps : (tok l r : ℕ) → Keeps (op tok l r)) where
      binary_loop-Runs :
          (n a tok ret : ℕ)
          → a ≤ n
          → a ≤ d
          → Runs Fine a a (binary_loop env is_op operand op n tok ret)
      unfolding binary_loop
      binary_loop-Runs n zero tok ret le ld = never
      binary_loop-Runs zero (suc a) tok ret le ld = absurd (omega (arith, le))
      binary_loop-Runs (suc n) (suc a) tok ret le ld =
          branch (is_op tok)
            (skip all (λ token. bind (takes a ld) (λ b_reg. weaken (omega arith) (
              keep (keeps tok ret b_reg) (λ temp. look_past all (λ tok'.
                binary_loop-Runs n a tok' temp (omega (arith, le)) (omega (arith, ld))))))))
            (done ret)

      binary_expr-Taking : Taking Fine d (binary_expr env is_op operand op)
      unfolding binary_expr
      binary_expr-Taking a ld = bind (takes a ld) (λ ret. look_past all (λ tok.
          fueled-Runs (λ n c le lc. binary_loop-Runs n c tok ret le (omega (arith, lc, ld)))))

    logic_loop-Runs :
        (token n a temp_reg expr_end tok ret : ℕ)
        → a ≤ n
        → a ≤ d
        → Runs Fine a a (logic_loop env token operand n temp_reg expr_end tok ret)
    unfolding logic_loop
    logic_loop-Runs token n zero temp_reg expr_end tok ret le ld = never
    logic_loop-Runs token zero (suc a) temp_reg expr_end tok ret le ld = absurd (omega (arith, le))
    logic_loop-Runs token (suc n) (suc a) temp_reg expr_end tok ret le ld =
        branch _
          (skip all (λ taken.
            keep (change-Keeps (λ b bb. ir_builder_mov_upper-Stops b bb temp_reg ret)) (λ _.
              keep new_block_here-Keeps (λ next.
                keep (logic_branch-Keeps token temp_reg next expr_end) (λ _.
                  keep (set_current_bb-Keeps next) (λ _. bind (takes a ld) (λ ret'.
                    weaken (omega arith) (
                      look_past all (λ tok'.
                        logic_loop-Runs token n a temp_reg expr_end tok' ret' (omega (arith, le))
                          (omega (arith, ld)))))))))))
          (done ret)

    logic_rest-Runs :
        (token a tok ret : ℕ) → a ≤ d → Runs Fine a a (logic_rest env token operand tok ret)
    unfolding logic_rest
    logic_rest-Runs token a tok ret ld = keep allocate_register-Keeps (λ temp.
        keep new_block_here-Keeps (λ end.
          bind
            (fueled-Runs
              (λ n c le lc. logic_loop-Runs token n c temp end tok ret le (omega (arith, lc, ld))))
            (λ last. keep (change-Keeps (λ b bb. ir_builder_mov_upper-Stops b bb temp last)) (λ _.
              keep (change-Keeps (λ b bb. ir_builder_j-Stops b bb (some end)))
                (λ _. keep (set_current_bb-Keeps end) (λ _. done temp))))))

    logic_expr-Taking : (token : ℕ) → Taking Fine d (logic_expr env token operand)
    unfolding logic_expr
    logic_expr-Taking token a ld = bind (takes a ld) (λ ret.
        look_past all
          (λ tok. branch _ (logic_rest-Runs token a tok ret (omega (arith, ld))) (done ret)))

  module _ {d : ℕ} {expr : Parser T P ℕ} {statement : Parser T P (Unit {0})}
      (takes : Taking Fine d expr) (steps : Taking Fine d statement) where
    prefix_loop-Runs :
        (n a : ℕ) → a < n → a ≤ d → Runs Fine (suc a) a (prefix_loop env expr statement n)
    unfolding prefix_loop prefix_not prefix_minus
    prefix_loop-Runs zero a lt ld = absurd (omega (arith, lt))
    prefix_loop-Runs (suc n) a lt ld = look all (λ tok.
        branch_at (tok == b'!')
          (λ e. take_at all (ground (arith, e)) (ground (arith, e)) (λ _.
            bind
              (smaller
                (λ c lc. prefix_loop-Runs n c (omega (arith, lt, lc)) (omega (arith, lc, ld))))
              (λ ret. kept (build-Keeps (λ b bb. ir_builder_lnot-Stops b bb ret)))))
          (branch_at (tok == b'-')
            (λ e. take_at all (ground (arith, e)) (ground (arith, e)) (λ _.
              bind
                (smaller
                  (λ c lc. prefix_loop-Runs n c (omega (arith, lt, lc)) (omega (arith, lc, ld))))
                (λ ret. keep (build-Keeps (λ b bb. ir_builder_li-Stops b bb 0)) (λ zero_reg.
                  kept (build-Keeps (λ b bb. ir_builder_sub-Stops b bb zero_reg ret))))))
            (anywhere (postfix_expr-Runs all takes steps a ld))))

    prefix_expr-Taking : Taking Fine (suc d) (prefix_expr env expr statement)
    unfolding prefix_expr
    prefix_expr-Taking a le =
        fueled_take (λ n c lt lc. prefix_loop-Runs n c lt (omega (arith, lc, le)))

    mul_expr-Taking : Taking Fine (suc d) (mul_expr env expr statement)
    unfolding mul_expr
    mul_expr-Taking = binary_expr-Taking prefix_expr-Taking is_mul mul_step-Keeps

    add_expr-Taking : Taking Fine (suc d) (add_expr env expr statement)
    unfolding add_expr
    add_expr-Taking = binary_expr-Taking mul_expr-Taking is_add add_step-Keeps

    compare_expr-Taking : Taking Fine (suc d) (compare_expr env expr statement)
    unfolding compare_expr
    compare_expr-Taking = binary_expr-Taking add_expr-Taking is_compare compare_step-Keeps

    logic_and_expr-Taking : Taking Fine (suc d) (logic_and_expr env expr statement)
    unfolding logic_and_expr
    logic_and_expr-Taking = logic_expr-Taking compare_expr-Taking tok_and

    logic_or_expr-Taking : Taking Fine (suc d) (logic_or_expr env expr statement)
    unfolding logic_or_expr
    logic_or_expr-Taking = logic_expr-Taking logic_and_expr-Taking tok_or

    pub right_hand_expr-Taking : Taking Fine (suc d) (right_hand_expr env expr statement)
    unfolding right_hand_expr
    right_hand_expr-Taking = logic_or_expr-Taking
