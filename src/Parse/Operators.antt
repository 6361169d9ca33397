-- ===== src/Parse/Operators.antt =====
-- The operators of src/parse.c, from prefix operators to `_parse_right_hand_expr`.
use cript.Ir.Emit.{
  ir_builder_li, ir_builder_add, ir_builder_sub, ir_builder_mul, ir_builder_div, ir_builder_mod,
  ir_builder_seq, ir_builder_slt, ir_builder_sle, ir_builder_lnot, ir_builder_mov_upper,
}
use cript.Ir.{ir_builder_new_basic_block, ir_builder_br, ir_builder_j}
use cript.Lex.{tok_le, tok_ge, tok_eq, tok_ne, tok_and, tok_or}
use cript.Parse.Literals.{out_of_fuel}
use cript.Parse.Postfix.{postfix_expr}
use cript.Parse.Scopes.{allocate_register}
use cript.Parse.{
  Services, Parser, pure, ◌>>=◌, ◌>>◌, function_stack_top, set_current_bb, build, change, fueled,
  peak, next,
}
use cript.Prelude.Run.{ok}
use cript.Prelude.{ℕ, zero, suc, Bool, ◌||◌, ◌==◌, if◌then◌else◌, Option, some}
use cript.Table.{TableOps}

abbrev pub is_mul : ℕ → Bool
is_mul tok = tok == b'*' || tok == b'/' || tok == b'%'

abbrev pub is_add : ℕ → Bool
is_add tok = tok == b'+' || tok == b'-'

abbrev pub is_compare : ℕ → Bool
is_compare tok =
    tok == b'<' || tok == b'>' || tok == tok_le || tok == tok_ge || tok == tok_eq || tok == tok_ne

module _ {T P : Type 0} ⦃ops : TableOps T⦄ where
  -- `ir_builder_new_basic_block` in the topmost function
  unfoldable pub new_basic_block : Option ℕ → Parser T P ℕ
  new_basic_block dominator = build (λ b bb. ok (ir_builder_new_basic_block b dominator))

  -- a new block under the current one
  unfoldable pub new_block_here : Parser T P ℕ
  new_block_here = do f ← function_stack_top; new_basic_block (some f.current_bb)

  unfoldable pub mul_step : ℕ → ℕ → ℕ → Parser T P ℕ
  mul_step tok l r =
      if tok == b'*'
      then build (λ b bb. ir_builder_mul b bb l r)
      else (if tok == b'/'
          then build (λ b bb. ir_builder_div b bb l r)
          else build (λ b bb. ir_builder_mod b bb l r))

  unfoldable pub add_step : ℕ → ℕ → ℕ → Parser T P ℕ
  add_step tok l r =
      if tok == b'+'
      then build (λ b bb. ir_builder_add b bb l r)
      else build (λ b bb. ir_builder_sub b bb l r)

  -- two of the operators swap their operands
  unfoldable pub compare_step : ℕ → ℕ → ℕ → Parser T P ℕ
  compare_step tok l r =
      let equal = build (λ b bb. ir_builder_seq b bb l r) in
      let differ = equal >>= (λ reg. build (λ b bb. ir_builder_lnot b bb reg)) in
      if tok == b'<'
      then build (λ b bb. ir_builder_slt b bb l r)
      else (if tok == b'>'
          then build (λ b bb. ir_builder_slt b bb r l)
          else (if tok == tok_le
              then build (λ b bb. ir_builder_sle b bb l r)
              else (if tok == tok_ge
                  then build (λ b bb. ir_builder_sle b bb r l)
                  else (if tok == tok_eq then equal else differ))))

  -- The branch of a logical operator: `and` goes on where the operand holds, `or` where it does not.
  unfoldable pub logic_branch : ℕ → ℕ → ℕ → ℕ → Parser T P (Unit {0})
  logic_branch token temp_reg next_block expr_end =
      if token == tok_and
      then change (λ b bb. ir_builder_br b bb temp_reg (some next_block) (some expr_end))
      else change (λ b bb. ir_builder_br b bb temp_reg (some expr_end) (some next_block))

  module _ (env : Services T P) where
    -- The loop of a left-associative operator, whose operands `operand` parses.
    unfoldable pub binary_loop :
        (ℕ → Bool) → Parser T P ℕ → (ℕ → ℕ → ℕ → Parser T P ℕ) → ℕ → ℕ → ℕ → Parser T P ℕ
    binary_loop is_op operand op zero tok ret = out_of_fuel
    binary_loop is_op operand op (suc n) tok ret =
        let more = (do
          token ← next env
          b_reg ← operand
          temp_reg ← op tok ret b_reg
          tok' ← peak env
          binary_loop is_op operand op n tok' temp_reg) in
        if is_op tok then more else pure ret

    unfoldable pub binary_expr :
        (ℕ → Bool) → Parser T P ℕ → (ℕ → ℕ → ℕ → Parser T P ℕ) → Parser T P ℕ
    binary_expr is_op operand op = do
      ret ← operand
      tok ← peak env
      fueled (λ n. binary_loop is_op operand op n tok ret)

    -- The loop of a logical operator: the register and the token after it
    unfoldable pub logic_loop : ℕ → Parser T P ℕ → ℕ → ℕ → ℕ → ℕ → ℕ → Parser T P ℕ
    logic_loop token operand zero temp_reg expr_end tok ret = out_of_fuel
    logic_loop token operand (suc n) temp_reg expr_end tok ret =
        let more = (do
          taken ← next env
          change (λ b bb. ir_builder_mov_upper b bb temp_reg ret)
          next_block ← new_block_here
          logic_branch token temp_reg next_block expr_end
          set_current_bb next_block
          ret' ← operand
          tok' ← peak env
          logic_loop token operand n temp_reg expr_end tok' ret') in
        if tok == token then more else pure ret

    -- the part of a logical operator that has a token of its own
    unfoldable pub logic_rest : ℕ → Parser T P ℕ → ℕ → ℕ → Parser T P ℕ
    logic_rest token operand tok ret = do
      temp_reg ← allocate_register
      expr_end ← new_block_here
      last ← fueled (λ n. logic_loop token operand n temp_reg expr_end tok ret)
      change (λ b bb. ir_builder_mov_upper b bb temp_reg last)
      change (λ b bb. ir_builder_j b bb (some expr_end))
      set_current_bb expr_end
      pure temp_reg

    unfoldable pub logic_expr : ℕ → Parser T P ℕ → Parser T P ℕ
    logic_expr token operand = do
      ret ← operand
      tok ← peak env
      (if tok == token then logic_rest token operand tok ret else pure ret)

    module _ (expr : Parser T P ℕ) (statement : Parser T P (Unit {0})) where
      unfoldable pub prefix_not : Parser T P ℕ → Parser T P ℕ
      prefix_not operand = do
        token ← next env
        ret ← operand
        build (λ b bb. ir_builder_lnot b bb ret)

      -- the operand is parsed before the zero is loaded
      unfoldable pub prefix_minus : Parser T P ℕ → Parser T P ℕ
      prefix_minus operand = do
        token ← next env
        ret ← operand
        zero_reg ← build (λ b bb. ir_builder_li b bb 0)
        build (λ b bb. ir_builder_sub b bb zero_reg ret)

      unfoldable pub prefix_loop : ℕ → Parser T P ℕ
      prefix_loop zero = out_of_fuel
      prefix_loop (suc n) =
          let operand = prefix_loop n in
          peak env >>= (λ tok.
            if tok == b'!'
            then prefix_not operand
            else (if tok == b'-' then prefix_minus operand else postfix_expr env expr statement))

      unfoldable pub prefix_expr : Parser T P ℕ
      prefix_expr = fueled prefix_loop

      unfoldable pub mul_expr : Parser T P ℕ
      mul_expr = binary_expr is_mul prefix_expr mul_step

      unfoldable pub add_expr : Parser T P ℕ
      add_expr = binary_expr is_add mul_expr add_step

      unfoldable pub compare_expr : Parser T P ℕ
      compare_expr = binary_expr is_compare add_expr compare_step

      unfoldable pub logic_and_expr : Parser T P ℕ
      logic_and_expr = logic_expr tok_and compare_expr

      unfoldable pub logic_or_expr : Parser T P ℕ
      logic_or_expr = logic_expr tok_or logic_and_expr

      unfoldable pub right_hand_expr : Parser T P ℕ
      right_hand_expr = logic_or_expr
