-- ===== src/Parse/Program.antt =====
-- Statements and whole programs of src/parse.c: `_parse_statement`, `parse`, the first state, and the main function.
use cript.Lex.{tok_eof, tok_id}
use cript.Parse.Branches.{if_else_stmt, while_stmt}
use cript.Parse.Literals.{r_let, r_if, r_else, r_while, r_function, r_return, r_halt, out_of_fuel}
use cript.Parse.Operators.{right_hand_expr}
use cript.Parse.Scopes.{
  text_global, exists_in_symbol_table, find_in_symbol_table, define_symbol, allocate_register,
  function_scope_new, parsed_function,
}
use cript.Parse.Statements.{let_stmt, expr_stmt, return_stmt, halt_stmt, block_stmt}
use cript.Parse.{
  ParsedFunction, ParseState, Services, Parser, pure, ◌>>=◌, ◌>>◌, parse_error, require,
  peaking_value, lift, fueled, peak, insert_str, function_stack_top,
}
use cript.Prelude.Run.{Run}
use cript.Prelude.{ℕ, zero, suc, ◌==◌, if◌then◌else◌, List, [], ◌∷◌}
use cript.Table.{TableOps}

module _ {T P : Type 0} ⦃ops : TableOps T⦄ (env : Services T P) where
  module _ (expr : Parser T P ℕ) (below : Parser T P (Unit {0})) where
    -- the inner switch of `_parse_statement`
    unfoldable pub word_switch : ℕ → Parser T P (Unit {0})
    word_switch reg =
        if reg == r_let
        then let_stmt env expr
        else (if reg == r_if
            then if_else_stmt env expr below
            else (if reg == r_while
                then while_stmt env expr below
                else (if reg == r_return
                    then return_stmt env expr below
                    else (if reg == r_halt then halt_stmt env expr below else expr_stmt env expr))))

    unfoldable pub word_statement : Parser T P (Unit {0})
    word_statement = do
      literal ← peaking_value
      exists ← exists_in_symbol_table literal
      require exists
      reg ← find_in_symbol_table literal
      word_switch reg

    -- the outer switch
    unfoldable pub statement_switch : ℕ → Parser T P (Unit {0})
    statement_switch tok =
        if tok == b'{'
        then block_stmt env expr below
        else (if tok == tok_id then word_statement else parse_error)

    unfoldable pub statement : Parser T P (Unit {0})
    statement = peak env >>= statement_switch

  -- `_parse_right_hand_expr` and `_parse_statement`, where expressions and statements within one another are as deep as
  -- the number says
  unfoldable pub level : ℕ → Parser T P ℕ × Parser T P (Unit {0})
  level zero = (out_of_fuel, out_of_fuel)
  level (suc depth) =
      let below = level depth in (right_hand_expr env below.0 below.1, statement below.0 below.1)

  -- Each expression and statement within another one comes after a token of it.
  unfoldable pub parse_right_hand_expr : Parser T P ℕ
  parse_right_hand_expr = fueled (λ depth. (level depth).0)

  unfoldable pub parse_statement : Parser T P (Unit {0})
  parse_statement = fueled (λ depth. (level depth).1)

  -- one word of `_parse_inject_reserved`
  unfoldable pub inject : List ℕ → ℕ → Parser T P (Unit {0})
  inject text word = do string ← insert_str env text; define_symbol string word

  unfoldable pub inject_reserved : Parser T P (Unit {0})
  inject_reserved = do
    inject (b'l' ∷ b'e' ∷ b't' ∷ []) r_let
    inject (b'i' ∷ b'f' ∷ []) r_if
    inject (b'e' ∷ b'l' ∷ b's' ∷ b'e' ∷ []) r_else
    inject (b'w' ∷ b'h' ∷ b'i' ∷ b'l' ∷ b'e' ∷ []) r_while
    inject (b'f' ∷ b'u' ∷ b'n' ∷ b'c' ∷ b't' ∷ b'i' ∷ b'o' ∷ b'n' ∷ []) r_function
    inject (b'r' ∷ b'e' ∷ b't' ∷ b'u' ∷ b'r' ∷ b'n' ∷ []) r_return
    inject (b'h' ∷ b'a' ∷ b'l' ∷ b't' ∷ []) r_halt

  -- the loop of `parse`
  unfoldable pub program_loop : ℕ → Parser T P (Unit {0})
  program_loop zero = out_of_fuel
  program_loop (suc n) =
      let more = parse_statement >>= (λ _. program_loop n) in
      peak env >>= (λ tok. if tok == tok_eof then pure tt else more)

  unfoldable pub parse : Parser T P (Unit {0})
  parse = do inject_reserved; fueled program_loop

  -- `parse_get_main_function`: that of the topmost function
  unfoldable pub parse_get_main_function : Parser T P (ParsedFunction T)
  parse_get_main_function = do f ← function_stack_top; lift (parsed_function env f)

  -- `_parse_state_new`, with the empty pool of strings
  unfoldable pub parse_state_new : P → List ℕ → Run (Unit {0} × ParseState T P)
  parse_state_new pool content =
      (do
        global_reg ← allocate_register
        require (global_reg == 1)
        string ← insert_str env text_global
        define_symbol string global_reg)
        (record {
          lex = record {
            place = record { line = 0; column = 0; current = content };
            string_pool = pool;
            peaking_token = 0;
            peaking_value = 0;
          };
          functions = [];
          top = function_scope_new;
          below = [];
        })
