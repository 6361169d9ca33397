-- ===== src/Parse/Postfix.antt =====
-- Function literals, unary and postfix expressions of src/parse.c.
use cript.Ir.Emit.{
  ir_builder_li, ir_builder_lstr, ir_builder_get_obj, ir_builder_call, ir_builder_ret,
  ir_builder_new_cls, ir_builder_undefined,
}
use cript.Lex.{tok_eof, tok_id, tok_num, tok_string}
use cript.Parse.Literals.{
  r_function, out_of_fuel, is_access, global_reg, reserved_word, named_key, parameter_loop,
  object_literal, array_literal, arguments,
}
use cript.Parse.Scopes.{
  text_this, exists_in_symbol_table, find_in_symbol_table, define_symbol, allocate_register,
  push_function, pop_function,
}
use cript.Parse.{
  Services, Parser, pure, ◌>>=◌, ◌>>◌, parse_error, require, peaking_value, build, change, fueled,
  peak, next, insert_str,
}
use cript.Prelude.{ℕ, zero, suc, ◌||◌, ◌==◌, if◌then◌else◌}
use cript.Table.{TableOps}
use cript.Word.Signed.{is_negative}

module _ {T P : Type 0} ⦃ops : TableOps T⦄ (env : Services T P) (expr : Parser T P ℕ)
    (statement : Parser T P (Unit {0})) where
  -- statements up to a closing brace or the end, which is the token that the result is
  unfoldable pub body_loop : ℕ → ℕ → Parser T P ℕ
  body_loop zero tok = out_of_fuel
  body_loop (suc n) tok =
      let more = (do statement; tok' ← peak env; body_loop n tok') in
      if tok == tok_eof || tok == b'}' then pure tok else more

  -- `this` is defined a second time, in the register of the arguments
  unfoldable pub define_this : Parser T P (Unit {0})
  define_this = do
    this_reg ← allocate_register
    require (this_reg == 1)
    string ← insert_str env text_this
    define_symbol string this_reg

  -- the parameters in parentheses
  unfoldable pub parameters : Parser T P (Unit {0})
  parameters = do
    bracket ← next env
    require (bracket == b'(')
    define_this
    tok ← peak env
    fueled (λ n. parameter_loop env n tok)
    close ← next env
    require (close == b')')

  -- the statements in braces
  unfoldable pub function_body : Parser T P (Unit {0})
  function_body = do
    bracket ← next env
    require (bracket == b'{')
    first ← peak env
    tok ← fueled (λ n. body_loop n first)
    require (tok == b'}')
    close ← next env
    pure tt

  -- `_parse_function_literal`
  unfoldable pub function_literal : Parser T P ℕ
  function_literal = do
    reserved_word env r_function
    push_function env
    parameters
    function_body
    undefined_reg ← build (λ b bb. ir_builder_undefined b bb)
    change (λ b bb. ir_builder_ret b bb undefined_reg)
    func ← pop_function env
    build (λ b bb. ir_builder_new_cls b bb func)

  -- an expression in parentheses
  unfoldable pub parenthesised : Parser T P ℕ
  parenthesised = do bracket ← next env; ret ← expr; tok ← next env; require (tok == b')'); pure ret

  unfoldable pub number_token : Parser T P ℕ
  number_token = do
    value ← peaking_value
    ret ← build (λ b bb. ir_builder_li b bb value)
    tok ← next env
    pure ret

  unfoldable pub string_token : Parser T P ℕ
  string_token = do
    value ← peaking_value
    ret ← build (λ b bb. ir_builder_lstr b bb value)
    tok ← next env
    pure ret

  -- a variable
  unfoldable pub variable : ℕ → Parser T P ℕ
  variable reg = do tok ← next env; pure reg

  -- a variable or a function
  unfoldable pub id_token : Parser T P ℕ
  id_token = do
    literal ← peaking_value
    exists ← exists_in_symbol_table literal
    require exists
    reg ← find_in_symbol_table literal
    (if reg == r_function
        then function_literal
        else (if is_negative reg then parse_error else variable reg))

  -- the switch of `_parse_unary_expr`
  unfoldable pub unary_switch : ℕ → Parser T P ℕ
  unary_switch tok =
      if tok == b'('
      then parenthesised
      else (if tok == tok_num
          then number_token
          else (if tok == tok_string
              then string_token
              else (if tok == tok_id
                  then id_token
                  else (if tok == b'{'
                      then object_literal env expr
                      else (if tok == b'[' then array_literal env expr else parse_error)))))

  unfoldable pub unary_expr : Parser T P ℕ
  unary_expr = peak env >>= unary_switch

  -- the object of a field, and the field
  unfoldable pub point_access : ℕ → Parser T P (ℕ × ℕ)
  point_access ret = do
    key_reg ← named_key env
    temp_reg ← build (λ b bb. ir_builder_get_obj b bb ret key_reg)
    pure (ret, temp_reg)

  unfoldable pub bracket_access : ℕ → Parser T P (ℕ × ℕ)
  bracket_access ret = do
    bracket ← next env
    key_reg ← expr
    temp_reg ← build (λ b bb. ir_builder_get_obj b bb ret key_reg)
    tok ← next env
    require (tok == b']')
    pure (ret, temp_reg)

  -- a call: the global object, and the result
  unfoldable pub call_access : ℕ → ℕ → Parser T P (ℕ × ℕ)
  call_access this_reg func_reg = do
    arg_reg ← arguments env expr this_reg
    temp_reg ← build (λ b bb. ir_builder_call b bb func_reg arg_reg)
    global ← global_reg env
    pure (global, temp_reg)

  -- one round of the loop of `_parse_postfix_expr`: `this_reg` and `ret` after it
  unfoldable pub access : ℕ → ℕ → ℕ → Parser T P (ℕ × ℕ)
  access tok this_reg ret =
      if tok == b'.'
      then point_access ret
      else (if tok == b'[' then bracket_access ret else call_access this_reg ret)

  unfoldable pub postfix_loop : ℕ → ℕ → ℕ → ℕ → Parser T P ℕ
  postfix_loop zero tok this_reg ret = out_of_fuel
  postfix_loop (suc n) tok this_reg ret =
      let more = (do r ← access tok this_reg ret; tok' ← peak env; postfix_loop n tok' r.0 r.1) in
      if is_access tok then more else pure ret

  -- the part of `_parse_postfix_expr` that needs the global object
  unfoldable pub postfix_rest : ℕ → ℕ → Parser T P ℕ
  postfix_rest tok ret = do this_reg ← global_reg env; fueled (λ n. postfix_loop n tok this_reg ret)

  unfoldable pub postfix_expr : Parser T P ℕ
  postfix_expr = do
    ret ← unary_expr
    tok ← peak env
    (if is_access tok then postfix_rest tok ret else pure ret)
