-- ===== src/Parse/Statements.antt =====
-- Assignments, declarations and the other statements without branches of src/parse.c.
use cript.Ir.Emit.{
  ir_builder_mov, ir_builder_get_obj, ir_builder_call, ir_builder_ret, ir_builder_undefined,
  ir_builder_halt,
}
use cript.Lex.{tok_eof, tok_id}
use cript.Parse.Literals.{
  r_let, r_return, r_halt, out_of_fuel, is_access, global_reg, reserved_word, named_key, set_obj,
  arguments,
}
use cript.Parse.Scopes.{
  defined_here, exists_in_symbol_table, find_in_symbol_table, define_symbol, assign_symbol,
  push_scope, join_scope,
}
use cript.Parse.{
  Services, Parser, pure, ◌>>=◌, ◌>>◌, parse_error, require, peaking_value, function_stack_top,
  build, change, fueled, peak, next,
}
use cript.Prelude.{ℕ, zero, suc, not, ◌||◌, ◌==◌, if◌then◌else◌, Option, none, some}
use cript.Table.{TableOps}
use cript.Word.Signed.{is_negative}

-- The target of an assignment: the object, the object of a call, and the key, which a variable does not have.
pub record Target : Type 0 where
  pub object_reg : ℕ
  pub this_reg : ℕ
  pub key_reg : Option ℕ

module _ {T P : Type 0} ⦃ops : TableOps T⦄ where
  unfoldable pub used_registers : Parser T P ℕ
  used_registers = do f ← function_stack_top; pure f.builder.register_nr

  -- A value that used no new register is moved to one: a variable has a register of its own.
  unfoldable pub own_register : ℕ → ℕ → Parser T P ℕ
  own_register current_reg reg = do
    used ← used_registers
    (if used == current_reg then build (λ b bb. ir_builder_mov b bb reg) else pure reg)

  -- the end of an assignment
  unfoldable pub store_result : ℕ → Option ℕ → ℕ → ℕ → ℕ → Parser T P (Unit {0})
  store_result object_reg (some key_reg) literal current_reg result_reg =
      set_obj object_reg result_reg key_reg
  store_result object_reg none literal current_reg result_reg = do
    reg ← own_register current_reg result_reg
    assign_symbol literal reg

module _ {T P : Type 0} ⦃ops : TableOps T⦄ (env : Services T P) (expr : Parser T P ℕ) where
  -- the identifier that an assignment begins with
  unfoldable pub target_name : Parser T P ℕ
  target_name = do
    tok ← next env
    require (tok == tok_id)
    literal ← peaking_value
    exists ← exists_in_symbol_table literal
    require exists
    reg ← find_in_symbol_table literal
    require (not (is_negative reg))
    pure literal

  unfoldable pub bracket_key : Parser T P ℕ
  bracket_key = do
    bracket ← next env
    key_reg ← expr
    tok ← next env
    require (tok == b']')
    pure key_reg

  unfoldable pub target_call : Target → Parser T P Target
  target_call t = do
    arg_reg ← arguments env expr t.this_reg
    temp_reg ← build (λ b bb. ir_builder_call b bb t.object_reg arg_reg)
    global ← global_reg env
    pure (record { object_reg = temp_reg; this_reg = global; key_reg = some 0 })

  -- The field is read if an access follows.
  unfoldable pub target_field : Target → ℕ → ℕ → Parser T P Target
  target_field t key_reg tok =
      let read = (do
        temp_reg ← build (λ b bb. ir_builder_get_obj b bb t.object_reg key_reg)
        pure (record { object_reg = temp_reg; this_reg = t.object_reg; key_reg = some 0 })) in
      if is_access tok then read else pure (record t { key_reg = some key_reg })

  unfoldable pub target_key : ℕ → Parser T P ℕ
  target_key tok = if tok == b'.' then named_key env else bracket_key

  -- one round of the loop of `_parse_assignment_expr`
  unfoldable pub target_access : ℕ → Target → Parser T P Target
  target_access tok t =
      let field = (do key_reg ← target_key tok; tok' ← peak env; target_field t key_reg tok') in
      if tok == b'(' then target_call t else field

  unfoldable pub target_loop : ℕ → ℕ → Target → Parser T P Target
  target_loop zero tok t = out_of_fuel
  target_loop (suc n) tok t =
      let more = (do t' ← target_access tok t; tok' ← peak env; target_loop n tok' t') in
      if is_access tok then more else pure t

  unfoldable pub assign_value : ℕ → Target → Parser T P (Unit {0})
  assign_value literal t = do
    equals ← next env
    current_reg ← used_registers
    result_reg ← expr
    store_result t.object_reg t.key_reg literal current_reg result_reg

  unfoldable pub assignment_expr : Parser T P (Unit {0})
  assignment_expr = do
    literal ← target_name
    object_reg ← find_in_symbol_table literal
    this_reg ← global_reg env
    first ← peak env
    t ← fueled (λ n.
        target_loop n first
          (record { object_reg = object_reg; this_reg = this_reg; key_reg = none }))
    tok ← peak env
    (if tok == b'=' then assign_value literal t else (if tok == b';' then pure tt else parse_error))

  -- `;`
  unfoldable pub semicolon : Parser T P (Unit {0})
  semicolon = do tok ← next env; require (tok == b';')

  -- the value of a declaration
  unfoldable pub let_value : Parser T P ℕ
  let_value = do
    equals ← next env
    current_reg ← used_registers
    new_reg ← expr
    own_register current_reg new_reg

  -- one declaration; the first token is `let` or a comma
  unfoldable pub declaration : Parser T P (Unit {0})
  declaration = do
    first ← next env
    tok ← next env
    require (tok == tok_id)
    literal ← peaking_value
    f ← function_stack_top
    require (not (defined_here f literal))
    tok' ← peak env
    reg ← (if tok' == b'=' then let_value else build (λ b bb. ir_builder_undefined b bb))
    define_symbol literal reg

  unfoldable pub let_loop : ℕ → Parser T P (Unit {0})
  let_loop zero = out_of_fuel
  let_loop (suc n) =
      let more = let_loop n in
      do declaration; tok ← peak env; (if tok == b',' then more else pure tt)

  -- a reserved word that has been read ahead
  unfoldable pub reserved_ahead : ℕ → Parser T P (Unit {0})
  reserved_ahead word = do
    tok ← peak env
    require (tok == tok_id)
    literal ← peaking_value
    reg ← find_in_symbol_table literal
    require (reg == word)

  unfoldable pub let_stmt : Parser T P (Unit {0})
  let_stmt = do reserved_ahead r_let; fueled let_loop; semicolon

  unfoldable pub expr_stmt : Parser T P (Unit {0})
  expr_stmt = do assignment_expr; semicolon

  unfoldable pub return_value : ℕ → Parser T P ℕ
  return_value tok = if tok == b';' then build (λ b bb. ir_builder_undefined b bb) else expr

  module _ (statement : Parser T P (Unit {0})) where
    unfoldable pub return_stmt : Parser T P (Unit {0})
    return_stmt = do
      reserved_word env r_return
      tok ← peak env
      ret_reg ← return_value tok
      change (λ b bb. ir_builder_ret b bb ret_reg)
      semicolon

    unfoldable pub halt_stmt : Parser T P (Unit {0})
    halt_stmt = do reserved_word env r_halt; change (λ b bb. ir_builder_halt b bb); semicolon

    -- the loop of `_parse_block_stmt`
    unfoldable pub block_loop : ℕ → Parser T P (Unit {0})
    block_loop zero = out_of_fuel
    block_loop (suc n) =
        let more = statement >>= (λ _. block_loop n) in
        peak env >>= (λ tok. if tok == tok_eof || tok == b'}' then pure tt else more)

    unfoldable pub block_stmt : Parser T P (Unit {0})
    block_stmt = do
      tok ← next env
      require (tok == b'{')
      push_scope
      fueled block_loop
      join_scope env
      close ← next env
      require (not (close == tok_eof))
