-- ===== src/Parse/Branches.antt =====
-- `if` and `while` of src/parse.c: the blocks, and the moves that bring the registers of a variable together.
use cript.Hash.{HashNode}
use cript.Ir.Emit.{ir_builder_mov_upper}
use cript.Ir.{ir_builder_br, ir_builder_j}
use cript.Lex.{tok_id}
use cript.Parse.Literals.{reserved_word, r_if, r_else, r_while}
use cript.Parse.Operators.{new_basic_block}
use cript.Parse.Scopes.{
  insert_into_scope, find_in_symbol_table, push_scope, unlink_scope, prepend_scope, join_scope,
  pop_scope,
}
use cript.Parse.{
  Services, Parser, pure, ◌>>=◌, ◌>>◌, lift, require, peaking_value, function_stack_top, set_top,
  set_current_bb, change_at, peak, next,
}
use cript.Prelude.Run.{}
use cript.Prelude.{ℕ, Bool, false, ◌==◌, if◌then◌else◌, none, some, List, [], ◌∷◌}
use cript.Table.{TableOps}
use cript.Value.{value_is_undefined, value_from_int, value_undefined}
use cript.Vm.Registers.{int_of}

module _ {T P : Type 0} ⦃ops : TableOps T⦄ where
  unfoldable pub current_block : Parser T P ℕ
  current_block = do f ← function_stack_top; pure f.current_bb

  abbrev pub mov_upper_at : ℕ → ℕ → ℕ → Parser T P (Unit {0})
  mov_upper_at bb rd rs = change_at bb (λ b bb. ir_builder_mov_upper b bb rd rs)

  abbrev pub j_at : ℕ → ℕ → Parser T P (Unit {0})
  j_at bb successor_bb = change_at bb (λ b bb. ir_builder_j b bb (some successor_bb))

  abbrev pub br_at : ℕ → ℕ → ℕ → ℕ → Parser T P (Unit {0})
  br_at bb reg then_bb else_bb =
      change_at bb (λ b bb. ir_builder_br b bb reg (some then_bb) (some else_bb))

  -- The tables `original` and `newer`: the registers before and after the first branch of an `if`
  unfoldable pub then_loop : List HashNode → T × T → Parser T P (T × T)
  then_loop [] tables = pure tables
  then_loop (node ∷ nodes) (original, newer) = do
    reg ← find_in_symbol_table node.key
    then_loop nodes
        (ops.update original node.key (value_from_int reg), ops.update newer node.key node.value)

  -- A variable that only the second branch changes
  unfoldable pub else_only : ℕ → HashNode → Parser T P (Unit {0})
  else_only then_bb node = do
    inner ← lift (int_of node.value)
    outer ← find_in_symbol_table node.key
    mov_upper_at then_bb inner outer
    f ← function_stack_top
    set_top (record f { scope = insert_into_scope f.scope node.key inner })

  -- A variable that both branches change is no longer in `newer`.
  unfoldable pub both_changed : ℕ → T → HashNode → Parser T P T
  both_changed else_bb newer node = do
    rd ← lift (int_of (ops.find newer node.key))
    rs ← lift (int_of node.value)
    mov_upper_at else_bb rd rs
    pure (ops.set newer node.key value_undefined)

  unfoldable pub else_loop : ℕ → ℕ → List HashNode → T → Parser T P T
  else_loop then_bb else_bb [] newer = pure newer
  else_loop then_bb else_bb (node ∷ nodes) newer =
      let alone = else_only then_bb node >>= (λ _. else_loop then_bb else_bb nodes newer) in
      let both =
        both_changed else_bb newer node >>= (λ newer'. else_loop then_bb else_bb nodes newer') in
      if value_is_undefined (ops.find newer node.key) then alone else both

  -- the variables that only the first branch changes
  unfoldable pub then_only : ℕ → List HashNode → Parser T P (Unit {0})
  then_only else_bb [] = pure tt
  then_only else_bb (node ∷ nodes) = do
    inner ← lift (int_of node.value)
    outer ← find_in_symbol_table node.key
    mov_upper_at else_bb inner outer
    then_only else_bb nodes

  -- the same without a second branch
  unfoldable pub no_else_loop : ℕ → T → List HashNode → Parser T P (Unit {0})
  no_else_loop else_bb original [] = pure tt
  no_else_loop else_bb original (node ∷ nodes) = do
    inner ← lift (int_of node.value)
    outer ← lift (int_of (ops.find original node.key))
    (if inner == outer then pure tt else mov_upper_at else_bb inner outer)
    no_else_loop else_bb original nodes

  -- the registers before a loop, to which its last block moves those after it
  unfoldable pub body_loop_moves : ℕ → List HashNode → T → Parser T P T
  body_loop_moves body_bb [] newer = pure newer
  body_loop_moves body_bb (node ∷ nodes) newer = do
    old_reg ← find_in_symbol_table node.key
    rs ← lift (int_of node.value)
    mov_upper_at body_bb old_reg rs
    body_loop_moves body_bb nodes (ops.update newer node.key (value_from_int old_reg))

  unfoldable pub end_loop_moves : ℕ → List HashNode → Parser T P (Unit {0})
  end_loop_moves end_bb [] = pure tt
  end_loop_moves end_bb (node ∷ nodes) = do
    reg ← find_in_symbol_table node.key
    rs ← lift (int_of node.value)
    mov_upper_at end_bb reg rs
    end_loop_moves end_bb nodes

module _ {T P : Type 0} ⦃ops : TableOps T⦄ (env : Services T P) (expr : Parser T P ℕ)
    (statement : Parser T P (Unit {0})) where
  -- a condition in parentheses
  unfoldable pub condition : Parser T P ℕ
  condition = do
    bracket ← next env
    require (bracket == b'(')
    reg ← expr
    close ← next env
    require (close == b')')
    pure reg

  -- the first branch of an `if`: the block it ends in, and the tables
  unfoldable pub then_branch : ℕ → Parser T P (ℕ × T × T)
  then_branch then_start_bb = do
    set_current_bb then_start_bb
    push_scope
    statement
    then_bb ← current_block
    then_scope ← unlink_scope
    tables ← then_loop (env.entries then_scope.upper_table) (ops.empty, ops.empty)
    prepend_scope then_scope
    join_scope env
    pure (then_bb, tables.0, tables.1)

  -- the second branch: the block it ends in
  unfoldable pub else_branch : ℕ → ℕ → T → Parser T P ℕ
  else_branch then_bb else_start_bb newer = do
    tok ← next env
    set_current_bb else_start_bb
    push_scope
    statement
    else_bb ← current_block
    else_scope ← unlink_scope
    newer' ← else_loop then_bb else_bb (env.entries else_scope.upper_table) newer
    then_only else_bb (env.entries newer')
    prepend_scope else_scope
    pop_scope env
    pure else_bb

  unfoldable pub without_else : ℕ → T → T → Parser T P ℕ
  without_else else_start_bb original newer = do
    no_else_loop else_start_bb original (env.entries newer)
    pure else_start_bb

  -- Is the word read ahead `else`?
  unfoldable pub else_ahead : ℕ → Parser T P Bool
  else_ahead tok =
      let word = (do
        literal ← peaking_value
        reg ← find_in_symbol_table literal
        pure (reg == r_else)) in
      if tok == tok_id then word else pure false

  unfoldable pub if_else_stmt : Parser T P (Unit {0})
  if_else_stmt = do
    reserved_word env r_if
    reg ← condition
    if_start ← current_block
    then_start_bb ← new_basic_block (some if_start)
    then_end ← then_branch then_start_bb
    else_start_bb ← new_basic_block (some if_start)
    br_at if_start reg then_start_bb else_start_bb
    tok ← peak env
    has_else ← else_ahead tok
    else_end ←
        (if has_else
          then else_branch then_end.0 else_start_bb then_end.2
          else without_else else_start_bb then_end.1 then_end.2)
    if_end ← new_basic_block (some if_start)
    j_at then_end.0 if_end
    j_at else_end if_end
    set_current_bb if_end

  -- The body of a loop: its last block, the block after it, and the registers before it.
  unfoldable pub while_body : ℕ → ℕ → Parser T P (ℕ × ℕ)
  while_body while_cond_end while_body_start = do
    set_current_bb while_body_start
    push_scope
    statement
    while_body_end ← current_block
    inner_scope ← unlink_scope
    while_end ← new_basic_block (some while_cond_end)
    newer ← body_loop_moves while_body_end (env.entries inner_scope.upper_table) ops.empty
    prepend_scope inner_scope
    join_scope env
    end_loop_moves while_end (env.entries newer)
    pure (while_body_end, while_end)

  unfoldable pub while_stmt : Parser T P (Unit {0})
  while_stmt = do
    reserved_word env r_while
    while_cond_start ← new_basic_block none
    before ← current_block
    j_at before while_cond_start
    set_current_bb while_cond_start
    reg ← condition
    while_cond_end ← current_block
    while_body_start ← new_basic_block (some while_cond_end)
    ends ← while_body while_cond_end while_body_start
    br_at while_cond_end reg while_body_start ends.1
    j_at ends.0 while_cond_start
    set_current_bb ends.1
