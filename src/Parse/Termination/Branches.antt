-- ===== src/Parse/Termination/Branches.antt =====
-- `if` and `while` of src/parse.c come to an end, and take a token or more.
use cript.Hash.{HashNode}
use cript.Parse.Branches.{
  current_block, then_loop, else_only, both_changed, else_loop, then_only, no_else_loop,
  body_loop_moves, end_loop_moves, condition, then_branch, else_branch, without_else, else_ahead,
  if_else_stmt, while_body, while_stmt,
}
use cript.Parse.Emits.{ir_builder_mov_upper-Stops, ir_builder_br-Stops, ir_builder_j-Stops}
use cript.Parse.Keeps.{
  >>=-Keeps, if_Keeps, pure-Keeps, lift-Keeps, peaking_value-Keeps, function_stack_top-Keeps,
  set_top-Keeps, set_current_bb-Keeps, change_at-Keeps,
}
use cript.Parse.Rules.{Keeps, Runs, Taking, bind, keep, kept, branch, done, required, within}
use cript.Parse.Termination.Literals.{reserved_word-Runs}
use cript.Parse.Termination.Operators.{new_basic_block-Keeps}
use cript.Parse.Termination.Scopes.{
  int_of-Stops, find_in_symbol_table-Keeps, push_scope-Keeps, unlink_scope-Keeps,
  prepend_scope-Keeps, join_scope-Keeps, pop_scope-Keeps,
}
use cript.Parse.Tokens.{EndsAll, skip, look_past}
use cript.Parse.{Services, Parser}
use cript.Prelude.{ℕ, suc, ◌≤◌, List, [], ◌∷◌}
use cript.Table.{TableOps}

module _ {T P : Type 0} ⦃ops : TableOps T⦄ where
  current_block-Keeps : Keeps {T = T} {P = P} current_block
  unfolding current_block
  current_block-Keeps = >>=-Keeps function_stack_top-Keeps (λ f. pure-Keeps _)

  then_loop-Keeps :
      (nodes : List HashNode) (tables : T × T) → Keeps {T = T} {P = P} (then_loop nodes tables)
  unfolding then_loop
  then_loop-Keeps [] tables = pure-Keeps tables
  then_loop-Keeps (node ∷ nodes) (original, newer) =
      >>=-Keeps (find_in_symbol_table-Keeps node.key) (λ reg. then_loop-Keeps nodes _)

  else_only-Keeps : (then_bb : ℕ) (node : HashNode) → Keeps {T = T} {P = P} (else_only then_bb node)
  unfolding else_only
  else_only-Keeps then_bb node = >>=-Keeps (lift-Keeps (int_of-Stops node.value)) (λ inner.
      >>=-Keeps (find_in_symbol_table-Keeps node.key) (λ outer.
        >>=-Keeps (change_at-Keeps then_bb (λ b bb. ir_builder_mov_upper-Stops b bb inner outer))
          (λ _. >>=-Keeps function_stack_top-Keeps (λ f. set_top-Keeps _))))

  both_changed-Keeps :
      (else_bb : ℕ) (newer : T) (node : HashNode)
      → Keeps {T = T} {P = P} (both_changed else_bb newer node)
  unfolding both_changed
  both_changed-Keeps else_bb newer node = >>=-Keeps (lift-Keeps (int_of-Stops _)) (λ rd.
      >>=-Keeps (lift-Keeps (int_of-Stops node.value)) (λ rs.
        >>=-Keeps (change_at-Keeps else_bb (λ b bb. ir_builder_mov_upper-Stops b bb rd rs))
          (λ _. pure-Keeps _)))

  else_loop-Keeps :
      (then_bb else_bb : ℕ) (nodes : List HashNode) (newer : T)
      → Keeps {T = T} {P = P} (else_loop then_bb else_bb nodes newer)
  unfolding else_loop
  else_loop-Keeps then_bb else_bb [] newer = pure-Keeps newer
  else_loop-Keeps then_bb else_bb (node ∷ nodes) newer =
      if_Keeps _
        (>>=-Keeps (else_only-Keeps then_bb node)
          (λ _. else_loop-Keeps then_bb else_bb nodes newer))
        (>>=-Keeps (both_changed-Keeps else_bb newer node)
          (λ newer'. else_loop-Keeps then_bb else_bb nodes newer'))

  then_only-Keeps :
      (else_bb : ℕ) (nodes : List HashNode) → Keeps {T = T} {P = P} (then_only else_bb nodes)
  unfolding then_only
  then_only-Keeps else_bb [] = pure-Keeps tt
  then_only-Keeps else_bb (node ∷ nodes) =
      >>=-Keeps (lift-Keeps (int_of-Stops node.value)) (λ inner.
        >>=-Keeps (find_in_symbol_table-Keeps node.key) (λ outer.
          >>=-Keeps (change_at-Keeps else_bb (λ b bb. ir_builder_mov_upper-Stops b bb inner outer))
            (λ _. then_only-Keeps else_bb nodes)))

  no_else_loop-Keeps :
      (else_bb : ℕ) (original : T) (nodes : List HashNode)
      → Keeps {T = T} {P = P} (no_else_loop else_bb original nodes)
  unfolding no_else_loop
  no_else_loop-Keeps else_bb original [] = pure-Keeps tt
  no_else_loop-Keeps else_bb original (node ∷ nodes) =
      >>=-Keeps (lift-Keeps (int_of-Stops node.value)) (λ inner.
        >>=-Keeps (lift-Keeps (int_of-Stops _)) (λ outer.
          >>=-Keeps
            (if_Keeps _ (pure-Keeps tt)
              (change_at-Keeps else_bb (λ b bb. ir_builder_mov_upper-Stops b bb inner outer)))
            (λ _. no_else_loop-Keeps else_bb original nodes)))

  body_loop_moves-Keeps :
      (body_bb : ℕ) (nodes : List HashNode) (newer : T)
      → Keeps {T = T} {P = P} (body_loop_moves body_bb nodes newer)
  unfolding body_loop_moves
  body_loop_moves-Keeps body_bb [] newer = pure-Keeps newer
  body_loop_moves-Keeps body_bb (node ∷ nodes) newer =
      >>=-Keeps (find_in_symbol_table-Keeps node.key) (λ old.
        >>=-Keeps (lift-Keeps (int_of-Stops node.value)) (λ rs.
          >>=-Keeps (change_at-Keeps body_bb (λ b bb. ir_builder_mov_upper-Stops b bb old rs))
            (λ _. body_loop_moves-Keeps body_bb nodes _)))

  end_loop_moves-Keeps :
      (end_bb : ℕ) (nodes : List HashNode) → Keeps {T = T} {P = P} (end_loop_moves end_bb nodes)
  unfolding end_loop_moves
  end_loop_moves-Keeps end_bb [] = pure-Keeps tt
  end_loop_moves-Keeps end_bb (node ∷ nodes) =
      >>=-Keeps (find_in_symbol_table-Keeps node.key) (λ reg.
        >>=-Keeps (lift-Keeps (int_of-Stops node.value)) (λ rs.
          >>=-Keeps (change_at-Keeps end_bb (λ b bb. ir_builder_mov_upper-Stops b bb reg rs))
            (λ _. end_loop_moves-Keeps end_bb nodes)))

module _ {T P : Type 0} ⦃ops : TableOps T⦄ {Fine : P → Type 0} {env : Services T P}
    (all : EndsAll Fine env) {d : ℕ} {expr : Parser T P ℕ} {statement : Parser T P (Unit {0})}
    (takes : Taking Fine d expr) (steps : Taking Fine d statement) where
  condition-Runs : (a : ℕ) → a ≤ d → Runs Fine a a (condition env expr statement)
  unfolding condition
  condition-Runs a ld = skip all (λ bracket.
      required _
        (λ _. bind (within takes ld) (λ reg. skip all (λ close. required _ (λ _. done reg)))))

  then_branch-Runs : (a start : ℕ) → a ≤ d → Runs Fine a a (then_branch env expr statement start)
  unfolding then_branch
  then_branch-Runs a start ld = keep (set_current_bb-Keeps start) (λ _. keep push_scope-Keeps (λ _.
      bind (within steps ld) (λ _. keep current_block-Keeps (λ bb. keep unlink_scope-Keeps (λ scope.
        keep (then_loop-Keeps _ _) (λ tables.
          keep (prepend_scope-Keeps scope) (λ _. keep (join_scope-Keeps env) (λ _. done _))))))))

  else_branch-Runs :
      (a then_bb start : ℕ) (newer : T)
      → a ≤ d
      → Runs Fine a a (else_branch env expr statement then_bb start newer)
  unfolding else_branch
  else_branch-Runs a then_bb start newer ld = skip all (λ tok.
      keep (set_current_bb-Keeps start) (λ _. keep push_scope-Keeps (λ _.
        bind (within steps ld) (λ _. keep current_block-Keeps (λ bb.
          keep unlink_scope-Keeps (λ scope. keep (else_loop-Keeps then_bb bb _ newer) (λ newer'.
            keep (then_only-Keeps bb _) (λ _.
              keep (prepend_scope-Keeps scope)
                (λ _. keep (pop_scope-Keeps env) (λ _. done bb))))))))))

  without_else-Keeps :
      (start : ℕ) (original newer : T)
      → Keeps (without_else env expr statement start original newer)
  unfolding without_else
  without_else-Keeps start original newer =
      >>=-Keeps (no_else_loop-Keeps start original _) (λ _. pure-Keeps start)

  else_ahead-Keeps : (tok : ℕ) → Keeps (else_ahead env expr statement tok)
  unfolding else_ahead
  else_ahead-Keeps tok =
      if_Keeps _
        (>>=-Keeps peaking_value-Keeps
          (λ literal. >>=-Keeps (find_in_symbol_table-Keeps literal) (λ reg. pure-Keeps _)))
        (pure-Keeps _)

  pub if_else_stmt-Runs : (a : ℕ) → a ≤ d → Runs Fine (suc a) a (if_else_stmt env expr statement)
  unfolding if_else_stmt
  if_else_stmt-Runs a ld = bind (reserved_word-Runs all a _) (λ _.
      bind (condition-Runs a ld) (λ reg. keep current_block-Keeps (λ start.
        keep (new_basic_block-Keeps _) (λ then_start.
          bind (then_branch-Runs a then_start ld) (λ then_end.
            keep (new_basic_block-Keeps _) (λ else_start.
              keep (change_at-Keeps start (λ b bb. ir_builder_br-Stops b bb reg _ _)) (λ _.
                look_past all (λ tok. keep (else_ahead-Keeps tok) (λ has_else.
                  bind
                    (branch has_else (else_branch-Runs a _ else_start _ ld)
                      (kept (without_else-Keeps else_start _ _)))
                    (λ else_end. keep (new_basic_block-Keeps _) (λ end.
                      keep (change_at-Keeps then_end.0 (λ b bb. ir_builder_j-Stops b bb _)) (λ _.
                        keep (change_at-Keeps else_end (λ b bb. ir_builder_j-Stops b bb _))
                          (λ _. kept (set_current_bb-Keeps end))))))))))))))

  while_body-Runs :
      (a cond_end start : ℕ) → a ≤ d → Runs Fine a a (while_body env expr statement cond_end start)
  unfolding while_body
  while_body-Runs a cond_end start ld = keep (set_current_bb-Keeps start) (λ _.
      keep push_scope-Keeps (λ _. bind (within steps ld) (λ _. keep current_block-Keeps (λ bb.
        keep unlink_scope-Keeps (λ scope. keep (new_basic_block-Keeps _) (λ end.
          keep (body_loop_moves-Keeps bb _ _) (λ newer. keep (prepend_scope-Keeps scope) (λ _.
            keep (join_scope-Keeps env)
              (λ _. keep (end_loop_moves-Keeps end _) (λ _. done _))))))))))

  pub while_stmt-Runs : (a : ℕ) → a ≤ d → Runs Fine (suc a) a (while_stmt env expr statement)
  unfolding while_stmt
  while_stmt-Runs a ld = bind (reserved_word-Runs all a _) (λ _.
      keep (new_basic_block-Keeps _) (λ start. keep current_block-Keeps (λ before.
        keep (change_at-Keeps before (λ b bb. ir_builder_j-Stops b bb _)) (λ _.
          keep (set_current_bb-Keeps start) (λ _. bind (condition-Runs a ld) (λ reg.
            keep current_block-Keeps (λ cond_end. keep (new_basic_block-Keeps _) (λ body.
              bind (while_body-Runs a cond_end body ld) (λ ends.
                keep (change_at-Keeps cond_end (λ b bb. ir_builder_br-Stops b bb reg _ _)) (λ _.
                  keep (change_at-Keeps ends.0 (λ b bb. ir_builder_j-Stops b bb _))
                    (λ _. kept (set_current_bb-Keeps ends.1))))))))))))
