-- ===== src/Parse/Balance/Statements.antt =====
-- The statements without branches leave the numbers of scopes as they are.
use cript.Parse.Balance.{
  IsBalanced, both, either, balanced, move, stay, step, pure-IsBalanced, parse_error-IsBalanced,
  out_of_fuel-IsBalanced, require-IsBalanced, peaking_value-IsBalanced,
  function_stack_top-IsBalanced, build-IsBalanced, change-IsBalanced, fueled-IsBalanced,
  peak-IsBalanced, next-IsBalanced,
}
use cript.Parse.Balance.Scopes.{
  exists-IsBalanced, find-IsBalanced, define_symbol-IsBalanced, assign_symbol-IsBalanced,
  push_scope-Moves, join_scope-Moves,
}
use cript.Parse.Balance.Literals.{
  global_reg-IsBalanced, reserved_word-IsBalanced, named_key-IsBalanced, arguments-IsBalanced,
}
use cript.Parse.Statements.{
  Target, used_registers, own_register, store_result, target_name, bracket_key, target_call,
  target_field, target_key, target_access, target_loop, assign_value, assignment_expr, semicolon,
  let_value, declaration, let_loop, reserved_ahead, let_stmt, expr_stmt, return_value, return_stmt,
  halt_stmt, block_loop, block_stmt,
}
use cript.Parse.{Services, Parser}
use cript.Prelude.{ℕ, zero, suc, Option, none, some}
use cript.Table.{TableOps}

module _ {T P : Type 0} ⦃ops : TableOps T⦄ where
  used_registers-IsBalanced : IsBalanced {T = T} {P = P} used_registers
  unfolding used_registers
  used_registers-IsBalanced = both function_stack_top-IsBalanced (λ f. (pure-IsBalanced _))

  own_register-IsBalanced :
      (current_reg reg : ℕ) → IsBalanced {T = T} {P = P} (own_register current_reg reg)
  unfolding own_register
  own_register-IsBalanced current_reg reg =
      both used_registers-IsBalanced (λ used. either _ (build-IsBalanced _) (pure-IsBalanced _))

  store_result-IsBalanced :
      (obj : ℕ) (key : Option ℕ) (literal current_reg reg : ℕ)
      → IsBalanced {T = T} {P = P} (store_result obj key literal current_reg reg)
  unfolding store_result
  store_result-IsBalanced obj (some key) literal current_reg reg = (change-IsBalanced _)
  store_result-IsBalanced obj none literal current_reg reg =
      both (own_register-IsBalanced current_reg reg) (λ r. assign_symbol-IsBalanced literal r)

module _ {T P : Type 0} ⦃ops : TableOps T⦄ (env : Services T P) {expr : Parser T P ℕ}
    (even : IsBalanced expr) where
  target_name-IsBalanced : IsBalanced (target_name env expr)
  unfolding target_name
  target_name-IsBalanced = both (next-IsBalanced env) (λ tok. both (require-IsBalanced _) (λ _.
      both peaking_value-IsBalanced (λ literal. both (exists-IsBalanced literal) (λ exists.
        both (require-IsBalanced _) (λ _.
          both (find-IsBalanced literal)
            (λ reg. both (require-IsBalanced _) (λ _. (pure-IsBalanced _))))))))

  target_access-IsBalanced : (tok : ℕ) (t : Target) → IsBalanced (target_access env expr tok t)
  unfolding target_access target_call target_key bracket_key target_field
  target_access-IsBalanced tok t =
      either _
        (both (arguments-IsBalanced env even _) (λ arg.
          both (build-IsBalanced _)
            (λ reg. both (global_reg-IsBalanced env) (λ global. (pure-IsBalanced _)))))
        (both
          (either _ (named_key-IsBalanced env) (
            both (next-IsBalanced env) (λ bracket. both even (λ key.
              both (next-IsBalanced env)
                (λ close. both (require-IsBalanced _) (λ _. (pure-IsBalanced _)))))))
          (λ key. both (peak-IsBalanced env) (λ tok'.
            either _ (both (build-IsBalanced _) (λ reg. (pure-IsBalanced _))) (pure-IsBalanced _))))

  target_loop-IsBalanced : (n tok : ℕ) (t : Target) → IsBalanced (target_loop env expr n tok t)
  unfolding target_loop
  target_loop-IsBalanced zero tok t = out_of_fuel-IsBalanced
  target_loop-IsBalanced (suc n) tok t =
      either _
        (both (target_access-IsBalanced tok t)
          (λ t'. both (peak-IsBalanced env) (λ tok'. target_loop-IsBalanced n tok' t')))
        (pure-IsBalanced _)

  assign_value-IsBalanced :
      (literal : ℕ) (t : Target) → IsBalanced (assign_value env expr literal t)
  unfolding assign_value
  assign_value-IsBalanced literal t = both (next-IsBalanced env) (λ equals.
      both used_registers-IsBalanced
        (λ current. both even (λ reg. store_result-IsBalanced _ _ literal current reg)))

  semicolon-IsBalanced : IsBalanced (semicolon env expr)
  unfolding semicolon
  semicolon-IsBalanced = both (next-IsBalanced env) (λ tok. (require-IsBalanced _))

  pub expr_stmt-IsBalanced : IsBalanced (expr_stmt env expr)
  unfolding expr_stmt assignment_expr
  expr_stmt-IsBalanced =
      both
        (both target_name-IsBalanced (λ literal. both (find-IsBalanced literal) (λ obj.
          both (global_reg-IsBalanced env) (λ this. both (peak-IsBalanced env) (λ first.
            both (fueled-IsBalanced (λ n. target_loop-IsBalanced n first _)) (λ t.
              both (peak-IsBalanced env) (λ tok.
                either _ (assign_value-IsBalanced literal t)
                  (either _ (pure-IsBalanced _) parse_error-IsBalanced))))))))
        (λ _. semicolon-IsBalanced)

  let_value-IsBalanced : IsBalanced (let_value env expr)
  unfolding let_value
  let_value-IsBalanced = both (next-IsBalanced env) (λ equals.
      both used_registers-IsBalanced
        (λ current. both even (λ reg. own_register-IsBalanced current reg)))

  declaration-IsBalanced : IsBalanced (declaration env expr)
  unfolding declaration
  declaration-IsBalanced = both (next-IsBalanced env) (λ first. both (next-IsBalanced env) (λ tok.
      both (require-IsBalanced _) (λ _. both peaking_value-IsBalanced (λ literal.
        both function_stack_top-IsBalanced (λ f. both (require-IsBalanced _) (λ _.
          both (peak-IsBalanced env) (λ tok'.
            both (either _ let_value-IsBalanced (build-IsBalanced _))
              (λ reg. define_symbol-IsBalanced literal reg))))))))

  let_loop-IsBalanced : (n : ℕ) → IsBalanced (let_loop env expr n)
  unfolding let_loop
  let_loop-IsBalanced zero = out_of_fuel-IsBalanced
  let_loop-IsBalanced (suc n) = both declaration-IsBalanced (λ _.
      both (peak-IsBalanced env) (λ tok. either _ (let_loop-IsBalanced n) (pure-IsBalanced _)))

  pub let_stmt-IsBalanced : IsBalanced (let_stmt env expr)
  unfolding let_stmt reserved_ahead
  let_stmt-IsBalanced =
      both
        (both (peak-IsBalanced env) (λ tok. both (require-IsBalanced _) (λ _.
          both peaking_value-IsBalanced
            (λ literal. both (find-IsBalanced literal) (λ reg. (require-IsBalanced _))))))
        (λ _. both (fueled-IsBalanced let_loop-IsBalanced) (λ _. semicolon-IsBalanced))

  module _ {statement : Parser T P (Unit {0})} (level : IsBalanced statement) where
    pub return_stmt-IsBalanced : IsBalanced (return_stmt env expr statement)
    unfolding return_stmt return_value
    return_stmt-IsBalanced = both (reserved_word-IsBalanced env _) (λ _.
        both (peak-IsBalanced env) (λ tok.
          both (either _ (build-IsBalanced _) even)
            (λ reg. both (change-IsBalanced _) (λ _. semicolon-IsBalanced))))

    pub halt_stmt-IsBalanced : IsBalanced (halt_stmt env expr statement)
    unfolding halt_stmt
    halt_stmt-IsBalanced =
        both (reserved_word-IsBalanced env _)
          (λ _. both (change-IsBalanced _) (λ _. semicolon-IsBalanced))

    block_loop-IsBalanced : (n : ℕ) → IsBalanced (block_loop env expr statement n)
    unfolding block_loop
    block_loop-IsBalanced zero = out_of_fuel-IsBalanced
    block_loop-IsBalanced (suc n) =
        both (peak-IsBalanced env)
          (λ tok. either _ (pure-IsBalanced _) (both level (λ _. block_loop-IsBalanced n)))

    -- the scope of a block is closed at its end
    pub block_stmt-IsBalanced : IsBalanced (block_stmt env expr statement)
    unfolding block_stmt
    block_stmt-IsBalanced = balanced (λ n ns. step (next-IsBalanced env) (λ tok.
        step (require-IsBalanced _) (λ _. move (push_scope-Moves n ns) (λ _.
          step (fueled-IsBalanced block_loop-IsBalanced) (λ _.
            move (join_scope-Moves env n ns)
              (λ _. step (next-IsBalanced env) (λ close. stay (require-IsBalanced _))))))))
