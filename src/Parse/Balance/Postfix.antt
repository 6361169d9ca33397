-- ===== src/Parse/Balance/Postfix.antt =====
-- Function literals, unary and postfix expressions leave the numbers of scopes as they are.
use cript.Parse.Balance.{
  IsBalanced, both, either, balanced, move, stay, step, pure-IsBalanced, parse_error-IsBalanced,
  out_of_fuel-IsBalanced, require-IsBalanced, peaking_value-IsBalanced, build-IsBalanced,
  change-IsBalanced, fueled-IsBalanced, peak-IsBalanced, next-IsBalanced, insert_str-IsBalanced,
}
use cript.Parse.Balance.Scopes.{
  exists-IsBalanced, find-IsBalanced, define_symbol-IsBalanced, allocate_register-IsBalanced,
  push_function-Moves, pop_function-Moves,
}
use cript.Parse.Balance.Literals.{
  global_reg-IsBalanced, reserved_word-IsBalanced, named_key-IsBalanced, parameter_loop-IsBalanced,
  object_literal-IsBalanced, array_literal-IsBalanced, arguments-IsBalanced,
}
use cript.Parse.Literals.{is_access}
use cript.Parse.Postfix.{
  body_loop, define_this, parameters, function_body, function_literal, parenthesised, number_token,
  string_token, variable, id_token, unary_switch, unary_expr, point_access, bracket_access,
  call_access, access, postfix_loop, postfix_rest, postfix_expr,
}
use cript.Parse.{Services, Parser}
use cript.Prelude.{ℕ, zero, suc, ◌∷◌}
use cript.Table.{TableOps}

module _ {T P : Type 0} ⦃ops : TableOps T⦄ (env : Services T P) {expr : Parser T P ℕ}
    {statement : Parser T P (Unit {0})} (even : IsBalanced expr)
    (level : IsBalanced statement) where
  body_loop-IsBalanced : (n tok : ℕ) → IsBalanced (body_loop env expr statement n tok)
  unfolding body_loop
  body_loop-IsBalanced zero tok = out_of_fuel-IsBalanced
  body_loop-IsBalanced (suc n) tok =
      either _ (pure-IsBalanced _)
        (both level (λ _. both (peak-IsBalanced env) (λ tok'. body_loop-IsBalanced n tok')))

  define_this-IsBalanced : IsBalanced (define_this env expr statement)
  unfolding define_this
  define_this-IsBalanced = both allocate_register-IsBalanced (λ reg.
      both (require-IsBalanced _)
        (λ _. both (insert_str-IsBalanced env _) (λ string. define_symbol-IsBalanced string reg)))

  parameters-IsBalanced : IsBalanced (parameters env expr statement)
  unfolding parameters
  parameters-IsBalanced = both (next-IsBalanced env) (λ bracket. both (require-IsBalanced _) (λ _.
      both define_this-IsBalanced (λ _. both (peak-IsBalanced env) (λ tok.
        both (fueled-IsBalanced (λ n. parameter_loop-IsBalanced env n tok))
          (λ _. both (next-IsBalanced env) (λ close. (require-IsBalanced _)))))))

  function_body-IsBalanced : IsBalanced (function_body env expr statement)
  unfolding function_body
  function_body-IsBalanced = both (next-IsBalanced env) (λ bracket.
      both (require-IsBalanced _) (λ _. both (peak-IsBalanced env) (λ first.
        both (fueled-IsBalanced (λ n. body_loop-IsBalanced n first)) (λ tok.
          both (require-IsBalanced _)
            (λ _. both (next-IsBalanced env) (λ close. (pure-IsBalanced _)))))))

  -- A function is entered, and left when its own scopes are closed.
  function_literal-IsBalanced : IsBalanced (function_literal env expr statement)
  unfolding function_literal
  function_literal-IsBalanced = balanced (λ n ns. step (reserved_word-IsBalanced env _) (λ _.
      move (push_function-Moves env (n ∷ ns)) (λ _. step parameters-IsBalanced (λ _.
        step function_body-IsBalanced (λ _. step (build-IsBalanced _) (λ reg.
          step (change-IsBalanced _)
            (λ _. move (pop_function-Moves env (n ∷ ns)) (λ func. stay (build-IsBalanced _)))))))))

  parenthesised-IsBalanced : IsBalanced (parenthesised env expr statement)
  unfolding parenthesised
  parenthesised-IsBalanced = both (next-IsBalanced env) (λ bracket. both even (λ ret.
      both (next-IsBalanced env) (λ tok. both (require-IsBalanced _) (λ _. (pure-IsBalanced _)))))

  number_token-IsBalanced : IsBalanced (number_token env expr statement)
  unfolding number_token
  number_token-IsBalanced = both peaking_value-IsBalanced (λ value.
      both (build-IsBalanced _) (λ ret. both (next-IsBalanced env) (λ tok. (pure-IsBalanced _))))

  string_token-IsBalanced : IsBalanced (string_token env expr statement)
  unfolding string_token
  string_token-IsBalanced = both peaking_value-IsBalanced (λ value.
      both (build-IsBalanced _) (λ ret. both (next-IsBalanced env) (λ tok. (pure-IsBalanced _))))

  id_token-IsBalanced : IsBalanced (id_token env expr statement)
  unfolding id_token variable
  id_token-IsBalanced = both peaking_value-IsBalanced (λ literal.
      both (exists-IsBalanced literal) (λ exists. both (require-IsBalanced _) (λ _.
        both (find-IsBalanced literal) (λ reg. either _ function_literal-IsBalanced (
          either _ parse_error-IsBalanced
            (both (next-IsBalanced env) (λ tok. (pure-IsBalanced _))))))))

  unary_expr-IsBalanced : IsBalanced (unary_expr env expr statement)
  unfolding unary_expr unary_switch
  unary_expr-IsBalanced = both (peak-IsBalanced env) (λ tok. either _ parenthesised-IsBalanced (
      either _ number_token-IsBalanced (
        either _ string_token-IsBalanced (
          either _ id_token-IsBalanced (
            either _ (object_literal-IsBalanced env even)
              (either _ (array_literal-IsBalanced env even) parse_error-IsBalanced))))))

  access-IsBalanced :
      (tok this_reg ret : ℕ) → IsBalanced (access env expr statement tok this_reg ret)
  unfolding access point_access bracket_access call_access
  access-IsBalanced tok this_reg ret =
      either _
        (both (named_key-IsBalanced env)
          (λ key. both (build-IsBalanced _) (λ reg. (pure-IsBalanced _))))
        (either _
          (both (next-IsBalanced env) (λ bracket. both even (λ key.
            both (build-IsBalanced _) (λ reg.
              both (next-IsBalanced env)
                (λ close. both (require-IsBalanced _) (λ _. (pure-IsBalanced _)))))))
          (both (arguments-IsBalanced env even this_reg) (λ arg.
            both (build-IsBalanced _)
              (λ reg. both (global_reg-IsBalanced env) (λ global. (pure-IsBalanced _))))))

  postfix_loop-IsBalanced :
      (n tok this_reg ret : ℕ) → IsBalanced (postfix_loop env expr statement n tok this_reg ret)
  unfolding postfix_loop
  postfix_loop-IsBalanced zero tok this_reg ret = out_of_fuel-IsBalanced
  postfix_loop-IsBalanced (suc n) tok this_reg ret =
      either (is_access tok)
        (both (access-IsBalanced tok this_reg ret)
          (λ r. both (peak-IsBalanced env) (λ tok'. postfix_loop-IsBalanced n tok' r.0 r.1)))
        (pure-IsBalanced _)

  pub postfix_expr-IsBalanced : IsBalanced (postfix_expr env expr statement)
  unfolding postfix_expr postfix_rest
  postfix_expr-IsBalanced = both unary_expr-IsBalanced (λ ret. both (peak-IsBalanced env) (λ tok.
      either (is_access tok)
        (both (global_reg-IsBalanced env)
          (λ this_reg. fueled-IsBalanced (λ n. postfix_loop-IsBalanced n tok this_reg ret)))
        (pure-IsBalanced _)))
