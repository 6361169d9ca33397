-- ===== src/Parse/Balance/Literals.antt =====
-- The literals and the arguments leave the numbers of scopes as they are.
use cript.Parse.Balance.{
  IsBalanced, both, either, pure-IsBalanced, parse_error-IsBalanced, out_of_fuel-IsBalanced,
  require-IsBalanced, peaking_value-IsBalanced, build-IsBalanced, change-IsBalanced,
  fueled-IsBalanced, peak-IsBalanced, next-IsBalanced, find_str-IsBalanced,
}
use cript.Parse.Balance.Scopes.{
  find-IsBalanced, define_symbol-IsBalanced, allocate_register-IsBalanced,
}
use cript.Parse.Literals.{
  add_argument, global_reg, reserved_word, named_key, parameter_loop, object_loop, object_literal,
  array_element, array_loop, array_elements, array_literal, arguments_loop, arguments,
}
use cript.Parse.{set_top, function_stack_top, ◌>>=◌}
use cript.Parse.{Services, Parser}
use cript.Prelude.{ℕ, zero, suc}
use cript.Table.{TableOps}

module _ {T P : Type 0} ⦃ops : TableOps T⦄ where
  add_argument-IsBalanced : (literal : ℕ) → IsBalanced {T = T} {P = P} (add_argument literal)
  unfolding add_argument set_top function_stack_top ◌>>=◌
  add_argument-IsBalanced literal =
      both allocate_register-IsBalanced
        (λ reg. both (define_symbol-IsBalanced literal reg) (λ _. record { run = λ s p fit. fit }))

module _ {T P : Type 0} ⦃ops : TableOps T⦄ (env : Services T P) where
  pub global_reg-IsBalanced : IsBalanced (global_reg env)
  unfolding global_reg
  global_reg-IsBalanced = both (find_str-IsBalanced env _) (λ string. find-IsBalanced string)

  pub reserved_word-IsBalanced : (word : ℕ) → IsBalanced (reserved_word env word)
  unfolding reserved_word
  reserved_word-IsBalanced word = both (next-IsBalanced env) (λ tok.
      both (require-IsBalanced _) (λ _.
        both peaking_value-IsBalanced
          (λ literal. both (find-IsBalanced literal) (λ reg. (require-IsBalanced _)))))

  pub named_key-IsBalanced : IsBalanced (named_key env)
  unfolding named_key
  named_key-IsBalanced = both (next-IsBalanced env) (λ point. both (next-IsBalanced env) (λ tok.
      both (require-IsBalanced _)
        (λ _. both peaking_value-IsBalanced (λ string. (build-IsBalanced _)))))

  pub parameter_loop-IsBalanced : (n tok : ℕ) → IsBalanced (parameter_loop env n tok)
  unfolding parameter_loop
  parameter_loop-IsBalanced zero tok = out_of_fuel-IsBalanced
  parameter_loop-IsBalanced (suc n) tok = either _ (pure-IsBalanced _) (
      both (require-IsBalanced _) (λ _. both (next-IsBalanced env) (λ name.
        both peaking_value-IsBalanced (λ literal. both (add_argument-IsBalanced literal) (λ _.
          both (peak-IsBalanced env) (λ tok'. either _ (pure-IsBalanced _) (
            either _
              (both (next-IsBalanced env)
                (λ comma. both (peak-IsBalanced env) (λ t. parameter_loop-IsBalanced n t)))
              parse_error-IsBalanced)))))))

  module _ {expr : Parser T P ℕ} (even : IsBalanced expr) where
    object_loop-IsBalanced : (n ret : ℕ) → IsBalanced (object_loop env expr n ret)
    unfolding object_loop
    object_loop-IsBalanced zero ret = out_of_fuel-IsBalanced
    object_loop-IsBalanced (suc n) ret = both (next-IsBalanced env) (λ tok.
        both (require-IsBalanced _) (λ _. both peaking_value-IsBalanced (λ string.
          both (next-IsBalanced env) (λ colon. both (require-IsBalanced _) (λ _. both even (λ value.
            both (build-IsBalanced _) (λ key. both (change-IsBalanced _) (λ _.
              both (peak-IsBalanced env) (λ tok'.
                either _ (both (next-IsBalanced env) (λ comma. object_loop-IsBalanced n ret))
                  (either _ (pure-IsBalanced _) parse_error-IsBalanced))))))))))

    pub object_literal-IsBalanced : IsBalanced (object_literal env expr)
    unfolding object_literal
    object_literal-IsBalanced = both (next-IsBalanced env) (λ tok. both (require-IsBalanced _) (λ _.
        both (build-IsBalanced _) (λ ret. both (peak-IsBalanced env) (λ tok'.
          both (require-IsBalanced _) (λ _.
            both
              (either _ (pure-IsBalanced _) (fueled-IsBalanced (λ n. object_loop-IsBalanced n ret)))
              (λ _. both (next-IsBalanced env) (λ close. (pure-IsBalanced _))))))))

    array_element-IsBalanced :
        (tok key value : ℕ) → IsBalanced (array_element env expr tok key value)
    unfolding array_element
    array_element-IsBalanced tok key value =
        either _
          (both (next-IsBalanced env) (λ colon.
            both (build-IsBalanced _)
              (λ k. both even (λ v. both (peak-IsBalanced env) (λ tok'. (pure-IsBalanced _))))))
          (pure-IsBalanced _)

    array_loop-IsBalanced : (n ret one key : ℕ) → IsBalanced (array_loop env expr n ret one key)
    unfolding array_loop
    array_loop-IsBalanced zero ret one key = out_of_fuel-IsBalanced
    array_loop-IsBalanced (suc n) ret one key = both even (λ value.
        both (peak-IsBalanced env) (λ tok. both (array_element-IsBalanced tok key value) (λ e.
          both (change-IsBalanced _) (λ _. both (build-IsBalanced _) (λ k.
            either _ (pure-IsBalanced _) (
              either _ (both (next-IsBalanced env) (λ comma. array_loop-IsBalanced n ret one k))
                parse_error-IsBalanced))))))

    array_elements-IsBalanced : (ret : ℕ) → IsBalanced (array_elements env expr ret)
    unfolding array_elements
    array_elements-IsBalanced ret = both (build-IsBalanced _) (λ one.
        both (build-IsBalanced _)
          (λ key. fueled-IsBalanced (λ n. array_loop-IsBalanced n ret one key)))

    pub array_literal-IsBalanced : IsBalanced (array_literal env expr)
    unfolding array_literal
    array_literal-IsBalanced = both (next-IsBalanced env) (λ tok. both (require-IsBalanced _) (λ _.
        both (build-IsBalanced _) (λ ret. both (peak-IsBalanced env) (λ tok'.
          both (require-IsBalanced _) (λ _.
            both (either _ (pure-IsBalanced _) (array_elements-IsBalanced ret))
              (λ _. both (next-IsBalanced env) (λ close. (pure-IsBalanced _))))))))

    arguments_loop-IsBalanced :
        (n tok arg one key : ℕ) → IsBalanced (arguments_loop env expr n tok arg one key)
    unfolding arguments_loop
    arguments_loop-IsBalanced zero tok arg one key = out_of_fuel-IsBalanced
    arguments_loop-IsBalanced (suc n) tok arg one key = either _ (pure-IsBalanced _) (
        both even (λ result. both (build-IsBalanced _) (λ k. both (change-IsBalanced _) (λ _.
          both (peak-IsBalanced env) (λ tok'. either _ (pure-IsBalanced _) (
            either _
              (both (next-IsBalanced env) (λ comma. arguments_loop-IsBalanced n tok' arg one k))
              parse_error-IsBalanced))))))

    pub arguments-IsBalanced : (this_reg : ℕ) → IsBalanced (arguments env expr this_reg)
    unfolding arguments
    arguments-IsBalanced this_reg = both (next-IsBalanced env) (λ tok.
        both (require-IsBalanced _) (λ _. both (build-IsBalanced _) (λ arg.
          both (build-IsBalanced _) (λ one. both (build-IsBalanced _) (λ key.
            both (change-IsBalanced _) (λ _. both (peak-IsBalanced env) (λ tok'.
              both (fueled-IsBalanced (λ n. arguments_loop-IsBalanced n tok' arg one key))
                (λ _. both (next-IsBalanced env) (λ close. (pure-IsBalanced _))))))))))
