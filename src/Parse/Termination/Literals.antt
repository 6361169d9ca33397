-- ===== src/Parse/Termination/Literals.antt =====
-- The literals and the arguments of src/parse.c come to an end.
use cript.Lex.{tok_id}
use cript.Parse.Emits.{
  ir_builder_li-Stops, ir_builder_lstr-Stops, ir_builder_add-Stops, ir_builder_mov-Stops,
  ir_builder_new_obj-Stops, ir_builder_new_arr-Stops, ir_builder_set_obj-Stops,
}
use cript.Parse.Keeps.{
  >>=-Keeps, require-Keeps, peaking_value-Keeps, function_stack_top-Keeps, set_top-Keeps,
  build-Keeps, change-Keeps,
}
use cript.Parse.Literals.{
  add_argument, global_reg, reserved_word, named_key, parameter_loop, object_loop, object_literal,
  array_element, array_loop, array_elements, array_literal, arguments_loop, arguments,
}
use cript.Parse.Rules.{
  Keeps, Runs, RunsAt, Taking, bind, keep, kept, anywhere, weaken, never, never_at, branch,
  branch_at, fails, done, required, required_at, fueled-Runs, within,
}
use cript.Parse.Termination.Scopes.{
  allocate_register-Keeps, define_symbol-Keeps, find_in_symbol_table-Keeps,
}
use cript.Parse.Tokens.{EndsAll, skip, take_at, take_that, look, look_past, find_str-Runs}
use cript.Parse.{Services, Parser}
use cript.Prelude.{ℕ, zero, suc, ◌≤◌, refl, ◌==◌, arith}
use cript.Table.{TableOps}

module _ {T P : Type 0} ⦃ops : TableOps T⦄ where
  add_argument-Keeps : (literal : ℕ) → Keeps {T = T} {P = P} (add_argument literal)
  unfolding add_argument
  add_argument-Keeps literal = >>=-Keeps allocate_register-Keeps (λ reg.
      >>=-Keeps (define_symbol-Keeps literal reg)
        (λ _. >>=-Keeps function_stack_top-Keeps (λ f. set_top-Keeps _)))

module _ {T P : Type 0} ⦃ops : TableOps T⦄ {Fine : P → Type 0} {env : Services T P}
    (all : EndsAll Fine env) where
  pub global_reg-Runs : {a : ℕ} → Runs Fine a a (global_reg env)
  unfolding global_reg
  global_reg-Runs = bind (find_str-Runs all _) (λ string. kept (find_in_symbol_table-Keeps string))

  pub reserved_word-Runs : (a word : ℕ) → Runs Fine (suc a) a (reserved_word env word)
  unfolding reserved_word
  reserved_word-Runs a word =
      take_that all (λ tok. tok == tok_id) refl
        (λ tok.
          keep peaking_value-Keeps
            (λ literal. keep (find_in_symbol_table-Keeps literal) (λ reg. kept (require-Keeps _))))

  pub named_key-Runs : (a : ℕ) → Runs Fine (suc a) a (named_key env)
  unfolding named_key
  named_key-Runs a = skip all (λ point.
      take_that all (λ tok. tok == tok_id) refl
        (λ tok.
          keep peaking_value-Keeps
            (λ string. kept (build-Keeps (λ b bb. ir_builder_lstr-Stops b bb string)))))

  pub parameter_loop-RunsAt : (n a tok : ℕ) → a ≤ n → RunsAt Fine tok a a (parameter_loop env n tok)
  unfolding parameter_loop
  parameter_loop-RunsAt n zero tok le = never_at
  parameter_loop-RunsAt zero (suc a) tok le = absurd (omega (arith, le))
  parameter_loop-RunsAt (suc n) (suc a) tok le =
      branch_at _ (λ _. anywhere (done tt))
        (required_at (tok == tok_id) (λ e.
          take_at all (ground (arith, e)) (ground (arith, e)) (λ name. weaken (omega arith) (
            keep peaking_value-Keeps (λ literal. keep (add_argument-Keeps literal) (λ _.
              look_past all (λ tok'. branch _ (done tt) (
                branch _
                  (skip all (λ comma.
                    look all (λ next. parameter_loop-RunsAt n a next (omega (arith, le)))))
                  fails))))))))

  module _ {d : ℕ} {expr : Parser T P ℕ} (takes : Taking Fine d expr) where
    object_loop-Runs : (n a ret : ℕ) → a ≤ n → a ≤ d → Runs Fine a a (object_loop env expr n ret)
    unfolding object_loop
    object_loop-Runs n zero ret le ld = never
    object_loop-Runs zero (suc a) ret le ld = absurd (omega (arith, le))
    object_loop-Runs (suc n) (suc a) ret le ld = skip all (λ tok. required _ (λ _.
        keep peaking_value-Keeps (λ string. skip all (λ colon. required _ (λ _.
          bind (takes a ld) (λ value_reg. weaken (omega arith) (
            keep (build-Keeps (λ b bb. ir_builder_lstr-Stops b bb string)) (λ key_reg.
              keep (change-Keeps (λ b bb. ir_builder_set_obj-Stops b bb ret value_reg key_reg))
                (λ _. look_past all (λ tok'.
                  branch _
                    (skip all
                      (λ comma. object_loop-Runs n a ret (omega (arith, le)) (omega (arith, ld))))
                    (branch _ (done tt) fails)))))))))))

    pub object_literal-Runs : (a : ℕ) → a ≤ d → Runs Fine (suc a) a (object_literal env expr)
    unfolding object_literal
    object_literal-Runs a ld =
        take_that all (λ tok. tok == b'{') refl
          (λ tok. keep (build-Keeps (λ b bb. ir_builder_new_obj-Stops b bb)) (λ ret.
            look_past all (λ tok'. required _ (λ _.
              bind
                (branch _ (done tt)
                  (fueled-Runs (λ n c le lc. object_loop-Runs n c ret le (omega (arith, lc, ld)))))
                (λ _. skip all (λ close. done ret))))))

    array_element-Runs :
        (a tok key_reg value_reg : ℕ)
        → a ≤ d
        → Runs Fine a a (array_element env expr tok key_reg value_reg)
    unfolding array_element
    array_element-Runs a tok key_reg value_reg ld =
        branch _
          (skip all (λ colon.
            keep (build-Keeps (λ b bb. ir_builder_mov-Stops b bb value_reg))
              (λ key. bind (within takes ld) (λ value. look_past all (λ tok'. done _)))))
          (done _)

    array_loop-Runs :
        (n a ret one_reg key_reg : ℕ)
        → a ≤ n
        → a ≤ d
        → Runs Fine a a (array_loop env expr n ret one_reg key_reg)
    unfolding array_loop
    array_loop-Runs n zero ret one_reg key_reg le ld = never
    array_loop-Runs zero (suc a) ret one_reg key_reg le ld = absurd (omega (arith, le))
    array_loop-Runs (suc n) (suc a) ret one_reg key_reg le ld = bind (takes a ld) (λ value_reg.
        weaken (omega arith) (
          look_past all (λ tok.
            bind (array_element-Runs a tok key_reg value_reg (omega (arith, ld))) (λ e.
              keep (change-Keeps (λ b bb. ir_builder_set_obj-Stops b bb ret e.1 e.0)) (λ _.
                keep (build-Keeps (λ b bb. ir_builder_add-Stops b bb e.0 one_reg)) (λ key.
                  branch _ (done tt) (
                    branch _
                      (skip all (λ comma.
                        array_loop-Runs n a ret one_reg key (omega (arith, le))
                          (omega (arith, ld))))
                      fails)))))))

    array_elements-Runs : (a ret : ℕ) → a ≤ d → Runs Fine a a (array_elements env expr ret)
    unfolding array_elements
    array_elements-Runs a ret ld =
        keep (build-Keeps (λ b bb. ir_builder_li-Stops b bb 1)) (λ one_reg.
          keep (build-Keeps (λ b bb. ir_builder_li-Stops b bb 0)) (λ key_reg.
            fueled-Runs
              (λ n c le lc. array_loop-Runs n c ret one_reg key_reg le (omega (arith, lc, ld)))))

    pub array_literal-Runs : (a : ℕ) → a ≤ d → Runs Fine (suc a) a (array_literal env expr)
    unfolding array_literal
    array_literal-Runs a ld =
        take_that all (λ tok. tok == b'[') refl
          (λ tok. keep (build-Keeps (λ b bb. ir_builder_new_arr-Stops b bb)) (λ ret.
            look_past all (λ tok'. required _ (λ _.
              bind (branch _ (done tt) (array_elements-Runs a ret ld))
                (λ _. skip all (λ close. done ret))))))

    arguments_loop-Runs :
        (n a tok arg_reg one_reg key_reg : ℕ)
        → a ≤ n
        → a ≤ d
        → Runs Fine a a (arguments_loop env expr n tok arg_reg one_reg key_reg)
    unfolding arguments_loop
    arguments_loop-Runs n zero tok arg_reg one_reg key_reg le ld = never
    arguments_loop-Runs zero (suc a) tok arg_reg one_reg key_reg le ld = absurd (omega (arith, le))
    arguments_loop-Runs (suc n) (suc a) tok arg_reg one_reg key_reg le ld = branch _ (done tt) (
        bind (takes a ld) (λ result_reg. weaken (omega arith) (
          keep (build-Keeps (λ b bb. ir_builder_add-Stops b bb key_reg one_reg)) (λ key.
            keep (change-Keeps (λ b bb. ir_builder_set_obj-Stops b bb arg_reg result_reg key)) (λ _.
              look_past all (λ tok'. branch _ (done tt) (
                branch _
                  (skip all (λ comma.
                    arguments_loop-Runs n a tok' arg_reg one_reg key (omega (arith, le))
                      (omega (arith, ld))))
                  fails)))))))

    pub arguments-Runs :
        (a this_reg : ℕ) → a ≤ d → Runs Fine (suc a) a (arguments env expr this_reg)
    unfolding arguments
    arguments-Runs a this_reg ld =
        take_that all (λ tok. tok == b'(') refl
          (λ tok. keep (build-Keeps (λ b bb. ir_builder_new_arr-Stops b bb)) (λ arg_reg.
            keep (build-Keeps (λ b bb. ir_builder_li-Stops b bb 1)) (λ one_reg.
              keep (build-Keeps (λ b bb. ir_builder_li-Stops b bb 0)) (λ key_reg.
                keep (change-Keeps (λ b bb. ir_builder_set_obj-Stops b bb arg_reg this_reg key_reg))
                  (λ _. look_past all (λ tok'.
                    bind
                      (fueled-Runs (λ n c le lc.
                        arguments_loop-Runs n c tok' arg_reg one_reg key_reg le
                          (omega (arith, lc, ld))))
                      (λ _. skip all (λ close. done arg_reg))))))))
