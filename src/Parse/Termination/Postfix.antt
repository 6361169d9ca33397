-- ===== src/Parse/Termination/Postfix.antt =====
-- Function literals, unary and postfix expressions of src/parse.c come to an end.
use cript.Lex.{tok_id, tok_num, tok_string}
use cript.Parse.Emits.{
  ir_builder_li-Stops, ir_builder_lstr-Stops, ir_builder_get_obj-Stops, ir_builder_call-Stops,
  ir_builder_ret-Stops, ir_builder_new_cls-Stops, ir_builder_undefined-Stops,
}
use cript.Parse.Keeps.{peaking_value-Keeps, require-Keeps, build-Keeps, change-Keeps}
use cript.Parse.Literals.{is_access}
use cript.Parse.Postfix.{
  body_loop, define_this, parameters, function_body, function_literal, parenthesised, number_token,
  string_token, variable, id_token, unary_switch, unary_expr, point_access, bracket_access,
  call_access, access, postfix_loop, postfix_rest, postfix_expr,
}
use cript.Parse.Rules.{
  Runs, RunsAt, Taking, bind, bind_at, keep, keep_at, kept, anywhere, weaken, never, branch,
  branch_at, fails_at, done, required, required_at, fueled-Runs, fueled_at, within,
}
use cript.Parse.Termination.Literals.{
  global_reg-Runs, reserved_word-Runs, named_key-Runs, parameter_loop-RunsAt, object_literal-Runs,
  array_literal-Runs, arguments-Runs,
}
use cript.Parse.Termination.Scopes.{
  allocate_register-Keeps, define_symbol-Keeps, exists_in_symbol_table-Keeps,
  find_in_symbol_table-Keeps, push_function-Runs, pop_function-Keeps,
}
use cript.Parse.Tokens.{EndsAll, skip, take_at, look, look_past, insert_str-Runs}
use cript.Parse.{Services, Parser}
use cript.Prelude.{ℕ, zero, suc, ◌≤◌, ◌≡◌, true, ◌==◌, arith}
use cript.Table.{TableOps}

module _ {T P : Type 0} ⦃ops : TableOps T⦄ {Fine : P → Type 0} {env : Services T P}
    (all : EndsAll Fine env) {d : ℕ} {expr : Parser T P ℕ} {statement : Parser T P (Unit {0})}
    (takes : Taking Fine d expr) (steps : Taking Fine d statement) where
  body_loop-Runs :
      (n a tok : ℕ) → a ≤ n → a ≤ d → Runs Fine a a (body_loop env expr statement n tok)
  unfolding body_loop
  body_loop-Runs n zero tok le ld = never
  body_loop-Runs zero (suc a) tok le ld = absurd (omega (arith, le))
  body_loop-Runs (suc n) (suc a) tok le ld = branch _ (done tok) (
      bind (steps a ld) (λ _.
        weaken (omega arith) (
          look_past all (λ tok'. body_loop-Runs n a tok' (omega (arith, le)) (omega (arith, ld))))))

  define_this-Runs : (a : ℕ) → Runs Fine a a (define_this env expr statement)
  unfolding define_this
  define_this-Runs a = keep allocate_register-Keeps (λ reg.
      required _
        (λ _. bind (insert_str-Runs all _) (λ string. kept (define_symbol-Keeps string reg))))

  parameters-Runs : (a : ℕ) → Runs Fine a a (parameters env expr statement)
  unfolding parameters
  parameters-Runs a = skip all (λ bracket. required _ (λ _. bind (define_this-Runs a) (λ _.
      look all (λ tok.
        bind_at (fueled_at (λ n c le. parameter_loop-RunsAt all n c tok le))
          (λ _. skip all (λ close. kept (require-Keeps _)))))))

  function_body-Runs : (a : ℕ) → a ≤ d → Runs Fine a a (function_body env expr statement)
  unfolding function_body
  function_body-Runs a ld = skip all (λ bracket. required _ (λ _. look_past all (λ first.
      bind (fueled-Runs (λ n c le lc. body_loop-Runs n c first le (omega (arith, lc, ld))))
        (λ tok. required _ (λ _. skip all (λ close. done tt))))))

  function_literal-Runs :
      (a : ℕ) → a ≤ d → Runs Fine (suc a) a (function_literal env expr statement)
  unfolding function_literal
  function_literal-Runs a ld = bind (reserved_word-Runs all a _) (λ _.
      bind (push_function-Runs all) (λ _. bind (parameters-Runs a) (λ _.
        bind (function_body-Runs a ld) (λ _.
          keep (build-Keeps (λ b bb. ir_builder_undefined-Stops b bb)) (λ reg.
            keep (change-Keeps (λ b bb. ir_builder_ret-Stops b bb reg)) (λ _.
              keep (pop_function-Keeps all)
                (λ func. kept (build-Keeps (λ b bb. ir_builder_new_cls-Stops b bb func)))))))))

  parenthesised-RunsAt :
      (a tok : ℕ)
      → (tok == b'(') ≡ true
      → a ≤ d
      → RunsAt Fine tok (suc a) a (parenthesised env expr statement)
  unfolding parenthesised
  parenthesised-RunsAt a tok e ld =
      take_at all (ground (arith, e)) (ground (arith, e))
        (λ bracket. bind (within takes ld) (λ ret. skip all (λ close. required _ (λ _. done ret))))

  number_token-RunsAt :
      (a tok : ℕ)
      → (tok == tok_num) ≡ true
      → RunsAt Fine tok (suc a) a (number_token env expr statement)
  unfolding number_token
  number_token-RunsAt a tok e = keep_at peaking_value-Keeps (λ value.
      keep_at (build-Keeps (λ b bb. ir_builder_li-Stops b bb value))
        (λ ret. take_at all (ground (arith, e)) (ground (arith, e)) (λ taken. done ret)))

  string_token-RunsAt :
      (a tok : ℕ)
      → (tok == tok_string) ≡ true
      → RunsAt Fine tok (suc a) a (string_token env expr statement)
  unfolding string_token
  string_token-RunsAt a tok e = keep_at peaking_value-Keeps (λ value.
      keep_at (build-Keeps (λ b bb. ir_builder_lstr-Stops b bb value))
        (λ ret. take_at all (ground (arith, e)) (ground (arith, e)) (λ taken. done ret)))

  variable-RunsAt :
      (a tok reg : ℕ)
      → (tok == tok_id) ≡ true
      → RunsAt Fine tok (suc a) a (variable env expr statement reg)
  unfolding variable
  variable-RunsAt a tok reg e =
      take_at all (ground (arith, e)) (ground (arith, e)) (λ taken. done reg)

  id_token-RunsAt :
      (a tok : ℕ)
      → (tok == tok_id) ≡ true
      → a ≤ d
      → RunsAt Fine tok (suc a) a (id_token env expr statement)
  unfolding id_token
  id_token-RunsAt a tok e ld = keep_at peaking_value-Keeps (λ literal.
      keep_at (exists_in_symbol_table-Keeps literal) (λ exists. required_at _ (λ _.
        keep_at (find_in_symbol_table-Keeps literal) (λ reg.
          branch_at _ (λ _. anywhere (function_literal-Runs a ld))
            (branch_at _ (λ _. fails_at) (variable-RunsAt a tok reg e))))))

  unary_switch-RunsAt :
      (a tok : ℕ) → a ≤ d → RunsAt Fine tok (suc a) a (unary_switch env expr statement tok)
  unfolding unary_switch
  unary_switch-RunsAt a tok ld =
      branch_at _ (λ e. parenthesised-RunsAt a tok e ld)
        (branch_at _ (λ e. number_token-RunsAt a tok e)
          (branch_at _ (λ e. string_token-RunsAt a tok e)
            (branch_at _ (λ e. id_token-RunsAt a tok e ld)
              (branch_at _ (λ _. anywhere (object_literal-Runs all takes a ld))
                (branch_at _ (λ _. anywhere (array_literal-Runs all takes a ld)) fails_at)))))

  unary_expr-Runs : (a : ℕ) → a ≤ d → Runs Fine (suc a) a (unary_expr env expr statement)
  unfolding unary_expr
  unary_expr-Runs a ld = look all (λ tok. unary_switch-RunsAt a tok ld)

  point_access-Runs : (a ret : ℕ) → Runs Fine (suc a) a (point_access env expr statement ret)
  unfolding point_access
  point_access-Runs a ret =
      bind (named_key-Runs all a)
        (λ key. keep (build-Keeps (λ b bb. ir_builder_get_obj-Stops b bb ret key)) (λ reg. done _))

  bracket_access-Runs :
      (a ret : ℕ) → suc a ≤ d → Runs Fine (suc a) a (bracket_access env expr statement ret)
  unfolding bracket_access
  bracket_access-Runs a ret ld = skip all (λ bracket. bind (takes a ld) (λ key.
      keep (build-Keeps (λ b bb. ir_builder_get_obj-Stops b bb ret key))
        (λ reg. skip all (λ close. required _ (λ _. done _)))))

  call_access-Runs :
      (a this_reg ret : ℕ)
      → a ≤ d
      → Runs Fine (suc a) a (call_access env expr statement this_reg ret)
  unfolding call_access
  call_access-Runs a this_reg ret ld = bind (arguments-Runs all takes a this_reg ld) (λ arg.
      keep (build-Keeps (λ b bb. ir_builder_call-Stops b bb ret arg))
        (λ reg. bind (global_reg-Runs all) (λ global. done _)))

  access-Runs :
      (a tok this_reg ret : ℕ)
      → suc a ≤ d
      → Runs Fine (suc a) a (access env expr statement tok this_reg ret)
  unfolding access
  access-Runs a tok this_reg ret ld = branch _ (point_access-Runs a ret) (
      branch _ (bracket_access-Runs a ret ld) (call_access-Runs a this_reg ret (omega (arith, ld))))

  postfix_loop-Runs :
      (n a tok this_reg ret : ℕ)
      → a ≤ n
      → a ≤ d
      → Runs Fine a a (postfix_loop env expr statement n tok this_reg ret)
  unfolding postfix_loop
  postfix_loop-Runs n zero tok this_reg ret le ld = never
  postfix_loop-Runs zero (suc a) tok this_reg ret le ld = absurd (omega (arith, le))
  postfix_loop-Runs (suc n) (suc a) tok this_reg ret le ld =
      branch (is_access tok)
        (bind (access-Runs a tok this_reg ret ld) (λ r. weaken (omega arith) (
          look_past all
            (λ tok'. postfix_loop-Runs n a tok' r.0 r.1 (omega (arith, le)) (omega (arith, ld))))))
        (done ret)

  postfix_rest-Runs :
      (a tok ret : ℕ) → a ≤ d → Runs Fine a a (postfix_rest env expr statement tok ret)
  unfolding postfix_rest
  postfix_rest-Runs a tok ret ld = bind (global_reg-Runs all) (λ this_reg.
      fueled-Runs (λ n c le lc. postfix_loop-Runs n c tok this_reg ret le (omega (arith, lc, ld))))

  pub postfix_expr-Runs : (a : ℕ) → a ≤ d → Runs Fine (suc a) a (postfix_expr env expr statement)
  unfolding postfix_expr
  postfix_expr-Runs a ld = bind (unary_expr-Runs a ld) (λ ret.
      look_past all (λ tok. branch (is_access tok) (postfix_rest-Runs a tok ret ld) (done ret)))
