-- ===== src/Parse/Termination/Statements.antt =====
-- The statements without branches of src/parse.c come to an end, and take a token or more.
use cript.Lex.{tok_id}
use cript.Parse.Emits.{
  ir_builder_mov-Stops, ir_builder_set_obj-Stops, ir_builder_get_obj-Stops, ir_builder_call-Stops,
  ir_builder_ret-Stops, ir_builder_undefined-Stops, ir_builder_halt-Stops,
}
use cript.Parse.Keeps.{
  >>=-Keeps, if_Keeps, pure-Keeps, require-Keeps, peaking_value-Keeps, function_stack_top-Keeps,
  build-Keeps, change-Keeps,
}
use cript.Parse.Rules.{
  Keeps, Runs, Taking, bind, keep, kept, weaken, never, branch, fails, done, required, fueled-Runs,
  fueled_take, smaller, within,
}
use cript.Parse.Statements.{
  Target, used_registers, own_register, store_result, target_name, bracket_key, target_call,
  target_field, target_key, target_access, target_loop, assign_value, assignment_expr, semicolon,
  let_value, declaration, let_loop, reserved_ahead, let_stmt, expr_stmt, return_value, return_stmt,
  halt_stmt, block_loop, block_stmt,
}
use cript.Parse.Termination.Literals.{
  global_reg-Runs, reserved_word-Runs, named_key-Runs, arguments-Runs,
}
use cript.Parse.Termination.Scopes.{
  exists_in_symbol_table-Keeps, find_in_symbol_table-Keeps, define_symbol-Keeps,
  assign_symbol-Keeps, push_scope-Keeps, join_scope-Keeps,
}
use cript.Parse.Tokens.{EndsAll, skip, take_that, look_past}
use cript.Parse.{Services, Parser}
use cript.Prelude.{ℕ, zero, suc, ◌≤◌, ◌<◌, refl, ◌==◌, Option, none, some, arith}
use cript.Table.{TableOps}

module _ {T P : Type 0} ⦃ops : TableOps T⦄ where
  used_registers-Keeps : Keeps {T = T} {P = P} used_registers
  unfolding used_registers
  used_registers-Keeps = >>=-Keeps function_stack_top-Keeps (λ f. pure-Keeps _)

  own_register-Keeps : (current_reg reg : ℕ) → Keeps {T = T} {P = P} (own_register current_reg reg)
  unfolding own_register
  own_register-Keeps current_reg reg =
      >>=-Keeps used_registers-Keeps
        (λ used. if_Keeps _ (build-Keeps (λ b bb. ir_builder_mov-Stops b bb reg)) (pure-Keeps reg))

  store_result-Keeps :
      (obj : ℕ) (key : Option ℕ) (literal current_reg reg : ℕ)
      → Keeps {T = T} {P = P} (store_result obj key literal current_reg reg)
  unfolding store_result
  store_result-Keeps obj (some key) literal current_reg reg =
      change-Keeps (λ b bb. ir_builder_set_obj-Stops b bb obj reg key)
  store_result-Keeps obj none literal current_reg reg =
      >>=-Keeps (own_register-Keeps current_reg reg) (λ r. assign_symbol-Keeps literal r)

module _ {T P : Type 0} ⦃ops : TableOps T⦄ {Fine : P → Type 0} {env : Services T P}
    (all : EndsAll Fine env) {d : ℕ} {expr : Parser T P ℕ} (takes : Taking Fine d expr) where
  target_name-Runs : (a : ℕ) → Runs Fine (suc a) a (target_name env expr)
  unfolding target_name
  target_name-Runs a =
      take_that all (λ tok. tok == tok_id) refl
        (λ tok. keep peaking_value-Keeps (λ literal.
          keep (exists_in_symbol_table-Keeps literal) (λ exists. required _ (λ _.
            keep (find_in_symbol_table-Keeps literal) (λ reg. required _ (λ _. done literal))))))

  bracket_key-Runs : (a : ℕ) → suc a ≤ d → Runs Fine (suc a) a (bracket_key env expr)
  unfolding bracket_key
  bracket_key-Runs a ld =
      skip all (λ bracket. bind (takes a ld) (λ key. skip all (λ tok. required _ (λ _. done key))))

  target_key-Runs : (a tok : ℕ) → suc a ≤ d → Runs Fine (suc a) a (target_key env expr tok)
  unfolding target_key
  target_key-Runs a tok ld = branch _ (named_key-Runs all a) (bracket_key-Runs a ld)

  target_call-Runs : (a : ℕ) (t : Target) → a ≤ d → Runs Fine (suc a) a (target_call env expr t)
  unfolding target_call
  target_call-Runs a t ld = bind (arguments-Runs all takes a t.this_reg ld) (λ arg.
      keep (build-Keeps (λ b bb. ir_builder_call-Stops b bb t.object_reg arg))
        (λ reg. bind (global_reg-Runs all) (λ global. done _)))

  target_field-Keeps : (t : Target) (key tok : ℕ) → Keeps (target_field env expr t key tok)
  unfolding target_field
  target_field-Keeps t key tok =
      if_Keeps _
        (>>=-Keeps (build-Keeps (λ b bb. ir_builder_get_obj-Stops b bb t.object_reg key))
          (λ reg. pure-Keeps _))
        (pure-Keeps _)

  target_access-Runs :
      (a tok : ℕ) (t : Target) → suc a ≤ d → Runs Fine (suc a) a (target_access env expr tok t)
  unfolding target_access
  target_access-Runs a tok t ld = branch _ (target_call-Runs a t (omega (arith, ld))) (
      bind (target_key-Runs a tok ld)
        (λ key. look_past all (λ tok'. kept (target_field-Keeps t key tok'))))

  target_loop-Runs :
      (n a tok : ℕ) (t : Target) → a ≤ n → a ≤ d → Runs Fine a a (target_loop env expr n tok t)
  unfolding target_loop
  target_loop-Runs n zero tok t le ld = never
  target_loop-Runs zero (suc a) tok t le ld = absurd (omega (arith, le))
  target_loop-Runs (suc n) (suc a) tok t le ld =
      branch _
        (bind (target_access-Runs a tok t ld) (λ t'. weaken (omega arith) (
          look_past all
            (λ tok'. target_loop-Runs n a tok' t' (omega (arith, le)) (omega (arith, ld))))))
        (done t)

  assign_value-Runs :
      (a literal : ℕ) (t : Target) → a ≤ d → Runs Fine a a (assign_value env expr literal t)
  unfolding assign_value
  assign_value-Runs a literal t ld = skip all (λ equals. keep used_registers-Keeps (λ current.
      bind (within takes ld)
        (λ reg. kept (store_result-Keeps t.object_reg t.key_reg literal current reg))))

  assignment_expr-Runs : (a : ℕ) → a ≤ d → Runs Fine (suc a) a (assignment_expr env expr)
  unfolding assignment_expr
  assignment_expr-Runs a ld = bind (target_name-Runs a) (λ literal.
      keep (find_in_symbol_table-Keeps literal) (λ obj. bind (global_reg-Runs all) (λ this.
        look_past all (λ first.
          bind (fueled-Runs (λ n c le lc. target_loop-Runs n c first _ le (omega (arith, lc, ld))))
            (λ t.
              look_past all
                (λ tok. branch _ (assign_value-Runs a literal t ld) (branch _ (done tt) fails)))))))

  semicolon-Runs : (a : ℕ) → Runs Fine a a (semicolon env expr)
  unfolding semicolon
  semicolon-Runs a = skip all (λ tok. kept (require-Keeps _))

  let_value-Runs : (a : ℕ) → a ≤ d → Runs Fine a a (let_value env expr)
  unfolding let_value
  let_value-Runs a ld = skip all (λ equals.
      keep used_registers-Keeps
        (λ current. bind (within takes ld) (λ reg. kept (own_register-Keeps current reg))))

  declaration-Runs : (a : ℕ) → a ≤ d → Runs Fine (suc a) a (declaration env expr)
  unfolding declaration
  declaration-Runs a ld = skip all (λ first.
      take_that all (λ tok. tok == tok_id) refl
        (λ tok. keep peaking_value-Keeps (λ literal. keep function_stack_top-Keeps (λ f.
          required _ (λ _. look_past all (λ tok'.
            bind
              (branch _ (let_value-Runs a ld)
                (kept (build-Keeps (λ b bb. ir_builder_undefined-Stops b bb))))
              (λ reg. kept (define_symbol-Keeps literal reg))))))))

  let_loop-Runs : (n a : ℕ) → a < n → a ≤ d → Runs Fine (suc a) a (let_loop env expr n)
  unfolding let_loop
  let_loop-Runs zero a lt ld = absurd (omega (arith, lt))
  let_loop-Runs (suc n) a lt ld = bind (declaration-Runs a ld) (λ _. look_past all (λ tok.
      branch _ (smaller (λ c lc. let_loop-Runs n c (omega (arith, lt, lc)) (omega (arith, lc, ld))))
        (done tt)))

  reserved_ahead-Runs : (a word : ℕ) → Runs Fine a a (reserved_ahead env expr word)
  unfolding reserved_ahead
  reserved_ahead-Runs a word = look_past all (λ tok. required _ (λ _.
      keep peaking_value-Keeps
        (λ literal. keep (find_in_symbol_table-Keeps literal) (λ reg. kept (require-Keeps _)))))

  pub let_stmt-Runs : (a : ℕ) → a ≤ d → Runs Fine (suc a) a (let_stmt env expr)
  unfolding let_stmt
  let_stmt-Runs a ld = bind (reserved_ahead-Runs (suc a) _) (λ _.
      bind (fueled_take (λ n c lt lc. let_loop-Runs n c lt (omega (arith, lc, ld))))
        (λ _. semicolon-Runs a))

  pub expr_stmt-Runs : (a : ℕ) → a ≤ d → Runs Fine (suc a) a (expr_stmt env expr)
  unfolding expr_stmt
  expr_stmt-Runs a ld = bind (assignment_expr-Runs a ld) (λ _. semicolon-Runs a)

  module _ {statement : Parser T P (Unit {0})} (steps : Taking Fine d statement) where
    pub return_stmt-Runs : (a : ℕ) → a ≤ d → Runs Fine (suc a) a (return_stmt env expr statement)
    unfolding return_stmt return_value
    return_stmt-Runs a ld = bind (reserved_word-Runs all a _) (λ _. look_past all (λ tok.
        bind
          (branch _ (kept (build-Keeps (λ b bb. ir_builder_undefined-Stops b bb)))
            (within takes ld))
          (λ reg.
            keep (change-Keeps (λ b bb. ir_builder_ret-Stops b bb reg)) (λ _. semicolon-Runs a))))

    pub halt_stmt-Runs : (a : ℕ) → Runs Fine (suc a) a (halt_stmt env expr statement)
    unfolding halt_stmt
    halt_stmt-Runs a =
        bind (reserved_word-Runs all a _)
          (λ _. keep (change-Keeps (λ b bb. ir_builder_halt-Stops b bb)) (λ _. semicolon-Runs a))

    block_loop-Runs : (n a : ℕ) → a ≤ n → a ≤ d → Runs Fine a a (block_loop env expr statement n)
    unfolding block_loop
    block_loop-Runs n zero le ld = never
    block_loop-Runs zero (suc a) le ld = absurd (omega (arith, le))
    block_loop-Runs (suc n) (suc a) le ld = look_past all (λ tok. branch _ (done tt) (
        bind (steps a ld) (λ _.
          weaken (omega arith) (block_loop-Runs n a (omega (arith, le)) (omega (arith, ld))))))

    pub block_stmt-Runs : (a : ℕ) → a ≤ d → Runs Fine (suc a) a (block_stmt env expr statement)
    unfolding block_stmt
    block_stmt-Runs a ld =
        take_that all (λ tok. tok == b'{') refl
          (λ tok. keep push_scope-Keeps (λ _.
            bind (fueled-Runs (λ n c le lc. block_loop-Runs n c le (omega (arith, lc, ld))))
              (λ _. keep (join_scope-Keeps env) (λ _. skip all (λ close. kept (require-Keeps _))))))
