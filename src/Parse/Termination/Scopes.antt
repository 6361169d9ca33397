-- ===== src/Parse/Termination/Scopes.antt =====
-- The operations on scopes and on the stack of functions of src/parse.c come to an end.
use cript.Hash.{HashNode}
use cript.Parse.Emits.{Stops, branch_Stops, assert-Stops, then_Stops, stops, traps}
use cript.Parse.Keeps.{
  >>=-Keeps, pure-Keeps, require-Keeps, lift-Keeps, function_stack_top-Keeps, set_top-Keeps,
}
use cript.Parse.Rules.{Keeps, Runs, bind, kept}
use cript.Parse.Scopes.{
  Found, capture_step, lookup_stack, put_stack, symbol_table_lookup, exists_in_symbol_table,
  find_in_symbol_table, define_symbol, assign_symbol, allocate_register, push_scope, unlink_from,
  unlink_scope, prepend_scope, join_loop, push_function, join_scope, pop_scope, parsed_function,
  pop_function, text_this, function_scope_new,
}
use cript.Parse.Tokens.{EndsAll, insert_str-Runs}
use cript.Parse.{ParseScope, FunctionScope, Services}
use cript.Prelude.Run.{Ends->>=, wild}
use cript.Prelude.{ℕ, ◌≡◌, refl, List, [], ◌∷◌}
use cript.Table.{TableOps}
use cript.Value.{Value, value_is_undefined, value_is_int}
use cript.Vm.Registers.{int_of}

wild-Stops : {A : Type 0} → Stops {A = A} wild
wild-Stops = record { ends = tt }

pub int_of-Stops : (v : Value) → Stops (int_of v)
unfolding int_of
int_of-Stops v = then_Stops (assert-Stops _) (λ _. stops)

module _ {T : Type 0} ⦃ops : TableOps T⦄ where
  capture_step-Stops :
      (f : FunctionScope T) (string : ℕ) (found : Found T) → Stops (capture_step f string found)
  unfolding capture_step
  capture_step-Stops f string (v, captured, reg, fs) =
      branch_Stops (value_is_undefined v) _ _ stops (branch_Stops (value_is_int v) _ _ stops traps)

  lookup_stack-Stops : (fs : List (FunctionScope T)) (string : ℕ) → Stops (lookup_stack fs string)
  unfolding lookup_stack
  lookup_stack-Stops [] string = stops
  lookup_stack-Stops (f ∷ fs) string =
      branch_Stops _ _ _ stops
        (then_Stops (lookup_stack-Stops fs string) (capture_step-Stops f string))

module _ {T P : Type 0} ⦃ops : TableOps T⦄ where
  put_stack-Keeps : (fs : List (FunctionScope T)) → Keeps {P = P} (put_stack fs)
  unfolding put_stack
  put_stack-Keeps [] = record { run = λ s. tt }
  put_stack-Keeps (f ∷ fs) = record { run = λ s. refl }

  lookup-Keeps : (string : ℕ) → Keeps {T = T} {P = P} (symbol_table_lookup string)
  unfolding symbol_table_lookup
  lookup-Keeps string = record {
    run = λ s.
        Ends->>= _ (λ r. r.1.lex ≡ s.lex) (lookup_stack (s.top ∷ s.below) string) _
          (lookup_stack-Stops (s.top ∷ s.below) string).ends
          (λ r _. (>>=-Keeps (put_stack-Keeps r.3) (λ _. pure-Keeps r.0)).run s);
  }

  pub exists_in_symbol_table-Keeps :
      (string : ℕ) → Keeps {T = T} {P = P} (exists_in_symbol_table string)
  unfolding exists_in_symbol_table
  exists_in_symbol_table-Keeps string = >>=-Keeps (lookup-Keeps string) (λ v. pure-Keeps _)

  pub find_in_symbol_table-Keeps :
      (string : ℕ) → Keeps {T = T} {P = P} (find_in_symbol_table string)
  unfolding find_in_symbol_table
  find_in_symbol_table-Keeps string =
      >>=-Keeps (lookup-Keeps string) (λ v. lift-Keeps (int_of-Stops v))

  pub define_symbol-Keeps : (string reg : ℕ) → Keeps {T = T} {P = P} (define_symbol string reg)
  unfolding define_symbol
  define_symbol-Keeps string reg = >>=-Keeps function_stack_top-Keeps (λ f. set_top-Keeps _)

  pub assign_symbol-Keeps : (string reg : ℕ) → Keeps {T = T} {P = P} (assign_symbol string reg)
  unfolding assign_symbol
  assign_symbol-Keeps string reg = >>=-Keeps function_stack_top-Keeps (λ f. set_top-Keeps _)

  pub allocate_register-Keeps : Keeps {T = T} {P = P} allocate_register
  unfolding allocate_register
  allocate_register-Keeps = record { run = λ s. refl }

  pub push_scope-Keeps : Keeps {T = T} {P = P} push_scope
  unfolding push_scope
  push_scope-Keeps = >>=-Keeps function_stack_top-Keeps (λ f. set_top-Keeps _)

  unlink_from-Keeps :
      (f : FunctionScope T) (scopes : List (ParseScope T))
      → Keeps {T = T} {P = P} (unlink_from f scopes)
  unfolding unlink_from
  unlink_from-Keeps f [] = lift-Keeps wild-Stops
  unlink_from-Keeps f (scope ∷ scopes) = >>=-Keeps (set_top-Keeps _) (λ _. pure-Keeps _)

  pub unlink_scope-Keeps : Keeps {T = T} {P = P} unlink_scope
  unfolding unlink_scope
  unlink_scope-Keeps = >>=-Keeps function_stack_top-Keeps (λ f. unlink_from-Keeps f f.outer)

  pub prepend_scope-Keeps : (scope : ParseScope T) → Keeps {T = T} {P = P} (prepend_scope scope)
  unfolding prepend_scope
  prepend_scope-Keeps scope = >>=-Keeps function_stack_top-Keeps (λ f. set_top-Keeps _)

  join_loop-Keeps : (nodes : List HashNode) → Keeps {T = T} {P = P} (join_loop nodes)
  unfolding join_loop
  join_loop-Keeps [] = pure-Keeps tt
  join_loop-Keeps (node ∷ nodes) =
      >>=-Keeps (lift-Keeps (int_of-Stops node.value))
        (λ reg. >>=-Keeps (assign_symbol-Keeps node.key reg) (λ _. join_loop-Keeps nodes))

  pub join_scope-Keeps : (env : Services T P) → Keeps (join_scope env)
  unfolding join_scope
  join_scope-Keeps env = >>=-Keeps unlink_scope-Keeps (λ scope. join_loop-Keeps _)

  pub pop_scope-Keeps : (env : Services T P) → Keeps (pop_scope env)
  unfolding pop_scope
  pop_scope-Keeps env = >>=-Keeps unlink_scope-Keeps (λ scope. pure-Keeps tt)

  module _ {Fine : P → Type 0} {env : Services T P} (all : EndsAll Fine env) where
    pub push_function-Runs : {a : ℕ} → Runs Fine a a (push_function env)
    unfolding push_function
    push_function-Runs = record {
      run = λ s fine lt.
          (bind (insert_str-Runs all text_this) (λ this. kept (define_symbol-Keeps this 1))).run
            (record s { top = function_scope_new; below = s.top ∷ s.below }) fine lt;
    }

    pub parsed_function-Stops : (f : FunctionScope T) → Stops (parsed_function env f)
    unfolding parsed_function
    parsed_function-Stops f = then_Stops (record { ends = all.destroys f.builder }) (λ _. stops)

    pub pop_function-Keeps : Keeps (pop_function env)
    unfolding pop_function
    pop_function-Keeps = record {
      run = λ s.
          (>>=-Keeps (lift-Keeps (parsed_function-Stops s.top)) (λ function.
              >>=-Keeps (require-Keeps _)
                (λ _. >>=-Keeps (put_stack-Keeps s.below) (λ _. record { run = λ s'. refl })))).run
            s;
    }
