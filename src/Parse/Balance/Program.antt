-- ===== src/Parse/Balance/Program.antt =====
-- Statements and programs close the scopes that they open, and leave the functions that they enter.
use cript.Parse.Balance.{
  IsBalanced, both, either, pure-IsBalanced, parse_error-IsBalanced, out_of_fuel-IsBalanced,
  require-IsBalanced, peaking_value-IsBalanced, fueled-IsBalanced, peak-IsBalanced,
  insert_str-IsBalanced,
}
use cript.Parse.Balance.Scopes.{
  exists-IsBalanced, find-IsBalanced, define_symbol-IsBalanced, allocate_register-IsBalanced,
}
use cript.Parse.Balance.Branches.{if_else_stmt-IsBalanced, while_stmt-IsBalanced}
use cript.Parse.Balance.Operators.{right_hand_expr-IsBalanced}
use cript.Parse.Balance.Statements.{
  let_stmt-IsBalanced, expr_stmt-IsBalanced, return_stmt-IsBalanced, halt_stmt-IsBalanced,
  block_stmt-IsBalanced,
}
use cript.Parse.Balance.{
  shape, Grown, FitsScope, FitsScopes, Fits, scope_lists, marks_of, marks, IsKept,
}
use cript.Parse.Program.{
  word_switch, word_statement, statement_switch, statement, level, parse_right_hand_expr,
  parse_statement, inject, inject_reserved, program_loop, parse, parse_state_new,
}
use cript.Parse.Scopes.{function_scope_new}
use cript.Parse.{Services, Parser, ParseState, ParseScope, FunctionScope}
use cript.Prelude.Run.{IfOk, IfOk-weaken}
use cript.Prelude.{ℕ, zero, suc, ◌≡◌, refl, none, some, List, [], ◌∷◌}
use cript.Table.{TableOps}

module _ {T P : Type 0} ⦃ops : TableOps T⦄ (env : Services T P) where
  module _ {expr : Parser T P ℕ} {below : Parser T P (Unit {0})} (even : IsBalanced expr)
      (flat : IsBalanced below) where
    statement-IsBalanced : IsBalanced (statement env expr below)
    unfolding statement statement_switch word_statement word_switch
    statement-IsBalanced = both (peak-IsBalanced env) (λ tok.
        either _ (block_stmt-IsBalanced env even flat) (
          either _
            (both peaking_value-IsBalanced (λ literal. both (exists-IsBalanced literal) (λ exists.
              both (require-IsBalanced _) (λ _. both (find-IsBalanced literal) (λ reg.
                either _ (let_stmt-IsBalanced env even) (
                  either _ (if_else_stmt-IsBalanced env even flat) (
                    either _ (while_stmt-IsBalanced env even flat) (
                      either _ (return_stmt-IsBalanced env even flat) (
                        either _ (halt_stmt-IsBalanced env even flat)
                          (expr_stmt-IsBalanced env even))))))))))
            parse_error-IsBalanced))

  level-IsBalanced : (d : ℕ) → IsBalanced (level env d).0 × IsBalanced (level env d).1
  unfolding level
  level-IsBalanced zero = (out_of_fuel-IsBalanced, out_of_fuel-IsBalanced)
  level-IsBalanced (suc d) =
      let h = level-IsBalanced d in
      (right_hand_expr-IsBalanced env h.0 h.1, statement-IsBalanced h.0 h.1)

  parse_statement-IsBalanced : IsBalanced (parse_statement env)
  unfolding parse_statement
  parse_statement-IsBalanced = fueled-IsBalanced (λ d. (level-IsBalanced d).1)

  parse_right_hand_expr-IsBalanced : IsBalanced (parse_right_hand_expr env)
  unfolding parse_right_hand_expr
  parse_right_hand_expr-IsBalanced = fueled-IsBalanced (λ d. (level-IsBalanced d).0)

  inject-IsBalanced : (text : List ℕ) (word : ℕ) → IsBalanced (inject env text word)
  unfolding inject
  inject-IsBalanced text word =
      both (insert_str-IsBalanced env text) (λ string. define_symbol-IsBalanced string word)

  program_loop-IsBalanced : (n : ℕ) → IsBalanced (program_loop env n)
  unfolding program_loop
  program_loop-IsBalanced zero = out_of_fuel-IsBalanced
  program_loop-IsBalanced (suc n) = both (peak-IsBalanced env) (λ tok.
      either _ (pure-IsBalanced tt)
        (both parse_statement-IsBalanced (λ _. program_loop-IsBalanced n)))

  parse-IsBalanced : IsBalanced (parse env)
  unfolding parse inject_reserved
  parse-IsBalanced =
      both
        (both (inject-IsBalanced _ _) (λ _. both (inject-IsBalanced _ _) (λ _.
          both (inject-IsBalanced _ _) (λ _. both (inject-IsBalanced _ _) (λ _.
            both (inject-IsBalanced _ _)
              (λ _. both (inject-IsBalanced _ _) (λ _. inject-IsBalanced _ _)))))))
        (λ _. fueled-IsBalanced program_loop-IsBalanced)

  -- a first state has one function, with one scope
  parse_state_new-Fits :
      (pool : P) (text : List ℕ)
      → IfOk (parse_state_new env pool text) (λ r. Fits ((none ∷ []) ∷ []) (shape r.1))
  unfolding parse_state_new function_scope_new
  parse_state_new-Fits pool text =
      (both allocate_register-IsBalanced (λ reg. both (require-IsBalanced _) (λ _.
          both (insert_str-IsBalanced env _) (λ string. define_symbol-IsBalanced string reg)))).run
        _ ((none ∷ []) ∷ []) ((tt, tt), tt)

  Grown-refl : (t : T) → Grown t t
  Grown-refl t = ([], refl)

  marks_fit_scopes : (scopes : List (ParseScope T)) → FitsScopes (marks_of scopes) scopes
  marks_fit_scopes [] = tt
  marks_fit_scopes (scope ∷ scopes) =
      ((Grown-refl scope.symbol_table, Grown-refl scope.upper_table), marks_fit_scopes scopes)

  marks_fit : (lists : List (List (ParseScope T))) → Fits (marks lists) lists
  marks_fit [] = tt
  marks_fit (scopes ∷ lists) = (marks_fit_scopes scopes, marks_fit lists)

  -- A statement or an expression that is parsed closes the scopes that it opens, and no other, and leaves the functions that it
  -- enters, and no other: the functions around it are as many as before, each has as many scopes as before, and each scope is
  -- the one that was there, with its two tables written to at most.
  pub parse_statement_balanced :
      (s : ParseState T P)
      → IfOk (parse_statement env s) (λ r. IsKept s r.1)
        × IfOk (parse_right_hand_expr env s) (λ r. IsKept s r.1)
  parse_statement_balanced s =
      let fit = marks_fit (shape s) in
      (
        parse_statement-IsBalanced.run s (marks (shape s)) fit,
        parse_right_hand_expr-IsBalanced.run s (marks (shape s)) fit,
      )

  one_scope : (outer : List (ParseScope T)) → FitsScopes [] outer → outer ≡ []
  one_scope [] h = refl
  one_scope (scope ∷ outer) h = absurd h

  one_function :
      (f : FunctionScope T) (fs : List (FunctionScope T)) (scope : ParseScope T)
      (outer : List (ParseScope T)) (lists : List (List (ParseScope T)))
      → Fits ((none ∷ []) ∷ []) ((scope ∷ outer) ∷ lists)
      → Fits (marks ((scope ∷ outer) ∷ lists)) (scope_lists (f ∷ fs))
      → (fs ≡ []) × (f.outer ≡ []) × FitsScope (some scope) f.scope
  one_function f fs scope outer (scopes ∷ lists) h k = absurd h.1
  one_function f fs scope (next ∷ outer) [] h k = absurd h.0.1
  one_function f (g ∷ fs) scope [] [] h k = absurd k.1
  one_function f [] scope [] [] h k = (refl, one_scope f.outer k.0.1, k.0.0)

  -- After a program has been parsed from a first state, there is one function, with one scope, and this is the scope that the
  -- program began with, with its two tables written to at most.
  pub parse_balanced :
      (pool : P) (text : List ℕ)
      → IfOk (parse_state_new env pool text) (λ s. IfOk (parse env s.1) (λ r.
        (r.1.below ≡ []) × (r.1.top.outer ≡ []) × FitsScope (some s.1.top.scope) r.1.top.scope))
  parse_balanced pool text =
      IfOk-weaken _ _ (parse_state_new env pool text)
        (λ s first.
          IfOk-weaken _ _ (parse env s.1)
            (λ r kept.
              one_function r.1.top r.1.below s.1.top.scope s.1.top.outer (scope_lists s.1.below)
                first kept)
            (parse-IsBalanced.run s.1 (marks (shape s.1)) (marks_fit (shape s.1))))
        (parse_state_new-Fits pool text)
