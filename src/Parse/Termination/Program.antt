-- ===== src/Parse/Termination/Program.antt =====
-- Statements and programs of src/parse.c come to an end, whatever the text is.
use cript.Lex.{tok_eof}
use cript.Lex.Progress.{Ends-weaken}
use cript.Parse.Keeps.{peaking_value-Keeps}
use cript.Parse.Program.{
  word_switch, word_statement, statement_switch, statement, level, parse_right_hand_expr,
  parse_statement, inject, inject_reserved, program_loop, parse,
}
use cript.Parse.Rules.{
  Runs, Taking, bind, keep, kept, branch, fails, required, fueled_take, Ends-bind,
}
use cript.Parse.Termination.Branches.{if_else_stmt-Runs, while_stmt-Runs}
use cript.Parse.Termination.Operators.{right_hand_expr-Taking}
use cript.Parse.Termination.Scopes.{
  exists_in_symbol_table-Keeps, find_in_symbol_table-Keeps, define_symbol-Keeps,
}
use cript.Parse.Termination.Statements.{
  let_stmt-Runs, expr_stmt-Runs, return_stmt-Runs, halt_stmt-Runs, block_stmt-Runs,
}
use cript.Parse.Tokens.{EndsAll, peak-Ends, look_past, insert_str-Runs}
use cript.Parse.{ParseState, Services, Parser, tokens_left, pure, ◌>>=◌, fueled, peak}
use cript.Prelude.Run.{Ends}
use cript.Prelude.{ℕ, zero, suc, ◌≤◌, ◌<◌, ◌≡◌, ◌==◌, List, arith, by_test}
use cript.Table.{TableOps}

module _ {T P : Type 0} ⦃ops : TableOps T⦄ {Fine : P → Type 0} {env : Services T P}
    (all : EndsAll Fine env) where
  module _ {d : ℕ} {expr : Parser T P ℕ} {below : Parser T P (Unit {0})}
      (takes : Taking Fine d expr) (steps : Taking Fine d below) where
    word_switch-Runs : (a reg : ℕ) → a ≤ d → Runs Fine (suc a) a (word_switch env expr below reg)
    unfolding word_switch
    word_switch-Runs a reg ld = branch _ (let_stmt-Runs all takes a ld) (
        branch _ (if_else_stmt-Runs all takes steps a ld) (
          branch _ (while_stmt-Runs all takes steps a ld) (
            branch _ (return_stmt-Runs all takes steps a ld)
              (branch _ (halt_stmt-Runs all takes steps a) (expr_stmt-Runs all takes a ld)))))

    word_statement-Runs : (a : ℕ) → a ≤ d → Runs Fine (suc a) a (word_statement env expr below)
    unfolding word_statement
    word_statement-Runs a ld = keep peaking_value-Keeps (λ literal.
        keep (exists_in_symbol_table-Keeps literal) (λ exists.
          required _
            (λ _. keep (find_in_symbol_table-Keeps literal) (λ reg. word_switch-Runs a reg ld))))

    statement_switch-Runs :
        (a tok : ℕ) → a ≤ d → Runs Fine (suc a) a (statement_switch env expr below tok)
    unfolding statement_switch
    statement_switch-Runs a tok ld =
        branch _ (block_stmt-Runs all takes steps a ld) (branch _ (word_statement-Runs a ld) fails)

    statement-Taking : Taking Fine (suc d) (statement env expr below)
    unfolding statement
    statement-Taking a ld = look_past all (λ tok. statement_switch-Runs a tok (omega (arith, ld)))

  -- With fewer tokens left than it is deep, an expression and a statement come to an end.
  level-Taking : (d : ℕ) → Taking Fine d (level env d).0 × Taking Fine d (level env d).1
  unfolding level
  level-Taking zero = (λ a le. absurd (omega (arith, le)), λ a le. absurd (omega (arith, le)))
  level-Taking (suc d) =
      let below = level-Taking d in
      (right_hand_expr-Taking all below.0 below.1, statement-Taking below.0 below.1)

  pub parse_right_hand_expr-Runs : (a : ℕ) → Runs Fine (suc a) a (parse_right_hand_expr env)
  unfolding parse_right_hand_expr
  parse_right_hand_expr-Runs a = fueled_take (λ n c lt lc. (level-Taking n).0 c lt)

  pub parse_statement-Runs : (a : ℕ) → Runs Fine (suc a) a (parse_statement env)
  unfolding parse_statement
  parse_statement-Runs a = fueled_take (λ n c lt lc. (level-Taking n).1 c lt)

  inject-Runs : {a : ℕ} (text : List ℕ) (word : ℕ) → Runs Fine a a (inject env text word)
  unfolding inject
  inject-Runs text word =
      bind (insert_str-Runs all text) (λ string. kept (define_symbol-Keeps string word))

  inject_reserved-Runs : {a : ℕ} → Runs Fine a a (inject_reserved env)
  unfolding inject_reserved
  inject_reserved-Runs = bind (inject-Runs _ _) (λ _. bind (inject-Runs _ _) (λ _.
      bind (inject-Runs _ _) (λ _.
        bind (inject-Runs _ _)
          (λ _. bind (inject-Runs _ _) (λ _. bind (inject-Runs _ _) (λ _. inject-Runs _ _))))))

  -- the loop ends at the end of the text
  abbrev AtEnd : ℕ → Unit {0} × ParseState T P → Type 0
  AtEnd a r =
      Fine r.1.lex.string_pool × (tokens_left r.1.lex < a) × (r.1.lex.peaking_token ≡ tok_eof)

  statement_again :
      (n a : ℕ) (s : ParseState T P)
      → ((s' : ParseState T P)
          → Fine s'.lex.string_pool
          → tokens_left s'.lex < a
          → Ends (program_loop env n s') (AtEnd a))
      → Fine s.lex.string_pool
      → tokens_left s.lex < suc a
      → Ends ((parse_statement env >>= (λ _. program_loop env n)) s) (AtEnd (suc a))
  statement_again n a s h fine lt =
      Ends-bind (parse_statement env) (λ _. program_loop env n) _ (AtEnd (suc a)) s
        ((parse_statement-Runs a).run s fine lt)
        (λ r q.
          Ends-weaken (AtEnd a) (AtEnd (suc a)) (program_loop env n r.1)
            (λ r' q'. (q'.0, omega (arith, q'.1), q'.2)) (h r.1 q.0 q.1))

  program_loop-AtEnd :
      (n a : ℕ) (s : ParseState T P)
      → a ≤ n
      → Fine s.lex.string_pool
      → tokens_left s.lex < a
      → Ends (program_loop env n s) (AtEnd a)
  unfolding program_loop pure
  program_loop-AtEnd n zero s le fine lt = absurd (omega (arith, lt))
  program_loop-AtEnd zero (suc a) s le fine lt = absurd (omega (arith, le))
  program_loop-AtEnd (suc n) (suc a) s le fine lt =
      Ends-bind (peak env) _ _ (AtEnd (suc a)) s (peak-Ends Fine env all s fine) (λ r q.
        by_test (λ (m : Parser T P (Unit {0})). Ends (m r.1) (AtEnd (suc a))) (r.0 == tok_eof)
          (λ e. (q.0, omega (arith, q.1, lt), ground (arith, e, q.2)))
          (λ _.
            statement_again n a r.1 (λ s'. program_loop-AtEnd n a s' (omega (arith, le))) q.0
              (omega (arith, q.1, lt))))

  parse-AtEnd :
      (s : ParseState T P)
      → Fine s.lex.string_pool
      → Ends (parse env s) (AtEnd (suc (tokens_left s.lex)))
  unfolding parse fueled
  parse-AtEnd s fine =
      Ends-bind (inject_reserved env) _ _ (AtEnd (suc (tokens_left s.lex))) s
        ((inject_reserved-Runs {a = suc (tokens_left s.lex)}).run s fine (omega arith))
        (λ r q.
          Ends-weaken (AtEnd (suc (tokens_left r.1.lex))) (AtEnd (suc (tokens_left s.lex))) _
            (λ r' q'. (q'.0, omega (arith, q'.1, q.1), q'.2))
            (program_loop-AtEnd (suc (tokens_left r.1.lex)) (suc (tokens_left r.1.lex)) r.1
              (omega arith) q.0 (omega arith)))

module _ {T P : Type 0} ⦃ops : TableOps T⦄ (Fine : P → Type 0) (env : Services T P)
    (all : EndsAll Fine env) where
  -- Parsing comes to an end for every text, if interning a string, finding one and finishing a builder do, and if a
  -- pool that is fine stays so. A parse that does not end in an error has come to a token for the
  -- end of the file, which a byte of 255 is too.
  pub parse-Ends :
      (s : ParseState T P)
      → Fine s.lex.string_pool
      → Ends (parse env s) (λ r. Fine r.1.lex.string_pool × (r.1.lex.peaking_token ≡ tok_eof))
  parse-Ends s fine = Ends-weaken _ _ (parse env s) (λ r q. (q.0, q.2)) (parse-AtEnd all s fine)

  -- Under the same conditions, parsing a statement comes to an end, and it takes a token or more if it does not end in
  -- an error.
  pub parse_statement-Ends :
      (s : ParseState T P)
      → Fine s.lex.string_pool
      → Ends
          (parse_statement env s)
          (λ r. Fine r.1.lex.string_pool × (tokens_left r.1.lex < tokens_left s.lex))
  parse_statement-Ends s fine =
      (parse_statement-Runs all (tokens_left s.lex)).run s fine (omega arith)

  -- Under the same conditions, parsing an expression comes to an end, and it takes a token or more if it does not end in
  -- an error.
  pub parse_right_hand_expr-Ends :
      (s : ParseState T P)
      → Fine s.lex.string_pool
      → Ends
          (parse_right_hand_expr env s)
          (λ r. Fine r.1.lex.string_pool × (tokens_left r.1.lex < tokens_left s.lex))
  parse_right_hand_expr-Ends s fine =
      (parse_right_hand_expr-Runs all (tokens_left s.lex)).run s fine (omega arith)
