-- ===== src/Parse/Keeps.antt =====
-- What the parser of src/parse.c does without reading a token: it comes to an end, and the lexer stays as it is.
use cript.Ir.{IrBuilder}
use cript.Lex.Progress.{Ends-weaken}
use cript.Parse.Emits.{Stops, then_Stops, stops}
use cript.Parse.Rules.{Keeps, Ends-bind}
use cript.Parse.{
  FunctionScope, Parser, pure, ◌>>=◌, lift, parse_error, require, peaking_value, function_stack_top,
  set_top, build_at, build, change_at, change, set_current_bb,
}
use cript.Prelude.Run.{Run, Ends->>=}
use cript.Prelude.{ℕ, ◌≡◌, refl, ◌∙◌, Bool, true, false, if◌then◌else◌}

module _ {T P : Type 0} where
  pub >>=-Keeps :
      {A B : Type 0} {m : Parser T P A} {f : A → Parser T P B}
      → Keeps m
      → ((x : A) → Keeps (f x))
      → Keeps (m >>= f)
  >>=-Keeps {m = m} {f} h k = record {
    run = λ s. Ends-bind m f _ _ s (h.run s) (λ r e.
        Ends-weaken _ (λ q. q.1.lex ≡ s.lex) (f r.0 r.1) (λ q e'. e' ∙ e) ((k r.0).run r.1));
  }

  pub pure-Keeps : {A : Type 0} (x : A) → Keeps {T = T} {P = P} (pure x)
  unfolding pure
  pure-Keeps x = record { run = λ s. refl }

  pub parse_error-Keeps : {A : Type 0} → Keeps {T = T} {P = P} {A = A} parse_error
  unfolding parse_error
  parse_error-Keeps = record { run = λ s. tt }

  pub require-Keeps : (test : Bool) → Keeps {T = T} {P = P} (require test)
  unfolding require parse_error pure
  require-Keeps true = pure-Keeps tt
  require-Keeps false = parse_error-Keeps

  pub lift-Keeps : {A : Type 0} {m : Run A} → Stops m → Keeps {T = T} {P = P} (lift m)
  unfolding lift
  lift-Keeps {m = m} h = record {
    run = λ s. Ends->>= _ (λ r. r.1.lex ≡ s.lex) m _ h.ends (λ a _. refl);
  }

  pub peaking_value-Keeps : Keeps {T = T} {P = P} peaking_value
  unfolding peaking_value
  peaking_value-Keeps = record { run = λ s. refl }

  pub function_stack_top-Keeps : Keeps {T = T} {P = P} function_stack_top
  unfolding function_stack_top
  function_stack_top-Keeps = record { run = λ s. refl }

  pub set_top-Keeps : (f : FunctionScope T) → Keeps {T = T} {P = P} (set_top f)
  unfolding set_top
  set_top-Keeps f = record { run = λ s. refl }

  pub set_current_bb-Keeps : (bb : ℕ) → Keeps {T = T} {P = P} (set_current_bb bb)
  unfolding set_current_bb
  set_current_bb-Keeps bb = record { run = λ s. refl }

  pub build_at-Keeps :
      {A : Type 0} (bb : ℕ) {f : IrBuilder T → ℕ → Run (A × IrBuilder T)}
      → ((b : IrBuilder T) (bb : ℕ) → Stops (f b bb))
      → Keeps {T = T} {P = P} (build_at bb f)
  unfolding build_at
  build_at-Keeps bb {f} h = record {
    run = λ s.
        Ends->>= _ (λ r. r.1.lex ≡ s.lex) (f s.top.builder bb) _ (h s.top.builder bb).ends
          (λ r _. refl);
  }

  pub build-Keeps :
      {A : Type 0} {f : IrBuilder T → ℕ → Run (A × IrBuilder T)}
      → ((b : IrBuilder T) (bb : ℕ) → Stops (f b bb))
      → Keeps {T = T} {P = P} (build f)
  unfolding build
  build-Keeps h = record { run = λ s. (build_at-Keeps s.top.current_bb h).run s }

  pub change_at-Keeps :
      (bb : ℕ) {f : IrBuilder T → ℕ → Run (IrBuilder T)}
      → ((b : IrBuilder T) (bb : ℕ) → Stops (f b bb))
      → Keeps {T = T} {P = P} (change_at bb f)
  unfolding change_at
  change_at-Keeps bb h = build_at-Keeps bb (λ b bb. then_Stops (h b bb) (λ r. stops))

  pub change-Keeps :
      {f : IrBuilder T → ℕ → Run (IrBuilder T)}
      → ((b : IrBuilder T) (bb : ℕ) → Stops (f b bb))
      → Keeps {T = T} {P = P} (change f)
  unfolding change
  change-Keeps h = record { run = λ s. (change_at-Keeps s.top.current_bb h).run s }

  pub if_Keeps :
      {A : Type 0} (test : Bool) {m n : Parser T P A}
      → Keeps m
      → Keeps n
      → Keeps (if test then m else n)
  if_Keeps true h k = h
  if_Keeps false h k = k
