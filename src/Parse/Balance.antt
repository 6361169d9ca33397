-- ===== src/Parse/Balance.antt =====
-- What parts of src/parse.c do to the scopes of the functions around.
pub mod Scopes
pub mod Literals
pub mod Postfix
pub mod Operators
pub mod Statements
pub mod Branches
pub mod Program
use cript.Ir.{IrBuilder}
use cript.Lex.Peak.{lex_peak, lex_next}
use cript.Parse.{
  ParseScope, FunctionScope, ParseState, Services, Parser, pure, ◌>>=◌, lift, parse_error, require,
  peaking_value, function_stack_top, set_current_bb, build_at, build, change_at, change, fueled,
  peak, next, insert_str, find_str,
}
use cript.Parse.Literals.{out_of_fuel}
use cript.Prelude.Run.{Run, IfOk, IfOk->>=, IfOk-any}
use cript.Prelude.{ℕ, ◌≡◌, Bool, true, false, if◌then◌else◌, Option, none, some, List, [], ◌∷◌}
use cript.Table.{TableOps}
use cript.Value.{Value}

-- what has been written to a table, the last first
abbrev pub written : {T : Type 0} → ⦃ops : TableOps T⦄ → List (ℕ × Value) → T → T
written [] t = t
written ⦃ops = ops⦄ ((key, value) ∷ writes) t = ops.update (written writes t) key value

-- `u` is `t` with more written to it.
abbrev pub Grown : {T : Type 0} → ⦃ops : TableOps T⦄ → T → T → Type 0
Grown t u = (writes : List (ℕ × Value)) × (u ≡ written writes t)

-- A scope that has grown from another, in both tables, or any scope.
abbrev pub FitsScope :
    {T : Type 0} → ⦃ops : TableOps T⦄ → Option (ParseScope T) → ParseScope T → Type 0
FitsScope none scope = Unit {0}
FitsScope (some first) scope =
    Grown first.symbol_table scope.symbol_table × Grown first.upper_table scope.upper_table

abbrev pub FitsScopes :
    {T : Type 0} → ⦃ops : TableOps T⦄ → List (Option (ParseScope T)) → List (ParseScope T) → Type 0
FitsScopes [] [] = Unit {0}
FitsScopes [] (scope ∷ scopes) = ⊥
FitsScopes (m ∷ ms) [] = ⊥
FitsScopes (m ∷ ms) (scope ∷ scopes) = FitsScope m scope × FitsScopes ms scopes

-- The scopes of each function, the topmost first
abbrev pub scope_lists : {T : Type 0} → List (FunctionScope T) → List (List (ParseScope T))
scope_lists [] = []
scope_lists (f ∷ fs) = (f.scope ∷ f.outer) ∷ scope_lists fs

abbrev pub Marks : Type 0 → Type 0
Marks T = List (List (Option (ParseScope T)))

abbrev pub Fits : {T : Type 0} → ⦃ops : TableOps T⦄ → Marks T → List (List (ParseScope T)) → Type 0
Fits [] [] = Unit {0}
Fits [] (scopes ∷ lists) = ⊥
Fits (m ∷ ms) [] = ⊥
Fits (m ∷ ms) (scopes ∷ lists) = FitsScopes m scopes × Fits ms lists

abbrev pub shape : {T P : Type 0} → ParseState T P → List (List (ParseScope T))
shape s = scope_lists (s.top ∷ s.below)

-- what just these scopes and functions fit
abbrev pub marks_of : {T : Type 0} → List (ParseScope T) → List (Option (ParseScope T))
marks_of [] = []
marks_of (scope ∷ scopes) = some scope ∷ marks_of scopes

abbrev pub marks : {T : Type 0} → List (List (ParseScope T)) → Marks T
marks [] = []
marks (scopes ∷ lists) = marks_of scopes ∷ marks lists

-- The functions and scopes of `s'` are those of `s`, with more written to their tables.
abbrev pub IsKept : {T P : Type 0} → ⦃ops : TableOps T⦄ → ParseState T P → ParseState T P → Type 0
IsKept s s' = Fits (marks (shape s)) (shape s')

-- From a state that fits `p`, `m` leads to one that fits `q`, where it leads to a state.
pub record Moves {T P A : Type 0} ⦃ops : TableOps T⦄ (p q : Marks T) (m : Parser T P A)
    : Type 0 where
  pub run : (s : ParseState T P) → Fits p (shape s) → IfOk (m s) (λ r. Fits q (shape r.1))

-- `m` leaves every function and every scope where it is; scopes may grow.
pub record IsBalanced {T P A : Type 0} ⦃ops : TableOps T⦄ (m : Parser T P A) : Type 0 where
  pub run :
      (s : ParseState T P) (p : Marks T) → Fits p (shape s) → IfOk (m s) (λ r. Fits p (shape r.1))

module _ {T P : Type 0} ⦃ops : TableOps T⦄ where
  pub IfOk-bind :
      {A B : Type 0} (m : Parser T P A) (f : A → Parser T P B) (Q : A × ParseState T P → Type 0)
      (R : B × ParseState T P → Type 0) (s : ParseState T P)
      → IfOk (m s) Q
      → ((r : A × ParseState T P) → Q r → IfOk (f r.0 r.1) R)
      → IfOk ((m >>= f) s) R
  unfolding ◌>>=◌
  IfOk-bind m f Q R s h k = IfOk->>= Q R (m s) (λ r. f r.0 r.1) h k

  pub move :
      {A B : Type 0} {p q r : Marks T} {m : Parser T P A} {f : A → Parser T P B}
      → Moves p q m
      → ((x : A) → Moves q r (f x))
      → Moves p r (m >>= f)
  move {m = m} {f} h k = record {
    run = λ s e. IfOk-bind m f _ _ s (h.run s e) (λ r e'. (k r.0).run r.1 e');
  }

  pub stay : {A : Type 0} {p : Marks T} {m : Parser T P A} → IsBalanced m → Moves p p m
  stay {p = p} h = record { run = λ s e. h.run s p e }

  pub step :
      {A B : Type 0} {p q : Marks T} {m : Parser T P A} {f : A → Parser T P B}
      → IsBalanced m
      → ((x : A) → Moves p q (f x))
      → Moves p q (m >>= f)
  step h k = move (stay h) k

  -- what moves every list of marks to itself is balanced
  pub balanced :
      {A : Type 0} {m : Parser T P A}
      → ((n : List (Option (ParseScope T))) (ns : Marks T) → Moves (n ∷ ns) (n ∷ ns) m)
      → IsBalanced m
  balanced {m = m} h = record { run = fitted }
    where
      fitted :
          (s : ParseState T P) (p : Marks T)
          → Fits p (shape s)
          → IfOk (m s) (λ r. Fits p (shape r.1))
      fitted s [] fit = absurd fit
      fitted s (n ∷ ns) fit = (h n ns).run s fit

  pub both :
      {A B : Type 0} {m : Parser T P A} {f : A → Parser T P B}
      → IsBalanced m
      → ((x : A) → IsBalanced (f x))
      → IsBalanced (m >>= f)
  both h k = balanced (λ n ns. step h (λ x. stay (k x)))

  pub either :
      {A : Type 0} (test : Bool) {m n : Parser T P A}
      → IsBalanced m
      → IsBalanced n
      → IsBalanced (if test then m else n)
  either true h k = h
  either false h k = k

  pub pure-IsBalanced : {A : Type 0} (x : A) → IsBalanced {T = T} {P = P} (pure x)
  unfolding pure
  pure-IsBalanced x = record { run = λ s p fit. fit }

  pub parse_error-IsBalanced : {A : Type 0} → IsBalanced {T = T} {P = P} {A = A} parse_error
  unfolding parse_error
  parse_error-IsBalanced = record { run = λ s p fit. tt }

  pub out_of_fuel-IsBalanced : {A : Type 0} → IsBalanced {T = T} {P = P} {A = A} out_of_fuel
  out_of_fuel-IsBalanced = record { run = λ s p fit. tt }

  pub require-IsBalanced : (test : Bool) → IsBalanced {T = T} {P = P} (require test)
  unfolding require parse_error pure
  require-IsBalanced true = pure-IsBalanced tt
  require-IsBalanced false = parse_error-IsBalanced

  pub lift-IsBalanced : {A : Type 0} (m : Run A) → IsBalanced {T = T} {P = P} (lift m)
  unfolding lift
  lift-IsBalanced m = record {
    run = λ s p fit. IfOk->>= _ (λ r. Fits p (shape r.1)) m _ (IfOk-any m) (λ a _. fit);
  }

  pub peaking_value-IsBalanced : IsBalanced {T = T} {P = P} peaking_value
  unfolding peaking_value
  peaking_value-IsBalanced = record { run = λ s p fit. fit }

  pub function_stack_top-IsBalanced : IsBalanced {T = T} {P = P} function_stack_top
  unfolding function_stack_top
  function_stack_top-IsBalanced = record { run = λ s p fit. fit }

  pub set_current_bb-IsBalanced : (bb : ℕ) → IsBalanced {T = T} {P = P} (set_current_bb bb)
  unfolding set_current_bb
  set_current_bb-IsBalanced bb = record { run = λ s p fit. fit }

  pub build_at-IsBalanced :
      {A : Type 0} (bb : ℕ) (f : IrBuilder T → ℕ → Run (A × IrBuilder T))
      → IsBalanced {T = T} {P = P} (build_at bb f)
  unfolding build_at
  build_at-IsBalanced bb f = record {
    run = λ s p fit.
        IfOk->>= _ (λ r. Fits p (shape r.1)) (f s.top.builder bb) _ (IfOk-any (f s.top.builder bb))
          (λ r _. fit);
  }

  pub build-IsBalanced :
      {A : Type 0} (f : IrBuilder T → ℕ → Run (A × IrBuilder T))
      → IsBalanced {T = T} {P = P} (build f)
  unfolding build
  build-IsBalanced f = record {
    run = λ s p fit. (build_at-IsBalanced s.top.current_bb f).run s p fit;
  }

  pub change_at-IsBalanced :
      (bb : ℕ) (f : IrBuilder T → ℕ → Run (IrBuilder T))
      → IsBalanced {T = T} {P = P} (change_at bb f)
  unfolding change_at
  change_at-IsBalanced bb f = build_at-IsBalanced bb _

  pub change-IsBalanced :
      (f : IrBuilder T → ℕ → Run (IrBuilder T)) → IsBalanced {T = T} {P = P} (change f)
  unfolding change
  change-IsBalanced f = record {
    run = λ s p fit. (change_at-IsBalanced s.top.current_bb f).run s p fit;
  }

  pub fueled-IsBalanced :
      {A : Type 0} {loop : ℕ → Parser T P A}
      → ((n : ℕ) → IsBalanced (loop n))
      → IsBalanced (fueled loop)
  unfolding fueled
  fueled-IsBalanced h = record { run = λ s p fit. (h _).run s p fit }

  module _ (env : Services T P) where
    pub peak-IsBalanced : IsBalanced (peak env)
    unfolding peak
    peak-IsBalanced = record {
      run = λ s p fit.
          IfOk->>= _ (λ (r : ℕ × ParseState T P). Fits p (shape r.1)) (lex_peak env.intern s.lex) _
            (IfOk-any _) (λ r _. fit);
    }

    pub next-IsBalanced : IsBalanced (next env)
    unfolding next
    next-IsBalanced = record {
      run = λ s p fit.
          IfOk->>= _ (λ (r : ℕ × ParseState T P). Fits p (shape r.1)) (lex_next env.intern s.lex) _
            (IfOk-any _) (λ r _. fit);
    }

    pub insert_str-IsBalanced : (text : List ℕ) → IsBalanced (insert_str env text)
    unfolding insert_str
    insert_str-IsBalanced text = record {
      run = λ s p fit.
          IfOk->>= _ (λ (r : ℕ × ParseState T P). Fits p (shape r.1))
            (env.intern s.lex.string_pool text) _ (IfOk-any _) (λ r _. fit);
    }

    pub find_str-IsBalanced : (text : List ℕ) → IsBalanced (find_str env text)
    unfolding find_str
    find_str-IsBalanced text = record {
      run = λ s p fit. (lift-IsBalanced (env.find s.lex.string_pool text)).run s p fit;
    }
