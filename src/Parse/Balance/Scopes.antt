-- ===== src/Parse/Balance/Scopes.antt =====
-- Scopes are opened and closed, functions entered and left, and everything else leaves them where they are.
use cript.Hash.{HashNode}
use cript.Parse.Balance.{
  Grown, FitsScope, FitsScopes, scope_lists, Marks, Fits, shape, Moves, IsBalanced, move, stay,
  step, both, pure-IsBalanced, lift-IsBalanced, require-IsBalanced, insert_str-IsBalanced,
}
use cript.Parse.Scopes.{
  Found, define_last, define_captured, capture_into, capture_step, lookup_stack, assign_in,
  put_stack, symbol_table_lookup, exists_in_symbol_table, find_in_symbol_table, define_symbol,
  assign_symbol, allocate_register, push_scope, unlink_from, unlink_scope, prepend_scope, join_loop,
  push_function, join_scope, pop_scope, parsed_function, pop_function, find_in_scopes, scopes_of,
  function_scope_new, define_into_scope, insert_into_scope, defined_here,
}
use cript.Parse.{
  ParseScope, FunctionScope, ParseState, Services, pure, ◌>>=◌, set_top, lift, function_stack_top,
}
use cript.Prelude.Run.{Run, IfOk, IfOk->>=}
use cript.Prelude.{
  ℕ, ◌==◌, ◌≡◌, refl, ap, subst, Bool, true, false, not, if◌then◌else◌, Option, none, some, List,
  [], ◌∷◌, length, by_test,
}
use cript.Table.{TableOps}
use cript.Value.{Value, value_is_undefined, value_is_int, value_from_int}

module _ {T : Type 0} ⦃ops : TableOps T⦄ where
  grow : {t u : T} (key : ℕ) (value : Value) → Grown t u → Grown t (ops.update u key value)
  grow key value (writes, e) = ((key, value) ∷ writes, ap (λ t. ops.update t key value) e)

  FitsScope-define :
      (m : Option (ParseScope T)) (scope : ParseScope T) (string reg : ℕ)
      → FitsScope m scope
      → FitsScope m (define_into_scope scope string reg)
  unfolding define_into_scope
  FitsScope-define none scope string reg h = tt
  FitsScope-define (some first) scope string reg h = (grow string _ h.0, h.1)

  pub FitsScope-insert :
      (m : Option (ParseScope T)) (scope : ParseScope T) (string reg : ℕ)
      → FitsScope m scope
      → FitsScope m (insert_into_scope scope string reg)
  unfolding insert_into_scope
  FitsScope-insert none scope string reg h = tt
  FitsScope-insert (some first) scope string reg h = (h.0, grow string _ h.1)

  FitsScopes-define_last :
      (ms : List (Option (ParseScope T))) (scopes : List (ParseScope T)) (string reg : ℕ)
      → FitsScopes ms scopes
      → FitsScopes ms (define_last scopes string reg)
  unfolding define_last
  FitsScopes-define_last ms [] string reg h = h
  FitsScopes-define_last [] (scope ∷ scopes) string reg h = absurd h
  FitsScopes-define_last (m ∷ ms) (scope ∷ []) string reg h =
      (FitsScope-define m scope string reg h.0, h.1)
  FitsScopes-define_last (m ∷ ms) (scope ∷ next ∷ scopes) string reg h =
      (h.0, FitsScopes-define_last ms (next ∷ scopes) string reg h.1)

  FitsScopes-captured :
      (ms : List (Option (ParseScope T))) (f : FunctionScope T) (string reg : ℕ)
      (scopes : List (ParseScope T))
      → f.outer ≡ scopes
      → FitsScopes ms (scopes_of f)
      → FitsScopes ms (scopes_of (define_captured f string reg scopes))
  unfolding define_captured
  FitsScopes-captured [] f string reg scopes e h = absurd h
  FitsScopes-captured (m ∷ ms) f string reg [] e h =
      (FitsScope-define m f.scope string reg h.0, h.1)
  FitsScopes-captured (m ∷ ms) f string reg (scope ∷ scopes) e h = (
    FitsScope-insert m f.scope string reg h.0,
    FitsScopes-define_last ms (scope ∷ scopes) string reg (subst (FitsScopes ms) e h.1),
  )

  FitsScopes-capture_into :
      (ms : List (Option (ParseScope T))) (f : FunctionScope T) (string reg : ℕ)
      → FitsScopes ms (scopes_of f)
      → FitsScopes ms (scopes_of (capture_into f string reg).1)
  unfolding capture_into
  FitsScopes-capture_into ms f string reg h = FitsScopes-captured ms _ string _ f.outer refl h

  captured-Fits :
      (captured : Bool) (f : FunctionScope T) (fs : List (FunctionScope T)) (string reg : ℕ)
      (v : Value) (m : List (Option (ParseScope T))) (ms : Marks T)
      → FitsScopes m (scopes_of f)
      → Fits ms (scope_lists fs)
      → Fits (m ∷ ms) (
          let (new_reg, f') = capture_into f string reg in
          let r : Found T =
            if captured
            then (value_from_int new_reg, true, new_reg, f' ∷ fs)
            else (v, false, reg, f ∷ fs) in
          scope_lists r.3)
  captured-Fits true f fs string reg v m ms h k = (FitsScopes-capture_into m f string reg h, k)
  captured-Fits false f fs string reg v m ms h k = (h, k)

  capture_step-Fits :
      (f : FunctionScope T) (string : ℕ) (found : Found T) (m : List (Option (ParseScope T)))
      (ms : Marks T)
      → FitsScopes m (scopes_of f)
      → Fits ms (scope_lists found.3)
      → IfOk (capture_step f string found) (λ r. Fits (m ∷ ms) (scope_lists r.3))
  unfolding capture_step
  capture_step-Fits f string (v, captured, reg, fs) m ms h k =
      let Q = λ (r : Found T). Fits (m ∷ ms) (scope_lists r.3) in
      by_test (λ (m : Run (Found T)). IfOk m Q) (value_is_undefined v) (λ _. (h, k))
        (λ _.
          by_test (λ (m : Run (Found T)). IfOk m Q) (value_is_int v)
            (λ _. captured-Fits captured f fs string reg v m ms h k) (λ _. tt))

  lookup_stack-Fits :
      (p : Marks T) (fs : List (FunctionScope T)) (string : ℕ)
      → Fits p (scope_lists fs)
      → IfOk (lookup_stack fs string) (λ r. Fits p (scope_lists r.3))
  unfolding lookup_stack
  lookup_stack-Fits p [] string h = h
  lookup_stack-Fits [] (f ∷ fs) string h = absurd h
  lookup_stack-Fits (m ∷ ms) (f ∷ fs) string h =
      let Q = λ (r : Found T). Fits (m ∷ ms) (scope_lists r.3) in
      by_test (λ (m : Run (Found T)). IfOk m Q)
        (not (value_is_undefined (find_in_scopes (scopes_of f) string))) (λ _. h)
        (λ _.
          IfOk->>= (λ r. Fits ms (scope_lists r.3)) Q (lookup_stack fs string) _
            (lookup_stack-Fits ms fs string h.1)
            (λ found k. capture_step-Fits f string found m ms h.0 k))

  -- the innermost scope of the topmost function is changed
  pub changed_scope :
      (p : Marks T) (scope scope' : ParseScope T) (outer : List (ParseScope T))
      (lists : List (List (ParseScope T)))
      → ((m : Option (ParseScope T)) → FitsScope m scope → FitsScope m scope')
      → Fits p ((scope ∷ outer) ∷ lists)
      → Fits p ((scope' ∷ outer) ∷ lists)
  changed_scope [] scope scope' outer lists k h = absurd h
  changed_scope ([] ∷ ms) scope scope' outer lists k h = absurd h.0
  changed_scope ((x ∷ xs) ∷ ms) scope scope' outer lists k h = ((k x h.0.0, h.0.1), h.1)

  FitsScope-assign :
      (test : Bool) (m : Option (ParseScope T)) (scope : ParseScope T) (string reg : ℕ)
      → FitsScope m scope
      → FitsScope m
          (if test then define_into_scope scope string reg else insert_into_scope scope string reg)
  FitsScope-assign true m scope string reg h = FitsScope-define m scope string reg h
  FitsScope-assign false m scope string reg h = FitsScope-insert m scope string reg h

module _ {T P : Type 0} ⦃ops : TableOps T⦄ where
  put_stack-Moves :
      (fs : List (FunctionScope T)) (p q : Marks T)
      → Fits q (scope_lists fs)
      → Moves {T = T} {P = P} p q (put_stack fs)
  unfolding put_stack
  put_stack-Moves [] p q h = record { run = λ s e. tt }
  put_stack-Moves (f ∷ fs) p q h = record { run = λ s e. h }

  lookup-IsBalanced : (string : ℕ) → IsBalanced {T = T} {P = P} (symbol_table_lookup string)
  unfolding symbol_table_lookup
  lookup-IsBalanced string = record {
    run = λ s p fit.
        IfOk->>= (λ r. Fits p (scope_lists r.3)) (λ r. Fits p (shape r.1))
          (lookup_stack (s.top ∷ s.below) string) _
          (lookup_stack-Fits p (s.top ∷ s.below) string fit)
          (λ r e. (move (put_stack-Moves r.3 p p e) (λ _. stay (pure-IsBalanced r.0))).run s fit);
  }

  pub exists-IsBalanced : (string : ℕ) → IsBalanced {T = T} {P = P} (exists_in_symbol_table string)
  unfolding exists_in_symbol_table
  exists-IsBalanced string = both (lookup-IsBalanced string) (λ v. pure-IsBalanced _)

  pub find-IsBalanced : (string : ℕ) → IsBalanced {T = T} {P = P} (find_in_symbol_table string)
  unfolding find_in_symbol_table
  find-IsBalanced string = both (lookup-IsBalanced string) (λ v. lift-IsBalanced _)

  pub define_symbol-IsBalanced :
      (string reg : ℕ) → IsBalanced {T = T} {P = P} (define_symbol string reg)
  unfolding define_symbol function_stack_top set_top ◌>>=◌
  define_symbol-IsBalanced string reg = record {
    run = λ s p fit.
        changed_scope p s.top.scope _ s.top.outer _
          (λ m h. FitsScope-define m s.top.scope string reg h) fit;
  }

  pub assign_symbol-IsBalanced :
      (string reg : ℕ) → IsBalanced {T = T} {P = P} (assign_symbol string reg)
  unfolding assign_symbol function_stack_top set_top ◌>>=◌ assign_in
  assign_symbol-IsBalanced string reg = record {
    run = λ s p fit.
        changed_scope p s.top.scope _ s.top.outer _
          (λ m h. FitsScope-assign (defined_here s.top string) m s.top.scope string reg h) fit;
  }

  pub allocate_register-IsBalanced : IsBalanced {T = T} {P = P} allocate_register
  unfolding allocate_register
  allocate_register-IsBalanced = record { run = λ s p fit. fit }

  pub push_scope-Moves :
      (n : List (Option (ParseScope T))) (ns : Marks T)
      → Moves {T = T} {P = P} (n ∷ ns) ((none ∷ n) ∷ ns) push_scope
  unfolding push_scope function_stack_top set_top ◌>>=◌
  push_scope-Moves n ns = record { run = λ s e. ((tt, e.0), e.1) }

  pub prepend_scope-Moves :
      (scope : ParseScope T) (n : List (Option (ParseScope T))) (ns : Marks T)
      → Moves {T = T} {P = P} (n ∷ ns) ((none ∷ n) ∷ ns) (prepend_scope scope)
  unfolding prepend_scope function_stack_top set_top ◌>>=◌
  prepend_scope-Moves scope n ns = record { run = λ s e. ((tt, e.0), e.1) }

  unlink_from-Moves :
      (s : ParseState T P) (n : List (Option (ParseScope T))) (ns : Marks T)
      (scopes : List (ParseScope T))
      → s.top.outer ≡ scopes
      → Fits ((none ∷ n) ∷ ns) (shape s)
      → IfOk (unlink_from s.top scopes s) (λ r. Fits (n ∷ ns) (shape r.1))
  unfolding unlink_from set_top lift pure ◌>>=◌
  unlink_from-Moves s n ns [] e h = tt
  unlink_from-Moves s n ns (scope ∷ scopes) e h = (subst (FitsScopes n) e h.0.1, h.1)

  pub unlink_scope-Moves :
      (n : List (Option (ParseScope T))) (ns : Marks T)
      → Moves {T = T} {P = P} ((none ∷ n) ∷ ns) (n ∷ ns) unlink_scope
  unfolding unlink_scope function_stack_top ◌>>=◌
  unlink_scope-Moves n ns = record { run = λ s e. unlink_from-Moves s n ns s.top.outer refl e }

  join_loop-IsBalanced : (nodes : List HashNode) → IsBalanced {T = T} {P = P} (join_loop nodes)
  unfolding join_loop
  join_loop-IsBalanced [] = pure-IsBalanced tt
  join_loop-IsBalanced (node ∷ nodes) =
      both (lift-IsBalanced _)
        (λ reg. both (assign_symbol-IsBalanced node.key reg) (λ _. join_loop-IsBalanced nodes))

  module _ (env : Services T P) where
    pub join_scope-Moves :
        (n : List (Option (ParseScope T))) (ns : Marks T)
        → Moves ((none ∷ n) ∷ ns) (n ∷ ns) (join_scope env)
    unfolding join_scope
    join_scope-Moves n ns = move (unlink_scope-Moves n ns) (λ scope. stay (join_loop-IsBalanced _))

    pub pop_scope-Moves :
        (n : List (Option (ParseScope T))) (ns : Marks T)
        → Moves ((none ∷ n) ∷ ns) (n ∷ ns) (pop_scope env)
    unfolding pop_scope
    pop_scope-Moves n ns = move (unlink_scope-Moves n ns) (λ scope. stay (pure-IsBalanced tt))

    pub push_function-Moves : (p : Marks T) → Moves p ((none ∷ []) ∷ p) (push_function env)
    unfolding push_function function_scope_new
    push_function-Moves p = record {
      run = λ s e.
          (stay {p = (none ∷ []) ∷ p}
              (both (insert_str-IsBalanced env _) (λ this. define_symbol-IsBalanced this 1))).run
            (record s { top = function_scope_new; below = s.top ∷ s.below }) ((tt, tt), e);
    }

    pub pop_function-Moves : (p : Marks T) → Moves ((none ∷ []) ∷ p) p (pop_function env)
    unfolding pop_function
    pop_function-Moves p = record {
      run = λ s e.
          (step (lift-IsBalanced (parsed_function env s.top)) (λ function.
              step (require-IsBalanced (length s.top.outer == 0)) (λ _.
                move (put_stack-Moves s.below ((none ∷ []) ∷ p) p e.1)
                  (λ _. stay (record { run = λ s' p' h. h }))))).run
            s e;
    }
