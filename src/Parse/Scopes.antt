-- ===== src/Parse/Scopes.antt =====
-- The scopes of src/parse.c and src/parse_internal.h: symbols, variables of an outer scope, captured variables.
use cript.Hash.{HashNode}
use cript.Ir.{ir_builder_new, ir_builder_entry, ir_builder_allocate_register}
use cript.Parse.{
  ParseScope, FunctionScope, ParsedFunction, Services, Parser, pure, ◌>>=◌, ◌>>◌, lift, require,
  function_stack_top, set_top, insert_str,
}
use cript.Prelude.Run.{Run, ok, trap, wild, assert}
use cript.Prelude.Run
use cript.Prelude.{ℕ, Bool, true, false, not, ◌==◌, if◌then◌else◌, List, [], ◌∷◌, ◌++◌, length}
use cript.Table.{TableOps}
use cript.Value.{
  Value, value_is_int, value_to_int, value_from_int, value_is_undefined, value_undefined,
}
use cript.Vm.Registers.{int_of}
use cript.Word.Signed.{is_negative}
use cript.Word.{add}

-- "global" and "this"
abbrev pub text_global : List ℕ
text_global = b'g' ∷ b'l' ∷ b'o' ∷ b'b' ∷ b'a' ∷ b'l' ∷ []

abbrev pub text_this : List ℕ
text_this = b't' ∷ b'h' ∷ b'i' ∷ b's' ∷ []

-- What a function gets from those around it: the value, whether it is to be captured, the register, and the functions
-- as they are then.
abbrev pub Found : Type 0 → Type 0
Found T = Value × Bool × ℕ × List (FunctionScope T)

module _ {T : Type 0} ⦃ops : TableOps T⦄ where
  -- `_parse_insert_into_scope` and `_parse_define_into_scope`
  unfoldable pub insert_into_scope : ParseScope T → ℕ → ℕ → ParseScope T
  insert_into_scope scope string reg = record scope {
    upper_table = ops.update scope.upper_table string (value_from_int reg);
  }

  unfoldable pub define_into_scope : ParseScope T → ℕ → ℕ → ParseScope T
  define_into_scope scope string reg = record scope {
    symbol_table = ops.update scope.symbol_table string (value_from_int reg);
  }

  abbrev pub empty_scope : ParseScope T
  empty_scope = record { symbol_table = ops.empty; upper_table = ops.empty }

  -- `_parse_function_scope_new`
  unfoldable pub function_scope_new : FunctionScope T
  function_scope_new = record {
    scope = empty_scope;
    outer = [];
    arguments_nr = 0;
    capture_list = ops.update ops.empty 0 (value_from_int 0);
    builder = ir_builder_new 0;
    current_bb = ir_builder_entry {T = T} (ir_builder_new 0);
  }

  -- what a scope knows of a string, in either table
  unfoldable pub find_in_scope : ParseScope T → ℕ → Value
  find_in_scope scope string =
      let result = ops.find scope.symbol_table string in
      if not (value_is_undefined result) then result else ops.find scope.upper_table string

  -- the inner loop of `_parse_symbol_table_lookup`
  unfoldable pub find_in_scopes : List (ParseScope T) → ℕ → Value
  find_in_scopes [] string = value_undefined
  find_in_scopes (scope ∷ scopes) string =
      let rest = find_in_scopes scopes string in
      let result = find_in_scope scope string in
      if not (value_is_undefined result) then result else rest

  abbrev pub scopes_of : FunctionScope T → List (ParseScope T)
  scopes_of f = f.scope ∷ f.outer

  unfoldable pub define_last : List (ParseScope T) → ℕ → ℕ → List (ParseScope T)
  define_last [] string reg = []
  define_last (scope ∷ []) string reg = define_into_scope scope string reg ∷ []
  define_last (scope ∷ next ∷ scopes) string reg = scope ∷ define_last (next ∷ scopes) string reg

  -- The new register is that of the string in the outermost scope, and in the innermost one if that is another.
  unfoldable pub define_captured : FunctionScope T → ℕ → ℕ → List (ParseScope T) → FunctionScope T
  define_captured f string reg [] = record f { scope = define_into_scope f.scope string reg }
  define_captured f string reg (scope ∷ scopes) = record f {
    scope = insert_into_scope f.scope string reg;
    outer = define_last (scope ∷ scopes) string reg;
  }

  -- One round of the loop of `_parse_capture_variable`: the register `reg` of the function around is captured.
  unfoldable pub capture_into : FunctionScope T → ℕ → ℕ → ℕ × FunctionScope T
  capture_into f string reg =
      let (new_reg, builder) = ir_builder_allocate_register f.builder in
      let f' = record f {
        builder = builder;
        capture_list = ops.update f.capture_list reg (value_from_int new_reg);
      } in
      (new_reg, define_captured f' string new_reg f'.outer)

  unfoldable pub capture_step : FunctionScope T → ℕ → Found T → Run (Found T)
  capture_step f string (v, captured, reg, fs) =
      let (new_reg, f') = capture_into f string reg in
      if value_is_undefined v
      then ok (v, captured, reg, f ∷ fs)
      else (if value_is_int v
          then ok (
              if captured
              then (value_from_int new_reg, true, new_reg, f' ∷ fs)
              else (v, false, reg, f ∷ fs))
          else trap)

  -- A reserved word, with a negative register, is not captured.
  -- `_parse_symbol_table_lookup`, with `_parse_capture_variable` on the way back to the topmost function
  unfoldable pub lookup_stack : List (FunctionScope T) → ℕ → Run (Found T)
  lookup_stack [] string = ok (value_undefined, false, 0, [])
  lookup_stack (f ∷ fs) string =
      let around = Run.◌>>=◌ (lookup_stack fs string) (capture_step f string) in
      let v = find_in_scopes (scopes_of f) string in
      if not (value_is_undefined v)
      then ok (v, not (is_negative (value_to_int v)), value_to_int v, f ∷ fs)
      else around

  -- Is the topmost scope the one that `_parse_find_define_scope` finds?
  unfoldable pub defined_here : FunctionScope T → ℕ → Bool
  defined_here f string = not (value_is_undefined (ops.find f.scope.symbol_table string))

  -- the choice of `_parse_join_scope` and of an assignment
  unfoldable pub assign_in : FunctionScope T → ℕ → ℕ → FunctionScope T
  assign_in f string reg = record f {
    scope =
        if defined_here f string
        then define_into_scope f.scope string reg
        else insert_into_scope f.scope string reg;
  }

module _ {T P : Type 0} ⦃ops : TableOps T⦄ where
  -- the stack of functions, which is never empty
  unfoldable pub put_stack : List (FunctionScope T) → Parser T P (Unit {0})
  put_stack [] s = wild
  put_stack (f ∷ fs) s = ok (tt, record s { top = f; below = fs })

  unfoldable pub symbol_table_lookup : ℕ → Parser T P Value
  symbol_table_lookup string s =
      Run.◌>>=◌ (lookup_stack (s.top ∷ s.below) string) (λ r. (put_stack r.3 >>= λ _. pure r.0) s)

  -- `_parse_exists_in_symbol_table` and `_parse_find_in_symbol_table`
  unfoldable pub exists_in_symbol_table : ℕ → Parser T P Bool
  exists_in_symbol_table string = do
    v ← symbol_table_lookup string
    pure (not (value_is_undefined v))

  unfoldable pub find_in_symbol_table : ℕ → Parser T P ℕ
  find_in_symbol_table string = do v ← symbol_table_lookup string; lift (int_of v)

  unfoldable pub define_symbol : ℕ → ℕ → Parser T P (Unit {0})
  define_symbol string reg = do
    f ← function_stack_top
    set_top (record f { scope = define_into_scope f.scope string reg })

  unfoldable pub assign_symbol : ℕ → ℕ → Parser T P (Unit {0})
  assign_symbol string reg = do f ← function_stack_top; set_top (assign_in f string reg)

  unfoldable pub allocate_register : Parser T P ℕ
  allocate_register s =
      let (reg, builder) = ir_builder_allocate_register s.top.builder in
      ok (reg, record s { top = record s.top { builder = builder } })

  unfoldable pub push_scope : Parser T P (Unit {0})
  push_scope = do
    f ← function_stack_top
    set_top (record f { scope = empty_scope; outer = f.scope ∷ f.outer })

  -- `list_unlink` of the topmost scope; a function without a scope is not read
  unfoldable pub unlink_from : FunctionScope T → List (ParseScope T) → Parser T P (ParseScope T)
  unlink_from f [] = lift wild
  unlink_from f (scope ∷ scopes) = do
    set_top (record f { scope = scope; outer = scopes })
    pure f.scope

  unfoldable pub unlink_scope : Parser T P (ParseScope T)
  unlink_scope = do f ← function_stack_top; unlink_from f f.outer

  -- `list_prepend` of a scope that was unlinked
  unfoldable pub prepend_scope : ParseScope T → Parser T P (Unit {0})
  prepend_scope scope = do
    f ← function_stack_top
    set_top (record f { scope = scope; outer = f.scope ∷ f.outer })

  -- the loop of `_parse_join_scope`
  unfoldable pub join_loop : List HashNode → Parser T P (Unit {0})
  join_loop [] = pure tt
  join_loop (node ∷ nodes) = do
    reg ← lift (int_of node.value)
    assign_symbol node.key reg
    join_loop nodes

  unfoldable pub push_function : Services T P → Parser T P (Unit {0})
  push_function env s =
      (do this ← insert_str env text_this; define_symbol this 1)
        (record s { top = function_scope_new; below = s.top ∷ s.below })

  module _ (env : Services T P) where
    unfoldable pub join_scope : Parser T P (Unit {0})
    join_scope = do scope ← unlink_scope; join_loop (env.entries scope.upper_table)

    unfoldable pub pop_scope : Parser T P (Unit {0})
    pop_scope = do scope ← unlink_scope; pure tt

    -- the function of a finished scope
    unfoldable pub parsed_function : FunctionScope T → Run (ParsedFunction T)
    parsed_function f = Run.◌>>=◌ (env.destroy f.builder) (λ inst_list. ok (record {
      arguments_nr = f.arguments_nr;
      register_nr = add f.builder.register_nr 1;
      capture_list = f.capture_list;
      inst_list = inst_list;
    }))

    -- `_parse_pop_function`: the position of the function
    unfoldable pub pop_function : Parser T P ℕ
    pop_function s =
        (do
          function ← lift (parsed_function s.top)
          require (length s.top.outer == 0)
          put_stack s.below
          append_function function)
          s
      where
        append_function : ParsedFunction T → Parser T P ℕ
        append_function function s' =
            ok (length s'.functions, record s' { functions = s'.functions ++ function ∷ [] })
