-- ===== src/Parse/Captures.antt =====
-- What src/parse.c does to capture a variable of an outer function.
use cript.Parse.Lookup.{
  FineFunction, FineScope, FineScopes, both_updated, find_in_scope-define_into_scope,
  find_in_scope-insert_into_scope, find_in_scopes_updated, first, first_undefined, number_defined,
  number_live, outermost, same_string, second_undefined, second_updated, unknown_here,
}
use cript.Parse.Scopes.{
  insert_into_scope, define_into_scope, find_in_scope, find_in_scopes, scopes_of, define_last,
  define_captured, capture_into, capture_step, lookup_stack,
}
use cript.Parse.{ParseScope, FunctionScope}
use cript.Prelude.Run.{ok}
use cript.Prelude.{
  ℕ, ◌≡◌, refl, sym, ap, ◌∙◌, subst, true, false, not, ◌==◌, if◌then◌else◌, List, [], ◌∷◌, arith,
}
use cript.Ir.{ir_builder_allocate_register}
use cript.Table.{TableOps, TableLaws}
use cript.Word.Signed.{is_negative}
use cript.Value.{Value, value_is_undefined, value_from_int, value_to_int, value_is_int}

module _ {T : Type 0} ⦃ops : TableOps T⦄ (fine : T → Type 0) (laws : TableLaws ops fine) where
  -- what is not known in the scopes is known after its definition in the outermost one
  find_in_scopes-define_last :
      (scope : ParseScope T) (scopes : List (ParseScope T)) (string reg q : ℕ)
      → FineScopes fine (scope ∷ scopes)
      → value_is_undefined (find_in_scopes (scope ∷ scopes) string) ≡ true
      → find_in_scopes (define_last (scope ∷ scopes) string reg) q
        ≡ (if q == string then value_from_int reg else find_in_scopes (scope ∷ scopes) q)
  unfolding find_in_scopes define_last
  find_in_scopes-define_last scope [] string reg q all_fine h =
      find_in_scopes_updated fine laws scope (define_into_scope scope string reg) [] string reg q
        (find_in_scope-define_into_scope fine laws scope string reg q all_fine.0)
  find_in_scopes-define_last scope (next ∷ scopes) string reg q all_fine h =
      let below = second_undefined _ _ h in
      ap (first (find_in_scope scope q))
        (find_in_scopes-define_last next scopes string reg q all_fine.1 below)
      ∙ second_updated (q == string) _ _ _ (λ e.
        let same : q ≡ string = ground (arith, e) in
        subst (λ p. value_is_undefined (find_in_scope scope p) ≡ true) (sym same)
          (first_undefined _ _ h))

  defined_symbol :
      (scope : ParseScope T) (string reg : ℕ)
      → FineScope fine scope
      → ops.find (define_into_scope scope string reg).symbol_table string ≡ value_from_int reg
  unfolding define_into_scope
  defined_symbol scope string reg all_fine =
      laws.find-update scope.symbol_table string _ string all_fine.0 (number_live reg)
      ∙ same_string string _ _

  -- the innermost scope and those around it are changed
  find_in_scopes_both :
      (scope scope' : ParseScope T) (scopes scopes' : List (ParseScope T)) (string reg q : ℕ)
      → find_in_scope scope' q ≡ (if q == string then value_from_int reg else find_in_scope scope q)
      → find_in_scopes scopes' q
        ≡ (if q == string then value_from_int reg else find_in_scopes scopes q)
      → find_in_scopes (scope' ∷ scopes') q
        ≡ (if q == string then value_from_int reg else find_in_scopes (scope ∷ scopes) q)
  unfolding find_in_scopes
  find_in_scopes_both scope scope' scopes scopes' string reg q e e' =
      ap (λ v. first v (find_in_scopes scopes' q)) e
      ∙ ap (first (if q == string then value_from_int reg else find_in_scope scope q)) e'
      ∙ both_updated (q == string) reg _ _

  outermost-define_last :
      (scope : ParseScope T) (scopes : List (ParseScope T)) (inner : ParseScope T) (string reg : ℕ)
      → FineScopes fine (scope ∷ scopes)
      → ops.find (outermost inner (define_last (scope ∷ scopes) string reg)).symbol_table string
        ≡ value_from_int reg
  unfolding define_last
  outermost-define_last scope [] inner string reg all_fine =
      defined_symbol scope string reg all_fine.0
  outermost-define_last scope (next ∷ scopes) inner string reg all_fine =
      outermost-define_last next scopes scope string reg all_fine.1

  -- The function `f'` is `f` with the register `reg` of the function around captured in the register `new` for the
  -- variable `string`: the builder has given the register, the list of what is captured has it under `reg`, and the variable
  -- means it, in the outermost scope too; nothing else is captured, and no other variable has changed.
  pub record Captured (f : FunctionScope T) (string reg new : ℕ) (f' : FunctionScope T)
      : Type 0 where
    pub allocated : ir_builder_allocate_register f.builder ≡ (new, f'.builder)
    pub recorded :
        (q : ℕ)
        → ops.find f'.capture_list q
          ≡ (if q == reg then value_from_int new else ops.find f.capture_list q)
    pub reads :
        (q : ℕ)
        → find_in_scopes (scopes_of f') q
          ≡ (if q == string then value_from_int new else find_in_scopes (scopes_of f) q)
    pub defined : ops.find (outermost f'.scope f'.outer).symbol_table string ≡ value_from_int new
    pub same_arguments : f'.arguments_nr ≡ f.arguments_nr
    pub same_block : f'.current_bb ≡ f.current_bb

  define_captured-scopes :
      (f : FunctionScope T) (string reg : ℕ) (scopes : List (ParseScope T))
      → f.outer ≡ scopes
      → FineScopes fine (f.scope ∷ scopes)
      → value_is_undefined (find_in_scopes (f.scope ∷ scopes) string) ≡ true
      → let f' = define_captured f string reg scopes in
        ((q : ℕ)
          → find_in_scopes (scopes_of f') q
            ≡ (if q == string then value_from_int reg else find_in_scopes (f.scope ∷ scopes) q))
        × (ops.find (outermost f'.scope f'.outer).symbol_table string ≡ value_from_int reg)
        × (f'.builder ≡ f.builder)
        × (f'.capture_list ≡ f.capture_list)
        × (f'.arguments_nr ≡ f.arguments_nr)
        × (f'.current_bb ≡ f.current_bb)
  unfolding define_captured find_in_scopes
  define_captured-scopes f string reg [] e all_fine h = rw e (
    (λ q.
        find_in_scopes_updated fine laws f.scope (define_into_scope f.scope string reg) [] string
          reg q (find_in_scope-define_into_scope fine laws f.scope string reg q all_fine.0)),
    defined_symbol f.scope string reg all_fine.0,
    refl,
    refl,
    refl,
    refl,
  )
  define_captured-scopes f string reg (scope ∷ scopes) e all_fine h = (
    (λ q.
        find_in_scopes_both f.scope (insert_into_scope f.scope string reg) (scope ∷ scopes)
          (define_last (scope ∷ scopes) string reg) string reg q
          (find_in_scope-insert_into_scope fine laws f.scope string reg q all_fine.0
            (unknown_here fine laws f.scope (scope ∷ scopes) string h))
          (find_in_scopes-define_last scope scopes string reg q all_fine.1
            (second_undefined _ _ h))),
    outermost-define_last scope scopes _ string reg all_fine.1,
    refl,
    refl,
    refl,
    refl,
  )

  capture_into-Captured :
      (f : FunctionScope T) (string reg : ℕ)
      → FineFunction fine f
      → value_is_undefined (find_in_scopes (scopes_of f) string) ≡ true
      → Captured f string reg (capture_into f string reg).0 (capture_into f string reg).1
  unfolding capture_into
  capture_into-Captured f string reg all_fine h =
      let (new, builder) = ir_builder_allocate_register f.builder in
      let list = ops.update f.capture_list reg (value_from_int new) in
      let f' = record f { builder = builder; capture_list = list } in
      let (reads, defined, same_builder, same_list, same_arguments, same_block) =
        define_captured-scopes f' string new f.outer refl all_fine.1 h in
      record {
        allocated = ap (λ b. (new, b)) (sym same_builder);
        recorded = λ q.
            ap (λ t. ops.find t q) same_list
            ∙ laws.find-update f.capture_list reg (value_from_int new) q all_fine.0
                (number_live new);
        reads = reads;
        defined = defined;
        same_arguments = same_arguments;
        same_block = same_block;
      }

  -- Looking up a variable that the topmost function does not know, but those around it have in a register that is to be
  -- captured, returns a new register. The topmost function, when its tables are fine, has captured the register of the others in it,
  -- and has changed in nothing else; the others are as the lookup in them has left them. A second lookup gives the same
  -- register and changes nothing: the variable is captured once.
  pub lookup_stack-Captured :
      (f : FunctionScope T) (fs fs' : List (FunctionScope T)) (string reg : ℕ) (v : Value)
      → FineFunction fine f
      → value_is_undefined (find_in_scopes (scopes_of f) string) ≡ true
      → lookup_stack fs string ≡ ok (v, true, reg, fs')
      → value_is_undefined v ≡ false
      → value_is_int v ≡ true
      → (new : ℕ) × (f' : FunctionScope T) × (lookup_stack (f ∷ fs) string
          ≡ ok (value_from_int new, true, new, f' ∷ fs'))
        × Captured f string reg new f'
        × (lookup_stack (f' ∷ fs') string
            ≡ ok (
              value_from_int new,
              not (is_negative (value_to_int (value_from_int new))),
              value_to_int (value_from_int new),
              f' ∷ fs',
            ))
  unfolding lookup_stack capture_step
  lookup_stack-Captured f fs fs' string reg v all_fine none_here around known number =
      let c = capture_into-Captured f string reg all_fine none_here in
      let new = (capture_into f string reg).0 in
      let there = c.reads string ∙ same_string string _ _ in
      (
        new,
        (capture_into f string reg).1,
        rw (none_here, around, known, number) refl,
        c,
        rw (there, number_defined new) refl,
      )
