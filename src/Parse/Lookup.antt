-- ===== src/Parse/Lookup.antt =====
-- The laws of the symbol tables of src/parse.c: what a variable means after a definition, an assignment or a capture.
use cript.Hash.{is_live}
use cript.Parse.Scopes.{
  insert_into_scope, define_into_scope, find_in_scope, find_in_scopes, scopes_of, defined_here,
  assign_in,
}
use cript.Parse.{ParseScope, FunctionScope}
use cript.Prelude.{
  ℕ, ◌<◌, ◌%◌, ◌^◌, ◌≡◌, refl, sym, ap, ◌∙◌, subst, Bool, true, false, not, ◌==◌, if◌then◌else◌,
  List, [], ◌∷◌, arith, by_test,
}
use cript.Table.{TableOps, TableLaws}
use cript.Value.Laws.{value_is_undefined-mod, value_is_null-zero}
use cript.Value.{Value, value_is_undefined, value_is_null, value_from_int}

-- a number is a live value
number_mod : (n : ℕ) → value_from_int n % 4 ≡ 1
unfolding value_from_int
number_mod n = omega arith

pub number_defined : (n : ℕ) → value_is_undefined (value_from_int n) ≡ false
number_defined n =
    let e = number_mod n in rw (value_is_undefined-mod (value_from_int n)) (ground (arith, e))

number_small : (n : ℕ) → value_from_int n < 2 ^ 32
unfolding value_from_int
number_small n = omega arith

number_not_null : (n : ℕ) → value_is_null (value_from_int n) ≡ false
number_not_null n =
    let e = number_mod n in
    rw (value_is_null-zero (value_from_int n) (number_small n)) (ground (arith, e))

pub number_live : (n : ℕ) → is_live (value_from_int n) ≡ true
number_live n = rw (number_defined n, number_not_null n) refl

-- the first value unless it is undefined
abbrev pub first : Value → Value → Value
first v w = if not (value_is_undefined v) then v else w

first_updated :
    (b : Bool) (reg : ℕ) (v w : Value)
    → first (if b then value_from_int reg else v) w ≡ (if b then value_from_int reg else first v w)
first_updated true reg v w = rw (number_defined reg) refl
first_updated false reg v w = refl

pub both_updated :
    (b : Bool) (reg : ℕ) (v w : Value)
    → first (if b then value_from_int reg else v) (if b then value_from_int reg else w)
      ≡ (if b then value_from_int reg else first v w)
both_updated true reg v w = rw (number_defined reg) refl
both_updated false reg v w = refl

pub second_updated :
    (b : Bool) (x v w : Value)
    → (b ≡ true → value_is_undefined v ≡ true)
    → first v (if b then x else w) ≡ (if b then x else first v w)
second_updated true x v w h = rw (h refl) refl
second_updated false x v w h = refl

pub second_undefined :
    (v w : Value) → value_is_undefined (first v w) ≡ true → value_is_undefined w ≡ true
second_undefined v w =
    by_test (λ u. value_is_undefined u ≡ true → value_is_undefined w ≡ true)
      (not (value_is_undefined v)) (λ e h. absurd (ground (arith, e, h))) (λ _ h. h)

pub first_undefined :
    (v w : Value) → value_is_undefined (first v w) ≡ true → value_is_undefined v ≡ true
first_undefined v w =
    by_test (λ u. value_is_undefined u ≡ true → value_is_undefined v ≡ true)
      (not (value_is_undefined v)) (λ _ h. h) (λ e _. ground (arith, e))

pub same_string : (string : ℕ) (v w : Value) → (if string == string then v else w) ≡ v
same_string string v w = ground arith

-- The tables of scopes, and of a function with what it captures.
abbrev pub FineScope : {T : Type 0} → (T → Type 0) → ParseScope T → Type 0
FineScope fine scope = fine scope.symbol_table × fine scope.upper_table

abbrev pub FineScopes : {T : Type 0} → (T → Type 0) → List (ParseScope T) → Type 0
FineScopes fine [] = Unit {0}
FineScopes fine (scope ∷ scopes) = FineScope fine scope × FineScopes fine scopes

abbrev pub FineFunction : {T : Type 0} → (T → Type 0) → FunctionScope T → Type 0
FineFunction fine f = fine f.capture_list × FineScopes fine (f.scope ∷ f.outer)

-- the outermost scope, where `_parse_capture_variable` defines what it captures
abbrev pub outermost : {T : Type 0} → ParseScope T → List (ParseScope T) → ParseScope T
outermost scope [] = scope
outermost scope (next ∷ scopes) = outermost next scopes

module _ {T : Type 0} ⦃ops : TableOps T⦄ (fine : T → Type 0) (laws : TableLaws ops fine) where
  pub find_in_scope-define_into_scope :
      (scope : ParseScope T) (string reg q : ℕ)
      → FineScope fine scope
      → find_in_scope (define_into_scope scope string reg) q
        ≡ (if q == string then value_from_int reg else find_in_scope scope q)
  unfolding find_in_scope define_into_scope
  find_in_scope-define_into_scope scope string reg q ok_scope =
      ap (λ v. first v (ops.find scope.upper_table q))
        (laws.find-update scope.symbol_table string (value_from_int reg) q ok_scope.0
          (number_live reg))
      ∙ first_updated (q == string) reg _ _

  pub find_in_scope-insert_into_scope :
      (scope : ParseScope T) (string reg q : ℕ)
      → FineScope fine scope
      → value_is_undefined (ops.find scope.symbol_table string) ≡ true
      → find_in_scope (insert_into_scope scope string reg) q
        ≡ (if q == string then value_from_int reg else find_in_scope scope q)
  unfolding find_in_scope insert_into_scope
  find_in_scope-insert_into_scope scope string reg q ok_scope none_here =
      ap (first (ops.find scope.symbol_table q)) (
        laws.find-update scope.upper_table string (value_from_int reg) q ok_scope.1
          (number_live reg))
      ∙ second_updated (q == string) _ _ _ (λ e.
        let same : q ≡ string = ground (arith, e) in
        subst (λ p. value_is_undefined (ops.find scope.symbol_table p) ≡ true) (sym same) none_here)

  -- the innermost scope is changed
  pub find_in_scopes_updated :
      (scope scope' : ParseScope T) (scopes : List (ParseScope T)) (string reg q : ℕ)
      → find_in_scope scope' q ≡ (if q == string then value_from_int reg else find_in_scope scope q)
      → find_in_scopes (scope' ∷ scopes) q
        ≡ (if q == string then value_from_int reg else find_in_scopes (scope ∷ scopes) q)
  unfolding find_in_scopes
  find_in_scopes_updated scope scope' scopes string reg q e =
      ap (λ v. first v (find_in_scopes scopes q)) e ∙ first_updated (q == string) reg _ _

  assigned_scope :
      (f : FunctionScope T) (string reg q : ℕ)
      → FineScope fine f.scope
      → find_in_scope (assign_in f string reg).scope q
        ≡ (if q == string then value_from_int reg else find_in_scope f.scope q)
  unfolding assign_in defined_here
  assigned_scope f string reg q ok_scope =
      by_test
        (λ (s : ParseScope T).
          find_in_scope s q ≡ (if q == string then value_from_int reg else find_in_scope f.scope q))
        (not (value_is_undefined (ops.find f.scope.symbol_table string)))
        (λ _. find_in_scope-define_into_scope f.scope string reg q ok_scope)
        (λ e. find_in_scope-insert_into_scope f.scope string reg q ok_scope (ground (arith, e)))

  -- the tables after an assignment
  abbrev pub AssignedTables : FunctionScope T → ℕ → ℕ → ℕ → ParseScope T → Type 0
  AssignedTables f string reg q scope =
      (defined_here f string ≡ true
        → (scope.upper_table ≡ f.scope.upper_table)
          × (ops.find scope.symbol_table q
              ≡ (if q == string then value_from_int reg else ops.find f.scope.symbol_table q)))
      × (defined_here f string ≡ false
          → (scope.symbol_table ≡ f.scope.symbol_table)
            × (ops.find scope.upper_table q
                ≡ (if q == string then value_from_int reg else ops.find f.scope.upper_table q)))

  assigned_tables :
      (f : FunctionScope T) (string reg q : ℕ) (here : Bool)
      → FineScope fine f.scope
      → defined_here f string ≡ here
      → AssignedTables f string reg q (
          if here
          then define_into_scope f.scope string reg
          else insert_into_scope f.scope string reg)
  unfolding define_into_scope insert_into_scope
  assigned_tables f string reg q true ok_scope e = (
    (λ _. (refl, laws.find-update f.scope.symbol_table string _ q ok_scope.0 (number_live reg))),
    λ no. absurd (ground (arith, e, no)),
  )
  assigned_tables f string reg q false ok_scope e = (
    (λ yes. absurd (ground (arith, e, yes))),
    λ _. (refl, laws.find-update f.scope.upper_table string _ q ok_scope.1 (number_live reg)),
  )

  -- When the tables of the innermost scope are fine, an assignment to a variable gives it the register and leaves what every other
  -- variable means as it was. A variable that the innermost scope defines is changed among its symbols alone; for any
  -- other the change is recorded in the scope's table of changes of outer variables alone. The other scopes stay as they are.
  pub find_in_scopes-assign_in :
      (f : FunctionScope T) (string reg q : ℕ)
      → FineScope fine f.scope
      → (find_in_scopes (scopes_of (assign_in f string reg)) q
          ≡ (if q == string then value_from_int reg else find_in_scopes (scopes_of f) q))
        × ((assign_in f string reg).outer ≡ f.outer)
        × AssignedTables f string reg q (assign_in f string reg).scope
  unfolding assign_in
  find_in_scopes-assign_in f string reg q ok_scope = (
    find_in_scopes_updated f.scope (assign_in f string reg).scope f.outer string reg q
        (assigned_scope f string reg q ok_scope),
    refl,
    assigned_tables f string reg q (defined_here f string) ok_scope refl,
  )

  -- a string that a scope does not know is not in its first table
  pub unknown_here :
      (scope : ParseScope T) (scopes : List (ParseScope T)) (string : ℕ)
      → value_is_undefined (find_in_scopes (scope ∷ scopes) string) ≡ true
      → value_is_undefined (ops.find scope.symbol_table string) ≡ true
  unfolding find_in_scopes find_in_scope
  unknown_here scope scopes string h = first_undefined _ _ (first_undefined _ _ h)

  known_here :
      (scope : ParseScope T) (scopes : List (ParseScope T)) (string reg : ℕ)
      → find_in_scope scope string ≡ value_from_int reg
      → find_in_scopes (scope ∷ scopes) string ≡ value_from_int reg
  unfolding find_in_scopes
  known_here scope scopes string reg e = rw (e, number_defined reg) refl
