-- ===== src/Parse.antt =====
-- The parser of src/parse.c and src/parse_internal.h: its state, and what all its functions use. The tables of symbols
-- are those of any `TableOps`, `Hash/Ops` has those of src/hash.c; strings are known by their addresses, functions by their position in `functions`.
-- A list that is never empty is its first element and the rest: the scopes of a function, and the stack of functions.
pub mod Scopes
pub mod Literals
pub mod Postfix
pub mod Operators
pub mod Statements
pub mod Branches
pub mod Program
pub mod Rules
pub mod Left
pub mod Tokens
pub mod Keeps
pub mod Emits
pub mod Termination
pub mod Lookup
pub mod Captures
pub mod Balance
use cript.Hash.{HashNode}
use cript.InstList.{InstList}
use cript.Ir.{IrBuilder}
use cript.Lex.Peak.{lex_peak, lex_next}
use cript.Lex.{LexState, tok_eof}
use cript.Prelude.Run.{Run, ok, trap}
use cript.Prelude.Run
use cript.Prelude.{ℕ, suc, ◌+◌, Bool, true, false, ◌||◌, ◌==◌, if◌then◌else◌, List, length}
use cript.Table.{TableOps}

pub record ParseScope (T : Type 0) : Type 0 where
  pub symbol_table : T
  pub upper_table : T

pub record FunctionScope (T : Type 0) : Type 0 where
  pub scope : ParseScope T
  pub outer : List (ParseScope T)
  pub arguments_nr : ℕ
  pub capture_list : T
  pub builder : IrBuilder T
  pub current_bb : ℕ

-- a `VMFunction`, with its list of captured registers
pub record ParsedFunction (T : Type 0) : Type 0 where
  pub arguments_nr : ℕ
  pub register_nr : ℕ
  pub capture_list : T
  pub inst_list : InstList

-- `struct ParseState`
pub record ParseState (T P : Type 0) : Type 0 where
  pub lex : LexState P
  pub functions : List (ParsedFunction T)
  pub top : FunctionScope T
  pub below : List (FunctionScope T)

-- What the parser calls: `entries` are the live slots of a table in the order of `hash_for_each`, `intern` is
-- `string_pool_insert_vec` and `find` is `string_pool_find_vec`, with 0 for no string; `destroy` is `ir_builder_destroy`.
pub record Services (T P : Type 0) : Type 0 where
  pub entries : T → List HashNode
  pub intern : P → List ℕ → Run (P × ℕ)
  pub find : P → List ℕ → Run ℕ
  pub destroy : IrBuilder T → Run InstList

abbrev pub Parser : Type 0 → Type 0 → Type 0 → Type 0
Parser T P A = ParseState T P → Run (A × ParseState T P)

-- How many tokens there are at most, one that is read ahead included. Every loop of the parser takes one or more in each
-- round, and every call of it from within an expression or statement has taken one before.
unfoldable pub tokens_left : {P : Type 0} → LexState P → ℕ
tokens_left s =
    if s.peaking_token == 0 || s.peaking_token == tok_eof
    then length s.place.current
    else suc (length s.place.current)

module _ {T P : Type 0} where
  -- a loop, with enough fuel
  unfoldable pub fueled : {A : Type 0} → (ℕ → Parser T P A) → Parser T P A
  fueled loop s = loop (suc (tokens_left s.lex)) s

  unfoldable pub pure : {A : Type 0} → A → Parser T P A
  pure a s = ok (a, s)

  infixl 5 ◌>>=◌ ◌>>◌
  unfoldable pub ◌>>=◌ : {A B : Type 0} → Parser T P A → (A → Parser T P B) → Parser T P B
  m >>= f = λ s. Run.◌>>=◌ (m s) (λ r. f r.0 r.1)

  abbrev pub ◌>>◌ : {A B : Type 0} → Parser T P A → Parser T P B → Parser T P B
  m >> n = m >>= λ _. n

  unfoldable pub lift : {A : Type 0} → Run A → Parser T P A
  lift run s = Run.◌>>=◌ run (λ a. ok (a, s))

  -- `parse_error` and `parse_expect_error`: the program prints and traps
  unfoldable pub parse_error : {A : Type 0} → Parser T P A
  parse_error s = trap

  -- an assertion, or a test that ends in an error
  unfoldable pub require : Bool → Parser T P (Unit {0})
  require true = pure tt
  require false = parse_error

  unfoldable pub peaking_value : Parser T P ℕ
  peaking_value s = ok (s.lex.peaking_value, s)

  unfoldable pub function_stack_top : Parser T P (FunctionScope T)
  function_stack_top s = ok (s.top, s)

  unfoldable pub set_top : FunctionScope T → Parser T P (Unit {0})
  set_top f s = ok (tt, record s { top = f })

  -- a call of the builder on a block, which gives a register or another value
  unfoldable pub build_at :
      {A : Type 0} → ℕ → (IrBuilder T → ℕ → Run (A × IrBuilder T)) → Parser T P A
  build_at bb f s =
      Run.◌>>=◌ (f s.top.builder bb)
        (λ r. ok (r.0, record s { top = record s.top { builder = r.1 } }))

  unfoldable pub build : {A : Type 0} → (IrBuilder T → ℕ → Run (A × IrBuilder T)) → Parser T P A
  build f s = build_at s.top.current_bb f s

  -- a call of the builder that gives nothing
  unfoldable pub change_at : ℕ → (IrBuilder T → ℕ → Run (IrBuilder T)) → Parser T P (Unit {0})
  change_at bb f = build_at bb (λ b bb. Run.◌>>=◌ (f b bb) (λ b'. ok (tt, b')))

  unfoldable pub change : (IrBuilder T → ℕ → Run (IrBuilder T)) → Parser T P (Unit {0})
  change f s = change_at s.top.current_bb f s

  unfoldable pub set_current_bb : ℕ → Parser T P (Unit {0})
  set_current_bb bb s = ok (tt, record s { top = record s.top { current_bb = bb } })

  module _ (env : Services T P) where
    unfoldable pub peak : Parser T P ℕ
    peak s = Run.◌>>=◌ (lex_peak env.intern s.lex) (λ r. ok (r.0, record s { lex = r.1 }))

    unfoldable pub next : Parser T P ℕ
    next s = Run.◌>>=◌ (lex_next env.intern s.lex) (λ r. ok (r.0, record s { lex = r.1 }))

    -- `string_pool_insert_str`
    unfoldable pub insert_str : List ℕ → Parser T P ℕ
    insert_str text s =
        Run.◌>>=◌ (env.intern s.lex.string_pool text)
          (λ r. ok (r.1, record s { lex = record s.lex { string_pool = r.0 } }))

    -- `string_pool_find_str`
    unfoldable pub find_str : List ℕ → Parser T P ℕ
    find_str text s = lift (env.find s.lex.string_pool text) s
