-- ===== src/Parse/Literals.antt =====
-- The literals of src/parse.c, unary and postfix expressions, and arguments. `expr` stands for
-- `_parse_right_hand_expr`, `statement` for `_parse_statement`: all of these call one another.
use cript.Ir.Emit.{
  ir_builder_li, ir_builder_lstr, ir_builder_add, ir_builder_mov, ir_builder_new_obj,
  ir_builder_new_arr, ir_builder_set_obj,
}
use cript.Lex.{tok_eof, tok_id, tok_string}
use cript.Parse.Scopes.{text_global, find_in_symbol_table, define_symbol, allocate_register}
use cript.Parse.{
  Services, Parser, pure, ◌>>=◌, ◌>>◌, parse_error, require, peaking_value, function_stack_top,
  set_top, build, change, fueled, peak, next, find_str,
}
use cript.Prelude.Run.{forever}
use cript.Prelude.{ℕ, zero, suc, ◌+◌, ◌-◌, Bool, not, ◌||◌, ◌==◌, if◌then◌else◌}
use cript.Table.{TableOps}
use cript.Word.{word_mod}

-- `enum ReservedWord`, as the negative numbers that the symbol table has for them
abbrev pub r_let : ℕ
r_let = word_mod - 1

abbrev pub r_if : ℕ
r_if = word_mod - 2

abbrev pub r_else : ℕ
r_else = word_mod - 3

abbrev pub r_while : ℕ
r_while = word_mod - 4

abbrev pub r_function : ℕ
r_function = word_mod - 5

abbrev pub r_return : ℕ
r_return = word_mod - 6

abbrev pub r_halt : ℕ
r_halt = word_mod - 7

-- the loop ran out of fuel
abbrev pub out_of_fuel : {T P A : Type 0} → Parser T P A
out_of_fuel s = forever

-- the tokens that go on in a postfix expression: a point, a bracket or a parenthesis
abbrev pub is_access : ℕ → Bool
is_access tok = tok == b'.' || tok == b'[' || tok == b'('

module _ {T P : Type 0} ⦃ops : TableOps T⦄ where
  abbrev pub set_obj : ℕ → ℕ → ℕ → Parser T P (Unit {0})
  set_obj r_obj r_val r_key = change λ b bb. ir_builder_set_obj b bb r_obj r_val r_key

  -- one more argument of the topmost function, with the name given
  unfoldable pub add_argument : ℕ → Parser T P (Unit {0})
  add_argument literal = do
    reg ← allocate_register
    define_symbol literal reg
    f ← function_stack_top
    set_top (record f { arguments_nr = f.arguments_nr + 1 })

  module _ (env : Services T P) where
    -- the register of the global object
    unfoldable pub global_reg : Parser T P ℕ
    global_reg = do string ← find_str env text_global; find_in_symbol_table string

    -- a reserved word, which the source asserts
    unfoldable pub reserved_word : ℕ → Parser T P (Unit {0})
    reserved_word word = do
      tok ← next env
      require (tok == tok_id)
      literal ← peaking_value
      reg ← find_in_symbol_table literal
      require (reg == word)

    -- a point and a name: the register of the key
    unfoldable pub named_key : Parser T P ℕ
    named_key = do
      point ← next env
      tok ← next env
      require (tok == tok_id)
      string ← peaking_value
      build (λ b bb. ir_builder_lstr b bb string)

    -- the loop over the parameters of a function literal
    unfoldable pub parameter_loop : ℕ → ℕ → Parser T P (Unit {0})
    parameter_loop zero tok = out_of_fuel
    parameter_loop (suc n) tok =
        let more = (do comma ← next env; tok' ← peak env; parameter_loop n tok') in
        let parameter = (do
          require (tok == tok_id)
          name ← next env
          literal ← peaking_value
          add_argument literal
          tok' ← peak env
          (if tok' == b')' then pure tt else (if tok' == b',' then more else parse_error))) in
        if tok == tok_eof || tok == b')' then pure tt else parameter

    module _ (expr : Parser T P ℕ) where
      -- one field of an object literal, and those after it
      unfoldable pub object_loop : ℕ → ℕ → Parser T P (Unit {0})
      object_loop zero ret = out_of_fuel
      object_loop (suc n) ret =
          let more = next env >>= (λ comma. object_loop n ret) in
          do
            tok ← next env
            require (tok == tok_id || tok == tok_string)
            string ← peaking_value
            colon ← next env
            require (colon == b':')
            value_reg ← expr
            key_reg ← build (λ b bb. ir_builder_lstr b bb string)
            set_obj ret value_reg key_reg
            tok' ← peak env
            (if tok' == b',' then more else (if tok' == b'}' then pure tt else parse_error))

      unfoldable pub object_literal : Parser T P ℕ
      object_literal = do
        tok ← next env
        require (tok == b'{')
        ret ← build (λ b bb. ir_builder_new_obj b bb)
        tok' ← peak env
        require (not (tok' == tok_eof))
        (if tok' == b'}' then pure tt else fueled (λ n. object_loop n ret))
        close ← next env
        pure ret

      -- an element with its key written before it, if the token is a colon
      unfoldable pub array_element : ℕ → ℕ → ℕ → Parser T P (ℕ × ℕ × ℕ)
      array_element tok key_reg value_reg =
          let with_key = (do
            colon ← next env
            key_reg' ← build (λ b bb. ir_builder_mov b bb value_reg)
            value_reg' ← expr
            tok' ← peak env
            pure (key_reg', value_reg', tok')) in
          if tok == b':' then with_key else pure (key_reg, value_reg, tok)

      unfoldable pub array_loop : ℕ → ℕ → ℕ → ℕ → Parser T P (Unit {0})
      array_loop zero ret one_reg key_reg = out_of_fuel
      array_loop (suc n) ret one_reg key_reg = do
        value_reg ← expr
        tok ← peak env
        e ← array_element tok key_reg value_reg
        set_obj ret e.1 e.0
        key_reg' ← build (λ b bb. ir_builder_add b bb e.0 one_reg)
        (let more = next env >>= (λ comma. array_loop n ret one_reg key_reg') in
            if e.2 == b']' then pure tt else (if e.2 == b',' then more else parse_error))

      unfoldable pub array_elements : ℕ → Parser T P (Unit {0})
      array_elements ret = do
        one_reg ← build (λ b bb. ir_builder_li b bb 1)
        key_reg ← build (λ b bb. ir_builder_li b bb 0)
        fueled (λ n. array_loop n ret one_reg key_reg)

      unfoldable pub array_literal : Parser T P ℕ
      array_literal = do
        tok ← next env
        require (tok == b'[')
        ret ← build (λ b bb. ir_builder_new_arr b bb)
        tok' ← peak env
        require (not (tok' == tok_eof))
        (if tok' == b']' then pure tt else array_elements ret)
        close ← next env
        pure ret

      -- After a comma the loop goes on whatever comes.
      unfoldable pub arguments_loop : ℕ → ℕ → ℕ → ℕ → ℕ → Parser T P (Unit {0})
      arguments_loop zero tok arg_reg one_reg key_reg = out_of_fuel
      arguments_loop (suc n) tok arg_reg one_reg key_reg =
          let argument = (do
            result_reg ← expr
            key_reg' ← build (λ b bb. ir_builder_add b bb key_reg one_reg)
            set_obj arg_reg result_reg key_reg'
            tok' ← peak env
            (let more = next env >>= (λ comma. arguments_loop n tok' arg_reg one_reg key_reg') in
                if tok' == b')' then pure tt else (if tok' == b',' then more else parse_error))) in
          if tok == tok_eof || tok == b')' then pure tt else argument

      unfoldable pub arguments : ℕ → Parser T P ℕ
      arguments this_reg = do
        tok ← next env
        require (tok == b'(')
        arg_reg ← build (λ b bb. ir_builder_new_arr b bb)
        one_reg ← build (λ b bb. ir_builder_li b bb 1)
        key_reg ← build (λ b bb. ir_builder_li b bb 0)
        set_obj arg_reg this_reg key_reg
        tok' ← peak env
        fueled (λ n. arguments_loop n tok' arg_reg one_reg key_reg)
        close ← next env
        pure arg_reg
