-- ===== src/Tests/Scripts.antt =====
-- Scripts that src/parse.c parses, src/ir_builder.c builds and src/cvm.c runs.
use cript.Hash.Ops.{
  hash_tables, table_find, table_update, table_set, table_new, live_nodes, IsFine,
  hash_tables-TableLaws, table_new-IsRoomy, table_update-IsFine, returned,
}
use cript.Hash.{
  Hash, is_live, hash_new, hash_set_and_update, hash_expand, hash_shrink, hash_rehash, rehash_loop,
  expand_size, hash_shrink_size, hash_need_shrink, hash_need_expand, next_index, ctz_loop,
  is_power_of_two, hash_init, find_loop, hash_find, set_loop, write_at, hash_set,
}
use cript.Inst.{Inst, i_li, i_mul, new_d_type, new_i_type}
use cript.InstList.{
  inst_list_new, inst_list_append, inst_list_resize, resize_cells, resize_capacity, store_next,
}
use cript.Ir.Emit.{
  ir_builder_seq, ir_builder_sle, ir_builder_lnot, load_int, ir_builder_mov, ir_builder_mov_upper,
  copy_number, ir_builder_li, fold_or_emit, emit, ir_builder_add, ir_builder_ret, ir_builder_slt,
  ir_builder_mul, ir_builder_get_obj, ir_builder_undefined, ir_builder_new_cls, ir_builder_new_obj,
  ir_builder_lstr, ir_builder_new_arr, ir_builder_set_obj, ir_builder_call,
}
use cript.Ir.Link.{
  target_imm, fill_chain, set_entry_point, push_waiting, bnr_else, jump_to, append_all, place_block,
  branch_else, link_block, link_loop, ir_builder_destroy,
}
use cript.Ir.Tables.{
  set_table, find_table, fill_path, search_up, find_in_table, find_in_constant_table,
  find_in_numeric_table,
}
use cript.Ir.Folding.{folded_mul, ir_builder_of-by_type}
use cript.Ir.{
  IrBuilder, basic_block, basic_block_new, ir_builder_new, ir_builder_new_basic_block, modify,
  ir_builder_allocate_register, assert_not_end, push_inst, ir_builder_br, ir_builder_j,
}
use cript.Prelude.Run.{Run, ok, trap, Ends, IfOk}
use cript.Prelude.Run
use cript.Prelude.{
  ◌<◌, ◌^◌, arith, ℕ, Bool, false, not, ◌++◌, ◌+◌, ◌*◌, ◌≡◌, refl, true, ◌==◌, if◌then◌else◌,
  Option, none, some, List, [], ◌∷◌, length,
}
use cript.Value.{
  Value, value_from_string, value_is_string, value_to_string, value_is_int, value_to_int,
  value_from_int, value_is_ptr, value_to_ptr, value_from_ptr, value_is_undefined, value_is_null,
  value_undefined,
}
use cript.Vm.Calls.{
  initial_regs, new_frame, push_frame, argument_loop, captured_loop, function_of,
  setup_function_frame, enter, call_host, call_closure, call_by_type, exec_call, capture_loop,
  new_closure, exec_new_cls, by_heap, with_frames, vm_inst, vm_at, vm_step, after_vm_step, vm_run,
}
use cript.Vm.Heap.{
  load, bits_loop, hash_normalize_capacity, hash_total_size, young_gen_allocate, young_gen_new,
  write_new, init_at, young_gen_new_hash, follow_loop, follow,
}
use cript.Vm.Objects.{
  try_alloc, allocate_new_hash, get_hash_in_register, redirect, expand_in_register,
  set_hash_in_register, key_of, exec_set_obj, exec_get_obj, exec_new,
}
use cript.Vm.Start.{with_halt, vm_function, vm_functions, cvm_state_new_from_parse_state}
use cript.Vm.Frames.{
  is_false, exec_bnr, exec_j, exec_ret, on_registers, exec_inst, exec_at, step, after_step,
  cvm_state_run,
}
use cript.Vm.Registers.{
  Regs, exec_lstr, exec_lnot, exec_seq, exec_sle, exec_sub, set_register, int_of, arith_inst,
  exec_li, exec_add, by_type, register_inst, exec_mul, exec_slt, exec_undefined, exec_mov,
}
use cript.Parse.{
  ParsedFunction, ParseState, FunctionScope, Services, tokens_left, fueled, pure, ◌>>=◌, lift,
  parse_error, require, peaking_value, function_stack_top, set_top, build_at, build, change_at,
  change, set_current_bb, peak, next, insert_str, find_str,
}
use cript.Parse.Scopes.{
  scopes_of, insert_into_scope, define_into_scope, function_scope_new, find_in_scope,
  find_in_scopes, define_last, define_captured, capture_into, capture_step, lookup_stack,
  defined_here, assign_in, put_stack, symbol_table_lookup, exists_in_symbol_table,
  find_in_symbol_table, define_symbol, assign_symbol, allocate_register, push_scope, unlink_from,
  unlink_scope, prepend_scope, join_loop, push_function, join_scope, pop_scope, parsed_function,
  pop_function,
}
use cript.Parse.Literals.{
  add_argument, global_reg, reserved_word, named_key, parameter_loop, object_loop, object_literal,
  array_element, array_loop, array_elements, array_literal, arguments_loop, arguments,
}
use cript.Parse.Postfix.{
  body_loop, define_this, parameters, function_body, function_literal, parenthesised, number_token,
  string_token, variable, id_token, unary_switch, unary_expr, point_access, bracket_access,
  call_access, access, postfix_loop, postfix_rest, postfix_expr,
}
use cript.Parse.Operators.{
  new_basic_block, new_block_here, mul_step, add_step, compare_step, logic_branch, binary_loop,
  binary_expr, logic_loop, logic_rest, logic_expr, prefix_not, prefix_minus, prefix_loop,
  prefix_expr, mul_expr, add_expr, compare_expr, logic_and_expr, logic_or_expr, right_hand_expr,
}
use cript.Parse.Statements.{
  used_registers, own_register, store_result, target_name, bracket_key, target_call, target_field,
  target_key, target_access, target_loop, assign_value, assignment_expr, semicolon, let_value,
  declaration, let_loop, reserved_ahead, let_stmt, expr_stmt, return_value, return_stmt, halt_stmt,
  block_loop, block_stmt,
}
use cript.Parse.Branches.{
  current_block, then_loop, else_only, both_changed, else_loop, then_only, no_else_loop,
  body_loop_moves, end_loop_moves, condition, then_branch, else_branch, without_else, else_ahead,
  if_else_stmt, while_body, while_stmt,
}
use cript.Parse.Program.{
  word_switch, word_statement, statement_switch, statement, level, parse_right_hand_expr,
  parse_statement, inject, inject_reserved, program_loop, parse, parse_get_main_function,
  parse_state_new,
}
use cript.Lex.Peak.{
  found, plain, lex_parse_number, lex_parse_block_comment, lex_parse_line_comment, double_token,
  one_char, lex_operator, lex_slash, intern_token, lex_parse_identifier, lex_parse_string, dispatch,
  lex_round, peak_loop, lex_peak, lex_next,
}
use cript.Parse.Balance.Program.{parse_statement_balanced, parse_balanced}
use cript.Parse.Balance.{IsKept, FitsScope}
use cript.Parse.Captures.{Captured, lookup_stack-Captured}
use cript.Parse.Lookup.{FineFunction, AssignedTables, find_in_scopes-assign_in}
use cript.Word.Signed.{is_negative}
use cript.Lex.{
  at_place, number_loop, identifier_loop, block_comment_loop, line_comment_loop, string_loop,
  skip_space, buffer_push,
}

scripting : Unit {0}
unfolding table_find table_update table_set table_new live_nodes hash_new hash_set_and_update
    hash_expand hash_shrink hash_rehash rehash_loop expand_size hash_shrink_size hash_need_expand
    hash_need_shrink next_index ctz_loop is_power_of_two hash_init find_loop hash_find set_loop
    write_at hash_set ir_builder_seq ir_builder_sle ir_builder_lnot exec_lnot exec_seq exec_sle
    exec_sub new_d_type new_i_type inst_list_new inst_list_append inst_list_resize resize_cells
    resize_capacity store_next load_int ir_builder_mov ir_builder_mov_upper copy_number exec_mov
    ir_builder_li fold_or_emit emit ir_builder_add ir_builder_ret ir_builder_slt ir_builder_mul
    ir_builder_get_obj target_imm fill_chain set_entry_point push_waiting bnr_else jump_to
    append_all place_block branch_else link_block link_loop ir_builder_destroy set_table find_table
    fill_path search_up find_in_table find_in_constant_table find_in_numeric_table basic_block
    basic_block_new ir_builder_new ir_builder_new_basic_block modify ir_builder_allocate_register
    assert_not_end push_inst ir_builder_br ir_builder_j value_is_int value_to_int value_from_int
    value_is_ptr value_to_ptr value_from_ptr value_is_undefined value_is_null is_false exec_bnr
    exec_j exec_ret on_registers exec_inst exec_at step after_step cvm_state_run set_register int_of
    arith_inst exec_li exec_add by_type register_inst exec_mul exec_slt exec_undefined tokens_left
    fueled pure ◌>>=◌ lift parse_error require peaking_value function_stack_top set_top build_at
    build change_at change set_current_bb peak next insert_str find_str insert_into_scope
    define_into_scope function_scope_new find_in_scope find_in_scopes define_last define_captured
    capture_into capture_step lookup_stack defined_here assign_in put_stack symbol_table_lookup
    exists_in_symbol_table find_in_symbol_table define_symbol assign_symbol allocate_register
    push_scope unlink_from unlink_scope prepend_scope join_loop push_function join_scope pop_scope
    parsed_function pop_function add_argument global_reg reserved_word named_key parameter_loop
    object_loop object_literal array_element array_loop array_elements array_literal arguments_loop
    arguments body_loop define_this parameters function_body function_literal parenthesised
    number_token string_token variable id_token unary_switch unary_expr point_access bracket_access
    call_access access postfix_loop postfix_rest postfix_expr new_basic_block new_block_here
    mul_step add_step compare_step logic_branch binary_loop binary_expr logic_loop logic_rest
    logic_expr prefix_not prefix_minus prefix_loop prefix_expr mul_expr add_expr compare_expr
    logic_and_expr logic_or_expr right_hand_expr used_registers own_register store_result
    target_name bracket_key target_call target_field target_key target_access target_loop
    assign_value assignment_expr semicolon let_value declaration let_loop reserved_ahead let_stmt
    expr_stmt return_value return_stmt halt_stmt block_loop block_stmt current_block then_loop
    else_only both_changed else_loop then_only no_else_loop body_loop_moves end_loop_moves condition
    then_branch else_branch without_else else_ahead if_else_stmt while_body while_stmt word_switch
    word_statement statement_switch statement level parse_right_hand_expr parse_statement inject
    inject_reserved program_loop parse parse_get_main_function parse_state_new found plain
    lex_parse_number lex_parse_block_comment lex_parse_line_comment double_token one_char
    lex_operator lex_slash intern_token lex_parse_identifier lex_parse_string dispatch lex_round
    peak_loop lex_peak lex_next number_loop identifier_loop block_comment_loop line_comment_loop
    string_loop skip_space buffer_push
scripting = tt

abbrev same_text : List ℕ → List ℕ → Bool
same_text [] [] = true
same_text (a ∷ left) (b ∷ right) = let rest = same_text left right in if a == b then rest else false
same_text left right = false

-- the address of a string in a pool that is a list, or 0
abbrev find_text : ℕ → List (List ℕ) → List ℕ → ℕ
find_text address [] v = 0
find_text address (text ∷ texts) v =
    let rest = find_text (address + 4) texts v in if same_text text v then address else rest

abbrev intern_text : List (List ℕ) → List ℕ → Run (List (List ℕ) × ℕ)
intern_text pool v =
    let found = find_text 4 pool v in
    ok (if found == 0 then (pool ++ v ∷ [], 4 * (length pool + 1)) else (pool, found))

abbrev services : Services Hash (List (List ℕ))
services = record {
  entries = λ t. live_nodes t.content;
  intern = intern_text;
  find = λ pool v. ok (find_text 4 pool v);
  destroy = ir_builder_destroy;
}

-- the main function of a script
abbrev compile : List ℕ → Run (ParsedFunction Hash)
unfolding scripting
compile text = Run.◌>>=◌ (parse_state_new services [] text) (λ s.
    Run.◌>>=◌ (parse services s.1)
      (λ r. Run.◌>>=◌ (parse_get_main_function services r.1) (λ f. ok f.0)))

abbrev run_script : List ℕ → Option (Run Value)
unfolding scripting
run_script text =
    let go = λ (f : ParsedFunction Hash). cvm_state_run 60 (
      record {
        inst_list = f.inst_list;
        pc = 0;
        regs = λ r. if r == 0 then value_from_int 0 else value_undefined;
      }
      ∷ []) in
    let runs : Run (ParsedFunction Hash) → Option (Run Value) =
      λ r. elim r [ ok f ↦ go f | _ ↦ none ] in
    runs (compile text)

-- let a=3; return a+4;
abbrev sum_script : List ℕ
sum_script =
    108 ∷ 101 ∷ 116 ∷ 32 ∷ 97 ∷ 61 ∷ 51 ∷ 59 ∷ 32 ∷ 114 ∷ 101 ∷ 116 ∷ 117 ∷ 114 ∷ 110 ∷ 32 ∷ 97 ∷ 43
    ∷ 52 ∷ 59 ∷ []

sum_script-value : run_script sum_script ≡ some (ok (7 * 4 + 1))
unfolding scripting
sum_script-value = refl

-- let i=0; let s=0; while(i<4){s=s+i; i=i+1;} return s;
abbrev loop_script : List ℕ
loop_script =
    108 ∷ 101 ∷ 116 ∷ 32 ∷ 105 ∷ 61 ∷ 48 ∷ 59 ∷ 32 ∷ 108 ∷ 101 ∷ 116 ∷ 32 ∷ 115 ∷ 61 ∷ 48 ∷ 59 ∷ 32
    ∷ 119 ∷ 104 ∷ 105 ∷ 108 ∷ 101 ∷ 40 ∷ 105 ∷ 60 ∷ 52 ∷ 41 ∷ 123 ∷ 115 ∷ 61 ∷ 115 ∷ 43 ∷ 105 ∷ 59
    ∷ 32 ∷ 105 ∷ 61 ∷ 105 ∷ 43 ∷ 49 ∷ 59 ∷ 125 ∷ 32 ∷ 114 ∷ 101 ∷ 116 ∷ 117 ∷ 114 ∷ 110 ∷ 32 ∷ 115
    ∷ 59 ∷ []

loop_script-value : run_script loop_script ≡ some (ok (6 * 4 + 1))
unfolding scripting
loop_script-value = refl

-- let a=1; if(a>2){a=5;}else{a=6;} return a*2;
abbrev branch_script : List ℕ
branch_script =
    108 ∷ 101 ∷ 116 ∷ 32 ∷ 97 ∷ 61 ∷ 49 ∷ 59 ∷ 32 ∷ 105 ∷ 102 ∷ 40 ∷ 97 ∷ 62 ∷ 50 ∷ 41 ∷ 123 ∷ 97
    ∷ 61 ∷ 53 ∷ 59 ∷ 125 ∷ 101 ∷ 108 ∷ 115 ∷ 101 ∷ 123 ∷ 97 ∷ 61 ∷ 54 ∷ 59 ∷ 125 ∷ 32 ∷ 114 ∷ 101
    ∷ 116 ∷ 117 ∷ 114 ∷ 110 ∷ 32 ∷ 97 ∷ 42 ∷ 50 ∷ 59 ∷ []

branch_script-value : run_script branch_script ≡ some (ok (12 * 4 + 1))
unfolding scripting
branch_script-value = refl

-- let a=1; let b=(a==2)||!(a>=1)&&a; if(b) return 1; return 9;
abbrev logic_script : List ℕ
logic_script =
    108 ∷ 101 ∷ 116 ∷ 32 ∷ 97 ∷ 61 ∷ 49 ∷ 59 ∷ 32 ∷ 108 ∷ 101 ∷ 116 ∷ 32 ∷ 98 ∷ 61 ∷ 40 ∷ 97 ∷ 61
    ∷ 61 ∷ 50 ∷ 41 ∷ 124 ∷ 124 ∷ 33 ∷ 40 ∷ 97 ∷ 62 ∷ 61 ∷ 49 ∷ 41 ∷ 38 ∷ 38 ∷ 97 ∷ 59 ∷ 32 ∷ 105
    ∷ 102 ∷ 40 ∷ 98 ∷ 41 ∷ 32 ∷ 114 ∷ 101 ∷ 116 ∷ 117 ∷ 114 ∷ 110 ∷ 32 ∷ 49 ∷ 59 ∷ 32 ∷ 114 ∷ 101
    ∷ 116 ∷ 117 ∷ 114 ∷ 110 ∷ 32 ∷ 57 ∷ 59 ∷ []

logic_script-value : run_script logic_script ≡ some (ok (9 * 4 + 1))
unfolding scripting
logic_script-value = refl

running : Unit {0}
unfolding ir_builder_new_obj ir_builder_lstr value_from_string exec_lstr value_is_string
    value_to_string ir_builder_undefined ir_builder_new_cls ir_builder_new_arr ir_builder_set_obj
    ir_builder_call hash_normalize_capacity hash_total_size initial_regs new_frame push_frame
    argument_loop captured_loop function_of setup_function_frame enter call_host call_closure
    call_by_type exec_call capture_loop new_closure exec_new_cls by_heap with_frames vm_inst vm_at
    vm_step after_vm_step vm_run load bits_loop young_gen_allocate young_gen_new write_new init_at
    young_gen_new_hash follow_loop follow try_alloc allocate_new_hash get_hash_in_register redirect
    expand_in_register set_hash_in_register key_of exec_set_obj exec_get_obj exec_new with_halt
    vm_function vm_functions cvm_state_new_from_parse_state
running = tt

-- a script with functions and objects on the whole machine, without a collector and a host
abbrev run_all : List ℕ → Run Value
unfolding scripting running
run_all text = Run.◌>>=◌ (parse_state_new services [] text) (λ s.
    Run.◌>>=◌ (parse services s.1) (λ r.
      Run.◌>>=◌ (cvm_state_new_from_parse_state (λ table. table) services 34603008 r.1) (λ vm.
        Run.◌>>=◌ (vm_run 60 (λ state. trap) (λ address state args. trap) vm) (λ out. ok out.1))))

-- let k=2; let f=function(x){return x+k;}; return f(5);
abbrev call_script : List ℕ
call_script =
    108 ∷ 101 ∷ 116 ∷ 32 ∷ 107 ∷ 61 ∷ 50 ∷ 59 ∷ 32 ∷ 108 ∷ 101 ∷ 116 ∷ 32 ∷ 102 ∷ 61 ∷ 102 ∷ 117
    ∷ 110 ∷ 99 ∷ 116 ∷ 105 ∷ 111 ∷ 110 ∷ 40 ∷ 120 ∷ 41 ∷ 123 ∷ 114 ∷ 101 ∷ 116 ∷ 117 ∷ 114 ∷ 110
    ∷ 32 ∷ 120 ∷ 43 ∷ 107 ∷ 59 ∷ 125 ∷ 59 ∷ 32 ∷ 114 ∷ 101 ∷ 116 ∷ 117 ∷ 114 ∷ 110 ∷ 32 ∷ 102 ∷ 40
    ∷ 53 ∷ 41 ∷ 59 ∷ []

call_script-value : run_all call_script ≡ ok (7 * 4 + 1)
unfolding scripting running
call_script-value = refl

-- let o={n:3}; o.n=o.n+4; return o.n;
abbrev object_script : List ℕ
object_script =
    108 ∷ 101 ∷ 116 ∷ 32 ∷ 111 ∷ 61 ∷ 123 ∷ 110 ∷ 58 ∷ 51 ∷ 125 ∷ 59 ∷ 32 ∷ 111 ∷ 46 ∷ 110 ∷ 61
    ∷ 111 ∷ 46 ∷ 110 ∷ 43 ∷ 52 ∷ 59 ∷ 32 ∷ 114 ∷ 101 ∷ 116 ∷ 117 ∷ 114 ∷ 110 ∷ 32 ∷ 111 ∷ 46 ∷ 110
    ∷ 59 ∷ []

object_script-value : run_all object_script ≡ ok (7 * 4 + 1)
unfolding scripting running
object_script-value = refl

abbrev fresh : FunctionScope Hash
unfolding scripting
fresh = function_scope_new

-- a state before a text, in a function within `outer_function`
abbrev before : List ℕ → ParseState Hash (List (List ℕ))
before text = record {
  lex = record {
    place = at_place 0 0 text;
    string_pool = [];
    peaking_token = 0;
    peaking_value = 0;
  };
  functions = [];
  top = fresh;
  below = record fresh { scope = define_into_scope fresh.scope 8 3 } ∷ [];
}

zero_live : is_live (value_from_int 0) ≡ true
unfolding scripting
zero_live = refl

three : (value_is_undefined (value_from_int 3) ≡ false) × (value_is_int (value_from_int 3) ≡ true)
unfolding scripting
three = (refl, refl)

fresh-FineFunction : FineFunction IsFine fresh
unfolding function_scope_new fresh table_update
fresh-FineFunction =
    let new : IsFine table_new = (4, omega arith, omega arith, table_new-IsRoomy) in
    (
      table_update-IsFine 4 table_new 0 (value_from_int 0) (omega arith) (omega arith)
          table_new-IsRoomy zero_live,
      ((new, new), tt),
    )

find_in_scopes-assign_in_example :
    (find_in_scopes (scopes_of (assign_in fresh 12 5)) 12
      ≡ (if 12 == 12 then value_from_int 5 else find_in_scopes (scopes_of fresh) 12))
    × ((assign_in fresh 12 5).outer ≡ fresh.outer)
    × AssignedTables IsFine hash_tables-TableLaws fresh 12 5 12 (assign_in fresh 12 5).scope
find_in_scopes-assign_in_example =
    find_in_scopes-assign_in IsFine hash_tables-TableLaws fresh 12 5 12 fresh-FineFunction.1.0

-- the function around, which knows the variable 8 in register 3
abbrev around : List (FunctionScope Hash)
around = (before []).below

unknown : value_is_undefined (find_in_scopes (scopes_of fresh) 8) ≡ true
unfolding scripting
unknown = refl

known : lookup_stack around 8 ≡ ok (value_from_int 3, true, 3, around)
unfolding scripting
known = refl

lookup_stack-Captured_example :
    (new : ℕ) × (f' : FunctionScope Hash) × (lookup_stack (fresh ∷ around) 8
      ≡ ok (value_from_int new, true, new, f' ∷ around))
    × Captured IsFine hash_tables-TableLaws fresh 8 3 new f'
    × (lookup_stack (f' ∷ around) 8
        ≡ ok (
          value_from_int new,
          not (is_negative (value_to_int (value_from_int new))),
          value_to_int (value_from_int new),
          f' ∷ around,
        ))
lookup_stack-Captured_example =
    lookup_stack-Captured IsFine hash_tables-TableLaws fresh around around 8 3 (value_from_int 3)
      fresh-FineFunction unknown known (three).0 (three).1

parse_statement_balanced_example :
    IfOk (parse_statement services (before loop_script)) (λ r. IsKept (before loop_script) r.1)
    × IfOk
        (parse_right_hand_expr services (before loop_script))
        (λ r. IsKept (before loop_script) r.1)
parse_statement_balanced_example = parse_statement_balanced services (before loop_script)

parse_balanced_example : IfOk (parse_state_new services [] branch_script) (λ s.
    IfOk
      (parse services s.1)
      (λ r. (r.1.below ≡ []) × (r.1.top.outer ≡ []) × FitsScope (some s.1.top.scope) r.1.top.scope))
parse_balanced_example = parse_balanced services [] branch_script

-- a block in which register 1 is loaded with 5 and register 2 with 6
abbrev five_and_six : Run (ℕ × IrBuilder Hash)
unfolding scripting
five_and_six = Run.◌>>=◌ (ir_builder_li (ir_builder_new 0) 0 5) (λ r. ir_builder_li r.1 0 6)

abbrev loaded : IrBuilder Hash
loaded = (returned (0, ir_builder_new 0) five_and_six).1

abbrev loaded_regs : Regs
loaded_regs r = if r == 1 then value_from_int 5 else value_from_int 6

looked_up :
    (find_in_numeric_table loaded 0 1 ≡ (loaded_regs 1, (find_in_numeric_table loaded 0 1).1))
    × (find_in_numeric_table (find_in_numeric_table loaded 0 1).1 0 2
        ≡ (loaded_regs 2, (find_in_numeric_table (find_in_numeric_table loaded 0 1).1 0 2).1))
    × (assert_not_end loaded 0 ≡ ok tt)
    × (value_is_int (loaded_regs 1) ≡ true)
    × (value_is_int (loaded_regs 2) ≡ true)
    × (loaded_regs 1 < 2 ^ 32)
    × (loaded_regs 2 < 2 ^ 32)
unfolding scripting
looked_up = (refl, refl, refl, refl, refl, omega arith, omega arith)

-- register 3 gets the product of the registers 1 and 2
abbrev product : Inst
product = record { type = i_mul; i_rd = 3; info = 2 * 2 ^ 16 + 1 }

ir_builder_of-by_type_example :
    (result : Run ℕ) × (ir_builder_mul loaded 0 1 2
      ≡ Run.◌>>=◌ result
          (ir_builder_li (find_in_numeric_table (find_in_numeric_table loaded 0 1).1 0 2).1 0))
    × (by_type i_mul product loaded_regs
        ≡ some (Run.◌>>=◌ result (λ n. exec_li (new_i_type i_li 3 n) loaded_regs)))
ir_builder_of-by_type_example =
    let (left, right, free, l, r, hl, hr) = looked_up in
    ir_builder_of-by_type folded_mul loaded (find_in_numeric_table loaded 0 1).1
      (find_in_numeric_table (find_in_numeric_table loaded 0 1).1 0 2).1 0 product loaded_regs
      (omega arith) hl hr l r free left right
