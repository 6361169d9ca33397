-- ===== src/Tests/Programs.antt =====
-- Programs that src/ir_builder.c builds and src/cvm.c runs.
use cript.Inst.{Inst, i_bnr, i_j, new_d_type, new_i_type}
use cript.InstList.{
  InstList, inst_list_new, inst_list_append, inst_list_resize, resize_cells, resize_capacity,
  store_next,
}
use cript.Ir.Chains.{IsBackward}
use cript.Ir.Emit.{
  load_int, ir_builder_mov, ir_builder_mov_upper, copy_number, ir_builder_li, fold_or_emit, emit,
  ir_builder_add, ir_builder_ret, ir_builder_slt, ir_builder_mul, ir_builder_get_obj,
}
use cript.Ir.Landing.{filled, step-target_imm}
use cript.Ir.Link.{
  target_imm, fill_chain, set_entry_point, push_waiting, bnr_else, jump_to, append_all, place_block,
  branch_else, link_block, link_loop, ir_builder_destroy,
}
use cript.Ir.Tables.{
  set_table, find_table, fill_path, search_up, find_in_table, find_in_constant_table,
  find_in_numeric_table,
}
use cript.Ir.{
  IrBuilder, basic_block, basic_block_new, ir_builder_new, ir_builder_new_basic_block, modify,
  ir_builder_allocate_register, assert_not_end, push_inst, ir_builder_br, ir_builder_j,
}
use cript.Prelude.Run.{Run, ok, ◌>>=◌}
use cript.Prelude.{
  ℕ, zero, suc, ◌+◌, ◌*◌, ◌≡◌, refl, true, ◌==◌, if◌then◌else◌, Option, none, some, List, [], ◌∷◌,
  arith, inl, inr,
}
use cript.Table.{TableOps}
use cript.Value.{
  Value, value_is_int, value_to_int, value_from_int, value_is_ptr, value_to_ptr, value_from_ptr,
  value_is_undefined, value_is_null, value_undefined,
}
use cript.Vm.Frames.{
  Frame, running, is_false, exec_bnr, exec_j, exec_ret, on_registers, exec_inst, exec_at, step,
  after_step, cvm_state_run,
}
use cript.Vm.Registers.{
  set_register, int_of, arith_inst, exec_li, exec_add, by_type, register_inst, exec_mul, exec_slt,
  exec_undefined, exec_mov,
}

-- a table as a function
instance abbrev functions : TableOps (ℕ → Value)
functions = record {
  empty = λ q. value_undefined;
  find = λ t q. t q;
  update = λ t q v p. if p == q then v else t p;
  set = λ t q v p. if p == q then v else t p;
}

building : Unit {0}
unfolding new_d_type new_i_type inst_list_new inst_list_append inst_list_resize resize_cells
    resize_capacity store_next load_int ir_builder_mov ir_builder_mov_upper copy_number exec_mov
    ir_builder_li fold_or_emit emit ir_builder_add ir_builder_ret ir_builder_slt ir_builder_mul
    ir_builder_get_obj target_imm fill_chain set_entry_point push_waiting bnr_else jump_to
    append_all place_block branch_else link_block link_loop ir_builder_destroy set_table find_table
    fill_path search_up find_in_table find_in_constant_table find_in_numeric_table basic_block
    basic_block_new ir_builder_new ir_builder_new_basic_block modify ir_builder_allocate_register
    assert_not_end push_inst ir_builder_br ir_builder_j value_is_int value_to_int value_from_int
    value_is_ptr value_to_ptr value_from_ptr value_is_undefined value_is_null is_false exec_bnr
    exec_j exec_ret on_registers exec_inst exec_at step after_step cvm_state_run set_register int_of
    arith_inst exec_li exec_add by_type register_inst exec_mul exec_slt exec_undefined
building = tt

-- if (register 2) return 5 + 6; else return 7;
abbrev choice : Run InstList
choice = do
  let b₀ : IrBuilder (ℕ → Value) = ir_builder_new 2
  let (seven_bb, b₁) = ir_builder_new_basic_block b₀ (some 0)
  let (sum_bb, b₂) = ir_builder_new_basic_block b₁ (some 0)
  b₃ ← ir_builder_br b₂ 0 2 (some sum_bb) (some seven_bb)
  (seven, b₄) ← ir_builder_li b₃ seven_bb 7
  b₅ ← ir_builder_ret b₄ seven_bb seven
  (five, b₆) ← ir_builder_li b₅ sum_bb 5
  (six, b₇) ← ir_builder_li b₆ sum_bb 6
  (sum, b₈) ← ir_builder_add b₇ sum_bb five six
  b₉ ← ir_builder_ret b₈ sum_bb sum
  ir_builder_destroy b₉

abbrev run_with : Run InstList → Value → Option (Run Value)
run_with program v =
    let go = λ (code : InstList). cvm_state_run 20 (
      record { inst_list = code; pc = 0; regs = λ r. if r == 2 then v else value_undefined }
      ∷ []) in
    let runs : Run InstList → Option (Run Value) = λ r. elim r [ ok code ↦ go code | _ ↦ none ] in
    runs program

choice_true : run_with choice 5 ≡ some (ok (11 * 4 + 1))
unfolding building
choice_true = refl

choice_false : run_with choice 1 ≡ some (ok (7 * 4 + 1))
unfolding building
choice_false = refl

-- two jumps that wait for a block, the second of which points to the first
abbrev waiting : List Inst
waiting =
    record { type = i_j; i_rd = 0; info = 0xffff_fffc }
    ∷ record { type = i_j; i_rd = 0; info = 0 }
    ∷ []

waiting-IsBackward : IsBackward 2 waiting
waiting-IsBackward zero lt = inr (omega arith)
waiting-IsBackward (suc zero) lt = inl (omega arith)
waiting-IsBackward (suc (suc i)) lt = absurd (omega arith)

-- a branch on register 5
abbrev branch : Inst
branch = record { type = i_bnr; i_rd = 5; info = 0 }

-- all registers are undefined, and the branch is to go to 7
abbrev branching : Frame
branching = record {
  inst_list = record { capacity = 1; count = 1; insts = filled branch 0 7 ∷ [] };
  pc = 0;
  regs = λ r. value_undefined;
}

undefined-is_false : is_false value_undefined ≡ true
unfolding building
undefined-is_false = refl

step-target_imm_example :
    step (branching ∷ []) ≡ some (ok (running (record branching { pc = 7 } ∷ [])))
step-target_imm_example =
    step-target_imm branch 7 branching [] (omega arith) (omega arith) refl
      (inr (refl, undefined-is_false))

-- x = 5; x = register 2; return x + x;
abbrev overwritten : Run InstList
overwritten = do
  (five, b₁) ← ir_builder_li (ir_builder_new {T = ℕ → Value} 2) 0 5
  (x, b₂) ← ir_builder_mov b₁ 0 five
  b₃ ← ir_builder_mov_upper b₂ 0 x 2
  (sum, b₄) ← ir_builder_add b₃ 0 x x
  b₅ ← ir_builder_ret b₄ 0 sum
  ir_builder_destroy b₅

-- The sum is folded with the old number: 10 is returned where 7 is in the register.
overwritten_returns : run_with overwritten 29 ≡ some (ok (10 * 4 + 1))
unfolding building
overwritten_returns = refl
