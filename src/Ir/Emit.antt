-- ===== src/Ir/Emit.antt =====
-- The functions of the builder that emit one instruction. Each returns the register of the result.
use cript.Inst.{
  InstType, new_d_type, new_i_type, i_halt, i_li, i_add, i_sub, i_mul, i_div, i_mod, i_seq, i_slt,
  i_sle, i_lnot, i_mov, i_lstr, i_new_obj, i_new_arr, i_set_obj, i_get_obj, i_call, i_ret,
  i_new_cls, i_undefined, i_null,
}
use cript.Ir.Tables.{constants, numbers, set_table, find_in_constant_table, find_in_numeric_table}
use cript.Ir.{IrBuilder, ir_builder_allocate_register, assert_not_end, push_inst}
use cript.Prelude.Run.{Run, ok, ◌>>=◌, ◌>>◌}
use cript.Prelude.{ℕ, ◌^◌, ◌&&◌, ltb, if◌then◌else◌}
use cript.Table.{TableOps}
use cript.Value.{value_is_int, value_to_int, value_from_int, value_from_string}
use cript.Vm.Registers.{add_op, sub_op, mul_op, div_op, mod_op, seq_op, slt_op, sle_op}

module _ {T : Type 0} ⦃ops : TableOps T⦄ where
  -- the part of `ir_builder_li` after the search: a new register, and both tables learn the number
  unfoldable pub load_int : IrBuilder T → ℕ → ℕ → Run (ℕ × IrBuilder T)
  load_int builder bb imm = do
    assert_not_end builder bb
    let (ret, b₁) = ir_builder_allocate_register builder
    let b₂ = push_inst b₁ bb (new_i_type i_li ret imm)
    let b₃ = set_table b₂ bb constants (value_from_int imm) (value_from_int ret)
    ok (ret, set_table b₃ bb numbers ret (value_from_int imm))

  unfoldable pub ir_builder_li : IrBuilder T → ℕ → ℕ → Run (ℕ × IrBuilder T)
  ir_builder_li builder bb imm =
      let (constant, b) = find_in_constant_table builder bb (value_from_int imm) in
      if ltb constant (2 ^ 31) then ok (constant, b) else load_int b bb imm

  unfoldable pub ir_builder_lstr : IrBuilder T → ℕ → ℕ → Run (ℕ × IrBuilder T)
  ir_builder_lstr builder bb string =
      let (constant, b) = find_in_constant_table builder bb (value_from_string string) in
      if ltb constant (2 ^ 31) then ok (constant, b) else do
        assert_not_end b bb
        let (ret, b₁) = ir_builder_allocate_register b
        let b₂ = push_inst b₁ bb (new_i_type i_lstr ret string)
        ok (ret, set_table b₂ bb constants (value_from_string string) (value_from_int ret))

  -- a new register and an instruction that writes it
  unfoldable pub emit : InstType → IrBuilder T → ℕ → ℕ → ℕ → Run (ℕ × IrBuilder T)
  emit type builder bb rs rt = do
    assert_not_end builder bb
    let (ret, b) = ir_builder_allocate_register builder
    ok (ret, push_inst b bb (new_d_type type ret rs rt))

  -- `_ir_fold_constant`, and the instruction if nothing can be folded
  unfoldable pub fold_or_emit :
      InstType → (ℕ → ℕ → Run ℕ) → IrBuilder T → ℕ → ℕ → ℕ → Run (ℕ × IrBuilder T)
  fold_or_emit type op builder bb rs rt = do
    assert_not_end builder bb
    let (const_l, b₁) = find_in_numeric_table builder bb rs
    let (const_r, b₂) = find_in_numeric_table b₁ bb rt
    let folded = op (value_to_int const_l) (value_to_int const_r) >>= ir_builder_li b₂ bb
    if value_is_int const_l && value_is_int const_r then folded else emit type b₂ bb rs rt

  unfoldable pub ir_builder_add : IrBuilder T → ℕ → ℕ → ℕ → Run (ℕ × IrBuilder T)
  ir_builder_add = fold_or_emit i_add add_op

  unfoldable pub ir_builder_sub : IrBuilder T → ℕ → ℕ → ℕ → Run (ℕ × IrBuilder T)
  ir_builder_sub = fold_or_emit i_sub sub_op

  unfoldable pub ir_builder_mul : IrBuilder T → ℕ → ℕ → ℕ → Run (ℕ × IrBuilder T)
  ir_builder_mul = fold_or_emit i_mul mul_op

  unfoldable pub ir_builder_div : IrBuilder T → ℕ → ℕ → ℕ → Run (ℕ × IrBuilder T)
  ir_builder_div = fold_or_emit i_div div_op

  unfoldable pub ir_builder_mod : IrBuilder T → ℕ → ℕ → ℕ → Run (ℕ × IrBuilder T)
  ir_builder_mod = fold_or_emit i_mod mod_op

  unfoldable pub ir_builder_seq : IrBuilder T → ℕ → ℕ → ℕ → Run (ℕ × IrBuilder T)
  ir_builder_seq = fold_or_emit i_seq seq_op

  unfoldable pub ir_builder_slt : IrBuilder T → ℕ → ℕ → ℕ → Run (ℕ × IrBuilder T)
  ir_builder_slt = fold_or_emit i_slt slt_op

  unfoldable pub ir_builder_sle : IrBuilder T → ℕ → ℕ → ℕ → Run (ℕ × IrBuilder T)
  ir_builder_sle = fold_or_emit i_sle sle_op

  unfoldable pub ir_builder_lnot : IrBuilder T → ℕ → ℕ → Run (ℕ × IrBuilder T)
  ir_builder_lnot builder bb rs = emit i_lnot builder bb rs 0

  -- the number in `rs`, if it is known, is recorded for `rd` too
  unfoldable pub copy_number : IrBuilder T → ℕ → ℕ → ℕ → IrBuilder T
  copy_number builder bb rd rs =
      let (constant, b) = find_in_numeric_table builder bb rs in
      if value_is_int constant then set_table b bb numbers rd constant else b

  unfoldable pub ir_builder_mov : IrBuilder T → ℕ → ℕ → Run (ℕ × IrBuilder T)
  ir_builder_mov builder bb rs = do
    (ret, b) ← emit i_mov builder bb rs 0
    ok (ret, copy_number b bb ret rs)

  unfoldable pub ir_builder_mov_upper : IrBuilder T → ℕ → ℕ → ℕ → Run (IrBuilder T)
  ir_builder_mov_upper builder bb rd rs = do
    assert_not_end builder bb
    ok (copy_number (push_inst builder bb (new_d_type i_mov rd rs 0)) bb rd rs)

  unfoldable pub ir_builder_new_obj : IrBuilder T → ℕ → Run (ℕ × IrBuilder T)
  ir_builder_new_obj builder bb = emit i_new_obj builder bb 0 0

  unfoldable pub ir_builder_new_arr : IrBuilder T → ℕ → Run (ℕ × IrBuilder T)
  ir_builder_new_arr builder bb = emit i_new_arr builder bb 0 0

  unfoldable pub ir_builder_set_obj : IrBuilder T → ℕ → ℕ → ℕ → ℕ → Run (IrBuilder T)
  ir_builder_set_obj builder bb r_obj r_val r_key = do
    assert_not_end builder bb
    ok (push_inst builder bb (new_d_type i_set_obj r_obj r_val r_key))

  unfoldable pub ir_builder_get_obj : IrBuilder T → ℕ → ℕ → ℕ → Run (ℕ × IrBuilder T)
  ir_builder_get_obj builder bb r_obj r_key = emit i_get_obj builder bb r_obj r_key

  unfoldable pub ir_builder_call : IrBuilder T → ℕ → ℕ → ℕ → Run (ℕ × IrBuilder T)
  ir_builder_call builder bb r_func r_arg = emit i_call builder bb r_func r_arg

  unfoldable pub ir_builder_ret : IrBuilder T → ℕ → ℕ → Run (IrBuilder T)
  ir_builder_ret builder bb r_val = do
    assert_not_end builder bb
    ok (push_inst builder bb (new_d_type i_ret r_val 0 0))

  unfoldable pub ir_builder_new_cls : IrBuilder T → ℕ → ℕ → Run (ℕ × IrBuilder T)
  ir_builder_new_cls builder bb func = do
    assert_not_end builder bb
    let (ret, b) = ir_builder_allocate_register builder
    ok (ret, push_inst b bb (new_i_type i_new_cls ret func))

  unfoldable pub ir_builder_undefined : IrBuilder T → ℕ → Run (ℕ × IrBuilder T)
  ir_builder_undefined builder bb = emit i_undefined builder bb 0 0

  unfoldable pub ir_builder_null : IrBuilder T → ℕ → Run (ℕ × IrBuilder T)
  ir_builder_null builder bb = emit i_null builder bb 0 0

  unfoldable pub ir_builder_halt : IrBuilder T → ℕ → Run (IrBuilder T)
  ir_builder_halt builder bb = do
    assert_not_end builder bb
    ok (push_inst builder bb (new_d_type i_halt 0 0 0))
