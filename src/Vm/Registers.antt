-- ===== src/Vm/Registers.antt =====
-- The registers of a frame, and the instructions of `cvm_state_run` that only compute on them. Registers
-- are a function of their number; a frame has as many as its function asks for.
use cript.Inst.{
  InstType, Inst, i_rs, i_rt, i_imm, i_li, i_add, i_sub, i_mul, i_div, i_mod, i_seq, i_slt, i_sle,
  i_lnot, i_mov, i_lstr, i_undefined, i_null,
}
use cript.Prelude.Run.{Run, ok, trap, ◌>>=◌, ◌>>◌, assert}
use cript.Prelude.{ℕ, Bool, ◌==◌, if◌then◌else◌, Option, none, some}
use cript.Value.{
  Value, value_is_int, value_to_int, value_from_int, value_from_string, value_undefined, value_null,
}
use cript.Word.Signed.{sdiv, smod, slt, sle}
use cript.Word.{add, sub, mul}

abbrev pub Regs : Type 0
Regs = ℕ → Value

-- `cvm_set_register`: register 0 is never written
unfoldable pub set_register : Regs → ℕ → Value → Regs
set_register regs reg value i = if reg == 0 then regs i else (if i == reg then value else regs i)

-- `value_to_int` with its assertion
unfoldable pub int_of : Value → Run ℕ
int_of v = do assert (value_is_int v); ok (value_to_int v)

abbrev pub bool_to_int : Bool → ℕ
bool_to_int b = if b then 1 else 0

-- The operators on words; a division by 0 traps.
unfoldable pub div_op : ℕ → ℕ → Run ℕ
unfolding sdiv
div_op a b = if b == 0 then trap else ok (sdiv a b)

unfoldable pub mod_op : ℕ → ℕ → Run ℕ
unfolding smod
mod_op a b = if b == 0 then trap else ok (smod a b)

-- The operands are read as integers and the result is packed.
unfoldable pub arith_inst : (ℕ → ℕ → Run ℕ) → Inst → Regs → Run Regs
arith_inst op inst regs = do
  l ← int_of (regs (i_rs inst))
  r ← int_of (regs (i_rt inst))
  n ← op l r
  ok (set_register regs inst.i_rd (value_from_int n))

abbrev pub add_op : ℕ → ℕ → Run ℕ
add_op a b = ok (add a b)

abbrev pub sub_op : ℕ → ℕ → Run ℕ
sub_op a b = ok (sub a b)

abbrev pub mul_op : ℕ → ℕ → Run ℕ
mul_op a b = ok (mul a b)

abbrev pub seq_op : ℕ → ℕ → Run ℕ
seq_op a b = ok (bool_to_int (a == b))

abbrev pub slt_op : ℕ → ℕ → Run ℕ
slt_op a b = ok (bool_to_int (slt a b))

abbrev pub sle_op : ℕ → ℕ → Run ℕ
sle_op a b = ok (bool_to_int (sle a b))

unfoldable pub exec_li : Inst → Regs → Run Regs
exec_li inst regs = ok (set_register regs inst.i_rd (value_from_int (i_imm inst)))

unfoldable pub exec_add : Inst → Regs → Run Regs
exec_add = arith_inst add_op

unfoldable pub exec_sub : Inst → Regs → Run Regs
exec_sub = arith_inst sub_op

unfoldable pub exec_mul : Inst → Regs → Run Regs
exec_mul = arith_inst mul_op

unfoldable pub exec_div : Inst → Regs → Run Regs
exec_div = arith_inst div_op

unfoldable pub exec_mod : Inst → Regs → Run Regs
exec_mod = arith_inst mod_op

-- the words are compared, whatever they stand for
unfoldable pub exec_seq : Inst → Regs → Run Regs
exec_seq inst regs = ok (
    set_register regs inst.i_rd
      (value_from_int (bool_to_int (regs (i_rs inst) == regs (i_rt inst)))))

unfoldable pub exec_slt : Inst → Regs → Run Regs
exec_slt = arith_inst slt_op

unfoldable pub exec_sle : Inst → Regs → Run Regs
exec_sle = arith_inst sle_op

unfoldable pub exec_lnot : Inst → Regs → Run Regs
exec_lnot inst regs = do
  n ← int_of (regs (i_rs inst))
  ok (set_register regs inst.i_rd (value_from_int (bool_to_int (n == 0))))

unfoldable pub exec_mov : Inst → Regs → Run Regs
exec_mov inst regs = ok (set_register regs inst.i_rd (regs (i_rs inst)))

unfoldable pub exec_lstr : Inst → Regs → Run Regs
exec_lstr inst regs = ok (set_register regs inst.i_rd (value_from_string (i_imm inst)))

unfoldable pub exec_undefined : Inst → Regs → Run Regs
exec_undefined inst regs = ok (set_register regs inst.i_rd value_undefined)

unfoldable pub exec_null : Inst → Regs → Run Regs
exec_null inst regs = ok (set_register regs inst.i_rd value_null)

-- The instructions that compute on the registers alone; `none` for the others.
unfoldable pub by_type : InstType → Inst → Regs → Option (Run Regs)
by_type i_li inst regs = some (exec_li inst regs)
by_type i_add inst regs = some (exec_add inst regs)
by_type i_sub inst regs = some (exec_sub inst regs)
by_type i_mul inst regs = some (exec_mul inst regs)
by_type i_div inst regs = some (exec_div inst regs)
by_type i_mod inst regs = some (exec_mod inst regs)
by_type i_seq inst regs = some (exec_seq inst regs)
by_type i_slt inst regs = some (exec_slt inst regs)
by_type i_sle inst regs = some (exec_sle inst regs)
by_type i_lnot inst regs = some (exec_lnot inst regs)
by_type i_mov inst regs = some (exec_mov inst regs)
by_type i_lstr inst regs = some (exec_lstr inst regs)
by_type i_undefined inst regs = some (exec_undefined inst regs)
by_type i_null inst regs = some (exec_null inst regs)
by_type _ inst regs = none

unfoldable pub register_inst : Inst → Regs → Option (Run Regs)
unfolding by_type
register_inst inst regs = by_type inst.type inst regs
