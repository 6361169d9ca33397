-- ===== src/Tests/Building.antt =====
-- Runs of src/ir_builder.c and of the instructions of src/cvm.c.
use cript.Inst.{Inst, i_add, i_li, new_i_type}
use cript.Ir.Folding.{arith_inst-exec_li}
use cript.Prelude.Run.{ok, ◌>>=◌}
use cript.Prelude.{◌^◌, ◌+◌, ◌*◌, ◌≡◌, refl, true, arith}
use cript.Value.{value_is_int, value_to_int}
use cript.Vm.Registers.{Regs, arith_inst, exec_li, add_op}

-- every register holds the number 3
abbrev threes : Regs
threes reg = 13

-- register 4 gets the sum of the registers 2 and 3
abbrev sum : Inst
sum = record { type = i_add; i_rd = 4; info = 3 * 2 ^ 16 + 2 }

thirteen_is_int : value_is_int 13 ≡ true
unfolding value_is_int
thirteen_is_int = refl

six : add_op (value_to_int 13) (value_to_int 13) ≡ ok 6
unfolding value_to_int
six = refl

arith_inst-exec_li_example :
    arith_inst add_op sum threes
    ≡ (add_op (value_to_int 13) (value_to_int 13) >>= λ n. exec_li (new_i_type i_li 4 n) threes)
arith_inst-exec_li_example =
    arith_inst-exec_li add_op sum threes (omega arith) thirteen_is_int thirteen_is_int (omega arith)
