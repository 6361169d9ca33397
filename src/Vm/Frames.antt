-- ===== src/Vm/Frames.antt =====
-- `cvm_state_run` of src/cvm.c on the frames of one scene, the topmost first: fetching, jumps, returns, and
-- the instructions on registers. A step is `none` at the instructions that need the heap or the caller's
-- host.
use cript.Inst.{InstType, Inst, i_imm, i_unknown, i_halt, i_bnr, i_j, i_ret}
use cript.InstList.{InstList, zero_inst}
use cript.Prelude.Run.{Run, ok, trap, forever, wild, ◌>>=◌}
use cript.Prelude.{
  ℕ, zero, suc, Bool, ◌&&◌, ◌||◌, ◌==◌, if◌then◌else◌, Option, none, some, List, [], ◌∷◌, get_elem?,
  get_or, length, ltb,
}
use cript.Value.{
  Value, value_is_int, value_to_int, value_is_null, value_is_undefined, value_undefined,
}
use cript.Vm.Registers.{Regs, set_register, register_inst}
use cript.Word.{add, sub}

-- `struct VMFrame`, with the instructions of its function
pub record Frame : Type 0 where
  pub inst_list : InstList
  pub pc : ℕ
  pub regs : Regs

-- what a step leads to: the frames to go on with, or the value that `cvm_state_run` returns
pub data Next : Type 0 where
  running : List Frame → Next
  finished : Value → Next

-- the test of `I_BNR`
unfoldable pub is_false : Value → Bool
is_false val =
    value_is_undefined val || value_is_null val || (value_is_int val && value_to_int val == 0)

unfoldable pub exec_bnr : Inst → Frame → Frame
exec_bnr inst frame =
    if is_false (frame.regs inst.i_rd)
    then record frame { pc = add frame.pc (i_imm inst) }
    else frame

unfoldable pub exec_j : Inst → Frame → Frame
exec_j inst frame = record frame { pc = i_imm inst }

-- The value goes to the register that the caller's last instruction, the call, names.
unfoldable pub exec_ret : Value → List Frame → Run Next
exec_ret ret_val [] = ok (finished ret_val)
exec_ret ret_val (caller ∷ frames) =
    let at = sub caller.pc 1 in
    let original_inst = get_or caller.inst_list.insts at zero_inst in
    let regs = set_register caller.regs original_inst.i_rd ret_val in
    if ltb at (length caller.inst_list.insts)
    then ok (running (record caller { regs = regs } ∷ frames))
    else wild

-- the instructions on registers, as a step
unfoldable pub on_registers : Frame → List Frame → Option (Run Regs) → Option (Run Next)
on_registers frame frames none = none
on_registers frame frames (some run) =
    some (run >>= λ regs. ok (running (record frame { regs = regs } ∷ frames)))

-- `frame` is past the instruction already
unfoldable pub exec_inst : InstType → Inst → Frame → List Frame → Option (Run Next)
exec_inst i_halt inst frame frames = some (ok (finished value_undefined))
exec_inst i_bnr inst frame frames = some (ok (running (exec_bnr inst frame ∷ frames)))
exec_inst i_j inst frame frames = some (ok (running (exec_j inst frame ∷ frames)))
exec_inst i_ret inst frame frames = some (exec_ret (frame.regs inst.i_rd) frames)
exec_inst i_unknown inst frame frames = some trap
exec_inst _ inst frame frames = on_registers frame frames (register_inst inst frame.regs)

unfoldable pub exec_at : Option Inst → Frame → List Frame → Option (Run Next)
exec_at none frame frames = some wild
exec_at (some inst) frame frames =
    exec_inst inst.type inst (record frame { pc = add frame.pc 1 }) frames

-- one turn of the loop; a scene without a frame is not run
unfoldable pub step : List Frame → Option (Run Next)
step [] = some wild
step (frame ∷ frames) = exec_at (get_elem? frame.inst_list.insts frame.pc) frame frames

-- after a step, `go_on` with the frames or return
unfoldable pub after_step :
    (List Frame → Option (Run Value)) → Option (Run Next) → Option (Run Value)
after_step go_on none = none
after_step go_on (some (ok (running frames))) = go_on frames
after_step go_on (some (ok (finished v))) = some (ok v)
after_step go_on (some trap) = some trap
after_step go_on (some forever) = some forever
after_step go_on (some wild) = some wild

-- at most `n` turns
unfoldable pub cvm_state_run : ℕ → List Frame → Option (Run Value)
cvm_state_run zero frames = some forever
cvm_state_run (suc n) frames = after_step (λ next. cvm_state_run n next) (step frames)
