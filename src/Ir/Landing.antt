-- ===== src/Ir/Landing.antt =====
-- The jumps that src/ir_builder.c fills in, run by src/cvm.c.
use cript.Inst.{Inst, i_bnr, i_j}
use cript.Ir.Link.{target_imm}
use cript.Prelude.Run.{ok}
use cript.Prelude.{
  ℕ, ◌^◌, ◌<◌, ◌≡◌, refl, ap, true, ◌⊎◌, inl, inr, some, List, ◌∷◌, get_elem?, arith,
}
use cript.Vm.Frames.{Frame, running, is_false, step, exec_at, exec_inst, exec_j, exec_bnr}
use cript.Word.{add, sub}

-- the frame with its jump filled in for `entry_point`
abbrev pub filled : Inst → ℕ → ℕ → Inst
filled inst index entry_point = record inst { info = target_imm inst index entry_point }

reached : (i e : ℕ) → i < 2 ^ 32 → e < 2 ^ 32 → add (add i 1) (sub (sub e i) 1) ≡ e
reached i e hi he = omega arith

-- When a frame is at an instruction that has been filled in for an entry point, and that is a jump, or a
-- branch on a register that counts as false, the step goes to the entry point and changes nothing else.
pub step-target_imm :
    (inst : Inst) (entry_point : ℕ) (frame : Frame) (frames : List Frame)
    → frame.pc < 2 ^ 32
    → entry_point < 2 ^ 32
    → get_elem? frame.inst_list.insts frame.pc ≡ some (filled inst frame.pc entry_point)
    → (inst.type ≡ i_j) ⊎ ((inst.type ≡ i_bnr) × (is_false (frame.regs inst.i_rd) ≡ true))
    → step (frame ∷ frames) ≡ some (ok (running (record frame { pc = entry_point } ∷ frames)))
unfolding step exec_at exec_inst exec_j exec_bnr target_imm
step-target_imm inst entry_point frame frames hp he here (inl jump) = rw (here, jump) refl
step-target_imm inst entry_point frame frames hp he here (inr (branch, taken)) =
    rw (here, branch, taken)
      (ap (λ p. some (ok (running (record frame { pc = p } ∷ frames))))
        (reached frame.pc entry_point hp he))
