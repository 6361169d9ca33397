-- ===== src/Parse/Emits.antt =====
-- The calls of the builder that the parser of src/parse.c makes come to an end.
use cript.Inst.{InstType}
use cript.Ir.Emit.{
  load_int, ir_builder_li, ir_builder_lstr, emit, fold_or_emit, ir_builder_add, ir_builder_sub,
  ir_builder_mul, ir_builder_div, ir_builder_mod, ir_builder_seq, ir_builder_slt, ir_builder_sle,
  ir_builder_lnot, ir_builder_mov, ir_builder_mov_upper, ir_builder_new_obj, ir_builder_new_arr,
  ir_builder_set_obj, ir_builder_get_obj, ir_builder_call, ir_builder_ret, ir_builder_new_cls,
  ir_builder_undefined, ir_builder_halt,
}
use cript.Ir.{IrBuilder, assert_not_end, ir_builder_br, ir_builder_j}
use cript.Prelude.Run.{Run, Ends, Ends->>=, ok, trap, assert, ◌>>=◌, ◌>>◌}
use cript.Prelude.{ℕ, Bool, true, false, Option, if◌then◌else◌}
use cript.Table.{TableOps}
use cript.Vm.Registers.{div_op, mod_op}

-- the run ends
pub record Stops {A : Type 0} (m : Run A) : Type 0 where
  pub ends : Ends m (λ _. Unit {0})

pub stops : {A : Type 0} {a : A} → Stops (ok a)
stops = record { ends = tt }

pub traps : {A : Type 0} → Stops {A = A} trap
traps = record { ends = tt }

pub then_Stops :
    {A B : Type 0} {m : Run A} {f : A → Run B} → Stops m → ((a : A) → Stops (f a)) → Stops (m >>= f)
then_Stops {m = m} {f} h k = record {
  ends = Ends->>= _ (λ _. Unit {0}) m f h.ends (λ a _. (k a).ends);
}

pub branch_Stops :
    {A : Type 0} (test : Bool) (m n : Run A) → Stops m → Stops n → Stops (if test then m else n)
branch_Stops true m n h k = h
branch_Stops false m n h k = k

pub assert-Stops : (test : Bool) → Stops (assert test)
assert-Stops true = stops
assert-Stops false = traps

div_op-Stops : (a b : ℕ) → Stops (div_op a b)
unfolding div_op
div_op-Stops a b = branch_Stops _ _ _ traps stops

mod_op-Stops : (a b : ℕ) → Stops (mod_op a b)
unfolding mod_op
mod_op-Stops a b = branch_Stops _ _ _ traps stops

module _ {T : Type 0} ⦃ops : TableOps T⦄ where
  -- a block that has to be open
  open_block-Stops :
      {A : Type 0} (b : IrBuilder T) (bb : ℕ) (m : Run A)
      → Stops m
      → Stops (assert_not_end b bb >> m)
  unfolding assert_not_end
  open_block-Stops b bb m h = then_Stops (assert-Stops _) (λ _. h)

  emit-Stops : (type : InstType) (b : IrBuilder T) (bb rs rt : ℕ) → Stops (emit type b bb rs rt)
  unfolding emit
  emit-Stops type b bb rs rt = open_block-Stops b bb _ stops

  load_int-Stops : (b : IrBuilder T) (bb imm : ℕ) → Stops (load_int b bb imm)
  unfolding load_int
  load_int-Stops b bb imm = open_block-Stops b bb _ stops

  pub ir_builder_li-Stops : (b : IrBuilder T) (bb imm : ℕ) → Stops (ir_builder_li b bb imm)
  unfolding ir_builder_li
  ir_builder_li-Stops b bb imm = branch_Stops _ _ _ stops (load_int-Stops _ bb imm)

  pub ir_builder_lstr-Stops :
      (b : IrBuilder T) (bb string : ℕ) → Stops (ir_builder_lstr b bb string)
  unfolding ir_builder_lstr
  ir_builder_lstr-Stops b bb string = branch_Stops _ _ _ stops (open_block-Stops _ bb _ stops)

  fold_or_emit-Stops :
      (type : InstType) (op : ℕ → ℕ → Run ℕ)
      → ((l r : ℕ) → Stops (op l r))
      → (b : IrBuilder T) (bb rs rt : ℕ) → Stops (fold_or_emit type op b bb rs rt)
  unfolding fold_or_emit
  fold_or_emit-Stops type op h b bb rs rt = open_block-Stops b bb _ (
      branch_Stops _ _ _ (then_Stops (h _ _) (λ n. ir_builder_li-Stops _ bb n))
        (emit-Stops type _ bb rs rt))

  pub ir_builder_add-Stops : (b : IrBuilder T) (bb rs rt : ℕ) → Stops (ir_builder_add b bb rs rt)
  unfolding ir_builder_add
  ir_builder_add-Stops = fold_or_emit-Stops _ _ (λ l r. stops)

  pub ir_builder_sub-Stops : (b : IrBuilder T) (bb rs rt : ℕ) → Stops (ir_builder_sub b bb rs rt)
  unfolding ir_builder_sub
  ir_builder_sub-Stops = fold_or_emit-Stops _ _ (λ l r. stops)

  pub ir_builder_mul-Stops : (b : IrBuilder T) (bb rs rt : ℕ) → Stops (ir_builder_mul b bb rs rt)
  unfolding ir_builder_mul
  ir_builder_mul-Stops = fold_or_emit-Stops _ _ (λ l r. stops)

  pub ir_builder_div-Stops : (b : IrBuilder T) (bb rs rt : ℕ) → Stops (ir_builder_div b bb rs rt)
  unfolding ir_builder_div
  ir_builder_div-Stops = fold_or_emit-Stops _ _ div_op-Stops

  pub ir_builder_mod-Stops : (b : IrBuilder T) (bb rs rt : ℕ) → Stops (ir_builder_mod b bb rs rt)
  unfolding ir_builder_mod
  ir_builder_mod-Stops = fold_or_emit-Stops _ _ mod_op-Stops

  pub ir_builder_seq-Stops : (b : IrBuilder T) (bb rs rt : ℕ) → Stops (ir_builder_seq b bb rs rt)
  unfolding ir_builder_seq
  ir_builder_seq-Stops = fold_or_emit-Stops _ _ (λ l r. stops)

  pub ir_builder_slt-Stops : (b : IrBuilder T) (bb rs rt : ℕ) → Stops (ir_builder_slt b bb rs rt)
  unfolding ir_builder_slt
  ir_builder_slt-Stops = fold_or_emit-Stops _ _ (λ l r. stops)

  pub ir_builder_sle-Stops : (b : IrBuilder T) (bb rs rt : ℕ) → Stops (ir_builder_sle b bb rs rt)
  unfolding ir_builder_sle
  ir_builder_sle-Stops = fold_or_emit-Stops _ _ (λ l r. stops)

  pub ir_builder_lnot-Stops : (b : IrBuilder T) (bb rs : ℕ) → Stops (ir_builder_lnot b bb rs)
  unfolding ir_builder_lnot
  ir_builder_lnot-Stops b bb rs = emit-Stops _ b bb rs 0

  pub ir_builder_mov-Stops : (b : IrBuilder T) (bb rs : ℕ) → Stops (ir_builder_mov b bb rs)
  unfolding ir_builder_mov
  ir_builder_mov-Stops b bb rs = then_Stops (emit-Stops _ b bb rs 0) (λ r. stops)

  pub ir_builder_mov_upper-Stops :
      (b : IrBuilder T) (bb rd rs : ℕ) → Stops (ir_builder_mov_upper b bb rd rs)
  unfolding ir_builder_mov_upper
  ir_builder_mov_upper-Stops b bb rd rs = open_block-Stops b bb _ stops

  pub ir_builder_new_obj-Stops : (b : IrBuilder T) (bb : ℕ) → Stops (ir_builder_new_obj b bb)
  unfolding ir_builder_new_obj
  ir_builder_new_obj-Stops b bb = emit-Stops _ b bb 0 0

  pub ir_builder_new_arr-Stops : (b : IrBuilder T) (bb : ℕ) → Stops (ir_builder_new_arr b bb)
  unfolding ir_builder_new_arr
  ir_builder_new_arr-Stops b bb = emit-Stops _ b bb 0 0

  pub ir_builder_set_obj-Stops :
      (b : IrBuilder T) (bb obj val key : ℕ) → Stops (ir_builder_set_obj b bb obj val key)
  unfolding ir_builder_set_obj
  ir_builder_set_obj-Stops b bb obj val key = open_block-Stops b bb _ stops

  pub ir_builder_get_obj-Stops :
      (b : IrBuilder T) (bb obj key : ℕ) → Stops (ir_builder_get_obj b bb obj key)
  unfolding ir_builder_get_obj
  ir_builder_get_obj-Stops b bb obj key = emit-Stops _ b bb obj key

  pub ir_builder_call-Stops :
      (b : IrBuilder T) (bb func arg : ℕ) → Stops (ir_builder_call b bb func arg)
  unfolding ir_builder_call
  ir_builder_call-Stops b bb func arg = emit-Stops _ b bb func arg

  pub ir_builder_ret-Stops : (b : IrBuilder T) (bb val : ℕ) → Stops (ir_builder_ret b bb val)
  unfolding ir_builder_ret
  ir_builder_ret-Stops b bb val = open_block-Stops b bb _ stops

  pub ir_builder_new_cls-Stops :
      (b : IrBuilder T) (bb func : ℕ) → Stops (ir_builder_new_cls b bb func)
  unfolding ir_builder_new_cls
  ir_builder_new_cls-Stops b bb func = open_block-Stops b bb _ stops

  pub ir_builder_undefined-Stops : (b : IrBuilder T) (bb : ℕ) → Stops (ir_builder_undefined b bb)
  unfolding ir_builder_undefined
  ir_builder_undefined-Stops b bb = emit-Stops _ b bb 0 0

  pub ir_builder_halt-Stops : (b : IrBuilder T) (bb : ℕ) → Stops (ir_builder_halt b bb)
  unfolding ir_builder_halt
  ir_builder_halt-Stops b bb = open_block-Stops b bb _ stops

  pub ir_builder_br-Stops :
      (b : IrBuilder T) (bb rd : ℕ) (then_bb else_bb : Option ℕ)
      → Stops (ir_builder_br b bb rd then_bb else_bb)
  unfolding ir_builder_br
  ir_builder_br-Stops b bb rd then_bb else_bb = open_block-Stops b bb _ stops

  pub ir_builder_j-Stops :
      (b : IrBuilder T) (bb : ℕ) (successor : Option ℕ) → Stops (ir_builder_j b bb successor)
  unfolding ir_builder_j
  ir_builder_j-Stops b bb successor = open_block-Stops b bb _ stops
