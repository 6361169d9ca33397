-- ===== src/Ir/Link.antt =====
-- `ir_builder_destroy` of src/ir_builder.c: the blocks one after another, with their jumps. A block that has
-- no place yet keeps, as a pointer value, the last instruction that waits for it; such an instruction keeps
-- the one before it, times 4, in its immediate. `entry_point` starts this chain as -1 times 4.
use cript.Inst.{Inst, i_bnr, i_j, i_undefined, i_ret, i_imm, new_d_type, new_i_type}
use cript.InstList.{InstList, inst_list_new, inst_list_append, zero_inst}
use cript.Ir.{IrBuilder, block, modify}
use cript.Prelude.Run.{Run, ok, forever, wild, ◌>>=◌}
use cript.Prelude.{
  ℕ, zero, suc, ◌+◌, ◌^◌, Bool, true, false, ◌==◌, ltb, if◌then◌else◌, Option, none, some, List, [],
  ◌∷◌, length, get_or, set,
}
use cript.Table.{TableOps}
use cript.Value.{Value, value_is_ptr, value_to_ptr, value_from_ptr, value_to_int, value_from_int}
use cript.Word.{sub, shl, sar}

-- is the instruction an `I_J`
abbrev pub is_jump : Inst → Bool
is_jump inst = elim inst.type [ i_j ↦ true | _ ↦ false ]

-- The immediate that takes the instruction at `index` to `entry_point`.
unfoldable pub target_imm : Inst → ℕ → ℕ → ℕ
target_imm inst index entry_point =
    if is_jump inst then entry_point else sub (sub entry_point index) 1

-- The loop that fills in a block's place, along the chain of the instructions that wait for it. A negative
-- index, as a word of 2 ^ 31 or more, ends it.
unfoldable pub fill_chain : ℕ → List Inst → ℕ → ℕ → Run (List Inst)
fill_chain zero insts inst_to_fill entry_point = forever
fill_chain (suc fuel) insts inst_to_fill entry_point =
    let inst = get_or insts inst_to_fill zero_inst in
    let filled = record inst { info = target_imm inst inst_to_fill entry_point } in
    let rest = fill_chain fuel (set insts inst_to_fill filled) (sar (i_imm inst) 2) entry_point in
    if ltb inst_to_fill (2 ^ 31)
    then (if ltb inst_to_fill (length insts) then rest else wild)
    else ok insts

-- the instructions of a block, one by one
unfoldable pub append_all : ℕ → List Inst → InstList → InstList
append_all zero insts code = code
append_all (suc n) [] code = code
append_all (suc n) (inst ∷ insts) code = append_all n insts (inst_list_append code inst)

-- the code so far, and the builder
abbrev pub Linked : Type 0 → Type 0
Linked T = InstList × IrBuilder T

module _ {T : Type 0} ⦃ops : TableOps T⦄ where
  -- a value for the entry point of the block `bb`
  unfoldable pub set_entry_point : IrBuilder T → ℕ → Value → IrBuilder T
  unfolding modify
  set_entry_point builder bb v = modify builder bb λ b. record b { entry_point = v }

  -- One more instruction that waits for the block `dst`, of the type and register given.
  unfoldable pub push_waiting : Linked T → Inst → ℕ → Linked T
  push_waiting (code, builder) inst dst = (
    inst_list_append code (record inst { info = value_to_ptr (block builder dst).entry_point }),
    set_entry_point builder dst (value_from_ptr (shl code.count 2)),
  )

  -- `_ir_builder_bnr_else`, for the block `dst` that is `bb->else_bb`
  unfoldable pub bnr_else : Linked T → ℕ → ℕ → Linked T
  bnr_else (code, builder) bb dst =
      let reg = (block builder bb).br_reg in
      let entry = (block builder dst).entry_point in
      let known =
        inst_list_append code
          (new_i_type i_bnr reg (sub (sub (value_to_int entry) code.count) 1)) in
      if value_is_ptr entry
      then push_waiting (code, builder) (new_i_type i_bnr reg 0) dst
      else (known, builder)

  -- `_ir_builder_jump_to`; nothing is needed to go on to the next block
  unfoldable pub jump_to : Linked T → ℕ → Option ℕ → Linked T
  jump_to (code, builder) bb none = (
    inst_list_append (inst_list_append code (new_d_type i_undefined 1 0 0))
        (new_d_type i_ret 1 0 0),
    builder,
  )
  jump_to (code, builder) bb (some dst) =
      let entry = (block builder dst).entry_point in
      let known = inst_list_append code (new_i_type i_j 0 (value_to_int entry)) in
      let jump =
        if value_is_ptr entry
        then push_waiting (code, builder) (new_i_type i_j 0 0) dst
        else (known, builder) in
      if dst == bb + 1 then (code, builder) else jump

  -- The place of the block `bb` is the end of the code; what waits for it is filled in.
  unfoldable pub place_block : Linked T → ℕ → Run (Linked T)
  place_block (code, builder) bb = do
    let entry = (block builder bb).entry_point
    insts ←
        (if value_is_ptr entry
          then fill_chain (suc (length code.insts)) code.insts (sar (value_to_ptr entry) 2)
              code.count
          else ok code.insts)
    ok (record code { insts = insts }, set_entry_point builder bb (value_from_int code.count))

  -- A branch without a block for `else` reads through a null pointer.
  unfoldable pub branch_else : Linked T → ℕ → Option ℕ → Run (Linked T)
  branch_else l bb none = wild
  branch_else l bb (some dst) = ok (bnr_else l bb dst)

  -- one round of the loop over the blocks
  unfoldable pub link_block : Linked T → ℕ → Run (Linked T)
  link_block (code, builder) bb = do
    (code₁, builder₁) ← place_block (code, builder) bb
    let b = block builder bb
    let code₂ = append_all b.inst_list.count b.inst_list.insts code₁
    let plain = ok (jump_to (code₂, builder₁) bb b.else_bb)
    let branch = branch_else (code₂, builder₁) bb b.else_bb >>= λ l. ok (jump_to l bb b.then_bb)
    (if b.br_reg == 0 then plain else branch)

  -- `n` blocks from `bb` on
  unfoldable pub link_loop : ℕ → Linked T → ℕ → Run (Linked T)
  link_loop zero l bb = ok l
  link_loop (suc n) l bb = link_block l bb >>= λ l'. link_loop n l' (bb + 1)

  unfoldable pub ir_builder_destroy : IrBuilder T → Run InstList
  ir_builder_destroy builder =
      link_loop (length builder.basic_blocks) (inst_list_new 16, builder) 0 >>= λ l. ok l.0
