-- ===== src/Ir.antt =====
-- The builder of basic blocks of src/ir_builder.h and src/ir_builder.c. A block is known by its position
-- in `basic_blocks`; a function that changes a block returns the changed builder. The tables are
-- those of any `TableOps`; `Hash/Ops` has those of src/hash.c.
pub mod Tables
pub mod Emit
pub mod Folding
pub mod Link
pub mod Chains
pub mod Landing
use cript.Inst.{Inst}
use cript.InstList.{InstList, inst_list_new, inst_list_append}
use cript.Prelude.Run.{Run, ok, ◌>>=◌, ◌>>◌, assert}
use cript.Prelude.{
  ℕ, zero, suc, Bool, ◌&&◌, ◌==◌, if◌then◌else◌, Option, none, some, List, [], ◌∷◌, ◌++◌, length,
  get_or, set, is_none,
}
use cript.Table.{TableOps}
use cript.Value.{Value, value_from_int, value_from_ptr}
use cript.Word.{word_mod, add, shl}

-- `struct BasicBlock`; `dominator`, `then_bb` and `else_bb` are positions
pub record BasicBlock (T : Type 0) : Type 0 where
  pub dominator : Option ℕ
  pub inst_list : InstList
  pub entry_point : Value
  pub br_reg : ℕ
  pub constant_table : T
  pub numeric_value : T
  pub then_bb : Option ℕ
  pub else_bb : Option ℕ

-- `struct IRBuilder`
pub record IrBuilder (T : Type 0) : Type 0 where
  pub register_nr : ℕ
  pub basic_blocks : List (BasicBlock T)

module _ {T : Type 0} ⦃ops : TableOps T⦄ where
  -- the block that `_ir_builder_basic_block_new` makes
  unfoldable pub basic_block : Option ℕ → BasicBlock T
  unfolding value_from_int
  basic_block dominator = record {
    dominator = dominator;
    inst_list = inst_list_new 16;
    entry_point = value_from_ptr (shl 0xffff_ffff 2);
    br_reg = 0;
    constant_table = ops.update ops.empty (value_from_int 0) (value_from_int 0);
    numeric_value = ops.update ops.empty 0 (value_from_int 0);
    then_bb = none;
    else_bb = none;
  }

  -- `_ir_builder_basic_block_new`: the new block is the last one
  unfoldable pub basic_block_new : IrBuilder T → Option ℕ → ℕ × IrBuilder T
  basic_block_new builder dominator = (
    length builder.basic_blocks,
    record builder { basic_blocks = builder.basic_blocks ++ basic_block dominator ∷ [] },
  )

  unfoldable pub ir_builder_new : ℕ → IrBuilder T
  unfolding basic_block_new
  ir_builder_new reserved_register =
      (basic_block_new (record { register_nr = reserved_register; basic_blocks = [] }) none).1

  -- the first block
  abbrev pub ir_builder_entry : IrBuilder T → ℕ
  ir_builder_entry builder = 0

  -- its assertion, that the dominator is a block of this builder, holds of a position
  unfoldable pub ir_builder_new_basic_block : IrBuilder T → Option ℕ → ℕ × IrBuilder T
  unfolding basic_block_new
  ir_builder_new_basic_block builder dominator_bb = basic_block_new builder dominator_bb

  abbrev pub block : IrBuilder T → ℕ → BasicBlock T
  block builder bb = get_or builder.basic_blocks bb (basic_block none)

  unfoldable pub modify : IrBuilder T → ℕ → (BasicBlock T → BasicBlock T) → IrBuilder T
  modify builder bb f = record builder {
    basic_blocks = set builder.basic_blocks bb (f (block builder bb));
  }

  unfoldable pub ir_builder_allocate_register : IrBuilder T → ℕ × IrBuilder T
  ir_builder_allocate_register builder =
      let reg = add builder.register_nr 1 in (reg, record builder { register_nr = reg })

  -- `assert_basic_block_not_end`
  unfoldable pub assert_not_end : IrBuilder T → ℕ → Run (Unit {0})
  assert_not_end builder bb =
      assert ((block builder bb).br_reg == 0 && is_none (block builder bb).else_bb)

  -- `inst_list_push(bb->inst_list, inst)`
  unfoldable pub push_inst : IrBuilder T → ℕ → Inst → IrBuilder T
  unfolding modify
  push_inst builder bb inst =
      modify builder bb λ b. record b { inst_list = inst_list_append b.inst_list inst }

  unfoldable pub ir_builder_br : IrBuilder T → ℕ → ℕ → Option ℕ → Option ℕ → Run (IrBuilder T)
  unfolding assert_not_end modify
  ir_builder_br builder bb rd then_bb else_bb = do
    assert_not_end builder bb
    ok (modify builder bb λ b. record b { br_reg = rd; then_bb = then_bb; else_bb = else_bb })

  unfoldable pub ir_builder_j : IrBuilder T → ℕ → Option ℕ → Run (IrBuilder T)
  unfolding assert_not_end modify
  ir_builder_j builder bb successor_bb = do
    assert_not_end builder bb
    ok (modify builder bb λ b. record b { br_reg = 0; else_bb = successor_bb })
