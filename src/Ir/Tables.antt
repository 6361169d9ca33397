-- ===== src/Ir/Tables.antt =====
-- The search for a constant or for a number through the dominators of a block. What is found is copied
-- into the tables on the way. A loop that follows the dominators takes as many rounds as there are blocks.
use cript.Ir.{BasicBlock, IrBuilder, block, modify}
use cript.Prelude.{ℕ, zero, suc, ◌-◌, if◌then◌else◌, Option, none, some, length}
use cript.Table.{TableOps}
use cript.Value.{Value, value_to_int, value_is_undefined, value_undefined}
use cript.Word.{word_mod}

-- the two tables of a block
pub data Which : Type 0 where
  constants numbers : Which

abbrev pub table_of : {T : Type 0} → Which → BasicBlock T → T
table_of constants b = b.constant_table
table_of numbers b = b.numeric_value

abbrev pub with_table : {T : Type 0} → Which → T → BasicBlock T → BasicBlock T
with_table constants t b = record b { constant_table = t }
with_table numbers t b = record b { numeric_value = t }

module _ {T : Type 0} ⦃ops : TableOps T⦄ where
  -- `hash_set_and_update(bb->constant_table, key, value)`, or the same on `numeric_value`
  unfoldable pub set_table : IrBuilder T → ℕ → Which → ℕ → Value → IrBuilder T
  unfolding modify
  set_table builder bb w key value =
      modify builder bb λ b. with_table w (ops.update (table_of w b) key value) b

  unfoldable pub find_table : IrBuilder T → ℕ → Which → ℕ → Value
  find_table builder bb w key = ops.find (table_of w (block builder bb)) key

  -- the inner loop: from `begin_bb` upwards, up to the first table that has the key
  unfoldable pub fill_path : ℕ → IrBuilder T → Option ℕ → Which → ℕ → Value → IrBuilder T
  fill_path zero builder begin_bb w key result = builder
  fill_path (suc f) builder none w key result = builder
  fill_path (suc f) builder (some bb) w key result =
      let rest =
        fill_path f (set_table builder bb w key result) (block builder bb).dominator w key result in
      if value_is_undefined (find_table builder bb w key) then rest else builder

  -- the outer loop: the first table, from `bb` upwards, that has the key
  unfoldable pub search_up : ℕ → IrBuilder T → Option ℕ → Which → ℕ → Value
  search_up zero builder bb w key = value_undefined
  search_up (suc f) builder none w key = value_undefined
  search_up (suc f) builder (some bb) w key =
      let result = find_table builder bb w key in
      let rest = search_up f builder (block builder bb).dominator w key in
      if value_is_undefined result then rest else result

  unfoldable pub find_in_table : IrBuilder T → ℕ → Which → ℕ → Value × IrBuilder T
  find_in_table builder bb w key =
      let fuel = length builder.basic_blocks in
      let result = search_up fuel builder (some bb) w key in
      (
        result,
        if value_is_undefined result
            then builder
            else fill_path fuel builder (some bb) w key result,
      )

  -- `_ir_builder_find_in_constant_table`: a register, or the word of -1
  unfoldable pub find_in_constant_table : IrBuilder T → ℕ → Value → ℕ × IrBuilder T
  find_in_constant_table builder bb constant =
      let (result, builder') = find_in_table builder bb constants constant in
      (if value_is_undefined result then word_mod - 1 else value_to_int result, builder')

  -- `_ir_builder_find_in_numeric_table`
  unfoldable pub find_in_numeric_table : IrBuilder T → ℕ → ℕ → Value × IrBuilder T
  find_in_numeric_table builder bb reg = find_in_table builder bb numbers reg
