-- ===== src/InstList.antt =====
-- The growing array of instructions of src/inst_list.c. Memory is not exhausted here.
pub mod Laws
use cript.Inst.{Inst, i_unknown}
use cript.Prelude.{ℕ, zero, suc, ◌+◌, Bool, ◌==◌, if◌then◌else◌, List, [], ◌∷◌, set, replicate}
use cript.Word.{shr}

-- `struct InstList`
pub record InstList : Type 0 where
  pub capacity : ℕ
  pub count : ℕ
  pub insts : List Inst

abbrev pub default_capacity : ℕ
default_capacity = 16

-- what `memset` leaves
abbrev pub zero_inst : Inst
zero_inst = record { type = i_unknown; i_rd = 0; info = 0 }

-- `cvm_list_resize_capacity`
unfoldable pub resize_capacity : ℕ → ℕ
resize_capacity original = if original == 0 then default_capacity else original + shr original 1

unfoldable pub inst_list_new : ℕ → InstList
inst_list_new capacity = record {
  capacity = capacity;
  count = 0;
  insts = replicate capacity zero_inst;
}

-- `realloc` to `n` cells, and `memset` on the new ones
unfoldable pub resize_cells : ℕ → List Inst → List Inst
resize_cells zero cells = []
resize_cells (suc n) [] = zero_inst ∷ resize_cells n []
resize_cells (suc n) (x ∷ cells) = x ∷ resize_cells n cells

unfoldable pub inst_list_resize : InstList → ℕ → InstList
unfolding resize_cells
inst_list_resize list capacity = record list {
  capacity = capacity;
  insts = resize_cells capacity list.insts;
}

-- `insts[count++] = inst`; a write past the end is lost here, and is a buffer overflow in C
unfoldable pub store_next : InstList → Inst → InstList
store_next list inst = record list {
  count = list.count + 1;
  insts = set list.insts list.count inst;
}

unfoldable pub inst_list_append : InstList → Inst → InstList
inst_list_append list inst =
    if list.count == list.capacity
    then store_next (inst_list_resize list (resize_capacity list.capacity)) inst
    else store_next list inst
