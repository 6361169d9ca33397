-- ===== src/Inst.antt =====
-- The instructions of src/inst.h. `_info` is one word: two register fields of 16 bits, the first in the
-- low half, or an immediate of 32 bits.
use cript.Prelude.{ℕ, ◌+◌, ◌*◌, ◌/◌, ◌%◌, ◌^◌}
use cript.Word.{word_mod}

-- `enum InstType`
pub data InstType : Type 0 where
  i_unknown i_halt i_li i_add i_sub i_mul i_div i_mod i_seq i_slt i_sle : InstType
  i_lnot i_mov i_bnr i_j i_lstr i_new_obj i_new_arr i_set_obj i_get_obj : InstType
  i_call i_ret i_new_cls i_undefined i_null : InstType

pub record Inst : Type 0 where
  pub type : InstType
  pub i_rd : ℕ
  pub info : ℕ

abbrev pub i_rs : Inst → ℕ
i_rs inst = inst.info % 2 ^ 16

abbrev pub i_rt : Inst → ℕ
i_rt inst = inst.info / 2 ^ 16 % 2 ^ 16

abbrev pub i_imm : Inst → ℕ
i_imm inst = inst.info

-- `cvm_inst_new_d_type`: the fields keep the low 16 bits
unfoldable pub new_d_type : InstType → ℕ → ℕ → ℕ → Inst
new_d_type type rd rs rt = record {
  type = type;
  i_rd = rd % 2 ^ 16;
  info = rs % 2 ^ 16 + rt % 2 ^ 16 * 2 ^ 16;
}

-- `cvm_inst_new_i_type`
unfoldable pub new_i_type : InstType → ℕ → ℕ → Inst
new_i_type type rd imm = record { type = type; i_rd = rd % 2 ^ 16; info = imm % word_mod }
