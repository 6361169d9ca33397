-- ===== src/Tests/Data.antt =====
-- Runs of src/value.h and of src/inst_list.c.
use cript.Inst.{Inst, i_halt}
use cript.Prelude.{◌+◌, ◌^◌, ◌<◌, ◌≡◌, ◌==◌, refl, true, if◌then◌else◌, arith}
use cript.Value.Laws.{sign_extend_30, tag_unique, value_to_int-value_from_int, address_round_trip}
use cript.Value.{
  value_is_int, value_to_int, value_from_int, value_is_string, value_from_string, value_to_string,
  value_is_ptr, value_to_ptr, value_from_ptr, value_is_null, value_is_undefined,
}

tag_unique_example :
    (if value_is_ptr 6 then 1 else 0)
      + (if value_is_int 6 then 1 else 0)
      + (if value_is_string 6 then 1 else 0)
      + (if value_is_undefined 6 then 1 else 0)
    ≡ 1
tag_unique_example = tag_unique 6

value_to_int-value_from_int_example :
    (value_is_int (value_from_int 0xffff_ffff) ≡ true)
    × (value_from_int 0xffff_ffff < 2 ^ 32)
    × (value_to_int (value_from_int 0xffff_ffff) ≡ sign_extend_30 0xffff_ffff)
value_to_int-value_from_int_example = value_to_int-value_from_int 0xffff_ffff (omega arith)

thirteen : value_is_int 13 ≡ true
unfolding value_is_int
thirteen = refl

address_round_trip_example :
    (value_is_string (value_from_string 4096) ≡ true)
    × (value_to_string (value_from_string 4096) ≡ 4096)
    × (value_is_ptr (value_from_ptr 4096) ≡ true)
    × (value_to_ptr (value_from_ptr 4096) ≡ 4096)
    × (value_is_null (value_from_ptr 4096) ≡ (4096 == 0))
address_round_trip_example = address_round_trip 4096 (omega arith) refl

abbrev halt : Inst
halt = record { type = i_halt; i_rd = 0; info = 0 }
