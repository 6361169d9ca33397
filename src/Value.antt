-- ===== src/Value.antt =====
-- The tagged values of src/value.h. A value is one 32-bit word whose two low bits are its tag:
-- 0 pointer, 1 number, 2 string, 3 undefined.
pub mod Laws
use cript.Prelude.{ℕ, ◌+◌, ◌-◌, ◌^◌, Bool, ◌&&◌, ◌==◌, bit_and, bit_or}
use cript.Word.{word_mod, shl, add, sar}

-- `union Value`, by its member `_int`
abbrev pub Value : Type 0
Value = ℕ

-- `enum ValueTag`
abbrev pub t_pointer : ℕ
t_pointer = 0

abbrev pub t_number : ℕ
t_number = 1

abbrev pub t_string : ℕ
t_string = 2

abbrev pub t_undefined : ℕ
t_undefined = 3

unfoldable pub value_is_int : Value → Bool
value_is_int val = bit_and val 3 == t_number

-- the result; the assertion that `val` is a number is the caller's to check
unfoldable pub value_to_int : Value → ℕ
value_to_int val = sar val 2

unfoldable pub value_from_int : ℕ → Value
value_from_int value = add (shl value 2) t_number

unfoldable pub value_is_string : Value → Bool
value_is_string val = bit_and val 3 == t_string

unfoldable pub value_from_string : ℕ → Value
value_from_string str = bit_or str t_string

-- `-3` as a word
unfoldable pub value_to_string : Value → ℕ
value_to_string val = bit_and val (word_mod - 3)

unfoldable pub value_is_ptr : Value → Bool
value_is_ptr val = bit_and val 3 == t_pointer

unfoldable pub value_to_ptr : Value → ℕ
value_to_ptr val = bit_and val (word_mod - 3)

unfoldable pub value_from_ptr : ℕ → Value
value_from_ptr ptr = add ptr t_pointer

unfoldable pub value_is_null : Value → Bool
unfolding value_is_ptr value_to_ptr
value_is_null val = value_is_ptr val && value_to_ptr val == 0

unfoldable pub value_null : Value
unfolding value_from_ptr
value_null = value_from_ptr 0

unfoldable pub value_is_undefined : Value → Bool
value_is_undefined value = bit_and value t_undefined == t_undefined

abbrev pub value_undefined : Value
value_undefined = t_undefined
