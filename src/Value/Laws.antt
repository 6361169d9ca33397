-- ===== src/Value/Laws.antt =====
-- The tags of src/value.h partition the words, and packing is undone by unpacking.
use cript.Prelude.{
  ℕ, ◌+◌, ◌*◌, ◌/◌, ◌%◌, ◌^◌, ◌<◌, ◌≡◌, true, ◌==◌, ltb, if◌then◌else◌, arith, sym, refl, ◌∙◌,
}
use cript.Value.{
  Value, value_is_int, value_to_int, value_from_int, value_is_string, value_from_string,
  value_to_string, value_is_ptr, value_to_ptr, value_from_ptr, value_is_null, value_is_undefined,
}
use cript.Word.Bits.{bit_and_three, bit_and_minus_three, bit_or_two}

pub value_is_int-mod : (v : Value) → value_is_int v ≡ (v % 4 == 1)
unfolding value_is_int
value_is_int-mod v = rw (bit_and_three v)

pub value_is_string-mod : (v : Value) → value_is_string v ≡ (v % 4 == 2)
unfolding value_is_string
value_is_string-mod v = rw (bit_and_three v)

pub value_is_ptr-mod : (v : Value) → value_is_ptr v ≡ (v % 4 == 0)
unfolding value_is_ptr
value_is_ptr-mod v = rw (bit_and_three v)

pub value_is_undefined-mod : (v : Value) → value_is_undefined v ≡ (v % 4 == 3)
unfolding value_is_undefined
value_is_undefined-mod v = rw (bit_and_three v)

-- `value_is_null` holds of the word 0 alone.
pub value_is_null-zero : (v : Value) → v < 2 ^ 32 → value_is_null v ≡ (v == 0)
unfolding value_is_null value_to_ptr
value_is_null-zero v h = rw (value_is_ptr-mod v, bit_and_minus_three v h) (ground arith)

-- Every word has exactly one of the four tags.
pub tag_unique :
    (v : Value)
    → (if value_is_ptr v then 1 else 0)
        + (if value_is_int v then 1 else 0)
        + (if value_is_string v then 1 else 0)
        + (if value_is_undefined v then 1 else 0)
      ≡ 1
tag_unique v =
    rw (value_is_ptr-mod v, value_is_int-mod v, value_is_string-mod v, value_is_undefined-mod v)
      (ground arith)

-- The signed number of 30 bits that the low bits of a word stand for, as a word.
unfoldable pub sign_extend_30 : ℕ → ℕ
sign_extend_30 i = let low = i % 2 ^ 30 in if ltb low (2 ^ 29) then low else low + 3 * 2 ^ 30

-- For every word, packing it as a number gives a value that is tagged as a number, fits a word, and is
-- unpacked to the sign extension of the word's low 30 bits.
pub value_to_int-value_from_int :
    (i : ℕ)
    → i < 2 ^ 32
    → (value_is_int (value_from_int i) ≡ true)
      × (value_from_int i < 2 ^ 32)
      × (value_to_int (value_from_int i) ≡ sign_extend_30 i)
unfolding value_from_int value_to_int sign_extend_30
value_to_int-value_from_int i h =
    (rw (value_is_int-mod (value_from_int i)) (ground arith), omega arith, ground arith)

-- A number word that is packed again is the same value.
pub value_from_int-value_to_int :
    (v : Value)
    → v < 2 ^ 32
    → value_is_int v ≡ true
    → (value_to_int v < 2 ^ 32) × (value_from_int (value_to_int v) ≡ v)
unfolding value_from_int value_to_int
value_from_int-value_to_int v h t =
    let t' : (v % 4 == 1) ≡ true = sym (value_is_int-mod v) ∙ t in (ground arith, ground arith)

-- An aligned address packed as a string or as a pointer gets that tag and is unpacked unchanged, and
-- only the address 0 packs to null.
pub address_round_trip :
    (a : ℕ)
    → a < 2 ^ 32
    → a % 4 ≡ 0
    → (value_is_string (value_from_string a) ≡ true)
      × (value_to_string (value_from_string a) ≡ a)
      × (value_is_ptr (value_from_ptr a) ≡ true)
      × (value_to_ptr (value_from_ptr a) ≡ a)
      × (value_is_null (value_from_ptr a) ≡ (a == 0))
unfolding value_from_string value_to_string value_from_ptr value_to_ptr
address_round_trip a h e =
    let s = bit_or_two a in
    let p : (a + 0) % 2 ^ 32 ≡ a = omega arith in
    rw (p, value_is_string-mod, value_is_ptr-mod a, value_is_null-zero a h, s)
      (
        ground arith,
        rw (bit_and_minus_three (a / 4 * 4 + 2 + a % 2) (omega arith)) (omega arith),
        ground arith,
        rw (bit_and_minus_three a h) (omega arith),
        refl,
      )
