-- ===== src/Word/Signed.antt =====
-- A word read as an `int` in two's complement: division and order. The quotient of the least integer
-- by -1, which overflows, does not arise on the 30-bit numbers of the program.
use cript.Prelude.{ℕ, ◌+◌, ◌-◌, ◌/◌, ◌%◌, ◌^◌, Bool, ltb, leb, if◌then◌else◌}
use cript.Word.{word_mod}

abbrev pub is_negative : ℕ → Bool
is_negative a = leb (2 ^ 31) a

abbrev pub negate : ℕ → ℕ
negate a = (word_mod - a) % word_mod

abbrev pub magnitude : ℕ → ℕ
magnitude a = if is_negative a then negate a else a

-- `a / b`, rounded towards zero
unfoldable pub sdiv : ℕ → ℕ → ℕ
sdiv a b =
    let q = magnitude a / magnitude b in
    if is_negative a
    then (if is_negative b then q else negate q)
    else (if is_negative b then negate q else q)

-- `a % b`, with the sign of `a`
unfoldable pub smod : ℕ → ℕ → ℕ
smod a b = let r = magnitude a % magnitude b in if is_negative a then negate r else r

-- `a < b` and `a <= b`
abbrev pub slt : ℕ → ℕ → Bool
slt a b = ltb ((a + 2 ^ 31) % word_mod) ((b + 2 ^ 31) % word_mod)

abbrev pub sle : ℕ → ℕ → Bool
sle a b = leb ((a + 2 ^ 31) % word_mod) ((b + 2 ^ 31) % word_mod)
