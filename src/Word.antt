-- ===== src/Word.antt =====
-- The 32-bit words of the program, which is compiled with -m32: `size_t`, `uintptr_t`, `intptr_t`
-- and pointers are numbers below 2 ^ 32, and the arithmetic on them wraps.
pub mod Bits
pub mod Signed
use cript.Prelude.{ℕ, ◌+◌, ◌-◌, ◌*◌, ◌/◌, ◌%◌, ◌^◌, ltb, if◌then◌else◌}

abbrev pub word_mod : ℕ
word_mod = 2 ^ 32

-- `a << k` and `a + b` on words
abbrev pub shl : ℕ → ℕ → ℕ
shl a k = a * 2 ^ k % word_mod

abbrev pub add : ℕ → ℕ → ℕ
add a b = (a + b) % word_mod

abbrev pub sub : ℕ → ℕ → ℕ
sub a b = (a + word_mod - b) % word_mod

abbrev pub mul : ℕ → ℕ → ℕ
mul a b = a * b % word_mod

-- `a >> k` on `unsigned`
abbrev pub shr : ℕ → ℕ → ℕ
shr a k = a / 2 ^ k

-- `a >> k` on `int`: the sign bit is copied in
abbrev pub sar : ℕ → ℕ → ℕ
sar a k = if ltb a (2 ^ 31) then a / 2 ^ k else a / 2 ^ k + (word_mod - 2 ^ (32 - k))
