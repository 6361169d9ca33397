-- ===== src/Lex/Numbers.antt =====
-- `_lex_parse_number` of src/parse.c reads a decimal number, modulo the size of a word.
use cript.Lex.Chars.{is_digit}
use cript.Lex.{at_place, number_loop}
use cript.Prelude.{
  ℕ, suc, ◌+◌, ◌-◌, ◌*◌, ◌%◌, ◌≡◌, refl, Bool, true, false, ◌&&◌, List, [], ◌∷◌, ◌++◌, length,
  arith,
}
use cript.Word.{word_mod, add, mul}

-- the number whose decimal digits follow those of `n`
unfoldable pub decimal : ℕ → List ℕ → ℕ
decimal n [] = n
decimal n (c ∷ cs) = decimal (n * 10 + (c - b'0')) cs

unfoldable pub all_digits : List ℕ → Bool
all_digits [] = true
all_digits (c ∷ cs) = is_digit c && all_digits cs

unfoldable pub starts_digit : List ℕ → Bool
starts_digit [] = false
starts_digit (c ∷ cs) = is_digit c

step_lem : (v c : ℕ) → add (mul (v % word_mod) 10) (c - b'0') ≡ (v * 10 + (c - b'0')) % word_mod
step_lem v c = omega arith

and_lem : (a b : Bool) → (a && b) ≡ true → (a ≡ true) × (b ≡ true)
and_lem true b h = (refl, h)
and_lem false b h = cc

stop_lem :
    (v line column : ℕ) (rest : List ℕ)
    → starts_digit rest ≡ false
    → number_loop v line column rest ≡ (v, at_place line column rest)
unfolding number_loop starts_digit
stop_lem v line column [] h = refl
stop_lem v line column (c ∷ cs) h = rw h refl

loop_lem :
    (ds rest : List ℕ) (v line column : ℕ)
    → all_digits ds ≡ true
    → starts_digit rest ≡ false
    → number_loop (v % word_mod) line column (ds ++ rest)
      ≡ (decimal v ds % word_mod, at_place line (column + length ds) rest)
unfolding number_loop decimal all_digits
loop_lem [] rest v line column h k =
    let e : column + 0 ≡ column = omega arith in rw e (stop_lem (v % word_mod) line column rest k)
loop_lem (c ∷ ds) rest v line column h k =
    let (digit, digits) = and_lem (is_digit c) (all_digits ds) h in
    let e : column + suc (length ds) ≡ column + 1 + length ds = omega arith in
    rw (digit, step_lem v c, e) (loop_lem ds rest (v * 10 + (c - b'0')) line (column + 1) digits k)

-- On a run of digits before a text that does not start with a digit, the loop of `_lex_parse_number` gives
-- the number that they write, modulo 2 ^ 32, and stops behind them, on the same line.
pub number_loop-decimal :
    (ds rest : List ℕ) (line column : ℕ)
    → all_digits ds ≡ true
    → starts_digit rest ≡ false
    → number_loop 0 line column (ds ++ rest)
      ≡ (decimal 0 ds % word_mod, at_place line (column + length ds) rest)
number_loop-decimal ds rest line column h k = loop_lem ds rest 0 line column h k
