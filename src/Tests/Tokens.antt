-- ===== src/Tests/Tokens.antt =====
-- Runs of the lexer of src/parse.c.
use cript.Lex.Forward.{lex_peak-IsStep, lex_peak-lex_next}
use cript.Lex.Numbers.{decimal, all_digits, starts_digit, number_loop-decimal}
use cript.Lex.Strings.{all_plain, string_loop-plain}
use cript.Lex.Peak.{
  found, plain, lex_parse_number, lex_parse_block_comment, lex_parse_line_comment, double_token,
  one_char, lex_operator, lex_slash, intern_token, lex_parse_identifier, lex_parse_string, dispatch,
  lex_round, peak_loop, lex_peak, lex_next,
}
use cript.Lex.Progress.{IsStep}
use cript.Lex.{
  tok_num, LexState, at_place, number_loop, identifier_loop, block_comment_loop, line_comment_loop,
  string_loop, skip_space, buffer_push,
}
use cript.Prelude.Run.{Run, ok, ◌>>=◌, Ends}
use cript.Prelude.{
  arith, ℕ, zero, suc, ◌+◌, ◌%◌, ◌-◌, ◌≤◌, ◌≡◌, ◌≢◌, refl, true, false, List, [], ◌∷◌, length,
}
use cript.Word.{word_mod}

lexing : Unit {0}
unfolding found plain lex_parse_number lex_parse_block_comment lex_parse_line_comment double_token
    one_char lex_operator lex_slash intern_token lex_parse_identifier lex_parse_string dispatch
    lex_round peak_loop lex_peak lex_next number_loop identifier_loop block_comment_loop
    line_comment_loop string_loop skip_space buffer_push decimal all_digits starts_digit
lexing = tt

-- A pool that keeps what it is given, and answers with the number of strings before it.
abbrev keep : List (List ℕ) → List ℕ → Run (List (List ℕ) × ℕ)
keep pool v = ok (v ∷ pool, length pool)

abbrev start : List ℕ → LexState (List (List ℕ))
start text = record {
  place = at_place 1 0 text;
  string_pool = [];
  peaking_token = 0;
  peaking_value = 0;
}

-- the first tokens of a text
abbrev tokens : ℕ → LexState (List (List ℕ)) → Run (List ℕ)
unfolding lexing
tokens zero s = ok []
tokens (suc n) s = lex_next keep s >>= λ r. tokens n r.1 >>= λ ts. ok (r.0 ∷ ts)

-- a12 /*
--  * */ <= "x"
abbrev text : List ℕ
text = 97 ∷ 49 ∷ 50 ∷ 32 ∷ 47 ∷ 42 ∷ 10 ∷ 42 ∷ 32 ∷ 42 ∷ 47 ∷ 60 ∷ 61 ∷ 34 ∷ 120 ∷ 34 ∷ []

text-tokens : tokens 4 (start text) ≡ ok (256 ∷ 260 ∷ 258 ∷ (word_mod - 1) ∷ [])
unfolding lexing
text-tokens = refl

-- 42;
abbrev number : List ℕ
number = 52 ∷ 50 ∷ 59 ∷ []

abbrev after_number : LexState (List (List ℕ))
after_number = record {
  place = at_place 1 2 (59 ∷ []);
  string_pool = [];
  peaking_token = tok_num;
  peaking_value = 42;
}

number_peaked : lex_peak keep (start number) ≡ ok (tok_num, after_number)
unfolding lexing
number_peaked = refl

lex_peak-IsStep_example :
    Ends
      (lex_peak keep (start text))
      λ r. (r.0 ≡ r.1.peaking_token) × IsStep (start text) r.1 × (length r.1.string_pool ≤ 1)
lex_peak-IsStep_example =
    lex_peak-IsStep keep [] (λ pool. length pool ≤ 1) (omega arith) (λ v. omega arith) (start text)
      refl refl

lex_peak-lex_next_example :
    (lex_next keep (start number) ≡ ok (tok_num, record after_number { peaking_token = 0 }))
    × (tok_num ≢ 0 → lex_peak keep after_number ≡ ok (tok_num, after_number))
lex_peak-lex_next_example = lex_peak-lex_next keep (start number) after_number tok_num number_peaked

digits : (all_digits (52 ∷ 50 ∷ []) ≡ true) × (starts_digit (59 ∷ []) ≡ false)
unfolding lexing
digits = (refl, refl)

number_loop-decimal_example :
    number_loop 0 1 0 (52 ∷ 50 ∷ 59 ∷ [])
    ≡ (decimal 0 (52 ∷ 50 ∷ []) % word_mod, at_place 1 (0 + 2) (59 ∷ []))
number_loop-decimal_example = number_loop-decimal (52 ∷ 50 ∷ []) (59 ∷ []) 1 0 digits.0 digits.1

ab-all_plain : all_plain 34 (97 ∷ 98 ∷ []) ≡ true
unfolding all_plain
ab-all_plain = refl

-- ab";
string_loop-plain_example :
    string_loop 34 [] 1 1 (97 ∷ 98 ∷ 34 ∷ 59 ∷ [])
    ≡ ok (97 ∷ 98 ∷ [], at_place 1 (1 + 2 + 1) (59 ∷ []))
string_loop-plain_example =
    string_loop-plain 34 (97 ∷ 98 ∷ []) (59 ∷ []) 1 1 ab-all_plain (omega arith)
