-- ===== src/Lex.antt =====
-- The lexer of src/parse.c. The source text is the list of the bytes from `current` to `limit`. The pool of
-- strings is any type with an insertion that gives the address of a string.
pub mod Chars
pub mod Peak
pub mod Pooled
pub mod Lines
pub mod Strings
pub mod Forward
pub mod Progress
pub mod Numbers
use cript.Lex.Chars.{
  is_digit, is_alpha, is_space, is_identifier, newline, backslash, double_quote, single_quote,
}
use cript.Prelude.Run.{Run, ok, trap, wild, ◌>>=◌, ◌>>◌, assert}
use cript.Prelude.{
  ℕ, zero, suc, ◌+◌, ◌-◌, ◌^◌, Bool, true, false, not, ◌&&◌, ◌||◌, ◌==◌, ltb, if◌then◌else◌, List,
  [], ◌∷◌, ◌++◌, length,
}
use cript.StringPool.{max_short_string_length}
use cript.Word.{word_mod, add, mul}

-- `enum Token`, as words; a token of one character is that character
abbrev pub tok_eof : ℕ
tok_eof = word_mod - 1

abbrev pub tok_unknown : ℕ
tok_unknown = 0

abbrev pub tok_id : ℕ
tok_id = 256

abbrev pub tok_num : ℕ
tok_num = 257

abbrev pub tok_string : ℕ
tok_string = 258

abbrev pub tok_ge : ℕ
tok_ge = 259

abbrev pub tok_le : ℕ
tok_le = 260

abbrev pub tok_eq : ℕ
tok_eq = 261

abbrev pub tok_ne : ℕ
tok_ne = 262

abbrev pub tok_and : ℕ
tok_and = 263

abbrev pub tok_or : ℕ
tok_or = 264

abbrev pub tok_shl : ℕ
tok_shl = 265

abbrev pub tok_shr : ℕ
tok_shr = 266

-- A `char` as an `int`: it is signed.
abbrev pub char_to_int : ℕ → ℕ
char_to_int c = if ltb c 128 then c else c + (word_mod - 256)

-- A place in the text: `line`, `column` and the bytes that are left.
pub record Place : Type 0 where
  pub line : ℕ
  pub column : ℕ
  pub current : List ℕ

-- The part of `struct ParseState` that the lexer keeps.
pub record LexState (P : Type 0) : Type 0 where
  pub place : Place
  pub string_pool : P
  pub peaking_token : ℕ
  pub peaking_value : ℕ

abbrev pub at_place : ℕ → ℕ → List ℕ → Place
at_place line column current = record { line = line; column = column; current = current }

-- The loop of `_lex_parse_number`.
unfoldable pub number_loop : ℕ → ℕ → ℕ → List ℕ → ℕ × Place
number_loop value line column [] = (value, at_place line column [])
number_loop value line column (c ∷ cs) =
    let rest = number_loop (add (mul value 10) (c - b'0')) line (column + 1) cs in
    if is_digit c then rest else (value, at_place line column (c ∷ cs))

-- The loop of `_lex_parse_identifier`: the buffer takes the first 256 characters.
unfoldable pub identifier_loop : List ℕ → ℕ → ℕ → List ℕ → List ℕ × Place
identifier_loop buffer line column [] = (buffer, at_place line column [])
identifier_loop buffer line column (c ∷ cs) =
    let buffer' =
      if ltb (length buffer) max_short_string_length then buffer ++ c ∷ [] else buffer in
    let rest = identifier_loop buffer' line (column + 1) cs in
    if is_identifier c then rest else (buffer, at_place line column (c ∷ cs))

-- The loops of `_lex_parse_block_comment`, after the opening of the comment.
unfoldable pub block_comment_loop : ℕ → ℕ → List ℕ → Place
block_comment_loop line column [] = at_place line column []
block_comment_loop line column (c ∷ []) =
    if c == b'*'
    then at_place line column (c ∷ [])
    else (if c == newline then at_place (line + 1) 0 [] else at_place line (column + 1) [])
block_comment_loop line column (c ∷ d ∷ cs) =
    let plain = block_comment_loop line (column + 1) (d ∷ cs) in
    let next_line = block_comment_loop (line + 1) 0 (d ∷ cs) in
    if c == b'*'
    then (if d == b'/' then at_place line (column + 2) cs else plain)
    else (if c == newline then next_line else plain)

-- The loop of `_lex_parse_line_comment`, after the two slashes, and the newline.
unfoldable pub line_comment_loop : ℕ → ℕ → List ℕ → Place
line_comment_loop line column [] = at_place line column []
line_comment_loop line column (c ∷ cs) =
    let rest = line_comment_loop line (column + 1) cs in
    if c == newline then at_place (line + 1) 0 cs else rest

-- One character more in the buffer of `_lex_parse_string`; 256 are too many.
unfoldable pub buffer_push : List ℕ → ℕ → Run (List ℕ)
buffer_push buffer ch =
    if length buffer + 1 == max_short_string_length then trap else ok (buffer ++ ch ∷ [])

-- The loop of `_lex_parse_string`, after the opening quote, and the closing one. A backslash that ends the
-- text makes the loop go on behind its end.
unfoldable pub string_loop : ℕ → List ℕ → ℕ → ℕ → List ℕ → Run (List ℕ × Place)
string_loop start buffer line column [] = trap
string_loop start buffer line column (c ∷ []) =
    if c == start
    then ok (buffer, at_place line (column + 1) [])
    else (if c == backslash
        then (buffer_push buffer 0 >>= λ _. wild)
        else (buffer_push buffer c >>= λ _. trap))
string_loop start buffer line column (c ∷ d ∷ cs) =
    let escaped = buffer_push buffer d >>= λ b. string_loop start b line (column + 2) cs in
    let next_line = buffer_push buffer c >>= λ b. string_loop start b (line + 1) 0 (d ∷ cs) in
    let plain = buffer_push buffer c >>= λ b. string_loop start b line (column + 1) (d ∷ cs) in
    if c == start
    then ok (buffer, at_place line (column + 1) (d ∷ cs))
    else (if c == newline then next_line else (if c == backslash then escaped else plain))

-- The first loop of `_lex_peak`.
unfoldable pub skip_space : ℕ → ℕ → List ℕ → Place
skip_space line column [] = at_place line column []
skip_space line column (c ∷ cs) =
    let rest =
      skip_space (if c == newline then line + 1 else line) (if c == newline then 0 else column + 1)
        cs in
    if is_space c then rest else at_place line column (c ∷ cs)
