-- ===== src/Lex/Chars.antt =====
-- The characters that the lexer tells apart, as bytes; the classes of <ctype.h> in the C locale.
use cript.Prelude.{ℕ, Bool, ◌&&◌, ◌||◌, ◌==◌, leb}

abbrev pub is_digit : ℕ → Bool
is_digit c = leb b'0' c && leb c b'9'

abbrev pub is_alpha : ℕ → Bool
is_alpha c = (leb b'a' c && leb c b'z') || (leb b'A' c && leb c b'Z')

-- space, and tab to carriage return
abbrev pub is_space : ℕ → Bool
is_space c = c == 32 || (leb 9 c && leb c 13)

abbrev pub newline : ℕ
newline = 10

abbrev pub backslash : ℕ
backslash = 92

abbrev pub double_quote : ℕ
double_quote = 34

abbrev pub single_quote : ℕ
single_quote = 39

-- what `_lex_parse_identifier` goes on with
abbrev pub is_identifier : ℕ → Bool
is_identifier c = is_alpha c || is_digit c || c == b'_' || c == b'$'
