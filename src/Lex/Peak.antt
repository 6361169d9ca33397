-- ===== src/Lex/Peak.antt =====
-- `_lex_peak`, `_lex_next` and the token parsers of src/parse.c. A round of the loop of `_lex_peak` reads a
-- token, or skips a comment and asks for another round.
use cript.Lex.Chars.{is_digit, is_alpha, double_quote, single_quote}
use cript.Lex.{
  tok_eof, tok_id, tok_num, tok_string, tok_ge, tok_le, tok_eq, tok_ne, tok_and, tok_or, tok_shl,
  tok_shr, char_to_int, Place, LexState, at_place, number_loop, identifier_loop, block_comment_loop,
  line_comment_loop, string_loop, skip_space,
}
use cript.Prelude.Run.{Run, ok, forever, ◌>>=◌}
use cript.Prelude.{
  ℕ, zero, suc, ◌+◌, Bool, true, false, ◌||◌, ◌==◌, if◌then◌else◌, List, [], ◌∷◌, length,
}

-- a token with its value, and where the text goes on
unfoldable pub found : {P : Type 0} → LexState P → ℕ → ℕ → Place → LexState P
found s token value place = record s { place = place; peaking_token = token; peaking_value = value }

-- A token without a value leaves `peaking_value` as it was.
unfoldable pub plain : {P : Type 0} → LexState P → ℕ → Place → LexState P
plain s token place = record s { place = place; peaking_token = token }

unfoldable pub lex_parse_number : {P : Type 0} → LexState P → LexState P
lex_parse_number s =
    let (value, place) = number_loop 0 s.place.line s.place.column s.place.current in
    found s tok_num value place

-- the characters after the two that open a comment
abbrev pub drop_two : List ℕ → List ℕ
drop_two [] = []
drop_two (c ∷ []) = []
drop_two (c ∷ d ∷ cs) = cs

unfoldable pub lex_parse_block_comment : {P : Type 0} → LexState P → LexState P
lex_parse_block_comment s = record s {
  place = block_comment_loop s.place.line (s.place.column + 2) (drop_two s.place.current);
}

unfoldable pub lex_parse_line_comment : {P : Type 0} → LexState P → LexState P
lex_parse_line_comment s = record s {
  place = line_comment_loop s.place.line (s.place.column + 2) (drop_two s.place.current);
}

-- The token of two characters that `c` and `d` make, and 0 for none.
unfoldable pub double_token : ℕ → ℕ → ℕ
double_token c d =
    if c == b'>' || c == b'<'
    then (if d == b'='
        then (if c == b'>' then tok_ge else tok_le)
        else (if d == c then (if c == b'>' then tok_shr else tok_shl) else 0))
    else (if c == b'=' || c == b'!'
        then (if d == b'=' then (if c == b'=' then tok_eq else tok_ne) else 0)
        else (if c == b'&'
            then (if d == b'&' then tok_and else 0)
            else (if c == b'|' then (if d == b'|' then tok_or else 0) else 0)))

unfoldable pub one_char : {P : Type 0} → LexState P → ℕ → List ℕ → LexState P
one_char s c cs = plain s (char_to_int c) (at_place s.place.line (s.place.column + 1) cs)

unfoldable pub lex_operator : {P : Type 0} → LexState P → ℕ → List ℕ → LexState P
lex_operator s c [] = one_char s c []
lex_operator s c (d ∷ cs) =
    if double_token c d == 0
    then one_char s c (d ∷ cs)
    else plain s (double_token c d) (at_place s.place.line (s.place.column + 2) cs)

-- a slash, before `cs`; with `true` for a further round
unfoldable pub lex_slash : {P : Type 0} → LexState P → List ℕ → Bool × LexState P
lex_slash s [] = (false, one_char s b'/' [])
lex_slash s (d ∷ cs) =
    if d == b'*'
    then (true, lex_parse_block_comment s)
    else (if d == b'/' then (true, lex_parse_line_comment s) else (false, one_char s b'/' (d ∷ cs)))

-- `intern` is `string_pool_insert_vec`: it gives the address of the one string of the pool with these characters.
module _ {P : Type 0} (intern : P → List ℕ → Run (P × ℕ)) where
  -- the end of `_lex_parse_identifier` and of `_lex_parse_string`
  unfoldable pub intern_token : LexState P → ℕ → List ℕ → Place → Run (LexState P)
  intern_token s token buffer place = intern s.string_pool buffer >>= λ r.
      ok (record { place = place; string_pool = r.0; peaking_token = token; peaking_value = r.1 })

  unfoldable pub lex_parse_identifier : LexState P → Run (LexState P)
  lex_parse_identifier s =
      let (buffer, place) = identifier_loop [] s.place.line s.place.column s.place.current in
      intern_token s tok_id buffer place

  unfoldable pub lex_parse_string : LexState P → ℕ → List ℕ → Run (LexState P)
  lex_parse_string s start cs = string_loop start [] s.place.line (s.place.column + 1) cs >>= λ r.
      intern_token s tok_string (r.0) r.1

  -- after the space, by the first character
  unfoldable pub dispatch : LexState P → List ℕ → Run (Bool × LexState P)
  dispatch s [] = ok (false, plain s tok_eof s.place)
  dispatch s (c ∷ cs) =
      if is_digit c
      then ok (false, lex_parse_number s)
      else (if is_alpha c
          then (lex_parse_identifier s >>= λ r. ok (false, r))
          else (if c == double_quote || c == single_quote
              then (lex_parse_string s c cs >>= λ r. ok (false, r))
              else (if c == b'/' then ok (lex_slash s cs) else ok (false, lex_operator s c cs))))

  -- one round of the loop of `_lex_peak`
  unfoldable pub lex_round : LexState P → Run (Bool × LexState P)
  lex_round s =
      let place = skip_space s.place.line s.place.column s.place.current in
      dispatch (record s { place = place }) place.current

  unfoldable pub peak_loop : ℕ → LexState P → Run (LexState P)
  peak_loop zero s = forever
  peak_loop (suc fuel) s = lex_round s >>= λ r. if r.0 then peak_loop fuel r.1 else ok r.1

  -- Every round but the last takes a character or more.
  unfoldable pub lex_peak : LexState P → Run (ℕ × LexState P)
  lex_peak s =
      let peak = peak_loop (suc (length s.place.current)) s >>= λ r. ok (r.peaking_token, r) in
      if s.peaking_token == 0 then peak else ok (s.peaking_token, s)

  unfoldable pub lex_next : LexState P → Run (ℕ × LexState P)
  lex_next s =
      let take = λ (r : LexState P). ok (r.peaking_token, record r { peaking_token = 0 }) in
      if s.peaking_token == 0 then (lex_peak s >>= λ r. take r.1) else take s
