-- ===== src/Lex/Strings.antt =====
-- `_lex_parse_string` of src/parse.c on a literal without escapes.
use cript.Lex.Chars.{newline, backslash}
use cript.Lex.{Place, at_place, buffer_push, string_loop}
use cript.StringPool.{max_short_string_length}
use cript.Prelude.Run.{Run, ok}
use cript.Prelude.{
  ℕ, ◌+◌, ◌<◌, ◌≡◌, refl, ap, ◌∙◌, Bool, true, false, not, ◌&&◌, ◌==◌, List, [], ◌∷◌, ◌++◌, length,
  length-append, arith,
}

-- a character that stands for itself between quotes `start`
abbrev pub is_plain : ℕ → ℕ → Bool
is_plain start c = not (c == start) && (not (c == newline) && not (c == backslash))

unfoldable pub all_plain : ℕ → List ℕ → Bool
all_plain start [] = true
all_plain start (c ∷ cs) = is_plain start c && all_plain start cs

append_one : (xs : List ℕ) (y : ℕ) (zs : List ℕ) → (xs ++ y ∷ []) ++ zs ≡ xs ++ y ∷ zs
append_one [] y zs = refl
append_one (x ∷ xs) y zs = ap (λ t. x ∷ t) (append_one xs y zs)

append_nil : (xs : List ℕ) → xs ≡ xs ++ []
append_nil [] = refl
append_nil (x ∷ xs) = ap (λ t. x ∷ t) (append_nil xs)

read_lem :
    (b b' : List ℕ) (line n n' : ℕ) (rest : List ℕ)
    → b ≡ b'
    → n ≡ n'
    → ◌≡◌ {A = Run (List ℕ × Place)} (ok (b, at_place line n rest)) (ok (b', at_place line n' rest))
read_lem b b' line n n' rest e f =
    ap (λ x. ok (x, at_place line n rest)) e ∙ ap (λ x. ok (b', at_place line x rest)) f

plain_lem :
    (start c : ℕ)
    → is_plain start c ≡ true
    → ((c == start) ≡ false) × ((c == newline) ≡ false) × ((c == backslash) ≡ false)
plain_lem start c h = ground (arith, h)

split_lem : (a b : Bool) → (a && b) ≡ true → (a ≡ true) × (b ≡ true)
split_lem true b h = (refl, h)
split_lem false b h = cc

same_lem : (c : ℕ) → (c == c) ≡ true
same_lem c = ground arith

close_lem :
    (start : ℕ) (buffer : List ℕ) (line column : ℕ) (rest : List ℕ)
    → string_loop start buffer line column (start ∷ rest)
      ≡ ok (buffer, at_place line (column + 1) rest)
unfolding string_loop
close_lem start buffer line column [] = rw (same_lem start) refl
close_lem start buffer line column (d ∷ rest) = rw (same_lem start) refl

push_lem :
    (start : ℕ) (buffer : List ℕ) (line column c d : ℕ) (cs : List ℕ)
    → is_plain start c ≡ true
    → length buffer + 1 < max_short_string_length
    → string_loop start buffer line column (c ∷ d ∷ cs)
      ≡ string_loop start (buffer ++ c ∷ []) line (column + 1) (d ∷ cs)
unfolding string_loop buffer_push
push_lem start buffer line column c d cs plain room =
    let (a, b, e) = plain_lem start c plain in
    let fits : (length buffer + 1 == max_short_string_length) ≡ false = ground (arith, room) in
    rw (a, b, e, fits) refl

body_lem :
    (start : ℕ) (body buffer rest : List ℕ) (line column : ℕ)
    → all_plain start body ≡ true
    → length buffer + length body < max_short_string_length
    → string_loop start buffer line column (body ++ start ∷ rest)
      ≡ ok (buffer ++ body, at_place line (column + length body + 1) rest)
unfolding all_plain
body_lem start [] buffer rest line column plain room =
    close_lem start buffer line column rest
    ∙ read_lem _ _ line _ _ rest (append_nil buffer) (omega arith)
body_lem start (c ∷ []) buffer rest line column plain room =
    let (one, more) = split_lem (is_plain start c) true plain in
    push_lem start buffer line column c start rest one (omega arith)
    ∙ close_lem start (buffer ++ c ∷ []) line (column + 1) rest
    ∙ ap (λ n. ok (buffer ++ c ∷ [], at_place line n rest)) (omega arith)
body_lem start (c ∷ d ∷ cs) buffer rest line column plain room =
    let (one, more) = split_lem (is_plain start c) (all_plain start (d ∷ cs)) plain in
    push_lem start buffer line column c d (cs ++ start ∷ rest) one (omega arith)
    ∙ body_lem start (d ∷ cs) (buffer ++ c ∷ []) rest line (column + 1) more
        (omega (arith, length-append buffer (c ∷ [])))
    ∙ read_lem _ _ line _ _ rest (append_one buffer c (d ∷ cs)) (omega arith)

-- On fewer than 256 characters with no newline, no backslash and no closing quote among them, followed by
-- the closing quote, the loop of `_lex_parse_string` returns these characters, and stops behind the quote on
-- the same line.
pub string_loop-plain :
    (start : ℕ) (body rest : List ℕ) (line column : ℕ)
    → all_plain start body ≡ true
    → length body < max_short_string_length
    → string_loop start [] line column (body ++ start ∷ rest)
      ≡ ok (body, at_place line (column + length body + 1) rest)
string_loop-plain start body rest line column plain room =
    body_lem start body [] rest line column plain (omega (arith, room))
