-- ===== src/Lex/Lines.antt =====
-- Where the loops of the lexer of src/parse.c leave the text: the lines that are counted and the newlines
-- that are left make up a constant sum, and what is left gets no longer.
use cript.Lex.Chars.{is_digit, is_space, is_identifier, newline}
use cript.Lex.{
  Place, at_place, number_loop, identifier_loop, block_comment_loop, line_comment_loop, skip_space,
}
use cript.StringPool.{max_short_string_length}
use cript.Prelude.{
  ℕ, ◌+◌, ◌-◌, ◌≤◌, ◌≡◌, refl, true, false, ◌==◌, ltb, if◌then◌else◌, List, [], ◌∷◌, ◌++◌, length,
  arith, inl, inr, Bool-cases, by_test,
}
use cript.Word.{add, mul}

unfoldable pub newlines : List ℕ → ℕ
newlines [] = 0
newlines (c ∷ cs) = (if c == newline then 1 else 0) + newlines cs

-- From line `line` before `text` the lexer has come to `place`.
pub record IsAhead (line : ℕ) (text : List ℕ) (place : Place) : Type 0 where
  pub lines : place.line + newlines place.current ≡ line + newlines text
  pub shorter : length place.current ≤ length text

here : (line column : ℕ) (cs : List ℕ) → IsAhead line cs (at_place line column cs)
here line column cs = record { lines = refl; shorter = omega arith }

-- a character that is no newline
over :
    (line c : ℕ) (cs : List ℕ) (p : Place)
    → (c == newline) ≡ false
    → IsAhead line cs p
    → IsAhead line (c ∷ cs) p
unfolding newlines
over line c cs p ne a = record {
  lines = ground (arith, a.lines, ne);
  shorter = omega (arith, a.shorter);
}

over_newline :
    (line c : ℕ) (cs : List ℕ) (p : Place)
    → (c == newline) ≡ true
    → IsAhead (line + 1) cs p
    → IsAhead line (c ∷ cs) p
unfolding newlines
over_newline line c cs p e a = record {
  lines = ground (arith, a.lines, e);
  shorter = omega (arith, a.shorter);
}

pub skip_space-IsAhead :
    (line column : ℕ) (cs : List ℕ) → IsAhead line cs (skip_space line column cs)
unfolding skip_space
skip_space-IsAhead line column [] = here line column []
skip_space-IsAhead line column (c ∷ cs) =
    by_test (IsAhead line (c ∷ cs)) (is_space c)
      (λ _. elim (Bool-cases (c == newline)) [
        | inl e ↦ rw e (over_newline line c cs _ e (skip_space-IsAhead (line + 1) 0 cs))
        | inr e ↦ rw e (over line c cs _ e (skip_space-IsAhead line (column + 1) cs))
      ])
      (λ _. here line column (c ∷ cs))

pub line_comment_loop-IsAhead :
    (line column : ℕ) (cs : List ℕ) → IsAhead line cs (line_comment_loop line column cs)
unfolding line_comment_loop
line_comment_loop-IsAhead line column [] = here line column []
line_comment_loop-IsAhead line column (c ∷ cs) =
    by_test (IsAhead line (c ∷ cs)) (c == newline)
      (λ e. over_newline line c cs _ e (here (line + 1) 0 cs))
      (λ e. over line c cs _ e (line_comment_loop-IsAhead line (column + 1) cs))

star_lem : (c : ℕ) → (c == b'*') ≡ true → (c == newline) ≡ false
star_lem c h = ground arith

slash_lem : (c : ℕ) → (c == b'/') ≡ true → (c == newline) ≡ false
slash_lem c h = ground arith

pub block_comment_loop-IsAhead :
    (line column : ℕ) (cs : List ℕ) → IsAhead line cs (block_comment_loop line column cs)
unfolding block_comment_loop
block_comment_loop-IsAhead line column [] = here line column []
block_comment_loop-IsAhead line column (c ∷ []) =
    by_test (IsAhead line (c ∷ [])) (c == b'*') (λ _. here line column (c ∷ []))
      (λ _.
        by_test (IsAhead line (c ∷ [])) (c == newline)
          (λ e. over_newline line c [] _ e (here (line + 1) 0 []))
          (λ e. over line c [] _ e (here line (column + 1) [])))
block_comment_loop-IsAhead line column (c ∷ d ∷ cs) =
    let go_on = λ (e : (c == newline) ≡ false).
      over line c (d ∷ cs) _ e (block_comment_loop-IsAhead line (column + 1) (d ∷ cs)) in
    by_test (IsAhead line (c ∷ d ∷ cs)) (c == b'*')
      (λ star.
        by_test (IsAhead line (c ∷ d ∷ cs)) (d == b'/')
          (λ slash.
            over line c (d ∷ cs) _ (star_lem c star)
              (over line d cs _ (slash_lem d slash) (here line (column + 2) cs)))
          (λ _. go_on (star_lem c star)))
      (λ _.
        by_test (IsAhead line (c ∷ d ∷ cs)) (c == newline)
          (λ e. over_newline line c (d ∷ cs) _ e (block_comment_loop-IsAhead (line + 1) 0 (d ∷ cs)))
          go_on)

digit_lem : (c : ℕ) → is_digit c ≡ true → (c == newline) ≡ false
digit_lem c h = ground arith

identifier_lem : (c : ℕ) → is_identifier c ≡ true → (c == newline) ≡ false
identifier_lem c h = ground arith

pub number_loop-IsAhead :
    (value line column : ℕ) (cs : List ℕ) → IsAhead line cs (number_loop value line column cs).1
unfolding number_loop
number_loop-IsAhead value line column [] = here line column []
number_loop-IsAhead value line column (c ∷ cs) =
    by_test (λ (r : ℕ × Place). IsAhead line (c ∷ cs) r.1) (is_digit c)
      (λ e.
        over line c cs _ (digit_lem c e)
          (number_loop-IsAhead (add (mul value 10) (c - b'0')) line (column + 1) cs))
      (λ _. here line column (c ∷ cs))

pub identifier_loop-IsAhead :
    (buffer : List ℕ) (line column : ℕ) (cs : List ℕ)
    → IsAhead line cs (identifier_loop buffer line column cs).1
unfolding identifier_loop
identifier_loop-IsAhead buffer line column [] = here line column []
identifier_loop-IsAhead buffer line column (c ∷ cs) =
    let buffer' =
      if ltb (length buffer) max_short_string_length then buffer ++ c ∷ [] else buffer in
    by_test (λ (r : List ℕ × Place). IsAhead line (c ∷ cs) r.1) (is_identifier c)
      (λ e.
        over line c cs _ (identifier_lem c e)
          (identifier_loop-IsAhead buffer' line (column + 1) cs))
      (λ _. here line column (c ∷ cs))
