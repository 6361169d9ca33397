-- ===== src/Lex/Progress.antt =====
-- What one token, or one comment, of the lexer of src/parse.c does to the place in the text.
use cript.Lex.Chars.{is_digit, is_space, newline, backslash}
use cript.Lex.Lines.{
  newlines, IsAhead, number_loop-IsAhead, block_comment_loop-IsAhead, line_comment_loop-IsAhead,
}
use cript.Lex.Peak.{
  found, plain, lex_parse_number, lex_parse_block_comment, lex_parse_line_comment, double_token,
  one_char, lex_operator, lex_slash,
}
use cript.Lex.{
  tok_eof, tok_string, Place, LexState, at_place, number_loop, string_loop, skip_space, buffer_push,
}
use cript.StringPool.{max_short_string_length}
use cript.Prelude.Run.{Run, ok, trap, forever, wild, ◌>>=◌, Ends}
use cript.Prelude.{
  ℕ, ◌+◌, ◌-◌, ◌≤◌, ◌<◌, ◌≡◌, ◌≢◌, refl, sym, Bool, true, false, ◌==◌, if◌then◌else◌, List, [], ◌∷◌,
  ◌++◌, length, arith, by_test, ◌∙◌,
}
use cript.Word.{add, mul}

-- What reading a token, or skipping a comment, does to a state.
pub record IsStep {P : Type 0} (s r : LexState P) : Type 0 where
  pub lines :
      r.peaking_token ≢ tok_string
      → r.place.line + newlines r.place.current ≡ s.place.line + newlines s.place.current
  pub shorter : length r.place.current ≤ length s.place.current
  pub strict : r.peaking_token ≢ tok_eof → length r.place.current < length s.place.current

-- what is left of a string is shorter than its text
abbrev pub Left : List ℕ → List ℕ × Place → Type 0
Left text r = length r.1.current < length text

buffer_push_lem :
    (buffer : List ℕ) (c : ℕ) (k : List ℕ → Run (List ℕ × Place)) (text rest : List ℕ)
    → length rest ≤ length text
    → ((b : List ℕ) → Ends (k b) (Left rest))
    → Ends (buffer_push buffer c >>= k) (Left text)
unfolding buffer_push
buffer_push_lem buffer c k text rest h e =
    by_test (λ (m : Run (List ℕ)). Ends (m >>= k) (Left text))
      (length buffer + 1 == max_short_string_length) (λ _. tt)
      (λ _. weaken (k (buffer ++ c ∷ [])) (e (buffer ++ c ∷ [])))
  where
    weaken : (m : Run (List ℕ × Place)) → Ends m (Left rest) → Ends m (Left text)
    weaken (ok r) p = omega (arith, p, h)
    weaken trap p = tt
    weaken forever p = absurd p
    weaken wild p = tt

pub string_loop-Left :
    (start : ℕ) (buffer : List ℕ) (line column : ℕ) (cs : List ℕ)
    → Ends (string_loop start buffer line column cs) (Left cs)
unfolding string_loop
string_loop-Left start buffer line column [] = tt
string_loop-Left start buffer line column (c ∷ []) =
    let P = λ (m : Run (List ℕ × Place)). Ends m (Left (c ∷ [])) in
    by_test P (c == start) (λ _. omega arith)
      (λ _.
        by_test P (c == backslash)
          (λ _. buffer_push_lem buffer 0 (λ _. wild) (c ∷ []) [] (omega arith) (λ _. tt))
          (λ _. buffer_push_lem buffer c (λ _. trap) (c ∷ []) [] (omega arith) (λ _. tt)))
string_loop-Left start buffer line column (c ∷ d ∷ cs) =
    let P = λ (m : Run (List ℕ × Place)). Ends m (Left (c ∷ d ∷ cs)) in
    by_test P (c == start) (λ _. omega arith)
      (λ _.
        by_test P (c == newline)
          (λ _.
            buffer_push_lem buffer c _ (c ∷ d ∷ cs) (d ∷ cs) (omega arith)
              (λ b. string_loop-Left start b (line + 1) 0 (d ∷ cs)))
          (λ _.
            by_test P (c == backslash)
              (λ _.
                buffer_push_lem buffer d _ (c ∷ d ∷ cs) cs (omega arith)
                  (λ b. string_loop-Left start b line (column + 2) cs))
              (λ _.
                buffer_push_lem buffer c _ (c ∷ d ∷ cs) (d ∷ cs) (omega arith)
                  (λ b. string_loop-Left start b line (column + 1) (d ∷ cs)))))

pub ahead-IsStep :
    {P : Type 0} (s r : LexState P) (c : ℕ) (cs : List ℕ)
    → s.place.current ≡ c ∷ cs
    → (c == newline) ≡ false
    → IsAhead s.place.line cs r.place
    → IsStep s r
unfolding newlines
ahead-IsStep s r c cs e ne a = record {
  lines = λ _. rw e (ground (arith, a.lines, ne));
  shorter = rw e (omega (arith, a.shorter));
  strict = λ _. rw e (omega (arith, a.shorter));
}

-- the text after one character that is no newline, and after two
one_more : (line column c : ℕ) (cs : List ℕ) → IsAhead line cs (at_place line column cs)
one_more line column c cs = record { lines = refl; shorter = omega arith }

two_more :
    (line column d : ℕ) (cs : List ℕ)
    → (d == newline) ≡ false
    → IsAhead line (d ∷ cs) (at_place line column cs)
unfolding newlines
two_more line column d cs ne = record { lines = ground (arith, ne); shorter = omega arith }

wider :
    (line d : ℕ) (cs : List ℕ) (p : Place)
    → (d == newline) ≡ false
    → IsAhead line cs p
    → IsAhead line (d ∷ cs) p
unfolding newlines
wider line d cs p ne a = record {
  lines = ground (arith, a.lines, ne);
  shorter = omega (arith, a.shorter);
}

double_token_lem :
    (c d : ℕ)
    → (double_token c d == 0) ≡ false
    → ((c == newline) ≡ false) × ((d == newline) ≡ false)
unfolding double_token
double_token_lem c d h = ground arith

pub not_newline : (c : ℕ) → is_space c ≡ false → (c == newline) ≡ false
not_newline c h = ground (arith, h)

pub false≢true : false ≢ true
false≢true = λ h. cc

-- after a comment there is still no token
pub lex_slash-again :
    {P : Type 0} (s : LexState P) (cs : List ℕ)
    → (lex_slash s cs).0 ≡ true
    → (lex_slash s cs).1.peaking_token ≡ s.peaking_token
unfolding lex_slash lex_parse_block_comment lex_parse_line_comment
lex_slash-again s [] = λ h. absurd (false≢true h)
lex_slash-again {P} s (d ∷ cs) =
    let Q = λ (r : Bool × LexState P). (r.0 ≡ true → r.1.peaking_token ≡ s.peaking_token) in
    by_test Q (d == b'*') (λ _ _. refl)
      (λ _. by_test Q (d == b'/') (λ _ _. refl) (λ _ h. absurd (false≢true h)))

-- a slash interns nothing
pub lex_slash-string_pool :
    {P : Type 0} (s : LexState P) (cs : List ℕ) → (lex_slash s cs).1.string_pool ≡ s.string_pool
unfolding lex_slash lex_parse_block_comment lex_parse_line_comment one_char plain
lex_slash-string_pool s [] = refl
lex_slash-string_pool {P} s (d ∷ cs) =
    let Q = λ (r : Bool × LexState P). r.1.string_pool ≡ s.string_pool in
    by_test Q (d == b'*') (λ _. refl) (λ _. by_test Q (d == b'/') (λ _. refl) (λ _. refl))

pub lex_operator-string_pool :
    {P : Type 0} (s : LexState P) (c : ℕ) (cs : List ℕ)
    → (lex_operator s c cs).string_pool ≡ s.string_pool
unfolding lex_operator one_char plain
lex_operator-string_pool s c [] = refl
lex_operator-string_pool {P} s c (d ∷ cs) =
    by_test (λ (r : LexState P). r.string_pool ≡ s.string_pool) (double_token c d == 0) (λ _. refl)
      (λ _. refl)

pub lex_slash-IsStep :
    {P : Type 0} (s : LexState P) (cs : List ℕ)
    → s.place.current ≡ b'/' ∷ cs
    → IsStep s (lex_slash s cs).1
unfolding lex_slash one_char plain lex_parse_block_comment lex_parse_line_comment
lex_slash-IsStep s [] e =
    ahead-IsStep s _ b'/' [] e refl (one_more s.place.line (s.place.column + 1) b'/' [])
lex_slash-IsStep {P} s (d ∷ cs) e =
    let Q = λ (r : Bool × LexState P). IsStep s r.1 in
    by_test Q (d == b'*')
      (λ star. ahead-IsStep s _ b'/' (d ∷ cs) e refl (
        rw e (
          wider s.place.line d cs _ (ground (arith, star))
            (block_comment_loop-IsAhead s.place.line (s.place.column + 2) cs))))
      (λ _.
        by_test Q (d == b'/')
          (λ slash. ahead-IsStep s _ b'/' (d ∷ cs) e refl (
            rw e (
              wider s.place.line d cs _ (ground (arith, slash))
                (line_comment_loop-IsAhead s.place.line (s.place.column + 2) cs))))
          (λ _.
            ahead-IsStep s _ b'/' (d ∷ cs) e refl
              (one_more s.place.line (s.place.column + 1) b'/' (d ∷ cs))))

pub lex_operator-IsStep :
    {P : Type 0} (s : LexState P) (c : ℕ) (cs : List ℕ)
    → s.place.current ≡ c ∷ cs
    → (c == newline) ≡ false
    → IsStep s (lex_operator s c cs)
unfolding lex_operator one_char plain
lex_operator-IsStep s c [] e ne =
    ahead-IsStep s _ c [] e ne (one_more s.place.line (s.place.column + 1) c [])
lex_operator-IsStep s c (d ∷ cs) e ne =
    by_test (IsStep s) (double_token c d == 0)
      (λ _.
        ahead-IsStep s _ c (d ∷ cs) e ne (one_more s.place.line (s.place.column + 1) c (d ∷ cs)))
      (λ h.
        ahead-IsStep s _ c (d ∷ cs) e ne
          (two_more s.place.line (s.place.column + 2) d cs (double_token_lem c d h).1))

pub lex_parse_number-IsStep :
    {P : Type 0} (s : LexState P) (c : ℕ) (cs : List ℕ)
    → s.place.current ≡ c ∷ cs
    → is_digit c ≡ true
    → IsStep s (lex_parse_number s)
unfolding lex_parse_number number_loop found
lex_parse_number-IsStep s c cs e digit = ahead-IsStep s _ c cs e (ground (arith, digit)) (
    rw (e, digit)
      (number_loop-IsAhead (add (mul 0 10) (c - b'0')) s.place.line (s.place.column + 1) cs))

pub slash_text :
    (text : List ℕ) (c : ℕ) (cs : List ℕ) → text ≡ c ∷ cs → (c == b'/') ≡ true → text ≡ b'/' ∷ cs
slash_text text c cs e slash = let p : c ≡ b'/' = ground (arith, slash) in rw (sym p) e

same_head : (d c : ℕ) (ds cs : List ℕ) → d ∷ ds ≡ c ∷ cs → is_space d ≡ false → is_space c ≡ false
same_head d c ds cs e h = let p : d ≡ c = cc in rw (sym p) h

pub skip_space_head :
    (line column : ℕ) (text : List ℕ) (c : ℕ) (cs : List ℕ)
    → (skip_space line column text).current ≡ c ∷ cs
    → is_space c ≡ false
unfolding skip_space
skip_space_head line column [] c cs = λ e. cc
skip_space_head line column (d ∷ ds) c cs =
    by_test (λ (p : Place). p.current ≡ c ∷ cs → is_space c ≡ false) (is_space d)
      (λ _.
        skip_space_head (if d == newline then line + 1 else line)
          (if d == newline then 0 else column + 1) ds c cs)
      (λ h e. same_head d c ds cs e h)

pub Ends-weaken :
    {A : Type 0} (P Q : A → Type 0) (m : Run A) → ((a : A) → P a → Q a) → Ends m P → Ends m Q
Ends-weaken P Q (ok a) f h = f a h
Ends-weaken P Q trap f h = tt
Ends-weaken P Q forever f h = absurd h
Ends-weaken P Q wild f h = tt

-- first the space, then the rest
pub after_space :
    {P : Type 0} (s s' r : LexState P)
    → IsAhead s.place.line s.place.current s'.place
    → IsStep s' r
    → IsStep s r
after_space s s' r a step = record {
  lines = λ ne. step.lines ne ∙ a.lines;
  shorter = omega (arith, step.shorter, a.shorter);
  strict = λ ne. let lt = step.strict ne in omega (arith, lt, a.shorter);
}

pub zero≢eof : 0 ≢ tok_eof
zero≢eof = λ h. cc

zero≢string : 0 ≢ tok_string
zero≢string = λ h. cc

pub after_round :
    {P : Type 0} (s r t : LexState P) → IsStep s r → r.peaking_token ≡ 0 → IsStep r t → IsStep s t
after_round s r t first e next = record {
  lines = λ ne. next.lines ne ∙ first.lines (rw e zero≢string);
  shorter = omega (arith, next.shorter, first.shorter);
  strict = λ ne. let lt = next.strict ne in omega (arith, lt, first.shorter);
}
