-- ===== src/Lex/Forward.antt =====
-- `_lex_peak` of src/parse.c ends, goes forward in the text, and counts its lines.
use cript.Lex.Chars.{is_digit, is_alpha, is_space, is_identifier, double_quote, single_quote}
use cript.Lex.Lines.{skip_space-IsAhead, identifier_loop-IsAhead}
use cript.Lex.Peak.{
  plain, lex_parse_number, lex_operator, intern_token, found, lex_parse_identifier,
  lex_parse_string, dispatch, lex_round, peak_loop, lex_peak, lex_next,
}
use cript.Lex.{tok_id, tok_string, Place, LexState, identifier_loop, skip_space}
use cript.Prelude.Run.{Run, ok, ◌>>=◌, Ends, Ends->>=, >>=-eq-ok, ok_injective}
use cript.Prelude.{
  ap, subst, ℕ, zero, suc, ◌+◌, ◌<◌, ◌≡◌, ◌≢◌, refl, sym, Bool, true, false, ◌==◌, List, [], ◌∷◌,
  length, arith, by_test, ◌||◌, ◌∙◌,
}
use cript.Lex.Progress.{
  IsStep, ahead-IsStep, Left, string_loop-Left, lex_slash-IsStep, lex_slash-again,
  lex_slash-string_pool, lex_operator-string_pool, lex_operator-IsStep, lex_parse_number-IsStep,
  slash_text, skip_space_head, not_newline, Ends-weaken, after_space, after_round, zero≢eof,
  false≢true,
}

-- `pool` is what has been interned before; `Fine` holds of it, and of what `intern` makes of it.
module _ {P : Type 0} (intern : P → List ℕ → Run (P × ℕ)) (pool : P) (Fine : P → Type 0)
    (fine : Fine pool) (interns : (v : List ℕ) → Ends (intern pool v) (λ r. Fine r.0)) where
  -- a step, after which the pool is fine
  abbrev StepOf : LexState P → LexState P → Type 0
  StepOf s r = IsStep s r × Fine r.string_pool

  -- a round that is not the last leaves no token behind, and the pool as it was
  abbrev RoundOf : LexState P → Bool × LexState P → Type 0
  RoundOf s r =
      StepOf s r.1
      × (r.0 ≡ true → (r.1.peaking_token ≡ s.peaking_token) × (r.1.string_pool ≡ s.string_pool))

  last : (s r : LexState P) → StepOf s r → RoundOf s (false, r)
  last s r step = (step, λ h. absurd (false≢true h))

  same_pool :
      (s r : LexState P)
      → s.string_pool ≡ pool
      → r.string_pool ≡ s.string_pool
      → IsStep s r
      → StepOf s r
  same_pool s r old same step = (step, subst Fine (sym (same ∙ old)) fine)

  intern_token-Ends :
      (s : LexState P) (token : ℕ) (buffer : List ℕ) (place : Place) (Q : LexState P → Type 0)
      → s.string_pool ≡ pool
      → ((q : P) (value : ℕ)
          → Fine q
          → Q (record {
            place = place;
            string_pool = q;
            peaking_token = token;
            peaking_value = value;
          }))
      → Ends (intern_token intern s token buffer place) Q
  unfolding intern_token
  intern_token-Ends s token buffer place Q old h =
      Ends->>= (λ r. Fine r.0) Q (intern s.string_pool buffer) _
        (subst (λ p. Ends (intern p buffer) (λ r. Fine r.0)) (sym old) (interns buffer))
        (λ r f. h r.0 r.1 f)

  lex_parse_identifier-Ends :
      (s : LexState P) (c : ℕ) (cs : List ℕ)
      → s.string_pool ≡ pool
      → s.place.current ≡ c ∷ cs
      → is_alpha c ≡ true
      → Ends (lex_parse_identifier intern s) (StepOf s)
  unfolding lex_parse_identifier identifier_loop
  lex_parse_identifier-Ends s c cs old e alpha =
      let id : is_identifier c ≡ true = ground (arith, alpha) in
      intern_token-Ends s tok_id _ _ (StepOf s) old (λ q value f. (
        ahead-IsStep s _ c cs e (ground (arith, alpha))
            (rw (e, id) (identifier_loop-IsAhead (c ∷ []) s.place.line (s.place.column + 1) cs)),
        f,
      ))

  string-IsStep :
      (s r : LexState P) (c : ℕ) (cs : List ℕ)
      → s.place.current ≡ c ∷ cs
      → r.peaking_token ≡ tok_string
      → length r.place.current < length cs
      → IsStep s r
  string-IsStep s r c cs e token lt = record {
    lines = λ ne. absurd (ne token);
    shorter = rw e (omega (arith, lt));
    strict = λ _. rw e (omega (arith, lt));
  }

  lex_parse_string-Ends :
      (s : LexState P) (c : ℕ) (cs : List ℕ)
      → s.string_pool ≡ pool
      → s.place.current ≡ c ∷ cs
      → Ends (lex_parse_string intern s c cs) (StepOf s)
  unfolding lex_parse_string
  lex_parse_string-Ends s c cs old e =
      Ends->>= (Left cs) (StepOf s) _ _ (string_loop-Left c [] s.place.line (s.place.column + 1) cs)
        (λ r lt.
          intern_token-Ends s tok_string _ _ (StepOf s) old
            (λ q value f. (string-IsStep s _ c cs e refl lt, f)))

  lex_parse_number-string_pool : (s : LexState P) → (lex_parse_number s).string_pool ≡ s.string_pool
  unfolding lex_parse_number found
  lex_parse_number-string_pool s = refl

  dispatch-Ends :
      (s : LexState P) (text : List ℕ)
      → s.string_pool ≡ pool
      → s.place.current ≡ text
      → ((c : ℕ) (cs : List ℕ) → text ≡ c ∷ cs → is_space c ≡ false)
      → Ends (dispatch intern s text) (RoundOf s)
  unfolding dispatch plain
  dispatch-Ends s [] old e head = last s _ (
      same_pool s _ old refl
        (record { lines = λ _. refl; shorter = omega arith; strict = λ ne. absurd (ne refl) }))
  dispatch-Ends s (c ∷ cs) old e head =
      let Q = λ (m : Run (Bool × LexState P)). Ends m (RoundOf s) in
      by_test Q (is_digit c)
        (λ digit. last s (lex_parse_number s) (
          same_pool s _ old (lex_parse_number-string_pool s)
            (lex_parse_number-IsStep s c cs e digit)))
        (λ _.
          by_test Q (is_alpha c)
            (λ alpha.
              Ends->>= (StepOf s) (RoundOf s) _ _ (lex_parse_identifier-Ends s c cs old e alpha)
                (last s))
            (λ _.
              by_test Q (c == double_quote || c == single_quote)
                (λ _.
                  Ends->>= (StepOf s) (RoundOf s) _ _ (lex_parse_string-Ends s c cs old e) (last s))
                (λ _.
                  by_test Q (c == b'/')
                    (λ slash.
                      let step = lex_slash-IsStep s cs (slash_text s.place.current c cs e slash) in
                      let kept = lex_slash-string_pool s cs in
                      (same_pool s _ old kept step, λ again. (lex_slash-again s cs again, kept)))
                    (λ _. last s (lex_operator s c cs) (
                      same_pool s _ old (lex_operator-string_pool s c cs)
                        (lex_operator-IsStep s c cs e (not_newline c (head c cs refl))))))))

  lex_round-Ends : (s : LexState P) → s.string_pool ≡ pool → Ends (lex_round intern s) (RoundOf s)
  unfolding lex_round
  lex_round-Ends s old =
      let place = skip_space s.place.line s.place.column s.place.current in
      let s' : LexState P = record s { place = place } in
      let ahead = skip_space-IsAhead s.place.line s.place.column s.place.current in
      Ends-weaken (RoundOf s') (RoundOf s) _
        (λ r round. ((after_space s s' r.1 ahead round.0.0, round.0.1), round.1))
        (dispatch-Ends s' place.current old refl
          (skip_space_head s.place.line s.place.column s.place.current))

  peak_loop-Ends :
      (fuel : ℕ) (s : LexState P)
      → length s.place.current < fuel
      → s.string_pool ≡ pool
      → s.peaking_token ≡ 0
      → Ends (peak_loop intern fuel s) (StepOf s)
  unfolding peak_loop
  peak_loop-Ends zero s lt old e = absurd (omega arith)
  peak_loop-Ends (suc fuel) s lt old e =
      Ends->>= (RoundOf s) (StepOf s) _ _ (lex_round-Ends s old) (λ r round.
        by_test (λ (m : Run (LexState P)). Ends m (StepOf s)) r.0
          (λ again.
            let zero_token : r.1.peaking_token ≡ 0 = (round.1 again).0 ∙ e in
            Ends-weaken (StepOf r.1) (StepOf s) _
              (λ t step. (after_round s r.1 t round.0.0 zero_token step.0, step.1))
              (peak_loop-Ends fuel r.1
                (let lt' = round.0.0.strict (rw zero_token zero≢eof) in omega (arith, lt, lt'))
                ((round.1 again).1 ∙ old) zero_token))
          (λ _. round.0))

  -- When `intern` ends on the pool and every string, and no token has been read ahead, `lex_peak` does not loop
  -- for ever: it traps, reads behind the end of the text, or returns the token of the state that it leaves. In
  -- that state the text has become no longer, and shorter unless the token is the end of the file. Unless the
  -- token is a string, the line has gone up by the number of newlines that were passed. What holds of the
  -- pool, and of every pool that `intern` makes of it, holds of the pool that is left.
  pub lex_peak-IsStep :
      (s : LexState P)
      → s.string_pool ≡ pool
      → s.peaking_token ≡ 0
      → Ends
          (lex_peak intern s)
          (λ r. (r.0 ≡ r.1.peaking_token) × IsStep s r.1 × Fine r.1.string_pool)
  unfolding lex_peak
  lex_peak-IsStep s old e =
      let Q =
        λ (r : ℕ × LexState P). (r.0 ≡ r.1.peaking_token) × IsStep s r.1 × Fine r.1.string_pool in
      by_test (λ (m : Run (ℕ × LexState P)). Ends m Q) (s.peaking_token == 0)
        (λ _.
          Ends->>= (StepOf s) Q _ _
            (peak_loop-Ends (suc (length s.place.current)) s (omega arith) old e)
            (λ r step. (refl, step.0, step.1)))
        (λ ne. absurd (ground (arith, e, ne)))

-- `lex_peak` returns the token that it leaves in the state.
lex_peak-token :
    {P : Type 0} (intern : P → List ℕ → Run (P × ℕ)) (s r : LexState P) (t : ℕ)
    → lex_peak intern s ≡ ok (t, r)
    → t ≡ r.peaking_token
unfolding lex_peak
lex_peak-token {P} intern s r t =
    by_test (λ (m : Run (ℕ × LexState P)). m ≡ ok (t, r) → t ≡ r.peaking_token)
      (s.peaking_token == 0)
      (λ _ h.
        let (q, _, e) = >>=-eq-ok (peak_loop intern (suc (length s.place.current)) s) _ h in
        token_lem q r t (ok_injective e))
      (λ _ h. token_lem s r t (ok_injective h))
  where
    token_lem :
        (q r : LexState P) (t : ℕ)
        → ◌≡◌ {A = ℕ × LexState P} (q.peaking_token, q) (t, r)
        → t ≡ r.peaking_token
    token_lem q r t e =
        ap (λ (x : ℕ × LexState P). x.0) (sym e) ∙ ap (λ (x : ℕ × LexState P). x.1.peaking_token) e

-- A token that has been read ahead stays.
pub lex_peak-kept :
    {P : Type 0} (intern : P → List ℕ → Run (P × ℕ)) (s : LexState P)
    → (s.peaking_token == 0) ≡ false
    → lex_peak intern s ≡ ok (s.peaking_token, s)
unfolding lex_peak
lex_peak-kept intern s ne = rw ne refl

pub lex_next-take :
    {P : Type 0} (intern : P → List ℕ → Run (P × ℕ)) (s r : LexState P) (t : ℕ)
    → lex_peak intern s ≡ ok (t, r)
    → lex_next intern s ≡ ok (r.peaking_token, record r { peaking_token = 0 })
unfolding lex_next
lex_next-take {P} intern s r t h =
    by_test (λ (m : Run (ℕ × LexState P)). m ≡ ok (r.peaking_token, record r { peaking_token = 0 }))
      (s.peaking_token == 0)
      (λ _.
        ap
          (λ (m : Run (ℕ × LexState P)).
            m >>= (λ x. ok (x.1.peaking_token, record x.1 { peaking_token = 0 })))
          h)
      (λ ne.
        ap (λ (x : ℕ × LexState P). ok (x.1.peaking_token, record x.1 { peaking_token = 0 }))
          (ok_injective (sym (lex_peak-kept intern s ne) ∙ h)))

-- When `lex_peak` returns a token, `lex_next` at the same state returns that token and the same state with no
-- token read ahead; and, unless the token is 0, a second `lex_peak` returns it again and changes nothing.
pub lex_peak-lex_next :
    {P : Type 0} (intern : P → List ℕ → Run (P × ℕ)) (s r : LexState P) (t : ℕ)
    → lex_peak intern s ≡ ok (t, r)
    → (lex_next intern s ≡ ok (t, record r { peaking_token = 0 }))
      × (t ≢ 0 → lex_peak intern r ≡ ok (t, r))
lex_peak-lex_next {P} intern s r t h =
    let e = lex_peak-token intern s r t h in
    (
      lex_next-take intern s r t h ∙ ap (λ n. ok (n, record r { peaking_token = 0 })) (sym e),
      λ ne. lex_peak-kept intern r (ground (arith, ne, e)) ∙ ap (λ n. ok (n, r)) (sym e),
    )
