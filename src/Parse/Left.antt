-- ===== src/Parse/Left.antt =====
-- How many tokens are left after the lexer of src/parse.c has read one.
use cript.Lex.Forward.{lex_peak-IsStep, lex_peak-kept}
use cript.Lex.Peak.{lex_peak, lex_next}
use cript.Lex.Progress.{IsStep, Ends-weaken}
use cript.Lex.{LexState, tok_eof}
use cript.Parse.{tokens_left}
use cript.Prelude.Run.{Run, Ends, Ends->>=}
use cript.Prelude.{
  ℕ, ◌<◌, ◌≤◌, ◌≡◌, ◌≢◌, refl, sym, subst, Bool, true, false, ◌==◌, ◌||◌, List, length, arith,
  by_test,
}

pub by_bool : {G : Type 0} (b : Bool) → (b ≡ true → G) → (b ≡ false → G) → G
by_bool true h k = h refl
by_bool false h k = k refl

-- `intern` keeps the pool fine.
module _ {P : Type 0} (intern : P → List ℕ → Run (P × ℕ)) (Fine : P → Type 0)
    (interns : (p : P) (v : List ℕ) → Fine p → Ends (intern p v) (λ r. Fine r.0)) where
  -- what is left after a token is read ahead
  tokens_after :
      (s r : LexState P)
      → (s.peaking_token == 0) ≡ true
      → IsStep s r
      → tokens_left r ≤ tokens_left s
  unfolding tokens_left
  tokens_after s r e step = rw e (
      by_test (λ n. n ≤ length s.place.current) (r.peaking_token == 0 || r.peaking_token == tok_eof)
        (λ _. step.shorter) (λ no. step.strict (λ h. ground (arith, h, no))))

  -- a token that has been read ahead is taken
  tokens_taken :
      (s : LexState P) → tokens_left (record s { peaking_token = 0 }) ≡ length s.place.current
  unfolding tokens_left
  tokens_taken s = refl

  tokens_ahead : (s : LexState P) → length s.place.current ≤ tokens_left s
  unfolding tokens_left
  tokens_ahead s =
      by_test (λ n. length s.place.current ≤ n) (s.peaking_token == 0 || s.peaking_token == tok_eof)
        (λ _. omega arith) (λ _. omega arith)

  tokens_suc :
      (s : LexState P)
      → (s.peaking_token == 0) ≡ false
      → s.peaking_token ≢ tok_eof
      → length s.place.current < tokens_left s
  unfolding tokens_left
  tokens_suc s e ne =
      by_test (λ n. length s.place.current < n) (s.peaking_token == 0 || s.peaking_token == tok_eof)
        (λ h. absurd (ne (ground (arith, e, h)))) (λ _. omega arith)

  tokens_empty :
      (s : LexState P) → (s.peaking_token == 0) ≡ true → tokens_left s ≡ length s.place.current
  unfolding tokens_left
  tokens_empty s e = rw e refl

  abbrev pub Peaked : LexState P → ℕ × LexState P → Type 0
  Peaked s r = Fine r.1.string_pool × (tokens_left r.1 ≤ tokens_left s) × (r.0 ≡ r.1.peaking_token)

  abbrev pub Taken : LexState P → ℕ × LexState P → Type 0
  Taken s r =
      Fine r.1.string_pool
      × (tokens_left r.1 ≤ tokens_left s)
      × (r.0 ≢ tok_eof → tokens_left r.1 < tokens_left s)

  peak-Peaked :
      (s : LexState P)
      → Fine s.string_pool
      → (s.peaking_token == 0) ≡ true
      → Ends (lex_peak intern s) (Peaked s)
  peak-Peaked s fine e =
      Ends-weaken _ (Peaked s) (lex_peak intern s) (λ r q. (q.2, tokens_after s r.1 e q.1, q.0))
        (lex_peak-IsStep intern s.string_pool Fine fine (λ v. interns s.string_pool v fine) s refl
          (ground (arith, e)))

  pub lex_peak-tokens_left :
      (s : LexState P) → Fine s.string_pool → Ends (lex_peak intern s) (Peaked s)
  lex_peak-tokens_left s fine = by_bool (s.peaking_token == 0) (peak-Peaked s fine) (λ e.
      subst (λ m. Ends m (Peaked s)) (sym (lex_peak-kept intern s e)) (fine, omega arith, refl))

  pub lex_next-tokens_left :
      (s : LexState P) → Fine s.string_pool → Ends (lex_next intern s) (Taken s)
  unfolding lex_next tokens_left
  lex_next-tokens_left s fine =
      by_test (λ (m : Run (ℕ × LexState P)). Ends m (Taken s)) (s.peaking_token == 0)
        (λ e.
          Ends->>= _ (Taken s) (lex_peak intern s) _
            (lex_peak-IsStep intern s.string_pool Fine fine (λ v. interns s.string_pool v fine) s
              refl (ground (arith, e)))
            (λ r q. (
              q.2,
              rw (tokens_empty s e) q.1.shorter,
              λ ne. rw (tokens_empty s e) (q.1.strict ne),
            )))
        (λ e. (fine, tokens_ahead s, tokens_suc s e))

  -- a token that was read ahead
  pub lex_next-ahead :
      (s : LexState P) (t : ℕ)
      → Fine s.string_pool
      → s.peaking_token ≡ t
      → (t == 0) ≡ false
      → (t == tok_eof) ≡ false
      → Ends (lex_next intern s) (λ r. Fine r.1.string_pool × (tokens_left r.1 < tokens_left s))
  unfolding lex_next
  lex_next-ahead s t fine at e ne =
      by_test
        (λ (m : Run (ℕ × LexState P)).
          Ends m (λ r. Fine r.1.string_pool × (tokens_left r.1 < tokens_left s)))
        (s.peaking_token == 0) (λ h. absurd (ground (arith, at, e, h)))
        (λ h. (fine, rw (tokens_taken s) (tokens_suc s h (λ eof. ground (arith, at, ne, eof)))))
