-- ===== src/Parse/Tokens.antt =====
-- Rules for the parser of src/parse.c where it reads tokens or interns strings.
use cript.Lex.{tok_eof}
use cript.Parse.Left.{by_bool, lex_peak-tokens_left, lex_next-tokens_left, lex_next-ahead}
use cript.Parse.Rules.{Runs, RunsAt, anywhere, required, Ends-bind}
use cript.Lex.Peak.{lex_peak, lex_next}
use cript.Lex.Progress.{Ends-weaken}
use cript.Ir.{IrBuilder}
use cript.Parse.{
  ParseState, Services, Parser, ◌>>=◌, require, peak, next, insert_str, find_str, lift, tokens_left,
}
use cript.Prelude.Run.{Ends, Ends->>=}
use cript.Prelude.{ℕ, suc, ◌<◌, ◌≤◌, ◌≡◌, ◌≢◌, sym, subst, Bool, false, ◌==◌, List, arith}

-- What the parser needs of the strings and of `destroy` to come to an end
pub record EndsAll {T P : Type 0} (Fine : P → Type 0) (env : Services T P) : Type 0 where
  pub interns : (p : P) (v : List ℕ) → Fine p → Ends (env.intern p v) (λ r. Fine r.0)
  pub finds : (p : P) (v : List ℕ) → Fine p → Ends (env.find p v) (λ _. Unit {0})
  pub destroys : (b : IrBuilder T) → Ends (env.destroy b) (λ _. Unit {0})

module _ {T P : Type 0} (Fine : P → Type 0) (env : Services T P) (all : EndsAll Fine env)
    (s : ParseState T P) (fine : Fine s.lex.string_pool) where
  abbrev Skipped : {A : Type 0} → A × ParseState T P → Type 0
  Skipped r = Fine r.1.lex.string_pool × (tokens_left r.1.lex ≤ tokens_left s.lex)

  next-Ends : Ends (next env s) (λ r.
      Fine r.1.lex.string_pool
      × (tokens_left r.1.lex ≤ tokens_left s.lex)
      × (r.0 ≢ tok_eof → tokens_left r.1.lex < tokens_left s.lex))
  unfolding next
  next-Ends =
      Ends->>= _ _ (lex_next env.intern s.lex) _
        (lex_next-tokens_left env.intern Fine all.interns s.lex fine) (λ r q. q)

  next_ahead-Ends :
      (t : ℕ)
      → s.lex.peaking_token ≡ t
      → (t == 0) ≡ false
      → (t == tok_eof) ≡ false
      → Ends
          (next env s)
          (λ r. Fine r.1.lex.string_pool × (tokens_left r.1.lex < tokens_left s.lex))
  unfolding next
  next_ahead-Ends t at e ne =
      Ends->>= _ _ (lex_next env.intern s.lex) _
        (lex_next-ahead env.intern Fine all.interns s.lex t fine at e ne) (λ r q. q)

  pub peak-Ends : Ends (peak env s) (λ r.
      Fine r.1.lex.string_pool
      × (tokens_left r.1.lex ≤ tokens_left s.lex)
      × (r.0 ≡ r.1.lex.peaking_token))
  unfolding peak
  peak-Ends =
      Ends->>= _ _ (lex_peak env.intern s.lex) _
        (lex_peak-tokens_left env.intern Fine all.interns s.lex fine) (λ r q. q)

  insert_str-Ends : (text : List ℕ) → Ends (insert_str env text s) (Skipped {A = ℕ})
  unfolding insert_str tokens_left
  insert_str-Ends text =
      Ends->>= (λ r. Fine r.0) (Skipped {A = ℕ}) (env.intern s.lex.string_pool text) _
        (all.interns s.lex.string_pool text fine) (λ r q. (q, omega arith))

  find_str-Ends : (text : List ℕ) → Ends (find_str env text s) (Skipped {A = ℕ})
  unfolding find_str lift
  find_str-Ends text =
      Ends->>= (λ _. Unit {0}) (Skipped {A = ℕ}) (env.find s.lex.string_pool text) _
        (all.finds s.lex.string_pool text fine) (λ r q. (fine, omega arith))

module _ {T P : Type 0} {Fine : P → Type 0} {env : Services T P} (all : EndsAll Fine env) where
  pub skip :
      {A : Type 0} {a c : ℕ} {f : ℕ → Parser T P A}
      → ((tok : ℕ) → Runs Fine a c (f tok))
      → Runs Fine a c (next env >>= f)
  skip {f = f} h = record {
    run = λ s fine lt.
        Ends-bind (next env) f _ _ s (next-Ends Fine env all s fine)
          (λ r q. (h r.0).run r.1 q.0 (omega (arith, q.1, lt)));
  }

  pub take :
      {A : Type 0} {a c : ℕ} {f : ℕ → Parser T P A}
      → ((tok : ℕ) → tok ≢ tok_eof → Runs Fine a c (f tok))
      → Runs Fine (suc a) c (f tok_eof)
      → Runs Fine (suc a) c (next env >>= f)
  take {a = a} {c} {f} h k = record {
    run = λ s fine lt. Ends-bind (next env) f _ _ s (next-Ends Fine env all s fine) (λ r q.
        by_bool (r.0 == tok_eof)
          (λ e.
            (subst (λ t. Runs Fine (suc a) c (f t)) (ground (arith, e)) k).run r.1 q.0
              (omega (arith, q.1, lt)))
          (λ ne.
            let no : r.0 ≢ tok_eof = λ e. ground (arith, e, ne) in
            let lt' = q.2 no in (h r.0 no).run r.1 q.0 (omega (arith, lt', lt))));
  }

  pub take_at :
      {A : Type 0} {t a c : ℕ} {f : ℕ → Parser T P A}
      → (t == 0) ≡ false
      → (t == tok_eof) ≡ false
      → ((tok : ℕ) → Runs Fine a c (f tok))
      → RunsAt Fine t (suc a) c (next env >>= f)
  take_at {t = t} {f = f} e ne h = record {
    run = λ s fine at lt.
        Ends-bind (next env) f _ _ s (next_ahead-Ends Fine env all s fine t at e ne)
          (λ r q. (h r.0).run r.1 q.0 (omega (arith, q.1, lt)));
  }

  pub look :
      {A : Type 0} {a c : ℕ} {f : ℕ → Parser T P A}
      → ((tok : ℕ) → RunsAt Fine tok a c (f tok))
      → Runs Fine a c (peak env >>= f)
  look {f = f} h = record {
    run = λ s fine lt.
        Ends-bind (peak env) f _ _ s (peak-Ends Fine env all s fine)
          (λ r q. (h r.0).run r.1 q.0 (sym q.2) (omega (arith, q.1, lt)));
  }

  pub look_past :
      {A : Type 0} {a c : ℕ} {f : ℕ → Parser T P A}
      → ((tok : ℕ) → Runs Fine a c (f tok))
      → Runs Fine a c (peak env >>= f)
  look_past h = look (λ tok. anywhere (h tok))

  pub insert_str-Runs : {a : ℕ} (text : List ℕ) → Runs Fine a a (insert_str env text)
  insert_str-Runs text = record {
    run = λ s fine lt.
        Ends-weaken _ _ (insert_str env text s) (λ r q. (q.0, omega (arith, q.1, lt)))
          (insert_str-Ends Fine env all s fine text);
  }

  pub find_str-Runs : {a : ℕ} (text : List ℕ) → Runs Fine a a (find_str env text)
  find_str-Runs text = record {
    run = λ s fine lt.
        Ends-weaken _ _ (find_str env text s) (λ r q. (q.0, omega (arith, q.1, lt)))
          (find_str-Ends Fine env all s fine text);
  }

  -- a token that has to satisfy a test which the end of the text does not satisfy
  pub take_that :
      {A : Type 0} {a c : ℕ} (test : ℕ → Bool) {f : ℕ → Parser T P A}
      → test tok_eof ≡ false
      → ((tok : ℕ) → Runs Fine a c (f tok))
      → Runs Fine (suc a) c (next env >>= λ tok. require (test tok) >>= λ _. f tok)
  take_that test e h =
      take (λ tok _. required (test tok) (λ _. h tok)) (required (test tok_eof) (λ yes. cc))
