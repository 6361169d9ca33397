-- ===== src/Parse/Rules.antt =====
-- Rules for the parser of src/parse.c that follow its sequences: what ends, and how many tokens are left then.
use cript.Lex.Progress.{Ends-weaken}
use cript.Parse.{ParseState, Parser, fueled, pure, ◌>>=◌, parse_error, require, tokens_left}
use cript.Prelude.Run.{Ends, Ends->>=}
use cript.Prelude.{
  ℕ, zero, suc, ◌<◌, ◌≤◌, ◌≡◌, refl, sym, subst, Bool, true, false, if◌then◌else◌, arith,
}

module _ {T P : Type 0} (Fine : P → Type 0) where
  -- From a state with fewer than `a` tokens left, `m` ends, with fewer than `b` left. The pool stays fine.
  pub record Runs {A : Type 0} (a b : ℕ) (m : Parser T P A) : Type 0 where
    pub run :
        (s : ParseState T P)
        → Fine s.lex.string_pool
        → tokens_left s.lex < a
        → Ends (m s) (λ r. Fine r.1.lex.string_pool × (tokens_left r.1.lex < b))

  -- the same from a state where `t` has been read ahead
  pub record RunsAt {A : Type 0} (t a b : ℕ) (m : Parser T P A) : Type 0 where
    pub run :
        (s : ParseState T P)
        → Fine s.lex.string_pool
        → s.lex.peaking_token ≡ t
        → tokens_left s.lex < a
        → Ends (m s) (λ r. Fine r.1.lex.string_pool × (tokens_left r.1.lex < b))

-- From every state with fewer than `d` tokens left, `m` ends, after it has taken a token or more.
abbrev pub Taking : {T P : Type 0} → (P → Type 0) → {A : Type 0} → ℕ → Parser T P A → Type 0
Taking Fine d m = (a : ℕ) → suc a ≤ d → Runs Fine (suc a) a m

-- `m` ends, and leaves the lexer as it is.
pub record Keeps {T P A : Type 0} (m : Parser T P A) : Type 0 where
  pub run : (s : ParseState T P) → Ends (m s) (λ r. r.1.lex ≡ s.lex)

module _ {T P : Type 0} where
  pub Ends-bind :
      {A B : Type 0} (m : Parser T P A) (f : A → Parser T P B) (Q : A × ParseState T P → Type 0)
      (R : B × ParseState T P → Type 0) (s : ParseState T P)
      → Ends (m s) Q
      → ((r : A × ParseState T P) → Q r → Ends (f r.0 r.1) R)
      → Ends ((m >>= f) s) R
  unfolding ◌>>=◌
  Ends-bind m f Q R s h k = Ends->>= Q R (m s) (λ r. f r.0 r.1) h k

  require-Ends :
      (test : Bool) (s : ParseState T P)
      → Ends (require test s) (λ r. (r.1.lex ≡ s.lex) × (test ≡ true))
  unfolding require parse_error pure
  require-Ends true s = (refl, refl)
  require-Ends false s = tt

module _ {T P : Type 0} {Fine : P → Type 0} where
  pub bind :
      {A B : Type 0} {a b c : ℕ} {m : Parser T P A} {f : A → Parser T P B}
      → Runs Fine a b m
      → ((x : A) → Runs Fine b c (f x))
      → Runs Fine a c (m >>= f)
  bind {m = m} {f} h k = record {
    run = λ s fine lt. Ends-bind m f _ _ s (h.run s fine lt) (λ r q. (k r.0).run r.1 q.0 q.1);
  }

  pub keep :
      {A B : Type 0} {a c : ℕ} {m : Parser T P A} {f : A → Parser T P B}
      → Keeps m
      → ((x : A) → Runs Fine a c (f x))
      → Runs Fine a c (m >>= f)
  keep {a = a} {m = m} {f} h k = record {
    run = λ s fine lt. Ends-bind m f _ _ s (h.run s) (λ r e.
        (k r.0).run r.1 (subst (λ l. Fine l.string_pool) (sym e) fine)
          (subst (λ l. tokens_left l < a) (sym e) lt));
  }

  pub keep_at :
      {A B : Type 0} {t a c : ℕ} {m : Parser T P A} {f : A → Parser T P B}
      → Keeps m
      → ((x : A) → RunsAt Fine t a c (f x))
      → RunsAt Fine t a c (m >>= f)
  keep_at {t = t} {a = a} {m = m} {f} h k = record {
    run = λ s fine at lt. Ends-bind m f _ _ s (h.run s) (λ r e.
        (k r.0).run r.1 (subst (λ l. Fine l.string_pool) (sym e) fine)
          (subst (λ l. l.peaking_token ≡ t) (sym e) at)
          (subst (λ l. tokens_left l < a) (sym e) lt));
  }

  -- a call that keeps the lexer, at the end
  pub kept : {A : Type 0} {a : ℕ} {m : Parser T P A} → Keeps m → Runs Fine a a m
  kept {a = a} {m = m} h = record {
    run = λ s fine lt.
        Ends-weaken _ _ (m s)
          (λ r e. (
            subst (λ l. Fine l.string_pool) (sym e) fine,
            subst (λ l. tokens_left l < a) (sym e) lt,
          ))
          (h.run s);
  }

  pub anywhere : {A : Type 0} {t a b : ℕ} {m : Parser T P A} → Runs Fine a b m → RunsAt Fine t a b m
  anywhere h = record { run = λ s fine at lt. h.run s fine lt }

  pub weaken :
      {A : Type 0} {a b c : ℕ} {m : Parser T P A} → b ≤ c → Runs Fine a b m → Runs Fine a c m
  weaken {m = m} le h = record {
    run =
        λ s fine lt. Ends-weaken _ _ (m s) (λ r q. (q.0, omega (arith, q.1, le))) (h.run s fine lt);
  }

  -- there are no states with less than no tokens left
  pub never : {A : Type 0} {b : ℕ} {m : Parser T P A} → Runs Fine 0 b m
  never = record { run = λ s fine lt. absurd (omega (arith, lt)) }

  pub never_at : {A : Type 0} {t b : ℕ} {m : Parser T P A} → RunsAt Fine t 0 b m
  never_at = record { run = λ s fine at lt. absurd (omega (arith, lt)) }

  pub branch :
      {A : Type 0} {a b : ℕ} (test : Bool) {m n : Parser T P A}
      → Runs Fine a b m
      → Runs Fine a b n
      → Runs Fine a b (if test then m else n)
  branch true h k = h
  branch false h k = k

  pub branch_at :
      {A : Type 0} {t a b : ℕ} (test : Bool) {m n : Parser T P A}
      → (test ≡ true → RunsAt Fine t a b m)
      → RunsAt Fine t a b n
      → RunsAt Fine t a b (if test then m else n)
  branch_at true h k = h refl
  branch_at false h k = k

  pub fails : {A : Type 0} {a b : ℕ} → Runs {T = T} Fine {A = A} a b parse_error
  unfolding parse_error
  fails = record { run = λ s fine lt. tt }

  pub fails_at : {A : Type 0} {t a b : ℕ} → RunsAt {T = T} Fine {A = A} t a b parse_error
  fails_at = anywhere fails

  pub done : {A : Type 0} {a : ℕ} (x : A) → Runs {T = T} Fine a a (pure x)
  unfolding pure
  done x = record { run = λ s fine lt. (fine, lt) }

  pub required :
      {A : Type 0} {a b : ℕ} (test : Bool) {m : Parser T P A}
      → (test ≡ true → Runs Fine a b m)
      → Runs Fine a b (require test >>= λ _. m)
  required {a = a} test {m} h = record {
    run = λ s fine lt.
        Ends-bind (require test) (λ _. m) _ _ s (require-Ends test s)
          (λ r q.
            (h q.1).run r.1 (subst (λ l. Fine l.string_pool) (sym q.0) fine)
              (subst (λ l. tokens_left l < a) (sym q.0) lt));
  }

  pub required_at :
      {A : Type 0} {t a b : ℕ} (test : Bool) {m : Parser T P A}
      → (test ≡ true → RunsAt Fine t a b m)
      → RunsAt Fine t a b (require test >>= λ _. m)
  required_at {t = t} {a = a} test {m} h = record {
    run = λ s fine at lt.
        Ends-bind (require test) (λ _. m) _ _ s (require-Ends test s)
          (λ r q.
            (h q.1).run r.1 (subst (λ l. Fine l.string_pool) (sym q.0) fine)
              (subst (λ l. l.peaking_token ≡ t) (sym q.0) at)
              (subst (λ l. tokens_left l < a) (sym q.0) lt));
  }

  -- A loop has fuel for every number of tokens.
  pub fueled-Runs :
      {A : Type 0} {a : ℕ} {loop : ℕ → Parser T P A}
      → ((n c : ℕ) → c ≤ n → c ≤ a → Runs Fine c c (loop n))
      → Runs Fine a a (fueled loop)
  unfolding fueled
  fueled-Runs {loop = loop} h = record {
    run = λ s fine lt.
        Ends-weaken _ _ (loop (suc (tokens_left s.lex)) s) (λ r q. (q.0, omega (arith, q.1, lt)))
          ((h (suc (tokens_left s.lex)) (suc (tokens_left s.lex)) (omega arith)
              (omega (arith, lt))).run
            s fine (omega arith));
  }

  pub fueled_at :
      {A : Type 0} {t a : ℕ} {loop : ℕ → Parser T P A}
      → ((n c : ℕ) → c ≤ n → RunsAt Fine t c c (loop n))
      → RunsAt Fine t a a (fueled loop)
  unfolding fueled
  fueled_at {loop = loop} h = record {
    run = λ s fine at lt.
        Ends-weaken _ _ (loop (suc (tokens_left s.lex)) s) (λ r q. (q.0, omega (arith, q.1, lt)))
          ((h (suc (tokens_left s.lex)) (suc (tokens_left s.lex)) (omega arith)).run s fine at
            (omega arith));
  }

  -- a loop that takes a token or more
  pub fueled_take :
      {A : Type 0} {a : ℕ} {loop : ℕ → Parser T P A}
      → ((n c : ℕ) → c < n → c ≤ a → Runs Fine (suc c) c (loop n))
      → Runs Fine (suc a) a (fueled loop)
  unfolding fueled
  fueled_take {loop = loop} h = record {
    run = λ s fine lt.
        Ends-weaken _ _ (loop (suc (tokens_left s.lex)) s) (λ r q. (q.0, omega (arith, q.1, lt)))
          ((h (suc (tokens_left s.lex)) (tokens_left s.lex) (omega arith) (omega (arith, lt))).run s
            fine (omega arith));
  }

  pub bind_at :
      {A B : Type 0} {t a b c : ℕ} {m : Parser T P A} {f : A → Parser T P B}
      → RunsAt Fine t a b m
      → ((x : A) → Runs Fine b c (f x))
      → RunsAt Fine t a c (m >>= f)
  bind_at {m = m} {f} h k = record {
    run = λ s fine at lt. Ends-bind m f _ _ s (h.run s fine at lt) (λ r q. (k r.0).run r.1 q.0 q.1);
  }

  -- a part that takes a token or more where there is one, and then does not go on without one
  pub smaller :
      {A : Type 0} {a : ℕ} {m : Parser T P A}
      → ((c : ℕ) → c < a → Runs Fine (suc c) c m)
      → Runs Fine a a m
  smaller {a = zero} h = never
  smaller {a = suc a} h = weaken (omega arith) (h a (omega arith))

  pub within : {A : Type 0} {d a : ℕ} {m : Parser T P A} → Taking Fine d m → a ≤ d → Runs Fine a a m
  within h le = smaller (λ c lt. h c (omega (arith, lt, le)))
