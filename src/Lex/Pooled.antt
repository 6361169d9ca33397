-- ===== src/Lex/Pooled.antt =====
-- The lexer of src/parse.c with the string pool of src/string_pool.c.
use cript.Lex.Forward.{lex_peak-IsStep}
use cript.Lex.Peak.{lex_peak}
use cript.Lex.Progress.{IsStep}
use cript.Lex.{LexState}
use cript.Prelude.Run.{Run, ok, ◌>>=◌, Ends}
use cript.Prelude.{ℕ, suc, ◌≤◌, ◌≡◌, refl, false, ltb, inl, inr, List, length, arith, Bool-cases}
use cript.StringPool.Intern.{IsPool, IsOpen, string_pool_insert_vec-Interned}
use cript.StringPool.{StringPool, string_pool_insert_vec}

-- the value of an identifier or of a string: the address that `string_pool_insert_vec` returns
unfoldable pub intern_value : ℕ → StringPool → List ℕ → Run (StringPool × ℕ)
intern_value base pool buffer =
    string_pool_insert_vec base pool buffer >>= λ r. ok (r.0, r.1.address)

-- A pool that is well formed after one more string, in up to twice `2 ^ k` slots.
abbrev pub IsPoolUpTo : ℕ → StringPool → Type 0
IsPoolUpTo k p = (k' : ℕ) × (k' ≤ suc k) × IsPool k' p

too_long :
    (base : ℕ) (p : StringPool) (v : List ℕ)
    → ltb (length v) 256 ≡ false
    → string_pool_insert_vec base p v ≡ Run.trap
unfolding string_pool_insert_vec
too_long base p v long = rw long refl

intern_value-Ends :
    (base k : ℕ) (p : StringPool) (v : List ℕ)
    → k ≤ 30
    → IsPool k p
    → IsOpen p.string_pages
    → Ends (intern_value base p v) (λ r. IsPoolUpTo k r.0)
unfolding intern_value
intern_value-Ends base k p v hi valid open_page = elim (Bool-cases (ltb (length v) 256)) [
  | inr long ↦ rw (too_long base p v long) tt
  | inl short ↦
      let (k', le, (r, run, i)) =
        string_pool_insert_vec-Interned k base p v hi valid open_page (ground (arith, short)) in
      rw run (k', le, i.valid)
]

-- With a well-formed pool of 2 ^ k slots, for a k up to 30, whose newest page has not been filled past its end, and no
-- token read ahead, `lex_peak` does not loop for ever: it traps, reads behind the end of the text, or returns the token of the state that it leaves, further on
-- in the text, with a well-formed pool of at most twice the slots.
pub lex_peak-IsPool :
    (base k : ℕ) (s : LexState StringPool)
    → k ≤ 30
    → IsPool k s.string_pool
    → IsOpen s.string_pool.string_pages
    → s.peaking_token ≡ 0
    → Ends
        (lex_peak (intern_value base) s)
        (λ r. (r.0 ≡ r.1.peaking_token) × IsStep s r.1 × IsPoolUpTo k r.1.string_pool)
lex_peak-IsPool base k s hi valid open_page none_ahead =
    lex_peak-IsStep (intern_value base) s.string_pool (IsPoolUpTo k) (k, omega arith, valid)
      (λ v. intern_value-Ends base k s.string_pool v hi valid open_page) s refl none_ahead
