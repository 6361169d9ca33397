-- ===== src/StringPool/Merge.antt =====
-- The loop of `_string_expand_pool` of src/string_pool.c: the strings of some slots go into a table.
use cript.Prelude.Run.{◌>>=◌, Returns}
use cript.Prelude.{
  ℕ, ◌+◌, ◌^◌, ◌≤◌, ◌≡◌, ◌≢◌, refl, sym, ap, ◌∙◌, true, false, if◌then◌else◌, ◌⊎◌, inl, inr, Option,
  none, some, List, [], ◌∷◌, arith, Bool-cases, Option-cases,
}
use cript.StringPool.Bytes.{same_bytes_refl, same_bytes-eq}
use cript.StringPool.Insert.{Inserted, string_hash_insert-Inserted, absent_both}
use cript.StringPool.Table.{holds, count_strings, IsTable}
use cript.StringPool.{
  CString, StringNode, StringPool, string_hash_vec, same_bytes, is_string, string_hash_insert,
  insert_node, expand_loop,
}

abbrev pub or_else : Option CString → Option CString → Option CString
or_else (some s) o = some s
or_else none o = o

-- The pool `r` is `p` with the strings of the nodes `c`.
pub record Merged (k : ℕ) (c : List StringNode) (p r : StringPool) : Type 0 where
  pub valid : IsTable k r
  pub reads : (v : List ℕ) → holds r.content v ≡ or_else (holds c v) (holds p.content v)
  pub counted : count_strings r.content ≡ count_strings p.content + count_strings c
  pub same_pages : r.string_pages ≡ p.string_pages
  pub same_size : r.size ≡ p.size

-- Each string stands under its hash, and no other has its content.
abbrev pub IsDistinct : List StringNode → Type 0
IsDistinct [] = Unit {0}
IsDistinct (n ∷ c) =
    ((s : CString)
      → n.string ≡ some s
      → (n.key ≡ string_hash_vec s.content) × (holds c s.content ≡ none))
    × IsDistinct c

-- No content is in both.
abbrev pub IsApart : List StringNode → StringPool → Type 0
IsApart c p = (v : List ℕ) → (holds c v ≡ none) ⊎ (holds p.content v ≡ none)

nil-Merged : {k : ℕ} {p : StringPool} → IsTable k p → Merged k [] p p
unfolding holds count_strings
nil-Merged t = record {
  valid = t;
  reads = λ v. refl;
  counted = omega arith;
  same_pages = refl;
  same_size = refl;
}

-- a node without a string first
skip-Merged :
    (k : ℕ) (n : StringNode) (c : List StringNode) (p r : StringPool)
    → n.string ≡ none
    → Merged k c p r
    → Merged k (n ∷ c) p r
unfolding holds count_strings
skip-Merged k n c p r e m = record {
  valid = m.valid;
  reads = λ v. rw e (m.reads v);
  counted = rw e (omega (arith, m.counted));
  same_pages = m.same_pages;
  same_size = m.same_size;
}

add-Merged :
    (k : ℕ) (n : StringNode) (s : CString) (c : List StringNode) (p q r : StringPool)
    → n.string ≡ some s
    → holds c s.content ≡ none
    → Inserted k p s q
    → Merged k c q r
    → Merged k (n ∷ c) p r
unfolding holds count_strings
add-Merged k n s c p q r e alone i m = record {
  valid = m.valid;
  reads = λ v. m.reads v ∙ ap (or_else (holds c v)) (i.reads v) ∙ both v;
  counted = rw e (omega (arith, m.counted, i.counted));
  same_pages = m.same_pages ∙ i.same_pages;
  same_size = m.same_size ∙ i.same_size;
}
  where
    both :
        (v : List ℕ)
        → or_else (holds c v) (if same_bytes v s.content then some s else holds p.content v)
          ≡ or_else (if is_string v n.string then n.string else holds c v) (holds p.content v)
    both v = elim (Bool-cases (same_bytes v s.content)) [
      | inl same ↦
          let nowhere : holds c v ≡ none = ap (holds c) (same_bytes-eq v s.content same) ∙ alone in
          rw (e, same, nowhere) refl
      | inr apart ↦ rw (e, apart) refl
    ]

IsApart-tail :
    (n : StringNode) (c : List StringNode) (p : StringPool) → IsApart (n ∷ c) p → IsApart c p
IsApart-tail n c p a v = elim (a v) [ inl e ↦ inl (absent_both n c v e).1 | inr e ↦ inr e ]

-- What the head holds, the pool does not.
head_absent :
    (n : StringNode) (c : List StringNode) (p : StringPool) (s : CString)
    → n.string ≡ some s
    → IsApart (n ∷ c) p
    → holds p.content s.content ≡ none
head_absent n c p s e a = elim (a s.content) [
  | inr none_p ↦ none_p
  | inl none_c ↦ absurd (
      true≢false (
        sym (same_bytes_refl s.content)
        ∙ ap (is_string s.content) (sym e)
        ∙ (absent_both n c s.content none_c).0))
]
  where
    true≢false : true ≢ false
    true≢false = λ h. cc

IsApart-insert :
    (k : ℕ) (n : StringNode) (c : List StringNode) (p q : StringPool) (s : CString)
    → holds c s.content ≡ none
    → IsApart (n ∷ c) p
    → Inserted k p s q
    → IsApart c q
IsApart-insert k n c p q s alone a i v = elim (Bool-cases (same_bytes v s.content)) [
  | inl same ↦ inl (ap (holds c) (same_bytes-eq v s.content same) ∙ alone)
  | inr apart ↦ elim (IsApart-tail n c p a v) [
    | inl e ↦ inl e
    | inr e ↦ inr (i.reads v ∙ rw (apart, e) refl)
  ]
]

pub expand_loop-Merged :
    (k : ℕ) (c : List StringNode) (p : StringPool)
    → IsTable k p
    → IsDistinct c
    → IsApart c p
    → count_strings p.content + count_strings c ≤ 2 ^ k
    → Returns (expand_loop c p) (Merged k c p)
unfolding expand_loop insert_node
expand_loop-Merged k [] p t d a room = (p, refl, nil-Merged t)
expand_loop-Merged k (n ∷ c) p t d a room = elim (Option-cases n.string) [
  | inl e ↦
      let (r, run, m) =
        expand_loop-Merged k c p t d.1 (IsApart-tail n c p a) (omega (arith, count_tail n c)) in
      (r, ap (λ o. insert_node o n.key p >>= expand_loop c) e ∙ run, skip-Merged k n c p r e m)
  | inr (s, e) ↦
      let (key, alone) = d.0 s e in
      let more = count_head n c s e in
      let (q, insert, i) =
        string_hash_insert-Inserted t s (omega (arith, more)) (head_absent n c p s e a) in
      let (r, run, m) =
        expand_loop-Merged k c q i.valid d.1 (IsApart-insert k n c p q s alone a i)
          (omega (arith, more, i.counted)) in
      (
        r,
        ap (λ o. insert_node o n.key p >>= expand_loop c) e
            ∙ ap (λ x. string_hash_insert p x s >>= expand_loop c) key
            ∙ ap (λ y. y >>= expand_loop c) insert
            ∙ run,
        add-Merged k n s c p q r e alone i m,
      )
]
  where
    count_tail : (n : StringNode) (c : List StringNode) → count_strings c ≤ count_strings (n ∷ c)
    count_tail n c = unfold count_strings in omega arith

    count_head :
        (n : StringNode) (c : List StringNode) (s : CString)
        → n.string ≡ some s
        → count_strings (n ∷ c) ≡ count_strings c + 1
    count_head n c s e = unfold count_strings in rw e (omega arith)
