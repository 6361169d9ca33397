-- ===== src/StringPool/Expand.antt =====
-- `_string_expand_pool` of src/string_pool.c.
use native.Mathlib.Nat.{pow-suc}
use cript.Hash.Mask.{pow-le}
use cript.Hash.{expand_size}
use cript.Prelude.Run.{Returns, ok_injective}
use cript.Prelude.{
  ℕ, zero, suc, ◌^◌, ◌≤◌, ◌≡◌, refl, sym, ap, ◌∙◌, false, inl, inr, Option, none, some, List, [],
  ◌∷◌, length-replicate, replicate, get_or, get_or-replicate, arith, Bool-cases,
}
use cript.StringPool.Insert.{none≢some}
use cript.StringPool.Merge.{or_else, IsDistinct, expand_loop-Merged}
use cript.StringPool.Table.{
  string_at, holds, count_strings, walk, IsTable, is_string-content, holds_nowhere,
}
use cript.StringPool.{
  CString, StringNode, StringPool, empty_node, string_hash_vec, is_string, string_expand_pool,
  string_pool_construct,
}

-- Contents that lie in one slot each.
abbrev IsSpread : List StringNode → Type 0
IsSpread c =
    ((i : ℕ) (s : CString)
      → string_at c i ≡ some s
      → (get_or c i empty_node).key ≡ string_hash_vec s.content)
    × ((i j : ℕ) (s q : CString)
        → string_at c i ≡ some s
        → string_at c j ≡ some q
        → s.content ≡ q.content
        → i ≡ j)

IsTable-IsSpread : {k : ℕ} {p : StringPool} → IsTable k p → IsSpread p.content
IsTable-IsSpread {k} {p} t = (
  t.keyed,
  λ i j s q e f same.
      ok_injective (sym (t.placed i s e) ∙ ap (walk k p.content) same ∙ t.placed j q f),
)

IsSpread-IsDistinct : (c : List StringNode) → IsSpread c → IsDistinct c
IsSpread-IsDistinct [] d = tt
IsSpread-IsDistinct (n ∷ c) (keyed, alone) = (
  λ s e. (keyed 0 s e, holds_nowhere c s.content (λ i lt. nowhere s i e)),
  IsSpread-IsDistinct c (
    λ i s e. keyed (suc i) s e,
    λ i j s q e f same. let up = alone (suc i) (suc j) s q e f same in omega (arith, up),
  ),
)
  where
    nowhere :
        (s : CString) (i : ℕ) → n.string ≡ some s → is_string s.content (string_at c i) ≡ false
    nowhere s i e = elim (Bool-cases (is_string s.content (string_at c i))) [
      | inr apart ↦ apart
      | inl found ↦
          let (q, here, same) = is_string-content s.content (string_at c i) found in
          let z = alone 0 (suc i) s q e here (sym same) in absurd (omega (arith, z))
    ]

string_at-replicate : (n i : ℕ) → string_at (replicate n empty_node) i ≡ none
string_at-replicate n i = ap (λ (x : StringNode). x.string) (get_or-replicate n i empty_node)

holds-replicate : (n : ℕ) (v : List ℕ) → holds (replicate n empty_node) v ≡ none
holds-replicate n v =
    holds_nowhere (replicate n empty_node) v (λ i lt. rw (string_at-replicate n i) refl)

count_strings-replicate : (n : ℕ) → count_strings (replicate n empty_node) ≡ 0
unfolding count_strings
count_strings-replicate zero = refl
count_strings-replicate (suc n) = omega (arith, count_strings-replicate n)

-- A table of empty slots is well formed and holds nothing.
pub construct-IsTable :
    (k n base : ℕ)
    → k ≤ 31
    → n ≡ 2 ^ k
    → IsTable k (string_pool_construct base n)
      × ((v : List ℕ) → holds (string_pool_construct base n).content v ≡ none)
      × (count_strings (string_pool_construct base n).content ≡ 0)
unfolding string_pool_construct
construct-IsTable k n base small e = (
  record {
    small = small;
    width = e;
    slots = length-replicate n empty_node ∙ e;
    keyed = λ i s h. absurd (none≢some (sym (string_at-replicate n i) ∙ h));
    placed = λ i s h. absurd (none≢some (sym (string_at-replicate n i) ∙ h));
  },
  holds-replicate n,
  count_strings-replicate n,
)

-- The pool `r` is `p`, with as many pages, in `2 ^ k` slots and with its counter at 0.
pub record Expanded (k : ℕ) (p r : StringPool) : Type 0 where
  pub valid : IsTable k r
  pub reads : (v : List ℕ) → holds r.content v ≡ holds p.content v
  pub counted : count_strings r.content ≡ count_strings p.content
  pub same_pages : r.string_pages ≡ p.string_pages
  pub no_size : r.size ≡ 0

or_else-none : (o : Option CString) → or_else o none ≡ o
or_else-none none = refl
or_else-none (some s) = refl

-- Expanding a well-formed table of `2 ^ k` slots, for a `k` up to 30, returns a well-formed table of twice the slots that
-- holds the same strings in the same pages; its counter is 0.
pub string_expand_pool-Expanded :
    (k base : ℕ) (p : StringPool)
    → k ≤ 30
    → IsTable k p
    → count_strings p.content ≤ 2 ^ k
    → Returns (string_expand_pool base p) (Expanded (suc k) p)
unfolding string_expand_pool string_pool_construct
string_expand_pool-Expanded k base p small t room =
    let (fresh, nothing, none_yet) =
      construct-IsTable (suc k) (expand_size p.capacity) base (omega arith) twice in
    let start : StringPool = record (string_pool_construct base (expand_size p.capacity)) {
      string_pages = p.string_pages;
    } in
    let fresh' : IsTable (suc k) start = record {
      small = fresh.small;
      width = fresh.width;
      slots = fresh.slots;
      keyed = fresh.keyed;
      placed = fresh.placed;
    } in
    let (r, run, m) =
      expand_loop-Merged (suc k) p.content start fresh'
        (IsSpread-IsDistinct p.content (IsTable-IsSpread t)) (λ v. inr (nothing v))
        (omega (arith, none_yet, pow-suc 2 k, room)) in
    (
      r,
      run,
      record {
        valid = m.valid;
        reads = λ v.
            m.reads v
            ∙ ap (or_else (holds p.content v)) (nothing v)
            ∙ or_else-none (holds p.content v);
        counted = omega (arith, m.counted, none_yet);
        same_pages = m.same_pages;
        no_size = m.same_size;
      },
    )
  where
    twice : expand_size p.capacity ≡ 2 ^ suc k
    twice = unfold expand_size in omega (arith, t.width, pow-suc 2 k, pow-le k 30 small)
