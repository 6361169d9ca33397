-- ===== src/StringPool/Insert.antt =====
-- `_string_hash_insert` of src/string_pool.c.
use native.Mathlib.Decide.{ℕ_discrete}
use native.Mathlib.Nat.{mod-lt}
use cript.Prelude.Run.{ok, Returns}
use cript.Prelude.{
  ℕ, zero, suc, ◌+◌, ◌%◌, ◌^◌, ◌<◌, ◌≡◌, ◌≢◌, refl, sym, ap, ◌∙◌, subst, true, false, not,
  if◌then◌else◌, inl, inr, Option, none, some, List, [], ◌∷◌, length, length-set, get_or,
  get_or-set_self, get_or-set_ne, set, arith, Bool-cases, is_none,
}
use cript.Scan.{scan, scan_stop, scan-set_ne, scan-set_self}
use cript.StringPool.Bytes.{same_bytes_refl, same_bytes-eq}
use cript.StringPool.Table.{
  string_at, holds, count_strings, walk, IsTable, scan_stops, is_string-content,
}
use cript.StringPool.{
  CString, StringNode, StringPool, empty_node, string_hash_vec, same_bytes, is_string, is_occupied,
  is_other, string_hash_insert,
}
use cript.Word.Bits.{pow_pos}

-- The pool `p'` is `p` with the string `s`.
pub record Inserted (k : ℕ) (p : StringPool) (s : CString) (p' : StringPool) : Type 0 where
  pub valid : IsTable k p'
  pub reads :
      (v : List ℕ)
      → holds p'.content v ≡ (if same_bytes v s.content then some s else holds p.content v)
  pub counted : count_strings p'.content ≡ count_strings p.content + 1
  pub same_pages : p'.string_pages ≡ p.string_pages
  pub same_size : p'.size ≡ p.size

pub none≢some : {s : CString} → ◌≡◌ {A = Option CString} none (some s) → ⊥
none≢some h = cc

pub some_injective : {s q : CString} → ◌≡◌ {A = Option CString} (some s) (some q) → s ≡ q
some_injective h = cc

true≢false : true ≢ false
true≢false = λ h. cc

-- A content that the list does not hold is in no node.
pub absent_both :
    (n : StringNode) (c : List StringNode) (v : List ℕ)
    → holds (n ∷ c) v ≡ none
    → (is_string v n.string ≡ false) × (holds c v ≡ none)
unfolding holds
absent_both n c v h = elim (Bool-cases (is_string v n.string)) [
  | inl e ↦
      let (s, here, _) = is_string-content v n.string e in
      absurd (none≢some (sym (rw e at h) ∙ here))
  | inr e ↦ (e, rw e at h)
]

pub absent-is_string :
    (c : List StringNode) (v : List ℕ) (i : ℕ)
    → holds c v ≡ none
    → is_string v (string_at c i) ≡ false
absent-is_string [] v i h = refl
absent-is_string (n ∷ c) v zero h = (absent_both n c v h).0
absent-is_string (n ∷ c) v (suc i) h = absent-is_string c v i (absent_both n c v h).1

holds-set :
    (c : List StringNode) (j : ℕ) (n : StringNode) (s : CString) (v : List ℕ)
    → j < length c
    → string_at c j ≡ none
    → n.string ≡ some s
    → holds c s.content ≡ none
    → holds (set c j n) v ≡ (if same_bytes v s.content then some s else holds c v)
unfolding holds
holds-set [] j n s v lt gap e absent = absurd (omega arith)
holds-set (m ∷ c) zero n s v lt gap e absent = rw (e, gap) refl
holds-set (m ∷ c) (suc j) n s v lt gap e absent =
    let (other, rest) = absent_both m c s.content absent in
    let ih = holds-set c j n s v (omega arith) gap e rest in
    elim (Bool-cases (is_string v m.string)) [
      | inr no_m ↦ rw no_m ih
      | inl yes_m ↦ elim (Bool-cases (same_bytes v s.content)) [
        | inl same ↦ absurd (
            true≢false
              (sym yes_m ∙ ap (λ w. is_string w m.string) (same_bytes-eq v s.content same) ∙ other))
        | inr apart ↦ rw (yes_m, apart) refl
      ]
    ]

count_strings-set :
    (c : List StringNode) (j : ℕ) (n : StringNode)
    → j < length c
    → string_at c j ≡ none
    → is_occupied n ≡ true
    → count_strings (set c j n) ≡ count_strings c + 1
unfolding count_strings
count_strings-set [] j n lt gap e = absurd (omega arith)
count_strings-set (m ∷ c) zero n lt gap e = ground (arith, gap, e)
count_strings-set (m ∷ c) (suc j) n lt gap e =
    omega (arith, count_strings-set c j n (omega arith) gap e)

empty_of_stop : (o : Option CString) → not (is_none o) ≡ false → o ≡ none
empty_of_stop o h = ground (arith, h)

module _ {k : ℕ} {p : StringPool} (t : IsTable k p) (s : CString) (j : ℕ) (lt : j < 2 ^ k)
    (gap : string_at p.content j ≡ none) (absent : holds p.content s.content ≡ none)
    (stop : scan empty_node
        (2 ^ k)
        p.content
        (2 ^ k)
        is_occupied
        (string_hash_vec s.content % 2 ^ k)
      ≡ ok j) where
  abbrev node : StringNode
  node = record { key = string_hash_vec s.content; string = some s }

  abbrev written : StringPool
  written = record p { content = set p.content j node }

  here : get_or (set p.content j node) j empty_node ≡ node
  here = get_or-set_self p.content j node empty_node (omega (arith, t.slots))

  there :
      (i : ℕ) → j ≢ i → get_or (set p.content j node) i empty_node ≡ get_or p.content i empty_node
  there i ne = get_or-set_ne p.content j i node empty_node ne

  finer :
      (m : ℕ)
      → is_occupied (get_or p.content m empty_node) ≡ true
      → is_other (string_hash_vec s.content) s.content (get_or p.content m empty_node) ≡ true
  finer m full =
      let other = absent-is_string p.content s.content m absent in rw (full, other) (ground arith)

  stops : is_other (string_hash_vec s.content) s.content node ≡ false
  stops = rw (same_bytes_refl s.content) (ground arith)

  own_walk : walk k (set p.content j node) s.content ≡ ok j
  own_walk =
      scan-set_self empty_node (2 ^ k) p.content (2 ^ k) is_occupied
        (is_other (string_hash_vec s.content) s.content) (string_hash_vec s.content % 2 ^ k) j node
        stop finer (omega (arith, t.slots)) stops

  owner : (i : ℕ) (q : CString) → j ≡ i → string_at (set p.content j node) i ≡ some q → s ≡ q
  owner i q same e = some_injective (
      sym (ap (λ (n : StringNode). n.string) here)
      ∙ subst (λ m. string_at (set p.content j node) m ≡ some q) (sym same) e)

  old :
      (i : ℕ) (q : CString)
      → j ≢ i
      → string_at (set p.content j node) i ≡ some q
      → string_at p.content i ≡ some q
  old i q ne e = sym (ap (λ (n : StringNode). n.string) (there i ne)) ∙ e

  written-IsTable : IsTable k written
  written-IsTable = record {
    small = t.small;
    width = t.width;
    slots = length-set p.content j node ∙ t.slots;
    keyed = λ i q e. elim (ℕ_discrete j i) [
      | yes same ↦
          subst (λ m. (get_or (set p.content j node) m empty_node).key ≡ string_hash_vec q.content)
            same
            (ap (λ (n : StringNode). n.key) here
              ∙ ap (λ (x : CString). string_hash_vec x.content) (owner i q same e))
      | no ne ↦ ap (λ (n : StringNode). n.key) (there i ne) ∙ t.keyed i q (old i q ne e)
    ];
    placed = λ i q e. elim (ℕ_discrete j i) [
      | yes same ↦
          subst (λ m. walk k (set p.content j node) q.content ≡ ok m) same
            (subst (λ (x : CString). walk k (set p.content j node) x.content ≡ ok j)
              (owner i q same e) own_walk)
      | no ne ↦
          scan-set_ne empty_node (2 ^ k) p.content (2 ^ k)
            (is_other (string_hash_vec q.content) q.content) (string_hash_vec q.content % 2 ^ k) i j
            node (t.placed i q (old i q ne e)) ne (rw gap refl)
    ];
  }

  written-Inserted : Inserted k p s written
  written-Inserted = record {
    valid = written-IsTable;
    reads = λ v. holds-set p.content j node s v (omega (arith, t.slots)) gap refl absent;
    counted = count_strings-set p.content j node (omega (arith, t.slots)) gap refl;
    same_pages = refl;
    same_size = refl;
  }

-- Inserting a string, that the table does not hold, under the hash of its content, into a well-formed table with an
-- empty slot returns a well-formed table that holds this string and what it held before.
pub string_hash_insert-Inserted :
    {k : ℕ} {p : StringPool} (t : IsTable k p) (s : CString)
    → count_strings p.content < 2 ^ k
    → holds p.content s.content ≡ none
    → Returns (string_hash_insert p (string_hash_vec s.content) s) (Inserted k p s)
unfolding string_hash_insert
string_hash_insert-Inserted {k} {p} t s room absent =
    let hash = string_hash_vec s.content in
    let (j, stop, lt) =
      scan_stops t room is_occupied (hash % 2 ^ k) (λ n e. rw e refl) (mod-lt hash (pow_pos k)) in
    let gap =
      empty_of_stop (string_at p.content j)
        (scan_stop empty_node (2 ^ k) p.content (2 ^ k) is_occupied (hash % 2 ^ k) j stop) in
    (
      written t s j lt gap absent stop,
      rw (t.width, stop) refl,
      written-Inserted t s j lt gap absent stop,
    )
