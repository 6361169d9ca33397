-- ===== src/StringPool/Table.antt =====
-- The table of the pool of src/string_pool.c as a finite map from the contents to the strings.
use native.Mathlib.Nat.{mod-lt}
use cript.Hash.Probe.{probe_visits_all}
use cript.Prelude.Run.{Run, ok, Returns, ok_injective}
use cript.Prelude.{
  ℕ, zero, suc, ◌+◌, ◌%◌, ◌^◌, ◌≤◌, ◌<◌, ◌≡◌, ◌≢◌, refl, sym, ap, ◌∙◌, subst, Bool, true, false,
  not, ◌&&◌, ◌==◌, if◌then◌else◌, ◌⊎◌, inl, inr, Option, none, some, List, [], ◌∷◌, length, get_or,
  arith, Bool-cases, Option-cases, is_none,
}
use cript.Scan.{scan, scan_total, scan_stop, scan-lt}
use cript.StringPool.Bytes.{same_bytes-eq}
use cript.StringPool.{
  CString, StringNode, StringPool, empty_node, string_hash_vec, is_string, is_occupied, is_other,
  string_pool_find_hash, string_pool_find_vec,
}
use cript.Word.Bits.{pow_pos}

abbrev pub string_at : List StringNode → ℕ → Option CString
string_at c i = (get_or c i empty_node).string

-- the string with the content `v`, if there is one
unfoldable pub holds : List StringNode → List ℕ → Option CString
holds [] v = none
holds (n ∷ c) v = if is_string v n.string then n.string else holds c v

unfoldable pub count_strings : List StringNode → ℕ
count_strings [] = 0
count_strings (n ∷ c) = (if is_occupied n then 1 else 0) + count_strings c

-- where `_string_pool_find_hash` stops
abbrev pub walk : ℕ → List StringNode → List ℕ → Run ℕ
walk k c v =
    scan empty_node (2 ^ k) c (2 ^ k) (is_other (string_hash_vec v) v) (string_hash_vec v % 2 ^ k)

-- A table of `2 ^ k` slots: each string lies where the walk for its content stops.
pub record IsTable (k : ℕ) (p : StringPool) : Type 0 where
  pub small : k ≤ 31
  pub width : p.capacity ≡ 2 ^ k
  pub slots : length p.content ≡ 2 ^ k
  pub keyed :
      (i : ℕ) (s : CString)
      → string_at p.content i ≡ some s
      → (get_or p.content i empty_node).key ≡ string_hash_vec s.content
  pub placed :
      (i : ℕ) (s : CString) → string_at p.content i ≡ some s → walk k p.content s.content ≡ ok i

pub is_string-content :
    (v : List ℕ) (o : Option CString)
    → is_string v o ≡ true
    → (s : CString) × (o ≡ some s) × (s.content ≡ v)
is_string-content v none h = cc
is_string-content v (some s) h = (s, refl, sym (same_bytes-eq v s.content h))

pub holds-content :
    (c : List StringNode) (v : List ℕ) (s : CString) → holds c v ≡ some s → s.content ≡ v
unfolding holds
holds-content [] v s h = cc
holds-content (n ∷ c) v s h = elim (Bool-cases (is_string v n.string)) [
  | inl e ↦
      let (q, here, same) = is_string-content v n.string e in
      let found : n.string ≡ some s = rw e at h in
      let one : q ≡ s = cc in ap (λ (x : CString). x.content) (sym one) ∙ same
  | inr e ↦ holds-content c v s (rw e at h)
]

pub holds_nowhere :
    (c : List StringNode) (v : List ℕ)
    → ((i : ℕ) → i < length c → is_string v (string_at c i) ≡ false)
    → holds c v ≡ none
unfolding holds
holds_nowhere [] v h = refl
holds_nowhere (n ∷ c) v h =
    rw (h 0 (omega arith)) (holds_nowhere c v (λ i lt. h (suc i) (omega arith)))

holds_only :
    (c : List StringNode) (v : List ℕ) (j : ℕ)
    → j < length c
    → ((i : ℕ) → i < length c → i ≢ j → is_string v (string_at c i) ≡ false)
    → (is_string v (string_at c j) ≡ true) ⊎ (string_at c j ≡ none)
    → holds c v ≡ string_at c j
unfolding holds
holds_only [] v j lt h e = absurd (omega arith)
holds_only (n ∷ c) v zero lt h (inl e) = rw e refl
holds_only (n ∷ c) v zero lt h (inr e) =
    rw e (holds_nowhere c v (λ i lt. h (suc i) (omega arith) (λ z. cc)))
holds_only (n ∷ c) v (suc j) lt h e = rw (h 0 (omega arith) (λ z. cc)) (
    holds_only c v j (omega arith)
      (λ i lt ne. h (suc i) (omega arith) (λ same. ne (omega (arith, same)))) e)

-- A walk ends at a slot with the string, or at an empty one.
walk_end :
    (hash : ℕ) (v : List ℕ) (n : StringNode)
    → is_other hash v n ≡ false
    → (is_string v n.string ≡ true) ⊎ (n.string ≡ none)
walk_end hash v n h = elim (Option-cases n.string) [
  | inl e ↦ inr e
  | inr (s, e) ↦ inl (end_lem (n.key == hash) (is_string v n.string) n.string s e h)
]
  where
    end_lem :
        (k b : Bool) (o : Option CString) (s : CString)
        → o ≡ some s
        → (not (is_none o) && not (k && b)) ≡ false
        → b ≡ true
    end_lem k b o s e h = ground (arith, e, h)

module _ {k : ℕ} {p : StringPool} (t : IsTable k p) where
  pub only_slot :
      (v : List ℕ) (j i : ℕ)
      → walk k p.content v ≡ ok j
      → i ≢ j
      → is_string v (string_at p.content i) ≡ false
  only_slot v j i stop ne = elim (Bool-cases (is_string v (string_at p.content i))) [
    | inr other ↦ other
    | inl found ↦
        let (s, here, same) = is_string-content v (string_at p.content i) found in
        absurd (
          ne (
            ok_injective
              (sym (subst (λ w. walk k p.content w ≡ ok i) same (t.placed i s here)) ∙ stop)))
  ]

  pub walk-holds :
      (v : List ℕ) (j : ℕ)
      → j < 2 ^ k
      → walk k p.content v ≡ ok j
      → holds p.content v ≡ string_at p.content j
  walk-holds v j lt stop =
      holds_only p.content v j (omega (arith, t.slots)) (λ i below ne. only_slot v j i stop ne)
        (walk_end (string_hash_vec v) v (get_or p.content j empty_node) (
          scan_stop empty_node (2 ^ k) p.content (2 ^ k) (is_other (string_hash_vec v) v)
            (string_hash_vec v % 2 ^ k) j stop))

empty_slot :
    (c : List StringNode)
    → count_strings c < length c
    → (i : ℕ) × (i < length c) × (string_at c i ≡ none)
unfolding count_strings
empty_slot [] h = absurd (omega arith)
empty_slot (n ∷ c) h = elim (Option-cases n.string) [
  | inl e ↦ (0, omega arith, e)
  | inr (s, e) ↦ let (i, lt, z) = empty_slot c (ground (arith, e)) in (suc i, omega arith, z)
]

module _ {k : ℕ} {p : StringPool} (t : IsTable k p) (room : count_strings p.content < 2 ^ k) where
  -- A walk that stops at empty slots stops.
  pub scan_stops :
      (goes_on : StringNode → Bool) (i : ℕ)
      → ((n : StringNode) → n.string ≡ none → goes_on n ≡ false)
      → i < 2 ^ k
      → Returns (scan empty_node (2 ^ k) p.content (2 ^ k) goes_on i) λ j. j < 2 ^ k
  scan_stops g i stops lt =
      let (e, below, empty) = empty_slot p.content (omega (arith, t.slots)) in
      let (n, fuel, near) = probe_visits_all k i e t.small lt (omega (arith, t.slots)) in
      let (j, stop, _) =
        scan_total empty_node (2 ^ k) p.content (2 ^ k) g i n fuel
          (rw near (stops (get_or p.content e empty_node) empty)) in
      (j, stop, scan-lt empty_node (2 ^ k) p.content k g i j t.small lt stop)

  pub walk_stops : (v : List ℕ) → Returns (walk k p.content v) λ j. j < 2 ^ k
  walk_stops v =
      scan_stops (is_other (string_hash_vec v) v) (string_hash_vec v % 2 ^ k) (λ n e. rw e refl)
        (mod-lt (string_hash_vec v) (pow_pos k))

  -- In a well-formed table with an empty slot `string_pool_find_vec` returns the string with the content that is
  -- looked for, if there is one, and nothing otherwise.
  pub string_pool_find_vec-holds : (v : List ℕ) → string_pool_find_vec p v ≡ ok (holds p.content v)
  unfolding string_pool_find_vec string_pool_find_hash
  string_pool_find_vec-holds v =
      let (j, stop, lt) = walk_stops v in rw (t.width, stop, walk-holds t v j lt stop)
