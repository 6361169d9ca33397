-- ===== src/Hash/Table.antt =====
-- Well-formed tables, and what `hash_find` reads from them.
use native.Mathlib.Nat.{mod-lt}
use cript.Hash.Find.{find_loop_total, find_loop_stop, find_loop-lt}
use cript.Hash.Mask.{home_mask}
use cript.Hash.Probe.{probe_visits_all}
use cript.Hash.Slots.{lookup, serves, count_live, count_null, lookup_only, null_slot}
use cript.Hash.{Hash, HashNode, node_at, find_loop, hash_find}
use cript.Prelude.Run.{ok, Returns, ok_injective}
use cript.Prelude.{
  ℕ, ◌%◌, ◌^◌, ◌≤◌, ◌<◌, ◌≡◌, ◌≢◌, sym, subst, true, false, if◌then◌else◌, arith, List, length, inl,
  inr, Bool-cases, ◌∙◌,
}
use cript.Value.{Value, value_is_null, value_is_undefined, value_undefined}
use cript.Word.Bits.{pow_pos}

-- Every slot that is not empty is the one at which the search for its key stops.
abbrev pub IsPlaced : ℕ → List HashNode → Type 0
IsPlaced k c =
    (i : ℕ)
    → i < 2 ^ k
    → value_is_null (node_at c i).value ≡ false
    → find_loop (2 ^ k) c (2 ^ k) (node_at c i).key ((node_at c i).key % 2 ^ k) ≡ ok i

-- Undefined is stored as the one word that `value_undefined` makes.
abbrev pub IsCanonical : Value → Type 0
IsCanonical v = value_is_undefined v ≡ true → v ≡ value_undefined

-- A table of `2 ^ k` slots.
pub record IsTable (k : ℕ) (h : Hash) : Type 0 where
  pub small : k ≤ 31
  pub width : h.capacity ≡ 2 ^ k
  pub slots : length h.content ≡ 2 ^ k
  pub counted : h.size ≡ count_live h.content
  pub placed : IsPlaced k h.content
  pub canonical : (i : ℕ) → IsCanonical (node_at h.content i).value

module _ {k : ℕ} {h : Hash} (t : IsTable k h) where
  pub only_stop :
      (q j : ℕ)
      → find_loop (2 ^ k) h.content (2 ^ k) q (q % 2 ^ k) ≡ ok j
      → (i : ℕ) → i < length h.content
      → i ≢ j
      → serves q (node_at h.content i) ≡ false
  only_stop q j e i lt ne = elim (Bool-cases (serves q (node_at h.content i))) [
    | inr no_serve ↦ no_serve
    | inl serve ↦ absurd (ne (stops_here serve))
  ]
    where
      stops_here : serves q (node_at h.content i) ≡ true → i ≡ j
      stops_here serve =
          let p = t.placed i (omega arith) (ground arith) in
          let same : (node_at h.content i).key ≡ q = ground arith in
          ok_injective
            (sym (subst (λ x. find_loop (2 ^ k) h.content (2 ^ k) x (x % 2 ^ k) ≡ ok i) same p) ∙ e)

  -- Where the search stops, the table has the value of the key.
  pub stop-lookup :
      (q j : ℕ)
      → j < 2 ^ k
      → find_loop (2 ^ k) h.content (2 ^ k) q (q % 2 ^ k) ≡ ok j
      → lookup q h.content
        ≡ (let v = (node_at h.content j).value in if value_is_null v then value_undefined else v)
  stop-lookup q j lt e =
      let stop = find_loop_stop (2 ^ k) h.content (2 ^ k) q (q % 2 ^ k) j e in
      lookup_only q h.content j (omega arith) (only_stop q j e)
      ∙ ground (arith, stop, t.canonical j)

  -- With an empty slot the search stops.
  pub find_stops :
      (q : ℕ)
      → 0 < count_null h.content
      → Returns (find_loop (2 ^ k) h.content (2 ^ k) q (q % 2 ^ k)) λ j. j < 2 ^ k
  find_stops q gap =
      let (i, lt, empty) = null_slot h.content gap in
      let home = q % 2 ^ k in
      let start = mod-lt q (pow_pos k) in
      let (n, below, e) = probe_visits_all k home i t.small start (omega arith) in
      let (j, stop, _) =
        find_loop_total (2 ^ k) h.content (2 ^ k) q home n below (rw (e, empty) (ground arith)) in
      (j, stop, find_loop-lt (2 ^ k) h.content k q home j t.small start stop)

  -- In a well-formed table with an empty slot `hash_find` returns, and gives the value of the live slot
  -- with the key, or undefined if there is none.
  pub hash_find-lookup :
      (q : ℕ) → 0 < count_null h.content → hash_find h q ≡ ok (lookup q h.content)
  unfolding hash_find
  hash_find-lookup q gap =
      let (j, stop, lt) = find_stops q gap in
      rw (t.width, home_mask k q t.small, stop, stop-lookup q j lt stop)
