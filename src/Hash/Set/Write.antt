-- ===== src/Hash/Set/Write.antt =====
-- The write of `hash_set` on a well-formed table: it keeps the table well-formed and updates the map.
use native.Mathlib.Decide.{ℕ_discrete}
use cript.Hash.Find.{passes, find_loop-set_ne}
use cript.Hash.Set.Target.{set_loop-find_loop, IsTarget, target_of-IsTarget}
use cript.Hash.Slots.{
  lookup, serves, count_live, count_null, node_at-set, lookup_only, lookup-set_ne, count_live-set,
  IsSolid, null_of_dead, count_null-set, count_live-pos, count_live-lt,
}
use cript.Hash.Table.{IsPlaced, IsCanonical, IsTable, find_stops}
use cript.Hash.{
  Hash, HashNode, node_at, is_live, find_loop, set_loop, write_at, hash_set, target_of,
}
use cript.Prelude.Run.{ok, Returns}
use cript.Prelude.{
  ℕ, ◌+◌, ◌%◌, ◌^◌, ◌≤◌, ◌<◌, ◌≡◌, ◌≢◌, refl, sym, ap, subst, ◌∙◌, true, false, ◌==◌, if◌then◌else◌,
  arith, length, set, length-set,
}
use cript.Value.{Value, value_is_null, value_undefined}

abbrev entry : ℕ → Value → HashNode
entry key v = record { key = key; value = v }

-- `h'` is `h` after the value `v`, which is not null, has been written under the key `q`.
pub record Wrote (k : ℕ) (h : Hash) (q : ℕ) (v : Value) (h' : Hash) : Type 0 where
  pub valid : IsTable k h'
  pub reads : (p : ℕ) → lookup p h'.content ≡ (if p == q then v else lookup p h.content)
  pub gaps : count_null h.content ≤ count_null h'.content + 1
  pub solid : is_live v ≡ true → IsSolid h.content → IsSolid h'.content
  pub same_type : h'.type ≡ h.type
  pub same_info : h'.info ≡ h.info

module _ {k : ℕ} {h : Hash} (t : IsTable k h) (q : ℕ) (v : Value) (s : ℕ)
    (target : IsTarget k h.content q s) (filled : value_is_null v ≡ false)
    (plain : IsCanonical v) where
  in_list : s < length h.content
  in_list = omega (arith, t.slots, target.within)

  after :
      (i : ℕ)
      → node_at (set h.content s (entry q v)) i
        ≡ (if s == i then entry q v else node_at h.content i)
  after i = node_at-set h.content s i (entry q v) in_list

  here : node_at (set h.content s (entry q v)) s ≡ entry q v
  here = after s ∙ ground arith

  elsewhere : (i : ℕ) → s ≢ i → node_at (set h.content s (entry q v)) i ≡ node_at h.content i
  elsewhere i ne = after i ∙ ground arith

  written-IsPlaced : IsPlaced k (set h.content s (entry q v))
  written-IsPlaced i lt full = elim (ℕ_discrete s i) [
    | yes e ↦
        subst
          (λ x.
            find_loop (2 ^ k) (set h.content s (entry q v)) (2 ^ k)
              (node_at (set h.content s (entry q v)) x).key
              ((node_at (set h.content s (entry q v)) x).key % 2 ^ k)
            ≡ ok x)
          e
          (subst
            (λ n.
              find_loop (2 ^ k) (set h.content s (entry q v)) (2 ^ k) n.key (n.key % 2 ^ k) ≡ ok s)
            (sym here) (target.found (entry q v) refl))
    | no ne ↦
        let same = elsewhere i ne in
        let old : value_is_null (node_at h.content i).value ≡ false =
          ap (λ (n : HashNode). value_is_null n.value) (sym same) ∙ full in
        let other : passes (node_at h.content i).key (entry q v) ≡ true =
          ground (arith, target.unique i lt old) in
        subst
          (λ n.
            find_loop (2 ^ k) (set h.content s (entry q v)) (2 ^ k) n.key (n.key % 2 ^ k) ≡ ok i)
          (sym same)
          (find_loop-set_ne (2 ^ k) h.content (2 ^ k) (node_at h.content i).key _ i s (entry q v)
            in_list ne other (t.placed i lt old))
  ]

  written-IsCanonical : (i : ℕ) → IsCanonical (node_at (set h.content s (entry q v)) i).value
  written-IsCanonical i = rw (after i) (ground (arith, plain, t.canonical i))

  nowhere_else :
      (i : ℕ)
      → i < length (set h.content s (entry q v))
      → i ≢ s
      → serves q (node_at (set h.content s (entry q v)) i) ≡ false
  nowhere_else i lt ne =
      let len = length-set h.content s (entry q v) in
      ap (serves q) (elsewhere i (λ e. ne (sym e)))
      ∙ ground (arith, target.unique i (omega (arith, t.slots)))

  -- The map after the write.
  written-lookup :
      (p : ℕ) → lookup p (set h.content s (entry q v)) ≡ (if p == q then v else lookup p h.content)
  written-lookup p = elim (ℕ_discrete p q) [
    | yes e ↦
        let at_q : lookup q (set h.content s (entry q v)) ≡ v =
          lookup_only q (set h.content s (entry q v)) s (rw length-set in_list) nowhere_else
          ∙ ap (λ (n : HashNode). if serves q n then n.value else value_undefined) here
          ∙ ground (arith, plain) in
        rw e (at_q ∙ ground arith)
    | no ne ↦
        lookup-set_ne p h.content s (entry q v) (ground (arith, target.dead)) (λ e. ne (sym e))
        ∙ ground arith
  ]

  grown : Hash
  grown = record h {
    size = count_live (set h.content s (entry q v));
    content = set h.content s (entry q v);
  }

  -- The assertions of `hash_set` hold, and the counter stays right.
  write_at-grown : write_at h q v s ≡ ok grown
  unfolding write_at grown
  write_at-grown = ground (
    arith,
    count_live-set h.content s (entry q v) in_list,
    count_live-pos h.content s in_list,
    count_live-lt h.content s in_list,
    t.counted,
    t.slots,
    t.width,
  )

  grown-IsTable : IsTable k grown
  unfolding grown
  grown-IsTable = record {
    small = t.small;
    width = t.width;
    slots = length-set h.content s (entry q v) ∙ t.slots;
    counted = refl;
    placed = written-IsPlaced;
    canonical = written-IsCanonical;
  }

  written-IsSolid : is_live v ≡ true → IsSolid h.content → IsSolid (set h.content s (entry q v))
  written-IsSolid live solid = ground (
    arith,
    null_of_dead h.content s in_list solid,
    length-set h.content s (entry q v),
    count_live-set h.content s (entry q v) in_list,
    count_null-set h.content s (entry q v) in_list,
  )

  grown-Wrote : Wrote k h q v grown
  unfolding grown
  grown-Wrote = record {
    valid = grown-IsTable;
    reads = written-lookup;
    gaps = ground (arith, count_null-set h.content s (entry q v) in_list);
    solid = written-IsSolid;
    same_type = refl;
    same_info = refl;
  }

-- The word that `hash_set` stores: null is stored as undefined.
abbrev pub stored : Value → Value
stored v = if value_is_null v then value_undefined else v

undefined_ne_null : value_is_null value_undefined ≡ false
unfolding value_is_null
undefined_ne_null = refl

stored_filled : (v : Value) → value_is_null (stored v) ≡ false
stored_filled v = ground (arith, undefined_ne_null)

stored-IsCanonical : (v : Value) → IsCanonical v → IsCanonical (stored v)
stored-IsCanonical v plain = ground arith

module _ {k : ℕ} {h : Hash} (t : IsTable k h) where
  -- On a well-formed table with an empty slot, and a value that is undefined only as the word 3, `hash_set`
  -- returns: the loop ends and no assertion fails. The result is well formed, reads as the old table with the
  -- value, or undefined for null, under the key, and has at most one empty slot less.
  pub hash_set-Wrote :
      (q : ℕ) (v : Value)
      → 0 < count_null h.content
      → IsCanonical v
      → Returns (hash_set h q v) (Wrote k h q (stored v))
  unfolding hash_set
  hash_set-Wrote q v gap plain =
      let (j, stop, _) = find_stops t q gap in
      let (slot, run) = set_loop-find_loop (2 ^ k) h.content (2 ^ k) q (q % 2 ^ k) j (2 ^ k) stop in
      let run' =
        subst (λ cap. set_loop cap h.content cap q (q % cap) cap ≡ ok (j, slot)) (sym t.width)
          run in
      let target =
        subst (λ cap. IsTarget k h.content q (target_of h.content cap q j slot)) (sym t.width)
          (target_of-IsTarget t q j stop slot run) in
      let s = target_of h.content h.capacity q j slot in
      let filled = stored_filled v in
      let plain' = stored-IsCanonical v plain in
      (
        grown t q (stored v) s target filled plain',
        rw run' (write_at-grown t q (stored v) s target filled plain'),
        grown-Wrote t q (stored v) s target filled plain',
      )

stored_live : (v : Value) → is_live v ≡ true → stored v ≡ v
stored_live v live = ground arith

module _ {k : ℕ} {h : Hash} (t : IsTable k h) where
  pub hash_set_live-Wrote :
      (q : ℕ) (v : Value)
      → 0 < count_null h.content
      → is_live v ≡ true
      → Returns (hash_set h q v) (Wrote k h q v)
  hash_set_live-Wrote q v gap live =
      let (h', run, w) = hash_set-Wrote t q v gap (ground arith) in
      (h', run, subst (λ x. Wrote k h q x h') (stored_live v live) w)
