-- ===== src/Hash/Rehash.antt =====
-- New tables, and `hash_rehash`: the new table reads as the old one.
use native.Mathlib.Decide.{ℕ_discrete}
use cript.Hash.Set.Write.{Wrote, hash_set_live-Wrote}
use cript.Hash.Slots.{
  lookup, lookup_nowhere, serves, count_live, count_null, IsSolid, count_null-replicate,
  count_live-replicate, lookup-replicate,
}
use cript.Hash.Table.{IsCanonical, IsTable}
use cript.Hash.{
  Hash, HashNode, HashType, unset, empty_node, node_at, is_live, is_power_of_two, find_loop,
  hash_init, rehash_loop,
}
use cript.Prelude.Run.{ok, Returns, ok_injective}
use cript.Prelude.{
  ℕ, suc, ◌+◌, ◌%◌, ◌^◌, ◌≤◌, ◌<◌, ◌≡◌, refl, sym, ap, subst, ◌∙◌, true, false, if◌then◌else◌,
  arith, List, [], ◌∷◌, length, replicate, length-replicate, get_or-replicate, inl, inr, Bool-cases,
  all_below, all_below_sound,
}
use cript.Value.{value_is_null, value_is_undefined, value_undefined}

pub pow-is_power_of_two : (k : ℕ) → k ≤ 31 → is_power_of_two (2 ^ k) ≡ true
pow-is_power_of_two k h = all_below_sound 32 (λ e. is_power_of_two (2 ^ e)) k table (omega arith)
  where
    table : all_below 32 (λ e. is_power_of_two (2 ^ e)) ≡ true
    table = unfold all_below is_power_of_two in refl

-- `h` has `2 ^ k` slots and no key.
pub record IsFresh (k : ℕ) (h : Hash) : Type 0 where
  pub valid : IsTable k h
  pub gaps : count_null h.content ≡ 2 ^ k
  pub reads : (q : ℕ) → lookup q h.content ≡ value_undefined

abbrev pub blank : ℕ → HashType → Hash
blank k type = record {
  type = type;
  info = unset;
  capacity = 2 ^ k;
  size = 0;
  content = replicate (2 ^ k) empty_node;
}

blank_node : (k i : ℕ) → node_at (replicate (2 ^ k) empty_node) i ≡ empty_node
blank_node k i = get_or-replicate (2 ^ k) i empty_node

blank_null : (k i : ℕ) → value_is_null (node_at (replicate (2 ^ k) empty_node) i).value ≡ true
unfolding value_is_null
blank_null k i = ap (λ (n : HashNode). value_is_null n.value) (blank_node k i)

blank_defined :
    (k i : ℕ) → value_is_undefined (node_at (replicate (2 ^ k) empty_node) i).value ≡ false
unfolding value_is_undefined
blank_defined k i = ap (λ (n : HashNode). value_is_undefined n.value) (blank_node k i)

pub blank-IsFresh : (k : ℕ) (type : HashType) → k ≤ 31 → IsFresh k (blank k type)
blank-IsFresh k type small = record {
  valid = record {
    small = small;
    width = refl;
    slots = length-replicate (2 ^ k) empty_node;
    counted = sym (count_live-replicate (2 ^ k));
    placed = λ i lt full. cc (blank_null k i);
    canonical = λ i h. cc (blank_defined k i);
  };
  gaps = count_null-replicate (2 ^ k);
  reads = lookup-replicate (2 ^ k);
}

pub hash_init-IsFresh :
    (k : ℕ) (type : HashType)
    → k ≤ 31
    → Returns (hash_init (2 ^ k) type) λ h. IsFresh k h × (h.type ≡ type)
unfolding hash_init
hash_init-IsFresh k type small =
    (blank k type, rw (pow-is_power_of_two k small), (blank-IsFresh k type small, refl))

-- Each key has at most one live slot.
abbrev pub IsDistinct : List HashNode → Type 0
IsDistinct c =
    (i j : ℕ)
    → i < length c
    → j < length c
    → is_live (node_at c i).value ≡ true
    → is_live (node_at c j).value ≡ true
    → (node_at c i).key ≡ (node_at c j).key
    → i ≡ j

abbrev pub AllCanonical : List HashNode → Type 0
AllCanonical c = (i : ℕ) → IsCanonical (node_at c i).value

pub IsTable-IsDistinct : {k : ℕ} {h : Hash} → IsTable k h → IsDistinct h.content
IsTable-IsDistinct {k} {h} t i j li lj vi vj e =
    let pi = t.placed i (omega (arith, t.slots)) (ground arith) in
    let pj = t.placed j (omega (arith, t.slots)) (ground arith) in
    ok_injective
      (sym (subst (λ x. find_loop (2 ^ k) h.content (2 ^ k) x (x % 2 ^ k) ≡ ok i) e pi) ∙ pj)

-- `d` reads as `nodes` where that has a live slot, and as `dst` elsewhere.
pub record Merged (k : ℕ) (nodes : List HashNode) (dst d : Hash) : Type 0 where
  pub valid : IsTable k d
  pub reads :
      (p : ℕ)
      → lookup p d.content
        ≡ (if value_is_undefined (lookup p nodes) then lookup p dst.content else lookup p nodes)
  pub gaps : count_null dst.content ≤ count_null d.content + count_live nodes
  pub solid : IsSolid dst.content → IsSolid d.content
  pub same_type : d.type ≡ dst.type
  pub same_info : d.info ≡ dst.info

Merged-nil : {k : ℕ} {dst : Hash} → IsTable k dst → Merged k [] dst dst
unfolding lookup count_live value_is_undefined
Merged-nil t = record {
  valid = t;
  reads = λ p. refl;
  gaps = omega arith;
  solid = λ s. s;
  same_type = refl;
  same_info = refl;
}

IsDistinct-tail : (n : HashNode) (c : List HashNode) → IsDistinct (n ∷ c) → IsDistinct c
IsDistinct-tail n c d i j li lj vi vj e =
    omega (arith, d (suc i) (suc j) (omega arith) (omega arith) vi vj e)

-- The first slot's key has no other live slot.
head_only :
    (n : HashNode) (c : List HashNode)
    → IsDistinct (n ∷ c)
    → is_live n.value ≡ true
    → lookup n.key c ≡ value_undefined
head_only n c d live = lookup_nowhere n.key c λ i lt.
    elim (Bool-cases (serves n.key (node_at c i))) [
      | inr none_there ↦ none_there
      | inl there ↦ absurd (
          omega (arith, d 0 (suc i) (omega arith) (omega arith) live (ground arith) (ground arith)))
    ]

Merged-dead :
    {k : ℕ} {dst d : Hash} (n : HashNode) (c : List HashNode)
    → is_live n.value ≡ false
    → Merged k c dst d
    → Merged k (n ∷ c) dst d
unfolding lookup count_live
Merged-dead n c dead m = record {
  valid = m.valid;
  reads = λ p. ground (arith, m.reads p);
  gaps = ground (arith, m.gaps);
  solid = m.solid;
  same_type = m.same_type;
  same_info = m.same_info;
}

undefined_tag : value_is_undefined value_undefined ≡ true
unfolding value_is_undefined
undefined_tag = refl

Merged-live :
    {k : ℕ} {dst d d' : Hash} (n : HashNode) (c : List HashNode)
    → is_live n.value ≡ true
    → lookup n.key c ≡ value_undefined
    → Wrote k dst n.key n.value d
    → Merged k c d d'
    → Merged k (n ∷ c) dst d'
unfolding lookup count_live
Merged-live n c live only w m = record {
  valid = m.valid;
  reads = λ p. elim (ℕ_discrete n.key p) [
    | yes e ↦
        let none_left = subst (λ x. lookup x c ≡ value_undefined) e only in
        ground (arith, m.reads p, w.reads p, undefined_tag)
    | no ne ↦ ground (arith, m.reads p, w.reads p)
  ];
  gaps = ground (arith, m.gaps, w.gaps);
  solid = λ s. m.solid (w.solid live s);
  same_type = m.same_type ∙ w.same_type;
  same_info = m.same_info ∙ w.same_info;
}

pub rehash_loop-Merged :
    (k : ℕ) (c : List HashNode) (dst : Hash)
    → IsDistinct c
    → AllCanonical c
    → IsTable k dst
    → count_live c < count_null dst.content
    → Returns (rehash_loop c dst) (Merged k c dst)
unfolding rehash_loop count_live
rehash_loop-Merged k [] dst d plain t room = (dst, refl, Merged-nil t)
rehash_loop-Merged k (n ∷ c) dst d plain t room = elim (Bool-cases (is_live n.value)) [
  | inr dead ↦
      let (r, run, m) =
        rehash_loop-Merged k c dst (IsDistinct-tail n c d) (λ i. plain (suc i)) t (ground arith) in
      (r, rw dead run, Merged-dead n c dead m)
  | inl live ↦
      let (e, write, w) = hash_set_live-Wrote t n.key n.value (omega arith) live in
      let (r, run, m) =
        rehash_loop-Merged k c e (IsDistinct-tail n c d) (λ i. plain (suc i)) w.valid
          (ground (arith, w.gaps)) in
      (r, rw (live, write) run, Merged-live n c live (head_only n c d live) w m)
]
