-- ===== src/Hash/Set/Target.antt =====
-- The loop of `hash_set`, and the slot that `hash_set` then writes.
use native.Mathlib.Decide.{ℕ_discrete}
use native.Mathlib.Nat.{mod-lt}
use cript.Hash.Find.{passes, find_loop_stop, find_loop-lt, find_loop-set_self}
use cript.Hash.Mask.{next_index-lt}
use cript.Hash.Slots.{node_at-set}
use cript.Hash.Table.{IsTable}
use cript.Hash.{Hash, HashNode, node_at, is_live, next_index, find_loop, set_loop, target_of}
use cript.Prelude.Run.{ok, ok_injective}
use cript.Prelude.{
  ℕ, zero, suc, ◌%◌, ◌^◌, ◌≤◌, ◌<◌, ◌≡◌, ◌≢◌, ◌⊎◌, ap, sym, subst, ◌∙◌, true, false, ◌==◌, ◌&&◌,
  if◌then◌else◌, arith, List, length, set, inl, inr, Bool-cases,
}
use cript.Value.{value_is_null, value_is_undefined}
use cript.Word.Bits.{pow_pos}

-- It stops where the search of `hash_find` stops.
pub set_loop-find_loop :
    (f : ℕ) (c : List HashNode) (cap q i j slot : ℕ)
    → find_loop f c cap q i ≡ ok j
    → (t : ℕ) × (set_loop f c cap q i slot ≡ ok (j, t))
unfolding set_loop find_loop
set_loop-find_loop zero c cap q i j slot h = cc
set_loop-find_loop (suc f) c cap q i j slot h = elim (Bool-cases (passes q (node_at c i))) [
  | inl e ↦ rw e (
      set_loop-find_loop f c cap q (next_index i cap) j
        (if slot == cap && value_is_undefined (node_at c i).value then i else slot) (rw e at h))
  | inr e ↦ (slot, rw e (ap (λ x. ok (x, slot)) (ok_injective (rw e at h))))
]

-- A slot that has been noted is kept.
slot_kept :
    (f : ℕ) (c : List HashNode) (cap q i j slot t : ℕ)
    → slot ≢ cap
    → set_loop f c cap q i slot ≡ ok (j, t)
    → t ≡ slot
unfolding set_loop
slot_kept zero c cap q i j slot t ne h = cc
slot_kept (suc f) c cap q i j slot t ne h =
    ground (arith, slot_kept f c cap q (next_index i cap) j slot t)

-- A deleted slot `t` on the way of the search: the key that is written there will be found there.
record IsReusable (f : ℕ) (c : List HashNode) (cap q i t : ℕ) : Type 0 where
  dead : is_live (node_at c t).value ≡ false
  within : t < cap
  found : (n : HashNode) → n.key ≡ q → find_loop f (set c t n) cap q i ≡ ok t

found_here :
    (f : ℕ) (c : List HashNode) (cap q i : ℕ) (n : HashNode)
    → i < length c
    → n.key ≡ q
    → find_loop (suc f) (set c i n) cap q i ≡ ok i
unfolding find_loop
found_here f c cap q i n lt e = rw (node_at-set c i i n lt) (ground arith)

found_later :
    (f : ℕ) (c : List HashNode) (cap q i t : ℕ) (n : HashNode)
    → t < length c
    → n.key ≡ q
    → passes q (node_at c i) ≡ true
    → find_loop f (set c t n) cap q (next_index i cap) ≡ ok t
    → find_loop (suc f) (set c t n) cap q i ≡ ok t
unfolding find_loop
found_later f c cap q i t n lt e p h = rw (node_at-set c t i n lt) (ground arith)

slot_found :
    (f : ℕ) (c : List HashNode) (k q i j t : ℕ)
    → k ≤ 31
    → i < 2 ^ k
    → length c ≡ 2 ^ k
    → set_loop f c (2 ^ k) q i (2 ^ k) ≡ ok (j, t)
    → (t ≡ 2 ^ k) ⊎ IsReusable f c (2 ^ k) q i t
unfolding set_loop
slot_found zero c k q i j t hk hi w h = cc
slot_found (suc f) c k q i j t hk hi w h = elim (Bool-cases (passes q (node_at c i))) [
  | inr e ↦ inl (sym (ap (λ x. x.1) (ok_injective (rw e at h))))
  | inl e ↦ elim (Bool-cases (value_is_undefined (node_at c i).value)) [
    | inl dead ↦
        let same : t ≡ i =
          slot_kept f c (2 ^ k) q (next_index i (2 ^ k)) j i t (omega arith) (ground arith) in
        inr (
          rw same (record {
            dead = ground arith;
            within = hi;
            found = λ n ek. found_here f c (2 ^ k) q i n (omega arith) ek;
          }))
    | inr other ↦
        elim (slot_found f c k q (next_index i (2 ^ k)) j t hk (next_index-lt k i hk) w
          (ground arith)) [
            | inl none_found ↦ inl none_found
            | inr r ↦ inr (record {
              dead = r.dead;
              within = r.within;
              found = λ n ek.
                  found_later f c (2 ^ k) q i t n (omega (arith, r.within)) ek e (r.found n ek);
            })
          ]
  ]
]

-- The slot `s` may be written for the key `q`.
pub record IsTarget (k : ℕ) (c : List HashNode) (q s : ℕ) : Type 0 where
  pub within : s < 2 ^ k
  pub found :
      (n : HashNode) → n.key ≡ q → find_loop (2 ^ k) (set c s n) (2 ^ k) q (q % 2 ^ k) ≡ ok s
  pub dead : (node_at c s).key ≢ q → is_live (node_at c s).value ≡ false
  pub unique :
      (i : ℕ)
      → i < 2 ^ k
      → value_is_null (node_at c i).value ≡ false
      → (node_at c i).key ≡ q
      → i ≡ s

module _ {k : ℕ} {h : Hash} (t : IsTable k h) (q j : ℕ)
    (stop : find_loop (2 ^ k) h.content (2 ^ k) q (q % 2 ^ k) ≡ ok j) where
  -- Every slot of the key is the one where the search stops.
  same_stop :
      (i : ℕ)
      → i < 2 ^ k
      → value_is_null (node_at h.content i).value ≡ false
      → (node_at h.content i).key ≡ q
      → i ≡ j
  same_stop i lt filled e =
      let p = t.placed i lt filled in
      ok_injective
        (sym (subst (λ x. find_loop (2 ^ k) h.content (2 ^ k) x (x % 2 ^ k) ≡ ok i) e p) ∙ stop)

  stop_lt : j < 2 ^ k
  stop_lt = find_loop-lt (2 ^ k) h.content k q (q % 2 ^ k) j t.small (mod-lt q (pow_pos k)) stop

  stop-IsTarget :
      (node_at h.content j).key ≡ q ⊎ value_is_null (node_at h.content j).value ≡ true
      → IsTarget k h.content q j
  stop-IsTarget why = record {
    within = stop_lt;
    found = λ n e.
        find_loop-set_self (2 ^ k) h.content (2 ^ k) q (q % 2 ^ k) j n
          (omega (arith, t.slots, stop_lt)) e stop;
    dead = ground arith;
    unique = same_stop;
  }

  reused-IsTarget :
      (s : ℕ)
      → (node_at h.content j).key ≢ q
      → IsReusable (2 ^ k) h.content (2 ^ k) q (q % 2 ^ k) s
      → IsTarget k h.content q s
  reused-IsTarget s ne r = record {
    within = r.within;
    found = r.found;
    dead = λ _. r.dead;
    unique = λ i lt filled e.
        absurd (ne (subst (λ x. (node_at h.content x).key ≡ q) (same_stop i lt filled e) e));
  }

  pub target_of-IsTarget :
      (slot : ℕ)
      → set_loop (2 ^ k) h.content (2 ^ k) q (q % 2 ^ k) (2 ^ k) ≡ ok (j, slot)
      → IsTarget k h.content q (target_of h.content (2 ^ k) q j slot)
  target_of-IsTarget slot run = elim (ℕ_discrete (node_at h.content j).key q) [
    | yes e ↦
        let same : target_of h.content (2 ^ k) q j slot ≡ j = ground arith in
        rw same (stop-IsTarget (inl e))
    | no ne ↦
        elim (slot_found (2 ^ k) h.content k q (q % 2 ^ k) j slot t.small (mod-lt q (pow_pos k))
          t.slots run) [
            | inl fresh ↦
                let empty = find_loop_stop (2 ^ k) h.content (2 ^ k) q (q % 2 ^ k) j stop in
                let same : target_of h.content (2 ^ k) q j slot ≡ j = ground arith in
                rw same (stop-IsTarget (inr (ground arith)))
            | inr r ↦
                let same : target_of h.content (2 ^ k) q j slot ≡ slot = ground (arith, r.within) in
                rw same (reused-IsTarget slot ne r)
          ]
  ]
