-- ===== src/Vm/Writes.antt =====
-- `_cvm_set_hash_in_register` of src/cvm.c as a write to one object, which may move.
use native.Mathlib.Decide.{ℕ_discrete}
use native.Mathlib.Nat.{pow-suc}
use cript.Hash.Mask.{pow-le}
use cript.Hash.Resize.{IsRoomy, IsCopy, need_expand_lem}
use cript.Hash.Set.Write.{Wrote}
use cript.Hash.Slots.{lookup, count_null, counts-le}
use cript.Hash.Table.{IsTable}
use cript.Hash.{
  Hash, HashType, ht_object, ht_array, ht_redirect, ht_lightfunc, ht_closure, ht_userdata,
  ht_gc_left, hash_need_expand,
}
use cript.Prelude.Run.{ok}
use cript.Prelude.{
  ℕ, suc, ◌*◌, ◌^◌, ◌≤◌, ◌<◌, ◌≡◌, ◌≢◌, refl, sym, ap, ◌∙◌, true, false, ◌&&◌, ◌==◌, if◌then◌else◌,
  some, arith,
}
use cript.Value.{Value}
use cript.Vm.Allocate.{some_injective, update_here, update_there}
use cript.Vm.Heap.{YoungGen, store, update, is_redirect, follow}
use cript.Vm.Redirects.{is_table, IsObject, IsHeap}
use cript.Vm.Stores.{store_over-IsHeap, follow_loop_same}

-- No table is loaded above three quarters.
abbrev pub IsLight : YoungGen → Type 0
IsLight gen =
    (p : ℕ) (h : Hash)
    → gen.objects p ≡ some h
    → is_table h.type ≡ true
    → hash_need_expand h ≡ false

-- The heap `gen'` is `gen` with `val` written under `key` in the object at `q`; the object at `s` is at `moved s` now.
pub record Written (gen : YoungGen) (q key : ℕ) (val : Value) (moved : ℕ → ℕ) (gen' : YoungGen)
    : Type 0 where
  pub heap : IsHeap gen'
  pub light : IsLight gen'
  pub leads : (p s : ℕ) → follow gen p ≡ ok s → follow gen' p ≡ ok (moved s)
  pub reads :
      (s : ℕ) (o : Hash)
      → gen.objects s ≡ some o
      → is_redirect o.type ≡ false
      → (o' : Hash) × (gen'.objects (moved s) ≡ some o')
        × (o'.type ≡ o.type)
        × ((k : ℕ) → lookup k o'.content ≡ (if s == q && k == key then val else lookup k o.content))

pub table_plain : (t : HashType) → is_table t ≡ true → is_redirect t ≡ false
table_plain ht_redirect e = cc
table_plain ht_object e = refl
table_plain ht_array e = refl
table_plain ht_lightfunc e = refl
table_plain ht_closure e = refl
table_plain ht_userdata e = refl
table_plain ht_gc_left e = refl

-- A table that is not loaded above three quarters has an empty slot after one more write.
pub gap_after :
    (k key : ℕ) (val : Value) (h h' : Hash)
    → 4 ≤ k
    → IsRoomy k h
    → hash_need_expand h ≡ false
    → Wrote k h key val h'
    → 0 < count_null h'.content
gap_after k key val h h' lo roomy light wrote =
    let t = roomy.valid in
    let big = pow-le 4 k lo in
    let small = pow-le k 31 t.small in
    let load = need_expand_lem h (omega (arith, t.width)) (omega (arith, t.width)) light in
    omega (arith, load, t.width, t.slots, t.counted, roomy.solid, wrote.gaps)

-- A table of twice the slots of another one, with no more live keys, is not loaded above three quarters.
pub light_copy :
    (k : ℕ) (h h' : Hash)
    → 4 ≤ k
    → k ≤ 30
    → IsTable k h
    → IsCopy (suc k) h h'
    → hash_need_expand h' ≡ false
unfolding hash_need_expand
light_copy k h h' lo hi t copy =
    let v = copy.roomy.valid in
    let live : h'.size ≤ 2 ^ k =
      omega (arith, v.counted, copy.no_more, counts-le h.content, t.slots) in
    let width : h'.capacity ≡ 2 ^ k * 2 = v.width ∙ pow-suc 2 k in
    let small = pow-le k 30 hi in ground (arith, live, width, small)

module _ {k key q : ℕ} {val : Value} {gen : YoungGen} {h h' : Hash} (v : IsHeap gen)
    (light : IsLight gen) (there : gen.objects q ≡ some h) (table : is_table h.type ≡ true)
    (lo : 4 ≤ k) (roomy : IsRoomy k h') (wrote : Wrote k h key val h') where
  pub plain : is_redirect h.type ≡ false
  plain = table_plain h.type table

  pub written-IsObject : IsObject gen q h'
  written-IsObject =
      let o = v.each q h there in
      record {
        above = o.above;
        below = o.below;
        aligned = o.aligned;
        inside = o.inside;
        leads = λ on. cc (plain, ap is_redirect wrote.same_type, on);
        table = λ _. (k, lo, roomy.valid.small, roomy);
      }

  pub written-IsHeap : IsHeap (store gen q h')
  written-IsHeap = store_over-IsHeap gen q h h' v there written-IsObject

  -- the other objects stay, and the one at `q` keeps its type
  pub kept :
      (r : ℕ) (o : Hash)
      → gen.objects r ≡ some o
      → (o' : Hash) × (update gen.objects q h' r ≡ some o')
        × (o'.type ≡ o.type)
        × (is_redirect o.type ≡ true → o'.size ≡ o.size)
  kept r o e = elim (ℕ_discrete r q) [
    | yes same ↦
        let as_h = some_injective (sym there ∙ sym (ap gen.objects same) ∙ e) in
        (
          h',
          ap (update gen.objects q h') same ∙ update_here gen.objects q h',
          wrote.same_type ∙ ap (λ x. x.type) as_h,
          λ on. absurd (cc (plain, ap (λ x. is_redirect x.type) as_h, on)),
        )
    | no apart ↦ (o, update_there gen.objects q r h' apart ∙ e, refl, λ _. refl)
  ]

  written-IsLight : hash_need_expand h' ≡ false → IsLight (store gen q h')
  written-IsLight stay p o e t = elim (ℕ_discrete p q) [
    | yes same ↦
        let as_h =
          some_injective
            (sym (update_here gen.objects q h') ∙ sym (ap (update gen.objects q h') same) ∙ e) in
        ap hash_need_expand (sym as_h) ∙ stay
    | no apart ↦ light p o (sym (update_there gen.objects q p h' apart) ∙ e) t
  ]

  pub written_leads : (p s : ℕ) → follow gen p ≡ ok s → follow (store gen q h') p ≡ ok s
  unfolding follow
  written_leads p s e = follow_loop_same gen.allocated gen (store gen q h') p s kept e

  -- what is read in a heap `gen'` that has `o'` for the object `h`
  pub reads_at :
      (o' : Hash) (moved : ℕ → ℕ) (gen' : YoungGen)
      → gen'.objects (moved q) ≡ some o'
      → o'.type ≡ h.type
      → ((j : ℕ) → lookup j o'.content ≡ (if j == key then val else lookup j h.content))
      → ((s : ℕ) (o : Hash) → s ≢ q → gen.objects s ≡ some o → gen'.objects (moved s) ≡ some o)
      → (s : ℕ) (o : Hash) → gen.objects s ≡ some o
      → (x : Hash) × (gen'.objects (moved s) ≡ some x)
        × (x.type ≡ o.type)
        × ((j : ℕ) → lookup j x.content ≡ (if s == q && j == key then val else lookup j o.content))
  reads_at o' moved gen' at typed reads others s o e = elim (ℕ_discrete s q) [
    | yes same ↦
        let as_h = some_injective (sym there ∙ sym (ap gen.objects same) ∙ e) in
        let here : (s == q) ≡ true = ground (arith, same) in
        (
          o',
          ap (λ x. gen'.objects (moved x)) same ∙ at,
          typed ∙ ap (λ x. x.type) as_h,
          λ j. rw here (reads j ∙ ap (λ x. if j == key then val else lookup j x.content) as_h),
        )
    | no apart ↦
        let elsewhere : (s == q) ≡ false = ground (arith, apart) in
        (o, others s o apart e, refl, λ j. rw elsewhere refl)
  ]

  -- A table that need not be expanded is written in its place.
  pub stay-Written : hash_need_expand h' ≡ false → Written gen q key val (λ s. s) (store gen q h')
  stay-Written stay = record {
    heap = written-IsHeap;
    light = written-IsLight stay;
    leads = written_leads;
    reads = λ s o e _.
        reads_at h' (λ x. x) (store gen q h') (update_here gen.objects q h') wrote.same_type
          wrote.reads (λ r o apart there. update_there gen.objects q r h' apart ∙ there) s o e;
  }
