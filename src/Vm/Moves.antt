-- ===== src/Vm/Moves.antt =====
-- The branch of `_cvm_set_hash_in_register` of src/cvm.c in which the object moves to a larger one.
use native.Mathlib.Decide.{ℕ_discrete}
use cript.Hash.Resize.{IsRoomy, IsCopy}
use cript.Hash.Set.Write.{Wrote}
use cript.Hash.{Hash, ht_redirect, hash_need_expand, hash_rehash}
use cript.Prelude.Run.{ok}
use cript.Prelude.{
  ℕ, suc, ◌≤◌, ◌≡◌, ◌≢◌, refl, sym, ap, ◌∙◌, true, false, ◌==◌, if◌then◌else◌, some, arith,
}
use cript.Value.{Value}
use cript.Vm.Allocate.{Allocated, some_injective, update_here, update_there}
use cript.Vm.Heap.{YoungGen, store, update, is_redirect, follow}
use cript.Vm.Objects.{redirect}
use cript.Vm.Pointers.{follow_settled}
use cript.Vm.Redirects.{is_table, IsHeap, load-some}
use cript.Vm.Stores.{store_over-IsHeap, follow_loop_same, follow_redirected}
use cript.Vm.Writes.{IsLight, Written, plain, kept, reads_at, light_copy}

-- where the object at `s` is, once the one at `q` has moved to `n`
abbrev pub moved_to : ℕ → ℕ → ℕ → ℕ
moved_to q n s = if s == q then n else s

module _ {k key q n : ℕ} {val : Value} {gen gen' : YoungGen} {h h' copy : Hash} (v : IsHeap gen)
    (light : IsLight gen) (there : gen.objects q ≡ some h) (table : is_table h.type ≡ true)
    (lo : 4 ≤ k) (hi : k ≤ 30) (roomy : IsRoomy k h') (wrote : Wrote k h key val h')
    (al : Allocated (suc k) h'.type (store gen q h') n gen') (c : IsCopy (suc k) h' copy)
    (typed : copy.type ≡ al.object.type) where
  apart : n ≢ q
  apart e = omega (arith, e, (v.each q h there).below, al.new)

  copy_type : copy.type ≡ h.type
  copy_type = typed ∙ al.typed ∙ wrote.same_type

  copy_plain : is_redirect copy.type ≡ false
  copy_plain = ap is_redirect copy_type ∙ plain v light there table lo roomy wrote

  at_q : gen'.objects q ≡ some h'
  at_q = al.others q (λ e. apart (sym e)) ∙ update_here gen.objects q h'

  copied : YoungGen
  copied = store gen' n copy

  pub moved_gen : YoungGen
  moved_gen = store (store gen' n copy) q (record h' { type = ht_redirect; capacity = 0; size = n })

  copied-IsHeap : IsHeap copied
  unfolding copied
  copied-IsHeap =
      let o = al.heap.each n al.object al.there in
      store_over-IsHeap gen' n al.object copy al.heap al.there (record {
        above = o.above;
        below = o.below;
        aligned = o.aligned;
        inside = o.inside;
        leads = λ on. cc (copy_plain, on);
        table = λ _. (suc k, omega (arith, lo), c.roomy.valid.small, c.roomy);
      })

  q_in_copied : copied.objects q ≡ some h'
  unfolding copied
  q_in_copied = update_there gen'.objects n q copy (λ e. apart (sym e)) ∙ at_q

  n_in_copied : copied.objects n ≡ some copy
  unfolding copied
  n_in_copied = update_here gen'.objects n copy

  moved-IsHeap : IsHeap moved_gen
  unfolding copied moved_gen
  moved-IsHeap =
      let o = copied-IsHeap.each q h' q_in_copied in
      store_over-IsHeap copied q h' (record h' { type = ht_redirect; capacity = 0; size = n })
        copied-IsHeap q_in_copied
        (record {
          above = o.above;
          below = o.below;
          aligned = o.aligned;
          inside = o.inside;
          leads = λ _. (omega (arith, (v.each q h there).below, al.new), copy, n_in_copied);
          table = λ e. cc;
        })

  -- an object of `gen` is none that the allocation has made
  old : (r : ℕ) (o : Hash) → gen.objects r ≡ some o → r ≢ n
  old r o e same = omega (arith, same, (v.each r o e).below, al.new)

  kept_copied :
      (r : ℕ) (o : Hash)
      → gen.objects r ≡ some o
      → (o' : Hash) × (copied.objects r ≡ some o')
        × (o'.type ≡ o.type)
        × (is_redirect o.type ≡ true → o'.size ≡ o.size)
  unfolding copied
  kept_copied r o e =
      let (o', e', same_type, same_size) = kept v light there table lo roomy wrote r o e in
      (
        o',
        update_there gen'.objects n r copy (old r o e) ∙ al.others r (old r o e) ∙ e',
        same_type,
        same_size,
      )

  moved_leads : (p s : ℕ) → follow gen p ≡ ok s → follow moved_gen p ≡ ok (moved_to q n s)
  unfolding copied moved_gen follow
  moved_leads p s e =
      let on = follow_loop_same gen.allocated gen copied p s kept_copied e in
      let there' =
        follow_redirected gen.allocated copied p q n s h' copy
          (record h' { type = ht_redirect; capacity = 0; size = n }) q_in_copied
          (ap is_redirect wrote.same_type ∙ plain v light there table lo roomy wrote) n_in_copied
          copy_plain apart refl refl on in
      follow_settled (suc gen.allocated) moved_gen p (moved_to q n s) moved-IsHeap there'

  moved_there : (r : ℕ) → r ≢ q → r ≢ n → moved_gen.objects r ≡ gen.objects r
  unfolding moved_gen
  moved_there r ne ne' =
      update_there (update gen'.objects n copy) q r
        (record h' { type = ht_redirect; capacity = 0; size = n }) ne
      ∙ update_there gen'.objects n r copy ne'
      ∙ al.others r ne'
      ∙ update_there gen.objects q r h' ne

  n_in_moved : moved_gen.objects n ≡ some copy
  unfolding moved_gen copied
  n_in_moved =
      update_there copied.objects q n (record h' { type = ht_redirect; capacity = 0; size = n })
        apart
      ∙ n_in_copied

  q_in_moved : moved_gen.objects q ≡ some (record h' { type = ht_redirect; capacity = 0; size = n })
  unfolding moved_gen copied
  q_in_moved =
      update_here copied.objects q (record h' { type = ht_redirect; capacity = 0; size = n })

  moved-IsLight : IsLight moved_gen
  moved-IsLight p o e t = elim (ℕ_discrete p q) [
    | yes same ↦
        let as_r = some_injective (sym q_in_moved ∙ sym (ap moved_gen.objects same) ∙ e) in
        absurd (cc (ap (λ x. is_table x.type) as_r, t))
    | no ne ↦ elim (ℕ_discrete p n) [
      | yes same ↦
          let as_copy = some_injective (sym n_in_moved ∙ sym (ap moved_gen.objects same) ∙ e) in
          ap hash_need_expand (sym as_copy) ∙ light_copy k h' copy lo hi wrote.valid c
      | no ne' ↦ light p o (sym (moved_there p ne ne') ∙ e) t
    ]
  ]

  at_moved : moved_gen.objects (moved_to q n q) ≡ some copy
  at_moved = let here : (q == q) ≡ true = ground arith in rw here n_in_moved

  others_in_moved :
      (s : ℕ) (o : Hash)
      → s ≢ q
      → gen.objects s ≡ some o
      → moved_gen.objects (moved_to q n s) ≡ some o
  others_in_moved s o ne e =
      let elsewhere : (s == q) ≡ false = ground (arith, ne) in
      rw elsewhere (moved_there s ne (old s o e) ∙ e)

  pub moved-Written : Written gen q key val (moved_to q n) moved_gen
  moved-Written = record {
    heap = moved-IsHeap;
    light = moved-IsLight;
    leads = moved_leads;
    reads = λ s o e _.
        reads_at v light there table lo roomy wrote copy (moved_to q n) moved_gen at_moved copy_type
          (λ j. c.reads j ∙ wrote.reads j) others_in_moved s o e;
  }

  pub redirect_moved : hash_rehash al.object h' ≡ ok copy → redirect gen' q n ≡ ok moved_gen
  unfolding redirect moved_gen
  redirect_moved run = rw (load-some gen' q h' at_q, load-some gen' n al.object al.there, run) refl

  kept_by_copy :
      (r : ℕ) (o : Hash)
      → gen'.objects r ≡ some o
      → (o' : Hash) × (copied.objects r ≡ some o')
        × (o'.type ≡ o.type)
        × (is_redirect o.type ≡ true → o'.size ≡ o.size)
  unfolding copied
  kept_by_copy r o e = elim (ℕ_discrete r n) [
    | yes same ↦
        let as_new = some_injective (sym al.there ∙ sym (ap gen'.objects same) ∙ e) in
        (
          copy,
          ap (update gen'.objects n copy) same ∙ update_here gen'.objects n copy,
          typed ∙ ap (λ x. x.type) as_new,
          λ on.
              absurd
                (cc (copy_plain, ap is_redirect typed, ap (λ x. is_redirect x.type) as_new, on)),
        )
    | no ne ↦ (o, update_there gen'.objects n r copy ne ∙ e, refl, λ _. refl)
  ]

  -- what leads to the object after the allocation leads to the new one in the end
  pub moved_on : (p : ℕ) → follow gen' p ≡ ok q → follow moved_gen p ≡ ok (moved_to q n q)
  unfolding copied moved_gen follow
  moved_on p e =
      let on = follow_loop_same gen'.allocated gen' copied p q kept_by_copy e in
      let there' =
        follow_redirected gen'.allocated copied p q n q h' copy
          (record h' { type = ht_redirect; capacity = 0; size = n }) q_in_copied
          (ap is_redirect wrote.same_type ∙ plain v light there table lo roomy wrote) n_in_copied
          copy_plain apart refl refl on in
      follow_settled (suc gen'.allocated) moved_gen p (moved_to q n q) moved-IsHeap there'
