-- ===== src/Vm/Stores.antt =====
-- What stores to the heap of src/cvm.c do to its redirections.
use native.Mathlib.Decide.{ℕ_discrete}
use cript.Hash.{Hash}
use cript.Prelude.Run.{ok, >>=-eq-ok, ok_injective}
use cript.Prelude.{
  ℕ, zero, suc, ◌≡◌, ◌≢◌, refl, sym, ap, subst, ◌∙◌, true, false, ◌==◌, if◌then◌else◌, some, inl,
  inr, Bool-cases, arith,
}
use cript.Vm.Allocate.{some_injective, update_here, update_there, old-IsObject}
use cript.Vm.Heap.{YoungGen, load, store, update, is_redirect, follow_loop}
use cript.Vm.Redirects.{IsObject, IsHeap, Stands, load-some, load_ok}

-- Storing a well-formed object over another one keeps the heap well formed.
pub store_over-IsHeap :
    (gen : YoungGen) (q : ℕ) (h h' : Hash)
    → IsHeap gen
    → gen.objects q ≡ some h
    → IsObject gen q h'
    → IsHeap (store gen q h')
store_over-IsHeap gen q h h' v there new = record {
  aligned = v.aligned;
  width = v.width;
  even = v.even;
  used = v.used;
  each = λ p o e. old-IsObject gen (store gen q h') p o (object p o e) refl (omega arith) kept;
}
  where
    object : (p : ℕ) (o : Hash) → update gen.objects q h' p ≡ some o → IsObject gen p o
    object p o e = elim (ℕ_discrete p q) [
      | yes same ↦
          subst (λ x. IsObject gen x o) (sym same)
            (subst (IsObject gen q)
              (some_injective
                (sym (update_here gen.objects q h') ∙ sym (ap (update gen.objects q h') same) ∙ e))
              new)
      | no apart ↦ v.each p o (sym (update_there gen.objects q p h' apart) ∙ e)
    ]

    kept :
        (r : ℕ) (o : Hash)
        → gen.objects r ≡ some o
        → (o' : Hash) × (update gen.objects q h' r ≡ some o')
    kept r o e = elim (ℕ_discrete r q) [
      | yes same ↦ (h', ap (update gen.objects q h') same ∙ update_here gen.objects q h')
      | no apart ↦ (o, update_there gen.objects q r h' apart ∙ e)
    ]

-- the first turn of the loop, when it ends
pub follow_step :
    (f : ℕ) (gen : YoungGen) (p s : ℕ)
    → follow_loop (suc f) gen p ≡ ok s
    → (h : Hash) × (gen.objects p ≡ some h)
      × ((is_redirect h.type ≡ true → follow_loop f gen h.size ≡ ok s)
          × (is_redirect h.type ≡ false → p ≡ s))
unfolding follow_loop
follow_step f gen p s e =
    let (h, here, rest) =
      >>=-eq-ok (load gen p) (λ h. if is_redirect h.type then follow_loop f gen h.size else ok p)
        e in
    (
      h,
      load_ok gen p h here,
      ((λ on. sym (rw on refl) ∙ rest), λ last. ok_injective (sym (rw last refl) ∙ rest)),
    )

-- the turns of the loop from what it reads
pub follow_on :
    (f : ℕ) (gen : YoungGen) (p s : ℕ) (h : Hash)
    → gen.objects p ≡ some h
    → is_redirect h.type ≡ true
    → follow_loop f gen h.size ≡ ok s
    → follow_loop (suc f) gen p ≡ ok s
unfolding follow_loop
follow_on f gen p s h e on rest = rw (load-some gen p h e, on) rest

pub follow_last :
    (f : ℕ) (gen : YoungGen) (p : ℕ) (h : Hash)
    → gen.objects p ≡ some h
    → is_redirect h.type ≡ false
    → follow_loop (suc f) gen p ≡ ok p
unfolding follow_loop
follow_last f gen p h e last = rw (load-some gen p h e, last) refl

-- The loop ends at an object that is no redirection.
pub follow_loop-Stands :
    (f : ℕ) (gen : YoungGen) (p s : ℕ) → follow_loop f gen p ≡ ok s → Stands gen s
follow_loop-Stands zero gen p s e = absurd (unfold follow_loop in cc)
follow_loop-Stands (suc f) gen p s e =
    let (h, there, (goes_on, ends)) = follow_step f gen p s e in
    elim (Bool-cases (is_redirect h.type)) [
      | inl on ↦ follow_loop-Stands f gen h.size s (goes_on on)
      | inr last ↦
          subst (Stands gen) (ends last) (record { object = h; there = there; last = last })
    ]

-- Heaps that have the same objects along the way lead to the same end.
pub follow_loop_same :
    (f : ℕ) (gen gen' : YoungGen) (p s : ℕ)
    → ((r : ℕ) (o : Hash)
        → gen.objects r ≡ some o
        → (o' : Hash) × (gen'.objects r ≡ some o')
          × (o'.type ≡ o.type)
          × (is_redirect o.type ≡ true → o'.size ≡ o.size))
    → follow_loop f gen p ≡ ok s
    → follow_loop f gen' p ≡ ok s
follow_loop_same zero gen gen' p s same e = absurd (unfold follow_loop in cc)
follow_loop_same (suc f) gen gen' p s same e =
    let (h, there, (goes_on, ends)) = follow_step f gen p s e in
    let (h', there', typed, leads) = same p h there in
    elim (Bool-cases (is_redirect h.type)) [
      | inl on ↦ follow_on f gen' p s h' there' (ap is_redirect typed ∙ on) (
          subst (λ x. follow_loop f gen' x ≡ ok s) (sym (leads on))
            (follow_loop_same f gen gen' h.size s same (goes_on on)))
      | inr last ↦
          subst (λ x. follow_loop (suc f) gen' p ≡ ok x) (ends last)
            (follow_last f gen' p h' there' (ap is_redirect typed ∙ last))
    ]

-- After `q`, which is no redirection, has become one to `n`, what led to `q` leads to `n`, in one turn more.
pub follow_redirected :
    (f : ℕ) (gen : YoungGen) (p q n s : ℕ) (a b r : Hash)
    → gen.objects q ≡ some a
    → is_redirect a.type ≡ false
    → gen.objects n ≡ some b
    → is_redirect b.type ≡ false
    → n ≢ q
    → is_redirect r.type ≡ true
    → r.size ≡ n
    → follow_loop f gen p ≡ ok s
    → follow_loop (suc f) (store gen q r) p ≡ ok (if s == q then n else s)
follow_redirected zero gen p q n s a b r ea pa eb pb apart turns to e =
    absurd (unfold follow_loop in cc)
follow_redirected (suc f) gen p q n s a b r ea pa eb pb apart turns to e =
    let (h, there, (goes_on, ends)) = follow_step f gen p s e in
    elim (Bool-cases (is_redirect h.type)) [
      | inl on ↦
          let elsewhere : p ≢ q = λ same. turned h (ap gen.objects (sym same) ∙ there) on in
          follow_on (suc f) (store gen q r) p (if s == q then n else s) h
            (update_there gen.objects q p r elsewhere ∙ there) on
            (follow_redirected f gen h.size q n s a b r ea pa eb pb apart turns to (goes_on on))
      | inr last ↦ elim (ℕ_discrete p q) [
        | yes same ↦
            let at_q : (s == q) ≡ true = ground (arith, ends last, same) in
            rw at_q (
              follow_on (suc f) (store gen q r) p n r
                (ap (update gen.objects q r) same ∙ update_here gen.objects q r) turns
                (subst (λ x. follow_loop (suc f) (store gen q r) x ≡ ok n) (sym to)
                  (follow_last f (store gen q r) n b (update_there gen.objects q n r apart ∙ eb)
                    pb)))
        | no elsewhere ↦
            let not_q : (s == q) ≡ false = ground (arith, ends last, elsewhere) in
            rw not_q (
              subst (λ x. follow_loop (suc (suc f)) (store gen q r) p ≡ ok x) (ends last)
                (follow_last (suc f) (store gen q r) p h
                  (update_there gen.objects q p r elsewhere ∙ there) last))
      ]
    ]
  where
    turned : (h : Hash) → gen.objects q ≡ some h → is_redirect h.type ≡ true → ⊥
    turned h there on =
        let same = some_injective (sym ea ∙ there) in
        cc (sym pa, ap (λ o. is_redirect o.type) same, on)
