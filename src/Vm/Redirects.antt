-- ===== src/Vm/Redirects.antt =====
-- Well-formed heaps of src/cvm.c and src/young_gen.c, and following the redirections in them.
use cript.Hash.Resize.{IsRoomy}
use cript.Hash.{Hash, HashType, ht_object, ht_array}
use cript.Prelude.Run.{ok, Returns, >>=-eq-ok}
use cript.Prelude.{
  ℕ, zero, suc, ◌+◌, ◌%◌, ◌^◌, ◌≤◌, ◌<◌, ◌≡◌, refl, sym, ◌∙◌, Bool, true, false, if◌then◌else◌,
  Option, none, some, inl, inr, Bool-cases, arith,
}
use cript.Vm.Heap.{
  YoungGen, block_size, block_header, or_wild, load, is_redirect, follow_loop, follow,
}

abbrev pub is_table : HashType → Bool
is_table ht_object = true
is_table ht_array = true
is_table _ = false

-- the end of what is allocated
abbrev pub top : YoungGen → ℕ
top gen = gen.base + block_header + gen.allocated

-- An object lies in what is allocated. A redirection leads to an object further up; objects and arrays are
-- tables with no deleted slot and an empty one.
pub record IsObject (gen : YoungGen) (p : ℕ) (h : Hash) : Type 0 where
  pub above : 0 < p
  pub below : p < top gen
  pub aligned : p % 4 ≡ 0
  pub inside : gen.base + block_header ≤ p
  pub leads :
      is_redirect h.type ≡ true → (p < h.size) × (h' : Hash) × (gen.objects h.size ≡ some h')
  pub table : is_table h.type ≡ true → (k : ℕ) × (4 ≤ k) × (k ≤ 31) × IsRoomy k h

-- The block and its header end before the end of the addresses.
pub record IsHeap (gen : YoungGen) : Type 0 where
  pub aligned : gen.base % 4 ≡ 0
  pub width : gen.base + block_header + block_size < 2 ^ 32
  pub even : gen.allocated % 4 ≡ 0
  pub used : gen.allocated ≤ block_size
  pub each : (p : ℕ) (h : Hash) → gen.objects p ≡ some h → IsObject gen p h

pub load-some : (gen : YoungGen) (p : ℕ) (h : Hash) → gen.objects p ≡ some h → load gen p ≡ ok h
unfolding load
load-some gen p h e = rw e refl

-- An object of the heap that is no redirection.
pub record Stands (gen : YoungGen) (q : ℕ) : Type 0 where
  pub object : Hash
  pub there : gen.objects q ≡ some object
  pub last : is_redirect object.type ≡ false

follow_loop_total :
    (f : ℕ) (gen : YoungGen) (p : ℕ) (h : Hash)
    → IsHeap gen
    → gen.objects p ≡ some h
    → top gen ≤ p + f
    → Returns (follow_loop f gen p) (Stands gen)
unfolding follow_loop
follow_loop_total zero gen p h v e fuel = absurd (omega (arith, (v.each p h e).below))
follow_loop_total (suc f) gen p h v e fuel = elim (Bool-cases (is_redirect h.type)) [
  | inr last ↦
      (p, rw (load-some gen p h e, last) refl, record { object = h; there = e; last = last })
  | inl on ↦
      let (up, h', e') = (v.each p h e).leads on in
      let (q, run, s) = follow_loop_total f gen h.size h' v e' (omega arith) in
      (q, rw (load-some gen p h e, on) run, s)
]

-- In a well-formed heap, following the redirections from an object ends, in an object that is no redirection.
pub follow_total :
    (gen : YoungGen) (p : ℕ) (h : Hash)
    → IsHeap gen
    → gen.objects p ≡ some h
    → Returns (follow gen p) (Stands gen)
unfolding follow
follow_total gen p h v e =
    follow_loop_total gen.allocated gen p h v e (omega (arith, (v.each p h e).inside))

-- what an access that succeeds has read
pub load_ok : (gen : YoungGen) (p : ℕ) (h : Hash) → load gen p ≡ ok h → gen.objects p ≡ some h
unfolding load
load_ok gen p h e = or_wild_ok (gen.objects p) e
  where
    or_wild_ok : (o : Option Hash) → or_wild o ≡ ok h → o ≡ some h
    or_wild_ok none e = cc
    or_wild_ok (some h) e = cc

-- More rounds do not change where the loop ends.
pub follow_loop_more :
    (f g : ℕ) (gen : YoungGen) (p q : ℕ)
    → f ≤ g
    → follow_loop f gen p ≡ ok q
    → follow_loop g gen p ≡ ok q
unfolding follow_loop
follow_loop_more zero g gen p q le e = cc
follow_loop_more (suc f) zero gen p q le e = absurd (omega arith)
follow_loop_more (suc f) (suc g) gen p q le e =
    let (h, here, rest) =
      >>=-eq-ok (load gen p) (λ h. if is_redirect h.type then follow_loop f gen h.size else ok p)
        e in
    elim (Bool-cases (is_redirect h.type)) [
      | inr last ↦ rw (here, last) (sym (rw last refl) ∙ rest)
      | inl on ↦
          rw (here, on) (follow_loop_more f g gen h.size q (omega arith) (sym (rw on refl) ∙ rest))
    ]
