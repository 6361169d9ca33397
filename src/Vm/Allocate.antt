-- ===== src/Vm/Allocate.antt =====
-- Allocation in the heap of src/young_gen.c.
use native.Mathlib.Decide.{ℕ_discrete}
use cript.Hash.Rehash.{pow-is_power_of_two, IsFresh, hash_init-IsFresh}
use cript.Hash.Resize.{IsRoomy}
use cript.Hash.Slots.{counts-le}
use cript.Hash.{Hash, HashType}
use cript.Prelude.Run.{ok}
use cript.Prelude.{
  ℕ, ◌+◌, ◌*◌, ◌%◌, ◌^◌, ◌≤◌, ◌<◌, ◌≡◌, ◌≢◌, refl, sym, ap, subst, ◌∙◌, false, ◌==◌, ltb, Option,
  some, arith,
}
use cript.Vm.Heap.{
  YoungGen, block_size, block_header, young_gen_new, store, update, is_redirect,
  hash_normalize_capacity, hash_total_size, young_gen_allocate, write_new, init_at,
  young_gen_new_hash,
}
use cript.Vm.Redirects.{top, IsObject, IsHeap}
use cript.Word.Bits.{pow_pos}
use cript.Word.{add, mul}

-- An object of `2 ^ k` slots ends inside the block: the mark counts the header, and is counted from behind it.
abbrev pub HasRoom : ℕ → YoungGen → Type 0
HasRoom k gen = gen.allocated + 20 + 2 ^ k * 8 + block_header ≤ block_size

-- `p` is a new object of `2 ^ k` empty slots, and the other objects are as they were.
pub record Allocated (k : ℕ) (type : HashType) (gen : YoungGen) (p : ℕ) (gen' : YoungGen)
    : Type 0 where
  pub heap : IsHeap gen'
  pub new : top gen ≤ p
  pub object : Hash
  pub there : gen'.objects p ≡ some object
  pub fresh : IsFresh k object
  pub typed : object.type ≡ type
  pub others : (q : ℕ) → q ≢ p → gen'.objects q ≡ gen.objects q
  pub more : gen.allocated < gen'.allocated

normalize_power : (k : ℕ) → k ≤ 31 → hash_normalize_capacity (2 ^ k) ≡ ok (2 ^ k)
unfolding hash_normalize_capacity
normalize_power k small =
    let positive : (2 ^ k == 0) ≡ false = ground (arith, pow_pos k) in
    rw (positive, pow-is_power_of_two k small) refl

IsFresh-IsRoomy : (k : ℕ) (h : Hash) → IsFresh k h → IsRoomy k h
IsFresh-IsRoomy k h fresh = record {
  valid = fresh.valid;
  solid = omega (arith, fresh.gaps, fresh.valid.slots, counts-le h.content);
  gap = omega (arith, fresh.gaps, pow_pos k);
}

pub some_injective : {a b : Hash} → ◌≡◌ {A = Option Hash} (some a) (some b) → a ≡ b
some_injective h = cc

pub update_here : (objects : ℕ → Option Hash) (p : ℕ) (h : Hash) → update objects p h p ≡ some h
update_here objects p h = ground arith

pub update_there :
    (objects : ℕ → Option Hash) (p q : ℕ) (h : Hash) → q ≢ p → update objects p h q ≡ objects q
update_there objects p q h ne = ground (arith, ne)

-- The object above all others, in the larger heap `gen'`.
new-IsObject :
    (k : ℕ) (gen gen' : YoungGen) (p : ℕ) (h : Hash)
    → IsHeap gen
    → 4 ≤ k
    → IsFresh k h
    → is_redirect h.type ≡ false
    → p ≡ top gen
    → gen'.base ≡ gen.base
    → gen.allocated < gen'.allocated
    → IsObject gen' p h
new-IsObject k gen gen' p h v lo fresh plain at base more = record {
  above = omega arith;
  below = omega arith;
  aligned = omega (arith, v.aligned, v.even);
  inside = omega arith;
  leads = λ on. cc;
  table = λ _. (k, lo, fresh.valid.small, IsFresh-IsRoomy k h fresh);
}

-- An object of the heap is one of a larger heap with the same objects and more.
pub old-IsObject :
    (gen gen' : YoungGen) (p : ℕ) (h : Hash)
    → IsObject gen p h
    → gen'.base ≡ gen.base
    → gen.allocated ≤ gen'.allocated
    → ((q : ℕ) (o : Hash) → gen.objects q ≡ some o → (o' : Hash) × (gen'.objects q ≡ some o'))
    → IsObject gen' p h
old-IsObject gen gen' p h v base more kept = record {
  above = v.above;
  below = omega (arith, v.below);
  aligned = v.aligned;
  inside = omega (arith, v.inside);
  leads = λ on. let (up, h', e) = v.leads on in let (o, there) = kept h.size h' e in (up, o, there);
  table = v.table;
}

-- Storing an object of `2 ^ k` empty slots above all others.
pub store-IsHeap :
    (k : ℕ) (gen gen' : YoungGen) (p : ℕ) (h : Hash)
    → IsHeap gen
    → 4 ≤ k
    → IsFresh k h
    → is_redirect h.type ≡ false
    → p ≡ top gen
    → gen'.base ≡ gen.base
    → gen.allocated < gen'.allocated
    → gen'.allocated ≤ block_size
    → gen'.allocated % 4 ≡ 0
    → gen'.objects ≡ update gen.objects p h
    → IsHeap gen'
store-IsHeap k gen gen' p h v lo fresh plain at base more fits even objects = record {
  aligned = omega (arith, v.aligned);
  width = omega (arith, v.width);
  even = even;
  used = fits;
  each = λ q o e. elim (ℕ_discrete q p) [
    | yes same ↦
        let e' : ◌≡◌ {A = Option Hash} (some h) (some o) =
          sym (update_here gen.objects p h)
          ∙ sym (ap (update gen.objects p h) same)
          ∙ sym (ap (λ f. f q) objects)
          ∙ e in
        subst (λ x. IsObject gen' x o) (sym same)
          (subst (IsObject gen' p) (some_injective e')
            (new-IsObject k gen gen' p h v lo fresh plain at base more))
    | no apart ↦
        let old = sym (update_there gen.objects p q h apart) ∙ sym (ap (λ f. f q) objects) ∙ e in
        old-IsObject gen gen' q o (v.each q o old) base (omega arith) λ r x there.
          let below = (v.each r x there).below in
          (x, ap (λ f. f r) objects ∙ update_there gen.objects p r h (omega arith) ∙ there)
  ];
}

pub young_gen_new_hash-Allocated :
    (k : ℕ) (gen : YoungGen) (type : HashType)
    → 4 ≤ k
    → k ≤ 31
    → is_redirect type ≡ false
    → IsHeap gen
    → HasRoom k gen
    → (p : ℕ) × (gen' : YoungGen) × (young_gen_new_hash gen (2 ^ k) type ≡ ok (some (p, gen')))
      × Allocated k type gen p gen'
unfolding young_gen_new_hash young_gen_allocate init_at write_new hash_total_size
young_gen_new_hash-Allocated k gen type lo small plain v room =
    let (h, made, (fresh, typed)) = hash_init-IsFresh k type small in
    let p = top gen in
    let size = 20 + 2 ^ k * 8 in
    let gen₁ : YoungGen = record gen {
      allocated = gen.allocated + size;
      object_count = add gen.object_count 1;
    } in
    let gen' = store gen₁ p h in
    let total : add 20 (mul (2 ^ k) 8) ≡ size = omega arith in
    let address : add (add gen.base block_header) gen.allocated ≡ p =
      omega (arith, v.width, v.used) in
    let mark : add gen.allocated size ≡ gen.allocated + size = omega arith in
    let fits : ltb block_size (gen.allocated + size) ≡ false = ground arith in
    let inside : ltb (gen.base + block_size) (p + size) ≡ false = ground (arith, room) in
    (
      p,
      gen',
      rw (normalize_power k small, total, mark, fits, made, address, total, inside) refl,
      record {
        heap =
            store-IsHeap k gen gen' p h v lo fresh (ap is_redirect typed ∙ plain) refl refl
              (omega arith) (omega arith) (omega (arith, v.even)) refl;
        new = omega arith;
        object = h;
        there = update_here gen.objects p h;
        fresh = fresh;
        typed = typed;
        others = λ q ne. update_there gen.objects p q h ne;
        more = omega arith;
      },
    )

-- A new heap is well formed, wherever its block lies.
pub young_gen_new-IsHeap :
    (base : ℕ)
    → base % 4 ≡ 0
    → base + block_header + block_size < 2 ^ 32
    → IsHeap (young_gen_new base)
unfolding young_gen_new
young_gen_new-IsHeap base aligned width = record {
  aligned = aligned;
  width = width;
  even = omega arith;
  used = omega arith;
  each = λ p h e. cc;
}
