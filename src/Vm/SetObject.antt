-- ===== src/Vm/SetObject.antt =====
-- `_cvm_set_hash_in_register` of src/cvm.c: what it promises to the holders of pointers.
use native.Mathlib.Decide.{ℕ_discrete}
use native.Mathlib.Nat.{pow-suc}
use cript.Hash.Mask.{pow-le}
use cript.Hash.Resize.{IsRoomy, rehash_keeping_type}
use cript.Hash.Set.Write.{Wrote, hash_set_live-Wrote}
use cript.Hash.Slots.{counts-le}
use cript.Hash.{Hash, HashType, is_live, expand_size, hash_need_expand}
use cript.Prelude.Run.{ok, Returns, ok_injective}
use cript.Prelude.{
  ℕ, suc, ◌+◌, ◌*◌, ◌^◌, ◌≤◌, ◌≡◌, ◌≢◌, refl, sym, ap, subst, ◌∙◌, true, ltb, some, inl, inr,
  Bool-cases, arith,
}
use cript.Value.{Value, value_to_ptr}
use cript.Vm.Allocate.{Allocated, young_gen_new_hash-Allocated}
use cript.Vm.Heap.{YoungGen, block_size, block_header, store, is_redirect, follow}
use cript.Vm.Objects.{
  VmState, Collector, get_register, with_regs, with_gen, allocate_new_hash, try_alloc,
  expand_in_register, set_hash_in_register,
}
use cript.Vm.Moves.{moved_to, moved_gen, moved-Written, redirect_moved, moved_on}
use cript.Vm.Pointers.{PointsTo, holds_pointer, get_hash_lem, follow_settled}
use cript.Vm.Redirects.{is_table, IsHeap, load-some}
use cript.Vm.Registers.{Regs}
use cript.Vm.Stores.{follow_loop_same}
use cript.Vm.Writes.{
  IsLight, Written, stay-Written, written-IsHeap, written_leads, gap_after, plain,
}

-- The state `vm'` is `vm` with `val` written under `key` in the object at `q`, to which register `reg` led. Every
-- register that led to an object leads to where this is now; only `reg` may hold another value than before.
pub record Stored (vm : VmState) (reg q key : ℕ) (val : Value) (moved : ℕ → ℕ) (vm' : VmState)
    : Type 0 where
  pub written : Written vm.young_gen q key val moved vm'.young_gen
  pub points : (i s : ℕ) → PointsTo vm i s → PointsTo vm' i (moved s)
  pub others : (i : ℕ) → i ≢ reg → get_register vm' i ≡ get_register vm i
  pub rest : vm' ≡ with_gen (with_regs vm vm'.frame.regs) vm'.young_gen

Stored-of :
    (vm : VmState) (reg q key : ℕ) (val : Value) (moved : ℕ → ℕ) (regs : Regs) (gen' : YoungGen)
    → PointsTo vm reg q
    → Written vm.young_gen q key val moved gen'
    → ((i : ℕ) → i ≢ reg → regs i ≡ get_register vm i)
    → PointsTo (with_gen (with_regs vm regs) gen') reg (moved q)
    → Stored vm reg q key val moved (with_gen (with_regs vm regs) gen')
Stored-of vm reg q key val moved regs gen' to w others there = record {
  written = w;
  points = λ i s t. elim (ℕ_discrete i reg) [
    | yes same ↦
        let t' = subst (λ x. PointsTo vm x s) same t in
        let at_q = ok_injective (sym to.leads ∙ t'.leads) in
        subst (λ x. PointsTo (with_gen (with_regs vm regs) gen') x (moved s)) (sym same)
          (subst (λ x. PointsTo (with_gen (with_regs vm regs) gen') reg (moved x)) at_q there)
    | no ne ↦ record {
      pointer = ap holds_pointer (others i ne) ∙ t.pointer;
      leads =
          ap (λ x. follow gen' (value_to_ptr x)) (others i ne)
          ∙ w.leads (value_to_ptr (get_register vm i)) s t.leads;
    }
  ];
  others = others;
  rest = refl;
}

-- An allocation changes no way through the heap.
allocate_leads :
    {k n : ℕ} {type : HashType} {gen gen' : YoungGen} (v : IsHeap gen)
    → Allocated k type gen n gen'
    → (p s : ℕ) → follow gen p ≡ ok s
    → follow gen' p ≡ ok s
unfolding follow
allocate_leads {n} {gen} {gen'} v al p s e = follow_settled gen.allocated gen' p s al.heap (
    follow_loop_same gen.allocated gen gen' p s
      (λ r o there. (
        o,
        al.others r (λ same. omega (arith, same, (v.each r o there).below, al.new)) ∙ there,
        refl,
        λ _. refl,
      ))
      e)

small_of_room : (k n : ℕ) → n ≡ 2 ^ k → n * 16 ≤ 33554432 → k ≤ 30
small_of_room k n e room = elim (Bool-cases (ltb 30 k)) [
  | inr le ↦ ground (arith, le)
  | inl gt ↦ let big = pow-le 31 k (ground (arith, gt)) in absurd (omega arith)
]

module _ (young_gc : Collector) (vm : VmState) (reg q key : ℕ) (val : Value) (h : Hash)
    (v : IsHeap vm.young_gen) (light : IsLight vm.young_gen) (to : PointsTo vm reg q)
    (there : vm.young_gen.objects q ≡ some h) (table : is_table h.type ≡ true)
    (room : vm.young_gen.allocated + 20 + h.capacity * 16 + block_header ≤ block_size) where
  -- the branch in which the written object `h'` need be expanded, with the registers as the first look left them
  grow :
      (k : ℕ) (h' : Hash) (regs : Regs)
      → 4 ≤ k
      → k ≤ 30
      → h.capacity ≡ 2 ^ k
      → IsRoomy k h'
      → Wrote k h key val h'
      → ((i : ℕ) → i ≢ reg → regs i ≡ get_register vm i)
      → PointsTo (with_regs vm regs) reg q
      → (moved : ℕ → ℕ) × Returns
          (expand_in_register young_gc
            (with_gen (with_regs vm regs) (store vm.young_gen q h'))
            reg
            h')
          (Stored vm reg q key val moved)
  unfolding expand_in_register allocate_new_hash try_alloc
  grow k h' regs lo hi width roomy wrote others points =
      let gen₁ = store vm.young_gen q h' in
      let v₁ = written-IsHeap v light there table lo roomy wrote in
      let still = ap is_redirect wrote.same_type ∙ plain v light there table lo roomy wrote in
      let (n, gen₂, made, al) =
        young_gen_new_hash-Allocated (suc k) gen₁ h'.type (omega arith) (omega arith) still v₁
          (omega (arith, room, width, pow-suc 2 k)) in
      let vm₃ = with_gen (with_regs vm regs) gen₂ in
      let to₃ : PointsTo vm₃ reg q = record {
        pointer = points.pointer;
        leads = allocate_leads v₁ al (value_to_ptr (regs reg)) q (
            written_leads v light there table lo roomy wrote (value_to_ptr (regs reg)) q
              points.leads);
      } in
      let (regs₄, again, others₄, points₄) = get_hash_lem vm₃ reg q al.heap to₃ in
      let (copy, copied, (c, typed)) =
        rehash_keeping_type roomy.valid (suc k) al.object al.fresh
          (omega (arith, counts-le h'.content, roomy.valid.slots, pow-suc 2 k, roomy.gap)) in
      let gen₅ = moved_gen v light there table lo hi roomy wrote al c typed in
      let turned = redirect_moved v light there table lo hi roomy wrote al c typed copied in
      let w = moved-Written v light there table lo hi roomy wrote al c typed in
      let twice : expand_size h'.capacity ≡ 2 ^ suc k =
        unfold expand_size in omega (arith, roomy.valid.width, pow-suc 2 k, pow-le k 30 hi) in
      (
        moved_to q n,
        (
          with_gen (with_regs vm₃ regs₄) gen₅,
          rw (twice, made, again, turned) refl,
          Stored-of vm reg q key val (moved_to q n) regs₄ gen₅ to w
              (λ i ne. others₄ i ne ∙ others i ne)
              (record {
                pointer = points₄.pointer;
                leads =
                    moved_on v light there table lo hi roomy wrote al c typed
                      (value_to_ptr (regs₄ reg)) points₄.leads;
              }),
        ),
      )

  -- In a well-formed heap whose tables are loaded to three quarters at most, with room for the object in twice its
  -- slots before the end of the block, writing a live value to an object or array that a register leads to returns. In the new heap, which is again
  -- like that, the object reads as before but for the value under the key, whether it has moved or not, and every other
  -- object as before; whatever led to an object, a register or a pointer elsewhere, leads to it still.
  pub set_hash_in_register-Stored :
      is_live val ≡ true
      → (moved : ℕ → ℕ) × Returns
          (set_hash_in_register young_gc vm reg key val)
          (Stored vm reg q key val moved)
  unfolding set_hash_in_register
  set_hash_in_register-Stored live =
      let (k, lo, small, roomy) = (v.each q h there).table table in
      let hi = small_of_room k h.capacity roomy.valid.width (omega (arith, room)) in
      let (regs, got, others, points) = get_hash_lem vm reg q v to in
      let (h', set, wrote) = hash_set_live-Wrote roomy.valid key val roomy.gap live in
      let roomy' : IsRoomy k h' = record {
        valid = wrote.valid;
        solid = wrote.solid live roomy.solid;
        gap = gap_after k key val h h' lo roomy (light q h there table) wrote;
      } in
      elim (Bool-cases (hash_need_expand h')) [
        | inl need ↦
            let (moved, (vm', run, s)) =
              grow k h' regs lo hi roomy.valid.width roomy' wrote others points in
            (moved, (vm', rw (got, load-some vm.young_gen q h there, set, need) run, s))
        | inr stay ↦
            let gen' = store vm.young_gen q h' in
            let w = stay-Written v light there table lo roomy' wrote stay in
            (
              (λ s. s),
              (
                with_gen (with_regs vm regs) gen',
                rw (got, load-some vm.young_gen q h there, set, stay) refl,
                Stored-of vm reg q key val (λ s. s) regs gen' to w others
                    (record {
                      pointer = points.pointer;
                      leads = w.leads (value_to_ptr (regs reg)) q points.leads;
                    }),
              ),
            )
      ]
