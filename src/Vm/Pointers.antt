-- ===== src/Vm/Pointers.antt =====
-- Registers that hold a pointer to an object, and `_cvm_get_hash_in_register` of src/cvm.c.
use native.Mathlib.Decide.{ℕ_discrete}
use cript.Hash.{Hash}
use cript.Prelude.Run.{Run, ok, Returns}
use cript.Prelude.{
  ℕ, zero, suc, ◌+◌, ◌<◌, ◌≡◌, ◌≢◌, refl, sym, ap, subst, ◌∙◌, Bool, true, false, not, ◌&&◌, some,
  inl, inr, Bool-cases, arith,
}
use cript.Value.Laws.{address_round_trip}
use cript.Value.{Value, value_is_ptr, value_to_ptr, value_from_ptr, value_is_null}
use cript.Vm.Heap.{YoungGen, is_redirect, follow_loop, follow}
use cript.Vm.Objects.{VmState, get_register, with_regs, put_register, get_hash_in_register}
use cript.Vm.Redirects.{IsHeap, Stands, load-some, follow_total, follow_loop_more}
use cript.Vm.Registers.{Regs, set_register}
use cript.Vm.Stores.{follow_step, follow_last, follow_loop-Stands}

-- the test of `_cvm_get_hash_in_register`
abbrev pub holds_pointer : Value → Bool
holds_pointer v = value_is_ptr v && not (value_is_null v)

-- The register holds a pointer that leads to the object at `q`.
pub record PointsTo (vm : VmState) (reg q : ℕ) : Type 0 where
  pub pointer : holds_pointer (get_register vm reg) ≡ true
  pub leads : follow vm.young_gen (value_to_ptr (get_register vm reg)) ≡ ok q

-- The outcome of `_cvm_get_hash_in_register`: `q`, and the state with at most the register changed.
pub record Got (vm : VmState) (reg q : ℕ) (r : ℕ × VmState) : Type 0 where
  pub found : r.0 ≡ q
  pub rest : r.1 ≡ with_regs vm r.1.frame.regs
  pub others : (i : ℕ) → i ≢ reg → get_register r.1 i ≡ get_register vm i
  pub points : PointsTo r.1 reg q

follow_first :
    (f : ℕ) (gen : YoungGen) (p s : ℕ)
    → follow_loop f gen p ≡ ok s
    → (h : Hash) × (gen.objects p ≡ some h) × (is_redirect h.type ≡ false → p ≡ s)
follow_first zero gen p s e = absurd (unfold follow_loop in cc)
follow_first (suc f) gen p s e =
    let (h, there, (_, ends)) = follow_step f gen p s e in (h, there, ends)

follow_self_loop :
    (f : ℕ) (gen : YoungGen) (q : ℕ) → 0 < f → Stands gen q → follow_loop f gen q ≡ ok q
follow_self_loop zero gen q some_fuel s = absurd (omega arith)
follow_self_loop (suc f) gen q some_fuel s = follow_last f gen q s.object s.there s.last

pub follow_self : (gen : YoungGen) (q : ℕ) → IsHeap gen → Stands gen q → follow gen q ≡ ok q
unfolding follow
follow_self gen q v s =
    let o = v.each q s.object s.there in
    follow_self_loop gen.allocated gen q (omega (arith, o.below, o.inside)) s

pub follow-Stands : (gen : YoungGen) (p q : ℕ) → follow gen p ≡ ok q → Stands gen q
unfolding follow
follow-Stands gen p q e = follow_loop-Stands gen.allocated gen p q e

-- The pointer to an object of the heap is read back.
pub pointer_to :
    (gen : YoungGen) (q : ℕ)
    → IsHeap gen
    → Stands gen q
    → (holds_pointer (value_from_ptr q) ≡ true) × (value_to_ptr (value_from_ptr q) ≡ q)
pointer_to gen q v s =
    let o = v.each q s.object s.there in
    let (_, _, is_ptr, to_ptr, is_null) =
      address_round_trip q (omega (arith, o.below, v.width, v.used)) o.aligned in
    (ground (arith, is_ptr, is_null, o.above), to_ptr)

pub put_here : (regs : Regs) (reg : ℕ) (v : Value) → reg ≢ 0 → set_register regs reg v reg ≡ v
unfolding set_register
put_here regs reg v ne = ground (arith, ne)

put_zero : (regs : Regs) (reg : ℕ) (v : Value) → reg ≡ 0 → set_register regs reg v reg ≡ regs reg
unfolding set_register
put_zero regs reg v e = ground (arith, e)

pub put_other : (regs : Regs) (reg i : ℕ) (v : Value) → i ≢ reg → set_register regs reg v i ≡ regs i
unfolding set_register
put_other regs reg i v ne = ground (arith, ne)

-- The register is set to where its pointer leads, if it is not register 0.
put_pointer-PointsTo :
    (vm : VmState) (reg q : ℕ)
    → IsHeap vm.young_gen
    → Stands vm.young_gen q
    → PointsTo vm reg q
    → PointsTo (put_register vm reg (value_from_ptr q)) reg q
put_pointer-PointsTo vm reg q v s to = elim (ℕ_discrete reg 0) [
  | yes e ↦
      let same = put_zero vm.frame.regs reg (value_from_ptr q) e in
      record {
        pointer = ap holds_pointer same ∙ to.pointer;
        leads = ap (λ x. follow vm.young_gen (value_to_ptr x)) same ∙ to.leads;
      }
  | no ne ↦
      let new = put_here vm.frame.regs reg (value_from_ptr q) ne in
      let (pointer, back) = pointer_to vm.young_gen q v s in
      record {
        pointer = ap holds_pointer new ∙ pointer;
        leads =
            ap (λ x. follow vm.young_gen (value_to_ptr x)) new
            ∙ ap (follow vm.young_gen) back
            ∙ follow_self vm.young_gen q v s;
      }
]

-- In a well-formed heap, `_cvm_get_hash_in_register` on a register that holds a pointer returns the object to which it
-- leads; of the state it changes at most this register, which then still leads there.
pub get_hash_in_register-Got :
    (vm : VmState) (reg q : ℕ)
    → IsHeap vm.young_gen
    → PointsTo vm reg q
    → Returns (get_hash_in_register vm reg) (Got vm reg q)
unfolding get_hash_in_register
get_hash_in_register-Got vm reg q v to =
    let p = value_to_ptr (get_register vm reg) in
    let stands = follow-Stands vm.young_gen p q to.leads in
    let (h, there, ends) =
      follow_first vm.young_gen.allocated vm.young_gen p q (unfold follow in to.leads) in
    elim (Bool-cases (is_redirect h.type)) [
      | inr last ↦ (
        (p, vm),
        rw (to.pointer, load-some vm.young_gen p h there, last) refl,
        record { found = ends last; rest = refl; others = λ i ne. refl; points = to },
      )
      | inl on ↦ (
        (q, put_register vm reg (value_from_ptr q)),
        rw (to.pointer, load-some vm.young_gen p h there, on, to.leads) refl,
        record {
          found = refl;
          rest = refl;
          others = λ i ne. put_other vm.frame.regs reg i (value_from_ptr q) ne;
          points = put_pointer-PointsTo vm reg q v stands to;
        },
      )
    ]

-- The same with the state that is returned written out.
pub get_hash_lem :
    (vm : VmState) (reg q : ℕ)
    → IsHeap vm.young_gen
    → PointsTo vm reg q
    → (regs : Regs) × (get_hash_in_register vm reg ≡ ok (q, with_regs vm regs))
      × ((i : ℕ) → i ≢ reg → regs i ≡ get_register vm i)
      × PointsTo (with_regs vm regs) reg q
get_hash_lem vm reg q v to =
    let (r, run, g) = get_hash_in_register-Got vm reg q v to in
    let found : ◌≡◌ {A = Run (ℕ × VmState)} (ok r) (ok (q, with_regs vm r.1.frame.regs)) =
      ap (λ x. ok (x, r.1)) g.found ∙ ap (λ s. ok (q, s)) g.rest in
    (r.1.frame.regs, run ∙ found, g.others, subst (λ s. PointsTo s reg q) g.rest g.points)

pub found_object :
    (f : ℕ) (gen : YoungGen) (p s : ℕ)
    → follow_loop f gen p ≡ ok s
    → (h : Hash) × (gen.objects p ≡ some h)
found_object f gen p s e = let (h, there, _) = follow_first f gen p s e in (h, there)

-- In a well-formed heap, where the loop ends with any fuel, it ends with the fuel given.
pub follow_settled :
    (f : ℕ) (gen : YoungGen) (p s : ℕ)
    → IsHeap gen
    → follow_loop f gen p ≡ ok s
    → follow gen p ≡ ok s
unfolding follow
follow_settled f gen p s v e =
    let (h, there) = found_object f gen p s e in
    let (x, run, _) = follow_total gen p h v there in
    let n = f + gen.allocated in
    let long = follow_loop_more f n gen p s (omega arith) e in
    let long' = follow_loop_more gen.allocated n gen p x (omega arith) run in run ∙ sym long' ∙ long
