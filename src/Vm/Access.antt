-- ===== src/Vm/Access.antt =====
-- I_SET_OBJ and I_GET_OBJ of src/cvm.c, one after the other, and on what is no object.
use native.Mathlib.Decide.{ℕ_discrete}
use cript.Hash.Table.{hash_find-lookup}
use cript.Hash.Slots.{lookup}
use cript.Hash.{Hash, is_live}
use cript.Inst.{Inst, i_rs, i_rt}
use cript.Prelude.Run.{ok, ◌>>=◌, Returns, ok_injective}
use cript.Prelude.{
  ℕ, ◌+◌, ◌*◌, ◌≤◌, ◌≡◌, ◌≢◌, refl, sym, ap, subst, ◌∙◌, true, ◌&&◌, ◌==◌, if◌then◌else◌, some,
  arith,
}
use cript.Value.{Value, value_to_ptr}
use cript.Vm.Heap.{block_size, block_header, follow}
use cript.Vm.Objects.{
  VmState, Collector, get_register, with_regs, put_register, key_of, exec_set_obj, exec_get_obj,
}
use cript.Vm.Pointers.{PointsTo, holds_pointer, get_hash_lem, put_here}
use cript.Vm.Redirects.{is_table, IsHeap, load-some}
use cript.Vm.Registers.{Regs}
use cript.Vm.SetObject.{Stored, set_hash_in_register-Stored}
use cript.Vm.Writes.{IsLight, table_plain}

-- Reading a table, through a register that leads to it.
pub exec_get_obj_reads :
    (inst : Inst) (vm : VmState) (q key : ℕ) (h : Hash)
    → IsHeap vm.young_gen
    → PointsTo vm (i_rs inst) q
    → vm.young_gen.objects q ≡ some h
    → is_table h.type ≡ true
    → i_rt inst ≢ i_rs inst
    → key_of h.type (get_register vm (i_rt inst)) ≡ ok key
    → (regs : Regs) × (exec_get_obj inst vm
        ≡ ok (put_register (with_regs vm regs) inst.i_rd (lookup key h.content)))
unfolding exec_get_obj
exec_get_obj_reads inst vm q key h v to there table apart keyed =
    let (k, _, _, roomy) = (v.each q h there).table table in
    let (regs, got, others, _) = get_hash_lem vm (i_rs inst) q v to in
    let keyed' = ap (key_of h.type) (others (i_rt inst) apart) ∙ keyed in
    (
      regs,
      rw (got, load-some vm.young_gen q h there, keyed', hash_find-lookup roomy.valid key roomy.gap)
          refl,
    )

-- after a look through `reg`, every register leads to where it led
pub same_points :
    (vm : VmState) (reg q i s : ℕ) (regs : Regs)
    → PointsTo vm reg q
    → ((j : ℕ) → j ≢ reg → regs j ≡ get_register vm j)
    → PointsTo (with_regs vm regs) reg q
    → PointsTo vm i s
    → PointsTo (with_regs vm regs) i s
same_points vm reg q i s regs to others points t = elim (ℕ_discrete i reg) [
  | yes same ↦
      let t' = subst (λ x. PointsTo vm x s) same t in
      let at_q : s ≡ q = ok_injective (sym t'.leads ∙ to.leads) in
      subst (λ x. PointsTo (with_regs vm regs) x s) (sym same)
        (subst (PointsTo (with_regs vm regs) reg) (sym at_q) points)
  | no ne ↦ record {
    pointer = ap holds_pointer (others i ne) ∙ t.pointer;
    leads = ap (λ x. follow vm.young_gen (value_to_ptr x)) (others i ne) ∙ t.leads;
  }
]

module _ (young_gc : Collector) (set_inst get_inst : Inst) (vm : VmState) (q key : ℕ) (h : Hash)
    (v : IsHeap vm.young_gen) (light : IsLight vm.young_gen) (to : PointsTo vm set_inst.i_rd q)
    (there : vm.young_gen.objects q ≡ some h) (table : is_table h.type ≡ true)
    (room : vm.young_gen.allocated + 20 + h.capacity * 16 + block_header ≤ block_size) where
  set_obj-Stored :
      i_rt set_inst ≢ set_inst.i_rd
      → i_rs set_inst ≢ set_inst.i_rd
      → key_of h.type (get_register vm (i_rt set_inst)) ≡ ok key
      → is_live (get_register vm (i_rs set_inst)) ≡ true
      → (regs : Regs) × ((j : ℕ) → j ≢ set_inst.i_rd → regs j ≡ get_register vm j)
        × PointsTo (with_regs vm regs) set_inst.i_rd q
        × (moved : ℕ → ℕ) × Returns
            (exec_set_obj young_gc set_inst vm)
            (Stored (with_regs vm regs) set_inst.i_rd q key (get_register vm (i_rs set_inst)) moved)
  unfolding exec_set_obj
  set_obj-Stored key_apart val_apart keyed live =
      let (regs, got, others, points) = get_hash_lem vm set_inst.i_rd q v to in
      let val = get_register vm (i_rs set_inst) in
      let (moved, (vm', run, s)) =
        set_hash_in_register-Stored young_gc (with_regs vm regs) set_inst.i_rd q key val h v light
          points there table room live in
      let keyed' = ap (key_of h.type) (others (i_rt set_inst) key_apart) ∙ keyed in
      (
        regs,
        others,
        points,
        moved,
        (
          vm',
          rw (got, load-some vm.young_gen q h there, keyed', others (i_rs set_inst) val_apart) run,
          s,
        ),
      )

  -- In a well-formed heap whose tables are loaded to three quarters at most, with room for the object in twice
  -- its slots before the end of the block: when I_SET_OBJ has written a live value to an object or array, under a key of the kind that it
  -- takes, I_GET_OBJ with the same key, through any register that led to the object before, reads this value.
  -- The registers of the key and the value are none of those that hold the object, and the target of the read
  -- is not register 0.
  pub exec_set_obj-exec_get_obj :
      i_rt set_inst ≢ set_inst.i_rd
      → i_rs set_inst ≢ set_inst.i_rd
      → key_of h.type (get_register vm (i_rt set_inst)) ≡ ok key
      → is_live (get_register vm (i_rs set_inst)) ≡ true
      → PointsTo vm (i_rs get_inst) q
      → i_rt get_inst ≢ i_rs get_inst
      → i_rt get_inst ≢ set_inst.i_rd
      → get_register vm (i_rt get_inst) ≡ get_register vm (i_rt set_inst)
      → get_inst.i_rd ≢ 0
      → Returns
          (exec_set_obj young_gc set_inst vm >>= exec_get_obj get_inst)
          λ vm'. get_register vm' get_inst.i_rd ≡ get_register vm (i_rs set_inst)
  exec_set_obj-exec_get_obj key_apart val_apart keyed live alias get_apart get_apart' same_key
        target =
      let (regs, others, points, moved, (vm', run, s)) =
        set_obj-Stored key_apart val_apart keyed live in
      let (o, at, typed, reads) = s.written.reads q h there (table_plain h.type table) in
      let alias' =
        s.points (i_rs get_inst) q
          (same_points vm set_inst.i_rd q (i_rs get_inst) q regs to others points alias) in
      let key_there =
        s.others (i_rt get_inst) get_apart' ∙ others (i_rt get_inst) get_apart' ∙ same_key in
      let keyed' =
        ap (λ t. key_of t (get_register vm' (i_rt get_inst))) typed
        ∙ ap (key_of h.type) key_there
        ∙ keyed in
      let (regs', got) =
        exec_get_obj_reads get_inst vm' (moved q) key o s.written.heap alias' at
          (ap is_table typed ∙ table) get_apart keyed' in
      let written : lookup key o.content ≡ get_register vm (i_rs set_inst) =
        reads key ∙ here q key (get_register vm (i_rs set_inst)) (lookup key h.content) in
      (
        put_register (with_regs vm' regs') get_inst.i_rd (lookup key o.content),
        rw run got,
        put_here regs' get_inst.i_rd (lookup key o.content) target ∙ written,
      )
    where
      here : (q key : ℕ) (x y : Value) → (if q == q && key == key then x else y) ≡ x
      here q key x y = ground arith
