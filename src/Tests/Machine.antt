-- ===== src/Tests/Machine.antt =====
-- Runs of the virtual machine of src/cvm.c with its heap.
use native.Mathlib.Decide.{ℕ_discrete}
use cript.Hash.Rehash.{blank, blank-IsFresh}
use cript.Hash.{
  Hash, ht_object, ht_array, ht_closure, hi_closure, next_index, expand_size, hash_need_expand,
  ctz_loop, is_power_of_two, hash_init, find_loop, hash_find, set_loop, write_at, hash_set,
  rehash_loop, hash_rehash, is_live,
}
use cript.Inst.{
  Inst, i_li, i_mov, i_ret, i_new_arr, i_set_obj, i_get_obj, i_call, new_d_type, new_i_type,
}
use cript.Prelude.Run.{Run, ok, trap, ◌>>=◌, Returns}
use cript.Prelude.{
  arith, ℕ, zero, suc, ◌+◌, ◌*◌, ◌≤◌, ◌<◌, ◌≡◌, refl, sym, ap, ◌∙◌, true, false, ◌==◌,
  if◌then◌else◌, none, some, List, [], ◌∷◌, length,
}
use cript.Value.{
  Value, value_is_int, value_to_int, value_from_int, value_is_string, value_to_string,
  value_from_string, value_is_ptr, value_to_ptr, value_from_ptr, value_is_null, value_is_undefined,
  value_undefined,
}
use cript.Vm.Access.{exec_set_obj-exec_get_obj}
use cript.Vm.Allocate.{
  young_gen_new-IsHeap, store-IsHeap, some_injective, update_here, update_there,
}
use cript.Vm.Block.{young_gen_allocate_bounds}
use cript.Vm.Calls.{
  exec_call, initial_regs, new_frame, push_frame, argument_loop, captured_loop, function_of,
  setup_function_frame, enter, call_host, call_closure, call_by_type, by_heap, vm_inst, vm_at,
  vm_step, with_frames, after_vm_step, vm_run,
}
use cript.Vm.Closures.{Entered, exec_call-exec_ret}
use cript.Vm.Frames.{is_false, exec_bnr, exec_j, exec_ret, on_registers, exec_inst}
use cript.Vm.Heap.{
  YoungGen, block_size, block_header, update, store, load, bits_loop, hash_normalize_capacity,
  hash_total_size, young_gen_allocate, write_new, init_at, young_gen_new_hash, young_gen_new,
  follow_loop, follow,
}
use cript.Vm.Objects.{
  VmFunction, VmState, Collector, Host, get_register, allocate_new_hash, try_alloc,
  get_hash_in_register, redirect, expand_in_register, set_hash_in_register, key_of, exec_set_obj,
  exec_get_obj, exec_new,
}
use cript.Vm.Pointers.{PointsTo, pointer_to, follow_self}
use cript.Vm.Redirects.{top, IsHeap, Stands, follow_total}
use cript.Vm.Registers.{
  Regs, set_register, int_of, exec_li, exec_mov, exec_undefined, by_type, register_inst,
}
use cript.Vm.SetObject.{Stored, set_hash_in_register-Stored}
use cript.Vm.Stores.{store_over-IsHeap}
use cript.Vm.Writes.{IsLight}

running_machine : Unit {0}
unfolding new_d_type new_i_type next_index expand_size hash_need_expand ctz_loop is_power_of_two
    hash_init find_loop hash_find set_loop write_at hash_set rehash_loop hash_rehash value_is_int
    value_to_int value_from_int value_is_string value_to_string value_from_string value_is_ptr
    value_to_ptr value_from_ptr value_is_null value_is_undefined initial_regs new_frame push_frame
    argument_loop captured_loop function_of setup_function_frame enter call_host call_closure
    call_by_type exec_call by_heap vm_inst vm_at vm_step with_frames after_vm_step vm_run is_false
    exec_bnr exec_j exec_ret on_registers exec_inst load bits_loop hash_normalize_capacity
    hash_total_size young_gen_allocate write_new init_at young_gen_new_hash young_gen_new
    follow_loop follow allocate_new_hash try_alloc get_hash_in_register redirect expand_in_register
    set_hash_in_register key_of exec_set_obj exec_get_obj exec_new set_register int_of exec_li
    exec_mov exec_undefined by_type register_inst
running_machine = tt

abbrev no_collector : Collector
no_collector vm = trap

abbrev no_host : Host
no_host f vm v = trap

abbrev base : ℕ
base = 33554432

abbrev machine : YoungGen → List Inst → ℕ → Regs → VmState
machine gen insts pc regs = record {
  young_gen = gen;
  global = 0;
  functions = λ f. none;
  frame = record {
    inst_list = record { capacity = length insts; count = length insts; insts = insts };
    pc = pc;
    regs = regs;
  };
  frames = [];
  external = 0;
  scenes = [];
}

-- a[0] = 0; ...; a[n - 1] = n - 1, with the array in register 2
abbrev fill : ℕ → List Inst → List Inst
unfolding running_machine
fill zero rest = rest
fill (suc n) rest =
    new_i_type i_li 3 n ∷ new_i_type i_li 4 (n + 100) ∷ new_d_type i_set_obj 2 4 3 ∷ fill n rest

-- An array with another name in register 6, which is read there after the array has moved.
abbrev program : ℕ → List Inst
unfolding running_machine
program n =
    new_d_type i_new_arr 2 0 0
    ∷ new_d_type i_mov 6 2 0
    ∷ fill n (new_i_type i_li 3 5 ∷ new_d_type i_get_obj 5 6 3 ∷ new_d_type i_ret 5 0 0 ∷ [])

abbrev result : Run (VmState × Value) → Run Value
result run = run >>= λ r. ok r.1

moved_and_read :
    result (
      vm_run 60 no_collector no_host
        (machine (young_gen_new base) (program 14) 0 (λ r. value_undefined)))
    ≡ ok (value_from_int 105)
unfolding running_machine
moved_and_read = refl

-- the first address behind the header of an empty block
abbrev first : ℕ
first = 35651600

abbrev second : ℕ
second = 35651748

-- A heap with one empty object at `first`.
abbrev one_object : YoungGen
one_object = record {
  base = base;
  allocated = 1048732;
  object_count = 1;
  objects = update (λ p. none) first (blank 4 ht_object);
}

-- The same with an empty array behind it.
abbrev two_objects : YoungGen
two_objects = record {
  base = base;
  allocated = 1048880;
  object_count = 2;
  objects = update (update (λ p. none) first (blank 4 ht_object)) second (blank 4 ht_array);
}

empty-IsHeap : IsHeap (young_gen_new base)
empty-IsHeap = young_gen_new-IsHeap base refl (omega arith)

one_object-IsHeap : IsHeap one_object
unfolding young_gen_new
one_object-IsHeap =
    store-IsHeap 4 (young_gen_new base) one_object first (blank 4 ht_object) empty-IsHeap
      (omega arith) (blank-IsFresh 4 ht_object (omega arith)) refl refl refl (omega arith)
      (omega arith) refl refl

two_objects-IsHeap : IsHeap two_objects
two_objects-IsHeap =
    store-IsHeap 4 one_object two_objects second (blank 4 ht_array) one_object-IsHeap (omega arith)
      (blank-IsFresh 4 ht_array (omega arith)) refl refl refl (omega arith) (omega arith) refl refl

blank_light : hash_need_expand (blank 4 ht_object) ≡ false
unfolding hash_need_expand
blank_light = refl

one_object-IsLight : IsLight one_object
one_object-IsLight p h e t = elim (ℕ_discrete p first) [
  | yes same ↦
      let as_blank = some_injective (
        sym (update_here (λ x. none) first (blank 4 ht_object))
        ∙ sym (ap one_object.objects same)
        ∙ e) in
      ap hash_need_expand (sym as_blank) ∙ blank_light
  | no ne ↦ let nothing = sym (update_there (λ x. none) first p (blank 4 ht_object) ne) ∙ e in cc
]

follow_total_example : Returns (follow one_object first) (Stands one_object)
follow_total_example = follow_total one_object first (blank 4 ht_object) one_object-IsHeap refl

young_gen_allocate_bounds_example :
    (block_size < 1048732 + 148 → young_gen_allocate one_object 148 ≡ none)
    × (1048732 + 148 ≤ block_size
        → (p : ℕ) × (gen' : YoungGen) × (young_gen_allocate one_object 148 ≡ some (p, gen'))
          × (top one_object ≡ p)
          × (top gen' ≡ p + 148)
          × (1048732 + 148 + block_header ≤ block_size → p + 148 ≤ base + block_size)
          × (block_size < 1048732 + 148 + block_header → base + block_size < p + 148))
young_gen_allocate_bounds_example =
    young_gen_allocate_bounds one_object 148 (omega arith) (omega arith) (omega arith)

-- Registers 2 and 6 hold the object, register 3 a string and register 4 a number.
abbrev holding : Regs
holding r =
    if r == 2
    then value_from_ptr first
    else (if r == 6
        then value_from_ptr first
        else (if r == 3 then value_from_string 4096 else value_from_int 7))

abbrev holder : VmState
holder = machine one_object [] 0 holding

first-Stands : Stands one_object first
first-Stands = record { object = blank 4 ht_object; there = refl; last = refl }

holder-PointsTo : PointsTo holder 2 first × PointsTo holder 6 first
holder-PointsTo =
    let (pointer, back) = pointer_to one_object first one_object-IsHeap first-Stands in
    let to = follow_self one_object first one_object-IsHeap first-Stands in
    let leads = ap (follow one_object) back ∙ to in
    (record { pointer = pointer; leads = leads }, record { pointer = pointer; leads = leads })

seven_live : is_live (value_from_int 7) ≡ true
unfolding value_from_int value_is_undefined value_is_null value_is_ptr value_to_ptr
seven_live = refl

abbrev room : one_object.allocated + 20 + 16 * 16 + block_header ≤ block_size
room = omega arith

set_hash_in_register-Stored_example :
    (moved : ℕ → ℕ) × Returns
      (set_hash_in_register no_collector holder 2 4096 (value_from_int 7))
      (Stored holder 2 first 4096 (value_from_int 7) moved)
set_hash_in_register-Stored_example =
    set_hash_in_register-Stored no_collector holder 2 first 4096 (value_from_int 7)
      (blank 4 ht_object) one_object-IsHeap one_object-IsLight holder-PointsTo.0 refl refl room
      seven_live

-- holder[register 3] = register 4, and register 5 = register 6[register 3]
abbrev write : Inst
write = record { type = i_set_obj; i_rd = 2; info = 196612 }

abbrev read : Inst
read = record { type = i_get_obj; i_rd = 5; info = 196614 }

key_of_string : key_of ht_object (value_from_string 4096) ≡ ok 4096
unfolding key_of value_is_string value_to_string value_from_string
key_of_string = refl

exec_set_obj-exec_get_obj_example :
    Returns
      (exec_set_obj no_collector write holder >>= exec_get_obj read)
      λ vm'. get_register vm' 5 ≡ value_from_int 7
exec_set_obj-exec_get_obj_example =
    exec_set_obj-exec_get_obj no_collector write read holder first 4096 (blank 4 ht_object)
      one_object-IsHeap one_object-IsLight holder-PointsTo.0 refl refl room (omega arith)
      (omega arith) key_of_string seven_live holder-PointsTo.1 (omega arith) (omega arith) refl
      (omega arith)

-- A closure that captures nothing at `first`, and its arguments at `second`.
abbrev closure : Hash
closure = record (blank 4 ht_object) { type = ht_closure; info = hi_closure 64 }

abbrev calling : YoungGen
calling = store two_objects first closure

calling-IsHeap : IsHeap calling
calling-IsHeap =
    store_over-IsHeap two_objects first (blank 4 ht_object) closure two_objects-IsHeap refl
      (record {
        above = omega arith;
        below = omega arith;
        aligned = refl;
        inside = omega arith;
        leads = λ on. cc;
        table = λ t. cc;
      })

-- one argument
abbrev callee : VmFunction
callee = record {
  arguments_nr = 1;
  register_nr = 4;
  capture_list = blank 4 ht_object;
  inst_list = record { capacity = 0; count = 0; insts = [] };
}

-- register 5 = register 2 (register 6)
abbrev call : Inst
call = record { type = i_call; i_rd = 5; info = 393218 }

abbrev caller_regs : Regs
caller_regs r =
    if r == 2
    then value_from_ptr first
    else (if r == 6 then value_from_ptr second else value_undefined)

abbrev caller : VmState
caller = record (machine calling (call ∷ []) 1 caller_regs) {
  functions = λ f. if f == 64 then some callee else none;
}

caller-PointsTo : PointsTo caller 2 first × PointsTo caller 6 second
caller-PointsTo =
    let s : Stands calling first = record { object = closure; there = refl; last = refl } in
    let s' : Stands calling second = record {
      object = blank 4 ht_array;
      there = refl;
      last = refl;
    } in
    let (pointer, back) = pointer_to calling first calling-IsHeap s in
    let (pointer', back') = pointer_to calling second calling-IsHeap s' in
    (
      record {
        pointer = pointer;
        leads = ap (follow calling) back ∙ follow_self calling first calling-IsHeap s;
      },
      record {
        pointer = pointer';
        leads = ap (follow calling) back' ∙ follow_self calling second calling-IsHeap s';
      },
    )

exec_call-exec_ret_example :
    Returns (exec_call no_host call caller) (Entered call caller callee closure (blank 4 ht_array))
exec_call-exec_ret_example =
    exec_call-exec_ret no_host call caller 64 first second callee closure (blank 4 ht_array)
      calling-IsHeap caller-PointsTo.0 refl refl refl refl caller-PointsTo.1 refl refl refl refl
