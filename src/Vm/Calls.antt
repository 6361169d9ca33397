-- ===== src/Vm/Calls.antt =====
-- Calls, closures and scenes of src/cvm.c, and its loop with all instructions.
use cript.Hash.{
  Hash, HashNode, HashType, ht_object, ht_array, ht_lightfunc, ht_closure, HashInfo, hi_func,
  hi_closure, hash_find, hash_set, is_live,
}
use cript.Inst.{
  InstType, Inst, i_rs, i_rt, i_imm, i_new_obj, i_new_arr, i_set_obj, i_get_obj, i_call, i_new_cls,
}
use cript.Prelude.Run.{Run, ok, trap, forever, wild, ◌>>=◌, ◌>>◌, assert}
use cript.Prelude.{
  ℕ, zero, suc, ◌+◌, ◌==◌, if◌then◌else◌, Option, none, some, List, [], ◌∷◌, get_elem?,
}
use cript.Value.{Value, value_is_int, value_to_int, value_from_int, value_from_ptr, value_undefined}
use cript.Vm.Frames.{Frame, Next, running, finished, exec_inst}
use cript.Vm.Heap.{load, store}
use cript.Vm.Objects.{
  VmFunction, VmState, Collector, Host, get_register, put_register, with_regs, with_gen,
  allocate_new_hash, get_hash_in_register, exec_set_obj, exec_get_obj, exec_new,
}
use cript.Vm.Registers.{Regs, set_register}
use cript.Word.{add}

-- a new frame's registers
unfoldable pub initial_regs : ℕ → Regs
initial_regs global i =
    if i == 0 then value_from_int 0 else (if i == 1 then value_from_ptr global else value_undefined)

unfoldable pub new_frame : ℕ → VmFunction → Frame
new_frame global function = record {
  inst_list = function.inst_list;
  pc = 0;
  regs = initial_regs global;
}

unfoldable pub push_frame : VmState → VmFunction → VmState
push_frame vm function = record vm {
  frame = new_frame vm.global function;
  frames = vm.frame ∷ vm.frames;
}

-- The arguments `i`, `i + 1`, … go to the registers after them.
unfoldable pub argument_loop : ℕ → ℕ → Hash → Regs → Run Regs
argument_loop zero i args regs = ok regs
argument_loop (suc n) i args regs = do
  val ← hash_find args i
  argument_loop n (i + 1) args (set_register regs (i + 1) val)

-- What a closure has captured goes to the registers that its keys are.
unfoldable pub captured_loop : List HashNode → Regs → Regs
captured_loop [] regs = regs
captured_loop (node ∷ nodes) regs =
    captured_loop nodes (if is_live node.value then set_register regs node.key node.value else regs)

abbrev pub known_or_wild : Option VmFunction → Run VmFunction
known_or_wild none = wild
known_or_wild (some function) = ok function

unfoldable pub function_of : VmState → HashInfo → Run VmFunction
function_of vm (hi_closure f) = known_or_wild (vm.functions f)
function_of vm _ = wild

unfoldable pub setup_function_frame : VmState → VmFunction → Hash → Hash → Run VmState
setup_function_frame vm function closure args = do
  regs ← argument_loop (function.arguments_nr + 1) 0 args vm.frame.regs
  ok (with_regs vm (captured_loop closure.content regs))

-- the call of a closure: a frame for it
unfoldable pub enter : VmState → Hash → ℕ → Run VmState
enter vm func args = do
  args' ← load vm.young_gen args
  function ← function_of vm func.info
  setup_function_frame (push_frame vm function) function func args'

unfoldable pub call_host : Host → HashInfo → Inst → VmState → Run VmState
call_host host (hi_func f) inst vm = do
  (vm', val) ← host f vm (get_register vm (i_rt inst))
  ok (put_register vm' inst.i_rd val)
call_host host _ inst vm = wild

unfoldable pub call_closure : Inst → VmState → Hash → Run VmState
call_closure inst vm func = do
  (args, vm₁) ← get_hash_in_register vm (i_rt inst)
  enter vm₁ func args

unfoldable pub call_by_type : HashType → Host → Inst → VmState → Hash → Run VmState
call_by_type ht_lightfunc host inst vm func = call_host host func.info inst vm
call_by_type ht_closure host inst vm func = call_closure inst vm func
call_by_type _ host inst vm func = trap

unfoldable pub exec_call : Host → Inst → VmState → Run VmState
exec_call host inst vm = do
  (p, vm₁) ← get_hash_in_register vm (i_rs inst)
  func ← load vm₁.young_gen p
  call_by_type func.type host inst vm₁ func

-- Each live entry of the list names a register to be captured, and the register it has in the function.
unfoldable pub capture_loop : List HashNode → Regs → Hash → Run Hash
capture_loop [] regs closure = ok closure
capture_loop (node ∷ nodes) regs closure = do
  closure' ←
      (if is_live node.value
        then (assert (value_is_int node.value)
            >> hash_set closure (value_to_int node.value) (regs node.key))
        else ok closure)
  capture_loop nodes regs closure'

unfoldable pub new_closure : Collector → Inst → VmState → VmFunction → Run VmState
new_closure young_gc inst vm function = do
  (p, vm₁) ← allocate_new_hash young_gc vm function.capture_list.size ht_closure
  closure ← load vm₁.young_gen p
  let vm₂ = put_register vm₁ inst.i_rd (value_from_ptr p)
  closure' ←
      capture_loop function.capture_list.content vm₂.frame.regs
        (record closure { info = hi_closure (i_imm inst) })
  ok (with_gen vm₂ (store vm₂.young_gen p closure'))

unfoldable pub exec_new_cls : Collector → Inst → VmState → Run VmState
exec_new_cls young_gc inst vm =
    function_of vm (hi_closure (i_imm inst)) >>= λ function. new_closure young_gc inst vm function

-- what a step of the machine leads to
pub data VmNext : Type 0 where
  vm_running : VmState → VmNext
  vm_finished : VmState → Value → VmNext

-- A scene without a frame is left by `I_RET`, which returns its value, and by no other instruction. In the state
-- that the loop leaves the frame that has ended is still there; it goes with its scene.
unfoldable pub with_frames : VmState → Next → Run VmNext
with_frames vm (finished v) = ok (vm_finished vm v)
with_frames vm (running []) = wild
with_frames vm (running (frame ∷ frames)) =
    ok (vm_running (record vm { frame = frame; frames = frames }))

-- the instructions that use the heap
unfoldable pub by_heap : InstType → Collector → Host → Inst → VmState → Option (Run VmState)
by_heap i_new_obj young_gc host inst vm = some (exec_new ht_object young_gc inst vm)
by_heap i_new_arr young_gc host inst vm = some (exec_new ht_array young_gc inst vm)
by_heap i_set_obj young_gc host inst vm = some (exec_set_obj young_gc inst vm)
by_heap i_get_obj young_gc host inst vm = some (exec_get_obj inst vm)
by_heap i_call young_gc host inst vm = some (exec_call host inst vm)
by_heap i_new_cls young_gc host inst vm = some (exec_new_cls young_gc inst vm)
by_heap _ young_gc host inst vm = none

-- The others are those of `Vm/Frames`; a number that is no instruction traps.
unfoldable pub vm_inst : Option (Run VmState) → Option (Run Next) → VmState → Run VmNext
vm_inst (some run) other vm = run >>= λ vm'. ok (vm_running vm')
vm_inst none (some run) vm = run >>= λ next. with_frames vm next
vm_inst none none vm = trap

unfoldable pub vm_at : Option Inst → Collector → Host → VmState → Run VmNext
vm_at none young_gc host vm = wild
vm_at (some inst) young_gc host vm =
    let frame = record vm.frame { pc = add vm.frame.pc 1 } in
    let vm' = record vm { frame = frame } in
    vm_inst (by_heap inst.type young_gc host inst vm') (exec_inst inst.type inst frame vm.frames)
      vm'

unfoldable pub vm_step : Collector → Host → VmState → Run VmNext
vm_step young_gc host vm = vm_at (get_elem? vm.frame.inst_list.insts vm.frame.pc) young_gc host vm

unfoldable pub after_vm_step : (VmState → Run (VmState × Value)) → VmNext → Run (VmState × Value)
after_vm_step go_on (vm_running vm) = go_on vm
after_vm_step go_on (vm_finished vm v) = ok (vm, v)

-- at most `n` turns of the loop of `cvm_state_run`
unfoldable pub vm_run : ℕ → Collector → Host → VmState → Run (VmState × Value)
vm_run zero young_gc host vm = forever
vm_run (suc n) young_gc host vm =
    vm_step young_gc host vm >>= after_vm_step (λ vm'. vm_run n young_gc host vm')
