-- ===== src/Vm/Closures.antt =====
-- Calls of closures in src/cvm.c: the new frame, and the way back.
use native.Mathlib.Decide.{ℕ_discrete}
use cript.Hash.Resize.{IsRoomy}
use cript.Hash.Slots.{lookup}
use cript.Hash.Table.{hash_find-lookup}
use cript.Hash.{Hash, HashNode, ht_closure, hi_closure, is_live}
use cript.Inst.{Inst, i_rs, i_rt}
use cript.InstList.{zero_inst}
use cript.Prelude.Run.{ok, Returns}
use cript.Prelude.{
  ℕ, zero, suc, ◌+◌, ◌≤◌, ◌<◌, ◌≡◌, ◌≢◌, refl, sym, ap, ◌∙◌, Bool, true, false, ◌&&◌, ◌||◌, ◌==◌,
  ltb, if◌then◌else◌, some, List, [], ◌∷◌, length, get_or, arith,
}
use cript.Value.{Value}
use cript.Vm.Access.{same_points}
use cript.Vm.Calls.{
  initial_regs, new_frame, push_frame, argument_loop, captured_loop, function_of, known_or_wild,
  setup_function_frame, enter, call_closure, call_by_type, exec_call,
}
use cript.Vm.Frames.{running, exec_ret}
use cript.Vm.Heap.{load}
use cript.Vm.Objects.{VmFunction, VmState, Host, get_register, with_regs, get_hash_in_register}
use cript.Vm.Pointers.{PointsTo, get_hash_lem, put_other, put_here}
use cript.Vm.Redirects.{is_table, IsHeap, load-some}
use cript.Vm.Registers.{Regs, set_register}
use cript.Word.{sub}

-- A live entry of the closure has this register.
unfoldable pub is_captured : List HashNode → ℕ → Bool
is_captured [] reg = false
is_captured (node ∷ nodes) reg = (is_live node.value && node.key == reg) || is_captured nodes reg

captured_loop_other :
    (nodes : List HashNode) (regs : Regs) (reg : ℕ)
    → is_captured nodes reg ≡ false
    → captured_loop nodes regs reg ≡ regs reg
unfolding captured_loop is_captured set_register
captured_loop_other [] regs reg e = refl
captured_loop_other (node ∷ nodes) regs reg e =
    captured_loop_other nodes
      (if is_live node.value then set_register regs node.key node.value else regs) reg
      (ground arith)
    ∙ ground arith

-- The loop over the arguments ends with each in its register, and the registers before them as they were.
argument_loop_total :
    (k n i : ℕ) (args : Hash) (regs : Regs)
    → IsRoomy k args
    → Returns (argument_loop n i args regs) λ regs'.
      ((j : ℕ) → i ≤ j → j < i + n → regs' (j + 1) ≡ lookup j args.content)
      × ((j : ℕ) → j ≤ i → regs' j ≡ regs j)
unfolding argument_loop
argument_loop_total k zero i args regs r =
    (regs, refl, ((λ j ge lt. absurd (omega arith)), λ j le. refl))
argument_loop_total k (suc n) i args regs r =
    let regs₁ = set_register regs (i + 1) (lookup i args.content) in
    let (regs', run, (given, before)) = argument_loop_total k n (i + 1) args regs₁ r in
    (
      regs',
      rw (hash_find-lookup r.valid i r.gap) run,
      (
        (λ j ge lt. elim (ℕ_discrete j i) [
          | yes same ↦
              ap (λ x. regs' (x + 1)) same
              ∙ before (i + 1) (omega arith)
              ∙ put_here regs (i + 1) (lookup i args.content) (omega arith)
              ∙ ap (λ x. lookup x args.content) (sym same)
          | no ne ↦ given j (omega arith) (omega arith)
        ]),
        λ j le.
            before j (omega arith) ∙ put_other regs (i + 1) j (lookup i args.content) (omega arith),
      ),
    )

function_of_lem :
    (vm : VmState) (f : ℕ) (function : VmFunction) (func : Hash)
    → func.info ≡ hi_closure f
    → vm.functions f ≡ some function
    → function_of vm func.info ≡ ok function
unfolding function_of
function_of_lem vm f function func info known = ap (function_of vm) info ∙ ap known_or_wild known

enter_lem :
    (vm : VmState) (q : ℕ) (function : VmFunction) (func args : Hash) (regs : Regs)
    → load vm.young_gen q ≡ ok args
    → function_of vm func.info ≡ ok function
    → argument_loop (function.arguments_nr + 1) 0 args (initial_regs vm.global) ≡ ok regs
    → enter vm func q
      ≡ ok (record vm {
        frame = record {
          inst_list = function.inst_list;
          pc = 0;
          regs = captured_loop func.content regs;
        };
        frames = vm.frame ∷ vm.frames;
      })
unfolding enter setup_function_frame push_frame new_frame
enter_lem vm q function func args regs there known filled = rw (there, known, filled) refl

call_closure_lem :
    (inst : Inst) (vm vm₁ vm₂ : VmState) (func : Hash) (q : ℕ)
    → get_hash_in_register vm (i_rt inst) ≡ ok (q, vm₁)
    → enter vm₁ func q ≡ ok vm₂
    → call_closure inst vm func ≡ ok vm₂
unfolding call_closure
call_closure_lem inst vm vm₁ vm₂ func q got entered = rw (got, entered) refl

exec_call_lem :
    (host : Host) (inst : Inst) (vm vm₁ vm₂ : VmState) (func : Hash) (p : ℕ)
    → get_hash_in_register vm (i_rs inst) ≡ ok (p, vm₁)
    → load vm₁.young_gen p ≡ ok func
    → func.type ≡ ht_closure
    → call_closure inst vm₁ func ≡ ok vm₂
    → exec_call host inst vm ≡ ok vm₂
unfolding exec_call
exec_call_lem host inst vm vm₁ vm₂ func p got there closure called =
    rw (got, there)
      (ap (λ t. call_by_type t host inst vm₁ func) closure ∙ (unfold call_by_type in called))

-- After the call of a closure: the frame of its function, and what `I_RET` will do with any value.
pub record Entered (inst : Inst) (vm : VmState) (function : VmFunction) (func args : Hash)
    (vm' : VmState) : Type 0 where
  pub starts : (vm'.frame.pc ≡ 0) × (vm'.frame.inst_list ≡ function.inst_list)
  pub given :
      (j : ℕ)
      → j ≤ function.arguments_nr
      → is_captured func.content (j + 1) ≡ false
      → vm'.frame.regs (j + 1) ≡ lookup j args.content
  pub caller : Regs
  pub unchanged : (i : ℕ) → i ≢ i_rs inst → i ≢ i_rt inst → caller i ≡ get_register vm i
  pub returns :
      (v : Value)
      → exec_ret v vm'.frames
        ≡ ok (running (record vm.frame { regs = set_register caller inst.i_rd v } ∷ vm.frames))

-- In a well-formed heap, I_CALL of a closure whose function is there, with an array or object of arguments,
-- returns. The new frame begins at the function's first instruction, with each argument in its register unless
-- a captured one has the same. When the machine returns from this frame with any value, the caller goes on
-- where it was, with the value in the register that the call names; of its other registers at most the two
-- that held the closure and the arguments have changed. The call is the caller's last instruction.
pub exec_call-exec_ret :
    (host : Host) (inst : Inst) (vm : VmState) (f p q : ℕ) (function : VmFunction)
    (func args : Hash)
    → IsHeap vm.young_gen
    → PointsTo vm (i_rs inst) p
    → vm.young_gen.objects p ≡ some func
    → func.type ≡ ht_closure
    → func.info ≡ hi_closure f
    → vm.functions f ≡ some function
    → PointsTo vm (i_rt inst) q
    → vm.young_gen.objects q ≡ some args
    → is_table args.type ≡ true
    → ltb (sub vm.frame.pc 1) (length vm.frame.inst_list.insts) ≡ true
    → get_or vm.frame.inst_list.insts (sub vm.frame.pc 1) zero_inst ≡ inst
    → Returns (exec_call host inst vm) (Entered inst vm function func args)
unfolding exec_ret
exec_call-exec_ret host inst vm f p q function func args v to_func at_func closure info known
      to_args at_args table inside at =
    let (regs₁, got₁, others₁, points₁) = get_hash_lem vm (i_rs inst) p v to_func in
    let to_args' : PointsTo (with_regs vm regs₁) (i_rt inst) q =
      same_points vm (i_rs inst) p (i_rt inst) q regs₁ to_func others₁ points₁ to_args in
    let (regs₂, got₂, others₂, points₂) =
      get_hash_lem (with_regs vm regs₁) (i_rt inst) q v to_args' in
    let (k, _, _, roomy) = (v.each q args at_args).table table in
    let (regs₃, filled, (given, before)) =
      argument_loop_total k (function.arguments_nr + 1) 0 args (initial_regs vm.global) roomy in
    (
      record vm {
        frame = record {
          inst_list = function.inst_list;
          pc = 0;
          regs = captured_loop func.content regs₃;
        };
        frames = record vm.frame { regs = regs₂ } ∷ vm.frames;
      },
      exec_call_lem host inst vm (with_regs vm regs₁) _ func p got₁
          (load-some vm.young_gen p func at_func) closure
          (call_closure_lem inst (with_regs vm regs₁) (with_regs vm regs₂) _ func q got₂ (
            enter_lem (with_regs vm regs₂) q function func args regs₃
              (load-some vm.young_gen q args at_args)
              (function_of_lem (with_regs vm regs₂) f function func info known) filled)),
      record {
        starts = (refl, refl);
        given = λ j le free.
            captured_loop_other func.content regs₃ (j + 1) free
            ∙ given j (omega arith) (omega arith);
        caller = regs₂;
        unchanged = λ i ne ne'. others₂ i ne' ∙ others₁ i ne;
        returns = λ v. rw (inside, at) refl;
      },
    )
