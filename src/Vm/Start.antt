-- ===== src/Vm/Start.antt =====
-- How src/cvm.c makes a machine from what the parser has made, at the address `base` of
-- the heap. `hash_of` turns a table of the parser into a hash table.
use cript.Hash.{Hash, ht_object, ht_array, hash_min_capacity}
use cript.Inst.{new_d_type, i_halt}
use cript.InstList.{InstList, inst_list_append}
use cript.Parse.Program.{parse_get_main_function}
use cript.Parse.{ParsedFunction, ParseState, Services}
use cript.Prelude.Run.{Run, ok, wild, ◌>>=◌}
use cript.Prelude.{ℕ, Option, none, some, List, [], get_elem?}
use cript.Table.{TableOps}
use cript.Vm.Calls.{new_frame}
use cript.Vm.Heap.{YoungGen, young_gen_new, young_gen_new_hash}
use cript.Vm.Objects.{VmFunction, VmState}

-- A fresh heap has room for the two objects; a null pointer would be used as one.
abbrev pub allocated_or_wild : Option (ℕ × YoungGen) → Run (ℕ × YoungGen)
allocated_or_wild none = wild
allocated_or_wild (some r) = ok r

-- the instruction that is added to the main function
unfoldable pub with_halt : InstList → InstList
with_halt insts = inst_list_append insts (new_d_type i_halt 0 0 0)

module _ {T : Type 0} (hash_of : T → Hash) where
  unfoldable pub vm_function : ParsedFunction T → VmFunction
  vm_function f = record {
    arguments_nr = f.arguments_nr;
    register_nr = f.register_nr;
    capture_list = hash_of f.capture_list;
    inst_list = f.inst_list;
  }

  abbrev function_in : Option (ParsedFunction T) → Option VmFunction
  function_in none = none
  function_in (some f) = some (vm_function f)

  -- A function is known by its position.
  unfoldable pub vm_functions : List (ParsedFunction T) → ℕ → Option VmFunction
  vm_functions fs f = function_in (get_elem? fs f)

  -- the machine: a global object, a scene with a list of the objects of the host, and a frame of the main function
  unfoldable pub cvm_state_new_from_parse_state :
      {P : Type 0} → ⦃ops : TableOps T⦄ → Services T P → ℕ → ParseState T P → Run VmState
  cvm_state_new_from_parse_state env base state = do
    got ← young_gen_new_hash (young_gen_new base) hash_min_capacity ht_object
    (global, gen₁) ← allocated_or_wild got
    got' ← young_gen_new_hash gen₁ hash_min_capacity ht_array
    (external, gen₂) ← allocated_or_wild got'
    (parsed, state') ← parse_get_main_function env state
    let f = vm_function parsed
    let main = record f { inst_list = with_halt f.inst_list }
    ok (record {
      young_gen = gen₂;
      global = global;
      functions = vm_functions state'.functions;
      frame = new_frame global main;
      frames = [];
      external = external;
      scenes = [];
    })
