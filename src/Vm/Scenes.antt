-- ===== src/Vm/Scenes.antt =====
-- What src/cvm.c offers to the functions of the host: objects that the collector sees, and calls back into a script.
use cript.Hash.{
  Hash, HashType, ht_object, ht_array, ht_lightfunc, ht_gc_left, HashInfo, hi_func,
  hash_min_capacity, expand_size, hash_need_expand, hash_set,
}
use cript.Prelude.Run.{Run, ok, wild, ◌>>=◌, ◌>>◌, assert}
use cript.Prelude.{
  ℕ, Bool, not, ◌==◌, true, false, if◌then◌else◌, Option, none, some, List, [], ◌∷◌,
}
use cript.Value.{Value, value_is_ptr, value_to_ptr, value_from_ptr}
use cript.Vm.Calls.{new_frame, function_of, setup_function_frame, vm_run}
use cript.Vm.Frames.{Frame}
use cript.Vm.Heap.{YoungGen, load, store, young_gen_new_userdata}
use cript.Vm.Objects.{
  VmFunction, VmScene, VmState, Collector, Host, with_gen, allocate_new_hash, last_try, redirect,
}

abbrev pub is_gc_left : HashType → Bool
is_gc_left ht_gc_left = true
is_gc_left _ = false

-- the branch of `_cvm_set_hash` for a full object; the collector may have moved it
unfoldable pub expand_object : Collector → VmState → ℕ → Hash → Run (ℕ × VmState)
expand_object young_gc vm p hash = do
  (new_hash, vm₁) ← allocate_new_hash young_gc vm (expand_size hash.capacity) hash.type
  left ← load vm₁.young_gen p
  gen ← redirect vm₁.young_gen (if is_gc_left left.type then left.size else p) new_hash
  ok (new_hash, with_gen vm₁ gen)

-- `_cvm_set_hash`, with the address of the object afterwards
unfoldable pub set_hash : Collector → VmState → ℕ → ℕ → Value → Run (ℕ × VmState)
set_hash young_gc vm p key val = do
  hash ← load vm.young_gen p
  hash' ← hash_set hash key val
  let vm₁ = with_gen vm (store vm.young_gen p hash')
  (if hash_need_expand hash' then expand_object young_gc vm₁ p hash' else ok (p, vm₁))

-- `cvm_create_object` and `cvm_create_array`: the scene keeps the new object in `external`.
unfoldable pub create : HashType → Collector → VmState → ℕ → Run (ℕ × VmState)
create type young_gc vm capacity = do
  (p, vm₁) ← allocate_new_hash young_gc vm capacity type
  list ← load vm₁.young_gen vm₁.external
  (external, vm₂) ← set_hash young_gc vm₁ vm₁.external list.size (value_from_ptr p)
  ok (p, record vm₂ { external = external })

unfoldable pub create_object : Collector → VmState → ℕ → Run (ℕ × VmState)
create_object = create ht_object

unfoldable pub create_array : Collector → VmState → ℕ → Run (ℕ × VmState)
create_array = create ht_array

-- The capacity 0 has no power of two: what `hash_normalize_capacity` asks of the C library is undefined.
unfoldable pub create_light_function : Collector → VmState → ℕ → Run (Value × VmState)
create_light_function young_gc vm func = do
  (p, vm₁) ← allocate_new_hash young_gc vm 0 ht_lightfunc
  ret ← load vm₁.young_gen p
  ok (value_from_ptr p, with_gen vm₁ (store vm₁.young_gen p (record ret { info = hi_func func })))

-- `_cvm_try_alloc` around `young_gen_new_userdata`
unfoldable pub try_userdata :
    Collector → VmState → ℕ → ℕ → Option (ℕ × YoungGen) → Run (ℕ × VmState)
try_userdata young_gc vm data_ptr destructor none = do
  vm' ← young_gc vm
  got ← young_gen_new_userdata vm'.young_gen data_ptr destructor
  last_try vm' got
try_userdata young_gc vm data_ptr destructor (some (p, gen)) = ok (p, with_gen vm gen)

unfoldable pub create_userdata : Collector → VmState → ℕ → ℕ → Run (Value × VmState)
create_userdata young_gc vm data_ptr destructor = do
  got ← young_gen_new_userdata vm.young_gen data_ptr destructor
  (p, vm₁) ← try_userdata young_gc vm data_ptr destructor got
  ok (value_from_ptr p, vm₁)

-- `_cvm_push_scene` and the frame of the closure at `p` that it is pushed for: the scene so far goes to the others.
unfoldable pub push_scene : Collector → VmState → ℕ → Run (VmFunction × VmState)
push_scene young_gc vm p = do
  (external, vm₁) ← allocate_new_hash young_gc vm hash_min_capacity ht_array
  func ← load vm₁.young_gen p
  function ← function_of vm₁ func.info
  let scene : VmScene = record { frames = vm₁.frame ∷ vm₁.frames; external = vm₁.external }
  ok (
    function,
    record vm₁ {
      frame = new_frame vm₁.global function;
      frames = [];
      external = external;
      scenes = scene ∷ vm₁.scenes;
    },
  )

unfoldable pub back_to : VmState → VmScene → List VmScene → List Frame → Run VmState
back_to vm scene scenes [] = wild
back_to vm scene scenes (frame ∷ frames) =
    ok (record vm { frame = frame; frames = frames; external = scene.external; scenes = scenes })

-- `_cvm_pop_scene`
unfoldable pub pop_scene : VmState → List VmScene → Run VmState
pop_scene vm [] = wild
pop_scene vm (scene ∷ scenes) = back_to vm scene scenes scene.frames

abbrev pub is_lightfunc : HashType → Bool
is_lightfunc ht_lightfunc = true
is_lightfunc _ = false

unfoldable pub call_light : Host → HashInfo → VmState → Value → Run (VmState × Value)
call_light host (hi_func f) vm args = host f vm args
call_light host _ vm args = wild

-- the call of a closure from the host, in a scene of its own, by at most `n` turns of the loop
unfoldable pub call_in_scene : ℕ → Collector → Host → VmState → ℕ → ℕ → Run (VmState × Value)
call_in_scene n young_gc host vm p q = do
  (function, vm₁) ← push_scene young_gc vm p
  closure ← load vm₁.young_gen p
  args ← load vm₁.young_gen q
  vm₂ ← setup_function_frame vm₁ function closure args
  (vm₃, ret) ← vm_run n young_gc host vm₂
  vm₄ ← pop_scene vm₃ vm₃.scenes
  ok (vm₄, ret)

unfoldable pub call_function :
    ℕ → Collector → Host → VmState → Value → Value → Run (VmState × Value)
call_function n young_gc host vm func_val args_val = do
  assert (value_is_ptr func_val)
  assert (value_is_ptr args_val)
  assert (not (value_to_ptr args_val == 0))
  func ← load vm.young_gen (value_to_ptr func_val)
  (if is_lightfunc func.type
      then call_light host func.info vm args_val
      else call_in_scene n young_gc host vm (value_to_ptr func_val) (value_to_ptr args_val))
