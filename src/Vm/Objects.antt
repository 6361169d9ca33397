-- ===== src/Vm/Objects.antt =====
-- The state of the virtual machine of src/cvm.c with its heap, and the instructions that work on objects.
-- The topmost frame and the scene it stands in are taken out of their lists. `young_gc` is the collector and `host`
-- calls a function of the host at an address; both are arguments.
use cript.Hash.{
  Hash, HashType, ht_object, ht_redirect, hash_min_capacity, expand_size, hash_need_expand,
  hash_find, hash_set, hash_rehash,
}
use cript.Inst.{Inst, i_rs, i_rt}
use cript.InstList.{InstList}
use cript.Prelude.Run.{Run, ok, trap, ◌>>=◌, ◌>>◌, assert}
use cript.Prelude.{ℕ, Bool, not, ◌&&◌, true, false, if◌then◌else◌, Option, none, some, List}
use cript.Value.{
  Value, value_is_int, value_to_int, value_is_ptr, value_to_ptr, value_from_ptr, value_is_null,
  value_is_string, value_to_string,
}
use cript.Vm.Frames.{Frame}
use cript.Vm.Heap.{YoungGen, load, store, is_redirect, follow, young_gen_new_hash}
use cript.Vm.Registers.{Regs, set_register}

-- `struct VMFunction`
pub record VmFunction : Type 0 where
  pub arguments_nr : ℕ
  pub register_nr : ℕ
  pub capture_list : Hash
  pub inst_list : InstList

-- `struct VMScene`; the host finds the objects that it has made in `external`.
pub record VmScene : Type 0 where
  pub frames : List Frame
  pub external : ℕ

pub record VmState : Type 0 where
  pub young_gen : YoungGen
  pub global : ℕ
  pub functions : ℕ → Option VmFunction
  pub frame : Frame
  pub frames : List Frame
  pub external : ℕ
  pub scenes : List VmScene

abbrev pub get_register : VmState → ℕ → Value
get_register vm reg = vm.frame.regs reg

abbrev pub with_regs : VmState → Regs → VmState
with_regs vm regs = record vm { frame = record vm.frame { regs = regs } }

-- `cvm_set_register`
abbrev pub put_register : VmState → ℕ → Value → VmState
put_register vm reg value = with_regs vm (set_register vm.frame.regs reg value)

abbrev pub with_gen : VmState → YoungGen → VmState
with_gen vm gen = record vm { young_gen = gen }

abbrev pub Collector : Type 0
Collector = VmState → Run VmState

abbrev pub Host : Type 0
Host = ℕ → VmState → Value → Run (VmState × Value)

-- The second attempt of `_cvm_try_alloc` is the last one.
unfoldable pub last_try : VmState → Option (ℕ × YoungGen) → Run (ℕ × VmState)
last_try vm none = trap
last_try vm (some (p, gen)) = ok (p, with_gen vm gen)

unfoldable pub try_alloc :
    Collector → VmState → ℕ → HashType → Option (ℕ × YoungGen) → Run (ℕ × VmState)
try_alloc young_gc vm capacity type none = do
  vm' ← young_gc vm
  got ← young_gen_new_hash vm'.young_gen capacity type
  last_try vm' got
try_alloc young_gc vm capacity type (some (p, gen)) = ok (p, with_gen vm gen)

unfoldable pub allocate_new_hash : Collector → VmState → ℕ → HashType → Run (ℕ × VmState)
allocate_new_hash young_gc vm capacity type = do
  got ← young_gen_new_hash vm.young_gen capacity type
  try_alloc young_gc vm capacity type got

unfoldable pub get_hash_in_register : VmState → ℕ → Run (ℕ × VmState)
get_hash_in_register vm reg = do
  let val = get_register vm reg
  assert (value_is_ptr val && not (value_is_null val))
  let p = value_to_ptr val
  hash ← load vm.young_gen p
  (if is_redirect hash.type
      then (follow vm.young_gen p >>= λ q. ok (q, put_register vm reg (value_from_ptr q)))
      else ok (p, vm))

-- `obj` becomes a redirection to `new_obj`.
unfoldable pub redirect : YoungGen → ℕ → ℕ → Run YoungGen
redirect gen obj new_obj = do
  src ← load gen obj
  dst ← load gen new_obj
  dst' ← hash_rehash dst src
  ok (
      store (store gen new_obj dst') obj
        (record src { type = ht_redirect; capacity = 0; size = new_obj }))

-- the branch of `_cvm_set_hash_in_register` for a full object; the register is read again after the allocation
unfoldable pub expand_in_register : Collector → VmState → ℕ → Hash → Run VmState
expand_in_register young_gc vm reg obj = do
  (new_obj, vm₁) ← allocate_new_hash young_gc vm (expand_size obj.capacity) obj.type
  (again, vm₂) ← get_hash_in_register vm₁ reg
  gen ← redirect vm₂.young_gen again new_obj
  ok (with_gen vm₂ gen)

unfoldable pub set_hash_in_register : Collector → VmState → ℕ → ℕ → Value → Run VmState
set_hash_in_register young_gc vm reg key val = do
  (p, vm₁) ← get_hash_in_register vm reg
  obj ← load vm₁.young_gen p
  obj' ← hash_set obj key val
  let vm₂ = with_gen vm₁ (store vm₁.young_gen p obj')
  (if hash_need_expand obj' then expand_in_register young_gc vm₂ reg obj' else ok vm₂)

abbrev pub is_object : HashType → Bool
is_object ht_object = true
is_object _ = false

-- The key of an access: a string for an object, a number for the others; `value_to_string` and `value_to_int` assert.
unfoldable pub key_of : HashType → Value → Run ℕ
key_of type v =
    if is_object type
    then (assert (value_is_string v) >> ok (value_to_string v))
    else (assert (value_is_int v) >> ok (value_to_int v))

unfoldable pub exec_set_obj : Collector → Inst → VmState → Run VmState
exec_set_obj young_gc inst vm = do
  (p, vm₁) ← get_hash_in_register vm inst.i_rd
  obj ← load vm₁.young_gen p
  key ← key_of obj.type (get_register vm₁ (i_rt inst))
  set_hash_in_register young_gc vm₁ inst.i_rd key (get_register vm₁ (i_rs inst))

unfoldable pub exec_get_obj : Inst → VmState → Run VmState
exec_get_obj inst vm = do
  (p, vm₁) ← get_hash_in_register vm (i_rs inst)
  obj ← load vm₁.young_gen p
  key ← key_of obj.type (get_register vm₁ (i_rt inst))
  val ← hash_find obj key
  ok (put_register vm₁ inst.i_rd val)

unfoldable pub exec_new : HashType → Collector → Inst → VmState → Run VmState
exec_new type young_gc inst vm = do
  (p, vm₁) ← allocate_new_hash young_gc vm hash_min_capacity type
  ok (put_register vm₁ inst.i_rd (value_from_ptr p))
