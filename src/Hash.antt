-- ===== src/Hash.antt =====
-- The open-addressing hash tables of src/hash.h, src/hash_internal.h, src/hash_helper.h and src/hash.c.
-- A table owns its slots: a write returns the new table. Memory is not exhausted here.
pub mod Ops
pub mod Mask
pub mod Probe
pub mod Slots
pub mod Find
pub mod Full
pub mod Table
pub mod Set
pub mod Rehash
pub mod Resize
pub mod Thrash
use cript.Prelude.{
  ℕ, zero, suc, ◌+◌, ◌-◌, ◌*◌, ◌/◌, ◌%◌, ◌^◌, Bool, not, ◌&&◌, ◌||◌, ◌==◌, ltb, if◌then◌else◌,
  bit_and, List, [], ◌∷◌, get_or, set, replicate,
}
use cript.Prelude.Run.{Run, ok, trap, forever, ◌>>=◌, ◌>>◌, assert}
use cript.Value.{Value, value_is_null, value_is_undefined, value_undefined}
use cript.Word.{add, sub, mul, shl, shr}

pub record HashNode : Type 0 where
  pub key : ℕ
  pub value : Value

-- `enum HashType`
pub data HashType : Type 0 where
  ht_object ht_array ht_redirect ht_lightfunc ht_closure ht_userdata ht_gc_left : HashType

-- The union `_info`. Functions and data of the host are known by their addresses.
pub data HashInfo : Type 0 where
  unset : HashInfo
  hi_func : ℕ → HashInfo
  hi_closure : ℕ → HashInfo
  hi_userdata : (data_ptr : ℕ) (destructor : ℕ) → HashInfo

pub record Hash : Type 0 where
  pub type : HashType
  pub info : HashInfo
  pub capacity : ℕ
  pub size : ℕ
  pub content : List HashNode

abbrev pub hash_min_capacity : ℕ
hash_min_capacity = 16

-- what `memset` leaves in a slot
abbrev pub empty_node : HashNode
empty_node = record { key = 0; value = 0 }

-- `_next_index` and `_hash_next_index`
unfoldable pub next_index : ℕ → ℕ → ℕ
next_index key capacity = bit_and (add (mul key 2166136261) 16777619) (sub capacity 1)

-- `_expand_size` and `_hash_expand_size`
unfoldable pub expand_size : ℕ → ℕ
expand_size original_capacity = shl original_capacity 1

unfoldable pub hash_shrink_size : Hash → ℕ
hash_shrink_size hash = shr hash.capacity 1

unfoldable pub hash_need_expand : Hash → Bool
hash_need_expand hash = ltb (sub hash.capacity (shr hash.capacity 2)) hash.size

unfoldable pub hash_need_shrink : Hash → Bool
hash_need_shrink hash = ltb hash_min_capacity hash.capacity && ltb hash.size (shr hash.capacity 1)

-- `__builtin_ctz` by 32 rounds, for a word that is not 0
unfoldable pub ctz_loop : ℕ → ℕ → ℕ
ctz_loop zero n = 0
ctz_loop (suc f) n = if n % 2 == 1 then 0 else suc (ctz_loop f (n / 2))

unfoldable pub is_power_of_two : ℕ → Bool
unfolding ctz_loop
is_power_of_two n = not (n == 0) && shl 1 (ctz_loop 32 n) == n

-- The C library's builtins have no result for 0.
unfoldable pub hash_init : ℕ → HashType → Run Hash
unfolding is_power_of_two
hash_init capacity type = do
  assert (is_power_of_two capacity)
  ok (record {
    type = type;
    info = unset;
    capacity = capacity;
    size = 0;
    content = replicate capacity empty_node;
  })

unfoldable pub hash_new : ℕ → Run Hash
unfolding hash_init
hash_new capacity =
    hash_init (if ltb capacity hash_min_capacity then hash_min_capacity else capacity) ht_object

abbrev pub node_at : List HashNode → ℕ → HashNode
node_at content index = get_or content index empty_node

-- The loop of `hash_find`: the slot at which it stops.
unfoldable pub find_loop : ℕ → List HashNode → ℕ → ℕ → ℕ → Run ℕ
find_loop zero content capacity key index = forever
find_loop (suc f) content capacity key index =
    let node = node_at content index in
    let rest = find_loop f content capacity key (next_index index capacity) in
    if not (node.key == key) && not (value_is_null node.value) then rest else ok index

-- After `capacity` rounds every slot has been looked at.
unfoldable pub hash_find : Hash → ℕ → Run Value
hash_find hash key = do
  index ← find_loop hash.capacity hash.content hash.capacity key (bit_and key (sub hash.capacity 1))
  let value = (node_at hash.content index).value
  ok (if value_is_null value then value_undefined else value)

-- The loop of `hash_set`: where it stops, and the first deleted slot on the way, or `capacity`.
unfoldable pub set_loop : ℕ → List HashNode → ℕ → ℕ → ℕ → ℕ → Run (ℕ × ℕ)
set_loop zero content capacity key index slot = forever
set_loop (suc f) content capacity key index slot =
    let node = node_at content index in
    let slot' = if slot == capacity && value_is_undefined node.value then index else slot in
    let rest = set_loop f content capacity key (next_index index capacity) slot' in
    if not (node.key == key) && not (value_is_null node.value) then rest else ok (index, slot)

abbrev pub is_live : Value → Bool
is_live v = not (value_is_undefined v) && not (value_is_null v)

-- The slot to write, once the loop of `hash_set` has stopped at `index` with `slot`.
abbrev pub target_of : List HashNode → ℕ → ℕ → ℕ → ℕ → ℕ
target_of content capacity key index slot =
    let slot' = if (node_at content index).key == key then index else slot in
    if slot' == capacity then index else slot'

-- The rest of `hash_set`: the counter, with its assertions, and the slot.
unfoldable pub write_at : Hash → ℕ → Value → ℕ → Run Hash
write_at hash key value slot = do
  let old = (node_at hash.content slot).value
  let grows = not (value_is_undefined value) && not (is_live old)
  let shrinks = value_is_undefined value && is_live old
  assert (not grows || not (hash.size == hash.capacity))
  assert (not shrinks || not (hash.size == 0))
  ok (record hash {
    size = if grows then hash.size + 1 else (if shrinks then hash.size - 1 else hash.size);
    content = set hash.content slot (record { key = key; value = value });
  })

unfoldable pub hash_set : Hash → ℕ → Value → Run Hash
hash_set hash key value = do
  let value' = if value_is_null value then value_undefined else value
  (index, slot) ←
      set_loop hash.capacity hash.content hash.capacity key (key % hash.capacity) hash.capacity
  write_at hash key value' (target_of hash.content hash.capacity key index slot)

-- The loop of `hash_rehash` over the slots of the source.
unfoldable pub rehash_loop : List HashNode → Hash → Run Hash
rehash_loop [] dst = ok dst
rehash_loop (node ∷ nodes) dst =
    (if is_live node.value then hash_set dst node.key node.value else ok dst) >>= λ dst'.
    rehash_loop nodes dst'

unfoldable pub hash_rehash : Hash → Hash → Run Hash
unfolding rehash_loop
hash_rehash dst src = rehash_loop src.content (record dst { info = src.info })

unfoldable pub hash_expand : Hash → Run Hash
unfolding hash_rehash
hash_expand hash = do ret ← hash_new (expand_size hash.capacity); hash_rehash ret hash

unfoldable pub hash_shrink : Hash → Run Hash
unfolding hash_rehash
hash_shrink hash = do ret ← hash_new (hash_shrink_size hash); hash_rehash ret hash

-- The macro `hash_set_and_update`.
unfoldable pub hash_set_and_update : Hash → ℕ → Value → Run Hash
hash_set_and_update hash key value = do
  written ← hash_set hash key value
  expanded ← (if hash_need_expand written then hash_expand written else ok written)
  (if hash_need_shrink expanded then hash_shrink expanded else ok expanded)
