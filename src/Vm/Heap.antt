-- ===== src/Vm/Heap.antt =====
-- The heap of src/young_gen.c, as far as objects are allocated in it, and the redirections that src/cvm.c leaves
-- behind in it: an object that has become too small points to its successor.
-- What lies at an address is an object or nothing; the block that the collector copies to is not modelled.
use cript.Hash.{Hash, HashType, ht_redirect, ht_userdata, hi_userdata, hash_init, is_power_of_two}
use cript.Prelude.Run.{Run, ok, forever, wild, ◌>>=◌}
use cript.Prelude.{
  ℕ, zero, suc, ◌+◌, ◌/◌, Bool, true, false, ◌==◌, ltb, if◌then◌else◌, Option, none, some, [],
}
use cript.Word.{add, mul, shl}

-- `YOUNG_GEN_BLOCK_SIZE`
abbrev pub block_size : ℕ
block_size = 33554432

-- `sizeof(YoungGenBlock)`: two counters and a bit for each word of the block
abbrev pub block_header : ℕ
block_header = 1048584

-- The block `current` of `struct YoungGen`, at `base`, with the objects that lie in it.
pub record YoungGen : Type 0 where
  pub base : ℕ
  pub allocated : ℕ
  pub object_count : ℕ
  pub objects : ℕ → Option Hash

abbrev pub update : (ℕ → Option Hash) → ℕ → Hash → ℕ → Option Hash
update objects p h q = if q == p then some h else objects q

abbrev pub or_wild : Option Hash → Run Hash
or_wild none = wild
or_wild (some h) = ok h

-- an access through a pointer
unfoldable pub load : YoungGen → ℕ → Run Hash
load gen p = or_wild (gen.objects p)

abbrev pub store : YoungGen → ℕ → Hash → YoungGen
store gen p h = record gen { objects = update gen.objects p h }

-- The number of bits of a word, by 32 rounds: 32 less `__builtin_clz`.
unfoldable pub bits_loop : ℕ → ℕ → ℕ
bits_loop zero n = 0
bits_loop (suc f) n = if n == 0 then 0 else suc (bits_loop f (n / 2))

-- The C library's builtins have no result for 0.
unfoldable pub hash_normalize_capacity : ℕ → Run ℕ
hash_normalize_capacity expect_capacity =
    if expect_capacity == 0
    then wild
    else ok (
        if is_power_of_two expect_capacity
        then expect_capacity
        else shl 1 (bits_loop 32 expect_capacity))

unfoldable pub hash_total_size : ℕ → ℕ
hash_total_size capacity = add 20 (mul capacity 8)

-- `allocated` counts the header, and `content` starts behind it.
unfoldable pub young_gen_allocate : YoungGen → ℕ → Option (ℕ × YoungGen)
young_gen_allocate gen size =
    if ltb block_size (add gen.allocated size)
    then none
    else some (
      add (add gen.base block_header) gen.allocated,
      record gen { allocated = add gen.allocated size; object_count = add gen.object_count 1 },
    )

-- `young_gen_new`, with its block at `base`
unfoldable pub young_gen_new : ℕ → YoungGen
young_gen_new base = record {
  base = base;
  allocated = block_header;
  object_count = 0;
  objects = λ p. none;
}

-- Writing an object of `size` bytes at `p`. What lies behind the end of the block, though `_young_gen_allocate` gives it,
-- is not the heap's.
unfoldable pub write_new : YoungGen → ℕ → ℕ → Hash → Run (Option (ℕ × YoungGen))
write_new gen p size h =
    if ltb (gen.base + block_size) (p + size) then wild else ok (some (p, store gen p h))

-- The object keeps the data and the destructor of the host. The bit that tells the collector of it is not modelled.
abbrev pub userdata : ℕ → ℕ → Hash
userdata data_ptr destructor = record {
  type = ht_userdata;
  info = hi_userdata data_ptr destructor;
  capacity = 0;
  size = 0;
  content = [];
}

unfoldable pub put_userdata : Option (ℕ × YoungGen) → ℕ → ℕ → Run (Option (ℕ × YoungGen))
unfolding write_new hash_total_size
put_userdata none data_ptr destructor = ok none
put_userdata (some (p, gen)) data_ptr destructor =
    write_new gen p (hash_total_size 0) (userdata data_ptr destructor)

unfoldable pub young_gen_new_userdata : YoungGen → ℕ → ℕ → Run (Option (ℕ × YoungGen))
young_gen_new_userdata gen data_ptr destructor =
    put_userdata (young_gen_allocate gen (hash_total_size 0)) data_ptr destructor

-- `hash_init`, on what `_young_gen_allocate` gives
unfoldable pub init_at : Option (ℕ × YoungGen) → ℕ → HashType → Run (Option (ℕ × YoungGen))
unfolding write_new hash_total_size
init_at none capacity type = ok none
init_at (some (p, gen)) capacity type =
    hash_init capacity type >>= λ h. write_new gen p (hash_total_size capacity) h

unfoldable pub young_gen_new_hash : YoungGen → ℕ → HashType → Run (Option (ℕ × YoungGen))
unfolding young_gen_allocate init_at hash_normalize_capacity hash_total_size
young_gen_new_hash gen capacity type = do
  capacity' ← hash_normalize_capacity capacity
  init_at (young_gen_allocate gen (hash_total_size capacity')) capacity' type

abbrev pub is_redirect : HashType → Bool
is_redirect ht_redirect = true
is_redirect _ = false

-- The loop that follows redirections. As many rounds as there are bytes in the block are enough.
unfoldable pub follow_loop : ℕ → YoungGen → ℕ → Run ℕ
follow_loop zero gen p = forever
follow_loop (suc f) gen p = do
  h ← load gen p
  let rest = follow_loop f gen h.size
  if is_redirect h.type then rest else ok p

unfoldable pub follow : YoungGen → ℕ → Run ℕ
unfolding follow_loop
follow gen p = follow_loop gen.allocated gen p
