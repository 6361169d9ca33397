-- ===== src/Vm/Block.antt =====
-- Where `_young_gen_allocate` of src/young_gen.c puts an object.
use cript.Prelude.{ℕ, ◌+◌, ◌^◌, ◌≤◌, ◌<◌, ◌≡◌, refl, true, false, ltb, none, some, arith}
use cript.Vm.Heap.{YoungGen, block_size, block_header, young_gen_allocate}
use cript.Vm.Redirects.{top}
use cript.Word.{add}

-- In a block that ends, with the size of its header added, before the end of the addresses, with its mark in the block, for
-- a size of at most the block's: what is larger than the mark leaves of the block is not allocated. What is not is
-- allocated from the mark on, counted from behind the header, and the mark moves up by its size; it ends inside
-- the block if it would still with the header counted once more, and behind its end otherwise.
pub young_gen_allocate_bounds :
    (gen : YoungGen) (size : ℕ)
    → gen.base + block_header + block_size < 2 ^ 32
    → gen.allocated ≤ block_size
    → size ≤ block_size
    → (block_size < gen.allocated + size → young_gen_allocate gen size ≡ none)
      × (gen.allocated + size ≤ block_size
          → (p : ℕ) × (gen' : YoungGen) × (young_gen_allocate gen size ≡ some (p, gen'))
            × (top gen ≡ p)
            × (top gen' ≡ p + size)
            × (gen.allocated + size + block_header ≤ block_size → p + size ≤ gen.base + block_size)
            × (block_size < gen.allocated + size + block_header → gen.base + block_size < p + size))
unfolding young_gen_allocate
young_gen_allocate_bounds gen size width used small =
    let mark : add gen.allocated size ≡ gen.allocated + size = omega arith in
    let address : add (add gen.base block_header) gen.allocated ≡ top gen = omega arith in
    (
      (λ over.
          let full : ltb block_size (gen.allocated + size) ≡ true = ground arith in
          rw (mark, full) refl),
      λ fits.
          let room : ltb block_size (gen.allocated + size) ≡ false = ground arith in
          (
            top gen,
            record gen { allocated = gen.allocated + size; object_count = add gen.object_count 1 },
            rw (mark, room, address) refl,
            refl,
            omega arith,
            (λ inside. omega arith),
            λ outside. omega arith,
          ),
    )
