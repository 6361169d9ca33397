-- ===== src/Hash/Full.antt =====
-- A table of src/hash.c without an empty slot: deleted slots are never emptied again, and the loop of
-- `hash_find` stops only at the key or at an empty slot.
use cript.Hash.Find.{passes}
use cript.Hash.Mask.{next_index-lt}
use cript.Hash.{HashNode, node_at, find_loop, next_index}
use cript.Prelude.Run.{forever}
use cript.Prelude.{ℕ, zero, suc, ◌^◌, ◌≤◌, ◌<◌, ◌≡◌, refl, true, List}

-- In a table of 2 ^ k slots, for a k up to 31, all of which are taken, by live or deleted entries, and none
-- by the key that is looked for, the search goes on for any number of rounds.
pub find_loop_full :
    (f k : ℕ) (c : List HashNode) (q i : ℕ)
    → k ≤ 31
    → i < 2 ^ k
    → ((j : ℕ) → j < 2 ^ k → passes q (node_at c j) ≡ true)
    → find_loop f c (2 ^ k) q i ≡ forever
unfolding find_loop
find_loop_full zero k c q i small lt full = refl
find_loop_full (suc f) k c q i small lt full =
    rw (full i lt)
      (find_loop_full f k c q (next_index i (2 ^ k)) small (next_index-lt k i small) full)
