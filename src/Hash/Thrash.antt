-- ===== src/Hash/Thrash.antt =====
-- The two thresholds of the macro `hash_set_and_update` of src/hash.h.
use native.Mathlib.Nat.{pow-suc}
use cript.Hash.Mask.{pow-le}
use cript.Hash.Resize.{hash_expand-IsCopy}
use cript.Hash.Table.{IsTable}
use cript.Hash.{Hash, hash_expand, hash_need_shrink}
use cript.Prelude.Run.{Returns}
use cript.Prelude.{ℕ, ◌/◌, ◌≤◌, ◌<◌, ◌≡◌, true, arith}

shrink_lem : (h : Hash) → 16 < h.capacity → h.size < h.capacity / 2 → hash_need_shrink h ≡ true
unfolding hash_need_shrink
shrink_lem h big light = ground arith

-- Expanding a table of 2 ^ j slots, for a j from 4 to 30, that is not completely full returns a table that
-- the macro wants to shrink at once, so that the table is doubled only when it is full.
pub hash_expand-need_shrink :
    (j : ℕ) (h : Hash)
    → IsTable j h
    → 4 ≤ j
    → j ≤ 30
    → h.size < h.capacity
    → Returns (hash_expand h) λ e. hash_need_shrink e ≡ true
hash_expand-need_shrink j h t lo hi light =
    let (e, run, copy) = hash_expand-IsCopy t lo hi in
    let v = copy.roomy.valid in
    let big = pow-le 4 j lo in
    (
      e,
      run,
      shrink_lem e (omega (arith, v.width, big, pow-suc 2 j))
          (omega (arith, v.width, pow-suc 2 j, v.counted, t.counted, t.width, copy.no_more)),
    )
