-- ===== src/Hash/Find.antt =====
-- The loop of `hash_find`: where it stops, that it stops, and that a write elsewhere leaves it alone.
use cript.Hash.Mask.{next_index-lt}
use cript.Hash.Probe.{probe}
use cript.Hash.Slots.{node_at-set}
use cript.Hash.{HashNode, node_at, next_index, find_loop}
use cript.Prelude.Run.{ok, Returns}
use cript.Prelude.{
  ℕ, zero, suc, ◌^◌, ◌≤◌, ◌<◌, ◌≡◌, ◌≢◌, Bool, true, false, not, ◌&&◌, ◌==◌, arith, List, length,
  set, inl, inr, Bool-cases,
}
use cript.Value.{value_is_null}

-- the loops go on past this slot
abbrev pub passes : ℕ → HashNode → Bool
passes q n = not (n.key == q) && not (value_is_null n.value)

-- It stops, with enough fuel, if some slot on its way makes it stop.
pub find_loop_total :
    (f : ℕ) (c : List HashNode) (cap q i n : ℕ)
    → n < f
    → passes q (node_at c (probe cap n i)) ≡ false
    → Returns (find_loop f c cap q i) λ j. Unit {0}
unfolding find_loop probe
find_loop_total zero c cap q i n h s = absurd (omega arith)
find_loop_total (suc f) c cap q i zero h s = (i, rw s, tt)
find_loop_total (suc f) c cap q i (suc n) h s = elim (Bool-cases (passes q (node_at c i))) [
  | inl e ↦ rw e (find_loop_total f c cap q (next_index i cap) n (omega arith) s)
  | inr e ↦ (i, rw e, tt)
]

pub find_loop_stop :
    (f : ℕ) (c : List HashNode) (cap q i j : ℕ)
    → find_loop f c cap q i ≡ ok j
    → passes q (node_at c j) ≡ false
unfolding find_loop
find_loop_stop zero c cap q i j h = cc
find_loop_stop (suc f) c cap q i j h = ground (arith, find_loop_stop f c cap q (next_index i cap) j)

pub find_loop-lt :
    (f : ℕ) (c : List HashNode) (k q i j : ℕ)
    → k ≤ 31
    → i < 2 ^ k
    → find_loop f c (2 ^ k) q i ≡ ok j
    → j < 2 ^ k
unfolding find_loop
find_loop-lt zero c k q i j hk hi h = cc
find_loop-lt (suc f) c k q i j hk hi h = ground (
  arith,
  next_index-lt k i hk,
  find_loop-lt f c k q (next_index i (2 ^ k)) j hk (next_index-lt k i hk),
)

-- A write away from where it stops, of a node that it passes.
pub find_loop-set_ne :
    (f : ℕ) (c : List HashNode) (cap q i j s : ℕ) (n : HashNode)
    → s < length c
    → s ≢ j
    → passes q n ≡ true
    → find_loop f c cap q i ≡ ok j
    → find_loop f (set c s n) cap q i ≡ ok j
unfolding find_loop
find_loop-set_ne zero c cap q i j s n lt ne p h = cc
find_loop-set_ne (suc f) c cap q i j s n lt ne p h =
    rw (node_at-set c s i n lt)
      (ground (arith, find_loop-set_ne f c cap q (next_index i cap) j s n))

-- The same, read backwards: it stopped there before the write, or at the slot that is written.
pub find_loop-set_back :
    (f : ℕ) (c : List HashNode) (cap q i j s : ℕ) (n : HashNode)
    → s < length c
    → passes q n ≡ true
    → find_loop f (set c s n) cap q i ≡ ok j
    → s ≢ j
unfolding find_loop
find_loop-set_back zero c cap q i j s n lt p h = cc
find_loop-set_back (suc f) c cap q i j s n lt p h =
    let e = node_at-set c s i n lt in
    ground (arith, e, find_loop-set_back f c cap q (next_index i cap) j s n)

-- A write of the key itself where it stops.
pub find_loop-set_self :
    (f : ℕ) (c : List HashNode) (cap q i j : ℕ) (n : HashNode)
    → j < length c
    → n.key ≡ q
    → find_loop f c cap q i ≡ ok j
    → find_loop f (set c j n) cap q i ≡ ok j
unfolding find_loop
find_loop-set_self zero c cap q i j n lt e h = cc
find_loop-set_self (suc f) c cap q i j n lt e h =
    rw (node_at-set c j i n lt)
      (ground (arith, find_loop-set_self f c cap q (next_index i cap) j n))
