-- ===== src/Tests/Tables.antt =====
-- Runs of the hash tables of src/hash.c.
use cript.Hash.Find.{passes}
use cript.Hash.Full.{find_loop_full}
use cript.Hash.Rehash.{IsFresh, hash_init-IsFresh}
use cript.Hash.Resize.{
  IsRoomy, IsCopy, IsUpdate, hash_expand-IsCopy, hash_shrink-IsCopy, hash_set_and_update-IsUpdate,
}
use cript.Hash.Set.Write.{Wrote, stored, hash_set-Wrote, hash_set_live-Wrote}
use cript.Hash.Slots.{lookup, count_null, count_live, counts-le, IsSolid}
use cript.Hash.Table.{hash_find-lookup}
use cript.Hash.Thrash.{hash_expand-need_shrink}
use cript.Hash.{
  Hash, HashNode, is_live, ht_object, hash_find, hash_set, hash_new, hash_init, hash_rehash,
  hash_expand, hash_shrink, hash_need_shrink, hash_set_and_update, find_loop, set_loop, write_at,
  next_index, rehash_loop, expand_size, hash_shrink_size, hash_need_expand, node_at,
  is_power_of_two, ctz_loop,
}
use cript.Prelude.Run.{Run, ok, forever, ◌>>=◌, Returns}
use cript.Prelude.{ℕ, zero, suc, ◌^◌, ◌≤◌, ◌<◌, ◌≡◌, refl, true, arith, replicate}
use cript.Value.{
  Value, value_undefined, value_from_int, value_is_null, value_is_undefined, value_is_ptr,
  value_to_ptr,
}

hashing : Unit {0}
unfolding hash_find hash_set hash_new hash_init hash_rehash hash_expand hash_shrink hash_need_shrink
    hash_set_and_update find_loop set_loop write_at next_index rehash_loop expand_size
    hash_shrink_size hash_need_expand is_power_of_two ctz_loop value_from_int value_is_null
    value_is_undefined value_is_ptr value_to_ptr
hashing = tt

-- The keys 1 to n are set and removed again.
churn : ℕ → Hash → Run Hash
unfolding hashing
churn zero h = ok h
churn (suc n) h = hash_set h (suc n) (value_from_int 1) >>= λ a.
    hash_set a (suc n) value_undefined >>= λ b. churn n b

-- A new object from which every key has been removed, with one key before and one after.
abbrev session : Run (Value × Value)
session = do
  h₀ ← hash_new 3
  h₁ ← hash_set h₀ 33 (value_from_int 5)
  h₂ ← hash_set h₁ 17 (value_from_int 6)
  h₃ ← hash_set h₂ 33 value_undefined
  a ← hash_find h₃ 17
  b ← hash_find h₃ 33
  ok (a, b)

session_finds : session ≡ ok (25, value_undefined)
unfolding hashing
session_finds = refl

-- Sixteen keys that came and went leave no empty slot: the search for another key does not end.
churned_find : (hash_new 16 >>= λ h₀. churn 16 h₀ >>= λ h. hash_find h 100) ≡ forever
unfolding hashing churn
churned_find = refl

live : (is_live 25 ≡ true) × (is_live 29 ≡ true)
unfolding hashing
live = (refl, refl)

abbrev fresh : Returns (hash_init 16 ht_object) λ h. IsFresh 4 h × (h.type ≡ ht_object)
fresh = hash_init-IsFresh 4 ht_object (omega arith)

abbrev empty_table : Hash
empty_table = fresh.0

empty_gap : 0 < count_null empty_table.content
empty_gap = omega (arith, fresh.2.0.gaps)

-- the table with 25 under the key 7
abbrev written : Returns (hash_set empty_table 7 25) (Wrote 4 empty_table 7 25)
written = hash_set_live-Wrote fresh.2.0.valid 7 25 empty_gap live.0

abbrev table : Hash
table = written.0

table_gap : 0 < count_null table.content
table_gap = omega (arith, written.2.gaps, fresh.2.0.gaps)

table_light : count_live table.content < 16
table_light =
    omega (arith, written.2.gaps, fresh.2.0.gaps, counts-le table.content, written.2.valid.slots)

hash_find-lookup_example : hash_find table 7 ≡ ok (lookup 7 table.content)
hash_find-lookup_example = hash_find-lookup written.2.valid 7 table_gap

hash_set-Wrote_example : Returns (hash_set table 7 3) (Wrote 4 table 7 (stored 3))
hash_set-Wrote_example = hash_set-Wrote written.2.valid 7 3 table_gap (λ _. refl)

empty-IsSolid : IsSolid empty_table.content
empty-IsSolid = omega (arith, fresh.2.0.gaps, counts-le empty_table.content, fresh.2.0.valid.slots)

table-IsRoomy : IsRoomy 4 table
table-IsRoomy = record {
  valid = written.2.valid;
  solid = written.2.solid live.0 empty-IsSolid;
  gap = table_gap;
}

hash_set_and_update-IsUpdate_example :
    (k' : ℕ) × (4 ≤ k')
    × (k' ≤ 5)
    × Returns (hash_set_and_update table 23 29) (IsUpdate k' table 23 29)
hash_set_and_update-IsUpdate_example =
    hash_set_and_update-IsUpdate 4 table 23 29 (omega arith) (omega arith) table-IsRoomy live.1

hash_expand-IsCopy_example : Returns (hash_expand table) (IsCopy 5 table)
hash_expand-IsCopy_example = hash_expand-IsCopy written.2.valid (omega arith) (omega arith)

abbrev wide : Returns (hash_init 32 ht_object) λ h. IsFresh 5 h × (h.type ≡ ht_object)
wide = hash_init-IsFresh 5 ht_object (omega arith)

wide_light : hash_need_shrink wide.0 ≡ true
unfolding hash_need_shrink
wide_light =
    let v = wide.2.0.valid in
    let none_live = counts-le wide.0.content in
    let size : wide.0.size ≡ 0 = omega (arith, v.counted, wide.2.0.gaps, none_live, v.slots) in
    ground (arith, v.width, size)

hash_shrink-IsCopy_example : Returns (hash_shrink wide.0) (IsCopy 4 wide.0)
hash_shrink-IsCopy_example = hash_shrink-IsCopy wide.2.0.valid 4 refl (omega arith) wide_light

hash_expand-need_shrink_example : Returns (hash_expand table) λ e. hash_need_shrink e ≡ true
hash_expand-need_shrink_example =
    hash_expand-need_shrink 4 table written.2.valid (omega arith) (omega arith)
      (omega (arith, table_light, written.2.valid.width, written.2.valid.counted))

-- a slot whose key has been removed
abbrev deleted : HashNode
deleted = record { key = 7; value = value_undefined }

two_deleted : (j : ℕ) → j < 2 → passes 8 (node_at (replicate 2 deleted) j) ≡ true
unfolding hashing
two_deleted zero lt = refl
two_deleted (suc zero) lt = refl
two_deleted (suc (suc j)) lt = absurd (omega arith)

find_loop_full_example : find_loop 1000 (replicate 2 deleted) (2 ^ 1) 8 1 ≡ forever
find_loop_full_example =
    find_loop_full 1000 1 (replicate 2 deleted) 8 1 (omega arith) (omega arith) two_deleted
