-- ===== src/Hash/Ops.antt =====
-- The hash tables of src/hash.c as the parser and the builder use them. A call that does not return leaves the table as it is
-- here; on the tables of `IsFine` every call returns.
use cript.Hash.{
  Hash, HashNode, HashInfo, ht_object, hash_min_capacity, is_live, hash_new, hash_find, hash_set,
  hash_set_and_update,
}
use cript.Hash.Resize.{IsRoomy, hash_set_and_update-IsUpdate}
use cript.Hash.Table.{hash_find-lookup}
use cript.Prelude.Run.{Run, ok, trap, forever, wild}
use cript.Hash.Rehash.{hash_init-IsFresh}
use cript.Hash.Slots.{counts-le}
use cript.Prelude.{arith, ◌≡◌, sym, ap, subst, true, ℕ, ◌≤◌, if◌then◌else◌, List, [], ◌∷◌}
use cript.Table.{TableOps, TableLaws}
use cript.Value.{Value, value_undefined}

-- what a run returns, or `x` if it does not
abbrev pub returned : {A : Type 0} → A → Run A → A
returned x (ok a) = a
returned x trap = x
returned x forever = x
returned x wild = x

abbrev no_table : Hash
no_table = record { type = ht_object; info = HashInfo.unset; capacity = 0; size = 0; content = [] }

unfoldable pub table_find : Hash → ℕ → Value
table_find h key = returned value_undefined (hash_find h key)

unfoldable pub table_update : Hash → ℕ → Value → Hash
table_update h key value = returned h (hash_set_and_update h key value)

unfoldable pub table_set : Hash → ℕ → Value → Hash
table_set h key value = returned h (hash_set h key value)

unfoldable pub table_new : Hash
table_new = returned no_table (hash_new hash_min_capacity)

instance abbrev pub hash_tables : TableOps Hash
hash_tables = record {
  empty = table_new;
  find = table_find;
  update = table_update;
  set = table_set;
}

-- the live slots, in the order of `hash_for_each`
unfoldable pub live_nodes : List HashNode → List HashNode
live_nodes [] = []
live_nodes (node ∷ nodes) =
    let rest = live_nodes nodes in if is_live node.value then node ∷ rest else rest

-- A well-formed table of up to `2 ^ 30` slots, with an empty slot and no deleted one.
abbrev pub IsFine : Hash → Type 0
IsFine h = (k : ℕ) × (4 ≤ k) × (k ≤ 30) × IsRoomy k h

pub hash_tables-TableLaws : TableLaws hash_tables IsFine
unfolding table_find table_update
hash_tables-TableLaws = record {
  find-update = λ t q v p fine live.
      let (k, lo, hi, roomy) = fine in
      let (k', lo', le, (t', run, new)) = hash_set_and_update-IsUpdate k t q v lo hi roomy live in
      rw
        (
          run,
          hash_find-lookup new.roomy.valid p new.roomy.gap,
          hash_find-lookup roomy.valid p roomy.gap,
        )
        (new.reads p);
}

new_table : (h : Hash) × (table_new ≡ h) × IsRoomy 4 h
unfolding table_new hash_new
new_table =
    let (h, made, (fresh, typed)) = hash_init-IsFresh 4 ht_object (omega arith) in
    (
      h,
      ap (returned no_table) made,
      record {
        valid = fresh.valid;
        solid = omega (arith, fresh.gaps, fresh.valid.slots, counts-le h.content);
        gap = omega (arith, fresh.gaps);
      },
    )

-- A new table is fine, and one that has been written once more too, when there is room.
pub table_new-IsRoomy : IsRoomy 4 table_new
table_new-IsRoomy = let (h, e, roomy) = new_table in subst (IsRoomy 4) (sym e) roomy

pub table_update-IsFine :
    (k : ℕ) (t : Hash) (q : ℕ) (v : Value)
    → 4 ≤ k
    → k ≤ 29
    → IsRoomy k t
    → is_live v ≡ true
    → IsFine (table_update t q v)
unfolding table_update
table_update-IsFine k t q v lo hi roomy live =
    let (k', lo', le, (t', run, new)) =
      hash_set_and_update-IsUpdate k t q v lo (omega arith) roomy live in
    rw run (k', lo', omega arith, new.roomy)
