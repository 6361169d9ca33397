-- ===== src/Table.antt =====
-- What the other components ask of hash tables, and where they may rely on it.
use cript.Hash.{is_live}
use cript.Prelude.{ℕ, ◌≡◌, true, ◌==◌, if◌then◌else◌}
use cript.Value.{Value}

-- `empty` is a new table, `find` is `hash_find`, `update` the macro `hash_set_and_update` and `set` is `hash_set`.
-- `Hash/Ops` gives them by the definitions of `Hash`.
pub record TableOps (T : Type 0) : Type 0 where
  pub empty : T
  pub find : T → ℕ → Value
  pub update : T → ℕ → Value → T
  pub set : T → ℕ → Value → T

-- What the operations do on the tables that are `fine`.
pub record TableLaws {T : Type 0} (ops : TableOps T) (fine : T → Type 0) : Type 0 where
  pub find-update :
      (t : T) (q : ℕ) (v : Value) (p : ℕ)
      → fine t
      → is_live v ≡ true
      → ops.find (ops.update t q v) p ≡ (if p == q then v else ops.find t p)
