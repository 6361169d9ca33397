-- ===== src/StringPool/Bytes.antt =====
-- The comparison of strings in src/string_pool.c.
use cript.Prelude.{ℕ, ◌≡◌, refl, true, List, [], ◌∷◌, arith}
use cript.StringPool.{same_bytes}

pub same_bytes_refl : (v : List ℕ) → same_bytes v v ≡ true
unfolding same_bytes
same_bytes_refl [] = refl
same_bytes_refl (x ∷ v) = ground (arith, same_bytes_refl v)

pub same_bytes-eq : (v w : List ℕ) → same_bytes v w ≡ true → v ≡ w
unfolding same_bytes
same_bytes-eq [] [] h = refl
same_bytes-eq [] (y ∷ w) h = cc
same_bytes-eq (x ∷ v) [] h = cc
same_bytes-eq (x ∷ v) (y ∷ w) h = ground (arith, same_bytes-eq v w)
