-- ===== src/Linked/Chain.antt =====
-- What the lists of src/list.h stand for: sequences of nodes.
use cript.Linked.{Slot, head_of, next_of, Memory, read, write}
use cript.Prelude.{
  ℕ, ◌≡◌, refl, subst, Bool, true, false, not, ◌&&◌, ◌||◌, ◌==◌, Option, none, some, List, [], ◌∷◌,
  length, arith,
}

unfoldable pub has : ℕ → List ℕ → Bool
has n [] = false
has n (x ∷ xs) = (n == x) || has n xs

unfoldable pub all_distinct : List ℕ → Bool
all_distinct [] = true
all_distinct (x ∷ xs) = not (has x xs) && all_distinct xs

-- From the field `slot` on the pointers lead along the nodes to the field `end`, and back; each node knows its list.
unfoldable pub IsChain : Memory → ℕ → Slot → List ℕ → Slot → Type 0
IsChain m l slot [] end = slot ≡ end
IsChain m l slot (x ∷ xs) end =
    (read m slot ≡ some x)
    × ((m.nodes x).prev ≡ slot)
    × ((m.nodes x).list ≡ some l)
    × IsChain m l (next_of x) xs end

-- The list `l` stands for the sequence `xs`.
pub record IsList (m : Memory) (l : ℕ) (xs : List ℕ) : Type 0 where
  pub chain : IsChain m l (head_of l) xs (m.lists l).tail
  pub ends : read m (m.lists l).tail ≡ none
  pub counted : (m.lists l).size ≡ length xs
  pub distinct : all_distinct xs ≡ true

abbrev pub same_slot : Slot → Slot → Bool
same_slot (head_of l) (head_of k) = l == k
same_slot (next_of n) (next_of k) = n == k
same_slot _ _ = false

-- The field is no `next` of these nodes.
abbrev pub avoids : Slot → List ℕ → Bool
avoids (head_of l) xs = true
avoids (next_of n) xs = not (has n xs)

pub read-write_same : (m : Memory) (a : Slot) (v : Option ℕ) → read (write m a v) a ≡ v
read-write_same m (head_of l) v = ground arith
read-write_same m (next_of n) v = ground arith

pub read-write_other :
    (m : Memory) (a b : Slot) (v : Option ℕ)
    → same_slot b a ≡ false
    → read (write m a v) b ≡ read m b
read-write_other m (head_of l) (head_of k) v e = ground (arith, e)
read-write_other m (next_of n) (next_of k) v e = ground (arith, e)
read-write_other m (head_of l) (next_of k) v e = refl
read-write_other m (next_of n) (head_of k) v e = refl

pub write_prev :
    (m : Memory) (a : Slot) (v : Option ℕ) (n : ℕ) → ((write m a v).nodes n).prev ≡ (m.nodes n).prev
write_prev m (head_of l) v n = refl
write_prev m (next_of k) v n = ground arith

pub write_list :
    (m : Memory) (a : Slot) (v : Option ℕ) (n : ℕ) → ((write m a v).nodes n).list ≡ (m.nodes n).list
write_list m (head_of l) v n = refl
write_list m (next_of k) v n = ground arith

-- A chain that is not empty ends at the `next` of one of its nodes.
pub avoids_end :
    (m : Memory) (l : ℕ) (a b end : Slot) (x : ℕ) (xs : List ℕ)
    → IsChain m l a (x ∷ xs) end
    → avoids b (x ∷ xs) ≡ true
    → same_slot b end ≡ false
unfolding IsChain has
avoids_end m l a (head_of k) end x [] (_, _, _, e) free =
    subst (λ z. same_slot (head_of k) z ≡ false) e refl
avoids_end m l a (next_of k) end x [] (_, _, _, e) free =
    subst (λ z. same_slot (next_of k) z ≡ false) e (ground arith)
avoids_end m l a (head_of k) end x (y ∷ xs) (_, _, _, rest) free =
    avoids_end m l (next_of x) (head_of k) end y xs rest refl
avoids_end m l a (next_of k) end x (y ∷ xs) (_, _, _, rest) free =
    avoids_end m l (next_of x) (next_of k) end y xs rest (ground arith)
