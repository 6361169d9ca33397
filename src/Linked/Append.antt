-- ===== src/Linked/Append.antt =====
-- `list_append` of src/list.h as putting a node behind a sequence.
use cript.Linked.Chain.{
  has, all_distinct, IsChain, IsList, same_slot, avoids, read-write_same, read-write_other,
  write_prev, write_list, avoids_end,
}
use cript.Linked.{
  Slot, head_of, next_of, LinkedNode, Memory, put_node, read, write, with_tail, with_size,
  list_append,
}
use cript.Prelude.{
  ℕ, ◌+◌, ◌≡◌, refl, sym, ap, subst, ◌∙◌, true, false, ◌||◌, ◌==◌, none, some, List, [], ◌∷◌, ◌++◌,
  length, arith,
}

pub read-with_tail : (m : Memory) (l : ℕ) (t a : Slot) → read (with_tail m l t) a ≡ read m a
read-with_tail m l t (head_of k) = ground arith
read-with_tail m l t (next_of k) = refl

pub read-with_size : (m : Memory) (l n : ℕ) (a : Slot) → read (with_size m l n) a ≡ read m a
read-with_size m l n (head_of k) = ground arith
read-with_size m l n (next_of k) = refl

read-put_node :
    (m : Memory) (n : ℕ) (v : LinkedNode) (a : Slot)
    → same_slot a (next_of n) ≡ false
    → read (put_node m n v) a ≡ read m a
read-put_node m n v (head_of k) e = refl
read-put_node m n v (next_of k) e = ground (arith, e)

pub symmetric : (a b : Slot) → same_slot a b ≡ same_slot b a
symmetric (head_of l) (head_of k) = ground arith
symmetric (next_of l) (next_of k) = ground arith
symmetric (head_of l) (next_of k) = refl
symmetric (next_of l) (head_of k) = refl

module _ (m : Memory) (l n : ℕ) (apart : same_slot (m.lists l).tail (next_of n) ≡ false) where
  linked : Memory
  linked =
      write (put_node m n (record { prev = (m.lists l).tail; next = none; list = some l }))
        (m.lists l).tail (some n)

  appended : Memory
  appended = list_append m l n

  read-appended : (a : Slot) → read appended a ≡ read linked a
  unfolding appended linked list_append
  read-appended a =
      read-with_size (with_tail linked l (next_of n)) l ((m.lists l).size + 1) a
      ∙ read-with_tail linked l (next_of n) a

  new_there : read linked (m.lists l).tail ≡ some n
  unfolding linked
  new_there =
      read-write_same
        (put_node m n (record { prev = (m.lists l).tail; next = none; list = some l }))
        (m.lists l).tail (some n)

  read_tail : read appended (m.lists l).tail ≡ some n
  read_tail = read-appended (m.lists l).tail ∙ new_there

  read_other :
      (a : Slot)
      → same_slot a (m.lists l).tail ≡ false
      → same_slot a (next_of n) ≡ false
      → read appended a ≡ read m a
  unfolding linked
  read_other a ne ne' =
      read-appended a
      ∙ read-write_other
          (put_node m n (record { prev = (m.lists l).tail; next = none; list = some l }))
          (m.lists l).tail a (some n) ne
      ∙ read-put_node m n (record { prev = (m.lists l).tail; next = none; list = some l }) a ne'

  new_next : read appended (next_of n) ≡ none
  unfolding linked
  new_next =
      read-appended (next_of n)
      ∙ read-write_other
          (put_node m n (record { prev = (m.lists l).tail; next = none; list = some l }))
          (m.lists l).tail (next_of n) (some n) (symmetric (next_of n) (m.lists l).tail ∙ apart)
      ∙ ground arith

  new_prev : (appended.nodes n).prev ≡ (m.lists l).tail
  unfolding appended list_append
  new_prev =
      write_prev (put_node m n (record { prev = (m.lists l).tail; next = none; list = some l }))
        (m.lists l).tail (some n) n
      ∙ ground arith

  new_list : (appended.nodes n).list ≡ some l
  unfolding appended list_append
  new_list =
      write_list (put_node m n (record { prev = (m.lists l).tail; next = none; list = some l }))
        (m.lists l).tail (some n) n
      ∙ ground arith

  old_prev : (q : ℕ) → (q == n) ≡ false → (appended.nodes q).prev ≡ (m.nodes q).prev
  unfolding appended list_append
  old_prev q ne =
      write_prev (put_node m n (record { prev = (m.lists l).tail; next = none; list = some l }))
        (m.lists l).tail (some n) q
      ∙ ground (arith, ne)

  old_list : (q : ℕ) → (q == n) ≡ false → (appended.nodes q).list ≡ (m.nodes q).list
  unfolding appended list_append
  old_list q ne =
      write_list (put_node m n (record { prev = (m.lists l).tail; next = none; list = some l }))
        (m.lists l).tail (some n) q
      ∙ ground (arith, ne)

  new_tail : (appended.lists l).tail ≡ next_of n
  unfolding appended list_append
  new_tail = ground arith

  new_size : (appended.lists l).size ≡ (m.lists l).size + 1
  unfolding appended list_append
  new_size = ground arith

  -- The chain up to the old tail goes on to the new node.
  snoc-IsChain :
      (a : Slot) (xs : List ℕ)
      → IsChain m l a xs (m.lists l).tail
      → avoids a xs ≡ true
      → same_slot a (next_of n) ≡ false
      → has n xs ≡ false
      → all_distinct xs ≡ true
      → IsChain appended l a (xs ++ (n ∷ [])) (next_of n)
  unfolding IsChain has all_distinct
  snoc-IsChain a [] e free ne none_there d =
      (ap (read appended) e ∙ read_tail, new_prev ∙ sym e, new_list, refl)
  snoc-IsChain a (x ∷ xs) (here, back, mine, rest) free ne none_there d = (
    read_other a (avoids_end m l a a (m.lists l).tail x xs (here, back, mine, rest) free) ne ∙ here,
    old_prev x (ground arith) ∙ back,
    old_list x (ground arith) ∙ mine,
    snoc-IsChain (next_of x) xs rest (ground arith) (ground arith) (ground arith) (ground arith),
  )

has-snoc : (q n : ℕ) (xs : List ℕ) → has q (xs ++ (n ∷ [])) ≡ (has q xs || q == n)
unfolding has
has-snoc q n [] = ground arith
has-snoc q n (x ∷ xs) = ground (arith, has-snoc q n xs)

all_distinct-snoc :
    (n : ℕ) (xs : List ℕ)
    → all_distinct xs ≡ true
    → has n xs ≡ false
    → all_distinct (xs ++ (n ∷ [])) ≡ true
unfolding has all_distinct
all_distinct-snoc n [] d e = refl
all_distinct-snoc n (x ∷ xs) d e =
    let rest = all_distinct-snoc n xs (ground arith) (ground arith) in
    ground (arith, has-snoc x n xs, rest)

length-snoc : (n : ℕ) (xs : List ℕ) → length (xs ++ (n ∷ [])) ≡ length xs + 1
length-snoc n [] = refl
length-snoc n (x ∷ xs) = omega (arith, length-snoc n xs)

-- The last field of a list is not the `next` of a node that is not in it.
pub tail_apart :
    (m : Memory) (l n : ℕ) (xs : List ℕ)
    → IsList m l xs
    → has n xs ≡ false
    → same_slot (m.lists l).tail (next_of n) ≡ false
unfolding IsChain
tail_apart m l n [] v e = ap (λ t. same_slot t (next_of n)) (sym v.chain)
tail_apart m l n (x ∷ xs) v e =
    symmetric (m.lists l).tail (next_of n)
    ∙ avoids_end m l (head_of l) (next_of n) (m.lists l).tail x xs v.chain (ground (arith, e))

-- Appending a node that is not in a list puts it at the end of the sequence that the list stands for.
pub list_append-IsList :
    (m : Memory) (l n : ℕ) (xs : List ℕ)
    → IsList m l xs
    → has n xs ≡ false
    → IsList (list_append m l n) l (xs ++ (n ∷ []))
unfolding appended
list_append-IsList m l n xs v absent =
    let apart = tail_apart m l n xs v absent in
    let tail = new_tail m l n apart in
    record {
      chain =
          subst (IsChain (list_append m l n) l (head_of l) (xs ++ (n ∷ []))) (sym tail)
            (snoc-IsChain m l n apart (head_of l) xs v.chain refl refl absent v.distinct);
      ends = ap (read (list_append m l n)) tail ∙ new_next m l n apart;
      counted = new_size m l n apart ∙ ap (λ x. x + 1) v.counted ∙ sym (length-snoc n xs);
      distinct = all_distinct-snoc n xs v.distinct absent;
    }
