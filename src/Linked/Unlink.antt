-- ===== src/Linked/Unlink.antt =====
-- `list_unlink` of src/list.h as taking a node out of a sequence.
use native.Mathlib.Decide.{ℕ_discrete}
use cript.Linked.Append.{read-with_tail, read-with_size}
use cript.Linked.Chain.{
  has, IsChain, IsList, same_slot, avoids, read-write_same, read-write_other, write_prev,
  write_list,
}
use cript.Linked.Parts.{
  distinct_left, distinct_apart, length-drop, chain_left, away_left, end_avoids, kept-IsChain,
}
use cript.Linked.{
  Slot, head_of, next_of, LinkedNode, Memory, put, put_node, read, write, with_size, link_back,
  list_of, list_unlink,
}
use cript.Prelude.Run.{ok}
use cript.Prelude.{
  ℕ, ◌<◌, ◌^◌, ◌≡◌, ◌≢◌, refl, sym, ap, subst, ◌∙◌, true, false, Option, none, some, List, ◌∷◌,
  ◌++◌, length, arith,
}
use cript.Word.{sub}

read_put :
    (m : Memory) (n : ℕ) (v : LinkedNode) (a : Slot)
    → v.next ≡ (m.nodes n).next
    → read (put_node m n v) a ≡ read m a
read_put m n v (head_of l) e = refl
read_put m n v (next_of k) e = elim (ℕ_discrete k n) [
  | yes same ↦
      subst (λ x. (put m.nodes n v x).next ≡ (m.nodes x).next) (sym same) (ground arith ∙ e)
  | no ne ↦ ground (arith, ne)
]

prev_put :
    (m : Memory) (n q : ℕ) (v : LinkedNode)
    → v.prev ≡ (m.nodes n).prev
    → ((put_node m n v).nodes q).prev ≡ (m.nodes q).prev
prev_put m n q v e = elim (ℕ_discrete q n) [
  | yes same ↦
      subst (λ x. (put m.nodes n v x).prev ≡ (m.nodes x).prev) (sym same) (ground arith ∙ e)
  | no ne ↦ ground (arith, ne)
]

list_put :
    (m : Memory) (n q : ℕ) (v : LinkedNode)
    → v.list ≡ (m.nodes n).list
    → ((put_node m n v).nodes q).list ≡ (m.nodes q).list
list_put m n q v e = elim (ℕ_discrete q n) [
  | yes same ↦
      subst (λ x. (put m.nodes n v x).list ≡ (m.nodes x).list) (sym same) (ground arith ∙ e)
  | no ne ↦ ground (arith, ne)
]

write_tail :
    (m : Memory) (a : Slot) (v : Option ℕ) (l : ℕ) → ((write m a v).lists l).tail ≡ (m.lists l).tail
write_tail m (head_of k) v l = ground arith
write_tail m (next_of k) v l = refl

write_size :
    (m : Memory) (a : Slot) (v : Option ℕ) (l : ℕ) → ((write m a v).lists l).size ≡ (m.lists l).size
write_size m (head_of k) v l = ground arith
write_size m (next_of k) v l = refl

-- the state after `link_back` and the counter, and that after the node has lost its list
abbrev uncounted : Memory → ℕ → Memory
uncounted m l = with_size m l (sub (m.lists l).size 1)

abbrev unlisted : Memory → ℕ → Memory
unlisted m n = put_node m n (record (m.nodes n) { list = none })

module _ (m : Memory) (n l : ℕ) (x : Option ℕ) where
  written : Memory
  written = write m (m.nodes n).prev x

  pub unlinked : Memory
  unlinked = unlisted (uncounted (link_back (write m (m.nodes n).prev x) x l (m.nodes n).prev) l) n

  read_back :
      (a : Slot)
      → read (link_back (write m (m.nodes n).prev x) x l (m.nodes n).prev) a
        ≡ read (write m (m.nodes n).prev x) a
  unfolding link_back
  read_back a = back x (write m (m.nodes n).prev x)
    where
      back : (x : Option ℕ) (m' : Memory) → read (link_back m' x l (m.nodes n).prev) a ≡ read m' a
      back none m' = read-with_tail m' l (m.nodes n).prev a
      back (some y) m' = read_put m' y (record (m'.nodes y) { prev = (m.nodes n).prev }) a refl

  read-unlinked : (a : Slot) → read unlinked a ≡ read (write m (m.nodes n).prev x) a
  unfolding unlinked
  read-unlinked a =
      let m₁ = link_back (write m (m.nodes n).prev x) x l (m.nodes n).prev in
      read_put (uncounted m₁ l) n (record ((uncounted m₁ l).nodes n) { list = none }) a refl
      ∙ read-with_size m₁ l (sub (m₁.lists l).size 1) a
      ∙ read_back a

  pub lists_kept : (q : ℕ) → q ≢ n → (unlinked.nodes q).list ≡ (m.nodes q).list
  unfolding unlinked link_back
  lists_kept q ne = ground (arith, ne) ∙ back x ∙ write_list m (m.nodes n).prev x q
    where
      back :
          (y : Option ℕ)
          → ((link_back (write m (m.nodes n).prev x) y l (m.nodes n).prev).nodes q).list
            ≡ ((write m (m.nodes n).prev x).nodes q).list
      back none = refl
      back (some y) =
          list_put (write m (m.nodes n).prev x) y q
            (record ((write m (m.nodes n).prev x).nodes y) { prev = (m.nodes n).prev }) refl

  pub list_lost : (unlinked.nodes n).list ≡ none
  unfolding unlinked
  list_lost = ground arith

  pub prevs_kept :
      (q : ℕ) → ((y : ℕ) → x ≡ some y → q ≢ y) → (unlinked.nodes q).prev ≡ (m.nodes q).prev
  unfolding unlinked link_back
  prevs_kept q ne =
      let m₁ = link_back (write m (m.nodes n).prev x) x l (m.nodes n).prev in
      prev_put (uncounted m₁ l) n q (record ((uncounted m₁ l).nodes n) { list = none }) refl
      ∙ back x ne
      ∙ write_prev m (m.nodes n).prev x q
    where
      back :
          (z : Option ℕ)
          → ((y : ℕ) → z ≡ some y → q ≢ y)
          → ((link_back (write m (m.nodes n).prev x) z l (m.nodes n).prev).nodes q).prev
            ≡ ((write m (m.nodes n).prev x).nodes q).prev
      back none ne = refl
      back (some y) ne = ground (arith, ne y refl)

  pub next_prev : (y : ℕ) → x ≡ some y → (unlinked.nodes y).prev ≡ (m.nodes n).prev
  unfolding unlinked link_back
  next_prev y e =
      let m₁ = link_back (write m (m.nodes n).prev x) x l (m.nodes n).prev in
      prev_put (uncounted m₁ l) n y (record ((uncounted m₁ l).nodes n) { list = none }) refl
      ∙ ap (λ z. ((link_back (write m (m.nodes n).prev x) z l (m.nodes n).prev).nodes y).prev) e
      ∙ ground arith

  pub tail_kept : (y : ℕ) → x ≡ some y → (unlinked.lists l).tail ≡ (m.lists l).tail
  unfolding unlinked link_back
  tail_kept y e =
      ground arith
      ∙ ap (λ z. ((link_back (write m (m.nodes n).prev x) z l (m.nodes n).prev).lists l).tail) e
      ∙ write_tail m (m.nodes n).prev x l

  pub tail_back : x ≡ none → (unlinked.lists l).tail ≡ (m.nodes n).prev
  unfolding unlinked link_back
  tail_back e =
      ground arith
      ∙ ap (λ z. ((link_back (write m (m.nodes n).prev x) z l (m.nodes n).prev).lists l).tail) e
      ∙ ground arith

  size_less : (unlinked.lists l).size ≡ sub (m.lists l).size 1
  unfolding unlinked link_back
  size_less = ground arith ∙ ap (λ s. sub s 1) (back x ∙ write_size m (m.nodes n).prev x l)
    where
      back :
          (z : Option ℕ)
          → ((link_back (write m (m.nodes n).prev x) z l (m.nodes n).prev).lists l).size
            ≡ ((write m (m.nodes n).prev x).lists l).size
      back none = ground arith
      back (some y) = refl

  pub at_prev : read unlinked (m.nodes n).prev ≡ x
  at_prev = read-unlinked (m.nodes n).prev ∙ read-write_same m (m.nodes n).prev x

  pub elsewhere : (a : Slot) → same_slot a (m.nodes n).prev ≡ false → read unlinked a ≡ read m a
  elsewhere a ne = read-unlinked a ∙ read-write_other m (m.nodes n).prev a x ne

pub list_unlink-unlinked :
    (m : Memory) (n l : ℕ)
    → (m.nodes n).list ≡ some l
    → list_unlink m n ≡ ok (unlinked m n l (m.nodes n).next)
unfolding list_unlink list_of unlinked
list_unlink-unlinked m n l e = rw e refl

module _ (m : Memory) (n l : ℕ) (xs ys : List ℕ) (v : IsList m l (xs ++ (n ∷ ys))) where
  pub before : IsChain m l (head_of l) xs (m.nodes n).prev
  before = chain_left m l (head_of l) (m.lists l).tail xs ys n v.chain

  pub prev_avoids : avoids (m.nodes n).prev (n ∷ ys) ≡ true
  prev_avoids = end_avoids m l (head_of l) (m.nodes n).prev xs (n ∷ ys) before v.distinct refl

  pub not_self : (q : ℕ) → has q xs ≡ true → q ≢ n
  not_self q e same =
      let absent = distinct_apart xs (n ∷ ys) n v.distinct (unfold has in ground arith) in
      cc (ap (λ z. has z xs) same, absent, e)

  -- the nodes before the one that is taken out
  pub left_kept :
      (x : Option ℕ)
      → ((q : ℕ) → has q xs ≡ true → (y : ℕ) → x ≡ some y → q ≢ y)
      → IsChain (unlinked m n l x) l (head_of l) xs (m.nodes n).prev
  left_kept x ne =
      kept-IsChain m (unlinked m n l x) l (m.nodes n).prev (head_of l) (m.nodes n).prev xs
        (elsewhere m n l x) (λ q e. prevs_kept m n l x q (ne q e))
        (λ q e. lists_kept m n l x q (not_self q e))
        (away_left m l (head_of l) (m.nodes n).prev xs before refl
          (distinct_left xs (n ∷ ys) v.distinct))
        before

  pub counted_less :
      (x : Option ℕ)
      → length (xs ++ (n ∷ ys)) < 2 ^ 32
      → ((unlinked m n l x).lists l).size ≡ length (xs ++ ys)
  counted_less x small = omega (arith, size_less m n l x, v.counted, small, length-drop n xs ys)
