-- ===== src/Linked/Removal.antt =====
-- `list_unlink` of src/list.h: the sequence without the node.
use cript.Linked.Append.{symmetric}
use cript.Linked.Chain.{has, all_distinct, IsChain, IsList, avoids, avoids_end}
use cript.Linked.Parts.{
  distinct_right, distinct_apart, distinct_drop, chain_right, chain_join, away_right, kept-IsChain,
}
use cript.Linked.Unlink.{
  unlinked, list_lost, prevs_kept, lists_kept, next_prev, tail_kept, tail_back, at_prev, elsewhere,
  prev_avoids, left_kept, counted_less, list_unlink-unlinked,
}
use cript.Linked.{Slot, head_of, next_of, Memory, read, list_unlink}
use cript.Prelude.Run.{Returns}
use cript.Prelude.{
  ℕ, ◌<◌, ◌^◌, ◌≡◌, ◌≢◌, refl, sym, ap, subst, ◌∙◌, true, false, Option, none, some, List, [], ◌∷◌,
  ◌++◌, length, arith,
}

some_injective : {a b : ℕ} → ◌≡◌ {A = Option ℕ} (some a) (some b) → a ≡ b
some_injective h = cc

last_unlinked :
    (m : Memory) (n l : ℕ) (xs : List ℕ)
    → IsList m l (xs ++ (n ∷ []))
    → length (xs ++ (n ∷ [])) < 2 ^ 32
    → IsList (unlinked m n l (m.nodes n).next) l (xs ++ [])
unfolding IsChain
last_unlinked m n l xs v small =
    let (mine, at_end) = chain_right m l (head_of l) (m.lists l).tail xs [] n v.chain in
    let x = (m.nodes n).next in
    let nothing : x ≡ none = ap (read m) at_end ∙ v.ends in
    let kept = left_kept m n l xs [] v x (λ q e y is. absurd (cc (nothing, is))) in
    let back = tail_back m n l x nothing in
    record {
      chain = subst (IsChain (unlinked m n l x) l (head_of l) (xs ++ [])) (sym back) (
          chain_join (unlinked m n l x) l (head_of l) (m.nodes n).prev (m.nodes n).prev xs [] kept
            refl);
      ends = ap (read (unlinked m n l x)) back ∙ at_prev m n l x ∙ nothing;
      counted = counted_less m n l xs [] v x small;
      distinct = distinct_drop n xs [] v.distinct;
    }

inner_unlinked :
    (m : Memory) (n l y : ℕ) (xs ys : List ℕ)
    → IsList m l (xs ++ (n ∷ y ∷ ys))
    → length (xs ++ (n ∷ y ∷ ys)) < 2 ^ 32
    → IsList (unlinked m n l (m.nodes n).next) l (xs ++ (y ∷ ys))
unfolding IsChain has all_distinct
inner_unlinked m n l y xs ys v small =
    let (mine, (here, back, of_y, rest)) =
      chain_right m l (head_of l) (m.lists l).tail xs (y ∷ ys) n v.chain in
    let x = (m.nodes n).next in
    let p = (m.nodes n).prev in
    let m' = unlinked m n l x in
    let only_y : (z : ℕ) → x ≡ some z → z ≡ y = λ z e. some_injective (sym e ∙ here) in
    let d = distinct_right xs (n ∷ y ∷ ys) v.distinct in
    let left_of_y = distinct_apart xs (n ∷ y ∷ ys) y v.distinct (ground arith) in
    let kept =
      left_kept m n l xs (y ∷ ys) v x
        (λ q e z is same. cc (ap (λ w. has w xs) (same ∙ only_y z is), left_of_y, e)) in
    let free : avoids p (y ∷ ys) ≡ true = avoids_rest p (prev_avoids m n l xs (y ∷ ys) v) in
    let on =
      kept-IsChain m m' l p (next_of y) (m.lists l).tail ys (elsewhere m n l x)
        (λ q e.
          prevs_kept m n l x q
            (λ z is same. cc (ap (λ w. has w ys) (same ∙ only_y z is), no_y d, e)))
        (λ q e. lists_kept m n l x q (λ same. cc (ap (λ w. has w ys) same, no_n d, e)))
        (away_right p y ys free) rest in
    let suffix : IsChain m' l p (y ∷ ys) (m.lists l).tail = (
      at_prev m n l x ∙ here,
      next_prev m n l x y here,
      lists_kept m n l x y (λ same. n_is_not_y d same) ∙ of_y,
      on,
    ) in
    let tail = tail_kept m n l x y here in
    let apart = avoids_end m l (next_of n) p (m.lists l).tail y ys (here, back, of_y, rest) free in
    record {
      chain =
          subst (IsChain m' l (head_of l) (xs ++ (y ∷ ys))) (sym tail)
            (chain_join m' l (head_of l) p (m.lists l).tail xs (y ∷ ys) kept suffix);
      ends =
          ap (read m') tail
          ∙ elsewhere m n l x (m.lists l).tail (symmetric (m.lists l).tail p ∙ apart)
          ∙ v.ends;
      counted = counted_less m n l xs (y ∷ ys) v x small;
      distinct = distinct_drop n xs (y ∷ ys) v.distinct;
    }
  where
    no_y : all_distinct (n ∷ y ∷ ys) ≡ true → has y ys ≡ false
    no_y d = ground (arith, d)

    no_n : all_distinct (n ∷ y ∷ ys) ≡ true → has n ys ≡ false
    no_n d = ground (arith, d)

    n_is_not_y : all_distinct (n ∷ y ∷ ys) ≡ true → y ≢ n
    n_is_not_y d = ground (arith, d)

    avoids_rest : (p : Slot) → avoids p (n ∷ y ∷ ys) ≡ true → avoids p (y ∷ ys) ≡ true
    avoids_rest (head_of k) e = refl
    avoids_rest (next_of k) e = ground (arith, e)

-- Unlinking a node of a list, of fewer than 2 ^ 32 nodes, returns; the list stands for its sequence without the node,
-- which is then in no list.
pub list_unlink-IsList :
    (m : Memory) (l n : ℕ) (xs ys : List ℕ)
    → IsList m l (xs ++ (n ∷ ys))
    → length (xs ++ (n ∷ ys)) < 2 ^ 32
    → Returns (list_unlink m n) λ m'. IsList m' l (xs ++ ys) × ((m'.nodes n).list ≡ none)
list_unlink-IsList m l n xs [] v small =
    let (mine, _) = chain_right m l (head_of l) (m.lists l).tail xs [] n v.chain in
    let x = (m.nodes n).next in
    (
      unlinked m n l x,
      list_unlink-unlinked m n l mine,
      (last_unlinked m n l xs v small, list_lost m n l x),
    )
list_unlink-IsList m l n xs (y ∷ ys) v small =
    let (mine, _) = chain_right m l (head_of l) (m.lists l).tail xs (y ∷ ys) n v.chain in
    let x = (m.nodes n).next in
    (
      unlinked m n l x,
      list_unlink-unlinked m n l mine,
      (inner_unlinked m n l y xs ys v small, list_lost m n l x),
    )
