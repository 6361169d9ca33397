-- ===== src/Linked/Parts.antt =====
-- Parts of the chains of src/list.h, and what leaves them as they are.
use cript.Linked.Chain.{has, all_distinct, IsChain, same_slot, avoids, avoids_end}
use cript.Linked.{Slot, head_of, next_of, Memory, read}
use cript.Prelude.{
  ℕ, ◌+◌, ◌≡◌, refl, sym, ap, subst, ◌∙◌, Bool, true, false, not, ◌&&◌, ◌||◌, ◌==◌, some, List, [],
  ◌∷◌, ◌++◌, length, inl, inr, Bool-cases, arith,
}

pub has-append : (q : ℕ) (xs ys : List ℕ) → has q (xs ++ ys) ≡ (has q xs || has q ys)
unfolding has
has-append q [] ys = refl
has-append q (x ∷ xs) ys = ground (arith, has-append q xs ys)

pub distinct_left : (xs ys : List ℕ) → all_distinct (xs ++ ys) ≡ true → all_distinct xs ≡ true
unfolding all_distinct
distinct_left [] ys d = refl
distinct_left (x ∷ xs) ys d =
    let rest = distinct_left xs ys (ground arith) in ground (arith, d, rest, has-append x xs ys)

pub distinct_right : (xs ys : List ℕ) → all_distinct (xs ++ ys) ≡ true → all_distinct ys ≡ true
unfolding all_distinct
distinct_right [] ys d = d
distinct_right (x ∷ xs) ys d = distinct_right xs ys (ground arith)

pub distinct_apart :
    (xs ys : List ℕ) (q : ℕ) → all_distinct (xs ++ ys) ≡ true → has q ys ≡ true → has q xs ≡ false
unfolding all_distinct has
distinct_apart [] ys q d e = refl
distinct_apart (x ∷ xs) ys q d e =
    let rest = distinct_apart xs ys q (ground arith) e in
    let no_x : has x ys ≡ false = ground (arith, d, has-append x xs ys) in
    elim (Bool-cases (q == x)) [
      | inr ne ↦ ground (arith, rest, ne)
      | inl same ↦
          let eq : q ≡ x = ground (arith, same) in absurd (cc (ap (λ z. has z ys) eq, no_x, e))
    ]

pub distinct_drop :
    (n : ℕ) (xs ys : List ℕ) → all_distinct (xs ++ (n ∷ ys)) ≡ true → all_distinct (xs ++ ys) ≡ true
unfolding all_distinct has
distinct_drop n [] ys d = ground (arith, d)
distinct_drop n (x ∷ xs) ys d =
    let rest = distinct_drop n xs ys (ground arith) in
    ground (arith, d, rest, has-append x xs (n ∷ ys), has-append x xs ys)

pub length-drop : (n : ℕ) (xs ys : List ℕ) → length (xs ++ (n ∷ ys)) ≡ length (xs ++ ys) + 1
length-drop n [] ys = omega arith
length-drop n (x ∷ xs) ys = omega (arith, length-drop n xs ys)

-- the field before `n` is the one to which `n` points back
pub chain_left :
    (m : Memory) (l : ℕ) (a end : Slot) (xs ys : List ℕ) (n : ℕ)
    → IsChain m l a (xs ++ (n ∷ ys)) end
    → IsChain m l a xs (m.nodes n).prev
unfolding IsChain
chain_left m l a end [] ys n (_, back, _, _) = sym back
chain_left m l a end (x ∷ xs) ys n (here, back, mine, rest) =
    (here, back, mine, chain_left m l (next_of x) end xs ys n rest)

pub chain_right :
    (m : Memory) (l : ℕ) (a end : Slot) (xs ys : List ℕ) (n : ℕ)
    → IsChain m l a (xs ++ (n ∷ ys)) end
    → ((m.nodes n).list ≡ some l) × IsChain m l (next_of n) ys end
unfolding IsChain
chain_right m l a end [] ys n (_, _, mine, rest) = (mine, rest)
chain_right m l a end (x ∷ xs) ys n (_, _, _, rest) = chain_right m l (next_of x) end xs ys n rest

pub chain_join :
    (m : Memory) (l : ℕ) (a b end : Slot) (xs ys : List ℕ)
    → IsChain m l a xs b
    → IsChain m l b ys end
    → IsChain m l a (xs ++ ys) end
unfolding IsChain
chain_join m l a b end [] ys e c = subst (λ s. IsChain m l s ys end) (sym e) c
chain_join m l a b end (x ∷ xs) ys (here, back, mine, rest) c =
    (here, back, mine, chain_join m l (next_of x) b end xs ys rest c)

-- None of the fields from `a` on through which the chain goes is `p`.
unfoldable pub away : Slot → Slot → List ℕ → Bool
away p a [] = true
away p a (x ∷ xs) = not (same_slot a p) && away p (next_of x) xs

pub away_left :
    (m : Memory) (l : ℕ) (a p : Slot) (xs : List ℕ)
    → IsChain m l a xs p
    → avoids a xs ≡ true
    → all_distinct xs ≡ true
    → away p a xs ≡ true
unfolding away IsChain all_distinct
away_left m l a p [] c free d = refl
away_left m l a p (x ∷ xs) (here, back, mine, rest) free d =
    let rest' = away_left m l (next_of x) p xs rest (ground arith) (ground arith) in
    let apart = avoids_end m l a a p x xs (here, back, mine, rest) free in
    ground (arith, rest', apart)

pub away_right :
    (p : Slot) (y : ℕ) (ys : List ℕ) → avoids p (y ∷ ys) ≡ true → away p (next_of y) ys ≡ true
unfolding away has
away_right p y [] e = refl
away_right (head_of l) y (z ∷ ys) e = away_right (head_of l) z ys refl
away_right (next_of k) y (z ∷ ys) e =
    let rest = away_right (next_of k) z ys (ground arith) in ground (arith, rest, e)

-- the end of a chain is no field of the nodes that follow it
pub end_avoids :
    (m : Memory) (l : ℕ) (a p : Slot) (xs ys : List ℕ)
    → IsChain m l a xs p
    → all_distinct (xs ++ ys) ≡ true
    → avoids a ys ≡ true
    → avoids p ys ≡ true
unfolding IsChain all_distinct
end_avoids m l a p [] ys e d free = subst (λ s. avoids s ys ≡ true) e free
end_avoids m l a p (x ∷ xs) ys (_, _, _, rest) d free =
    end_avoids m l (next_of x) p xs ys rest (ground arith) (ground (arith, d, has-append x xs ys))

-- A change that leaves the nodes' back pointers and lists, and every field but `p`, leaves a chain that is away from `p`.
pub kept-IsChain :
    (m m' : Memory) (l : ℕ) (p a end : Slot) (xs : List ℕ)
    → ((b : Slot) → same_slot b p ≡ false → read m' b ≡ read m b)
    → ((q : ℕ) → has q xs ≡ true → (m'.nodes q).prev ≡ (m.nodes q).prev)
    → ((q : ℕ) → has q xs ≡ true → (m'.nodes q).list ≡ (m.nodes q).list)
    → away p a xs ≡ true
    → IsChain m l a xs end
    → IsChain m' l a xs end
unfolding IsChain away has
kept-IsChain m m' l p a end [] reads prevs lists free c = c
kept-IsChain m m' l p a end (x ∷ xs) reads prevs lists free (here, back, mine, rest) = (
  reads a (ground arith) ∙ here,
  prevs x (ground arith) ∙ back,
  lists x (ground arith) ∙ mine,
  kept-IsChain m m' l p (next_of x) end xs reads (λ q e. prevs q (ground (arith, e)))
      (λ q e. lists q (ground (arith, e))) (ground arith) rest,
)
