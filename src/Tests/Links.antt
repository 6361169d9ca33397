-- ===== src/Tests/Links.antt =====
-- Runs of the linked lists of src/list.h.
use cript.Linked.Append.{list_append-IsList}
use cript.Linked.Chain.{has, all_distinct, IsChain, IsList}
use cript.Linked.Removal.{list_unlink-IsList}
use cript.Linked.{
  head_of, Memory, list_node_init, list_init, list_append, list_prepend, list_before, list_after,
  link_back, list_of, list_unlink, unlink_head, move_loop, list_move,
}
use cript.Prelude.Run.{Run, ok, ◌>>=◌, Returns}
use cript.Prelude.{arith, ℕ, zero, suc, ◌≡◌, refl, false, Option, none, some, List, [], ◌∷◌, ◌++◌}

linking : Unit {0}
unfolding list_node_init list_init list_append list_prepend list_before list_after link_back list_of
    list_unlink unlink_head move_loop list_move has all_distinct IsChain
linking = tt

-- nothing but the two empty lists 1 and 2
abbrev start : Memory
unfolding linking
start =
    list_init
      (list_init
        (record {
          nodes = λ n. record { prev = head_of 0; next = none; list = none };
          lists = λ l. record { head = none; tail = head_of 0; size = 0 };
        })
        1)
      2

-- the nodes from a pointer on
abbrev walk : ℕ → Memory → Option ℕ → List ℕ
walk zero m p = []
walk (suc f) m none = []
walk (suc f) m (some n) = n ∷ walk f m (m.nodes n).next

abbrev nodes_of : Memory → ℕ → List ℕ
nodes_of m l = walk 9 m (m.lists l).head

-- 7 and 8 are appended, 6 comes before them and 9 between them; then 7 goes, and the rest moves to the list 2.
abbrev played : Run (List ℕ × List ℕ)
unfolding linking
played = do
  m₁ ← list_after (list_prepend (list_append (list_append start 1 7) 1 8) 1 6) 7 9
  m₂ ← list_before m₁ 8 5
  m₃ ← list_unlink m₂ 7
  m₄ ← list_move m₃ 2 1
  ok (nodes_of m₂ 1, nodes_of m₄ 2)

played_lem : played ≡ ok (6 ∷ 7 ∷ 9 ∷ 5 ∷ 8 ∷ [], 6 ∷ 9 ∷ 5 ∷ 8 ∷ [])
unfolding linking
played_lem = refl

start-IsList : IsList start 1 []
unfolding linking
start-IsList = record { chain = refl; ends = refl; counted = refl; distinct = refl }

fresh : (has 7 [] ≡ false) × (has 8 (7 ∷ []) ≡ false)
unfolding linking
fresh = (refl, refl)

list_append-IsList_example : IsList (list_append start 1 7) 1 ([] ++ (7 ∷ []))
list_append-IsList_example = list_append-IsList start 1 7 [] start-IsList fresh.0

two : IsList (list_append (list_append start 1 7) 1 8) 1 (7 ∷ 8 ∷ [])
two =
    list_append-IsList (list_append start 1 7) 1 8 (7 ∷ [])
      (list_append-IsList start 1 7 [] start-IsList fresh.0) fresh.1

list_unlink-IsList_example :
    Returns
      (list_unlink (list_append (list_append start 1 7) 1 8) 7)
      λ m'. IsList m' 1 ([] ++ (8 ∷ [])) × ((m'.nodes 7).list ≡ none)
list_unlink-IsList_example =
    list_unlink-IsList (list_append (list_append start 1 7) 1 8) 1 7 [] (8 ∷ []) two (omega arith)
