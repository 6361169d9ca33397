-- ===== src/Linked.antt =====
-- The intrusive doubly linked lists of src/list.h. Nodes and lists are known by their addresses; `prev` and `tail` are
-- pointers to the field that holds the pointer to a node: a list's `head` or another node's `next`.
pub mod Chain
pub mod Append
pub mod Parts
pub mod Unlink
pub mod Removal
use cript.Prelude.Run.{Run, ok, forever, wild, ◌>>=◌, ◌>>◌}
use cript.Prelude.{ℕ, zero, suc, ◌+◌, Bool, true, false, ◌==◌, if◌then◌else◌, Option, none, some}
use cript.Word.{sub}

pub data Slot : Type 0 where
  head_of : ℕ → Slot
  next_of : ℕ → Slot

pub record LinkedNode : Type 0 where
  pub prev : Slot
  pub next : Option ℕ
  pub list : Option ℕ

pub record LinkedList : Type 0 where
  pub head : Option ℕ
  pub tail : Slot
  pub size : ℕ

pub record Memory : Type 0 where
  pub nodes : ℕ → LinkedNode
  pub lists : ℕ → LinkedList

abbrev pub put {ℓ} : {A : Type ℓ} → (ℕ → A) → ℕ → A → ℕ → A
put f p v q = if q == p then v else f q

abbrev pub put_node : Memory → ℕ → LinkedNode → Memory
put_node m n v = record m { nodes = put m.nodes n v }

abbrev pub put_list : Memory → ℕ → LinkedList → Memory
put_list m l v = record m { lists = put m.lists l v }

-- through a pointer to a field
abbrev pub read : Memory → Slot → Option ℕ
read m (head_of l) = (m.lists l).head
read m (next_of n) = (m.nodes n).next

abbrev pub write : Memory → Slot → Option ℕ → Memory
write m (head_of l) v = put_list m l (record (m.lists l) { head = v })
write m (next_of n) v = put_node m n (record (m.nodes n) { next = v })

unfoldable pub list_node_init : Memory → ℕ → Memory
list_node_init m n = put_node m n (record (m.nodes n) { list = none })

unfoldable pub list_init : Memory → ℕ → Memory
list_init m l = put_list m l (record { head = none; tail = head_of l; size = 0 })

-- The last two lines: `tail` and `size` of the list.
abbrev pub with_tail : Memory → ℕ → Slot → Memory
with_tail m l tail = put_list m l (record (m.lists l) { tail = tail })

abbrev pub with_size : Memory → ℕ → ℕ → Memory
with_size m l size = put_list m l (record (m.lists l) { size = size })

unfoldable pub list_append : Memory → ℕ → ℕ → Memory
list_append m l n =
    let tail = (m.lists l).tail in
    let m₁ = put_node m n (record { prev = tail; next = none; list = some l }) in
    let m₂ = with_tail (write m₁ tail (some n)) l (next_of n) in
    with_size m₂ l ((m.lists l).size + 1)

-- `next->prev`, or the list's `tail` if there is no next node
unfoldable pub link_back : Memory → Option ℕ → ℕ → Slot → Memory
link_back m (some next) l prev = put_node m next (record (m.nodes next) { prev = prev })
link_back m none l prev = with_tail m l prev

unfoldable pub list_prepend : Memory → ℕ → ℕ → Memory
list_prepend m l n =
    let next = (m.lists l).head in
    let m₁ = put_node m n (record { prev = head_of l; next = next; list = some l }) in
    let m₂ = link_back (write m₁ (head_of l) (some n)) next l (next_of n) in
    with_size m₂ l ((m₂.lists l).size + 1)

abbrev pub list_or_wild : Option ℕ → Run ℕ
list_or_wild none = wild
list_or_wild (some l) = ok l

-- an access to the list of a node
unfoldable pub list_of : Memory → ℕ → Run ℕ
list_of m n = list_or_wild (m.nodes n).list

unfoldable pub list_before : Memory → ℕ → ℕ → Run Memory
list_before m old_node new_node = do
  l ← list_of m old_node
  let prev = (m.nodes old_node).prev
  let m₁ =
      write (put_node m new_node (record (m.nodes new_node) { prev = prev })) prev (some new_node)
  let m₂ = put_node m₁ new_node (record { prev = prev; next = some old_node; list = some l })
  let m₃ = put_node m₂ old_node (record (m₂.nodes old_node) { prev = next_of new_node })
  ok (with_size m₃ l ((m₃.lists l).size + 1))

unfoldable pub list_after : Memory → ℕ → ℕ → Run Memory
list_after m old_node new_node = do
  l ← list_of m old_node
  let next = (m.nodes old_node).next
  let m₁ = put_node m new_node (record { prev = next_of old_node; next = next; list = some l })
  let m₂ = link_back (write m₁ (next_of old_node) (some new_node)) next l (next_of new_node)
  ok (with_size m₂ l ((m₂.lists l).size + 1))

-- A node that is in no list has no list to count it.
unfoldable pub list_unlink : Memory → ℕ → Run Memory
list_unlink m n = do
  l ← list_of m n
  let node = m.nodes n
  let m₁ = link_back (write m node.prev node.next) node.next l node.prev
  let m₂ = with_size m₁ l (sub (m₁.lists l).size 1)
  ok (put_node m₂ n (record (m₂.nodes n) { list = none }))

-- the head of a list that is not empty
unfoldable pub unlink_head : Memory → Option ℕ → Run (ℕ × Memory)
unlink_head m none = wild
unlink_head m (some n) = list_unlink m n >>= λ m'. ok (n, m')

-- As many rounds as there are nodes to move; one more finds the source empty.
unfoldable pub move_loop : ℕ → Memory → ℕ → ℕ → Run Memory
move_loop zero m dst src = forever
move_loop (suc f) m dst src =
    let next =
      unlink_head m (m.lists src).head >>= λ r. move_loop f (list_append r.1 dst r.0) dst src in
    if (m.lists src).size == 0 then ok m else next

unfoldable pub list_move : Memory → ℕ → ℕ → Run Memory
list_move m dst src = let m' = list_init m dst in move_loop ((m'.lists src).size + 1) m' dst src
