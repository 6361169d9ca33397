-- ===== src/InstList/Laws.antt =====
-- The array as the sequence of what has been pushed.
use cript.Inst.{Inst}
use cript.InstList.{
  InstList, zero_inst, resize_capacity, inst_list_new, resize_cells, inst_list_resize, store_next,
  inst_list_append,
}
use cript.Prelude.{
  ℕ, zero, suc, ◌+◌, ◌/◌, ◌≤◌, ◌<◌, ◌≡◌, ◌≢◌, refl, ap, ◌==◌, if◌then◌else◌, List, [], ◌∷◌, ◌++◌,
  set, length, length-set, length-replicate, arith, inl, inr, Bool-cases, ◌∙◌,
}

-- the first `n` cells
abbrev pub take : ℕ → List Inst → List Inst
take zero xs = []
take (suc n) [] = []
take (suc n) (x ∷ xs) = x ∷ take n xs

abbrev pub contents : InstList → List Inst
contents l = take l.count l.insts

-- A capacity of 1 does not grow, and is left out.
pub record IsValid (l : InstList) : Type 0 where
  pub cells : length l.insts ≡ l.capacity
  pub fits : l.count ≤ l.capacity
  pub grows : l.capacity ≢ 1

take-set :
    (n : ℕ) (xs : List Inst) (x : Inst)
    → n < length xs
    → take (n + 1) (set xs n x) ≡ take n xs ++ x ∷ []
take-set n [] x h = absurd (omega arith)
take-set zero (y ∷ xs) x h = refl
take-set (suc n) (y ∷ xs) x h =
    let e : suc n + 1 ≡ suc (n + 1) = omega arith in
    rw e (ap (λ t. y ∷ t) (take-set n xs x (omega arith)))

length-resize_cells : (n : ℕ) (xs : List Inst) → length (resize_cells n xs) ≡ n
unfolding resize_cells
length-resize_cells zero xs = refl
length-resize_cells (suc n) [] = ap suc (length-resize_cells n [])
length-resize_cells (suc n) (x ∷ xs) = ap suc (length-resize_cells n xs)

take-resize_cells :
    (m n : ℕ) (xs : List Inst) → m ≤ n → m ≤ length xs → take m (resize_cells n xs) ≡ take m xs
unfolding resize_cells
take-resize_cells zero n xs h k = refl
take-resize_cells (suc m) zero xs h k = absurd (omega arith)
take-resize_cells (suc m) (suc n) [] h k = absurd (omega arith)
take-resize_cells (suc m) (suc n) (x ∷ xs) h k =
    ap (λ t. x ∷ t) (take-resize_cells m n xs (omega arith) (omega arith))

pub inst_list_new-IsValid :
    (capacity : ℕ)
    → capacity ≢ 1
    → IsValid (inst_list_new capacity) × (contents (inst_list_new capacity) ≡ [])
unfolding inst_list_new
inst_list_new-IsValid capacity ne =
    (record { cells = length-replicate capacity zero_inst; fits = omega arith; grows = ne }, refl)

store_next_lem :
    (l : InstList) (inst : Inst)
    → IsValid l
    → l.count < l.capacity
    → IsValid (store_next l inst) × (contents (store_next l inst) ≡ contents l ++ inst ∷ [])
unfolding store_next
store_next_lem l inst v room = (
  record { cells = length-set l.insts l.count inst ∙ v.cells; fits = omega arith; grows = v.grows },
  take-set l.count l.insts inst (omega (arith, v.cells)),
)

-- Growing keeps the sequence and makes room.
resize_lem :
    (l : InstList)
    → IsValid l
    → l.count ≡ l.capacity
    → let l' = inst_list_resize l (resize_capacity l.capacity) in
      IsValid l' × (contents l' ≡ contents l) × (l'.count < l'.capacity)
unfolding inst_list_resize resize_capacity
resize_lem l v full =
    let n = if l.capacity == 0 then 16 else l.capacity + l.capacity / 2 in
    (
      record { cells = length-resize_cells n l.insts; fits = ground arith; grows = ground arith },
      take-resize_cells l.count n l.insts (ground arith) (omega (arith, v.cells)),
      ground (arith, v.grows),
    )

-- Appending to a valid list keeps it valid, whether it grows or not, and adds the instruction at the
-- end of the sequence.
pub inst_list_append-contents :
    (l : InstList) (inst : Inst)
    → IsValid l
    → IsValid (inst_list_append l inst)
      × (contents (inst_list_append l inst) ≡ contents l ++ inst ∷ [])
unfolding inst_list_append
inst_list_append-contents l inst v = elim (Bool-cases (l.count == l.capacity)) [
  | inr room ↦ rw room (store_next_lem l inst v (ground arith))
  | inl full ↦
      let (v', same, room) = resize_lem l v (ground arith) in
      let (w, grown) =
        store_next_lem (inst_list_resize l (resize_capacity l.capacity)) inst v' room in
      rw full (w, grown ∙ ap (λ t. t ++ inst ∷ []) same)
]
