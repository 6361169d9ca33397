-- ===== src/Ir/Chains.antt =====
-- The loop of `ir_builder_destroy` that fills in the place of a block comes to its end.
use cript.Inst.{Inst, i_imm}
use cript.InstList.{zero_inst}
use cript.Ir.Link.{target_imm, fill_chain}
use cript.Prelude.Run.{Returns}
use cript.Prelude.{
  ℕ, zero, suc, ◌^◌, ◌≤◌, ◌<◌, ◌≡◌, refl, ◌∙◌, true, false, ltb, ◌⊎◌, inl, inr, List, length,
  get_or, set, length-set, get_or-set_ne, arith, Bool-cases,
}
use cript.Word.{sar}

-- the instruction that waits before the one at `i`
abbrev pub before : List Inst → ℕ → ℕ
before insts i = sar (i_imm (get_or insts i zero_inst)) 2

-- Below `n`, each points to an earlier one, or to none.
abbrev pub IsBackward : ℕ → List Inst → Type 0
IsBackward n insts = (i : ℕ) → i < n → (before insts i < i) ⊎ (2 ^ 31 ≤ before insts i)

still :
    (insts : List Inst) (s : ℕ) (inst : Inst) (n : ℕ)
    → IsBackward n insts
    → s < n
    → IsBackward s (set insts s inst)
still insts s inst n back h i lt =
    let e = get_or-set_ne insts s i inst zero_inst (λ e. absurd (omega (arith, e))) in
    rw e (back i (omega arith))

-- With a fuel above `n`, from a start that is below `n` or negative, in a list of at least `n` instructions
-- that point backwards, the loop returns a list of the same length: it neither runs on nor leaves the list.
pub fill_chain-length :
    (fuel n : ℕ) (insts : List Inst) (start entry_point : ℕ)
    → n < fuel
    → n ≤ length insts
    → (start < n) ⊎ (2 ^ 31 ≤ start)
    → IsBackward n insts
    → Returns (fill_chain fuel insts start entry_point) λ r. length r ≡ length insts
unfolding fill_chain
fill_chain-length zero n insts start entry_point enough inside from back = absurd (omega arith)
fill_chain-length (suc fuel) n insts start entry_point enough inside (inr none) back =
    let stop : ltb start (2 ^ 31) ≡ false = ground arith in (insts, rw stop refl, refl)
fill_chain-length (suc fuel) n insts start entry_point enough inside (inl lt) back =
    elim (Bool-cases (ltb start (2 ^ 31))) [
      | inr stop ↦ (insts, rw stop refl, refl)
      | inl go ↦
          let inst = get_or insts start zero_inst in
          let filled = record inst { info = target_imm inst start entry_point } in
          let same = length-set insts start filled in
          let within : ltb start (length insts) ≡ true = ground arith in
          let (r, run, e) =
            fill_chain-length fuel start (set insts start filled) (before insts start) entry_point
              (omega arith) (omega (arith, same)) (back start lt)
              (still insts start filled n back lt) in
          (r, rw (go, within) run, e ∙ same)
    ]
