-- ===== src/Ir/Folding.antt =====
-- The numbers that src/ir_builder.c computes while it builds are those that src/cvm.c would compute.
use native.Mathlib.Nat.{div-le_self, mod-le}
use cript.Inst.{
  Inst, InstType, i_li, i_add, i_sub, i_mul, i_div, i_mod, i_seq, i_slt, i_sle, i_rs, i_rt,
  new_i_type,
}
use cript.Ir.Emit.{
  fold_or_emit, ir_builder_li, ir_builder_add, ir_builder_sub, ir_builder_mul, ir_builder_div,
  ir_builder_mod, ir_builder_seq, ir_builder_slt, ir_builder_sle,
}
use cript.Ir.Tables.{find_in_numeric_table}
use cript.Ir.{IrBuilder, assert_not_end}
use cript.Table.{TableOps}
use cript.Prelude.Run.{Run, ok, trap, ◌>>=◌, Ends}
use cript.Prelude.{
  ℕ, ◌%◌, ◌^◌, ◌<◌, ◌≡◌, refl, sym, ap, ◌∙◌, true, ◌==◌, some, arith, Bool, false, if◌then◌else◌,
  ◌/◌, by_test,
}
use cript.Value.Laws.{value_from_int-value_to_int}
use cript.Value.{Value, value_is_int, value_to_int, value_from_int}
use cript.Vm.Registers.{
  Regs, set_register, int_of, arith_inst, by_type, exec_li, exec_add, exec_sub, exec_mul, exec_div,
  exec_mod, exec_seq, exec_slt, exec_sle, add_op, sub_op, mul_op, div_op, mod_op, seq_op, slt_op,
  sle_op, bool_to_int,
}
use cript.Word.Signed.{magnitude, negate, is_negative, slt, sle, sdiv, smod}
use cript.Word.{word_mod}

li_lem :
    (rd n : ℕ) (regs : Regs)
    → rd < 2 ^ 16
    → n < 2 ^ 32
    → exec_li (new_i_type i_li rd n) regs ≡ ok (set_register regs rd (value_from_int n))
unfolding exec_li new_i_type
li_lem rd n regs h k =
    let e : rd % 2 ^ 16 ≡ rd = omega arith in
    let f : n % word_mod ≡ n = omega arith in rw (e, f) refl

int_of_lem : (v : Value) → value_is_int v ≡ true → int_of v ≡ ok (value_to_int v)
unfolding int_of
int_of_lem v h = rw h refl

bind_lem :
    {A : Type 0} (m : Run ℕ) (f g : ℕ → Run A)
    → Ends m (λ n. n < 2 ^ 32)
    → ((n : ℕ) → n < 2 ^ 32 → f n ≡ g n)
    → (m >>= f) ≡ (m >>= g)
bind_lem (ok n) f g small h = h n small
bind_lem trap f g small h = refl
bind_lem Run.forever f g small h = refl
bind_lem Run.wild f g small h = refl

-- When both operand registers of an arithmetic instruction hold numbers, and the operator gives words,
-- running the instruction comes to the same as computing the operator on the two numbers and running a load
-- of the result into the same register; if the operator traps, both trap.
pub arith_inst-exec_li :
    (op : ℕ → ℕ → Run ℕ) (inst : Inst) (regs : Regs)
    → inst.i_rd < 2 ^ 16
    → value_is_int (regs (i_rs inst)) ≡ true
    → value_is_int (regs (i_rt inst)) ≡ true
    → Ends
        (op (value_to_int (regs (i_rs inst))) (value_to_int (regs (i_rt inst))))
        (λ n. n < 2 ^ 32)
    → arith_inst op inst regs ≡ (
        op (value_to_int (regs (i_rs inst))) (value_to_int (regs (i_rt inst))) >>= λ n.
        exec_li (new_i_type i_li inst.i_rd n) regs)
unfolding arith_inst
arith_inst-exec_li op inst regs rd l r small =
    rw (int_of_lem (regs (i_rs inst)) l, int_of_lem (regs (i_rt inst)) r)
      (bind_lem _ _ _ small (λ n h. sym (li_lem inst.i_rd n regs rd h)))

eq_tests : (a b c d : ℕ) → (a ≡ b → c ≡ d) → (c ≡ d → a ≡ b) → (a == b) ≡ (c == d)
eq_tests a b c d f g = ground (arith, f, g)

-- On two words that are tagged as numbers, comparing the words, as `I_SEQ` does, comes to the same as
-- comparing the numbers, as folding does, and loading the result.
exec_seq-seq_op :
    (inst : Inst) (regs : Regs)
    → inst.i_rd < 2 ^ 16
    → regs (i_rs inst) < 2 ^ 32
    → regs (i_rt inst) < 2 ^ 32
    → value_is_int (regs (i_rs inst)) ≡ true
    → value_is_int (regs (i_rt inst)) ≡ true
    → exec_seq inst regs ≡ (
        seq_op (value_to_int (regs (i_rs inst))) (value_to_int (regs (i_rt inst))) >>= λ n.
        exec_li (new_i_type i_li inst.i_rd n) regs)
unfolding exec_seq
exec_seq-seq_op inst regs rd hl hr l r =
    let v = regs (i_rs inst) in
    let w = regs (i_rt inst) in
    let same = same_test v w hl hr l r in
    rw same (
      sym
        (li_lem inst.i_rd (bool_to_int (value_to_int v == value_to_int w)) regs rd (ground arith)))
  where
    same_test :
        (v w : Value)
        → v < 2 ^ 32
        → w < 2 ^ 32
        → value_is_int v ≡ true
        → value_is_int w ≡ true
        → (v == w) ≡ (value_to_int v == value_to_int w)
    same_test v w hv hw iv iw =
        let a = (value_from_int-value_to_int v hv iv).1 in
        let b = (value_from_int-value_to_int w hw iw).1 in
        let back = λ (e : value_to_int v ≡ value_to_int w). sym a ∙ ap value_from_int e ∙ b in
        let there = λ (e : v ≡ w). ap value_to_int e in
        eq_tests v w (value_to_int v) (value_to_int w) there back

-- the operations that are folded, with what the parser calls for them and what the machine runs
pub data Folded : Type 0 where
  folded_add : Folded
  folded_sub : Folded
  folded_mul : Folded
  folded_div : Folded
  folded_mod : Folded
  folded_seq : Folded
  folded_slt : Folded
  folded_sle : Folded

abbrev pub type_of : Folded → InstType
type_of folded_add = i_add
type_of folded_sub = i_sub
type_of folded_mul = i_mul
type_of folded_div = i_div
type_of folded_mod = i_mod
type_of folded_seq = i_seq
type_of folded_slt = i_slt
type_of folded_sle = i_sle

op_of : Folded → ℕ → ℕ → Run ℕ
op_of folded_add = add_op
op_of folded_sub = sub_op
op_of folded_mul = mul_op
op_of folded_div = div_op
op_of folded_mod = mod_op
op_of folded_seq = seq_op
op_of folded_slt = slt_op
op_of folded_sle = sle_op

magnitude_small : (a : ℕ) → magnitude a < 2 ^ 32
magnitude_small a = ground arith

either_small : (test : Bool) (m n : ℕ) → m < 2 ^ 32 → n < 2 ^ 32 → (if test then m else n) < 2 ^ 32
either_small true m n hm hn = hm
either_small false m n hm hn = hn

bit_small : (test : Bool) → bool_to_int test < 2 ^ 32
bit_small test = either_small test 1 0 (omega arith) (omega arith)

signed_small : (test : Bool) (q : ℕ) → q < 2 ^ 32 → (if test then negate q else q) < 2 ^ 32
signed_small test q h = either_small test (negate q) q (omega arith) h

sdiv_small : (a b : ℕ) → sdiv a b < 2 ^ 32
unfolding sdiv
sdiv_small a b =
    let h : magnitude a / magnitude b < 2 ^ 32 =
      omega (arith, div-le_self (magnitude a) (magnitude b), magnitude_small a) in
    either_small (is_negative a) _ _
      (either_small (is_negative b) _ (negate (magnitude a / magnitude b)) h (omega arith))
      (signed_small (is_negative b) _ h)

smod_small : (a b : ℕ) → smod a b < 2 ^ 32
unfolding smod
smod_small a b =
    let h : magnitude a % magnitude b < 2 ^ 32 =
      omega (arith, mod-le (magnitude a) (magnitude b), magnitude_small a) in
    signed_small (is_negative a) _ h

op_of_small : (f : Folded) (a b : ℕ) → Ends (op_of f a b) (λ n. n < 2 ^ 32)
unfolding op_of div_op mod_op
op_of_small folded_add a b = omega arith
op_of_small folded_sub a b = omega arith
op_of_small folded_mul a b = omega arith
op_of_small folded_div a b =
    by_test (λ (m : Run ℕ). Ends m (λ n. n < 2 ^ 32)) (b == 0) (λ _. tt) (λ _. sdiv_small a b)
op_of_small folded_mod a b =
    by_test (λ (m : Run ℕ). Ends m (λ n. n < 2 ^ 32)) (b == 0) (λ _. tt) (λ _. smod_small a b)
op_of_small folded_seq a b = bit_small (a == b)
op_of_small folded_slt a b = bit_small (slt a b)
op_of_small folded_sle a b = bit_small (sle a b)

-- what the machine does
by_type_folded :
    (f : Folded) (inst : Inst) (regs : Regs)
    → inst.i_rd < 2 ^ 16
    → regs (i_rs inst) < 2 ^ 32
    → regs (i_rt inst) < 2 ^ 32
    → value_is_int (regs (i_rs inst)) ≡ true
    → value_is_int (regs (i_rt inst)) ≡ true
    → by_type (type_of f) inst regs
      ≡ some (
          op_of f (value_to_int (regs (i_rs inst))) (value_to_int (regs (i_rt inst))) >>= λ n.
          exec_li (new_i_type i_li inst.i_rd n) regs)
unfolding by_type op_of exec_add exec_sub exec_mul exec_div exec_mod exec_slt exec_sle
by_type_folded folded_seq inst regs rd hl hr l r =
    ap (λ m. some m) (exec_seq-seq_op inst regs rd hl hr l r)
by_type_folded f inst regs rd hl hr l r =
    ap (λ m. some m) (arith_inst-exec_li (op_of f) inst regs rd l r (op_of_small f _ _))

module _ {T : Type 0} ⦃ops : TableOps T⦄ where
  abbrev pub ir_builder_of : Folded → IrBuilder T → ℕ → ℕ → ℕ → Run (ℕ × IrBuilder T)
  ir_builder_of folded_add = ir_builder_add
  ir_builder_of folded_sub = ir_builder_sub
  ir_builder_of folded_mul = ir_builder_mul
  ir_builder_of folded_div = ir_builder_div
  ir_builder_of folded_mod = ir_builder_mod
  ir_builder_of folded_seq = ir_builder_seq
  ir_builder_of folded_slt = ir_builder_slt
  ir_builder_of folded_sle = ir_builder_sle

  fold_or_emit_folds :
      (type : InstType) (op : ℕ → ℕ → Run ℕ) (builder b₁ b₂ : IrBuilder T) (bb rs rt : ℕ)
      (l r : Value)
      → assert_not_end builder bb ≡ ok tt
      → find_in_numeric_table builder bb rs ≡ (l, b₁)
      → find_in_numeric_table b₁ bb rt ≡ (r, b₂)
      → value_is_int l ≡ true
      → value_is_int r ≡ true
      → fold_or_emit type op builder bb rs rt
        ≡ (op (value_to_int l) (value_to_int r) >>= ir_builder_li b₂ bb)
  unfolding fold_or_emit
  fold_or_emit_folds type op builder b₁ b₂ bb rs rt l r free left right hl hr =
      rw (free, left, right, hl, hr) refl

  builds :
      (f : Folded) (builder b₁ b₂ : IrBuilder T) (bb rs rt : ℕ) (l r : Value)
      → assert_not_end builder bb ≡ ok tt
      → find_in_numeric_table builder bb rs ≡ (l, b₁)
      → find_in_numeric_table b₁ bb rt ≡ (r, b₂)
      → value_is_int l ≡ true
      → value_is_int r ≡ true
      → ir_builder_of f builder bb rs rt
        ≡ (op_of f (value_to_int l) (value_to_int r) >>= ir_builder_li b₂ bb)
  unfolding op_of ir_builder_add ir_builder_sub ir_builder_mul ir_builder_div ir_builder_mod
      ir_builder_seq ir_builder_slt ir_builder_sle
  builds folded_add = fold_or_emit_folds i_add add_op
  builds folded_sub = fold_or_emit_folds i_sub sub_op
  builds folded_mul = fold_or_emit_folds i_mul mul_op
  builds folded_div = fold_or_emit_folds i_div div_op
  builds folded_mod = fold_or_emit_folds i_mod mod_op
  builds folded_seq = fold_or_emit_folds i_seq seq_op
  builds folded_slt = fold_or_emit_folds i_slt slt_op
  builds folded_sle = fold_or_emit_folds i_sle sle_op

  -- For each of the eight operations that are folded: when the block is open and the builder knows numbers for both
  -- operands, and the registers hold these when the machine comes there, then there is one result, a number or a failed
  -- assertion: the builder loads it in place of emitting the instruction, and the instruction would do what that load does.
  pub ir_builder_of-by_type :
      (f : Folded) (builder b₁ b₂ : IrBuilder T) (bb : ℕ) (inst : Inst) (regs : Regs)
      → inst.i_rd < 2 ^ 16
      → regs (i_rs inst) < 2 ^ 32
      → regs (i_rt inst) < 2 ^ 32
      → value_is_int (regs (i_rs inst)) ≡ true
      → value_is_int (regs (i_rt inst)) ≡ true
      → assert_not_end builder bb ≡ ok tt
      → find_in_numeric_table builder bb (i_rs inst) ≡ (regs (i_rs inst), b₁)
      → find_in_numeric_table b₁ bb (i_rt inst) ≡ (regs (i_rt inst), b₂)
      → (result : Run ℕ) × (ir_builder_of f builder bb (i_rs inst) (i_rt inst)
          ≡ (result >>= ir_builder_li b₂ bb))
        × (by_type (type_of f) inst regs
            ≡ some (result >>= λ n. exec_li (new_i_type i_li inst.i_rd n) regs))
  ir_builder_of-by_type f builder b₁ b₂ bb inst regs rd hl hr l r free left right = (
    op_of f (value_to_int (regs (i_rs inst))) (value_to_int (regs (i_rt inst))),
    builds f builder b₁ b₂ bb (i_rs inst) (i_rt inst) _ _ free left right l r,
    by_type_folded f inst regs rd hl hr l r,
  )
