-- ===== src/Scan.antt =====
-- The walk through an open-addressing table, along the indices of `_next_index` of src/hash_helper.h, up to
-- the first slot at which it does not go on. `forever` stands for a walk that has used up its fuel.
use cript.Hash.Mask.{next_index-lt}
use cript.Hash.Probe.{probe}
use cript.Hash.{next_index}
use cript.Prelude.Run.{Run, ok, forever, Returns, ok_injective}
use cript.Prelude.{
  ℕ, zero, suc, ◌^◌, ◌≤◌, ◌<◌, ◌≡◌, ◌≢◌, refl, Bool, true, false, if◌then◌else◌, arith, List,
  length, get_or, set, inl, inr, Bool-cases, sym, ap, ◌∙◌, subst, get_or-set_self, get_or-set_ne,
}

true≢false : true ≢ false
true≢false = λ h. cc

module _ {A : Type 0} (default : A) where
  unfoldable pub scan : ℕ → List A → ℕ → (A → Bool) → ℕ → Run ℕ
  scan zero slots capacity goes_on index = forever
  scan (suc f) slots capacity goes_on index =
      let rest = scan f slots capacity goes_on (next_index index capacity) in
      if goes_on (get_or slots index default) then rest else ok index

  -- It stops, with enough fuel, if it would stop at some slot on its way.
  pub scan_total :
      (f : ℕ) (slots : List A) (cap : ℕ) (goes_on : A → Bool) (i n : ℕ)
      → n < f
      → goes_on (get_or slots (probe cap n i) default) ≡ false
      → Returns (scan f slots cap goes_on i) λ j. Unit {0}
  unfolding scan probe
  scan_total zero slots cap g i n h s = absurd (omega arith)
  scan_total (suc f) slots cap g i zero h s = (i, rw s, tt)
  scan_total (suc f) slots cap g i (suc n) h s = elim (Bool-cases (g (get_or slots i default))) [
    | inl e ↦ rw e (scan_total f slots cap g (next_index i cap) n (omega arith) s)
    | inr e ↦ (i, rw e, tt)
  ]

  pub scan_stop :
      (f : ℕ) (slots : List A) (cap : ℕ) (goes_on : A → Bool) (i j : ℕ)
      → scan f slots cap goes_on i ≡ ok j
      → goes_on (get_or slots j default) ≡ false
  unfolding scan
  scan_stop zero slots cap g i j h = cc
  scan_stop (suc f) slots cap g i j h = ground (arith, scan_stop f slots cap g (next_index i cap) j)

  pub scan-lt :
      (f : ℕ) (slots : List A) (k : ℕ) (goes_on : A → Bool) (i j : ℕ)
      → k ≤ 31
      → i < 2 ^ k
      → scan f slots (2 ^ k) goes_on i ≡ ok j
      → j < 2 ^ k
  unfolding scan
  scan-lt zero slots k g i j hk hi h = cc
  scan-lt (suc f) slots k g i j hk hi h = ground (
    arith,
    next_index-lt k i hk,
    scan-lt f slots k g (next_index i (2 ^ k)) j hk (next_index-lt k i hk),
  )

  scan_on :
      (f : ℕ) (slots : List A) (cap : ℕ) (goes_on : A → Bool) (i : ℕ)
      → goes_on (get_or slots i default) ≡ true
      → scan (suc f) slots cap goes_on i ≡ scan f slots cap goes_on (next_index i cap)
  unfolding scan
  scan_on f slots cap g i e = rw e refl

  scan_off :
      (f : ℕ) (slots : List A) (cap : ℕ) (goes_on : A → Bool) (i : ℕ)
      → goes_on (get_or slots i default) ≡ false
      → scan (suc f) slots cap goes_on i ≡ ok i
  unfolding scan
  scan_off f slots cap g i e = rw e refl

  -- A write to another slot at which it would have stopped.
  pub scan-set_ne :
      (f : ℕ) (slots : List A) (cap : ℕ) (goes_on : A → Bool) (i j s : ℕ) (a : A)
      → scan f slots cap goes_on i ≡ ok j
      → s ≢ j
      → goes_on (get_or slots s default) ≡ false
      → scan f (set slots s a) cap goes_on i ≡ ok j
  scan-set_ne zero slots cap g i j s a h ne stops = unfold scan in cc
  scan-set_ne (suc f) slots cap g i j s a h ne stops =
      elim (Bool-cases (g (get_or slots i default))) [
        | inl e ↦
            let apart : s ≢ i = λ (same : s ≡ i).
              absurd
                (true≢false (sym e ∙ ap (λ m. g (get_or slots m default)) (sym same) ∙ stops)) in
            let kept = get_or-set_ne slots s i a default apart in
            scan_on f (set slots s a) cap g i (ap g kept ∙ e)
            ∙ scan-set_ne f slots cap g (next_index i cap) j s a
                (sym (scan_on f slots cap g i e) ∙ h) ne stops
        | inr e ↦
            let here : i ≡ j = ok_injective (sym (scan_off f slots cap g i e) ∙ h) in
            let kept = get_or-set_ne slots s i a default (λ same. ne (same ∙ here)) in
            scan_off f (set slots s a) cap g i (ap g kept ∙ e) ∙ ap ok here
      ]

  -- A write where a walk has stopped stops another walk there that goes on wherever the first does.
  pub scan-set_self :
      (f : ℕ) (slots : List A) (cap : ℕ) (before after : A → Bool) (i j : ℕ) (a : A)
      → scan f slots cap before i ≡ ok j
      → ((m : ℕ) → before (get_or slots m default) ≡ true → after (get_or slots m default) ≡ true)
      → j < length slots
      → after a ≡ false
      → scan f (set slots j a) cap after i ≡ ok j
  scan-set_self zero slots cap b g i j a h finer lt stops = unfold scan in cc
  scan-set_self (suc f) slots cap b g i j a h finer lt stops =
      elim (Bool-cases (b (get_or slots i default))) [
        | inl e ↦
            let rest = sym (scan_on f slots cap b i e) ∙ h in
            let later = scan_stop f slots cap b (next_index i cap) j rest in
            let apart : j ≢ i = λ (same : j ≡ i).
              absurd
                (true≢false (sym e ∙ ap (λ m. b (get_or slots m default)) (sym same) ∙ later)) in
            let kept = get_or-set_ne slots j i a default apart in
            scan_on f (set slots j a) cap g i (ap g kept ∙ finer i e)
            ∙ scan-set_self f slots cap b g (next_index i cap) j a rest finer lt stops
        | inr e ↦
            let here : i ≡ j = ok_injective (sym (scan_off f slots cap b i e) ∙ h) in
            let written = get_or-set_self slots i a default (rw here lt) in
            subst (λ m. scan (suc f) (set slots m a) cap g i ≡ ok m) here
              (scan_off f (set slots i a) cap g i (ap g written ∙ stops))
      ]
