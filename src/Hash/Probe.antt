-- ===== src/Hash/Probe.antt =====
-- The probe sequence of src/hash_helper.h visits every slot of the table.
use native.Mathlib.Nat.{pow-suc, div-add-mod, mul-add-mod_self_left, mod-eq_of_lt, mod-lt}
use cript.Hash.Mask.{step, next_index-step}
use cript.Hash.{next_index}
use cript.Prelude.{
  ℕ, zero, suc, ◌+◌, ◌*◌, ◌/◌, ◌%◌, ◌^◌, ◌≤◌, ◌<◌, ◌≡◌, refl, sym, ap, ◌∙◌, ◌⊎◌, inl, inr, arith,
}
use cript.Word.Bits.{pow_pos}

-- `n` steps of the probe from the slot `i`
unfoldable pub probe : ℕ → ℕ → ℕ → ℕ
probe capacity zero i = i
probe capacity (suc n) i = probe capacity n (next_index i capacity)

steps : ℕ → ℕ → ℕ
steps zero i = i
steps (suc n) i = steps n (step i)

steps-add : (m n i : ℕ) → steps (m + n) i ≡ steps n (steps m i)
unfolding steps
steps-add zero n i = let e : 0 + n ≡ n = omega arith in rw e
steps-add (suc m) n i =
    let e : suc m + n ≡ suc (m + n) = omega arith in rw e (steps-add m n (step i))

probe-steps : (k n i : ℕ) → k ≤ 31 → probe (2 ^ k) n (i % 2 ^ k) ≡ steps n i % 2 ^ k
unfolding probe steps
probe-steps k zero i h = refl
probe-steps k (suc n) i h = rw (next_index-step k i h) (probe-steps k n (step i) h)

-- `m` steps add an odd multiple of `m` and a multiple of `4 * m`.
record Stride (m : ℕ) : Type 0 where
  odd : ℕ
  slope : ℕ
  moves : (i : ℕ) → steps m i ≡ i + m * (1 + 2 * odd) + 4 * m * slope * i

Stride-one : Stride 1
unfolding steps step
Stride-one = record { odd = 8388809; slope = 541534065; moves = λ i. omega arith }

Stride-double : (m : ℕ) → Stride m → Stride (m * 2)
Stride-double m s = record {
  odd = s.odd + s.slope * m * (1 + 2 * s.odd);
  slope = s.slope * (1 + 2 * m * s.slope);
  moves = λ i.
      let e : m * 2 ≡ m + m = omega arith in
      ap (λ t. steps t i) e ∙ steps-add m m i ∙ s.moves (steps m i) ∙ rw (s.moves i) (omega arith);
}

stride : (k : ℕ) → Stride (2 ^ k)
stride zero = Stride-one
stride (suc k) = rw (pow-suc 2 k) (Stride-double (2 ^ k) (stride k))

parity_cases : (a b : ℕ) → (a % 2 ≡ b % 2) ⊎ ((a + 1) % 2 ≡ b % 2)
parity_cases a b = ground arith

parity : (u : ℕ) → (u % 2 ≡ 0) ⊎ (u % 2 ≡ 1)
parity u = ground arith

mod_split : (m u r : ℕ) → 0 < m → r < m → (m * u + r) % (m * 2) ≡ m * (u % 2) + r
mod_split m u r h lt =
    ap (λ t. t % (m * 2)) split ∙ mul-add-mod_self_left (m * 2) (u / 2) _ ∙ mod-eq_of_lt small
  where
    split : m * u + r ≡ m * 2 * (u / 2) + (m * (u % 2) + r)
    split = let e : u ≡ 2 * (u / 2) + u % 2 = omega arith in omega (arith, ap (λ t. m * t) e)

    small : m * (u % 2) + r < m * 2
    small = elim (parity u) [ inl e ↦ rw e (omega arith) | inr e ↦ rw e (omega arith) ]

residue : (m x : ℕ) → 0 < m → x % (m * 2) ≡ m * (x / m % 2) + x % m
residue m x h =
    ap (λ t. t % (m * 2)) (sym (div-add-mod x m)) ∙ mod_split m (x / m) (x % m) h (mod-lt x h)

-- An odd number of strides `m` flips the digit of weight `m`.
residue_jump :
    (m x odd slope : ℕ)
    → 0 < m
    → (x + m * (1 + 2 * odd) + 4 * m * slope * x) % (m * 2) ≡ m * ((x / m + 1) % 2) + x % m
residue_jump m x odd slope h =
    ap (λ t. t % (m * 2)) split ∙ mod_split m u (x % m) h (mod-lt x h) ∙ rw flip
  where
    u : ℕ
    u = x / m + 1 + 2 * (odd + 2 * slope * x)

    split : x + m * (1 + 2 * odd) + 4 * m * slope * x ≡ m * u + x % m
    split = omega (arith, div-add-mod x m)

    flip : u % 2 ≡ (x / m + 1) % 2
    flip = omega arith

-- From every number some number of steps below `2 ^ k` leads to every residue modulo `2 ^ k`.
reaches : (k i j : ℕ) → (n : ℕ) × (n < 2 ^ k) × (steps n i % 2 ^ k ≡ j % 2 ^ k)
reaches zero i j = (0, omega arith, omega arith)
reaches (suc k) i j =
    let m = 2 ^ k in
    let (n, below, near) = reaches k i j in
    let x = steps n i in
    let s = stride k in
    let target = residue m j (pow_pos k) in
    elim (parity_cases (x / m) (j / m)) [
      | inl e ↦ (
        n,
        rw (pow-suc 2 k) (omega (arith, pow_pos k)),
        rw (pow-suc 2 k) (residue m x (pow_pos k) ∙ rw (e, near) (sym target)),
      )
      | inr e ↦ (
        n + m,
        rw (pow-suc 2 k) (omega arith),
        rw (pow-suc 2 k, steps-add n m i, s.moves x)
            (residue_jump m x s.odd s.slope (pow_pos k) ∙ rw (e, near) (sym target)),
      )
    ]

-- In a table of `2 ^ k` slots, for every `k` up to 31, the probe visits every slot from every slot,
-- in less than `2 ^ k` steps.
pub probe_visits_all :
    (k i j : ℕ) → k ≤ 31 → i < 2 ^ k → j < 2 ^ k → (n : ℕ) × (n < 2 ^ k) × (probe (2 ^ k) n i ≡ j)
probe_visits_all k i j h hi hj =
    let (n, below, near) = reaches k i j in
    (
      n,
      below,
      ap (probe (2 ^ k) n) (sym (mod-eq_of_lt hi)) ∙ probe-steps k n i h ∙ near ∙ mod-eq_of_lt hj,
    )
