-- ===== src/Word/Bits.antt =====
-- Facts about `&` and `|` with the masks of the program.
use Prim.Native.Nat.{digits, bit_and-bitwise, bit_or-bitwise}
use native.Mathlib.Nat.{div-add-mod, mul-add-mod_self_left, mod-eq_of_lt, mod-lt, pow-suc}
use cript.Prelude.{
  ℕ, zero, suc, ◌+◌, ◌-◌, ◌*◌, ◌/◌, ◌%◌, ◌^◌, ◌≤◌, ◌<◌, min, max, bit_and, bit_or, ◌≡◌, refl, ap,
  ◌∙◌, arith,
}

-- The digits of `a` and `b` combined by `op`, for any fuel from `a` on; `g` ends them.
module _ (g : ℕ → ℕ) (op : ℕ → ℕ → ℕ) where
  digits-enough :
      (a b fuel more : ℕ) → a ≤ more → a ≤ fuel → digits g op fuel a b ≡ digits g op more a b
  digits-enough zero b zero zero k h = refl
  digits-enough zero b zero (suc more) k h = refl
  digits-enough zero b (suc fuel) zero k h = refl
  digits-enough zero b (suc fuel) (suc more) k h = refl
  digits-enough (suc a) b zero more k h = absurd (omega arith)
  digits-enough (suc a) b (suc fuel) zero k h = absurd (omega arith)
  digits-enough (suc a) b (suc fuel) (suc more) k h =
      let halves = digits-enough (suc a / 2) (b / 2) fuel more (omega arith) (omega arith) in
      omega (arith, halves)

-- The lowest digit of `a & b`, and the others.
pub bit_and_step : (a b : ℕ) → bit_and a b ≡ bit_and (a / 2) (b / 2) * 2 + min (a % 2) (b % 2)
bit_and_step zero b =
    let none = bit_and-bitwise 0 b in omega (arith, none, bit_and-bitwise 0 (b / 2))
bit_and_step (suc a) b =
    let half = suc a / 2 in
    let shorter = digits-enough (λ _. zero) min half (b / 2) a half (omega arith) (omega arith) in
    omega (arith, shorter, bit_and-bitwise half (b / 2), bit_and-bitwise (suc a) b)

nothing_left : (fuel a : ℕ) → a ≤ fuel → bit_and a 0 ≡ 0
nothing_left fuel zero h = omega (arith, bit_and-bitwise 0 0)
nothing_left zero (suc a) h = absurd (omega arith)
nothing_left (suc fuel) (suc a) h =
    let halves = nothing_left fuel (suc a / 2) (omega arith) in
    omega (arith, halves, bit_and_step (suc a) 0)

pub bit_and-zero : (a : ℕ) → bit_and a 0 ≡ 0
bit_and-zero a = nothing_left a a (omega arith)

pub pow_pos : (k : ℕ) → 0 < 2 ^ k
pow_pos zero = omega arith
pow_pos (suc k) = omega (arith, pow-suc 2 k, pow_pos k)

mod_double : (a m : ℕ) → 0 < m → a % (m * 2) ≡ a / 2 % m * 2 + a % 2
mod_double a m h =
    ap (λ x. x % (m * 2)) split
    ∙ mul-add-mod_self_left (m * 2) (a / 2 / m) _
    ∙ mod-eq_of_lt (omega (arith, mod-lt (a / 2) h))
  where
    split : a ≡ m * 2 * (a / 2 / m) + (a / 2 % m * 2 + a % 2)
    split = omega (arith, div-add-mod (a / 2) m)

mask_half : (m : ℕ) → 0 < m → ((m * 2 - 1) / 2 ≡ m - 1) × ((m * 2 - 1) % 2 ≡ 1)
mask_half m h = omega arith

-- `a & (2 ^ k - 1)` keeps the low `k` bits.
pub bit_and_mask : (k a : ℕ) → bit_and a (2 ^ k - 1) ≡ a % 2 ^ k
bit_and_mask zero a = omega (arith, bit_and-zero a)
bit_and_mask (suc k) a =
    let m = 2 ^ k in
    let (half, odd) = mask_half m (pow_pos k) in
    rw (pow-suc 2 k, mod_double a m (pow_pos k), bit_and_step, half, odd, bit_and_mask k (a / 2))
      (omega arith)

-- The tag of a value, `v & 3`.
pub bit_and_three : (a : ℕ) → bit_and a 3 ≡ a % 4
bit_and_three a = bit_and_mask 2 a

-- `a & -3` on words clears bit 1.
pub bit_and_minus_three : (a : ℕ) → a < 2 ^ 32 → bit_and a (2 ^ 32 - 3) ≡ a - 2 * (a / 2 % 2)
bit_and_minus_three a h = omega (
  arith,
  bit_and_step a (2 ^ 32 - 3),
  bit_and_step (a / 2) (2 ^ 31 - 2),
  bit_and_mask 30 (a / 2 / 2),
)

-- `a & -4` on words clears the two low bits.
pub bit_and_minus_four : (a : ℕ) → a < 2 ^ 32 → bit_and a (2 ^ 32 - 4) ≡ a / 4 * 4
bit_and_minus_four a h = omega (
  arith,
  bit_and_step a (2 ^ 32 - 4),
  bit_and_step (a / 2) (2 ^ 31 - 2),
  bit_and_mask 30 (a / 2 / 2),
)

-- The lowest digit of `a | b`, and the others.
pub bit_or_step : (a b : ℕ) → bit_or a b ≡ bit_or (a / 2) (b / 2) * 2 + max (a % 2) (b % 2)
bit_or_step zero b = omega (arith, bit_or-bitwise 0 b, bit_or-bitwise 0 (b / 2))
bit_or_step (suc a) b =
    let half = suc a / 2 in
    let shorter = digits-enough (λ x. x) max half (b / 2) a half (omega arith) (omega arith) in
    omega (arith, shorter, bit_or-bitwise half (b / 2), bit_or-bitwise (suc a) b)

bit_or-zero : (fuel a : ℕ) → a ≤ fuel → bit_or a 0 ≡ a
bit_or-zero fuel zero h = omega (arith, bit_or-bitwise 0 0)
bit_or-zero zero (suc a) h = absurd (omega arith)
bit_or-zero (suc fuel) (suc a) h =
    let halves = bit_or-zero fuel (suc a / 2) (omega arith) in
    omega (arith, halves, bit_or_step (suc a) 0)

-- `a | 2` sets bit 1.
pub bit_or_two : (a : ℕ) → bit_or a 2 ≡ a / 4 * 4 + 2 + a % 2
bit_or_two a = omega (
  arith,
  bit_or_step a 2,
  bit_or_step (a / 2) 1,
  bit_or-zero (a / 2 / 2) (a / 2 / 2) (omega arith),
)
